-- ===== src/Assess/Nodes.antt =====
-- The checks that `assess` of verify/verify_mark.py makes for each source node.
use whpstanding.Prelude.{List, [], ◌∷◌}
use whpstanding.Result.{Result, ok, ◌>>=◌, ◌>>◌}
use whpstanding.Text.{Text}
use whpstanding.Dict.{Dict}
use whpstanding.Value.{Value, str, txt, ◌!◌, exact, iterate, value_eq}
use whpstanding.Env.{Env}
use whpstanding.Shape.{source_fields}
use whpstanding.Assess.Trace.{
  Tally, Scope, add_check, cap_expiry, allow_only, block, as_int, same_bounds, spans, record_grant,
  granted,
}

module _ (env : Env) (c : Scope) where
  unfoldable pub block_unknowns : List Value → Tally → Result Tally
  block_unknowns [] t = ok t
  block_unknowns (u ∷ us) t = do
    blocks ← iterate (← u ! "blocks")
    block_unknowns us (block blocks t)

  -- one round of `for h, e in n.items()`
  unfoldable pub assess_node : Text → Value → Tally → Result Tally
  assess_node hash e t = do
    let h = str hash
    x ← e ! "payload"
    exact x source_fields
    let t₁ =
        record_grant "SOURCE_AUTHORITY" h t
          (granted env c e (txt "WHP-SOURCE-ATTESTATION-v1") "SOURCE" x)
    status ← x ! "status"
    let t₂ = add_check "SOURCE_ACTIVE" h (value_eq status (txt "ACTIVE")) t₁
    bounded ← same_bounds x c.bounds
    let t₃ = add_check "SOURCE_BOUNDS" h bounded t₂
    covers ← spans x c.bounds
    until ← as_int (← x ! "valid_until")
    let t₄ = cap_expiry until (add_check "SOURCE_TIME" h covers t₃)
    operations ← iterate (← x ! "operations")
    unknowns ← iterate (← x ! "unknowns")
    block_unknowns unknowns (allow_only operations t₄)

  unfoldable pub assess_nodes : Dict Value → Tally → Result Tally
  assess_nodes [] t = ok t
  assess_nodes ((h, e) ∷ rest) t = do t' ← assess_node h e t; assess_nodes rest t'
