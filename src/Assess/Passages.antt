-- ===== src/Assess/Passages.antt =====
-- The checks that `assess` of verify/verify_mark.py makes for each transition.
use mathlib.Core.Option
use whpstanding.Prelude.{
  Bool, false, ◌&&◌, String, List, [], ◌∷◌, Option, none, some, length, all, distinct, ltb, ◌==◌,
  map, if◌then◌else◌,
}
use whpstanding.Result.{Result, ok, ◌>>=◌, ◌>>◌, need, ◌and◌, each, all_of}
use whpstanding.Text.{Text, text_eq, text_lt}
use whpstanding.Dict.{get, has_key}
use whpstanding.Value.{
  Value, str, obj, txt, list, dict, ◌!◌, ◌!!◌, exact, iterate, as_text, value_eq, truthy, contains,
  contains_value, found_or_missing,
}
use whpstanding.Canonical.{canonical}
use whpstanding.Env.{Env, digest}
use whpstanding.Shape.{transition_fields}
use whpstanding.Assess.Trace.{
  Tally, Scope, add_check, cap_expiry, allow_only, as_int, payload_of, same_bounds, spans,
  record_grant, granted,
}

-- `sorted(xs)` of texts
unfoldable pub insert_text : Text → List Text → List Text
insert_text t [] = t ∷ []
insert_text t (x ∷ xs) = if text_lt x t then x ∷ insert_text t xs else t ∷ x ∷ xs

unfoldable pub sort_texts : List Text → List Text
sort_texts [] = []
sort_texts (x ∷ xs) = insert_text x (sort_texts xs)

unfoldable pub same_content : Value → Value → Result Bool
same_content x y = do a ← canonical x 0; b ← canonical y 0; ok (text_eq a b)

-- `COPY`: one parent, whose content and status the target repeats
unfoldable pub is_copy : Value → List Value → Result Bool
is_copy target (p ∷ []) =
    (do same_content (← target ! "content") (← p ! "content"))
    and (do ok (value_eq (← target ! "epistemic_status") (← p ! "epistemic_status")))
is_copy target _ = ok false

-- `all(v in target[name] for p in parents for v in p[name])`
unfoldable pub preserves : String → Value → List Value → Result Bool
preserves name target parents =
    all_of (λ p. p ! name >>= iterate >>= all_of (λ v. target ! name >>= contains v)) parents

-- `all(op in t['operations'] and all(op in p['operations'] for p in parents) for op in …)`
unfoldable pub escalates_nothing : Value → Value → List Value → Result Bool
escalates_nothing t target parents = do
  operations ← iterate (← target ! "operations")
  all_of
      (λ op.
        (t ! "operations" >>= contains op)
        and all_of (λ p. p ! "operations" >>= contains op) parents)
      operations

-- the payloads of the parents, or nothing if one is missing
unfoldable pub all_found : List (Option Value) → Option (List Value)
all_found [] = some []
all_found (none ∷ rest) = none
all_found (some p ∷ rest) = Option.map (λ ps. p ∷ ps) (all_found rest)

module _ (env : Env) (c : Scope) where
  -- `{'hash': ph, 'content': n[ph]['payload']['content']}`
  unfoldable pub composed_member : Text → Result Value
  composed_member ph = do
    e ← found_or_missing (get ph c.nodes)
    content ← e ! "payload" !! "content"
    ok (obj (dict (("hash", str ph) ∷ ("content", content) ∷ [])))

  -- `COMPOSE`: the target's content is the list of its parents' contents, by hash
  unfoldable pub is_composition : Value → List Text → Result Bool
  is_composition target from =
      (do
        content ← target ! "content"
        members ← each composed_member (sort_texts from)
        same_content content
            (obj (dict (("kind", txt "COMPOSE") ∷ ("members", list members) ∷ []))))
      and (do ok (value_eq (← target ! "epistemic_status") (txt "REPORT")))

  -- the checks of a transition whose target and parents are there
  unfoldable pub assess_passage :
      Value → Value → List Text → Option Value → Option (List Value) → Tally → Result Tally
  assess_passage h t from (some target) (some parents) tally =
      if truthy target
      then (do
        transform ← t ! "transform"
        exactly ←
            (if value_eq transform (txt "COPY")
              then is_copy target parents
              else is_composition target from)
        qualifiers ← preserves "qualifiers" target parents
        unknowns ← preserves "unknowns" target parents
        force ← escalates_nothing t target parents
        ok (
            add_check "NO_FORCE_ESCALATION" h force (
              add_check "UNKNOWNS_PRESERVED" h unknowns (
                add_check "QUALIFIERS_PRESERVED" h qualifiers
                  (add_check "EXACT_TRANSFORMATION" h exactly tally)))))
      else ok (add_check "TRANSITION_REFERENCES" h false tally)
  assess_passage h t from _ _ tally = ok (add_check "TRANSITION_REFERENCES" h false tally)

  -- one round of `for e in s['transitions']`
  unfoldable pub assess_transition : Value → Tally → Result Tally
  assess_transition e tally = do
    t ← e ! "payload"
    hash ← digest env t
    let h = str hash
    exact t transition_fields
    from ← each as_text (← iterate (← t ! "from"))
    transform ← t ! "transform"
    need
        (ltb 0 (length from)
          && length from == length (distinct text_eq from)
          && contains_value transform (txt "COPY" ∷ txt "COMPOSE" ∷ []))
        "TRANSITION_SHAPE"
    let t₁ =
        record_grant "TRANSITION_AUTHORITY" h tally
          (granted env c e (txt "WHP-TRANSITION-WARRANT-v1") "TRANSITION" t)
    bounded ← same_bounds t c.bounds and spans t c.bounds
    until ← as_int (← t ! "valid_until")
    operations ← iterate (← t ! "operations")
    let t₂ = allow_only operations (cap_expiry until (add_check "TRANSITION_BOUNDS" h bounded t₁))
    evidence ← each as_text (← iterate (← t ! "warrant" !! "evidence_hashes"))
    let evident = ltb 0 (length evidence) && all (λ x. has_key x c.nodes) evidence
    to ← as_text (← t ! "to")
    assess_passage h t from (payload_of c.nodes to) (all_found (map (payload_of c.nodes) from))
        (add_check "WARRANT_EVIDENCE" h evident t₂)

  unfoldable pub assess_transitions : List Value → Tally → Result Tally
  assess_transitions [] t = ok t
  assess_transitions (e ∷ es) t = do t' ← assess_transition e t; assess_transitions es t'
