-- ===== src/Registry.antt =====
-- `verify_registry` of verify/verify_mark.py: the signed and current status of a result, from its
-- chain of registry events.
pub mod History
pub mod Regranted
pub mod Status
use whpstanding.Prelude.{
  ℕ, suc, false, not, String, List, [], ◌∷◌, Option, none, some, if◌then◌else◌, pos,
}
use whpstanding.Result.{Result, ok, err, ◌>>=◌, ◌>>◌, need, ◌and◌, for_each}
use whpstanding.Text.{Text}
use whpstanding.Value.{
  Value, null, int, str, txt, ◌!◌, ◌!!◌, exact, value_eq, is_null, truthy, iterate, contains_value,
}
use whpstanding.Compare.{◌=?◌, ◌≤?◌, text, agree, agree_all}
use whpstanding.Env.{Env, digest}
use whpstanding.Envelope.{unseal}
use whpstanding.Trust.{Trust, trust, grant, with_operations}
use whpstanding.Discovery.Resolution.{is_fresh}

unfoldable pub snapshot_fields : List String
snapshot_fields =
    "purchase_id" ∷ "result_hash" ∷ "mark_id" ∷ "status" ∷ "observed_at" ∷ "valid_until" ∷ "events"
    ∷ "trust_bundle" ∷ []

unfoldable pub event_fields : List String
event_fields =
    "purchase_id" ∷ "sequence" ∷ "previous_hash" ∷ "result_hash" ∷ "mark_id" ∷ "status" ∷ "at"
    ∷ "reason" ∷ "command" ∷ []

unfoldable pub final_statuses : List Value
final_statuses = txt "WITHDRAWN" ∷ txt "SUPERSEDED" ∷ []

-- The locals of the loop over the events: `i`, `previous` and `last`.
pub record Chain : Type 0 where
  pub index : ℕ
  pub previous : Value
  pub last : Option Value

abbrev pub empty_chain : Chain
empty_chain = record { index = 0; previous = null; last = none }

-- what the loop only reads: the result `p`, the snapshot `sp`, the keys and the revocations
pub record Registry : Type 0 where
  pub result : Value
  pub snapshot : Value
  pub admitted : Trust

module _ (env : Env) (g : Registry) where
  -- the first event: the status that the result was issued with, and no command
  unfoldable pub check_origin : Value → Result (Unit {0})
  check_origin ep = do
    mark ← g.result ! "mark_id"
    need
        (← (ep ! "status" =? ok (if truthy mark then txt "ACTIVE" else txt "ASSESSED_NO_MARK"))
          and (do ok (is_null (← ep ! "command"))))
        "REGISTRY_ORIGIN_INVALID"

  -- a later event: a command of the root, and a state that is not final
  unfoldable pub check_command : Value → Value → Value → Result (Unit {0})
  check_command previous last ep = do
    root ← g.snapshot ! "trust_bundle" !! "root_public_key"
    cp ← unseal env (← ep ! "command") (txt "WHP-REGISTRY-COMMAND-v1") root
    need
        (← (cp ! "expected_previous_hash" =? ok previous)
          and agree_all cp ep ("purchase_id" ∷ "status" ∷ "reason" ∷ "at" ∷ []))
        "REGISTRY_COMMAND_BINDING"
    need
        (← (do ok (not (contains_value (← last ! "status") final_statuses)))
          and (last ! "at" ≤? ep ! "at"))
        "REGISTRY_TRANSITION_INVALID"

  -- `last` is there at every event but the first.
  unfoldable pub check_step : Value → Option Value → Value → Result (Unit {0})
  check_step previous none ep = check_origin ep
  check_step previous (some last) ep = check_command previous last ep

  -- one round of the loop
  unfoldable pub check_event : Chain → Value → Result Chain
  check_event chain e = do
    ep ← e ! "payload"
    exact ep event_fields
    bounds ← g.result ! "submission" !! "bounds"
    time ← ep ! "at"
    grant env g.admitted.keys g.admitted.revocations e (txt "WHP-REGISTRY-EVENT-v1") "REGISTRY"
        bounds time
    need
        (← (ep ! "sequence" =? ok (int (pos chain.index)))
          and (ep ! "previous_hash" =? ok chain.previous)
          and agree ep g.result "purchase_id"
          and agree ep g.snapshot "result_hash"
          and agree ep g.result "mark_id")
        "REGISTRY_CHAIN_INVALID"
    check_step chain.previous chain.last ep
    h ← digest env e
    ok (record { index = suc chain.index; previous = str h; last = some ep })

  unfoldable pub check_events : Chain → List Value → Result Chain
  check_events chain [] = ok chain
  check_events chain (e ∷ es) = do chain' ← check_event chain e; check_events chain' es

  unfoldable pub last_event : Option Value → Result Value
  last_event none = need false "REGISTRY_EMPTY" >> ok null
  last_event (some ep) = ok ep

  -- an active result expires
  unfoldable pub timed_status : Value → Value → Result Value
  timed_status last at = do
    status ← last ! "status"
    expired ← (ok (value_eq status (txt "ACTIVE"))) and (g.result ! "expires_at" ≤? ok at)
    ok (if expired then txt "EXPIRED" else status)

  unfoldable pub regrant : String → String → Value → Value → Result Value
  regrant kind role at e = do
    bounds ← g.result ! "submission" !! "bounds"
    ctx ← with_operations bounds (← e ! "payload" !! "operations")
    grant env g.admitted.keys g.admitted.revocations e (txt kind) role ctx at

  -- all the authorities that the result rests on, asked again at the time `at`
  unfoldable pub regrant_all : Value → Value → Result (Unit {0})
  regrant_all result at = do
    kind ← result ! "protected" !! "type"
    bounds ← g.result ! "submission" !! "bounds"
    grant env g.admitted.keys g.admitted.revocations result kind "ISSUER" bounds at
    nodes ← iterate (← g.result ! "submission" !! "nodes")
    for_each (λ e. regrant "WHP-SOURCE-ATTESTATION-v1" "SOURCE" at e >> ok tt) nodes
    transitions ← iterate (← g.result ! "submission" !! "transitions")
    for_each (λ e. regrant "WHP-TRANSITION-WARRANT-v1" "TRANSITION" at e >> ok tt) transitions

  -- `except Exception: expected = 'LIMITED'`
  unfoldable pub limit_status : Value → Result (Unit {0}) → Value
  limit_status status (ok u) = status
  limit_status status (err f) = txt "LIMITED"

  unfoldable pub current_status : Value → Value → Value → Value
  current_status result status at =
      if value_eq status (txt "ACTIVE") then limit_status status (regrant_all result at) else status

module _ (env : Env) where
  unfoldable pub verify_registry : Value → Value → Text → Text → Value → Result Value
  verify_registry snapshot result result_hash pin at = do
    p ← result ! "payload"
    sp ← snapshot ! "payload"
    exact sp snapshot_fields
    admitted ← trust env (← sp ! "trust_bundle") pin at
    bounds ← p ! "submission" !! "bounds"
    grant env admitted.keys admitted.revocations snapshot (txt "WHP-REGISTRY-SNAPSHOT-v1")
        "REGISTRY" bounds at
    need (← is_fresh sp at) "REGISTRY_SNAPSHOT_STALE"
    need
        (← agree sp p "purchase_id"
          and (sp ! "result_hash" =? text result_hash)
          and agree sp p "mark_id")
        "REGISTRY_RESULT_BINDING"
    let g : Registry = record { result = p; snapshot = sp; admitted = admitted }
    chain ← check_events env g empty_chain (← iterate (← sp ! "events"))
    last ← last_event env g chain.last
    timed ← timed_status env g last at
    let expected = current_status env g result timed at
    need (← sp ! "status" =? ok expected) "REGISTRY_STATUS_MISMATCH"
    ok expected
