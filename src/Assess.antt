-- ===== src/Assess.antt =====
-- `assess` of verify/verify_mark.py: the deterministic evaluation of a submission. The steps for one
-- node and one transition are in `Nodes` and `Passages`.
pub mod Trace
pub mod Nodes
pub mod Passages
pub mod Narrow
pub mod Sources
pub mod Preserved
pub mod Warrants
pub mod Index
pub mod Outcome
pub mod Verdict
use whpstanding.Prelude.{
  ℕ, Bool, true, false, not, ◌&&◌, String, List, [], ◌∷◌, length, all, keep, distinct, ltb, leb,
  ◌==◌, map, if◌then◌else◌, ℤ, pos, ◌+ℤ◌, min_ℤ, max_ℤ, Option, none, some,
}
use whpstanding.Result.{Result, ok, ◌>>=◌, ◌>>◌, need, each}
use whpstanding.Text.{Text, text_eq}
use whpstanding.Dict.{Dict, get, keys, has_text, put}
use whpstanding.Value.{
  Value, int, str, obj, txt, dict, ◌!◌, ◌!!◌, exact, iterate, as_text, value_eq, contains_value,
  within,
}
use whpstanding.Env.{Env, digest}
use whpstanding.Trust.{Trust, trust, profile_hash}
use whpstanding.Shape.{ops, op_values, submission_fields, input_shape}
use whpstanding.Graph.{is_closed}
use Trace.{Check, Tally, Scope, payload_of, as_int, add_check, root_matches}
use Nodes.{assess_nodes}
use Passages.{assess_transitions}

-- What `assess` returns.
pub record Assessment : Type 0 where
  pub established : Bool
  pub permitted : List Text
  pub checks : List Check
  pub expiry : ℤ
  pub components : Value

-- `{digest(e['payload']): e for e in s['nodes']}`
unfoldable pub index_nodes : Env → List Value → Dict Value → Result (Dict Value)
index_nodes env [] n = ok n
index_nodes env (e ∷ es) n = do h ← digest env (← e ! "payload"); index_nodes env es (put h e n)

-- `{e['payload']['to']: e for e in s['transitions']}`, each with its `from`
unfoldable pub index_edges : List Value → Dict (List Text) → Result (Dict (List Text))
index_edges [] edges = ok edges
index_edges (e ∷ es) edges = do
  t ← e ! "payload"
  to ← as_text (← t ! "to")
  from ← each as_text (← iterate (← t ! "from"))
  index_edges es (put to from edges)

-- `(e['payload']['id'], e['payload']['version'])`
unfoldable pub version_key : Value → Result (Value × Value)
version_key e = do x ← e ! "payload"; id ← x ! "id"; version ← x ! "version"; ok (id, version)

unfoldable pub same_version : Value × Value → Value × Value → Bool
same_version (i, v) (j, w) = value_eq i j && value_eq v w

unfoldable pub outcome_text : Bool → Value
outcome_text b = if b then txt "ESTABLISHED" else txt "NOT_ESTABLISHED"

-- `components`, in the order in which the code adds them
unfoldable pub components_of : Bool → ℕ → Value
components_of established transitions =
    let outcome = outcome_text established in
    let relation = if transitions == 0 then txt "NOT_ASSESSED" else outcome in
    obj (
      dict (
        ("SOURCE", outcome)
        ∷ ("CONTEXT", outcome)
        ∷ ("UNKNOWN", outcome)
        ∷ ("RELATION", relation)
        ∷ ("PASSAGE", relation)
        ∷ ("CONTINUITY", txt "NOT_ASSESSED")
        ∷ ("ACTION_BOUNDARY", txt "NOT_ASSESSED")
        ∷ []))

-- The end of `assess`: all checks must have passed, and only then are operations permitted.
unfoldable pub conclude : Tally → ℕ → Assessment
conclude t transitions =
    let established = all (λ c. c.passed) t.checks in
    record {
      established = established;
      permitted = if established then keep (λ op. has_text op t.allowed) ops else [];
      checks = t.checks;
      expiry = max_ℤ (pos 0) t.expiry;
      components = components_of established transitions;
    }

-- What must hold before anything is assessed.
unfoldable pub check_submission : Env → Value → Value → Result (Unit {0})
check_submission env s profile = do
  input_shape env s
  exact s submission_fields
  need (value_eq (← s ! "version") (txt "WHP-STANDING-SUBMISSION-v1")) "SUBMISSION_VERSION"
  id ← profile ! "id"
  version ← profile ! "version"
  let expected = obj (dict (("id", id) ∷ ("version", version) ∷ ("sha256", str profile_hash) ∷ []))
  need (value_eq (← s ! "profile") expected) "SUBMISSION_PROFILE"
  nodes ← iterate (← s ! "nodes")
  transitions ← iterate (← s ! "transitions")
  operation ← s ! "requested_operation"
  need
      (contains_value operation op_values
        && ltb 0 (length nodes)
        && leb (length nodes) 64
        && leb (length transitions) 64)
      "SUBMISSION_LIMITS"

module _ (env : Env) where
  -- `assess` after `trust`, with `c` the checked scope and both dicts built
  unfoldable pub assess_graph :
      Scope → Value → List Value → Dict (List Text) → Value → Result Assessment
  assess_graph c s transitions edges profile = do
    root ← s ! "object" !! "root"
    root_text ← as_text root
    identity ← root_matches (payload_of c.nodes root_text) (← s ! "object")
    current ← within (← c.bounds ! "valid_from") c.at (← c.bounds ! "valid_until")
    bound ← as_int (← c.bounds ! "valid_until")
    authorized ← as_int (← c.trust.profile ! "valid_until")
    now ← as_int c.at
    seconds ← as_int (← profile ! "max_validity_seconds")
    let tally : Tally = record {
      checks =
          record { rule = "SOURCE_IDENTITY"; object = root; passed = identity }
          ∷ record { rule = "ASSESSMENT_TIME"; object = root; passed = current }
          ∷ [];
      expiry = min_ℤ (min_ℤ bound authorized) (now +ℤ seconds);
      allowed = ops;
    }
    tally₁ ← assess_nodes env c c.nodes tally
    let closed = is_closed (keys c.nodes) edges root_text
    let tally₂ = add_check "GRAPH_CLOSURE" root closed tally₁
    tally₃ ← assess_transitions env c transitions tally₂
    operation ← as_text (← s ! "requested_operation")
    let requested = has_text operation tally₃.allowed
    ok (conclude (add_check "REQUESTED_OPERATION" root requested tally₃) (length transitions))

  unfoldable pub assess : Value → Value → Text → Value → Value → Result Assessment
  assess s bundle pin at profile = do
    check_submission env s profile
    nodes ← iterate (← s ! "nodes")
    transitions ← iterate (← s ! "transitions")
    admitted ← trust env bundle pin at
    n ← index_nodes env nodes []
    need (length n == length nodes) "DUPLICATE_NODES"
    versions ← each version_key nodes
    need (length (distinct same_version versions) == length n) "DUPLICATE_VERSIONS"
    edges ← index_edges transitions []
    need (length edges == length transitions) "MULTIPLE_INCOMING_WARRANTS"
    bounds ← s ! "bounds"
    let c : Scope = record { trust = admitted; nodes = n; bounds = bounds; at = at }
    assess_graph c s transitions edges profile
