-- ===== src/Shape.antt =====
-- `input_shape` of verify/verify_mark.py: the closed structural contract of a submission. Its local
-- functions `text`, `integer`, `window`, `array`, `unique`, `operations` and `hashed` are `check_*`.
use whpstanding.Prelude.{
  ℕ, ◌/◌, false, ◌&&◌, String, List, [], ◌∷◌, length, all, distinct, ltb, leb, ◌==◌, map,
  if◌then◌else◌, pos,
}
use whpstanding.Result.{
  encoding_error, type_error, Result, ok, err, ◌>>=◌, ◌>>◌, need, each, for_each,
}
use whpstanding.Text.{Text, lit, text_eq, has_surrogate, utf16be, is_hex_lower, is_reference_char}
use whpstanding.Value.{
  Value, int, str, arr, items, txt, ◌!◌, exact, iterate, is_null, contains_value, lt_value,
}
use whpstanding.Canonical.{canonical, max_integer}
use whpstanding.Env.{Env, decode, load_key}

-- `OPS`
unfoldable pub ops : List Text
ops = lit "INFORM" ∷ lit "RECOMMEND" ∷ lit "EXECUTE" ∷ []

unfoldable pub op_values : List Value
op_values = map str ops

unfoldable pub check_text : Value → Result (Unit {0})
check_text (str s) =
    if has_surrogate s
    then err encoding_error
    else (let units = length (utf16be s) / 2 in
        need (ltb 0 units && leb units 4096) "TEXT_REQUIRED")
check_text _ = need false "TEXT_REQUIRED"

-- `type(v) is int`, so a bool is refused.
unfoldable pub check_integer : Value → Result (Unit {0})
check_integer (int (pos n)) = need (leb n max_integer) "INTEGER_REQUIRED"
check_integer _ = need false "INTEGER_REQUIRED"

unfoldable pub check_window : Value → Result (Unit {0})
check_window v = do
  check_integer (← v ! "valid_from")
  check_integer (← v ! "valid_until")
  until ← v ! "valid_until"
  from ← v ! "valid_from"
  need (← lt_value from until) "INVALID_TIME_WINDOW"

unfoldable pub check_array : Value → ℕ → Result (Unit {0})
check_array (arr vs) maximum = need (leb (length (items vs)) maximum) "ARRAY_INVALID"
check_array _ maximum = need false "ARRAY_INVALID"

unfoldable pub check_unique : List Value → Result (Unit {0})
check_unique vs = do
  texts ← each (λ x. canonical x 0) vs
  need (length (distinct text_eq texts) == length vs) "DUPLICATE_ITEM"

unfoldable pub check_operations : Value → Result (Unit {0})
check_operations v = do
  check_array v 3
  vs ← iterate v
  check_unique vs
  need (all (λ x. contains_value x op_values) vs) "OPERATION_INVALID"

unfoldable pub check_hash : Value → Result (Unit {0})
check_hash (str s) = need (length s == 64 && all is_hex_lower s) "HASH_INVALID"
check_hash _ = need false "HASH_INVALID"

-- `re.fullmatch('[A-Za-z0-9_-]{16,96}', v)`
unfoldable pub check_reference : Value → Result (Unit {0})
check_reference (str s) =
    need (leb 16 (length s) && leb (length s) 96 && all is_reference_char s)
      "CLIENT_REFERENCE_INVALID"
check_reference _ = err type_error

unfoldable pub check_unknown : Value → Result (Unit {0})
check_unknown u = do
  exact u ("id" ∷ "description" ∷ "blocks" ∷ [])
  check_text (← u ! "id")
  check_text (← u ! "description")
  check_operations (← u ! "blocks")

unfoldable pub source_fields : List String
source_fields =
    "id" ∷ "version" ∷ "content" ∷ "locator" ∷ "epistemic_status" ∷ "qualifiers" ∷ "unknowns"
    ∷ "operations" ∷ "scope" ∷ "jurisdiction" ∷ "valid_from" ∷ "valid_until" ∷ "status"
    ∷ "prior_hash" ∷ []

unfoldable pub transition_fields : List String
transition_fields =
    "from" ∷ "to" ∷ "transform" ∷ "operations" ∷ "scope" ∷ "jurisdiction" ∷ "valid_from"
    ∷ "valid_until" ∷ "warrant" ∷ []

unfoldable pub submission_fields : List String
submission_fields =
    "version" ∷ "client_reference" ∷ "buyer_key" ∷ "profile" ∷ "object" ∷ "bounds"
    ∷ "requested_operation" ∷ "nodes" ∷ "transitions" ∷ []

unfoldable pub epistemic_statuses : List Value
epistemic_statuses =
    txt "OBSERVATION"
    ∷ txt "REPORT"
    ∷ txt "FINDING"
    ∷ txt "INFERENCE"
    ∷ txt "HYPOTHESIS"
    ∷ txt "UNKNOWN"
    ∷ []

unfoldable pub source_statuses : List Value
source_statuses =
    txt "ACTIVE" ∷ txt "CORRECTED" ∷ txt "SUPERSEDED" ∷ txt "DISPUTED" ∷ txt "WITHDRAWN" ∷ []

unfoldable pub check_prior : Value → Result (Unit {0})
check_prior v = if is_null v then ok tt else check_hash v

unfoldable pub check_node : Value → Result (Unit {0})
check_node e = do
  x ← e ! "payload"
  exact x source_fields
  for_each (λ k. x ! k >>= check_text)
      ("id" ∷ "version" ∷ "locator" ∷ "scope" ∷ "jurisdiction" ∷ [])
  check_window x
  check_operations (← x ! "operations")
  qualifiers ← x ! "qualifiers"
  check_array qualifiers 128
  check_unique (← iterate qualifiers)
  for_each check_text (← iterate qualifiers)
  unknowns ← x ! "unknowns"
  check_array unknowns 64
  us ← iterate unknowns
  check_unique us
  check_unique (← each (λ u. u ! "id") us)
  for_each check_unknown us
  check_prior (← x ! "prior_hash")
  status ← x ! "epistemic_status"
  state ← x ! "status"
  need (contains_value status epistemic_statuses && contains_value state source_statuses)
      "SOURCE_ENUM_INVALID"

unfoldable pub check_transition : Value → Result (Unit {0})
check_transition e = do
  t ← e ! "payload"
  exact t transition_fields
  from ← t ! "from"
  check_array from 64
  check_unique (← iterate from)
  check_hash (← t ! "to")
  for_each check_hash (← iterate from)
  check_window t
  check_operations (← t ! "operations")
  check_text (← t ! "scope")
  check_text (← t ! "jurisdiction")
  warrant ← t ! "warrant"
  exact warrant ("statement" ∷ "evidence_hashes" ∷ [])
  check_text (← warrant ! "statement")
  hashes ← warrant ! "evidence_hashes"
  check_array hashes 64
  check_unique (← iterate hashes)
  for_each check_hash (← iterate hashes)

-- the buyer's key: an Ed25519 key in its own DER form
unfoldable pub check_buyer_key : Env → Value → Result (Unit {0})
check_buyer_key env v = do
  der ← decode env v
  k ← load_key env der
  need (k.is_ed25519 && text_eq k.spki der) "INVALID_BUYER_KEY"

unfoldable pub input_shape : Env → Value → Result (Unit {0})
input_shape env s = do
  canonical s 16
  exact s submission_fields
  check_reference (← s ! "client_reference")
  check_buyer_key env (← s ! "buyer_key")
  object ← s ! "object"
  exact object ("id" ∷ "version" ∷ "root" ∷ [])
  check_text (← object ! "id")
  check_text (← object ! "version")
  check_hash (← object ! "root")
  bounds ← s ! "bounds"
  exact bounds ("scope" ∷ "jurisdiction" ∷ "valid_from" ∷ "valid_until" ∷ [])
  check_text (← bounds ! "scope")
  check_text (← bounds ! "jurisdiction")
  check_window bounds
  nodes ← s ! "nodes"
  check_array nodes 64
  transitions ← s ! "transitions"
  check_array transitions 64
  for_each check_node (← iterate nodes)
  for_each check_transition (← iterate transitions)
