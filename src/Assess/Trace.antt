-- ===== src/Assess/Trace.antt =====
-- What the loops of `assess` in verify/verify_mark.py change (the trace of checks, the expiry, the
-- allowed operations), and the tests that nodes and transitions share.
use whpstanding.Prelude.{
  Bool, false, not, String, List, [], ◌∷◌, ◌++◌, Option, none, some, keep, ℤ, min_ℤ,
}
use whpstanding.Result.{type_error, Result, ok, err, ◌>>=◌, ◌and◌}
use whpstanding.Text.{Text, lit}
use whpstanding.Dict.{Dict, get}
use whpstanding.Value.{
  Value, str, obj, entries, ◌!◌, value_eq, truthy, number, contains_value, le_value,
}
use whpstanding.Env.{Env}
use whpstanding.Trust.{Trust, grant, with_operations}

-- `checks.append([rule, obj, passed])`
pub record Check : Type 0 where
  pub rule : String
  pub object : Value
  pub passed : Bool

-- the locals that the loops change
pub record Tally : Type 0 where
  pub checks : List Check
  pub expiry : ℤ
  pub allowed : List Text

-- the locals that they read: `pa, keys, rev`, `n`, `b` and `at`
pub record Scope : Type 0 where
  pub trust : Trust
  pub nodes : Dict Value
  pub bounds : Value
  pub at : Value

unfoldable pub add_check : String → Value → Bool → Tally → Tally
add_check rule object passed t = record t {
  checks = t.checks ++ record { rule = rule; object = object; passed = passed } ∷ [];
}

unfoldable pub cap_expiry : ℤ → Tally → Tally
cap_expiry until t = record t { expiry = min_ℤ t.expiry until }

-- `allowed.intersection_update(given)`, `allowed.difference_update(blocked)`
unfoldable pub allow_only : List Value → Tally → Tally
allow_only given t = record t { allowed = keep (λ op. contains_value (str op) given) t.allowed }

unfoldable pub block : List Value → Tally → Tally
block blocked t = record t {
  allowed = keep (λ op. not (contains_value (str op) blocked)) t.allowed;
}

unfoldable pub int_or_raise : Option ℤ → Result ℤ
int_or_raise none = err type_error
int_or_raise (some n) = ok n

-- the number that `min` compares
unfoldable pub as_int : Value → Result ℤ
unfolding int_or_raise
as_int v = int_or_raise (number v)

-- `n.get(h, {}).get('payload')`
unfoldable pub payload_in : Option Value → Option Value
payload_in (some (obj fs)) = get (lit "payload") (entries fs)
payload_in _ = none

unfoldable pub payload_of : Dict Value → Text → Option Value
payload_of n h = payload_in (get h n)

-- `root and root['id'] == … and root['version'] == …`, as a bool
unfoldable pub root_matches : Option Value → Value → Result Bool
root_matches none object = ok false
root_matches (some root) object =
    ok (truthy root)
    and (do ok (value_eq (← root ! "id") (← object ! "id")))
    and (do ok (value_eq (← root ! "version") (← object ! "version")))

-- `a['scope'] == b['scope'] and a['jurisdiction'] == b['jurisdiction']`
unfoldable pub same_bounds : Value → Value → Result Bool
same_bounds x b =
    (do ok (value_eq (← x ! "scope") (← b ! "scope")))
    and (do ok (value_eq (← x ! "jurisdiction") (← b ! "jurisdiction")))

-- `x['valid_from'] <= b['valid_from'] and b['valid_until'] <= x['valid_until']`
unfoldable pub spans : Value → Value → Result Bool
spans x b =
    (do le_value (← x ! "valid_from") (← b ! "valid_from"))
    and (do le_value (← b ! "valid_until") (← x ! "valid_until"))

-- The `try` block: the grant, its check and its expiry; any exception is a failed check.
unfoldable pub cap_or_fail : String → Value → Tally → Result ℤ → Tally
cap_or_fail rule h t (ok until) = cap_expiry until t
cap_or_fail rule h t (err e) = add_check rule h false t

unfoldable pub record_grant : String → Value → Tally → Result (Bool × Result ℤ) → Tally
record_grant rule h t (ok (covers, until)) = cap_or_fail rule h (add_check rule h covers t) until
record_grant rule h t (err e) = add_check rule h false t

module _ (env : Env) (c : Scope) where
  unfoldable pub granted : Value → Value → String → Value → Result (Bool × Result ℤ)
  granted e kind role x = do
    ctx ← with_operations c.bounds (← x ! "operations")
    certificate ← grant env c.trust.keys c.trust.revocations e kind role ctx c.at
    covers ← spans certificate c.bounds
    ok (covers, certificate ! "valid_until" >>= as_int)
