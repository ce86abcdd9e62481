-- ===== src/Trust.antt =====
-- `trust` and `grant` of verify/verify_mark.py: which keys the root has admitted, and what a signer
-- may do at a time.
pub mod Admitted
pub mod Granted
use whpstanding.Prelude.{
  Bool, true, false, not, String, List, [], ◌∷◌, ◌++◌, Option, none, some, length, leb,
  if◌then◌else◌,
}
use whpstanding.Result.{
  Fault, key_error, type_error, schema_error, Result, ok, err, ◌>>=◌, ◌>>◌, need, ◌and◌, each,
  all_of, any_of,
}
use whpstanding.Text.{Text, lit, utf8}
use whpstanding.Dict.{Dict, get, has_key, put}
use whpstanding.Value.{
  Value, str, arr, obj, nil, txt, list, dict, entries, of_entries, as_fields, ◌!◌, ◌!!◌, exact,
  value_eq, is_true, iterate, contains, contains_value, le_value, within, found_or_missing,
}
use whpstanding.Canonical.{canonical}
use whpstanding.Env.{Env, digest, key_id}
use whpstanding.Envelope.{unseal}

unfoldable pub profile_hash : Text
profile_hash = lit "4244be9ed0012eaeba8e2efeb9d274ad3c1f3e188748838c191129054d24c5ab"

unfoldable pub contract_hash : Text
contract_hash = lit "dd433c055fe0ad0bdb0326479b3339eea018204ccef44cd6ef247520a29c8e75"

-- `Draft202012Validator(schema).validate(document)`
unfoldable pub validate : Env → Value → Value → Result (Unit {0})
validate env rules document = if env.conforms rules document then ok tt else err schema_error

-- `{'$defs': schemas()['result']['$defs'], '$ref': '#/$defs/trust_bundle'}`
unfoldable pub trust_bundle_schema : Env → Result Value
trust_bundle_schema env = do
  defs ← env.schemas ! "result" !! "$defs"
  ok (obj (dict (("$defs", defs) ∷ ("$ref", txt "#/$defs/trust_bundle") ∷ [])))

-- What `trust` returns: `pa, keys, rev`.
pub record Trust : Type 0 where
  pub profile : Value
  pub keys : Dict Value
  pub revocations : List Value

module _ (env : Env) where
  -- the loop over `bundle['certificates']`
  unfoldable pub admit_certificates : Value → List Value → Dict Value → Result (Dict Value)
  admit_certificates root [] keys = ok keys
  admit_certificates root (e ∷ rest) keys = do
    c ← unseal env e (txt "WHP-AUTHORITY-CERTIFICATE-v1") root
    exact c (
        "public_key" ∷ "subject" ∷ "roles" ∷ "scopes" ∷ "jurisdictions" ∷ "operations"
        ∷ "profile_hash" ∷ "valid_from" ∷ "valid_until" ∷ [])
    need (value_eq (← c ! "profile_hash") (str profile_hash)) "CERTIFICATE_PROFILE"
    id ← key_id env (← c ! "public_key")
    need (not (has_key id keys)) "DUPLICATE_AUTHORITY"
    admit_certificates root rest (put id c keys)

  -- what `trust` asks of the profile authorization at the time `at`
  unfoldable pub is_authorized : Value → Value → Result Bool
  is_authorized pa at =
      (pa ! "profile_hash" >>= λ h. ok (value_eq h (str profile_hash)))
      and (pa ! "contract_hash" >>= λ h. ok (value_eq h (str contract_hash)))
      and (pa ! "verifier_sha256" >>= λ h. ok (value_eq h (str (env.sha256 env.source))))
      and (pa ! "ratified" >>= λ r. ok (is_true r))
      and (do within (← pa ! "valid_from") at (← pa ! "valid_until"))

  -- the status snapshot commits to the parts of the bundle
  unfoldable pub commits : Value → String → Value → String → Result Bool
  commits status name bundle part = do
    h ← status ! name
    d ← digest env (← bundle ! part)
    ok (value_eq h (str d))

  unfoldable pub trust : Value → Text → Value → Result Trust
  trust bundle pin at = do
    text ← canonical bundle 0
    need (leb (length (utf8 text)) 65536) "TRUST_BUNDLE_TOO_LARGE"
    rules ← trust_bundle_schema env
    validate env rules bundle
    exact bundle (
        "root_public_key" ∷ "profile_authorization" ∷ "certificates" ∷ "revocations"
        ∷ "status_snapshot" ∷ [])
    root ← bundle ! "root_public_key"
    need (value_eq (str (← key_id env root)) (str pin)) "UNTRUSTED_ROOT"
    pa ← unseal env (← bundle ! "profile_authorization") (txt "WHP-PROFILE-AUTHORIZATION-v1") root
    exact pa (
        "profile_hash" ∷ "contract_hash" ∷ "verifier_sha256" ∷ "ratified" ∷ "issuer" ∷ "environment"
        ∷ "valid_from" ∷ "valid_until" ∷ [])
    need (← is_authorized pa at) "PROFILE_NOT_AUTHORIZED"
    need (contains_value (← pa ! "environment") (txt "LIVE" ∷ txt "TEST" ∷ []))
        "ENVIRONMENT_INVALID"
    status ← unseal env (← bundle ! "status_snapshot") (txt "WHP-TRUST-STATUS-v1") root
    exact status (
        "sequence" ∷ "previous_hash" ∷ "profile_authorization_hash" ∷ "certificates_hash"
        ∷ "revocations_hash" ∷ "valid_from" ∷ "valid_until" ∷ [])
    need (← within (← status ! "valid_from") at (← status ! "valid_until")) "TRUST_STATUS_EXPIRED"
    need
        (← commits status "profile_authorization_hash" bundle "profile_authorization"
          and commits status "certificates_hash" bundle "certificates"
          and commits status "revocations_hash" bundle "revocations")
        "TRUST_STATUS_MANIFEST_MISMATCH"
    keys ← admit_certificates root (← iterate (← bundle ! "certificates")) []
    revocations ←
        each (λ e. unseal env e (txt "WHP-KEY-REVOCATION-v1") root)
          (← iterate (← bundle ! "revocations"))
    ok (record { profile = pa; keys = keys; revocations = revocations })

-- `keys[kid]` with a key id from a document
unfoldable pub find_key : Dict Value → Value → Result Value
find_key keys (str id) = found_or_missing (get id keys)
find_key keys (arr vs) = err type_error
find_key keys (obj fs) = err type_error
find_key keys _ = err key_error

-- `r['key_id'] == kid and r['effective_at'] <= at`
unfoldable pub revokes : Value → Value → Value → Result Bool
revokes id at r =
    (r ! "key_id" >>= λ k. ok (value_eq k id)) and (r ! "effective_at" >>= λ t. le_value t at)

unfoldable pub iterate_or_nothing : Option Value → Result (List Value)
iterate_or_nothing none = ok []
iterate_or_nothing (some ops) = iterate ops

-- `ctx.get('operations', [])`
unfoldable pub asked_operations : Value → Result (List Value)
asked_operations ctx = do fields ← as_fields ctx; iterate_or_nothing (get (lit "operations") fields)

-- `{**b, 'operations': ops}`
unfoldable pub with_operations : Value → Value → Result Value
with_operations b ops = do
  fields ← as_fields b
  ok (obj (of_entries (put (lit "operations") ops fields)))

module _ (env : Env) (keys : Dict Value) (revocations : List Value) where
  unfoldable pub grant : Value → Value → String → Value → Value → Result Value
  grant e kind role ctx at = do
    id ← e ! "protected" !! "key_id"
    c ← find_key keys id
    unseal env e kind (← c ! "public_key")
    need (← contains (txt role) (← c ! "roles")) "ROLE_NOT_AUTHORIZED"
    need
        (← (do contains (← ctx ! "scope") (← c ! "scopes"))
          and (do contains (← ctx ! "jurisdiction") (← c ! "jurisdictions")))
        "AUTHORITY_OUT_OF_BOUNDS"
    need (← within (← c ! "valid_from") at (← c ! "valid_until")) "AUTHORITY_EXPIRED"
    need (not (← any_of (revokes id at) revocations)) "AUTHORITY_REVOKED"
    need (← all_of (λ op. c ! "operations" >>= λ ops. contains op ops) (← asked_operations ctx))
        "AUTHORITY_OPERATION_DENIED"
    ok c
