-- ===== src/ColdAgent.antt =====
-- The trust core of scripts/cold-agent.py: its check of a signed envelope under the recipe of a
-- contract, `bootstrap_trust` and `grant`. Its `canon` and `digest` are those of `Canonical`, but for
-- the text of one error.
pub mod Reader
pub mod Probe
pub mod Action
pub mod Links
pub mod Agrees
pub mod Keeps
pub mod Resolve
pub mod Pointer
pub mod Sandbox
pub mod Marks
pub mod Offer
pub mod Purchase
pub mod Catalog
pub mod Needs
pub mod Attempts
pub mod Meaning
pub mod Run
use whpstanding.Prelude.{
  Bool, true, false, not, ◌&&◌, String, List, [], ◌∷◌, Option, none, some, map, if◌then◌else◌,
}
use whpstanding.Result.{
  Fault, type_error, signature_error, Result, ok, err, ◌>>=◌, ◌>>◌, need, ◌and◌, each, any_of,
  for_each,
}
use whpstanding.Text.{Text, Bytes, lit, utf8, text_eq}
use whpstanding.Dict.{Dict, get, has_key, put, keys, same_texts}
use whpstanding.Value.{
  Value, null, str, arr, obj, txt, list, ◌!◌, ◌!!◌, value_eq, is_true, is_null, truthy, iterate,
  contains, within, le_value, lookup, as_text, as_fields, of_entries,
}
use whpstanding.Canonical.{canonical}
use whpstanding.Env.{Env, PublicKey, decode, load_key, digest}
use whpstanding.Envelope.{check_signature}
use whpstanding.Compare.{◌=?◌, const, text}
use whpstanding.Trust.{revokes}

-- `set(x)==set(names)` of a dict
unfoldable pub has_exactly : Value → List String → String → Result (Unit {0})
has_exactly x names code = do
  fields ← as_fields x
  need (same_texts (keys fields) (map lit names)) code

-- What `crypto_recipe` returns.
pub record Recipe : Type 0 where
  pub algorithm : Value
  pub canonicalization : Value
  pub signed_fields : Value

unfoldable pub crypto_recipe : Value → Result Recipe
crypto_recipe document = do
  e ← document ! "envelope"
  fields ← e ! "signed_fields"
  need (value_eq fields (list (txt "protected" ∷ txt "payload" ∷ []))) "SIGNATURE_INPUT"
  algorithm ← e ! "algorithm"
  form ← document ! "canonicalization" !! "id"
  ok (record { algorithm = algorithm; canonicalization = form; signed_fields = fields })

-- `{k: envelope[k] for k in names}`, added to `picked`
unfoldable pub pick : Value → List Value → Dict Value → Result (Dict Value)
pick envelope [] picked = ok picked
pick envelope (k ∷ ks) picked = do
  name ← as_text k
  v ← lookup envelope name
  pick envelope ks (put name v picked)

module _ (env : Env) where
  unfoldable pub b64 : Value → Result Bytes
  b64 raw = do
    v ← decode env raw
    need (value_eq (str (env.b64encode v)) raw) "NONCANONICAL_BASE64"
    ok v

  -- The kind is `null` where the code passes none.
  unfoldable pub signature : Value → Value → Recipe → Value → Result Value
  signature envelope public_key recipe kind = do
    has_exactly envelope ("protected" ∷ "payload" ∷ "signature" ∷ []) "SIGNED_ENVELOPE"
    h ← envelope ! "protected"
    has_exactly h ("type" ∷ "algorithm" ∷ "canonicalization" ∷ "key_id" ∷ []) "PROTECTED_FIELDS"
    need (← (h ! "algorithm" =? ok recipe.algorithm) and (ok recipe.algorithm =? const "Ed25519"))
        "SIGNATURE_ALGORITHM"
    need (← h ! "canonicalization" =? ok recipe.canonicalization) "CANONICALIZATION_CONTEXT"
    need (← (if truthy kind then (h ! "type" =? ok kind) else ok true)) "SIGNATURE_TYPE"
    der ← b64 public_key
    k ← load_key env der
    need k.is_ed25519 "KEY_ALGORITHM"
    need (text_eq k.spki der) "CANONICAL_DER"
    need (← text (env.sha256 der) =? h ! "key_id") "SIGNING_KEY_ID"
    sig ← b64 (← envelope ! "signature")
    signed ← pick envelope (← iterate recipe.signed_fields) []
    message ← canonical (obj (of_entries signed)) 0
    check_signature env k sig (utf8 message)
    envelope ! "payload"

-- What `bootstrap_trust` returns.
pub record RootTrust : Type 0 where
  pub profile : Value
  pub keys : Dict Value
  pub revocations : List Value
  pub recipe : Recipe
  pub root_pin : Value

module _ (env : Env) where
  -- the loop over `bundle['certificates']`
  unfoldable pub admit_keys :
      Value → Recipe → Value → Value → List Value → Dict Value → Result (Dict Value)
  admit_keys root r b pa [] admitted = ok admitted
  admit_keys root r b pa (e ∷ es) admitted = do
    c ← signature env e root r (← b ! "certificate_type")
    der ← b64 env (← c ! "public_key")
    let id = env.sha256 der
    need (not (has_key id admitted)) "DUPLICATE_AUTHORITY"
    need (← c ! "profile_hash" =? pa ! "profile_hash") "CERTIFICATE_PROFILE"
    admit_keys root r b pa es (put id c admitted)

  -- `status[field]==digest(bundle[source])`
  unfoldable pub check_manifest : Value → Value → String × String → Result (Unit {0})
  check_manifest status bundle (name, source) = do
    need (← status ! name =? (do d ← digest env (← bundle ! source); ok (str d))) "TRUST_MANIFEST"

  unfoldable pub bootstrap_trust : Value → Value → Value → Value → Value → Result RootTrust
  bootstrap_trust bundle document program_hash pin at = do
    root ← bundle ! "root_public_key"
    der ← b64 env root
    need (value_eq (str (env.sha256 der)) pin) "ROOT_SUBSTITUTION"
    b ← document ! "bootstrap"
    r ← crypto_recipe document
    authorization ← bundle ! "profile_authorization"
    pa ← signature env authorization root r (← b ! "authorization_type")
    need
        (← (pa ! "contract_hash" =? (do d ← digest env document; ok (str d)))
          and (pa ! "verifier_sha256" =? ok program_hash)
          and (pa ! "profile_hash" =? (document ! "profile" !! "sha256")))
        "ROOT_AUTHORIZED_CONTRACT"
    need
        (← (pa ! "ratified" >>= λ v. ok (is_true v))
          and (do within (← pa ! "valid_from") at (← pa ! "valid_until")))
        "ROOT_AUTHORIZATION_TIME"
    need (← pa ! "environment" =? const "TEST") "INDEPENDENT_INSTITUTIONAL_ROOT_ADMISSION_REQUIRED"
    snapshot ← bundle ! "status_snapshot"
    status ← signature env snapshot root r (← b ! "trust_status_type")
    need (← within (← status ! "valid_from") at (← status ! "valid_until")) "TRUST_STALE"
    for_each (check_manifest status bundle) (
        ("profile_authorization_hash", "profile_authorization")
        ∷ ("certificates_hash", "certificates")
        ∷ ("revocations_hash", "revocations")
        ∷ [])
    certificates ← iterate (← bundle ! "certificates")
    admitted ← admit_keys root r b pa certificates []
    withdrawn ← iterate (← bundle ! "revocations")
    revocations ← each (λ e. do signature env e root r (← b ! "revocation_type")) withdrawn
    ok (record {
      profile = pa;
      keys = admitted;
      revocations = revocations;
      recipe = r;
      root_pin = pin;
    })

-- `trust['keys'].get(kid)`, which must be there
unfoldable pub signer : Dict Value → Value → Result Value
signer admitted (str id) = elim (get id admitted) [
  | none ↦ need false "SIGNER_UNADMITTED" >> ok null
  | some c ↦ ok c
]
signer admitted (arr vs) = err type_error
signer admitted (obj fs) = err type_error
signer admitted _ = need false "SIGNER_UNADMITTED" >> ok null

-- `if x is not None: need(x in c[name], code)`
unfoldable pub check_listed : Option Value → Value → String → String → Result (Unit {0})
check_listed none c name code = ok tt
check_listed (some x) c name code = do need (← contains x (← c ! name)) code

module _ (env : Env) where
  unfoldable pub grant :
      Value → RootTrust → Value → Value → Value → Option Value → Option Value → Result Value
  grant envelope trusted role at kind scope jurisdiction = do
    id ← envelope ! "protected" !! "key_id"
    c ← signer trusted.keys id
    signature env envelope (← c ! "public_key") trusted.recipe kind
    need
        (← (do contains role (← c ! "roles"))
          and (do within (← c ! "valid_from") at (← c ! "valid_until")))
        "SIGNER_ROLE_OR_TIME"
    need (not (← any_of (revokes id at) trusted.revocations)) "SIGNER_REVOKED"
    check_listed scope c "scopes" "SIGNER_SCOPE"
    check_listed jurisdiction c "jurisdictions" "SIGNER_JURISDICTION"
    ok c
