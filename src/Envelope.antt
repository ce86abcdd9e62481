-- ===== src/Envelope.antt =====
-- `unseal` of verify/verify_mark.py: a signed envelope, checked under one public key.
pub mod Unsealed
use whpstanding.Prelude.{◌&&◌, if◌then◌else◌, [], ◌∷◌, length, ◌==◌}
use whpstanding.Result.{signature_error, Result, ok, err, ◌>>=◌, ◌>>◌, need}
use whpstanding.Text.{Text, Bytes, text_eq, utf8}
use whpstanding.Value.{Value, str, obj, txt, dict, ◌!◌, exact, value_eq}
use whpstanding.Canonical.{canonical}
use whpstanding.Env.{Env, PublicKey, decode, load_key, key_id}

-- `{'type': kind, 'algorithm': 'Ed25519', …}`, the only protected header that is accepted
unfoldable pub header : Value → Text → Value
header kind id = obj (
    dict (
      ("type", kind)
      ∷ ("algorithm", txt "Ed25519")
      ∷ ("canonicalization", txt "WHP-JCS-I1")
      ∷ ("key_id", str id)
      ∷ []))

-- what is signed: `{'protected': …, 'payload': …}`
unfoldable pub signed_part : Value → Value → Value
signed_part protected payload = obj (dict (("protected", protected) ∷ ("payload", payload) ∷ []))

-- `k.verify(sig, message)`
unfoldable pub check_signature : Env → PublicKey → Bytes → Bytes → Result (Unit {0})
check_signature env k sig message =
    if env.verifies k sig message then ok tt else err signature_error

module _ (env : Env) where
  unfoldable pub unseal : Value → Value → Value → Result Value
  unseal e kind public_key = do
    exact e ("protected" ∷ "payload" ∷ "signature" ∷ [])
    protected ← e ! "protected"
    exact protected ("type" ∷ "algorithm" ∷ "canonicalization" ∷ "key_id" ∷ [])
    id ← key_id env public_key
    need (value_eq protected (header kind id)) "SIGNATURE_CONTEXT"
    der ← decode env public_key
    need (value_eq (str (env.b64encode der)) public_key) "PUBLIC_KEY_ENCODING"
    k ← load_key env der
    need (k.is_ed25519 && text_eq k.spki der) "ED25519_REQUIRED"
    given ← e ! "signature"
    sig ← decode env given
    need (length sig == 64 && value_eq (str (env.b64encode sig)) given)
        "SIGNATURE_LENGTH_OR_ENCODING"
    payload ← e ! "payload"
    message ← canonical (signed_part protected payload) 0
    check_signature env k sig (utf8 message)
    ok payload
