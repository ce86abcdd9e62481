-- ===== src/Env.antt =====
-- What the verifiers call and do not implement: hashing, base64, the key and signature library, the
-- JSON Schema validator, URL splitting, the embedded wire schemas, and the verifier's own bytes.
-- Each is a field that the definitions take; nothing is assumed of them here.
use whpstanding.Prelude.{Bool, Option, none, some}
use whpstanding.Result.{Result, ok, err, base64_error, key_format_error, ◌>>=◌}
use whpstanding.Text.{Text, Bytes, utf8}
use whpstanding.Value.{Value, as_text}
use whpstanding.Canonical.{canonical}

-- A loaded public key, by what the code asks of it: `isinstance(k, Ed25519PublicKey)`, and
-- `k.public_bytes(Encoding.DER, PublicFormat.SubjectPublicKeyInfo)`.
pub record PublicKey : Type 0 where
  pub is_ed25519 : Bool
  pub spki : Bytes

-- `urllib.parse.urlsplit(url)`, with `None` where a part is absent.
pub record Url : Type 0 where
  pub scheme : Text
  pub netloc : Text
  pub path : Text
  pub query : Text
  pub fragment : Text
  pub username : Option Text
  pub password : Option Text
  pub hostname : Option Text

pub record Env : Type 0 where
  -- `hashlib.sha256(x).hexdigest()`
  pub sha256 : Bytes → Text
  -- `base64.b64decode(x, validate=True)`, `base64.b64encode(x).decode()`
  pub b64decode : Text → Option Bytes
  pub b64encode : Bytes → Text
  -- `load_der_public_key(der)`
  pub load_der : Bytes → Option PublicKey
  -- whether `k.verify(signature, message)` returns
  pub verifies : PublicKey → Bytes → Bytes → Bool
  -- whether `Draft202012Validator(schema).validate(document)` returns, and the schemas by name
  pub conforms : Value → Value → Bool
  pub schemas : Value
  -- `Path(__file__).read_bytes()`
  pub source : Bytes
  pub urlsplit : Text → Result Url

unfoldable pub or_raise {ℓ} : {A : Type ℓ} → Result A → Option A → Result A
or_raise fault none = fault
or_raise fault (some a) = ok a

-- `base64.b64decode(x, validate=True)` of a document's field
unfoldable pub decode : Env → Value → Result Bytes
decode env x = do t ← as_text x; or_raise (err base64_error) (env.b64decode t)

unfoldable pub load_key : Env → Bytes → Result PublicKey
load_key env der = or_raise (err key_format_error) (env.load_der der)

-- `digest(x)`, `keyid(pub)`
unfoldable pub digest : Env → Value → Result Text
digest env x = do text ← canonical x 0; ok (env.sha256 (utf8 text))

unfoldable pub key_id : Env → Value → Result Text
key_id env public_key = do der ← decode env public_key; ok (env.sha256 der)
