-- ===== src/Example/World.antt =====
-- Stand-ins for the libraries: a polynomial hash of 64 digits, base64 that is the identity, and a
-- signature that is the hash of the key and the message.
use whpstanding.Prelude.{
  ℕ, suc, ◌+◌, ◌*◌, ◌%◌, Bool, true, false, ◌&&◌, String, List, [], ◌∷◌, ◌++◌, Option, none, some,
  length, ◌==◌, if◌then◌else◌,
}
use whpstanding.Result.{Result, ok, err}
use whpstanding.Text.{Text, Bytes, lit, text_eq, utf8}
use whpstanding.Value.{Value, null, str, obj, txt, dict, list}
use whpstanding.Canonical.{canonical}
use whpstanding.Finality.Calldata.{hex_fuel, pad}
use whpstanding.Env.{Env, PublicKey, Url}
use whpstanding.Envelope.{header, signed_part}
use whpstanding.Trust.{profile_hash, contract_hash}

abbrev pub force {ℓ} : {A : Type ℓ} → A → Result A → A
force a (ok b) = b
force a (err e) = a

unfoldable pub fold_bytes : ℕ → Bytes → ℕ
fold_bytes n [] = n
fold_bytes n (b ∷ bs) = fold_bytes ((n * 257 + b + 1) % 0x10000000000000000) bs

unfoldable pub toy_hash : Bytes → Text
unfolding fold_bytes
toy_hash bs = pad (hex_fuel 17 (fold_bytes 7 bs))

unfoldable pub bytes_of : Value → Bytes
bytes_of v = utf8 (force [] (canonical v 0))

abbrev pub profile : Value
profile = obj (
    dict (
      ("id", txt "passage")
      ∷ ("version", txt "1.0.0")
      ∷ ("max_validity_seconds", Value.int (whpstanding.Prelude.pos 1000))
      ∷ ("not_assessed", list (txt "truth" ∷ []))
      ∷ ("assessed", list (txt "form" ∷ []))
      ∷ ("review_triggers", list [])
      ∷ []))

-- The hash that gives the sample profile and contract the digests that the verifier expects.
unfoldable pub sample_hash : Value → Bytes → Text
unfolding toy_hash bytes_of
sample_hash contract bs =
    if text_eq bs (bytes_of profile)
    then profile_hash
    else if text_eq bs (bytes_of contract)
    then contract_hash
    else toy_hash bs

unfoldable pub toy_verifies : PublicKey → Bytes → Bytes → Bool
unfolding toy_hash
toy_verifies k sig message = text_eq sig (toy_hash (k.spki ++ message))

abbrev pub schemas : Value
schemas = obj (dict (("result", obj (dict (("$defs", null) ∷ []))) ∷ ("resolution", null) ∷ []))

abbrev pub contract : Value
contract = obj (
    dict (
      ("name", txt "contract")
      ∷ ("schema_sha256", str (toy_hash (bytes_of (obj (dict (("$defs", null) ∷ []))))))
      ∷ []))

abbrev pub example_url : Url
example_url = record {
  scheme = lit "https";
  netloc = lit "example.org";
  path = [];
  query = [];
  fragment = [];
  username = none;
  password = none;
  hostname = some (lit "example.org");
}

abbrev pub env : Env
env = record {
  sha256 = sample_hash contract;
  b64decode = λ t. some t;
  b64encode = λ b. b;
  load_der = λ der. some (record { is_ed25519 = true; spki = der });
  verifies = toy_verifies;
  conforms = λ rules document. true;
  schemas = schemas;
  source = lit "source";
  urlsplit = λ t. ok example_url;
}

abbrev pub root : String
root = "root-key"

abbrev pub authority : String
authority = "authority-key"

-- An envelope of the given kind, signed by a key.
unfoldable pub seal : String → String → Value → Value
unfolding toy_hash
seal key kind payload =
    let protected = header (txt kind) (toy_hash (lit key)) in
    let message = utf8 (force [] (canonical (signed_part protected payload) 0)) in
    obj (
      dict (
        ("protected", protected)
        ∷ ("payload", payload)
        ∷ ("signature", str (toy_hash (lit key ++ message)))
        ∷ []))
