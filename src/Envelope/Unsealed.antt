-- ===== src/Envelope/Unsealed.antt =====
-- What a signed envelope that `unseal` of verify/verify_mark.py accepts has passed.
use whpstanding.Prelude.{◌≡◌, ◌&&◌, true, length, ◌==◌, [], ◌∷◌}
use whpstanding.Result.{ok, Ensures, Ensures-bind, Ensures-need, Ensures-ok}
use whpstanding.Text.{Text, Bytes, text_eq, utf8}
use whpstanding.Value.{Value, str, ◌!◌, exact, value_eq}
use whpstanding.Canonical.{canonical}
use whpstanding.Env.{Env, PublicKey, decode, load_key, key_id}
use whpstanding.Envelope.{header, signed_part, check_signature, unseal}

-- All the facts that `unseal` rests on.
pub record Unsealed (env : Env) (e kind public_key x : Value) : Type 0 where
  pub shape : exact e ("protected" ∷ "payload" ∷ "signature" ∷ []) ≡ ok tt
  pub protected : Value
  pub has_protected : e ! "protected" ≡ ok protected
  pub fields : exact protected ("type" ∷ "algorithm" ∷ "canonicalization" ∷ "key_id" ∷ []) ≡ ok tt
  pub id : Text
  pub has_id : key_id env public_key ≡ ok id
  pub same_header : value_eq protected (header kind id) ≡ true
  pub der : Bytes
  pub has_der : decode env public_key ≡ ok der
  pub encoded : value_eq (str (env.b64encode der)) public_key ≡ true
  pub key : PublicKey
  pub has_key : load_key env der ≡ ok key
  pub is_key : (key.is_ed25519 && text_eq key.spki der) ≡ true
  pub given : Value
  pub has_given : e ! "signature" ≡ ok given
  pub sig : Bytes
  pub has_sig : decode env given ≡ ok sig
  pub sig_form : (length sig == 64 && value_eq (str (env.b64encode sig)) given) ≡ true
  pub has_payload : e ! "payload" ≡ ok x
  pub message : Text
  pub has_message : canonical (signed_part protected x) 0 ≡ ok message
  pub verified : check_signature env key sig (utf8 message) ≡ ok tt

pub Ensures-unseal :
    (env : Env) (e kind public_key : Value)
    → Ensures (unseal env e kind public_key) (Unsealed env e kind public_key)
unfolding unseal
Ensures-unseal env e kind public_key = Ensures-bind λ _ shape.
    Ensures-bind λ protected has_protected. Ensures-bind λ _ fields. Ensures-bind λ id has_id.
      Ensures-need _ _ λ same_header. Ensures-bind λ der has_der. Ensures-need _ _ λ encoded.
        Ensures-bind λ key has_key. Ensures-need _ _ λ is_key. Ensures-bind λ given has_given.
          Ensures-bind λ sig has_sig. Ensures-need _ _ λ sig_form.
            Ensures-bind λ payload has_payload. Ensures-bind λ message has_message.
              Ensures-bind λ _ verified. Ensures-ok payload (record {
                shape = shape;
                protected = protected;
                has_protected = has_protected;
                fields = fields;
                id = id;
                has_id = has_id;
                same_header = same_header;
                der = der;
                has_der = has_der;
                encoded = encoded;
                key = key;
                has_key = has_key;
                is_key = is_key;
                given = given;
                has_given = has_given;
                sig = sig;
                has_sig = has_sig;
                sig_form = sig_form;
                has_payload = has_payload;
                message = message;
                has_message = has_message;
                verified = verified;
              })
