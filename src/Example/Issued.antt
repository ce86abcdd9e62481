-- ===== src/Example/Issued.antt =====
-- A result that the authority of the sample documents issued for their submission, as `verify_result`
-- of verify/verify_mark.py accepts it.
use whpstanding.Prelude.{Bool, String, [], ◌∷◌, ◌++◌, map, pos}
use whpstanding.Text.{Text, lit}
use whpstanding.Value.{Value, null, bool, str, obj, txt, dict, list, ◌!◌}
use whpstanding.Trust.{profile_hash, contract_hash}
use whpstanding.Assess.{Assessment, assess}
use whpstanding.Assess.Trace.{Check}
use whpstanding.Mark.{mark_name, purchase_digest}
use whpstanding.Mark.Payment.{expected_relationship, purchase_nonce, payment_identity}
use whpstanding.Example.World.{force, toy_hash, env, profile, contract, authority, seal}
use whpstanding.Example.Documents.{
  num, hash_of, pin, bundle, submission, authorization, bounds, node_payload,
}

abbrev none_yet : Assessment
none_yet = record {
  established = Bool.false;
  permitted = [];
  checks = [];
  expiry = pos 0;
  components = null;
}

abbrev outcome : Assessment
outcome = force none_yet (assess env submission bundle pin (num 500) profile)

abbrev from : Value → String → Value
from v k = force null (v ! k)

abbrev check_record : Check → Value
check_record c = obj (
    dict (
      ("rule", txt c.rule)
      ∷ ("object", c.object)
      ∷ ("passed", bool c.passed)
      ∷ ("detail", null)
      ∷ []))

abbrev unknowns_record : String → Value
unknowns_record id = obj (
    dict (
      ("source_hash", hash_of (node_payload id))
      ∷ ("unknowns", from (node_payload id) "unknowns")
      ∷ []))

abbrev decision : Value
decision = obj (
    dict (
      ("version", txt "WHP-STANDING-DECISION-v1")
      ∷ ("evaluated_at", num 500)
      ∷ ("submission_hash", hash_of submission)
      ∷ ("object", from submission "object")
      ∷ ("profile", from submission "profile")
      ∷ ("bounds", bounds)
      ∷ ("requested_operation", txt "INFORM")
      ∷ ("outcome", txt "ESTABLISHED")
      ∷ ("permitted_operations", list (txt "INFORM" ∷ []))
      ∷ ("components", outcome.components)
      ∷ ("effective_at", num 500)
      ∷ ("expires_at", num 1500)
      ∷ ("checks", list (map check_record outcome.checks))
      ∷ ("unknowns", list (unknowns_record "a" ∷ unknowns_record "b" ∷ []))
      ∷ ("assessment_boundary", from profile "assessed")
      ∷ ("not_assessed", from profile "not_assessed")
      ∷ ("review_triggers", from profile "review_triggers")
      ∷ []))

abbrev pub purchase : Text
purchase = force [] (purchase_digest env submission pin)

abbrev required : Value
required = obj (
    dict (
      ("network", txt "eip155:84532")
      ∷ ("asset", txt "0xasset")
      ∷ ("payTo", txt "0xSeller")
      ∷ ("amount", txt "100")
      ∷ []))

abbrev resource : Value
resource = txt "/v1/purchases"

abbrev quoted_terms : Value
quoted_terms = obj (
    dict (
      ("purchase_id", str purchase)
      ∷ ("request_hash", hash_of submission)
      ∷ ("buyer_key", txt "buyer")
      ∷ ("profile_hash", str profile_hash)
      ∷ ("issuer", txt "Test Issuer")
      ∷ ("environment", txt "TEST")
      ∷ ("issued_at", num 400)
      ∷ ("expires_at", num 700)
      ∷ ("resource", resource)
      ∷ ("payment_requirements", required)
      ∷ ("charge_policy", null)
      ∷ []))

abbrev nonce : Text
nonce = force [] (purchase_nonce env quoted_terms)

abbrev payment_terms : Value
payment_terms = obj (
    dict (
      ("from", txt "0xBuyer")
      ∷ ("to", txt "0xseller")
      ∷ ("value", txt "100")
      ∷ ("validAfter", txt "450")
      ∷ ("validBefore", txt "650")
      ∷ ("nonce", str nonce)
      ∷ []))

abbrev settlement : Value
settlement = obj (
    dict (
      ("environment", txt "TEST")
      ∷ ("network", txt "eip155:84532")
      ∷ ("asset", txt "0xasset")
      ∷ ("payer", txt "0xBuyer")
      ∷ ("pay_to", txt "0xseller")
      ∷ ("amount", txt "100")
      ∷ ("nonce", str nonce)
      ∷ ("transaction", txt "0x00000000000000000000000000000000000000000000000000000000000000ab")
      ∷ []))

abbrev commerce : Value
commerce = obj (
    dict (
      ("quote", seal authority "WHP-STANDING-QUOTE-v1" quoted_terms)
      ∷ ("payment_identity", str (force [] (payment_identity env required payment_terms nonce)))
      ∷ (
        "payment_payload",
        obj (
            dict (
              ("x402Version", num 2)
              ∷ ("resource", resource)
              ∷ ("accepted", required)
              ∷ ("payload", obj (dict (("authorization", payment_terms) ∷ [])))
              ∷ [])),
      )
      ∷ ("settlement", settlement)
      ∷ ("assessment_paid_by", txt "0xBuyer")
      ∷ ("relationship", expected_relationship (txt "TEST"))
      ∷ ("assessor", null)
      ∷ []))

abbrev retrieval : Value
retrieval = obj (
    dict (
      ("purchase_path", str (lit "/v1/purchases/" ++ purchase))
      ∷ ("result_path", str (lit "/v1/purchases/" ++ purchase ++ lit "/result"))
      ∷ ("registry_path", str (lit "/v1/registry/" ++ purchase))
      ∷ ("authentication", txt "Buyer Ed25519 proof bound to HTTP method, path and body")
      ∷ ("additional_charge", bool Bool.false)
      ∷ []))

abbrev discovery : Value
discovery = obj (
    dict (
      ("version", txt "WHP-STANDING-DISCOVERY-IDENTITY-v1")
      ∷ ("capability_id", txt "urn:whp:standing:capability:1")
      ∷ ("capability_class", txt "urn:capability:machine-verifiable-standing:1")
      ∷ ("resolution_id", txt "urn:whp:standing:resolution:1")
      ∷ ("resolution_url", txt "https://example.org/resolution")
      ∷ ("root_key_id", str pin)
      ∷ ("status_id", str (lit "urn:whp:standing:status:" ++ purchase))
      ∷ []))

-- the result, with the name and the standing that it claims
abbrev pub payload : Value
payload = obj (
    dict (
      ("version", txt "WHP-STANDING-RESULT-v1")
      ∷ ("environment", txt "TEST")
      ∷ ("issuer", txt "Test Issuer")
      ∷ ("issuer_key_id", str (toy_hash (lit authority)))
      ∷ ("purchase_id", str purchase)
      ∷ ("mark_id", mark_name purchase)
      ∷ ("issued_at", num 500)
      ∷ ("effective_at", num 500)
      ∷ ("expires_at", num 1500)
      ∷ ("object", from submission "object")
      ∷ ("profile", profile)
      ∷ ("profile_authorization", authorization)
      ∷ ("authority", bundle)
      ∷ ("submission", submission)
      ∷ ("submission_hash", hash_of submission)
      ∷ ("decision_record", decision)
      ∷ (
        "decision_record_ref",
        str (lit "urn:sha256:" ++ force [] (whpstanding.Env.digest env decision)),
      )
      ∷ (
        "standing",
        obj (
            dict (
              ("operation", txt "INFORM")
              ∷ ("components", outcome.components)
              ∷ ("bounds", bounds)
              ∷ [])),
      )
      ∷ ("commerce", commerce)
      ∷ ("retrieval", retrieval)
      ∷ ("limitations", from profile "not_assessed")
      ∷ ("current_status_rule", null)
      ∷ ("discovery", discovery)
      ∷ (
        "protocol",
        obj (
            dict (
              ("sha256", str contract_hash)
              ∷ ("document", contract)
              ∷ ("verifier_sha256", str (toy_hash (lit "source")))
              ∷ [])),
      )
      ∷ []))

abbrev pub issued : Value
issued = seal authority "WHP-STANDING-MARK-v1" payload
