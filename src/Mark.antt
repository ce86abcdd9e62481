-- ===== src/Mark.antt =====
-- `verify_result` of verify/verify_mark.py: an issued result, verified offline against a root pin.
-- The stages of the function are the definitions of this module and of `Payment`, in its order.
pub mod Payment
pub mod Vouched
pub mod Paid
use whpstanding.Prelude.{
  Bool, true, false, ◌&&◌, ◌||◌, String, List, [], ◌∷◌, ◌++◌, map, if◌then◌else◌, ℤ, pos, negsuc,
  min_ℤ,
}
use whpstanding.Result.{Result, ok, ◌>>=◌, ◌>>◌, need, ◌and◌, ◌or◌, each}
use whpstanding.Text.{Text, lit}
use whpstanding.Value.{
  Value, null, bool, int, str, arr, obj, txt, list, dict, ◌!◌, ◌!!◌, exact, iterate, value_eq,
}
use whpstanding.Compare.{◌=?◌, ◌≤?◌, const, text, agree, agree_all}
use whpstanding.Env.{Env, digest}
use whpstanding.Trust.{Trust, validate, trust, grant, profile_hash, contract_hash}
use whpstanding.Assess.{Assessment, outcome_text, assess}
use whpstanding.Assess.Trace.{Check, as_int}
use whpstanding.Discovery.{verify_discovery}
use Payment.{verify_commerce, verify_settlement}

-- What `verify_result` reports, without the two fields that are always `VERIFIED`.
pub record Report : Type 0 where
  pub verified : Bool
  pub environment : Value
  pub purchase_id : Text
  pub mark_id : Value
  pub assessment : Value
  pub current_standing : Value
  pub payment_chain_finality : Value
  pub expires_at : Value

-- `[c.rule, c.obj, c.passed]`
unfoldable pub check_value : Check → Value
check_value c = list (txt c.rule ∷ c.object ∷ bool c.passed ∷ [])

-- `[r['rule'], r['object'], r['passed']]`
unfoldable pub recorded_check : Value → Result Value
recorded_check r = do
  rule ← r ! "rule"
  object ← r ! "object"
  passed ← r ! "passed"
  ok (list (rule ∷ object ∷ passed ∷ []))

-- `{'source_hash': digest(e['payload']), 'unknowns': e['payload']['unknowns']}`
unfoldable pub source_unknowns : Env → Value → Result Value
source_unknowns env e = do
  x ← e ! "payload"
  h ← digest env x
  unknowns ← x ! "unknowns"
  ok (obj (dict (("source_hash", str h) ∷ ("unknowns", unknowns) ∷ [])))

-- `x if b else None`
unfoldable pub value_if : Bool → Value → Value
value_if b x = if b then x else null

-- `'WHP-SM-' + pid`
unfoldable pub mark_name : Text → Value
mark_name purchase = str (lit "WHP-SM-" ++ purchase)

-- the type of the envelope that an outcome may be issued in
unfoldable pub result_type : Bool → Value
result_type established =
    if established then txt "WHP-STANDING-MARK-v1" else txt "WHP-STANDING-ASSESSMENT-v1"

unfoldable pub result_fields : List String
result_fields =
    "version" ∷ "environment" ∷ "issuer" ∷ "issuer_key_id" ∷ "purchase_id" ∷ "mark_id" ∷ "issued_at"
    ∷ "effective_at" ∷ "expires_at" ∷ "object" ∷ "profile" ∷ "profile_authorization" ∷ "authority"
    ∷ "submission" ∷ "submission_hash" ∷ "decision_record" ∷ "decision_record_ref" ∷ "standing"
    ∷ "commerce" ∷ "retrieval" ∷ "limitations" ∷ "current_status_rule" ∷ "discovery" ∷ "protocol"
    ∷ []

unfoldable pub decision_fields : List String
decision_fields =
    "version" ∷ "evaluated_at" ∷ "submission_hash" ∷ "object" ∷ "profile" ∷ "bounds"
    ∷ "requested_operation" ∷ "outcome" ∷ "permitted_operations" ∷ "components" ∷ "effective_at"
    ∷ "expires_at" ∷ "checks" ∷ "unknowns" ∷ "assessment_boundary" ∷ "not_assessed"
    ∷ "review_triggers" ∷ []

module _ (env : Env) where
  -- the contract, the schema and the verifier that the result names are this verifier's own
  unfoldable pub check_contract : Value → Value → Result (Unit {0})
  check_contract e p = do
    validate env (← env.schemas ! "result") e
    protocol ← p ! "protocol"
    document ← protocol ! "document"
    commitment ← digest env document
    need (← (protocol ! "sha256" =? text contract_hash) and (text contract_hash =? text commitment))
        "PUBLIC_CONTRACT_MISMATCH"
    need (← protocol ! "verifier_sha256" =? text (env.sha256 env.source)) "VERIFIER_SOURCE_MISMATCH"
    rules ← digest env (← env.schemas ! "result")
    need (← document ! "schema_sha256" =? text rules) "RESULT_SCHEMA_COMMITMENT"

  unfoldable pub check_environment : Value → Bool → Result (Unit {0})
  check_environment p allow_test = do
    exact p result_fields
    need (← p ! "version" =? const "WHP-STANDING-RESULT-v1") "RESULT_VERSION"
    environment ← p ! "environment"
    need (value_eq environment (txt "LIVE") || (allow_test && value_eq environment (txt "TEST")))
        "TEST_ARTIFACT_NOT_LIVE"
    need
        (← (
          if value_eq environment (txt "LIVE")
          then (p ! "issuer" =? const "Wheeler Hubbell Publishing")
          else ok true))
        "LIVE_ISSUER_IDENTITY"
    profile ← digest env (← p ! "profile")
    need (← text profile =? text profile_hash) "PROFILE_CONTENT_MISMATCH"

  -- the certificate of the key that issued the result
  unfoldable pub check_issuer : Value → Value → Text → Result Value
  check_issuer e p pin = do
    authority ← p ! "authority"
    issued ← p ! "issued_at"
    admitted ← trust env authority pin issued
    need
        (← agree_all admitted.profile p ("environment" ∷ "issuer" ∷ [])
          and agree p authority "profile_authorization")
        "ISSUER_AUTHORIZATION_MISMATCH"
    kind ← e ! "protected" !! "type"
    c ←
        grant env admitted.keys admitted.revocations e kind "ISSUER"
          (← p ! "submission" !! "bounds") issued
    need (← p ! "issuer_key_id" =? (e ! "protected" !! "key_id")) "ISSUER_KEY_MISMATCH"
    ok c

  -- the decision record `d` speaks of the submission `s` that the result carries
  unfoldable pub check_binding : Value → Value → Value → Result (Unit {0})
  check_binding p s d = do
    exact d decision_fields
    need (← d ! "version" =? const "WHP-STANDING-DECISION-v1") "DECISION_VERSION"
    hash ← digest env s
    need (← (text hash =? p ! "submission_hash") and agree p d "submission_hash")
        "SUBMISSION_HASH_MISMATCH"
    record_hash ← digest env d
    need (← p ! "decision_record_ref" =? text (lit "urn:sha256:" ++ record_hash))
        "DECISION_RECORD_HASH"
    need
        (← agree p s "object"
          and agree s d "object"
          and agree_all d s ("profile" ∷ "bounds" ∷ "requested_operation" ∷ []))
        "DECISION_BINDING"
    need
        (← (d ! "evaluated_at" ≤? p ! "issued_at")
          and agree p d "effective_at"
          and (d ! "effective_at" =? d ! "evaluated_at"))
        "ASSESSMENT_TIME_BINDING"

  -- the evaluation, run again, gives what the decision record says
  unfoldable pub check_replay : Value → Value → Value → Value → Assessment → Result (Unit {0})
  check_replay p s d c a = do
    need
        (← (d ! "outcome" =? ok (outcome_text a.established))
          and (d ! "permitted_operations" =? ok (list (map str a.permitted))))
        "EVALUATION_REPLAY_MISMATCH"
    recorded ← each recorded_check (← iterate (← d ! "checks"))
    need (value_eq (list recorded) (list (map check_value a.checks))) "CHECK_TRACE_REPLAY_MISMATCH"
    need
        (← (d ! "components" =? ok a.components)
          and (d ! "expires_at" =? ok (int a.expiry))
          and (p ! "expires_at"
              =? (do until ← as_int (← c ! "valid_until"); ok (int (min_ℤ a.expiry until)))))
        "STANDING_OR_EXPIRY_MISMATCH"
    unknowns ← each (source_unknowns env) (← iterate (← s ! "nodes"))
    need (← d ! "unknowns" =? ok (list unknowns)) "UNKNOWNS_MISMATCH"
    profile ← p ! "profile"
    need
        (← (p ! "limitations" =? d ! "not_assessed")
          and agree d profile "not_assessed"
          and (d ! "assessment_boundary" =? profile ! "assessed")
          and agree d profile "review_triggers")
        "ASSESSMENT_CEILING_MISMATCH"

  -- `digest({'domain': 'WHP-STANDING-PURCHASE-v1', …})`
  unfoldable pub purchase_digest : Value → Text → Result Text
  purchase_digest s pin = do
    buyer ← s ! "buyer_key"
    reference ← s ! "client_reference"
    digest env (
        obj (
          dict (
            ("domain", txt "WHP-STANDING-PURCHASE-v1")
            ∷ ("root_pin", str pin)
            ∷ ("buyer_key", buyer)
            ∷ ("client_reference", reference)
            ∷ [])))

  -- a mark's name, type and standing are there exactly if the outcome is established
  unfoldable pub check_promotion : Value → Value → Value → Text → Assessment → Result (Unit {0})
  check_promotion e p s purchase a = do
    need (← text purchase =? p ! "purchase_id") "PURCHASE_ID_MISMATCH"
    need (← p ! "mark_id" =? ok (value_if a.established (mark_name purchase))) "MARK_ID_MISMATCH"
    need (← (e ! "protected" !! "type") =? ok (result_type a.established)) "INVALID_MARK_PROMOTION"
    operation ← s ! "requested_operation"
    bounds ← s ! "bounds"
    let standing =
        obj
          (dict (("operation", operation) ∷ ("components", a.components) ∷ ("bounds", bounds) ∷ []))
    need (← p ! "standing" =? ok (value_if a.established standing)) "STANDING_BINDING"

  unfoldable pub check_retrieval : Value → Text → Result (Unit {0})
  check_retrieval p purchase = do
    let path = lit "/v1/purchases/" ++ purchase
    need
        (← p ! "retrieval"
          =? ok (
              obj (
                dict (
                  ("purchase_path", str path)
                  ∷ ("result_path", str (path ++ lit "/result"))
                  ∷ ("registry_path", str (lit "/v1/registry/" ++ purchase))
                  ∷ (
                    "authentication",
                    txt "Buyer Ed25519 proof bound to HTTP method, path and body",
                  )
                  ∷ ("additional_charge", bool false)
                  ∷ []))))
        "RETRIEVAL_BINDING"

  unfoldable pub report_of : Value → Value → Text → Result Report
  report_of p d purchase = do
    environment ← p ! "environment"
    mark ← p ! "mark_id"
    outcome ← d ! "outcome"
    expires ← p ! "expires_at"
    ok (record {
      verified = true;
      environment = environment;
      purchase_id = purchase;
      mark_id = mark;
      assessment = outcome;
      current_standing = txt "NOT_CHECKED";
      payment_chain_finality =
          if value_eq environment (txt "LIVE")
          then txt "NOT_RECHECKED"
          else txt "SIMULATED_NOT_LIVE";
      expires_at = expires;
    })

  unfoldable pub verify_result : Value → Text → Bool → Result Report
  verify_result e pin allow_test = do
    p ← e ! "payload"
    check_contract e p
    check_environment p allow_test
    c ← check_issuer e p pin
    s ← p ! "submission"
    d ← p ! "decision_record"
    check_binding p s d
    a ← assess env s (← p ! "authority") pin (← d ! "evaluated_at") (← p ! "profile")
    check_replay p s d c a
    purchase ← purchase_digest s pin
    check_promotion e p s purchase a
    commerce ← p ! "commerce"
    quote ← verify_commerce env p s d c commerce purchase
    verify_settlement env p d commerce quote
    check_retrieval p purchase
    verify_discovery env p
    report_of p d purchase
