-- ===== src/Mark/Payment.antt =====
-- The commerce part of `verify_result` in verify/verify_mark.py: the quote, the payment that was
-- authorized for it, and the settlement that is recorded.
use whpstanding.Prelude.{
  Bool, true, false, ◌&&◌, String, List, [], ◌∷◌, ◌++◌, length, all, ◌==◌, if◌then◌else◌, pos,
  leb_ℤ, ltb_ℤ,
}
use whpstanding.Result.{type_error, Result, ok, err, ◌>>=◌, ◌>>◌, need, ◌and◌}
use whpstanding.Text.{Text, lit, text_eq, is_hex_lower}
use whpstanding.Value.{Value, int, str, obj, txt, dict, ◌!◌, ◌!!◌, exact, value_eq}
use whpstanding.Number.{as_decimal, lower}
use whpstanding.Compare.{◌=?◌, ◌≤?◌, ◌<?◌, const, text, agree, agree_all}
use whpstanding.Env.{Env, digest}
use whpstanding.Envelope.{unseal}
use whpstanding.Trust.{profile_hash}
use whpstanding.Assess.Trace.{as_int}

unfoldable pub commerce_fields : List String
commerce_fields =
    "quote" ∷ "payment_identity" ∷ "payment_payload" ∷ "settlement" ∷ "assessment_paid_by"
    ∷ "relationship" ∷ "assessor" ∷ []

unfoldable pub quote_fields : List String
quote_fields =
    "purchase_id" ∷ "request_hash" ∷ "buyer_key" ∷ "profile_hash" ∷ "issuer" ∷ "environment"
    ∷ "issued_at" ∷ "expires_at" ∷ "resource" ∷ "payment_requirements" ∷ "charge_policy" ∷ []

unfoldable pub expected_relationship : Value → Value
expected_relationship environment =
    if value_eq environment (txt "TEST")
    then txt
        "Simulated buyer and test issuer only. No Wheeler Hubbell Publishing sale or real funds transfer occurred."
    else txt
        "The buyer pays Wheeler Hubbell Publishing for assessment. Payment does not determine the assessment outcome."

-- `re.fullmatch(r'0x[0-9a-f]{64}', v)`
unfoldable pub check_transaction_id : Value → Result (Unit {0})
check_transaction_id (str (a ∷ b ∷ s)) =
    need (a == b'0' && b == b'x' && length s == 64 && all is_hex_lower s) "TRANSACTION_ID_INVALID"
check_transaction_id (str s) = need false "TRANSACTION_ID_INVALID"
check_transaction_id _ = err type_error

-- where a real payment must go
unfoldable pub pays_live : Value → Result Bool
pays_live r =
    (r ! "network" =? const "eip155:8453")
    and (r ! "asset" =? const "0x833589fcd6edb6e08f4c7c32d4f71b54bda02913")
    and (r ! "payTo" =? const "0x1050eddd8282623b0c263ed6bdbd42370bbc28d3")
    and ((r ! "extra" !! "name") =? const "USD Coin")
    and ((r ! "extra" !! "version") =? const "2")

module _ (env : Env) where
  -- `digest({'domain': 'WHP-STANDING-PURCHASE-BINDING-v1', 'quote': qp})` behind `0x`
  unfoldable pub purchase_nonce : Value → Result Text
  purchase_nonce quote = do
    h ←
        digest env
          (obj (dict (("domain", txt "WHP-STANDING-PURCHASE-BINDING-v1") ∷ ("quote", quote) ∷ [])))
    ok (lit "0x" ++ h)

  unfoldable pub payment_identity : Value → Value → Text → Result Text
  payment_identity r a nonce = do
    network ← r ! "network"
    asset ← lower (← r ! "asset")
    authorizer ← lower (← a ! "from")
    digest env (
        obj (
          dict (
            ("domain", txt "WHP-EIP3009-PAYMENT-IDENTITY-v1")
            ∷ ("network", network)
            ∷ ("asset", str asset)
            ∷ ("authorizer", str authorizer)
            ∷ ("nonce", str nonce)
            ∷ [])))

  -- the quote of the issuer for this purchase; its payload is returned
  unfoldable pub verify_commerce : Value → Value → Value → Value → Value → Text → Result Value
  verify_commerce p s d c commerce purchase = do
    exact commerce commerce_fields
    q ← commerce ! "quote"
    quote ← unseal env q (txt "WHP-STANDING-QUOTE-v1") (← c ! "public_key")
    exact quote quote_fields
    request ← digest env s
    need
        (← (quote ! "purchase_id" =? text purchase)
          and (quote ! "request_hash" =? text request)
          and agree quote s "buyer_key"
          and (quote ! "profile_hash" =? text profile_hash)
          and agree_all quote p ("issuer" ∷ "environment" ∷ []))
        "QUOTE_BINDING"
    ok quote

  -- the quote is current at the evaluation
  unfoldable pub check_quote_time : Value → Value → Value → Value → Result (Unit {0})
  check_quote_time p d commerce quote = do
    environment ← p ! "environment"
    need (← commerce ! "relationship" =? ok (expected_relationship environment))
        "PAYMENT_RELATIONSHIP_ENVIRONMENT"
    need
        (← (quote ! "issued_at" ≤? d ! "evaluated_at")
          and (d ! "evaluated_at" <? quote ! "expires_at")
          and (quote ! "issued_at" <? quote ! "expires_at"))
        "QUOTE_TIME_BINDING"

  -- the authorization `a`, valid at the evaluation, of what `r` requires
  unfoldable pub check_payment_terms :
      Value → Value → Value → Value → Value → Value → Result (Unit {0})
  check_payment_terms p d pay a r quote = do
    need
        (← (do
          after ← as_decimal (← a ! "validAfter")
          evaluated ← as_int (← d ! "evaluated_at")
          ok (leb_ℤ after evaluated))
          and (do
            before ← as_decimal (← a ! "validBefore")
            evaluated ← as_int (← d ! "evaluated_at")
            ok (ltb_ℤ evaluated before)))
        "PAYMENT_AUTHORIZATION_TIME"
    need (← (if value_eq (← p ! "environment") (txt "LIVE") then pays_live r else ok true))
        "LIVE_PAYMENT_DESTINATION"
    need
        (← (pay ! "x402Version" =? ok (int (pos 2)))
          and (ok r =? quote ! "payment_requirements")
          and agree pay quote "resource")
        "PAYMENT_TERMS_MISMATCH"

  unfoldable pub check_payment_binding : Value → Value → Value → Value → Result (Unit {0})
  check_payment_binding commerce a r quote = do
    nonce ← purchase_nonce quote
    need
        (← (do ok (text_eq (← lower (← a ! "nonce")) nonce))
          and (do ok (text_eq (← lower (← a ! "to")) (← lower (← r ! "payTo"))))
          and (a ! "value" =? r ! "amount"))
        "PAYMENT_PURCHASE_BINDING"
    identity ← payment_identity r a nonce
    need
        (← (commerce ! "payment_identity" =? text identity)
          and (commerce ! "assessment_paid_by" =? a ! "from"))
        "PAYMENT_IDENTITY_MISMATCH"

  -- the recorded settlement repeats the payment, field by field
  unfoldable pub check_settlement : Value → Value → Value → Value → Result (Unit {0})
  check_settlement p settle r a = do
    need (← settle ! "environment" =? p ! "environment") "SETTLEMENT_BINDING_environment"
    need (← settle ! "network" =? r ! "network") "SETTLEMENT_BINDING_network"
    need (← settle ! "asset" =? r ! "asset") "SETTLEMENT_BINDING_asset"
    need (← settle ! "payer" =? a ! "from") "SETTLEMENT_BINDING_payer"
    need (← settle ! "pay_to" =? a ! "to") "SETTLEMENT_BINDING_pay_to"
    need (← settle ! "amount" =? a ! "value") "SETTLEMENT_BINDING_amount"
    need (← settle ! "nonce" =? a ! "nonce") "SETTLEMENT_BINDING_nonce"
    check_transaction_id (← settle ! "transaction")

  unfoldable pub verify_settlement : Value → Value → Value → Value → Result (Unit {0})
  verify_settlement p d commerce quote = do
    pay ← commerce ! "payment_payload"
    a ← pay ! "payload" !! "authorization"
    r ← pay ! "accepted"
    settle ← commerce ! "settlement"
    check_quote_time p d commerce quote
    check_payment_terms p d pay a r quote
    check_payment_binding commerce a r quote
    check_settlement p settle r a
