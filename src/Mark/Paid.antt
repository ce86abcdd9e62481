-- ===== src/Mark/Paid.antt =====
-- What `verify_result` in verify/verify_mark.py finds of the payment: it was authorized for this purchase,
-- under a quote that the issuer signed, and the settlement repeats it.
use whpstanding.Prelude.{
  ◌≡◌, ap, ◌∙◌, true, ℤ, leb_ℤ, ltb_ℤ, String, Bool, ◌≤ℤ◌, ◌<ℤ◌, leb_ℤ→le, ltb_ℤ→lt, subst, sym,
}
use whpstanding.Result.{
  Result, ok, ◌>>=◌, Ensures, Ensures-bind, Ensures-ok, Ensures-any, Ensures-check, Ensures-last,
  and-true, bind-ok, ok-injective, run-bind,
}
use whpstanding.Text.{Text, text_eq}
use whpstanding.Dict.Laws.{text_eq_iff}
use whpstanding.Value.{Value, txt, ◌!◌, ◌!!◌}
use whpstanding.Number.{as_decimal, lower}
use whpstanding.Compare.{◌=?◌, text, agree}
use whpstanding.Env.{Env, digest}
use whpstanding.Envelope.{unseal}
use whpstanding.Assess.Trace.{as_int}
use whpstanding.Mark.{Report, verify_result}
use whpstanding.Mark.Vouched.{Vouched, verify_result-Vouched}
use whpstanding.Mark.Payment.{
  check_payment_terms, check_payment_binding, check_settlement, purchase_nonce, verify_commerce,
  verify_settlement,
}

-- the field of a document is a text, which is this one in lower case
abbrev pub Lowered : Value → String → Text → Type 0
Lowered x k t = (x ! k >>= lower) ≡ ok t

-- two fields that a test compares once they are read, in the order in which it reads them
read_both :
    {A : Type 0} (m n : Result Value) (f g : Value → Result A) (test : A → A → Bool)
    → (m >>= λ u. f u >>= λ x. n >>= λ v. g v >>= λ y. ok (test x y)) ≡ ok true
    → (x : A) × (y : A) × ((m >>= f) ≡ ok x) × ((n >>= g) ≡ ok y) × (test x y ≡ true)
read_both m n f g test h =
    let (u, has_u, rest) = bind-ok m _ h in
    let (x, has_x, rest') = bind-ok (f u) _ rest in
    let (v, has_v, rest'') = bind-ok n _ rest' in
    let (y, has_y, same) = bind-ok (g v) _ rest'' in
    (x, y, run-bind f has_u has_x, run-bind g has_v has_y, ok-injective same)

lowered :
    (x : Value) (k : String) (t : Text)
    → (do ok (text_eq (← lower (← x ! k)) t)) ≡ ok true
    → Lowered x k t
lowered x k t h =
    let (v, has_v, rest) = bind-ok _ _ h in
    let (s, has_s, same) = bind-ok _ _ rest in
    run-bind lower has_v (has_s ∙ ap ok ((text_eq_iff s t).0 (ok-injective same)))

module _ (env : Env) where
  -- The quote: signed by the key that issued the result, for this purchase and this submission.
  pub record Quoted (s c commerce : Value) (purchase : Text) (quote : Value) : Type 0 where
    pub q : Value
    pub has_q : commerce ! "quote" ≡ ok q
    pub public_key : Value
    pub has_public_key : c ! "public_key" ≡ ok public_key
    pub sealed : unseal env q (txt "WHP-STANDING-QUOTE-v1") public_key ≡ ok quote
    pub request : Text
    pub hashed : digest env s ≡ ok request
    pub same_purchase : (quote ! "purchase_id" =? text purchase) ≡ ok true
    pub same_request : (quote ! "request_hash" =? text request) ≡ ok true
    pub same_buyer : agree quote s "buyer_key" ≡ ok true

  Ensures-commerce :
      (p s d c commerce : Value) (purchase : Text)
      → Ensures (verify_commerce env p s d c commerce purchase) (Quoted s c commerce purchase)
  unfolding verify_commerce
  Ensures-commerce p s d c commerce purchase = Ensures-bind λ _ _. Ensures-bind λ q has_q.
      Ensures-bind λ public_key has_public_key. Ensures-bind λ quote sealed. Ensures-bind λ _ _.
        Ensures-bind λ request hashed. Ensures-check _ λ bound.
          let (purchase_same, rest) = and-true _ _ bound in
          let (request_same, rest') = and-true _ _ rest in
          Ensures-ok quote (record {
            q = q;
            has_q = has_q;
            public_key = public_key;
            has_public_key = has_public_key;
            sealed = sealed;
            request = request;
            hashed = hashed;
            same_purchase = purchase_same;
            same_request = request_same;
            same_buyer = (and-true _ _ rest').0;
          })

-- The authorization is valid at the time of the evaluation.
pub record InForce (d a : Value) : Type 0 where
  pub now : ℤ
  pub evaluated : (d ! "evaluated_at" >>= as_int) ≡ ok now
  pub after : ℤ
  pub has_after : (a ! "validAfter" >>= as_decimal) ≡ ok after
  pub begun : after ≤ℤ now
  pub before : ℤ
  pub has_before : (a ! "validBefore" >>= as_decimal) ≡ ok before
  pub not_over : now <ℤ before

-- What was authorized: the amount that is required, to whom it is required, under the digest of
-- the quote as its nonce.
pub record Authorized (env : Env) (a r quote : Value) : Type 0 where
  pub nonce : Text
  pub bound : purchase_nonce env quote ≡ ok nonce
  pub same_nonce : Lowered a "nonce" nonce
  pub recipient : Text
  pub pays : Lowered a "to" recipient
  pub asked : Lowered r "payTo" recipient
  pub same_amount : (a ! "value" =? r ! "amount") ≡ ok true

-- The settlement repeats the payment.
pub record Settled (p settle r a : Value) : Type 0 where
  pub environment : (settle ! "environment" =? p ! "environment") ≡ ok true
  pub network : (settle ! "network" =? r ! "network") ≡ ok true
  pub asset : (settle ! "asset" =? r ! "asset") ≡ ok true
  pub payer : (settle ! "payer" =? a ! "from") ≡ ok true
  pub recipient : (settle ! "pay_to" =? a ! "to") ≡ ok true
  pub amount : (settle ! "amount" =? a ! "value") ≡ ok true
  pub nonce : (settle ! "nonce" =? a ! "nonce") ≡ ok true

module _ (env : Env) (p d pay a r quote : Value) where
  Ensures-terms :
      Ensures
        (check_payment_terms env p d pay a r quote)
        (λ _. InForce d a × ((ok r =? quote ! "payment_requirements") ≡ ok true))
  unfolding check_payment_terms
  Ensures-terms = Ensures-check _ λ times. Ensures-bind λ _ _. Ensures-check _ λ _.
      Ensures-last _ λ terms.
        let (begun, not_over) = and-true _ _ times in
        let (after, now, has_after, evaluated, earlier) =
          read_both (a ! "validAfter") (d ! "evaluated_at") as_decimal as_int leb_ℤ begun in
        let (before, now', has_before, evaluated', later) =
          read_both (a ! "validBefore") (d ! "evaluated_at") as_decimal as_int (λ x y. ltb_ℤ y x)
            not_over in
        let same : now' ≡ now = ok-injective (sym evaluated' ∙ evaluated) in
        (
          record {
            now = now;
            evaluated = evaluated;
            after = after;
            has_after = has_after;
            begun = leb_ℤ→le after now earlier;
            before = before;
            has_before = has_before;
            not_over = subst (λ t. t <ℤ before) same (ltb_ℤ→lt now' before later);
          },
          (and-true _ _ (and-true _ _ terms).1).0,
        )

  Ensures-binding :
      (commerce : Value)
      → Ensures (check_payment_binding env commerce a r quote) (λ _. Authorized env a r quote)
  unfolding check_payment_binding
  Ensures-binding commerce = Ensures-bind λ nonce bound. Ensures-check _ λ same. Ensures-any _ λ _.
      let (nonce_same, rest) = and-true _ _ same in
      let (recipient_same, amount) = and-true _ _ rest in
      let (to, pay_to, pays, asked, equal) =
        read_both (a ! "to") (r ! "payTo") lower lower text_eq recipient_same in
      record {
        nonce = nonce;
        bound = bound;
        same_nonce = lowered a "nonce" nonce nonce_same;
        recipient = to;
        pays = pays;
        asked = asked ∙ ap ok (sym ((text_eq_iff to pay_to).0 equal));
        same_amount = amount;
      }

Ensures-settlement :
    (env : Env) (p settle r a : Value)
    → Ensures (check_settlement env p settle r a) (λ _. Settled p settle r a)
unfolding check_settlement
Ensures-settlement env p settle r a = Ensures-check _ λ environment. Ensures-check _ λ network.
    Ensures-check _ λ asset. Ensures-check _ λ payer. Ensures-check _ λ recipient.
      Ensures-check _ λ amount. Ensures-check _ λ nonce. Ensures-any _ λ _. record {
        environment = environment;
        network = network;
        asset = asset;
        payer = payer;
        recipient = recipient;
        amount = amount;
        nonce = nonce;
      }

-- The payment of a result `r`: quoted for its purchase, authorized under the quote, and settled.
pub record Paid (env : Env) (e : Value) (pin : Text) (r : Report) : Type 0 where
  pub vouched : Vouched env e pin r
  pub quoted :
      Quoted env vouched.s vouched.certificate vouched.commerce vouched.purchase vouched.quote
  pub pay : Value
  pub has_pay : vouched.commerce ! "payment_payload" ≡ ok pay
  pub a : Value
  pub has_authorization : (pay ! "payload" !! "authorization") ≡ ok a
  pub terms : Value
  pub has_terms : pay ! "accepted" ≡ ok terms
  pub settle : Value
  pub has_settle : vouched.commerce ! "settlement" ≡ ok settle
  pub in_force : InForce vouched.d a
  pub required : (ok terms =? vouched.quote ! "payment_requirements") ≡ ok true
  pub authorized : Authorized env a terms vouched.quote
  pub settled : Settled vouched.p settle terms a

module _ (env : Env) (e : Value) (pin : Text) (allow_test : Bool) (r : Report) where
  -- If `verify_result` returns a report, the key that issued the result signed a quote for its purchase
  -- and the digest of its submission; the payment is what the quote requires, of its amount and to its
  -- recipient, under the digest of the quote as its nonce, and in force at the evaluation; and the
  -- settlement repeats the payment.
  pub verify_result-Paid : verify_result env e pin allow_test ≡ ok r → Paid env e pin r
  unfolding verify_settlement
  verify_result-Paid h =
      let v = verify_result-Vouched env e pin allow_test r h in
      let (pay, has_pay, rest₁) = bind-ok _ _ v.settled in
      let (a, has_authorization, rest₂) = bind-ok _ _ rest₁ in
      let (terms, has_terms, rest₃) = bind-ok _ _ rest₂ in
      let (settle, has_settle, rest₄) = bind-ok _ _ rest₃ in
      let (_, _, rest₅) = bind-ok _ _ rest₄ in
      let (u, offered, rest₆) = bind-ok _ _ rest₅ in
      let (w, bound, settled) = bind-ok _ _ rest₆ in
      let (in_force, required) = (Ensures-terms env v.p v.d pay a terms v.quote).at u offered in
      record {
        vouched = v;
        quoted =
            (Ensures-commerce env v.p v.s v.d v.certificate v.commerce v.purchase).at v.quote
              v.quoted;
        pay = pay;
        has_pay = has_pay;
        a = a;
        has_authorization = has_authorization;
        terms = terms;
        has_terms = has_terms;
        settle = settle;
        has_settle = has_settle;
        in_force = in_force;
        required = required;
        authorized = (Ensures-binding env v.p v.d pay a terms v.quote v.commerce).at w bound;
        settled = (Ensures-settlement env v.p settle terms a).at tt settled;
      }
