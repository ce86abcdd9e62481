-- ===== src/Mark/Vouched.antt =====
-- What an accepted result of `verify_result` in verify/verify_mark.py vouches for: the assessment that
-- was run again, the key that issued it, and the name and the type of the mark.
use whpstanding.Prelude.{◌≡◌, refl, sym, ap, ◌∙◌, Bool, true, false, min_ℤ, map, [], ◌∷◌}
use whpstanding.Result.{
  Result, ok, ◌>>=◌, Ensures, Ensures-bind, Ensures-ok, Ensures-check, Ensures-last, and-true,
  ok-injective,
}
use whpstanding.Text.{Text}
use whpstanding.Value.{Value, null, int, str, list, txt, ◌!◌, ◌!!◌, value_eq}
use whpstanding.Value.Laws.{value_eq-str}
use whpstanding.Compare.{◌=?◌, const, agree_all}
use whpstanding.Env.{Env}
use whpstanding.Trust.{Trust, trust, grant}
use whpstanding.Assess.{Assessment, assess, outcome_text}
use whpstanding.Assess.Trace.{as_int}
use whpstanding.Assess.Verdict.{Grounds, established-Grounds}
use whpstanding.Mark.Payment.{verify_commerce, verify_settlement}
use whpstanding.Mark.{
  Report, value_if, mark_name, result_type, check_issuer, check_replay, check_promotion,
  purchase_digest, report_of, verify_result,
}

module _ (env : Env) (e : Value) (pin : Text) where
  -- The key of the envelope was granted the role ISSUER for the bounds of the submission at the time of
  -- issue, under a trust bundle whose profile names the environment and the issuer of the result.
  pub record Issued (p : Value) (c : Value) : Type 0 where
    pub authority : Value
    pub has_authority : p ! "authority" ≡ ok authority
    pub issued : Value
    pub has_issued : p ! "issued_at" ≡ ok issued
    pub admitted : Trust
    pub trusted : trust env authority pin issued ≡ ok admitted
    pub same_issuer : agree_all admitted.profile p ("environment" ∷ "issuer" ∷ []) ≡ ok true
    pub kind : Value
    pub bounds : Value
    pub has_bounds : (p ! "submission" !! "bounds") ≡ ok bounds
    pub granted : grant env admitted.keys admitted.revocations e kind "ISSUER" bounds issued ≡ ok c

  Ensures-issuer : (p : Value) → Ensures (check_issuer env e p pin) (Issued p)
  unfolding check_issuer
  Ensures-issuer p = Ensures-bind λ authority has_authority. Ensures-bind λ issued has_issued.
      Ensures-bind λ admitted trusted. Ensures-check _ λ same. Ensures-bind λ kind _.
        Ensures-bind λ bounds has_bounds. Ensures-bind λ c granted. Ensures-check _ λ _.
          Ensures-ok c (record {
            authority = authority;
            has_authority = has_authority;
            issued = issued;
            has_issued = has_issued;
            admitted = admitted;
            trusted = trusted;
            same_issuer = (and-true _ _ same).0;
            kind = kind;
            bounds = bounds;
            has_bounds = has_bounds;
            granted = granted;
          })

  -- What `check_replay` compares with the assessment that was run again.
  pub record Replayed (p d c : Value) (a : Assessment) : Type 0 where
    pub outcome : (d ! "outcome" =? ok (outcome_text a.established)) ≡ ok true
    pub operations : (d ! "permitted_operations" =? ok (list (map str a.permitted))) ≡ ok true
    pub components : (d ! "components" =? ok a.components) ≡ ok true
    pub ends : (d ! "expires_at" =? ok (int a.expiry)) ≡ ok true
    pub expires :
        (p ! "expires_at"
          =? (do until ← as_int (← c ! "valid_until"); ok (int (min_ℤ a.expiry until))))
        ≡ ok true

  Ensures-replay :
      (p s d c : Value) (a : Assessment)
      → Ensures (check_replay env p s d c a) (λ _. Replayed p d c a)
  unfolding check_replay
  Ensures-replay p s d c a = Ensures-check _ λ verdict. Ensures-bind λ _ _. Ensures-bind λ _ _.
      Ensures-bind λ _ _. Ensures-bind λ _ _. Ensures-check _ λ measures.
        let (outcome, operations) = and-true _ _ verdict in
        let (components, rest) = and-true _ _ measures in
        let (ends, expires) = and-true _ _ rest in
        Ensures-bind λ _ _. Ensures-bind λ _ _. Ensures-bind λ _ _. Ensures-check _ λ _.
          Ensures-bind λ _ _. Ensures-last _ λ _. record {
            outcome = outcome;
            operations = operations;
            components = components;
            ends = ends;
            expires = expires;
          }

  -- The name and the type of the result follow from the outcome.
  pub record Promoted (p : Value) (purchase : Text) (a : Assessment) : Type 0 where
    pub same_purchase : (ok (str purchase) =? p ! "purchase_id") ≡ ok true
    pub name : (p ! "mark_id" =? ok (value_if a.established (mark_name purchase))) ≡ ok true
    pub type : ((e ! "protected" !! "type") =? ok (result_type a.established)) ≡ ok true

  Ensures-promotion :
      (p s : Value) (purchase : Text) (a : Assessment)
      → Ensures (check_promotion env e p s purchase a) (λ _. Promoted p purchase a)
  unfolding check_promotion
  Ensures-promotion p s purchase a = Ensures-check _ λ same. Ensures-check _ λ name.
      Ensures-check _ λ type. Ensures-bind λ _ _.
        Ensures-bind
          λ _ _. Ensures-last _ λ _. record { same_purchase = same; name = name; type = type }

  -- What `verify_result` found: the result's parts, the assessment of its own submission as it comes out
  -- again, and the purchase that names it.
  pub record Vouched (r : Report) : Type 0 where
    pub p : Value
    pub has_payload : e ! "payload" ≡ ok p
    pub certificate : Value
    pub issued : Issued p certificate
    pub s : Value
    pub has_submission : p ! "submission" ≡ ok s
    pub d : Value
    pub has_record : p ! "decision_record" ≡ ok d
    pub authority : Value
    pub has_authority : p ! "authority" ≡ ok authority
    pub evaluated : Value
    pub has_evaluated : d ! "evaluated_at" ≡ ok evaluated
    pub profile : Value
    pub has_profile : p ! "profile" ≡ ok profile
    pub a : Assessment
    pub ran : assess env s authority pin evaluated profile ≡ ok a
    pub replayed : Replayed p d certificate a
    pub purchase : Text
    pub named : purchase_digest env s pin ≡ ok purchase
    pub promoted : Promoted p purchase a
    pub commerce : Value
    pub has_commerce : p ! "commerce" ≡ ok commerce
    pub quote : Value
    pub quoted : verify_commerce env p s d certificate commerce purchase ≡ ok quote
    pub settled : verify_settlement env p d commerce quote ≡ ok tt
    pub reported : report_of env p d purchase ≡ ok r

  Ensures-result : (allow_test : Bool) → Ensures (verify_result env e pin allow_test) Vouched
  unfolding verify_result
  Ensures-result allow_test = Ensures-bind λ p has_payload. Ensures-bind λ _ _. Ensures-bind λ _ _.
      Ensures-bind λ c has_c. Ensures-bind λ s has_submission. Ensures-bind λ d has_record.
        Ensures-bind λ _ _. Ensures-bind λ authority has_authority.
          Ensures-bind λ evaluated has_evaluated. Ensures-bind λ profile has_profile.
            Ensures-bind λ a ran. Ensures-bind λ u same. Ensures-bind λ purchase named.
              Ensures-bind λ w name. Ensures-bind λ commerce has_commerce.
                Ensures-bind λ quote quoted. Ensures-bind λ _ settled. Ensures-bind λ _ _.
                  Ensures-bind λ _ _. record {
                    at = λ r reported. record {
                      p = p;
                      has_payload = has_payload;
                      certificate = c;
                      issued = (Ensures-issuer p).at c has_c;
                      s = s;
                      has_submission = has_submission;
                      d = d;
                      has_record = has_record;
                      authority = authority;
                      has_authority = has_authority;
                      evaluated = evaluated;
                      has_evaluated = has_evaluated;
                      profile = profile;
                      has_profile = has_profile;
                      a = a;
                      ran = ran;
                      replayed = (Ensures-replay p s d c a).at u same;
                      purchase = purchase;
                      named = named;
                      promoted = (Ensures-promotion p s purchase a).at w name;
                      commerce = commerce;
                      has_commerce = has_commerce;
                      quote = quote;
                      quoted = quoted;
                      settled = settled;
                      reported = reported;
                    };
                  }

  -- If `verify_result` returns a report, the issuer of the result was granted at the time of issue, the
  -- assessment of the submission it carries comes out again with the outcome, the permitted operations,
  -- the components and the expiry that it records, and its name and its type are those of that outcome.
  pub verify_result-Vouched :
      (allow_test : Bool) (r : Report) → verify_result env e pin allow_test ≡ ok r → Vouched r
  verify_result-Vouched allow_test r h = (Ensures-result allow_test).at r h

-- What the report says of the result.
pub record Told (env : Env) (p d : Value) (purchase : Text) (r : Report) : Type 0 where
  pub environment : p ! "environment" ≡ ok r.environment
  pub mark_id : p ! "mark_id" ≡ ok r.mark_id
  pub assessment : d ! "outcome" ≡ ok r.assessment
  pub expires_at : p ! "expires_at" ≡ ok r.expires_at
  pub purchase_id : r.purchase_id ≡ purchase
  pub verified : r.verified ≡ true
  pub unchecked : r.current_standing ≡ txt "NOT_CHECKED"

pub Ensures-report :
    (env : Env) (p d : Value) (purchase : Text)
    → Ensures (report_of env p d purchase) (Told env p d purchase)
unfolding report_of
Ensures-report env p d purchase = Ensures-bind λ _ environment. Ensures-bind λ _ mark.
    Ensures-bind λ _ outcome. Ensures-bind λ _ expires. Ensures-ok _ (record {
      environment = environment;
      mark_id = mark;
      assessment = outcome;
      expires_at = expires;
      purchase_id = refl;
      verified = refl;
      unchecked = refl;
    })

same_value :
    (m : Result Value) (v w : Value) → m ≡ ok v → (m =? ok w) ≡ ok true → value_eq v w ≡ true
unfolding ◌=?◌ ◌>>=◌
same_value m v w e h = ok-injective (sym (rw e refl) ∙ h)

-- a name that is not null was given for an established outcome
named_if :
    (established : Bool) (v : Value) (purchase : Text)
    → value_eq v null ≡ false
    → value_eq v (value_if established (mark_name purchase)) ≡ true
    → (established ≡ true) × (v ≡ mark_name purchase)
unfolding value_if mark_name
named_if true v purchase h k = (refl, value_eq-str v _ k)
named_if false v purchase h k = cc

module _ (env : Env) (e : Value) (pin : Text) (allow_test : Bool) (r : Report) where
  -- If `verify_result` returns a report with the name of a mark, the outcome of the assessment that it
  -- vouches for is established, the name is that of the purchase, the envelope has the type of a mark,
  -- and the submission has its grounds under the pinned root: attestations, warrants and exact passages.
  pub marked-Grounds :
      verify_result env e pin allow_test ≡ ok r
      → value_eq r.mark_id null ≡ false
      → (v : Vouched env e pin r) × (v.a.established ≡ true)
        × (r.mark_id ≡ mark_name v.purchase)
        × ((e ! "protected" !! "type" =? const "WHP-STANDING-MARK-v1") ≡ ok true)
        × Grounds env v.s v.authority pin v.evaluated v.profile v.a
  unfolding result_type
  marked-Grounds h named =
      let v = verify_result-Vouched env e pin allow_test r h in
      let told = (Ensures-report env v.p v.d v.purchase).at r v.reported in
      let (established, name) =
        named_if v.a.established r.mark_id v.purchase named
          (same_value _ _ _ told.mark_id v.promoted.name) in
      (
        v,
        established,
        name,
        ap (λ b. (e ! "protected" !! "type") =? ok (result_type b)) (sym established)
            ∙ v.promoted.type,
        established-Grounds env v.s v.authority pin v.evaluated v.profile v.a v.ran established,
      )
