-- ===== src/Main/Outcome.antt =====
-- How `main` of verify/verify_mark.py ends: with a report of what each step returned, or, if a step raises,
-- with the report so far, marked as failed.
use whpstanding.Prelude.{
  ◌≡◌, refl, sym, ap, subst, ◌∙◌, Bool, true, false, not, ◌&&◌, inl, inr, ◌⊎◌, Option, none, some,
  if◌then◌else◌, String,
}
use whpstanding.Result.{Fault, value_error, Result, ok, err, ◌>>=◌, need, bind-ok}
use whpstanding.Text.{Bytes, lit, text_eq}
use whpstanding.Dict.{Dict, get, put}
use whpstanding.Value.{Value, null, bool, str, txt, value_eq}
use whpstanding.Env.{Env}
use whpstanding.Mark.Vouched.{verify_result-Vouched, Ensures-report}
use whpstanding.Discovery.Resolution.{Resolved, verify_resolution_only}
use whpstanding.Main.{
  Arguments, Exit, at_or_now, read_named, resolved_report, finish, printed, discovery_step,
  registry_step, chain_step, verify_mark, verify_candidate, main,
}
use whpstanding.Main.Refused.{Refused, Early-Refused, Late-Refused}
use whpstanding.Main.Asked.{
  Given, Discovers, Checks, Rechecks, Given-Discovers, Given-Checks, Given-Rechecks,
  discovery_step-raises, registry_step-raises, chain_step-raises, bind-err,
}
use whpstanding.Main.Causes.{
  Begun, Early, unread, unverified, unnamed, uncontracted, unlocated, at_discovery, at_registry,
  at_chain,
}
use whpstanding.Main.Finish.{
  opened, Added, Apart, finish-keeps, finish-completes, finish-live, live-same, opened_fields,
}
use whpstanding.Main.Steps.{Updated, attempt-Ends, optional-Ends}

module _ (env : Env) (args : Arguments) where
  -- The mark was verified, every step that was asked for returned, and what is printed says what they
  -- returned. Live issuance is claimed of what was printed, and completion never is.
  pub record Verified (x : Exit) : Type 0 where
    pub begun : Begun env args
    pub open begun use *
    pub status : x.status ≡ 0
    pub caught : x.caught ≡ none
    pub verified : get (lit "verified") x.printed ≡ some (bool true)
    pub completion : get (lit "live_completion_verified") x.printed ≡ some (bool false)
    pub environment : get (lit "environment") x.printed ≡ some r.environment
    pub purchase_id : get (lit "purchase_id") x.printed ≡ some (str r.purchase_id)
    pub mark_id : get (lit "mark_id") x.printed ≡ some r.mark_id
    pub assessment : get (lit "assessment") x.printed ≡ some r.assessment
    pub expires_at : get (lit "expires_at") x.printed ≡ some r.expires_at
    pub issuance : get (lit "historical_issuance") x.printed ≡ some (txt "VERIFIED")
    pub located : Discovers env args e (get (lit "current_discovery") x.printed)
    pub standing : Value
    pub checked : Checks env args e raw (txt "NOT_CHECKED") standing
    pub printed_standing : get (lit "current_standing") x.printed ≡ some standing
    pub finality : Value
    pub rechecked : Rechecks env args e r.payment_chain_finality finality
    pub printed_finality : get (lit "payment_chain_finality") x.printed ≡ some finality
    pub live :
        get (lit "technical_live_issuance_verified") x.printed
        ≡ some (
            bool (
              value_eq r.environment (txt "LIVE")
              && not (value_eq r.mark_id null)
              && value_eq standing (txt "ACTIVE")
              && value_eq finality (txt "FINALIZED_RECHECKED_AGAINST_SUPPLIED_RPC")))

  -- A resolution was checked on its own: no result was, so nothing is said of an issuance or a standing.
  pub record Located (x : Exit) : Type 0 where
    pub e : Value
    pub raw : Bytes
    pub given : args.mark ≡ ok (e, raw)
    pub mode : args.resolution_only ≡ true
    pub document : Value
    pub bytes : Bytes
    pub contract : args.contract ≡ some (ok (document, bytes))
    pub r : Resolved
    pub environment : Value
    pub ran :
        verify_resolution_only env e document args.root_pin args.allow_test
          (at_or_now args.at (args.clock 0))
        ≡ ok (r, environment)
    pub status : x.status ≡ 0
    pub caught : x.caught ≡ none
    pub verified : get (lit "verified") x.printed ≡ some (bool true)
    pub origin : get (lit "service_origin") x.printed ≡ some r.service_origin
    pub completion : get (lit "live_completion_verified") x.printed ≡ some (bool false)
    pub issuance : get (lit "historical_issuance") x.printed ≡ some (txt "NOT_PRESENT")
    pub standing : get (lit "current_standing") x.printed ≡ some (txt "NOT_CHECKED")

  module _ (b : Begun env args) where
    flags : (b.r.verified ≡ true) × (b.r.current_standing ≡ txt "NOT_CHECKED")
    flags =
        let v = verify_result-Vouched env b.e args.root_pin args.allow_test b.r b.ran in
        let told = (Ensures-report env v.p v.d v.purchase).at b.r v.reported in
        (told.verified, told.unchecked)

    module _ (d₁ : Dict Value)
        (discovery : Updated
          (discovery_step env args b.e)
          "current_discovery"
          (opened b.r)
          d₁) where
      found_discovery : Discovers env args b.e (get (lit "current_discovery") d₁)
      found_discovery =
          let (_, _, _, _, _, _, _, absent, _, _) = opened_fields b.r in
          Given-Discovers env args b.e _ (
            subst (λ o. Given (discovery_step env args b.e) o (get (lit "current_discovery") d₁))
              absent discovery.given)

      issued₁ : get (lit "historical_issuance") d₁ ≡ some (txt "VERIFIED")
      issued₁ =
          let (_, _, _, _, _, _, issued, _, _, _) = opened_fields b.r in
          discovery.kept "historical_issuance" (unfold text_eq lit in refl) ∙ issued

      module _ (d₂ : Dict Value)
          (registry : Updated (registry_step env args b.e b.raw) "current_standing" d₁ d₂) where
        found_standing :
            (standing : Value) × Checks env args b.e b.raw (txt "NOT_CHECKED") standing
            × (get (lit "current_standing") d₂ ≡ some standing)
        found_standing =
            let (_, _, _, _, _, _, _, _, standing, _) = opened_fields b.r in
            Given-Checks env args b.e b.raw (txt "NOT_CHECKED") _ (
              subst
                (λ o. Given (registry_step env args b.e b.raw) o (get (lit "current_standing") d₂))
                (discovery.kept "current_standing" (unfold text_eq lit in refl)
                  ∙ standing
                  ∙ ap some (flags.1))
                registry.given)

        issued₂ : get (lit "historical_issuance") d₂ ≡ some (txt "VERIFIED")
        issued₂ = registry.kept "historical_issuance" (unfold text_eq lit in refl) ∙ issued₁

        module _ (d₃ : Dict Value)
            (chain : Updated (chain_step env args b.e) "payment_chain_finality" d₂ d₃) where
          fixed : (j : String) → Apart j → get (lit j) d₃ ≡ get (lit j) (opened b.r)
          fixed j (h₁, h₂, h₃) = chain.kept j h₃ ∙ registry.kept j h₂ ∙ discovery.kept j h₁

          shown :
              (j : String)
              → Apart j
              → Added j
              → get (lit j) (finish d₃).printed ≡ get (lit j) (opened b.r)
          shown j apart added = finish-keeps d₃ j added ∙ fixed j apart

          found_finality :
              (finality : Value) × Rechecks env args b.e b.r.payment_chain_finality finality
              × (get (lit "payment_chain_finality") d₃ ≡ some finality)
          found_finality =
              let (_, _, _, _, _, _, _, _, _, finality) = opened_fields b.r in
              Given-Rechecks env args b.e b.r.payment_chain_finality _ (
                subst
                  (λ o. Given (chain_step env args b.e) o (get (lit "payment_chain_finality") d₃))
                  (registry.kept "payment_chain_finality" (unfold text_eq lit in refl)
                    ∙ discovery.kept "payment_chain_finality" (unfold text_eq lit in refl)
                    ∙ finality)
                  chain.given)

          finish-Verified : Verified (finish d₃)
          finish-Verified =
              let (verified, environment, purchase, mark, assessment, expires, issued, _, _, _) =
                opened_fields b.r in
              let (standing, checked, at₂) = found_standing in
              let (finality, rechecked, at₃) = found_finality in
              let still = chain.kept "current_standing" (unfold text_eq lit in refl) ∙ at₂ in
              record {
                begun = b;
                status = unfold finish printed in refl;
                caught = unfold finish printed in refl;
                verified =
                    shown "verified" (unfold text_eq lit in (refl, refl, refl))
                      (unfold text_eq lit in (refl, refl, refl))
                    ∙ verified
                    ∙ ap (λ b. some (bool b)) (flags.0);
                completion = finish-completes d₃;
                environment =
                    shown "environment" (unfold text_eq lit in (refl, refl, refl))
                      (unfold text_eq lit in (refl, refl, refl))
                    ∙ environment;
                purchase_id =
                    shown "purchase_id" (unfold text_eq lit in (refl, refl, refl))
                      (unfold text_eq lit in (refl, refl, refl))
                    ∙ purchase;
                mark_id =
                    shown "mark_id" (unfold text_eq lit in (refl, refl, refl))
                      (unfold text_eq lit in (refl, refl, refl))
                    ∙ mark;
                assessment =
                    shown "assessment" (unfold text_eq lit in (refl, refl, refl))
                      (unfold text_eq lit in (refl, refl, refl))
                    ∙ assessment;
                expires_at =
                    shown "expires_at" (unfold text_eq lit in (refl, refl, refl))
                      (unfold text_eq lit in (refl, refl, refl))
                    ∙ expires;
                issuance =
                    shown "historical_issuance" (unfold text_eq lit in (refl, refl, refl))
                      (unfold text_eq lit in (refl, refl, refl))
                    ∙ issued;
                located =
                    subst (Discovers env args b.e)
                      (sym (
                        finish-keeps d₃ "current_discovery"
                          (unfold text_eq lit in (refl, refl, refl))
                        ∙ chain.kept "current_discovery" (unfold text_eq lit in refl)
                        ∙ registry.kept "current_discovery" (unfold text_eq lit in refl)))
                      found_discovery;
                standing = standing;
                checked = checked;
                printed_standing =
                    finish-keeps d₃ "current_standing" (unfold text_eq lit in (refl, refl, refl))
                    ∙ still;
                finality = finality;
                rechecked = rechecked;
                printed_finality =
                    finish-keeps d₃ "payment_chain_finality"
                      (unfold text_eq lit in (refl, refl, refl))
                    ∙ at₃;
                live =
                    finish-live d₃
                    ∙ ap (λ b. some (bool b))
                        (live-same d₃ _ _ _ _
                          (fixed "environment" (unfold text_eq lit in (refl, refl, refl))
                            ∙ environment)
                          (fixed "mark_id" (unfold text_eq lit in (refl, refl, refl)) ∙ mark) still
                          at₃);
              }

  verify_mark-Verified :
      (e : Value) (raw : Bytes)
      → args.mark ≡ ok (e, raw)
      → args.resolution_only ≡ false
      → Refused env args (verify_mark env args e raw) ⊎ Verified (verify_mark env args e raw)
  unfolding verify_mark
  verify_mark-Verified e raw given mode =
      attempt-Ends Ends _ _ _
        (λ fault h. inl (Early-Refused env args fault (unverified e raw given mode h)))
        λ r ran.
          let b : Begun env args = record {
            e = e;
            raw = raw;
            given = given;
            mode = mode;
            r = r;
            ran = ran;
          } in
          let (_, _, _, _, _, _, issued, _, _, _) = opened_fields r in
          optional-Ends Ends _ "current_discovery" _ _ (unfold text_eq lit in refl)
            (λ fault h. inl (
              Late-Refused env args fault
                (at_discovery b (discovery_step-raises env args e fault h)) _ issued))
            λ d₁ discovery.
              let found = found_discovery b d₁ discovery in
              optional-Ends Ends _ "current_standing" _ _ (unfold text_eq lit in refl)
                (λ fault h. inl (
                  Late-Refused env args fault
                    (at_registry b _ found (registry_step-raises env args e raw fault h)) _
                    (issued₁ b d₁ discovery)))
                λ d₂ registry.
                  let (standing, checked, _) = found_standing b d₁ discovery d₂ registry in
                  optional-Ends Ends _ "payment_chain_finality" _ _ (unfold text_eq lit in refl)
                    (λ fault h. inl (
                      Late-Refused env args fault
                        (at_chain b _ standing found checked (chain_step-raises env args e fault h))
                        _ (issued₂ b d₁ discovery d₂ registry)))
                    λ d₃ chain. inr (finish-Verified b d₁ discovery d₂ registry d₃ chain)
    where
      Ends : Exit → Type 0
      Ends x = Refused env args x ⊎ Verified x

  named_file :
      (o : Option (Result (Value × Bytes))) (file : Value × Bytes)
      → read_named o ≡ ok file
      → o ≡ some (ok file)
  unfolding read_named need ◌>>=◌
  named_file none file h = cc
  named_file (some m) file h = ap some h

  unnamed_file :
      (o : Option (Result (Value × Bytes))) (fault : Fault)
      → read_named o ≡ err fault
      → ((o ≡ none) × (value_error "IMMUTABLE_CONTRACT_REQUIRED" ≡ fault)) ⊎ (o ≡ some (err fault))
  unfolding read_named need ◌>>=◌
  unnamed_file none fault h = inl (refl, cc)
  unnamed_file (some m) fault h = inr (ap some h)

  module _ (e : Value) (raw : Bytes) (given : args.mark ≡ ok (e, raw))
      (mode : args.resolution_only ≡ true) where
    candidate-Early :
        (fault : Fault)
        → (do
          (document, bytes) ← read_named args.contract
          verify_resolution_only env e document args.root_pin args.allow_test
              (at_or_now args.at (args.clock 0)))
          ≡ err fault
        → Early env args fault
    candidate-Early fault h = elim (bind-err _ _ h) [
      | inl unreadable ↦ elim (unnamed_file args.contract fault unreadable) [
        | inl (absent, same) ↦ subst (Early env args) same (unnamed e raw given mode absent)
        | inr refused ↦ uncontracted e raw given mode refused
      ]
      | inr ((document, bytes), read, refused) ↦
          unlocated e raw document bytes given mode (named_file _ _ read) refused
    ]

    verify_candidate-Located :
        Refused env args (verify_candidate env args e) ⊎ Located (verify_candidate env args e)
    unfolding verify_candidate
    verify_candidate-Located =
        attempt-Ends (λ x. Refused env args x ⊎ Located x) _ _ _
          (λ fault h. inl (Early-Refused env args fault (candidate-Early fault h)))
          λ _ h.
            let ((document, bytes), read, ran) = bind-ok _ _ h in
            inr (record {
              e = e;
              raw = raw;
              given = given;
              mode = mode;
              document = document;
              bytes = bytes;
              contract = named_file _ _ read;
              r = _;
              environment = _;
              ran = ran;
              status = unfold printed in refl;
              caught = unfold printed in refl;
              verified = unfold printed resolved_report get put text_eq lit in refl;
              origin = unfold printed resolved_report get put text_eq lit in refl;
              completion = unfold printed resolved_report get put text_eq lit in refl;
              issuance = unfold printed resolved_report get put text_eq lit in refl;
              standing = unfold printed resolved_report get put text_eq lit in refl;
            })

  chosen :
      (b : Bool) (e : Value) (raw : Bytes)
      → args.mark ≡ ok (e, raw)
      → args.resolution_only ≡ b
      → let x = (if b then verify_candidate env args e else verify_mark env args e raw) in
        Refused env args x ⊎ (Verified x ⊎ Located x)
  chosen true e raw given mode = elim (verify_candidate-Located e raw given mode) [
    | inl refused ↦ inl refused
    | inr located ↦ inr (inr located)
  ]
  chosen false e raw given mode = elim (verify_mark-Verified e raw given mode) [
    | inl refused ↦ inl refused
    | inr verified ↦ inr (inl verified)
  ]

  -- A run ends in one of three ways. The first step that raised ended it: the exit status is 1, and what is
  -- printed says that the mark is not verified and claims no completion; if the verification itself or what
  -- comes before it raised, it speaks of no issuance and no standing, and if a step behind it raised, the
  -- issuance stays VERIFIED and the standing is NOT_VERIFIED. Or a mark was verified, and the steps that
  -- were asked for returned: what is printed is what the verification returned, the resolution that was
  -- found, if one was asked for, the standing that the registry gave, or NOT_CHECKED without a registry, and
  -- the finality that the node gave, or else that of the verification; and live issuance is claimed exactly
  -- if the environment is LIVE, there is the name of a mark, the standing is ACTIVE and the finality is
  -- FINALIZED_RECHECKED_AGAINST_SUPPLIED_RPC. Or a resolution was checked on its own, whose service is
  -- printed, the issuance as NOT_PRESENT and the standing as NOT_CHECKED. In the last two the exit status is
  -- 0, what is printed says verified, and claims no completion.
  pub main-Ends :
      Refused env args (main env args) ⊎ (Verified (main env args) ⊎ Located (main env args))
  unfolding main
  main-Ends =
      attempt-Ends (λ x. Refused env args x ⊎ (Verified x ⊎ Located x)) _ _ _
        (λ fault h. inl (Early-Refused env args fault (unread h)))
        λ (e, raw) given. chosen args.resolution_only e raw given refl
