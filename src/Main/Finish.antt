-- ===== src/Main/Finish.antt =====
-- What `finish` adds to the report in `main` of verify/verify_mark.py, and what the report has before the
-- optional steps.
use whpstanding.Prelude.{◌≡◌, refl, ◌∙◌, false, not, ◌&&◌, none, some, String}
use whpstanding.Text.{lit, text_eq}
use whpstanding.Dict.{Dict, get, put}
use whpstanding.Value.{Value, null, bool, str, txt, value_eq}
use whpstanding.Mark.{verify_result}
use whpstanding.Mark
use whpstanding.Main.{set_field, field_is, result_report, finish, is_technically_live, printed}
use whpstanding.Main.Refused.{get-set_field, set_field-get}

-- the report as the optional steps find it
abbrev pub opened : Mark.Report → Dict Value
opened r =
    set_field "institutional_root_admission" (txt "CALLER_SUPPLIED_PIN_REQUIRED")
      (set_field "historical_issuance" (txt "VERIFIED") (result_report r))

-- a key that is none of the three that `finish` adds
abbrev pub Added : String → Type 0
Added j =
    (text_eq (lit "live_completion_verified") (lit j) ≡ false)
    × (text_eq (lit "outside_buyer_relationship") (lit j) ≡ false)
    × (text_eq (lit "technical_live_issuance_verified") (lit j) ≡ false)

-- a key that no optional step writes
abbrev pub Apart : String → Type 0
Apart j =
    (text_eq (lit "current_discovery") (lit j) ≡ false)
    × (text_eq (lit "current_standing") (lit j) ≡ false)
    × (text_eq (lit "payment_chain_finality") (lit j) ≡ false)

module _ (d : Dict Value) where
  pub finish-keeps : (j : String) → Added j → get (lit j) (finish d).printed ≡ get (lit j) d
  unfolding finish printed
  finish-keeps j (h₁, h₂, h₃) =
      get-set_field _ _ _ j h₁ ∙ get-set_field _ _ _ j h₂ ∙ get-set_field _ _ d j h₃

  pub finish-completes : get (lit "live_completion_verified") (finish d).printed ≡ some (bool false)
  unfolding finish printed
  finish-completes = set_field-get "live_completion_verified" _ _ (unfold text_eq lit in refl)

  pub finish-live :
      get (lit "technical_live_issuance_verified") (finish d).printed
      ≡ some (bool (is_technically_live d))
  unfolding finish printed
  finish-live =
      get-set_field "live_completion_verified" _ _ "technical_live_issuance_verified"
        (unfold text_eq lit in refl)
      ∙ get-set_field "outside_buyer_relationship" _ _ "technical_live_issuance_verified"
          (unfold text_eq lit in refl)
      ∙ set_field-get "technical_live_issuance_verified" _ d (unfold text_eq lit in refl)

pub live-same :
    (d : Dict Value) (environment mark standing finality : Value)
    → get (lit "environment") d ≡ some environment
    → get (lit "mark_id") d ≡ some mark
    → get (lit "current_standing") d ≡ some standing
    → get (lit "payment_chain_finality") d ≡ some finality
    → is_technically_live d ≡ (
        value_eq environment (txt "LIVE")
        && not (value_eq mark null)
        && value_eq standing (txt "ACTIVE")
        && value_eq finality (txt "FINALIZED_RECHECKED_AGAINST_SUPPLIED_RPC"))
unfolding is_technically_live field_is
live-same d environment mark standing finality h₁ h₂ h₃ h₄ = rw (h₁, h₂, h₃, h₄) refl

pub opened_fields :
    (r : Mark.Report)
    → (get (lit "verified") (opened r) ≡ some (bool r.verified))
      × (get (lit "environment") (opened r) ≡ some r.environment)
      × (get (lit "purchase_id") (opened r) ≡ some (str r.purchase_id))
      × (get (lit "mark_id") (opened r) ≡ some r.mark_id)
      × (get (lit "assessment") (opened r) ≡ some r.assessment)
      × (get (lit "expires_at") (opened r) ≡ some r.expires_at)
      × (get (lit "historical_issuance") (opened r) ≡ some (txt "VERIFIED"))
      × (get (lit "current_discovery") (opened r) ≡ none)
      × (get (lit "current_standing") (opened r) ≡ some r.current_standing)
      × (get (lit "payment_chain_finality") (opened r) ≡ some r.payment_chain_finality)
unfolding result_report get put text_eq lit
opened_fields r = (refl, refl, refl, refl, refl, refl, refl, refl, refl, refl)
