-- ===== src/Main/Refused.antt =====
-- The handler of `main` in verify/verify_mark.py: what it prints of a run that a step ended.
use whpstanding.Prelude.{
  ◌≡◌, refl, ap, none, [], ◌∙◌, Bool, true, false, inl, inr, ◌⊎◌, some, if◌then◌else◌, String,
}
use whpstanding.Result.{Fault}
use whpstanding.Text.{lit, text_eq}
use whpstanding.Dict.{Dict, get, put}
use whpstanding.Dict.Laws.{get-put}
use whpstanding.Value.{Value, bool, txt}
use whpstanding.Value.Laws.{str-value_eq}
use whpstanding.Env.{Env}
use whpstanding.Main.Causes.{Early, Late}
use whpstanding.Main.{Arguments, Exit, set_field, field_is, failed}

module _ (k : String) (v : Value) (d : Dict Value) where
  pub get-set_field :
      (j : String) → text_eq (lit k) (lit j) ≡ false → get (lit j) (set_field k v d) ≡ get (lit j) d
  get-set_field j h = rw (get-put (lit k) (lit j) v d, h) refl

  pub set_field-get : text_eq (lit k) (lit k) ≡ true → get (lit k) (set_field k v d) ≡ some v
  set_field-get h = rw (get-put (lit k) (lit k) v d, h) refl

module _ (env : Env) (args : Arguments) where
  -- A step raised, and the run ended with status 1: what is printed says that the mark is not verified and
  -- claims no completion. If nothing was verified before, it speaks of no issuance and no standing; else
  -- the issuance stays verified, and the standing is not.
  pub record Refused (x : Exit) : Type 0 where
    pub fault : Fault
    pub caught : x.caught ≡ some fault
    pub status : x.status ≡ 1
    pub verified : get (lit "verified") x.printed ≡ some (bool false)
    pub completion : get (lit "live_completion_verified") x.printed ≡ some (bool false)
    pub cause :
        (Early env args fault
          × (get (lit "historical_issuance") x.printed ≡ none)
          × (get (lit "current_standing") x.printed ≡ none))
        ⊎ (Late env args fault
            × (get (lit "historical_issuance") x.printed ≡ some (txt "VERIFIED"))
            × (get (lit "current_standing") x.printed ≡ some (txt "NOT_VERIFIED")))

  pub Early-Refused : (fault : Fault) → Early env args fault → Refused (failed fault [])
  unfolding failed field_is get put text_eq lit
  Early-Refused fault early = record {
    fault = fault;
    caught = refl;
    status = refl;
    verified = refl;
    completion = refl;
    cause = inl (early, refl, refl);
  }

  module _ (fault : Fault) (late : Late env args fault) where
    closed :
        (b : Bool) (d : Dict Value)
        → get (lit "verified") d ≡ some (bool false)
        → get (lit "live_completion_verified") d ≡ some (bool false)
        → get (lit "historical_issuance") d ≡ some (txt "VERIFIED")
        → b ≡ true
        → Refused (record {
          printed = if b then set_field "current_standing" (txt "NOT_VERIFIED") d else d;
          caught = some fault;
          status = 1;
        })
    closed true d verified completion issued h = record {
      fault = fault;
      caught = refl;
      status = refl;
      verified =
          get-set_field "current_standing" _ d "verified" (unfold text_eq lit in refl) ∙ verified;
      completion =
          get-set_field "current_standing" _ d "live_completion_verified"
            (unfold text_eq lit in refl)
          ∙ completion;
      cause = inr (
        late,
        get-set_field "current_standing" _ d "historical_issuance" (unfold text_eq lit in refl)
            ∙ issued,
        set_field-get "current_standing" _ d (unfold text_eq lit in refl),
      );
    }
    closed false d verified completion issued h = cc

    pub Late-Refused :
        (d : Dict Value)
        → get (lit "historical_issuance") d ≡ some (txt "VERIFIED")
        → Refused (failed fault d)
    unfolding failed
    Late-Refused d issued =
        let d₁ = set_field "verified" (bool false) d in
        let issued' : get (lit "historical_issuance")
              (set_field "live_completion_verified" (bool false) d₁)
            ≡ some (txt "VERIFIED") =
          get-set_field "live_completion_verified" _ d₁ "historical_issuance"
            (unfold text_eq lit in refl)
          ∙ get-set_field "verified" _ d "historical_issuance" (unfold text_eq lit in refl)
          ∙ issued in
        closed _ (set_field "live_completion_verified" (bool false) d₁)
          (get-set_field "live_completion_verified" _ d₁ "verified" (unfold text_eq lit in refl)
            ∙ set_field-get "verified" _ d (unfold text_eq lit in refl))
          (set_field-get "live_completion_verified" _ d₁ (unfold text_eq lit in refl)) issued'
          (ap (λ o. field_is o (txt "VERIFIED")) issued'
            ∙ (unfold field_is txt in str-value_eq (lit "VERIFIED")))
