-- ===== src/Main/Steps.antt =====
-- The optional steps of `main` in verify/verify_mark.py: each replaces one field of the report, or raises.
use whpstanding.Prelude.{◌≡◌, refl, true, false, Option, none, some, String}
use whpstanding.Result.{Fault, Result, ok, err}
use whpstanding.Text.{lit, text_eq}
use whpstanding.Dict.{Dict, get}
use whpstanding.Value.{Value}
use whpstanding.Main.{Exit, set_field, failed, attempt, optional}
use whpstanding.Main.Asked.{Given}
use whpstanding.Main.Refused.{get-set_field, set_field-get}

-- What a step that returned made of the report.
pub record Updated (o : Option (Result Value)) (k : String) (d d' : Dict Value) : Type 0 where
  pub kept : (j : String) → text_eq (lit k) (lit j) ≡ false → get (lit j) d' ≡ get (lit j) d
  pub given : Given o (get (lit k) d) (get (lit k) d')

module _ (P : Exit → Type 0) where
  pub attempt-Ends :
      {A : Type 0} (m : Result A) (d : Dict Value) (k : A → Exit)
      → ((fault : Fault) → m ≡ err fault → P (failed fault d))
      → ((a : A) → m ≡ ok a → P (k a))
      → P (attempt m d k)
  unfolding attempt
  attempt-Ends (ok a) d k raised next = next a refl
  attempt-Ends (err fault) d k raised next = raised fault refl

  pub optional-Ends :
      (o : Option (Result Value)) (key : String) (d : Dict Value) (k : Dict Value → Exit)
      → text_eq (lit key) (lit key) ≡ true
      → ((fault : Fault) → o ≡ some (err fault) → P (failed fault d))
      → ((d' : Dict Value) → Updated o key d d' → P (k d'))
      → P (optional o key d k)
  unfolding optional attempt
  optional-Ends none key d k same raised next = next d (record { kept = λ j _. refl; given = refl })
  optional-Ends (some (ok v)) key d k same raised next =
      next (set_field key v d)
        (record { kept = get-set_field key v d; given = (v, refl, set_field-get key v d same) })
  optional-Ends (some (err fault)) key d k same raised next = raised fault refl
