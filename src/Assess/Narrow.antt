-- ===== src/Assess/Narrow.antt =====
-- The steps of `assess` in verify/verify_mark.py only narrow what it will conclude: operations are
-- taken away, the expiry moves earlier, and a check that failed stays in the trace.
use whpstanding.Prelude.{
  ◌≡◌, refl, ◌∙◌, sym, Bool, true, false, ◌&&◌, String, List, [], ◌∷◌, ◌++◌, all, keep, arith,
  &&-true, ◌≤ℤ◌, ≤ℤ_trans, min_ℤ-le_left, min_ℤ-le_right, ℤ, Bool-cases, inl, inr,
}
use mathlib.Core.Bool.{false≢true}
use whpstanding.Result.{Result, ok, err}
use whpstanding.Text.{Text, text_eq}
use whpstanding.Dict.{has_text}
use whpstanding.Dict.Laws.{text_eq_iff}
use whpstanding.Graph.Counting.{Within}
use whpstanding.Value.{Value, str, contains_value}
use whpstanding.Assess.Trace.{
  Tally, add_check, cap_expiry, allow_only, block, cap_or_fail, record_grant,
}

-- Every check of the trace passed.
unfoldable pub all_passed : Tally → Bool
all_passed t = all (λ c. c.passed) t.checks

pub record Narrows (t t' : Tally) : Type 0 where
  pub allowed : Within t'.allowed t.allowed
  pub expiry : t'.expiry ≤ℤ t.expiry
  pub passed : all_passed t' ≡ true → all_passed t ≡ true

pub Narrows-refl : (t : Tally) → Narrows t t
Narrows-refl t = record { allowed = λ op m. m; expiry = omega arith; passed = λ p. p }

pub Narrows-trans : {t₁ t₂ t₃ : Tally} → Narrows t₁ t₂ → Narrows t₂ t₃ → Narrows t₁ t₃
Narrows-trans {t₁} {t₂} {t₃} f g = record {
  allowed = λ op m. f.allowed op (g.allowed op m);
  expiry = ≤ℤ_trans t₃.expiry t₂.expiry t₁.expiry g.expiry f.expiry;
  passed = λ p. f.passed (g.passed p);
}

all-concat {ℓ} :
    {A : Type ℓ} (p : A → Bool) (xs : List A) (x : A) → all p (xs ++ x ∷ []) ≡ all p xs && p x
all-concat p [] x = ground arith
all-concat p (y ∷ xs) x = ground (arith, all-concat p xs x)

-- A trace passes with one more check exactly if it passed and that check does.
pub all_passed-add_check :
    (rule : String) (object : Value) (passed : Bool) (t : Tally)
    → all_passed (add_check rule object passed t) ≡ all_passed t && passed
unfolding all_passed add_check
all_passed-add_check rule object passed t =
    all-concat (λ c. c.passed) t.checks (record { rule = rule; object = object; passed = passed })

pub add_check-passed :
    (rule : String) (object : Value) (passed : Bool) (t : Tally)
    → all_passed (add_check rule object passed t) ≡ true
    → (all_passed t ≡ true) × (passed ≡ true)
add_check-passed rule object passed t p =
    &&-true _ passed (sym (all_passed-add_check rule object passed t) ∙ p)

pub has_text-keep :
    (f : Text → Bool) (op : Text) (xs : List Text)
    → has_text op (keep f xs) ≡ true
    → (has_text op xs ≡ true) × (f op ≡ true)
unfolding has_text keep
has_text-keep f op [] m = absurd (cc)
has_text-keep f op (x ∷ xs) m = elim (Bool-cases (f x)) [
  | inl kept ↦ elim (Bool-cases (text_eq op x)) [
    | inl same ↦ let path = (text_eq_iff op x).0 same in (ground arith, rw path kept)
    | inr other ↦
        let (old, good) = has_text-keep f op xs (rw (kept, other) at m) in (ground arith, good)
  ]
  | inr dropped ↦ let (old, good) = has_text-keep f op xs (rw dropped at m) in (ground arith, good)
]

module _ (t : Tally) where
  pub Narrows-add_check :
      (rule : String) (object : Value) (passed : Bool) → Narrows t (add_check rule object passed t)
  Narrows-add_check rule object passed = record {
    allowed = λ op m. unfold add_check in m;
    expiry = unfold add_check in omega arith;
    passed = λ p. (add_check-passed rule object passed t p).0;
  }

  pub Narrows-cap_expiry : (until : ℤ) → Narrows t (cap_expiry until t)
  unfolding cap_expiry all_passed
  Narrows-cap_expiry until = record {
    allowed = λ op m. m;
    expiry = min_ℤ-le_left t.expiry until;
    passed = λ p. p;
  }

  pub cap_expiry-le : (until : ℤ) → (cap_expiry until t).expiry ≤ℤ until
  unfolding cap_expiry
  cap_expiry-le until = min_ℤ-le_right t.expiry until

  pub Narrows-allow_only : (given : List Value) → Narrows t (allow_only given t)
  unfolding allow_only all_passed
  Narrows-allow_only given = record {
    allowed = λ op m. (has_text-keep _ op t.allowed m).0;
    expiry = omega arith;
    passed = λ p. p;
  }

  pub allow_only-listed :
      (given : List Value) (op : Text)
      → has_text op (allow_only given t).allowed ≡ true
      → contains_value (str op) given ≡ true
  unfolding allow_only
  allow_only-listed given op m = (has_text-keep _ op t.allowed m).1

  pub Narrows-block : (blocked : List Value) → Narrows t (block blocked t)
  unfolding block all_passed
  Narrows-block blocked = record {
    allowed = λ op m. (has_text-keep _ op t.allowed m).0;
    expiry = omega arith;
    passed = λ p. p;
  }

  pub block-unlisted :
      (blocked : List Value) (op : Text)
      → has_text op (block blocked t).allowed ≡ true
      → contains_value (str op) blocked ≡ false
  unfolding block
  block-unlisted blocked op m = ground (arith, (has_text-keep _ op t.allowed m).1)

-- The `try` block of a grant: it narrows, and passes only if the grant was made, spans the bounds and
-- has an expiry that is taken over.
pub record Grants (r : Result (Bool × Result ℤ)) (t' : Tally) : Type 0 where
  pub until : ℤ
  pub made : r ≡ ok (true, ok until)
  pub expiry : t'.expiry ≤ℤ until

Narrows-cap_or_fail :
    (rule : String) (h : Value) (t : Tally) (r : Result ℤ) → Narrows t (cap_or_fail rule h t r)
unfolding cap_or_fail
Narrows-cap_or_fail rule h t (ok until) = Narrows-cap_expiry t until
Narrows-cap_or_fail rule h t (err e) = Narrows-add_check t rule h false

pub Narrows-record_grant :
    (rule : String) (h : Value) (t : Tally) (r : Result (Bool × Result ℤ))
    → Narrows t (record_grant rule h t r)
unfolding record_grant
Narrows-record_grant rule h t (ok (covers, until)) =
    Narrows-trans (Narrows-add_check t rule h covers) (Narrows-cap_or_fail rule h _ until)
Narrows-record_grant rule h t (err e) = Narrows-add_check t rule h false

pub failed_check :
    (rule : String) (h : Value) (t : Tally) → all_passed (add_check rule h false t) ≡ true → ⊥
failed_check rule h t p = false≢true (add_check-passed rule h false t p).1

pub Grants-record_grant :
    (rule : String) (h : Value) (t : Tally) (r : Result (Bool × Result ℤ))
    → all_passed (record_grant rule h t r) ≡ true
    → Grants r (record_grant rule h t r)
unfolding record_grant cap_or_fail
Grants-record_grant rule h t (ok (true, ok until)) p = record {
  until = until;
  made = refl;
  expiry = cap_expiry-le (add_check rule h true t) until;
}
Grants-record_grant rule h t (ok (false, ok until)) p =
    absurd (failed_check rule h t ((Narrows-cap_expiry (add_check rule h false t) until).passed p))
Grants-record_grant rule h t (ok (covers, err e)) p =
    absurd (failed_check rule h (add_check rule h covers t) p)
Grants-record_grant rule h t (err e) p = absurd (failed_check rule h t p)
