-- ===== src/Graph/Counting.antt =====
-- Distinct texts, counted: what the test `len(seen) == len(n)` of GRAPH_CLOSURE in
-- verify/verify_mark.py rests on.
use whpstanding.Prelude.{
  ◌≤◌, ◌<◌, ◌≡◌, refl, sym, ◌∙◌, inl, inr, Bool, true, false, List, [], ◌∷◌, length, arith,
  Bool-cases,
}
use whpstanding.Text.{Text, text_eq}
use whpstanding.Dict.{has_text, without}
use whpstanding.Dict.Laws.{text_eq_iff, text_eq_refl, has_text-without}
use whpstanding.Graph.Order.{has_text-cons}

-- No text of the list stands in it again.
abbrev pub IsDistinct : List Text → Type 0
IsDistinct [] = Unit
IsDistinct (x ∷ xs) = (has_text x xs ≡ false) × IsDistinct xs

-- Every text of the first list is in the second.
abbrev pub Within : List Text → List Text → Type 0
Within xs ys = (t : Text) → has_text t xs ≡ true → has_text t ys ≡ true

pub false-true : ◌≡◌ {A = Bool} false true → ⊥
false-true e = cc

pub absent :
    (x t : Text) (xs : List Text)
    → has_text x xs ≡ false
    → has_text t xs ≡ true
    → text_eq t x ≡ false
absent x t xs new m = elim (Bool-cases (text_eq t x)) [
  | inr other ↦ other
  | inl same ↦ let path = (text_eq_iff t x).0 same in absurd (false-true (sym new ∙ rw (← path) m))
]

pub has_text-nil : (t : Text) → has_text t [] ≡ false
unfolding has_text
has_text-nil t = refl

without-le : (x : Text) (ys : List Text) → length (without x ys) ≤ length ys
unfolding without
without-le x [] = omega arith
without-le x (y ∷ ys) = ground (arith, without-le x ys)

without-lt : (x : Text) (ys : List Text) → has_text x ys ≡ true → length (without x ys) < length ys
unfolding has_text without
without-lt x [] h = cc
without-lt x (y ∷ ys) h =
    ground (arith, without-le x ys, without-lt x ys, text_eq_iff x y, text_eq_iff y x)

-- As many distinct texts as a list holds, drawn from it, are all of it.
pub IsDistinct-le : (xs ys : List Text) → IsDistinct xs → Within xs ys → length xs ≤ length ys
IsDistinct-le [] ys d h = omega arith
IsDistinct-le (x ∷ xs) ys (new, d) h =
    let present = h x (rw (has_text-cons, text_eq_refl)) in
    let fewer = without-lt x ys present in
    let rest = IsDistinct-le xs (without x ys) d (λ t m.
      rw has_text-without (ground (arith, h t, has_text-cons t x xs, absent x t xs new m))) in
    omega arith

pub pigeonhole :
    (xs ys : List Text) → IsDistinct xs → Within xs ys → length xs ≡ length ys → Within ys xs
pigeonhole xs ys d h e t m = elim (Bool-cases (has_text t xs)) [
  | inl inside ↦ inside
  | inr outside ↦
      let longer =
        IsDistinct-le (t ∷ xs) ys (outside, d)
          (λ u k. elim (Bool-cases (text_eq u t)) [
            | inl same ↦ let path = (text_eq_iff u t).0 same in rw path m
            | inr other ↦ h u (ground (arith, has_text-cons u t xs))
          ]) in
      absurd (omega arith)
]
