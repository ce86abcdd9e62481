-- ===== src/Graph/Acyclic.antt =====
-- What an order of the nodes before their parents says of the graph in verify/verify_mark.py.
use whpstanding.Prelude.{
  ◌≡◌, sym, ◌∙◌, inl, inr, true, false, List, [], ◌∷◌, All, arith, Bool-cases,
}
use whpstanding.Text.{Text, text_eq}
use whpstanding.Dict.{Dict, has_text}
use whpstanding.Dict.Laws.{text_eq_iff}
use whpstanding.Graph.{parents}
use whpstanding.Graph.Order.{IsOrdered, Reach, here, via, has_text-cons, All-has_text}
use whpstanding.Graph.Counting.{IsDistinct, Within, false-true, has_text-nil}

module _ (nodes : List Text) (edges : Dict (List Text)) where
  pub IsOrdered-IsDistinct : (xs : List Text) → IsOrdered nodes edges xs → IsDistinct xs
  IsOrdered-IsDistinct [] o = tt
  IsOrdered-IsDistinct (x ∷ xs) (known, ps, new, o) = (new, IsOrdered-IsDistinct xs o)

  pub IsOrdered-Within : (xs : List Text) → IsOrdered nodes edges xs → Within xs nodes
  IsOrdered-Within [] o t m = absurd (false-true (sym (has_text-nil t) ∙ m))
  IsOrdered-Within (x ∷ xs) (known, ps, new, o) t m = elim (Bool-cases (text_eq t x)) [
    | inl same ↦ let path = (text_eq_iff t x).0 same in rw path known
    | inr other ↦ IsOrdered-Within xs o t (ground (arith, has_text-cons t x xs))
  ]

  -- The parents of a text of the list are in the list.
  parents-Within :
      (xs : List Text)
      → IsOrdered nodes edges xs
      → (t p : Text) → has_text t xs ≡ true
      → has_text p (parents edges t) ≡ true
      → has_text p xs ≡ true
  parents-Within [] o t p m k = absurd (false-true (sym (has_text-nil t) ∙ m))
  parents-Within (x ∷ xs) (known, ps, new, o) t p m k = elim (Bool-cases (text_eq t x)) [
    | inl same ↦
        let path = (text_eq_iff t x).0 same in
        let inside = All-has_text _ (parents edges x) ps p (rw (sym path) k) in
        ground (arith, has_text-cons p x xs)
    | inr other ↦
        let inside = parents-Within xs o t p (ground (arith, has_text-cons t x xs)) k in
        ground (arith, has_text-cons p x xs)
  ]

  -- What is reached from a text of the list is in the list.
  pub Reach-Within :
      (xs : List Text)
      → IsOrdered nodes edges xs
      → {t u : Text} → has_text t xs ≡ true
      → Reach edges t u
      → has_text u xs ≡ true
  Reach-Within xs o m (here e) = rw (← e) m
  Reach-Within xs o {t} m (via {p} k r) = Reach-Within xs o (parents-Within xs o t p m k) r

  -- In such an order no text is reached from one of its parents.
  pub IsOrdered-acyclic :
      (xs : List Text)
      → IsOrdered nodes edges xs
      → (t p : Text) → has_text t xs ≡ true
      → has_text p (parents edges t) ≡ true
      → ¬ Reach edges p t
  IsOrdered-acyclic [] o t p m k r = false-true (sym (has_text-nil t) ∙ m)
  IsOrdered-acyclic (x ∷ xs) (known, ps, new, o) t p m k r = elim (Bool-cases (text_eq t x)) [
    | inl same ↦
        let path = (text_eq_iff t x).0 same in
        let inside = All-has_text _ (parents edges x) ps p (rw (sym path) k) in
        let back = Reach-Within xs o inside r in false-true (sym new ∙ rw (sym path) back)
    | inr other ↦ IsOrdered-acyclic xs o t p (ground (arith, has_text-cons t x xs)) k r
  ]

  -- Behind a text of the list stands a list with all its parents, and without it.
  pub below :
      (xs : List Text) (t : Text)
      → IsOrdered nodes edges xs
      → has_text t xs ≡ true
      → (ys : List Text) × IsOrdered nodes edges ys
        × Within ys xs
        × (has_text t ys ≡ false)
        × All (λ p. has_text p ys ≡ true) (parents edges t)
  below [] t o m = absurd (false-true (sym (has_text-nil t) ∙ m))
  below (x ∷ xs) t (known, ps, new, o) m = elim (Bool-cases (text_eq t x)) [
    | inl same ↦
        let path = (text_eq_iff t x).0 same in
        (xs, o, λ u k. ground (arith, has_text-cons u x xs), rw path new, rw path ps)
    | inr other ↦
        let (ys, o', sub, out, ps') = below xs t o (ground (arith, has_text-cons t x xs)) in
        (ys, o', (λ u k. ground (arith, sub u k, has_text-cons u x xs)), out, ps')
  ]
