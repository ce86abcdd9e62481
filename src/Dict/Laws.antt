-- ===== src/Dict/Laws.antt =====
-- Equality of texts is decided, and what a lookup returns after an assignment.
use whpstanding.Prelude.{
  ◌≡◌, refl, ◌↔◌, ◌⊎◌, true, false, List, [], ◌∷◌, some, arith, ==_iff, &&-true, if◌then◌else◌,
  ◌==◌,
}
use whpstanding.Text.{Text, text_eq}
use whpstanding.Dict.{Dict, get, put, keys, has_text, without}

text_eq_sound : (s t : Text) → text_eq s t ≡ true → s ≡ t
unfolding text_eq
text_eq_sound [] [] h = refl
text_eq_sound [] (d ∷ t) h = cc
text_eq_sound (c ∷ s) [] h = cc
text_eq_sound (c ∷ s) (d ∷ t) h =
    let (head, rest) = &&-true (c == d) (text_eq s t) h in
    cc ((==_iff c d).0 head, text_eq_sound s t rest)

pub text_eq_refl : (s : Text) → text_eq s s ≡ true
unfolding text_eq
text_eq_refl [] = refl
text_eq_refl (c ∷ s) = rw ((==_iff c c).1 refl, text_eq_refl s)

text_eq_complete : (s t : Text) → s ≡ t → text_eq s t ≡ true
text_eq_complete s t e = rw e (text_eq_refl t)

pub text_eq_iff : (s t : Text) → (text_eq s t ≡ true) ↔ (s ≡ t)
text_eq_iff s t = (text_eq_sound s t, text_eq_complete s t)

module _ {ℓ} {A : Type ℓ} where
  pub get-put :
      (k j : Text) (v : A) (d : Dict A)
      → get j (put k v d) ≡ (if text_eq k j then some v else get j d)
  unfolding get put
  get-put k j v [] = refl
  get-put k j v ((i, w) ∷ d) =
      ground (arith, text_eq_iff k j, text_eq_iff i k, text_eq_iff i j, get-put k j v d)

  -- A key that was not there is added behind the others.
  pub keys-put :
      (k : Text) (v : A) (d : Dict A) (t : Text)
      → has_text t (keys (put k v d)) ≡ true
      → (t ≡ k) ⊎ (has_text t (keys d) ≡ true)
  unfolding put keys has_text
  keys-put k v [] t h = ground (arith, text_eq_iff t k)
  keys-put k v ((j, w) ∷ d) t h = ground (arith, text_eq_iff t j, keys-put k v d t)

pub has_text-without :
    (t u : Text) (xs : List Text)
    → has_text u (without t xs) ≡ (if text_eq u t then false else has_text u xs)
unfolding has_text without
has_text-without t u [] = ground arith
has_text-without t u (x ∷ xs) =
    ground (arith, has_text-without t u xs, text_eq_iff u t, text_eq_iff x t, text_eq_iff u x)
