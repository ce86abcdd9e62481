-- ===== src/Prelude/Lists.antt =====
-- Lists over the native numbers, with the tests that the program runs over its sequences.
use Prim.Native.Nat.{ℕ, suc, ◌+◌, ◌≤◌}
use mathlib.Core.Path.{◌≡◌, refl}
use mathlib.Core.Bool.{Bool, true, false, ◌&&◌, ◌||◌}
use mathlib.Core.List.{List, [], ◌∷◌, ◌++◌}
use native.Mathlib.Omega.{arith}
use whpstanding.Prelude.Tests.{if◌then◌else◌, &&-true}

module _ {ℓ} {A : Type ℓ} where
  abbrev pub length : List A → ℕ
  length [] = 0
  length (x ∷ xs) = suc (length xs)

  pub length-append : (xs ys : List A) → length (xs ++ ys) ≡ length xs + length ys
  length-append [] ys = omega arith
  length-append (x ∷ xs) ys = omega (arith, length-append xs ys)

  abbrev pub all : (A → Bool) → List A → Bool
  all p [] = true
  all p (x ∷ xs) = p x && all p xs

  abbrev pub any : (A → Bool) → List A → Bool
  any p [] = false
  any p (x ∷ xs) = p x || any p xs

  -- `[x for x in xs if p(x)]`
  unfoldable pub keep : (A → Bool) → List A → List A
  keep p [] = []
  keep p (x ∷ xs) = let rest = keep p xs in if p x then x ∷ rest else rest

  -- the members of `set(xs)`, one for each, for `len(set(xs))`
  unfoldable pub distinct : (A → A → Bool) → List A → List A
  distinct eq [] = []
  distinct eq (x ∷ xs) = let rest = distinct eq xs in if any (eq x) xs then rest else x ∷ rest

  pub length-distinct : (eq : A → A → Bool) (xs : List A) → length (distinct eq xs) ≤ length xs
  unfolding distinct
  length-distinct eq [] = omega arith
  length-distinct eq (x ∷ xs) = ground (arith, length-distinct eq xs)

-- Every member has the property.
abbrev pub All {ℓ κ} : {A : Type ℓ} → (A → Type κ) → List A → Type κ
All P [] = Unit
All P (x ∷ xs) = P x × All P xs

-- `","`.join and the like: the parts with a separator between them.
unfoldable pub join {ℓ} : {A : Type ℓ} → List A → List (List A) → List A
join sep [] = []
join sep (x ∷ []) = x
join sep (x ∷ y ∷ rest) = x ++ sep ++ join sep (y ∷ rest)

module _ {ℓ κ μ} {A : Type ℓ} {P : A → Type κ} {Q : A → Type μ} where
  pub All-imp : ((x : A) → P x → Q x) → (xs : List A) → All P xs → All Q xs
  All-imp f [] h = tt
  All-imp f (x ∷ xs) (p, h) = (f x p, All-imp f xs h)

-- `all` runs a test on every member.
module _ {ℓ} {A : Type ℓ} (p : A → Bool) where
  pub true-all : (xs : List A) → all p xs ≡ true → All (λ x. p x ≡ true) xs
  true-all [] h = tt
  true-all (x ∷ xs) h = let (here, rest) = &&-true (p x) (all p xs) h in (here, true-all xs rest)

  pub all-true : (xs : List A) → All (λ x. p x ≡ true) xs → all p xs ≡ true
  all-true [] h = refl
  all-true (x ∷ xs) (here, rest) = rw here (all-true xs rest)
