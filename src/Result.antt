-- ===== src/Result.antt =====
-- Exceptions as values: what a Python function returns, or the fault that it raises. `need` of
-- verify/verify_mark.py is the test that raises. `Ensures` is the rule set for what holds of a
-- value that a chain of such steps returned.
use whpstanding.Prelude.{
  String, ◌≡◌, refl, subst, ap, ◌∙◌, Bool, true, false, if◌then◌else◌, List, [], ◌∷◌, All, ◌↔◌,
}

pub data Fault : Type 0 where
  -- `ValueError(code)`, as `need` raises it
  value_error : String → Fault
  -- `KeyError`, `IndexError`
  key_error : Fault
  -- `TypeError`, `AttributeError`
  type_error : Fault
  -- a text that has no encoding, or is no number
  encoding_error : Fault
  -- from the base64, key, signature and schema libraries
  base64_error key_format_error signature_error schema_error : Fault

pub data Result {ℓ} (A : Type ℓ) : Type ℓ where
  ok : A → Result A
  err : Fault → Result A

infixl 5 ◌>>=◌ ◌>>◌
unfoldable pub ◌>>=◌ {ℓ κ} : {A : Type ℓ} {B : Type κ} → Result A → (A → Result B) → Result B
ok a >>= f = f a
err e >>= f = err e

abbrev pub ◌>>◌ {ℓ κ} : {A : Type ℓ} {B : Type κ} → Result A → Result B → Result B
m >> k = m >>= λ _. k

-- `need(value, code)`
unfoldable pub need : Bool → String → Result (Unit {0})
need true code = ok tt
need false code = err (value_error code)

-- `a and b`, `a or b`: the second is evaluated only where the first leaves it open.
infixr 35 ◌and◌
infixr 30 ◌or◌
unfoldable pub ◌and◌ : Result Bool → Result Bool → Result Bool
ok true and n = n
ok false and n = ok false
err e and n = err e

unfoldable pub ◌or◌ : Result Bool → Result Bool → Result Bool
ok true or n = ok true
ok false or n = n
err e or n = err e

-- `[f(x) for x in xs]`, and `all(f(x) for x in xs)`, which stops at the first that fails.
module _ {ℓ κ} {A : Type ℓ} {B : Type κ} where
  unfoldable pub each : (A → Result B) → List A → Result (List B)
  each f [] = ok []
  each f (x ∷ xs) = f x >>= λ y. each f xs >>= λ ys. ok (y ∷ ys)

module _ {ℓ} {A : Type ℓ} where
  unfoldable pub all_of : (A → Result Bool) → List A → Result Bool
  all_of f [] = ok true
  all_of f (x ∷ xs) = f x and all_of f xs

  unfoldable pub any_of : (A → Result Bool) → List A → Result Bool
  any_of f [] = ok false
  any_of f (x ∷ xs) = f x or any_of f xs

  -- a `for` loop whose body only checks
  unfoldable pub for_each : (A → Result (Unit {0})) → List A → Result (Unit {0})
  for_each f [] = ok tt
  for_each f (x ∷ xs) = f x >> for_each f xs

-- What a successful run tells: the property holds of any value that `m` returns.
pub record Ensures {ℓ κ} {A : Type ℓ} (m : Result A) (P : A → Type κ) : Type (ℓ ⊔ κ) where
  pub at : (a : A) → m ≡ ok a → P a

pub ok-injective {ℓ} : {A : Type ℓ} {a b : A} → ok a ≡ ok b → a ≡ b
ok-injective e = cc

module _ {ℓ κ} {A : Type ℓ} {P : A → Type κ} where
  pub Ensures-ok : (a : A) → P a → Ensures (ok a) P
  Ensures-ok a p = record { at = λ b e. subst P (ok-injective e) p }

  pub Ensures-err : (e : Fault) → Ensures (err e) P
  Ensures-err e = record { at = λ b h. cc }

  pub Ensures-any : (m : Result A) → ((a : A) → P a) → Ensures m P
  Ensures-any m p = record { at = λ a _. p a }

  pub Ensures-map {μ} :
      {Q : A → Type μ} {m : Result A} → Ensures m P → ((a : A) → P a → Q a) → Ensures m Q
  Ensures-map h f = record { at = λ a e. f a (h.at a e) }

  pub Ensures-if :
      {m n : Result A} (b : Bool)
      → (b ≡ true → Ensures m P)
      → (b ≡ false → Ensures n P)
      → Ensures (if b then m else n) P
  Ensures-if true p q = p refl
  Ensures-if false p q = q refl

module _ {ℓ κ μ} {A : Type ℓ} {B : Type κ} {P : B → Type μ} where
  pub Ensures-bind :
      {m : Result A} {f : A → Result B}
      → ((a : A) → m ≡ ok a → Ensures (f a) P)
      → Ensures (m >>= f) P
  Ensures-bind {m} {f} k = bind m k
    where
      bind : (m : Result A) → ((a : A) → m ≡ ok a → Ensures (f a) P) → Ensures (m >>= f) P
      bind (ok a) k = unfold ◌>>=◌ in k a refl
      bind (err e) k = unfold ◌>>=◌ in Ensures-err e

module _ {κ ℓ} {B : Type κ} {P : B → Type ℓ} where
  -- After `need(b, code)` the rest may use that the test passed.
  pub Ensures-need :
      {m : Result B} (b : Bool) (code : String)
      → (b ≡ true → Ensures m P)
      → Ensures (need b code >> m) P
  unfolding need ◌>>=◌
  Ensures-need true code k = k refl
  Ensures-need false code k = Ensures-err (value_error code)

  -- The same for a test that may raise itself.
  pub Ensures-check :
      {m : Result Bool} {n : Result B} (code : String)
      → (m ≡ ok true → Ensures n P)
      → Ensures (m >>= λ b. need b code >> n) P
  Ensures-check {m} {n} code k = Ensures-bind λ b e. Ensures-need b code λ h. k (e ∙ ap ok h)

-- A test that ends a definition.
pub Ensures-last {κ} :
    {m : Result Bool} (code : String) {P : Unit {0} → Type κ}
    → (m ≡ ok true → P tt)
    → Ensures (m >>= λ b. need b code) P
unfolding need
Ensures-last {m} code {P} k = Ensures-bind λ b e. decide b e
  where
    decide : (b : Bool) → m ≡ ok b → Ensures (need b code) P
    decide true e = Ensures-ok tt (k e)
    decide false e = Ensures-err (value_error code)

pub need-ok : (b : Bool) (code : String) {u : Unit {0}} → need b code ≡ ok u → b ≡ true
unfolding need
need-ok true code h = refl
need-ok false code h = cc

-- Both sides of a conjunction that came out true.
pub and-true : (m n : Result Bool) → (m and n) ≡ ok true → (m ≡ ok true) × (n ≡ ok true)
unfolding ◌and◌
and-true (ok true) n h = (refl, h)
and-true (ok false) n h = cc
and-true (err e) n h = cc

pub bind-ok {ℓ κ} :
    {A : Type ℓ} {B : Type κ} {y : B} (r : Result A) (next : A → Result B)
    → r >>= next ≡ ok y
    → (x : A) × (r ≡ ok x) × (next x ≡ ok y)
unfolding ◌>>=◌
bind-ok (ok a) f h = (a, refl, h)
bind-ok (err e) f h = cc

or-false : (m n : Result Bool) → (m or n) ≡ ok false → (m ≡ ok false) × (n ≡ ok false)
unfolding ◌or◌
or-false (ok true) n h = cc
or-false (ok false) n h = (refl, h)
or-false (err e) n h = cc

module _ {ℓ} {A : Type ℓ} (f : A → Result Bool) where
  any_of-All-false : (xs : List A) → any_of f xs ≡ ok false → All (λ x. f x ≡ ok false) xs
  unfolding any_of
  any_of-All-false [] h = tt
  any_of-All-false (x ∷ xs) h =
      let (here, rest) = or-false (f x) (any_of f xs) h in (here, any_of-All-false xs rest)

  All-false-any_of : (xs : List A) → All (λ x. f x ≡ ok false) xs → any_of f xs ≡ ok false
  unfolding any_of ◌or◌
  All-false-any_of [] h = refl
  All-false-any_of (x ∷ xs) (here, rest) = rw here (All-false-any_of xs rest)

  -- `any(f(x) for x in xs)` is false exactly when every test ran and was false.
  pub any_of-false : (xs : List A) → (any_of f xs ≡ ok false) ↔ All (λ x. f x ≡ ok false) xs
  any_of-false xs = (any_of-All-false xs, All-false-any_of xs)

  all_of-All-true : (xs : List A) → all_of f xs ≡ ok true → All (λ x. f x ≡ ok true) xs
  unfolding all_of
  all_of-All-true [] h = tt
  all_of-All-true (x ∷ xs) h =
      let (here, rest) = and-true (f x) (all_of f xs) h in (here, all_of-All-true xs rest)

  All-true-all_of : (xs : List A) → All (λ x. f x ≡ ok true) xs → all_of f xs ≡ ok true
  unfolding all_of ◌and◌
  All-true-all_of [] h = refl
  All-true-all_of (x ∷ xs) (here, rest) = rw here (All-true-all_of xs rest)

  -- `all(f(x) for x in xs)` is true exactly when every test ran and was true.
  pub all_of-true : (xs : List A) → (all_of f xs ≡ ok true) ↔ All (λ x. f x ≡ ok true) xs
  all_of-true xs = (all_of-All-true xs, All-true-all_of xs)

-- Running a chain whose steps are known to succeed.
module _ {ℓ κ} {A : Type ℓ} {B : Type κ} where
  pub run-bind :
      {m : Result A} {a : A} {r : Result B} (f : A → Result B) → m ≡ ok a → f a ≡ r → (m >>= f) ≡ r
  unfolding ◌>>=◌
  run-bind f e h = rw e h

module _ {κ} {B : Type κ} {n r : Result B} where
  pub run-need : {b : Bool} (code : String) → b ≡ true → n ≡ r → (need b code >> n) ≡ r
  unfolding need ◌>>=◌
  run-need code e h = rw e h

  pub run-check :
      {m : Result Bool} (code : String) → m ≡ ok true → n ≡ r → (m >>= λ b. need b code >> n) ≡ r
  unfolding need ◌>>=◌
  run-check code e h = rw e h

pub run-and : {m n r : Result Bool} → m ≡ ok true → n ≡ r → (m and n) ≡ r
unfolding ◌and◌
run-and e h = rw e h
