-- ===== src/Value.antt =====
-- The documents as Python holds them: JSON values, and the operators that the verifiers apply to
-- them (`x[k]`, `==`, `in`, `<=`, `isinstance`, `exact`).
pub mod Laws
use whpstanding.Prelude.{
  ℕ, String, Bool, true, false, ◌&&◌, not, List, [], ◌∷◌, Option, none, some, length, any, map,
  ◌==◌, if◌then◌else◌, ℤ, pos, eqb_ℤ, leb_ℤ, ltb_ℤ,
}
use whpstanding.Result.{key_error, type_error, Result, ok, err, ◌>>=◌, need, ◌and◌}
use whpstanding.Text.{Text, lit, text_eq, text_lt, holds_text}
use whpstanding.Dict.{Dict, keys, get, has_key, same_texts}

mutual
  pub data Value : Type 0 where
    null : Value
    bool : Bool → Value
    int : ℤ → Value
    str : Text → Value
    obj : Fields → Value
    arr : Items → Value

  pub data Fields : Type 0 where
    end : Fields
    field : Text → Value → Fields → Fields

  pub data Items : Type 0 where
    nil : Items
    cons : Value → Items → Items

unfoldable pub items : Items → List Value
items nil = []
items (cons v vs) = v ∷ items vs

unfoldable pub of_list : List Value → Items
of_list [] = nil
of_list (v ∷ vs) = cons v (of_list vs)

unfoldable pub entries : Fields → Dict Value
entries end = []
entries (field k v fs) = (k, v) ∷ entries fs

unfoldable pub of_entries : Dict Value → Fields
of_entries [] = end
of_entries ((k, v) ∷ d) = field k v (of_entries d)

-- The number that a bool or an int is: `True == 1`.
unfoldable pub number : Value → Option ℤ
number (bool b) = some (if b then pos 1 else pos 0)
number (int n) = some n
number _ = none

unfoldable pub number_eq : Option ℤ → Option ℤ → Bool
number_eq (some m) (some n) = eqb_ℤ m n
number_eq _ _ = false

abbrev pub found_eq : (Value → Bool) → Option Value → Bool
found_eq same none = false
found_eq same (some w) = same w

-- `a == b`. Dicts are equal if they have as many keys and equal values at the keys of the first.
unfoldable mutual
  unfolding number number_eq entries get

  pub value_eq : Value → Value → Bool
  value_eq null null = true
  value_eq (bool a) w = number_eq (number (bool a)) (number w)
  value_eq (int a) w = number_eq (some a) (number w)
  value_eq (str s) (str t) = text_eq s t
  value_eq (arr xs) (arr ys) = items_eq xs ys
  value_eq (obj fs) (obj gs) =
      length (entries fs) == length (entries gs) && fields_eq fs (entries gs)
  value_eq _ _ = false

  pub items_eq : Items → Items → Bool
  items_eq nil nil = true
  items_eq (cons x xs) (cons y ys) = value_eq x y && items_eq xs ys
  items_eq _ _ = false

  pub fields_eq : Fields → Dict Value → Bool
  fields_eq end given = true
  fields_eq (field k v fs) given = found_eq (value_eq v) (get k given) && fields_eq fs given

pub is_str : Value → Bool
is_str (str s) = true
is_str _ = false

-- `x is True`
unfoldable pub is_true : Value → Bool
is_true (bool true) = true
is_true _ = false

-- `x is None`
unfoldable pub is_null : Value → Bool
is_null null = true
is_null _ = false

-- `bool(x)`
unfoldable pub truthy : Value → Bool
truthy null = false
truthy (bool b) = b
truthy (int n) = not (eqb_ℤ n (pos 0))
truthy (str []) = false
truthy (str (c ∷ s)) = true
truthy (arr nil) = false
truthy (arr (cons v vs)) = true
truthy (obj end) = false
truthy (obj (field k v fs)) = true

unfoldable pub found_or_missing {ℓ} : {A : Type ℓ} → Option A → Result A
found_or_missing none = err key_error
found_or_missing (some v) = ok v

-- `x[k]` with a text key: on a dict, and a `TypeError` on all else.
unfoldable pub lookup : Value → Text → Result Value
unfolding found_or_missing entries
lookup (obj fs) k = found_or_missing (get k (entries fs))
lookup _ k = err type_error

infixl 80 ◌!◌
abbrev pub ◌!◌ : Value → String → Result Value
x ! k = lookup x (lit k)

-- `x[k][l]`
infixl 79 ◌!!◌
abbrev pub ◌!!◌ : Result Value → String → Result Value
m !! k = m >>= λ x. lookup x (lit k)

-- What needs a text, a dict's entries, or an int, and raises on all else.
unfoldable pub as_text : Value → Result Text
as_text (str s) = ok s
as_text _ = err type_error

unfoldable pub as_fields : Value → Result (Dict Value)
as_fields (obj fs) = ok (entries fs)
as_fields _ = err type_error

-- `for v in x`
unfoldable pub iterate : Value → Result (List Value)
iterate (arr vs) = ok (items vs)
iterate (obj fs) = ok (map str (keys (entries fs)))
iterate (str s) = ok (map (λ c. str (c ∷ [])) s)
iterate _ = err type_error

-- `len(x)`
unfoldable pub size : Value → Result ℕ
size (arr vs) = ok (length (items vs))
size (obj fs) = ok (length (entries fs))
size (str s) = ok (length s)
size _ = err type_error

unfoldable pub contains_value : Value → List Value → Bool
contains_value v vs = any (value_eq v) vs

-- `v in x`
unfoldable pub contains : Value → Value → Result Bool
contains v (arr vs) = ok (contains_value v (items vs))
contains (str k) (obj fs) = ok (has_key k (entries fs))
contains (str t) (str s) = ok (holds_text s t)
contains _ _ = err type_error

unfoldable pub compare_numbers : (ℤ → ℤ → Bool) → Option ℤ → Option ℤ → Result Bool
compare_numbers test (some m) (some n) = ok (test m n)
compare_numbers test _ _ = err type_error

-- `a <= b`, `a < b`: between numbers, and between texts.
unfoldable pub le_value : Value → Value → Result Bool
unfolding number compare_numbers
le_value (str s) (str t) = ok (not (text_lt t s))
le_value a b = compare_numbers leb_ℤ (number a) (number b)

unfoldable pub lt_value : Value → Value → Result Bool
unfolding number compare_numbers
lt_value (str s) (str t) = ok (text_lt s t)
lt_value a b = compare_numbers ltb_ℤ (number a) (number b)

-- `from <= at < until`
abbrev pub within : Value → Value → Value → Result Bool
within from at until = le_value from at and lt_value at until

-- `exact(x, fields)`
unfoldable pub exact : Value → List String → Result (Unit {0})
exact (obj fs) names = need (same_texts (keys (entries fs)) (map lit names)) "FIELDS_INVALID"
exact _ names = need false "FIELDS_INVALID"

-- `{'k': v, …}` written out
unfoldable pub dict : List (String × Value) → Fields
dict [] = end
dict ((k, v) ∷ rest) = field (lit k) v (dict rest)

-- `[v, …]` written out
unfoldable pub list : List Value → Value
list vs = arr (of_list vs)

-- a text literal as a value
unfoldable pub txt : String → Value
txt s = str (lit s)
