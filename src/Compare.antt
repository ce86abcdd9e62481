-- ===== src/Compare.antt =====
-- Comparisons between fields of documents: each side is looked up, left before right, and either may
-- raise.
use whpstanding.Prelude.{String, Bool, List, [], ◌∷◌}
use whpstanding.Result.{Result, ok, ◌>>=◌, ◌and◌}
use whpstanding.Text.{Text}
use whpstanding.Value.{Value, str, txt, ◌!◌, value_eq, le_value, lt_value}

infix 50 ◌=?◌ ◌≤?◌ ◌<?◌
-- `x == y`
unfoldable pub ◌=?◌ : Result Value → Result Value → Result Bool
m =? n = m >>= λ x. n >>= λ y. ok (value_eq x y)

-- `x <= y`, `x < y`
unfoldable pub ◌≤?◌ : Result Value → Result Value → Result Bool
m ≤? n = m >>= λ x. n >>= λ y. le_value x y

unfoldable pub ◌<?◌ : Result Value → Result Value → Result Bool
m <? n = m >>= λ x. n >>= λ y. lt_value x y

-- a constant of the source, and a computed text, as a side of a comparison
abbrev pub const : String → Result Value
const s = ok (txt s)

abbrev pub text : Text → Result Value
text s = ok (str s)

-- `x[k] == y[k]`
unfoldable pub agree : Value → Value → String → Result Bool
agree x y k = (x ! k) =? (y ! k)

-- `{k: x[k] for k in names}` compared by name: `x[k] == y[k]` for all of them
unfoldable pub agree_all : Value → Value → List String → Result Bool
agree_all x y [] = ok Bool.true
agree_all x y (k ∷ ks) = agree x y k and agree_all x y ks
