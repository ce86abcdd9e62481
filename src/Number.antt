-- ===== src/Number.antt =====
-- `int(text)` and `int(text, 16)` of Python, on the texts of digits that the documents hold (after a
-- `0x` for base 16), and `lower()`.
use whpstanding.Prelude.{
  ℕ, ◌+◌, ◌-◌, ◌*◌, Bool, ◌&&◌, ◌||◌, [], ◌∷◌, Option, none, some, all, leb, ◌==◌, map,
  if◌then◌else◌, ℤ, pos,
}
use whpstanding.Result.{encoding_error, type_error, Result, ok, err, ◌>>=◌}
use whpstanding.Text.{Text, lower_char}
use whpstanding.Value.{Value, int, bool, str, as_text}

unfoldable pub is_digit : ℕ → Bool
is_digit c = leb b'0' c && leb c b'9'

unfoldable pub read_digits : ℕ → Text → ℕ
read_digits n [] = n
read_digits n (c ∷ s) = read_digits (n * 10 + (c - b'0')) s

-- `int(text)`
unfoldable pub read_decimal : Text → Result ℤ
read_decimal [] = err encoding_error
read_decimal (c ∷ s) =
    if all is_digit (c ∷ s) then ok (pos (read_digits 0 (c ∷ s))) else err encoding_error

-- `int(v)` of a document's field
unfoldable pub as_decimal : Value → Result ℤ
as_decimal (str s) = read_decimal s
as_decimal (int n) = ok n
as_decimal (bool b) = ok (pos (if b then 1 else 0))
as_decimal _ = err type_error

unfoldable pub hex_value : ℕ → Option ℕ
hex_value c =
    if is_digit c
    then some (c - b'0')
    else if leb b'a' c && leb c b'f'
    then some (c - b'a' + 10)
    else if leb b'A' c && leb c b'F'
    then some (c - b'A' + 10)
    else none

unfoldable pub read_hex : ℕ → Text → Result ℕ
read_hex n [] = ok n
read_hex n (c ∷ s) = elim (hex_value c) [
  | none ↦ err encoding_error
  | some d ↦ read_hex (n * 16 + d) s
]

-- what is left behind `0x` or `0X`, if anything was there
unfoldable pub without_prefix : Text → Text
without_prefix (a ∷ b ∷ s) = if a == b'0' && (b == b'x' || b == b'X') then s else a ∷ b ∷ s
without_prefix s = s

unfoldable pub read_hex_digits : Text → Result ℕ
read_hex_digits [] = err encoding_error
read_hex_digits (c ∷ s) = read_hex 0 (c ∷ s)

-- `int(v, 16)`
unfoldable pub as_hex : Value → Result ℕ
as_hex v = do s ← as_text v; read_hex_digits (without_prefix s)

-- `v.lower()`
unfoldable pub lower : Value → Result Text
lower v = do s ← as_text v; ok (map lower_char s)
