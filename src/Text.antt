-- ===== src/Text.antt =====
-- Python's `str` as its code points, the encodings that verify/verify_mark.py applies to it, and
-- the text forms that `json.dumps` and `str(int)` give.
use Prim.Native.Char.{code}
use whpstanding.Prelude.{
  ℕ, zero, suc, ◌+◌, ◌-◌, ◌/◌, ◌%◌, String, Bool, true, false, ◌&&◌, ◌||◌, List, [], ◌∷◌, ◌++◌, ltb,
  leb, ◌==◌, if◌then◌else◌, any, ℤ, pos, negsuc,
}

abbrev pub Text : Type 0
Text = List ℕ

abbrev pub Bytes : Type 0
Bytes = List ℕ

-- A literal of the source.
unfoldable pub lit : String → Text
lit String.[] = []
lit (String.◌∷◌ c s) = code c ∷ lit s

unfoldable pub text_eq : Text → Text → Bool
text_eq [] [] = true
text_eq (c ∷ s) (d ∷ t) = c == d && text_eq s t
text_eq _ _ = false

-- The order of Python's `str` and `bytes`: by the first element that differs.
unfoldable pub text_lt : Text → Text → Bool
text_lt [] [] = false
text_lt [] (d ∷ t) = true
text_lt (c ∷ s) [] = false
text_lt (c ∷ s) (d ∷ t) = ltb c d || (c == d && text_lt s t)

unfoldable pub starts_with : Text → Text → Bool
starts_with s [] = true
starts_with [] (d ∷ t) = false
starts_with (c ∷ s) (d ∷ t) = c == d && starts_with s t

-- `t in s` for texts
unfoldable pub holds_text : Text → Text → Bool
unfolding starts_with
holds_text [] t = starts_with [] t
holds_text (c ∷ s) t = starts_with (c ∷ s) t || holds_text s t

-- `0xD800 <= ord(c) <= 0xDFFF`
abbrev pub is_surrogate : ℕ → Bool
is_surrogate c = leb 0xD800 c && leb c 0xDFFF

unfoldable pub has_surrogate : Text → Bool
has_surrogate s = any is_surrogate s

-- `c.encode('utf-16be')` of one character that is no surrogate
unfoldable pub utf16_unit : ℕ → Bytes
utf16_unit c =
    if ltb c 0x10000
    then c / 256 ∷ c % 256 ∷ []
    else (let d = c - 0x10000 in
        let high = 0xD800 + d / 1024 in
        let low = 0xDC00 + d % 1024 in high / 256 ∷ high % 256 ∷ low / 256 ∷ low % 256 ∷ [])

unfoldable pub utf16be : Text → Bytes
unfolding utf16_unit
utf16be [] = []
utf16be (c ∷ s) = utf16_unit c ++ utf16be s

-- `c.encode()` of one character that is no surrogate
unfoldable pub utf8_unit : ℕ → Bytes
utf8_unit c =
    if ltb c 0x80
    then c ∷ []
    else if ltb c 0x800
    then (0xC0 + c / 64) ∷ (0x80 + c % 64) ∷ []
    else if ltb c 0x10000
    then (0xE0 + c / 4096) ∷ (0x80 + c / 64 % 64) ∷ (0x80 + c % 64) ∷ []
    else (0xF0 + c / 262144) ∷ (0x80 + c / 4096 % 64) ∷ (0x80 + c / 64 % 64) ∷ (0x80 + c % 64) ∷ []

unfoldable pub utf8 : Text → Bytes
unfolding utf8_unit
utf8 [] = []
utf8 (c ∷ s) = utf8_unit c ++ utf8 s

-- The digits of a number, the most significant first. Each round drops one digit, and a number has
-- fewer digits than its value plus one, so that fuel is enough.
unfoldable pub digits_fuel : ℕ → ℕ → Text
digits_fuel zero n = []
digits_fuel (suc fuel) n =
    let rest = digits_fuel fuel (n / 10) in
    if ltb n 10 then (b'0' + n) ∷ [] else rest ++ (b'0' + n % 10) ∷ []

unfoldable pub decimal : ℕ → Text
unfolding digits_fuel
decimal n = digits_fuel (suc n) n

-- `str(x)` of an integer
unfoldable pub str_int : ℤ → Text
unfolding decimal
str_int (pos n) = decimal n
str_int (negsuc n) = b'-' ∷ decimal (suc n)

unfoldable pub hex_digit : ℕ → ℕ
hex_digit n = if ltb n 10 then b'0' + n else b'a' + (n - 10)

-- One character as `json.dumps(…, ensure_ascii=False)` writes it inside the quotes.
unfoldable pub escape_char : ℕ → Text
unfolding hex_digit
escape_char c =
    if c == b'"'
    then b'\\' ∷ b'"' ∷ []
    else if c == b'\\'
    then b'\\' ∷ b'\\' ∷ []
    else if c == 10
    then b'\\' ∷ b'n' ∷ []
    else if c == 13
    then b'\\' ∷ b'r' ∷ []
    else if c == 9
    then b'\\' ∷ b't' ∷ []
    else if c == 12
    then b'\\' ∷ b'f' ∷ []
    else if c == 8
    then b'\\' ∷ b'b' ∷ []
    else if ltb c 32
    then b'\\' ∷ b'u' ∷ b'0' ∷ b'0' ∷ hex_digit (c / 16) ∷ hex_digit (c % 16) ∷ []
    else c ∷ []

unfoldable pub escape : Text → Text
unfolding escape_char
escape [] = []
escape (c ∷ s) = escape_char c ++ escape s

-- `json.dumps` of a text
unfoldable pub quoted : Text → Text
unfolding escape
quoted s = b'"' ∷ (escape s ++ b'"' ∷ [])

-- `re.fullmatch` of a class of characters repeated between `least` and `most` times
unfoldable pub is_hex_lower : ℕ → Bool
is_hex_lower c = (leb b'0' c && leb c b'9') || (leb b'a' c && leb c b'f')

unfoldable pub is_reference_char : ℕ → Bool
is_reference_char c =
    (leb b'A' c && leb c b'Z')
    || (leb b'a' c && leb c b'z')
    || (leb b'0' c && leb c b'9')
    || c == b'_'
    || c == b'-'

-- `c.lower()`, on the letters of a hexadecimal text
unfoldable pub lower_char : ℕ → ℕ
lower_char c = if leb b'A' c && leb c b'Z' then c + 32 else c
