-- ===== src/ColdAgent/Pointer.antt =====
-- `pointer` of scripts/cold-agent.py: a JSON pointer followed through a document.
use whpstanding.Prelude.{
  ℕ, zero, suc, ◌-◌, Bool, true, false, List, [], ◌∷◌, ℤ, pos, negsuc, length, leb, ◌==◌,
  if◌then◌else◌,
}
use whpstanding.Result.{key_error, Result, ok, err, ◌>>=◌, ◌>>◌, need}
use whpstanding.Text.{Text, lit}
use whpstanding.Value.{Value, null, str, arr, items, lookup}
use whpstanding.Number.{read_decimal}
use whpstanding.Discovery.Resolution.{replace_from}

-- `s.split('/')`, with `word` the part of the first piece that is read, reversed
unfoldable pub split_slash : Text → Text × List Text
split_slash [] = ([], [])
split_slash (c ∷ s) =
    let (first, rest) = split_slash s in if c == b'/' then ([], first ∷ rest) else (c ∷ first, rest)

unfoldable pub opposite : ℤ → ℤ
opposite (pos zero) = pos zero
opposite (pos (suc n)) = negsuc n
opposite (negsuc n) = pos (suc n)

-- `int(k)` of digits behind an optional sign
unfoldable pub read_index : Text → Result ℤ
read_index [] = read_decimal []
read_index (c ∷ s) =
    if c == b'-'
    then (read_decimal s >>= λ n. ok (opposite n))
    else if c == b'+'
    then read_decimal s
    else read_decimal (c ∷ s)

unfoldable pub nth : ℕ → List Value → Result Value
nth n [] = err key_error
nth zero (v ∷ vs) = ok v
nth (suc n) (v ∷ vs) = nth n vs

-- `vs[i]`, counted from the end where it is negative
unfoldable pub element : List Value → ℤ → Result Value
element vs (pos n) = nth n vs
element vs (negsuc n) =
    if leb (suc n) (length vs) then nth (length vs - suc n) vs else err key_error

-- `k.replace('~1', '/').replace('~0', '~')`
unfoldable pub unescape : Text → Text
unescape k = replace_from 0 (lit "~0") (lit "~") (replace_from 0 (lit "~1") (lit "/") k)

unfoldable pub step_into : Value → Text → Result Value
step_into (arr vs) k = do i ← read_index k; element (items vs) i
step_into v k = lookup v k

unfoldable pub follow : List Text → Value → Result Value
follow [] v = ok v
follow (k ∷ ks) v = do w ← step_into v (unescape k); follow ks w

unfoldable pub is_pointer : Text → Bool
is_pointer [] = true
is_pointer (c ∷ s) = c == b'/'

unfoldable pub pointer : Value → Value → Result Value
pointer v (str p) =
    need (is_pointer p) "JSON_POINTER" >> (let (first, rest) = split_slash p in follow rest v)
pointer v _ = need false "JSON_POINTER" >> ok null
