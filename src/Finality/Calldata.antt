-- ===== src/Finality/Calldata.antt =====
-- The calldata of `receiveWithAuthorization` that `recheck_chain` of verify/verify_mark.py expects,
-- and the log topic of an address.
use whpstanding.Prelude.{
  ℕ, zero, suc, ◌+◌, ◌-◌, ◌/◌, ◌%◌, [], ◌∷◌, ◌++◌, length, ltb, if◌then◌else◌, ℤ, pos, negsuc,
}
use whpstanding.Result.{Result, ok, ◌>>=◌}
use whpstanding.Text.{Text, lit, hex_digit}
use whpstanding.Value.{Value, ◌!◌, ◌!!◌}
use whpstanding.Number.{as_decimal, lower, read_hex_digits, without_prefix}

unfoldable pub take : ℕ → Text → Text
take zero s = []
take (suc n) [] = []
take (suc n) (c ∷ s) = c ∷ take n s

unfoldable pub drop : ℕ → Text → Text
drop zero s = s
drop (suc n) [] = []
drop (suc n) (c ∷ s) = drop n s

-- The digits in base 16. A number has fewer of them than its value plus one.
unfoldable pub hex_fuel : ℕ → ℕ → Text
hex_fuel zero n = []
hex_fuel (suc fuel) n =
    let rest = hex_fuel fuel (n / 16) in
    if ltb n 16 then hex_digit n ∷ [] else rest ++ hex_digit (n % 16) ∷ []

unfoldable pub zeros : ℕ → Text
zeros zero = []
zeros (suc n) = b'0' ∷ zeros n

-- `s.rjust(64, '0')`
unfoldable pub pad : Text → Text
pad s = zeros (64 - length s) ++ s

-- `format(n, '064x')`, with the sign in front of the padding
unfoldable pub word : ℤ → Text
word (pos n) = pad (hex_fuel (suc n) n)
word (negsuc n) =
    let digits = hex_fuel (suc (suc n)) (suc n) in b'-' ∷ (zeros (63 - length digits) ++ digits)

-- `v[2:].lower()`
unfoldable pub body_of : Value → Result Text
body_of v = do s ← lower v; ok (drop 2 s)

-- `'0x' + addr[2:].lower().rjust(64, '0')`
unfoldable pub topic : Value → Result Text
topic address = do s ← body_of address; ok (lit "0x" ++ pad s)

-- `w(v)` of a document's field
unfoldable pub word_of : Value → Result Text
word_of v = do n ← as_decimal v; ok (word n)

-- `v + 27 if v < 27 else v`
unfoldable pub recovery_id : ℕ → ℕ
recovery_id v = if ltb v 27 then v + 27 else v

unfoldable pub calldata : Value → Value → Result Text
calldata pay a = do
  sig ← body_of (← pay ! "payload" !! "signature")
  v ← read_hex_digits (without_prefix (drop (length sig - 2) sig))
  payer ← body_of (← a ! "from")
  recipient ← body_of (← a ! "to")
  value ← word_of (← a ! "value")
  after ← word_of (← a ! "validAfter")
  before ← word_of (← a ! "validBefore")
  nonce ← body_of (← a ! "nonce")
  ok (
      lit "0xe3ee160e"
      ++ (pad payer
          ++ (pad recipient
              ++ (value
                  ++ (after
                      ++ (before
                          ++ (nonce
                              ++ (word (pos (recovery_id v))
                                  ++ (take 64 sig ++ take 64 (drop 64 sig))))))))))
