-- ===== src/Security/Hex.antt =====
-- `hex.DecodeString` of Go's encoding/hex, and the `%d` of fmt on a natural number.
use tailpost.Base.{
  ℕ, zero, suc, ◌+◌, ◌-◌, ◌*◌, ◌/◌, ◌%◌, ◌&&◌, [], ◌∷◌, Option, none, some, ◌≡◌, arith, Bytes, ltb,
  leb, length, if◌then◌else◌, Option-cases, inl, inr,
}

nibble : ℕ → Option ℕ
nibble c =
    if leb b'0' c && leb c b'9'
    then some (c - b'0')
    else if leb b'a' c && leb c b'f'
    then some (c - b'a' + 10)
    else if leb b'A' c && leb c b'F'
    then some (c - b'A' + 10)
    else none

byte_of : Option ℕ → Option ℕ → Option Bytes → Option Bytes
byte_of (some a) (some b) (some out) = some ((a * 16 + b) ∷ out)
byte_of _ _ _ = none

-- `none` is an odd length or an invalid digit.
unfoldable pub decode : Bytes → Option Bytes
unfolding nibble byte_of
decode [] = some []
decode (c ∷ []) = none
decode (c ∷ d ∷ cs) = byte_of (nibble c) (nibble d) (decode cs)

-- A decoded key has one byte for two digits.
pub length-decode : (s k : Bytes) → decode s ≡ some k → length s ≡ 2 * length k
unfolding decode
length-decode [] k h = ground arith
length-decode (c ∷ []) k h = cc
length-decode (c ∷ d ∷ cs) k h = elim (Option-cases (decode cs)) [
  | inl e ↦ ground (arith, e)
  | inr (out, e) ↦ ground (arith, e, length-decode cs out e)
]

decimal_onto : ℕ → ℕ → Bytes → Bytes
decimal_onto zero n out = out
decimal_onto (suc fuel) n out =
    let more = decimal_onto fuel (n / 10) ((n % 10 + b'0') ∷ out) in
    if ltb n 10 then (n + b'0') ∷ out else more

-- A number below the fuel has fewer digits than that.
unfoldable pub decimal : ℕ → Bytes
unfolding decimal_onto
decimal n = decimal_onto (suc n) n []
