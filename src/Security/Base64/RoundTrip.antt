-- ===== src/Security/Base64/RoundTrip.antt =====
-- Decoding what was encoded.
use tailpost.Base.{ℕ, ◌+◌, ◌*◌, ◌/◌, ◌%◌, ◌<◌, [], ◌∷◌, some, ◌≡◌, ◌≢◌, refl, arith, Bytes, All}
use tailpost.Security.Base64.{
  digit, value, pad, encode, strip, last_group, full_group, groups, decode,
}

value-digit : (n : ℕ) → n < 64 → value (digit n) ≡ some n
unfolding value digit
value-digit n h = ground arith

-- A digit is neither the padding nor a line break.
digit_plain : (n : ℕ) → n < 64 → (digit n ≢ pad) × (digit n ≢ b'\n') × (digit n ≢ b'\r')
unfolding digit
digit_plain n h = ground arith

abbrev pub AllBytes : Bytes → Type 0
AllBytes = All (λ c. c < 256)

strip-digit : (n : ℕ) (cs : Bytes) → n < 64 → strip (digit n ∷ cs) ≡ digit n ∷ strip cs
unfolding strip
strip-digit n cs h = ground (arith, digit_plain n h)

-- The three bytes that the values of four digits stand for.
three_bytes :
    (a b c : ℕ)
    → a < 256
    → b < 256
    → c < 256
    → (a / 4 * 4 + (a % 4 * 16 + b / 16) / 16 ≡ a)
      × ((a % 4 * 16 + b / 16) % 16 * 16 + (b % 16 * 4 + c / 64) / 4 ≡ b)
      × ((b % 16 * 4 + c / 64) % 4 * 64 + c % 64 ≡ c)
three_bytes a b c p q r = omega arith

strip-encode : (s : Bytes) → AllBytes s → strip (encode s) ≡ encode s
unfolding encode
strip-encode [] h = unfold strip in refl
strip-encode (a ∷ []) h =
    rw (strip-digit (a / 4) _ (omega arith), strip-digit (a % 4 * 16) _ (omega arith))
      (unfold strip in refl)
strip-encode (a ∷ b ∷ []) h =
    rw
      (
        strip-digit (a / 4) _ (omega arith),
        strip-digit (a % 4 * 16 + b / 16) _ (omega arith),
        strip-digit (b % 16 * 4) _ (omega arith),
      )
      (unfold strip in refl)
strip-encode (a ∷ b ∷ c ∷ rest) h = rw (
  strip-digit (a / 4) _ (omega arith),
  strip-digit (a % 4 * 16 + b / 16) _ (omega arith),
  strip-digit (b % 16 * 4 + c / 64) _ (omega arith),
  strip-digit (c % 64) _ (omega arith),
  strip-encode rest h.1.1.1,
)

last_group-three :
    (a b c : ℕ)
    → a < 256
    → b < 256
    → c < 256
    → last_group
        (digit (a / 4))
        (digit (a % 4 * 16 + b / 16))
        (digit (b % 16 * 4 + c / 64))
        (digit (c % 64))
      ≡ some (a ∷ b ∷ c ∷ [])
unfolding last_group
last_group-three a b c p q r = ground (
  arith,
  three_bytes a b c p q r,
  value-digit (a / 4),
  value-digit (a % 4 * 16 + b / 16),
  value-digit (b % 16 * 4 + c / 64),
  value-digit (c % 64),
  digit_plain (b % 16 * 4 + c / 64),
  digit_plain (c % 64),
)

full_group-three :
    (a b c : ℕ) (out : Bytes)
    → a < 256
    → b < 256
    → c < 256
    → full_group
        (digit (a / 4))
        (digit (a % 4 * 16 + b / 16))
        (digit (b % 16 * 4 + c / 64))
        (digit (c % 64))
        (some out)
      ≡ some (a ∷ b ∷ c ∷ out)
unfolding full_group
full_group-three a b c out p q r = ground (
  arith,
  three_bytes a b c p q r,
  value-digit (a / 4),
  value-digit (a % 4 * 16 + b / 16),
  value-digit (b % 16 * 4 + c / 64),
  value-digit (c % 64),
)

groups-encode : (s : Bytes) → AllBytes s → groups (encode s) ≡ some s
unfolding groups encode
groups-encode [] h = refl
groups-encode (a ∷ []) h = ground (arith, value-digit (a / 4), value-digit (a % 4 * 16))
groups-encode (a ∷ b ∷ []) h = ground (
  arith,
  value-digit (a / 4),
  value-digit (a % 4 * 16 + b / 16),
  value-digit (b % 16 * 4),
  digit_plain (b % 16 * 4),
)
groups-encode (a ∷ b ∷ c ∷ []) h = last_group-three a b c h.0 h.1.0 h.1.1.0
groups-encode (a ∷ b ∷ c ∷ d ∷ []) h =
    rw (groups-encode (d ∷ []) h.1.1.1) (full_group-three a b c (d ∷ []) h.0 h.1.0 h.1.1.0)
groups-encode (a ∷ b ∷ c ∷ d ∷ e ∷ []) h =
    rw (groups-encode (d ∷ e ∷ []) h.1.1.1) (full_group-three a b c (d ∷ e ∷ []) h.0 h.1.0 h.1.1.0)
groups-encode (a ∷ b ∷ c ∷ d ∷ e ∷ f ∷ r) h =
    rw (groups-encode (d ∷ e ∷ f ∷ r) h.1.1.1)
      (full_group-three a b c (d ∷ e ∷ f ∷ r) h.0 h.1.0 h.1.1.0)

-- Decoding the encoding of any byte string gives the byte string back.
pub decode-encode : (s : Bytes) → AllBytes s → decode (encode s) ≡ some s
unfolding decode
decode-encode s h = rw (strip-encode s h) (groups-encode s h)
