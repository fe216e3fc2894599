-- ===== src/Security/Base64.antt =====
-- `base64.StdEncoding` of Go's encoding/base64, on bytes. The decoder skips `\r` and `\n`.
pub mod RoundTrip
use tailpost.Base.{
  ℕ, ◌+◌, ◌-◌, ◌*◌, ◌/◌, ◌%◌, Bool, true, false, ◌&&◌, ◌||◌, List, [], ◌∷◌, Option, none, some,
  Bytes, ltb, leb, ◌==◌, if◌then◌else◌,
}

-- The 64 digits, `A-Z a-z 0-9 + /`.
unfoldable pub digit : ℕ → ℕ
digit n =
    if ltb n 26
    then n + b'A'
    else if ltb n 52
    then n - 26 + b'a'
    else if ltb n 62
    then n - 52 + b'0'
    else if n == 62
    then b'+'
    else b'/'

unfoldable pub value : ℕ → Option ℕ
value c =
    if leb b'A' c && leb c b'Z'
    then some (c - b'A')
    else if leb b'a' c && leb c b'z'
    then some (c - b'a' + 26)
    else if leb b'0' c && leb c b'9'
    then some (c - b'0' + 52)
    else if c == b'+'
    then some 62
    else if c == b'/'
    then some 63
    else none

abbrev pub pad : ℕ
pad = b'='

-- `EncodeToString`.
unfoldable pub encode : Bytes → Bytes
encode [] = []
encode (a ∷ []) = digit (a / 4) ∷ digit (a % 4 * 16) ∷ pad ∷ pad ∷ []
encode (a ∷ b ∷ []) = digit (a / 4) ∷ digit (a % 4 * 16 + b / 16) ∷ digit (b % 16 * 4) ∷ pad ∷ []
encode (a ∷ b ∷ c ∷ rest) =
    digit (a / 4)
    ∷ digit (a % 4 * 16 + b / 16)
    ∷ digit (b % 16 * 4 + c / 64)
    ∷ digit (c % 64)
    ∷ encode rest

-- The line breaks are skipped.
unfoldable pub strip : Bytes → Bytes
strip [] = []
strip (c ∷ cs) = let rest = strip cs in if c == b'\n' || c == b'\r' then rest else c ∷ rest

-- Four digits, the last two of which may be padding at the end of the text.
abbrev bind : Option ℕ → (ℕ → Option Bytes) → Option Bytes
bind none f = none
bind (some v) f = f v

unfoldable pub last_group : ℕ → ℕ → ℕ → ℕ → Option Bytes
last_group w x y z = bind (value w) (λ a. bind (value x) (λ b.
    if y == pad
    then (if z == pad then some ((a * 4 + b / 16) ∷ []) else none)
    else bind (value y) (λ c.
      if z == pad
      then some ((a * 4 + b / 16) ∷ (b % 16 * 16 + c / 4) ∷ [])
      else bind (value z)
          (λ d. some ((a * 4 + b / 16) ∷ (b % 16 * 16 + c / 4) ∷ (c % 4 * 64 + d) ∷ [])))))

unfoldable pub full_group : ℕ → ℕ → ℕ → ℕ → Option Bytes → Option Bytes
full_group w x y z later = bind (value w) (λ a. bind (value x) (λ b. bind (value y) (λ c.
    bind (value z) (λ d. elim later [
      | none ↦ none
      | some out ↦ some ((a * 4 + b / 16) ∷ (b % 16 * 16 + c / 4) ∷ (c % 4 * 64 + d) ∷ out)
    ]))))

unfoldable pub groups : Bytes → Option Bytes
unfolding last_group full_group
groups [] = some []
groups (w ∷ x ∷ y ∷ z ∷ []) = last_group w x y z
groups (w ∷ x ∷ y ∷ z ∷ more) = let later = groups more in full_group w x y z later
groups _ = none

-- `DecodeString`; `none` is a `CorruptInputError`.
unfoldable pub decode : Bytes → Option Bytes
unfolding strip groups
decode s = groups (strip s)
