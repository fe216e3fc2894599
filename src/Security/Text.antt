-- ===== src/Security/Text.antt =====
-- The functions of Go's strings package that the security code calls, on the bytes of a string.
use mathlib.Core.List.{reverse}
use tailpost.Base.{
  ℕ, Bool, ◌&&◌, ◌||◌, [], ◌∷◌, ◌++◌, Option, none, some, ◌≡◌, refl, arith, Bytes, ◌==◌, leb,
  if◌then◌else◌, Option-cases, inl, inr, length, ◌<◌,
}

-- `strings.HasPrefix(s, p)` and `strings.TrimPrefix(s, p)` in one: what follows the prefix.
unfoldable pub strip_prefix : Bytes → Bytes → Option Bytes
strip_prefix [] s = some s
strip_prefix (c ∷ p) [] = none
strip_prefix (c ∷ p) (d ∷ s) = if c == d then strip_prefix p s else none

-- `strings.SplitN(s, sep, 2)` for one byte: the parts before and behind the first `sep`.
unfoldable pub split_once : ℕ → Bytes → Option (Bytes × Bytes)
split_once sep [] = none
split_once sep (c ∷ cs) =
    let rest = split_once sep cs in
    if c == sep then some ([], cs) else elim rest [ none ↦ none | some (a, b) ↦ some (c ∷ a, b) ]

-- `unicode.IsSpace` of a character of one, two or three bytes.
space_one : ℕ → Bool
space_one c = leb b'\t' c && leb c b'\r' || c == b' '

space_two : ℕ → ℕ → Bool
space_two c d = c == 0xc2 && (d == 0x85 || d == 0xa0)

space_three : ℕ → ℕ → ℕ → Bool
space_three c d e =
    c == 0xe1 && d == 0x9a && e == 0x80
    || c == 0xe2 && d == 0x80 && (leb 0x80 e && leb e 0x8a || e == 0xa8 || e == 0xa9 || e == 0xaf)
    || c == 0xe2 && d == 0x81 && e == 0x9f
    || c == 0xe3 && d == 0x80 && e == 0x80

trim_left : Bytes → Bytes
trim_left [] = []
trim_left (c ∷ []) = if space_one c then [] else c ∷ []
trim_left (c ∷ d ∷ []) =
    let one = trim_left (d ∷ []) in
    if space_one c then one else if space_two c d then [] else c ∷ d ∷ []
trim_left (c ∷ d ∷ e ∷ r) =
    let one = trim_left (d ∷ e ∷ r) in
    let two = trim_left (e ∷ r) in
    let three = trim_left r in
    if space_one c
    then one
    else if space_two c d
    then two
    else if space_three c d e
    then three
    else c ∷ d ∷ e ∷ r

-- The same on the reversed text.
trim_right : Bytes → Bytes
trim_right [] = []
trim_right (c ∷ []) = if space_one c then [] else c ∷ []
trim_right (d ∷ c ∷ []) =
    let one = trim_right (c ∷ []) in
    if space_one d then one else if space_two c d then [] else d ∷ c ∷ []
trim_right (e ∷ d ∷ c ∷ r) =
    let one = trim_right (d ∷ c ∷ r) in
    let two = trim_right (c ∷ r) in
    let three = trim_right r in
    if space_one e
    then one
    else if space_two d e
    then two
    else if space_three c d e
    then three
    else e ∷ d ∷ c ∷ r

-- `strings.TrimSpace`.
unfoldable pub trim_space : Bytes → Bytes
unfolding trim_left trim_right space_one space_two space_three
trim_space s = reverse (trim_right (reverse (trim_left s)))

pub strip_prefix-append : (p s : Bytes) → strip_prefix p (p ++ s) ≡ some s
unfolding strip_prefix
strip_prefix-append [] s = refl
strip_prefix-append (c ∷ p) s = ground (arith, strip_prefix-append p s)

pub split_once-append :
    (sep : ℕ) (a b : Bytes)
    → split_once sep a ≡ none
    → split_once sep (a ++ (sep ∷ b)) ≡ some (a, b)
unfolding split_once
split_once-append sep [] b h = ground arith
split_once-append sep (c ∷ a) b h = ground (arith, split_once-append sep a b)

-- A separator in the first part is found there.
pub split_once-some :
    (sep : ℕ) (a x y b : Bytes)
    → split_once sep a ≡ some (x, y)
    → split_once sep (a ++ b) ≡ some (x, y ++ b)
unfolding split_once
split_once-some sep [] x y b h = cc
split_once-some sep (c ∷ a) x y b h = elim (Option-cases (split_once sep a)) [
  | inl e ↦ ground (arith, e)
  | inr ((x', y'), e) ↦ ground (arith, e, split_once-some sep a x' y' b e)
]

pub split_once-shorter :
    (sep : ℕ) (a x y : Bytes) → split_once sep a ≡ some (x, y) → length x < length a
unfolding split_once
split_once-shorter sep [] x y h = cc
split_once-shorter sep (c ∷ a) x y h = elim (Option-cases (split_once sep a)) [
  | inl e ↦ ground (arith, e)
  | inr ((x', y'), e) ↦ ground (arith, e, split_once-shorter sep a x' y' e)
]
