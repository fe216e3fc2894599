-- ===== src/Reader/Break.antt =====
-- Cutting a byte string at its first newline.
use tailpost.Base.{
  false, [], ◌∷◌, ◌++◌, Option, none, some, ◌≡◌, refl, arith, Bytes, ◌==◌, if◌then◌else◌,
}
use tailpost.Reader.Lines.{newline, has_newline}

-- The loop that looks for a newline: the bytes before it, and those behind it.
unfoldable pub break_line : Bytes → Option (Bytes × Bytes)
break_line [] = none
break_line (c ∷ cs) =
    let rest = break_line cs in
    if c == newline
    then some ([], cs)
    else elim rest [ none ↦ none | some (l, r) ↦ some (c ∷ l, r) ]

-- What `break_line` finds, as an equation on the buffer.
abbrev pub Broken : Bytes → Option (Bytes × Bytes) → Type 0
Broken b none = has_newline b ≡ false
Broken b (some (l, r)) = (has_newline l ≡ false) × (b ≡ l ++ (newline ∷ r))

pub break_line-Broken : (b : Bytes) → Broken b (break_line b)
unfolding break_line
break_line-Broken [] = refl
break_line-Broken (c ∷ cs) = ground (arith, break_line-Broken cs)

pub break_line-none : (b : Bytes) → has_newline b ≡ false → break_line b ≡ none
unfolding break_line
break_line-none [] h = refl
break_line-none (c ∷ cs) h = ground (arith, break_line-none cs)
