-- ===== src/Reader/Lines.antt =====
-- The lines of a byte string, as an independent description of what the readers deliver.
use tailpost.Base.{
  ℕ, Bool, true, false, List, [], ◌∷◌, ◌++◌, ◌≡◌, refl, arith, Bytes, ◌==◌, if◌then◌else◌,
}

abbrev pub newline : ℕ
newline = b'\n'

abbrev pub has_newline : Bytes → Bool
has_newline [] = false
has_newline (c ∷ cs) = if c == newline then true else has_newline cs

abbrev pub cons_first : ℕ → List Bytes → List Bytes
cons_first c [] = (c ∷ []) ∷ []
cons_first c (l ∷ ls) = (c ∷ l) ∷ ls

-- All lines, without their newlines; a last piece that no newline ends is a line if it is not empty.
abbrev pub lines : Bytes → List Bytes
lines [] = []
lines (c ∷ cs) = let rest = lines cs in if c == newline then [] ∷ rest else cons_first c rest

-- The lines that a newline ends.
abbrev pub extend_first : ℕ → List Bytes → List Bytes
extend_first c [] = []
extend_first c (l ∷ ls) = (c ∷ l) ∷ ls

abbrev pub full_lines : Bytes → List Bytes
full_lines [] = []
full_lines (c ∷ cs) =
    let rest = full_lines cs in if c == newline then [] ∷ rest else extend_first c rest

pub lines-append_line :
    (l rest : Bytes) → has_newline l ≡ false → lines (l ++ (newline ∷ rest)) ≡ l ∷ lines rest
lines-append_line [] rest h = refl
lines-append_line (c ∷ cs) rest h = ground (arith, lines-append_line cs rest)

pub lines_last :
    (c : ℕ) (cs : Bytes) → has_newline (c ∷ cs) ≡ false → lines (c ∷ cs) ≡ (c ∷ cs) ∷ []
lines_last c [] h = ground arith
lines_last c (d ∷ ds) h = ground (arith, lines_last d ds)

pub full_lines-none : (b : Bytes) → has_newline b ≡ false → full_lines b ≡ []
full_lines-none [] h = refl
full_lines-none (c ∷ cs) h = ground (arith, full_lines-none cs)

pub full_lines-append_line :
    (l rest : Bytes)
    → has_newline l ≡ false
    → full_lines (l ++ (newline ∷ rest)) ≡ l ∷ full_lines rest
full_lines-append_line [] rest h = refl
full_lines-append_line (c ∷ cs) rest h = ground (arith, full_lines-append_line cs rest)
