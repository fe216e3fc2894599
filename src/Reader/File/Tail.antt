-- ===== src/Reader/File/Tail.antt =====
-- Tailing a file that is only appended to.
use mathlib.Core.List.{append_assoc, append-nil}
use tailpost.Base.{
  ℕ, zero, suc, ◌+◌, ◌≤◌, false, List, [], ◌∷◌, ◌++◌, none, some, inl, inr, ◌≡◌, refl, sym, ap, ◌∙◌,
  arith, Bytes, length, length-append, length-drop, length_zero, drop-add, Option-cases, drop,
  drop-append_length, ok,
}
use tailpost.Reader.Lines.{
  newline, has_newline, full_lines, full_lines-none, full_lines-append_line,
}
use tailpost.Reader.Break.{break_line, break_line-Broken}
use tailpost.Reader.File.{Fs, Faults, no_faults, FileReader, trim_newline, read_line, reopen, round}

-- What the loop does not send: empty lines.
abbrev pub nonempty : List Bytes → List Bytes
nonempty [] = []
nonempty ([] ∷ ls) = nonempty ls
nonempty ((c ∷ cs) ∷ ls) = (c ∷ cs) ∷ nonempty ls

pub nonempty-cons :
    (l more : Bytes) (sent : List Bytes)
    → (sent ++ nonempty (l ∷ [])) ++ nonempty (full_lines more)
      ≡ sent ++ nonempty (l ∷ full_lines more)
nonempty-cons [] more sent = rw append-nil
nonempty-cons (c ∷ cs) more sent = rw append_assoc

pub trim_newline-line : (l : Bytes) → trim_newline (l ++ (newline ∷ [])) ≡ l
unfolding trim_newline
trim_newline-line [] = refl
trim_newline-line (c ∷ []) = refl
trim_newline-line (c ∷ d ∷ cs) = ap (◌∷◌ c) (trim_newline-line (d ∷ cs))

-- `rounds n` are n rounds of the loop with no fault and no change of the file system.
unfoldable pub rounds : Fs → ℕ → FileReader → FileReader
rounds fs zero r = r
rounds fs (suc n) r = rounds fs n (round fs no_faults r)

-- The reader has the file at its path open, and reads on at its offset.
pub record IsAt (fs : Fs) (inode : ℕ) (r : FileReader) : Type 0 where
  pub path : fs.at_path ≡ some inode
  pub opened : r.file ≡ some inode
  pub level : r.pos ≡ r.offset
  pub within : r.offset ≤ length (fs.contents inode)

module _ (fs : Fs) (inode : ℕ) (r : FileReader) (at : IsAt fs inode r) where
  abbrev pub rest : Bytes
  rest = drop r.offset (fs.contents inode)

  -- With no complete line left, a round closes the file, opens it again and is where it was.
  round_idle : break_line rest ≡ none → round fs no_faults r ≡ r
  unfolding round read_line reopen
  round_idle e = ground arith

  pub read_line-line :
      (l more : Bytes)
      → break_line rest ≡ some (l, more)
      → read_line fs r ≡ (
        ok l,
        record r {
          pos = r.offset + length (l ++ (newline ∷ []));
          offset = r.offset + length (l ++ (newline ∷ []));
        },
      )
  unfolding read_line
  read_line-line l more e = ground (arith, trim_newline-line l)

  pub round_line :
      (faults : Faults) (l more : Bytes)
      → break_line rest ≡ some (l, more)
      → round fs faults r ≡ record r {
        pos = r.offset + length (l ++ (newline ∷ []));
        offset = r.offset + length (l ++ (newline ∷ []));
        sent = r.sent ++ nonempty (l ∷ []);
      }
  unfolding round
  round_line faults [] more e = rw (read_line-line [] more e) (rw append-nil)
  round_line faults (c ∷ cs) more e = rw (read_line-line (c ∷ cs) more e)

  -- What a complete line leaves of the file.
  pub rest_line :
      (l more : Bytes)
      → break_line rest ≡ some (l, more)
      → (has_newline l ≡ false)
        × (rest ≡ l ++ (newline ∷ more))
        × (drop (r.offset + length (l ++ (newline ∷ []))) (fs.contents inode) ≡ more)
  rest_line l more e =
      let (h, split) = rw e at (break_line-Broken rest) in
      let whole : rest ≡ (l ++ (newline ∷ [])) ++ more = split ∙ sym (append_assoc l _ more) in
      (
        h,
        split,
        drop-add r.offset (length (l ++ (newline ∷ []))) (fs.contents inode)
            ∙ ap (drop (length (l ++ (newline ∷ [])))) whole
            ∙ drop-append_length (l ++ (newline ∷ [])) more,
      )

  round-IsAt : IsAt fs inode (round fs no_faults r)
  round-IsAt = elim (Option-cases (break_line rest)) [
    | inl e ↦ rw (round_idle e) at
    | inr ((l, more), e) ↦
        let (h, split, left) = rest_line l more e in
        rw (round_line no_faults l more e) (record {
          path = at.path;
          opened = at.opened;
          level = refl;
          within = omega (
            arith,
            at.within,
            length-drop r.offset (fs.contents inode),
            ap length split,
            length-append l (newline ∷ more),
            length-append l (newline ∷ []),
          );
        })
  ]

rounds_idle :
    (fs : Fs) (inode n : ℕ) (r : FileReader) (at : IsAt fs inode r)
    → break_line (rest fs inode r at) ≡ none
    → rounds fs n r ≡ r
unfolding rounds
rounds_idle fs inode zero r at e = refl
rounds_idle fs inode (suc n) r at e =
    rw (round_idle fs inode r at e) (rounds_idle fs inode n r at e)

-- A reader that stands in an unchanging file sends, after enough rounds, exactly the complete
-- non-empty lines behind its offset, in order, after what it has sent before; as many rounds as
-- there are bytes left are enough.
pub rounds-sent :
    (fs : Fs) (inode n : ℕ) (r : FileReader)
    → IsAt fs inode r
    → length (drop r.offset (fs.contents inode)) ≤ n
    → (rounds fs n r).sent ≡ r.sent ++ nonempty (full_lines (drop r.offset (fs.contents inode)))
unfolding rounds
rounds-sent fs inode zero r at h = rw (length_zero _ h) (sym (append-nil _))
rounds-sent fs inode (suc n) r at h = elim (Option-cases (break_line (rest fs inode r at))) [
  | inl e ↦
      let none_left = rw e at (break_line-Broken (rest fs inode r at)) in
      ap (λ (q : FileReader). q.sent) (rounds_idle fs inode (suc n) r at e)
      ∙ rw (full_lines-none _ none_left) (sym (append-nil _))
  | inr ((l, more), e) ↦
      let (no_nl, split, left) = rest_line fs inode r at l more e in
      let first = round_line fs inode r at no_faults l more e in
      let later = rw first at (round-IsAt fs inode r at) in
      ap (λ (q : FileReader). (rounds fs n q).sent) first
      ∙ rounds-sent fs inode n _ later
          (omega (arith, ap length left, ap length split, length-append l (newline ∷ more)))
      ∙ rw (left, split, full_lines-append_line l more no_nl) (nonempty-cons l more r.sent)
]
