-- ===== src/Reader/File/Appends.antt =====
-- Tailing while other processes append, in any interleaving, and while system calls may fail.
use mathlib.Core.List.{append_assoc, append-nil}
use tailpost.Base.{
  ℕ, ◌+◌, ◌≤◌, List, [], ◌∷◌, ◌++◌, none, some, inl, inr, ◌⊎◌, ◌≡◌, refl, sym, ap, ◌∙◌, arith,
  Bytes, ◌==◌, length, length-append, drop, drop-append_length, ok, if◌then◌else◌, Option-cases,
  ==_iff,
}
use tailpost.Reader.Lines.{newline, lines, lines-append_line}
use tailpost.Reader.Break.{break_line}
use tailpost.Reader.File.{Fs, Faults, FileReader, new, start, read_line, reopen, round}
use tailpost.Reader.File.Tail.{nonempty, IsAt, rest, rest_line, round_line}

pub record World : Type 0 where
  pub fs : Fs
  pub reader : FileReader

-- Some process appends to an inode.
abbrev pub append_to : Fs → ℕ → Bytes → Fs
append_to fs inode b = record fs {
  contents = λ j. if j == inode then fs.contents j ++ b else fs.contents j;
}

-- One event: an append to the file at the reader's path, or a round of the reader's loop.
pub data Step (inode : ℕ) : World → World → Type 0 where
  append : (w : World) (b : Bytes) → Step inode w (record w { fs = append_to w.fs inode b })
  tail :
      (w : World) (faults : Faults)
      → Step inode w (record w { reader = round w.fs faults w.reader })

pub data Reach (inode : ℕ) (start : World) : World → Type 0 where
  here : Reach inode start start
  next : {v w : World} → Reach inode start v → Step inode v w → Reach inode start w

-- The file is what was there at the start, then what has been read, then the rest; what has been
-- read ends with a newline, and its lines have been sent.
record Tailed (inode : ℕ) (old : Bytes) (w : World) : Type 0 where
  path : w.fs.at_path ≡ some inode
  done : Bytes
  rest : Bytes
  splits : w.fs.contents inode ≡ old ++ (done ++ rest)
  offset_is : w.reader.offset ≡ length old + length done
  sent_is : w.reader.sent ≡ nonempty (lines done)
  ended : (x : Bytes) → lines (done ++ x) ≡ lines done ++ lines x
  handle :
      (w.reader.file ≡ none) ⊎ ((w.reader.file ≡ some inode) × (w.reader.pos ≡ w.reader.offset))

-- `reopen` on a file that is not shorter than the offset.
record Reopened (inode : ℕ) (r r' : FileReader) : Type 0 where
  offset_kept : r'.offset ≡ r.offset
  sent_kept : r'.sent ≡ r.sent
  handle : (r'.file ≡ none) ⊎ ((r'.file ≡ some inode) × (r'.pos ≡ r'.offset))

reopen-Reopened :
    (fs : Fs) (faults : Faults) (inode : ℕ) (r : FileReader)
    → fs.at_path ≡ some inode
    → r.offset ≤ length (fs.contents inode)
    → Reopened inode r (reopen fs faults r)
unfolding reopen
reopen-Reopened fs faults inode r path h = ground arith

round_closed :
    (fs : Fs) (faults : Faults) (r : FileReader)
    → r.file ≡ none
    → round fs faults r ≡ reopen fs faults r
unfolding round read_line
round_closed fs faults r e = ground arith

round_end :
    (fs : Fs) (faults : Faults) (inode : ℕ) (r : FileReader) (at : IsAt fs inode r)
    → break_line (rest fs inode r at) ≡ none
    → (p : ℕ) × (round fs faults r ≡ reopen fs faults (record r { pos = p }))
unfolding round read_line
round_end fs faults inode r at e =
    (r.pos + length (drop r.pos (fs.contents inode)), ground (arith, at.opened, at.level))

nonempty-append : (ls ms : List Bytes) → nonempty (ls ++ ms) ≡ nonempty ls ++ nonempty ms
nonempty-append [] ms = refl
nonempty-append ([] ∷ ls) ms = nonempty-append ls ms
nonempty-append ((c ∷ cs) ∷ ls) ms = ap (◌∷◌ (c ∷ cs)) (nonempty-append ls ms)

module _ {inode : ℕ} {old : Bytes} (w : World) (t : Tailed inode old w) where
  append-Tailed : (b : Bytes) → Tailed inode old (record w { fs = append_to w.fs inode b })
  append-Tailed b = record {
    path = t.path;
    done = t.done;
    rest = t.rest ++ b;
    splits = rw ((==_iff inode inode).1 refl) (rw (t.splits, append_assoc, append_assoc));
    offset_is = t.offset_is;
    sent_is = t.sent_is;
    ended = t.ended;
    handle = t.handle;
  }

  offset-le : w.reader.offset ≤ length (w.fs.contents inode)
  offset-le = omega (
    arith,
    t.offset_is,
    ap length t.splits,
    length-append old (t.done ++ t.rest),
    length-append t.done t.rest,
  )

  -- A round that only reopens the file.
  reopen-Tailed :
      (faults : Faults) (p : ℕ)
      → Tailed inode old (record w { reader = reopen w.fs faults (record w.reader { pos = p }) })
  reopen-Tailed faults p =
      let again =
        reopen-Reopened w.fs faults inode (record w.reader { pos = p }) t.path offset-le in
      record {
        path = t.path;
        done = t.done;
        rest = t.rest;
        splits = t.splits;
        offset_is = again.offset_kept ∙ t.offset_is;
        sent_is = again.sent_kept ∙ t.sent_is;
        ended = t.ended;
        handle = again.handle;
      }

  unread : drop w.reader.offset (w.fs.contents inode) ≡ t.rest
  unread =
      rw (t.offset_is, t.splits, ← length-append, ← append_assoc)
        (drop-append_length (old ++ t.done) t.rest)

  line-Tailed :
      (faults : Faults) (l more : Bytes) (at : IsAt w.fs inode w.reader)
      → break_line (rest w.fs inode w.reader at) ≡ some (l, more)
      → Tailed inode old (record w { reader = round w.fs faults w.reader })
  line-Tailed faults l more at e =
      let (no_nl, split, left) = rest_line w.fs inode w.reader at l more e in
      let line_of : (x : Bytes)
          → lines (t.done ++ (l ++ (newline ∷ x))) ≡ lines t.done ++ (l ∷ lines x) =
        λ x. t.ended _ ∙ rw (lines-append_line l x no_nl) in
      rw (round_line w.fs inode w.reader at faults l more e) (record {
        path = t.path;
        done = t.done ++ (l ++ (newline ∷ []));
        rest = more;
        splits =
            simp append_assoc
              (t.splits ∙ ap (λ (z : Bytes). old ++ (t.done ++ z)) (sym unread ∙ split));
        offset_is = omega (arith, t.offset_is, length-append t.done (l ++ (newline ∷ [])));
        sent_is = rw (line_of [], nonempty-append, t.sent_is);
        ended = λ x. rw (line_of []) (simp append_assoc (line_of x));
        handle = inr (at.opened, refl);
      })

  round-Tailed :
      (faults : Faults) → Tailed inode old (record w { reader = round w.fs faults w.reader })
  round-Tailed faults = elim t.handle [
    | inl shut ↦ rw (round_closed w.fs faults w.reader shut) (reopen-Tailed faults w.reader.pos)
    | inr (opened, level) ↦
        let at : IsAt w.fs inode w.reader = record {
          path = t.path;
          opened = opened;
          level = level;
          within = offset-le;
        } in
        elim (Option-cases (break_line (rest w.fs inode w.reader at))) [
          | inl e ↦
              let (p, again) = round_end w.fs faults inode w.reader at e in
              rw again (reopen-Tailed faults p)
          | inr ((l, more), e) ↦ line-Tailed faults l more at e
        ]
  ]

Step-Tailed :
    {inode : ℕ} {old : Bytes} {v w : World}
    → Step inode v w
    → Tailed inode old v
    → Tailed inode old w
Step-Tailed (append v b) t = append-Tailed v t b
Step-Tailed (tail v faults) t = round-Tailed v t faults

Reach-Tailed :
    {inode : ℕ} {old : Bytes} {v w : World}
    → Tailed inode old v
    → Reach inode v w
    → Tailed inode old w
Reach-Tailed t here = t
Reach-Tailed t (next r s) = Step-Tailed s (Reach-Tailed t r)

start-Tailed :
    (fs : Fs) (faults : Faults) (inode : ℕ) (r : FileReader)
    → fs.at_path ≡ some inode
    → start fs faults new ≡ ok r
    → Tailed inode (fs.contents inode) (record { fs = fs; reader = r })
unfolding start
start-Tailed fs faults inode r path e = record {
  path = path;
  done = [];
  rest = [];
  splits = sym (append-nil _);
  offset_is = ground arith;
  sent_is = ground arith;
  ended = λ x. refl;
  handle = ground arith;
}

-- After `Start` on an existing file, in every interleaving of appends with rounds of the loop,
-- whatever system calls fail at each round: the file is its bytes at the start, then bytes that
-- the offset has passed, then the rest; and what was sent is the non-empty lines of the passed
-- bytes, each once and in order. No line is sent before its newline has been written.
pub tail_safety :
    (fs : Fs) (faults : Faults) (inode : ℕ) (r : FileReader)
    → fs.at_path ≡ some inode
    → start fs faults new ≡ ok r
    → (w : World) → Reach inode (record { fs = fs; reader = r }) w
    → (done rest : Bytes) × (w.fs.contents inode ≡ fs.contents inode ++ (done ++ rest))
      × (w.reader.offset ≡ length (fs.contents inode) + length done)
      × (w.reader.sent ≡ nonempty (lines done))
      × ((x : Bytes) → lines (done ++ x) ≡ lines done ++ lines x)
tail_safety fs faults inode r path e w reach =
    let t = Reach-Tailed (start-Tailed fs faults inode r path e) reach in
    (t.done, t.rest, t.splits, t.offset_is, t.sent_is, t.ended)
