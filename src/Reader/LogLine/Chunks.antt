-- ===== src/Reader/LogLine/Chunks.antt =====
-- The lines do not depend on how the stream was cut into chunks.
use mathlib.Core.List.{append_assoc, append-nil}
use tailpost.Base.{
  ℕ, zero, suc, ◌<◌, false, List, [], ◌∷◌, ◌++◌, Option, none, some, ◌≡◌, refl, arith, Bytes,
  length, length-append, Result, ok, err, ◌⊎◌, inl, inr,
}
use tailpost.Reader.Lines.{newline, has_newline, lines, lines-append_line, lines_last}
use tailpost.Reader.Break.{break_line, Broken, break_line-Broken}
use tailpost.Reader.LogLine.{
  ReadError, eof, Read, Return, at_eof, on_read, deliver, read_line, drain,
}

-- All bytes that the stream will still give.
abbrev pub contents : List Read → Bytes
contents [] = []
contents (r ∷ rs) = r.chunk ++ contents rs

-- An answer without an error, or with the last bytes of the stream and `io.EOF`.
abbrev pub IsAnswer : Read → Type 0
IsAnswer r = (r.error ≡ none) ⊎ ((0 < length r.chunk) × (r.error ≡ some eof))

-- No answer fails, or ends the stream without bytes before the end of the list.
abbrev pub IsClean : List Read → Type 0
IsClean [] = Unit
IsClean (r ∷ rs) = IsAnswer r × IsClean rs

without_error :
    (b chunk : Bytes) (rs : List Read) (more : Return) → on_read b chunk none rs more ≡ more
unfolding on_read
without_error b [] rs more = refl
without_error b (c ∷ cs) rs more = refl

with_bytes :
    (b chunk : Bytes) (rs : List Read) (more : Return)
    → 0 < length chunk
    → on_read b chunk (some eof) rs more ≡ more
unfolding on_read
with_bytes b [] rs more h = absurd (omega (arith, h))
with_bytes b (c ∷ cs) rs more h = refl

-- The loop of `ReadLine` goes on behind such an answer.
pub on_read-IsAnswer :
    (b : Bytes) (r : Read) (rs : List Read) (more : Return)
    → IsAnswer r
    → on_read b r.chunk r.error rs more ≡ more
on_read-IsAnswer b r rs more (inl e) = rw e (without_error b r.chunk rs more)
on_read-IsAnswer b r rs more (inr (h, e)) = rw e (with_bytes b r.chunk rs more h)

-- What a call of `ReadLine` leaves, of a stream with these bytes to come.
abbrev Yields : Bytes → Result ReadError Bytes → Bytes → Type 0
Yields total (ok l) left = (lines total ≡ l ∷ lines left) × (length left < length total)
Yields total (err e) left = (total ≡ []) × (e ≡ eof)

record Sound (total : Bytes) (r : Return) : Type 0 where
  clean : IsClean r.reads
  yields : Yields total r.result (r.buffer ++ contents r.reads)

break-Sound :
    (b l r : Bytes) (reads : List Read)
    → has_newline l ≡ false
    → b ≡ l ++ (newline ∷ r)
    → IsClean reads
    → Sound (b ++ contents reads) (record { result = ok l; buffer = r; reads = reads })
break-Sound b l r reads h e clean = record {
  clean = clean;
  yields =
      rw (e, append_assoc)
        (
          lines-append_line l (r ++ contents reads) h,
          omega (arith, length-append l (newline ∷ (r ++ contents reads))),
        );
}

at_eof-Sound : (b : Bytes) → has_newline b ≡ false → Sound (b ++ []) (at_eof b [])
unfolding at_eof
at_eof-Sound [] h = record { clean = tt; yields = (refl, refl) }
at_eof-Sound (c ∷ cs) h = record {
  clean = tt;
  yields = rw append-nil (lines_last c cs h, omega arith);
}

deliver-Sound :
    (b : Bytes) (reads : List Read) (o : Option (Bytes × Bytes)) (r : Return)
    → Broken b o
    → IsClean reads
    → (has_newline b ≡ false → Sound (b ++ contents reads) r)
    → Sound (b ++ contents reads) (deliver o reads r)
unfolding deliver
deliver-Sound b reads none r h clean k = k h
deliver-Sound b reads (some (l, rest)) r h clean k = break-Sound b l rest reads h.0 h.1 clean

read_line-Sound :
    (reads : List Read) (b : Bytes)
    → IsClean reads
    → Sound (b ++ contents reads) (read_line b reads)
unfolding read_line
read_line-Sound [] b clean =
    deliver-Sound b [] (break_line b) _ (break_line-Broken b) tt (at_eof-Sound b)
read_line-Sound (r ∷ rs) b clean =
    deliver-Sound b (r ∷ rs) (break_line b) _ (break_line-Broken b) clean λ h.
      rw (on_read-IsAnswer b r rs _ clean.0)
        (rw (← append_assoc) (read_line-Sound rs (b ++ r.chunk) clean.1))

drain-Sound :
    (fuel : ℕ) (b : Bytes) (reads : List Read)
    → IsClean reads
    → length (b ++ contents reads) < fuel
    → drain fuel b reads ≡ some (lines (b ++ contents reads), eof)
unfolding drain
drain-Sound zero b reads clean h = absurd (omega arith)
drain-Sound (suc fuel) b reads clean h =
    let s = read_line-Sound reads b clean in
    let r = read_line b reads in ground (arith, s.yields, drain-Sound fuel r.buffer r.reads s.clean)

-- Whatever the chunks, a stream that does not fail, also one whose `Read` gives its last bytes together
-- with `io.EOF`, is delivered as the lines of its bytes, in order, and then `io.EOF`; one more round than there are bytes is fuel enough.
pub drain-lines :
    (reads : List Read)
    → IsClean reads
    → drain (suc (length (contents reads))) [] reads ≡ some (lines (contents reads), eof)
drain-lines reads clean = drain-Sound _ [] reads clean (omega arith)
