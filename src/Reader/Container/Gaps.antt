-- ===== src/Reader/Container/Gaps.antt =====
-- What the streams of a container repeat and leave out.
use tailpost.Base.{
  ℕ, suc, ◌+◌, ◌*◌, ◌-◌, ◌≤◌, true, List, [], ◌∷◌, ◌++◌, ◌≡◌, refl, arith, Bytes, length,
  length-append, length-drop, drop,
}
use tailpost.Reader.Container.{tail_lines, Round, not_opened, streamed, delivered, tail_container}

-- The lines written while a stream was open, and the number of streams.
abbrev pub followed_count : List Round → ℕ
followed_count [] = 0
followed_count (not_opened m ∷ rs) = followed_count rs
followed_count (streamed m f b ∷ rs) = length f + followed_count rs

abbrev pub stream_count : List Round → ℕ
stream_count [] = 0
stream_count (not_opened m ∷ rs) = stream_count rs
stream_count (streamed m f b ∷ rs) = suc (stream_count rs)

-- The pod exists behind every stream.
abbrev pub Exists : List Round → Type 0
Exists [] = Unit
Exists (not_opened m ∷ rs) = Exists rs
Exists (streamed m f b ∷ rs) = (b ≡ true) × Exists rs

length-tail :
    (log : List Bytes)
    → tail_lines ≤ length log
    → length (drop (length log - tail_lines) log) ≡ tail_lines
length-tail log h = omega (arith, h, length-drop (length log - tail_lines) log)

-- When a container has written ten lines or more, and its pod is there behind every stream, the loop
-- sends as many lines as the container wrote while a stream was open, and ten more for each stream,
-- however many lines were written while none was open.
length-tail_container :
    (log : List Bytes) (rounds : List Round)
    → tail_lines ≤ length log
    → Exists rounds
    → length (tail_container log rounds) ≡ followed_count rounds + tail_lines * stream_count rounds
unfolding tail_container
length-tail_container log [] h e = refl
length-tail_container log (not_opened m ∷ rs) h e =
    length-tail_container (log ++ m) rs (omega (arith, h, length-append log m)) e
length-tail_container log (streamed m f b ∷ rs) h (e, es) =
    let opened : tail_lines ≤ length (log ++ m) = omega (arith, h, length-append log m) in
    let rest =
      length-tail_container ((log ++ m) ++ f) rs (omega (arith, opened, length-append (log ++ m) f))
        es in
    let one = length-tail (log ++ m) opened in
    rw e (
      omega (
        arith,
        rest,
        one,
        length-append (drop (length (log ++ m) - tail_lines) (log ++ m)) f,
        length-append (delivered (log ++ m) f) (tail_container ((log ++ m) ++ f) rs),
      ))
