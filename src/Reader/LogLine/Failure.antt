-- ===== src/Reader/LogLine/Failure.antt =====
-- A stream that fails with an error other than `io.EOF`.
use tailpost.Base.{false, List, [], ◌∷◌, ◌++◌, some, ◌≡◌, refl, arith, Bytes, err, ◌∙◌}
use tailpost.Reader.Lines.{has_newline}
use tailpost.Reader.Break.{break_line-none}
use tailpost.Reader.LogLine.{failed, Read, deliver, read_line}
use tailpost.Reader.LogLine.Chunks.{contents, IsClean, on_read-IsAnswer}
use mathlib.Core.List.{append_assoc, append-nil}

has_newline-left : (b c : Bytes) → has_newline (b ++ c) ≡ false → has_newline b ≡ false
has_newline-left [] c h = refl
has_newline-left (x ∷ b) c h = ground (arith, has_newline-left b c)

-- When an answer carries an error other than `io.EOF` and no line is complete before it, the call
-- returns that error, the buffer keeps the bytes of the earlier answers, and the bytes of the
-- failing answer are in neither: the result is the same whatever they were.
read_line-failed :
    (before : List Read) (b lost : Bytes) (rs : List Read)
    → IsClean before
    → has_newline (b ++ contents before) ≡ false
    → read_line b (before ++ (record { chunk = lost; error = some failed } ∷ rs))
      ≡ record { result = err failed; buffer = b ++ contents before; reads = rs }
unfolding read_line
read_line-failed [] b lost rs clean h =
    rw (break_line-none b (has_newline-left b [] h), deliver) (rw append-nil)
read_line-failed (r ∷ before) b lost rs clean h =
    rw (break_line-none b (has_newline-left b _ h), deliver)
      (rw (on_read-IsAnswer b r _ _ clean.0) (
        read_line-failed before (b ++ r.chunk) lost rs clean.1 (rw append_assoc h)
        ∙ rw append_assoc))
