-- ===== src/Reader/LogLine.antt =====
-- `LogLineReader` of pkg/reader/container_reader.go, and the loop of `tailContainer` over it.
-- The `io.Reader` below is not under the repository's control: it is the list of its answers, and
-- an exhausted list answers `0, io.EOF`.
pub mod Chunks
pub mod Failure
use tailpost.Base.{ℕ, zero, suc, List, [], ◌∷◌, ◌++◌, Option, none, some, Bytes, Result, ok, err}
use tailpost.Reader.Break.{break_line}

pub data ReadError : Type 0 where
  eof failed : ReadError

-- One answer of `Read(chunk)`: the bytes `chunk[:n]`, and the error.
pub record Read : Type 0 where
  pub chunk : Bytes
  pub error : Option ReadError

-- What `ReadLine` returns, with the reader's buffer and the answers that are left.
pub record Return : Type 0 where
  pub result : Result ReadError Bytes
  pub buffer : Bytes
  pub reads : List Read

-- `n == 0 && err == io.EOF`: what is left is a line, if there is any.
unfoldable pub at_eof : Bytes → List Read → Return
at_eof [] reads = record { result = err eof; buffer = []; reads = reads }
at_eof (c ∷ cs) reads = record { result = ok (c ∷ cs); buffer = []; reads = reads }

-- One answer, when the buffer holds no newline; `more` goes round the loop.
unfoldable pub on_read : Bytes → Bytes → Option ReadError → List Read → Return → Return
unfolding at_eof
on_read buffer chunk (some failed) reads more = record {
  result = err failed;
  buffer = buffer;
  reads = reads;
}
on_read buffer [] (some eof) reads more = at_eof buffer reads
on_read buffer (c ∷ cs) (some eof) reads more = more
on_read buffer chunk none reads more = more

-- A line that the buffer already holds is returned before anything is read.
unfoldable pub deliver : Option (Bytes × Bytes) → List Read → Return → Return
deliver (some (line, rest)) reads otherwise = record {
  result = ok line;
  buffer = rest;
  reads = reads;
}
deliver none reads otherwise = otherwise

unfoldable pub read_line : Bytes → List Read → Return
unfolding deliver on_read
read_line buffer [] = deliver (break_line buffer) [] (at_eof buffer [])
read_line buffer (r ∷ rs) =
    let more = read_line (buffer ++ r.chunk) rs in
    deliver (break_line buffer) (r ∷ rs) (on_read buffer r.chunk r.error rs more)

-- The inner loop of `tailContainer`: every line until `ReadLine` fails, and the error that ends it.
unfoldable pub drain : ℕ → Bytes → List Read → Option (List Bytes × ReadError)
drain zero buffer reads = none
drain (suc fuel) buffer reads =
    let r = read_line buffer reads in
    let later = drain fuel r.buffer r.reads in
    elim r.result [
      | err e ↦ some ([], e)
      | ok line ↦ elim later [ none ↦ none | some (ls, e) ↦ some (line ∷ ls, e) ]
    ]
