-- ===== src/Reader/File.antt =====
-- `FileReader` of pkg/reader/file_reader.go: the methods, as functions on the reader's fields.
-- A file that is open is its inode. `bufio.Reader` is the position of its next byte, since what it
-- has read ahead of an append-only file is what the file still holds. The lines sent on the channel
-- are kept in order. The channels `stopCh` and `stoppedCh` are in Reader/Stopping.
pub mod Tail
pub mod Appends
pub mod Rotation
use tailpost.Base.{
  ℕ, suc, ◌+◌, Bool, true, false, List, [], ◌∷◌, ◌++◌, Option, none, some, Bytes, ltb, ◌==◌, equal,
  if◌then◌else◌, length, drop, Result, ok, err,
}
use tailpost.Reader.Lines.{newline}
use tailpost.Reader.Break.{break_line}

-- The file system: the inode at the reader's path, and the bytes of each inode.
pub record Fs : Type 0 where
  pub at_path : Option ℕ
  pub contents : ℕ → Bytes

-- Which system calls fail, at one round of the loop. (A `read` that fails is no fault of this record: to
-- the code it is the end of the file.)
pub record Faults : Type 0 where
  pub open_fails : Bool
  pub stat_fails : Bool
  pub seek_fails : Bool

abbrev pub no_faults : Faults
no_faults = record { open_fails = false; stat_fails = false; seek_fails = false }

pub record FileReader : Type 0 where
  pub file : Option ℕ
  pub pos : ℕ
  pub offset : ℕ
  pub sent : List Bytes

pub data FileError : Type 0 where
  error_opening error_seeking closed end_of_file : FileError

-- `NewFileReader`.
abbrev pub new : FileReader
new = record { file = none; pos = 0; offset = 0; sent = [] }

-- `os.Open(r.path)`.
abbrev pub open_path : Fs → Faults → Option ℕ
open_path fs faults = if faults.open_fails then none else fs.at_path

-- `Start`, up to the goroutine: the reader stands at the end of the file.
unfoldable pub start : Fs → Faults → FileReader → Result FileError FileReader
start fs faults r = elim (open_path fs faults) [
  | none ↦ err error_opening
  | some inode ↦
      let size = length (fs.contents inode) in
      if faults.seek_fails
      then err error_seeking
      else ok (record r { file = some inode; pos = size; offset = size })
]

-- `r.reader.ReadString('\n')`: the bytes up to and with the newline.
unfoldable pub read_string : Bytes → Option Bytes
unfolding break_line
read_string b = elim (break_line b) [ none ↦ none | some (l, r) ↦ some (l ++ (newline ∷ [])) ]

-- The newline at the end of a line is cut off.
unfoldable pub trim_newline : Bytes → Bytes
trim_newline [] = []
trim_newline (c ∷ []) = if c == newline then [] else c ∷ []
trim_newline (c ∷ d ∷ cs) = c ∷ trim_newline (d ∷ cs)

-- `readLine`. At the end of the file `ReadString` has consumed the bytes that it did not return.
unfoldable pub read_line : Fs → FileReader → Result FileError Bytes × FileReader
unfolding read_string trim_newline
read_line fs r = elim r.file [
  | none ↦ (err closed, r)
  | some inode ↦
      let rest = drop r.pos (fs.contents inode) in
      elim (read_string rest) [
        | none ↦ (err end_of_file, record r { pos = r.pos + length rest })
        | some line ↦ (
          ok (trim_newline line),
          record r { pos = r.pos + length line; offset = r.offset + length line },
        )
      ]
]

-- The end of `reopen`, on a file that was opened.
unfoldable pub resume : Fs → Faults → ℕ → FileReader → FileReader
resume fs faults inode r =
    let size = length (fs.contents inode) in
    let offset = if ltb size r.offset then 0 else r.offset in
    if faults.stat_fails
    then record r { file = none }
    else if faults.seek_fails
    then record r { file = none; offset = offset }
    else record r { file = some inode; offset = offset; pos = offset }

-- `reopen`.
unfoldable pub reopen : Fs → Faults → FileReader → FileReader
unfolding resume
reopen fs faults r = elim (open_path fs faults) [
  | none ↦ record r { file = none }
  | some inode ↦ resume fs faults inode r
]

-- An empty line is not sent.
unfoldable pub send : Bytes → FileReader → FileReader
send [] r = r
send (c ∷ cs) r = record r { sent = r.sent ++ ((c ∷ cs) ∷ []) }

-- What `tailFile` does with the return of `readLine`.
unfoldable pub on_line : Fs → Faults → Result FileError Bytes → FileReader → FileReader
unfolding reopen send
on_line fs faults (err e) r = reopen fs faults r
on_line fs faults (ok line) r = send line r

-- One round of the loop of `tailFile` that finds no stop request.
unfoldable pub round : Fs → Faults → FileReader → FileReader
unfolding on_line
round fs faults r = let (result, r') = read_line fs r in on_line fs faults result r'
