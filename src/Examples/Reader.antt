-- ===== src/Examples/Reader.antt =====
-- The theorems on the readers, at small files and streams.
use tailpost.Base.{
  ℕ, zero, suc, ◌+◌, true, false, List, [], ◌∷◌, ◌++◌, none, some, ◌≡◌, ◌≢◌, refl, arith, Bytes,
  bytes, length, ok, inl, inr,
}
use tailpost.Reader.Lines.{lines}
use tailpost.Reader.Break.{break_line}
use tailpost.Reader.LogLine.{Read, eof, drain}
use tailpost.Reader.LogLine.Chunks.{drain-lines}
use tailpost.Reader.File.{Fs, no_faults, FileReader, new, start, round}
use tailpost.Reader.File.Tail.{nonempty, rounds, IsAt, rounds-sent}
use tailpost.Reader.File.Appends.{World, append_to, append, tail, Reach, here, next, tail_safety}
use tailpost.Reader.File.Rotation.{Rotated, rounds_after_rotation}
use tailpost.Reader.Stopping.{Worker, polling, sending, exited, Kind, file, file_stop_hangs}
use tailpost.Reader.Stopping

abbrev text : Bytes
text = bytes "one\n\ntwo\nthr"

abbrev fs : Fs
fs = record { at_path = some 1; contents = λ inode. if_one inode }
  where
    if_one : ℕ → Bytes
    if_one zero = bytes "a\n"
    if_one (suc n) = text

abbrev at_start : FileReader
at_start = record { file = some 1; pos = 0; offset = 0; sent = [] }

at_start-IsAt : IsAt fs 1 at_start
at_start-IsAt = record { path = refl; opened = refl; level = refl; within = omega arith }

rounds-sent_example : (rounds fs 12 at_start).sent ≡ bytes "one" ∷ bytes "two" ∷ []
rounds-sent_example = rounds-sent fs 1 12 at_start at_start-IsAt (omega arith)

abbrev at_old_end : FileReader
at_old_end = record { file = some 0; pos = 2; offset = 2; sent = bytes "a" ∷ [] }

at_old_end-Rotated : Rotated fs 0 1 at_old_end
unfolding break_line
at_old_end-Rotated = record { path = refl; opened = refl; finished = refl }

-- The new file is longer than the offset: "on" of the first line is lost.
rounds_after_rotation_example :
    (rounds fs 13 at_old_end).sent ≡ bytes "a" ∷ bytes "e" ∷ bytes "two" ∷ []
rounds_after_rotation_example =
    rounds_after_rotation fs 0 1 12 at_old_end at_old_end-Rotated (omega arith)

abbrev started : FileReader
started = record { file = some 1; pos = 12; offset = 12; sent = [] }

start_ok : start fs no_faults new ≡ ok started
unfolding start
start_ok = refl

abbrev world : World
world =
    let grown = append_to fs 1 (bytes "ee\n") in
    record { fs = grown; reader = round grown no_faults started }

reached : Reach 1 (record { fs = fs; reader = started }) world
reached = next (next here (append _ (bytes "ee\n"))) (tail _ no_faults)

tail_safety_example :
    (done rest : Bytes) × (world.fs.contents 1 ≡ text ++ (done ++ rest))
    × (world.reader.offset ≡ 12 + length done)
    × (world.reader.sent ≡ nonempty (lines done))
    × ((x : Bytes) → lines (done ++ x) ≡ lines done ++ lines x)
tail_safety_example = tail_safety fs no_faults 1 started refl start_ok world reached

abbrev chunks : List Read
chunks =
    record { chunk = bytes "on"; error = none }
    ∷ record { chunk = bytes "e\ntw"; error = some eof }
    ∷ []

drain-lines_example : drain 7 [] chunks ≡ some (bytes "one" ∷ bytes "tw" ∷ [], eof)
drain-lines_example = drain-lines chunks (inl refl, (inr (omega arith, refl), tt))

abbrev stuck : Worker
stuck = record { phase = sending; queued = 1000; stop_closed = false; consuming = false }

file_stop_hangs_example : sending ≢ exited
file_stop_hangs_example =
    file_stop_hangs (record { at_send = refl; full = omega arith; nobody = refl })
      (Stopping.next Stopping.here (Stopping.stop_called stuck))

abbrev waits : Worker
waits = record stuck { phase = Stopping.reading; stop_closed = true }
