-- ===== src/Reader/File/Rotation.antt =====
-- What the reader does when the file at its path has been replaced.
use tailpost.Base.{
  ℕ, suc, ◌≤◌, ◌++◌, none, some, ◌≡◌, refl, ap, ◌∙◌, arith, ltb, length, length-drop, drop,
  if◌then◌else◌,
}
use tailpost.Reader.Lines.{full_lines}
use tailpost.Reader.Break.{break_line}
use tailpost.Reader.File.{Fs, no_faults, FileReader, read_line, reopen, round}
use tailpost.Reader.File.Tail.{nonempty, IsAt, rounds, rounds-sent}

-- The reader holds another file than the one at its path, and has read all its complete lines.
pub record Rotated (fs : Fs) (old inode : ℕ) (r : FileReader) : Type 0 where
  pub path : fs.at_path ≡ some inode
  pub opened : r.file ≡ some old
  pub finished : break_line (drop r.pos (fs.contents old)) ≡ none

-- Where the reader goes on in the new file.
abbrev pub resume_offset : ℕ → ℕ → ℕ
resume_offset size offset = if ltb size offset then 0 else offset

module _ (fs : Fs) (old inode : ℕ) (r : FileReader) (rot : Rotated fs old inode r) where
  abbrev resumed : FileReader
  resumed =
      let offset = resume_offset (length (fs.contents inode)) r.offset in
      record { file = some inode; pos = offset; offset = offset; sent = r.sent }

  round_rotated : round fs no_faults r ≡ resumed
  unfolding round read_line reopen
  round_rotated = ground arith

  resumed-IsAt : IsAt fs inode resumed
  resumed-IsAt = record { path = rot.path; opened = refl; level = refl; within = ground arith }

-- After a rotation, when all complete lines of the old file have been read and no call fails from then
-- on, the next round takes the new file, and enough rounds send its complete non-empty lines from the
-- start, if it is shorter than the offset in the old one. If it is not
-- shorter, they send only those behind that offset, so the bytes before it are never sent.
pub rounds_after_rotation :
    (fs : Fs) (old inode n : ℕ) (r : FileReader)
    → Rotated fs old inode r
    → length (fs.contents inode) ≤ n
    → (rounds fs (suc n) r).sent
      ≡ r.sent
        ++ nonempty (
            full_lines
              (drop (resume_offset (length (fs.contents inode)) r.offset) (fs.contents inode)))
unfolding rounds
rounds_after_rotation fs old inode n r rot h =
    ap (λ (q : FileReader). (rounds fs n q).sent) (round_rotated fs old inode r rot)
    ∙ rounds-sent fs inode n (resumed fs old inode r rot) (resumed-IsAt fs old inode r rot)
        (omega (arith, length-drop (resumed fs old inode r rot).offset (fs.contents inode)))
