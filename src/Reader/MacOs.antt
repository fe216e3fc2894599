-- ===== src/Reader/MacOs.antt =====
-- pkg/reader/macos_log_reader.go: the command that is run, and `readLogs` beside the command that
-- writes lines, the goroutine that takes them from the channel, and `Stop`. The scanner splits what
-- the command writes into lines; it may fail. The command is only told to end when `readLogs` returns.
pub mod Lines
pub mod Quiet
use tailpost.Base.{
  ℕ, ◌<◌, Bool, true, false, not, List, [], ◌∷◌, ◌++◌, ◌≡◌, String, eqs, Bytes, length,
  if◌then◌else◌, ◌&&◌, ltb,
}
use tailpost.Security.Text.{trim_space}
use tailpost.Reader.Stopping.{Phase, polling, sending, exited, capacity}

-- The arguments of the command `log` in `Start`.
unfoldable pub command_args : String → List String
command_args query =
    let selected = if eqs query "" then [] else ("--predicate" ∷ query ∷ []) in
    "stream" ∷ (selected ++ ("--style" ∷ "syslog" ∷ []))

-- `strings.TrimSpace(line) == ""`.
unfoldable pub is_blank : Bytes → Bool
unfolding trim_space
is_blank l = elim (trim_space l) [ [] ↦ true | b ∷ bs ↦ false ]

-- `unread` is what the command has written and the scanner has not returned, and `line` the line that
-- is being sent. `written`, `sent`, `report` and `taken` are histories: all lines of the
-- command, those that `readLogs` has sent, its report of an error if that is on the channel, and what
-- was taken from the channel. `polling` is the phase of the scanner.
pub record Stream : Type 0 where
  pub phase : Phase
  pub unread : List Bytes
  pub ended : Bool
  pub line : List Bytes
  pub queue : List Bytes
  pub stop_closed : Bool
  pub written : List Bytes
  pub sent : List Bytes
  pub report : List Bytes
  pub taken : List Bytes

-- The report of an error of the scanner: with `stopCh` closed, or a full channel, there is none.
abbrev pub reported : Bytes → Stream → List Bytes
reported text w = if not w.stop_closed && ltb (length w.queue) capacity then (text ∷ []) else []

-- In a run that is `quiet` the command writes nothing, and neither ends nor breaks.
pub data Step (quiet : Bool) : Stream → Stream → Type 0 where
  command_writes :
      (w : Stream) (l : Bytes)
      → quiet ≡ false
      → w.ended ≡ false
      → Step quiet w (record w { unread = w.unread ++ (l ∷ []); written = w.written ++ (l ∷ []) })
  command_ends : (w : Stream) → quiet ≡ false → Step quiet w (record w { ended = true })
  blank_skipped :
      (w : Stream) (l : Bytes) (rest : List Bytes)
      → w.phase ≡ polling
      → w.unread ≡ l ∷ rest
      → is_blank l ≡ true
      → Step quiet w (record w { unread = rest })
  line_scanned :
      (w : Stream) (l : Bytes) (rest : List Bytes)
      → w.phase ≡ polling
      → w.line ≡ []
      → w.unread ≡ l ∷ rest
      → is_blank l ≡ false
      → Step quiet w (record w { phase = sending; line = l ∷ []; unread = rest })
  line_sent :
      (w : Stream) (l : Bytes)
      → w.phase ≡ sending
      → w.line ≡ l ∷ []
      → length w.queue < capacity
      → Step quiet w (record w {
        phase = polling;
        line = [];
        queue = w.queue ++ (l ∷ []);
        sent = w.sent ++ (l ∷ []);
      })
  -- `case <-r.stopCh` of the select around the send.
  send_given_up :
      (w : Stream)
      → w.phase ≡ sending
      → w.stop_closed ≡ true
      → Step quiet w (record w { phase = exited })
  -- `Scan` returns false, at the end of the output or for an error.
  scan_ended :
      (w : Stream)
      → w.phase ≡ polling
      → w.unread ≡ []
      → w.ended ≡ true
      → Step quiet w (record w { phase = exited })
  scan_failed :
      (w : Stream) (text : Bytes)
      → quiet ≡ false
      → w.phase ≡ polling
      → Step quiet w (record w {
        phase = exited;
        queue = w.queue ++ reported text w;
        report = reported text w;
      })
  line_taken :
      (w : Stream) (l : Bytes) (rest : List Bytes)
      → w.queue ≡ l ∷ rest
      → Step quiet w (record w { queue = rest; taken = w.taken ++ (l ∷ []) })
  -- `close(r.stopCh)` in `Stop`.
  stop_called : (w : Stream) → Step quiet w (record w { stop_closed = true })

pub data Reach (quiet : Bool) (start : Stream) : Stream → Type 0 where
  here : Reach quiet start start
  next : {v w : Stream} → Reach quiet start v → Step quiet v w → Reach quiet start w

-- Behind `Start`.
abbrev pub started : Stream
started = record {
  phase = polling;
  unread = [];
  ended = false;
  line = [];
  queue = [];
  stop_closed = false;
  written = [];
  sent = [];
  report = [];
  taken = [];
}
