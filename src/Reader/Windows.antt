-- ===== src/Reader/Windows.antt =====
-- pkg/reader/windows_event_reader.go: the events, their lines, and `readEvents` beside the goroutine
-- that takes lines from the channel and the caller of `Stop`. `getLatestEvents` makes one event and
-- has no error. The time is text in the layout of RFC 3339.
pub mod Records
use tailpost.Base.{
  ℕ, suc, ◌+◌, ◌<◌, Bool, true, false, List, [], ◌∷◌, ◌++◌, ◌≡◌, Bytes, bytes, length, ltb, String,
  zero, if◌then◌else◌, ◌==◌,
}
use tailpost.Base.Int.{ℤ, pos, negsuc}
use tailpost.Security.Hex.{decimal}
use tailpost.Reader.Stopping.{Phase, polling, sending, exited, capacity}

pub record WindowsEvent : Type 0 where
  pub time_created : Bytes
  pub source : Bytes
  pub event_id : ℤ
  pub level : Bytes
  pub computer : Bytes
  pub record_id : ℤ
  pub message : Bytes

pub record WindowsEventLogReader : Type 0 where
  pub log_name : Bytes
  pub min_level : Bytes

abbrev given : Bytes → String → Bytes
given [] d = bytes d
given (b ∷ bs) d = b ∷ bs

-- `NewWindowsEventLogReader`; its channels are those of a session.
unfoldable pub new_windows_event_log_reader : Bytes → Bytes → WindowsEventLogReader
new_windows_event_log_reader log_name min_level = record {
  log_name = given log_name "Application";
  min_level = given min_level "Information";
}

abbrev int_text : ℤ → Bytes
int_text (pos n) = decimal n
int_text (negsuc n) = bytes "-" ++ decimal (n + 1)

-- `strings.ReplaceAll(s, "\n", " ")`.
unfoldable pub one_line : Bytes → Bytes
one_line [] = []
one_line (b ∷ bs) = (if b == 10 then 32 else b) ∷ one_line bs

unfoldable pub format_as_log_line : WindowsEvent → Bytes
unfolding one_line
format_as_log_line e =
    bytes "["
    ++ (e.time_created
        ++ (bytes "] "
            ++ (e.source
                ++ (bytes " EventID="
                    ++ (int_text e.event_id
                        ++ (bytes " Computer="
                            ++ (e.computer
                                ++ (bytes " Provider="
                                    ++ (e.source
                                        ++ (bytes " Level="
                                            ++ (e.level
                                                ++ (bytes " RecordID="
                                                    ++ (int_text e.record_id
                                                        ++ (bytes " Message="
                                                            ++ one_line e.message))))))))))))))

-- 2 ^ 63 - 1.
abbrev pub max_int64 : ℕ
max_int64 = 9223372036854775807

-- `lastRecord + 1` of an `int64`.
abbrev pub next_record : ℤ → ℤ
next_record (pos n) = if ltb n max_int64 then pos (n + 1) else negsuc max_int64
next_record (negsuc zero) = pos 0
next_record (negsuc (suc n)) = negsuc n

-- `x > y`.
abbrev pub exceeds : ℤ → ℤ → Bool
exceeds (pos m) (pos n) = ltb n m
exceeds (pos m) (negsuc n) = true
exceeds (negsuc m) (pos n) = false
exceeds (negsuc m) (negsuc n) = ltb m n

unfoldable pub get_latest_events : WindowsEventLogReader → Bytes → ℤ → List WindowsEvent
get_latest_events r now last_record =
    record {
      time_created = now;
      source = r.log_name;
      event_id = pos 1000;
      level = r.min_level;
      computer = bytes "localhost";
      record_id = next_record last_record;
      message = bytes "This is a mock Windows event log entry for testing";
    }
    ∷ []

-- `events` are those of the round that have not been sent. `sent` is a history: the events whose lines
-- `readEvents` has put on the channel.
pub record Round : Type 0 where
  pub phase : Phase
  pub last_record : ℤ
  pub events : List WindowsEvent
  pub queue : List Bytes
  pub stop_closed : Bool
  pub sent : List WindowsEvent

-- The loop over the events goes on, or is at its end.
abbrev pub phase_of : List WindowsEvent → Phase
phase_of [] = polling
phase_of (e ∷ es) = sending

pub data Step (r : WindowsEventLogReader) : Round → Round → Type 0 where
  ticked :
      (w : Round) (now : Bytes)
      → w.phase ≡ polling
      → Step r w (record w {
        phase = phase_of (get_latest_events r now w.last_record);
        events = get_latest_events r now w.last_record;
      })
  event_sent :
      (w : Round) (e : WindowsEvent) (rest : List WindowsEvent)
      → w.phase ≡ sending
      → w.events ≡ e ∷ rest
      → length w.queue < capacity
      → Step r w (record w {
        phase = phase_of rest;
        last_record = if exceeds e.record_id w.last_record then e.record_id else w.last_record;
        events = rest;
        queue = w.queue ++ (format_as_log_line e ∷ []);
        sent = w.sent ++ (e ∷ []);
      })
  -- `case <-r.stopCh` of the two selects.
  send_given_up :
      (w : Round)
      → w.phase ≡ sending
      → w.stop_closed ≡ true
      → Step r w (record w { phase = exited })
  see_stop :
      (w : Round)
      → w.phase ≡ polling
      → w.stop_closed ≡ true
      → Step r w (record w { phase = exited })
  line_taken :
      (w : Round) (l : Bytes) (rest : List Bytes)
      → w.queue ≡ l ∷ rest
      → Step r w (record w { queue = rest })
  -- `close(r.stopCh)` in `Stop`.
  stop_called : (w : Round) → Step r w (record w { stop_closed = true })

pub data Reach (r : WindowsEventLogReader) (start : Round) : Round → Type 0 where
  here : Reach r start start
  next : {v w : Round} → Reach r start v → Step r v w → Reach r start w

-- Behind `Start`.
abbrev pub started : Round
started = record {
  phase = polling;
  last_record = pos 0;
  events = [];
  queue = [];
  stop_closed = false;
  sent = [];
}
