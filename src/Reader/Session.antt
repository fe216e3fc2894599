-- ===== src/Reader/Session.antt =====
-- `Start`, `Stop` and the end of the goroutine of the readers of pkg/reader/windows_event_reader.go
-- and pkg/reader/macos_log_reader.go, whose channels are made once, by the constructor. A panic,
-- which the close of a closed channel is, is `none`.
use tailpost.Base.{Bool, true, false, Option, none, some, ◌≡◌, ◌⊎◌, inl, inr, arith, if◌then◌else◌}

pub record Session : Type 0 where
  pub running : Bool
  pub stop_closed : Bool
  pub stopped_closed : Bool
  pub lines_closed : Bool

unfoldable pub new_session : Session
new_session = record {
  running = false;
  stop_closed = false;
  stopped_closed = false;
  lines_closed = false;
}

-- `Start`, if the reader does not run: its goroutine begins.
unfoldable pub start : Session → Session
start s = if s.running then s else record s { running = true }

-- The deferred function of the goroutine.
unfoldable pub ended : Session → Option Session
ended s =
    if s.stopped_closed then none else some (record s { running = false; stopped_closed = true })

abbrev close_lines : Session → Option Session
close_lines s = if s.lines_closed then none else some (record s { lines_closed = true })

-- `Stop`, whose receive from `stoppedCh` waits for the end of the goroutine.
unfoldable pub stop : Session → Option Session
unfolding ended
stop s =
    if s.running
    then if s.stop_closed
      then none
      else elim (ended (record s { stop_closed = true })) [ none ↦ none | some t ↦ close_lines t ]
    else some s

-- A reader is for one session. When it was started and stopped, a second `Stop` does nothing and
-- the channel of the lines is closed, and when its goroutine ended by itself, `Stop` does nothing and
-- leaves that channel open. In both cases, when it is started again its goroutine panics as it ends.
restart_panics :
    (s : Session)
    → (stop (start new_session) ≡ some s) ⊎ (ended (start new_session) ≡ some s)
    → (stop s ≡ some s) × (ended (start s) ≡ none)
unfolding new_session start ended stop
restart_panics s (inl e) = ground arith
restart_panics s (inr e) = ground arith
