-- ===== src/Reader/Container/Restart.antt =====
-- `Start`, `Stop` and the end of `tailContainer`. The receive from `stoppedCh` in `Stop` waits for the
-- end of `tailContainer`, which sees that `stopCh` is closed.
use tailpost.Base.{Bool, true, false, not, ◌≡◌, ◌⊎◌, inl, inr, arith, if◌then◌else◌}

pub record Handle : Type 0 where
  pub is_running : Bool
  pub stop_closed : Bool
  pub stopped_closed : Bool

-- "container reader already started" is `refused`, and the close of a closed channel panics.
pub data Call : Type 0 where
  done : Handle → Call
  refused panics : Call

unfoldable pub new_handle : Handle
new_handle = record { is_running = false; stop_closed = false; stopped_closed = false }

unfoldable pub start : Handle → Call
start h = if h.is_running then refused else done (record h { is_running = true })

-- The deferred close of `stoppedCh`.
unfoldable pub ended : Handle → Call
ended h = if h.stopped_closed then panics else done (record h { stopped_closed = true })

unfoldable pub stop : Handle → Call
stop h =
    if not h.is_running
    then done h
    else if h.stop_closed
    then panics
    else done (record { is_running = false; stop_closed = true; stopped_closed = true })

-- A container reader is for one session. When its pod is gone and `tailContainer` has ended by
-- itself, `Start` is refused until `Stop` was called. When it is stopped, whether its pod is gone or
-- not, a second `Stop` does nothing, and if it is started again `tailContainer` panics as it ends.
container_restart :
    (begun gone h again : Handle)
    → start new_handle ≡ done begun
    → ended begun ≡ done gone
    → (stop begun ≡ done h) ⊎ (stop gone ≡ done h)
    → start h ≡ done again
    → (start gone ≡ refused) × (stop h ≡ done h) × (ended again ≡ panics)
unfolding new_handle start ended stop
container_restart begun gone h again s e (inl t) r = ground arith
container_restart begun gone h again s e (inr t) r = ground arith
