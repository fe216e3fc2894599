-- ===== src/Sender.antt =====
-- `HTTPSender` of pkg/sender/http_sender.go: batching. The goroutines that `flushLockedWithContext`
-- starts are the list of the batches that were handed to them, in the order of the starts. Tracing
-- spans are not modelled: they do not change what is sent.
pub mod Batches
pub mod Bounds
pub mod Stop
pub mod Safe
pub mod Post
pub mod Secure
use tailpost.Base.{
  ℕ, Bool, true, false, List, [], ◌∷◌, ◌++◌, Bytes, leb, if◌then◌else◌, length, String, bytes,
}
use tailpost.Base.Int.{ℤ, pos, negsuc, is_nonpos}
use tailpost.Config.{second}

pub record Sender : Type 0 where
  pub server_url : Bytes
  pub batch_size : ℤ
  pub flush_interval : ℤ
  pub batch : List Bytes
  pub dispatched : List (List Bytes)
  pub stop_closed : Bool
  pub loop_flushed : Bool
  pub stopped_closed : Bool

-- `NewHTTPSender`.
unfoldable pub new_http_sender : Bytes → ℤ → ℤ → Sender
new_http_sender url size interval = record {
  server_url = url;
  batch_size = if is_nonpos size then pos 1 else size;
  flush_interval = if is_nonpos interval then pos second else interval;
  batch = [];
  dispatched = [];
  stop_closed = false;
  loop_flushed = false;
  stopped_closed = false;
}

-- `len(s.batch) >= s.batchSize`.
abbrev pub reaches : ℕ → ℤ → Bool
reaches n (pos size) = leb size n
reaches n (negsuc m) = true

-- `flushLockedWithContext`.
abbrev dispatch : List Bytes → Sender → Sender
dispatch [] s = s
dispatch (l ∷ ls) s = record s { batch = []; dispatched = s.dispatched ++ ((l ∷ ls) ∷ []) }

unfoldable pub flush_locked : Sender → Sender
flush_locked s = dispatch s.batch s

-- `SendWithContext`.
unfoldable pub send_with_context : Bytes → Sender → Sender
send_with_context line s =
    let s' = record s { batch = s.batch ++ (line ∷ []) } in
    if reaches (length s'.batch) s'.batch_size then flush_locked s' else s'

-- `Send`.
unfoldable pub send : Bytes → Sender → Sender
unfolding send_with_context
send line s = send_with_context line s

-- `flush`.
unfoldable pub flush : Sender → Sender
flush s = flush_locked s

-- The interval of the ticker in `flushLoop`.
unfoldable pub tick_interval : Sender → ℤ
tick_interval s = if is_nonpos s.flush_interval then pos second else s.flush_interval

-- `Stop` closes `stopCh`, once; a second call returns at once.
unfoldable pub stop : Sender → Sender
stop s = if s.stop_closed then s else record s { stop_closed = true }

-- What happens to a sender: a line is sent, `Stop` is called, or `flushLoop` runs. Of the two cases of
-- its select the second returns: the deferred function flushes, under the lock, and then closes
-- `stoppedCh` without it, so that lines may be sent between the two.
-- `loop_flushed`: the loop has returned and its last flush is done.
pub data Event : Type 0 where
  line : Bytes → Event
  tick : Event
  stop_called : Event
  loop_flushes : Event
  loop_ends : Event

-- The loop takes no case once it has returned, and does not return before `stopCh` is closed.
unfoldable pub step : Event → Sender → Sender
unfolding send flush stop
step (line l) s = send l s
step tick s = if s.loop_flushed then s else flush s
step stop_called s = stop s
step loop_flushes s =
    if s.loop_flushed
    then s
    else if s.stop_closed
    then record (flush s) { loop_flushed = true }
    else s
step loop_ends s = if s.loop_flushed then record s { stopped_closed = true } else s

unfoldable pub run : List Event → Sender → Sender
run [] s = s
run (e ∷ es) s = run es (step e s)
