-- ===== src/Reader/Stopping.antt =====
-- The goroutines `tailFile` (pkg/reader/file_reader.go) and `tailContainer`
-- (pkg/reader/container_reader.go) between `Start` and the close of `stoppedCh`, beside the
-- goroutine that takes lines from the channel and the caller of `Stop`. `tailFile` sends a line
-- with a plain `r.lines <- line`; `tailContainer` selects between the send and `stopCh`, but is in the
-- blocking `ReadLine` of its inner loop between two lines.
use tailpost.Base.{ℕ, suc, ◌+◌, ◌≤◌, ◌<◌, Bool, true, false, ◌≡◌, ◌≢◌, ◌⊎◌, refl, arith}

-- `make(chan string, 1000)`.
abbrev pub capacity : ℕ
capacity = 1000

-- Where the goroutine is: at its outer `select`, in `ReadLine` of an open stream (a container), at the
-- send of a line, or past `close(r.stoppedCh)`.
pub data Phase : Type 0 where
  polling reading sending exited : Phase

pub data Kind : Type 0 where
  file container : Kind

-- `stop_closed`: `Stop` has closed `stopCh`. `consuming`: some goroutine still takes lines.
pub record Worker : Type 0 where
  pub phase : Phase
  pub queued : ℕ
  pub stop_closed : Bool
  pub consuming : Bool

-- Where the goroutine goes when a line is sent: `tailFile` to its select, `tailContainer` to `ReadLine`.
abbrev pub behind_send : Kind → Phase
behind_send file = polling
behind_send container = reading

-- The send of a line selects on `stopCh` too.
abbrev pub selects : Kind → Bool
selects file = false
selects container = true

pub data Step (kind : Kind) : Worker → Worker → Type 0 where
  -- `case <-r.stopCh` of the outer select.
  see_stop :
      (w : Worker)
      → w.phase ≡ polling
      → w.stop_closed ≡ true
      → Step kind w (record w { phase = exited })
  -- `default`, and a line was read. With `stopCh` closed the other case is ready, and is taken.
  line_read :
      (w : Worker)
      → kind ≡ file
      → w.phase ≡ polling
      → w.stop_closed ≡ false
      → Step kind w (record w { phase = sending })
  -- `default`, and the stream of the pod's log is opened. (If that fails, the loop goes round.)
  stream_opened :
      (w : Worker)
      → kind ≡ container
      → w.phase ≡ polling
      → w.stop_closed ≡ false
      → Step kind w (record w { phase = reading })
  -- `ReadLine` returns a line; the inner loop has not looked at `stopCh`.
  line_returned :
      (w : Worker)
      → kind ≡ container
      → w.phase ≡ reading
      → Step kind w (record w { phase = sending })
  -- `ReadLine` fails, at the end of the stream or for an error: the pod still exists, or it is gone.
  stream_ended :
      (w : Worker)
      → kind ≡ container
      → w.phase ≡ reading
      → Step kind w (record w { phase = polling })
  pod_gone :
      (w : Worker)
      → kind ≡ container
      → w.phase ≡ reading
      → Step kind w (record w { phase = exited })
  -- The send goes through while the channel has room.
  line_sent :
      (w : Worker)
      → w.phase ≡ sending
      → w.queued < capacity
      → Step kind w (record w { phase = behind_send kind; queued = w.queued + 1 })
  -- `case <-r.stopCh` of the select around the send.
  send_given_up :
      (w : Worker)
      → selects kind ≡ true
      → w.phase ≡ sending
      → w.stop_closed ≡ true
      → Step kind w (record w { phase = exited })
  -- The consumer takes a line.
  line_taken :
      (w : Worker) (n : ℕ)
      → w.consuming ≡ true
      → w.queued ≡ suc n
      → Step kind w (record w { queued = n })
  -- The agent's context is cancelled: the consumer returns.
  consumer_gone : (w : Worker) → Step kind w (record w { consuming = false })
  -- `close(r.stopCh)` in `Stop`.
  stop_called : (w : Worker) → Step kind w (record w { stop_closed = true })

pub data Reach (kind : Kind) (start : Worker) : Worker → Type 0 where
  here : Reach kind start start
  next : {v w : Worker} → Reach kind start v → Step kind v w → Reach kind start w

-- A sender that the channel has no room for, and nobody takes lines.
pub record IsStuck (w : Worker) : Type 0 where
  pub at_send : w.phase ≡ sending
  pub full : capacity ≤ w.queued
  pub nobody : w.consuming ≡ false

Step-IsStuck : {v w : Worker} → Step file v w → IsStuck v → IsStuck w
Step-IsStuck (see_stop w p s) h = ground (arith, h.at_send)
Step-IsStuck (line_read w f p s) h = ground (arith, h.at_send)
Step-IsStuck (stream_opened w c p s) h = ground (arith, h.at_send)
Step-IsStuck (line_returned w c p) h = ground (arith, h.at_send)
Step-IsStuck (stream_ended w c p) h = ground (arith, h.at_send)
Step-IsStuck (pod_gone w c p) h = ground (arith, h.at_send)
Step-IsStuck (line_sent w p s) h = absurd (omega (arith, h.full))
Step-IsStuck (send_given_up w e p s) h = cc
Step-IsStuck (line_taken w n c q) h = ground (arith, h.nobody)
Step-IsStuck (consumer_gone w) h = record { at_send = h.at_send; full = h.full; nobody = refl }
Step-IsStuck (stop_called w) h = record { at_send = h.at_send; full = h.full; nobody = h.nobody }

Reach-IsStuck : {v w : Worker} → Reach file v w → IsStuck v → IsStuck w
Reach-IsStuck here h = h
Reach-IsStuck (next r s) h = Step-IsStuck s (Reach-IsStuck r h)

-- A `FileReader` that is at the send of a line when the channel is full and its consumer has gone
-- never closes `stoppedCh`, whether or not `Stop` closes `stopCh`: `Stop` waits for ever.
pub file_stop_hangs : {v w : Worker} → IsStuck v → Reach file v w → w.phase ≢ exited
file_stop_hangs h r e = let at = (Reach-IsStuck r h).at_send in ground arith

-- The goroutine has exited, or can exit by one step of its own.
abbrev pub CanExit : Worker → Type 0
CanExit w = (w.phase ≡ exited) ⊎ Step container w (record w { phase = exited })
