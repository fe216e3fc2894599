-- ===== src/Agent/Pipeline.antt =====
-- The goroutines of the agent: the reader, the processing loop, the sender's loop and the main
-- goroutine from the start of the components to the end of the shutdown. There are two programs:
-- cmd/agent/main.go (`processLogs`, `handleSignals`) and the older cmd/agent.go. They stop the
-- components in different orders, and only the second marks the health server as ready.
-- The reader puts its lines on its channel while its goroutine runs. That may end at any time, or
-- never: `Stop` waits for it, and a reader that is stuck in a send or a scan does not see the stop.
-- `closes` tells the readers of Windows and macOS, whose `Stop` closes the channel if they run.
pub mod Flow
pub mod Phases
pub mod Left
pub mod Shutdown
pub mod Delivery
pub mod Metrics
use tailpost.Base.{ℕ, suc, ◌+◌, ◌<◌, Bool, true, false, List, [], ◌∷◌, ◌++◌, ◌≡◌, Bytes, length}
use tailpost.Reader.Stopping.{capacity}
use tailpost.Sender.{Sender, Event, line, tick, stop_called, loop_flushes, loop_ends}
use tailpost.Sender
use tailpost.Health.{HealthServer, set_ready}

pub data Program : Type 0 where
  -- cmd/agent/main.go and cmd/agent.go.
  agent_main agent_single : Program

-- What the main goroutine does next.
pub data Phase : Type 0 where
  starting waiting stopping_reader stopping_sender stopping_health awaiting finished : Phase

-- The order of `handleSignals`, and the "reverse order" of cmd/agent.go.
unfoldable pub next_phase : Program → Phase → Phase
next_phase p starting = waiting
next_phase agent_main waiting = stopping_reader
next_phase agent_main stopping_reader = stopping_sender
next_phase agent_main stopping_sender = stopping_health
next_phase agent_main stopping_health = awaiting
next_phase agent_single waiting = stopping_health
next_phase agent_single stopping_health = stopping_sender
next_phase agent_single stopping_sender = stopping_reader
next_phase agent_single stopping_reader = awaiting
next_phase p awaiting = finished
next_phase p finished = finished

-- `unread` are the lines that the reader has not put on its channel, `queue` those on it. `sent_total`
-- is the counter `tailpost_logs_sent_total`, which cmd/agent.go has.
pub record Pipeline : Type 0 where
  pub unread : List Bytes
  pub queue : List Bytes
  pub sender : Sender
  pub health : HealthServer
  pub sent_total : ℕ
  pub reading : Bool
  pub channel_closed : Bool
  pub processing : Bool
  pub cancelled : Bool
  pub phase : Phase

-- `healthServer.SetReady(b)`, which cmd/agent/main.go does not call.
abbrev pub mark_ready : Program → Bool → HealthServer → HealthServer
mark_ready agent_main b s = s
mark_ready agent_single b s = set_ready b s

-- `logsSentTotal.WithLabelValues(sourceType).Inc()`.
abbrev pub count_sent : Program → ℕ → ℕ
count_sent agent_main n = n
count_sent agent_single n = n + 1

-- A line has been taken off the channel.
abbrev pub process : Program → Bytes → List Bytes → Pipeline → Pipeline
process p l rest w = record w {
  queue = rest;
  sender = Sender.step (line l) w.sender;
  sent_total = count_sent p w.sent_total;
}

pub data Step (p : Program) (closes : Bool) : Pipeline → Pipeline → Type 0 where
  -- The reader puts a line on the channel, if it has room.
  line_read :
      (w : Pipeline) (l : Bytes) (rest : List Bytes)
      → w.reading ≡ true
      → w.unread ≡ l ∷ rest
      → length w.queue < capacity
      → Step p closes w (record w { unread = rest; queue = w.queue ++ (l ∷ []) })
  -- The second case of the select of the processing loop.
  line_processed :
      (w : Pipeline) (l : Bytes) (rest : List Bytes)
      → w.processing ≡ true
      → w.queue ≡ l ∷ rest
      → Step p closes w (process p l rest w)
  -- The same case, when the channel is closed and empty.
  channel_ended :
      (w : Pipeline)
      → w.processing ≡ true
      → w.queue ≡ []
      → w.channel_closed ≡ true
      → Step p closes w (record w { processing = false })
  -- `case <-ctx.Done()`.
  processing_cancelled :
      (w : Pipeline)
      → w.processing ≡ true
      → w.cancelled ≡ true
      → Step p closes w (record w { processing = false })
  -- The sender's loop: a tick, the last flush, and the close of `stoppedCh`.
  sender_ticks : (w : Pipeline) → Step p closes w (record w { sender = Sender.step tick w.sender })
  sender_flushes :
      (w : Pipeline) → Step p closes w (record w { sender = Sender.step loop_flushes w.sender })
  sender_ends :
      (w : Pipeline) → Step p closes w (record w { sender = Sender.step loop_ends w.sender })
  -- The main goroutine: every component has been started.
  started :
      (w : Pipeline)
      → w.phase ≡ starting
      → Step p closes w
          (record w { phase = next_phase p starting; health = mark_ready p true w.health })
  -- A signal arrives: `cancel()`.
  signalled :
      (w : Pipeline)
      → w.phase ≡ waiting
      → Step p closes w (record w {
        phase = next_phase p waiting;
        cancelled = true;
        health = mark_ready p false w.health;
      })
  -- The goroutine of the reader ends, by itself or because it has seen the stop.
  reader_ended : (w : Pipeline) → w.reading ≡ true → Step p closes w (record w { reading = false })
  -- `logReader.Stop()` returns, once the goroutine has ended. It closes the channel, or finds that the
  -- reader no longer runs.
  reader_stopped :
      (w : Pipeline) (closed : Bool)
      → w.phase ≡ stopping_reader
      → w.reading ≡ false
      → (closed ≡ true → closes ≡ true)
      → Step p closes w (record w { phase = next_phase p stopping_reader; channel_closed = closed })
  -- `logSender.Stop()`: the close of `stopCh`, and the receive from `stoppedCh`.
  sender_stop_called :
      (w : Pipeline)
      → w.phase ≡ stopping_sender
      → Step p closes w (record w { sender = Sender.step stop_called w.sender })
  sender_stopped :
      (w : Pipeline)
      → w.phase ≡ stopping_sender
      → w.sender.stopped_closed ≡ true
      → Step p closes w (record w { phase = next_phase p stopping_sender })
  -- `healthServer.Stop()`, whose error is only logged.
  health_stopped :
      (w : Pipeline)
      → w.phase ≡ stopping_health
      → Step p closes w (record w { phase = next_phase p stopping_health })
  -- `<-processingDone`.
  processing_awaited :
      (w : Pipeline)
      → w.phase ≡ awaiting
      → w.processing ≡ false
      → Step p closes w (record w { phase = next_phase p awaiting })
  -- The shutdown timeout of cmd/agent.go.
  timed_out :
      (w : Pipeline)
      → p ≡ agent_single
      → w.phase ≡ awaiting
      → Step p closes w (record w { phase = next_phase p awaiting })

pub data Reach (p : Program) (closes : Bool) (start : Pipeline) : Pipeline → Type 0 where
  here : Reach p closes start start
  next : {v w : Pipeline} → Reach p closes start v → Step p closes v w → Reach p closes start w

-- The state in which the main goroutine has started every component.
abbrev pub initial : List Bytes → Sender → HealthServer → Pipeline
initial lines sender health = record {
  unread = lines;
  queue = [];
  sender = sender;
  health = health;
  sent_total = 0;
  reading = true;
  channel_closed = false;
  processing = true;
  cancelled = false;
  phase = starting;
}
