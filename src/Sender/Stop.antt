-- ===== src/Sender/Stop.antt =====
-- What `Stop` guarantees of the lines sent before it, and what becomes of those sent after it.
use mathlib.Core.List.{append-nil, append_assoc}
use tailpost.Base.{
  ℕ, ◌+◌, ◌<◌, true, false, List, [], ◌∷◌, ◌++◌, flatten, ◌≡◌, refl, sym, ap, ◌∙◌, arith, Bytes,
  length, length-append,
}
use tailpost.Base.Int.{ℤ, pos}
use tailpost.Sender.{
  Sender, Event, line, tick, stop_called, loop_flushes, loop_ends, new_http_sender, dispatch,
  flush_locked, send, flush, stop, step, run,
}
use tailpost.Sender.Batches.{accepted, lines_of, accepted-flush_locked, run-accepted}

-- `Stop`, and then the last flush and the end of the loop.
abbrev pub stopped : Sender → Sender
stopped s = step loop_ends (step loop_flushes (step stop_called s))

dispatch-batch : (b : List Bytes) (s : Sender) → s.batch ≡ b → (dispatch b s).batch ≡ []
dispatch-batch [] s e = e
dispatch-batch (l ∷ ls) s e = refl

pub flush-batch : (s : Sender) → (flush s).batch ≡ []
unfolding flush flush_locked
flush-batch s = dispatch-batch s.batch s refl

new-open :
    (url : Bytes) (size interval : ℤ) → (new_http_sender url size interval).loop_flushed ≡ false
unfolding new_http_sender
new-open url size interval = refl

new-accepted : (url : Bytes) (size interval : ℤ) → accepted (new_http_sender url size interval) ≡ []
unfolding new_http_sender flatten
new-accepted url size interval = refl

module _ (s : Sender) (running : s.loop_flushed ≡ false) where
  stopped-batch : (stopped s).batch ≡ []
  unfolding step stop
  stopped-batch =
      ground (arith, running, flush-batch s, flush-batch (record s { stop_closed = true }))

  stopped-accepted : accepted (stopped s) ≡ accepted s
  unfolding step stop flush
  stopped-accepted = ground (
    arith,
    running,
    accepted-flush_locked s,
    accepted-flush_locked (record s { stop_closed = true }),
  )

-- When a sender of `NewHTTPSender` whose loop has not returned is stopped, every line sent to it before
-- has been handed over in some batch, each once and in the order of sending, and none is pending.
pub stop_flushes :
    (url : Bytes) (size interval : ℤ) (es : List Event)
    → (run es (new_http_sender url size interval)).loop_flushed ≡ false
    → let s = run es (new_http_sender url size interval) in
      (flatten (stopped s).dispatched ≡ lines_of es) × ((stopped s).batch ≡ [])
stop_flushes url size interval es running =
    let s = run es (new_http_sender url size interval) in
    let empty = stopped-batch s running in
    (
      sym (append-nil _)
          ∙ ap (◌++◌ (flatten (stopped s).dispatched)) (sym empty)
          ∙ stopped-accepted s running
          ∙ run-accepted es (new_http_sender url size interval)
          ∙ rw (new-accepted url size interval),
      empty,
    )

send_pending :
    (n : ℕ) (l : Bytes) (s : Sender)
    → s.batch_size ≡ pos n
    → length s.batch + 1 < n
    → send l s ≡ record s { batch = s.batch ++ (l ∷ []) }
unfolding send
send_pending n l s size h = rw size (ground (arith, length-append s.batch (l ∷ [])))

-- Once the loop has flushed for the last time nothing flushes on a timer: lines sent then, if they do not fill a batch,
-- are handed to nobody.
sent_after_stop :
    (n : ℕ) (es : List Event) (s : Sender)
    → s.loop_flushed ≡ true
    → s.batch_size ≡ pos n
    → length s.batch + length (lines_of es) < n
    → ((run es s).dispatched ≡ s.dispatched) × ((run es s).batch ≡ s.batch ++ lines_of es)
unfolding run step stop
sent_after_stop n [] s ended size h = (refl, sym (append-nil _))
sent_after_stop n (line l ∷ es) s ended size h =
    let later =
      sent_after_stop n es (record s { batch = s.batch ++ (l ∷ []) }) ended size
        (omega (arith, h, length-append s.batch (l ∷ []))) in
    let first = send_pending n l s size (omega (arith, h)) in
    (
      ap (λ (q : Sender). (run es q).dispatched) first ∙ later.0,
      ap (λ (q : Sender). (run es q).batch) first ∙ later.1 ∙ append_assoc s.batch (l ∷ []) _,
    )
sent_after_stop n (tick ∷ es) s ended size h = ground (arith, sent_after_stop n es s)
sent_after_stop n (stop_called ∷ es) s ended size h =
    ground (arith, sent_after_stop n es s, sent_after_stop n es (record s { stop_closed = true }))
sent_after_stop n (loop_flushes ∷ es) s ended size h = ground (arith, sent_after_stop n es s)
sent_after_stop n (loop_ends ∷ es) s ended size h =
    ground (arith, sent_after_stop n es (record s { stopped_closed = true }))
