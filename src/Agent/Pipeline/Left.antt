-- ===== src/Agent/Pipeline/Left.antt =====
-- The goroutine of the reader: nothing starts it again, and its stop waits for it.
use tailpost.Base.{◌<◌, Bool, false, ◌≡◌, ◌≢◌, refl, sym, subst, arith}
use tailpost.Agent.Pipeline.{
  Program, Phase, starting, waiting, stopping_reader, stopping_sender, stopping_health, awaiting,
  next_phase, Pipeline, Step, line_read, line_processed, channel_ended, processing_cancelled,
  sender_ticks, timed_out, sender_flushes, sender_ends, reader_ended, started, signalled,
  reader_stopped, sender_stop_called, sender_stopped, health_stopped, processing_awaited, Reach,
  here, next,
}
use tailpost.Agent.Pipeline.Phases.{rank, left-next}

-- Nothing starts the reader again.
Step-reading :
    {p : Program} {closes : Bool} {v w : Pipeline}
    → Step p closes v w
    → v.reading ≡ false
    → w.reading ≡ false
Step-reading (line_read w l rest r u h) c = c
Step-reading (line_processed w l rest r e) c = c
Step-reading (channel_ended w r e d) c = c
Step-reading (processing_cancelled w r d) c = c
Step-reading (sender_ticks w) c = c
Step-reading (sender_flushes w) c = c
Step-reading (sender_ends w) c = c
Step-reading (started w e) c = c
Step-reading (signalled w e) c = c
Step-reading (reader_ended w r) c = refl
Step-reading (reader_stopped w b e r k) c = c
Step-reading (sender_stop_called w e) c = c
Step-reading (sender_stopped w e s) c = c
Step-reading (health_stopped w e) c = c
Step-reading (processing_awaited w e s) c = c
Step-reading (timed_out w e s) c = c

pub Reach-reading :
    {p : Program} {closes : Bool} {v w : Pipeline}
    → Reach p closes v w
    → v.reading ≡ false
    → w.reading ≡ false
Reach-reading here c = c
Reach-reading (next r s) c = Step-reading s (Reach-reading r c)

-- Behind the stop of the reader, its goroutine has ended.
abbrev pub IsLeft : Program → Pipeline → Type 0
IsLeft p w = rank p w.phase < rank p stopping_reader → w.reading ≡ false

stays_left :
    (p : Program) (f : Phase) (w : Pipeline)
    → f ≢ stopping_reader
    → w.phase ≡ f
    → IsLeft p w
    → rank p (next_phase p f) < rank p stopping_reader
    → w.reading ≡ false
stays_left p f w n e h b =
    h (subst (λ (g : Phase). rank p g < rank p stopping_reader) (sym e) (left-next p f n b))

Step-IsLeft :
    {p : Program} {closes : Bool} {v w : Pipeline} → Step p closes v w → IsLeft p v → IsLeft p w
Step-IsLeft (line_read w l rest r u q) h = h
Step-IsLeft (line_processed w l rest r e) h = h
Step-IsLeft (channel_ended w r e c) h = h
Step-IsLeft (processing_cancelled w r c) h = h
Step-IsLeft (sender_ticks w) h = h
Step-IsLeft (sender_flushes w) h = h
Step-IsLeft (sender_ends w) h = h
Step-IsLeft {p} (started w e) h = stays_left p starting w (λ x. ground arith) e h
Step-IsLeft {p} (signalled w e) h = stays_left p waiting w (λ x. ground arith) e h
Step-IsLeft (reader_ended w r) h = λ b. refl
Step-IsLeft (reader_stopped w b e r k) h = λ x. r
Step-IsLeft (sender_stop_called w e) h = h
Step-IsLeft {p} (sender_stopped w e s) h = stays_left p stopping_sender w (λ x. ground arith) e h
Step-IsLeft {p} (health_stopped w e) h = stays_left p stopping_health w (λ x. ground arith) e h
Step-IsLeft {p} (processing_awaited w e s) h = stays_left p awaiting w (λ x. ground arith) e h
Step-IsLeft {p} (timed_out w q e) h = stays_left p awaiting w (λ x. ground arith) e h

pub Reach-IsLeft :
    {p : Program} {closes : Bool} {v w : Pipeline} → Reach p closes v w → IsLeft p v → IsLeft p w
Reach-IsLeft here h = h
Reach-IsLeft (next r s) h = Step-IsLeft s (Reach-IsLeft r h)
