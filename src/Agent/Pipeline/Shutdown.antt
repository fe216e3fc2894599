-- ===== src/Agent/Pipeline/Shutdown.antt =====
-- The shutdown of the agent: what it takes to complete it, and which lines it may lose.
use tailpost.Base.{
  ℕ, zero, suc, ◌<◌, Bool, true, false, List, [], ◌∷◌, ◌≡◌, ◌≢◌, refl, sym, subst, ap, arith, Bytes,
  inl, inr, Bool-cases,
}
use tailpost.Base.Int.{ℤ, pos}
use tailpost.Health.{HealthServer}
use tailpost.Sender.{
  Sender, new_http_sender, send, send_with_context, line, stop_called, loop_flushes, loop_ends,
  step, flush, stop, flush_locked,
}
use tailpost.Reader.Stopping.{capacity}
use tailpost.Agent.Pipeline.{
  Program, agent_main, agent_single, Phase, starting, waiting, stopping_reader, stopping_sender,
  stopping_health, awaiting, finished, next_phase, Pipeline, Step, line_read, line_processed,
  channel_ended, processing_cancelled, sender_ticks, timed_out, sender_flushes, sender_ends,
  reader_ended, started, signalled, reader_stopped, sender_stop_called, sender_stopped,
  health_stopped, processing_awaited, Reach, here, next, initial,
}
use tailpost.Agent.Pipeline.Phases.{
  rank, rank-next, rank_finished, rank_zero, finished-left, starting-not_left,
}
use tailpost.Agent.Pipeline.Left.{Reach-reading, Reach-IsLeft}

Reach-trans :
    {p : Program} {closes : Bool} {u v w : Pipeline}
    → Reach p closes u v
    → Reach p closes v w
    → Reach p closes u w
Reach-trans r here = r
Reach-trans r (next s t) = next (Reach-trans r s) t

-- `Stop`, the last flush and the end of the loop leave a sender whose loop has ended.
stopped-closed :
    (s : Sender) → (step loop_ends (step loop_flushes (step stop_called s))).stopped_closed ≡ true
unfolding step stop flush flush_locked
stopped-closed s = ground arith

-- Whether the signal has arrived.
abbrev passed : Phase → Bool
passed starting = false
passed waiting = false
passed stopping_reader = true
passed stopping_sender = true
passed stopping_health = true
passed awaiting = true
passed finished = true

-- After the signal the context is cancelled.
abbrev IsCancelled : Pipeline → Type 0
IsCancelled w = passed w.phase ≡ true → w.cancelled ≡ true

not_passed : (p : Program) → passed (next_phase p starting) ≡ false
unfolding next_phase
not_passed agent_main = refl
not_passed agent_single = refl

Step-IsCancelled :
    {p : Program} {closes : Bool} {v w : Pipeline}
    → Step p closes v w
    → IsCancelled v
    → IsCancelled w
Step-IsCancelled (line_read w l rest r u h) c = c
Step-IsCancelled (line_processed w l rest r e) c = c
Step-IsCancelled (channel_ended w r e d) c = c
Step-IsCancelled (processing_cancelled w r d) c = c
Step-IsCancelled (sender_ticks w) c = c
Step-IsCancelled (sender_flushes w) c = c
Step-IsCancelled (sender_ends w) c = c
Step-IsCancelled {p} (started w e) c = λ h. let n = not_passed p in cc
Step-IsCancelled (signalled w e) c = λ h. refl
Step-IsCancelled (reader_ended w r) c = c
Step-IsCancelled (reader_stopped w b e r k) c = λ h. c (rw e refl)
Step-IsCancelled (sender_stop_called w e) c = c
Step-IsCancelled (sender_stopped w e s) c = λ h. c (rw e refl)
Step-IsCancelled (health_stopped w e) c = λ h. c (rw e refl)
Step-IsCancelled (processing_awaited w e s) c = λ h. c (rw e refl)
Step-IsCancelled (timed_out w e s) c = λ h. c (rw s refl)

Reach-IsCancelled :
    {p : Program} {closes : Bool} {v w : Pipeline}
    → Reach p closes v w
    → IsCancelled v
    → IsCancelled w
Reach-IsCancelled here c = c
Reach-IsCancelled (next r s) c = Step-IsCancelled s (Reach-IsCancelled r c)

no_close : (closes : Bool) → false ≡ true → closes ≡ true
no_close closes h = absurd (cc)

module _ (p : Program) (closes : Bool) where
  -- The main goroutine can get to its next phase.
  abbrev Advanced : Pipeline → Phase → Type 0
  Advanced w f = (v : Pipeline) × Reach p closes w v × (v.phase ≡ next_phase p f)

  awaited : (w : Pipeline) → w.phase ≡ awaiting → w.cancelled ≡ true → Advanced w awaiting
  awaited w e c = elim (Bool-cases w.processing) [
    | inl r ↦ (_, next (next here (processing_cancelled w r c)) (processing_awaited _ e refl), refl)
    | inr r ↦ (_, next here (processing_awaited w e r), refl)
  ]

  advance :
      (f : Phase) (w : Pipeline)
      → w.phase ≡ f
      → f ≢ finished
      → w.reading ≡ false
      → IsCancelled w
      → Advanced w f
  advance starting w e h r c = (_, next here (started w e), refl)
  advance waiting w e h r c = (_, next here (signalled w e), refl)
  advance stopping_reader w e h r c =
      (_, next here (reader_stopped w false e r (no_close closes)), refl)
  advance stopping_sender w e h r c = (
    _,
    next (next (next (next here (sender_stop_called w e)) (sender_flushes _)) (sender_ends _))
        (sender_stopped _ e (stopped-closed w.sender)),
    refl,
  )
  advance stopping_health w e h r c = (_, next here (health_stopped w e), refl)
  advance awaiting w e h r c = awaited w e (c (rw e refl))
  advance finished w e h r c = absurd (h refl)

  finish_from :
      (n : ℕ) (w : Pipeline)
      → rank p w.phase ≡ n
      → w.reading ≡ false
      → IsCancelled w
      → (v : Pipeline) × Reach p closes w v × (v.phase ≡ finished)
  finish_from zero w e q c = (w, here, rank_zero p w.phase e)
  finish_from (suc n) w e q c =
      let busy : w.phase ≢ finished =
        λ h. absurd (omega (arith, e, ap (λ (f : Phase). rank p f) h, rank_finished p)) in
      let (v, r, f) = advance w.phase w refl busy q c in
      let falls : rank p v.phase ≡ n =
        omega (arith, e, rank-next p w.phase busy, ap (λ (g : Phase). rank p g) f) in
      let (u, s, done) = finish_from n v falls (Reach-reading r q) (Reach-IsCancelled r c) in
      (u, Reach-trans r s, done)

  -- The shutdown stands and falls with the goroutine of the reader, for which `Stop` waits: in every
  -- state that is reached, an agent that has finished has a reader that has ended, and if the reader has
  -- ended there are steps to a state in which the main goroutine has finished.
  pub shutdown_completes :
      (lines : List Bytes) (sender : Sender) (health : HealthServer) (w : Pipeline)
      → Reach p closes (initial lines sender health) w
      → (w.phase ≡ finished → w.reading ≡ false)
        × (w.reading ≡ false → (v : Pipeline) × Reach p closes w v × (v.phase ≡ finished))
  shutdown_completes lines sender health w r = (
    λ e.
        Reach-IsLeft r (λ b. absurd (starting-not_left p b))
          (subst (λ (f : Phase). rank p f < rank p stopping_reader) (sym e) (finished-left p)),
    λ q. finish_from (rank p w.phase) w refl q (Reach-IsCancelled r (λ h. cc)),
  )

-- A new sender that was stopped before anything was sent.
late_line :
    (url : Bytes) (n : ℕ) (interval : ℤ) (l : Bytes)
    → 1 < n
    → let s = step (line l) (
        step loop_ends
          (step loop_flushes (step stop_called (new_http_sender url (pos n) interval)))) in
      (s.dispatched ≡ []) × (s.batch ≡ l ∷ [])
unfolding new_http_sender step stop flush flush_locked send send_with_context
late_line url n interval l h = (ground arith, ground arith)

-- The agent of cmd/agent/main.go can lose a line at shutdown that its sender has accepted: with a
-- batch size of 2 or more there is a run in which the processing loop takes the line after the sender
-- has stopped, and the agent finishes with the line in a batch that was never handed over.
late_line_lost :
    (closes : Bool) (url : Bytes) (n : ℕ) (interval : ℤ) (health : HealthServer) (l : Bytes)
    → 1 < n
    → (w : Pipeline) × Reach agent_main closes
        (initial (l ∷ []) (new_http_sender url (pos n) interval) health)
        w
      × (w.phase ≡ finished)
      × (w.sender.dispatched ≡ [])
      × (w.sender.batch ≡ l ∷ [])
unfolding next_phase
late_line_lost closes url n interval health l h =
    let s = new_http_sender url (pos n) interval in
    let room : 0 < capacity = omega arith in
    let begun = next (next here (started (initial (l ∷ []) s health) refl)) (signalled _ refl) in
    let read = next (next begun (line_read _ l [] refl refl room)) (reader_ended _ refl) in
    let reader = next read (reader_stopped _ false refl refl (no_close closes)) in
    let told = next (next reader (sender_stop_called _ refl)) (sender_flushes _) in
    let ended = next told (sender_ends _) in
    let stopped =
      next (next ended (sender_stopped _ refl (stopped-closed s))) (health_stopped _ refl) in
    let taken = next stopped (line_processed _ l [] refl refl) in
    let all =
      next (next taken (processing_cancelled _ refl refl)) (processing_awaited _ refl refl) in
    let (none_sent, pending) = late_line url n interval l h in (_, all, refl, none_sent, pending)
