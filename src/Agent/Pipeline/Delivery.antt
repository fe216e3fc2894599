-- ===== src/Agent/Pipeline/Delivery.antt =====
-- What the shutdown of the agent does not lose.
use mathlib.Core.List.{append-nil}
use tailpost.Base.{
  ◌≤◌, Bool, true, false, List, [], ◌++◌, ◌≡◌, ◌≢◌, ◌⊎◌, inl, inr, refl, sym, arith, Bytes, flatten,
  subst,
}
use tailpost.Health.{HealthServer}
use tailpost.Sender.{Sender, Event, line, tick, stop_called, loop_flushes, loop_ends, step}
use tailpost.Sender.Batches.{accepted}
use tailpost.Sender.Safe.{IsSafe, IsOrdered, step-IsSafe, step-IsOrdered, step-stopped}
use tailpost.Agent.Pipeline.{
  Program, agent_main, agent_single, Phase, starting, waiting, stopping_reader, stopping_sender,
  stopping_health, awaiting, finished, next_phase, Pipeline, Step, line_read, line_processed,
  channel_ended, processing_cancelled, sender_ticks, sender_flushes, sender_ends, started,
  signalled, reader_ended, reader_stopped, sender_stop_called, sender_stopped, health_stopped,
  processing_awaited, timed_out, Reach, here, next, initial,
}
use tailpost.Agent.Pipeline.Phases.{rank}

-- A step of the agent is a step of its sender, or leaves it as it is.
pub Step-sender :
    {p : Program} {closes : Bool} {v w : Pipeline}
    → Step p closes v w
    → (w.sender ≡ v.sender) ⊎ ((e : Event) × (w.sender ≡ step e v.sender))
Step-sender (line_read w l rest r u h) = inl refl
Step-sender (line_processed w l rest r e) = inr (line l, refl)
Step-sender (channel_ended w r e c) = inl refl
Step-sender (processing_cancelled w r c) = inl refl
Step-sender (sender_ticks w) = inr (tick, refl)
Step-sender (sender_flushes w) = inr (loop_flushes, refl)
Step-sender (sender_ends w) = inr (loop_ends, refl)
Step-sender (started w e) = inl refl
Step-sender (signalled w e) = inl refl
Step-sender (reader_ended w r) = inl refl
Step-sender (reader_stopped w b e r c) = inl refl
Step-sender (sender_stop_called w e) = inr (stop_called, refl)
Step-sender (sender_stopped w e s) = inl refl
Step-sender (health_stopped w e) = inl refl
Step-sender (processing_awaited w e s) = inl refl
Step-sender (timed_out w e s) = inl refl

-- A property of a sender that each of its steps keeps.
module _ (P : Sender → Type 0) (keeps : (e : Event) (s : Sender) → P s → P (step e s)) where
  Step-keeps :
      {p : Program} {closes : Bool} {v w : Pipeline} → Step p closes v w → P v.sender → P w.sender
  Step-keeps s h = elim (Step-sender s) [
    | inl e ↦ subst P (sym e) h
    | inr (x, e) ↦ subst P (sym e) (keeps x _ h)
  ]

  pub Reach-keeps :
      {p : Program} {closes : Bool} {v w : Pipeline} → Reach p closes v w → P v.sender → P w.sender
  Reach-keeps here h = h
  Reach-keeps (next r s) h = Step-keeps s (Reach-keeps r h)

-- Behind the stop of the sender, its loop has ended.
abbrev IsStopped : Program → Pipeline → Type 0
IsStopped p w = rank p w.phase ≤ 2 → w.sender.stopped_closed ≡ true

before-next :
    (p : Program) (f : Phase) → f ≢ stopping_sender → rank p (next_phase p f) ≤ 2 → rank p f ≤ 2
unfolding next_phase
before-next agent_main starting n h = absurd (omega (arith, h))
before-next agent_single starting n h = absurd (omega (arith, h))
before-next agent_main waiting n h = absurd (omega (arith, h))
before-next agent_single waiting n h = absurd (omega (arith, h))
before-next agent_main stopping_reader n h = absurd (omega (arith, h))
before-next agent_single stopping_reader n h = omega arith
before-next agent_main stopping_sender n h = absurd (n refl)
before-next agent_single stopping_sender n h = absurd (n refl)
before-next agent_main stopping_health n h = omega arith
before-next agent_single stopping_health n h = absurd (omega (arith, h))
before-next agent_main awaiting n h = omega arith
before-next agent_single awaiting n h = omega arith
before-next agent_main finished n h = omega arith
before-next agent_single finished n h = omega arith

moved :
    (p : Program) (f : Phase) (w : Pipeline)
    → f ≢ stopping_sender
    → w.phase ≡ f
    → IsStopped p w
    → rank p (next_phase p f) ≤ 2
    → w.sender.stopped_closed ≡ true
moved p f w n e h b = h (subst (λ (g : Phase). rank p g ≤ 2) (sym e) (before-next p f n b))

Step-IsStopped :
    {p : Program} {closes : Bool} {v w : Pipeline}
    → Step p closes v w
    → IsStopped p v
    → IsStopped p w
Step-IsStopped (line_read w l rest r u q) h = h
Step-IsStopped (line_processed w l rest r e) h = λ b. step-stopped (line l) w.sender (h b)
Step-IsStopped (channel_ended w r e c) h = h
Step-IsStopped (processing_cancelled w r c) h = h
Step-IsStopped (sender_ticks w) h = λ b. step-stopped tick w.sender (h b)
Step-IsStopped (sender_flushes w) h = λ b. step-stopped loop_flushes w.sender (h b)
Step-IsStopped (sender_ends w) h = λ b. step-stopped loop_ends w.sender (h b)
Step-IsStopped {p} (started w e) h = moved p starting w (λ x. ground arith) e h
Step-IsStopped {p} (signalled w e) h = moved p waiting w (λ x. ground arith) e h
Step-IsStopped (reader_ended w r) h = h
Step-IsStopped {p} (reader_stopped w b e r c) h = moved p stopping_reader w (λ x. ground arith) e h
Step-IsStopped (sender_stop_called w e) h = λ b. step-stopped stop_called w.sender (h b)
Step-IsStopped (sender_stopped w e s) h = λ b. s
Step-IsStopped {p} (health_stopped w e) h = moved p stopping_health w (λ x. ground arith) e h
Step-IsStopped {p} (processing_awaited w e s) h = moved p awaiting w (λ x. ground arith) e h
Step-IsStopped {p} (timed_out w q e) h = moved p awaiting w (λ x. ground arith) e h

Reach-IsStopped :
    {p : Program} {closes : Bool} {v w : Pipeline}
    → Reach p closes v w
    → IsStopped p v
    → IsStopped p w
Reach-IsStopped here h = h
Reach-IsStopped (next r s) h = Step-IsStopped s (Reach-IsStopped r h)

-- When an agent has finished, every line that its sender had accepted at a moment before the last
-- flush of the sender's loop was handed over in a batch: the lines of the batches begin with them, each
-- once and in their order. That holds in both programs, whatever the goroutines do in the meantime.
-- (A line accepted between the last flush and the close of `stoppedCh` may stay behind. The sender has
-- not stopped at that moment.)
pub accepted_handed_over :
    (p : Program) (closes : Bool) (lines : List Bytes) (sender : Sender) (health : HealthServer)
    (u w : Pipeline)
    → Reach p closes (initial lines sender health) u
    → u.sender.stopped_closed ≡ false
    → u.sender.loop_flushed ≡ false
    → Reach p closes u w
    → w.phase ≡ finished
    → (late : List Bytes) × (flatten w.sender.dispatched ≡ accepted u.sender ++ late)
accepted_handed_over p closes lines sender health u w r unclosed running q end =
    let ended : w.sender.stopped_closed ≡ true =
      Reach-IsStopped q (Reach-IsStopped r (λ b. absurd (omega (arith, b))))
        (subst (λ (g : Phase). rank p g ≤ 2) (sym end) (omega arith)) in
    let safe : IsSafe (accepted u.sender) w.sender =
      Reach-keeps (IsSafe (accepted u.sender)) (λ e s. step-IsSafe e (accepted u.sender) s) q
        (inl (running, ([], sym (append-nil _)))) in
    let ordered : IsOrdered w.sender =
      Reach-keeps (λ (s : Sender). IsOrdered s) step-IsOrdered q (λ c. absurd (cc)) in
    let flushed : w.sender.loop_flushed ≡ true = ordered ended in
    elim safe [ inl (runs, rest) ↦ absurd (ground arith) | inr h ↦ h ]
