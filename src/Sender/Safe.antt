-- ===== src/Sender/Safe.antt =====
-- Lines that the sender has accepted stay on their way until the last flush of its loop, and are in a
-- batch then.
use mathlib.Core.List.{append_assoc, append-nil}
use tailpost.Base.{
  Bool, true, false, List, [], ◌∷◌, ◌++◌, ◌≡◌, refl, ◌⊎◌, sym, ap, ◌∙◌, arith, Bytes, flatten, inl,
  inr, if◌then◌else◌, Bool-cases, length,
}
use tailpost.Sender.{
  Sender, reaches, dispatch, flush_locked, send, send_with_context, flush, stop, Event, line, tick,
  stop_called, loop_flushes, loop_ends, step,
}
use tailpost.Sender.Batches.{accepted, accepted-step, lines_of}
use tailpost.Sender.Stop.{flush-batch}

-- The batches handed over begin with the lines.
abbrev pub Handed : List Bytes → Sender → Type 0
Handed ls s = (late : List Bytes) × (flatten s.dispatched ≡ ls ++ late)

-- The sender has accepted the lines, and its loop has not flushed for the last time; or they are
-- handed over.
abbrev pub IsSafe : List Bytes → Sender → Type 0
IsSafe ls s =
    ((s.loop_flushed ≡ false) × ((late : List Bytes) × (accepted s ≡ ls ++ late))) ⊎ Handed ls s

-- The batches handed over after a step begin with those before it.
abbrev pub Grown : Sender → Sender → Type 0
Grown t s = (more : List (List Bytes)) × (t.dispatched ≡ s.dispatched ++ more)

flatten-append : (xs ys : List (List Bytes)) → flatten (xs ++ ys) ≡ flatten xs ++ flatten ys
unfolding flatten
flatten-append [] ys = refl
flatten-append (x ∷ xs) ys = rw (flatten-append xs ys) (sym (append_assoc x _ _))

Handed-more : (ls : List Bytes) (s t : Sender) → Grown t s → Handed ls s → Handed ls t
Handed-more ls s t (more, e) (late, h) = (
  late ++ flatten more,
  ap (λ (bs : List (List Bytes)). flatten bs) e
      ∙ flatten-append s.dispatched more
      ∙ ap (λ (x : List Bytes). x ++ flatten more) h
      ∙ append_assoc ls late (flatten more),
)

dispatch-Grown : (b : List Bytes) (s : Sender) → Grown (dispatch b s) s
dispatch-Grown [] s = ([], sym (append-nil _))
dispatch-Grown (l ∷ ls) s = ((l ∷ ls) ∷ [], refl)

flush_locked-Grown : (s : Sender) → Grown (flush_locked s) s
unfolding flush_locked
flush_locked-Grown s = dispatch-Grown s.batch s

send-Grown : (l : Bytes) (s : Sender) → Grown (send l s) s
unfolding send
send-Grown l s = elim (Bool-cases (reaches (length (s.batch ++ (l ∷ []))) s.batch_size)) [
  | inl e ↦ rw e (flush_locked-Grown (record s { batch = s.batch ++ (l ∷ []) }))
  | inr e ↦ rw e ([], sym (append-nil _))
]

same-Grown : (s : Sender) → Grown s s
same-Grown s = ([], sym (append-nil _))

chosen-Grown : (b : Bool) (t u s : Sender) → Grown t s → Grown u s → Grown (if b then t else u) s
chosen-Grown true t u s h k = h
chosen-Grown false t u s h k = k

pub step-Grown : (e : Event) (s : Sender) → Grown (step e s) s
unfolding step stop flush
step-Grown (line l) s = send-Grown l s
step-Grown tick s = chosen-Grown s.loop_flushed s (flush s) s (same-Grown s) (flush_locked-Grown s)
step-Grown stop_called s =
    chosen-Grown s.stop_closed s (record s { stop_closed = true }) s (same-Grown s) (same-Grown s)
step-Grown loop_flushes s =
    let end = record (flush s) { loop_flushed = true } in
    chosen-Grown s.loop_flushed s (if s.stop_closed then end else s) s (same-Grown s)
      (chosen-Grown s.stop_closed end s s (flush_locked-Grown s) (same-Grown s))
step-Grown loop_ends s =
    chosen-Grown s.loop_flushed (record s { stopped_closed = true }) s s (same-Grown s)
      (same-Grown s)

-- The loop stays ended.
pub step-stopped :
    (e : Event) (s : Sender) → s.stopped_closed ≡ true → (step e s).stopped_closed ≡ true
unfolding step stop flush flush_locked send send_with_context
step-stopped (line l) s h = ground arith
step-stopped tick s h = ground arith
step-stopped stop_called s h = ground arith
step-stopped loop_flushes s h = ground arith
step-stopped loop_ends s h = ground arith

-- `stoppedCh` is closed behind the last flush only.
abbrev pub IsOrdered : Sender → Type 0
IsOrdered s = s.stopped_closed ≡ true → s.loop_flushed ≡ true

step-flushed : (e : Event) (s : Sender) → s.loop_flushed ≡ true → (step e s).loop_flushed ≡ true
unfolding step stop flush flush_locked send send_with_context
step-flushed (line l) s h = ground arith
step-flushed tick s h = ground arith
step-flushed stop_called s h = ground arith
step-flushed loop_flushes s h = ground arith
step-flushed loop_ends s h = ground arith

step-closes :
    (e : Event) (s : Sender)
    → (step e s).stopped_closed ≡ true
    → s.loop_flushed ≡ false
    → s.stopped_closed ≡ true
unfolding step stop flush flush_locked send send_with_context
step-closes (line l) s h r = ground arith
step-closes tick s h r = ground arith
step-closes stop_called s h r = ground arith
step-closes loop_flushes s h r = ground arith
step-closes loop_ends s h r = ground arith

pub step-IsOrdered : (e : Event) (s : Sender) → IsOrdered s → IsOrdered (step e s)
step-IsOrdered e s h c =
    step-flushed e s
      (elim (Bool-cases s.loop_flushed) [ inl f ↦ f | inr f ↦ h (step-closes e s c f) ])

ended-batch :
    (s : Sender) → s.loop_flushed ≡ false → s.stop_closed ≡ true → (step loop_flushes s).batch ≡ []
unfolding step
ended-batch s h f = ground (arith, h, f, flush-batch s)

-- The last flush leaves no line pending.
step-ended :
    (e : Event) (s : Sender)
    → s.loop_flushed ≡ false
    → ((step e s).loop_flushed ≡ false) ⊎ ((step e s).batch ≡ [])
unfolding step stop flush flush_locked send send_with_context
step-ended (line l) s h = inl (ground arith)
step-ended tick s h = inl (ground arith)
step-ended stop_called s h = inl (ground arith)
step-ended loop_ends s h = inl (ground arith)
step-ended loop_flushes s h = elim (Bool-cases s.stop_closed) [
  | inl f ↦ inr (ended-batch s h f)
  | inr f ↦ inl (ground arith)
]

pub step-IsSafe : (e : Event) (ls : List Bytes) (s : Sender) → IsSafe ls s → IsSafe ls (step e s)
step-IsSafe e ls s (inr h) = inr (Handed-more ls s (step e s) (step-Grown e s) h)
step-IsSafe e ls s (inl (running, (late, h))) =
    let all : accepted (step e s) ≡ ls ++ (late ++ lines_of (e ∷ [])) =
      accepted-step e s
      ∙ ap (λ (x : List Bytes). x ++ lines_of (e ∷ [])) h
      ∙ append_assoc ls late (lines_of (e ∷ [])) in
    elim (step-ended e s running) [
      | inl f ↦ inl (f, (_, all))
      | inr empty ↦ inr (
        _,
        sym (append-nil _)
            ∙ ap (λ (x : List Bytes). flatten (step e s).dispatched ++ x) (sym empty)
            ∙ all,
      )
    ]
