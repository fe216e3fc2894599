-- ===== src/Sender/Bounds.antt =====
-- The sizes of the batches, and what a stop flushes.
use tailpost.Base.{
  ℕ, suc, ◌≤◌, ◌<◌, false, List, [], ◌∷◌, ◌++◌, ◌≡◌, refl, arith, Bytes, leb, length, length-append,
  Bool-cases, inl, inr, All, All-append, zero,
}
use tailpost.Base.Int.{ℤ, pos, negsuc}
use tailpost.Sender.{
  Sender, Event, line, tick, stop_called, loop_flushes, loop_ends, new_http_sender, reaches,
  dispatch, flush_locked, send, flush, step, run,
}

abbrev pub Sized : ℕ → List Bytes → Type 0
Sized n b = (0 < length b) × (length b ≤ n)

-- The pending batch is short of `n` lines, and no batch handed over is empty or longer.
pub record IsBounded (n : ℕ) (s : Sender) : Type 0 where
  pub size : s.batch_size ≡ pos n
  pub pending : length s.batch < n
  pub handed : All (Sized n) s.dispatched

dispatch-IsBounded :
    (n : ℕ) (b : List Bytes) (s : Sender)
    → s.batch_size ≡ pos n
    → s.batch ≡ b
    → 0 < n
    → length b ≤ n
    → All (Sized n) s.dispatched
    → IsBounded n (dispatch b s)
dispatch-IsBounded n [] s size e positive fits handed = record {
  size = size;
  pending = rw e positive;
  handed = handed;
}
dispatch-IsBounded n (l ∷ ls) s size e positive fits handed = record {
  size = size;
  pending = positive;
  handed = All-append (Sized n) s.dispatched ((l ∷ ls) ∷ []) handed ((omega arith, fits), tt);
}

flush_locked-IsBounded :
    (n : ℕ) (s : Sender)
    → s.batch_size ≡ pos n
    → 0 < n
    → length s.batch ≤ n
    → All (Sized n) s.dispatched
    → IsBounded n (flush_locked s)
unfolding flush_locked
flush_locked-IsBounded n s size positive fits handed =
    dispatch-IsBounded n s.batch s size refl positive fits handed

send-IsBounded : (n : ℕ) (l : Bytes) (s : Sender) → IsBounded n s → IsBounded n (send l s)
unfolding send
send-IsBounded n l s h =
    let s' : Sender = record s { batch = s.batch ++ (l ∷ []) } in
    let grown = length-append s.batch (l ∷ []) in
    elim (Bool-cases (reaches (length s'.batch) s'.batch_size)) [
      | inl e ↦ rw e (
          flush_locked-IsBounded n s' h.size (omega (arith, h.pending))
            (omega (arith, h.pending, grown)) h.handed)
      | inr e ↦ rw e (record {
        size = h.size;
        pending =
            (let e' : leb n (length (s.batch ++ (l ∷ []))) ≡ false = rw h.size at e in
              ground arith);
        handed = h.handed;
      })
    ]

flush-IsBounded : (n : ℕ) (s : Sender) → IsBounded n s → IsBounded n (flush s)
unfolding flush
flush-IsBounded n s h =
    flush_locked-IsBounded n s h.size (omega (arith, h.pending)) (omega (arith, h.pending)) h.handed

pub step-IsBounded : (n : ℕ) (e : Event) (s : Sender) → IsBounded n s → IsBounded n (step e s)
unfolding step
step-IsBounded n (line l) s h = send-IsBounded n l s h
step-IsBounded n tick s h = ground (arith, flush-IsBounded n s h)
step-IsBounded n stop_called s h = ground arith
step-IsBounded n loop_flushes s h = ground (arith, flush-IsBounded n s h)
step-IsBounded n loop_ends s h = ground arith

run-IsBounded : (n : ℕ) (es : List Event) (s : Sender) → IsBounded n s → IsBounded n (run es s)
unfolding run
run-IsBounded n [] s h = h
run-IsBounded n (e ∷ es) s h = run-IsBounded n es (step e s) (step-IsBounded n e s h)

-- The batch size that `NewHTTPSender` sets.
abbrev pub limit : ℤ → ℕ
limit (pos zero) = 1
limit (pos (suc n)) = suc n
limit (negsuc n) = 1

pub new-IsBounded :
    (url : Bytes) (size interval : ℤ) → IsBounded (limit size) (new_http_sender url size interval)
unfolding new_http_sender
new-IsBounded url (pos zero) interval = record { size = refl; pending = omega arith; handed = tt }
new-IsBounded url (pos (suc n)) interval = record {
  size = refl;
  pending = omega arith;
  handed = tt;
}
new-IsBounded url (negsuc n) interval = record { size = refl; pending = omega arith; handed = tt }

-- A sender of `NewHTTPSender`, whatever size it was given and whatever has happened: its pending
-- batch is shorter than the batch size, which is at least 1, and every batch that it handed over has
-- at least one line and at most as many as the batch size.
new-IsBounded-run :
    (url : Bytes) (size interval : ℤ) (es : List Event)
    → IsBounded (limit size) (run es (new_http_sender url size interval))
new-IsBounded-run url size interval es =
    run-IsBounded (limit size) es _ (new-IsBounded url size interval)
