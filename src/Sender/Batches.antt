-- ===== src/Sender/Batches.antt =====
-- No line is lost, duplicated or reordered on its way into the batches.
use mathlib.Core.List.{append_assoc, append-nil}
use tailpost.Base.{
  List, [], ◌∷◌, ◌++◌, flatten, ◌≡◌, refl, sym, ap, ◌∙◌, arith, Bytes, length, Bool-cases, inl, inr,
}
use tailpost.Sender.{
  Sender, Event, line, tick, stop_called, loop_flushes, loop_ends, reaches, flush_locked, send,
  step, run, dispatch,
}

-- Every line that the sender holds or has handed over, in order.
abbrev pub accepted : Sender → List Bytes
accepted s = flatten s.dispatched ++ s.batch

-- The lines that the events send.
abbrev pub lines_of : List Event → List Bytes
lines_of [] = []
lines_of (line l ∷ es) = l ∷ lines_of es
lines_of (tick ∷ es) = lines_of es
lines_of (stop_called ∷ es) = lines_of es
lines_of (loop_flushes ∷ es) = lines_of es
lines_of (loop_ends ∷ es) = lines_of es

pub flatten-concat :
    (bs : List (List Bytes)) (b : List Bytes) → flatten (bs ++ (b ∷ [])) ≡ flatten bs ++ b
unfolding flatten
flatten-concat [] b = append-nil b
flatten-concat (x ∷ bs) b = rw (flatten-concat bs b) (sym (append_assoc x _ b))

accepted-dispatch :
    (b : List Bytes) (s : Sender) → s.batch ≡ b → accepted (dispatch b s) ≡ accepted s
accepted-dispatch [] s e = refl
accepted-dispatch (l ∷ ls) s e = rw (flatten-concat, e) (append-nil _)

pub accepted-flush_locked : (s : Sender) → accepted (flush_locked s) ≡ accepted s
unfolding flush_locked
accepted-flush_locked s = accepted-dispatch s.batch s refl

accepted-send : (l : Bytes) (s : Sender) → accepted (send l s) ≡ accepted s ++ (l ∷ [])
unfolding send
accepted-send l s = elim (Bool-cases (reaches (length (s.batch ++ (l ∷ []))) s.batch_size)) [
  | inl e ↦ rw (e, accepted-flush_locked) (rw append_assoc)
  | inr e ↦ rw e (rw append_assoc)
]

pub accepted-step : (e : Event) (s : Sender) → accepted (step e s) ≡ accepted s ++ lines_of (e ∷ [])
unfolding step
accepted-step (line l) s = accepted-send l s
accepted-step tick s = rw append-nil (ground (arith, accepted-flush_locked s))
accepted-step stop_called s = rw append-nil (ground arith)
accepted-step loop_flushes s = rw append-nil (ground (arith, accepted-flush_locked s))
accepted-step loop_ends s = rw append-nil (ground arith)

lines_of-cons : (e : Event) (es : List Event) → lines_of (e ∷ es) ≡ lines_of (e ∷ []) ++ lines_of es
lines_of-cons (line l) es = refl
lines_of-cons tick es = refl
lines_of-cons stop_called es = refl
lines_of-cons loop_flushes es = refl
lines_of-cons loop_ends es = refl

-- Whatever happens in whatever order, the batches handed over and the pending batch hold, one after
-- another, exactly the lines that were there and the lines sent since, in the order of sending.
pub run-accepted : (es : List Event) (s : Sender) → accepted (run es s) ≡ accepted s ++ lines_of es
unfolding run
run-accepted [] s = sym (append-nil _)
run-accepted (e ∷ es) s =
    run-accepted es (step e s)
    ∙ rw (accepted-step e s, append_assoc) (ap (◌++◌ (accepted s)) (sym (lines_of-cons e es)))
