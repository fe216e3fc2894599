-- ===== src/Reader/MacOs/Lines.antt =====
-- The lines of the command on their way to the channel.
use mathlib.Core.List.{append_assoc, append-nil}
use tailpost.Base.{
  Bool, true, false, List, [], ◌∷◌, ◌++◌, ◌≡◌, ◌≢◌, refl, arith, sym, ap, ◌∙◌, Bytes, if◌then◌else◌,
  Bool-cases, inl, inr,
}
use tailpost.Reader.Stopping.{exited}
use tailpost.Reader.MacOs.{
  is_blank, reported, Stream, Step, command_writes, command_ends, blank_skipped, line_scanned,
  line_sent, send_given_up, scan_ended, scan_failed, line_taken, stop_called, Reach, here, next,
  started,
}

-- The lines that are not blank.
abbrev pub nonblank : List Bytes → List Bytes
nonblank [] = []
nonblank (l ∷ ls) = let rest = nonblank ls in if is_blank l then rest else (l ∷ rest)

nonblank-append : (xs ys : List Bytes) → nonblank (xs ++ ys) ≡ nonblank xs ++ nonblank ys
nonblank-append [] ys = refl
nonblank-append (x ∷ xs) ys = elim (Bool-cases (is_blank x)) [
  | inl b ↦ rw b (nonblank-append xs ys)
  | inr b ↦ rw b (ap (λ (t : List Bytes). x ∷ t) (nonblank-append xs ys))
]

skipped : (l : Bytes) (rest : List Bytes) → is_blank l ≡ true → nonblank (l ∷ rest) ≡ nonblank rest
skipped l rest b = rw b refl

kept :
    (l : Bytes) (rest : List Bytes) → is_blank l ≡ false → nonblank (l ∷ rest) ≡ l ∷ nonblank rest
kept l rest b = rw b refl

abbrev IsAccounted : Stream → Type 0
IsAccounted w = w.sent ++ (w.line ++ nonblank w.unread) ≡ nonblank w.written

Step-IsAccounted : {quiet : Bool} {v w : Stream} → Step quiet v w → IsAccounted v → IsAccounted w
Step-IsAccounted (command_writes w l q e) h =
    ap (λ (t : List Bytes). w.sent ++ (w.line ++ t)) (nonblank-append w.unread (l ∷ []))
    ∙ ap (λ (t : List Bytes). w.sent ++ t)
        (sym (append_assoc w.line (nonblank w.unread) (nonblank (l ∷ []))))
    ∙ sym (append_assoc w.sent (w.line ++ nonblank w.unread) (nonblank (l ∷ [])))
    ∙ ap (λ (t : List Bytes). t ++ nonblank (l ∷ [])) h
    ∙ sym (nonblank-append w.written (l ∷ []))
Step-IsAccounted (command_ends w q) h = h
Step-IsAccounted (blank_skipped w l rest p u b) h =
    ap (λ (t : List Bytes). w.sent ++ (w.line ++ t)) (sym (skipped l rest b) ∙ ap nonblank (sym u))
    ∙ h
Step-IsAccounted (line_scanned w l rest p e u b) h =
    ap (λ (t : List Bytes). w.sent ++ t) (sym (kept l rest b) ∙ ap nonblank (sym u))
    ∙ ap (λ (t : List Bytes). w.sent ++ (t ++ nonblank w.unread)) (sym e)
    ∙ h
Step-IsAccounted (line_sent w l p e r) h =
    append_assoc w.sent (l ∷ []) (nonblank w.unread)
    ∙ ap (λ (t : List Bytes). w.sent ++ (t ++ nonblank w.unread)) (sym e)
    ∙ h
Step-IsAccounted (send_given_up w p s) h = h
Step-IsAccounted (scan_ended w p u e) h = h
Step-IsAccounted (scan_failed w t q p) h = h
Step-IsAccounted (line_taken w l rest e) h = h
Step-IsAccounted (stop_called w) h = h

-- Everything that was put on the channel was taken from it or is on it: the lines that were sent, and
-- the report behind them, which the goroutine leaves when it exits.
record IsOnChannel (w : Stream) : Type 0 where
  pub all : w.taken ++ w.queue ≡ w.sent ++ w.report
  pub unreported : w.phase ≢ exited → w.report ≡ []

put : (t q s r x : List Bytes) → t ++ q ≡ s ++ r → r ≡ [] → t ++ (q ++ x) ≡ s ++ x
put t q s r x h e =
    sym (append_assoc t q x)
    ∙ ap (λ (y : List Bytes). y ++ x) (h ∙ ap (λ (y : List Bytes). s ++ y) e)
    ∙ append_assoc s [] x

Step-IsOnChannel : {quiet : Bool} {v w : Stream} → Step quiet v w → IsOnChannel v → IsOnChannel w
Step-IsOnChannel (command_writes w l q e) h = record { all = h.all; unreported = h.unreported }
Step-IsOnChannel (command_ends w q) h = record { all = h.all; unreported = h.unreported }
Step-IsOnChannel (blank_skipped w l rest p u b) h = record {
  all = h.all;
  unreported = h.unreported;
}
Step-IsOnChannel (line_scanned w l rest p e u b) h =
    let none_yet = h.unreported (λ x. ground arith) in
    record { all = h.all; unreported = λ x. none_yet }
Step-IsOnChannel (line_sent w l p e r) h =
    let none_yet = h.unreported (λ x. ground arith) in
    record {
      all =
          put w.taken w.queue w.sent w.report (l ∷ []) h.all none_yet
          ∙ sym (append-nil _)
          ∙ ap (λ (y : List Bytes). (w.sent ++ (l ∷ [])) ++ y) (sym none_yet);
      unreported = λ x. none_yet;
    }
Step-IsOnChannel (send_given_up w p s) h = record { all = h.all; unreported = λ x. absurd (x refl) }
Step-IsOnChannel (scan_ended w p u e) h = record { all = h.all; unreported = λ x. absurd (x refl) }
Step-IsOnChannel (scan_failed w t q p) h =
    let none_yet = h.unreported (λ x. ground arith) in
    record {
      all = put w.taken w.queue w.sent w.report (reported t w) h.all none_yet;
      unreported = λ x. absurd (x refl);
    }
Step-IsOnChannel (line_taken w l rest e) h = record {
  all = append_assoc w.taken (l ∷ []) rest ∙ ap (λ (y : List Bytes). w.taken ++ y) (sym e) ∙ h.all;
  unreported = h.unreported;
}
Step-IsOnChannel (stop_called w) h = record { all = h.all; unreported = h.unreported }

started-IsOnChannel : IsOnChannel started
started-IsOnChannel = record { all = refl; unreported = λ x. refl }

Reach-IsOnChannel : {quiet : Bool} {w : Stream} → Reach quiet started w → IsOnChannel w
Reach-IsOnChannel here = started-IsOnChannel
Reach-IsOnChannel (next r s) = Step-IsOnChannel s (Reach-IsOnChannel r)

Reach-IsAccounted : {quiet : Bool} {w : Stream} → Reach quiet started w → IsAccounted w
Reach-IsAccounted here = refl
Reach-IsAccounted (next r s) = Step-IsAccounted s (Reach-IsAccounted r)

-- At every moment from `Start` on, whatever the command writes and whether or not `Stop` is called,
-- what was taken from the channel and what is on it are together the lines that were sent, in their
-- order, and behind them the report of the scanner's error, which is not there while the goroutine has
-- not exited; and the lines sent, the line that is being sent and the lines not read yet that are not
-- blank are together the lines of the command that are not blank, each once and in their order.
pub sent_lines :
    {quiet : Bool} (w : Stream)
    → Reach quiet started w
    → (w.taken ++ w.queue ≡ w.sent ++ w.report)
      × (w.phase ≢ exited → w.report ≡ [])
      × (w.sent ++ (w.line ++ nonblank w.unread) ≡ nonblank w.written)
sent_lines w r = let h = Reach-IsOnChannel r in (h.all, h.unreported, Reach-IsAccounted r)
