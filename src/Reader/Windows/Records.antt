-- ===== src/Reader/Windows/Records.antt =====
-- The numbers of the records that are sent.
use tailpost.Base.{
  ℕ, zero, suc, ◌+◌, ◌≤◌, true, List, [], ◌∷◌, ◌++◌, ◌≡◌, refl, sym, ap, ◌∙◌, arith, length,
  length-append, map, if◌then◌else◌, subst,
}
use tailpost.Base.Int.{ℤ, pos}
use tailpost.Reader.Windows.{
  WindowsEvent, WindowsEventLogReader, get_latest_events, next_record, exceeds, max_int64, Round,
  Step, ticked, event_sent, send_given_up, see_stop, line_taken, stop_called, Reach, here, next,
  started,
}

abbrev pub record_ids : List WindowsEvent → List ℤ
record_ids es = map (λ (e : WindowsEvent). e.record_id) es

-- The numbers 1 to n.
abbrev pub first : ℕ → List ℤ
first zero = []
first (suc n) = first n ++ (pos (n + 1) ∷ [])

pub record IsNumbered (w : Round) : Type 0 where
  pub ids : record_ids w.sent ≡ first (length w.sent)
  pub last : w.last_record ≡ pos (length w.sent)

-- At most one event waits, with the next number.
abbrev IsNext : ℤ → List WindowsEvent → Type 0
IsNext last [] = Unit
IsNext last (e ∷ es) = (e.record_id ≡ next_record last) × (es ≡ [])

record_ids-append :
    (es fs : List WindowsEvent) → record_ids (es ++ fs) ≡ record_ids es ++ record_ids fs
record_ids-append [] fs = refl
record_ids-append (e ∷ es) fs = ap (λ (t : List ℤ). e.record_id ∷ t) (record_ids-append es fs)

next_lem : (n : ℕ) → suc n ≤ max_int64 → next_record (pos n) ≡ pos (n + 1)
next_lem n h = ground arith

exceeds_lem : (n : ℕ) → exceeds (pos (n + 1)) (pos n) ≡ true
exceeds_lem n = ground arith

-- What is known of a round: its numbers are right as long as they fit, and its event is the next one.
record IsCounted (w : Round) : Type 0 where
  numbered : length w.sent ≤ max_int64 → IsNumbered w
  is_next : IsNext w.last_record w.events

next_of :
    (last : ℤ) (es : List WindowsEvent) (e : WindowsEvent) (rest : List WindowsEvent)
    → IsNext last es
    → es ≡ e ∷ rest
    → (e.record_id ≡ next_record last) × (rest ≡ [])
next_of last es e rest h u = subst (IsNext last) u h

sent-IsNumbered :
    (w : Round) (e : WindowsEvent)
    → IsNumbered w
    → e.record_id ≡ next_record w.last_record
    → length (w.sent ++ (e ∷ [])) ≤ max_int64
    → (record_ids (w.sent ++ (e ∷ [])) ≡ first (length (w.sent ++ (e ∷ []))))
      × ((if exceeds e.record_id w.last_record then e.record_id else w.last_record)
          ≡ pos (length (w.sent ++ (e ∷ []))))
sent-IsNumbered w e h i bound =
    let n = length w.sent in
    let grown : length (w.sent ++ (e ∷ [])) ≡ suc n =
      omega (arith, length-append w.sent (e ∷ [])) in
    let id : e.record_id ≡ pos (n + 1) =
      i ∙ ap (λ (z : ℤ). next_record z) h.last ∙ next_lem n (omega (arith, bound, grown)) in
    let all : record_ids (w.sent ++ (e ∷ [])) ≡ first n ++ (pos (n + 1) ∷ []) =
      record_ids-append w.sent (e ∷ [])
      ∙ ap (λ (t : List ℤ). t ++ (e.record_id ∷ [])) h.ids
      ∙ ap (λ (z : ℤ). first n ++ (z ∷ [])) id in
    let above : exceeds e.record_id w.last_record ≡ true =
      ap (λ (z : ℤ). exceeds z w.last_record) id
      ∙ ap (λ (z : ℤ). exceeds (pos (n + 1)) z) h.last
      ∙ exceeds_lem n in
    (all ∙ ap first (sym grown), rw above (id ∙ ap pos (omega (arith, grown))))

Step-IsCounted : {r : WindowsEventLogReader} {v w : Round} → Step r v w → IsCounted v → IsCounted w
unfolding get_latest_events
Step-IsCounted (ticked w now p) h = record {
  numbered = λ b. record { ids = (h.numbered b).ids; last = (h.numbered b).last };
  is_next = (refl, refl);
}
Step-IsCounted (event_sent w e rest p u room) h =
    let (i, none_left) = next_of w.last_record w.events e rest h.is_next u in
    let before : length (w.sent ++ (e ∷ [])) ≤ max_int64 → IsNumbered w =
      λ b. h.numbered (omega (arith, b, length-append w.sent (e ∷ []))) in
    record {
      numbered = λ b. record {
        ids = (sent-IsNumbered w e (before b) i b).0;
        last = (sent-IsNumbered w e (before b) i b).1;
      };
      is_next = rw none_left tt;
    }
Step-IsCounted (send_given_up w p s) h = record {
  numbered = λ b. record { ids = (h.numbered b).ids; last = (h.numbered b).last };
  is_next = h.is_next;
}
Step-IsCounted (see_stop w p s) h = record {
  numbered = λ b. record { ids = (h.numbered b).ids; last = (h.numbered b).last };
  is_next = h.is_next;
}
Step-IsCounted (line_taken w l rest e) h = record {
  numbered = λ b. record { ids = (h.numbered b).ids; last = (h.numbered b).last };
  is_next = h.is_next;
}
Step-IsCounted (stop_called w) h = record {
  numbered = λ b. record { ids = (h.numbered b).ids; last = (h.numbered b).last };
  is_next = h.is_next;
}

Reach-IsCounted : {r : WindowsEventLogReader} {w : Round} → Reach r started w → IsCounted w
Reach-IsCounted here = record { numbered = λ b. record { ids = refl; last = refl }; is_next = tt }
Reach-IsCounted (next r s) = Step-IsCounted s (Reach-IsCounted r)

-- At every moment from `Start` on, the events whose lines were put on the channel have the record
-- numbers 1, 2, 3 and so on, without a gap and none twice, and the offset for the next round is
-- the last of them, as long as there are not more than an `int64` counts.
pub sent_records :
    {r : WindowsEventLogReader} {w : Round}
    → Reach r started w
    → length w.sent ≤ max_int64
    → (record_ids w.sent ≡ first (length w.sent)) × (w.last_record ≡ pos (length w.sent))
sent_records r b = let h = (Reach-IsCounted r).numbered b in (h.ids, h.last)
