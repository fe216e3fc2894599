-- ===== src/Operator/Conditions.antt =====
-- The conditions of the custom resource.
use tailpost.Base.{
  ℕ, List, [], ◌∷◌, ◌++◌, none, some, ◌≡◌, ◌≢◌, refl, arith, String, eqs, eq_iff, if◌then◌else◌,
  All, inl, inr, sym, ◌∙◌, Option-cases, Bool-cases, All-append,
}
use tailpost.Operator.{
  Condition, condition_type_available, condition_type_degraded, find_condition, write_condition,
  set_condition, remove_condition, available,
}

-- No two conditions have the same type.
abbrev pub Unique : List Condition → Type 0
Unique [] = Unit
Unique (c ∷ cs) = All (λ d. d.type ≢ c.type) cs × Unique cs

find-none :
    (t : String) (cs : List Condition) → All (λ d. d.type ≢ t) cs → find_condition t cs ≡ none
unfolding find_condition
find-none t [] h = refl
find-none t (c ∷ cs) h = ground (arith, eq_iff c.type t, h.0, find-none t cs h.1)

find-append :
    (t : String) (cs : List Condition) (d : Condition)
    → find_condition t cs ≡ none
    → find_condition t (cs ++ (d ∷ [])) ≡ (if eqs d.type t then some d else none)
unfolding find_condition
find-append t [] d h = refl
find-append t (c ∷ cs) d h = ground (arith, find-append t cs d)

find-append_other :
    (t : String) (cs : List Condition) (d : Condition)
    → d.type ≢ t
    → find_condition t (cs ++ (d ∷ [])) ≡ find_condition t cs
unfolding find_condition
find-append_other t [] d h = ground (arith, eq_iff d.type t, h)
find-append_other t (c ∷ cs) d h = ground (arith, find-append_other t cs d h)

find-write :
    (d c : Condition) (cs : List Condition)
    → find_condition d.type cs ≡ some c
    → find_condition d.type (write_condition d cs) ≡ some d
unfolding find_condition write_condition
find-write d c [] h = cc
find-write d c (e ∷ cs) h = ground (arith, eq_iff d.type d.type, find-write d c cs)

find-write_other :
    (t : String) (d : Condition) (cs : List Condition)
    → d.type ≢ t
    → find_condition t (write_condition d cs) ≡ find_condition t cs
unfolding find_condition write_condition
find-write_other t d [] h = refl
find-write_other t d (e ∷ cs) h =
    ground
      (arith, eq_iff e.type d.type, eq_iff e.type t, eq_iff d.type t, h, find-write_other t d cs h)

-- After `setCondition` the type has a condition with the status that was set, and the condition of
-- every other type is what it was.
find-set :
    (d : Condition) (cs : List Condition)
    → ((c : Condition) × (find_condition d.type (set_condition d cs) ≡ some c)
        × (c.status ≡ d.status))
      × ((t : String) → d.type ≢ t → find_condition t (set_condition d cs) ≡ find_condition t cs)
unfolding set_condition
find-set d cs = elim (Option-cases (find_condition d.type cs)) [
  | inl e ↦ (
    (d, ground (arith, e, find-append d.type cs d e, eq_iff d.type d.type), refl),
    λ t h. ground (arith, e, find-append_other t cs d h),
  )
  | inr (c, e) ↦ elim (Bool-cases (eqs c.status d.status)) [
    | inl s ↦ ((c, rw (e, s) e, (eq_iff c.status d.status).0 s), λ t h. rw (e, s) refl)
    | inr s ↦
        ((d, rw (e, s) (find-write d c cs e), refl), λ t h. rw (e, s) (find-write_other t d cs h))
  ]
]

-- Setting a condition whose status is already there changes nothing: a second failure keeps the
-- reason, the message and the time of the first.
set-set_status :
    (d e : Condition) (cs : List Condition)
    → e.type ≡ d.type
    → e.status ≡ d.status
    → set_condition e (set_condition d cs) ≡ set_condition d cs
unfolding set_condition
set-set_status d e cs t s =
    let ((c, found, same), others) = find-set d cs in
    ground (arith, t, s, found, same, eq_iff c.status e.status)

remove_absent :
    (t : String) (cs : List Condition) → Unique cs → All (λ d. d.type ≢ t) (remove_condition t cs)
unfolding remove_condition
remove_absent t [] u = tt
remove_absent t (c ∷ cs) u = elim (Bool-cases (eqs c.type t)) [
  | inl e ↦ rw e (let same = (eq_iff c.type t).0 e in rw same at u.0)
  | inr e ↦ rw e ((λ same. ground (arith, e, (eq_iff c.type t).1 same)), remove_absent t cs u.1)
]

Unique-append :
    (d : Condition) (cs : List Condition)
    → find_condition d.type cs ≡ none
    → Unique cs
    → Unique (cs ++ (d ∷ []))
unfolding find_condition
Unique-append d [] h u = (tt, tt)
Unique-append d (c ∷ cs) h u =
    let apart : d.type ≢ c.type = λ same. ground (arith, h, (eq_iff c.type d.type).1 (sym same)) in
    let absent : find_condition d.type cs ≡ none = ground (arith, h) in
    (All-append (λ x. x.type ≢ c.type) cs (d ∷ []) u.0 (apart, tt), Unique-append d cs absent u.1)

All-write :
    (t : String) (d : Condition) (cs : List Condition)
    → d.type ≢ t
    → All (λ x. x.type ≢ t) cs
    → All (λ x. x.type ≢ t) (write_condition d cs)
unfolding write_condition
All-write t d [] h a = tt
All-write t d (c ∷ cs) h a = elim (Bool-cases (eqs c.type d.type)) [
  | inl e ↦ rw e (h, a.1)
  | inr e ↦ rw e (a.0, All-write t d cs h a.1)
]

Unique-write : (d : Condition) (cs : List Condition) → Unique cs → Unique (write_condition d cs)
unfolding write_condition
Unique-write d [] u = tt
Unique-write d (c ∷ cs) u = elim (Bool-cases (eqs c.type d.type)) [
  | inl e ↦ rw e (let same = (eq_iff c.type d.type).0 e in (rw same at u.0, u.1))
  | inr e ↦
      let apart : d.type ≢ c.type =
        λ same. ground (arith, e, (eq_iff c.type d.type).1 (sym same)) in
      rw e (All-write c.type d cs apart u.0, Unique-write d cs u.1)
]

pub set-Unique : (d : Condition) (cs : List Condition) → Unique cs → Unique (set_condition d cs)
unfolding set_condition
set-Unique d cs u = elim (Option-cases (find_condition d.type cs)) [
  | inl e ↦ rw e (Unique-append d cs e u)
  | inr (c, e) ↦ elim (Bool-cases (eqs c.status d.status)) [
    | inl s ↦ rw (e, s) u
    | inr s ↦ rw (e, s) (Unique-write d cs u)
  ]
]

All-remove :
    (P : Condition → Type 0) (t : String) (cs : List Condition)
    → All P cs
    → All P (remove_condition t cs)
unfolding remove_condition
All-remove P t [] a = tt
All-remove P t (c ∷ cs) a = elim (Bool-cases (eqs c.type t)) [
  | inl e ↦ rw e a.1
  | inr e ↦ rw e (a.0, All-remove P t cs a.1)
]

pub remove-Unique : (t : String) (cs : List Condition) → Unique cs → Unique (remove_condition t cs)
unfolding remove_condition
remove-Unique t [] u = tt
remove-Unique t (c ∷ cs) u = elim (Bool-cases (eqs c.type t)) [
  | inl e ↦ rw e u.1
  | inr e ↦ rw e (All-remove (λ x. x.type ≢ c.type) t cs u.0, remove-Unique t cs u.1)
]

find-remove_other :
    (t u : String) (cs : List Condition)
    → u ≢ t
    → find_condition t (remove_condition u cs) ≡ find_condition t cs
unfolding find_condition remove_condition
find-remove_other t u [] h = refl
find-remove_other t u (c ∷ cs) h =
    ground (arith, eq_iff c.type u, eq_iff c.type t, h, find-remove_other t u cs h)

-- A reconciliation that succeeds leaves an agent whose conditions have distinct types without a `Degraded` condition, and with an `Available` condition of status `True`.
pub find-available :
    (now : ℕ) (cs : List Condition)
    → Unique cs
    → (find_condition condition_type_degraded (available now cs) ≡ none)
      × ((c : Condition) × (find_condition condition_type_available (available now cs) ≡ some c)
          × (c.status ≡ "True"))
unfolding available
find-available now cs u =
    let d : Condition = record {
      type = condition_type_available;
      status = "True";
      last_transition_time = now;
      reason = "AgentAvailable";
      message = "The agent is available";
    } in
    let ((c, found, same), others) = find-set d cs in
    (
      find-none condition_type_degraded _
          (remove_absent condition_type_degraded (set_condition d cs) (set-Unique d cs u)),
      (
        c,
        find-remove_other condition_type_available condition_type_degraded (set_condition d cs)
              (λ e. ground (arith, (eq_iff condition_type_degraded condition_type_available).1 e))
            ∙ found,
        same,
      ),
    )

-- Without a condition of the type there is nothing to remove.
pub remove_condition_idle :
    (t : String) (cs : List Condition) → find_condition t cs ≡ none → remove_condition t cs ≡ cs
unfolding find_condition remove_condition
remove_condition_idle t [] h = refl
remove_condition_idle t (c ∷ cs) h = ground (arith, remove_condition_idle t cs)
