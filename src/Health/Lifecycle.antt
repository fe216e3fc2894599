-- ===== src/Health/Lifecycle.antt =====
-- `Start`, `Stop` and `SetTLSConfig` of pkg/http/health.go, with the goroutine that opens the listener:
-- an interleaving is a list of events. The state is that of the `http.Server` that `Start` made
-- last, and the listeners that are still open of those it made before.
use tailpost.Base.{
  ℕ, suc, ◌≤◌, subst, sym, ◌∙◌, Bool, true, false, List, [], ◌∷◌, Option, none, some, ◌≡◌, ◌≢◌, ◌⊎◌,
  refl, arith, All, if◌then◌else◌,
}

-- `listener` is open with the TLS configuration that was set before, or with the default one;
-- `abandoned` are the open listeners of the servers that a later `Start` has replaced.
pub record Listening : Type 0 where
  pub made : Bool
  pub custom_tls : Bool
  pub closed : Bool
  pub listener : Option Bool
  pub abandoned : List Bool

pub data Event : Type 0 where
  -- `Start`, which returns nil before the listener is opened.
  start_called : Event
  -- `ListenAndServe` or `ListenAndServeTLS`, which opens the listener or fails; a failure is only logged.
  listens : Bool → Event
  -- `SetTLSConfig`, with a configuration or nil.
  tls_config_set : Bool → Event
  -- `Stop`: `Shutdown` closes the listener, whether or not its connections end in time.
  stop_called : Event

unfoldable pub created : Listening
created = record {
  made = false;
  custom_tls = false;
  closed = false;
  listener = none;
  abandoned = [];
}

-- The configuration is read once, when the listener is opened.
abbrev pub open_listener : Bool → Listening → Listening
open_listener false s = s
open_listener true s = record s { listener = some s.custom_tls }

-- A server that is replaced keeps its listener.
abbrev pub replaced : Option Bool → List Bool → List Bool
replaced none ls = ls
replaced (some l) ls = l ∷ ls

-- `Start` makes a server of the mux, and forgets the one that it had.
abbrev pub start : Listening → Listening
start s = record {
  made = true;
  custom_tls = false;
  closed = false;
  listener = none;
  abandoned = replaced s.listener s.abandoned;
}

-- `SetTLSConfig`.
abbrev pub set_tls_config : Bool → Listening → Listening
set_tls_config given s = if s.made then (if given then record s { custom_tls = true } else s) else s

-- `Stop`.
abbrev pub stop : Listening → Listening
stop s = if s.made then record s { closed = true; listener = none } else s

unfoldable pub step : Event → Listening → Listening
step start_called s = start s
step (listens binds) s = if s.made then (if s.closed then s else open_listener binds s) else s
step (tls_config_set given) s = set_tls_config given s
step stop_called s = stop s

unfoldable pub run : List Event → Listening → Listening
unfolding step
run [] s = s
run (e ∷ es) s = run es (step e s)

-- The error of `Stop`: only that of `Shutdown`, of a server that was made.
unfoldable pub stop_error : Bool → Listening → Bool
stop_error shutdown_fails s = if s.made then shutdown_fails else false

abbrev IsNoStart : Event → Type 0
IsNoStart e = e ≢ start_called

-- A server that is closed, or was never made, has no listener.
abbrev IsShut : Listening → Type 0
IsShut s = (s.listener ≡ none) × ((s.made ≡ false) ⊎ (s.closed ≡ true))

step-IsShut : (e : Event) (s : Listening) → IsNoStart e → IsShut s → IsShut (step e s)
unfolding step
step-IsShut start_called s h k = absurd (h refl)
step-IsShut (listens true) s h k = ground arith
step-IsShut (listens false) s h k = ground arith
step-IsShut (tls_config_set given) s h k = ground arith
step-IsShut stop_called s h k = ground arith

run-IsShut : (es : List Event) (s : Listening) → All IsNoStart es → IsShut s → IsShut (run es s)
unfolding run
run-IsShut [] s h k = k
run-IsShut (e ∷ es) s (h, hs) k = run-IsShut es (step e s) hs (step-IsShut e s h k)

-- A server that has no listener while it was not made.
abbrev IsMade : Listening → Type 0
IsMade s = s.made ≡ false → s.listener ≡ none

step-IsMade : (e : Event) (s : Listening) → IsMade s → IsMade (step e s)
unfolding step
step-IsMade start_called s k = λ h. refl
step-IsMade (listens true) s k = ground arith
step-IsMade (listens false) s k = ground arith
step-IsMade (tls_config_set given) s k = ground arith
step-IsMade stop_called s k = ground arith

run-IsMade : (es : List Event) (s : Listening) → IsMade s → IsMade (run es s)
unfolding run
run-IsMade [] s k = k
run-IsMade (e ∷ es) s k = run-IsMade es (step e s) (step-IsMade e s k)

stop-IsShut : (s : Listening) → IsMade s → IsShut (step stop_called s)
unfolding step
stop-IsShut s k = ground arith

-- How often `Start` is called.
abbrev pub starts : List Event → ℕ
starts [] = 0
starts (start_called ∷ es) = suc (starts es)
starts (listens b ∷ es) = starts es
starts (tls_config_set g ∷ es) = starts es
starts (stop_called ∷ es) = starts es

-- The starts that leave no listener behind.
abbrev allowed : Bool → ℕ
allowed true = 0
allowed false = 1

replaced-made :
    (s : Listening) → IsMade s → 1 ≤ allowed s.made → replaced s.listener s.abandoned ≡ s.abandoned
replaced-made s k h = go s.made refl
  where
    go : (b : Bool) → s.made ≡ b → replaced s.listener s.abandoned ≡ s.abandoned
    go false e = rw (k e) refl
    go true e = absurd (omega (arith, subst (λ (b : Bool). 1 ≤ allowed b) e h))

-- All other events leave them alone.
step-abandoned : (e : Event) (s : Listening) → IsNoStart e → (step e s).abandoned ≡ s.abandoned
unfolding step
step-abandoned start_called s h = absurd (h refl)
step-abandoned (listens true) s h = ground arith
step-abandoned (listens false) s h = ground arith
step-abandoned (tls_config_set given) s h = ground arith
step-abandoned stop_called s h = ground arith

step-made : (e : Event) (s : Listening) → IsNoStart e → (step e s).made ≡ s.made
unfolding step
step-made start_called s h = absurd (h refl)
step-made (listens true) s h = ground arith
step-made (listens false) s h = ground arith
step-made (tls_config_set given) s h = ground arith
step-made stop_called s h = ground arith

-- The rest of the events, behind one that is no start.
behind :
    (e : Event) (es : List Event) (s : Listening)
    → IsNoStart e
    → IsMade s
    → starts es ≤ allowed s.made
    → ((t : Listening) → IsMade t → starts es ≤ allowed t.made → (run es t).abandoned ≡ t.abandoned)
    → (run es (step e s)).abandoned ≡ s.abandoned
behind e es s n k h rest =
    rest (step e s) (step-IsMade e s k)
      (subst (λ (b : Bool). starts es ≤ allowed b) (sym (step-made e s n)) h)
    ∙ step-abandoned e s n

allowed-least : (b : Bool) → allowed b ≤ 1
allowed-least true = omega arith
allowed-least false = omega arith

run-abandoned :
    (es : List Event) (s : Listening)
    → IsMade s
    → starts es ≤ allowed s.made
    → (run es s).abandoned ≡ s.abandoned
unfolding run step
run-abandoned [] s k h = refl
run-abandoned (start_called ∷ es) s k h =
    run-abandoned es (start s) (λ e. refl) (omega (arith, h, allowed-least s.made))
    ∙ replaced-made s k (omega (arith, h))
run-abandoned (listens b ∷ es) s k h =
    behind (listens b) es s (λ x. ground arith) k h (run-abandoned es)
run-abandoned (tls_config_set g ∷ es) s k h =
    behind (tls_config_set g) es s (λ x. ground arith) k h (run-abandoned es)
run-abandoned (stop_called ∷ es) s k h =
    behind stop_called es s (λ x. ground arith) k h (run-abandoned es)

no_start-abandoned :
    (es : List Event) (s : Listening) → All IsNoStart es → (run es s).abandoned ≡ s.abandoned
unfolding run
no_start-abandoned [] s h = refl
no_start-abandoned (e ∷ es) s (h, hs) = no_start-abandoned es (step e s) hs ∙ step-abandoned e s h

created-abandoned : (es : List Event) → starts es ≤ 1 → (run es created).abandoned ≡ []
unfolding created
created-abandoned es h = run-abandoned es created (λ e. refl) h

-- A stop is final for the server that was made last: whatever has happened before, also when the
-- goroutine of `Start` had not yet opened the listener, after `Stop` that server has no listener, and
-- opens none until `Start` is called again. The open listeners of servers that an earlier `Start` made
-- stay open; if `Start` was called at most once there are none, so that no listener is open.
pub stop_final :
    (es fs : List Event)
    → All (λ (e : Event). e ≢ start_called) fs
    → ((run fs (step stop_called (run es created))).listener ≡ none)
      × ((run fs (step stop_called (run es created))).abandoned ≡ (run es created).abandoned)
      × (starts es ≤ 1 → (run fs (step stop_called (run es created))).abandoned ≡ [])
unfolding created
stop_final es fs h =
    let same =
      no_start-abandoned fs (step stop_called (run es created)) h
      ∙ step-abandoned stop_called (run es created) (λ x. ground arith) in
    (
      (run-IsShut fs _ h (stop-IsShut (run es created) (run-IsMade es created (λ e. refl)))).0,
      same,
      λ n. same ∙ created-abandoned es n,
    )

-- A TLS configuration that is set while the listener is open has no effect on it.
late_tls_config :
    (s : Listening) (given : Bool) → (step (tls_config_set given) s).listener ≡ s.listener
unfolding step
late_tls_config s given = ground arith
