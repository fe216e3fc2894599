-- ===== src/Agent/Pipeline/Flow.antt =====
-- The way of the lines through the agent.
use mathlib.Core.List.{append_assoc, append-nil}
use tailpost.Base.{
  ℕ, Bool, false, List, [], ◌∷◌, ◌++◌, ◌≡◌, refl, sym, ap, ◌∙◌, arith, Bytes, bytes, length,
  length-append, none,
}
use tailpost.Http.{Request}
use tailpost.Health.{HealthServer, serve, set_ready}
use tailpost.Health.Access.{ready_status}
use tailpost.Sender.{Sender, Event, line, tick, stop_called, loop_flushes, loop_ends, step}
use tailpost.Sender.Batches.{accepted, lines_of, accepted-step}
use tailpost.Agent.Pipeline.{
  Program, agent_main, agent_single, Pipeline, Step, line_read, line_processed, channel_ended,
  processing_cancelled, sender_ticks, sender_flushes, sender_ends, started, signalled, reader_ended,
  reader_stopped, sender_stop_called, sender_stopped, health_stopped, processing_awaited, timed_out,
  Reach, here, next, initial,
}

-- All lines, by how far they are: accepted by the sender, on the channel, not read.
abbrev pub flow : Pipeline → List Bytes
flow w = accepted w.sender ++ (w.queue ++ w.unread)

silent-step : (e : Event) (s : Sender) → lines_of (e ∷ []) ≡ [] → accepted (step e s) ≡ accepted s
silent-step e s h = accepted-step e s ∙ rw h (append-nil (accepted s))

Step-flow : {p : Program} {closes : Bool} {v w : Pipeline} → Step p closes v w → flow w ≡ flow v
Step-flow (line_read w l rest r u h) =
    ap (λ (t : List Bytes). accepted w.sender ++ t)
      (append_assoc w.queue (l ∷ []) rest ∙ ap (λ (t : List Bytes). w.queue ++ t) (sym u))
Step-flow (line_processed w l rest r e) =
    ap (λ (t : List Bytes). t ++ (rest ++ w.unread)) (accepted-step (line l) w.sender)
    ∙ append_assoc (accepted w.sender) (l ∷ []) (rest ++ w.unread)
    ∙ ap (λ (t : List Bytes). accepted w.sender ++ (t ++ w.unread)) (sym e)
Step-flow (channel_ended w r e c) = refl
Step-flow (processing_cancelled w r c) = refl
Step-flow (sender_ticks w) =
    ap (λ (t : List Bytes). t ++ (w.queue ++ w.unread)) (silent-step tick w.sender refl)
Step-flow (sender_flushes w) =
    ap (λ (t : List Bytes). t ++ (w.queue ++ w.unread)) (silent-step loop_flushes w.sender refl)
Step-flow (sender_ends w) =
    ap (λ (t : List Bytes). t ++ (w.queue ++ w.unread)) (silent-step loop_ends w.sender refl)
Step-flow (started w e) = refl
Step-flow (signalled w e) = refl
Step-flow (reader_ended w r) = refl
Step-flow (reader_stopped w b e r c) = refl
Step-flow (sender_stop_called w e) =
    ap (λ (t : List Bytes). t ++ (w.queue ++ w.unread)) (silent-step stop_called w.sender refl)
Step-flow (sender_stopped w e s) = refl
Step-flow (health_stopped w e) = refl
Step-flow (processing_awaited w e s) = refl
Step-flow (timed_out w e s) = refl

-- In every interleaving of the agent's goroutines, at every moment from the start to the end of the
-- shutdown, in both programs: the lines that the sender has accepted, those on the channel and those
-- not read yet are together what they were at first. No line is lost, doubled or moved on the way.
pub Reach-flow :
    {p : Program} {closes : Bool} {v w : Pipeline} → Reach p closes v w → flow w ≡ flow v
Reach-flow here = refl
Reach-flow (next r s) = Step-flow s ∙ Reach-flow r

Step-health : {closes : Bool} {v w : Pipeline} → Step agent_main closes v w → w.health ≡ v.health
Step-health (line_read w l rest r u h) = refl
Step-health (line_processed w l rest r e) = refl
Step-health (channel_ended w r e c) = refl
Step-health (processing_cancelled w r c) = refl
Step-health (sender_ticks w) = refl
Step-health (sender_flushes w) = refl
Step-health (sender_ends w) = refl
Step-health (started w e) = refl
Step-health (signalled w e) = refl
Step-health (reader_ended w r) = refl
Step-health (reader_stopped w b e r c) = refl
Step-health (sender_stop_called w e) = refl
Step-health (sender_stopped w e s) = refl
Step-health (health_stopped w e) = refl
Step-health (processing_awaited w e s) = refl
Step-health (timed_out w e s) = refl

Reach-health : {closes : Bool} {v w : Pipeline} → Reach agent_main closes v w → w.health ≡ v.health
Reach-health here = refl
Reach-health (next r s) = Step-health s ∙ Reach-health r

not_ready :
    (s : HealthServer) (now : Bytes) (r : Request)
    → s.ready ≡ false
    → s.auth_provider ≡ none
    → r.url ≡ bytes "/ready"
    → (serve s now r).status ≡ 503
unfolding set_ready
not_ready s now r h open_to_all at =
    let same : s ≡ set_ready false s = ap (λ (b : Bool). record s { ready = b }) h in
    ap (λ (t : HealthServer). (serve t now r).status) same
    ∙ ready_status s now false r open_to_all at

-- The agent of cmd/agent/main.go is never ready: at every moment it answers `/ready` with 503, so
-- that a readiness probe never passes. (The health server is new, and asks for no authentication.)
pub agent_main_never_ready :
    (closes : Bool) (lines : List Bytes) (sender : Sender) (health : HealthServer) (w : Pipeline)
    (now : Bytes) (r : Request)
    → health.ready ≡ false
    → health.auth_provider ≡ none
    → Reach agent_main closes (initial lines sender health) w
    → r.url ≡ bytes "/ready"
    → (serve w.health now r).status ≡ 503
agent_main_never_ready closes lines sender health w now r unready open_to_all reach at =
    ap (λ (s : HealthServer). (serve s now r).status) (Reach-health reach)
    ∙ not_ready health now r unready open_to_all at

-- The counter is the number of the lines that the sender has accepted.
abbrev IsCounted : Pipeline → Type 0
IsCounted w = w.sent_total ≡ length (accepted w.sender)

silent-IsCounted :
    (e : Event) (n : ℕ) (s : Sender)
    → lines_of (e ∷ []) ≡ []
    → n ≡ length (accepted s)
    → n ≡ length (accepted (step e s))
silent-IsCounted e n s h c = c ∙ ap (λ (ls : List Bytes). length ls) (sym (silent-step e s h))

Step-IsCounted :
    {closes : Bool} {v w : Pipeline} → Step agent_single closes v w → IsCounted v → IsCounted w
Step-IsCounted (line_read w l rest r u h) c = c
Step-IsCounted (line_processed w l rest r e) c =
    let grown : length (accepted (step (line l) w.sender))
        ≡ length (accepted w.sender ++ (l ∷ [])) =
      ap (λ (ls : List Bytes). length ls) (accepted-step (line l) w.sender) in
    omega (arith, grown, length-append (accepted w.sender) (l ∷ []))
Step-IsCounted (channel_ended w r e d) c = c
Step-IsCounted (processing_cancelled w r d) c = c
Step-IsCounted (sender_ticks w) c = silent-IsCounted tick w.sent_total w.sender refl c
Step-IsCounted (sender_flushes w) c = silent-IsCounted loop_flushes w.sent_total w.sender refl c
Step-IsCounted (sender_ends w) c = silent-IsCounted loop_ends w.sent_total w.sender refl c
Step-IsCounted (started w e) c = c
Step-IsCounted (signalled w e) c = c
Step-IsCounted (reader_ended w r) c = c
Step-IsCounted (reader_stopped w b e r k) c = c
Step-IsCounted (sender_stop_called w e) c =
    silent-IsCounted stop_called w.sent_total w.sender refl c
Step-IsCounted (sender_stopped w e s) c = c
Step-IsCounted (health_stopped w e) c = c
Step-IsCounted (processing_awaited w e s) c = c
Step-IsCounted (timed_out w e s) c = c

-- In cmd/agent.go the counter of the lines "sent successfully" is, at every moment, the number of
-- lines that the sender has accepted, whether they are still pending and whether the server took them.
pub sent_total-eq-length :
    {closes : Bool} {v w : Pipeline}
    → Reach agent_single closes v w
    → v.sent_total ≡ length (accepted v.sender)
    → w.sent_total ≡ length (accepted w.sender)
sent_total-eq-length here c = c
sent_total-eq-length (next r s) c = Step-IsCounted s (sent_total-eq-length r c)
