-- ===== src/Agent/Pipeline/Metrics.antt =====
-- What the agent's /metrics shows. The counters of cmd/agent.go are registered with a handler on the
-- default mux of net/http, which no server of the agent uses; the health server has its own.
use tailpost.Base.{Bool, List, Option, Bytes, bytes, equal, length, ◌≡◌, refl, sym, ap, ◌∙◌}
use tailpost.Http.{Request}
use tailpost.Health.{HealthServer, serve, set_ready, with_auth, metrics_handler}
use tailpost.Security.Auth.{AuthProvider}
use tailpost.Sender.{Sender}
use tailpost.Sender.Batches.{accepted}
use tailpost.Agent.Pipeline.{
  agent_single, Pipeline, Step, line_read, line_processed, channel_ended, processing_cancelled,
  sender_ticks, sender_flushes, sender_ends, reader_ended, started, signalled, reader_stopped,
  sender_stop_called, sender_stopped, health_stopped, processing_awaited, timed_out, Reach, here,
  next, initial,
}
use tailpost.Agent.Pipeline.Flow.{sent_total-eq-length}

Step-provider :
    {closes : Bool} {v w : Pipeline}
    → Step agent_single closes v w
    → w.health.auth_provider ≡ v.health.auth_provider
unfolding set_ready
Step-provider (line_read w l rest r u h) = refl
Step-provider (line_processed w l rest r e) = refl
Step-provider (channel_ended w r e c) = refl
Step-provider (processing_cancelled w r c) = refl
Step-provider (sender_ticks w) = refl
Step-provider (sender_flushes w) = refl
Step-provider (sender_ends w) = refl
Step-provider (started w e) = refl
Step-provider (signalled w e) = refl
Step-provider (reader_ended w r) = refl
Step-provider (reader_stopped w b e r c) = refl
Step-provider (sender_stop_called w e) = refl
Step-provider (sender_stopped w e s) = refl
Step-provider (health_stopped w e) = refl
Step-provider (processing_awaited w e s) = refl
Step-provider (timed_out w e s) = refl

Reach-provider :
    {closes : Bool} {v w : Pipeline}
    → Reach agent_single closes v w
    → w.health.auth_provider ≡ v.health.auth_provider
Reach-provider here = refl
Reach-provider (next r s) = Step-provider s ∙ Reach-provider r

serve-metrics :
    (s : HealthServer) (now : Bytes) (r : Request)
    → r.url ≡ bytes "/metrics"
    → serve s now r ≡ with_auth s.auth_provider metrics_handler r
unfolding serve equal
serve-metrics s now r at = rw at refl

-- The counter of the lines never reaches /metrics: at every moment of a run of cmd/agent.go the counter
-- is the number of the lines that the sender has accepted, while the answer to a request for /metrics
-- is the one of the start, whatever the lines and whoever asks.
pub metrics_blind :
    (closes : Bool) (lines : List Bytes) (sender : Sender) (health : HealthServer) (w : Pipeline)
    (now later : Bytes) (r : Request)
    → length (accepted sender) ≡ 0
    → Reach agent_single closes (initial lines sender health) w
    → r.url ≡ bytes "/metrics"
    → (w.sent_total ≡ length (accepted w.sender)) × (serve w.health now r ≡ serve health later r)
metrics_blind closes lines sender health w now later r new reach at = (
  sent_total-eq-length reach (sym new),
  serve-metrics w.health now r at
      ∙ ap (λ (p : Option AuthProvider). with_auth p metrics_handler r) (Reach-provider reach)
      ∙ sym (serve-metrics health later r at),
)
