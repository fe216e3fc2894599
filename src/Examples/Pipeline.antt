-- ===== src/Examples/Pipeline.antt =====
-- The theorems on the agent's goroutines, on short runs.
use tailpost.Base.{
  true, false, not, List, ◌++◌, ◌&&◌, [], ◌∷◌, none, some, ◌≡◌, refl, arith, String, Bytes, bytes,
  if◌then◌else◌, flatten,
}
use tailpost.Base.Int.{pos}
use tailpost.Config.{Config, default_telemetry_config}
use tailpost.Config.Load.{or_default}
use tailpost.Health.{serve, set_ready}
use tailpost.Sender.{
  Sender, new_http_sender, send, send_with_context, step, stop, flush, flush_locked, line,
  stop_called, loop_flushes, loop_ends,
}
use tailpost.Sender.Batches.{accepted}
use tailpost.Telemetry.{Sdk}
use tailpost.Telemetry.Tracers.{is_known}
use tailpost.Agent.Setup.{setup_telemetry_single, send_line}
use tailpost.Agent.Setup.Panics.{telemetry_panics}
use tailpost.Agent.Pipeline.{
  Program, agent_main, agent_single, Pipeline, finished, next_phase, line_read, line_processed,
  processing_cancelled, sender_flushes, sender_ends, reader_ended, started, signalled,
  reader_stopped, sender_stop_called, sender_stopped, health_stopped, processing_awaited, Reach,
  here, next, initial,
}
use tailpost.Agent.Pipeline.Flow.{flow, Reach-flow, agent_main_never_ready}
use tailpost.Agent.Pipeline.Delivery.{accepted_handed_over}
use tailpost.Agent.Pipeline.Shutdown.{shutdown_completes}
use tailpost.Examples.Agent.{open_server, probe, now, loaded_of}

abbrev pub sender : Sender
sender = new_http_sender (bytes "http://logs") (pos 10) (pos 5000000000)

abbrev pub entry : Bytes
entry = bytes "GET /"

-- Two lines, of which the first is read and processed.
abbrev pub begun : Program → Pipeline
begun p = initial (entry ∷ bytes "PUT /" ∷ []) sender open_server

abbrev pub later : Program → Pipeline
later agent_main = record (begun agent_main) {
  unread = bytes "PUT /" ∷ [];
  sender = step (line entry) sender;
}
later agent_single = record (begun agent_single) {
  unread = bytes "PUT /" ∷ [];
  sender = step (line entry) sender;
  sent_total = 1;
}

pub run : (p : Program) → Reach p false (begun p) (later p)
run agent_main =
    next (next here (line_read _ entry (bytes "PUT /" ∷ []) refl refl (omega arith)))
      (line_processed _ entry [] refl refl)
run agent_single =
    next (next here (line_read _ entry (bytes "PUT /" ∷ []) refl refl (omega arith)))
      (line_processed _ entry [] refl refl)

Reach-flow_example : flow (later agent_main) ≡ flow (begun agent_main)
Reach-flow_example = Reach-flow (run agent_main)

abbrev stopped_sender : Sender
stopped_sender = step loop_ends (step loop_flushes (step stop_called (step (line entry) sender)))

-- The end of a run of cmd/agent.go: a signal, and every part is stopped.
abbrev ended : Pipeline
ended = record (later agent_single) {
  sender = stopped_sender;
  health = set_ready false (set_ready true open_server);
  reading = false;
  processing = false;
  cancelled = true;
  phase = finished;
}

ended-Reach : Reach agent_single false (later agent_single) ended
unfolding next_phase new_http_sender step stop flush flush_locked send send_with_context set_ready
ended-Reach =
    let signal = next (next here (started (later agent_single) refl)) (signalled _ refl) in
    let health = next signal (health_stopped _ refl) in
    let told =
      next (next (next health (sender_stop_called _ refl)) (sender_flushes _)) (sender_ends _) in
    let left = next (next told (sender_stopped _ refl refl)) (reader_ended _ refl) in
    let reader = next left (reader_stopped _ false refl refl (λ x. x)) in
    next (next reader (processing_cancelled _ refl refl)) (processing_awaited _ refl refl)

sender_open : (later agent_single).sender.stopped_closed ≡ false
unfolding new_http_sender step send send_with_context flush_locked
sender_open = refl

sender_runs : (later agent_single).sender.loop_flushed ≡ false
unfolding new_http_sender step send send_with_context flush_locked
sender_runs = refl

accepted_handed_over_example :
    (late : List Bytes) × (flatten ended.sender.dispatched
      ≡ accepted (later agent_single).sender ++ late)
accepted_handed_over_example =
    accepted_handed_over agent_single false (entry ∷ bytes "PUT /" ∷ []) sender open_server
      (later agent_single) ended (run agent_single) sender_open sender_runs ended-Reach refl

agent_main_never_ready_example :
    (serve (later agent_main).health now (probe (bytes "/ready"))).status ≡ 503
agent_main_never_ready_example =
    agent_main_never_ready false (entry ∷ bytes "PUT /" ∷ []) sender open_server (later agent_main)
      now (probe (bytes "/ready")) refl refl (run agent_main) refl

abbrev left : Pipeline
left = record (later agent_single) { reading = false }

left-Reach : Reach agent_single false (initial (entry ∷ bytes "PUT /" ∷ []) sender open_server) left
left-Reach = next (run agent_single) (reader_ended _ refl)

shutdown_completes_example :
    (left.phase ≡ finished → left.reading ≡ false)
    × (left.reading ≡ false
        → (v : Pipeline) × Reach agent_single false left v × (v.phase ≡ finished))
shutdown_completes_example =
    shutdown_completes agent_single false (entry ∷ bytes "PUT /" ∷ []) sender open_server left
      left-Reach

abbrev pub sdk : Sdk
sdk = record {
  Tracer = String;
  new_resource = λ attributes. true;
  new_exporter = λ p endpoint headers. true;
  provider_tracer = λ c. c.service_name;
  noop_tracer = "";
}

abbrev zipkin : Config
zipkin = record (loaded_of "file" "/var/log/syslog") {
  telemetry = record default_telemetry_config { enabled = true; exporter_type = "zipkin" };
}

telemetry_panics_example : send_line sdk (setup_telemetry_single sdk zipkin) entry sender ≡ (
    if true && not (is_known (or_default "zipkin" "grpc")) then none else some (send entry sender))
telemetry_panics_example =
    telemetry_panics sdk (λ attributes. refl) (λ p endpoint headers. refl) zipkin entry sender
