-- ===== src/Agent/Setup/Panics.antt =====
-- The first line of a log in cmd/agent.go.
use tailpost.Base.{
  Bool, true, false, not, ◌&&◌, ◌||◌, List, none, some, ◌≡◌, refl, String, if◌then◌else◌, Bytes,
  Option-cases, inl, inr, ◌∙◌,
}
use tailpost.Config.{Config}
use tailpost.Config.Load.{or_default}
use tailpost.Sender.{Sender, send}
use tailpost.Telemetry.{Protocol, Sdk, Manager, start_span}
use tailpost.Telemetry.Tracers.{is_known, has_tracer, tracer_started}
use tailpost.Agent.Setup.{manager_config, started_manager, setup_telemetry_single, send_line}

module _ (sdk : Sdk) where
  send_line_lem :
      (m : Manager sdk) (l : Bytes) (s : Sender)
      → send_line sdk (some m) l s ≡ (if has_tracer m.tracer then some (send l s) else none)
  unfolding send_line start_span send
  send_line_lem m l s = elim (Option-cases m.tracer) [ inl e ↦ rw e refl | inr (t, e) ↦ rw e refl ]

  enabled_lem :
      (enabled known : Bool) (m : Manager sdk)
      → has_tracer m.tracer ≡ (not enabled || known)
      → (l : Bytes) (s : Sender)
      → send_line sdk (if enabled then some m else none) l s
        ≡ (if enabled && not known then none else some (send l s))
  unfolding send_line
  enabled_lem false known m e l s = refl
  enabled_lem true true m e l s = send_line_lem m l s ∙ rw e refl
  enabled_lem true false m e l s = send_line_lem m l s ∙ rw e refl

  -- When the SDK refuses nothing, cmd/agent.go sends a line just as without telemetry, but for one
  -- case: telemetry is on and the exporter type, `grpc` when it is empty, is none of `grpc`, `http`
  -- and `none`. Then the line panics, although a failed start of telemetry is only a warning.
  pub telemetry_panics :
      (resources : (attributes : List (String × String)) → sdk.new_resource attributes ≡ true)
      (exporters : (p : Protocol) (endpoint : String) (headers : List (String × String))
        → sdk.new_exporter p endpoint headers ≡ true)
      (c : Config) (l : Bytes) (s : Sender)
      → send_line sdk (setup_telemetry_single sdk c) l s ≡ (
          if c.telemetry.enabled && not (is_known (or_default c.telemetry.exporter_type "grpc"))
          then none
          else some (send l s))
  unfolding setup_telemetry_single started_manager manager_config
  telemetry_panics resources exporters c l s =
      enabled_lem c.telemetry.enabled (is_known (or_default c.telemetry.exporter_type "grpc"))
        (started_manager sdk c) (tracer_started sdk resources exporters (manager_config c)) l s
