-- ===== src/Agent/Setup.antt =====
-- What the agent makes of its flags and of the telemetry settings: `setupLogging` and
-- `setupTelemetry` of cmd/agent/main.go, and the same steps of cmd/agent.go with the source type and
-- the selectors.
pub mod Panics
use tailpost.Base.{
  ℕ, Bool, true, false, not, List, [], ◌∷◌, ◌++◌, Option, none, some, String, eqs, if◌then◌else◌,
  Result, ok, err, ◌*◌, Bytes,
}
use tailpost.Base.Int.{ℤ, pos}
use tailpost.Config.{Config, second}
use tailpost.Reader.Factory.{
  LogSourceConfig, FactoryError, LogReader, file_reader, Host, parse_source_type, new_reader,
}
use tailpost.Telemetry.{
  SetupConfig, ManagerConfig, TelemetryError, Sdk, Manager, Installed, new_telemetry_manager, start,
  setup, start_span,
}
use tailpost.Sender.{Sender, send, send_with_context}

-- The levels of zap.
pub data Level : Type 0 where
  debug info warn error : Level

unfoldable pub level_of : String → Level
level_of s =
    if eqs s "debug"
    then debug
    else if eqs s "info"
    then info
    else if eqs s "warn"
    then warn
    else if eqs s "error"
    then error
    else info

-- `telConfig`.
unfoldable pub setup_config : Config → SetupConfig
setup_config c = record {
  service_name = c.telemetry.service_name;
  service_version = c.telemetry.service_version;
  exporter_type = c.telemetry.exporter_type;
  exporter_endpoint = c.telemetry.exporter_endpoint;
  exporter_timeout = pos (30 * second);
  sampling_rate = c.telemetry.sampling_rate;
  propagate_contexts = true;
  attributes = c.telemetry.attributes;
  disable_telemetry = not c.telemetry.enabled;
}

-- `obsConfig`.
unfoldable pub manager_config : Config → ManagerConfig
manager_config c = record {
  enabled = c.telemetry.enabled;
  service_name = c.telemetry.service_name;
  service_version = c.telemetry.service_version;
  exporter_type = c.telemetry.exporter_type;
  endpoint = c.telemetry.exporter_endpoint;
  headers = c.telemetry.attributes;
  sampling_rate = c.telemetry.sampling_rate;
  batch_timeout = pos (5 * second);
  max_export_batch_size = pos 512;
  max_queue_size = pos 2048;
}

module _ (sdk : Sdk) where
  -- The manager, started: a failure of its `Start` is only logged.
  unfoldable pub started_manager : Config → Manager sdk
  unfolding new_telemetry_manager manager_config start
  started_manager c = (start sdk (new_telemetry_manager sdk (manager_config c))).1

  -- `setupTelemetry` of cmd/agent/main.go with the test of `main`; `none` is the nil manager.
  unfoldable pub setup_telemetry : Config → Option (Manager sdk)
  unfolding setup setup_config started_manager
  setup_telemetry c =
      if c.telemetry.enabled
      then elim (setup sdk (setup_config c)) [
        | err e ↦ none
        | ok installed ↦ some (started_manager c)
      ]
      else none

  -- The same of cmd/agent.go, where a failure of `telemetry.Setup` is only logged too.
  unfoldable pub setup_telemetry_single : Config → Option (Manager sdk)
  unfolding started_manager
  setup_telemetry_single c = if c.telemetry.enabled then some (started_manager c) else none

  -- What the loop of cmd/agent.go does with a line; `none` is a panic, which ends the program.
  unfoldable pub send_line : Option (Manager sdk) → Bytes → Sender → Option Sender
  unfolding start_span
  send_line none l s = some (send l s)
  send_line (some m) l s = elim (start_span sdk m) [
    | none ↦ none
    | some tracer ↦ some (send_with_context l s)
  ]

-- How cmd/agent.go writes a selector: "key=value" with commas between. The range over the map gives
-- the entries in some order, the order of the list.
unfoldable pub selector_text : (String → String → String) → List (String × String) → String
selector_text concat [] = ""
selector_text concat ((k, v) ∷ []) = concat k (concat "=" v)
selector_text concat ((k, v) ∷ kv ∷ rest) =
    concat (concat k (concat "=" v)) (concat "," (selector_text concat (kv ∷ rest)))

-- `sourceConfig` of cmd/agent.go, of a parsed source type.
unfoldable pub source_config_single : (String → String → String) → String → Config → LogSourceConfig
unfolding selector_text
source_config_single concat type c = record {
  type = type;
  path = c.log_path;
  namespace = c.namespace;
  pod_name = c.pod_name;
  container_name = c.container_name;
  pod_selector = selector_text concat c.pod_selector;
  namespace_selector = selector_text concat c.namespace_selector;
  windows_event_log_name = c.windows_event_log_name;
  windows_event_log_level = c.windows_event_log_level;
  macos_log_query = c.macos_log_query;
}

-- The reader of cmd/agent.go, where a failure ends the program.
unfoldable pub reader_single :
    (String → String) → (String → String → String) → Host → Config → Result FactoryError LogReader
unfolding parse_source_type source_config_single new_reader
reader_single to_lower concat host c =
    if not (eqs c.log_source_type "")
    then elim (parse_source_type to_lower c.log_source_type) [
      | err e ↦ err e
      | ok type ↦ new_reader host (source_config_single concat type c)
    ]
    else ok (file_reader c.log_path)
