-- ===== src/Operator/Startup.antt =====
-- cmd/operator/main.go: the telemetry and the start of the manager, with
-- `NewTailpostAgentReconciler` of pkg/k8s/operator/controller.go. What each call of controller-runtime comes to is a parameter.
pub mod Ends
use tailpost.Base.{
  ℕ, ◌*◌, Bool, true, false, not, List, [], ◌∷◌, Option, none, some, String, Bytes, bytes, equal,
  ◌==◌, if◌then◌else◌, Result, ok, err, ◌>>=◌, ◌>>◌, fail_if,
}
use tailpost.Base.Int.{ℤ, pos}
use tailpost.Config.{second, float_one}
use tailpost.Flags.{Exit, helped, wrong_usage, Flag, switch, valued, Defined, parse}
use tailpost.Telemetry.{SetupConfig, TelemetryError, Sdk, Installed, setup}
use tailpost.Operator.Variables.{
  metrics_addr, health_probe_addr, telemetry_endpoint, log_format, log_level,
  enable_leader_election, enable_telemetry, Variables, Setting, read_flags,
}
use tailpost.Agent.Setup.{Level, debug, info, warn, error}

-- `level` and the options of the logger.
unfoldable pub level_of : Bytes → Level
level_of s =
    if equal s (bytes "debug")
    then debug
    else if equal s (bytes "info")
    then info
    else if equal s (bytes "warn")
    then warn
    else if equal s (bytes "error")
    then error
    else info

pub record LogOptions : Type 0 where
  pub level : Level
  pub iso_times : Bool

unfoldable pub log_options : Variables → LogOptions
unfolding level_of
log_options o = record {
  level = level_of (o.text log_level);
  iso_times = equal (o.text log_format) (bytes "console");
}

-- `telConfig`, where `text_of` gives the bytes of a flag as a text.
unfoldable pub telemetry_config : (Bytes → String) → (String → String) → Variables → SetupConfig
telemetry_config text_of getenv o = record {
  service_name = "tailpost-operator";
  service_version = "0.1.0";
  exporter_type = "http";
  exporter_endpoint = text_of (o.text telemetry_endpoint);
  exporter_timeout = pos (30 * second);
  sampling_rate = float_one;
  propagate_contexts = true;
  attributes = some (
      ("k8s.namespace", getenv "POD_NAMESPACE")
      ∷ ("k8s.pod", getenv "POD_NAME")
      ∷ ("component", "operator")
      ∷ []);
  disable_telemetry = false;
}

pub record ManagerOptions : Type 0 where
  pub metrics_bind_address : Bytes
  pub health_probe_bind_address : Bytes
  pub leader_election : Bool
  pub leader_election_id : String
  pub graceful_shutdown_timeout : ℤ

unfoldable pub manager_options : Variables → ManagerOptions
manager_options o = record {
  metrics_bind_address = o.text metrics_addr;
  health_probe_bind_address = o.text health_probe_addr;
  leader_election = o.is_on enable_leader_election;
  leader_election_id = "tailpost-operator-leader-election";
  graceful_shutdown_timeout = pos (30 * second);
}

-- `TailpostAgentReconciler`, less what it takes from the manager.
pub record Reconciler : Type 0 where
  pub recorder : String
  pub default_image : String
  pub resync_period : ℤ
  pub requeue_period : ℤ

-- Which calls succeed: `GetConfigOrDie`, `NewManager`, `NewForConfig`, `SetupWithManager`, the
-- registration of a check by its name, and `mgr.Start`.
pub record Calls : Type 0 where
  pub get_config : Bool
  pub new_manager : ManagerOptions → Bool
  pub new_for_config : Bool
  pub setup_with_manager : Reconciler → Bool
  pub add_healthz_check : String → Bool
  pub add_readyz_check : String → Bool
  pub manager_start : Bool

-- Where `main` ends with status 1.
pub data Failure : Type 0 where
  no_config no_manager no_reconciler no_controller no_check manager_failed : Failure

-- `NewTailpostAgentReconciler`.
unfoldable pub new_tailpost_agent_reconciler : Bool → Result Failure Reconciler
new_tailpost_agent_reconciler made =
    fail_if (not made) no_reconciler
    >> ok (record {
      recorder = "tailpostagent-controller";
      default_image = "tailpost:latest";
      resync_period = pos (10 * 60 * second);
      requeue_period = pos (30 * second);
    })

-- The manager that is started, with the names of its checks.
pub record Managed : Type 0 where
  pub options : ManagerOptions
  pub reconciler : Reconciler
  pub healthz : List String
  pub readyz : List String

-- With the four checks.
abbrev pub managed_by : ManagerOptions → Reconciler → Managed
managed_by options r = record {
  options = options;
  reconciler = r;
  healthz = "healthz" ∷ "webhook" ∷ "kubernetes-api" ∷ [];
  readyz = "readyz" ∷ [];
}

unfoldable pub set_up : Calls → Variables → Result Failure Managed
unfolding manager_options new_tailpost_agent_reconciler
set_up calls o =
    let options = manager_options o in
    fail_if (not calls.get_config) no_config
    >> (fail_if (not (calls.new_manager options)) no_manager
        >> (new_tailpost_agent_reconciler calls.new_for_config >>= λ r.
            fail_if (not (calls.setup_with_manager r)) no_controller
            >> (fail_if (not (calls.add_healthz_check "healthz")) no_check
                >> (fail_if (not (calls.add_readyz_check "readyz")) no_check
                    >> (fail_if (not (calls.add_healthz_check "webhook")) no_check
                        >> (fail_if (not (calls.add_healthz_check "kubernetes-api")) no_check
                            >> ok (managed_by options r)))))))

-- A run of `main`: its exit status, the manager on which `Start` was called, whether telemetry was
-- installed, and whether its deferred `cleanup` was called, which `os.Exit` passes over.
pub record Run : Type 0 where
  pub status : ℕ
  pub managed : Option Managed
  pub installed : Bool
  pub cleaned : Bool

abbrev is_installed : {sdk : Sdk} → Result TelemetryError (Installed sdk) → Bool
is_installed (ok i) = true
is_installed (err e) = false

-- The telemetry, whose failure is only logged.
unfoldable pub set_up_telemetry : Sdk → (Bytes → String) → (String → String) → Variables → Bool
unfolding setup telemetry_config
set_up_telemetry sdk text_of getenv o =
    let made = is_installed (setup sdk (telemetry_config text_of getenv o)) in
    if o.is_on enable_telemetry then made else false

-- The rest of `main` behind the flags.
unfoldable pub started : Calls → Bool → Result Failure Managed → Run
started calls installed (err f) = record {
  status = 1;
  managed = none;
  installed = installed;
  cleaned = false;
}
started calls installed (ok m) = record {
  status = if calls.manager_start then 0 else 1;
  managed = some m;
  installed = installed;
  cleaned = if calls.manager_start then installed else false;
}

abbrev exited : ℕ → Run
exited status = record { status = status; managed = none; installed = false; cleaned = false }

module _ (sdk : Sdk) (text_of : Bytes → String) (getenv : String → String) (calls : Calls) where
  unfoldable pub run_with : Result Exit Variables → Run
  unfolding set_up set_up_telemetry started
  run_with (err helped) = exited 0
  run_with (err wrong_usage) = exited 2
  run_with (ok o) = started calls (set_up_telemetry sdk text_of getenv o) (set_up calls o)

  -- `main`.
  unfoldable pub main : Defined Setting → Defined Setting → List Bytes → Run
  unfolding read_flags run_with
  main imported zap args = run_with (read_flags imported zap args)
