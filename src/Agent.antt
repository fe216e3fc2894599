-- ===== src/Agent.antt =====
-- cmd/agent/main.go: how the agent puts its parts together.
pub mod Readers
pub mod Setup
pub mod Pipeline
pub mod Posts
pub mod Startup
pub mod Arguments
use tailpost.Base.{Bool, true, false, not, ◌||◌, List, String, eqs}
use tailpost.Config.{Config}
use tailpost.Reader.Factory.{LogSourceConfig}

-- The configuration of the reader in `setupLogReader`.
unfoldable pub source_config : Config → LogSourceConfig
source_config c = record {
  type = c.log_source_type;
  path = c.log_path;
  namespace = c.namespace;
  pod_name = c.pod_name;
  container_name = c.container_name;
  pod_selector = "";
  namespace_selector = "";
  windows_event_log_name = c.windows_event_log_name;
  windows_event_log_level = c.windows_event_log_level;
  macos_log_query = c.macos_log_query;
}

-- `setupHealthServer` makes the server with security features under this test.
unfoldable pub wants_secure_health : Config → Bool
wants_secure_health c = c.security.tls.enabled || not (eqs c.security.auth.type "none")

-- `setupLogSender` makes the sender with security features under this test.
unfoldable pub wants_secure_sender : Config → Bool
wants_secure_sender c =
    c.security.tls.enabled
    || (not (eqs c.security.auth.type "none") || c.security.encryption.enabled)
