-- ===== src/Examples/Operator.antt =====
-- The theorems on the operator, at small resources.
use tailpost.Base.{ℕ, true, List, [], ◌∷◌, none, some, ◌≡◌, refl, String, bytes, eqs}
use tailpost.Base.Int.{pos}
use tailpost.Operator.{Condition, TailpostAgent}
use tailpost.Security.Hex.{decimal}
use tailpost.Operator.Resources.{
  Order, ConfigMap, create_config_map, get_labels, get_config_map_name, get_stateful_set_name,
  config_data, yaml, value_text, get_service_name,
}
use tailpost.Operator.StatefulSets.{
  Quantities, StatefulSet, create_stateful_set, requirements, container_of, config_map_volume,
  host_path_volume,
}
use tailpost.Operator.Reconcile.{Faults, no_faults}

abbrev pub agent : TailpostAgent
agent = record {
  name = "web";
  namespace = "logs";
  spec = record {
    replicas = none;
    image = "";
    image_pull_policy = "Always";
    service_account = "";
    log_sources = [];
    server_url = "http://logs";
    batch_size = some (pos 50);
    flush_interval = "";
    resources = record {
      limits = record { cpu = ""; memory = "" };
      requests = record { cpu = ""; memory = "" };
    };
  };
  status = record { conditions = []; available_replicas = pos 0; last_update_time = 0 };
}

abbrev failure : ℕ → String → Condition
failure now reason = record {
  type = "Degraded";
  status = "True";
  last_transition_time = now;
  reason = reason;
  message = "timeout";
}

abbrev pub before : List Condition
before = failure 1 "ConfigMapReconcileFailed" ∷ []

abbrev pub config_map : ConfigMap
config_map = record {
  name = bytes "web-config";
  namespace = bytes "logs";
  labels =
      (bytes "app.kubernetes.io/name", bytes "tailpost-agent")
      ∷ (bytes "app.kubernetes.io/instance", bytes "web")
      ∷ (bytes "app.kubernetes.io/managed-by", bytes "tailpost-operator")
      ∷ [];
  data_of =
      (bytes "config.yaml", bytes "server_url: http://logs\nbatch_size: 50\nflush_interval: \n")
      ∷ [];
}

abbrev pub in_order : Order
in_order entries = entries

pub config_map_made : create_config_map in_order agent ≡ some config_map
unfolding create_config_map get_labels get_config_map_name config_data yaml value_text decimal
config_map_made = refl

abbrev failing_writes : Faults
failing_writes = record no_faults { create_fails = true; update_fails = true }

abbrev pub quantities : Quantities
quantities = record { Quantity = String; parse = λ s. some s; same = λ s t. eqs s t }

abbrev pub stateful_set : StatefulSet quantities
stateful_set = record {
  name = bytes "web";
  namespace = bytes "logs";
  labels = config_map.labels;
  spec = record {
    replicas = none;
    selector = config_map.labels;
    service_name = bytes "web";
    template_labels = config_map.labels;
    service_account = "";
    container = container_of quantities agent.spec (record { limits = none; requests = none });
    volumes =
        config_map_volume "config" (bytes "web-config")
        ∷ host_path_volume "log-volume" "/var/log"
        ∷ [];
  };
}

stateful_set_made : create_stateful_set quantities agent ≡ some stateful_set
unfolding create_stateful_set get_service_name get_labels get_config_map_name get_stateful_set_name
    requirements
stateful_set_made = refl
