-- ===== src/Examples/Cluster.antt =====
-- The theorems on whole rounds of the operator, at the agent of Examples/Operator.
use tailpost.Base.{true, false, List, [], ◌∷◌, none, some, ◌≡◌, refl, arith, eq_iff, equal}
use tailpost.Base.Int.{pos}
use tailpost.Operator.{
  Condition, TailpostAgent, condition_type_available, condition_type_degraded, find_condition,
  set_defaults, fill,
}
use tailpost.Operator.Defaults.{IsComplete}
use tailpost.Security.Hex.{decimal}
use tailpost.Operator.Resources.{
  create_config_map, get_labels, get_config_map_name, get_stateful_set_name, get_service_name,
  config_data, yaml, value_text, config_map_needs_update, data_equal,
}
use tailpost.Operator.StatefulSets.{
  StatefulSet, create_stateful_set, requirements, container_of, stateful_set_needs_update,
}
use tailpost.Operator.Services.{create_service, service_needs_update, ports_equal}
use tailpost.Operator.Reconcile.{no_faults}
use tailpost.Operator.Cluster.{Calls, Round, resynced, Cluster, reconcile, reconciles}
use tailpost.Operator.Cluster.Tidy.{IsTidy, reconciles-IsTidy}
use tailpost.Operator.Cluster.Settled.{no_failures, succeeding, IsSettled}
use tailpost.Operator.Cluster.Converge.{reconcile-IsSettled}
use tailpost.Operator.Cluster.Idle.{IsReadable, SameObjects, reconcile-SameObjects}
use tailpost.Examples.Operator.{agent, before, in_order, quantities, stateful_set}

abbrev ailing : TailpostAgent
ailing = record agent { status = record agent.status { conditions = before } }

abbrev round_of : Calls → Round
round_of calls = record {
  calls = calls;
  default_image = "tailpost:latest";
  now = 5;
  order = in_order;
  message = λ e. "timeout";
}

abbrev empty : Cluster quantities
empty = record {
  agent = some ailing;
  config_map = none;
  stateful_set = none;
  service = none;
  ready = pos 0;
}

abbrev no_creates : Calls
no_creates = record no_failures { config_map = record no_faults { create_fails = true } }

abbrev rounds : List Round
rounds = round_of no_creates ∷ round_of no_failures ∷ []

reconciles-IsTidy_example : IsTidy (reconciles quantities rounds empty)
reconciles-IsTidy_example = reconciles-IsTidy quantities rounds empty (tt, tt)

abbrev complete : TailpostAgent
complete = record ailing {
  spec = record agent.spec {
    replicas = some (pos 1);
    image = "tailpost:latest";
    flush_interval = "5s";
  };
}

abbrev set_of : StatefulSet quantities
set_of = record stateful_set {
  spec = record stateful_set.spec {
    replicas = some (pos 1);
    container = container_of quantities complete.spec (record { limits = none; requests = none });
  };
}

set_of_made :
    create_stateful_set quantities (set_defaults "tailpost:latest" ailing false).instance_after
    ≡ some set_of
unfolding create_stateful_set get_service_name get_labels get_config_map_name get_stateful_set_name
    requirements set_defaults fill
set_of_made = refl

reconcile-IsSettled_example :
    (b : TailpostAgent) × ((reconcile quantities (succeeding (round_of no_creates)) empty).0
      ≡ resynced)
    × ((reconcile quantities (succeeding (round_of no_creates)) empty).1.agent ≡ some b)
    × (b.spec ≡ (set_defaults "tailpost:latest" ailing false).instance_after.spec)
    × IsSettled quantities
        (round_of no_creates)
        b
        (reconcile quantities (succeeding (round_of no_creates)) empty).1
    × (find_condition condition_type_degraded b.status.conditions ≡ none)
    × ((d : Condition) × (find_condition condition_type_available b.status.conditions ≡ some d)
        × (d.status ≡ "True"))
reconcile-IsSettled_example =
    reconcile-IsSettled quantities (λ x. (eq_iff x x).1 refl) (round_of no_creates) ailing empty
      refl set_of set_of_made (tt, tt)

abbrev full : Cluster quantities
full = record {
  agent = some complete;
  config_map = create_config_map in_order complete;
  stateful_set = some set_of;
  service = some (create_service complete);
  ready = pos 1;
}

full-IsSettled : IsSettled quantities (round_of no_creates) complete full
unfolding create_stateful_set get_service_name get_labels get_config_map_name get_stateful_set_name
    requirements create_config_map config_data yaml value_text decimal config_map_needs_update
    data_equal stateful_set_needs_update create_service service_needs_update ports_equal equal
full-IsSettled = record {
  config_map_current = (_, _, refl, refl, refl);
  stateful_set_current = (_, _, refl, refl, refl);
  service_current = (_, _, refl, refl, refl);
}

full-IsReadable : IsReadable no_creates
full-IsReadable = record {
  instance_read = refl;
  config_map_owned = refl;
  config_map_read = refl;
  stateful_set_owned = refl;
  stateful_set_read = refl;
  service_owned = refl;
  service_read = refl;
}

spec-IsComplete : IsComplete complete.spec
spec-IsComplete = record {
  has_image = λ e. ground (arith, (eq_iff "tailpost:latest" "").1 e);
  has_policy = λ e. ground (arith, (eq_iff "Always" "").1 e);
  has_replicas = λ e. ground arith;
  has_batch_size = λ e. ground arith;
  has_interval = λ e. ground (arith, (eq_iff "5s" "").1 e);
}

reconcile-SameObjects_example : SameObjects (reconcile quantities (round_of no_creates) full).1 full
reconcile-SameObjects_example =
    reconcile-SameObjects quantities (round_of no_creates) complete full full-IsReadable refl
      spec-IsComplete full-IsSettled
