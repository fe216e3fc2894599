-- ===== src/Operator/Reconcile.antt =====
-- `reconcileConfigMap`, `reconcileStatefulSet` and `reconcileService` of
-- pkg/k8s/operator/controller.go. The cluster is
-- what it stores under the object's name, and `Faults` says which calls fail.
use tailpost.Base.{Bool, false, Option, none, some, if◌then◌else◌, Result, ok, err}
use tailpost.Operator.{TailpostAgent}
use tailpost.Operator.Resources.{Order, ConfigMap, create_config_map, config_map_needs_update}
use tailpost.Operator.StatefulSets.{
  Quantities, StatefulSet, create_stateful_set, stateful_set_needs_update,
}
use tailpost.Operator.Services.{Service, create_service, service_needs_update}

pub record Faults : Type 0 where
  pub owner_fails : Bool
  pub get_fails : Bool
  pub create_fails : Bool
  pub update_fails : Bool

abbrev pub no_faults : Faults
no_faults = record {
  owner_fails = false;
  get_fails = false;
  create_fails = false;
  update_fails = false;
}

pub data ReconcileError : Type 0 where
  panicked setting_owner getting creating updating : ReconcileError

-- What the call returns, and what the cluster stores then.
pub record Outcome (A : Type 0) : Type 0 where
  pub result : Result ReconcileError (Unit {0})
  pub stored : Option A

-- The steps that the functions have in common: `needs` is the test for an update, `merge` what is
-- written over the object that was found.
unfoldable pub reconcile_object :
    {A : Type 0} → (A → A → Bool) → (A → A → A) → Faults → Option A → Option A → Outcome A
reconcile_object needs merge faults none stored = record { result = err panicked; stored = stored }
reconcile_object needs merge faults (some desired) none =
    if faults.owner_fails
    then record { result = err setting_owner; stored = none }
    else if faults.get_fails
    then record { result = err getting; stored = none }
    else if faults.create_fails
    then record { result = err creating; stored = none }
    else record { result = ok tt; stored = some desired }
reconcile_object needs merge faults (some desired) (some found) =
    if faults.owner_fails
    then record { result = err setting_owner; stored = some found }
    else if faults.get_fails
    then record { result = err getting; stored = some found }
    else if needs found desired
    then (if faults.update_fails
        then record { result = err updating; stored = some found }
        else record { result = ok tt; stored = some (merge found desired) })
    else record { result = ok tt; stored = some found }

-- `reconcileConfigMap`.
unfoldable pub reconcile_config_map :
    Order → Faults → TailpostAgent → Option ConfigMap → Outcome ConfigMap
unfolding reconcile_object
reconcile_config_map order faults a stored =
    reconcile_object config_map_needs_update
      (λ found desired. record found { data_of = desired.data_of }) faults
      (create_config_map order a) stored

-- `found.Spec = statefulSet.Spec`.
abbrev pub with_spec : {q : Quantities} → StatefulSet q → StatefulSet q → StatefulSet q
with_spec found desired = record found { spec = desired.spec }

-- `reconcileStatefulSet`.
unfoldable pub reconcile_stateful_set :
    (q : Quantities) → Faults → TailpostAgent → Option (StatefulSet q) → Outcome (StatefulSet q)
unfolding reconcile_object
reconcile_stateful_set q faults a stored =
    reconcile_object (stateful_set_needs_update q) with_spec faults (create_stateful_set q a) stored

-- `reconcileService`, which writes the selector and the ports.
unfoldable pub reconcile_service : Faults → TailpostAgent → Option Service → Outcome Service
unfolding reconcile_object
reconcile_service faults a stored =
    reconcile_object service_needs_update
      (λ found desired. record found { selector = desired.selector; ports = desired.ports }) faults
      (some (create_service a)) stored
