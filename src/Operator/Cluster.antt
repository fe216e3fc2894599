-- ===== src/Operator/Cluster.antt =====
-- `Reconcile` of pkg/k8s/operator/controller.go as a whole: one round over what the cluster stores
-- for an agent. `Calls` says which calls of the API fail in the round, and `message` is the text of an
-- error. The events of the recorder and the log are not modelled.
pub mod Tidy
pub mod Settled
pub mod Steps
pub mod Converge
pub mod Idle
use tailpost.Base.{
  ℕ, Bool, true, false, List, [], ◌∷◌, Option, none, some, String, if◌then◌else◌, Result, ok, err,
}
use tailpost.Base.Int.{ℤ}
use tailpost.Operator.{
  Condition, TailpostAgent, Defaulted, OperatorError, Got, ready_replicas, not_found, get_failed,
  condition_type_degraded, set_defaults, find_condition, remove_condition, update_status, degraded,
  set_available,
}
use tailpost.Operator.Resources.{Order, ConfigMap}
use tailpost.Operator.StatefulSets.{Quantities, StatefulSet}
use tailpost.Operator.Services.{Service}
use tailpost.Operator.Reconcile.{
  Faults, ReconcileError, panicked, setting_owner, getting, creating, updating, Outcome,
  reconcile_config_map, reconcile_stateful_set, reconcile_service,
}

pub record Calls : Type 0 where
  pub get_instance_fails : Bool
  pub update_instance_fails : Bool
  pub config_map : Faults
  pub stateful_set : Faults
  pub service : Faults
  pub get_set_fails : Bool
  pub update_status_fails : Bool
  pub set_condition_fails : Bool
  pub remove_condition_fails : Bool

-- What one round is given: the image of the reconciler, the time, the order of the keys of a map.
pub record Round : Type 0 where
  pub calls : Calls
  pub default_image : String
  pub now : ℕ
  pub order : Order
  pub message : ReconcileError → String

-- How `Reconcile` ends: nothing to do, the error of the first `Get`, an error with a requeue after
-- `RequeuePeriod`, or a requeue after `ResyncPeriod`.
pub data Ending : Type 0 where
  gone get_error requeued resynced panic : Ending

abbrev pub is_panic : ReconcileError → Bool
is_panic panicked = true
is_panic setting_owner = false
is_panic getting = false
is_panic creating = false
is_panic updating = false

module _ (q : Quantities) where
  -- What the cluster stores under the agent's names. `ready` is the count in the StatefulSet's status.
  pub record Cluster : Type 0 where
    pub agent : Option TailpostAgent
    pub config_map : Option ConfigMap
    pub stateful_set : Option (StatefulSet q)
    pub service : Option Service
    pub ready : ℤ

  -- `r.Update(ctx, instance)`.
  unfoldable pub put_agent : TailpostAgent → Cluster → Cluster
  put_agent a c = record c { agent = some a }

  -- `r.Status().Update(ctx, instance)`, which writes the status alone.
  unfoldable pub put_status : Bool → TailpostAgent → Cluster → Cluster
  put_status true a c = c
  put_status false a c = elim c.agent [
    | none ↦ c
    | some s ↦ record c { agent = some (record s { status = a.status }) }
  ]

  abbrev pub with_conditions : List Condition → TailpostAgent → TailpostAgent
  with_conditions cs a = record a { status = record a.status { conditions = cs } }

  -- A step failed: the agent is marked as degraded, for a reason. A panic leaves the function.
  unfoldable pub fail : Round → String → ReconcileError → TailpostAgent → Cluster → Ending × Cluster
  unfolding put_status degraded
  fail r reason e a c =
      let cs = degraded r.now reason (r.message e) a.status.conditions in
      if is_panic e
      then (panic, c)
      else (requeued, put_status r.calls.set_condition_fails (with_conditions cs a) c)

  -- "Set agent as available", and "Remove degraded condition if it exists".
  unfoldable pub finish : Round → TailpostAgent → Cluster → Ending × Cluster
  unfolding put_status set_available remove_condition find_condition
  finish r a c =
      let set = set_available r.now a.status.conditions in
      let c' = put_status r.calls.set_condition_fails (with_conditions set a) c in
      let left = remove_condition condition_type_degraded set in
      elim (find_condition condition_type_degraded set) [
        | none ↦ (resynced, c')
        | some d ↦ (resynced, put_status r.calls.remove_condition_fails (with_conditions left a) c')
      ]

  -- What the `Get` of the StatefulSet in `updateStatus` comes to.
  unfoldable pub got_of : Bool → Cluster → Got
  got_of true c = get_failed
  got_of false c = elim c.stateful_set [ none ↦ not_found | some s ↦ ready_replicas c.ready ]

  unfoldable pub status_step : Round → TailpostAgent → Cluster → Ending × Cluster
  unfolding finish update_status got_of
  status_step r a c =
      elim (update_status (got_of r.calls.get_set_fails c) r.now r.calls.update_status_fails a) [
        | err e ↦ (requeued, c)
        | ok a' ↦ finish r a' (put_status false a' c)
      ]

  unfoldable pub service_step : Round → TailpostAgent → Cluster → Ending × Cluster
  unfolding status_step fail
  service_step r a c =
      let o = reconcile_service r.calls.service a c.service in
      let c' = record c { service = o.stored } in
      elim o.result [
        | err e ↦ fail r "ServiceReconcileFailed" e a c'
        | ok done ↦ status_step r a c'
      ]

  unfoldable pub stateful_set_step : Round → TailpostAgent → Cluster → Ending × Cluster
  unfolding service_step fail
  stateful_set_step r a c =
      let o = reconcile_stateful_set q r.calls.stateful_set a c.stateful_set in
      let c' = record c { stateful_set = o.stored } in
      elim o.result [
        | err e ↦ fail r "StatefulSetReconcileFailed" e a c'
        | ok done ↦ service_step r a c'
      ]

  unfoldable pub config_map_step : Round → TailpostAgent → Cluster → Ending × Cluster
  unfolding stateful_set_step fail
  config_map_step r a c =
      let o = reconcile_config_map r.order r.calls.config_map a c.config_map in
      let c' = record c { config_map = o.stored } in
      elim o.result [
        | err e ↦ fail r "ConfigMapReconcileFailed" e a c'
        | ok done ↦ stateful_set_step r a c'
      ]

  -- The instance behind `setDefaults`, written if it was updated.
  unfoldable pub defaults_step : Round → TailpostAgent → Cluster → Ending × Cluster
  unfolding config_map_step set_defaults put_agent
  defaults_step r a c =
      let d = set_defaults r.default_image a r.calls.update_instance_fails in
      let c' = if d.update_called then put_agent d.instance_after c else c in
      elim d.result [ err e ↦ (requeued, c) | ok done ↦ config_map_step r d.instance_after c' ]

  -- `Reconcile`.
  unfoldable pub reconcile : Round → Cluster → Ending × Cluster
  unfolding defaults_step
  reconcile r c =
      if r.calls.get_instance_fails
      then (get_error, c)
      else elim c.agent [ none ↦ (gone, c) | some a ↦ defaults_step r a c ]

  -- Rounds, one after another.
  unfoldable pub reconciles : List Round → Cluster → Cluster
  unfolding reconcile
  reconciles [] c = c
  reconciles (r ∷ rs) c = reconciles rs (reconcile r c).1
