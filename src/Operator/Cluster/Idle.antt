-- ===== src/Operator/Cluster/Idle.antt =====
-- A round over objects that are up to date.
use tailpost.Base.{
  Bool, true, false, some, ◌≡◌, refl, ap, ◌∙◌, arith, if◌then◌else◌, ok, inl, inr, Option-cases,
  Result-cases, String,
}
use tailpost.Operator.{TailpostAgent, Defaulted, set_defaults, update_status, set_available}
use tailpost.Operator.Defaults.{IsComplete, complete_needs_none}
use tailpost.Operator.Resources.{ConfigMap, config_map_needs_update}
use tailpost.Operator.StatefulSets.{Quantities, StatefulSet, stateful_set_needs_update}
use tailpost.Operator.Services.{Service, service_needs_update}
use tailpost.Operator.Reconcile.{
  Outcome, with_spec, reconcile_config_map, reconcile_stateful_set, reconcile_service,
}
use tailpost.Operator.Cluster.{
  Calls, Round, Cluster, put_agent, put_status, with_conditions, finish, got_of, status_step,
  service_step, stateful_set_step, config_map_step, reconcile,
}
use tailpost.Operator.Cluster.Steps.{
  fill_idle, reconcile_lem, defaults_step_ok, config_map_step_ok, stateful_set_step_ok,
  service_step_ok,
}
use tailpost.Operator.Cluster.Settled.{reconcile_object-idle, IsSettled}

-- The calls that read, and those that set the owner, succeed. Those that write may fail.
pub record IsReadable (c : Calls) : Type 0 where
  pub instance_read : c.get_instance_fails ≡ false
  pub config_map_owned : c.config_map.owner_fails ≡ false
  pub config_map_read : c.config_map.get_fails ≡ false
  pub stateful_set_owned : c.stateful_set.owner_fails ≡ false
  pub stateful_set_read : c.stateful_set.get_fails ≡ false
  pub service_owned : c.service.owner_fails ≡ false
  pub service_read : c.service.get_fails ≡ false

module _ {q : Quantities} where
  -- The objects of two states are the same.
  abbrev pub SameObjects : Cluster q → Cluster q → Type 0
  SameObjects c d =
      (c.config_map ≡ d.config_map) × (c.stateful_set ≡ d.stateful_set) × (c.service ≡ d.service)

module _ (q : Quantities) where
  put_status-SameObjects :
      (fails : Bool) (a : TailpostAgent) (c : Cluster q) → SameObjects (put_status q fails a c) c
  unfolding put_status
  put_status-SameObjects true a c = (refl, refl, refl)
  put_status-SameObjects false a c = elim (Option-cases c.agent) [
    | inl e ↦ rw e (refl, refl, refl)
    | inr (s, e) ↦ rw e (refl, refl, refl)
  ]

  finish-SameObjects :
      (r : Round) (a : TailpostAgent) (c : Cluster q) → SameObjects (finish q r a c).1 c
  unfolding finish
  finish-SameObjects r a c =
      let set = set_available r.now a.status.conditions in
      let b = with_conditions q set a in
      let c' = put_status q r.calls.set_condition_fails b c in
      ground (
        arith,
        put_status-SameObjects r.calls.set_condition_fails b c,
        put_status-SameObjects r.calls.remove_condition_fails _ c',
      )

  status_step-SameObjects :
      (r : Round) (a : TailpostAgent) (c : Cluster q) → SameObjects (status_step q r a c).1 c
  unfolding status_step
  status_step-SameObjects r a c =
      let got = got_of q r.calls.get_set_fails c in
      elim (Result-cases (update_status got r.now r.calls.update_status_fails a)) [
        | inr (x, e) ↦ rw (status_step, e) (refl, refl, refl)
        | inl (b, e) ↦
            let c' = put_status q false b c in
            ground (arith, e, finish-SameObjects r b c', put_status-SameObjects false b c)
      ]

  set_defaults_idle :
      (image : String) (a : TailpostAgent) (fails : Bool)
      → IsComplete a.spec
      → set_defaults image a fails
        ≡ record { result = ok tt; instance_after = a; update_called = false }
  unfolding set_defaults
  set_defaults_idle image a fails h =
      let n = complete_needs_none a.spec h in rw (n, fill_idle image a.spec n) refl

  module _ (r : Round) (a : TailpostAgent) (c : Cluster q) (reads : IsReadable r.calls)
      (settled : IsSettled q r a c) where
    config_map_idle :
        reconcile_config_map r.order r.calls.config_map a c.config_map
        ≡ record { result = ok tt; stored = c.config_map }
    unfolding reconcile_config_map
    config_map_idle =
        reconcile_object-idle config_map_needs_update _ r.calls.config_map _ c.config_map
          reads.config_map_owned reads.config_map_read settled.config_map_current

    stateful_set_idle :
        reconcile_stateful_set q r.calls.stateful_set a c.stateful_set
        ≡ record { result = ok tt; stored = c.stateful_set }
    unfolding reconcile_stateful_set
    stateful_set_idle =
        reconcile_object-idle (stateful_set_needs_update q) with_spec r.calls.stateful_set _
          c.stateful_set reads.stateful_set_owned reads.stateful_set_read
          settled.stateful_set_current

    service_idle :
        reconcile_service r.calls.service a c.service
        ≡ record { result = ok tt; stored = c.service }
    unfolding reconcile_service
    service_idle =
        reconcile_object-idle service_needs_update
          (λ found desired. record found { selector = desired.selector; ports = desired.ports })
          r.calls.service _ c.service reads.service_owned reads.service_read settled.service_current

    round_idle : c.agent ≡ some a → IsComplete a.spec → reconcile q r c ≡ status_step q r a c
    round_idle at complete =
        let d = set_defaults_idle r.default_image a r.calls.update_instance_fails complete in
        reconcile_lem q r a c at reads.instance_read
        ∙ defaults_step_ok q r a c (ap (λ (o : Defaulted). o.result) d)
        ∙ ap
            (λ (o : Defaulted).
              config_map_step q r o.instance_after
                (if o.update_called then put_agent q o.instance_after c else c))
            d
        ∙ config_map_step_ok q r a c (ap (λ (o : Outcome ConfigMap). o.result) config_map_idle)
        ∙ ap
            (λ (o : Outcome ConfigMap).
              stateful_set_step q r a (record c { config_map = o.stored }))
            config_map_idle
        ∙ stateful_set_step_ok q r a c
            (ap (λ (o : Outcome (StatefulSet q)). o.result) stateful_set_idle)
        ∙ ap
            (λ (o : Outcome (StatefulSet q)).
              service_step q r a (record c { stateful_set = o.stored }))
            stateful_set_idle
        ∙ service_step_ok q r a c (ap (λ (o : Outcome Service). o.result) service_idle)
        ∙ ap (λ (o : Outcome Service). status_step q r a (record c { service = o.stored }))
            service_idle

  -- A round over an agent whose spec has its defaults and whose objects are there and need no update
  -- changes none of the objects, whichever of the calls that write fail.
  pub reconcile-SameObjects :
      (r : Round) (a : TailpostAgent) (c : Cluster q)
      → IsReadable r.calls
      → c.agent ≡ some a
      → IsComplete a.spec
      → IsSettled q r a c
      → SameObjects (reconcile q r c).1 c
  reconcile-SameObjects r a c reads at complete settled =
      rw (round_idle r a c reads settled at complete) (status_step-SameObjects r a c)
