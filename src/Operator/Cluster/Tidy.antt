-- ===== src/Operator/Cluster/Tidy.antt =====
-- The conditions of an agent stay distinct, whatever calls fail.
use tailpost.Base.{
  ℕ, subst, Bool, true, false, List, [], ◌∷◌, Option, none, some, ◌≡◌, refl, String, if◌then◌else◌,
  ok, inl, inr, arith, Result-cases, Option-cases, Bool-cases,
}
use tailpost.Operator.{
  TailpostAgent, Got, condition_type_degraded, set_defaults, find_condition, update_status,
  degraded, set_available,
}
use tailpost.Operator.Conditions.{Unique, set-Unique, remove-Unique}
use tailpost.Operator.StatefulSets.{Quantities}
use tailpost.Operator.Reconcile.{
  ReconcileError, reconcile_config_map, reconcile_stateful_set, reconcile_service,
}
use tailpost.Operator.Cluster.{
  Round, Cluster, put_agent, put_status, with_conditions, is_panic, fail, finish, got_of,
  status_step, service_step, stateful_set_step, config_map_step, defaults_step, reconcile,
  reconciles,
}

abbrev TidyAgent : Option TailpostAgent → Type 0
TidyAgent none = Unit
TidyAgent (some a) = Unique a.status.conditions

pub set_defaults-conditions :
    (image : String) (a : TailpostAgent) (fails : Bool)
    → a.status.conditions ≡ (set_defaults image a fails).instance_after.status.conditions
unfolding set_defaults
set_defaults-conditions image a fails = refl

module _ {q : Quantities} where
  -- The agent that the cluster stores, if any, has at most one condition of each type.
  abbrev pub IsTidy : Cluster q → Type 0
  IsTidy c = TidyAgent c.agent

module _ (q : Quantities) where
  put_status-IsTidy :
      (fails : Bool) (a : TailpostAgent) (c : Cluster q)
      → Unique a.status.conditions
      → IsTidy c
      → IsTidy (put_status q fails a c)
  unfolding put_status
  put_status-IsTidy true a c u h = h
  put_status-IsTidy false a c u h = elim (Option-cases c.agent) [
    | inl e ↦ rw e (rw e at h)
    | inr (s, e) ↦ rw e u
  ]

  fail-IsTidy :
      (r : Round) (reason : String) (e : ReconcileError) (a : TailpostAgent) (c : Cluster q)
      → Unique a.status.conditions
      → IsTidy c
      → IsTidy (fail q r reason e a c).1
  unfolding fail degraded
  fail-IsTidy r reason e a c u h = elim (Bool-cases (is_panic e)) [
    | inl p ↦ rw p h
    | inr p ↦ rw p (put_status-IsTidy r.calls.set_condition_fails _ c (set-Unique _ _ u) h)
  ]

  finish-IsTidy :
      (r : Round) (a : TailpostAgent) (c : Cluster q)
      → Unique a.status.conditions
      → IsTidy c
      → IsTidy (finish q r a c).1
  unfolding finish set_available
  finish-IsTidy r a c u h =
      let set = set_available r.now a.status.conditions in
      let v : Unique set = set-Unique _ _ u in
      let mid = put_status-IsTidy r.calls.set_condition_fails (with_conditions q set a) c v h in
      elim (Option-cases (find_condition condition_type_degraded set)) [
        | inl e ↦ rw (finish, e) mid
        | inr (d, e) ↦
            rw (finish, e)
              (put_status-IsTidy r.calls.remove_condition_fails _ _
                (remove-Unique condition_type_degraded set v) mid)
      ]

  update_status-conditions :
      (g : Got) (now : ℕ) (fails : Bool) (a b : TailpostAgent)
      → update_status g now fails a ≡ ok b
      → a.status.conditions ≡ b.status.conditions
  unfolding update_status
  update_status-conditions g now fails a b h = ground arith

  status_step-IsTidy :
      (r : Round) (a : TailpostAgent) (c : Cluster q)
      → Unique a.status.conditions
      → IsTidy c
      → IsTidy (status_step q r a c).1
  unfolding status_step
  status_step-IsTidy r a c u h =
      let got = got_of q r.calls.get_set_fails c in
      elim (Result-cases (update_status got r.now r.calls.update_status_fails a)) [
        | inr (x, e) ↦ rw (status_step, e) h
        | inl (b, e) ↦
            let v : Unique b.status.conditions =
              subst Unique (update_status-conditions got r.now _ a b e) u in
            rw (status_step, e) (finish-IsTidy r b _ v (put_status-IsTidy false b c v h))
      ]

  service_step-IsTidy :
      (r : Round) (a : TailpostAgent) (c : Cluster q)
      → Unique a.status.conditions
      → IsTidy c
      → IsTidy (service_step q r a c).1
  unfolding service_step
  service_step-IsTidy r a c u h =
      elim (Result-cases (reconcile_service r.calls.service a c.service).result) [
        | inr (x, e) ↦ rw (service_step, e) (fail-IsTidy r _ x a _ u h)
        | inl (x, e) ↦ rw (service_step, e) (status_step-IsTidy r a _ u h)
      ]

  stateful_set_step-IsTidy :
      (r : Round) (a : TailpostAgent) (c : Cluster q)
      → Unique a.status.conditions
      → IsTidy c
      → IsTidy (stateful_set_step q r a c).1
  unfolding stateful_set_step
  stateful_set_step-IsTidy r a c u h =
      elim (Result-cases (reconcile_stateful_set q r.calls.stateful_set a c.stateful_set).result) [
        | inr (x, e) ↦ rw (stateful_set_step, e) (fail-IsTidy r _ x a _ u h)
        | inl (x, e) ↦ rw (stateful_set_step, e) (service_step-IsTidy r a _ u h)
      ]

  config_map_step-IsTidy :
      (r : Round) (a : TailpostAgent) (c : Cluster q)
      → Unique a.status.conditions
      → IsTidy c
      → IsTidy (config_map_step q r a c).1
  unfolding config_map_step
  config_map_step-IsTidy r a c u h =
      elim (Result-cases (reconcile_config_map r.order r.calls.config_map a c.config_map).result) [
        | inr (x, e) ↦ rw (config_map_step, e) (fail-IsTidy r _ x a _ u h)
        | inl (x, e) ↦ rw (config_map_step, e) (stateful_set_step-IsTidy r a _ u h)
      ]

  put_updated-IsTidy :
      (updated : Bool) (a : TailpostAgent) (c : Cluster q)
      → Unique a.status.conditions
      → IsTidy c
      → IsTidy (if updated then put_agent q a c else c)
  unfolding put_agent
  put_updated-IsTidy true a c u h = u
  put_updated-IsTidy false a c u h = h

  defaults_step-IsTidy :
      (r : Round) (a : TailpostAgent) (c : Cluster q)
      → Unique a.status.conditions
      → IsTidy c
      → IsTidy (defaults_step q r a c).1
  unfolding defaults_step
  defaults_step-IsTidy r a c u h =
      let d = set_defaults r.default_image a r.calls.update_instance_fails in
      let v : Unique d.instance_after.status.conditions =
        subst Unique (set_defaults-conditions r.default_image a r.calls.update_instance_fails) u in
      elim (Result-cases d.result) [
        | inr (x, e) ↦ rw (defaults_step, e) h
        | inl (x, e) ↦
            rw (defaults_step, e)
              (config_map_step-IsTidy r d.instance_after _ v
                (put_updated-IsTidy d.update_called d.instance_after c v h))
      ]

  reconcile-IsTidy : (r : Round) (c : Cluster q) → IsTidy c → IsTidy (reconcile q r c).1
  unfolding reconcile
  reconcile-IsTidy r c h = elim (Bool-cases r.calls.get_instance_fails) [
    | inl e ↦ rw (reconcile, e) h
    | inr e ↦ elim (Option-cases c.agent) [
      | inl n ↦ rw (reconcile, e, n) h
      | inr (a, n) ↦ rw (reconcile, e, n) (defaults_step-IsTidy r a c (rw n at h) h)
    ]
  ]

  -- Whatever calls fail in whatever rounds, the agent that the cluster stores never gets two
  -- conditions of one type.
  pub reconciles-IsTidy : (rs : List Round) (c : Cluster q) → IsTidy c → IsTidy (reconciles q rs c)
  unfolding reconciles
  reconciles-IsTidy [] c h = h
  reconciles-IsTidy (r ∷ rs) c h = reconciles-IsTidy rs (reconcile q r c).1 (reconcile-IsTidy r c h)
