-- ===== src/Operator/Cluster/Converge.antt =====
-- A round in which no call fails brings the objects of an agent up to date.
use tailpost.Base.{
  true, false, Option, none, some, ◌≡◌, refl, sym, ap, ◌∙◌, subst, arith, if◌then◌else◌, ok,
  Bool-cases, inl, inr, String,
}
use tailpost.Operator.{
  AgentSpec, AgentStatus, TailpostAgent, Condition, condition_type_degraded,
  condition_type_available, needs_update, set_defaults, find_condition,
}
use tailpost.Operator.Conditions.{Unique, find-available}
use tailpost.Operator.Resources.{get_stateful_set_name, create_config_map, config_map_needs_update}
use tailpost.Operator.StatefulSets.{
  Quantities, StatefulSet, create_stateful_set, stateful_set_needs_update,
}
use tailpost.Operator.Services.{create_service, service_needs_update}
use tailpost.Operator.Settles.{create_config_map-set_defaults}
use tailpost.Operator.Reconcile.{
  no_faults, with_spec, reconcile_config_map, reconcile_stateful_set, reconcile_service,
}
use tailpost.Operator.Cluster.{
  Round, Ending, resynced, Cluster, put_agent, status_step, config_map_step, defaults_step,
  reconcile,
}
use tailpost.Operator.Cluster.Tidy.{set_defaults-conditions}
use tailpost.Operator.Cluster.Steps.{
  fill_idle, reconcile_lem, defaults_step_ok, config_map_step_ok, stateful_set_step_ok,
  service_step_ok,
}
use tailpost.Operator.Cluster.Settled.{
  succeeding, IsCurrent, reconcile_object-IsCurrent, IsSettled, status_after, status_step_lem,
  config_map_current_lem, service_current_lem, stateful_set_current_lem,
}

set_defaults-ok : (image : String) (a : TailpostAgent) → (set_defaults image a false).result ≡ ok tt
unfolding set_defaults
set_defaults-ok image a = ground arith

-- The objects do not depend on the status.
status_irrelevant :
    (q : Quantities) (r : Round) (a : TailpostAgent) (c : Cluster q) (status : AgentStatus)
    → IsSettled q r a c
    → IsSettled q r (record a { status = status }) c
unfolding create_config_map create_stateful_set create_service get_stateful_set_name
status_irrelevant q r a c status h = record {
  config_map_current = h.config_map_current;
  stateful_set_current = h.stateful_set_current;
  service_current = h.service_current;
}

module _ (q : Quantities) (same_refl : (x : q.Quantity) → q.same x x ≡ true) (r : Round)
    (a : TailpostAgent) (c : Cluster q) (at : c.agent ≡ some a) where
  -- The instance behind `setDefaults`.
  abbrev pub defaulted : TailpostAgent
  defaulted = (set_defaults r.default_image a false).instance_after

  abbrev started : Cluster q
  started = record c { agent = some defaulted }

  config_map_ok :
      ((reconcile_config_map r.order no_faults defaulted c.config_map).result ≡ ok tt)
      × IsCurrent config_map_needs_update
          (create_config_map r.order defaulted)
          (reconcile_config_map r.order no_faults defaulted c.config_map).stored
  unfolding reconcile_config_map
  config_map_ok =
      let (d, made) = create_config_map-set_defaults r.order r.default_image a false in
      reconcile_object-IsCurrent config_map_needs_update _ config_map_current_lem
        (λ d. config_map_current_lem d d) d (create_config_map r.order defaulted) c.config_map made

  service_ok :
      ((reconcile_service no_faults defaulted c.service).result ≡ ok tt)
      × IsCurrent service_needs_update
          (some (create_service defaulted))
          (reconcile_service no_faults defaulted c.service).stored
  unfolding reconcile_service
  service_ok =
      reconcile_object-IsCurrent service_needs_update _ service_current_lem
        (λ d. service_current_lem d d) (create_service defaulted) (some (create_service defaulted))
        c.service refl

  started_lem :
      (if (set_defaults r.default_image a false).update_called then put_agent q defaulted c else c)
      ≡ started
  unfolding set_defaults put_agent
  started_lem = elim (Bool-cases (needs_update a.spec)) [
    | inl n ↦ rw n refl
    | inr n ↦
        let same : defaulted ≡ a =
          ap (λ (s : AgentSpec). record a { spec = s }) (fill_idle r.default_image a.spec n) in
        rw n (ap (λ (o : Option TailpostAgent). record c { agent = o }) (at ∙ ap some (sym same)))
  ]

  defaults_lem :
      defaults_step q (succeeding r) a c ≡ config_map_step q (succeeding r) defaulted started
  defaults_lem =
      defaults_step_ok q (succeeding r) a c (set_defaults-ok r.default_image a)
      ∙ ap (config_map_step q (succeeding r) defaulted) started_lem

  module _ (d : StatefulSet q) (made : create_stateful_set q defaulted ≡ some d) where
    stateful_set_ok :
        ((reconcile_stateful_set q no_faults defaulted c.stateful_set).result ≡ ok tt)
        × IsCurrent
            (stateful_set_needs_update q)
            (create_stateful_set q defaulted)
            (reconcile_stateful_set q no_faults defaulted c.stateful_set).stored
    unfolding reconcile_stateful_set
    stateful_set_ok =
        reconcile_object-IsCurrent (stateful_set_needs_update q) with_spec
          (stateful_set_current_lem q same_refl) (λ d. stateful_set_current_lem q same_refl d d) d
          (create_stateful_set q defaulted) c.stateful_set made

    abbrev settled : Cluster q
    settled = record {
      agent = some defaulted;
      config_map = (reconcile_config_map r.order no_faults defaulted c.config_map).stored;
      stateful_set = (reconcile_stateful_set q no_faults defaulted c.stateful_set).stored;
      service = (reconcile_service no_faults defaulted c.service).stored;
      ready = c.ready;
    }

    objects_lem :
        config_map_step q (succeeding r) defaulted started
        ≡ status_step q (succeeding r) defaulted settled
    objects_lem =
        config_map_step_ok q (succeeding r) defaulted started config_map_ok.0
        ∙ stateful_set_step_ok q (succeeding r) defaulted _ stateful_set_ok.0
        ∙ service_step_ok q (succeeding r) defaulted _ service_ok.0

    -- When no call fails, a round ends with a requeue after the resync period, whatever the cluster
    -- stored before, if the conditions were distinct and the resources of the agent are quantities. It
    -- leaves the three objects there and in need of no update by a round that lists the keys of the maps in
    -- the same order (another order may want another text of the ConfigMap), and the stored agent with the defaults,
    -- without a condition `Degraded` and with a condition `Available` of status `True`.
    pub reconcile-IsSettled :
        Unique a.status.conditions
        → (b : TailpostAgent) × ((reconcile q (succeeding r) c).0 ≡ resynced)
          × ((reconcile q (succeeding r) c).1.agent ≡ some b)
          × (b.spec ≡ defaulted.spec)
          × IsSettled q r b (reconcile q (succeeding r) c).1
          × (find_condition condition_type_degraded b.status.conditions ≡ none)
          × ((d : Condition) × (find_condition condition_type_available b.status.conditions
                ≡ some d)
              × (d.status ≡ "True"))
    reconcile-IsSettled u =
        let (m, s, e, there, n) = stateful_set_ok.1 in
        let b : TailpostAgent = status_after q r defaulted settled defaulted in
        let after : Cluster q = record settled { agent = some b } in
        let whole : reconcile q (succeeding r) c ≡ (resynced, after) =
          reconcile_lem q (succeeding r) a c at refl
          ∙ defaults_lem
          ∙ objects_lem
          ∙ status_step_lem q r defaulted defaulted s settled refl there in
        let v : Unique defaulted.status.conditions =
          subst Unique (set_defaults-conditions r.default_image a false) u in
        let (absent, present) = find-available r.now defaulted.status.conditions v in
        let done : IsSettled q r b after = status_irrelevant q r defaulted after b.status (record {
          config_map_current = config_map_ok.1;
          stateful_set_current = stateful_set_ok.1;
          service_current = service_ok.1;
        }) in
        (
          b,
          ap (λ (x : Ending × Cluster q). x.0) whole,
          ap (λ (x : Ending × Cluster q). x.1.agent) whole,
          refl,
          subst (λ (x : Ending × Cluster q). IsSettled q r b x.1) (sym whole) done,
          absent,
          present,
        )
