-- ===== src/Operator/Cluster/Settled.antt =====
-- What a round leaves when no call fails, and that the next round writes no object.
use tailpost.Base.{
  Bool, true, false, List, [], ◌∷◌, Option, none, some, ◌≡◌, refl, ◌∙◌, arith, eq_iff, ==_iff, ok,
  inl, inr, Bool-cases,
}
use tailpost.Operator.{
  TailpostAgent, condition_type_degraded, update_status, set_available, available,
}
use tailpost.Operator.Conditions.{remove_condition_idle}
use tailpost.Operator.Settles.{data_equal_refl, int_equal_refl, pointer_equal_refl, pointers_refl}
use tailpost.Operator.Resources.{ConfigMap, create_config_map, config_map_needs_update}
use tailpost.Operator.StatefulSets.{
  Quantities, StatefulSet, create_stateful_set, stateful_set_needs_update, int_equal,
}
use tailpost.Operator.Services.{
  create_service, ports_equal, service_needs_update, Service, ServicePort,
}
use tailpost.Operator.Reconcile.{Faults, no_faults, reconcile_object}
use tailpost.Operator.Cluster.{
  Calls, Round, resynced, Cluster, put_status, finish, got_of, status_step,
}

abbrev pub no_failures : Calls
no_failures = record {
  get_instance_fails = false;
  update_instance_fails = false;
  config_map = no_faults;
  stateful_set = no_faults;
  service = no_faults;
  get_set_fails = false;
  update_status_fails = false;
  set_condition_fails = false;
  remove_condition_fails = false;
}

-- The round in which every call succeeds.
abbrev pub succeeding : Round → Round
succeeding r = record r { calls = no_failures }

module _ {A : Type 0} (needs : A → A → Bool) where
  -- The object is there, and needs no update.
  abbrev pub IsCurrent : Option A → Option A → Type 0
  IsCurrent desired stored =
      (d : A) × (m : A) × (desired ≡ some d) × (stored ≡ some m) × (needs m d ≡ false)

  pub reconcile_object-IsCurrent :
      (merge : A → A → A)
      → ((m d : A) → needs (merge m d) d ≡ false)
      → ((d : A) → needs d d ≡ false)
      → (d : A) (desired stored : Option A) → desired ≡ some d
      → ((reconcile_object needs merge no_faults desired stored).result ≡ ok tt)
        × IsCurrent desired (reconcile_object needs merge no_faults desired stored).stored
  unfolding reconcile_object
  reconcile_object-IsCurrent merge merged same d desired none e =
      (rw e refl, (d, d, e, rw e refl, same d))
  reconcile_object-IsCurrent merge merged same d desired (some m) e =
      elim (Bool-cases (needs m d)) [
        | inl n ↦ (rw (e, n) refl, (d, merge m d, e, rw (e, n) refl, merged m d))
        | inr n ↦ (rw (e, n) refl, (d, m, e, rw (e, n) refl, n))
      ]

  pub reconcile_object-idle :
      (merge : A → A → A) (f : Faults) (desired stored : Option A)
      → f.owner_fails ≡ false
      → f.get_fails ≡ false
      → IsCurrent desired stored
      → reconcile_object needs merge f desired stored ≡ record { result = ok tt; stored = stored }
  unfolding reconcile_object
  reconcile_object-idle merge f desired stored owns gets (d, m, e, h, n) =
      rw (e, h, owns, gets, n) refl

ports_equal_refl : (ps : List ServicePort) → ports_equal ps ps ≡ true
unfolding ports_equal
ports_equal_refl [] = refl
ports_equal_refl (p ∷ ps) = ground (
  arith,
  eq_iff p.name p.name,
  eq_iff p.protocol p.protocol,
  ==_iff p.port p.port,
  ==_iff p.target_port p.target_port,
  ports_equal_refl ps,
)

module _ (q : Quantities) (r : Round) where
  -- The three objects of an agent are there, and need no update by a round with the order of `r`.
  pub record IsSettled (a : TailpostAgent) (c : Cluster q) : Type 0 where
    pub config_map_current :
        IsCurrent config_map_needs_update (create_config_map r.order a) c.config_map
    pub stateful_set_current :
        IsCurrent (stateful_set_needs_update q) (create_stateful_set q a) c.stateful_set
    pub service_current : IsCurrent service_needs_update (some (create_service a)) c.service

  -- The status that a round leaves.
  abbrev pub status_after : TailpostAgent → Cluster q → TailpostAgent → TailpostAgent
  status_after b c s = record s {
    status = record {
      conditions = available r.now b.status.conditions;
      available_replicas = c.ready;
      last_update_time = r.now;
    };
  }

  finish_lem :
      (b s : TailpostAgent) (c : Cluster q)
      → c.agent ≡ some s
      → finish q (succeeding r) b c ≡ (
        resynced,
        record c {
          agent = some (record s {
            status = record b.status { conditions = available r.now b.status.conditions };
          });
        },
      )
  unfolding finish available put_status
  finish_lem b s c e =
      let set = set_available r.now b.status.conditions in
      ground (arith, remove_condition_idle condition_type_degraded set)

  pub status_step_lem :
      (b s : TailpostAgent) (m : StatefulSet q) (c : Cluster q)
      → c.agent ≡ some s
      → c.stateful_set ≡ some m
      → status_step q (succeeding r) b c
        ≡ (resynced, record c { agent = some (status_after b c s) })
  unfolding status_step update_status got_of put_status
  status_step_lem b s m c e f =
      let status = record b.status { available_replicas = c.ready; last_update_time = r.now } in
      let b' : TailpostAgent = record b { status = status } in
      let s' : TailpostAgent = record s { status = status } in
      let first : status_step q (succeeding r) b c
          ≡ finish q (succeeding r) b' (record c { agent = some s' }) =
        ground arith in
      first ∙ finish_lem b' s' (record c { agent = some s' }) refl

pub config_map_current_lem :
    (m d : ConfigMap) → config_map_needs_update (record m { data_of = d.data_of }) d ≡ false
unfolding config_map_needs_update
config_map_current_lem m d = rw data_equal_refl refl

pub service_current_lem :
    (m d : Service)
    → service_needs_update (record m { selector = d.selector; ports = d.ports }) d ≡ false
unfolding service_needs_update
service_current_lem m d = rw (data_equal_refl, ports_equal_refl) refl

module _ (q : Quantities) (same_refl : (x : q.Quantity) → q.same x x ≡ true) where
  pub stateful_set_current_lem :
      (m d : StatefulSet q) → stateful_set_needs_update q (record m { spec = d.spec }) d ≡ false
  unfolding stateful_set_needs_update
  stateful_set_current_lem m d =
      rw
        (
          pointer_equal_refl int_equal int_equal_refl d.spec.replicas,
          (eq_iff d.spec.container.image d.spec.container.image).1 refl,
          pointers_refl q same_refl d.spec.container.resources.limits,
          pointers_refl q same_refl d.spec.container.resources.requests,
        )
        refl
