-- ===== src/Operator/Cluster/Steps.antt =====
-- Each step of a round, when what it calls succeeds.
use tailpost.Base.{false, String, some, ◌≡◌, refl, arith, if◌then◌else◌, ok, Option-cases}
use tailpost.Operator.{AgentSpec, TailpostAgent, fill, needs_update, set_defaults}
use tailpost.Operator.StatefulSets.{Quantities}
use tailpost.Operator.Reconcile.{reconcile_config_map, reconcile_stateful_set, reconcile_service}
use tailpost.Operator.Cluster.{
  Round, Cluster, put_agent, status_step, service_step, stateful_set_step, config_map_step,
  defaults_step, reconcile,
}

pub fill_idle : (image : String) (s : AgentSpec) → needs_update s ≡ false → fill image s ≡ s
unfolding fill needs_update
fill_idle image s h = ground (arith, Option-cases s.replicas, Option-cases s.batch_size)

-- A step that succeeds goes on to the next one.
module _ (q : Quantities) (r : Round) (a : TailpostAgent) (c : Cluster q) where
  pub reconcile_lem :
      c.agent ≡ some a
      → r.calls.get_instance_fails ≡ false
      → reconcile q r c ≡ defaults_step q r a c
  unfolding reconcile
  reconcile_lem e f = ground arith

  pub defaults_step_ok :
      let d = set_defaults r.default_image a r.calls.update_instance_fails in
      d.result ≡ ok tt
      → defaults_step q r a c
        ≡ config_map_step q r d.instance_after
            (if d.update_called then put_agent q d.instance_after c else c)
  unfolding defaults_step
  defaults_step_ok e = rw (defaults_step, e) refl

  pub config_map_step_ok :
      let o = reconcile_config_map r.order r.calls.config_map a c.config_map in
      o.result ≡ ok tt
      → config_map_step q r a c ≡ stateful_set_step q r a (record c { config_map = o.stored })
  unfolding config_map_step
  config_map_step_ok e = rw (config_map_step, e) refl

  pub stateful_set_step_ok :
      let o = reconcile_stateful_set q r.calls.stateful_set a c.stateful_set in
      o.result ≡ ok tt
      → stateful_set_step q r a c ≡ service_step q r a (record c { stateful_set = o.stored })
  unfolding stateful_set_step
  stateful_set_step_ok e = rw (stateful_set_step, e) refl

  pub service_step_ok :
      let o = reconcile_service r.calls.service a c.service in
      o.result ≡ ok tt → service_step q r a c ≡ status_step q r a (record c { service = o.stored })
  unfolding service_step
  service_step_ok e = rw (service_step, e) refl
