-- ===== src/Operator/Startup/Ends.antt =====
-- How a run of the operator's `main` ends.
use tailpost.Base.{true, List, [], ◌∷◌, ◌++◌, none, String, Bytes, bytes, ◌≡◌, ◌≢◌, refl, All, ◌*◌}
use tailpost.Flags.{Defined}
use tailpost.Flags.Undefined.{written, is_name}
use tailpost.Telemetry.{Sdk}
use tailpost.Base.Int.{pos}
use tailpost.Config.{second}
use tailpost.Operator.Variables.{
  metrics_addr, health_probe_addr, enable_leader_election, Variables, Setting, own_flag, defined,
}
use tailpost.Operator.Variables.Parses.{Given, arguments, AreTaken, read_flags-undefined}
use tailpost.Operator.Startup.{Calls, Managed, run_with, main}

module _ (sdk : Sdk) (text_of : Bytes → String) (getenv : String → String) (calls : Calls)
    (imported zap : Defined Setting) where
  -- The operator does not start with a flag that it does not know: when the arguments, each written
  -- `--name=value`, are flags that it takes, and then one whose name neither its own code nor an imported
  -- package defines, other than help, the process ends with status 2 and no manager was started.
  pub undefined_flag_ends :
      (gs : Given) (n v : Bytes) (rest : List Bytes)
      → AreTaken (defined imported) gs
      → is_name n ≡ true
      → own_flag n ≡ none
      → imported n ≡ none
      → n ≢ bytes "help"
      → n ≢ bytes "h"
      → let r = main sdk text_of getenv calls imported zap (arguments gs ++ (written n v ∷ rest)) in
        (r.status ≡ 2) × (r.managed ≡ none)
  unfolding main run_with defined
  undefined_flag_ends gs n v rest taken name own other no_help no_h =
      let unknown : defined imported n ≡ none = rw own other in
      rw (read_flags-undefined imported zap gs n v rest taken name unknown no_help no_h)
        (refl, refl)

-- What holds of the manager that `main` starts.
pub record IsServing (calls : Calls) (o : Variables) (m : Managed) : Type 0 where
  pub configured : calls.get_config ≡ true
  pub metrics_address : m.options.metrics_bind_address ≡ o.text metrics_addr
  pub probe_address : m.options.health_probe_bind_address ≡ o.text health_probe_addr
  pub elects : m.options.leader_election ≡ o.is_on enable_leader_election
  pub election_id : m.options.leader_election_id ≡ "tailpost-operator-leader-election"
  pub shutdown_timeout : m.options.graceful_shutdown_timeout ≡ pos (30 * second)
  pub made : calls.new_manager m.options ≡ true
  pub reconciling : calls.setup_with_manager m.reconciler ≡ true
  pub image : m.reconciler.default_image ≡ "tailpost:latest"
  pub live : All (λ (name : String). calls.add_healthz_check name ≡ true) m.healthz
  pub ready : All (λ (name : String). calls.add_readyz_check name ≡ true) m.readyz
  pub checks :
      (m.healthz ≡ "healthz" ∷ "webhook" ∷ "kubernetes-api" ∷ []) × (m.readyz ≡ "readyz" ∷ [])
