-- ===== src/Examples/EntryPoint.antt =====
-- The theorems on the operator's `main`, with the arguments of deploy/kubernetes/operator_deployment.yaml
-- and with ones that it takes.
use tailpost.Base.{true, List, [], ◌∷◌, ◌++◌, none, ◌≡◌, refl, arith, Bytes, bytes, equal}
use tailpost.Base.Int.{pos}
use tailpost.Flags.{Defined, parse, set_flag}
use tailpost.Flags.Undefined.{written}
use tailpost.Operator.Variables.{
  Variables, Setting, own_flag, defined, default_variables, parsed_on, put_all, read_flags,
  set_switch, set_text, metrics_addr, enable_leader_election,
}
use tailpost.Operator.Variables.Parses.{Given, arguments, AreTaken, read_flags_once}
use tailpost.Operator.Startup.{Calls, Reconciler, main}
use tailpost.Operator.Startup.Ends.{undefined_flag_ends}
use tailpost.Examples.Pipeline.{sdk}

-- No flags of imported packages or of zap.
abbrev others : Defined Setting
others n = none

abbrev calls : Calls
calls = record {
  get_config = true;
  new_manager = λ options. true;
  new_for_config = true;
  setup_with_manager = λ r. true;
  add_healthz_check = λ name. true;
  add_readyz_check = λ name. true;
  manager_start = true;
}

abbrev leading : List Bytes
leading = bytes "--metrics-addr=:9090" ∷ bytes "-enable-leader-election" ∷ []

read_flags_once_example :
    read_flags others others leading ≡ parsed_on default_variables (parse (defined others) leading)
read_flags_once_example = read_flags_once others others leading

-- A flag that the operator takes, and then those of the deployment.
abbrev given : Given
given = (bytes "metrics-addr", bytes ":9090", set_text metrics_addr (bytes ":9090")) ∷ []

given-AreTaken : AreTaken (defined others) given
unfolding defined own_flag equal set_flag
given-AreTaken = ((refl, (_, refl, refl)), tt)

unknown : own_flag (bytes "metrics-bind-address") ≡ none
unfolding own_flag equal
unknown = refl

deployed :
    written (bytes "metrics-bind-address") (bytes ":8080") ≡ bytes "--metrics-bind-address=:8080"
deployed = refl

undefined_flag_ends_example :
    let r =
      main sdk
        (λ b. "")
        (λ name. "")
        calls
        others
        others
        (arguments given
          ++ (written (bytes "metrics-bind-address") (bytes ":8080")
              ∷ bytes "--health-probe-bind-address=:8081"
              ∷ bytes "--leader-elect=false"
              ∷ [])) in
    (r.status ≡ 2) × (r.managed ≡ none)
undefined_flag_ends_example =
    undefined_flag_ends sdk (λ b. "") (λ name. "") calls others others given
      (bytes "metrics-bind-address") (bytes ":8080")
      (bytes "--health-probe-bind-address=:8081" ∷ bytes "--leader-elect=false" ∷ []) given-AreTaken
      refl unknown refl (λ e. ground arith) (λ e. ground arith)

abbrev variables : Variables
variables =
    put_all (set_text metrics_addr (bytes ":9090") ∷ set_switch enable_leader_election true ∷ [])
      default_variables

abbrev reconciler : Reconciler
reconciler = record {
  recorder = "tailpostagent-controller";
  default_image = "tailpost:latest";
  resync_period = pos 600_000_000_000;
  requeue_period = pos 30_000_000_000;
}
