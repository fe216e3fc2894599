-- ===== src/Operator.antt =====
-- pkg/k8s/api/v1alpha1/types.go and pkg/k8s/operator/controller.go: the custom resource, its
-- defaults and its conditions. A `metav1.Time` is a number of seconds, an `int32` an integer. The
-- label selectors of a log source, which no code of the operator reads, are left out. The writes of
-- the status after a change of the conditions stand in Operator/Cluster.
pub mod Conditions
pub mod Defaults
pub mod Resources
pub mod StatefulSets
pub mod Services
pub mod Reconcile
pub mod Cluster
pub mod Settles
pub mod Copies
pub mod Decoded
pub mod Pods
pub mod Variables
pub mod Startup
use tailpost.Base.{
  ℕ, Bool, true, false, ◌||◌, List, [], ◌∷◌, ◌++◌, Option, none, some, String, eqs, if◌then◌else◌,
  Result, ok, err,
}
use tailpost.Base.Int.{ℤ, pos}

pub record LogSourceSpec : Type 0 where
  pub type : String
  pub path : String
  pub container_name : String

pub record ResourceListSpec : Type 0 where
  pub cpu : String
  pub memory : String

pub record ResourceRequirementsSpec : Type 0 where
  pub limits : ResourceListSpec
  pub requests : ResourceListSpec

pub record AgentSpec : Type 0 where
  pub replicas : Option ℤ
  pub image : String
  pub image_pull_policy : String
  pub service_account : String
  pub log_sources : List LogSourceSpec
  pub server_url : String
  pub batch_size : Option ℤ
  pub flush_interval : String
  pub resources : ResourceRequirementsSpec

pub record Condition : Type 0 where
  pub type : String
  pub status : String
  pub last_transition_time : ℕ
  pub reason : String
  pub message : String

pub record AgentStatus : Type 0 where
  pub conditions : List Condition
  pub available_replicas : ℤ
  pub last_update_time : ℕ

pub record TailpostAgent : Type 0 where
  pub name : String
  pub namespace : String
  pub spec : AgentSpec
  pub status : AgentStatus

abbrev pub condition_type_available : String
condition_type_available = "Available"

abbrev pub condition_type_degraded : String
condition_type_degraded = "Degraded"

-- `if p == nil { p = &d }`.
abbrev given : Option ℤ → ℤ → Option ℤ
given none d = some d
given (some n) d = some n

abbrev is_none : Option ℤ → Bool
is_none none = true
is_none (some n) = false

-- The defaults of the spec, for `r.DefaultImage`.
unfoldable pub fill : String → AgentSpec → AgentSpec
fill default_image s = record s {
  image = if eqs s.image "" then default_image else s.image;
  image_pull_policy = if eqs s.image_pull_policy "" then "IfNotPresent" else s.image_pull_policy;
  replicas = given s.replicas (pos 1);
  batch_size = given s.batch_size (pos 10);
  flush_interval = if eqs s.flush_interval "" then "5s" else s.flush_interval;
}

-- `needsUpdate`.
unfoldable pub needs_update : AgentSpec → Bool
needs_update s =
    eqs s.image ""
    || (eqs s.image_pull_policy ""
        || (is_none s.replicas || (is_none s.batch_size || eqs s.flush_interval "")))

pub data OperatorError : Type 0 where
  updating_instance getting_stateful_set updating_status : OperatorError

-- `setDefaults`: its return, the instance behind it, and whether `r.Update` was called. The last
-- argument says whether that call fails.
pub record Defaulted : Type 0 where
  pub result : Result OperatorError (Unit {0})
  pub instance_after : TailpostAgent
  pub update_called : Bool

unfoldable pub set_defaults : String → TailpostAgent → Bool → Defaulted
unfolding fill needs_update
set_defaults default_image a update_fails = record {
  result =
      if needs_update a.spec
      then (if update_fails then err updating_instance else ok tt)
      else ok tt;
  instance_after = record a { spec = fill default_image a.spec };
  update_called = needs_update a.spec;
}

-- `findCondition`.
unfoldable pub find_condition : String → List Condition → Option Condition
find_condition t [] = none
find_condition t (c ∷ cs) = let rest = find_condition t cs in if eqs c.type t then some c else rest

-- The write through the pointer that `findCondition` returned: the first condition of the type.
unfoldable pub write_condition : Condition → List Condition → List Condition
write_condition d [] = []
write_condition d (c ∷ cs) =
    let rest = write_condition d cs in if eqs c.type d.type then d ∷ cs else c ∷ rest

abbrev set_existing : Condition → List Condition → Option Condition → List Condition
set_existing d cs none = cs ++ (d ∷ [])
set_existing d cs (some c) = if eqs c.status d.status then cs else write_condition d cs

-- `setCondition`, where the argument is the condition with the time of the call.
unfoldable pub set_condition : Condition → List Condition → List Condition
unfolding find_condition write_condition
set_condition d cs = set_existing d cs (find_condition d.type cs)

-- `removeCondition`.
unfoldable pub remove_condition : String → List Condition → List Condition
remove_condition t [] = []
remove_condition t (c ∷ cs) =
    let rest = remove_condition t cs in if eqs c.type t then cs else c ∷ rest

-- What `r.Get` of the StatefulSet comes to: its ready replicas, not found, or another error.
pub data Got : Type 0 where
  ready_replicas : ℤ → Got
  not_found get_failed : Got

unfoldable pub updated : ℤ → ℕ → Bool → TailpostAgent → Result OperatorError TailpostAgent
updated n now update_fails a =
    if update_fails
    then err updating_status
    else ok
        (record a { status = record a.status { available_replicas = n; last_update_time = now } })

-- `updateStatus`; on success, the instance.
unfoldable pub update_status : Got → ℕ → Bool → TailpostAgent → Result OperatorError TailpostAgent
unfolding updated
update_status (ready_replicas n) now update_fails a = updated n now update_fails a
update_status not_found now update_fails a = updated (pos 0) now update_fails a
update_status get_failed now update_fails a = err getting_stateful_set

-- The condition that `Reconcile` sets when a step fails with a reason and a message.
unfoldable pub degraded : ℕ → String → String → List Condition → List Condition
unfolding set_condition
degraded now reason message cs =
    set_condition
      (record {
        type = condition_type_degraded;
        status = "True";
        last_transition_time = now;
        reason = reason;
        message = message;
      })
      cs

-- The condition that `Reconcile` sets when every step succeeded.
unfoldable pub set_available : ℕ → List Condition → List Condition
unfolding set_condition
set_available now cs =
    set_condition
      (record {
        type = condition_type_available;
        status = "True";
        last_transition_time = now;
        reason = "AgentAvailable";
        message = "The agent is available";
      })
      cs

-- The end of `Reconcile`, when every step succeeded.
unfoldable pub available : ℕ → List Condition → List Condition
unfolding set_available remove_condition
available now cs = remove_condition condition_type_degraded (set_available now cs)
