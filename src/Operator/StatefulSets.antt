-- ===== src/Operator/StatefulSets.antt =====
-- pkg/k8s/resources/resources.go: the StatefulSet of an agent. `resource.MustParse` of a text that is
-- no quantity panics, which is `none`.
use tailpost.Base.{
  ℕ, Bool, true, false, not, ◌&&◌, ◌||◌, List, [], ◌∷◌, Option, none, some, String, Bytes, bytes,
  eqs, ◌==◌, if◌then◌else◌,
}
use tailpost.Base.Int.{ℤ, pos, negsuc}
use tailpost.Operator.{ResourceListSpec, ResourceRequirementsSpec, AgentSpec, TailpostAgent}
use tailpost.Operator.Resources.{
  Labels, get_labels, get_config_map_name, get_stateful_set_name, get_service_name,
}

-- `resource.Quantity`: what `ParseQuantity` accepts, and `reflect.DeepEqual` of two quantities.
pub record Quantities : Type 1 where
  pub Quantity : Type 0
  pub parse : String → Option Quantity
  pub same : Quantity → Quantity → Bool

abbrev pub int_equal : ℤ → ℤ → Bool
int_equal (pos m) (pos n) = m == n
int_equal (pos m) (negsuc n) = false
int_equal (negsuc m) (pos n) = false
int_equal (negsuc m) (negsuc n) = m == n

-- `reflect.DeepEqual` of two pointers, by what they point to.
abbrev pub pointer_equal {ℓ} : {A : Type ℓ} → (A → A → Bool) → Option A → Option A → Bool
pointer_equal f none none = true
pointer_equal f none (some y) = false
pointer_equal f (some x) none = false
pointer_equal f (some x) (some y) = f x y

pub record Port : Type 0 where
  pub name : String
  pub container_port : ℕ
  pub protocol : String

pub record Mount : Type 0 where
  pub name : String
  pub mount_path : String
  pub read_only : Bool

pub data Volume : Type 0 where
  config_map_volume : String → Bytes → Volume
  host_path_volume : String → String → Volume

-- A probe by an HTTP GET.
pub record Probe : Type 0 where
  pub path : String
  pub port : ℕ
  pub scheme : String
  pub initial_delay_seconds : ℕ
  pub timeout_seconds : ℕ
  pub period_seconds : ℕ

abbrev pub probe : String → ℕ → Probe
probe path delay = record {
  path = path;
  port = 8080;
  scheme = "HTTP";
  initial_delay_seconds = delay;
  timeout_seconds = 5;
  period_seconds = 10;
}

module _ (q : Quantities) where
  open q use {Quantity, parse, same}

  -- A `ResourceList` with the two resources that the code sets.
  pub record ResourceList : Type 0 where
    pub cpu : Option Quantity
    pub memory : Option Quantity

  pub record Requirements : Type 0 where
    pub limits : Option ResourceList
    pub requests : Option ResourceList

  -- An empty text sets nothing; `none` is a panic.
  unfoldable pub quantity : String → Option (Option Quantity)
  quantity s =
      if eqs s "" then some none else elim (parse s) [ none ↦ none | some x ↦ some (some x) ]

  unfoldable pub resource_list : ResourceListSpec → Option (Option ResourceList)
  unfolding quantity
  resource_list r = if eqs r.cpu "" && eqs r.memory "" then some none else elim (quantity r.cpu) [
    | none ↦ none
    | some c ↦ elim (quantity r.memory) [
      | none ↦ none
      | some m ↦ some (some (record { cpu = c; memory = m }))
    ]
  ]

  unfoldable pub requirements : ResourceRequirementsSpec → Option Requirements
  unfolding resource_list
  requirements r = elim (resource_list r.limits) [
    | none ↦ none
    | some l ↦ elim (resource_list r.requests) [
      | none ↦ none
      | some m ↦ some (record { limits = l; requests = m })
    ]
  ]

  pub record Container : Type 0 where
    pub name : String
    pub image : String
    pub image_pull_policy : String
    pub command : List String
    pub args : List String
    pub ports : List Port
    pub volume_mounts : List Mount
    pub resources : Requirements
    pub liveness_probe : Probe
    pub readiness_probe : Probe

  -- The pods have one container: `Containers[0]`.
  pub record StatefulSetSpec : Type 0 where
    pub replicas : Option ℤ
    pub selector : Labels
    pub service_name : Bytes
    pub template_labels : Labels
    pub service_account : String
    pub container : Container
    pub volumes : List Volume

  pub record StatefulSet : Type 0 where
    pub name : Bytes
    pub namespace : Bytes
    pub labels : Labels
    pub spec : StatefulSetSpec

  -- The container of an agent.
  unfoldable pub container_of : AgentSpec → Requirements → Container
  container_of s r = record {
    name = "tailpost-agent";
    image = s.image;
    image_pull_policy = s.image_pull_policy;
    command = "/app/tailpost" ∷ [];
    args = "-config" ∷ "/app/config/config.yaml" ∷ [];
    ports = record { name = "metrics"; container_port = 8080; protocol = "TCP" } ∷ [];
    volume_mounts =
        record { name = "config"; mount_path = "/app/config"; read_only = false }
        ∷ record { name = "log-volume"; mount_path = "/host/var/log"; read_only = true }
        ∷ [];
    resources = r;
    liveness_probe = probe "/health" 30;
    readiness_probe = probe "/ready" 5;
  }

  -- `CreateStatefulSet`.
  unfoldable pub create_stateful_set : TailpostAgent → Option StatefulSet
  unfolding requirements container_of
  create_stateful_set a = elim (requirements a.spec.resources) [
    | none ↦ none
    | some r ↦ some (record {
      name = get_stateful_set_name a;
      namespace = bytes a.namespace;
      labels = get_labels a;
      spec = record {
        replicas = a.spec.replicas;
        selector = get_labels a;
        service_name = get_service_name a;
        template_labels = get_labels a;
        service_account = a.spec.service_account;
        container = container_of a.spec r;
        volumes =
            config_map_volume "config" (get_config_map_name a)
            ∷ host_path_volume "log-volume" "/var/log"
            ∷ [];
      };
    })
  ]

  abbrev pub list_equal : ResourceList → ResourceList → Bool
  list_equal l m = pointer_equal same l.cpu m.cpu && pointer_equal same l.memory m.memory

  -- `StatefulSetNeedsUpdate`.
  unfoldable pub stateful_set_needs_update : StatefulSet → StatefulSet → Bool
  stateful_set_needs_update current desired =
      not (pointer_equal int_equal current.spec.replicas desired.spec.replicas)
      || (not (eqs current.spec.container.image desired.spec.container.image)
          || not (
              pointer_equal list_equal current.spec.container.resources.limits
                desired.spec.container.resources.limits
              && pointer_equal list_equal current.spec.container.resources.requests
                  desired.spec.container.resources.requests))
