-- ===== src/Operator/Copies.antt =====
-- The deep copies of pkg/k8s/api/v1alpha1/types.go, over a store of what the pointers and the slices
-- of a resource lead to: an address is an index, and a new cell has the next one. The metadata and the
-- label selectors are types of apimachinery with a deep copy of their own: the metadata are left out, and
-- a selector is a value that is copied as a whole.
pub mod Stores
pub mod Arrays
pub mod Apart
pub mod Items
use tailpost.Base.{ℕ, zero, suc, List, [], ◌∷◌, ◌++◌, Option, none, some, String, length, ◌*◌}
use tailpost.Base.Int.{ℤ}
use tailpost.Operator.{Condition, ResourceRequirementsSpec}

-- `LogSourceSpec`, with its two pointers.
pub record Source : Type 0 where
  pub type : String
  pub path : String
  pub container_name : String
  pub pod_selector : Option ℕ
  pub namespace_selector : Option ℕ

pub record Spec : Type 0 where
  pub replicas : Option ℕ
  pub image : String
  pub image_pull_policy : String
  pub service_account : String
  pub log_sources : Option ℕ
  pub server_url : String
  pub batch_size : Option ℕ
  pub flush_interval : String
  pub resources : ResourceRequirementsSpec

pub record Status : Type 0 where
  pub conditions : Option ℕ
  pub available_replicas : ℤ
  pub last_update_time : ℕ

pub record Agent : Type 0 where
  pub spec : Spec
  pub status : Status

-- `TailpostAgentList`, less its metadata: the slice `Items`.
pub record AgentList : Type 0 where
  pub items : Option ℕ

-- What an address holds: an `int32`, a selector, or the array of a slice.
pub data Cell (Selector : Type 0) : Type 0 where
  number : ℤ → Cell Selector
  selector : Selector → Cell Selector
  sources : List Source → Cell Selector
  conditions : List Condition → Cell Selector
  agents : List Agent → Cell Selector

module _ {A : Type 0} where
  -- A read, and a write.
  abbrev pub get : List A → ℕ → Option A
  get [] n = none
  get (c ∷ cs) zero = some c
  get (c ∷ cs) (suc n) = get cs n

  abbrev pub put : ℕ → A → List A → List A
  put n x [] = []
  put zero x (c ∷ cs) = x ∷ cs
  put (suc n) x (c ∷ cs) = c ∷ put n x cs

-- The store: its cells, by address.
abbrev pub Store : Type 0 → Type 0
Store Selector = List (Cell Selector)

module _ {Selector : Type 0} where
  abbrev pub at : Store Selector → Option ℕ → Option (Cell Selector)
  at h none = none
  at h (some a) = get h a

  -- `*out = new(T)`, or `make`, with the content of `in`, if `in` is not nil.
  abbrev pub new_cell : Option (Cell Selector) → Store Selector → Option ℕ × Store Selector
  new_cell none h = (none, h)
  new_cell (some c) h = (some (length h), h ++ (c ∷ []))

  unfoldable pub copy_pointer : Option ℕ → Store Selector → Option ℕ × Store Selector
  copy_pointer p h = new_cell (at h p) h

  -- `DeepCopyInto` of `LogSourceSpec`.
  unfoldable pub copy_source : Source → Store Selector → Source × Store Selector
  unfolding copy_pointer
  copy_source s h =
      let pod = copy_pointer s.pod_selector h in
      let namespace = copy_pointer s.namespace_selector pod.1 in
      (record s { pod_selector = pod.0; namespace_selector = namespace.0 }, namespace.1)

  unfoldable pub copy_sources : List Source → Store Selector → List Source × Store Selector
  unfolding copy_source
  copy_sources [] h = ([], h)
  copy_sources (s ∷ ss) h =
      let first = copy_source s h in
      let rest = copy_sources ss first.1 in (first.0 ∷ rest.0, rest.1)

  -- The copy of the slice `LogSources`, and of its elements.
  abbrev pub copy_array : Option (Cell Selector) → Store Selector → Option ℕ × Store Selector
  copy_array none h = (none, h)
  copy_array (some (number n)) h = (none, h)
  copy_array (some (selector s)) h = (none, h)
  copy_array (some (conditions cs)) h = (none, h)
  copy_array (some (agents xs)) h = (none, h)
  copy_array (some (sources ss)) h =
      let all = copy_sources ss h in (some (length all.1), all.1 ++ (sources all.0 ∷ []))

  -- `DeepCopyInto` of `TailpostAgentSpec`.
  unfoldable pub copy_spec : Spec → Store Selector → Spec × Store Selector
  unfolding copy_pointer copy_sources
  copy_spec s h =
      let replicas = copy_pointer s.replicas h in
      let batch_size = copy_pointer s.batch_size replicas.1 in
      let log_sources = copy_array (at batch_size.1 s.log_sources) batch_size.1 in
      (
        record s { replicas = replicas.0; batch_size = batch_size.0; log_sources = log_sources.0 },
        log_sources.1,
      )

  -- `DeepCopyInto` of `TailpostAgentStatus`.
  unfoldable pub copy_status : Status → Store Selector → Status × Store Selector
  unfolding copy_pointer
  copy_status s h =
      let conditions = copy_pointer s.conditions h in
      (record s { conditions = conditions.0 }, conditions.1)

  -- `DeepCopy` of `TailpostAgent`.
  unfoldable pub deep_copy : Agent → Store Selector → Agent × Store Selector
  unfolding copy_spec copy_status
  deep_copy a h =
      let spec = copy_spec a.spec h in
      let status = copy_status a.status spec.1 in
      (record { spec = spec.0; status = status.0 }, status.1)

  -- The loop over `Items`, which copies each agent into its place.
  unfoldable pub copy_agents : List Agent → Store Selector → List Agent × Store Selector
  unfolding deep_copy
  copy_agents [] h = ([], h)
  copy_agents (a ∷ xs) h =
      let first = deep_copy a h in let rest = copy_agents xs first.1 in (first.0 ∷ rest.0, rest.1)

  abbrev pub copy_items : Option (Cell Selector) → Store Selector → Option ℕ × Store Selector
  copy_items none h = (none, h)
  copy_items (some (number n)) h = (none, h)
  copy_items (some (selector s)) h = (none, h)
  copy_items (some (conditions cs)) h = (none, h)
  copy_items (some (sources ss)) h = (none, h)
  copy_items (some (agents xs)) h =
      let all = copy_agents xs h in (some (length all.1), all.1 ++ (agents all.0 ∷ []))

  -- `DeepCopy` of `TailpostAgentList`.
  unfoldable pub deep_copy_list : AgentList → Store Selector → AgentList × Store Selector
  unfolding copy_agents
  deep_copy_list l h =
      let items = copy_items (at h l.items) h in (record { items = items.0 }, items.1)
