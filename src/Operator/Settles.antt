-- ===== src/Operator/Settles.antt =====
-- What the reconciliations of the ConfigMap and the StatefulSet leave in the cluster.
use tailpost.Base.{
  Bool, true, false, List, [], ◌∷◌, Option, none, some, ◌≡◌, refl, arith, String, Bytes, eq_iff,
  equal_iff, ==_iff, ok, Option-cases, Bool-cases, inl, inr,
}
use tailpost.Base.Int.{ℤ, pos, negsuc}
use tailpost.Operator.{TailpostAgent, set_defaults}
use tailpost.Operator.Resources.{
  Order, ConfigMap, get_stateful_set_name, get_labels, get_config_map_name, create_config_map,
  data_equal, config_map_needs_update, get_service_name,
}
use tailpost.Operator.StatefulSets.{
  Quantities, ResourceList, int_equal, pointer_equal, list_equal, requirements, StatefulSet,
  create_stateful_set, stateful_set_needs_update, container_of,
}
use tailpost.Operator.Reconcile.{Faults, no_faults, reconcile_config_map, reconcile_stateful_set}

data_equal-eq : (ds es : List (Bytes × Bytes)) → data_equal ds es ≡ true → ds ≡ es
unfolding data_equal
data_equal-eq [] [] h = refl
data_equal-eq [] (e ∷ es) h = cc
data_equal-eq (d ∷ ds) [] h = cc
data_equal-eq ((k, v) ∷ ds) ((j, w) ∷ es) h =
    ground (arith, equal_iff k j, equal_iff v w, data_equal-eq ds es)

pub data_equal_refl : (ds : List (Bytes × Bytes)) → data_equal ds ds ≡ true
unfolding data_equal
data_equal_refl [] = refl
data_equal_refl ((k, v) ∷ ds) = ground (arith, equal_iff k k, equal_iff v v, data_equal_refl ds)

-- Once the defaults are set, the ConfigMap is created without a panic: its data is one file.
pub create_config_map-set_defaults :
    (order : Order) (default_image : String) (a : TailpostAgent) (fails : Bool)
    → (m : ConfigMap) × (create_config_map order (set_defaults default_image a fails).instance_after
        ≡ some m)
unfolding create_config_map set_defaults
create_config_map-set_defaults order d a fails = elim (Option-cases a.spec.batch_size) [
  | inl e ↦ rw e (_, refl)
  | inr (n, e) ↦ rw e (_, refl)
]

-- When no call fails, reconciling the ConfigMap of an agent leaves one with the desired data in the
-- cluster, whatever was there before; and doing it again with the same order of the keys succeeds
-- and changes nothing, even when every write fails.
reconcile_config_map_settles :
    (order : Order) (a : TailpostAgent) (d : ConfigMap) (before : Option ConfigMap) (f : Faults)
    → create_config_map order a ≡ some d
    → f.owner_fails ≡ false
    → f.get_fails ≡ false
    → (m : ConfigMap) × (reconcile_config_map order no_faults a before
        ≡ record { result = ok tt; stored = some m })
      × (m.data_of ≡ d.data_of)
      × (reconcile_config_map order f a (some m) ≡ record { result = ok tt; stored = some m })
unfolding reconcile_config_map config_map_needs_update
reconcile_config_map_settles order a d none f made owns gets =
    (d, rw made refl, refl, rw (made, owns, gets, data_equal_refl) refl)
reconcile_config_map_settles order a d (some c) f made owns gets =
    elim (Bool-cases (data_equal c.data_of d.data_of)) [
      | inl e ↦
          (c, rw (made, e) refl, data_equal-eq c.data_of d.data_of e, rw (made, owns, gets, e) refl)
      | inr e ↦ (
        record c { data_of = d.data_of },
        rw (made, e) refl,
        refl,
        rw (made, owns, gets, data_equal_refl) refl,
      )
    ]

pub int_equal_refl : (n : ℤ) → int_equal n n ≡ true
int_equal_refl (pos n) = ground (arith, ==_iff n n)
int_equal_refl (negsuc n) = ground (arith, ==_iff n n)

pub pointer_equal_refl {ℓ} :
    {A : Type ℓ} (f : A → A → Bool)
    → ((x : A) → f x x ≡ true)
    → (o : Option A) → pointer_equal f o o ≡ true
pointer_equal_refl f h none = refl
pointer_equal_refl f h (some x) = h x

module _ (q : Quantities) (same_refl : (x : q.Quantity) → q.same x x ≡ true) where
  list_equal_refl : (l : ResourceList q) → list_equal q l l ≡ true
  list_equal_refl l = ground (
    arith,
    pointer_equal_refl q.same same_refl l.cpu,
    pointer_equal_refl q.same same_refl l.memory,
  )

  pub pointers_refl : (o : Option (ResourceList q)) → pointer_equal (list_equal q) o o ≡ true
  pointers_refl o = pointer_equal_refl (list_equal q) list_equal_refl o

  -- The same set with another service account and another policy.
  abbrev changed : String → String → StatefulSet q → StatefulSet q
  changed account policy s = record s {
    spec = record s.spec {
      service_account = account;
      container = record s.spec.container { image_pull_policy = policy };
    };
  }

  changed_needs_none :
      (account policy : String) (s : StatefulSet q)
      → stateful_set_needs_update q s (changed account policy s) ≡ false
  unfolding stateful_set_needs_update
  changed_needs_none account policy s =
      rw
        (
          pointer_equal_refl int_equal int_equal_refl s.spec.replicas,
          (eq_iff s.spec.container.image s.spec.container.image).1 refl,
          pointers_refl s.spec.container.resources.limits,
          pointers_refl s.spec.container.resources.requests,
        )
        refl

  abbrev changed_in : String → String → Option (StatefulSet q) → Option (StatefulSet q)
  changed_in account policy none = none
  changed_in account policy (some s) = some (changed account policy s)

  create-changed :
      (a : TailpostAgent) (account policy : String)
      → create_stateful_set q (record a {
        spec = record a.spec { service_account = account; image_pull_policy = policy };
      })
        ≡ changed_in account policy (create_stateful_set q a)
  unfolding create_stateful_set container_of get_service_name get_stateful_set_name get_labels
      get_config_map_name
  create-changed a account policy = elim (Option-cases (requirements q a.spec.resources)) [
    | inl e ↦ rw (create_stateful_set, e) refl
    | inr (r, e) ↦ rw (create_stateful_set, e) refl
  ]

  -- A StatefulSet that was created for an agent is kept as it is when the agent's service account
  -- and pull policy change and nothing else does: the change never reaches the pods.
  service_account_ignored :
      (a : TailpostAgent) (s : StatefulSet q) (service_account policy : String) (f : Faults)
      → create_stateful_set q a ≡ some s
      → f.owner_fails ≡ false
      → f.get_fails ≡ false
      → let b = record a {
        spec = record a.spec { service_account = service_account; image_pull_policy = policy };
      } in
        reconcile_stateful_set q f b (some s) ≡ record { result = ok tt; stored = some s }
  unfolding reconcile_stateful_set
  service_account_ignored a s account policy f made owns gets =
      rw (create-changed a account policy, made, owns, gets, changed_needs_none account policy s)
        refl
