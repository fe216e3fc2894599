-- ===== src/Operator/Defaults.antt =====
-- The defaults of the custom resource.
use tailpost.Base.{
  Bool, false, none, String, eqs, eq_iff, ◌≡◌, ◌≢◌, refl, arith, if◌then◌else◌, ok, Option-cases,
}
use tailpost.Operator.{AgentSpec, TailpostAgent, fill, needs_update, set_defaults}

-- Every field that the operator reads without a test is set.
pub record IsComplete (s : AgentSpec) : Type 0 where
  pub has_image : s.image ≢ ""
  pub has_policy : s.image_pull_policy ≢ ""
  pub has_replicas : s.replicas ≢ none
  pub has_batch_size : s.batch_size ≢ none
  pub has_interval : s.flush_interval ≢ ""

default_given : (s d : String) → d ≢ "" → (if eqs s "" then d else s) ≢ ""
default_given s d h = ground (arith, eq_iff s "", h)

fill-IsComplete : (d : String) (s : AgentSpec) → d ≢ "" → IsComplete (fill d s)
unfolding fill
fill-IsComplete d s h = record {
  has_image = default_given s.image d h;
  has_policy =
      default_given s.image_pull_policy "IfNotPresent"
        (λ e. ground (arith, (eq_iff "IfNotPresent" "").1 e));
  has_replicas = ground (arith, Option-cases s.replicas);
  has_batch_size = ground (arith, Option-cases s.batch_size);
  has_interval = default_given s.flush_interval "5s" (λ e. ground (arith, (eq_iff "5s" "").1 e));
}

pub complete_needs_none : (s : AgentSpec) → IsComplete s → needs_update s ≡ false
unfolding needs_update
complete_needs_none s h = ground (
  arith,
  eq_iff s.image "",
  eq_iff s.image_pull_policy "",
  eq_iff s.flush_interval "",
  Option-cases s.replicas,
  Option-cases s.batch_size,
  h.has_image,
  h.has_policy,
  h.has_replicas,
  h.has_batch_size,
  h.has_interval,
)

-- After `setDefaults` with a default image that is not empty, every defaulted field is set, so that
-- the code that dereferences the batch size does not panic; and setting the defaults again succeeds
-- without another update, whether or not an update would fail.
set_defaults_settles :
    (default_image : String) (a : TailpostAgent) (first_fails then_fails : Bool)
    → default_image ≢ ""
    → let b = (set_defaults default_image a first_fails).instance_after in
      IsComplete b.spec
      × ((set_defaults default_image b then_fails).update_called ≡ false)
      × ((set_defaults default_image b then_fails).result ≡ ok tt)
unfolding set_defaults
set_defaults_settles d a x y h =
    let full = fill-IsComplete d a.spec h in
    let idle = complete_needs_none (fill d a.spec) full in (full, idle, rw idle refl)
