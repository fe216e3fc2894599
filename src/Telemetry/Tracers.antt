-- ===== src/Telemetry/Tracers.antt =====
-- Which settings of pkg/observability give a tracer.
use tailpost.Base.{
  Bool, true, false, not, ◌||◌, List, Option, none, some, ◌≡◌, refl, String, eqs, Bool-cases, inl,
  inr,
}
use tailpost.Config.Load.{or_default}
use tailpost.Telemetry.{
  Protocol, ManagerConfig, Sdk, set_defaults, new_telemetry_manager, with_exporter, start,
}

-- The exporter types that `Start` knows.
abbrev pub is_known : String → Bool
is_known t = eqs t "grpc" || (eqs t "http" || eqs t "none")

abbrev pub has_tracer : {A : Type 0} → Option A → Bool
has_tracer none = false
has_tracer (some t) = true

module _ (sdk : Sdk)
    (resources : (attributes : List (String × String)) → sdk.new_resource attributes ≡ true)
    (exporters : (p : Protocol) (endpoint : String) (headers : List (String × String))
      → sdk.new_exporter p endpoint headers ≡ true) where
  -- When the SDK refuses nothing, there is a tracer if telemetry is off or the exporter type is known.
  pub tracer_started :
      (c : ManagerConfig)
      → has_tracer (start sdk (new_telemetry_manager sdk c)).1.tracer
        ≡ (not c.enabled || is_known (or_default c.exporter_type "grpc"))
  unfolding new_telemetry_manager set_defaults start with_exporter
  tracer_started c = elim (Bool-cases c.enabled) [
    | inr e ↦ rw (e) refl
    | inl e ↦ elim (Bool-cases (eqs (or_default c.exporter_type "grpc") "grpc")) [
      | inl g ↦ rw (e, resources _, g, exporters _ _ _) refl
      | inr g ↦ elim (Bool-cases (eqs (or_default c.exporter_type "grpc") "http")) [
        | inl h ↦ rw (e, resources _, g, h, exporters _ _ _) refl
        | inr h ↦ elim (Bool-cases (eqs (or_default c.exporter_type "grpc") "none")) [
          | inl n ↦ rw (e, resources _, g, h, n) refl
          | inr n ↦ rw (e, resources _, g, h, n) refl
        ]
      ]
    ]
  ]
