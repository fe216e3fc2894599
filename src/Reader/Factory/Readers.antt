-- ===== src/Reader/Factory/Readers.antt =====
-- Which configurations have a reader.
use tailpost.Base.{String, eq_iff, ◌≡◌, ◌≢◌, ◌⊎◌, inl, inr, arith, ok}
use tailpost.Reader.Factory.{
  file_source_type, container_source_type, pod_source_type, windows_event_source_type,
  macos_asl_source_type, LogSourceConfig, LogReader, Host, parse_source_type, new_reader,
}

-- The type is one of the five constants.
abbrev IsSourceType : String → Type 0
IsSourceType s =
    (s ≡ file_source_type)
    ⊎ (s ≡ container_source_type)
    ⊎ (s ≡ pod_source_type)
    ⊎ (s ≡ windows_event_source_type)
    ⊎ (s ≡ macos_asl_source_type)

pub parse_source_type-IsSourceType :
    (to_lower : String → String) (s t : String)
    → parse_source_type to_lower s ≡ ok t
    → IsSourceType t
unfolding parse_source_type
parse_source_type-IsSourceType to_lower s t h = ground arith

parse_constant :
    (to_lower : String → String) (t : String)
    → to_lower t ≡ t
    → IsSourceType t
    → parse_source_type to_lower t ≡ ok t
unfolding parse_source_type
parse_constant to_lower t l (inl e) = rw (l, e)
parse_constant to_lower t l (inr (inl e)) = rw (l, e)
parse_constant to_lower t l (inr (inr (inl e))) = rw (l, e)
parse_constant to_lower t l (inr (inr (inr (inl e)))) = rw (l, e)
parse_constant to_lower t l (inr (inr (inr (inr e)))) = rw (l, e)

-- What `ParseSourceType` accepts it turns into one of the five constants, and each constant that it
-- returns it accepts as itself, where lowering the case of a constant changes nothing.
parse_source_type_idem :
    (to_lower : String → String) (s t : String)
    → ((c : String) → IsSourceType c → to_lower c ≡ c)
    → parse_source_type to_lower s ≡ ok t
    → IsSourceType t × (parse_source_type to_lower t ≡ ok t)
parse_source_type_idem to_lower s t lowered h =
    let known = parse_source_type-IsSourceType to_lower s t h in
    (known, parse_constant to_lower t (lowered t known) known)

-- A reader is made only for one of the five types, and never for pods.
new_reader-IsSourceType :
    (host : Host) (c : LogSourceConfig) (r : LogReader)
    → new_reader host c ≡ ok r
    → IsSourceType c.type × (c.type ≢ pod_source_type)
unfolding new_reader
new_reader-IsSourceType host c r h = (
  ground (
    arith,
    eq_iff c.type file_source_type,
    eq_iff c.type container_source_type,
    eq_iff c.type windows_event_source_type,
    eq_iff c.type macos_asl_source_type,
  ),
  λ e. let h' = rw e at h in cc,
)
