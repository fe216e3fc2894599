-- ===== src/Operator/Pods.antt =====
-- What the agent in a pod of the operator makes of the ConfigMap that it finds there:
-- `CreateConfigMap` of pkg/k8s/resources/resources.go, `LoadConfig` of pkg/config/config.go and the
-- reader of cmd/agent.go together. That the ConfigMap is mounted, and what the parser of YAML reads
-- out of its text, are hypotheses.
pub mod Others
pub mod Command
use tailpost.Base.{
  ℕ, Bool, true, false, not, ◌&&◌, List, [], ◌∷◌, Option, none, some, String, Bytes, bytes, eqs,
  equal, Option-cases, inl, inr, eq_iff, ◌≡◌, ◌≢◌, refl, ap, sym, ◌∙◌, arith, if◌then◌else◌, Result,
  ok, err, map,
}
use tailpost.Base.Int.{ℤ, pos, is_zero}
use tailpost.Config.{Config, file_log_source, default_security_config, second}
use tailpost.Config.Load.{
  Platform, load_config, complete, expand_log_path, get_default_log_path, server_url_required,
}
use tailpost.Config.Load
use tailpost.Reader.Factory.{Host, LogReader, file_reader, parse_source_type, new_reader}
use tailpost.Agent.Setup.{source_config_single, reader_single}
use tailpost.Operator.{LogSourceSpec, AgentSpec, TailpostAgent, set_defaults}
use tailpost.Flags.{
  Defined, parse, parse_one, classify, named_of, split_value, set_argument, set_found, set_flag,
}
use tailpost.Agent.Arguments.{Setting, default_arguments, read_arguments, defined, put, put_all}
use tailpost.Operator.StatefulSets.{Quantities, Requirements, container_of}
use tailpost.Operator.Decoded.{file_path, config_of, decoded, config_data-decoded}
use tailpost.Operator.Resources.{
  Value, text, number, log_path_entry, ConfigMap, Order, config_data, yaml, create_config_map,
}

-- The checks of `LoadConfig` pass for a file without security features.
plain_file :
    (p : Platform) (c : Config)
    → c.log_source_type ≡ file_log_source
    → c.log_path ≢ ""
    → c.security.tls.enabled ≡ false
    → c.security.auth.type ≡ "none"
    → c.security.encryption.enabled ≡ false
    → c.server_url ≢ ""
    → Load.validate p c ≡ ok tt
unfolding Load.validate Load.validate_source Load.validate_tls Load.validate_auth
    Load.validate_encryption
plain_file p c e h t a n u =
    rw e (rw t (rw a (rw n (ground (arith, eq_iff c.log_path "", eq_iff c.server_url "")))))

abbrev given : AgentSpec → ℤ → ℤ → Config
given s b i = config_of (file_path s.log_sources) s.server_url b i

module _ (p : Platform) (linux : p.goos ≡ "linux") (s : AgentSpec) (b i : ℤ) where
  abbrev settings : Config
  settings = Load.set_defaults p (given s b i)

  -- The defaults that matter for a reader of a file, and what is kept.
  settings-fields :
      (settings.log_source_type ≡ file_log_source)
      × (settings.log_path ≡ expand_log_path p (file_path s.log_sources))
      × (settings.security.tls.enabled ≡ false)
      × (settings.security.auth.type ≡ "none")
      × (settings.security.encryption.enabled ≡ false)
      × (settings.server_url ≡ s.server_url)
  unfolding Load.set_defaults Load.set_common Load.set_event Load.set_log_path
      Load.get_default_log_source_type Load.set_security Load.set_tls Load.set_auth
      Load.set_encryption default_security_config
  settings-fields = rw linux (refl, refl, refl, refl, refl, refl)

  loads :
      s.server_url ≢ ""
      → expand_log_path p (file_path s.log_sources) ≢ ""
      → complete p (given s b i) ≡ ok settings
  unfolding complete
  loads url path =
      let (e, l, t, a, n, u) = settings-fields in
      let checked = plain_file p settings e (λ x. path (sym l ∙ x)) t a n (λ x. url (sym u ∙ x)) in
      rw checked refl

  reads :
      (to_lower : String → String) (concat : String → String → String) (host : Host)
      → to_lower "file" ≡ "file"
      → expand_log_path p (file_path s.log_sources) ≢ ""
      → reader_single to_lower concat host settings
        ≡ ok (file_reader (expand_log_path p (file_path s.log_sources)))
  unfolding reader_single parse_source_type source_config_single new_reader
  reads to_lower concat host lower path =
      let (e, l, t, a, n, u) = settings-fields in
      rw e (rw lower (ground (arith, l, eq_iff settings.log_path "")))

-- The file of a mounted ConfigMap.
unfoldable pub file_of : Bytes → List (Bytes × Bytes) → Option Bytes
file_of name [] = none
file_of name ((k, v) ∷ rest) =
    let found = file_of name rest in if equal name k then some v else found

abbrev text_at : Option ConfigMap → Option Bytes
text_at none = none
text_at (some m) = file_of (bytes "config.yaml") m.data_of

config_map-text :
    (order : Order) (a : TailpostAgent) (m : ConfigMap) (n : ℤ)
    → a.spec.batch_size ≡ some n
    → create_config_map order a ≡ some m
    → file_of (bytes "config.yaml") m.data_of ≡ some (yaml (order (config_data a.spec n)))
unfolding create_config_map file_of equal
config_map-text order a m n e h =
    let made : text_at (create_config_map order a) ≡ some (yaml (order (config_data a.spec n))) =
      rw e refl in
    ap text_at (sym h) ∙ made

-- The agent in a pod of the operator reads one file, whatever the types of the log sources: with the
-- ConfigMap that the operator makes of a custom resource with a server and a batch size, mounted where
-- the StatefulSet puts it, on Linux the configuration loads, keeps the server's URL, and its reader is that of
-- the first file source with a path, or of the default path when there is none. The other log sources
-- have no effect. The parser is assumed to read each entry of the ConfigMap's text under its key, and
-- the path to be not empty once `${OS_DEFAULT}` is replaced.
pub pod_reads_file :
    (p : Platform) (host : Host) (to_lower : String → String) (concat : String → String → String)
    (read_file : String → Option Bytes) (unmarshal : Bytes → Option Config) (order : Order)
    (a : TailpostAgent) (m : ConfigMap) (size : ℤ) (duration : String → ℤ)
    → p.goos ≡ "linux"
    → to_lower "file" ≡ "file"
    → create_config_map order a ≡ some m
    → read_file "/app/config/config.yaml" ≡ file_of (bytes "config.yaml") m.data_of
    → a.spec.batch_size ≡ some size
    → unmarshal (yaml (order (config_data a.spec size)))
      ≡ some (decoded duration (config_data a.spec size))
    → a.spec.server_url ≢ ""
    → expand_log_path p (file_path a.spec.log_sources) ≢ ""
    → (c : Config) × (load_config p read_file unmarshal "/app/config/config.yaml" ≡ ok c)
      × (c.server_url ≡ a.spec.server_url)
      × (reader_single to_lower concat host c
          ≡ ok (file_reader (expand_log_path p (file_path a.spec.log_sources))))
unfolding load_config
pod_reads_file p host to_lower concat read_file unmarshal order a m n duration linux lower made
      mount sized parse url path =
    let i = duration a.spec.flush_interval in
    let text = config_map-text order a m n sized made in
    let (e, l, t, b, x, kept) = settings-fields p linux a.spec n i in
    (
      settings p linux a.spec n i,
      rw (mount ∙ text, load_config)
          (rw (parse ∙ ap (λ (c : Config). some c) (config_data-decoded duration a.spec n))
            (loads p linux a.spec n i url path)),
      kept,
      reads p linux a.spec n i to_lower concat host lower path,
    )
