-- ===== src/Operator/Pods/Others.antt =====
-- The log sources that the agent in a pod does not read.
use mathlib.Core.List.{Mem, mem-cons_self, mem-cons_of_mem}
use tailpost.Base.{
  List, [], ◌∷◌, Option, some, String, Bytes, bytes, eq_iff, ◌≡◌, ◌≢◌, refl, ap, ◌∙◌, arith, ok,
}
use tailpost.Base.Int.{ℤ}
use tailpost.Config.{Config}
use tailpost.Config.Load.{Platform, load_config, expand_log_path, get_default_log_path}
use tailpost.Reader.Factory.{Host, file_reader}
use tailpost.Agent.Setup.{reader_single}
use tailpost.Operator.{LogSourceSpec, TailpostAgent}
use tailpost.Operator.Resources.{ConfigMap, Order, config_data, yaml, create_config_map}
use tailpost.Operator.Decoded.{file_path, decoded}
use tailpost.Operator.Pods.{file_of, pod_reads_file}

syslog : (p : Platform) → p.goos ≡ "linux" → expand_log_path p "" ≡ "/var/log/syslog"
unfolding expand_log_path get_default_log_path
syslog p linux = rw linux refl

no_file_path :
    (sources : List LogSourceSpec)
    → ((s : LogSourceSpec) → Mem s sources → s.type ≢ "file")
    → file_path sources ≡ ""
unfolding file_path
no_file_path [] h = refl
no_file_path (s ∷ ss) h =
    let rest = no_file_path ss (λ x m. h x (mem-cons_of_mem s m)) in
    let other = h s mem-cons_self in ground (arith, eq_iff s.type "file")

-- A custom resource that asks for containers or pods only gets an agent that reads the system log:
-- when no log source is of the type "file", under the same assumptions on Linux, the mounted
-- ConfigMap and the parser, the configuration loads and the reader is that of /var/log/syslog.
pub other_sources_ignored :
    (p : Platform) (host : Host) (to_lower : String → String) (concat : String → String → String)
    (read_file : String → Option Bytes) (unmarshal : Bytes → Option Config) (order : Order)
    (a : TailpostAgent) (m : ConfigMap) (size : ℤ) (duration : String → ℤ)
    → p.goos ≡ "linux"
    → to_lower "file" ≡ "file"
    → create_config_map order a ≡ some m
    → read_file "/app/config/config.yaml" ≡ file_of (bytes "config.yaml") m.data_of
    → a.spec.batch_size ≡ some size
    → unmarshal (yaml (order (config_data a.spec size)))
      ≡ some (decoded duration (config_data a.spec size))
    → a.spec.server_url ≢ ""
    → ((s : LogSourceSpec) → Mem s a.spec.log_sources → s.type ≢ "file")
    → (c : Config) × (load_config p read_file unmarshal "/app/config/config.yaml" ≡ ok c)
      × (reader_single to_lower concat host c ≡ ok (file_reader "/var/log/syslog"))
other_sources_ignored p host to_lower concat read_file unmarshal order a m n duration linux lower
      made mount sized parse url none_file =
    let e = no_file_path a.spec.log_sources none_file in
    let path : expand_log_path p (file_path a.spec.log_sources) ≡ "/var/log/syslog" =
      ap (expand_log_path p) e ∙ syslog p linux in
    let (c, loaded, kept, reader) =
      pod_reads_file p host to_lower concat read_file unmarshal order a m n duration linux lower
        made mount sized parse url (λ x. ground (arith, eq_iff "/var/log/syslog" "", path, x)) in
    (c, loaded, reader ∙ ap (λ (x : String). ok (file_reader x)) path)
