-- ===== src/Agent/Readers.antt =====
-- What `setupLogReader` makes of a configuration that `LoadConfig` returned.
use tailpost.Base.{Option, String, Bytes, eq_iff, ◌≡◌, arith, ok, err}
use tailpost.Config.{Config, file_log_source, container_log_source, pod_log_source}
use tailpost.Config.Load.{Platform, load_config}
use tailpost.Config.Load.Valid.{IsValid, load_config-IsValid}
use tailpost.Reader.Factory.{Host, file_reader, pod_not_implemented, new_reader}
use tailpost.Agent.{source_config}

module _ (p : Platform) (read_file : String → Option Bytes) (unmarshal : Bytes → Option Config)
    (path : String) (c : Config) (loaded : load_config p read_file unmarshal path ≡ ok c)
    (host : Host) where
  abbrev valid : IsValid p c
  valid = load_config-IsValid p read_file unmarshal path c loaded

  -- A loaded configuration for a file has a reader of that file.
  loaded_file :
      c.log_source_type ≡ file_log_source
      → new_reader host (source_config c) ≡ ok (file_reader c.log_path)
  unfolding new_reader source_config
  loaded_file e = rw e (ground (arith, eq_iff c.log_path "", valid.source.file e))

  -- One for a container reaches the constructor of container readers with its three names.
  loaded_container :
      c.log_source_type ≡ container_log_source
      → new_reader host (source_config c)
        ≡ host.new_container_reader c.namespace c.pod_name c.container_name
  unfolding new_reader source_config
  loaded_container e = rw e (
      ground (
        arith,
        eq_iff c.namespace "",
        eq_iff c.pod_name "",
        eq_iff c.container_name "",
        valid.source.container e,
      ))

  -- One for pods is accepted by `LoadConfig`, and never has a reader.
  loaded_pod :
      c.log_source_type ≡ pod_log_source
      → new_reader host (source_config c) ≡ err pod_not_implemented
  unfolding new_reader source_config
  loaded_pod e = rw e
