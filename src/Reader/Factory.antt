-- ===== src/Reader/Factory.antt =====
-- pkg/reader/reader_factory.go: the source types, and the reader made for a configuration.
pub mod Readers
use tailpost.Base.{
  Bool, true, false, not, ◌||◌, Option, none, some, String, eqs, if◌then◌else◌, Result, ok, err,
}

-- `LogSourceType` is a string; these are its constants.
abbrev pub file_source_type : String
file_source_type = "file"

abbrev pub container_source_type : String
container_source_type = "container"

abbrev pub pod_source_type : String
pod_source_type = "pod"

abbrev pub windows_event_source_type : String
windows_event_source_type = "windows_event"

abbrev pub macos_asl_source_type : String
macos_asl_source_type = "macos_asl"

pub record LogSourceConfig : Type 0 where
  pub type : String
  pub path : String
  pub namespace : String
  pub pod_name : String
  pub container_name : String
  pub pod_selector : String
  pub namespace_selector : String
  pub windows_event_log_name : String
  pub windows_event_log_level : String
  pub macos_log_query : String

pub data FactoryError : Type 0 where
  unknown_type path_required namespace_required pod_name_required container_name_required :
      FactoryError
  pod_not_implemented only_on_windows only_on_macos : FactoryError
  no_cluster no_windows_reader no_macos_reader : FactoryError

-- `ParseSourceType`, where `to_lower` is `strings.ToLower`.
unfoldable pub parse_source_type : (String → String) → String → Result FactoryError String
parse_source_type to_lower s =
    let l = to_lower s in
    if eqs l file_source_type
    then ok file_source_type
    else if eqs l container_source_type
    then ok container_source_type
    else if eqs l pod_source_type
    then ok pod_source_type
    else if eqs l windows_event_source_type || (eqs l "windows" || eqs l "event")
    then ok windows_event_source_type
    else if eqs l macos_asl_source_type || (eqs l "macos" || eqs l "asl")
    then ok macos_asl_source_type
    else err unknown_type

-- A reader that was made, with what it was made of.
pub data LogReader : Type 0 where
  file_reader : String → LogReader
  container_reader : String → String → String → LogReader
  windows_event_log_reader : String → String → LogReader
  macos_log_reader : String → LogReader

-- The operating system, and the constructors that are variables of the package:
-- `NewContainerReader` needs a cluster, the other two are replaced on their own platform.
pub record Host : Type 0 where
  pub goos : String
  pub new_container_reader : String → String → String → Result FactoryError LogReader
  pub macos_log_reader_factory : String → Result FactoryError LogReader
  pub windows_event_log_reader_factory : String → String → Result FactoryError LogReader

-- The values that the two factories have in this file.
unfoldable pub default_macos_log_reader_factory : String → Result FactoryError LogReader
default_macos_log_reader_factory query = err no_macos_reader

unfoldable pub default_windows_event_log_reader_factory :
    String → String → Result FactoryError LogReader
default_windows_event_log_reader_factory name level = err no_windows_reader

unfoldable pub new_container : Host → LogSourceConfig → Result FactoryError LogReader
new_container host c =
    if eqs c.namespace ""
    then err namespace_required
    else if eqs c.pod_name ""
    then err pod_name_required
    else if eqs c.container_name ""
    then err container_name_required
    else host.new_container_reader c.namespace c.pod_name c.container_name

unfoldable pub new_windows : Host → LogSourceConfig → Result FactoryError LogReader
new_windows host c =
    if not (eqs host.goos "windows")
    then err only_on_windows
    else host.windows_event_log_reader_factory
        (if eqs c.windows_event_log_name "" then "Application" else c.windows_event_log_name)
        (if eqs c.windows_event_log_level "" then "Information" else c.windows_event_log_level)

-- `NewReader`.
unfoldable pub new_reader : Host → LogSourceConfig → Result FactoryError LogReader
unfolding new_container new_windows
new_reader host c =
    if eqs c.type file_source_type
    then (if eqs c.path "" then err path_required else ok (file_reader c.path))
    else if eqs c.type container_source_type
    then new_container host c
    else if eqs c.type pod_source_type
    then err pod_not_implemented
    else if eqs c.type windows_event_source_type
    then new_windows host c
    else if eqs c.type macos_asl_source_type
    then (if not (eqs host.goos "darwin")
        then err only_on_macos
        else host.macos_log_reader_factory c.macos_log_query)
    else err unknown_type
