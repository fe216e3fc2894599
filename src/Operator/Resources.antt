-- ===== src/Operator/Resources.antt =====
-- pkg/k8s/resources/resources.go: the names, the labels and the ConfigMap of an agent. Names are
-- bytes. A Go map is the list of its entries: the order in which `yaml` ranges over one is an
-- argument. The dereference of a `nil` pointer panics, which is `none`.
use tailpost.Base.{
  suc, Bool, true, false, not, ◌&&◌, List, [], ◌∷◌, ◌++◌, Option, none, some, String, Bytes, bytes,
  eqs, equal, if◌then◌else◌,
}
use tailpost.Base.Int.{ℤ, pos, negsuc}
use tailpost.Security.Hex.{decimal}
use tailpost.Operator.{LogSourceSpec, AgentSpec, TailpostAgent}

abbrev pub Labels : Type 0
Labels = List (Bytes × Bytes)

-- `GetLabels`.
unfoldable pub get_labels : TailpostAgent → Labels
get_labels a =
    (bytes "app.kubernetes.io/name", bytes "tailpost-agent")
    ∷ (bytes "app.kubernetes.io/instance", bytes a.name)
    ∷ (bytes "app.kubernetes.io/managed-by", bytes "tailpost-operator")
    ∷ []

-- `GetConfigMapName` and `GetStatefulSetName`.
unfoldable pub get_config_map_name : TailpostAgent → Bytes
get_config_map_name a = bytes a.name ++ bytes "-config"

unfoldable pub get_stateful_set_name : TailpostAgent → Bytes
get_stateful_set_name a = bytes a.name

-- `GetServiceName`.
unfoldable pub get_service_name : TailpostAgent → Bytes
get_service_name a = bytes a.name

-- The values that `CreateConfigMap` puts in its map.
pub data Value : Type 0 where
  text : String → Value
  number : ℤ → Value

unfoldable pub value_text : Value → Bytes
value_text (text s) = bytes s
value_text (number (pos n)) = decimal n
value_text (number (negsuc n)) = b'-' ∷ decimal (suc n)

-- `yaml`, over the entries in the order in which the loop meets them.
unfoldable pub yaml : List (Bytes × Value) → Bytes
unfolding value_text
yaml [] = []
yaml ((k, v) ∷ rest) = k ++ (bytes ": " ++ (value_text v ++ (b'\n' ∷ yaml rest)))

-- The path of the first file source that has one.
unfoldable pub log_path_entry : List LogSourceSpec → List (Bytes × Value)
log_path_entry [] = []
log_path_entry (s ∷ ss) =
    let rest = log_path_entry ss in
    if eqs s.type "file" && not (eqs s.path "") then (bytes "log_path", text s.path) ∷ [] else rest

unfoldable pub config_data : AgentSpec → ℤ → List (Bytes × Value)
unfolding log_path_entry
config_data s batch_size =
    (bytes "server_url", text s.server_url)
    ∷ (bytes "batch_size", number batch_size)
    ∷ (bytes "flush_interval", text s.flush_interval)
    ∷ log_path_entry s.log_sources

pub record ConfigMap : Type 0 where
  pub name : Bytes
  pub namespace : Bytes
  pub labels : Labels
  pub data_of : List (Bytes × Bytes)

abbrev pub Order : Type 0
Order = List (Bytes × Value) → List (Bytes × Value)

-- `CreateConfigMap`.
unfoldable pub create_config_map : Order → TailpostAgent → Option ConfigMap
unfolding get_labels get_config_map_name config_data yaml
create_config_map order a = elim a.spec.batch_size [
  | none ↦ none
  | some batch_size ↦ some (record {
    name = get_config_map_name a;
    namespace = bytes a.namespace;
    labels = get_labels a;
    data_of = (bytes "config.yaml", yaml (order (config_data a.spec batch_size))) ∷ [];
  })
]

-- `reflect.DeepEqual` of two maps, the second of which has one entry.
unfoldable pub data_equal : List (Bytes × Bytes) → List (Bytes × Bytes) → Bool
data_equal [] [] = true
data_equal [] (e ∷ es) = false
data_equal (d ∷ ds) [] = false
data_equal ((k, v) ∷ ds) ((j, w) ∷ es) =
    let rest = data_equal ds es in equal k j && (equal v w && rest)

-- `ConfigMapNeedsUpdate`.
unfoldable pub config_map_needs_update : ConfigMap → ConfigMap → Bool
unfolding data_equal
config_map_needs_update current desired = not (data_equal current.data_of desired.data_of)
