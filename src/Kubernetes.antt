-- ===== src/Kubernetes.antt =====
-- pkg/utils/k8s_utils.go. The client of client-go is a parameter: what its calls come to, and the
-- stream of a pod's logs, in the chunks that its reads give, which may break off.
pub mod Logs
use tailpost.Base.{
  ℕ, zero, suc, length, Bool, true, false, not, ◌||◌, List, [], ◌∷◌, ◌++◌, Option, none, some,
  String, Bytes, eqs, if◌then◌else◌, Result, ok, err, ◌>>=◌, ◌>>◌, fail_if,
}
use tailpost.Base.Int.{ℤ, pos, is_nonpos}

pub data KubernetesError : Type 0 where
  no_configuration no_client names_required namespace_required no_stream reading_logs listing_pods :
      KubernetesError

-- What the configuration comes from: the cluster, or a file.
pub record Access : Type 1 where
  pub Config : Type 0
  pub Client : Type 0
  pub in_cluster_config : Option Config
  pub build_config : String → Option Config
  pub new_for_config : Config → Option Client
  pub getenv : String → String
  pub join : List String → String

module _ (access : Access) where
  open access use {Config, Client, in_cluster_config, build_config, new_for_config, getenv, join}

  -- The path of the kubeconfig.
  unfoldable pub kubeconfig : String
  kubeconfig =
      if not (eqs (getenv "KUBECONFIG") "")
      then getenv "KUBECONFIG"
      else join (getenv "HOME" ∷ ".kube" ∷ "config" ∷ [])

  abbrev pub configured : Option Config → Result KubernetesError Config
  configured none = err no_configuration
  configured (some c) = ok c

  abbrev pub connected : Option Client → Result KubernetesError Client
  connected none = err no_client
  connected (some c) = ok c

  -- `GetKubernetesClient`.
  unfoldable pub get_kubernetes_client : Result KubernetesError Client
  unfolding kubeconfig
  get_kubernetes_client = elim in_cluster_config [
    | some c ↦ connected (new_for_config c)
    | none ↦ configured (build_config kubeconfig) >>= λ c. connected (new_for_config c)
  ]

-- `IsRunningInKubernetes`, where `stat` says whether `osStatFunc` finds a file.
unfoldable pub is_running_in_kubernetes : (String → Bool) → Bool
is_running_in_kubernetes stat = stat "/var/run/secrets/kubernetes.io/serviceaccount/token"

pub record PodLogOptions : Type 0 where
  pub container : String
  pub tail_lines : Option ℤ

-- A stream: its chunks, and whether it ends as it should.
pub record Stream : Type 0 where
  pub chunks : List Bytes
  pub complete : Bool

pub record Pod : Type 0 where
  pub name : String
  pub containers : List String

-- What the client does: the logs of a pod in a namespace, and the pods of a namespace by a selector.
pub record Cluster : Type 0 where
  pub stream : String → String → PodLogOptions → Option Stream
  pub list_pods : String → String → Option (List Pod)

-- `io.Copy` into the buffer.
unfoldable pub copy : List Bytes → Bytes → Bytes
copy [] buffer = buffer
copy (c ∷ cs) buffer = copy cs (buffer ++ c)

unfoldable pub read_logs : Option Stream → Result KubernetesError Bytes
unfolding copy
read_logs none = err no_stream
read_logs (some s) = if s.complete then ok (copy s.chunks []) else err reading_logs

-- `GetPodLogs`.
unfoldable pub get_pod_logs : Cluster → String → String → String → ℤ → Result KubernetesError Bytes
unfolding read_logs
get_pod_logs cluster namespace pod_name container_name tail_lines =
    fail_if (eqs namespace "" || eqs pod_name "") names_required
    >> read_logs (
        cluster.stream namespace pod_name (record {
          container = container_name;
          tail_lines = if is_nonpos tail_lines then none else some tail_lines;
        }))

-- `ListNamespacedPods`.
unfoldable pub list_namespaced_pods : Cluster → String → String → Result KubernetesError (List Pod)
list_namespaced_pods cluster namespace selector =
    fail_if (eqs namespace "") namespace_required
    >> elim (cluster.list_pods namespace selector) [ none ↦ err listing_pods | some pods ↦ ok pods ]

-- `make([]string, n)`, and the loop that fills it by index.
unfoldable pub make : ℕ → List String
make zero = []
make (suc n) = "" ∷ make n

unfoldable pub assign : ℕ → String → List String → List String
assign i s [] = []
assign zero s (x ∷ xs) = s ∷ xs
assign (suc i) s (x ∷ xs) = x ∷ assign i s xs

unfoldable pub fill : ℕ → List String → List String → List String
unfolding assign
fill i [] names = names
fill i (c ∷ cs) names = fill (suc i) cs (assign i c names)

-- `GetPodContainers`, of a pod or nil.
unfoldable pub get_pod_containers : Option Pod → List String
unfolding make fill
get_pod_containers none = []
get_pod_containers (some pod) = fill 0 pod.containers (make (length pod.containers))
