-- ===== src/Operator/Services.antt =====
-- pkg/k8s/resources/resources.go: the Service of an agent.
use tailpost.Base.{
  ℕ, Bool, true, false, not, ◌&&◌, ◌||◌, List, [], ◌∷◌, String, Bytes, bytes, eqs, ◌==◌,
}
use tailpost.Operator.{TailpostAgent}
use tailpost.Operator.Resources.{Labels, get_labels, get_service_name, data_equal}

pub record ServicePort : Type 0 where
  pub name : String
  pub port : ℕ
  pub target_port : ℕ
  pub protocol : String

pub record Service : Type 0 where
  pub name : Bytes
  pub namespace : Bytes
  pub labels : Labels
  pub selector : Labels
  pub ports : List ServicePort

-- `CreateService`.
unfoldable pub create_service : TailpostAgent → Service
unfolding get_labels get_service_name
create_service a = record {
  name = get_service_name a;
  namespace = bytes a.namespace;
  labels = get_labels a;
  selector = get_labels a;
  ports = record { name = "metrics"; port = 8080; target_port = 8080; protocol = "TCP" } ∷ [];
}

-- `reflect.DeepEqual` of two lists of ports.
unfoldable pub ports_equal : List ServicePort → List ServicePort → Bool
ports_equal [] [] = true
ports_equal [] (q ∷ qs) = false
ports_equal (p ∷ ps) [] = false
ports_equal (p ∷ ps) (q ∷ qs) =
    let rest = ports_equal ps qs in
    eqs p.name q.name
    && (p.port == q.port && (p.target_port == q.target_port && (eqs p.protocol q.protocol && rest)))

-- `ServiceNeedsUpdate`; the entries of a selector stand in one order.
unfoldable pub service_needs_update : Service → Service → Bool
unfolding data_equal ports_equal
service_needs_update current desired =
    not (data_equal current.selector desired.selector)
    || not (ports_equal current.ports desired.ports)
