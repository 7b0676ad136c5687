-- ===== src/Expose.antt =====
-- How a virtual cluster is reached: the Service that the controller makes for its server
-- (pkg/controller/cluster/server/service.go). The children model the server's configuration, the
-- Ingress, and the address for the kubeconfig.
pub mod Address
pub mod Trusted
pub mod Published
pub mod Ingress
mod Tests
use k3k.Prelude.{
  Text, text, is_empty, Dict, copy, ℕ, ltb, leb, ◌==◌, Bool, true, false, not, ◌&&◌, ◌||◌, Option,
  none, some, List, [], ◌∷◌, ◌++◌, if◌then◌else◌,
}
use k3k.Names.{safe_concat_name_with_prefix}

-- `int32`: the ports of the API, which a user may set to zero or below.
pub data ℤ : Type 0 where
  pos : ℕ → ℤ
  negsuc : ℕ → ℤ

-- `p > 0`.
unfoldable pub is_positive : ℤ → Bool
is_positive (pos n) = not (n == 0)
is_positive (negsuc n) = false

unfoldable pub int_eq : ℤ → ℤ → Bool
int_eq (pos n) (pos m) = n == m
int_eq (pos n) (negsuc m) = false
int_eq (negsuc n) (pos m) = false
int_eq (negsuc n) (negsuc m) = n == m

-- `p >= 30000 && p <= 32767`.
unfoldable pub is_node_port : ℤ → Bool
is_node_port (pos n) = leb 30000 n && leb n 32767
is_node_port (negsuc n) = false

-- The unset mode is treated as the shared one.
pub data ClusterMode : Type 0 where
  unset : ClusterMode
  shared : ClusterMode
  virtual_cluster : ClusterMode
  hcp : ClusterMode

pub record LoadBalancerConfig : Type 0 where
  pub class : Option Text
  pub server_port : Option ℤ
  pub etcd_port : Option ℤ

pub record NodePortConfig : Type 0 where
  pub server_port : Option ℤ
  pub etcd_port : Option ℤ

pub record IngressConfig : Type 0 where
  pub class_name : Text
  pub annotations : Dict Text

pub record ExposeConfig : Type 0 where
  pub annotations : Dict Text
  pub ingress : Option IngressConfig
  pub load_balancer : Option LoadBalancerConfig
  pub node_port : Option NodePortConfig

-- The fields of a Cluster that these functions read: of its metadata, its spec, and its status.
pub record Cluster : Type 0 where
  pub name : Text
  pub namespace : Text
  pub mode : ClusterMode
  pub expose : Option ExposeConfig
  pub tls_sans : List Text
  pub cluster_dns : Text
  pub status_tls_sans : List Text
  pub service_cidr : Text
  pub cluster_cidr : Text

pub data ServiceType : Type 0 where
  cluster_ip_type : ServiceType
  node_port_type : ServiceType
  load_balancer_type : ServiceType
  external_name_type : ServiceType

pub record ServicePort : Type 0 where
  pub name : Text
  pub port : ℤ
  pub target_port : ℕ
  pub node_port : ℤ

pub record LoadBalancerIngress : Type 0 where
  pub ip : Text
  pub hostname : Text

pub record Service : Type 0 where
  pub name : Text
  pub namespace : Text
  pub annotations : Dict Text
  pub selector : Dict Text
  pub type : ServiceType
  pub cluster_ip : Text
  pub load_balancer_class : Option Text
  pub is_local_traffic : Bool  -- `ExternalTrafficPolicy` is Local
  pub ports : List ServicePort
  pub load_balancer : List LoadBalancerIngress

abbrev pub https_port : ℤ
https_port = pos 443

abbrev pub lb_server_port_name : Text
lb_server_port_name = text "k3s-server-lb-port"

abbrev pub k3s_server_port : ServicePort
k3s_server_port = record {
  name = text "k3s-server-port";
  port = https_port;
  target_port = 6443;
  node_port = pos 0;
}

abbrev pub k3s_etcd_port : ServicePort
k3s_etcd_port = record {
  name = text "k3s-etcd-port";
  port = pos 2379;
  target_port = 0;
  node_port = pos 0;
}

-- The custom server port of the load balancer.
unfoldable pub lb_server_ports : ServicePort → ℤ → List ServicePort
unfolding is_positive int_eq
lb_server_ports server port =
    if is_positive port && not (int_eq port server.port)
    then record server { name = lb_server_port_name; port = port } ∷ []
    else []

unfoldable pub lb_etcd_ports : ServicePort → Option ℤ → List ServicePort
unfolding is_positive
lb_etcd_ports etcd none = etcd ∷ []
lb_etcd_ports etcd (some port) = if is_positive port then record etcd { port = port } ∷ [] else []

unfoldable pub or_port : Option ℤ → ℤ → ℤ
or_port none default = default
or_port (some port) default = port

unfoldable pub add_load_balancer_ports :
    Service → LoadBalancerConfig → ServicePort → ServicePort → Service
unfolding lb_server_ports lb_etcd_ports or_port
add_load_balancer_ports service config server etcd = record service {
  ports =
      ((service.ports ++ server ∷ [])
        ++ lb_server_ports server (or_port config.server_port server.port))
      ++ lb_etcd_ports etcd config.etcd_port;
}

-- A port that is asked for outside of the range is not exposed.
unfoldable pub node_ports : ServicePort → Option ℤ → List ServicePort
unfolding is_node_port
node_ports base none = base ∷ []
node_ports base (some port) =
    if is_node_port port then record base { node_port = port } ∷ [] else []

unfoldable pub add_node_port_ports : Service → NodePortConfig → ServicePort → ServicePort → Service
unfolding node_ports
add_node_port_ports service config server etcd = record service {
  ports =
      (service.ports ++ node_ports server config.server_port) ++ node_ports etcd config.etcd_port;
}

unfoldable pub is_hcp : ClusterMode → Bool
is_hcp hcp = true
is_hcp unset = false
is_hcp shared = false
is_hcp virtual_cluster = false

unfoldable pub as_cluster_ip : Service → Service
as_cluster_ip service = record service {
  type = cluster_ip_type;
  ports = service.ports ++ k3s_server_port ∷ k3s_etcd_port ∷ [];
}

-- The cases on what is exposed: a load balancer comes before a node port.
unfoldable pub expose_as :
    Service → ClusterMode → Option LoadBalancerConfig → Option NodePortConfig → Service
unfolding add_load_balancer_ports add_node_port_ports is_hcp as_cluster_ip
expose_as service mode (some config) node_port =
    add_load_balancer_ports
      (record service {
        type = load_balancer_type;
        load_balancer_class = config.class;
        is_local_traffic = is_hcp mode;
      })
      config k3s_server_port k3s_etcd_port
expose_as service mode none (some config) =
    add_node_port_ports (record service { type = node_port_type; is_local_traffic = is_hcp mode })
      config k3s_server_port k3s_etcd_port
expose_as service mode none none = as_cluster_ip service

unfoldable pub service_for : Option ExposeConfig → ClusterMode → Service → Service
unfolding expose_as as_cluster_ip copy
service_for none mode service = as_cluster_ip service
service_for (some expose) mode service =
    expose_as (record service { annotations = copy service.annotations expose.annotations }) mode
      expose.load_balancer expose.node_port

unfoldable pub ingress_sans : List LoadBalancerIngress → List Text
ingress_sans [] = []
ingress_sans (i ∷ is) =
    (if not (is_empty i.ip) then i.ip ∷ [] else [])
    ++ (if not (is_empty i.hostname) then i.hostname ∷ [] else [])
    ++ ingress_sans is

-- The addresses that a load balancer gave the Service.
unfoldable pub load_balancer_sans : Service → List Text
unfolding ingress_sans
load_balancer_sans service = elim service.type [
  | load_balancer_type ↦ ingress_sans service.load_balancer
  | _ ↦ []
]

module _ (sha256 : Text → Text) where
  unfoldable pub service_name : Text → Text
  unfolding text safe_concat_name_with_prefix
  service_name cluster = safe_concat_name_with_prefix sha256 (cluster ∷ text "service" ∷ [])

  unfoldable pub base_service : Cluster → Service
  unfolding service_name text
  base_service cluster = record {
    name = service_name cluster.name;
    namespace = cluster.namespace;
    annotations = [];
    selector = (text "cluster", cluster.name) ∷ (text "role", text "server") ∷ [];
    type = cluster_ip_type;
    cluster_ip = [];
    load_balancer_class = none;
    is_local_traffic = false;
    ports = [];
    load_balancer = [];
  }

  -- `Service`.
  unfoldable pub service : Cluster → Service
  unfolding service_for base_service
  service cluster = service_for cluster.expose cluster.mode (base_service cluster)
