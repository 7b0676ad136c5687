-- ===== src/Expose/Address.antt =====
-- The address of a virtual cluster and what its server is configured with
-- (pkg/controller/cluster/server/endpoint.go, config.go and ingress.go). The API server, Kubernetes'
-- string sets and the formatting of a port belong to libraries and are parameters.
use k3k.Prelude.{
  Text, text, text_eq, is_empty, contains, Bool, true, false, not, Option, none, some, List, [],
  ◌∷◌, ◌++◌, if◌then◌else◌, ◌≡◌, ◌||◌,
}
use k3k.Api.{NamespacedName, ApiError, ApiResult, ok, err, other}
use k3k.Names.{safe_concat_name_with_prefix}
use k3k.Expose.{
  ℤ, https_port, ClusterMode, unset, shared, virtual_cluster, hcp, ExposeConfig, Cluster,
  ServicePort, Service, ServiceType, cluster_ip_type, node_port_type, load_balancer_type,
  external_name_type, lb_server_port_name, int_eq, service_name, load_balancer_sans,
}

pub record Url : Type 0 where
  pub scheme : Text
  pub host : Text

-- Reads of the API server, `net.JoinHostPort` with `strconv.Itoa`, and the string sets of apimachinery.
pub record AddressApi : Type 1 where
  pub get_ingress_hosts : NamespacedName → ApiResult (List Text)
  pub get_service : NamespacedName → ApiResult Service
  pub join_host_port : Text → ℤ → Text
  pub StringSet : Type 0
  pub new_set : List Text → StringSet
  pub insert_all : List Text → StringSet → StringSet
  pub list : StringSet → List Text

pub record StringSetLaws (api : AddressApi) : Type 0 where
  pub new-contains :
      (ts : List Text) (t : Text) → contains (api.list (api.new_set ts)) t ≡ contains ts t
  pub insert-contains :
      (ts : List Text) (s : api.StringSet) (t : Text)
      → contains (api.list (api.insert_all ts s)) t ≡ (contains ts t || contains (api.list s) t)

abbrev pub load_balancer_not_ready : ApiError
load_balancer_not_ready =
    other (text "the LoadBalancer address of the cluster service has not been assigned yet")

unfoldable pub has_ingress : Option ExposeConfig → Bool
has_ingress none = false
has_ingress (some expose) = elim expose.ingress [ none ↦ false | some _ ↦ true ]

-- The port of the first port of the Service, or 443.
unfoldable pub first_port : List ServicePort → ℤ
first_port [] = https_port
first_port (p ∷ ps) = p.port

unfoldable pub first_node_port : List ServicePort → ℤ
first_node_port [] = https_port
first_node_port (p ∷ ps) = p.node_port

-- The last port of that name is taken.
unfoldable pub custom_port : List ServicePort → ℤ → ℤ
unfolding text_eq
custom_port [] port = port
custom_port (p ∷ ps) port =
    custom_port ps (if text_eq p.name lb_server_port_name then p.port else port)

unfoldable pub first_of : List Text → Text → Text
first_of [] default = default
first_of (t ∷ ts) default = t

-- A host that the certificate does not name is replaced.
unfoldable pub certified_host : Cluster → Text → Text
unfolding contains first_of
certified_host cluster host =
    if contains cluster.status_tls_sans host
    then host
    else first_of cluster.tls_sans (first_of cluster.status_tls_sans host)

module _ (api : AddressApi) where
  unfoldable pub build_url : Text → ℤ → Url
  unfolding text int_eq
  build_url host port =
      if not (int_eq port https_port)
      then record { scheme = text "https"; host = api.join_host_port host port }
      else record { scheme = text "https"; host = host }

  -- The address outside of the host cluster that a load balancer gives.
  unfoldable pub balanced_url : List Text → List ServicePort → ApiResult Url
  unfolding build_url custom_port first_port
  balanced_url [] ports = err load_balancer_not_ready
  balanced_url (san ∷ sans) ports = ok (build_url san (custom_port ports (first_port ports)))

  -- The cases on the type of the Service.
  unfoldable pub typed_url : ServiceType → Service → Cluster → Text → ApiResult Url
  unfolding balanced_url build_url certified_host first_port first_node_port load_balancer_sans
      text_eq
  typed_url cluster_ip_type s cluster host_ip =
      ok (build_url (certified_host cluster s.cluster_ip) (first_port s.ports))
  typed_url node_port_type s cluster host_ip =
      if not (text_eq host_ip s.cluster_ip)
      then ok (build_url (certified_host cluster host_ip) (first_node_port s.ports))
      else ok (build_url (certified_host cluster s.cluster_ip) (first_port s.ports))
  typed_url load_balancer_type s cluster host_ip =
      if text_eq host_ip s.cluster_ip
      then ok (build_url s.cluster_ip (first_port s.ports))
      else balanced_url (load_balancer_sans s) s.ports
  typed_url external_name_type s cluster host_ip =
      ok (build_url (certified_host cluster host_ip) (first_port s.ports))

  unfoldable pub service_url : ApiResult Service → Cluster → Text → ApiResult Url
  unfolding typed_url
  service_url (err e) cluster host_ip = err e
  service_url (ok s) cluster host_ip = typed_url s.type s cluster host_ip

  -- The host of the first rule of the Ingress, where it is set.
  unfoldable pub ingress_url : ApiResult (List Text) → ApiResult Url → ApiResult Url
  unfolding text
  ingress_url (err e) fallback = err e
  ingress_url (ok []) fallback = fallback
  ingress_url (ok (host ∷ hosts)) fallback =
      if not (is_empty host) then ok (record { scheme = text "https"; host = host }) else fallback

  module _ (sha256 : Text → Text) where
    unfoldable pub ingress_name : Text → Text
    unfolding text safe_concat_name_with_prefix
    ingress_name cluster = safe_concat_name_with_prefix sha256 (cluster ∷ text "ingress" ∷ [])

    -- `URL`.
    unfoldable pub url : Cluster → Text → ApiResult Url
    unfolding has_ingress service_url ingress_url ingress_name service_name
    url cluster host_ip =
        let fallback =
          service_url
            (api.get_service
              (record { namespace = cluster.namespace; name = service_name sha256 cluster.name }))
            cluster host_ip in
        if has_ingress cluster.expose
        then ingress_url
            (api.get_ingress_hosts
              (record { namespace = cluster.namespace; name = ingress_name cluster.name }))
            fallback
        else fallback

    -- The TLS SANs of the server: the spec's, extra ones, the Service's address and names, and the
    -- addresses of the load balancer.
    unfoldable pub server_sans : Cluster → Service → List Text → List Text
    unfolding service_name load_balancer_sans
    server_sans cluster service extra = api.list (
        api.insert_all (load_balancer_sans service) (
          api.insert_all
            (service.cluster_ip
              ∷ service_name sha256 cluster.name
              ∷ (service_name sha256 cluster.name ++ b'.' ∷ cluster.namespace)
              ∷ [])
            (api.insert_all extra (api.new_set cluster.tls_sans))))

-- k3s' options, as far as the controller sets them.
pub record ServerConfig : Type 0 where
  pub cluster_cidr : Text
  pub cluster_dns : Text
  pub cluster_init : Bool
  pub disable_agent : Bool
  pub disable : List Text
  pub egress_selector_mode : Text
  pub kube_apiserver_arg : List Text
  pub server : Text
  pub service_cidr : Text
  pub tls_san : List Text
  pub token : Text

-- An agentless server without the components of the shared mode.
unfoldable pub as_shared : ServerConfig → ServerConfig
unfolding text
as_shared config = record config {
  disable_agent = true;
  egress_selector_mode = text "disabled";
  disable = text "servicelb" ∷ text "traefik" ∷ text "metrics-server" ∷ text "local-storage" ∷ [];
}

-- The switch on the mode.
unfoldable pub with_mode : ClusterMode → ServerConfig → ServerConfig
unfolding text as_shared
with_mode unset config = as_shared config
with_mode shared config = as_shared config
with_mode hcp config = record config {
  disable_agent = true;
  egress_selector_mode = text "cluster";
  kube_apiserver_arg = config.kube_apiserver_arg ++ text "endpoint-reconciler-type=none" ∷ [];
}
with_mode virtual_cluster config = config

module _ (api : AddressApi) (sha256 : Text → Text) where
  -- The cluster with the TLS SANs in its status, and the configuration.
  unfoldable pub build_server_config :
      Cluster → Bool → Service → Text → List Text → Cluster × ServerConfig
  unfolding server_sans with_mode text
  build_server_config cluster is_init service token extra =
      let sans = server_sans api sha256 cluster service extra in
      (
        record cluster { status_tls_sans = sans },
        with_mode cluster.mode (record {
          cluster_cidr = cluster.cluster_cidr;
          cluster_dns = cluster.cluster_dns;
          cluster_init = true;
          disable_agent = false;
          disable = [];
          egress_selector_mode = [];
          kube_apiserver_arg = [];
          server = if not is_init then text "https://" ++ service.cluster_ip else [];
          service_cidr = cluster.service_cidr;
          tls_san = sans;
          token = token;
        }),
      )
