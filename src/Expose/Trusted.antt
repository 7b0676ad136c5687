-- ===== src/Expose/Trusted.antt =====
-- The hosts of URLs and the TLS SANs of the server (pkg/controller/cluster/server/endpoint.go and
-- config.go).
use k3k.Prelude.{
  Text, text_eq, text_eq_refl, contains, Bool, true, false, not, List, [], ◌∷◌, ◌++◌, ◌≡◌, refl,
  if◌then◌else◌, arith, Bool-cases, inl, inr,
}
use k3k.Api.{ok}
use k3k.Expose.{
  ℤ, ClusterMode, unset, shared, virtual_cluster, hcp, Cluster, Service, ServiceType,
  cluster_ip_type, node_port_type, load_balancer_type, external_name_type, service_name,
  load_balancer_sans,
}
use k3k.Expose.Address.{
  Url, AddressApi, StringSetLaws, has_ingress, first_port, first_node_port, custom_port, first_of,
  certified_host, build_url, balanced_url, typed_url, service_url, url, server_sans, ServerConfig,
  with_mode, as_shared, build_server_config,
}

-- A URL on a host that is among the TLS SANs.
pub record IsTrusted (api : AddressApi) (sans : List Text) (u : Url) : Type 0 where
  pub host : Text
  pub port : ℤ
  pub is_url : u ≡ build_url api host port
  pub is_named : contains sans host ≡ true

module _ (api : AddressApi) (laws : StringSetLaws api) (sha256 : Text → Text) where
  contains_ip :
      (c : Cluster) (s : Service) (extra : List Text)
      → contains (server_sans api sha256 c s extra) s.cluster_ip ≡ true
  unfolding server_sans contains
  contains_ip c s extra = ground (
    arith,
    text_eq_refl s.cluster_ip,
    laws.insert-contains (load_balancer_sans s)
        (api.insert_all
          (s.cluster_ip
            ∷ service_name sha256 c.name
            ∷ (service_name sha256 c.name ++ b'.' ∷ c.namespace)
            ∷ [])
          (api.insert_all extra (api.new_set c.tls_sans)))
        s.cluster_ip,
    laws.insert-contains
        (s.cluster_ip
          ∷ service_name sha256 c.name
          ∷ (service_name sha256 c.name ++ b'.' ∷ c.namespace)
          ∷ [])
        (api.insert_all extra (api.new_set c.tls_sans)) s.cluster_ip,
  )

  contains_balanced :
      (c : Cluster) (s : Service) (extra : List Text) (t : Text)
      → contains (load_balancer_sans s) t ≡ true
      → contains (server_sans api sha256 c s extra) t ≡ true
  unfolding server_sans
  contains_balanced c s extra t h = rw (laws.insert-contains (load_balancer_sans s) _ t, h) refl

  contains-tls_sans :
      (c : Cluster) (s : Service) (extra : List Text) (t : Text)
      → contains c.tls_sans t ≡ true
      → contains (server_sans api sha256 c s extra) t ≡ true
  unfolding server_sans
  contains-tls_sans c s extra t h = ground (
    arith,
    laws.insert-contains (load_balancer_sans s)
        (api.insert_all
          (s.cluster_ip
            ∷ service_name sha256 c.name
            ∷ (service_name sha256 c.name ++ b'.' ∷ c.namespace)
            ∷ [])
          (api.insert_all extra (api.new_set c.tls_sans)))
        t,
    laws.insert-contains
        (s.cluster_ip
          ∷ service_name sha256 c.name
          ∷ (service_name sha256 c.name ++ b'.' ∷ c.namespace)
          ∷ [])
        (api.insert_all extra (api.new_set c.tls_sans)) t,
    laws.insert-contains extra (api.new_set c.tls_sans) t,
    laws.new-contains c.tls_sans t,
  )

  with_mode-tls_san : (m : ClusterMode) (c : ServerConfig) → (with_mode m c).tls_san ≡ c.tls_san
  unfolding with_mode as_shared
  with_mode-tls_san unset c = refl
  with_mode-tls_san shared c = refl
  with_mode-tls_san hcp c = refl
  with_mode-tls_san virtual_cluster c = refl

  contains_first :
      (t default : Text) (ts : List Text)
      → contains ts t ≡ true
      → contains ts (first_of ts default) ≡ true
  unfolding contains first_of
  contains_first t default [] h = absurd (cc h)
  contains_first t default (u ∷ us) h = ground (arith, text_eq_refl u)

  -- The cluster whose status lists these TLS SANs.
  abbrev listed : Cluster → Service → List Text → Cluster
  listed c s extra = record c { status_tls_sans = server_sans api sha256 c s extra }

  contains-certified_host :
      (c : Cluster) (s : Service) (extra : List Text) (host : Text)
      → contains (server_sans api sha256 c s extra) (certified_host (listed c s extra) host) ≡ true
  unfolding certified_host first_of contains
  contains-certified_host c s extra host =
      elim (Bool-cases (contains (server_sans api sha256 c s extra) host)) [
        | inl e ↦ rw e e
        | inr e ↦ rw e (fallback c.tls_sans refl)
      ]
    where
      contains_head : (t : Text) (ts : List Text) → contains (t ∷ ts) t ≡ true
      contains_head t ts = ground (arith, text_eq_refl t)

      fallback :
          (ts : List Text)
          → c.tls_sans ≡ ts
          → contains
              (server_sans api sha256 c s extra)
              (first_of ts (first_of (server_sans api sha256 c s extra) host))
            ≡ true
      fallback [] e = contains_first s.cluster_ip host _ (contains_ip c s extra)
      fallback (t ∷ ts) e = contains-tls_sans c s extra t (rw e (contains_head t ts))

  named :
      (c : Cluster) (s : Service) (extra : List Text) (host : Text) (port : ℤ) (u : Url)
      → contains (server_sans api sha256 c s extra) host ≡ true
      → ok (build_url api host port) ≡ ok u
      → IsTrusted api (server_sans api sha256 c s extra) u
  named c s extra host port u h e = record { host = host; port = port; is_url = cc e; is_named = h }

  certified_named :
      (c : Cluster) (s : Service) (extra : List Text) (host : Text) (port : ℤ) (u : Url)
      → ok (build_url api (certified_host (listed c s extra) host) port) ≡ ok u
      → IsTrusted api (server_sans api sha256 c s extra) u
  certified_named c s extra host port u =
      named c s extra _ port u (contains-certified_host c s extra host)

  balanced_named :
      (c : Cluster) (s : Service) (extra : List Text) (u : Url)
      → balanced_url api (load_balancer_sans s) s.ports ≡ ok u
      → IsTrusted api (server_sans api sha256 c s extra) u
  unfolding balanced_url contains
  balanced_named c s extra u = first (load_balancer_sans s) refl
    where
      first :
          (ts : List Text)
          → load_balancer_sans s ≡ ts
          → balanced_url api ts s.ports ≡ ok u
          → IsTrusted api (server_sans api sha256 c s extra) u
      first [] e h = absurd (cc h)
      first (t ∷ ts) e h =
          named c s extra t (custom_port s.ports (first_port s.ports)) u
            (contains_balanced c s extra t (rw (e, text_eq_refl t) refl)) h

  typed_url-IsTrusted :
      (k : ServiceType) (c : Cluster) (s : Service) (extra : List Text) (host_ip : Text) (u : Url)
      → typed_url api k s (listed c s extra) host_ip ≡ ok u
      → IsTrusted api (server_sans api sha256 c s extra) u
  unfolding typed_url
  typed_url-IsTrusted cluster_ip_type c s extra host_ip u h =
      certified_named c s extra s.cluster_ip (first_port s.ports) u h
  typed_url-IsTrusted node_port_type c s extra host_ip u h =
      node_port (text_eq host_ip s.cluster_ip) h
    where
      node_port :
          (b : Bool)
          → (if not b
              then ok (
                  build_url api
                    (certified_host (listed c s extra) host_ip)
                    (first_node_port s.ports))
              else ok (
                  build_url api
                    (certified_host (listed c s extra) s.cluster_ip)
                    (first_port s.ports)))
            ≡ ok u
          → IsTrusted api (server_sans api sha256 c s extra) u
      node_port true g = certified_named c s extra s.cluster_ip (first_port s.ports) u g
      node_port false g = certified_named c s extra host_ip (first_node_port s.ports) u g
  typed_url-IsTrusted load_balancer_type c s extra host_ip u h =
      balanced (text_eq host_ip s.cluster_ip) h
    where
      balanced :
          (b : Bool)
          → (if b
              then ok (build_url api s.cluster_ip (first_port s.ports))
              else balanced_url api (load_balancer_sans s) s.ports)
            ≡ ok u
          → IsTrusted api (server_sans api sha256 c s extra) u
      balanced true g =
          named c s extra s.cluster_ip (first_port s.ports) u (contains_ip c s extra) g
      balanced false g = balanced_named c s extra u g
  typed_url-IsTrusted external_name_type c s extra host_ip u h =
      certified_named c s extra host_ip (first_port s.ports) u h

  -- Where the server's configuration was built from the Service that the API server has, and the
  -- cluster is not exposed by an Ingress, every URL that `URL` returns for the cluster as
  -- `buildServerConfig` left it is on a host that the configured TLS SANs contain, whatever the type
  -- of the Service and the host that was asked for.
  pub url-IsTrusted :
      (c : Cluster) (s : Service) (is_init : Bool) (token : Text) (extra : List Text)
      (host_ip : Text) (u : Url)
      → api.get_service (record { namespace = c.namespace; name = service_name sha256 c.name })
        ≡ ok s
      → has_ingress c.expose ≡ false
      → url api sha256 (build_server_config api sha256 c is_init s token extra).0 host_ip ≡ ok u
      → IsTrusted api (build_server_config api sha256 c is_init s token extra).1.tls_san u
  unfolding url build_server_config service_url
  url-IsTrusted c s is_init token extra host_ip u found no_ingress h =
      rw (with_mode-tls_san c.mode _)
        (typed_url-IsTrusted s.type c s extra host_ip u (cc (found, no_ingress, h)))
