-- ===== src/Expose/Published.antt =====
-- The address of a cluster as a function of its exposure, read back from the controller's Service
-- (pkg/controller/cluster/server/service.go and endpoint.go).
use k3k.Prelude.{
  Text, text, text_eq, text_eq_refl, contains, Bool, true, false, Option, none, some, List, [], ◌∷◌,
  ◌++◌, ◌≡◌, refl, ap, copy, ◌∙◌, if◌then◌else◌, arith, Bool-cases, inl, inr,
}
use mathlib.Core.Path.{subst}
use k3k.Api.{ok}
use k3k.Expose.{
  ℤ, pos, negsuc, is_positive, int_eq, is_node_port, https_port, ClusterMode, LoadBalancerConfig,
  NodePortConfig, ExposeConfig, Cluster, ServicePort, Service, ServiceType, cluster_ip_type,
  node_port_type, external_name_type, load_balancer_type, lb_server_port_name, LoadBalancerIngress,
  k3s_server_port, k3s_etcd_port, service_name, lb_server_ports, lb_etcd_ports, or_port, is_hcp,
  add_load_balancer_ports, node_ports, add_node_port_ports, as_cluster_ip, expose_as, base_service,
  service_for, service, ingress_sans, load_balancer_sans,
}
use k3k.Expose.Address.{
  AddressApi, has_ingress, first_port, custom_port, certified_host, build_url, balanced_url,
  typed_url, service_url, url,
}

-- The port on which clients outside of the host cluster reach the server: the configured one, where it
-- is positive.
unfoldable pub public_port : LoadBalancerConfig → ℤ
unfolding is_positive
public_port config = elim config.server_port [
  | none ↦ https_port
  | some p ↦ if is_positive p then p else https_port
]

unfoldable pub is_exposed : Option ℤ → Bool
unfolding is_node_port
is_exposed none = true
is_exposed (some p) = is_node_port p

-- The port on which the pods of the host cluster reach it, by the kind of the exposure.
unfoldable pub port_inside : Option LoadBalancerConfig → Option NodePortConfig → ℤ
unfolding is_exposed
port_inside (some lb) node_port = https_port
port_inside none none = https_port
port_inside none (some config) =
    if is_exposed config.server_port
    then https_port
    else if is_exposed config.etcd_port
    then pos 2379
    else https_port

unfoldable pub internal_port : Option ExposeConfig → ℤ
unfolding port_inside
internal_port none = https_port
internal_port (some e) = port_inside e.load_balancer e.node_port

int_eq_sound : (a b : ℤ) → int_eq a b ≡ true → a ≡ b
unfolding int_eq
int_eq_sound (pos n) (pos m) h = ground arith
int_eq_sound (pos n) (negsuc m) h = absurd (cc h)
int_eq_sound (negsuc n) (pos m) h = absurd (cc h)
int_eq_sound (negsuc n) (negsuc m) h = ground arith

custom_port-lb_etcd : (p : ℤ) (e : Option ℤ) → custom_port (lb_etcd_ports k3s_etcd_port e) p ≡ p
unfolding custom_port lb_etcd_ports text_eq text
custom_port-lb_etcd p none = refl
custom_port-lb_etcd p (some q) = elim (Bool-cases (is_positive q)) [
  | inl h ↦ rw h refl
  | inr h ↦ rw h refl
]

custom_port-append :
    (ps qs : List ServicePort) (p : ℤ)
    → custom_port (ps ++ qs) p ≡ custom_port qs (custom_port ps p)
unfolding custom_port
custom_port-append [] qs p = refl
custom_port-append (x ∷ ps) qs p = custom_port-append ps qs _

custom_port-lb_server :
    (p : ℤ)
    → custom_port (lb_server_ports k3s_server_port p) https_port
      ≡ (if is_positive p then p else https_port)
unfolding custom_port lb_server_ports text_eq text
custom_port-lb_server p = elim (Bool-cases (is_positive p)) [
  | inl h ↦ rw h (elim (Bool-cases (int_eq p https_port)) [
    | inl e ↦ rw e (cc (int_eq_sound p https_port e))
    | inr e ↦ rw e refl
  ])
  | inr h ↦ rw h refl
]

-- The names and the numbers of the ports are kept. The API server allocates node ports and defaults
-- target ports.
abbrev pub SamePorts : List ServicePort → List ServicePort → Type 0
SamePorts [] [] = Unit {0}
SamePorts [] (q ∷ qs) = ⊥
SamePorts (p ∷ ps) [] = ⊥
SamePorts (p ∷ ps) (q ∷ qs) = (q.name ≡ p.name) × (q.port ≡ p.port) × SamePorts ps qs

-- A Service as the API server has it, of the one that was sent: with addresses, node ports and target
-- ports that were not in it.
abbrev pub IsStored : Service → Service → Type 0
IsStored made stored = (stored.type ≡ made.type) × SamePorts made.ports stored.ports

first_port-SamePorts : (ps qs : List ServicePort) → SamePorts ps qs → first_port qs ≡ first_port ps
unfolding first_port
first_port-SamePorts [] [] h = refl
first_port-SamePorts [] (q ∷ qs) h = absurd h
first_port-SamePorts (p ∷ ps) [] h = absurd h
first_port-SamePorts (p ∷ ps) (q ∷ qs) h = h.1

custom_port-SamePorts :
    (ps qs : List ServicePort) (n : ℤ) → SamePorts ps qs → custom_port qs n ≡ custom_port ps n
unfolding custom_port
custom_port-SamePorts [] [] n h = refl
custom_port-SamePorts [] (q ∷ qs) n h = absurd h
custom_port-SamePorts (p ∷ ps) [] n h = absurd h
custom_port-SamePorts (p ∷ ps) (q ∷ qs) n h =
    custom_port-SamePorts ps qs _ h.2
    ∙ ap (λ x. custom_port ps (if text_eq x lb_server_port_name then q.port else n)) h.0
    ∙ ap (λ x. custom_port ps (if text_eq p.name lb_server_port_name then x else n)) h.1

module _ (api : AddressApi) (sha256 : Text → Text) where
  service_lb :
      (c : Cluster) (e : ExposeConfig) (config : LoadBalancerConfig)
      → c.expose ≡ some e
      → e.load_balancer ≡ some config
      → service sha256 c
        ≡ add_load_balancer_ports
            (record (base_service sha256 c) {
              annotations = copy [] e.annotations;
              type = load_balancer_type;
              load_balancer_class = config.class;
              is_local_traffic = is_hcp c.mode;
            })
            config
            k3s_server_port
            k3s_etcd_port
  unfolding service service_for expose_as base_service
  service_lb c e config h g = rw (h, g) refl

  typed_url-balanced :
      (c : Cluster) (config : LoadBalancerConfig) (host_ip san : Text) (sans : List Text)
      (base s : Service)
      → s.type ≡ load_balancer_type
      → base.ports ≡ []
      → SamePorts (add_load_balancer_ports base config k3s_server_port k3s_etcd_port).ports s.ports
      → text_eq host_ip s.cluster_ip ≡ false
      → ingress_sans s.load_balancer ≡ san ∷ sans
      → typed_url api s.type s c host_ip ≡ ok (build_url api san (public_port config))
  unfolding typed_url add_load_balancer_ports load_balancer_sans balanced_url public_port or_port
      first_port custom_port text_eq text
  typed_url-balanced c config host_ip san sans base s t none_yet p external h =
      rw (t, external, h) (ap (λ q. ok (build_url api san q)) (kept ∙ made))
    where
      sent : List ServicePort
      sent = (add_load_balancer_ports base config k3s_server_port k3s_etcd_port).ports

      kept : custom_port s.ports (first_port s.ports) ≡ custom_port sent (first_port sent)
      kept =
          custom_port-SamePorts sent s.ports (first_port s.ports) p
          ∙ ap (custom_port sent) (first_port-SamePorts sent s.ports p)

      port :
          (o : Option ℤ)
          → custom_port
              (lb_server_ports k3s_server_port (or_port o https_port)
                ++ lb_etcd_ports k3s_etcd_port config.etcd_port)
              https_port
            ≡ elim o [ none ↦ https_port | some q ↦ if is_positive q then q else https_port ]
      port none =
          rw
            (
              custom_port-append (lb_server_ports k3s_server_port https_port)
                  (lb_etcd_ports k3s_etcd_port config.etcd_port) https_port,
              custom_port-lb_server https_port,
            )
            (custom_port-lb_etcd _ config.etcd_port)
      port (some q) =
          rw
            (
              custom_port-append (lb_server_ports k3s_server_port q)
                  (lb_etcd_ports k3s_etcd_port config.etcd_port) https_port,
              custom_port-lb_server q,
            )
            (custom_port-lb_etcd _ config.etcd_port)

      made : custom_port sent (first_port sent) ≡ public_port config
      made = rw none_yet (port config.server_port)

  url_no_ingress :
      (c : Cluster) (s : Service) (host_ip : Text)
      → has_ingress c.expose ≡ false
      → api.get_service (record { namespace = c.namespace; name = service_name sha256 c.name })
        ≡ ok s
      → url api sha256 c host_ip ≡ typed_url api s.type s c host_ip
  unfolding url service_url
  url_no_ingress c s host_ip h found = rw (found, h) refl

  -- A cluster that is exposed through a load balancer, and by no Ingress, whose Service the API server
  -- has as the controller made it but for addresses, node ports and target ports: from outside of the
  -- host cluster the URL is on the first address that the load balancer gave the Service, with the
  -- configured server port where it is positive, and with 443 otherwise.
  pub url-service_balanced :
      (c : Cluster) (e : ExposeConfig) (config : LoadBalancerConfig) (s : Service)
      (host_ip san : Text) (sans : List Text)
      → c.expose ≡ some e
      → e.load_balancer ≡ some config
      → e.ingress ≡ none
      → api.get_service (record { namespace = c.namespace; name = service_name sha256 c.name })
        ≡ ok s
      → IsStored (service sha256 c) s
      → text_eq host_ip s.cluster_ip ≡ false
      → ingress_sans s.load_balancer ≡ san ∷ sans
      → url api sha256 c host_ip ≡ ok (build_url api san (public_port config))
  unfolding has_ingress base_service add_load_balancer_ports
  url-service_balanced c e config s host_ip san sans h g i found stored external first =
      url_no_ingress c s host_ip (rw (h, i) refl) found
      ∙ typed_url-balanced c config host_ip san sans lb_base s
          (stored.0 ∙ ap (λ x. x.type) (service_lb c e config h g)) refl
          (subst (λ x. SamePorts x.ports s.ports) (service_lb c e config h g) stored.1) external
          first
    where
      lb_base : Service
      lb_base = record (base_service sha256 c) {
        annotations = copy [] e.annotations;
        type = load_balancer_type;
        load_balancer_class = config.class;
        is_local_traffic = is_hcp c.mode;
      }

  abbrev addressed : Service → Text → List LoadBalancerIngress → Service
  addressed s ip lb = record s { cluster_ip = ip; load_balancer = lb }

  typed_url-expose_as :
      (c : Cluster) (ip : Text) (lb : List LoadBalancerIngress) (base : Service) (m : ClusterMode)
      (balanced : Option LoadBalancerConfig) (node_port : Option NodePortConfig)
      → base.ports ≡ []
      → contains c.status_tls_sans ip ≡ true
      → typed_url api
          (expose_as base m balanced node_port).type
          (addressed (expose_as base m balanced node_port) ip lb)
          c
          ip
        ≡ ok (build_url api ip (port_inside balanced node_port))
  unfolding typed_url certified_host expose_as as_cluster_ip add_load_balancer_ports
      add_node_port_ports node_ports first_port port_inside is_exposed
  typed_url-expose_as c ip lb base m none none h named = rw (h, named) refl
  typed_url-expose_as c ip lb base m (some config) node_port h named = rw (h, text_eq_refl ip) refl
  typed_url-expose_as c ip lb base m none (some config) h named =
      rw (h, text_eq_refl ip, named) (ports config.server_port config.etcd_port)
    where
      ports :
          (server etcd : Option ℤ)
          → ok (
              build_url api ip
                (first_port (node_ports k3s_server_port server ++ node_ports k3s_etcd_port etcd)))
            ≡ ok (
                build_url api ip (
                  if is_exposed server
                  then https_port
                  else if is_exposed etcd
                  then pos 2379
                  else https_port))
      ports none etcd = refl
      ports (some p) none = elim (Bool-cases (is_node_port p)) [
        | inl e ↦ rw e refl
        | inr e ↦ rw e refl
      ]
      ports (some p) (some q) = elim (Bool-cases (is_node_port p)) [
        | inl e ↦ rw e refl
        | inr e ↦
            rw e (elim (Bool-cases (is_node_port q)) [ inl f ↦ rw f refl | inr f ↦ rw f refl ])
      ]

  -- Inside of the host cluster only the kept fields count.
  typed_url-inside :
      (t : ServiceType) (made s : Service) (c : Cluster)
      → SamePorts made.ports s.ports
      → typed_url api t s c s.cluster_ip
        ≡ typed_url api t (addressed made s.cluster_ip s.load_balancer) c s.cluster_ip
  unfolding typed_url
  typed_url-inside cluster_ip_type made s c h =
      ap (λ p. ok (build_url api (certified_host c s.cluster_ip) p))
        (first_port-SamePorts made.ports s.ports h)
  typed_url-inside node_port_type made s c h = rw (text_eq_refl s.cluster_ip) (
      ap (λ p. ok (build_url api (certified_host c s.cluster_ip) p))
        (first_port-SamePorts made.ports s.ports h))
  typed_url-inside load_balancer_type made s c h =
      rw (text_eq_refl s.cluster_ip)
        (ap (λ p. ok (build_url api s.cluster_ip p)) (first_port-SamePorts made.ports s.ports h))
  typed_url-inside external_name_type made s c h =
      ap (λ p. ok (build_url api (certified_host c s.cluster_ip) p))
        (first_port-SamePorts made.ports s.ports h)

  -- For a cluster that is exposed by no Ingress, whose Service the API server has as the controller made
  -- it but for addresses, node ports and target ports, and whose TLS SANs contain the Service's address:
  -- the URL from inside of the host cluster is on that address, with 443 except where the server port
  -- of a node port is out of the range and its etcd port is not. There it is etcd's port.
  pub url-service_internal :
      (c : Cluster) (s : Service)
      → has_ingress c.expose ≡ false
      → api.get_service (record { namespace = c.namespace; name = service_name sha256 c.name })
        ≡ ok s
      → IsStored (service sha256 c) s
      → contains c.status_tls_sans s.cluster_ip ≡ true
      → url api sha256 c s.cluster_ip ≡ ok (build_url api s.cluster_ip (internal_port c.expose))
  unfolding service service_for base_service internal_port
  url-service_internal c s h found stored named =
      url_no_ingress c s s.cluster_ip h found
      ∙ ap (λ t. typed_url api t s c s.cluster_ip) stored.0
      ∙ typed_url-inside (service sha256 c).type (service sha256 c) s c stored.1
      ∙ exposed c.expose
    where
      exposed :
          (o : Option ExposeConfig)
          → typed_url api
              (service_for o c.mode (base_service sha256 c)).type
              (addressed
                (service_for o c.mode (base_service sha256 c))
                s.cluster_ip
                s.load_balancer)
              c
              s.cluster_ip
            ≡ ok (build_url api s.cluster_ip (internal_port o))
      exposed none =
          typed_url-expose_as c s.cluster_ip s.load_balancer (base_service sha256 c) c.mode none
            none refl named
      exposed (some e) =
          typed_url-expose_as c s.cluster_ip s.load_balancer
            (record (base_service sha256 c) { annotations = copy [] e.annotations }) c.mode
            e.load_balancer e.node_port refl named
