-- ===== src/Expose/Tests.antt =====
-- Clusters that are exposed through a load balancer and through node ports.
use k3k.Prelude.{
  ◌==◌, if◌then◌else◌, Text, text, text_eq, contains, Bool, true, false, Option, none, some, List,
  [], ◌∷◌, ◌++◌, ◌≡◌, refl, arith, ◌||◌, ltb, keep, map, ap, sym,
}
use k3k.Api.{ok, err, not_found}
use k3k.Names.{safe_concat_name, safe_concat_name_with_prefix, filter_dns_names}
use k3k.Expose.{
  ServicePort, pos, shared, ExposeConfig, Cluster, Service, LoadBalancerIngress, service,
  ingress_sans, is_positive, is_node_port, service_for, base_service, as_cluster_ip,
  load_balancer_sans, service_name,
}
use k3k.Expose.Address.{
  AddressApi, StringSetLaws, build_url, url, has_ingress, service_url, typed_url, certified_host,
  first_of, first_port, build_server_config, server_sans,
}
use k3k.Expose.Ingress.{
  ingress, ingress_rules, rules_for, rule_for, configured, ingress_config, url-ingress,
}
use k3k.Expose.Trusted.{IsTrusted, url-IsTrusted}
use k3k.Expose.Published.{
  IsStored, SamePorts, public_port, internal_port, port_inside, is_exposed, url-service_balanced,
  url-service_internal,
}

abbrev no_hash : Text → Text
no_hash t = t

abbrev reading : Service → AddressApi
reading s = record {
  get_ingress_hosts = λ n. err not_found;
  get_service = λ n. ok s;
  join_host_port = λ host port. host;
  StringSet = List Text;
  new_set = λ ts. ts;
  insert_all = λ ts s. ts ++ s;
  list = λ s. s;
}

contains-append :
    (ts us : List Text) (t : Text) → contains (ts ++ us) t ≡ (contains ts t || contains us t)
unfolding contains
contains-append [] us t = refl
contains-append (x ∷ ts) us t = ground (arith, contains-append ts us t)

reading_laws : (s : Service) → StringSetLaws (reading s)
reading_laws s = record { new-contains = λ ts t. refl; insert-contains = contains-append }

abbrev exposed : Option ExposeConfig → Cluster
exposed expose = record {
  name = text "c";
  namespace = text "n";
  mode = shared;
  expose = expose;
  tls_sans = [];
  cluster_dns = [];
  status_tls_sans = text "10.0.0.1" ∷ [];
  service_cidr = [];
  cluster_cidr = [];
}

abbrev balanced : ExposeConfig
balanced = record {
  annotations = [];
  ingress = none;
  load_balancer = some (record { class = none; server_port = some (pos 8443); etcd_port = none });
  node_port = none;
}

abbrev no_server_port : ExposeConfig
no_server_port = record {
  annotations = [];
  ingress = none;
  load_balancer = none;
  node_port = some (record { server_port = some (pos 0); etcd_port = none });
}

abbrev addresses : List LoadBalancerIngress
addresses = record { ip = text "1.2.3.4"; hostname = [] } ∷ []

-- The API server has allocated node ports and set the target port of etcd.
abbrev filled_port : ServicePort → ServicePort
filled_port p = record p {
  target_port = if p.target_port == 0 then 2379 else p.target_port;
  node_port = pos 31000;
}

abbrev filled_ports : List ServicePort → List ServicePort
filled_ports [] = []
filled_ports (p ∷ ps) = filled_port p ∷ filled_ports ps

abbrev balanced_service : Service
balanced_service =
    let made = service no_hash (exposed (some balanced)) in
    record made {
      cluster_ip = text "10.0.0.1";
      load_balancer = addresses;
      ports = filled_ports made.ports;
    }

abbrev node_port_service : Service
node_port_service =
    let made = service no_hash (exposed (some no_server_port)) in
    record made { cluster_ip = text "10.0.0.1"; ports = filled_ports made.ports }

abbrev plain_service : Service
plain_service = record (service no_hash (exposed none)) { cluster_ip = text "10.0.0.1" }

plain_url :
    url
      (reading plain_service)
      no_hash
      (build_server_config
        (reading plain_service)
        no_hash
        (exposed none)
        true
        plain_service
        []
        []).0
      (text "host")
    ≡ ok (build_url (reading plain_service) (text "10.0.0.1") (pos 443))
unfolding url has_ingress service_url typed_url certified_host first_of first_port
    build_server_config contains text text_eq service service_for base_service as_cluster_ip
    server_sans load_balancer_sans service_name safe_concat_name_with_prefix safe_concat_name
plain_url = refl

url-IsTrusted_example :
    IsTrusted
      (reading plain_service)
      (build_server_config
        (reading plain_service)
        no_hash
        (exposed none)
        true
        plain_service
        []
        []).1.tls_san
      (build_url (reading plain_service) (text "10.0.0.1") (pos 443))
unfolding has_ingress
url-IsTrusted_example =
    url-IsTrusted (reading plain_service) (reading_laws plain_service) no_hash (exposed none)
      plain_service true [] [] (text "host")
      (build_url (reading plain_service) (text "10.0.0.1") (pos 443)) refl refl plain_url

filled-IsStored :
    (c : Cluster)
    → IsStored
        (service no_hash c)
        (record (service no_hash c) { ports = filled_ports (service no_hash c).ports })
filled-IsStored c = (refl, filled (service no_hash c).ports)
  where
    filled : (ps : List ServicePort) → SamePorts ps (filled_ports ps)
    filled [] = tt
    filled (p ∷ ps) = (refl, refl, filled ps)

url-service_balanced_example :
    url (reading balanced_service) no_hash (exposed (some balanced)) (text "5.6.7.8")
    ≡ ok (build_url (reading balanced_service) (text "1.2.3.4") (pos 8443))
unfolding public_port text_eq text ingress_sans is_positive
url-service_balanced_example =
    url-service_balanced (reading balanced_service) no_hash (exposed (some balanced)) balanced
      (record { class = none; server_port = some (pos 8443); etcd_port = none }) balanced_service
      (text "5.6.7.8") (text "1.2.3.4") [] refl refl refl refl
      (filled-IsStored (exposed (some balanced))) refl refl

-- The server port is disabled, and the URL is on etcd's port.
url-service_internal_example :
    url (reading node_port_service) no_hash (exposed (some no_server_port)) (text "10.0.0.1")
    ≡ ok (build_url (reading node_port_service) (text "10.0.0.1") (pos 2379))
unfolding internal_port port_inside is_exposed is_node_port has_ingress contains text_eq text
url-service_internal_example =
    url-service_internal (reading node_port_service) no_hash (exposed (some no_server_port))
      node_port_service refl refl (filled-IsStored (exposed (some no_server_port))) refl

abbrev with_ingress : ExposeConfig
with_ingress = record {
  annotations = [];
  ingress = some (record { class_name = []; annotations = [] });
  load_balancer = none;
  node_port = none;
}

-- A name and an address; only the address counts as an IP.
abbrev named : Cluster
named = record (exposed (some with_ingress)) { tls_sans = text "10.9.8.7" ∷ text "k.io" ∷ [] }

abbrev starts_with_digit : Text → Bool
starts_with_digit [] = false
starts_with_digit (c ∷ t) = ltb c 58

abbrev reading_ingress : AddressApi
reading_ingress = record (reading plain_service) { get_ingress_hosts = λ n. ok (text "k.io" ∷ []) }

ingress_hosts :
    map (λ r. r.host) (ingress starts_with_digit no_hash reading_ingress named).rules
    ≡ text "k.io" ∷ []
unfolding ingress ingress_rules rules_for rule_for configured ingress_config filter_dns_names keep
    text
ingress_hosts = refl

url-ingress_example :
    url reading_ingress no_hash named (text "5.6.7.8")
    ≡ ok (record { scheme = text "https"; host = text "k.io" })
unfolding has_ingress text filter_dns_names keep
url-ingress_example =
    url-ingress starts_with_digit no_hash reading_ingress named (text "5.6.7.8") (text "k.io") []
      refl (ap ok (sym ingress_hosts)) refl refl
