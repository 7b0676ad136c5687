-- ===== src/Expose/Ingress.antt =====
-- The Ingress that exposes a cluster's server (pkg/controller/cluster/server/ingress.go). Go's parser
-- of IP addresses is a parameter.
use k3k.Prelude.{
  Text, text, is_empty, Dict, Bool, true, false, not, Option, none, some, List, [], ◌∷◌, ◌≡◌, refl,
  ap, sym, ◌∙◌, map, if◌then◌else◌,
}
use k3k.Api.{ok}
use k3k.Names.{filter_dns_names}
use k3k.Expose.{ℤ, https_port, ExposeConfig, IngressConfig, Cluster, service_name}
use k3k.Expose.Address.{AddressApi, has_ingress, ingress_name, ingress_url, url}

-- A rule with the one path `/` of the type Prefix.
pub record IngressRule : Type 0 where
  pub host : Text
  pub path : Text
  pub service : Text
  pub port : ℤ

pub record Ingress : Type 0 where
  pub name : Text
  pub namespace : Text
  pub class_name : Option Text
  pub annotations : Dict Text
  pub rules : List IngressRule

-- `cluster.Spec.Expose.Ingress`, where both are set.
unfoldable pub ingress_config : Option ExposeConfig → Option IngressConfig
ingress_config none = none
ingress_config (some expose) = expose.ingress

module _ (is_ip : Text → Bool) (sha256 : Text → Text) where
  unfoldable pub rule_for : Cluster → Text → IngressRule
  unfolding service_name text
  rule_for c host = record {
    host = host;
    path = text "/";
    service = service_name sha256 c.name;
    port = https_port;
  }

  unfoldable pub rules_for : Option IngressConfig → Cluster → List IngressRule
  unfolding rule_for filter_dns_names
  rules_for none c = []
  rules_for (some config) c = map (rule_for c) (filter_dns_names is_ip c.tls_sans)

  unfoldable pub ingress_rules : Cluster → List IngressRule
  unfolding rules_for ingress_config
  ingress_rules c = rules_for (ingress_config c.expose) c

  unfoldable pub configured : Option IngressConfig → Ingress → Ingress
  configured none i = i
  configured (some config) i = record i {
    class_name = if not (is_empty config.class_name) then some config.class_name else i.class_name;
    annotations = config.annotations;
  }

  module _ (api : AddressApi) where
    -- `Ingress`.
    unfoldable pub ingress : Cluster → Ingress
    unfolding configured ingress_rules ingress_name
    ingress c = configured (ingress_config c.expose) (record {
      name = ingress_name api sha256 c.name;
      namespace = c.namespace;
      class_name = none;
      annotations = [];
      rules = ingress_rules c;
    })

    configured-rules : (o : Option IngressConfig) (i : Ingress) → (configured o i).rules ≡ i.rules
    unfolding configured
    configured-rules none i = refl
    configured-rules (some config) i = refl

    map-host : (c : Cluster) (ts : List Text) → map (λ r. r.host) (map (rule_for c) ts) ≡ ts
    unfolding rule_for
    map-host c [] = refl
    map-host c (t ∷ ts) = ap (λ us. t ∷ us) (map-host c ts)

    hosts-rules_for :
        (c : Cluster) (o : Option IngressConfig)
        → elim o [ none ↦ false | some _ ↦ true ] ≡ true
        → map (λ r. r.host) (rules_for o c) ≡ filter_dns_names is_ip c.tls_sans
    unfolding rules_for
    hosts-rules_for c none h = absurd (cc h)
    hosts-rules_for c (some config) h = map-host c (filter_dns_names is_ip c.tls_sans)

    has_ingress-config :
        (o : Option ExposeConfig)
        → has_ingress o ≡ elim (ingress_config o) [ none ↦ false | some _ ↦ true ]
    unfolding has_ingress ingress_config
    has_ingress-config none = refl
    has_ingress-config (some e) = refl

    -- For a cluster that is exposed by an Ingress, where the API server has the rules of the
    -- controller's Ingress: the URL is on the first of the TLS SANs that is no IP address, if it is
    -- not empty, whatever the Service of the cluster is.
    pub url-ingress :
        (c : Cluster) (host_ip name : Text) (names : List Text)
        → has_ingress c.expose ≡ true
        → api.get_ingress_hosts
            (record { namespace = c.namespace; name = ingress_name api sha256 c.name })
          ≡ ok (map (λ r. r.host) (ingress c).rules)
        → filter_dns_names is_ip c.tls_sans ≡ name ∷ names
        → is_empty name ≡ false
        → url api sha256 c host_ip ≡ ok (record { scheme = text "https"; host = name })
    unfolding url ingress ingress_rules ingress_url
    url-ingress c host_ip name names h found dns filled = rw (h, hosts, filled) refl
      where
        hosts :
            api.get_ingress_hosts
              (record { namespace = c.namespace; name = ingress_name api sha256 c.name })
            ≡ ok (name ∷ names)
        hosts =
            found
            ∙ ap (λ rs. ok (map (λ r. r.host) rs)) (configured-rules (ingress_config c.expose) _)
            ∙ ap ok (
                hosts-rules_for c (ingress_config c.expose) (sym (has_ingress-config c.expose) ∙ h))
            ∙ ap ok dns
