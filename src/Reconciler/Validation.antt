-- ===== src/Reconciler/Validation.antt =====
-- `validate` and `validateCustomCACerts` of pkg/controller/cluster/cluster.go.
use k3k.Prelude.{
  Text, text, text_eq, is_empty, Bool, true, false, not, ◌||◌, Option, none, some, List, [], ◌∷◌,
  ◌++◌, if◌then◌else◌,
}
use k3k.Api.{ApiError, other}
use k3k.Names.{filter_dns_names}
use k3k.Expose.{ClusterMode, unset, shared, virtual_cluster, hcp, ExposeConfig}
use k3k.Reconciler.{CredentialSources, CustomCas, ClusterObject, PolicyMode, err_cluster_validation}

unfoldable pub same_mode : ClusterMode → ClusterMode → Bool
same_mode unset m = elim m [ unset ↦ true | _ ↦ false ]
same_mode shared m = elim m [ shared ↦ true | _ ↦ false ]
same_mode virtual_cluster m = elim m [ virtual_cluster ↦ true | _ ↦ false ]
same_mode hcp m = elim m [ hcp ↦ true | _ ↦ false ]

unfoldable pub validation_error : Text → ApiError
unfolding text
validation_error what = other (err_cluster_validation ++ (text ": " ++ what))

-- A source without a secret.
unfoldable pub validate_custom_ca_certs : CredentialSources → Bool
validate_custom_ca_certs s = not (
    is_empty s.client_ca
    || (is_empty s.server_ca
        || (is_empty s.etcd_peer_ca
            || (is_empty s.etcd_server_ca
                || (is_empty s.request_header_ca || is_empty s.service_account_token)))))

unfoldable pub mode_is_allowed : ClusterMode → Option PolicyMode → Bool
unfolding same_mode
mode_is_allowed mode none = true
mode_is_allowed mode (some policy) = same_mode mode policy.allowed_mode

unfoldable pub custom_cas_are_valid : Option CustomCas → Bool
unfolding validate_custom_ca_certs
custom_cas_are_valid none = true
custom_cas_are_valid (some cas) = if cas.enabled then validate_custom_ca_certs cas.sources else true

unfoldable pub has_element : List Text → Bool
has_element [] = false
has_element (x ∷ xs) = true

-- The Ingress needs a host.
unfoldable pub ingress_is_valid : (Text → Bool) → Option ExposeConfig → List Text → Bool
unfolding filter_dns_names has_element
ingress_is_valid is_ip none sans = true
ingress_is_valid is_ip (some e) sans = elim e.ingress [
  | none ↦ true
  | some i ↦ has_element (filter_dns_names is_ip sans)
]

-- The first check that fails.
unfoldable pub validate : (Text → Bool) → ClusterObject → Option PolicyMode → Option ApiError
unfolding text text_eq validation_error mode_is_allowed custom_cas_are_valid ingress_is_valid
validate is_ip c policy =
    if text_eq c.meta.name (text "system")
    then some (validation_error (text "invalid cluster name"))
    else if not (mode_is_allowed c.spec.mode policy)
    then some (validation_error (text "mode is not allowed by the policy"))
    else if not (custom_cas_are_valid c.spec.custom_cas)
    then some (validation_error (text "custom CA certificate secret is missing"))
    else if not (ingress_is_valid is_ip c.spec.expose c.spec.tls_sans)
    then some (validation_error (text "expose.ingress requires at least one DNS name"))
    else none
