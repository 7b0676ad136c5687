-- ===== src/Reconciler/Objects.antt =====
-- The objects of a Cluster that the reconciliation itself writes: its NetworkPolicy, its Service and its
-- Ingress (pkg/controller/cluster/cluster.go).
use k3k.Prelude.{
  Text, is_empty, copy, Bool, true, false, not, Option, none, some, List, [], ◌∷◌, if◌then◌else◌,
  ◌≡◌, ◌⊎◌, inl, inr, refl, arith,
}
use k3k.Api.{ApiResult, ok, err, not_found, already_exists, other, ignore_not_found}
use k3k.Action.{Action, Done, pure, raise, attempt, ◌>>=◌}
use k3k.Names.{safe_concat_name_with_prefix}
use k3k.Expose.{ExposeConfig, Service, service}
use k3k.Expose.Address.{AddressApi}
use k3k.Expose.Ingress.{ingress, ingress_config}
use k3k.Policy.Owned.{isolation_network_policy_spec, find_pod_cidrs}
use k3k.Reconciler.{ClusterApi, ClusterObject, NetworkPolicy}

-- What follows the setting of the owner in a function of `CreateOrUpdate`.
unfoldable pub after_own : {A : Type 0} → (A → A) → ApiResult A → ApiResult A
after_own f (ok a) = ok (f a)
after_own f (err e) = err e

-- `IgnoreNotFound` of what a call returns.
unfoldable pub ignoring : {S : Type 0} → ApiResult Done → Action S Done
unfolding pure raise ignore_not_found
ignoring (ok x) = pure tt
ignoring (err e) = elim (ignore_not_found e) [ none ↦ pure tt | some e' ↦ raise e' ]

pub ignoring-ok :
    {S : Type 0} (r : ApiResult Done) (s : S)
    → (ignoring r s).0 ≡ ok tt
    → ((r ≡ ok tt) ⊎ (r ≡ err not_found)) × ((ignoring r s).1 ≡ s)
unfolding ignoring pure raise ignore_not_found
ignoring-ok (ok a) s h = (inl refl, refl)
ignoring-ok (err not_found) s h = (inr refl, refl)
ignoring-ok (err already_exists) s h = ground arith
ignoring-ok (err (other e)) s h = ground arith

-- The Cluster as the package of the server reads it.
unfoldable pub exposed : ClusterObject → k3k.Expose.Cluster
exposed c = record {
  name = c.meta.name;
  namespace = c.meta.namespace;
  mode = c.spec.mode;
  expose = c.spec.expose;
  tls_sans = c.spec.tls_sans;
  cluster_dns = c.spec.cluster_dns;
  status_tls_sans = c.status.tls_sans;
  service_cidr = c.status.service_cidr;
  cluster_cidr = c.status.cluster_cidr;
}

unfoldable pub merge_service : Service → Service → Service
unfolding copy
merge_service expected current = record expected {
  annotations = copy current.annotations expected.annotations;
  load_balancer = current.load_balancer;
}

unfoldable pub has_ingress_config : Option ExposeConfig → Bool
unfolding ingress_config
has_ingress_config e = elim (ingress_config e) [ none ↦ false | some i ↦ true ]

module _ (sha256 : Text → Text) (is_ip : Text → Bool) (api : ClusterApi) where
  open api use {State}

  module _ (sorted_set : List Text → List Text) (flag_cidr : Text) where
    unfoldable pub network_policy_of : ClusterObject → List Text → NetworkPolicy
    unfolding safe_concat_name_with_prefix isolation_network_policy_spec
    network_policy_of c cidrs = record {
      name = safe_concat_name_with_prefix sha256 (c.meta.name ∷ []);
      namespace = c.meta.namespace;
      spec = isolation_network_policy_spec c.meta.namespace cidrs;
    }

    -- Under a policy the namespace has the policy's, and the Cluster's own is deleted.
    unfoldable pub ensure_network_policy : ClusterObject → Action State Done
    unfolding find_pod_cidrs network_policy_of after_own ignoring
    ensure_network_policy c =
        if not (is_empty c.status.policy_name)
        then (attempt (
              api.delete_network_policy
                (record { namespace = c.meta.namespace; name = (network_policy_of c []).name }))
            >>= ignoring)
        else (find_pod_cidrs api.list_nodes sorted_set flag_cidr >>= λ cidrs.
            api.write_network_policy (network_policy_of c cidrs) (λ current.
              after_own (λ p. record p { spec = (network_policy_of c cidrs).spec })
                (api.own_network_policy c current))
            >>= λ written. pure tt)

  unfoldable pub ensure_cluster_service : ClusterObject → Action State Service
  unfolding service exposed merge_service after_own
  ensure_cluster_service c =
      let expected = service sha256 (exposed c) in
      api.write_service expected
        (λ current. after_own (merge_service expected) (api.own_service c current))

  unfoldable pub ensure_ingress : AddressApi → ClusterObject → Action State Done
  unfolding ingress exposed has_ingress_config after_own ignoring
  ensure_ingress addresses c =
      let expected = ingress is_ip sha256 addresses (exposed c) in
      if not (has_ingress_config c.spec.expose)
      then (attempt (api.delete_ingress expected) >>= ignoring)
      else (api.write_ingress expected
            (λ current. after_own (λ i. expected) (api.own_ingress c current))
          >>= λ written. pure tt)
