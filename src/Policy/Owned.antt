-- ===== src/Policy/Owned.antt =====
-- The objects of a policy in a namespace (pkg/controller/policy: reconcileQuota and reconcileLimit of
-- policy.go, and networkpolicy.go).
use k3k.Prelude.{
  Text, text, is_empty, Dict, Bool, true, false, not, Option, none, some, List, [], ◌∷◌, ◌++◌,
  if◌then◌else◌,
}
use k3k.Api.{
  ObjectMeta, NamespacedName, ApiResult, ok, err, not_found, already_exists, other,
  ignore_not_found,
}
use k3k.Action.{Action, Done, pure, of_result, ◌>>=◌}
use k3k.Names.{safe_concat_name_with_prefix}
use k3k.Translate.{cluster_name_label}
use k3k.Policy.{
  Policy, OwnedObject, network_spec, given_spec, NetworkSpec, ip_block, namespace_pods, Kind,
  network_policy_kind, resource_quota_kind, limit_range_kind, Node, PolicyApi,
}
use k3k.Policy.Labels.{policy_name_label_key}

abbrev pub managed_by_label_key : Text
managed_by_label_key = text "app.kubernetes.io/managed-by"

abbrev pub virtual_policy_controller_name : Text
virtual_policy_controller_name = text "k3k-policy-controller"

abbrev pub managed_labels : Text → Dict Text
managed_labels name =
    (managed_by_label_key, virtual_policy_controller_name) ∷ (policy_name_label_key, name) ∷ []

-- Egress everywhere but to the pods of the host, to the namespace itself, and to the DNS of the host.
unfoldable pub isolation_network_policy_spec : Text → List Text → NetworkSpec
unfolding text
isolation_network_policy_spec namespace pod_cidrs = record {
  selected_label = cluster_name_label;
  egress =
      ip_block (text "0.0.0.0/0") pod_cidrs
      ∷ namespace_pods namespace []
      ∷ namespace_pods (text "kube-system") ((text "k8s-app", text "kube-dns") ∷ [])
      ∷ [];
}

-- What the nodes name, in the order of the loop.
unfoldable pub node_cidrs : List Node → List Text
node_cidrs [] = []
node_cidrs (n ∷ ns) =
    n.pod_cidrs ++ ((if not (is_empty n.pod_cidr) then n.pod_cidr ∷ [] else []) ++ node_cidrs ns)

-- A call that ends without an error when there is nothing there.
unfoldable pub forgiving : {S : Type 0} → ApiResult Done × S → ApiResult Done × S
unfolding ignore_not_found
forgiving (ok x, s) = (ok tt, s)
forgiving (err e, s) = elim (ignore_not_found e) [ none ↦ (ok tt, s) | some e' ↦ (err e', s) ]

-- What follows a creation: an update, where the object is there already.
unfoldable pub or_update : {S : Type 0} → Action S Done → ApiResult Done × S → ApiResult Done × S
or_update update (ok x, s) = (ok tt, s)
or_update update (err already_exists, s) = update s
or_update update (err not_found, s) = (err not_found, s)
or_update update (err (other e), s) = (err (other e), s)

-- The range of the flag, or those of the nodes. `sorted_set` is `sets.List` of a set of strings.
unfoldable pub find_pod_cidrs :
    {S : Type 0} → Action S (List Node) → (List Text → List Text) → Text → Action S (List Text)
unfolding node_cidrs
find_pod_cidrs list_nodes sorted_set cluster_cidr =
    if not (is_empty cluster_cidr)
    then pure (cluster_cidr ∷ [])
    else (list_nodes >>= λ nodes. pure (sorted_set (node_cidrs nodes)))

module _ (sha256 : Text → Text) where
  unfoldable pub owned_meta : Policy → Text → ObjectMeta
  unfolding safe_concat_name_with_prefix
  owned_meta policy namespace = record {
    name = safe_concat_name_with_prefix sha256 (policy.meta.name ∷ []);
    namespace = namespace;
    labels = managed_labels policy.meta.name;
    annotations = [];
    owner_references = [];
    finalizers = [];
    resource_version = [];
    uid = [];
    is_deleting = false;
  }

  unfoldable pub owned_key : Policy → Text → NamespacedName
  unfolding owned_meta
  owned_key policy namespace = record {
    namespace = namespace;
    name = (owned_meta policy namespace).name;
  }

  unfoldable pub network_policy : Text → Policy → List Text → OwnedObject
  unfolding owned_meta isolation_network_policy_spec
  network_policy namespace policy cidrs = record {
    meta = owned_meta policy namespace;
    spec = network_spec (isolation_network_policy_spec namespace cidrs);
  }

  module _ (api : PolicyApi) where
    open api use {State}

    -- The deletion of an object that the policy does not ask for.
    unfoldable pub delete_found : Kind → ApiResult OwnedObject × State → ApiResult Done × State
    unfolding ignore_not_found
    delete_found kind (ok object, s) = api.delete_owned kind object s
    delete_found kind (err e, s) = elim (ignore_not_found e) [
      | none ↦ (ok tt, s)
      | some e' ↦ (err e', s)
    ]

    unfoldable pub create_or_update_owned : Kind → OwnedObject → Action State Done
    unfolding or_update
    create_or_update_owned kind object s =
        or_update (api.update_owned kind object) (api.create_owned kind object s)

    -- `reconcileQuota` and `reconcileLimit`, which differ in the kind and in the field of the policy.
    unfoldable pub reconcile_given : Kind → Option Text → Text → Policy → Action State Done
    unfolding delete_found create_or_update_owned owned_key owned_meta
    reconcile_given kind none namespace policy s =
        delete_found kind (api.get_owned kind (owned_key policy namespace) s)
    reconcile_given kind (some spec) namespace policy s =
        (of_result (
              api.set_controller policy
                (record { meta = owned_meta policy namespace; spec = given_spec spec }))
            >>= create_or_update_owned kind)
          s

    unfoldable pub reconcile_quota : Text → Policy → Action State Done
    unfolding reconcile_given
    reconcile_quota namespace policy =
        reconcile_given resource_quota_kind policy.spec.quota namespace policy

    unfoldable pub reconcile_limit : Text → Policy → Action State Done
    unfolding reconcile_given
    reconcile_limit namespace policy =
        reconcile_given limit_range_kind policy.spec.limit namespace policy

    unfoldable pub write_network_policy : Bool → OwnedObject → Action State Done
    unfolding forgiving create_or_update_owned
    write_network_policy true object s = forgiving (api.delete_owned network_policy_kind object s)
    write_network_policy false object s = create_or_update_owned network_policy_kind object s

    unfoldable pub reconcile_network_policy : Text → Text → Policy → Action State Done
    unfolding find_pod_cidrs network_policy write_network_policy
    reconcile_network_policy cluster_cidr namespace policy = do
      cidrs ← find_pod_cidrs api.list_nodes api.sorted_set cluster_cidr
      object ← of_result (api.set_controller policy (network_policy namespace policy cidrs))
      write_network_policy policy.spec.disable_network_policy object
