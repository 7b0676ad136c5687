-- ===== src/Policy/Reconcile.antt =====
-- The reconciliation of a policy, and its end (pkg/controller/policy: policy.go, namespace.go and
-- policy_finalize.go). Of joined errors the first one stands for all.
use k3k.Prelude.{
  Text, text, is_empty, Bool, true, false, not, none, some, List, [], ◌∷◌, ◌++◌, if◌then◌else◌,
}
use k3k.Api.{
  ObjectMeta, ApiError, ApiResult, ok, err, not_found, already_exists, other, ignore_not_found,
}
use k3k.Action.{Action, Done, pure, raise, when_true, attempt, error_of, ◌>>=◌, ◌>>◌}
use k3k.Translate.{get_text}
use k3k.Policy.{
  Policy, PolicyApi, Requirement, equals, not_equals, network_policy_kind, resource_quota_kind,
  limit_range_kind,
}
use k3k.Policy.Labels.{
  reconcile_namespace_pod_security_labels, released_labels, policy_name_label_key,
}
use k3k.Policy.Owned.{
  reconcile_network_policy, reconcile_quota, reconcile_limit, managed_by_label_key,
  virtual_policy_controller_name,
}
use k3k.Policy.Clusters.{reconcile_clusters, clear_policy_fields_for_clusters_in_namespace}

abbrev pub policy_finalizer_name : Text
policy_finalizer_name = text "policy.k3k.io/finalizer"

unfoldable pub raise_joined : {S : Type 0} → List ApiError → Action S Done
unfolding pure raise
raise_joined [] = pure tt
raise_joined (e ∷ es) = raise e

-- What the cleanup may delete in a namespace: objects of this controller, and of other policies only,
-- where the namespace is bound to one.
unfoldable pub cleanup_selector : Text → List Requirement
cleanup_selector policy_name =
    if is_empty policy_name
    then equals managed_by_label_key virtual_policy_controller_name ∷ []
    else equals managed_by_label_key virtual_policy_controller_name
      ∷ not_equals policy_name_label_key policy_name
      ∷ []

module _ (sha256 : Text → Text) (api : PolicyApi) where
  open api use {State}

  unfoldable pub reconcile_namespace : Text → Policy → ObjectMeta → Action State Done
  unfolding reconcile_network_policy reconcile_quota reconcile_limit reconcile_clusters raise_joined
      reconcile_namespace_pod_security_labels
  reconcile_namespace cluster_cidr policy ns = do
    reconcile_network_policy sha256 api cluster_cidr ns.name policy
    reconcile_quota sha256 api ns.name policy
    reconcile_limit sha256 api ns.name policy
    errors ← reconcile_clusters api ns.name policy
    raise_joined errors
    let wanted =
        reconcile_namespace_pod_security_labels policy.spec.pod_security_admission_level ns.labels
    when_true (not (api.same_labels ns.labels wanted))
        (api.update_namespace (record ns { labels = wanted }))

  unfoldable pub reconcile_namespaces : Text → Policy → List ObjectMeta → Action State Done
  unfolding reconcile_namespace
  reconcile_namespaces cluster_cidr policy [] = pure tt
  reconcile_namespaces cluster_cidr policy (ns ∷ rest) =
      reconcile_namespace cluster_cidr policy ns >> reconcile_namespaces cluster_cidr policy rest

  unfoldable pub reconcile_matching_namespaces : Text → Policy → Action State Done
  unfolding reconcile_namespaces
  reconcile_matching_namespaces cluster_cidr policy = do
    namespaces ← api.list_namespaces (equals policy_name_label_key policy.meta.name ∷ [])
    reconcile_namespaces cluster_cidr policy namespaces

  -- The Clusters of a namespace without a policy, or with one that is gone. Errors are logged.
  unfoldable pub clear_unless_bound : Text → ApiResult Policy → Action State Done
  unfolding clear_policy_fields_for_clusters_in_namespace
  clear_unless_bound namespace (ok policy) = pure tt
  clear_unless_bound namespace (err not_found) =
      attempt (clear_policy_fields_for_clusters_in_namespace api namespace) >>= λ r. pure tt
  clear_unless_bound namespace (err already_exists) = pure tt
  clear_unless_bound namespace (err (other e)) = pure tt

  unfoldable pub clear_fields : Text → Text → Action State Done
  unfolding clear_unless_bound
  clear_fields namespace policy_name =
      if is_empty policy_name
      then clear_unless_bound namespace (err not_found)
      else (attempt (api.get_policy policy_name) >>= λ r. clear_unless_bound namespace r)

  unfoldable pub cleanup_namespace : ObjectMeta → Action State Done
  unfolding clear_fields cleanup_selector get_text
  cleanup_namespace ns = do
    let policy_name = get_text policy_name_label_key ns.labels
    clear_fields ns.name policy_name
    api.delete_all_of network_policy_kind ns.name (cleanup_selector policy_name)
    api.delete_all_of resource_quota_kind ns.name (cleanup_selector policy_name)
    api.delete_all_of limit_range_kind ns.name (cleanup_selector policy_name)

  unfoldable pub cleanup_each : List ObjectMeta → Action State Done
  unfolding cleanup_namespace
  cleanup_each [] = pure tt
  cleanup_each (ns ∷ rest) = cleanup_namespace ns >> cleanup_each rest

  unfoldable pub cleanup_namespaces : Action State Done
  unfolding cleanup_each
  cleanup_namespaces = api.list_namespaces [] >>= cleanup_each

  unfoldable pub reconcile_virtual_cluster_policy : Text → Policy → Action State Done
  unfolding reconcile_matching_namespaces cleanup_namespaces
  reconcile_virtual_cluster_policy cluster_cidr policy =
      reconcile_matching_namespaces cluster_cidr policy >> cleanup_namespaces

  -- The namespace without the labels of the policy. The errors are collected.
  unfoldable pub release_namespace : Policy → ObjectMeta → Action State (List ApiError)
  unfolding clear_policy_fields_for_clusters_in_namespace released_labels
  release_namespace policy ns = do
    cleared ← attempt (clear_policy_fields_for_clusters_in_namespace api ns.name >>= raise_joined)
    let wanted = released_labels policy.spec.pod_security_admission_level ns.labels
    updated ← attempt (
        when_true (not (api.same_labels ns.labels wanted))
          (api.update_namespace (record ns { labels = wanted })))
    pure (error_of cleared ++ error_of updated)

  unfoldable pub release_each : Policy → List ObjectMeta → Action State (List ApiError)
  unfolding release_namespace
  release_each policy [] = pure []
  release_each policy (ns ∷ rest) =
      release_namespace policy ns >>= λ e. release_each policy rest >>= λ es. pure (e ++ es)

  unfoldable pub cleanup_policy_resources : Policy → Action State (List ApiError)
  unfolding release_each
  cleanup_policy_resources policy = do
    namespaces ← api.list_namespaces (equals policy_name_label_key policy.meta.name ∷ [])
    release_each policy namespaces

  unfoldable pub with_finalizers : List Text → Policy → Policy
  with_finalizers fs policy = record policy { meta = record policy.meta { finalizers = fs } }

  unfoldable pub terminating : Policy → Policy
  unfolding text
  terminating policy = record policy {
    conditions = api.set_status_condition policy.conditions (record {
      type = text "Ready";
      status = false;
      reason = text "Terminating";
      message = text "Policy is being terminated";
    });
  }

  -- Where the status cannot be written, the policy is used as it is.
  unfoldable pub written_or : Policy → ApiResult Policy → Policy
  written_or policy (ok written) = written
  written_or policy (err e) = policy

  unfoldable pub update_if : Bool → Policy → Action State Policy
  unfolding pure
  update_if changed policy s = elim changed [
    | true ↦ api.update_policy policy s
    | false ↦ pure policy s
  ]

  -- The errors of the status and of the cleanup are logged.
  unfoldable pub finalize_policy : Policy → Action State Done
  unfolding terminating cleanup_policy_resources with_finalizers written_or update_if
  finalize_policy policy = do
    status ← attempt (api.update_policy_status (terminating policy))
    let current = written_or (terminating policy) status
    attempt (cleanup_policy_resources current)
    let removed = api.remove_finalizer policy_finalizer_name current.meta.finalizers
    update_if removed.1 (with_finalizers removed.0 current)
    pure tt

  -- The status is not written, since nothing here changes it. `reflect.DeepEqual` compares a pointer to
  -- the policy with the policy, which are never equal: the last update is always made.
  unfoldable pub reconcile_live : Text → Policy → Action State Done
  unfolding reconcile_virtual_cluster_policy with_finalizers update_if
  reconcile_live cluster_cidr policy = do
    let added = api.add_finalizer policy_finalizer_name policy.meta.finalizers
    kept ← update_if added.1 (with_finalizers added.0 policy)
    reconcile_virtual_cluster_policy cluster_cidr kept
    api.update_policy kept
    pure tt

  unfoldable pub reconcile_read : Text → ApiResult Policy → Action State Done
  unfolding reconcile_live finalize_policy ignore_not_found
  reconcile_read cluster_cidr (err e) = elim (ignore_not_found e) [
    | none ↦ pure tt
    | some e' ↦ raise e'
  ]
  reconcile_read cluster_cidr (ok policy) =
      if policy.meta.is_deleting then finalize_policy policy else reconcile_live cluster_cidr policy

  unfoldable pub reconcile : Text → Text → Action State Done
  unfolding reconcile_read
  reconcile cluster_cidr name = attempt (api.get_policy name) >>= reconcile_read cluster_cidr
