-- ===== src/Policy/Clusters.antt =====
-- What a policy writes into the status of the Clusters of a namespace, and takes out again
-- (reconcileClusters of pkg/controller/policy/policy.go, namespace.go).
use k3k.Prelude.{
  Text, Bool, true, false, not, Option, none, some, List, [], ◌∷◌, ◌++◌, if◌then◌else◌,
}
use k3k.Api.{ApiError, ApiResult, ok, err}
use k3k.Action.{Action, pure, attempt, error_of, ◌>>=◌}
use k3k.Policy.{Policy, Applied, BoundCluster, PolicyApi}

-- The default priority class is given by its address, which is never nil.
unfoldable pub applied_policy : Policy → Applied
applied_policy policy = record {
  name = policy.meta.name;
  priority_class = some policy.spec.default_priority_class;
  node_selector = policy.spec.default_node_selector;
  sync = policy.spec.sync;
  server_affinity = policy.spec.default_server_affinity;
  agent_affinity = policy.spec.default_agent_affinity;
  security_context = policy.spec.security_context;
  runtime_class_name = policy.spec.runtime_class_name;
  host_users = policy.spec.host_users;
  allowed_host_schedulers = policy.spec.allowed_host_schedulers;
}

unfoldable pub is_set : Option Applied → Bool
is_set none = false
is_set (some a) = true

-- The outcome of a step that returns joined errors.
unfoldable pub joined : {S : Type 0} → ApiResult (List ApiError) × S → List ApiError × S
joined (ok errors, s) = (errors, s)
joined (err e, s) = (e ∷ [], s)

module _ (api : PolicyApi) where
  open api use {State}

  -- The status is written where it changes. An error does not stop the loop.
  unfoldable pub apply_to : Policy → List BoundCluster → Action State (List ApiError)
  unfolding applied_policy
  apply_to policy [] = pure []
  apply_to policy (c ∷ cs) =
      let wanted = some (applied_policy policy) in
      if not (api.same_applied c.policy wanted)
      then (attempt (api.update_cluster_status (record c { policy = wanted })) >>= λ r.
          apply_to policy cs >>= λ rest. pure (error_of r ++ rest))
      else apply_to policy cs

  unfoldable pub reconcile_clusters : Text → Policy → Action State (List ApiError)
  unfolding apply_to
  reconcile_clusters namespace policy = do
    clusters ← api.list_clusters namespace
    apply_to policy clusters

  unfoldable pub clear_each : List BoundCluster → Action State (List ApiError)
  unfolding is_set
  clear_each [] = pure []
  clear_each (c ∷ cs) =
      if is_set c.policy
      then (attempt (api.update_cluster_status (record c { policy = none })) >>= λ r.
          clear_each cs >>= λ rest. pure (error_of r ++ rest))
      else clear_each cs

  unfoldable pub clear_policy_fields_for_clusters_in_namespace : Text → Action State (List ApiError)
  unfolding clear_each
  clear_policy_fields_for_clusters_in_namespace namespace = do
    clusters ← api.list_clusters namespace
    clear_each clusters
