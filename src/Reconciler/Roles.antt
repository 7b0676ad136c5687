-- ===== src/Reconciler/Roles.antt =====
-- The subjects of the two cluster roles of the kubelet (`bindClusterRoles` of
-- pkg/controller/cluster/cluster.go, `unbindClusterRoles` of cluster_finalize.go).
use k3k.Prelude.{Text, text, text_eq, Bool, false, not, ◌&&◌, ◌||◌, List, [], ◌∷◌, ◌++◌, keep}
use k3k.Api.{ApiError}
use k3k.Action.{Action, Done, pure, raise, when_true, attempt, error_of, ◌>>=◌}
use k3k.Names.{safe_concat_name_with_prefix}
use k3k.Reconciler.{ClusterApi, ClusterObject, Subject}

abbrev pub cluster_roles : List Text
cluster_roles = text "k3k-kubelet-node" ∷ text "k3k-priorityclass" ∷ []

unfoldable pub same_subject : Subject → Subject → Bool
unfolding text_eq
same_subject a b =
    text_eq a.kind b.kind
    && text_eq a.api_group b.api_group
    && text_eq a.name b.name
    && text_eq a.namespace b.namespace

unfoldable pub has_subject : Subject → List Subject → Bool
unfolding same_subject
has_subject s [] = false
has_subject s (t ∷ ts) = same_subject t s || has_subject s ts

unfoldable pub remove_subject : Subject → List Subject → List Subject
unfolding same_subject
remove_subject s ts = keep (λ t. not (same_subject t s)) ts

-- The joined errors of a loop: the first one stands for all.
unfoldable pub end_joined : {S : Type 0} → List ApiError → Action S Done
unfolding pure raise
end_joined [] = pure tt
end_joined (e ∷ es) = raise e

module _ (sha256 : Text → Text) where
  unfoldable pub cluster_subject : ClusterObject → Subject
  unfolding safe_concat_name_with_prefix text
  cluster_subject c = record {
    kind = text "ServiceAccount";
    api_group = [];
    name = safe_concat_name_with_prefix sha256 (c.meta.name ∷ text "kubelet" ∷ []);
    namespace = c.meta.namespace;
  }

  module _ (api : ClusterApi) where
    open api use {State}

    unfoldable pub unbind_role : Subject → Text → Action State Done
    unfolding remove_subject has_subject
    unbind_role s role = do
      binding ← api.get_role_binding role
      when_true (has_subject s binding.subjects) (
          api.update_role_binding (record binding { subjects = remove_subject s binding.subjects }))

    unfoldable pub bind_role : Subject → Text → Action State Done
    unfolding has_subject
    bind_role s role = do
      binding ← api.get_role_binding role
      when_true (not (has_subject s binding.subjects))
          (api.update_role_binding (record binding { subjects = binding.subjects ++ s ∷ [] }))

    -- An error does not stop the loop.
    unfoldable pub each_role : (Text → Action State Done) → List Text → Action State (List ApiError)
    each_role f [] = pure []
    each_role f (role ∷ roles) =
        attempt (f role) >>= λ r. each_role f roles >>= λ es. pure (error_of r ++ es)

    unfoldable pub unbind_cluster_roles : ClusterObject → Action State Done
    unfolding each_role unbind_role cluster_subject end_joined
    unbind_cluster_roles c =
        each_role (unbind_role (cluster_subject c)) cluster_roles >>= end_joined

    unfoldable pub bind_cluster_roles : ClusterObject → Action State Done
    unfolding each_role bind_role cluster_subject end_joined
    bind_cluster_roles c = each_role (bind_role (cluster_subject c)) cluster_roles >>= end_joined
