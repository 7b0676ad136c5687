-- ===== src/Reconciler/Finalize.antt =====
-- The end of a Cluster (`finalizeCluster` of pkg/controller/cluster/cluster_finalize.go).
use k3k.Prelude.{Text, text, Bool, true, false, ◌&&◌, some, List}
use k3k.Api.{FinalizerUtil}
use k3k.Action.{Action, Done, pure, when_true, attempt, ◌>>=◌, ◌>>◌}
use k3k.Expose.{ClusterMode, unset, shared, virtual_cluster, hcp}
use k3k.Status.{terminating, ConditionApi}
use k3k.Reconciler.{ClusterApi, ClusterParts, ClusterObject}
use k3k.Reconciler.Roles.{unbind_cluster_roles}
use k3k.Reconciler.Objects.{ignoring}

abbrev pub cluster_finalizer_name : Text
cluster_finalizer_name = text "cluster.k3k.io/finalizer"

unfoldable pub with_finalizers : List Text → ClusterObject → ClusterObject
with_finalizers fs c = record c { meta = record c.meta { finalizers = fs } }

unfoldable pub is_shared : ClusterMode → Bool
is_shared shared = true
is_shared unset = false
is_shared virtual_cluster = false
is_shared hcp = false

module _ (conditions : ConditionApi) where
  unfoldable pub as_terminating : ClusterObject → ClusterObject
  unfolding text
  as_terminating c = record c {
    status = record c.status {
      phase = some terminating;
      conditions = conditions.set_status_condition c.status.conditions (record {
        type = text "Ready";
        status = false;
        reason = text "Terminating";
        message = text "Cluster is being terminated";
      });
    };
  }

  module _ (sha256 : Text → Text) (util : FinalizerUtil) (api : ClusterApi)
      (parts : ClusterParts api.State) where
    open api use {State}

    -- The port of the kubelet, where the Cluster used one.
    unfoldable pub release_port : ClusterObject → Action State Done
    unfolding is_shared
    release_port c =
        when_true (is_shared c.spec.mode && c.spec.mirror_host_nodes)
          (parts.deallocate_kubelet_port c.meta.name c.meta.namespace c.status.kubelet_port)

    unfoldable pub delete_lease : ClusterObject → Action State Done
    unfolding ignoring
    delete_lease c =
        attempt (api.delete_lease (record { namespace = c.meta.namespace; name = c.meta.name }))
        >>= ignoring

    -- What is taken back before the finalizer is removed.
    unfoldable pub clean_up : ClusterObject → Action State Done
    unfolding unbind_cluster_roles release_port delete_lease
    clean_up c = unbind_cluster_roles sha256 api c >> release_port c >> delete_lease c

    unfoldable pub remove_finalizer : ClusterObject → Action State Done
    unfolding with_finalizers
    remove_finalizer c s =
        let removed = util.remove cluster_finalizer_name c.meta.finalizers in
        elim removed.1 [
          | true ↦ (api.update_cluster (with_finalizers removed.0 c) >>= λ written. pure tt) s
          | false ↦ pure tt s
        ]

    -- The status that is set first is in the object of the last update, which does not write statuses.
    unfoldable pub finalize_cluster : ClusterObject → Action State Done
    unfolding as_terminating clean_up remove_finalizer
    finalize_cluster c = clean_up (as_terminating c) >> remove_finalizer (as_terminating c)
