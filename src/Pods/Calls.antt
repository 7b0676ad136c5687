-- ===== src/Pods/Calls.antt =====
-- The other calls of the virtual kubelet on a pod: update, delete and read it
-- (k3k-kubelet/provider/provider.go).
use k3k.Prelude.{Text, Bool, not, none, some, List, [], ◌∷◌, map}
use k3k.Api.{NamespacedName, ApiResult, ok, err, ignore_not_found}
use k3k.Action.{Action, Done, pure, when_true, ◌>>=◌, ◌>>◌}
use k3k.Translate.{translate_name, translate_from, cluster_name_label}
use k3k.Pods.{Container, Pod}
use k3k.Pods.Metadata.{update_pod_fields}
use k3k.Pods.Kubelet.{Provider, Kubelet}
use k3k.Pods.Create.{agent_name_label}

unfoldable pub with_ephemeral : List Container → Pod → Pod
with_ephemeral containers pod = record pod {
  payload = record pod.payload {
    spec = record pod.payload.spec { ephemeral_containers = containers };
  };
}

unfoldable pub from_host : Pod → Pod
unfolding translate_from
from_host pod = record pod { meta = translate_from pod.meta }

-- The outcome of a deletion: a pod that is gone already is no error.
unfoldable pub deleted : {S : Type 0} → ApiResult Done × S → ApiResult Done × S
deleted (ok x, s) = (ok tt, s)
deleted (err e, s) = elim (ignore_not_found e) [ none ↦ (ok tt, s) | some e' ↦ (err e', s) ]

abbrev pub cluster_namespace : Provider → Text
cluster_namespace p = p.translator.cluster_namespace

module _ (sha256 : Text → Text) (p : Provider) where
  unfoldable pub host_key : Text → Text → NamespacedName
  unfolding translate_name
  host_key namespace name = record {
    namespace = cluster_namespace p;
    name = translate_name sha256 p.translator namespace name;
  }

module _ (sha256 : Text → Text) (p : Provider) (k : Kubelet) where
  open k use {State}

  -- The ephemeral containers of a pod are a subresource, written when they differ (`cmp.Equal` is the
  -- parameter).
  unfoldable pub write_ephemeral :
      (List Container → List Container → Bool) → Pod → Pod → Action State Done
  unfolding with_ephemeral
  write_ephemeral same dst pod =
      let wanted = pod.payload.spec.ephemeral_containers in
      when_true (not (same dst.payload.spec.ephemeral_containers wanted)) (
        k.update_ephemeral_containers (cluster_namespace p) dst.meta.name
          (with_ephemeral wanted dst))

  unfoldable pub update_pod : (List Container → List Container → Bool) → Pod → Action State Done
  unfolding host_key update_pod_fields write_ephemeral
  update_pod same pod = do
    host ← k.get_host_pod (host_key sha256 p pod.meta.namespace pod.meta.name)
    let changed = update_pod_fields host pod
    k.update_host_pod changed
    write_ephemeral same changed pod
    virtual ← k.get_virtual_pod (record { namespace = pod.meta.namespace; name = pod.meta.name })
    let changed' = update_pod_fields virtual pod
    k.update_virtual_pod changed'
    write_ephemeral same changed' pod

  unfoldable pub delete_pod : Pod → Action State Done
  unfolding host_key deleted
  delete_pod pod s =
      deleted (k.delete_host_pod (host_key sha256 p pod.meta.namespace pod.meta.name) s)

  unfoldable pub get_pod_from_host_cluster : Text → Action State Pod
  unfolding from_host
  get_pod_from_host_cluster name = do
    pod ← k.get_host_pod (record { namespace = cluster_namespace p; name = name })
    pure (from_host pod)

  unfoldable pub get_pod : Text → Text → Action State Pod
  unfolding get_pod_from_host_cluster translate_name
  get_pod namespace name =
      get_pod_from_host_cluster (translate_name sha256 p.translator namespace name)

  unfoldable pub get_pod_status : Text → Text → Action State Text
  unfolding get_pod_from_host_cluster translate_name
  get_pod_status namespace name = do
    pod ← get_pod_from_host_cluster (translate_name sha256 p.translator namespace name)
    pure pod.payload.phase

  unfoldable pub list_host_pods : Action State (List Pod)
  list_host_pods =
      k.list_host_pods (cluster_namespace p) (
        (cluster_name_label, p.translator.cluster_name) ∷ (agent_name_label, p.agent_hostname) ∷ [])

  unfoldable pub get_pods : Action State (List Pod)
  unfolding list_host_pods from_host
  get_pods = do pods ← list_host_pods; pure (map from_host pods)
