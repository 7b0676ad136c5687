-- ===== src/StatefulSets.antt =====
-- The controller of the StatefulSets of servers (pkg/controller/cluster/statefulset.go, and
-- clusterNamespacedName of filter.go): the finalizers of the pods, and the members of etcd.
pub mod Peers
pub mod Handled
mod Tests
use k3k.Prelude.{
  Text, text, text_eq, is_empty, ℕ, ◌==◌, Bool, true, false, not, ◌&&◌, ◌||◌, Option, none, some,
  List, [], ◌∷◌, if◌then◌else◌,
}
use k3k.Api.{
  ObjectMeta, NamespacedName, ApiError, ApiResult, ok, err, not_found, already_exists, other,
  FinalizerUtil, ignore_not_found,
}
use k3k.Action.{Action, Done, pure, raise, of_result, attempt, ◌>>=◌, ◌>>◌}
use k3k.Translate.{get_text, cluster_name_label}
use k3k.Reconciler.Objects.{ignoring}

-- The controlling owner of an object.
pub record Owner : Type 0 where
  pub kind : Text
  pub api_version : Text
  pub name : Text

pub record StatefulSet : Type 0 where
  pub meta : ObjectMeta
  pub controller : Option Owner

pub record ServerPod : Type 0 where
  pub meta : ObjectMeta
  pub ip : Text

pub record Member : Type 0 where
  pub id : ℕ
  pub name : Text
  pub peer_urls : List Text

-- The calls, with those that other parts of the controller make: the token with the configuration of
-- the servers (whether they use etcd), and the TLS configuration with the client of etcd. An answer that
-- there is no such member is `not_found`. `hostname` is the host of a parsed URL, and `contains_text` is
-- `strings.Contains`. `list_pods` is the selector and the List, which answers with a list or an error that
-- is raised.
pub record EtcdApi : Type 1 where
  pub State : Type 0
  pub get_stateful_set : NamespacedName → Action State StatefulSet
  pub get_cluster_name : NamespacedName → Action State Text
  pub list_pods : StatefulSet → Action State (List ServerPod)
  pub uses_etcd : Text → Action State Bool
  pub connect : Text → Text → Action State Done
  pub list_members : Action State (List Member)
  pub remove_member : ℕ → Action State Done
  pub update_pod : ServerPod → Action State Done
  pub update_stateful_set : StatefulSet → Action State Done
  pub hostname : Text → ApiResult Text
  pub contains_text : Text → Text → Bool
  pub finalizers : FinalizerUtil

abbrev pub etcd_pod_finalizer_name : Text
etcd_pod_finalizer_name = text "etcdpod.k3k.io/finalizer"

unfoldable pub is_cluster : Owner → Bool
unfolding text text_eq
is_cluster o = text_eq o.kind (text "Cluster") && text_eq o.api_version (text "k3k.io/v1beta1")

unfoldable pub labelled_name : StatefulSet → Text
unfolding get_text
labelled_name sts = get_text cluster_name_label sts.meta.labels

unfoldable pub cluster_name_of : StatefulSet → Option Owner → Text
unfolding is_cluster labelled_name
cluster_name_of sts none = labelled_name sts
cluster_name_of sts (some owner) = if is_cluster owner then owner.name else labelled_name sts

unfoldable pub cluster_namespaced_name : StatefulSet → NamespacedName
unfolding cluster_name_of
cluster_namespaced_name sts = record {
  namespace = sts.meta.namespace;
  name = cluster_name_of sts sts.controller;
}

unfoldable pub with_pod_finalizers : List Text → ServerPod → ServerPod
with_pod_finalizers fs pod = record pod { meta = record pod.meta { finalizers = fs } }

-- A Cluster that is not there has the empty name.
unfoldable pub name_or_none : ApiResult Text → ApiResult Text
name_or_none (ok name) = ok name
name_or_none (err not_found) = ok []
name_or_none (err already_exists) = err already_exists
name_or_none (err (other e)) = err (other e)

module _ (api : EtcdApi) where
  open api use {State, hostname, contains_text}

  -- The first URL that is not one, or the first with the address.
  unfoldable pub has_address : Text → List Text → ApiResult Bool
  unfolding text_eq
  has_address address [] = ok false
  has_address address (u ∷ us) =
      let rest = has_address address us in
      elim (hostname u) [
        | err e ↦ err e
        | ok host ↦ (if text_eq host address then ok true else rest)
      ]

  -- The member that a pod was: the name and the address must both match.
  unfoldable pub find_member : Text → Text → List Member → ApiResult (Option Member)
  unfolding has_address
  find_member name address [] = ok none
  find_member name address (m ∷ ms) =
      let rest = find_member name address ms in
      if not (contains_text m.name name) then rest else (elim (has_address address m.peer_urls) [
        | err e ↦ err e
        | ok found ↦ (if found then ok (some m) else rest)
      ])

  unfoldable pub remove_found : Option Member → Action State Done
  unfolding ignoring
  remove_found none = pure tt
  remove_found (some m) = attempt (api.remove_member m.id) >>= ignoring

  unfoldable pub remove_peer : Text → Text → Action State Done
  unfolding find_member remove_found
  remove_peer name address = do
    members ← api.list_members
    found ← of_result (find_member name address members)
    remove_found found

  unfoldable pub drop_finalizer : ServerPod → Action State Done
  unfolding with_pod_finalizers
  drop_finalizer pod s =
      let removed = api.finalizers.remove etcd_pod_finalizer_name pod.meta.finalizers in
      elim removed.1 [
        | true ↦ api.update_pod (with_pod_finalizers removed.0 pod) s
        | false ↦ pure tt s
      ]

  unfoldable pub keep_finalizer : ServerPod → Action State Done
  unfolding with_pod_finalizers
  keep_finalizer pod s =
      let added = api.finalizers.add etcd_pod_finalizer_name pod.meta.finalizers in
      elim added.1 [ true ↦ api.update_pod (with_pod_finalizers added.0 pod) s | false ↦ pure tt s ]

  -- A pod that is being deleted leaves etcd first, while its Cluster is there.
  unfoldable pub handle_server_pod : Text → ServerPod → Action State Done
  unfolding keep_finalizer drop_finalizer remove_peer
  handle_server_pod cluster pod =
      if not pod.meta.is_deleting
      then keep_finalizer pod
      else if is_empty cluster
      then drop_finalizer pod
      else (api.connect cluster pod.meta.namespace
          >> remove_peer pod.meta.name pod.ip
          >> drop_finalizer pod)

  unfoldable pub handle_pods : Text → List ServerPod → Action State Done
  unfolding handle_server_pod
  handle_pods cluster [] = pure tt
  handle_pods cluster (pod ∷ pods) = handle_server_pod cluster pod >> handle_pods cluster pods

  unfoldable pub drop_all : List ServerPod → Action State Done
  unfolding drop_finalizer
  drop_all [] = pure tt
  drop_all (pod ∷ pods) = drop_finalizer pod >> drop_all pods

  unfoldable pub drop_own_finalizer : StatefulSet → Action State Done
  drop_own_finalizer sts s =
      let removed = api.finalizers.remove etcd_pod_finalizer_name sts.meta.finalizers in
      elim removed.1 [
        | true ↦
            api.update_stateful_set
              (record sts { meta = record sts.meta { finalizers = removed.0 } }) s
        | false ↦ pure tt s
      ]

  unfoldable pub handle_deletion : StatefulSet → Action State Done
  unfolding drop_all drop_own_finalizer
  handle_deletion sts = do pods ← api.list_pods sts; drop_all pods; drop_own_finalizer sts

  -- Servers without etcd have no finalizers.
  unfoldable pub handle_members : Text → List ServerPod → Action State Done
  unfolding handle_pods
  handle_members cluster pods =
      api.uses_etcd cluster >>= λ used. if used then handle_pods cluster pods else pure tt

  -- The last pod of a set need not leave etcd.
  unfoldable pub handle_listed : Text → List ServerPod → Action State Done
  unfolding handle_members drop_finalizer
  handle_listed cluster (pod ∷ []) =
      if pod.meta.is_deleting then drop_finalizer pod else handle_members cluster (pod ∷ [])
  handle_listed cluster [] = handle_members cluster []
  handle_listed cluster (pod ∷ other_pod ∷ pods) = handle_members cluster (pod ∷ other_pod ∷ pods)

  unfoldable pub reconcile_set : StatefulSet → Action State Done
  unfolding cluster_namespaced_name name_or_none handle_deletion handle_listed
  reconcile_set sts = do
    found ← attempt (api.get_cluster_name (cluster_namespaced_name sts))
    cluster ← of_result (name_or_none found)
    if sts.meta.is_deleting
        then handle_deletion sts
        else (api.list_pods sts >>= handle_listed cluster)

  unfoldable pub reconcile_read : ApiResult StatefulSet → Action State Done
  unfolding reconcile_set ignore_not_found
  reconcile_read (ok sts) = reconcile_set sts
  reconcile_read (err e) = elim (ignore_not_found e) [ none ↦ pure tt | some e' ↦ raise e' ]

  unfoldable pub reconcile : NamespacedName → Action State Done
  unfolding reconcile_read
  reconcile req = attempt (api.get_stateful_set req) >>= reconcile_read
