-- ===== src/StatefulSets/Handled.antt =====
-- A pod of a server leaves etcd before its finalizer is removed (handleServerPod of
-- pkg/controller/cluster/statefulset.go).
use k3k.Prelude.{
  Text, is_empty, contains, Bool, true, false, not, Option, none, some, List, ◌≡◌, ◌⊎◌, inl, inr,
  refl, ap, sym, ◌∙◌, if◌then◌else◌,
}
use mathlib.Core.Path.{subst}
use k3k.Api.{
  NamespacedName, ApiError, ApiResult, ok, err, not_found, already_exists, other, ignore_not_found,
  FinalizerLaws,
}
use k3k.Action.{
  Action, Done, Any, Ends, Keeps, bind-Keeps, of_result-Keeps, pure, raise, of_result, attempt,
  bind-ok, bind_after_ok, bind_after_err, ◌>>=◌, ◌>>◌,
}
use k3k.Reconciler.Objects.{ignoring, ignoring-ok}
use k3k.StatefulSets.{
  Member, ServerPod, EtcdApi, etcd_pod_finalizer_name, find_member, remove_found, remove_peer,
  with_pod_finalizers, keep_finalizer, drop_finalizer, handle_server_pod,
}
use k3k.StatefulSets.Peers.{has_id, pod_key, MemberLaws, HasLeft, Found, find_member-Found}

-- What is done before the finalizer is removed.
unfoldable leave : (api : EtcdApi) → Text → ServerPod → Action api.State Done
leave api cluster pod =
    api.connect cluster pod.meta.namespace >> remove_peer api pod.meta.name pod.ip

module _ (api : EtcdApi) (laws : MemberLaws api) where
  remove_found-HasLeft :
      (pod : ServerPod) (before : List Member) (found : Option Member) (s : api.State)
      → Found api pod.meta.name pod.ip before found
      → (remove_found api found s).0 ≡ ok tt
      → HasLeft api pod before (laws.members (remove_found api found s).1)
  unfolding remove_found attempt ◌>>=◌
  remove_found-HasLeft pod before none s f h = inl f
  remove_found-HasLeft pod before (some m) s f h =
      let gone = ignoring-ok (api.remove_member m.id s).0 (api.remove_member m.id s).1 h in
      inr (
        m,
        f.0,
        f.1,
        ap (λ x. has_id m.id (laws.members x)) gone.1 ∙ laws.remove_gone m.id s gone.0,
      )

  remove_peer-HasLeft :
      (pod : ServerPod) (s : api.State)
      → (remove_peer api pod.meta.name pod.ip s).0 ≡ ok tt
      → HasLeft api pod (laws.members s) (laws.members (remove_peer api pod.meta.name pod.ip s).1)
  unfolding remove_peer of_result
  remove_peer-HasLeft pod s h =
      let find = find_member api pod.meta.name pod.ip in
      let listed =
        bind-ok api.list_members (λ ms. of_result (find ms) >>= remove_found api) s tt h in
      let s' = (api.list_members s).1 in
      let h' = ap (λ x. x.0) (sym listed.2) ∙ h in
      let matched = bind-ok (of_result (find listed.0)) (remove_found api) s' tt h' in
      subst (λ y. HasLeft api pod (laws.members s) (laws.members y.1)) (sym (listed.2 ∙ matched.2))
        (remove_found-HasLeft pod (laws.members s) matched.0 s'
          (find_member-Found api pod.meta.name pod.ip (laws.members s) matched.0
            (ap find (sym (laws.list_result s listed.0 listed.1)) ∙ matched.1))
          (ap (λ x. x.0) (sym matched.2) ∙ h'))

  -- The pod keeps its finalizers.
  HasKept : NamespacedName → List Text → api.State → Type 0
  HasKept k fs s = laws.stored_finalizers s k ≡ fs

  state_kept :
      (k : NamespacedName) (fs : List Text) (x : ApiResult Done × api.State)
      → Ends (HasKept k fs) Any x
      → HasKept k fs x.1
  state_kept k fs (ok a, s) h = h.1
  state_kept k fs (err e, s) h = h

  from_kept :
      {A : Type 0} (k : NamespacedName) (fs : List Text) (x : ApiResult A × api.State)
      → HasKept k fs x.1
      → Ends (HasKept k fs) Any x
  from_kept k fs (ok a, s) h = (tt, h)
  from_kept k fs (err e, s) h = h

  ignoring_state : (r : ApiResult Done) (s : api.State) → (ignoring r s).1 ≡ s
  unfolding ignoring pure raise ignore_not_found
  ignoring_state (ok a) s = refl
  ignoring_state (err not_found) s = refl
  ignoring_state (err already_exists) s = refl
  ignoring_state (err (other e)) s = refl

  remove_found-Keeps :
      (k : NamespacedName) (fs : List Text) (found : Option Member)
      → Keeps (HasKept k fs) Any (remove_found api found)
  unfolding remove_found Keeps HasKept attempt pure ◌>>=◌
  remove_found-Keeps k fs none s h = (tt, h)
  remove_found-Keeps k fs (some m) s h =
      from_kept k fs (ignoring (api.remove_member m.id s).0 (api.remove_member m.id s).1) (
        ap (λ x. laws.stored_finalizers x k) (ignoring_state _ _)
        ∙ laws.remove_pods_kept m.id s k
        ∙ h)

  leave-Keeps :
      (cluster : Text) (pod : ServerPod) (k : NamespacedName) (fs : List Text)
      → Keeps (HasKept k fs) Any (leave api cluster pod)
  unfolding leave remove_peer Keeps HasKept
  leave-Keeps cluster pod k fs =
      bind-Keeps (HasKept k fs) Any Any (api.connect cluster pod.meta.namespace) _
        (λ s h. from_kept k fs _ (laws.connect_pods cluster pod.meta.namespace s k ∙ h))
        (λ _ _.
          bind-Keeps (HasKept k fs) Any Any api.list_members _
            (λ s h. from_kept k fs _ (laws.list_pods_kept s k ∙ h))
            (λ ms _.
              bind-Keeps (HasKept k fs) Any Any
                (of_result (find_member api pod.meta.name pod.ip ms)) _
                (of_result-Keeps (HasKept k fs) _) (λ found _. remove_found-Keeps k fs found)))

  leave-HasLeft :
      (cluster : Text) (pod : ServerPod) (s : api.State)
      → (leave api cluster pod s).0 ≡ ok tt
      → HasLeft api pod (laws.members s) (laws.members (leave api cluster pod s).1)
  unfolding leave
  leave-HasLeft cluster pod s h =
      let connected =
        bind-ok (api.connect cluster pod.meta.namespace) (λ _. remove_peer api pod.meta.name pod.ip)
          s tt h in
      let s' = (api.connect cluster pod.meta.namespace s).1 in
      subst (λ y. HasLeft api pod (laws.members s) (laws.members y.1)) (sym connected.2)
        (subst (λ ms. HasLeft api pod ms (laws.members (remove_peer api pod.meta.name pod.ip s').1))
          (laws.connect_members cluster pod.meta.namespace s)
          (remove_peer-HasLeft pod s' (ap (λ x. x.0) (sym connected.2) ∙ h)))

  deleted_pod :
      (cluster : Text) (pod : ServerPod) (s : api.State)
      → is_empty cluster ≡ false
      → pod.meta.is_deleting ≡ true
      → handle_server_pod api cluster pod s ≡ (leave api cluster pod >> drop_finalizer api pod) s
  unfolding handle_server_pod leave
  deleted_pod cluster pod s here deleting =
      ap (λ b. (if not b then keep_finalizer api pod else rest (is_empty cluster)) s) deleting
      ∙ ap (λ b. rest b s) here
    where
      rest : Bool → Action api.State Done
      rest b =
          if b then drop_finalizer api pod else (leave api cluster pod >> drop_finalizer api pod)

  drop_finalizer-members :
      (pod : ServerPod) (s : api.State) → laws.members (drop_finalizer api pod s).1 ≡ laws.members s
  unfolding drop_finalizer pure
  drop_finalizer-members pod s = go removed.1
    where
      removed : List Text × Bool
      removed = api.finalizers.remove etcd_pod_finalizer_name pod.meta.finalizers

      go :
          (b : Bool)
          → laws.members
              (elim b as (λ x. ApiResult Done × api.State) [
                | true ↦ api.update_pod (with_pod_finalizers removed.0 pod) s
                | false ↦ (ok tt, s)
              ]).1
            ≡ laws.members s
      go true = laws.update_members _ s
      go false = refl

  drop_finalizer-dropped :
      (util : FinalizerLaws api.finalizers) (pod : ServerPod) (s : api.State)
      → laws.stored_finalizers s (pod_key pod) ≡ pod.meta.finalizers
      → (drop_finalizer api pod s).0 ≡ ok tt
      → contains
          (laws.stored_finalizers (drop_finalizer api pod s).1 (pod_key pod))
          etcd_pod_finalizer_name
        ≡ false
  unfolding drop_finalizer pure with_pod_finalizers pod_key
  drop_finalizer-dropped util pod s k = go removed.1 refl
    where
      removed : List Text × Bool
      removed = api.finalizers.remove etcd_pod_finalizer_name pod.meta.finalizers

      dropped : Bool → ApiResult Done × api.State
      dropped b = elim b [
        | true ↦ api.update_pod (with_pod_finalizers removed.0 pod) s
        | false ↦ (ok tt, s)
      ]

      go :
          (b : Bool)
          → removed.1 ≡ b
          → (dropped b).0 ≡ ok tt
          → contains (laws.stored_finalizers (dropped b).1 (pod_key pod)) etcd_pod_finalizer_name
            ≡ false
      go true e h =
          ap (λ fs. contains fs etcd_pod_finalizer_name)
            (laws.update_pod_result (with_pod_finalizers removed.0 pod) s h)
          ∙ util.remove-contains etcd_pod_finalizer_name pod.meta.finalizers
      go false e h =
          ap (λ fs. contains fs etcd_pod_finalizer_name) k
          ∙ sym (util.remove_changes etcd_pod_finalizer_name pod.meta.finalizers)
          ∙ e

  -- The pod and its member after the handling: an error leaves the finalizers, or comes after the pod has
  -- left etcd; without one the pod has left and the finalizer is gone.
  abbrev pub IsHandled : ServerPod → api.State → ApiResult Done × api.State → Type 0
  IsHandled pod s r =
      ((e : ApiError) × (r.0 ≡ err e)
        × ((laws.stored_finalizers r.1 (pod_key pod) ≡ pod.meta.finalizers)
            ⊎ HasLeft api pod (laws.members s) (laws.members r.1)))
      ⊎ ((r.0 ≡ ok tt)
          × HasLeft api pod (laws.members s) (laws.members r.1)
          × (contains (laws.stored_finalizers r.1 (pod_key pod)) etcd_pod_finalizer_name ≡ false))

  left-IsHandled :
      (util : FinalizerLaws api.finalizers) (pod : ServerPod) (s s' : api.State)
      → HasLeft api pod (laws.members s) (laws.members s')
      → laws.stored_finalizers s' (pod_key pod) ≡ pod.meta.finalizers
      → IsHandled pod s (drop_finalizer api pod s')
  left-IsHandled util pod s s' left k = go (drop_finalizer api pod s').0 refl
    where
      left' : HasLeft api pod (laws.members s) (laws.members (drop_finalizer api pod s').1)
      left' = subst (HasLeft api pod (laws.members s)) (sym (drop_finalizer-members pod s')) left

      go :
          (r : ApiResult Done)
          → (drop_finalizer api pod s').0 ≡ r
          → IsHandled pod s (drop_finalizer api pod s')
      go (ok a) h = inr (h, left', drop_finalizer-dropped util pod s' k h)
      go (err e) h = inl (e, h, inr left')

  -- A stored pod that is being deleted, of a Cluster that is there, leaves etcd before it loses its
  -- finalizer. The handling ends in one of three ways: with an error and the pod's finalizers as they
  -- were; with an error after the pod has left etcd; or without an error, and then the pod has left and
  -- the finalizer is gone. A pod has left where etcd had no member whose name contains the pod's and
  -- that has a URL on the pod's address, or where it had one and does not have it any more.
  pub handle_server_pod-IsHandled :
      (util : FinalizerLaws api.finalizers) (cluster : Text) (pod : ServerPod) (s : api.State)
      → is_empty cluster ≡ false
      → pod.meta.is_deleting ≡ true
      → laws.stored_finalizers s (pod_key pod) ≡ pod.meta.finalizers
      → IsHandled pod s (handle_server_pod api cluster pod s)
  unfolding Keeps HasKept
  handle_server_pod-IsHandled util cluster pod s here deleting k =
      subst (IsHandled pod s) (sym (deleted_pod cluster pod s here deleting))
        (go (leave api cluster pod s).0 refl)
    where
      kept : laws.stored_finalizers (leave api cluster pod s).1 (pod_key pod) ≡ pod.meta.finalizers
      kept =
          state_kept (pod_key pod) pod.meta.finalizers (leave api cluster pod s)
            (leave-Keeps cluster pod (pod_key pod) pod.meta.finalizers s k)

      go :
          (r : ApiResult Done)
          → (leave api cluster pod s).0 ≡ r
          → IsHandled pod s ((leave api cluster pod >> drop_finalizer api pod) s)
      go (ok a) h =
          subst (IsHandled pod s)
            (sym (bind_after_ok (leave api cluster pod) (λ _. drop_finalizer api pod) s a h))
            (left-IsHandled util pod s (leave api cluster pod s).1 (leave-HasLeft cluster pod s h)
              kept)
      go (err e) h =
          subst (IsHandled pod s)
            (sym (bind_after_err (leave api cluster pod) (λ _. drop_finalizer api pod) s e h))
            (inl (e, refl, inl kept))
