-- ===== src/Reconciler/Cleaned.antt =====
-- What is gone before the finalizer of a Cluster is removed.
use k3k.Prelude.{
  Text, text, Bool, true, false, Option, none, some, ◌&&◌, ◌≡◌, ◌⊎◌, inl, inr, refl, ap, sym, ◌∙◌,
}
use k3k.Api.{NamespacedName, ApiError, ApiResult, ok, err, FinalizerUtil}
use k3k.Action.{Done, when_true, attempt, bind-ok, bind_after_ok, bind_after_err, ◌>>=◌, ◌>>◌}
use k3k.Status.{ConditionApi}
use mathlib.Core.Path.{subst}
use k3k.Ports.{cluster_key}
use k3k.Ports.Freed.{IsFreed, deallocate_port-IsFreed}
use k3k.Reconciler.{ClusterApi, ClusterParts, ClusterObject}
use k3k.Reconciler.Roles.{has_subject, cluster_subject, unbind_cluster_roles}
use k3k.Reconciler.Objects.{ignoring-ok}
use k3k.Reconciler.Finalize.{
  is_shared, release_port, delete_lease, clean_up, remove_finalizer, as_terminating,
  finalize_cluster,
}
use k3k.Reconciler.Unbound.{FinalLaws, or_done, is_bound, unbind_cluster_roles-unbound}

module _ (conditions : ConditionApi) (sha256 : Text → Text) (util : FinalizerUtil)
    (api : ClusterApi) (parts : ClusterParts api.State) (laws : FinalLaws api parts)
    (c : ClusterObject) where
  -- The cluster has no port in the map that the server keeps, where it used one.
  abbrev PortIsFree : Bool → api.State → Type 0
  PortIsFree true s =
      IsFreed laws.ports_api laws.ports_laws (cluster_key c.meta.namespace c.meta.name)
        (laws.allocator s).server
  PortIsFree false s = Unit {0}

  -- What is taken back: the account is in neither binding, the lease is gone, and a Cluster of the mode
  -- shared that mirrors nodes has no port for the kubelet any more.
  unfoldable pub IsCleaned : api.State → Type 0
  unfolding is_bound is_shared
  IsCleaned s =
      (is_bound sha256 api parts laws c (text "k3k-kubelet-node") s ≡ false)
      × (is_bound sha256 api parts laws c (text "k3k-priorityclass") s ≡ false)
      × (laws.has_lease s (record { namespace = c.meta.namespace; name = c.meta.name }) ≡ false)
      × PortIsFree (is_shared c.spec.mode && c.spec.mirror_host_nodes) s

  released : (x : Option ApiError) → or_done x ≡ ok tt → x ≡ none
  unfolding or_done
  released none h = refl
  released (some e) h = absurd (cc h)

  release : Bool → api.State → ApiResult Done × api.State
  release x =
      when_true x (parts.deallocate_kubelet_port c.meta.name c.meta.namespace c.status.kubelet_port)

  release_port-kept :
      (x : Bool) (s : api.State)
      → (release x s).0 ≡ ok tt
      → PortIsFree x (release x s).1
        × ((r : Text) → laws.subjects (release x s).1 r ≡ laws.subjects s r)
  unfolding release when_true
  release_port-kept true s h =
      let port = c.status.kubelet_port in
      let done =
        released _ (sym (laws.deallocate_result c.meta.name c.meta.namespace port s) ∙ h) in
      (
        subst
            (λ a.
              IsFreed laws.ports_api laws.ports_laws (cluster_key c.meta.namespace c.meta.name)
                a.server)
            (sym (laws.deallocate_allocator c.meta.name c.meta.namespace port s))
            (deallocate_port-IsFreed laws.ports_api laws.ports_laws c.meta.name c.meta.namespace
              port (laws.allocator s) done),
        λ r. laws.deallocate_subjects _ _ r _ s,
      )
  release_port-kept false s h = (tt, λ r. refl)

  port_still_free :
      (x : Bool) (s s' : api.State)
      → laws.allocator s' ≡ laws.allocator s
      → PortIsFree x s
      → PortIsFree x s'
  port_still_free true s s' e h =
      subst
        (λ a.
          IsFreed laws.ports_api laws.ports_laws (cluster_key c.meta.namespace c.meta.name)
            a.server)
        (sym e) h
  port_still_free false s s' e h = tt

  abbrev lease_key : NamespacedName
  lease_key = record { namespace = c.meta.namespace; name = c.meta.name }

  delete_lease-kept :
      (s : api.State)
      → (delete_lease conditions sha256 util api parts c s).0 ≡ ok tt
      → (laws.has_lease (delete_lease conditions sha256 util api parts c s).1 lease_key ≡ false)
        × ((r : Text)
            → laws.subjects (delete_lease conditions sha256 util api parts c s).1 r
              ≡ laws.subjects s r)
        × (laws.allocator (delete_lease conditions sha256 util api parts c s).1 ≡ laws.allocator s)
  unfolding delete_lease ◌>>=◌ attempt
  delete_lease-kept s h =
      let gone = ignoring-ok (api.delete_lease lease_key s).0 (api.delete_lease lease_key s).1 h in
      (
        ap (λ x. laws.has_lease x lease_key) gone.1 ∙ laws.delete_lease_gone lease_key s gone.0,
        λ r. ap (λ x. laws.subjects x r) gone.1 ∙ laws.delete_lease_subjects lease_key r s,
        ap laws.allocator gone.1 ∙ laws.delete_lease_allocator lease_key s,
      )

  clean_up-IsCleaned :
      (s : api.State)
      → (clean_up conditions sha256 util api parts c s).0 ≡ ok tt
      → IsCleaned (clean_up conditions sha256 util api parts c s).1
  unfolding clean_up release_port IsCleaned is_bound release
  clean_up-IsCleaned s h =
      let roles = unbind_cluster_roles sha256 api c in
      let port = release_port conditions sha256 util api parts c in
      let two =
        bind-ok (roles >> port) (λ _. delete_lease conditions sha256 util api parts c) s tt h in
      let one = bind-ok roles (λ _. port) s tt two.1 in
      let unbound = unbind_cluster_roles-unbound sha256 api parts laws c s one.1 in
      let ported =
        release_port-kept (is_shared c.spec.mode && c.spec.mirror_host_nodes) (roles s).1
          (ap (λ x. x.0) (sym one.2) ∙ two.1) in
      let middle = ap (λ x. x.1) one.2 in
      let leased = delete_lease-kept ((roles >> port) s).1 (ap (λ x. x.0) (sym two.2) ∙ h) in
      let last = ap (λ x. x.1) two.2 in
      let used = is_shared c.spec.mode && c.spec.mirror_host_nodes in
      (
        still_unbound (text "k3k-kubelet-node") last (leased.1 _) middle (ported.1 _) unbound.0,
        still_unbound (text "k3k-priorityclass") last (leased.1 _) middle (ported.1 _) unbound.1,
        ap (λ x. laws.has_lease x lease_key) last ∙ leased.0,
        port_still_free used _ _ (ap laws.allocator last ∙ leased.2 ∙ ap laws.allocator middle)
            ported.0,
      )
    where
      still_unbound :
          {s1 s2 s2' s3 s3' : api.State} (role : Text)
          → s3 ≡ s3'
          → laws.subjects s3' role ≡ laws.subjects s2 role
          → s2 ≡ s2'
          → laws.subjects s2' role ≡ laws.subjects s1 role
          → is_bound sha256 api parts laws c role s1 ≡ false
          → is_bound sha256 api parts laws c role s3 ≡ false
      still_unbound role a b c' d h =
          ap (is_bound sha256 api parts laws c role) a
          ∙ (ap (has_subject (cluster_subject sha256 c)) b
              ∙ (ap (is_bound sha256 api parts laws c role) c'
                  ∙ (ap (has_subject (cluster_subject sha256 c)) d ∙ h)))

-- Finalizing a Cluster, in one of two ways: something cannot be taken back, and the run ends with that
-- error in the state that is reached, without the update of the finalizer; or the account of the
-- kubelet is unbound from both roles, the lease is gone, and a Cluster of the mode shared that mirrors
-- nodes has no port in the map of the allocator's ConfigMap, and only then the finalizer is removed.
pub finalize_cluster-IsCleaned :
    (conditions : ConditionApi) (sha256 : Text → Text) (util : FinalizerUtil) (api : ClusterApi)
    (parts : ClusterParts api.State) (laws : FinalLaws api parts) (c : ClusterObject)
    (s : api.State)
    → ((e : ApiError) × (finalize_cluster conditions sha256 util api parts c s
          ≡ (err e, (clean_up conditions sha256 util api parts (as_terminating conditions c) s).1)))
      ⊎ (IsCleaned conditions sha256 util api parts laws
            (as_terminating conditions c)
            (clean_up conditions sha256 util api parts (as_terminating conditions c) s).1
          × (finalize_cluster conditions sha256 util api parts c s
              ≡ remove_finalizer conditions sha256 util api parts
                  (as_terminating conditions c)
                  (clean_up conditions sha256 util api parts (as_terminating conditions c) s).1))
unfolding finalize_cluster
finalize_cluster-IsCleaned conditions sha256 util api parts laws c s =
    go (clean_up conditions sha256 util api parts (as_terminating conditions c) s).0 refl
  where
    go :
        (r : ApiResult Done)
        → (clean_up conditions sha256 util api parts (as_terminating conditions c) s).0 ≡ r
        → ((e : ApiError) × (finalize_cluster conditions sha256 util api parts c s ≡ (
          err e,
          (clean_up conditions sha256 util api parts (as_terminating conditions c) s).1,
        )))
          ⊎ (IsCleaned conditions sha256 util api parts laws
                (as_terminating conditions c)
                (clean_up conditions sha256 util api parts (as_terminating conditions c) s).1
              × (finalize_cluster conditions sha256 util api parts c s
                  ≡ remove_finalizer conditions sha256 util api parts
                      (as_terminating conditions c)
                      (clean_up conditions sha256 util api parts
                        (as_terminating conditions c)
                        s).1))
    go (ok a) h = inr (
      clean_up-IsCleaned conditions sha256 util api parts laws (as_terminating conditions c) s h,
      bind_after_ok (clean_up conditions sha256 util api parts (as_terminating conditions c)) _ s a
          h,
    )
    go (err e) h = inl (
      e,
      bind_after_err (clean_up conditions sha256 util api parts (as_terminating conditions c)) _ s e
          h,
    )
