-- ===== src/Reconciler/Unbound.antt =====
-- The account of a kubelet is out of the bindings of its roles.
use k3k.Prelude.{
  Text, text, text_eq, text_eq_refl, ℕ, Bool, true, false, Option, none, some, List, [], ◌∷◌, ◌++◌,
  keep, ◌≡◌, ◌⊎◌, inl, inr, refl, ap, sym, ◌∙◌, if◌then◌else◌, arith, Bool-cases,
}
use mathlib.Core.Path.{subst}
use k3k.Api.{NamespacedName, ApiError, ApiResult, ok, err, not_found}
use k3k.Action.{Done, pure, raise, when_true, attempt, error_of, bind-ok, ◌>>=◌}
use k3k.Ports.{PortsApi, PortAllocator, deallocate_port}
use k3k.Ports.Consistent.{PortsLaws}
use k3k.Reconciler.{ClusterApi, ClusterParts, ClusterObject, Subject, RoleBinding}
use k3k.Reconciler.Roles.{
  same_subject, has_subject, remove_subject, unbind_role, each_role, cluster_subject,
  unbind_cluster_roles, end_joined,
}

has_subject-remove_subject :
    (s : Subject) (ts : List Subject) → has_subject s (remove_subject s ts) ≡ false
unfolding has_subject remove_subject keep
has_subject-remove_subject s [] = refl
has_subject-remove_subject s (t ∷ ts) = elim (Bool-cases (same_subject t s)) [
  | inl e ↦ rw (e) (has_subject-remove_subject s ts)
  | inr e ↦ rw (e, e) (has_subject-remove_subject s ts)
]

-- `if err != nil`.
unfoldable pub or_done : Option ApiError → ApiResult Done
or_done none = ok tt
or_done (some e) = err e

-- What the servers keep, as far as the end of a Cluster changes it: the subjects of the bindings, the
-- leases, and the port allocator. A call changes what it names, where it has no error, and nothing
-- else. The release of a port is `deallocate_port` on the allocator.
pub record FinalLaws (api : ClusterApi) (parts : ClusterParts api.State) : Type 1 where
  pub subjects : api.State → Text → List Subject
  pub has_lease : api.State → NamespacedName → Bool
  pub ports_api : PortsApi
  pub ports_laws : PortsLaws ports_api
  pub allocator : api.State → PortAllocator ports_api
  pub get_role_subjects :
      (role r : Text) (s : api.State) → subjects (api.get_role_binding role s).1 r ≡ subjects s r
  pub get_role_result :
      (role : Text) (s : api.State) (b : RoleBinding)
      → (api.get_role_binding role s).0 ≡ ok b
      → (b.name ≡ role) × (b.subjects ≡ subjects s role)
  pub update_role_subjects :
      (b : RoleBinding) (r : Text) (s : api.State)
      → (api.update_role_binding b s).0 ≡ ok tt
      → subjects (api.update_role_binding b s).1 r
        ≡ (if text_eq b.name r then b.subjects else subjects s r)
  pub deallocate_subjects :
      (name namespace r : Text) (port : ℕ) (s : api.State)
      → subjects (parts.deallocate_kubelet_port name namespace port s).1 r ≡ subjects s r
  pub deallocate_result :
      (name namespace : Text) (port : ℕ) (s : api.State)
      → (parts.deallocate_kubelet_port name namespace port s).0
        ≡ or_done (deallocate_port ports_api name namespace port (allocator s)).0
  pub deallocate_allocator :
      (name namespace : Text) (port : ℕ) (s : api.State)
      → allocator (parts.deallocate_kubelet_port name namespace port s).1
        ≡ (deallocate_port ports_api name namespace port (allocator s)).1
  pub delete_lease_subjects :
      (n : NamespacedName) (r : Text) (s : api.State)
      → subjects (api.delete_lease n s).1 r ≡ subjects s r
  pub delete_lease_allocator :
      (n : NamespacedName) (s : api.State) → allocator (api.delete_lease n s).1 ≡ allocator s
  pub delete_lease_gone :
      (n : NamespacedName) (s : api.State)
      → ((api.delete_lease n s).0 ≡ ok tt) ⊎ ((api.delete_lease n s).0 ≡ err not_found)
      → has_lease (api.delete_lease n s).1 n ≡ false

module _ (sha256 : Text → Text) (api : ClusterApi) (parts : ClusterParts api.State)
    (laws : FinalLaws api parts) (c : ClusterObject) where
  -- The account of the Cluster's kubelet is in the binding of the role.
  unfoldable pub is_bound : Text → api.State → Bool
  unfolding has_subject cluster_subject
  is_bound role s = has_subject (cluster_subject sha256 c) (laws.subjects s role)

  -- The account is out of the binding of a role, and the other bindings are as they were.
  unfoldable pub Unbinds : Text → api.State → api.State → Type 0
  unfolding is_bound
  Unbinds role s s' =
      (is_bound role s' ≡ false)
      × ((r : Text) → text_eq role r ≡ false → laws.subjects s' r ≡ laws.subjects s r)

  abbrev cleared : RoleBinding → RoleBinding
  cleared b = record b { subjects = remove_subject (cluster_subject sha256 c) b.subjects }

  update-Unbinds :
      (role : Text) (b : RoleBinding) (s : api.State) (x : Bool)
      → has_subject (cluster_subject sha256 c) b.subjects ≡ x
      → b.name ≡ role
      → b.subjects ≡ laws.subjects s role
      → (when_true x (api.update_role_binding (cleared b)) s).0 ≡ ok tt
      → Unbinds role s (when_true x (api.update_role_binding (cleared b)) s).1
  unfolding when_true is_bound Unbinds
  update-Unbinds role b s true y n e h = (
    ap (has_subject (cluster_subject sha256 c))
          (laws.update_role_subjects (cleared b) role s h ∙ bound_lem)
        ∙ has_subject-remove_subject (cluster_subject sha256 c) b.subjects,
    λ r g. laws.update_role_subjects (cleared b) r s h ∙ rw (n, g) refl,
  )
    where
      bound_lem :
          (if text_eq b.name role then (cleared b).subjects else laws.subjects s role)
          ≡ (cleared b).subjects
      bound_lem = rw (n, text_eq_refl role) refl
  update-Unbinds role b s false y n e h =
      (ap (has_subject (cluster_subject sha256 c)) (sym e) ∙ y, λ r g. refl)

  unbind_role-Unbinds :
      (role : Text) (s : api.State)
      → (unbind_role sha256 api (cluster_subject sha256 c) role s).0 ≡ ok tt
      → Unbinds role s (unbind_role sha256 api (cluster_subject sha256 c) role s).1
  unfolding unbind_role Unbinds is_bound
  unbind_role-Unbinds role s h =
      let found =
        bind-ok (api.get_role_binding role)
          (λ b.
            when_true (has_subject (cluster_subject sha256 c) b.subjects)
              (api.update_role_binding (cleared b)))
          s tt h in
      let b = found.0 in
      let s' = (api.get_role_binding role s).1 in
      let kept = laws.get_role_result role s b found.1 in
      let after =
        update-Unbinds role b s' _ refl kept.0 (kept.1 ∙ sym (laws.get_role_subjects role role s))
          (ap (λ x. x.0) (sym found.2) ∙ h) in
      subst (λ x. Unbinds role s x.1) (sym found.2)
        (after.0, λ r g. after.1 r g ∙ laws.get_role_subjects role r s)

  end_joined-ok :
      (x y : ApiResult Done) (s : api.State)
      → (end_joined (error_of x ++ (error_of y ++ [])) s).0 ≡ ok tt
      → (x ≡ ok tt) × (y ≡ ok tt)
  unfolding end_joined raise
  end_joined-ok (ok a) (ok b) s h = (refl, refl)
  end_joined-ok (ok a) (err e) s h = ground arith
  end_joined-ok (err e) y s h = ground arith

  end_joined-state : (es : List ApiError) (s : api.State) → (end_joined es s).1 ≡ s
  unfolding end_joined raise pure
  end_joined-state [] s = refl
  end_joined-state (e ∷ es) s = refl

  roles_differ : text_eq (text "k3k-priorityclass") (text "k3k-kubelet-node") ≡ false
  unfolding text_eq text
  roles_differ = refl

  abbrev unbound_state : Text → api.State → api.State
  unbound_state role s = (unbind_role sha256 api (cluster_subject sha256 c) role s).1

  -- Both roles, one after the other: an error of either is an error of the loop.
  pub unbind_cluster_roles-unbound :
      (s : api.State)
      → (unbind_cluster_roles sha256 api c s).0 ≡ ok tt
      → (is_bound (text "k3k-kubelet-node") (unbind_cluster_roles sha256 api c s).1 ≡ false)
        × (is_bound (text "k3k-priorityclass") (unbind_cluster_roles sha256 api c s).1 ≡ false)
  unfolding unbind_cluster_roles each_role attempt pure ◌>>=◌ is_bound Unbinds
  unbind_cluster_roles-unbound s h =
      let node = text "k3k-kubelet-node" in
      let class = text "k3k-priorityclass" in
      let s' = unbound_state node s in
      let x = unbind_role sha256 api (cluster_subject sha256 c) node s in
      let y = unbind_role sha256 api (cluster_subject sha256 c) class s' in
      let both = end_joined-ok x.0 y.0 y.1 h in
      let same = end_joined-state (error_of x.0 ++ (error_of y.0 ++ [])) y.1 in
      let first = unbind_role-Unbinds node s both.0 in
      let second = unbind_role-Unbinds class s' both.1 in
      (
        ap (is_bound node) same
            ∙ (ap (has_subject (cluster_subject sha256 c)) (second.1 node roles_differ) ∙ first.0),
        ap (is_bound class) same ∙ second.0,
      )
