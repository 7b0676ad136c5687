-- ===== src/Policy/Enforced.antt =====
-- What a policy means for the pods of the Clusters of a namespace: reconcileClusters of
-- pkg/controller/policy/policy.go writes the status that createPod of
-- k3k-kubelet/provider/provider.go reads.
use k3k.Prelude.{
  Text, Bool, true, false, not, Option, none, some, List, [], ◌∷◌, ◌++◌, ◌≡◌, ◌⊎◌, inl, inr, refl,
  ap, sym, ◌∙◌, if◌then◌else◌,
}
use mathlib.Core.Path.{subst}
use k3k.Api.{NamespacedName, ApiError, ok, same_name, same_name_refl}
use k3k.Action.{Action, attempt, pure, error_of, bind-ok, collect-ok, ◌>>=◌}
use k3k.Policy.{Policy, Applied, BoundCluster, PolicyApi}
use k3k.Policy.Clusters.{applied_policy, apply_to, reconcile_clusters}
use k3k.Pods.Kubelet.{AppliedPolicy, HostCluster}
use k3k.Pods.Create.{enforced_priority_class}

-- The fields of the status that the kubelet reads.
unfoldable pub read_by_kubelet : Option Applied → Option AppliedPolicy
read_by_kubelet none = none
read_by_kubelet (some a) = some (record {
  node_selector = a.node_selector;
  priority_class = a.priority_class;
  allowed_host_schedulers = a.allowed_host_schedulers;
})

unfoldable pub cluster_key : BoundCluster → NamespacedName
cluster_key c = record { namespace = c.meta.namespace; name = c.meta.name }

-- What was read of the Clusters is what the statuses hold.
abbrev pub AllRead :
    {S : Type 0} → (S → NamespacedName → Option Applied) → S → List BoundCluster → Type 0
AllRead policy_of s [] = Unit {0}
AllRead policy_of s (c ∷ cs) = (policy_of s (cluster_key c) ≡ c.policy) × AllRead policy_of s cs

-- The Cluster is one of the list.
abbrev pub Among : BoundCluster → List BoundCluster → Type 0
Among c [] = ⊥
Among c (d ∷ ds) = (d ≡ c) ⊎ Among c ds

-- The policies in the statuses of the Clusters, and the Clusters of a namespace.
pub record ClusterLaws (api : PolicyApi) : Type 0 where
  pub policy_of : api.State → NamespacedName → Option Applied
  pub clusters : api.State → Text → List BoundCluster
  pub list_result :
      (namespace : Text) (s : api.State) (cs : List BoundCluster)
      → (api.list_clusters namespace s).0 ≡ ok cs
      → cs ≡ clusters s namespace
  pub listed_policy :
      (namespace : Text) (s : api.State) (cs : List BoundCluster)
      → (api.list_clusters namespace s).0 ≡ ok cs
      → AllRead policy_of (api.list_clusters namespace s).1 cs
  pub update_policy :
      (c : BoundCluster) (k : NamespacedName) (s : api.State)
      → (api.update_cluster_status c s).0 ≡ ok tt
      → policy_of (api.update_cluster_status c s).1 k
        ≡ (if same_name (cluster_key c) k then c.policy else policy_of s k)
  pub same_sound : (a b : Option Applied) → api.same_applied a b ≡ true → a ≡ b

module _ (api : PolicyApi) (laws : ClusterLaws api) (policy : Policy) where
  abbrev wanted : Option Applied
  wanted = some (applied_policy policy)

  -- In turn for the Clusters that are still to be seen: the policy is there or will be written.
  abbrev AllSettled : api.State → List BoundCluster → Type 0
  AllSettled s [] = Unit {0}
  AllSettled s (c ∷ cs) =
      ((laws.policy_of s (cluster_key c) ≡ c.policy) ⊎ (laws.policy_of s (cluster_key c) ≡ wanted))
      × AllSettled s cs

  read-AllSettled :
      (s : api.State) (cs : List BoundCluster) → AllRead laws.policy_of s cs → AllSettled s cs
  read-AllSettled s [] h = tt
  read-AllSettled s (c ∷ cs) h = (inl h.0, read-AllSettled s cs h.1)

  written_or_kept :
      (c : BoundCluster) (k : NamespacedName) (s : api.State)
      → (api.update_cluster_status (record c { policy = wanted }) s).0 ≡ ok tt
      → (laws.policy_of (api.update_cluster_status (record c { policy = wanted }) s).1 k ≡ wanted)
        ⊎ (laws.policy_of (api.update_cluster_status (record c { policy = wanted }) s).1 k
            ≡ laws.policy_of s k)
  unfolding cluster_key
  written_or_kept c k s h =
      go (same_name (cluster_key c) k) (laws.update_policy (record c { policy = wanted }) k s h)
    where
      go :
          {x y : Option Applied} (b : Bool) → x ≡ (if b then wanted else y) → (x ≡ wanted) ⊎ (x ≡ y)
      go true e = inl e
      go false e = inr e

  written :
      (c : BoundCluster) (s : api.State)
      → (api.update_cluster_status (record c { policy = wanted }) s).0 ≡ ok tt
      → laws.policy_of
          (api.update_cluster_status (record c { policy = wanted }) s).1
          (cluster_key c)
        ≡ wanted
  unfolding cluster_key
  written c s h =
      laws.update_policy (record c { policy = wanted }) (cluster_key c) s h
      ∙ ap (λ b. if b then wanted else laws.policy_of s (cluster_key c))
          (same_name_refl (cluster_key c))

  keeps_wanted : {x y : Option Applied} → (x ≡ wanted) ⊎ (x ≡ y) → y ≡ wanted → x ≡ wanted
  keeps_wanted (inl e) h = e
  keeps_wanted (inr e) h = e ∙ h

  written-AllSettled :
      (c : BoundCluster) (s : api.State) (cs : List BoundCluster)
      → (api.update_cluster_status (record c { policy = wanted }) s).0 ≡ ok tt
      → AllSettled s cs
      → AllSettled (api.update_cluster_status (record c { policy = wanted }) s).1 cs
  written-AllSettled c s [] h r = tt
  written-AllSettled c s (d ∷ ds) h r =
      (settled (written_or_kept c (cluster_key d) s h) r.0, written-AllSettled c s ds h r.1)
    where
      settled :
          {x y z : Option Applied}
          → (x ≡ wanted) ⊎ (x ≡ y)
          → (y ≡ z) ⊎ (y ≡ wanted)
          → (x ≡ z) ⊎ (x ≡ wanted)
      settled (inl e) f = inr e
      settled (inr e) (inl f) = inl (e ∙ f)
      settled (inr e) (inr f) = inr (e ∙ f)

  -- One Cluster and the rest of the loop.
  unfoldable step : Bool → BoundCluster → List BoundCluster → Action api.State (List ApiError)
  step b c cs =
      if not b
      then (attempt (api.update_cluster_status (record c { policy = wanted })) >>= λ r.
          apply_to api policy cs >>= λ rest. pure (error_of r ++ rest))
      else apply_to api policy cs

  apply_to_keeps :
      (cs : List BoundCluster) (k : NamespacedName) (s : api.State)
      → (apply_to api policy cs s).0 ≡ ok []
      → laws.policy_of s k ≡ wanted
      → laws.policy_of (apply_to api policy cs s).1 k ≡ wanted
  unfolding apply_to pure step
  apply_to_keeps [] k s h w = w
  apply_to_keeps (c ∷ cs) k s h w =
      go (λ s'. apply_to_keeps cs k s') (api.same_applied c.policy wanted) h
    where
      go :
          ((s' : api.State)
            → (apply_to api policy cs s').0 ≡ ok []
            → laws.policy_of s' k ≡ wanted
            → laws.policy_of (apply_to api policy cs s').1 k ≡ wanted)
          → (b : Bool) → (step b c cs s).0 ≡ ok []
          → laws.policy_of (step b c cs s).1 k ≡ wanted
      go keep true g = keep s g w
      go keep false g =
          let parts =
            collect-ok (api.update_cluster_status (record c { policy = wanted }))
              (apply_to api policy cs) s g in
          ap (λ x. laws.policy_of x k) parts.2
          ∙ keep (api.update_cluster_status (record c { policy = wanted }) s).1 parts.1
              (keeps_wanted (written_or_kept c k s parts.0) w)

  settled_same :
      {x y : Option Applied}
      → (x ≡ y) ⊎ (x ≡ wanted)
      → api.same_applied y wanted ≡ true
      → x ≡ wanted
  settled_same {x} {y} (inl e) h = e ∙ laws.same_sound y wanted h
  settled_same (inr e) h = e

  apply_to-applied :
      (cs : List BoundCluster) (c : BoundCluster) (s : api.State)
      → AllSettled s cs
      → (apply_to api policy cs s).0 ≡ ok []
      → Among c cs
      → laws.policy_of (apply_to api policy cs s).1 (cluster_key c) ≡ wanted
  unfolding apply_to step
  apply_to-applied [] c s r h among = absurd among
  apply_to-applied (d ∷ cs) c s r h among =
      go (λ s'. apply_to-applied cs c s') (api.same_applied d.policy wanted) refl h among
    where
      go :
          ((s' : api.State)
            → AllSettled s' cs
            → (apply_to api policy cs s').0 ≡ ok []
            → Among c cs
            → laws.policy_of (apply_to api policy cs s').1 (cluster_key c) ≡ wanted)
          → (b : Bool) → api.same_applied d.policy wanted ≡ b
          → (step b d cs s).0 ≡ ok []
          → (d ≡ c) ⊎ Among c cs
          → laws.policy_of (step b d cs s).1 (cluster_key c) ≡ wanted
      go later true e g (inl same) =
          apply_to_keeps cs (cluster_key c) s g
            (ap (λ x. laws.policy_of s (cluster_key x)) (sym same) ∙ settled_same r.0 e)
      go later true e g (inr there) = later s r.1 g there
      go later false e g (inl same) =
          let parts =
            collect-ok (api.update_cluster_status (record d { policy = wanted }))
              (apply_to api policy cs) s g in
          let s1 = (api.update_cluster_status (record d { policy = wanted }) s).1 in
          ap (λ x. laws.policy_of x (cluster_key c)) parts.2
          ∙ apply_to_keeps cs (cluster_key c) s1 parts.1
              (ap (λ x. laws.policy_of s1 (cluster_key x)) (sym same) ∙ written d s parts.0)
      go later false e g (inr there) =
          let parts =
            collect-ok (api.update_cluster_status (record d { policy = wanted }))
              (apply_to api policy cs) s g in
          ap (λ x. laws.policy_of x (cluster_key c)) parts.2
          ∙ later (api.update_cluster_status (record d { policy = wanted }) s).1
              (written-AllSettled d s cs parts.0 r.1) parts.1 there

  -- Where `reconcileClusters` has no error, every Cluster that the namespace had holds in its status what
  -- the policy gives it, whether it was written or left. In the pods of such a Cluster the kubelet
  -- then enforces the policy's default priority class whatever the Cluster's own is, also where the
  -- policy sets none.
  pub reconcile_clusters-enforced :
      (namespace : Text) (c : BoundCluster) (own : HostCluster) (s : api.State)
      → (reconcile_clusters api namespace policy s).0 ≡ ok []
      → Among c (laws.clusters s namespace)
      → (laws.policy_of (reconcile_clusters api namespace policy s).1 (cluster_key c)
          ≡ some (applied_policy policy))
        × (enforced_priority_class own (
              read_by_kubelet
                (laws.policy_of (reconcile_clusters api namespace policy s).1 (cluster_key c)))
            ≡ policy.spec.default_priority_class)
  unfolding reconcile_clusters enforced_priority_class read_by_kubelet applied_policy
  reconcile_clusters-enforced namespace c own s h among =
      (stored, ap (λ x. enforced_priority_class own (read_by_kubelet x)) stored)
    where
      stored :
          laws.policy_of (reconcile_clusters api namespace policy s).1 (cluster_key c)
          ≡ some (applied_policy policy)
      stored =
          let listed = bind-ok (api.list_clusters namespace) (apply_to api policy) s [] h in
          let s' = (api.list_clusters namespace s).1 in
          ap (λ x. laws.policy_of x.1 (cluster_key c)) listed.2
          ∙ apply_to-applied listed.0 c s'
              (read-AllSettled s' listed.0 (laws.listed_policy namespace s listed.0 listed.1))
              (ap (λ x. x.0) (sym listed.2) ∙ h)
              (subst (Among c) (sym (laws.list_result namespace s listed.0 listed.1)) among)
