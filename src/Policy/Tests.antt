-- ===== src/Policy/Tests.antt =====
-- A policy on a server that keeps the quotas that are written.
use k3k.Prelude.{
  Text, text, Dict, lookup, true, false, Option, none, some, List, [], ◌∷◌, ◌≡◌, refl,
  if◌then◌else◌, sym, arith, Bool-cases, inl, inr, text_eq_iff,
}
use mathlib.Core.Path.{subst}
use k3k.Api.{NamespacedName, ApiResult, ok, err, not_found, other, same_name, same_name_refl}
use k3k.Action.{attempt, pure, ◌>>=◌, of_result}
use k3k.Pods.Tokens.{no_meta}
use k3k.Pods.Kubelet.{HostCluster}
use k3k.Pods.Create.{enforced_priority_class}
use k3k.Policy.{Policy, Applied, BoundCluster, OwnedObject, resource_quota_kind, PolicyApi}
use k3k.Policy.Labels.{
  reconcile_namespace_pod_security_labels, is_psa_label, psa_value, warn_label,
  lookup-reconcile_namespace_pod_security_labels,
}
use k3k.Policy.Owned.{reconcile_given, owned_key, create_or_update_owned, or_update}
use k3k.Policy.Clusters.{applied_policy, apply_to, reconcile_clusters}
use k3k.Policy.Enforced.{
  read_by_kubelet, cluster_key, AllRead, ClusterLaws, reconcile_clusters-enforced,
}
use k3k.Policy.Ensured.{OwnedLaws, object_key, IsWanted, reconcile_given-IsWanted}

abbrev no_digest : Text → Text
no_digest t = t

abbrev policy : Policy
policy = record {
  meta = record no_meta { name = text "team" };
  spec = record {
    quota = some (text "cpu=4");
    limit = none;
    default_node_selector = [];
    default_server_affinity = none;
    default_agent_affinity = none;
    default_priority_class = [];
    disable_network_policy = false;
    pod_security_admission_level = some (text "restricted");
    sync = none;
    security_context = none;
    runtime_class_name = none;
    host_users = none;
    allowed_host_schedulers = none;
  };
  conditions = [];
}

abbrev cluster : HostCluster
cluster = record {
  meta = record no_meta { name = text "c"; namespace = text "host" };
  node_selector = (text "pool", text "a") ∷ [];
  priority_class = text "low";
  allowed_host_schedulers = [];
  policy = none;
}

abbrev old_labels : Dict Text
old_labels = (warn_label, text "baseline") ∷ (text "team", text "a") ∷ []

lookup-reconcile_namespace_pod_security_labels_example :
    lookup warn_label
      (reconcile_namespace_pod_security_labels (some (text "restricted")) old_labels)
    ≡ (if is_psa_label warn_label
        then psa_value (some (text "restricted")) warn_label
        else lookup warn_label old_labels)
lookup-reconcile_namespace_pod_security_labels_example =
    lookup-reconcile_namespace_pod_security_labels warn_label (some (text "restricted")) old_labels

-- One kind of objects is enough here.
abbrev Store : Type 0
Store = NamespacedName → Option OwnedObject

abbrev put : OwnedObject → Store → Store
put o s m = if same_name (object_key o) m then some o else s m

abbrev take_out : OwnedObject → Store → Store
take_out o s m = if same_name (object_key o) m then none else s m

-- An object is found under its own name.
abbrev found : NamespacedName → Option OwnedObject → ApiResult OwnedObject
found n none = err not_found
found n (some o) = elim (same_name (object_key o) n) [
  | true ↦ ok o
  | false ↦ err (other (text "misplaced"))
]

abbrev server : PolicyApi
server = record {
  State = Store;
  get_policy = λ n s. (ok policy, s);
  update_policy = λ p s. (ok p, s);
  update_policy_status = λ p s. (ok p, s);
  list_namespaces = λ r s. (ok [], s);
  update_namespace = λ m s. (ok tt, s);
  list_clusters = λ n s. (ok [], s);
  update_cluster_status = λ c s. (ok tt, s);
  list_nodes = λ s. (ok [], s);
  get_owned = λ k n s. (found n (s n), s);
  create_owned = λ k o s. (ok tt, put o s);
  update_owned = λ k o s. (ok tt, put o s);
  delete_owned = λ k o s. (ok tt, take_out o s);
  delete_all_of = λ k n r s. (ok tt, s);
  set_controller = λ p o. ok o;
  sorted_set = λ xs. xs;
  same_applied = λ a b. false;
  same_labels = λ a b. false;
  set_status_condition = λ cs c. c ∷ cs;
  same_conditions = λ a b. false;
  add_finalizer = λ f fs. (f ∷ fs, true);
  remove_finalizer = λ f fs. ([], true);
}

found-none : (n : NamespacedName) (x : Option OwnedObject) → found n x ≡ err not_found → x ≡ none
found-none n none h = refl
found-none n (some o) h = elim (Bool-cases (same_name (object_key o) n)) [
  | inl e ↦ ground arith
  | inr e ↦ ground arith
]

same_name_sound : (a b : NamespacedName) → same_name a b ≡ true → a ≡ b
unfolding same_name
same_name_sound a b h =
    ground (arith, text_eq_iff a.namespace b.namespace, text_eq_iff a.name b.name)

found_key :
    (n : NamespacedName) (x : Option OwnedObject) (o : OwnedObject)
    → found n x ≡ ok o
    → object_key o ≡ n
found_key n none o h = ground arith
found_key n (some o') o h = ground (arith, same_name_sound (object_key o') n)

server_laws : OwnedLaws server
server_laws = record {
  content = λ k s n. s n;
  stored = λ o. o;
  get_not_found = λ k n s h. found-none n (s n) h;
  get_found = λ k n s o h. found_key n (s n) o h;
  create_stores = λ k o s h. rw (same_name_refl (object_key o)) refl;
  update_stores = λ k o s h. rw (same_name_refl (object_key o)) refl;
  delete_removes = λ k o s h. rw (same_name_refl (object_key o)) refl;
  set_controller_key = λ p o o' h. ground arith;
}

quota_made :
    (reconcile_given no_digest server resource_quota_kind
      (some (text "cpu=4"))
      (text "ns")
      policy
      (λ n. none)).0
    ≡ ok tt
unfolding reconcile_given create_or_update_owned or_update ◌>>=◌ of_result
quota_made = refl

reconcile_given-IsWanted_example :
    IsWanted no_digest server server_laws resource_quota_kind
      (text "ns")
      policy
      (some (text "cpu=4"))
      (server_laws.content resource_quota_kind
        (reconcile_given no_digest server resource_quota_kind
          (some (text "cpu=4"))
          (text "ns")
          policy
          (λ n. none)).1
        (owned_key no_digest policy (text "ns")))
reconcile_given-IsWanted_example =
    reconcile_given-IsWanted no_digest server server_laws resource_quota_kind (text "ns") policy
      (some (text "cpu=4")) (λ n. none) quota_made

-- One Cluster of the namespace, by what its status holds.
abbrev Statuses : Type 0
Statuses = NamespacedName → Option Applied

abbrev bound : Option Applied → BoundCluster
bound applied = record {
  meta = record no_meta { name = text "c"; namespace = text "host" };
  policy = applied;
}

abbrev statuses : PolicyApi
statuses = record {
  State = Statuses;
  get_policy = λ n s. (ok policy, s);
  update_policy = λ p s. (ok p, s);
  update_policy_status = λ p s. (ok p, s);
  list_namespaces = λ r s. (ok [], s);
  update_namespace = λ m s. (ok tt, s);
  list_clusters = λ n s. (ok (bound (s (cluster_key (bound none))) ∷ []), s);
  update_cluster_status =
      λ c s. (ok tt, λ k. if same_name (cluster_key c) k then c.policy else s k);
  list_nodes = λ s. (ok [], s);
  get_owned = λ k n s. (err not_found, s);
  create_owned = λ k o s. (ok tt, s);
  update_owned = λ k o s. (ok tt, s);
  delete_owned = λ k o s. (ok tt, s);
  delete_all_of = λ k n r s. (ok tt, s);
  set_controller = λ p o. ok o;
  sorted_set = λ xs. xs;
  same_applied = λ a b. false;
  same_labels = λ a b. false;
  set_status_condition = λ cs c. c ∷ cs;
  same_conditions = λ a b. false;
  add_finalizer = λ f fs. (f ∷ fs, true);
  remove_finalizer = λ f fs. ([], true);
}

read_clusters : (l cs : List BoundCluster) → ApiResult.ok l ≡ ok cs → l ≡ cs
read_clusters l cs h = cc

never_same : (a b : Option Applied) → false ≡ true → a ≡ b
never_same a b h = absurd (cc h)

statuses_laws : ClusterLaws statuses
unfolding cluster_key
statuses_laws = record {
  policy_of = λ s k. s k;
  clusters = λ s n. bound (s (cluster_key (bound none))) ∷ [];
  list_result = λ n s cs h. sym (read_clusters _ cs h);
  listed_policy = λ n s cs h. subst (AllRead (λ s' k. s' k) s) (read_clusters _ cs h) (refl, tt);
  update_policy = λ c k s h. refl;
  same_sound = never_same;
}

clusters_reconciled : (reconcile_clusters statuses (text "host") policy (λ k. none)).0 ≡ ok []
unfolding reconcile_clusters apply_to attempt pure ◌>>=◌
clusters_reconciled = refl

reconcile_clusters-enforced_example :
    ((reconcile_clusters statuses (text "host") policy (λ k. none)).1 (cluster_key (bound none))
      ≡ some (applied_policy policy))
    × (enforced_priority_class cluster (
          read_by_kubelet (
            (reconcile_clusters statuses (text "host") policy (λ k. none)).1
              (cluster_key (bound none))))
        ≡ [])
unfolding statuses_laws
reconcile_clusters-enforced_example =
    reconcile_clusters-enforced statuses statuses_laws policy (text "host") (bound none) cluster
      (λ k. none) clusters_reconciled (inl refl)
