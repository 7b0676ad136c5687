-- ===== src/StatefulSets/Tests.antt =====
-- One server pod that leaves etcd, and one whose member etcd has lost already.
use k3k.Prelude.{
  Text, text, text_eq, text_eq_refl, ◌==◌, ℕ, Bool, true, false, not, Option, some, List, [], ◌∷◌,
  ◌≡◌, refl, arith, if◌then◌else◌, keep, contains,
}
use k3k.Api.{NamespacedName, ok, err, not_found}
use k3k.Api.Memory.{list_util, list_util_laws}
use k3k.Action.{of_result, attempt, ◌>>=◌}
use k3k.Pods.Tokens.{no_meta}
use k3k.StatefulSets.{
  Owner, StatefulSet, ServerPod, Member, EtcdApi, etcd_pod_finalizer_name, cluster_namespaced_name,
  handle_server_pod,
}
use k3k.StatefulSets.Peers.{MemberLaws, has_id, pod_key}
use k3k.StatefulSets.Handled.{IsHandled, handle_server_pod-IsHandled}

record Etcd : Type 0 where
  list : List Member
  pods : List ServerPod
  sets : List StatefulSet

abbrev pod : Text → Bool → ServerPod
pod name deleting = record {
  meta = record no_meta {
    name = name;
    finalizers = etcd_pod_finalizer_name ∷ [];
    is_deleting = deleting;
  };
  ip = text "10.0.0.1";
}

abbrev member_of : ℕ → Text → Member
member_of id name = record { id = id; name = name; peer_urls = text "https://10.0.0.1:2380" ∷ [] }

abbrev etcd : Etcd
etcd = record {
  list = member_of 7 (text "server-0-abc") ∷ member_of 8 (text "server-1-abc") ∷ [];
  pods = pod (text "server-0") true ∷ pod (text "server-1") false ∷ [];
  sets = [];
}

abbrev api : EtcdApi
api = record {
  State = Etcd;
  get_stateful_set = λ k s. (err not_found, s);
  get_cluster_name = λ k s. (ok (text "c"), s);
  list_pods = λ sts s. (ok s.pods, s);
  uses_etcd = λ c s. (ok true, s);
  connect = λ c n s. (ok tt, s);
  list_members = λ s. (ok s.list, s);
  remove_member = λ id s. (
    (if has_id id s.list then ok tt else err not_found),
    record s { list = keep (λ m. not (m.id == id)) s.list },
  );
  update_pod = λ p s.
      (ok tt, record s { pods = p ∷ keep (λ q. not (text_eq q.meta.name p.meta.name)) s.pods });
  update_stateful_set = λ sts s. (ok tt, record s { sets = sts ∷ [] });
  hostname = λ u. ok (text "10.0.0.1");
  contains_text = λ t part. text_eq t (text "server-0-abc");
  finalizers = list_util;
}

has_id-keep : (id : ℕ) (ms : List Member) → has_id id (keep (λ m. not (m.id == id)) ms) ≡ false
unfolding has_id keep
has_id-keep id [] = refl
has_id-keep id (m ∷ ms) = ground (arith, has_id-keep id ms)

read_members : (l ms : List Member) → ok l ≡ ok ms → ms ≡ l
read_members l ms h = cc

find_pod : List ServerPod → NamespacedName → List Text
unfolding text_eq
find_pod [] k = []
find_pod (p ∷ ps) k =
    let rest = find_pod ps k in if text_eq p.meta.name k.name then p.meta.finalizers else rest

find_pod_first :
    (p : ServerPod) (ps : List ServerPod) → find_pod (p ∷ ps) (pod_key p) ≡ p.meta.finalizers
unfolding find_pod pod_key
find_pod_first p ps = rw (text_eq_refl p.meta.name) refl

abbrev laws : MemberLaws api
laws = record {
  members = λ s. s.list;
  stored_finalizers = λ s k. find_pod s.pods k;
  connect_members = λ c n s. refl;
  connect_pods = λ c n s k. refl;
  list_result = λ s ms h. read_members s.list ms h;
  list_pods_kept = λ s k. refl;
  remove_gone = λ id s h. has_id-keep id s.list;
  remove_pods_kept = λ id s k. refl;
  update_members = λ p s. refl;
  update_pod_result = λ p s h. find_pod_first p _;
}

-- The calls of etcd lose the member, and the pod keeps its finalizer until then.
handle_server_pod-IsHandled_example :
    IsHandled api laws
      (pod (text "server-0") true)
      etcd
      (handle_server_pod api (text "c") (pod (text "server-0") true) etcd)
unfolding text find_pod pod_key
handle_server_pod-IsHandled_example =
    handle_server_pod-IsHandled api laws list_util_laws (text "c") (pod (text "server-0") true) etcd
      refl refl refl

-- The member of the pod is removed and its finalizer with it.
handled :
    (handle_server_pod api (text "c") (pod (text "server-0") true) etcd).1.list
    ≡ member_of 8 (text "server-1-abc") ∷ []
unfolding handle_server_pod text ◌>>=◌ of_result attempt has_id contains keep
handled = refl

abbrev set : Option Owner → StatefulSet
set owner = record { meta = record no_meta { name = text "s" }; controller = owner }

-- Only a Cluster is taken for the owner.
owner_of_other :
    cluster_namespaced_name
      (set (some (record { kind = text "Node"; api_version = text "v1"; name = text "n" })))
    ≡ record { namespace = []; name = [] }
unfolding cluster_namespaced_name
owner_of_other = refl
