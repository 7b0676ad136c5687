-- ===== src/Reconciler/StorageClasses/Tests.antt =====
-- A virtual cluster with a class that the host does not have any more.
use k3k.Prelude.{
  Text, text, text_eq, Dict, lookup, insert, delete, has_key, lookup-insert, lookup-delete,
  text_eq_iff, arith, ap, ◌∙◌, ◌&&◌, true, false, Option, none, some, List, [], ◌∷◌, ◌≡◌, refl,
  if◌then◌else◌,
}
use k3k.Api.{ApiResult, ok}
use k3k.Action.{attempt, ◌>>=◌}
use k3k.Syncer.{Selectors}
use k3k.Pods.Tokens.{no_meta}
use k3k.Expose.{shared}
use k3k.Reconciler.{ClusterObject, StorageClass}
use k3k.Reconciler.StorageClasses.{
  StorageApi, ensure_storage_classes, sync_source_label_key, sync_source_host_label,
}
use k3k.Reconciler.StorageClasses.Stored.{StorageLaws, is_labelled, is_listed, or_else}
use k3k.Reconciler.StorageClasses.Synced.{managed, is_wanted, managed-ensure_storage_classes}

abbrev class_of : Text → Dict Text → StorageClass
class_of name labels = record {
  meta = record no_meta { name = name; labels = labels };
  parameters = [];
}

abbrev stale : StorageClass
stale = class_of (text "old") ((sync_source_label_key, sync_source_host_label) ∷ [])

abbrev virtual : Dict StorageClass
virtual = (text "old", stale) ∷ []

abbrev fast : StorageClass
fast = class_of (text "fast") []

written :
    (sc : StorageClass) (f : StorageClass → StorageClass) (s : Dict StorageClass) (n : Text)
    → lookup n (insert sc.meta.name (f (or_else sc (lookup sc.meta.name s))) s)
      ≡ (if text_eq sc.meta.name n then some (f (or_else sc (lookup n s))) else lookup n s)
written sc f s n = ground (
  arith,
  text_eq_iff sc.meta.name n,
  lookup-insert sc.meta.name n (f (or_else sc (lookup sc.meta.name s))) s,
)

-- The classes that are stored with the label, named by their keys.
listed : Dict StorageClass → Dict StorageClass → List StorageClass
unfolding is_labelled lookup
listed full [] = []
listed full ((k, sc) ∷ m) =
    let rest = listed full m in
    if is_labelled (lookup k full)
    then record sc { meta = record sc.meta { name = k } } ∷ rest
    else rest

unlabelled : Dict StorageClass → Dict StorageClass
unfolding is_labelled
unlabelled [] = []
unlabelled ((k, sc) ∷ m) =
    let rest = unlabelled m in if is_labelled (some sc) then rest else (k, sc) ∷ rest

abbrev api : StorageApi
api = record {
  State = Dict StorageClass;
  new_virtual_client = λ c s. (ok tt, s);
  delete_all_of = λ k v s. (ok tt, unlabelled s);
  list_host = λ s. (ok (fast ∷ []), s);
  list_virtual = λ k v s. (ok (listed s s), s);
  delete_virtual = λ sc s. (ok tt, delete sc.meta.name s);
  create_or_update =
      λ sc f s. (ok tt, insert sc.meta.name (f (or_else sc (lookup sc.meta.name s))) s);
}

is_listed-listed :
    (n : Text) (full m : Dict StorageClass)
    → is_listed n (listed full m) ≡ (has_key n m && is_labelled (lookup n full))
unfolding is_listed listed has_key lookup
is_listed-listed n full [] = refl
is_listed-listed n full ((k, sc) ∷ m) = ground (arith, text_eq_iff k n, is_listed-listed n full m)

is_listed-all :
    (n : Text) (m : Dict StorageClass) → is_listed n (listed m m) ≡ is_labelled (lookup n m)
unfolding has_key is_labelled
is_listed-all n m = is_listed-listed n m m ∙ there (lookup n m)
  where
    there :
        (x : Option StorageClass)
        → ((elim x [ none ↦ false | some _ ↦ true ]) && is_labelled x) ≡ is_labelled x
    there none = refl
    there (some sc) = refl

lookup-unlabelled :
    (n : Text) (m : Dict StorageClass) → is_labelled (lookup n (unlabelled m)) ≡ false
unfolding unlabelled lookup is_labelled
lookup-unlabelled n [] = refl
lookup-unlabelled n ((k, sc) ∷ m) = ground (arith, lookup-unlabelled n m)

read_ok : {A : Type 0} (l m : A) → ApiResult.ok l ≡ ok m → m ≡ l
read_ok l m h = cc

abbrev laws : StorageLaws api
laws = record {
  host = λ s. fast ∷ [];
  classes = λ s n. lookup n s;
  list_host_result = λ s scs h. read_ok (fast ∷ []) scs h;
  list_result = λ s scs h n. ap (is_listed n) (read_ok (listed s s) scs h) ∙ is_listed-all n s;
  delete_result = λ sc s h n. lookup-delete sc.meta.name n s;
  write_result = λ sc f s h n. written sc f s n;
  delete_all_gone = λ s h n. lookup-unlabelled n s;
}

abbrev cluster : ClusterObject
cluster = record {
  meta = record no_meta { name = text "c"; namespace = text "ns" };
  spec = record {
    mode = shared;
    cluster_cidr = [];
    service_cidr = [];
    cluster_dns = [];
    mirror_host_nodes = false;
    custom_cas = none;
    expose = none;
    tls_sans = [];
    storage_classes = some (record { enabled = true; selector = [] });
  };
  status = record {
    phase = none;
    conditions = [];
    policy_name = [];
    host_version = [];
    cluster_cidr = [];
    service_cidr = [];
    tls_sans = [];
    kubelet_port = 0;
    policy_storage_classes = none;
  };
}

abbrev everything : Selectors
everything = record { is_everything = λ s. true; matches = λ s l. true }

sync_succeeds : (ensure_storage_classes everything api cluster virtual).0 ≡ ok tt
unfolding ensure_storage_classes ◌>>=◌ listed attempt
sync_succeeds = refl

managed-ensure_storage_classes_example :
    managed everything api laws
      (text "old")
      (ensure_storage_classes everything api cluster virtual).1
    ≡ is_wanted everything api laws (text "old") cluster (fast ∷ [])
managed-ensure_storage_classes_example =
    managed-ensure_storage_classes everything api laws cluster virtual (text "old") sync_succeeds

-- The stale class is deleted.
old_is_gone : is_wanted everything api laws (text "old") cluster (fast ∷ []) ≡ false
unfolding is_wanted text_eq text
old_is_gone = refl
