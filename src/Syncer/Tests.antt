-- ===== src/Syncer/Tests.antt =====
-- ConfigMaps on servers that keep what is written and never fail by themselves.
use mathlib.Core.Logic.{◌⊎◌}
use k3k.Prelude.{
  Text, text, text_eq, contains, Bool, true, false, Option, none, some, List, [], ◌∷◌, ◌≡◌, refl,
  if◌then◌else◌, insert,
}
use k3k.Api.{
  NamespacedName, Object, ApiError, ApiResult, ok, err, not_found, already_exists, same_name,
  key_of, Client, ClientLaws,
}
use k3k.Api.Memory.{list_util, list_util_laws}
use k3k.Names.{safe_concat_name}
use k3k.Translate.{ToHostTranslator, translate_name}
use k3k.Syncer.{World, reconcile_synced}
use k3k.Syncer.Kinds.{translate_config_map, as_made}
use k3k.Syncer.Copies.{IsWritten}
use k3k.Syncer.Runs.{Reads, run, run_copies, run_finalizer, run_removes, run_never_orphans}

abbrev Store : Type 0
Store = NamespacedName → Option (Object (Unit {0}))

abbrev found : Option (Object (Unit {0})) → ApiResult (Object (Unit {0}))
found none = err not_found
found (some o) = ok o

abbrev put : Object (Unit {0}) → Store → Store
put o s m = if same_name (key_of o) m then some o else s m

abbrev take_out : Object (Unit {0}) → Store → Store
take_out o s m = if same_name (key_of o) m then none else s m

abbrev created : Option (Object (Unit {0})) → Object (Unit {0}) → Store → Option ApiError × Store
created none o s = (none, put o s)
created (some old) o s = (some already_exists, s)

abbrev missing_or : Option (Object (Unit {0})) → Option ApiError
missing_or none = some not_found
missing_or (some old) = none

abbrev store_client : Client (Unit {0})
store_client = record {
  State = Store;
  get = λ n s. (found (s n), s);
  create = λ o s. created (s (key_of o)) o s;
  update = λ o s. (none, put o s);
  delete = λ o s. (missing_or (s (key_of o)), take_out o s);
  content = λ s n. s n;
  stored = λ o. some o;
}

created_content :
    (x : Option (Object (Unit {0}))) (o : Object (Unit {0})) (m : NamespacedName) (s : Store)
    → (created x o s).0 ≡ none
    → (created x o s).1 m ≡ (if same_name (key_of o) m then some o else s m)
created_content none o m s h = refl
created_content (some old) o m s h = cc

store_laws : ClientLaws store_client
store_laws = record {
  get-content = λ n m s. refl;
  create-content = λ o m s h. created_content (s (key_of o)) o m s h;
  update-content = λ o m s h. refl;
  delete-content = λ o m s h. refl;
}

abbrev settings : Bool → List Text → Object (Unit {0})
settings deleting fs = record {
  meta = record {
    name = text "cm";
    namespace = text "ns";
    labels = [];
    annotations = [];
    owner_references = [];
    finalizers = fs;
    resource_version = [];
    uid = [];
    is_deleting = deleting;
  };
  payload = tt;
}

abbrev translator : ToHostTranslator
translator = record { cluster_name = text "c"; cluster_namespace = text "k3k-c" }

abbrev finalizer : Text
finalizer = text "configmap.k3k.io/finalizer"

abbrev host_copy : Object (Unit {0}) → Object (Unit {0})
host_copy o = translate_config_map (λ s. []) translator o

abbrev copy_of : Unit {0} → Object (Unit {0}) → ApiResult (Object (Unit {0}))
copy_of c o = ok (host_copy o)

abbrev read_cluster : Store → ApiResult (Unit {0}) × Store
read_cluster s = (ok tt, s)

abbrev req : NamespacedName
req = record { namespace = text "ns"; name = text "cm" }

abbrev empty_store : Store
empty_store m = none

abbrev live_world : World store_client store_client list_util
live_world = record { on_host = empty_store; on_virt = put (settings false []) empty_store }

abbrev dying_world : World store_client store_client list_util
dying_world = record {
  on_host = put (host_copy (settings false [])) empty_store;
  on_virt = put (settings true (finalizer ∷ [])) empty_store;
}

live-Reads :
    Reads store_client store_client list_util read_cluster copy_of as_made finalizer req live_world
      (settings false [])
      (host_copy (settings false []))
unfolding same_name text key_of
live-Reads = record { cluster = tt; cluster_read = refl; object_read = refl; copy_made = refl }

dying-Reads :
    Reads store_client store_client list_util read_cluster copy_of as_made finalizer req dying_world
      (settings true (finalizer ∷ []))
      (host_copy (settings true (finalizer ∷ [])))
unfolding same_name text key_of
dying-Reads = record { cluster = tt; cluster_read = refl; object_read = refl; copy_made = refl }

abbrev go :
    World store_client store_client list_util
    → Option ApiError × World store_client store_client list_util
go w = run store_client store_client list_util read_cluster copy_of as_made finalizer req w

live_succeeds : (go live_world).0 ≡ none
unfolding reconcile_synced same_name contains text translate_config_map text_eq safe_concat_name
    insert translate_name
live_succeeds = refl

dying_succeeds : (go dying_world).0 ≡ none
unfolding reconcile_synced same_name contains text translate_config_map text_eq safe_concat_name
    insert translate_name
dying_succeeds = refl

abbrev elsewhere : NamespacedName
elsewhere = record { namespace = text "host"; name = text "other" }

differs : same_name (key_of (host_copy (settings false []))) elsewhere ≡ false
unfolding same_name text text_eq translate_config_map safe_concat_name insert translate_name key_of
differs = refl

run_copies_example :
    IsWritten store_client store_client list_util store_laws store_laws list_util_laws as_made
      (host_copy (settings false []))
      ((go live_world).1.on_host (key_of (host_copy (settings false []))))
    × ((go live_world).1.on_host elsewhere ≡ none)
run_copies_example =
    run_copies store_client store_client list_util read_cluster copy_of as_made finalizer store_laws
      store_laws list_util_laws (λ s m. refl) (λ existing o. refl) req live_world
      (settings false []) (host_copy (settings false [])) live-Reads elsewhere refl live_succeeds
      differs

run_finalizer_example :
    ((contains [] finalizer ≡ true)
      × ((go live_world).1.on_virt ≡ put (settings false []) empty_store))
    ⊎ ((go live_world).1.on_virt (key_of (settings false []))
        ≡ some (settings false (list_util.add finalizer []).0))
run_finalizer_example =
    run_finalizer store_client store_client list_util read_cluster copy_of as_made finalizer
      store_laws store_laws list_util_laws (λ s m. refl) (λ existing o. refl) req live_world
      (settings false []) (host_copy (settings false [])) live-Reads refl live_succeeds

run_removes_example : (go dying_world).1.on_host (key_of (host_copy (settings false []))) ≡ (
    if same_name
      (key_of (host_copy (settings true (finalizer ∷ []))))
      (key_of (host_copy (settings false [])))
    then none
    else put (host_copy (settings false [])) empty_store (key_of (host_copy (settings false []))))
run_removes_example =
    run_removes store_client store_client list_util read_cluster copy_of as_made finalizer
      store_laws store_laws list_util_laws (λ s m. refl) (λ existing o. refl) req dying_world
      (settings true (finalizer ∷ [])) (host_copy (settings true (finalizer ∷ []))) dying-Reads
      (key_of (host_copy (settings false []))) refl dying_succeeds

run_never_orphans_example :
    ((go dying_world).1.on_virt ≡ put (settings true (finalizer ∷ [])) empty_store)
    ⊎ ((go dying_world).1.on_host (key_of (host_copy (settings true (finalizer ∷ [])))) ≡ none)
run_never_orphans_example =
    run_never_orphans store_client store_client list_util read_cluster copy_of as_made finalizer
      store_laws store_laws list_util_laws (λ s m. refl) (λ existing o. refl) req dying_world
      (settings true (finalizer ∷ [])) (host_copy (settings true (finalizer ∷ []))) dying-Reads refl
