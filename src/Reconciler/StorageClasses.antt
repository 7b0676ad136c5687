-- ===== src/Reconciler/StorageClasses.antt =====
-- The storage classes of the host in a virtual cluster (`ensureStorageClasses` of
-- pkg/controller/cluster/cluster.go).
pub mod Stored
pub mod Synced
mod Tests
use k3k.Prelude.{
  Text, text, text_eq, Dict, lookup, insert, has_key, Bool, true, false, not, ◌&&◌, Option, none,
  some, List, [], ◌∷◌, ◌++◌, if◌then◌else◌,
}
use k3k.Api.{ApiError}
use k3k.Action.{Action, Done, pure, attempt, error_of, ◌>>=◌, ◌>>◌}
use k3k.Syncer.{Selectors}
use k3k.Reconciler.{ClusterObject, StorageClass, StorageClassSync}
use k3k.Reconciler.Roles.{end_joined}
use k3k.Reconciler.Objects.{ignoring}

abbrev pub sync_enabled_label_key : Text
sync_enabled_label_key = text "k3k.io/sync-enabled"

abbrev pub sync_source_label_key : Text
sync_source_label_key = text "k3k.io/sync-source"

abbrev pub sync_source_host_label : Text
sync_source_host_label = text "host"

-- The clients of both clusters. The ones of the virtual cluster that take a label and its value concern
-- the classes with that label.
pub record StorageApi : Type 1 where
  pub State : Type 0
  pub new_virtual_client : ClusterObject → Action State Done
  pub delete_all_of : Text → Text → Action State Done
  pub list_host : Action State (List StorageClass)
  pub list_virtual : Text → Text → Action State (List StorageClass)
  pub delete_virtual : StorageClass → Action State Done
  pub create_or_update : StorageClass → (StorageClass → StorageClass) → Action State Done

-- The policy's configuration, if there is one, goes before the Cluster's.
unfoldable pub applied_sync : ClusterObject → Option StorageClassSync
applied_sync c = elim c.status.policy_storage_classes [
  | none ↦ c.spec.storage_classes
  | some sync ↦ some sync
]

unfoldable pub is_true_label : Option Text → Bool
unfolding text_eq text
is_true_label none = true
is_true_label (some value) = text_eq value (text "true")

-- A class is synced unless its label says otherwise or the selector does not match.
unfoldable pub is_synced : Selectors → Dict Text → StorageClass → Bool
unfolding is_true_label lookup
is_synced selectors selector sc =
    is_true_label (lookup sync_enabled_label_key sc.meta.labels)
    && selectors.matches selector sc.meta.labels

unfoldable pub filtered :
    Selectors → Dict Text → Dict StorageClass → List StorageClass → Dict StorageClass
unfolding is_synced insert
filtered selectors selector m [] = m
filtered selectors selector m (sc ∷ scs) =
    filtered selectors selector
      (if is_synced selectors selector sc then insert sc.meta.name sc m else m) scs

-- The class as it is created, and what is set on the one that is there.
unfoldable pub virtual_class : StorageClass → StorageClass
virtual_class sc = record sc {
  meta = record {
    name = sc.meta.name;
    namespace = [];
    labels = sc.meta.labels;
    annotations = sc.meta.annotations;
    owner_references = [];
    finalizers = [];
    resource_version = [];
    uid = [];
    is_deleting = false;
  };
}

unfoldable pub set_class : StorageClass → StorageClass → StorageClass
unfolding insert
set_class sc current = record current {
  parameters = sc.parameters;
  meta = record current.meta {
    annotations = sc.meta.annotations;
    labels = insert sync_source_label_key sync_source_host_label sc.meta.labels;
  };
}

module _ (selectors : Selectors) (api : StorageApi) where
  open api use {State}

  -- The classes that are no longer synced. An error does not stop the loop.
  unfoldable pub delete_others :
      Dict StorageClass → List StorageClass → Action State (List ApiError)
  unfolding has_key
  delete_others wanted [] = pure []
  delete_others wanted (sc ∷ scs) =
      if not (has_key sc.meta.name wanted)
      then (attempt (api.delete_virtual sc) >>= λ r.
          delete_others wanted scs >>= λ es. pure (error_of r ++ es))
      else delete_others wanted scs

  unfoldable pub write_each : Dict StorageClass → Action State (List ApiError)
  unfolding virtual_class set_class
  write_each [] = pure []
  write_each ((name, sc) ∷ rest) =
      attempt (api.create_or_update (virtual_class sc) (set_class sc)) >>= λ r.
      write_each rest >>= λ es. pure (error_of r ++ es)

  unfoldable pub sync_classes : Dict Text → Action State Done
  unfolding filtered delete_others write_each end_joined
  sync_classes selector = do
    host ← api.list_host
    let wanted = filtered selectors selector [] host
    virtual ← api.list_virtual sync_source_label_key sync_source_host_label
    deleted ← delete_others wanted virtual
    written ← write_each wanted
    end_joined (deleted ++ written)

  unfoldable pub disabled : Action State Done
  unfolding ignoring
  disabled = attempt (api.delete_all_of sync_source_label_key sync_source_host_label) >>= ignoring

  unfoldable pub apply_sync : Option StorageClassSync → Action State Done
  unfolding disabled sync_classes
  apply_sync none = disabled
  apply_sync (some sync) = if not sync.enabled then disabled else sync_classes sync.selector

  unfoldable pub ensure_storage_classes : ClusterObject → Action State Done
  unfolding applied_sync apply_sync
  ensure_storage_classes c = api.new_virtual_client c >> apply_sync (applied_sync c)
