-- ===== src/Reconciler/StorageClasses/Stored.antt =====
-- The storage classes of a virtual cluster as its API server holds them, and those of a sync.
use k3k.Prelude.{
  text, not, ◌&&◌, ◌||◌, false, true, lookup-insert, has_key, Text, text_eq, text_eq_iff,
  text_eq_refl, Dict, lookup, insert, lookup-insert_self, Bool, true, false, ◌||◌, Option, none,
  some, List, [], ◌∷◌, ◌≡◌, ◌⊎◌, refl, ap, ◌∙◌, arith, if◌then◌else◌,
}
use k3k.Api.{ok, err, not_found}
use k3k.Syncer.{Selectors}
use k3k.Reconciler.{StorageClass}
use k3k.Reconciler.StorageClasses.{
  sync_enabled_label_key, is_true_label, is_synced, filtered, StorageApi, sync_source_label_key,
  sync_source_host_label, filtered, is_synced, set_class,
}

unfoldable pub is_value : Text → Option Text → Bool
is_value value none = false
is_value value (some v) = text_eq v value

-- There is a class, and it has the label.
unfoldable pub is_labelled : Option StorageClass → Bool
unfolding is_value
is_labelled none = false
is_labelled (some sc) =
    is_value sync_source_host_label (lookup sync_source_label_key sc.meta.labels)

unfoldable pub is_listed : Text → List StorageClass → Bool
is_listed n [] = false
is_listed n (sc ∷ scs) = text_eq sc.meta.name n || is_listed n scs

unfoldable pub or_else : StorageClass → Option StorageClass → StorageClass
or_else sc none = sc
or_else sc (some old) = old

-- The classes of the virtual cluster by name, and those of the host.
pub record StorageLaws (api : StorageApi) : Type 0 where
  pub host : api.State → List StorageClass
  pub classes : api.State → Text → Option StorageClass
  pub list_host_result :
      (s : api.State) (scs : List StorageClass) → (api.list_host s).0 ≡ ok scs → scs ≡ host s
  pub list_result :
      (s : api.State) (scs : List StorageClass)
      → (api.list_virtual sync_source_label_key sync_source_host_label s).0 ≡ ok scs
      → (n : Text)
      → is_listed n scs
        ≡ is_labelled
            (classes (api.list_virtual sync_source_label_key sync_source_host_label s).1 n)
  pub delete_result :
      (sc : StorageClass) (s : api.State)
      → (api.delete_virtual sc s).0 ≡ ok tt
      → (n : Text)
      → classes (api.delete_virtual sc s).1 n
        ≡ (if text_eq sc.meta.name n then none else classes s n)
  pub write_result :
      (sc : StorageClass) (f : StorageClass → StorageClass) (s : api.State)
      → (api.create_or_update sc f s).0 ≡ ok tt
      → (n : Text)
      → classes (api.create_or_update sc f s).1 n
        ≡ (if text_eq sc.meta.name n then some (f (or_else sc (classes s n))) else classes s n)
  pub delete_all_gone :
      (s : api.State)
      → ((api.delete_all_of sync_source_label_key sync_source_host_label s).0 ≡ ok tt)
        ⊎ ((api.delete_all_of sync_source_label_key sync_source_host_label s).0 ≡ err not_found)
      → (n : Text)
      → is_labelled (classes (api.delete_all_of sync_source_label_key sync_source_host_label s).1 n)
        ≡ false

-- Every key is the name of its class.
unfoldable pub IsNamed : Dict StorageClass → Type 0
IsNamed [] = Unit {0}
IsNamed ((k, sc) ∷ m) = (k ≡ sc.meta.name) × IsNamed m

insert-IsNamed :
    (sc : StorageClass) (m : Dict StorageClass) → IsNamed m → IsNamed (insert sc.meta.name sc m)
unfolding IsNamed insert
insert-IsNamed sc [] h = (refl, tt)
insert-IsNamed sc ((j, w) ∷ m) h = ground (arith, text_eq_iff j sc.meta.name, insert-IsNamed sc m)

pub filtered-IsNamed :
    (selectors : Selectors) (selector : Dict Text) (m : Dict StorageClass) (scs : List StorageClass)
    → IsNamed m
    → IsNamed (filtered selectors selector m scs)
unfolding filtered
filtered-IsNamed selectors selector m [] h = h
filtered-IsNamed selectors selector m (sc ∷ scs) h =
    filtered-IsNamed selectors selector
      (if is_synced selectors selector sc then insert sc.meta.name sc m else m) scs
      (kept (is_synced selectors selector sc))
  where
    kept : (b : Bool) → IsNamed (if b then insert sc.meta.name sc m else m)
    kept true = insert-IsNamed sc m h
    kept false = h

pub set_class_labelled : (sc old : StorageClass) → is_labelled (some (set_class sc old)) ≡ true
unfolding is_labelled is_value set_class
set_class_labelled sc old =
    ap (is_value sync_source_host_label)
      (lookup-insert_self sync_source_label_key sync_source_host_label sc.meta.labels)
    ∙ text_eq_refl sync_source_host_label

-- The label keeps the class out of the sync.
unfoldable pub opts_out : Option Text → Bool
opts_out none = false
opts_out (some value) = not (text_eq value (text "true"))

module _ (selectors : Selectors) (selector : Dict Text) where
  unfoldable pub passes : StorageClass → Bool
  unfolding opts_out lookup
  passes sc =
      not (opts_out (lookup sync_enabled_label_key sc.meta.labels))
      && selectors.matches selector sc.meta.labels

  -- A class of the name passes the filter.
  unfoldable pub any_passes : Text → List StorageClass → Bool
  unfolding passes
  any_passes n [] = false
  any_passes n (sc ∷ scs) = (text_eq sc.meta.name n && passes sc) || any_passes n scs

  passes-is_synced : (sc : StorageClass) → is_synced selectors selector sc ≡ passes sc
  unfolding is_synced passes is_true_label opts_out
  passes-is_synced sc = go (lookup sync_enabled_label_key sc.meta.labels)
    where
      go :
          (o : Option Text)
          → (is_true_label o && selectors.matches selector sc.meta.labels)
            ≡ (not (opts_out o) && selectors.matches selector sc.meta.labels)
      go none = refl
      go (some value) = ground arith

  has_key-insert_if :
      (n : Text) (b : Bool) (sc : StorageClass) (m : Dict StorageClass)
      → has_key n (if b then insert sc.meta.name sc m else m)
        ≡ ((text_eq sc.meta.name n && b) || has_key n m)
  unfolding has_key
  has_key-insert_if n true sc m = ground (arith, lookup-insert sc.meta.name n sc m)
  has_key-insert_if n false sc m = ground arith

  pub has_key-filtered :
      (n : Text) (m : Dict StorageClass) (scs : List StorageClass)
      → has_key n (filtered selectors selector m scs) ≡ (has_key n m || any_passes n scs)
  unfolding filtered any_passes
  has_key-filtered n m [] = ground arith
  has_key-filtered n m (sc ∷ scs) =
      has_key-filtered n (if is_synced selectors selector sc then insert sc.meta.name sc m else m)
        scs
      ∙ ground
          (arith, has_key-insert_if n (is_synced selectors selector sc) sc m, passes-is_synced sc)
