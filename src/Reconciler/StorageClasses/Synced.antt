-- ===== src/Reconciler/StorageClasses/Synced.antt =====
-- The storage classes that a sync leaves in a virtual cluster.
use k3k.Prelude.{
  Text, text_eq, text_eq_iff, Dict, lookup, has_key, Bool, true, false, not, ◌&&◌, ◌||◌, Option,
  none, some, List, [], ◌∷◌, ◌++◌, ◌≡◌, refl, ap, sym, ◌∙◌, arith, if◌then◌else◌,
}
use k3k.Api.{ApiError, ok}
use k3k.Action.{collect-ok, Action, Done, pure, raise, attempt, error_of, bind-ok, ◌>>=◌}
use k3k.Syncer.{Selectors}
use k3k.Reconciler.{ClusterObject, StorageClass, StorageClassSync}
use k3k.Reconciler.Roles.{end_joined}
use k3k.Reconciler.Objects.{ignoring-ok}
use k3k.Reconciler.StorageClasses.{
  StorageApi, sync_source_label_key, sync_source_host_label, applied_sync, filtered, virtual_class,
  set_class, delete_others, write_each, sync_classes, disabled, apply_sync, ensure_storage_classes,
}
use k3k.Reconciler.StorageClasses.Stored.{
  any_passes, has_key-filtered, is_labelled, is_listed, or_else, StorageLaws, IsNamed,
  filtered-IsNamed, set_class_labelled,
}

module _ (selectors : Selectors) (api : StorageApi) (laws : StorageLaws api) where
  -- The cluster has a class of the name, with the label of the sync.
  unfoldable pub managed : Text → api.State → Bool
  managed n s = is_labelled (laws.classes s n)

  managed-delete :
      (sc : StorageClass) (s : api.State) (n : Text)
      → (api.delete_virtual sc s).0 ≡ ok tt
      → managed n (api.delete_virtual sc s).1 ≡ (not (text_eq sc.meta.name n) && managed n s)
  unfolding managed is_labelled
  managed-delete sc s n h =
      ap is_labelled (laws.delete_result sc s h n) ∙ chosen (text_eq sc.meta.name n)
    where
      chosen :
          (b : Bool)
          → is_labelled (if b then none else laws.classes s n)
            ≡ (not b && is_labelled (laws.classes s n))
      chosen true = refl
      chosen false = refl

  managed-write :
      (sc : StorageClass) (s : api.State) (n : Text)
      → (api.create_or_update (virtual_class sc) (set_class sc) s).0 ≡ ok tt
      → managed n (api.create_or_update (virtual_class sc) (set_class sc) s).1
        ≡ (text_eq sc.meta.name n || managed n s)
  unfolding managed virtual_class
  managed-write sc s n h =
      ap is_labelled (laws.write_result (virtual_class sc) (set_class sc) s h n)
      ∙ chosen (text_eq sc.meta.name n)
    where
      chosen :
          (b : Bool)
          → is_labelled (
              if b
              then some (set_class sc (or_else (virtual_class sc) (laws.classes s n)))
              else laws.classes s n)
            ≡ (b || is_labelled (laws.classes s n))
      chosen true = set_class_labelled sc _
      chosen false = refl

  managed-delete_others :
      (wanted : Dict StorageClass) (scs : List StorageClass) (s : api.State) (n : Text)
      → (delete_others selectors api wanted scs s).0 ≡ ok []
      → managed n (delete_others selectors api wanted scs s).1
        ≡ (managed n s && (has_key n wanted || not (is_listed n scs)))
  unfolding delete_others is_listed pure
  managed-delete_others wanted [] s n h = ground arith
  managed-delete_others wanted (sc ∷ scs) s n h =
      go (λ s'. managed-delete_others wanted scs s' n) (has_key sc.meta.name wanted) refl h
    where
      step : Bool → Action api.State (List ApiError)
      step b =
          if not b
          then (attempt (api.delete_virtual sc) >>= λ r.
              delete_others selectors api wanted scs >>= λ es. pure (error_of r ++ es))
          else delete_others selectors api wanted scs

      go :
          ((s' : api.State)
            → (delete_others selectors api wanted scs s').0 ≡ ok []
            → managed n (delete_others selectors api wanted scs s').1
              ≡ (managed n s' && (has_key n wanted || not (is_listed n scs))))
          → (b : Bool) → has_key sc.meta.name wanted ≡ b
          → (step b s).0 ≡ ok []
          → managed n (step b s).1
            ≡ (managed n s && (has_key n wanted || not (text_eq sc.meta.name n || is_listed n scs)))
      go deleted true e h' = deleted s h' ∙ ground (arith, e, text_eq_iff sc.meta.name n)
      go deleted false e h' =
          let parts =
            collect-ok (api.delete_virtual sc) (delete_others selectors api wanted scs) s h' in
          ap (managed n) parts.2
          ∙ deleted (api.delete_virtual sc s).1 parts.1
          ∙ ground (arith, e, managed-delete sc s n parts.0, text_eq_iff sc.meta.name n)

  managed-write_each :
      (wanted : Dict StorageClass) (s : api.State) (n : Text)
      → IsNamed wanted
      → (write_each selectors api wanted s).0 ≡ ok []
      → managed n (write_each selectors api wanted s).1 ≡ (has_key n wanted || managed n s)
  unfolding write_each has_key lookup IsNamed pure
  managed-write_each [] s n named h = refl
  managed-write_each ((k, sc) ∷ rest) s n named h =
      let parts =
        collect-ok (api.create_or_update (virtual_class sc) (set_class sc))
          (write_each selectors api rest) s h in
      let s' = (api.create_or_update (virtual_class sc) (set_class sc) s).1 in
      ap (managed n) parts.2
      ∙ managed-write_each rest s' n named.1 parts.1
      ∙ ground (arith, managed-write sc s n parts.0, named.0)

  disabled-managed :
      (s : api.State) (n : Text)
      → (disabled selectors api s).0 ≡ ok tt
      → managed n (disabled selectors api s).1 ≡ false
  unfolding disabled managed attempt ◌>>=◌
  disabled-managed s n h =
      let gone = ignoring-ok _ _ h in
      ap (λ x. is_labelled (laws.classes x n)) gone.1 ∙ laws.delete_all_gone s gone.0 n

  joined_ok :
      (es es' : List ApiError) (s : api.State)
      → (end_joined (es ++ es') s).0 ≡ ok tt
      → (es ≡ []) × (es' ≡ []) × ((end_joined (es ++ es') s).1 ≡ s)
  unfolding end_joined pure raise
  joined_ok [] [] s h = (refl, refl, refl)
  joined_ok [] (e ∷ es') s h = ground arith
  joined_ok (e ∷ es) es' s h = ground arith

  -- The deletions and the writes of a sync.
  unfoldable rewrite_classes : Dict StorageClass → List StorageClass → Action api.State Done
  rewrite_classes wanted virtual = delete_others selectors api wanted virtual >>= λ deleted.
      write_each selectors api wanted >>= λ written. end_joined (deleted ++ written)

  rewrite_classes-managed :
      (wanted : Dict StorageClass) (virtual : List StorageClass) (s : api.State) (n : Text)
      → IsNamed wanted
      → is_listed n virtual ≡ managed n s
      → (rewrite_classes wanted virtual s).0 ≡ ok tt
      → managed n (rewrite_classes wanted virtual s).1 ≡ has_key n wanted
  unfolding rewrite_classes
  rewrite_classes-managed wanted virtual s n named listed h =
      let deleted = bind-ok (delete_others selectors api wanted virtual) _ s tt h in
      let s1 = (delete_others selectors api wanted virtual s).1 in
      let written =
        bind-ok (write_each selectors api wanted) (λ es. end_joined (deleted.0 ++ es)) s1 tt
          (ap (λ x. x.0) (sym deleted.2) ∙ h) in
      let s2 = (write_each selectors api wanted s1).1 in
      let both = deleted.2 ∙ written.2 in
      let joined = joined_ok deleted.0 written.0 s2 (ap (λ x. x.0) (sym both) ∙ h) in
      ap (λ x. managed n x.1) both
      ∙ ap (managed n) joined.2
      ∙ managed-write_each wanted s1 n named (written.1 ∙ ap ok joined.1)
      ∙ ground
          (arith, managed-delete_others wanted virtual s n (deleted.1 ∙ ap ok joined.0), listed)

  sync_classes-managed :
      (selector : Dict Text) (s : api.State) (n : Text)
      → (sync_classes selectors api selector s).0 ≡ ok tt
      → managed n (sync_classes selectors api selector s).1
        ≡ has_key n (filtered selectors selector [] (laws.host s))
  unfolding sync_classes rewrite_classes IsNamed managed
  sync_classes-managed selector s n h =
      let listed = bind-ok api.list_host _ s tt h in
      let s1 = (api.list_host s).1 in
      let wanted = filtered selectors selector [] listed.0 in
      let virtual =
        bind-ok (api.list_virtual sync_source_label_key sync_source_host_label)
          (λ scs. rewrite_classes wanted scs) s1 tt (ap (λ x. x.0) (sym listed.2) ∙ h) in
      let s2 = (api.list_virtual sync_source_label_key sync_source_host_label s1).1 in
      let both = listed.2 ∙ virtual.2 in
      ap (λ x. managed n x.1) both
      ∙ rewrite_classes-managed wanted virtual.0 s2 n
          (filtered-IsNamed selectors selector [] listed.0 tt)
          (laws.list_result s1 virtual.0 virtual.1 n) (ap (λ x. x.0) (sym both) ∙ h)
      ∙ ap (λ l. has_key n (filtered selectors selector [] l))
          (laws.list_host_result s listed.0 listed.1)

  -- The sync is on, and a class of the host with the name passes its filter.
  unfoldable pub is_wanted : Text → ClusterObject → List StorageClass → Bool
  unfolding applied_sync any_passes
  is_wanted n c host = elim (applied_sync c) [
    | none ↦ false
    | some sync ↦ sync.enabled && any_passes selectors sync.selector n host
  ]

  -- Where `ensureStorageClasses` succeeds, a class of a name with the label of the sync is in the virtual
  -- cluster exactly where the sync that applies to the Cluster is on and a class of the host with that
  -- name passes its filter: its label does not keep it out of the sync, and the selector matches.
  pub managed-ensure_storage_classes :
      (c : ClusterObject) (s : api.State) (n : Text)
      → (ensure_storage_classes selectors api c s).0 ≡ ok tt
      → managed n (ensure_storage_classes selectors api c s).1
        ≡ is_wanted n c (laws.host (api.new_virtual_client c s).1)
  unfolding ensure_storage_classes is_wanted apply_sync has_key lookup
  managed-ensure_storage_classes c s n h =
      let connected = bind-ok (api.new_virtual_client c) _ s tt h in
      ap (λ x. managed n x.1) connected.2
      ∙ applied (applied_sync c) (ap (λ x. x.0) (sym connected.2) ∙ h)
    where
      wanted_by : Option StorageClassSync → Bool
      wanted_by found = elim found [
        | none ↦ false
        | some sync ↦
            sync.enabled
            && any_passes selectors sync.selector n (laws.host (api.new_virtual_client c s).1)
      ]

      on_or_off :
          (b : Bool) (selector : Dict Text) (s' : api.State)
          → ((if not b then disabled selectors api else sync_classes selectors api selector) s').0
            ≡ ok tt
          → managed n
              ((if not b then disabled selectors api else sync_classes selectors api selector) s').1
            ≡ (b && any_passes selectors selector n (laws.host s'))
      on_or_off true selector s' h' =
          sync_classes-managed selector s' n h'
          ∙ has_key-filtered selectors selector n [] (laws.host s')
      on_or_off false selector s' h' = disabled-managed s' n h'

      applied :
          (found : Option StorageClassSync)
          → (apply_sync selectors api found (api.new_virtual_client c s).1).0 ≡ ok tt
          → managed n (apply_sync selectors api found (api.new_virtual_client c s).1).1
            ≡ wanted_by found
      applied none h' = disabled-managed (api.new_virtual_client c s).1 n h'
      applied (some sync) h' =
          on_or_off sync.enabled sync.selector (api.new_virtual_client c s).1 h'
