-- ===== src/Syncer.antt =====
-- The syncers that mirror virtual objects on the host cluster
-- (k3k-kubelet/controller/syncer: configmap.go, secret.go, service.go, priorityclass.go). Their
-- `Reconcile` methods share one shape, which `reconcile_synced` gives; what differs is passed to it.
pub mod Filters
pub mod Kinds
pub mod Copies
pub mod Runs
mod Tests
use k3k.Prelude.{
  Text, text, text_eq, is_empty, Dict, insert, Bool, true, false, not, ◌||◌, Option, none, some,
  List, [], ◌∷◌, if◌then◌else◌,
}
use k3k.Api.{
  ObjectMeta, NamespacedName, Object, ApiError, ApiResult, ok, err, not_found, already_exists,
  other, key_of, ignore_not_found, is_fatal, Client, FinalizerUtil,
}
use k3k.Translate.{ToHostTranslator, translate_to}

-- The selectors of k8s.io/apimachinery/pkg/labels, made from a set of labels.
pub record Selectors : Type 0 where
  pub is_everything : Dict Text → Bool
  pub matches : Dict Text → Dict Text → Bool

-- The sync configuration of one kind in a Cluster.
pub record SyncConfig : Type 0 where
  pub enabled : Bool
  pub selector : Dict Text

-- `filterResources`, given the outcome of reading the Cluster.
unfoldable pub filter_resources : Selectors → ApiResult SyncConfig → ObjectMeta → Bool
filter_resources selectors (err e) object = false
filter_resources selectors (ok config) object =
    if not config.enabled
    then object.is_deleting
    else if selectors.is_everything config.selector
    then true
    else selectors.matches config.selector object.labels

module _ {P : Type 0} (host virt : Client P) (util : FinalizerUtil) where
  -- Both clusters.
  pub record World : Type 0 where
    pub on_host : host.State
    pub on_virt : virt.State

  unfoldable pub update_virtual : Object P → World → Option ApiError × World
  update_virtual o w = let (e, s) = virt.update o w.on_virt in (e, record w { on_virt = s })

  abbrev pub with_finalizers : List Text → Object P → Object P
  with_finalizers fs o = let m = o.meta in record o { meta = record m { finalizers = fs } }

  -- Removing the finalizer from the virtual object, when its copy is gone.
  unfoldable pub release : Text → Object P → World → Option ApiError × World
  unfolding update_virtual
  release finalizer o w =
      let (fs, changed) = util.remove finalizer o.meta.finalizers in
      if changed then update_virtual (with_finalizers fs o) w else (none, w)

  -- The handling of a deleted virtual object.
  unfoldable pub handle_deletion : Text → Object P → Object P → World → Option ApiError × World
  unfolding release is_fatal
  handle_deletion finalizer o synced w =
      let (e, s) = host.delete synced w.on_host in
      let after = record w { on_host = s } in
      if is_fatal e then (e, after) else release finalizer o after

  -- Adding the finalizer to the virtual object.
  unfoldable pub ensure_finalizer : Text → Object P → World → Option ApiError × World
  unfolding update_virtual
  ensure_finalizer finalizer o w =
      let (fs, changed) = util.add finalizer o.meta.finalizers in
      if changed then update_virtual (with_finalizers fs o) w else (none, w)

  unfoldable pub create_on_host : Object P → World → Option ApiError × World
  create_on_host o w = let (e, s) = host.create o w.on_host in (e, record w { on_host = s })

  unfoldable pub update_on_host : Object P → World → Option ApiError × World
  update_on_host o w = let (e, s) = host.update o w.on_host in (e, record w { on_host = s })

  -- What follows the read of the host copy: create it, update it, or give up.
  unfoldable pub after_read :
      (Object P → Object P → Object P)
      → Object P
      → ApiResult (Object P)
      → World
      → Option ApiError × World
  unfolding create_on_host update_on_host
  after_read adopt synced (ok existing) w = update_on_host (adopt existing synced) w
  after_read adopt synced (err not_found) w = create_on_host synced w
  after_read adopt synced (err already_exists) w = (some already_exists, w)
  after_read adopt synced (err (other e)) w = (some (other e), w)

  -- Creating or updating the host copy.
  unfoldable pub write_copy :
      (Object P → Object P → Object P) → Object P → World → Option ApiError × World
  unfolding after_read key_of
  write_copy adopt synced w =
      let (r, s) = host.get (key_of synced) w.on_host in
      after_read adopt synced r (record w { on_host = s })

  -- An error of the finalizer's update ends the run.
  unfoldable pub after_finalizer :
      (Object P → Object P → Object P)
      → Object P
      → Option ApiError
      → World
      → Option ApiError × World
  unfolding write_copy
  after_finalizer adopt synced none w = write_copy adopt synced w
  after_finalizer adopt synced (some e) w = (some e, w)

  -- The handling of a live virtual object.
  unfoldable pub handle_live :
      (Object P → Object P → Object P)
      → Text
      → Object P
      → Object P
      → World
      → Option ApiError × World
  unfolding ensure_finalizer after_finalizer
  handle_live adopt finalizer o synced w =
      let (e, after) = ensure_finalizer finalizer o w in after_finalizer adopt synced e after

  -- `Reconcile` once the Cluster and the virtual object are read and the copy is made.
  unfoldable pub sync_object :
      (Object P → Object P → Object P)
      → Text
      → Object P
      → ApiResult (Object P)
      → World
      → Option ApiError × World
  unfolding handle_deletion handle_live
  sync_object adopt finalizer o (err e) w = (some e, w)
  sync_object adopt finalizer o (ok synced) w =
      if o.meta.is_deleting
      then handle_deletion finalizer o synced w
      else handle_live adopt finalizer o synced w

  module _ {C : Type 0} (get_cluster : host.State → ApiResult C × host.State) where
    -- `Reconcile` once the Cluster is read.
    unfoldable pub with_object :
        (C → Object P → ApiResult (Object P))
        → (Object P → Object P → Object P)
        → Text
        → C
        → ApiResult (Object P)
        → World
        → Option ApiError × World
    unfolding sync_object ignore_not_found
    with_object copy adopt finalizer cluster (err e) w = (ignore_not_found e, w)
    with_object copy adopt finalizer cluster (ok o) w =
        sync_object adopt finalizer o (copy cluster o) w

    unfoldable pub with_cluster :
        (C → Object P → ApiResult (Object P))
        → (Object P → Object P → Object P)
        → Text
        → NamespacedName
        → ApiResult C
        → World
        → Option ApiError × World
    unfolding with_object
    with_cluster copy adopt finalizer req (err e) w = (some e, w)
    with_cluster copy adopt finalizer req (ok cluster) w =
        let (r, s) = virt.get req w.on_virt in
        with_object copy adopt finalizer cluster r (record w { on_virt = s })

    -- The shape of the `Reconcile` methods.
    unfoldable pub reconcile_synced :
        (C → Object P → ApiResult (Object P))
        → (Object P → Object P → Object P)
        → Text
        → NamespacedName
        → World
        → Option ApiError × World
    unfolding with_cluster
    reconcile_synced copy adopt finalizer req w =
        let (r, s) = get_cluster w.on_host in
        with_cluster copy adopt finalizer req r (record w { on_host = s })
