-- ===== src/Syncer/Runs.antt =====
-- Whole runs of `Reconcile`, from the reads of the Cluster and of the virtual object on.
use k3k.Prelude.{Text, contains, true, false, Option, none, ◌≡◌, ◌∙◌, ◌⊎◌, arith, if◌then◌else◌}
use k3k.Api.{
  NamespacedName, Object, ApiError, ApiResult, ok, same_name, key_of, Client, ClientLaws,
  FinalizerUtil, FinalizerLaws,
}
use k3k.Syncer.{
  World, with_finalizers, handle_deletion, handle_live, sync_object, with_object, with_cluster,
  reconcile_synced,
}
use k3k.Syncer.Copies.{
  IsWritten, handle_deletion_safe, handle_deletion_host, handle_live_host, handle_live_virt,
}

module _ {P C : Type 0} (host virt : Client P) (util : FinalizerUtil)
    (get_cluster : host.State → ApiResult C × host.State)
    (copy : C → Object P → ApiResult (Object P)) (adopt : Object P → Object P → Object P)
    (f : Text) where
  -- The reads of a run succeed, and the copy can be made.
  pub record Reads (req : NamespacedName) (w : World host virt util) (o synced : Object P)
      : Type 0 where
    pub cluster : C
    pub cluster_read : (get_cluster w.on_host).0 ≡ ok cluster
    pub object_read : (virt.get req w.on_virt).0 ≡ ok o
    pub copy_made : copy cluster o ≡ ok synced

  abbrev after_reads : NamespacedName → World host virt util → World host virt util
  after_reads req w = record {
    on_host = (get_cluster w.on_host).1;
    on_virt = (virt.get req w.on_virt).1;
  }

  abbrev pub run : NamespacedName → World host virt util → Option ApiError × World host virt util
  run req w = reconcile_synced host virt util get_cluster copy adopt f req w

  run-Reads :
      (req : NamespacedName) (w : World host virt util) (o synced : Object P)
      → Reads req w o synced
      → run req w ≡ sync_object host virt util adopt f o (ok synced) (after_reads req w)
  unfolding reconcile_synced
  run-Reads req w o synced r =
      rw (r.cluster_read, with_cluster, r.object_read, with_object, r.copy_made)

  run_deleting :
      (req : NamespacedName) (w : World host virt util) (o synced : Object P)
      → Reads req w o synced
      → o.meta.is_deleting ≡ true
      → run req w ≡ handle_deletion host virt util f o synced (after_reads req w)
  unfolding sync_object
  run_deleting req w o synced r d = run-Reads req w o synced r ∙ rw d

  run_live :
      (req : NamespacedName) (w : World host virt util) (o synced : Object P)
      → Reads req w o synced
      → o.meta.is_deleting ≡ false
      → run req w ≡ handle_live host virt util adopt f o synced (after_reads req w)
  unfolding sync_object
  run_live req w o synced r d = run-Reads req w o synced r ∙ rw d

  module _ (host_laws : ClientLaws host) (virt_laws : ClientLaws virt)
      (util_laws : FinalizerLaws util)
      (cluster_reads : (s : host.State) (m : NamespacedName)
        → host.content (get_cluster s).1 m ≡ host.content s m)
      (adopt_key : (existing o : Object P) → key_of (adopt existing o) ≡ key_of o)
      (req : NamespacedName) (w : World host virt util) (o synced : Object P)
      (r : Reads req w o synced) where
    host_after :
        o.meta.is_deleting ≡ false
        → (run req w).0 ≡ none
        → IsWritten host virt util host_laws virt_laws util_laws adopt synced
            (host.content (run req w).1.on_host (key_of synced))
          × ((m : NamespacedName)
              → same_name (key_of synced) m ≡ false
              → host.content (run req w).1.on_host m ≡ host.content w.on_host m)
    host_after live e =
        let same = run_live req w o synced r live in
        rw same (
          let (here, elsewhere) =
            handle_live_host host virt util host_laws virt_laws util_laws adopt adopt_key f o synced
              (after_reads req w) (rw same at e) in
          (here, λ m ne. elsewhere m ne ∙ cluster_reads w.on_host m))

    -- Where the Cluster and the virtual object can be read and the copy can be made: a syncer that
    -- succeeds on a live object leaves its copy on the host, and leaves every host object of another name
    -- as it was.
    pub run_copies :
        (m : NamespacedName)
        → o.meta.is_deleting ≡ false
        → (run req w).0 ≡ none
        → same_name (key_of synced) m ≡ false
        → IsWritten host virt util host_laws virt_laws util_laws adopt synced
            (host.content (run req w).1.on_host (key_of synced))
          × (host.content (run req w).1.on_host m ≡ host.content w.on_host m)
    run_copies m live e ne = ((host_after live e).0, (host_after live e).1 m ne)

    -- Where the Cluster and the virtual object can be read and the copy can be made: a syncer that
    -- succeeds on a live object has put its finalizer on the virtual object. It was there and the
    -- virtual cluster is as it was read, or the object was written with it.
    pub run_finalizer :
        o.meta.is_deleting ≡ false
        → (run req w).0 ≡ none
        → ((contains o.meta.finalizers f ≡ true)
            × ((run req w).1.on_virt ≡ (virt.get req w.on_virt).1))
          ⊎ (virt.content (run req w).1.on_virt (key_of o)
              ≡ virt.stored (with_finalizers host virt util (util.add f o.meta.finalizers).0 o))
    run_finalizer live e =
        let same = run_live req w o synced r live in
        rw same (
          handle_live_virt host virt util host_laws virt_laws util_laws adopt adopt_key f o synced
            (after_reads req w) (rw same at e))

    -- Where the Cluster and the virtual object can be read and the copy can be made: a syncer that
    -- succeeds on a deleted object leaves no copy of it on the host, and changes nothing else there.
    pub run_removes :
        (m : NamespacedName)
        → o.meta.is_deleting ≡ true
        → (run req w).0 ≡ none
        → host.content (run req w).1.on_host m
          ≡ (if same_name (key_of synced) m then none else host.content w.on_host m)
    run_removes m deleting e =
        let same = run_deleting req w o synced r deleting in
        rw same (
          ground (
            arith,
            handle_deletion_host host virt util host_laws virt_laws util_laws f o synced m
                (after_reads req w) (rw same at e),
            cluster_reads w.on_host m,
          ))

    -- Where the Cluster and the virtual object can be read and the copy can be made, no copy is
    -- orphaned: whether or not a run on a deleted object succeeds, it either leaves the virtual cluster
    -- as it was read, finalizer included, or the host holds no copy any more.
    pub run_never_orphans :
        o.meta.is_deleting ≡ true
        → ((run req w).1.on_virt ≡ (virt.get req w.on_virt).1)
          ⊎ (host.content (run req w).1.on_host (key_of synced) ≡ none)
    run_never_orphans deleting = rw (run_deleting req w o synced r deleting) (
        handle_deletion_safe host virt util host_laws virt_laws util_laws f o synced
          (after_reads req w))
