-- ===== src/Syncer/Copies.antt =====
-- What the branches of `Reconcile` leave in the two clusters (k3k-kubelet/controller/syncer).
use k3k.Prelude.{
  Text, contains, true, false, Option, none, some, ◌≡◌, refl, ◌⊎◌, inl, inr, arith, ◌∙◌, ap,
  if◌then◌else◌,
}
use k3k.Api.{
  NamespacedName, Object, ApiError, ApiResult, ok, err, not_found, already_exists, other, same_name,
  same_name_refl, key_of, Client, ClientLaws, FinalizerUtil, FinalizerLaws,
}
use k3k.Syncer.{
  World, with_finalizers, release, handle_deletion, ensure_finalizer, after_finalizer, after_read,
  write_copy, handle_live,
}

module _ {P : Type 0} (host virt : Client P) (util : FinalizerUtil) (host_laws : ClientLaws host)
    (virt_laws : ClientLaws virt) (util_laws : FinalizerLaws util) where
  abbrev Worlds : Type 0
  Worlds = World host virt util

  release-on_host :
      (f : Text) (o : Object P) (w : Worlds) → (release host virt util f o w).1.on_host ≡ w.on_host
  unfolding release
  release-on_host f o w = ground arith

  -- The host keeps no copy once the deletion of a virtual object is handled without a fatal error of
  -- the host's delete; until then the virtual object is left alone.
  pub handle_deletion_safe :
      (f : Text) (o synced : Object P) (w : Worlds)
      → let w' = (handle_deletion host virt util f o synced w).1 in
        (w'.on_virt ≡ w.on_virt) ⊎ (host.content w'.on_host (key_of synced) ≡ none)
  unfolding handle_deletion
  handle_deletion_safe f o synced w =
      let after = record w { on_host = (host.delete synced w.on_host).1 } in
      ground (
        arith,
        release-on_host f o after,
        host_laws.delete-content synced (key_of synced) w.on_host,
        same_name_refl (key_of synced),
      )

  pub handle_deletion_host :
      (f : Text) (o synced : Object P) (m : NamespacedName) (w : Worlds)
      → (handle_deletion host virt util f o synced w).0 ≡ none
      → let w' = (handle_deletion host virt util f o synced w).1 in
        host.content w'.on_host m
        ≡ (if same_name (key_of synced) m then none else host.content w.on_host m)
  unfolding handle_deletion
  handle_deletion_host f o synced m w e =
      let after = record w { on_host = (host.delete synced w.on_host).1 } in
      ground (arith, release-on_host f o after, host_laws.delete-content synced m w.on_host)

  ensure_finalizer-on_host :
      (f : Text) (o : Object P) (w : Worlds)
      → (ensure_finalizer host virt util f o w).1.on_host ≡ w.on_host
  unfolding ensure_finalizer
  ensure_finalizer-on_host f o w = ground arith

  write_copy-on_virt :
      (adopt : Object P → Object P → Object P) (synced : Object P) (w : Worlds)
      → (write_copy host virt util adopt synced w).1.on_virt ≡ w.on_virt
  unfolding write_copy
  write_copy-on_virt adopt synced w =
      read (host.get (key_of synced) w.on_host).0
        (record w { on_host = (host.get (key_of synced) w.on_host).1 })
    where
      read :
          (r : ApiResult (Object P)) (w : Worlds)
          → (after_read host virt util adopt synced r w).1.on_virt ≡ w.on_virt
      read (ok existing) w = refl
      read (err not_found) w = refl
      read (err already_exists) w = refl
      read (err (other e)) w = refl

  -- What the host may hold under the name of a copy after it was written: the copy as made, or as
  -- adapted to the one that it replaces.
  abbrev pub IsWritten : (Object P → Object P → Object P) → Object P → Option (Object P) → Type 0
  IsWritten adopt synced x =
      (x ≡ host.stored synced) ⊎ ((existing : Object P) × (x ≡ host.stored (adopt existing synced)))

  module _ (adopt : Object P → Object P → Object P)
      (adopt_key : (existing o : Object P) → key_of (adopt existing o) ≡ key_of o) where
    after_read_host :
        (synced : Object P) (r : ApiResult (Object P)) (w : Worlds)
        → (after_read host virt util adopt synced r w).0 ≡ none
        → let w' = (after_read host virt util adopt synced r w).1 in
          IsWritten adopt synced (host.content w'.on_host (key_of synced))
          × ((m : NamespacedName)
              → same_name (key_of synced) m ≡ false
              → host.content w'.on_host m ≡ host.content w.on_host m)
    unfolding after_read
    after_read_host synced (ok existing) w e = (
      inr (
        existing,
        ground (
          arith,
          adopt_key existing synced,
          same_name_refl (key_of synced),
          host_laws.update-content (adopt existing synced) (key_of synced) w.on_host,
        ),
      ),
      λ m ne. ground (
        arith,
        adopt_key existing synced,
        host_laws.update-content (adopt existing synced) m w.on_host,
      ),
    )
    after_read_host synced (err not_found) w e = (
      inl (
          ground (
            arith,
            same_name_refl (key_of synced),
            host_laws.create-content synced (key_of synced) w.on_host,
          )),
      λ m ne. ground (arith, host_laws.create-content synced m w.on_host),
    )
    after_read_host synced (err already_exists) w e = cc
    after_read_host synced (err (other x)) w e = cc

    write_copy_host :
        (synced : Object P) (w : Worlds)
        → (write_copy host virt util adopt synced w).0 ≡ none
        → let w' = (write_copy host virt util adopt synced w).1 in
          IsWritten adopt synced (host.content w'.on_host (key_of synced))
          × ((m : NamespacedName)
              → same_name (key_of synced) m ≡ false
              → host.content w'.on_host m ≡ host.content w.on_host m)
    unfolding write_copy
    write_copy_host synced w e =
        let (r, s) = host.get (key_of synced) w.on_host in
        let (here, elsewhere) = after_read_host synced r (record w { on_host = s }) e in
        (here, λ m ne. elsewhere m ne ∙ host_laws.get-content (key_of synced) m w.on_host)

    after_finalizer_host :
        (synced : Object P) (x : Option ApiError) (w : Worlds)
        → (after_finalizer host virt util adopt synced x w).0 ≡ none
        → let w' = (after_finalizer host virt util adopt synced x w).1 in
          IsWritten adopt synced (host.content w'.on_host (key_of synced))
          × ((m : NamespacedName)
              → same_name (key_of synced) m ≡ false
              → host.content w'.on_host m ≡ host.content w.on_host m)
    unfolding after_finalizer
    after_finalizer_host synced none w e = write_copy_host synced w e
    after_finalizer_host synced (some x) w e = cc

    pub handle_live_host :
        (f : Text) (o synced : Object P) (w : Worlds)
        → (handle_live host virt util adopt f o synced w).0 ≡ none
        → let w' = (handle_live host virt util adopt f o synced w).1 in
          IsWritten adopt synced (host.content w'.on_host (key_of synced))
          × ((m : NamespacedName)
              → same_name (key_of synced) m ≡ false
              → host.content w'.on_host m ≡ host.content w.on_host m)
    unfolding handle_live
    handle_live_host f o synced w e =
        let (x, after) = ensure_finalizer host virt util f o w in
        let (here, elsewhere) = after_finalizer_host synced x after e in
        (here, λ m ne. elsewhere m ne ∙ ap (λ s. host.content s m) (ensure_finalizer-on_host f o w))

    after_finalizer_virt :
        (synced : Object P) (x : Option ApiError) (w : Worlds)
        → (after_finalizer host virt util adopt synced x w).0 ≡ none
        → (x ≡ none) × ((after_finalizer host virt util adopt synced x w).1.on_virt ≡ w.on_virt)
    unfolding after_finalizer
    after_finalizer_virt synced none w e = (refl, write_copy-on_virt adopt synced w)
    after_finalizer_virt synced (some x) w e = cc

    ensure_finalizer_virt :
        (f : Text) (o : Object P) (w : Worlds)
        → (ensure_finalizer host virt util f o w).0 ≡ none
        → let w' = (ensure_finalizer host virt util f o w).1 in
          ((contains o.meta.finalizers f ≡ true) × (w'.on_virt ≡ w.on_virt))
          ⊎ (virt.content w'.on_virt (key_of o)
              ≡ virt.stored (with_finalizers host virt util (util.add f o.meta.finalizers).0 o))
    unfolding ensure_finalizer key_of
    ensure_finalizer_virt f o w e =
        let o' = with_finalizers host virt util (util.add f o.meta.finalizers).0 o in
        ground (
          arith,
          virt_laws.update-content o' (key_of o) w.on_virt,
          same_name_refl (key_of o),
          util_laws.add_changes f o.meta.finalizers,
        )

    -- The virtual object carries the finalizer when its copy has been written.
    pub handle_live_virt :
        (f : Text) (o synced : Object P) (w : Worlds)
        → (handle_live host virt util adopt f o synced w).0 ≡ none
        → let w' = (handle_live host virt util adopt f o synced w).1 in
          ((contains o.meta.finalizers f ≡ true) × (w'.on_virt ≡ w.on_virt))
          ⊎ (virt.content w'.on_virt (key_of o)
              ≡ virt.stored (with_finalizers host virt util (util.add f o.meta.finalizers).0 o))
    unfolding handle_live
    handle_live_virt f o synced w e =
        let (x, after) = ensure_finalizer host virt util f o w in
        let (fine, same) = after_finalizer_virt synced x after e in
        rw same (ensure_finalizer_virt f o w fine)
