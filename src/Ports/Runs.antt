-- ===== src/Ports/Runs.antt =====
-- The release of ports, and sequences of calls of the port allocator
-- (pkg/controller/cluster/agent/ports.go).
use k3k.Prelude.{
  Text, Dict, lookup, delete, ℕ, ◌≡◌, refl, true, Option, none, some, List, [], ◌∷◌, arith, ◌==◌,
  Bool-cases, inl, inr,
}
use k3k.Api.{ApiError, ApiResult, ok, err}
use k3k.Ports.{
  PortsApi, ConfigMap, PortAllocator, range_key, ports_text, load, cluster_key, get_or_create,
  save_snapshot, allocate_port, write_back, store_release, after_release, release_with,
  release_used, release_from, release_in, deallocate_from, deallocate_port,
}
use k3k.Ports.Consistent.{
  PortsLaws, AreHeld, AreDistinct, IsConsistent, save_snapshot-IsSaved, IsSaved-IsConsistent,
  delete-held, delete-distinct,
}
use k3k.Ports.Allocation.{
  ServerOk, update-ServerOk, get_or_create-ServerOk, get_or_create-IsReady, allocate_port-ServerOk,
  IsGranted, allocate_port-IsGranted,
}

-- A call of the allocator, by a cluster's name and namespace.
pub data Call : Type 0 where
  allocate : Text → Text → Call
  deallocate : Text → Text → ℕ → Call

module _ (api : PortsApi) where
  unfoldable pub perform : Call → PortAllocator api → PortAllocator api
  unfolding allocate_port deallocate_port
  perform (allocate name namespace) a = (allocate_port api name namespace a).1
  perform (deallocate name namespace port) a = (deallocate_port api name namespace port a).1

  unfoldable pub perform_all : List Call → PortAllocator api → PortAllocator api
  unfolding perform
  perform_all [] a = a
  perform_all (c ∷ cs) a = perform_all cs (perform c a)

module _ (api : PortsApi) (laws : PortsLaws api) where
  abbrev Safe : Option ApiError × PortAllocator api → Type 0
  Safe r = ServerOk api laws r.1.server

  after_release-Safe :
      (key : Text) (port : ℕ) (ports : Dict ℕ) (pa : api.Allocator) (a : PortAllocator api)
      → ServerOk api laws a.server
      → AreHeld api laws pa ports
      → AreDistinct api laws ports
      → lookup key ports ≡ some port
      → Safe (after_release api (api.release port pa) key ports a)
  unfolding after_release store_release write_back
  after_release-Safe key port ports pa a h held distinct l = released (api.release port pa) refl
    where
      saved :
          (pa' : api.Allocator)
          → api.release port pa ≡ ok pa'
          → (e : Option ApiError) → (save_snapshot api pa' a.kubelet_cm (delete key ports)).0 ≡ e
          → Safe (store_release api e (save_snapshot api pa' a.kubelet_cm (delete key ports)).1 a)
      saved pa' f (some e) g = h
      saved pa' f none g = update-ServerOk api laws _ a.server h (
          IsSaved-IsConsistent api laws pa' (delete key ports) _
            (save_snapshot-IsSaved api laws pa' a.kubelet_cm (delete key ports) g)
            (delete-held api laws pa pa' port key ports f l held distinct)
            (delete-distinct api laws key ports distinct))

      released :
          (x : ApiResult api.Allocator)
          → api.release port pa ≡ x
          → Safe (after_release api x key ports a)
      released (err e) f = h
      released (ok pa') f = saved pa' f _ refl

  release_used-Safe :
      (key : Text) (port : ℕ) (ports : Dict ℕ) (a : PortAllocator api)
      → ServerOk api laws a.server
      → IsConsistent api laws a.kubelet_cm
      → api.parse (ports_text api a.kubelet_cm) ≡ ok ports
      → Safe (release_used api (lookup key ports) key port ports a)
  unfolding release_used release_with write_back
  release_used-Safe key port ports a h c e = used (lookup key ports) refl
    where
      loaded :
          (x : ApiResult api.Allocator)
          → load api a.kubelet_cm ≡ x
          → lookup key ports ≡ some port
          → Safe (release_with api x key port ports a)
      loaded (err y) f l = h
      loaded (ok pa) f l =
          after_release-Safe key port ports pa a h (c.held ports pa e f) (c.distinct ports e) l

      used : (x : Option ℕ) → lookup key ports ≡ x → Safe (release_used api x key port ports a)
      used none f = update-ServerOk api laws a.kubelet_cm a.server h c
      used (some q) f = elim (Bool-cases (q == port)) [
        | inl g ↦ rw g (loaded (load api a.kubelet_cm) refl (ground arith))
        | inr g ↦ rw g h
      ]

  pub deallocate_port-ServerOk :
      (name namespace : Text) (port : ℕ) (a : PortAllocator api)
      → ServerOk api laws a.server
      → Safe (deallocate_port api name namespace port a)
  unfolding deallocate_port deallocate_from release_in release_from
  deallocate_port-ServerOk name namespace port a h = from (lookup range_key a.kubelet_cm.data_of)
    where
      key : Text
      key = cluster_key namespace name

      parsed :
          (b : PortAllocator api)
          → ServerOk api laws b.server
          → laws.content b.server ≡ some b.kubelet_cm
          → (x : ApiResult (Dict ℕ)) → api.parse (ports_text api b.kubelet_cm) ≡ x
          → Safe (release_from api x key port b)
      parsed b g r (err y) e = g
      parsed b g r (ok ports) e = release_used-Safe key port ports b g (g b.kubelet_cm r) e

      made :
          (r : Text) (e : Option ApiError)
          → (get_or_create api r a).0 ≡ e
          → Safe (release_in api e key port (get_or_create api r a).1)
      made r (some x) f = get_or_create-ServerOk api laws r a h
      made r none f =
          parsed _ (get_or_create-ServerOk api laws r a h) (get_or_create-IsReady api laws r a f) _
            refl

      from : (x : Option Text) → Safe (deallocate_from api x key port a)
      from none = h
      from (some r) = made r _ refl

  perform_all-ServerOk :
      (cs : List Call) (a : PortAllocator api)
      → ServerOk api laws a.server
      → ServerOk api laws (perform_all api cs a).server
  unfolding perform_all perform
  perform_all-ServerOk [] a h = h
  perform_all-ServerOk (allocate name namespace ∷ cs) a h =
      perform_all-ServerOk cs _ (allocate_port-ServerOk api laws name namespace a h)
  perform_all-ServerOk (deallocate name namespace port ∷ cs) a h =
      perform_all-ServerOk cs _ (deallocate_port-ServerOk name namespace port a h)

  -- Whatever calls went before, starting from a server without the ConfigMap: a port that
  -- `allocatePort` returns is on the server. The stored map reads back, and has the cluster with it.
  pub perform_all-IsGranted :
      (cs : List Call) (a : PortAllocator api) (name namespace : Text) (p : ℕ)
      → laws.content a.server ≡ none
      → (allocate_port api name namespace (perform_all api cs a)).0 ≡ ok p
      → IsGranted api laws
          (cluster_key namespace name)
          p
          (allocate_port api name namespace (perform_all api cs a)).1.server
  perform_all-IsGranted cs a name namespace p start h =
      allocate_port-IsGranted api laws name namespace (perform_all api cs a) p
        (perform_all-ServerOk cs a (λ x g. absurd (cc (start, g)))) h

  -- Whatever ports are requested and released, in whatever order and with whatever errors of the API
  -- server, starting from a server without the ConfigMap: in the map that the server keeps then, no
  -- two clusters have one port.
  pub perform_all_distinct :
      (cs : List Call) (a : PortAllocator api) (cm : ConfigMap) (ports : Dict ℕ) (k k' : Text)
      (p : ℕ)
      → laws.content a.server ≡ none
      → laws.content (perform_all api cs a).server ≡ some cm
      → api.parse (ports_text api cm) ≡ ok ports
      → lookup k ports ≡ some p
      → lookup k' ports ≡ some p
      → k ≡ k'
  perform_all_distinct cs a cm ports k k' p start h e f f' =
      (perform_all-ServerOk cs a (λ x g. absurd (cc (start, g))) cm h).distinct ports e k k' p f f'

  -- Whatever ports are requested and released, starting from a server without the ConfigMap: every
  -- port that the kept map gives to a cluster is marked as used in the allocator that the kept
  -- snapshot restores, where both can be read back.
  pub perform_all_used :
      (cs : List Call) (a : PortAllocator api) (cm : ConfigMap) (ports : Dict ℕ)
      (pa : api.Allocator) (k : Text) (p : ℕ)
      → laws.content a.server ≡ none
      → laws.content (perform_all api cs a).server ≡ some cm
      → api.parse (ports_text api cm) ≡ ok ports
      → load api cm ≡ ok pa
      → lookup k ports ≡ some p
      → laws.used pa p ≡ true
  perform_all_used cs a cm ports pa k p start h e l f =
      (perform_all-ServerOk cs a (λ x g. absurd (cc (start, g))) cm h).held ports pa e l k p f
