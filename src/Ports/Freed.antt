-- ===== src/Ports/Freed.antt =====
-- What `deallocatePort` leaves on the API server (pkg/controller/cluster/agent/ports.go).
use k3k.Prelude.{
  Text, text_eq_refl, Dict, lookup, delete, lookup-delete, ℕ, ◌≡◌, refl, Option, none, some, ◌==◌,
  Bool-cases, inl, inr,
}
use k3k.Api.{ApiError, ApiResult, ok, err}
use k3k.Ports.{
  PortsApi, ConfigMap, PortAllocator, range_key, ports_text, load, cluster_key, get_or_create,
  save_snapshot, write_back, store_release, after_release, release_with, release_used, release_from,
  release_in, deallocate_from, deallocate_port,
}
use k3k.Ports.Consistent.{PortsLaws, save_snapshot-IsSaved}
use k3k.Ports.Allocation.{update_done}

module _ (api : PortsApi) (laws : PortsLaws api) where
  -- The server keeps a map, and the cluster has no port in it.
  pub record IsFreed (key : Text) (s : api.Server) : Type 0 where
    pub cm : ConfigMap
    pub ports : Dict ℕ
    pub stored : laws.content s ≡ some cm
    pub parsed : api.parse (ports_text api cm) ≡ ok ports
    pub lacks : lookup key ports ≡ none

  abbrev Frees : Text → Option ApiError × PortAllocator api → Type 0
  Frees key r = r.0 ≡ none → IsFreed key r.1.server

  write_back-Frees :
      (key : Text) (ports : Dict ℕ) (a : PortAllocator api)
      → api.parse (ports_text api a.kubelet_cm) ≡ ok ports
      → lookup key ports ≡ none
      → Frees key (write_back api a)
  unfolding write_back
  write_back-Frees key ports a p l h = record {
    cm = a.kubelet_cm;
    ports = ports;
    stored = update_done api laws a.kubelet_cm a.server h;
    parsed = p;
    lacks = l;
  }

  after_release-Frees :
      (key : Text) (ports : Dict ℕ) (x : ApiResult api.Allocator) (a : PortAllocator api)
      → Frees key (after_release api x key ports a)
  unfolding after_release store_release
  after_release-Frees key ports (err e) a h = absurd (cc h)
  after_release-Frees key ports (ok pa) a h = saved _ refl h
    where
      saved :
          (e : Option ApiError)
          → (save_snapshot api pa a.kubelet_cm (delete key ports)).0 ≡ e
          → Frees key
              (store_release api e (save_snapshot api pa a.kubelet_cm (delete key ports)).1 a)
      saved (some x) f h = absurd (cc h)
      saved none f h =
          write_back-Frees key (delete key ports) _
            (save_snapshot-IsSaved api laws pa a.kubelet_cm (delete key ports) f).parsed
            (rw (lookup-delete key key ports, text_eq_refl key) refl) h

  release_used-Frees :
      (key : Text) (port : ℕ) (ports : Dict ℕ) (a : PortAllocator api)
      → api.parse (ports_text api a.kubelet_cm) ≡ ok ports
      → (x : Option ℕ) → lookup key ports ≡ x
      → Frees key (release_used api x key port ports a)
  unfolding release_used release_with
  release_used-Frees key port ports a p none l = write_back-Frees key ports a p l
  release_used-Frees key port ports a p (some q) l = elim (Bool-cases (q == port)) [
    | inl g ↦ rw g (loaded (load api a.kubelet_cm))
    | inr g ↦ rw g (λ h. absurd (cc h))
  ]
    where
      loaded : (x : ApiResult api.Allocator) → Frees key (release_with api x key port ports a)
      loaded (err e) h = absurd (cc h)
      loaded (ok pa) h = after_release-Frees key ports (api.release port pa) a h

  -- When `deallocatePort` returns without an error, the map on the server reads back and has no port for
  -- the cluster.
  pub deallocate_port-IsFreed :
      (name namespace : Text) (port : ℕ) (a : PortAllocator api)
      → (deallocate_port api name namespace port a).0 ≡ none
      → IsFreed (cluster_key namespace name) (deallocate_port api name namespace port a).1.server
  unfolding deallocate_port deallocate_from release_in release_from
  deallocate_port-IsFreed name namespace port a = from (lookup range_key a.kubelet_cm.data_of)
    where
      key : Text
      key = cluster_key namespace name

      parsed :
          (b : PortAllocator api) (x : ApiResult (Dict ℕ))
          → api.parse (ports_text api b.kubelet_cm) ≡ x
          → Frees key (release_from api x key port b)
      parsed b (err y) e h = absurd (cc h)
      parsed b (ok ports) e h = release_used-Frees key port ports b e (lookup key ports) refl h

      made :
          (r : Text) (e : Option ApiError)
          → Frees key (release_in api e key port (get_or_create api r a).1)
      made r (some x) h = absurd (cc h)
      made r none h = parsed (get_or_create api r a).1 _ refl h

      from : (x : Option Text) → Frees key (deallocate_from api x key port a)
      from none h = absurd (cc h)
      from (some r) h = made r (get_or_create api r a).0 h
