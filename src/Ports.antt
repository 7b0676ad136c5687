-- ===== src/Ports.antt =====
-- The kubelet port allocator (pkg/controller/cluster/agent/ports.go). The YAML codec, Kubernetes'
-- bitmap port allocator and the API server belong to libraries and are parameters.
pub mod Consistent
pub mod Allocation
pub mod Freed
pub mod Memory
pub mod Runs
mod Tests
use k3k.Prelude.{
  Text, text, Dict, lookup, insert, delete, ℕ, Bool, not, Option, none, some, List, [], ◌∷◌, ◌++◌,
  ◌==◌, if◌then◌else◌,
}
use k3k.Api.{ApiError, ApiResult, ok, err, not_found, already_exists, other}
use k3k.Translate.{get_text}

pub record ConfigMap : Type 0 where
  pub data_of : Dict Text
  pub binary_data : Dict Text

abbrev pub range_key : Text
range_key = text "range"

abbrev pub allocated_ports_key : Text
allocated_ports_key = text "allocatedPorts"

abbrev pub snapshot_data_key : Text
snapshot_data_key = text "snapshotData"

pub record PortsApi : Type 1 where
  pub parse : Text → ApiResult (Dict ℕ)
  pub serialize : Dict ℕ → ApiResult Text
  pub Allocator : Type 0
  pub new_from_snapshot : Text → Text → ApiResult Allocator
  pub allocate_next : Allocator → ApiResult (ℕ × Allocator)
  pub release : ℕ → Allocator → ApiResult Allocator
  pub snapshot : Allocator → ApiResult (Text × Text)
  pub Server : Type 0
  pub get : Server → ApiResult ConfigMap × Server
  pub create : ConfigMap → Server → Option ApiError × Server
  pub update : ConfigMap → Server → Option ApiError × Server

-- `clusterNamespace + "/" + clusterName`.
unfoldable pub cluster_key : Text → Text → Text
cluster_key namespace name = namespace ++ b'/' ∷ name

module _ (api : PortsApi) where
  open api use {
    parse, serialize, Allocator, new_from_snapshot, allocate_next, release, snapshot, Server, get,
    create, update,
  }

  -- The ConfigMap in memory, and the API server.
  pub record PortAllocator : Type 0 where
    pub kubelet_cm : ConfigMap
    pub server : Server

  abbrev pub fresh_config_map : Text → ConfigMap
  fresh_config_map port_range = record {
    data_of = (range_key, port_range) ∷ (allocated_ports_key, []) ∷ [];
    binary_data = (snapshot_data_key, []) ∷ [];
  }

  unfoldable pub after_get :
      Text → ConfigMap → ApiResult ConfigMap → Server → Option ApiError × PortAllocator
  after_get port_range cm (ok found) s = (none, record { kubelet_cm = found; server = s })
  after_get port_range cm (err not_found) s =
      let made = fresh_config_map port_range in
      let (e, s') = create made s in (e, record { kubelet_cm = made; server = s' })
  after_get port_range cm (err already_exists) s =
      (some already_exists, record { kubelet_cm = cm; server = s })
  after_get port_range cm (err (other e)) s =
      (some (other e), record { kubelet_cm = cm; server = s })

  unfoldable pub get_or_create : Text → PortAllocator → Option ApiError × PortAllocator
  unfolding after_get
  get_or_create port_range a = let (r, s) = get a.server in after_get port_range a.kubelet_cm r s

  unfoldable pub after_serialize : ApiResult Text → ConfigMap → Option ApiError × ConfigMap
  unfolding insert
  after_serialize (err e) cm = (some e, cm)
  after_serialize (ok t) cm =
      (none, record cm { data_of = insert allocated_ports_key t cm.data_of })

  unfoldable pub after_snapshot :
      ApiResult (Text × Text) → ConfigMap → Dict ℕ → Option ApiError × ConfigMap
  unfolding insert after_serialize
  after_snapshot (err e) cm ports = (some e, cm)
  after_snapshot (ok (range, bits)) cm ports = after_serialize (serialize ports) (record cm {
    binary_data = insert snapshot_data_key bits cm.binary_data;
    data_of = insert range_key range cm.data_of;
  })

  unfoldable pub save_snapshot : Allocator → ConfigMap → Dict ℕ → Option ApiError × ConfigMap
  unfolding after_snapshot
  save_snapshot pa cm ports = after_snapshot (snapshot pa) cm ports

  unfoldable pub ports_text : ConfigMap → Text
  unfolding get_text
  ports_text cm = get_text allocated_ports_key cm.data_of

  -- `portallocator.NewFromSnapshot` on what the ConfigMap holds.
  unfoldable pub load : ConfigMap → ApiResult Allocator
  unfolding get_text
  load cm =
      new_from_snapshot (get_text range_key cm.data_of) (get_text snapshot_data_key cm.binary_data)

  abbrev pub updated : ℕ → PortAllocator → Option ApiError → ApiResult ℕ × PortAllocator
  updated next a none = (ok next, a)
  updated next a (some e) = (err e, a)

  -- Writing the ConfigMap with the new port.
  unfoldable pub store_port :
      Option ApiError → ℕ → ConfigMap → PortAllocator → ApiResult ℕ × PortAllocator
  store_port (some e) next cm a = (err e, record a { kubelet_cm = cm })
  store_port none next cm a =
      let (e, s) = update cm a.server in updated next (record { kubelet_cm = cm; server = s }) e

  unfoldable pub take_next :
      ApiResult (ℕ × Allocator) → Text → Dict ℕ → PortAllocator → ApiResult ℕ × PortAllocator
  unfolding insert save_snapshot store_port
  take_next (err e) key ports a = (err e, a)
  take_next (ok (next, pa)) key ports a =
      let (e, cm) = save_snapshot pa a.kubelet_cm (insert key next ports) in store_port e next cm a

  unfoldable pub with_allocator :
      ApiResult Allocator → Text → Dict ℕ → PortAllocator → ApiResult ℕ × PortAllocator
  unfolding take_next
  with_allocator (err e) key ports a = (err e, a)
  with_allocator (ok pa) key ports a = take_next (allocate_next pa) key ports a

  -- A cluster that has a port keeps it.
  unfoldable pub assign : Option ℕ → Text → Dict ℕ → PortAllocator → ApiResult ℕ × PortAllocator
  unfolding with_allocator load
  assign (some port) key ports a = (ok port, a)
  assign none key ports a = with_allocator (load a.kubelet_cm) key ports a

  unfoldable pub with_ports :
      ApiResult (Dict ℕ) → Text → PortAllocator → ApiResult ℕ × PortAllocator
  unfolding assign lookup
  with_ports (err e) key a = (err e, a)
  with_ports (ok ports) key a = assign (lookup key ports) key ports a

  unfoldable pub with_config_map :
      Option ApiError → Text → PortAllocator → ApiResult ℕ × PortAllocator
  unfolding with_ports ports_text
  with_config_map (some e) key a = (err e, a)
  with_config_map none key a = with_ports (parse (ports_text a.kubelet_cm)) key a

  unfoldable pub not_initialized : ApiError
  not_initialized = other (text "port range is not initialized")

  -- `allocatePort`, from the lookup of the range on.
  unfoldable pub allocate_from : Option Text → Text → PortAllocator → ApiResult ℕ × PortAllocator
  unfolding get_or_create with_config_map not_initialized
  allocate_from none key a = (err not_initialized, a)
  allocate_from (some port_range) key a =
      let (e, a') = get_or_create port_range a in with_config_map e key a'

  unfoldable pub allocate_port : Text → Text → PortAllocator → ApiResult ℕ × PortAllocator
  unfolding allocate_from cluster_key lookup
  allocate_port name namespace a =
      allocate_from (lookup range_key a.kubelet_cm.data_of) (cluster_key namespace name) a

  -- The update that ends `deallocatePort`.
  unfoldable pub write_back : PortAllocator → Option ApiError × PortAllocator
  write_back a = let (e, s) = update a.kubelet_cm a.server in (e, record a { server = s })

  unfoldable pub store_release :
      Option ApiError → ConfigMap → PortAllocator → Option ApiError × PortAllocator
  unfolding write_back
  store_release (some e) cm a = (some e, record a { kubelet_cm = cm })
  store_release none cm a = write_back (record a { kubelet_cm = cm })

  unfoldable pub after_release :
      ApiResult Allocator → Text → Dict ℕ → PortAllocator → Option ApiError × PortAllocator
  unfolding delete save_snapshot store_release
  after_release (err e) key ports a = (some e, a)
  after_release (ok pa) key ports a =
      let (e, cm) = save_snapshot pa a.kubelet_cm (delete key ports) in store_release e cm a

  unfoldable pub release_with :
      ApiResult Allocator → Text → ℕ → Dict ℕ → PortAllocator → Option ApiError × PortAllocator
  unfolding after_release
  release_with (err e) key port ports a = (some e, a)
  release_with (ok pa) key port ports a = after_release (release port pa) key ports a

  unfoldable pub port_mismatch : ApiError
  port_mismatch = other (text "port does not match used port for the cluster")

  unfoldable pub release_used :
      Option ℕ → Text → ℕ → Dict ℕ → PortAllocator → Option ApiError × PortAllocator
  unfolding release_with write_back port_mismatch load
  release_used none key port ports a = write_back a
  release_used (some used_port) key port ports a =
      if not (used_port == port)
      then (some port_mismatch, a)
      else release_with (load a.kubelet_cm) key port ports a

  unfoldable pub release_from :
      ApiResult (Dict ℕ) → Text → ℕ → PortAllocator → Option ApiError × PortAllocator
  unfolding release_used lookup
  release_from (err e) key port a = (some e, a)
  release_from (ok ports) key port a = release_used (lookup key ports) key port ports a

  unfoldable pub release_in :
      Option ApiError → Text → ℕ → PortAllocator → Option ApiError × PortAllocator
  unfolding release_from ports_text
  release_in (some e) key port a = (some e, a)
  release_in none key port a = release_from (parse (ports_text a.kubelet_cm)) key port a

  unfoldable pub deallocate_from :
      Option Text → Text → ℕ → PortAllocator → Option ApiError × PortAllocator
  unfolding get_or_create release_in not_initialized
  deallocate_from none key port a = (some not_initialized, a)
  deallocate_from (some port_range) key port a =
      let (e, a') = get_or_create port_range a in release_in e key port a'

  unfoldable pub deallocate_port : Text → Text → ℕ → PortAllocator → Option ApiError × PortAllocator
  unfolding deallocate_from cluster_key lookup
  deallocate_port name namespace port a =
      deallocate_from (lookup range_key a.kubelet_cm.data_of) (cluster_key namespace name) port a
