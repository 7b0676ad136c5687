-- ===== src/Ports/Consistent.antt =====
-- The invariant of the port map and of the snapshot that the ConfigMap keeps
-- (pkg/controller/cluster/agent/ports.go).
use k3k.Prelude.{
  Text, text, text_eq, text_eq_iff, Dict, lookup, insert, delete, lookup-insert, lookup-insert_self,
  lookup-delete, ℕ, ◌≡◌, refl, sym, ◌∙◌, ◌⊎◌, ◌≢◌, Bool, true, false, not, ◌&&◌, ◌||◌, Option, none,
  some, [], arith, ◌==◌,
}
use k3k.Api.{ApiResult, ok, err}
use k3k.Translate.{get_text}
use k3k.Ports.{
  PortsApi, ConfigMap, range_key, allocated_ports_key, snapshot_data_key, ports_text, load,
  after_serialize, after_snapshot, save_snapshot, fresh_config_map,
}

-- The documented behaviour of the YAML codec, the bitmap allocator and the API server. A write that
-- fails may or may not have reached the server.
pub record PortsLaws (api : PortsApi) : Type 0 where
  pub used : api.Allocator → ℕ → Bool
  pub content : api.Server → Option ConfigMap
  pub parse-serialize : (m : Dict ℕ) (t : Text) → api.serialize m ≡ ok t → api.parse t ≡ ok m
  pub parse_empty : api.parse [] ≡ ok []
  pub allocate_free :
      (pa pa' : api.Allocator) (p : ℕ) → api.allocate_next pa ≡ ok (p, pa') → used pa p ≡ false
  pub allocate_used :
      (pa pa' : api.Allocator) (p q : ℕ)
      → api.allocate_next pa ≡ ok (p, pa')
      → used pa' q ≡ (p == q || used pa q)
  pub release_used :
      (pa pa' : api.Allocator) (p q : ℕ)
      → api.release p pa ≡ ok pa'
      → used pa' q ≡ (used pa q && not (p == q))
  pub snapshot_used :
      (pa pa' : api.Allocator) (range bits : Text) (q : ℕ)
      → api.snapshot pa ≡ ok (range, bits)
      → api.new_from_snapshot range bits ≡ ok pa'
      → used pa' q ≡ used pa q
  pub get-content : (s : api.Server) → content (api.get s).1 ≡ content s
  pub get_found : (s : api.Server) (cm : ConfigMap) → (api.get s).0 ≡ ok cm → content s ≡ some cm
  pub create-content :
      (cm : ConfigMap) (s : api.Server)
      → (content (api.create cm s).1 ≡ some cm)
        ⊎ (((api.create cm s).0 ≢ none) × (content (api.create cm s).1 ≡ content s))
  pub update-content :
      (cm : ConfigMap) (s : api.Server)
      → (content (api.update cm s).1 ≡ some cm)
        ⊎ (((api.update cm s).0 ≢ none) × (content (api.update cm s).1 ≡ content s))

module _ (api : PortsApi) (laws : PortsLaws api) where
  abbrev pub AreHeld : api.Allocator → Dict ℕ → Type 0
  AreHeld pa ports = (k : Text) (p : ℕ) → lookup k ports ≡ some p → laws.used pa p ≡ true

  abbrev pub AreDistinct : Dict ℕ → Type 0
  AreDistinct ports =
      (k k' : Text) (p : ℕ) → lookup k ports ≡ some p → lookup k' ports ≡ some p → k ≡ k'

  pub record IsConsistent (cm : ConfigMap) : Type 0 where
    pub held :
        (ports : Dict ℕ) (pa : api.Allocator)
        → api.parse (ports_text api cm) ≡ ok ports
        → load api cm ≡ ok pa
        → AreHeld pa ports
    pub distinct : (ports : Dict ℕ) → api.parse (ports_text api cm) ≡ ok ports → AreDistinct ports

  pub fresh-IsConsistent : (port_range : Text) → IsConsistent (fresh_config_map api port_range)
  unfolding ports_text get_text lookup text_eq text
  fresh-IsConsistent port_range = record {
    held = λ ports pa e l k p h. absurd (cc (laws.parse_empty, e, h));
    distinct = λ ports e k k' p h h'. absurd (cc (laws.parse_empty, e, h));
  }

  abbrev saved : ConfigMap → Text → Text → Text → ConfigMap
  saved cm range bits t = record {
    binary_data = insert snapshot_data_key bits cm.binary_data;
    data_of = insert allocated_ports_key t (insert range_key range cm.data_of);
  }

  keys_differ : text_eq allocated_ports_key range_key ≡ false
  unfolding text_eq text
  keys_differ = refl

  ports_text-saved :
      (cm : ConfigMap) (range bits t : Text) → ports_text api (saved cm range bits t) ≡ t
  unfolding ports_text get_text
  ports_text-saved cm range bits t =
      ground (arith, lookup-insert_self allocated_ports_key t (insert range_key range cm.data_of))

  load-saved :
      (cm : ConfigMap) (range bits t : Text)
      → load api (saved cm range bits t) ≡ api.new_from_snapshot range bits
  unfolding load get_text
  load-saved cm range bits t = ground (
    arith,
    keys_differ,
    lookup-insert_self range_key range cm.data_of,
    lookup-insert allocated_ports_key range_key t (insert range_key range cm.data_of),
    lookup-insert_self snapshot_data_key bits cm.binary_data,
  )

  -- The ConfigMap that `saveSnapshot` makes holds the map and the allocator that it is given.
  pub record IsSaved (pa : api.Allocator) (ports : Dict ℕ) (cm : ConfigMap) : Type 0 where
    pub parsed : api.parse (ports_text api cm) ≡ ok ports
    pub loaded :
        (pa' : api.Allocator) (q : ℕ) → load api cm ≡ ok pa' → laws.used pa' q ≡ laws.used pa q

  pub save_snapshot-IsSaved :
      (pa : api.Allocator) (cm : ConfigMap) (ports : Dict ℕ)
      → (save_snapshot api pa cm ports).0 ≡ none
      → IsSaved pa ports (save_snapshot api pa cm ports).1
  unfolding save_snapshot
  save_snapshot-IsSaved pa cm ports = taken (api.snapshot pa) refl
    where
      written :
          (range bits : Text)
          → api.snapshot pa ≡ ok (range, bits)
          → (y : ApiResult Text) → api.serialize ports ≡ y
          → let after = after_serialize api y (record cm {
            binary_data = insert snapshot_data_key bits cm.binary_data;
            data_of = insert range_key range cm.data_of;
          }) in
            after.0 ≡ none → IsSaved pa ports after.1
      written range bits e (err x) f h = absurd (cc h)
      written range bits e (ok t) f h = record {
        parsed = rw (ports_text-saved cm range bits t) (laws.parse-serialize ports t f);
        loaded = λ pa' q l.
            laws.snapshot_used pa pa' range bits q e (sym (load-saved cm range bits t) ∙ l);
      }

      taken :
          (x : ApiResult (Text × Text))
          → api.snapshot pa ≡ x
          → (after_snapshot api x cm ports).0 ≡ none
          → IsSaved pa ports (after_snapshot api x cm ports).1
      taken (err x) e h = absurd (cc h)
      taken (ok (range, bits)) e h = written range bits e (api.serialize ports) refl h

  pub IsSaved-IsConsistent :
      (pa : api.Allocator) (ports : Dict ℕ) (cm : ConfigMap)
      → IsSaved pa ports cm
      → AreHeld pa ports
      → AreDistinct ports
      → IsConsistent cm
  IsSaved-IsConsistent pa ports cm s h d = record {
    held = λ ports' pa' e l k p f. s.loaded pa' p l ∙ h k p (cc (s.parsed, e, f));
    distinct = λ ports' e k k' p f f'. d k k' p (cc (s.parsed, e, f)) (cc (s.parsed, e, f'));
  }

  -- A free port for a cluster that had none.
  pub insert-held :
      (pa pa' : api.Allocator) (p : ℕ) (key : Text) (ports : Dict ℕ)
      → api.allocate_next pa ≡ ok (p, pa')
      → AreHeld pa ports
      → AreHeld pa' (insert key p ports)
  insert-held pa pa' p key ports e h k q f =
      ground (arith, lookup-insert key k p ports, laws.allocate_used pa pa' p q e, h k q)

  pub insert-distinct :
      (pa pa' : api.Allocator) (p : ℕ) (key : Text) (ports : Dict ℕ)
      → api.allocate_next pa ≡ ok (p, pa')
      → AreHeld pa ports
      → AreDistinct ports
      → AreDistinct (insert key p ports)
  insert-distinct pa pa' p key ports e h d k k' q f f' = ground (
    arith,
    lookup-insert key k p ports,
    lookup-insert key k' p ports,
    text_eq_iff key k,
    text_eq_iff key k',
    laws.allocate_free pa pa' p e,
    h k q,
    h k' q,
    d k k' q,
  )

  -- A released port of a cluster that is taken out of the map.
  pub delete-held :
      (pa pa' : api.Allocator) (p : ℕ) (key : Text) (ports : Dict ℕ)
      → api.release p pa ≡ ok pa'
      → lookup key ports ≡ some p
      → AreHeld pa ports
      → AreDistinct ports
      → AreHeld pa' (delete key ports)
  delete-held pa pa' p key ports e here h d k q f = ground (
    arith,
    lookup-delete key k ports,
    laws.release_used pa pa' p q e,
    h k q,
    d key k q,
    text_eq_iff key k,
  )

  pub delete-distinct :
      (key : Text) (ports : Dict ℕ) → AreDistinct ports → AreDistinct (delete key ports)
  delete-distinct key ports d k k' q f f' =
      ground (arith, lookup-delete key k ports, lookup-delete key k' ports, d k k' q)
