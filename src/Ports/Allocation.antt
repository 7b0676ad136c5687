-- ===== src/Ports/Allocation.antt =====
-- What `allocatePort` leaves on the API server (pkg/controller/cluster/agent/ports.go).
use k3k.Prelude.{
  Text, Dict, lookup, insert, lookup-insert_self, ℕ, ◌≡◌, refl, sym, ◌∙◌, ◌⊎◌, inl, inr, ◌≢◌,
  Option, none, some, arith,
}
use mathlib.Core.Path.{subst}
use k3k.Api.{ApiError, ApiResult, ok, err, not_found, already_exists, other}
use k3k.Ports.{
  PortsApi, ConfigMap, PortAllocator, range_key, ports_text, load, cluster_key, fresh_config_map,
  after_get, get_or_create, save_snapshot, store_port, take_next, with_allocator, assign,
  with_ports, updated, with_config_map, allocate_from, allocate_port,
}
use k3k.Ports.Consistent.{
  PortsLaws, AreHeld, AreDistinct, IsConsistent, fresh-IsConsistent, IsSaved, save_snapshot-IsSaved,
  IsSaved-IsConsistent, insert-held, insert-distinct,
}

module _ (api : PortsApi) (laws : PortsLaws api) where
  abbrev pub ServerOk : api.Server → Type 0
  ServerOk s = (cm : ConfigMap) → laws.content s ≡ some cm → IsConsistent api laws cm

  -- The server keeps a map in which the cluster has the port.
  pub record IsGranted (key : Text) (p : ℕ) (s : api.Server) : Type 0 where
    pub cm : ConfigMap
    pub ports : Dict ℕ
    pub stored : laws.content s ≡ some cm
    pub parsed : api.parse (ports_text api cm) ≡ ok ports
    pub has : lookup key ports ≡ some p

  abbrev IsReady : PortAllocator api → Type 0
  IsReady a = laws.content a.server ≡ some a.kubelet_cm

  same_IsConsistent :
      (cm cm' : ConfigMap)
      → some cm ≡ some cm'
      → IsConsistent api laws cm
      → IsConsistent api laws cm'
  same_IsConsistent cm cm' e c = subst (λ x. IsConsistent api laws x) e' c
    where
      e' : cm ≡ cm'
      e' = cc e

  pub update-ServerOk :
      (cm : ConfigMap) (s : api.Server)
      → ServerOk s
      → IsConsistent api laws cm
      → ServerOk (api.update cm s).1
  update-ServerOk cm s h c cm' f = go (laws.update-content cm s)
    where
      go :
          (laws.content (api.update cm s).1 ≡ some cm)
            ⊎ (((api.update cm s).0 ≢ none) × (laws.content (api.update cm s).1 ≡ laws.content s))
          → IsConsistent api laws cm'
      go (inl e) = same_IsConsistent cm cm' (sym e ∙ f) c
      go (inr (_, e)) = h cm' (sym e ∙ f)

  create-ServerOk :
      (cm : ConfigMap) (s : api.Server)
      → ServerOk s
      → IsConsistent api laws cm
      → ServerOk (api.create cm s).1
  create-ServerOk cm s h c cm' f = go (laws.create-content cm s)
    where
      go :
          (laws.content (api.create cm s).1 ≡ some cm)
            ⊎ (((api.create cm s).0 ≢ none) × (laws.content (api.create cm s).1 ≡ laws.content s))
          → IsConsistent api laws cm'
      go (inl e) = same_IsConsistent cm cm' (sym e ∙ f) c
      go (inr (_, e)) = h cm' (sym e ∙ f)

  pub update_done :
      (cm : ConfigMap) (s : api.Server)
      → (api.update cm s).0 ≡ none
      → laws.content (api.update cm s).1 ≡ some cm
  update_done cm s e = ground (arith, laws.update-content cm s)

  create_done :
      (cm : ConfigMap) (s : api.Server)
      → (api.create cm s).0 ≡ none
      → laws.content (api.create cm s).1 ≡ some cm
  create_done cm s e = ground (arith, laws.create-content cm s)

  get-ServerOk : (s : api.Server) → ServerOk s → ServerOk (api.get s).1
  get-ServerOk s h cm f = h cm (sym (laws.get-content s) ∙ f)

  -- `getOrCreate` succeeds only with the ConfigMap that the server keeps.
  pub get_or_create-ServerOk :
      (r : Text) (a : PortAllocator api)
      → ServerOk a.server
      → ServerOk (get_or_create api r a).1.server
  unfolding get_or_create after_get
  get_or_create-ServerOk r a h = go (api.get a.server).0
    where
      go :
          (x : ApiResult ConfigMap)
          → ServerOk (after_get api r a.kubelet_cm x (api.get a.server).1).1.server
      go (ok cm) = get-ServerOk a.server h
      go (err not_found) =
          create-ServerOk (fresh_config_map api r) (api.get a.server).1 (get-ServerOk a.server h)
            (fresh-IsConsistent api laws r)
      go (err already_exists) = get-ServerOk a.server h
      go (err (other e)) = get-ServerOk a.server h

  pub get_or_create-IsReady :
      (r : Text) (a : PortAllocator api)
      → (get_or_create api r a).0 ≡ none
      → IsReady (get_or_create api r a).1
  unfolding get_or_create after_get
  get_or_create-IsReady r a = go (api.get a.server).0 refl
    where
      go :
          (x : ApiResult ConfigMap)
          → (api.get a.server).0 ≡ x
          → (after_get api r a.kubelet_cm x (api.get a.server).1).0 ≡ none
          → IsReady (after_get api r a.kubelet_cm x (api.get a.server).1).1
      go (ok cm) e h = laws.get-content a.server ∙ laws.get_found a.server cm e
      go (err not_found) e h = create_done (fresh_config_map api r) (api.get a.server).1 h
      go (err already_exists) e h = absurd (cc h)
      go (err (other x)) e h = absurd (cc h)

  -- What `allocatePort` promises of its result.
  record IsGood (key : Text) (r : ApiResult ℕ × PortAllocator api) : Type 0 where
    safe : ServerOk r.1.server
    granted : (p : ℕ) → r.0 ≡ ok p → IsGranted key p r.1.server

  failed :
      (key : Text) (e : ApiError) (a : PortAllocator api)
      → ServerOk a.server
      → IsGood key (err e, a)
  failed key e a h = record { safe = h; granted = λ p f. absurd (cc f) }

  store_port-IsGood :
      (key : Text) (p : ℕ) (ports : Dict ℕ) (pa : api.Allocator) (cm : ConfigMap)
      (a : PortAllocator api)
      → ServerOk a.server
      → IsSaved api laws pa ports cm
      → IsConsistent api laws cm
      → lookup key ports ≡ some p
      → IsGood key (store_port api none p cm a)
  unfolding store_port
  store_port-IsGood key p ports pa cm a h s c l = ended (api.update cm a.server).0 refl
    where
      ended :
          (e : Option ApiError)
          → (api.update cm a.server).0 ≡ e
          → IsGood key
              (updated api p (record { kubelet_cm = cm; server = (api.update cm a.server).1 }) e)
      ended none f = record {
        safe = update-ServerOk cm a.server h c;
        granted = λ q g. record {
          cm = cm;
          ports = ports;
          stored = update_done cm a.server f;
          parsed = s.parsed;
          has = cc (l, g);
        };
      }
      ended (some x) f = failed key x _ (update-ServerOk cm a.server h c)

  take_next-IsGood :
      (key : Text) (ports : Dict ℕ) (pa : api.Allocator) (a : PortAllocator api)
      → ServerOk a.server
      → AreHeld api laws pa ports
      → AreDistinct api laws ports
      → IsGood key (take_next api (api.allocate_next pa) key ports a)
  unfolding take_next
  take_next-IsGood key ports pa a h held distinct = taken (api.allocate_next pa) refl
    where
      saved :
          (p : ℕ) (pa' : api.Allocator)
          → api.allocate_next pa ≡ ok (p, pa')
          → (e : Option ApiError) → (save_snapshot api pa' a.kubelet_cm (insert key p ports)).0 ≡ e
          → IsGood key
              (store_port api e p (save_snapshot api pa' a.kubelet_cm (insert key p ports)).1 a)
      saved p pa' f (some e) g = failed key e _ h
      saved p pa' f none g =
          let s = save_snapshot-IsSaved api laws pa' a.kubelet_cm (insert key p ports) g in
          store_port-IsGood key p (insert key p ports) pa' _ a h s
            (IsSaved-IsConsistent api laws pa' (insert key p ports) _ s
              (insert-held api laws pa pa' p key ports f held)
              (insert-distinct api laws pa pa' p key ports f held distinct))
            (lookup-insert_self key p ports)

      taken :
          (x : ApiResult (ℕ × api.Allocator))
          → api.allocate_next pa ≡ x
          → IsGood key (take_next api x key ports a)
      taken (err e) f = failed key e a h
      taken (ok (p, pa')) f = saved p pa' f _ refl

  with_allocator-IsGood :
      (key : Text) (ports : Dict ℕ) (a : PortAllocator api)
      → ServerOk a.server
      → IsConsistent api laws a.kubelet_cm
      → api.parse (ports_text api a.kubelet_cm) ≡ ok ports
      → IsGood key (with_allocator api (load api a.kubelet_cm) key ports a)
  unfolding with_allocator
  with_allocator-IsGood key ports a h c e = loaded (load api a.kubelet_cm) refl
    where
      loaded :
          (x : ApiResult api.Allocator)
          → load api a.kubelet_cm ≡ x
          → IsGood key (with_allocator api x key ports a)
      loaded (err y) f = failed key y a h
      loaded (ok pa) f =
          take_next-IsGood key ports pa a h (c.held ports pa e f) (c.distinct ports e)

  with_ports-IsGood :
      (key : Text) (a : PortAllocator api)
      → ServerOk a.server
      → IsReady a
      → IsGood key (with_ports api (api.parse (ports_text api a.kubelet_cm)) key a)
  unfolding with_ports assign
  with_ports-IsGood key a h r = parsed (api.parse (ports_text api a.kubelet_cm)) refl
    where
      assigned :
          (ports : Dict ℕ)
          → api.parse (ports_text api a.kubelet_cm) ≡ ok ports
          → (x : Option ℕ) → lookup key ports ≡ x
          → IsGood key (assign api x key ports a)
      assigned ports e none f = with_allocator-IsGood key ports a h (h a.kubelet_cm r) e
      assigned ports e (some p) f = record {
        safe = h;
        granted = λ q g. record {
          cm = a.kubelet_cm;
          ports = ports;
          stored = r;
          parsed = e;
          has = cc (f, g);
        };
      }

      parsed :
          (x : ApiResult (Dict ℕ))
          → api.parse (ports_text api a.kubelet_cm) ≡ x
          → IsGood key (with_ports api x key a)
      parsed (err y) e = failed key y a h
      parsed (ok ports) e = assigned ports e (lookup key ports) refl

  allocate_port-IsGood :
      (name namespace : Text) (a : PortAllocator api)
      → ServerOk a.server
      → IsGood (cluster_key namespace name) (allocate_port api name namespace a)
  unfolding allocate_port allocate_from with_config_map
  allocate_port-IsGood name namespace a h = from (lookup range_key a.kubelet_cm.data_of)
    where
      key : Text
      key = cluster_key namespace name

      made :
          (r : Text) (e : Option ApiError)
          → (get_or_create api r a).0 ≡ e
          → IsGood key (with_config_map api e key (get_or_create api r a).1)
      made r (some x) f = failed key x _ (get_or_create-ServerOk r a h)
      made r none f =
          with_ports-IsGood key _ (get_or_create-ServerOk r a h) (get_or_create-IsReady r a f)

      from : (x : Option Text) → IsGood key (allocate_from api x key a)
      from none = failed key _ a h
      from (some r) = made r _ refl

  pub allocate_port-ServerOk :
      (name namespace : Text) (a : PortAllocator api)
      → ServerOk a.server
      → ServerOk (allocate_port api name namespace a).1.server
  allocate_port-ServerOk name namespace a h = (allocate_port-IsGood name namespace a h).safe

  -- From a server whose ConfigMap, where it has one, is consistent, the port that `allocatePort`
  -- returns is on the server: the stored map reads back, and has the cluster with that port.
  pub allocate_port-IsGranted :
      (name namespace : Text) (a : PortAllocator api) (p : ℕ)
      → ServerOk a.server
      → (allocate_port api name namespace a).0 ≡ ok p
      → IsGranted (cluster_key namespace name) p (allocate_port api name namespace a).1.server
  allocate_port-IsGranted name namespace a p h = (allocate_port-IsGood name namespace a h).granted p
