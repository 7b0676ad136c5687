-- ===== src/Quotas/Capacity.antt =====
-- The update of a virtual node from its host node and the quotas (`updateNodeCapacity` of
-- k3k-kubelet/provider/configure_capacity.go). The reads of both API servers are arguments.
use k3k.Prelude.{
  Text, lookup, insert, copy, has_key, true, Option, none, some, List, [], ◌∷◌, if◌then◌else◌, ◌≡◌,
  refl, NodupKeys, insert-NodupKeys, lookup-insert, Bool-cases, contains, inl, inr, arith, ◌≤◌,
}
use k3k.Quotas.Visit.{QuantityLaws, amount}
use k3k.Quotas.Distribution.{host_amount}
use k3k.Quotas.Shares.{IsFresh, is_milli, distribute_quotas-le-host}
use k3k.Api.{ApiResult, ok, err}
use k3k.Quotas.{
  QuantityApi, ResourceList, ResourceMap, ResourceNames, or_else, merge_quotas, filter_quotas,
  distribute_quotas, filter_entries, node_resource_name, core_resources, quantity_at,
}

module _ (api : QuantityApi) where
  -- What the requests of one update return: the allocatable resources of the host node, the hard limits
  -- of the quotas, the virtual nodes, the allocatable resources of every host node, and whether the
  -- virtual node can be read.
  pub record Observed : Type 0 where
    pub host_node : ApiResult (ResourceList api)
    pub quotas : ApiResult (List (ResourceList api))
    pub virtual_nodes : ApiResult (List Text)
    pub host_nodes : ApiResult (List (Text × ResourceList api))
    pub virtual_node : ApiResult (Unit {0})

  -- Each virtual node, without resources.
  unfoldable pub virtual_map : ResourceMap api → List Text → ResourceMap api
  unfolding insert
  virtual_map m [] = m
  virtual_map m (n ∷ ns) = virtual_map (insert n [] m) ns

  -- The host nodes that are virtual nodes too.
  unfoldable pub host_map :
      ResourceMap api → ResourceMap api → List (Text × ResourceList api) → ResourceMap api
  unfolding insert has_key
  host_map virt m [] = m
  host_map virt m ((n, r) ∷ ns) = host_map virt (if has_key n virt then insert n r m else m) ns

  module _ (names : ResourceNames) where
    -- What each node gets.
    unfoldable pub shares :
        List (ResourceList api) → List Text → List (Text × ResourceList api) → ResourceMap api
    unfolding virtual_map host_map merge_quotas filter_quotas distribute_quotas
    shares quotas virtual_nodes host_nodes =
        let virt = virtual_map [] virtual_nodes in
        distribute_quotas api names (host_map virt [] host_nodes) virt
          (filter_quotas api names (merge_quotas api quotas))

    -- The allocatable resources, overwritten by the share of the node.
    unfoldable pub limited :
        Text
        → ResourceList api
        → List (ResourceList api)
        → List Text
        → List (Text × ResourceList api)
        → ResourceList api
    unfolding shares copy lookup
    limited node allocatable quotas virtual_nodes host_nodes =
        copy allocatable (or_else [] (lookup node (shares quotas virtual_nodes host_nodes)))

    -- The reads that are made where there are quotas.
    unfoldable pub limited_by :
        Text
        → ResourceList api
        → List (ResourceList api)
        → ApiResult (List Text)
        → ApiResult (List (Text × ResourceList api))
        → Option (ResourceList api)
    unfolding limited
    limited_by node allocatable [] virtual_nodes host_nodes = some allocatable
    limited_by node allocatable (q ∷ qs) (err e) host_nodes = none
    limited_by node allocatable (q ∷ qs) (ok vns) (err e) = none
    limited_by node allocatable (q ∷ qs) (ok vns) (ok hns) =
        some (limited node allocatable (q ∷ qs) vns hns)

    unfoldable pub if_readable : ApiResult (Unit {0}) → ResourceList api → Option (ResourceList api)
    if_readable (err e) r = none
    if_readable (ok _) r = some r

    unfoldable pub with_quotas :
        Text
        → Observed
        → ResourceList api
        → ApiResult (List (ResourceList api))
        → Option (ResourceList api)
    unfolding limited_by if_readable
    with_quotas node o allocatable (err e) = none
    with_quotas node o allocatable (ok quotas) =
        elim (limited_by node allocatable quotas o.virtual_nodes o.host_nodes) [
          | none ↦ none
          | some r ↦ if_readable o.virtual_node r
        ]

    unfoldable pub with_node :
        Text → Observed → ApiResult (ResourceList api) → Option (ResourceList api)
    unfolding with_quotas
    with_node node o (err e) = none
    with_node node o (ok allocatable) = with_quotas node o allocatable o.quotas

    -- `updateNodeCapacity`: what is written as the capacity and as the allocatable resources of the
    -- virtual node, and nothing where a read fails.
    unfoldable pub update_node_capacity : Text → Observed → Option (ResourceList api)
    unfolding with_node
    update_node_capacity node o = with_node node o o.host_node

  module _ (laws : QuantityLaws api) (names : ResourceNames) where
    -- The keys of a filtered quota are distinct, as `distributeQuotas` needs them.
    filter_entries-NodupKeys :
        (kept rs : ResourceList api) → NodupKeys kept → NodupKeys (filter_entries api names kept rs)
    unfolding filter_entries
    filter_entries-NodupKeys kept [] h = h
    filter_entries-NodupKeys kept ((n, q) ∷ rs) h =
        elim (Bool-cases (contains (core_resources names) n)) [
          | inl e ↦ rw e (filter_entries-NodupKeys kept rs h)
          | inr e ↦ rw e (
              filter_entries-NodupKeys (insert (node_resource_name n) q kept) rs
                (insert-NodupKeys (node_resource_name n) q kept h))
        ]

    virtual_map-NodupKeys :
        (m : ResourceMap api) (ns : List Text) → NodupKeys m → NodupKeys (virtual_map m ns)
    unfolding virtual_map
    virtual_map-NodupKeys m [] h = h
    virtual_map-NodupKeys m (n ∷ ns) h =
        virtual_map-NodupKeys (insert n [] m) ns (insert-NodupKeys n [] m h)

    virtual_map_empty :
        (m : ResourceMap api) (ns : List Text) (vn rn : Text)
        → quantity_at api vn rn m ≡ api.zero_quantity
        → quantity_at api vn rn (virtual_map m ns) ≡ api.zero_quantity
    unfolding virtual_map quantity_at lookup
    virtual_map_empty m [] vn rn h = h
    virtual_map_empty m (n ∷ ns) vn rn h =
        virtual_map_empty (insert n [] m) ns vn rn (ground (arith, lookup-insert n vn [] m))

    virtual_map-IsFresh : (ns : List Text) → IsFresh api laws (virtual_map [] ns)
    unfolding quantity_at lookup
    virtual_map-IsFresh ns = record {
      once = virtual_map-NodupKeys [] ns tt;
      empty = λ vn rn. virtual_map_empty [] ns vn rn refl;
    }

    -- Whatever quotas and nodes one update of the capacity reads: in the map that `distributeQuotas`
    -- makes of them, no virtual node has more of a resource that a quota limits than its host node.
    pub shares-le-host :
        (quotas : List (ResourceList api)) (vns : List Text) (hns : List (Text × ResourceList api))
        (rn vn : Text)
        → has_key rn (filter_quotas api names (merge_quotas api quotas)) ≡ true
        → let host = host_map (virtual_map [] vns) [] hns in
          let limits = filter_quotas api names (merge_quotas api quotas) in
          let um = is_milli api laws names host (virtual_map [] vns) limits rn in
          amount api laws um rn (shares names quotas vns hns) vn ≤ host_amount api um rn host vn
    unfolding shares filter_quotas
    shares-le-host quotas vns hns rn vn =
        distribute_quotas-le-host api laws names (host_map (virtual_map [] vns) [] hns)
          (virtual_map [] vns) _ rn vn (filter_entries-NodupKeys [] (merge_quotas api quotas) tt)
          (virtual_map-IsFresh vns)
