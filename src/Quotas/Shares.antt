-- ===== src/Quotas/Shares.antt =====
-- The whole map that `distributeQuotas` returns (k3k-kubelet/provider/configure_capacity.go).
use k3k.Prelude.{
  Text, text_eq, text_eq_iff, Dict, lookup, has_key, NodupKeys, contains, ◌+◌, ◌≤◌, min, ◌≡◌, refl,
  ◌∙◌, Bool, true, false, some, List, [], ◌∷◌, arith, Bool-cases, inl, inr,
}
use k3k.Quotas.{
  QuantityApi, ResourceList, ResourceMap, ResourceNames, cap_of, measure, quantity_at,
  eligible_caps, keys, distribute_resource, distribute_each, fill, distribute_quotas,
}
use k3k.Quotas.Fill.{fill_frame, fill_keeps}
use k3k.Quotas.Visit.{QuantityLaws, amount}
use k3k.Quotas.Sums.{sum_over}
use k3k.Quotas.Distribution.{
  host_amount, NodupTexts, milli, resource-le-host, resource_sum, resource_frame,
}

module _ (api : QuantityApi) (laws : QuantityLaws api) where
  module _ (names : ResourceNames) (host : ResourceMap api) (vns : List Text) where
    each_frame :
        (rn vn : Text) (quotas : ResourceList api) (m : ResourceMap api)
        → has_key rn quotas ≡ false
        → quantity_at api vn rn (distribute_each api names host vns quotas m)
          ≡ quantity_at api vn rn m
    unfolding distribute_each has_key
    each_frame rn vn [] m h = refl
    each_frame rn vn ((rn', q) ∷ quotas) m h = ground (
      arith,
      each_frame rn vn quotas (distribute_resource api names host vns rn' q m),
      resource_frame api laws names host vns rn' rn vn q m,
    )

    each-le-host :
        (rn vn : Text) (quotas : ResourceList api) (m : ResourceMap api)
        → NodupKeys quotas
        → let um = milli api laws names host vns rn in
          amount api laws um rn (distribute_each api names host vns quotas m) vn
          ≤ amount api laws um rn m vn + host_amount api um rn host vn
    unfolding distribute_each
    each-le-host rn vn [] m d = omega arith
    each-le-host rn vn ((rn', q) ∷ quotas) m d = elim (Bool-cases (text_eq rn' rn)) [
      | inl e ↦
          let same = (text_eq_iff rn' rn).0 e in
          ground (
            arith,
            same,
            resource-le-host api laws names host vns rn vn q m,
            each_frame rn vn quotas (distribute_resource api names host vns rn' q m),
          )
      | inr e ↦ ground (
        arith,
        resource_frame api laws names host vns rn' rn vn q m e,
        each-le-host rn vn quotas (distribute_resource api names host vns rn' q m) d.1,
      )
    ]

    sum_over_same :
        (um : Bool) (rn : Text) (m m' : ResourceMap api) (ks : List Text)
        → ((vn : Text) → quantity_at api vn rn m ≡ quantity_at api vn rn m')
        → sum_over (amount api laws um rn m) ks ≡ sum_over (amount api laws um rn m') ks
    sum_over_same um rn m m' [] h = refl
    sum_over_same um rn m m' (v ∷ ks) h = ground (arith, h v, sum_over_same um rn m m' ks h)

    each_sum :
        (rn : Text) (q : api.Quantity) (quotas : ResourceList api) (m : ResourceMap api)
        → NodupTexts api vns
        → NodupKeys quotas
        → lookup rn quotas ≡ some q
        → let um = milli api laws names host vns rn in
          let caps = eligible_caps api um rn host vns in
          let ks = keys api caps in
          sum_over (amount api laws um rn (distribute_each api names host vns quotas m)) ks
          ≡ sum_over (amount api laws um rn m) ks
            + min (measure api um q) (sum_over (λ vn. cap_of vn caps) ks)
    unfolding distribute_each lookup
    each_sum rn q [] m dv d h = cc
    each_sum rn q ((rn', q') ∷ quotas) m dv d h = elim (Bool-cases (text_eq rn' rn)) [
      | inl e ↦
          let um = milli api laws names host vns rn in
          let ks = keys api (eligible_caps api um rn host vns) in
          let m' = distribute_resource api names host vns rn' q' m in
          let same = (text_eq_iff rn' rn).0 e in
          sum_over_same um rn (distribute_each api names host vns quotas m') m' ks
            (λ vn. each_frame rn vn quotas m' (rw same at d.0))
          ∙ rw (← same) (ground (arith, resource_sum api laws names host vns rn' q' m dv))
      | inr e ↦
          let um = milli api laws names host vns rn in
          let ks = keys api (eligible_caps api um rn host vns) in
          let m' = distribute_resource api names host vns rn' q' m in
          omega (
            arith,
            each_sum rn q quotas m' dv d.1 (ground arith),
            sum_over_same um rn m' m ks
                (λ vn. resource_frame api laws names host vns rn' rn vn q' m e),
          )
    ]

  contains-keys {ℓ} : {V : Type ℓ} (k : Text) (m : Dict V) → contains (keys api m) k ≡ has_key k m
  unfolding contains keys has_key
  contains-keys k [] = refl
  contains-keys k ((j, n) ∷ m) = ground (arith, contains-keys k m)

  NodupTexts-keys {ℓ} : {V : Type ℓ} (m : Dict V) → NodupKeys m → NodupTexts api (keys api m)
  unfolding keys
  NodupTexts-keys [] d = tt
  NodupTexts-keys ((k, v) ∷ m) d = (contains-keys k m ∙ d.0, NodupTexts-keys m d.1)

  -- `virtResourceMap` as `updateNodeCapacity` builds it: each virtual node once, with an empty list.
  pub record IsFresh (virt : ResourceMap api) : Type 0 where
    pub once : NodupKeys virt
    pub empty : (vn rn : Text) → quantity_at api vn rn virt ≡ api.zero_quantity

  measure_zero : (um : Bool) → measure api um api.zero_quantity ≡ 0
  unfolding measure
  measure_zero true = laws.milli_value-zero_quantity
  measure_zero false = laws.value-zero_quantity

  sum_over_zero :
      (um : Bool) (rn : Text) (m : ResourceMap api) (ks : List Text)
      → ((vn : Text) → quantity_at api vn rn m ≡ api.zero_quantity)
      → sum_over (amount api laws um rn m) ks ≡ 0
  sum_over_zero um rn m [] h = refl
  sum_over_zero um rn m (v ∷ ks) h =
      ground (arith, h v, measure_zero um, sum_over_zero um rn m ks h)

  module _ (names : ResourceNames) (host virt : ResourceMap api) (quotas : ResourceList api) where
    abbrev pub is_milli : Text → Bool
    is_milli rn = milli api laws names host (keys api virt) rn

    -- No virtual node reports more of a resource limited by a quota than its host node has: if the
    -- virtual nodes begin empty and no resource has two quotas, then after `distributeQuotas` the amount
    -- at any name `vn` is at most the host node's amount.
    pub distribute_quotas-le-host :
        (rn vn : Text)
        → NodupKeys quotas
        → IsFresh virt
        → has_key rn quotas ≡ true
        → amount api laws (is_milli rn) rn (distribute_quotas api names host virt quotas) vn
          ≤ host_amount api (is_milli rn) rn host vn
    unfolding distribute_quotas
    distribute_quotas-le-host rn vn d fresh limited =
        let filled = fill api host quotas (keys api virt) virt in
        ground (
          arith,
          each-le-host names host (keys api virt) rn vn quotas filled d,
          fill_frame api laws host vn rn quotas (keys api virt) virt limited,
          fresh.empty vn rn,
          measure_zero (is_milli rn),
        )

    -- A quota is given out whole where the hosts have room for it: if the virtual nodes begin empty and
    -- no resource has two quotas, then over the virtual nodes whose host has the resource, the reported
    -- amounts add up to the smaller of the quota and the hosts' total.
    pub distribute_quotas_sum :
        (rn : Text) (q : api.Quantity)
        → NodupKeys quotas
        → IsFresh virt
        → lookup rn quotas ≡ some q
        → let caps = eligible_caps api (is_milli rn) rn host (keys api virt) in
          let nodes = keys api caps in
          sum_over
            (amount api laws (is_milli rn) rn (distribute_quotas api names host virt quotas))
            nodes
          ≡ min (measure api (is_milli rn) q) (sum_over (λ vn. cap_of vn caps) nodes)
    unfolding distribute_quotas has_key
    distribute_quotas_sum rn q d fresh e =
        let vns = keys api virt in
        let filled = fill api host quotas vns virt in
        let nodes = keys api (eligible_caps api (is_milli rn) rn host vns) in
        omega (
          arith,
          each_sum names host vns rn q quotas filled (NodupTexts-keys virt fresh.once) d e,
          sum_over_zero (is_milli rn) rn filled nodes (λ vn.
              fill_frame api laws host vn rn quotas vns virt (rw (e, has_key)) ∙ fresh.empty vn rn),
        )

    -- A resource that no quota limits is reported by each virtual node exactly as its host node has it,
    -- where the host node lists no resource twice.
    pub distribute_quotas_unlimited :
        (rn vn : Text) (q : api.Quantity) (r : ResourceList api)
        → has_key rn quotas ≡ false
        → has_key vn virt ≡ true
        → lookup vn host ≡ some r
        → NodupKeys r
        → lookup rn r ≡ some q
        → quantity_at api vn rn (distribute_quotas api names host virt quotas) ≡ q
    unfolding distribute_quotas
    distribute_quotas_unlimited rn vn q r free node here nodup has =
        let vns = keys api virt in
        each_frame names host vns rn vn quotas (fill api host quotas vns virt) free
        ∙ fill_keeps api laws host vn rn q quotas r here nodup free has vns virt
            (inr (contains-keys vn virt ∙ node))
