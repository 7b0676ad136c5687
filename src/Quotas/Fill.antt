-- ===== src/Quotas/Fill.antt =====
-- The loop of `distributeQuotas` that fills out the resources which no quota limits.
use k3k.Prelude.{
  Text, text_eq, text_eq_iff, text_eq_refl, lookup, has_key, NodupKeys, contains, ◌≡◌, refl, ◌∙◌,
  true, false, Option, none, some, List, [], ◌∷◌, arith, if◌then◌else◌, ◌&&◌, ◌⊎◌,
}
use k3k.Quotas.{
  QuantityApi, ResourceList, ResourceMap, quantity_at, put, fill_node, fill_found, fill,
}
use k3k.Quotas.Visit.{QuantityLaws, quantity_at-put}

module _ (api : QuantityApi) (laws : QuantityLaws api) where
  fill_node_frame :
      (vn vn' rn : Text) (quotas r : ResourceList api) (m : ResourceMap api)
      → has_key rn quotas ≡ true
      → quantity_at api vn' rn (fill_node api vn quotas r m) ≡ quantity_at api vn' rn m
  unfolding fill_node
  fill_node_frame vn vn' rn quotas [] m h = refl
  fill_node_frame vn vn' rn quotas ((rn', q) ∷ r) m h =
      let m' = if has_key rn' quotas then m else put api vn rn' q m in
      ground (
        arith,
        fill_node_frame vn vn' rn quotas r m' h,
        text_eq_iff rn' rn,
        quantity_at-put api vn rn' vn' rn q m,
      )

  fill_found_frame :
      (v vn rn : Text) (quotas : ResourceList api) (o : Option (ResourceList api))
      (m : ResourceMap api)
      → has_key rn quotas ≡ true
      → quantity_at api vn rn (fill_found api v quotas o m) ≡ quantity_at api vn rn m
  unfolding fill_found
  fill_found_frame v vn rn quotas none m h = refl
  fill_found_frame v vn rn quotas (some r) m h = fill_node_frame v vn rn quotas r m h

  -- The fill writes no resource that a quota limits.
  pub fill_frame :
      (host : ResourceMap api) (vn rn : Text) (quotas : ResourceList api) (vns : List Text)
      (m : ResourceMap api)
      → has_key rn quotas ≡ true
      → quantity_at api vn rn (fill api host quotas vns m) ≡ quantity_at api vn rn m
  unfolding fill
  fill_frame host vn rn quotas [] m h = refl
  fill_frame host vn rn quotas (v ∷ vns) m h =
      fill_frame host vn rn quotas vns (fill_found api v quotas (lookup v host) m) h
      ∙ fill_found_frame v vn rn quotas (lookup v host) m h

  fill_node_other :
      (v vn rn : Text) (quotas r : ResourceList api) (m : ResourceMap api)
      → (text_eq v vn && has_key rn r) ≡ false
      → quantity_at api vn rn (fill_node api v quotas r m) ≡ quantity_at api vn rn m
  unfolding fill_node has_key
  fill_node_other v vn rn quotas [] m h = refl
  fill_node_other v vn rn quotas ((rn', q) ∷ r) m h =
      let m' = if has_key rn' quotas then m else put api v rn' q m in
      ground (arith, fill_node_other v vn rn quotas r m', quantity_at-put api v rn' vn rn q m)

  fill_node_gives :
      (vn rn : Text) (q : api.Quantity) (quotas r : ResourceList api) (m : ResourceMap api)
      → NodupKeys r
      → has_key rn quotas ≡ false
      → lookup rn r ≡ some q
      → quantity_at api vn rn (fill_node api vn quotas r m) ≡ q
  unfolding fill_node lookup
  fill_node_gives vn rn q quotas [] m d h e = cc
  fill_node_gives vn rn q quotas ((rn', q') ∷ r) m d h e =
      let m' = if has_key rn' quotas then m else put api vn rn' q' m in
      ground (
        arith,
        fill_node_gives vn rn q quotas r m',
        fill_node_other vn vn rn quotas r m',
        quantity_at-put api vn rn' vn rn q' m,
        text_eq_iff rn' rn,
        text_eq_refl vn,
      )

  module _ (host : ResourceMap api) (vn rn : Text) (q : api.Quantity) (quotas r : ResourceList api)
      (here : lookup vn host ≡ some r) (nodup : NodupKeys r) (free : has_key rn quotas ≡ false)
      (has : lookup rn r ≡ some q) where
    fill_found_keeps :
        (v : Text) (o : Option (ResourceList api)) (m : ResourceMap api)
        → text_eq v vn ≡ false
        → quantity_at api vn rn (fill_found api v quotas o m) ≡ quantity_at api vn rn m
    unfolding fill_found
    fill_found_keeps v none m e = refl
    fill_found_keeps v (some r') m e = fill_node_other v vn rn quotas r' m (rw e)

    fill_found_here :
        (m : ResourceMap api)
        → quantity_at api vn rn (fill_found api vn quotas (lookup vn host) m) ≡ q
    unfolding fill_found
    fill_found_here m = ground (arith, fill_node_gives vn rn q quotas r m nodup free has)

    pub fill_keeps :
        (vns : List Text) (m : ResourceMap api)
        → ((quantity_at api vn rn m ≡ q) ⊎ (contains vns vn ≡ true))
        → quantity_at api vn rn (fill api host quotas vns m) ≡ q
    unfolding fill contains
    fill_keeps [] m h = ground arith
    fill_keeps (v ∷ vns) m h =
        fill_keeps vns (fill_found api v quotas (lookup v host) m) (
          ground (arith, text_eq_iff v vn, fill_found_here m, fill_found_keeps v (lookup v host) m))
