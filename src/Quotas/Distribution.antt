-- ===== src/Quotas/Distribution.antt =====
-- `distributeQuotas` as a whole: every quota in turn over the same virtual and host nodes.
use k3k.Prelude.{
  Text, text_eq, text_eq_iff, text_eq_refl, Dict, lookup, has_key, NodupKeys, contains, sort_texts,
  contains-sort_texts, ℕ, zero, suc, ◌+◌, ◌/◌, ◌≤◌, ◌<◌, min, ◌≡◌, refl, sym, ◌∙◌, Bool, true,
  false, none, some, List, [], ◌∷◌, arith, if◌then◌else◌, length, All,
}
use k3k.Quotas.{
  QuantityApi, ResourceMap, ResourceNames, milli_scale_resources, or_else, cap_of, measure,
  quantity_at, Spread, spread, eligible_caps, keys, spread_start, distribute_resource, cycle,
}
use k3k.Quotas.Visit.{QuantityLaws, amount, visit_nodes_frame}
use k3k.Quotas.Cycles.{first_cycle, IsCovered, spread_conserves}
use k3k.Quotas.Sums.{sum_over, contains-keys, AreKeys, spread_sum}

AreKeys_self :
    (ks xs : List Text)
    → ((x : Text) → contains xs x ≡ true → contains ks x ≡ true)
    → All (λ vn. contains ks vn ≡ true) xs
unfolding contains
AreKeys_self ks [] h = tt
AreKeys_self ks (x ∷ xs) h =
    (h x (ground (arith, text_eq_refl x)), AreKeys_self ks xs (λ y e. h y (ground (arith, e))))

module _ (api : QuantityApi) where
  -- What the host node has of a resource, 0 where it has none.
  pub host_amount : Bool → Text → ResourceMap api → Text → ℕ
  host_amount um rn host vn = elim (lookup rn (or_else [] (lookup vn host))) [
    | none ↦ 0
    | some q ↦ measure api um q
  ]

  pub cap_of-eligible_caps :
      (um : Bool) (rn : Text) (host : ResourceMap api) (vns : List Text) (vn : Text)
      → cap_of vn (eligible_caps api um rn host vns)
        ≡ (if contains vns vn then host_amount um rn host vn else 0)
  unfolding cap_of eligible_caps contains host_amount
  cap_of-eligible_caps um rn host [] vn = refl
  cap_of-eligible_caps um rn host (v ∷ vns) vn =
      ground (arith, text_eq_iff v vn, cap_of-eligible_caps um rn host vns vn)

  has_key-eligible_caps :
      (um : Bool) (rn : Text) (host : ResourceMap api) (vns : List Text) (vn : Text)
      → contains vns vn ≡ false
      → has_key vn (eligible_caps api um rn host vns) ≡ false
  unfolding has_key eligible_caps contains
  has_key-eligible_caps um rn host [] vn h = refl
  has_key-eligible_caps um rn host (v ∷ vns) vn h =
      ground (arith, has_key-eligible_caps um rn host vns vn)

  -- No name stands twice.
  abbrev pub NodupTexts : List Text → Type 0
  NodupTexts [] = Unit {0}
  NodupTexts (x ∷ xs) = (contains xs x ≡ false) × NodupTexts xs

  eligible_caps-NodupKeys :
      (um : Bool) (rn : Text) (host : ResourceMap api) (vns : List Text)
      → NodupTexts vns
      → NodupKeys (eligible_caps api um rn host vns)
  unfolding eligible_caps
  eligible_caps-NodupKeys um rn host [] d = tt
  eligible_caps-NodupKeys um rn host (v ∷ vns) d =
      ground (arith, has_key-eligible_caps um rn host vns v, eligible_caps-NodupKeys um rn host vns)

  has_key_of_pos : (vn : Text) (caps : Dict ℕ) → 0 < cap_of vn caps → has_key vn caps ≡ true
  unfolding cap_of has_key
  has_key_of_pos vn caps h = ground arith

  module _ (laws : QuantityLaws api) where
    start-IsCovered :
        (um : Bool) (rn : Text) (total : ℕ) (host : ResourceMap api) (vns : List Text)
        (m : ResourceMap api)
        → IsCovered api laws (spread_start api um rn total host vns m)
    unfolding spread_start
    start-IsCovered um rn total host vns m vn pos =
        let caps = eligible_caps api um rn host vns in
        contains-sort_texts vn (keys api caps)
        ∙ contains-keys api vn caps
        ∙ has_key_of_pos vn caps pos

    start-AreKeys :
        (um : Bool) (rn : Text) (total : ℕ) (host : ResourceMap api) (vns : List Text)
        (m : ResourceMap api)
        → let s = spread_start api um rn total host vns m in
          AreKeys api (keys api s.host_cap) s.eligible
    unfolding spread_start
    start-AreKeys um rn total host vns m =
        let caps = eligible_caps api um rn host vns in
        AreKeys_self (keys api caps) (sort_texts (keys api caps))
          (λ x e. sym (contains-sort_texts x (keys api caps)) ∙ e)

    spread_frame :
        (fuel : ℕ) (um : Bool) (rn rn' : Text) (f : api.Format) (vn : Text) (s : Spread api)
        → text_eq rn rn' ≡ false
        → quantity_at api vn rn' (spread api fuel um rn f s).resource_map
          ≡ quantity_at api vn rn' s.resource_map
    unfolding spread cycle
    spread_frame zero um rn rn' f vn s h = refl
    spread_frame (suc fuel) um rn rn' f vn s h = ground (
      arith,
      spread_frame fuel um rn rn' f vn (cycle api um rn f s),
      visit_nodes_frame api laws um rn rn' f (s.total / length s.eligible) s.eligible vn
          (first_cycle api s),
    )

    module _ (names : ResourceNames) (host : ResourceMap api) (vns : List Text) where
      abbrev pub milli : Text → Bool
      milli rn = contains (milli_scale_resources names) rn

      -- One resource: no node is given more than its host has of it.
      pub resource-le-host :
          (rn vn : Text) (q : api.Quantity) (m : ResourceMap api)
          → amount api laws (milli rn) rn (distribute_resource api names host vns rn q m) vn
            ≤ amount api laws (milli rn) rn m vn + host_amount (milli rn) rn host vn
      unfolding distribute_resource spread_start
      resource-le-host rn vn q m =
          let s = spread_start api (milli rn) rn (measure api (milli rn) q) host vns m in
          ground (
            arith,
            cap_of-eligible_caps (milli rn) rn host vns vn,
            spread_conserves api laws (s.total + length s.eligible) (milli rn) rn (api.format q) vn
                s,
          )

      -- One resource: all nodes together are given the quota, or all that the hosts have.
      pub resource_sum :
          (rn : Text) (q : api.Quantity) (m : ResourceMap api)
          → NodupTexts vns
          → let ks = keys api (eligible_caps api (milli rn) rn host vns) in
            let caps = eligible_caps api (milli rn) rn host vns in
            sum_over
              (amount api laws (milli rn) rn (distribute_resource api names host vns rn q m))
              ks
            ≡ sum_over (amount api laws (milli rn) rn m) ks
              + min (measure api (milli rn) q) (sum_over (λ vn. cap_of vn caps) ks)
      unfolding distribute_resource spread_start
      resource_sum rn q m d =
          let s = spread_start api (milli rn) rn (measure api (milli rn) q) host vns m in
          spread_sum api laws (s.total + length s.eligible) (milli rn) rn (api.format q) s
            (omega arith) (start-IsCovered (milli rn) rn s.total host vns m)
            (eligible_caps-NodupKeys (milli rn) rn host vns d)
            (start-AreKeys (milli rn) rn s.total host vns m)

      pub resource_frame :
          (rn rn' vn : Text) (q : api.Quantity) (m : ResourceMap api)
          → text_eq rn rn' ≡ false
          → quantity_at api vn rn' (distribute_resource api names host vns rn q m)
            ≡ quantity_at api vn rn' m
      unfolding distribute_resource spread_start
      resource_frame rn rn' vn q m h =
          let s = spread_start api (milli rn) rn (measure api (milli rn) q) host vns m in
          spread_frame (s.total + length s.eligible) (milli rn) rn rn' (api.format q) vn s h
