-- ===== src/Quotas/Cycles.antt =====
-- The redistribution loop of one resource (`distributeQuotas` of
-- k3k-kubelet/provider/configure_capacity.go): its measure, and what each cycle keeps.
use k3k.Prelude.{
  Text, Dict, lookup, contains, ℕ, zero, suc, ◌+◌, ◌-◌, ◌*◌, ◌/◌, ◌%◌, ◌≤◌, ◌<◌, ◌≡◌, refl, ◌⊎◌,
  inl, inr, Bool, true, false, List, [], ◌∷◌, arith, length, Bool-cases, has_key, NodupKeys,
  insert-NodupKeys, text_eq_refl, text_eq_iff,
}
use k3k.Quotas.{
  QuantityApi, cap_of, Cycle, visit_node, node_quantity, visit_nodes, Spread, cycle, goes_on,
  spread,
}
use k3k.Quotas.Visit.{
  QuantityLaws, sum_caps, amount, visit_nodes_conserves, visit_nodes_total, visit_nodes-Covers,
  visit_nodes_progress,
}

-- No capacity is left in a map in which no key has any.
sum_caps_zero :
    (caps : Dict ℕ) → NodupKeys caps → ((vn : Text) → cap_of vn caps ≡ 0) → sum_caps caps ≡ 0
unfolding sum_caps cap_of lookup has_key
sum_caps_zero [] d h = refl
sum_caps_zero ((k, n) ∷ m) d h =
    ground (
      arith,
      h k,
      text_eq_refl k,
      sum_caps_zero m d.1 (λ vn. ground (arith, h vn, text_eq_iff k vn)),
    )

module _ (api : QuantityApi) where
  -- The state in which a pass over the eligible nodes begins.
  abbrev pub first_cycle : Spread api → Cycle api
  first_cycle s = record {
    total = s.total;
    remainder = s.total % length s.eligible;
    host_cap = s.host_cap;
    resource_map = s.resource_map;
    remaining = [];
  }

  leftover_cases : (s : Spread api) → goes_on api s ≡ false → (s.total ≡ 0) ⊎ (s.eligible ≡ [])
  unfolding goes_on
  leftover_cases s e = ground arith

  no_cap :
      (s : Spread api)
      → s.eligible ≡ []
      → (vn : Text) → (0 < cap_of vn s.host_cap → contains s.eligible vn ≡ true)
      → cap_of vn s.host_cap ≡ 0
  unfolding contains
  no_cap s e vn h = ground arith

  visit_nodes-NodupKeys :
      (um : Bool) (rn : Text) (f : api.Format) (per : ℕ) (vns : List Text) (c : Cycle api)
      → NodupKeys c.host_cap
      → NodupKeys (visit_nodes api um rn f per vns c).host_cap
  unfolding visit_nodes
  visit_nodes-NodupKeys um rn f per [] c h = h
  visit_nodes-NodupKeys um rn f per (vn ∷ vns) c h =
      visit_nodes-NodupKeys um rn f per vns (visit_node api um rn f per vn c) (
        unfold visit_node in
        insert-NodupKeys vn (cap_of vn c.host_cap - node_quantity api per vn c) c.host_cap h)

module _ (api : QuantityApi) (laws : QuantityLaws api) where
  -- Every node that keeps capacity is eligible.
  abbrev pub IsCovered : Spread api → Type 0
  IsCovered s = (vn : Text) → 0 < cap_of vn s.host_cap → contains s.eligible vn ≡ true

  even_shares : (total n : ℕ) → n * (total / n) + total % n ≤ total
  even_shares total n = grind arith

  cycle_total :
      (um : Bool) (rn : Text) (f : api.Format) (s : Spread api)
      → let s' = cycle api um rn f s in
        s'.total + sum_caps s.host_cap ≡ s.total + sum_caps s'.host_cap
  unfolding cycle
  cycle_total um rn f s =
      visit_nodes_total api laws um rn f (s.total / length s.eligible) s.eligible
        (first_cycle api s) (even_shares s.total (length s.eligible))

  cycle_conserves :
      (um : Bool) (rn : Text) (f : api.Format) (vn : Text) (s : Spread api)
      → let s' = cycle api um rn f s in
        amount api laws um rn s'.resource_map vn + cap_of vn s'.host_cap
        ≡ amount api laws um rn s.resource_map vn + cap_of vn s.host_cap
  unfolding cycle
  cycle_conserves um rn f vn s =
      visit_nodes_conserves api laws um rn f (s.total / length s.eligible) s.eligible vn
        (first_cycle api s)

  cycle-IsCovered :
      (um : Bool) (rn : Text) (f : api.Format) (s : Spread api)
      → IsCovered s
      → IsCovered (cycle api um rn f s)
  unfolding cycle contains
  cycle-IsCovered um rn f s h w pos =
      visit_nodes-Covers api laws um rn f (s.total / length s.eligible) s.eligible
        (first_cycle api s) (λ v p. ground (arith, h v p)) w pos

  positive_share : (total n : ℕ) → 0 < total → 0 < n → 0 < total / n + total % n
  positive_share total n p q = grind arith

  cycle_progress :
      (um : Bool) (rn : Text) (f : api.Format) (s : Spread api)
      → goes_on api s ≡ true
      → (cycle api um rn f s).total + length (cycle api um rn f s).eligible
        < s.total + length s.eligible
  unfolding cycle goes_on
  cycle_progress um rn f s h =
      let n = length s.eligible in
      ground (
        arith,
        positive_share s.total n,
        visit_nodes_progress api laws um rn f (s.total / n) s.eligible (first_cycle api s),
      )

  -- With fuel for each unit of quota and each eligible node, the redistribution loop of
  -- `distributeQuotas` ends by its own test.
  pub spread_ends :
      (fuel : ℕ) (um : Bool) (rn : Text) (f : api.Format) (s : Spread api)
      → s.total + length s.eligible ≤ fuel
      → goes_on api (spread api fuel um rn f s) ≡ false
  unfolding spread
  spread_ends zero um rn f s h = unfold goes_on in ground arith
  spread_ends (suc fuel) um rn f s h = elim (Bool-cases (goes_on api s)) [
    | inl more ↦ rw more (
        spread_ends fuel um rn f (cycle api um rn f s)
          (omega (arith, cycle_progress um rn f s more)))
    | inr done ↦ rw done done
  ]

  pub spread_total :
      (fuel : ℕ) (um : Bool) (rn : Text) (f : api.Format) (s : Spread api)
      → let s' = spread api fuel um rn f s in
        s'.total + sum_caps s.host_cap ≡ s.total + sum_caps s'.host_cap
  unfolding spread
  spread_total zero um rn f s = refl
  spread_total (suc fuel) um rn f s =
      ground (arith, cycle_total um rn f s, spread_total fuel um rn f (cycle api um rn f s))

  pub spread_conserves :
      (fuel : ℕ) (um : Bool) (rn : Text) (f : api.Format) (vn : Text) (s : Spread api)
      → let s' = spread api fuel um rn f s in
        amount api laws um rn s'.resource_map vn + cap_of vn s'.host_cap
        ≡ amount api laws um rn s.resource_map vn + cap_of vn s.host_cap
  unfolding spread
  spread_conserves zero um rn f vn s = refl
  spread_conserves (suc fuel) um rn f vn s =
      ground (
        arith,
        cycle_conserves um rn f vn s,
        spread_conserves fuel um rn f vn (cycle api um rn f s),
      )

  spread-IsCovered :
      (fuel : ℕ) (um : Bool) (rn : Text) (f : api.Format) (s : Spread api)
      → IsCovered s
      → IsCovered (spread api fuel um rn f s)
  unfolding spread
  spread-IsCovered zero um rn f s h = h
  spread-IsCovered (suc fuel) um rn f s h = elim (Bool-cases (goes_on api s)) [
    | inl more ↦
        rw more (spread-IsCovered fuel um rn f (cycle api um rn f s) (cycle-IsCovered um rn f s h))
    | inr done ↦ rw done h
  ]

  -- At the end of the loop the quota is used up, or no node has any capacity left.
  pub spread_full :
      (fuel : ℕ) (um : Bool) (rn : Text) (f : api.Format) (s : Spread api)
      → s.total + length s.eligible ≤ fuel
      → IsCovered s
      → let s' = spread api fuel um rn f s in
        (s'.total ≡ 0) ⊎ ((vn : Text) → cap_of vn s'.host_cap ≡ 0)
  spread_full fuel um rn f s h covered =
      drained (spread api fuel um rn f s) (spread_ends fuel um rn f s h)
        (spread-IsCovered fuel um rn f s covered)
    where
      drained :
          (s' : Spread api)
          → goes_on api s' ≡ false
          → IsCovered s'
          → (s'.total ≡ 0) ⊎ ((vn : Text) → cap_of vn s'.host_cap ≡ 0)
      drained s' e c = elim (leftover_cases api s' e) [
        | inl z ↦ inl z
        | inr none_left ↦ inr (λ vn. no_cap api s' none_left vn (c vn))
      ]

  pub spread-NodupKeys :
      (fuel : ℕ) (um : Bool) (rn : Text) (f : api.Format) (s : Spread api)
      → NodupKeys s.host_cap
      → NodupKeys (spread api fuel um rn f s).host_cap
  unfolding spread
  spread-NodupKeys zero um rn f s h = h
  spread-NodupKeys (suc fuel) um rn f s h = elim (Bool-cases (goes_on api s)) [
    | inl more ↦ rw more (
        spread-NodupKeys fuel um rn f (cycle api um rn f s) (
          unfold cycle in
          visit_nodes-NodupKeys api um rn f (s.total / length s.eligible) s.eligible
            (first_cycle api s) h))
    | inr done ↦ rw done h
  ]

  -- What is left over of the quota is what exceeds all the capacities together.
  pub spread_leftover :
      (fuel : ℕ) (um : Bool) (rn : Text) (f : api.Format) (s : Spread api)
      → s.total + length s.eligible ≤ fuel
      → IsCovered s
      → NodupKeys s.host_cap
      → (spread api fuel um rn f s).total ≡ s.total - sum_caps s.host_cap
  spread_leftover fuel um rn f s h covered nodup = elim (spread_full fuel um rn f s h covered) [
    | inl z ↦ omega (arith, z, spread_total fuel um rn f s)
    | inr full ↦ omega (
      arith,
      spread_total fuel um rn f s,
      sum_caps_zero (spread api fuel um rn f s).host_cap (spread-NodupKeys fuel um rn f s nodup)
          full,
    )
  ]
