-- ===== src/Quotas/Sums.antt =====
-- Sums over the nodes, for what all nodes together are given by one resource's redistribution loop.
use k3k.Prelude.{
  Text, text_eq_iff, text_eq_refl, ◌≤◌, Dict, lookup, insert, has_key, NodupKeys, contains, ℕ, zero,
  suc, ◌+◌, ◌-◌, min, ◌≡◌, refl, inl, inr, Bool, true, false, List, [], ◌∷◌, ◌++◌, arith, ltb,
  if◌then◌else◌, length, ◌/◌, All, All-append, Bool-cases,
}
use k3k.Quotas.{
  QuantityApi, cap_of, Cycle, visit_node, node_quantity, visit_nodes, Spread, cycle, goes_on,
  spread, keys,
}
use k3k.Quotas.Visit.{QuantityLaws, sum_caps, amount}
use k3k.Quotas.Cycles.{
  first_cycle, IsCovered, spread_total, spread_conserves, spread_leftover, spread-NodupKeys,
}

abbrev pub sum_over : (Text → ℕ) → List Text → ℕ
sum_over g [] = 0
sum_over g (x ∷ xs) = g x + sum_over g xs

module _ (api : QuantityApi) where
  sum_over-add :
      (g h g' h' : Text → ℕ) (xs : List Text)
      → ((x : Text) → g x + h x ≡ g' x + h' x)
      → sum_over g xs + sum_over h xs ≡ sum_over g' xs + sum_over h' xs
  sum_over-add g h g' h' [] e = refl
  sum_over-add g h g' h' (x ∷ xs) e = omega (arith, e x, sum_over-add g h g' h' xs e)

  pub contains-keys : (k : Text) (m : Dict ℕ) → contains (keys api m) k ≡ has_key k m
  unfolding contains keys has_key
  contains-keys k [] = refl
  contains-keys k ((j, n) ∷ m) = ground (arith, contains-keys k m)

  keys-insert :
      (k : Text) (n : ℕ) (m : Dict ℕ) → has_key k m ≡ true → keys api (insert k n m) ≡ keys api m
  unfolding keys insert has_key
  keys-insert k n [] h = cc
  keys-insert k n ((j, w) ∷ m) h = ground (arith, keys-insert k n m)

  sum_over_skip :
      (k : Text) (n : ℕ) (m : Dict ℕ) (ks : List Text)
      → contains ks k ≡ false
      → sum_over (λ vn. cap_of vn ((k, n) ∷ m)) ks ≡ sum_over (λ vn. cap_of vn m) ks
  unfolding cap_of contains
  sum_over_skip k n m [] h = refl
  sum_over_skip k n m (x ∷ xs) h =
      ground (arith, text_eq_iff x k, text_eq_iff k x, sum_over_skip k n m xs)

  cap_of_head : (k : Text) (n : ℕ) (m : Dict ℕ) → cap_of k ((k, n) ∷ m) ≡ n
  unfolding cap_of lookup
  cap_of_head k n m = ground (arith, text_eq_refl k)

  -- The capacities summed key by key.
  pub sum_over-keys :
      (m : Dict ℕ) → NodupKeys m → sum_over (λ vn. cap_of vn m) (keys api m) ≡ sum_caps m
  unfolding keys sum_caps
  sum_over-keys [] d = refl
  sum_over-keys ((k, n) ∷ m) d = ground (
    arith,
    cap_of_head k n m,
    sum_over_skip k n m (keys api m),
    contains-keys k m,
    sum_over-keys m,
  )

  -- Every name of the list is a key.
  abbrev pub AreKeys : List Text → List Text → Type 0
  AreKeys ks = All (λ vn. contains ks vn ≡ true)

  visit_nodes-keys :
      (um : Bool) (rn : Text) (f : api.Format) (per : ℕ) (vns ks : List Text) (c : Cycle api)
      → keys api c.host_cap ≡ ks
      → AreKeys ks vns
      → AreKeys ks c.remaining
      → let c' = visit_nodes api um rn f per vns c in
        (keys api c'.host_cap ≡ ks) × AreKeys ks c'.remaining
  unfolding visit_nodes
  visit_nodes-keys um rn f per [] ks c e h r = (e, r)
  visit_nodes-keys um rn f per (vn ∷ vns) ks c e h r =
      visit_nodes-keys um rn f per vns ks (visit_node api um rn f per vn c)
        (unfold visit_node in
          ground (
            arith,
            contains-keys vn c.host_cap,
            keys-insert vn (cap_of vn c.host_cap - node_quantity api per vn c) c.host_cap,
          ))
        h.1 (unfold visit_node in kept (cap_of vn c.host_cap - node_quantity api per vn c))
    where
      kept : (left : ℕ) → AreKeys ks (if ltb 0 left then c.remaining ++ vn ∷ [] else c.remaining)
      kept left = elim (Bool-cases (ltb 0 left)) [
        | inl p ↦ rw p (All-append (λ v. contains ks v ≡ true) c.remaining (vn ∷ []) r (h.0, tt))
        | inr p ↦ rw p r
      ]

  cycle-keys :
      (um : Bool) (rn : Text) (f : api.Format) (ks : List Text) (s : Spread api)
      → keys api s.host_cap ≡ ks
      → AreKeys ks s.eligible
      → let s' = cycle api um rn f s in (keys api s'.host_cap ≡ ks) × AreKeys ks s'.eligible
  unfolding cycle
  cycle-keys um rn f ks s e h =
      visit_nodes-keys um rn f (s.total / length s.eligible) s.eligible ks (first_cycle api s) e h
        tt

  spread-keys :
      (fuel : ℕ) (um : Bool) (rn : Text) (f : api.Format) (ks : List Text) (s : Spread api)
      → keys api s.host_cap ≡ ks
      → AreKeys ks s.eligible
      → keys api (spread api fuel um rn f s).host_cap ≡ ks
  unfolding spread
  spread-keys zero um rn f ks s e h = e
  spread-keys (suc fuel) um rn f ks s e h = elim (Bool-cases (goes_on api s)) [
    | inl more ↦
        let (e', h') = cycle-keys um rn f ks s e h in
        rw more (spread-keys fuel um rn f ks (cycle api um rn f s) e' h')
    | inr done ↦ rw done e
  ]

  module _ (laws : QuantityLaws api) where
    -- All nodes together are given the quota, or all their capacity where that is less.
    pub spread_sum :
        (fuel : ℕ) (um : Bool) (rn : Text) (f : api.Format) (s : Spread api)
        → s.total + length s.eligible ≤ fuel
        → IsCovered api laws s
        → NodupKeys s.host_cap
        → AreKeys (keys api s.host_cap) s.eligible
        → let ks = keys api s.host_cap in
          let given = sum_over (λ vn. cap_of vn s.host_cap) ks in
          sum_over (amount api laws um rn (spread api fuel um rn f s).resource_map) ks
          ≡ sum_over (amount api laws um rn s.resource_map) ks + min s.total given
    spread_sum fuel um rn f s h covered nodup are =
        let s' = spread api fuel um rn f s in
        let ks = keys api s.host_cap in
        let same = spread-keys fuel um rn f ks s refl are in
        omega (
          arith,
          sum_over-add (amount api laws um rn s'.resource_map) (λ vn. cap_of vn s'.host_cap)
              (amount api laws um rn s.resource_map) (λ vn. cap_of vn s.host_cap) ks
              (λ vn. spread_conserves api laws fuel um rn f vn s),
          sum_over-keys s.host_cap nodup,
          rw same at (sum_over-keys s'.host_cap (spread-NodupKeys api laws fuel um rn f s nodup)),
          spread_total api laws fuel um rn f s,
          spread_leftover api laws fuel um rn f s h covered nodup,
        )
