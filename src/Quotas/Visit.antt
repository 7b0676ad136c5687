-- ===== src/Quotas/Visit.antt =====
-- What one visit of an eligible node, and a pass over all of them, keep (the inner loop of
-- `distributeQuotas`).
use k3k.Prelude.{
  Text, text_eq, text_eq_iff, text_eq_refl, Dict, lookup, insert, lookup-insert, ℕ, suc, ◌+◌, ◌-◌,
  ◌*◌, ◌≤◌, ◌<◌, ◌≡◌, refl, ◌∙◌, Bool, true, false, List, [], ◌∷◌, ◌++◌, arith, ltb, if◌then◌else◌,
  length, contains, length-append, ◌||◌,
}
use k3k.Quotas.{
  QuantityApi, ResourceMap, or_else, cap_of, measure, new_measured, quantity_at, put, Cycle,
  node_quantity, visit_node, visit_nodes, is_lt,
}

-- The documented behaviour of `resource.Quantity`.
pub record QuantityLaws (api : QuantityApi) : Type 0 where
  pub value-new_quantity : (n : ℕ) (f : api.Format) → api.value (api.new_quantity n f) ≡ n
  pub milli_value-new_milli_quantity :
      (n : ℕ) (f : api.Format) → api.milli_value (api.new_milli_quantity n f) ≡ n
  pub value-zero_quantity : api.value api.zero_quantity ≡ 0
  pub milli_value-zero_quantity : api.milli_value api.zero_quantity ≡ 0
  pub cmp_irrefl : (a : api.Quantity) → is_lt (api.cmp a a) ≡ false
  pub cmp_trans :
      (a b c : api.Quantity)
      → is_lt (api.cmp a b) ≡ true
      → is_lt (api.cmp b c) ≡ true
      → is_lt (api.cmp a c) ≡ true

-- The capacities that are left, summed over the map.
unfoldable pub sum_caps : Dict ℕ → ℕ
sum_caps [] = 0
sum_caps ((k, n) ∷ m) = n + sum_caps m

pub cap_of-insert :
    (k j : Text) (n : ℕ) (m : Dict ℕ)
    → cap_of j (insert k n m) ≡ (if text_eq k j then n else cap_of j m)
unfolding cap_of
cap_of-insert k j n m = ground (arith, lookup-insert k j n m)

pub sum_caps-insert :
    (k : Text) (n : ℕ) (m : Dict ℕ) → sum_caps (insert k n m) + cap_of k m ≡ sum_caps m + n
unfolding sum_caps insert cap_of lookup
sum_caps-insert k n [] = omega arith
sum_caps-insert k n ((j, w) ∷ m) = ground (arith, sum_caps-insert k n m)

pub cap_of-le-sum_caps : (k : Text) (m : Dict ℕ) → cap_of k m ≤ sum_caps m
unfolding sum_caps cap_of lookup
cap_of-le-sum_caps k [] = omega arith
cap_of-le-sum_caps k ((j, w) ∷ m) = ground (arith, cap_of-le-sum_caps k m)

contains-append :
    (xs : List Text) (x w : Text) → contains (xs ++ x ∷ []) w ≡ (contains xs w || text_eq x w)
unfolding contains
contains-append [] x w = ground arith
contains-append (y ∷ xs) x w = ground (arith, contains-append xs x w)

module _ (api : QuantityApi) where
  pub quantity_at-put :
      (vn rn vn' rn' : Text) (q : api.Quantity) (m : ResourceMap api)
      → quantity_at api vn' rn' (put api vn rn q m) ≡ (
          if text_eq vn vn'
          then (if text_eq rn rn' then q else quantity_at api vn' rn' m)
          else quantity_at api vn' rn' m)
  unfolding quantity_at put
  quantity_at-put vn rn vn' rn' q m = ground (
    arith,
    text_eq_iff vn vn',
    lookup-insert vn vn' (insert rn q (or_else [] (lookup vn m))) m,
    lookup-insert rn rn' q (or_else [] (lookup vn m)),
  )

  module _ (laws : QuantityLaws api) where
    pub measure-new_measured :
        (um : Bool) (n : ℕ) (f : api.Format) → measure api um (new_measured api um n f) ≡ n
    unfolding measure new_measured
    measure-new_measured true n f = laws.milli_value-new_milli_quantity n f
    measure-new_measured false n f = laws.value-new_quantity n f

    -- What a node has of a resource.
    abbrev pub amount : Bool → Text → ResourceMap api → Text → ℕ
    amount um rn m vn = measure api um (quantity_at api vn rn m)

    amount-put :
        (um : Bool) (rn : Text) (f : api.Format) (n : ℕ) (vn vn' : Text) (m : ResourceMap api)
        → amount um rn (put api vn rn (new_measured api um n f) m) vn'
          ≡ (if text_eq vn vn' then n else amount um rn m vn')
    amount-put um rn f n vn vn' m = ground (
      arith,
      quantity_at-put vn rn vn' rn (new_measured api um n f) m,
      text_eq_refl rn,
      measure-new_measured um n f,
    )

    amount-give :
        (um : Bool) (rn : Text) (f : api.Format) (q : ℕ) (vn vn' : Text) (m : ResourceMap api)
        → amount um rn
            (if ltb 0 q then put api vn rn (new_measured api um (amount um rn m vn + q) f) m else m)
            vn'
          ≡ amount um rn m vn' + (if text_eq vn vn' then q else 0)
    amount-give um rn f q vn vn' m =
        ground (arith, amount-put um rn f (amount um rn m vn + q) vn vn' m, text_eq_iff vn vn')

    -- A visit moves units from the node's capacity to what it reports, and touches no other node.
    pub visit_node_conserves :
        (um : Bool) (rn : Text) (f : api.Format) (per : ℕ) (vn vn' : Text) (c : Cycle api)
        → let c' = visit_node api um rn f per vn c in
          amount um rn c'.resource_map vn' + cap_of vn' c'.host_cap
          ≡ amount um rn c.resource_map vn' + cap_of vn' c.host_cap
    unfolding visit_node node_quantity
    visit_node_conserves um rn f per vn vn' c =
        let q = node_quantity api per vn c in
        ground (
          arith,
          amount-give um rn f q vn vn' c.resource_map,
          cap_of-insert vn vn' (cap_of vn c.host_cap - q) c.host_cap,
          text_eq_iff vn vn',
        )

    -- A visit gives no more than is left of the quota, and the quota falls as the capacities do.
    pub visit_node_total :
        (um : Bool) (rn : Text) (f : api.Format) (per k : ℕ) (vn : Text) (c : Cycle api)
        → suc k * per + c.remainder ≤ c.total
        → let c' = visit_node api um rn f per vn c in
          (c'.total + sum_caps c.host_cap ≡ c.total + sum_caps c'.host_cap)
          × (k * per + c'.remainder ≤ c'.total)
    unfolding visit_node node_quantity
    visit_node_total um rn f per k vn c h =
        let q = node_quantity api per vn c in
        let kept = sum_caps-insert vn (cap_of vn c.host_cap - q) c.host_cap in
        (ground (arith, kept), ground (arith, kept))

    pub visit_nodes_total :
        (um : Bool) (rn : Text) (f : api.Format) (per : ℕ) (vns : List Text) (c : Cycle api)
        → length vns * per + c.remainder ≤ c.total
        → let c' = visit_nodes api um rn f per vns c in
          c'.total + sum_caps c.host_cap ≡ c.total + sum_caps c'.host_cap
    unfolding visit_nodes
    visit_nodes_total um rn f per [] c h = refl
    visit_nodes_total um rn f per (vn ∷ vns) c h =
        let (here, rest) = visit_node_total um rn f per (length vns) vn c h in
        let later = visit_nodes_total um rn f per vns (visit_node api um rn f per vn c) rest in
        omega (arith, here, later)

    pub visit_nodes_conserves :
        (um : Bool) (rn : Text) (f : api.Format) (per : ℕ) (vns : List Text) (vn' : Text)
        (c : Cycle api)
        → let c' = visit_nodes api um rn f per vns c in
          amount um rn c'.resource_map vn' + cap_of vn' c'.host_cap
          ≡ amount um rn c.resource_map vn' + cap_of vn' c.host_cap
    unfolding visit_nodes
    visit_nodes_conserves um rn f per [] vn' c = refl
    visit_nodes_conserves um rn f per (vn ∷ vns) vn' c =
        visit_nodes_conserves um rn f per vns vn' (visit_node api um rn f per vn c)
        ∙ visit_node_conserves um rn f per vn vn' c

    -- Another resource is left as it is.
    visit_node_frame :
        (um : Bool) (rn rn' : Text) (f : api.Format) (per : ℕ) (vn vn' : Text) (c : Cycle api)
        → text_eq rn rn' ≡ false
        → quantity_at api vn' rn' (visit_node api um rn f per vn c).resource_map
          ≡ quantity_at api vn' rn' c.resource_map
    unfolding visit_node
    visit_node_frame um rn rn' f per vn vn' c h =
        let q = node_quantity api per vn c in
        let given = new_measured api um (amount um rn c.resource_map vn + q) f in
        ground (arith, quantity_at-put vn rn vn' rn' given c.resource_map)

    pub visit_nodes_frame :
        (um : Bool) (rn rn' : Text) (f : api.Format) (per : ℕ) (vns : List Text) (vn' : Text)
        (c : Cycle api)
        → text_eq rn rn' ≡ false
        → quantity_at api vn' rn' (visit_nodes api um rn f per vns c).resource_map
          ≡ quantity_at api vn' rn' c.resource_map
    unfolding visit_nodes
    visit_nodes_frame um rn rn' f per [] vn' c h = refl
    visit_nodes_frame um rn rn' f per (vn ∷ vns) vn' c h =
        visit_nodes_frame um rn rn' f per vns vn' (visit_node api um rn f per vn c) h
        ∙ visit_node_frame um rn rn' f per vn vn' c h

    -- A node that keeps capacity stands among those still to visit or among the remaining ones.
    abbrev pub Covers : List Text → Cycle api → Type 0
    Covers vns c =
        (vn : Text) → 0 < cap_of vn c.host_cap → (contains vns vn || contains c.remaining vn) ≡ true

    visit_node-Covers :
        (um : Bool) (rn : Text) (f : api.Format) (per : ℕ) (vn : Text) (vns : List Text)
        (c : Cycle api)
        → Covers (vn ∷ vns) c
        → Covers vns (visit_node api um rn f per vn c)
    unfolding visit_node contains
    visit_node-Covers um rn f per vn vns c h w pos =
        let left = cap_of vn c.host_cap - node_quantity api per vn c in
        ground (
          arith,
          h w,
          cap_of-insert vn w left c.host_cap,
          contains-append c.remaining vn w,
          text_eq_iff vn w,
        )

    pub visit_nodes-Covers :
        (um : Bool) (rn : Text) (f : api.Format) (per : ℕ) (vns : List Text) (c : Cycle api)
        → Covers vns c
        → Covers [] (visit_nodes api um rn f per vns c)
    unfolding visit_nodes
    visit_nodes-Covers um rn f per [] c h = h
    visit_nodes-Covers um rn f per (vn ∷ vns) c h =
        visit_nodes-Covers um rn f per vns (visit_node api um rn f per vn c)
          (visit_node-Covers um rn f per vn vns c h)

    -- What the measure of the loop counts: the quota that is left and the nodes kept.
    abbrev pub size : Cycle api → ℕ
    size c = c.total + length c.remaining

    size-visit_node :
        (um : Bool) (rn : Text) (f : api.Format) (per : ℕ) (vn : Text) (c : Cycle api)
        → size (visit_node api um rn f per vn c) ≤ size c + 1
    unfolding visit_node
    size-visit_node um rn f per vn c = ground (arith, length-append c.remaining (vn ∷ []))

    size-visit_nodes :
        (um : Bool) (rn : Text) (f : api.Format) (per : ℕ) (vns : List Text) (c : Cycle api)
        → size (visit_nodes api um rn f per vns c) ≤ size c + length vns
    unfolding visit_nodes
    size-visit_nodes um rn f per [] c = omega arith
    size-visit_nodes um rn f per (vn ∷ vns) c = omega (
      arith,
      size-visit_node um rn f per vn c,
      size-visit_nodes um rn f per vns (visit_node api um rn f per vn c),
    )

    -- A node with a positive share either takes some of the quota or is dropped.
    visit_node_progress :
        (um : Bool) (rn : Text) (f : api.Format) (per : ℕ) (vn : Text) (c : Cycle api)
        → 0 < per + c.remainder
        → 0 < c.total
        → size (visit_node api um rn f per vn c) ≤ size c
    unfolding visit_node node_quantity
    visit_node_progress um rn f per vn c h pos = ground (arith, length-append c.remaining (vn ∷ []))

    pub visit_nodes_progress :
        (um : Bool) (rn : Text) (f : api.Format) (per : ℕ) (vns : List Text) (c : Cycle api)
        → 0 < per + c.remainder
        → 0 < c.total
        → 0 < length vns
        → size (visit_nodes api um rn f per vns c) < size c + length vns
    unfolding visit_nodes
    visit_nodes_progress um rn f per [] c h pos ne = absurd (omega arith)
    visit_nodes_progress um rn f per (vn ∷ vns) c h pos ne = omega (
      arith,
      visit_node_progress um rn f per vn c h pos,
      size-visit_nodes um rn f per vns (visit_node api um rn f per vn c),
    )
