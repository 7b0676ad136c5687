-- ===== src/Quotas.antt =====
-- The distribution of resource quotas over the virtual nodes
-- (k3k-kubelet/provider/configure_capacity.go). Quantities and the names of the resources belong to
-- the Kubernetes API libraries and are parameters; amounts are non-negative, as the API validates.
pub mod Visit
pub mod Cycles
pub mod Sums
pub mod Distribution
pub mod Fill
pub mod Shares
pub mod Merge
pub mod Capacity
mod Tests
use k3k.Prelude.{
  Text, text, text_eq, is_empty, trim_prefix, sort_texts, contains, Dict, lookup, insert, has_key,
  ℕ, zero, suc, ◌+◌, ◌-◌, ◌/◌, ◌%◌, min, Ordering, Bool, true, false, not, ◌&&◌, Option, none, some,
  List, [], ◌∷◌, ◌++◌, ltb, if◌then◌else◌, length,
}

-- `resource.Quantity` of k8s.io/apimachinery.
pub record QuantityApi : Type 1 where
  pub Quantity : Type 0
  pub Format : Type 0
  pub zero_quantity : Quantity
  pub value : Quantity → ℕ
  pub milli_value : Quantity → ℕ
  pub format : Quantity → Format
  pub new_quantity : ℕ → Format → Quantity
  pub new_milli_quantity : ℕ → Format → Quantity
  pub cmp : Quantity → Quantity → Ordering

-- The constants of k8s.io/api/core/v1 that the two sets of resource names list.
pub record ResourceNames : Type 0 where
  pub cpu : Text
  pub memory : Text
  pub storage : Text
  pub ephemeral_storage : Text
  pub requests_cpu : Text
  pub requests_memory : Text
  pub requests_storage : Text
  pub requests_ephemeral_storage : Text
  pub limits_cpu : Text
  pub limits_memory : Text
  pub limits_ephemeral_storage : Text

unfoldable pub core_resources : ResourceNames → List Text
core_resources r =
    r.cpu ∷ r.memory ∷ r.storage ∷ r.ephemeral_storage ∷ r.requests_cpu ∷ r.requests_memory
    ∷ r.requests_storage ∷ r.requests_ephemeral_storage ∷ []

unfoldable pub milli_scale_resources : ResourceNames → List Text
unfolding core_resources
milli_scale_resources r =
    core_resources r ++ (r.limits_cpu ∷ r.limits_memory ∷ r.limits_ephemeral_storage ∷ [])

abbrev pub is_lt : Ordering → Bool
is_lt Ordering.lt = true
is_lt _ = false

abbrev pub or_else {ℓ} : {A : Type ℓ} → A → Option A → A
or_else d none = d
or_else d (some a) = a

-- `hostCap[name]`, 0 for a missing key.
unfoldable pub cap_of : Text → Dict ℕ → ℕ
unfolding lookup
cap_of vn caps = or_else 0 (lookup vn caps)

-- The name under which `filterQuotas` keeps a quota.
unfoldable pub node_resource_name : Text → Text
unfolding text trim_prefix
node_resource_name name = trim_prefix (trim_prefix name (text "requests.")) (text "limits.")

module _ (api : QuantityApi) where
  open api use {
    Quantity, Format, zero_quantity, value, milli_value, format, new_quantity, new_milli_quantity,
    cmp,
  }

  abbrev pub ResourceList : Type 0
  ResourceList = Dict Quantity

  abbrev pub ResourceMap : Type 0
  ResourceMap = Dict ResourceList

  -- One pass of the inner loop of `mergeQuotas`.
  unfoldable pub merge_entry : ResourceList → Text → Quantity → ResourceList
  unfolding lookup insert
  merge_entry merged name qty = elim (lookup name merged) [
    | none ↦ insert name qty merged
    | some existing ↦ if is_lt (cmp qty existing) then insert name qty merged else merged
  ]

  unfoldable pub merge_list : ResourceList → ResourceList → ResourceList
  unfolding merge_entry
  merge_list merged [] = merged
  merge_list merged ((name, qty) ∷ rest) = merge_list (merge_entry merged name qty) rest

  merge_lists : ResourceList → List ResourceList → ResourceList
  unfolding merge_list
  merge_lists merged [] = merged
  merge_lists merged (l ∷ ls) = merge_lists (merge_list merged l) ls

  unfoldable pub merge_quotas : List ResourceList → ResourceList
  unfolding merge_lists
  merge_quotas lists = merge_lists [] lists

  -- `Value()`, or `MilliValue()` for a milli-scale resource.
  unfoldable pub measure : Bool → Quantity → ℕ
  measure use_milli q = if use_milli then milli_value q else value q

  unfoldable pub new_measured : Bool → ℕ → Format → Quantity
  new_measured use_milli n f = if use_milli then new_milli_quantity n f else new_quantity n f

  -- `resourceMap[vn][rn]`, the zero quantity for a missing key.
  unfoldable pub quantity_at : Text → Text → ResourceMap → Quantity
  unfolding lookup
  quantity_at vn rn m = or_else zero_quantity (lookup rn (or_else [] (lookup vn m)))

  -- `resourceMap[vn][rn] = q`.
  unfoldable pub put : Text → Text → Quantity → ResourceMap → ResourceMap
  unfolding lookup insert
  put vn rn q m = insert vn (insert rn q (or_else [] (lookup vn m))) m

  -- The variables of one distribution cycle.
  pub record Cycle : Type 0 where
    pub total : ℕ
    pub remainder : ℕ
    pub host_cap : Dict ℕ
    pub resource_map : ResourceMap
    pub remaining : List Text

  -- What the node is given: its share, capped by what is left of its host capacity.
  unfoldable pub node_quantity : ℕ → Text → Cycle → ℕ
  unfolding cap_of
  node_quantity per vn c = min (if ltb 0 c.remainder then per + 1 else per) (cap_of vn c.host_cap)

  -- The body of the loop over the eligible nodes.
  unfoldable pub visit_node : Bool → Text → Format → ℕ → Text → Cycle → Cycle
  unfolding node_quantity cap_of quantity_at put measure new_measured insert
  visit_node use_milli rn f per vn c =
      let q = node_quantity per vn c in
      let left = cap_of vn c.host_cap - q in
      let existing = measure use_milli (quantity_at vn rn c.resource_map) in
      record {
        total = c.total - q;
        remainder = if ltb 0 c.remainder then c.remainder - 1 else c.remainder;
        host_cap = insert vn left c.host_cap;
        resource_map =
            if ltb 0 q
            then put vn rn (new_measured use_milli (existing + q) f) c.resource_map
            else c.resource_map;
        remaining = if ltb 0 left then c.remaining ++ (vn ∷ []) else c.remaining;
      }

  unfoldable pub visit_nodes : Bool → Text → Format → ℕ → List Text → Cycle → Cycle
  unfolding visit_node
  visit_nodes use_milli rn f per [] c = c
  visit_nodes use_milli rn f per (vn ∷ vns) c =
      visit_nodes use_milli rn f per vns (visit_node use_milli rn f per vn c)

  -- The variables of the redistribution loop of one resource.
  pub record Spread : Type 0 where
    pub total : ℕ
    pub host_cap : Dict ℕ
    pub resource_map : ResourceMap
    pub eligible : List Text

  -- The body of the redistribution loop.
  unfoldable pub cycle : Bool → Text → Format → Spread → Spread
  unfolding visit_nodes
  cycle use_milli rn f s =
      let n = length s.eligible in
      let start : Cycle = record {
        total = s.total;
        remainder = s.total % n;
        host_cap = s.host_cap;
        resource_map = s.resource_map;
        remaining = [];
      } in
      let c = visit_nodes use_milli rn f (s.total / n) s.eligible start in
      record {
        total = c.total;
        host_cap = c.host_cap;
        resource_map = c.resource_map;
        eligible = c.remaining;
      }

  -- `totalValue > 0 && len(eligibleNodes) > 0`.
  unfoldable pub goes_on : Spread → Bool
  goes_on s = ltb 0 s.total && ltb 0 (length s.eligible)

  -- The redistribution loop, on fuel.
  unfoldable pub spread : ℕ → Bool → Text → Format → Spread → Spread
  unfolding cycle goes_on
  spread zero use_milli rn f s = s
  spread (suc fuel) use_milli rn f s =
      let next = spread fuel use_milli rn f (cycle use_milli rn f s) in
      if goes_on s then next else s

  -- The loop that fills `hostCap` and `eligibleNodes`, over the names of the virtual nodes.
  unfoldable pub eligible_caps : Bool → Text → ResourceMap → List Text → Dict ℕ
  unfolding measure lookup
  eligible_caps use_milli rn host [] = []
  eligible_caps use_milli rn host (vn ∷ vns) =
      let rest = eligible_caps use_milli rn host vns in
      elim (lookup rn (or_else [] (lookup vn host))) [
        | none ↦ rest
        | some q ↦ (vn, measure use_milli q) ∷ rest
      ]

  unfoldable pub keys {ℓ} : {V : Type ℓ} → Dict V → List Text
  keys [] = []
  keys ((k, v) ∷ m) = k ∷ keys m

  -- The state in which the redistribution loop of a resource begins.
  unfoldable pub spread_start : Bool → Text → ℕ → ResourceMap → List Text → ResourceMap → Spread
  unfolding eligible_caps sort_texts keys
  spread_start use_milli rn total host vns m =
      let caps = eligible_caps use_milli rn host vns in
      record { total = total; host_cap = caps; resource_map = m; eligible = sort_texts (keys caps) }

  -- The loop is given one unit of fuel for each unit of quota and for each node.
  unfoldable pub distribute_resource :
      ResourceNames → ResourceMap → List Text → Text → Quantity → ResourceMap → ResourceMap
  unfolding spread spread_start measure milli_scale_resources contains
  distribute_resource names host vns rn total_quantity m =
      let use_milli = contains (milli_scale_resources names) rn in
      let s = spread_start use_milli rn (measure use_milli total_quantity) host vns m in
      (spread (s.total + length s.eligible) use_milli rn (format total_quantity) s).resource_map

  unfoldable pub distribute_each :
      ResourceNames → ResourceMap → List Text → ResourceList → ResourceMap → ResourceMap
  unfolding distribute_resource
  distribute_each names host vns [] m = m
  distribute_each names host vns ((rn, q) ∷ quotas) m =
      distribute_each names host vns quotas (distribute_resource names host vns rn q m)

  -- The resources of one host node that no quota limits.
  unfoldable pub fill_node : Text → ResourceList → ResourceList → ResourceMap → ResourceMap
  unfolding put has_key
  fill_node vn quotas [] m = m
  fill_node vn quotas ((rn, q) ∷ rest) m =
      fill_node vn quotas rest (if has_key rn quotas then m else put vn rn q m)

  -- `if hostResources, ok := hostResourceMap[vn]; ok`.
  unfoldable pub fill_found : Text → ResourceList → Option ResourceList → ResourceMap → ResourceMap
  unfolding fill_node
  fill_found vn quotas none m = m
  fill_found vn quotas (some r) m = fill_node vn quotas r m

  unfoldable pub fill : ResourceMap → ResourceList → List Text → ResourceMap → ResourceMap
  unfolding fill_found lookup
  fill host quotas [] m = m
  fill host quotas (vn ∷ vns) m = fill host quotas vns (fill_found vn quotas (lookup vn host) m)

  unfoldable pub distribute_quotas :
      ResourceNames → ResourceMap → ResourceMap → ResourceList → ResourceMap
  unfolding distribute_each fill keys
  distribute_quotas names host virt quotas =
      let vns = keys virt in distribute_each names host vns quotas (fill host quotas vns virt)

  unfoldable pub filter_entries : ResourceNames → ResourceList → ResourceList → ResourceList
  unfolding node_resource_name contains core_resources insert
  filter_entries names kept [] = kept
  filter_entries names kept ((name, q) ∷ rest) =
      filter_entries names
        (if contains (core_resources names) name
          then kept
          else insert (node_resource_name name) q kept)
        rest

  unfoldable pub filter_quotas : ResourceNames → ResourceList → ResourceList
  unfolding filter_entries
  filter_quotas names resources = filter_entries names [] resources
