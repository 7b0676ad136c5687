-- ===== src/Quotas/Tests.antt =====
-- The distribution on small clusters.
use mathlib.Core.Logic.{◌≢◌}
use k3k.Prelude.{
  insert, copy, trim_prefix, Text, text, text_eq, Dict, lookup, has_key, contains, ℕ, ◌+◌, ◌*◌, ◌/◌,
  ◌≤◌, min, compare, ◌≡◌, refl, true, false, some, List, [], ◌∷◌, arith, inl, inr,
}
use k3k.Quotas.{
  QuantityApi, ResourceNames, cap_of, is_lt, measure, eligible_caps, keys, merge_quotas, merge_list,
  merge_entry, filter_entries, distribute_quotas, filter_quotas, spread, Spread, goes_on,
  core_resources, node_resource_name, quantity_at,
}
use k3k.Quotas.Visit.{QuantityLaws, amount}
use k3k.Quotas.Cycles.{spread_ends}
use k3k.Quotas.Sums.{sum_over}
use k3k.Quotas.Distribution.{host_amount}
use k3k.Quotas.Shares.{
  IsFresh, is_milli, distribute_quotas-le-host, distribute_quotas_sum, distribute_quotas_unlimited,
}
use k3k.Api.{ok}
use k3k.Quotas.Capacity.{
  shares, limited, limited_by, if_readable, with_quotas, with_node, update_node_capacity,
  virtual_map, host_map, shares-le-host,
}
use k3k.Quotas.Merge.{SomeHas, merge_quotas-least, filter_quotas_order}

-- Quantities counted in thousandths.
abbrev milli_api : QuantityApi
milli_api = record {
  Quantity = ℕ;
  Format = Unit {0};
  zero_quantity = 0;
  value = λ q. (q + 999) / 1000;
  milli_value = λ q. q;
  format = λ q. tt;
  new_quantity = λ n f. n * 1000;
  new_milli_quantity = λ n f. n;
  cmp = compare;
}

cmp_trans_milli :
    (a b c : ℕ)
    → is_lt (compare a b) ≡ true
    → is_lt (compare b c) ≡ true
    → is_lt (compare a c) ≡ true
cmp_trans_milli a b c p q = ground arith

milli_laws : QuantityLaws milli_api
milli_laws = record {
  value-new_quantity = λ n f. omega arith;
  milli_value-new_milli_quantity = λ n f. refl;
  value-zero_quantity = refl;
  milli_value-zero_quantity = refl;
  cmp_irrefl = λ a. ground arith;
  cmp_trans = cmp_trans_milli;
}

abbrev resource_names : ResourceNames
resource_names = record {
  cpu = text "cpu";
  memory = text "memory";
  storage = text "storage";
  ephemeral_storage = text "ephemeral-storage";
  requests_cpu = text "requests.cpu";
  requests_memory = text "requests.memory";
  requests_storage = text "requests.storage";
  requests_ephemeral_storage = text "requests.ephemeral-storage";
  limits_cpu = text "limits.cpu";
  limits_memory = text "limits.memory";
  limits_ephemeral_storage = text "limits.ephemeral-storage";
}

-- Three hosts with 1, 5 and 9 units of `gpu`, and one with none.
abbrev hosts : Dict (Dict ℕ)
hosts =
    (text "a", (text "gpu", 1000) ∷ (text "disk", 7000) ∷ [])
    ∷ (text "b", (text "gpu", 5000) ∷ [])
    ∷ (text "c", (text "gpu", 9000) ∷ [])
    ∷ (text "d", [])
    ∷ []

abbrev nodes : Dict (Dict ℕ)
nodes = (text "c", []) ∷ (text "a", []) ∷ (text "b", []) ∷ (text "d", []) ∷ []

abbrev gpu_quota : Dict ℕ
gpu_quota = (text "gpu", 11000) ∷ []

-- Shares of 4, 4 and 3: `a` is capped at 1, and the 3 that are left go to `b` and `c`.
eleven_gpus :
    let m = distribute_quotas milli_api resource_names hosts nodes gpu_quota in
    (quantity_at milli_api (text "a") (text "gpu") m ≡ 1000)
    × (quantity_at milli_api (text "b") (text "gpu") m ≡ 5000)
    × (quantity_at milli_api (text "c") (text "gpu") m ≡ 5000)
    × (quantity_at milli_api (text "a") (text "disk") m ≡ 7000)
unfolding distribute_quotas quantity_at text_eq text
eleven_gpus = (refl, refl, refl, refl)

empty_nodes : (vn rn : Text) → quantity_at milli_api vn rn nodes ≡ 0
unfolding quantity_at
empty_nodes vn rn = ground arith

IsFresh-nodes : IsFresh milli_api milli_laws nodes
unfolding has_key text_eq text
IsFresh-nodes = record { once = (refl, (refl, (refl, (refl, tt)))); empty = empty_nodes }

distribute_quotas-le-host_example :
    let m = distribute_quotas milli_api resource_names hosts nodes gpu_quota in
    let um = is_milli milli_api milli_laws resource_names hosts nodes gpu_quota (text "gpu") in
    amount milli_api milli_laws um (text "gpu") m (text "b")
    ≤ host_amount milli_api um (text "gpu") hosts (text "b")
distribute_quotas-le-host_example =
    distribute_quotas-le-host milli_api milli_laws resource_names hosts nodes gpu_quota (text "gpu")
      (text "b") (unfold has_key in (refl, tt)) IsFresh-nodes (unfold has_key text_eq text in refl)

distribute_quotas_sum_example :
    let um = is_milli milli_api milli_laws resource_names hosts nodes gpu_quota (text "gpu") in
    let caps = eligible_caps milli_api um (text "gpu") hosts (keys milli_api nodes) in
    sum_over
      (amount milli_api milli_laws um
        (text "gpu")
        (distribute_quotas milli_api resource_names hosts nodes gpu_quota))
      (keys milli_api caps)
    ≡ min (measure milli_api um 11000) (sum_over (λ vn. cap_of vn caps) (keys milli_api caps))
distribute_quotas_sum_example =
    distribute_quotas_sum milli_api milli_laws resource_names hosts nodes gpu_quota (text "gpu")
      11000 (unfold has_key in (refl, tt)) IsFresh-nodes (unfold lookup text_eq text in refl)

distribute_quotas_unlimited_example :
    quantity_at milli_api
      (text "a")
      (text "disk")
      (distribute_quotas milli_api resource_names hosts nodes gpu_quota)
    ≡ 7000
unfolding has_key lookup text_eq text
distribute_quotas_unlimited_example =
    distribute_quotas_unlimited milli_api milli_laws resource_names hosts nodes gpu_quota
      (text "disk") (text "a") 7000 ((text "gpu", 1000) ∷ (text "disk", 7000) ∷ []) refl refl refl
      (refl, (refl, tt)) refl

two_quotas : List (Dict ℕ)
two_quotas = ((text "pods", 9) ∷ (text "gpu", 4) ∷ []) ∷ ((text "gpu", 3) ∷ []) ∷ []

merged_least : lookup (text "gpu") (merge_quotas milli_api two_quotas) ≡ some 3
unfolding merge_quotas lookup text_eq text two_quotas
merged_least = refl

-- The quantity that is given up for a lower one.
higher : SomeHas milli_api milli_laws (text "gpu") 4 two_quotas
unfolding lookup text_eq text two_quotas
higher = inl (inr (inl (refl, refl)))

merge_quotas-least_example :
    (least : ℕ) × (lookup (text "gpu") (merge_quotas milli_api two_quotas) ≡ some least)
    × SomeHas milli_api milli_laws (text "gpu") least two_quotas
    × (is_lt (milli_api.cmp 4 least) ≡ false)
merge_quotas-least_example =
    merge_quotas-least milli_api milli_laws two_quotas (text "gpu") 4 higher

abbrev one_node : Spread milli_api
one_node = record {
  total = 1000;
  host_cap = (text "a", 1) ∷ [];
  resource_map = [];
  eligible = text "a" ∷ [];
}

spread_ends_example :
    goes_on milli_api (spread milli_api 1001 false (text "gpu") tt one_node) ≡ false
spread_ends_example =
    spread_ends milli_api milli_laws 1001 false (text "gpu") tt one_node (omega arith)

filter_quotas_order_example :
    filter_quotas milli_api resource_names ((text "requests.gpu", 2) ∷ (text "limits.gpu", 3) ∷ [])
    ≢ filter_quotas milli_api resource_names
        ((text "limits.gpu", 3) ∷ (text "requests.gpu", 2) ∷ [])
unfolding contains core_resources text_eq text node_resource_name
filter_quotas_order_example =
    filter_quotas_order milli_api milli_laws resource_names (text "requests.gpu")
      (text "limits.gpu") 2 3 refl refl refl (omega arith)

abbrev host_nodes : List (Text × Dict ℕ)
host_nodes = (text "a", (text "gpu", 1000) ∷ []) ∷ (text "x", (text "gpu", 9000) ∷ []) ∷ []

abbrev requests_quota : List (Dict ℕ)
requests_quota = ((text "requests.gpu", 11000) ∷ []) ∷ []

gpu_limited :
    has_key
      (text "gpu")
      (filter_quotas milli_api resource_names (merge_quotas milli_api requests_quota))
    ≡ true
unfolding has_key filter_quotas filter_entries merge_quotas merge_list merge_entry lookup insert
    contains core_resources node_resource_name trim_prefix text_eq text
gpu_limited = refl

shares-le-host_example :
    let virt = virtual_map milli_api [] (text "a" ∷ []) in
    let host = host_map milli_api virt [] host_nodes in
    let limits = filter_quotas milli_api resource_names (merge_quotas milli_api requests_quota) in
    let um = is_milli milli_api milli_laws resource_names host virt limits (text "gpu") in
    amount milli_api milli_laws um
      (text "gpu")
      (shares milli_api resource_names requests_quota (text "a" ∷ []) host_nodes)
      (text "a")
    ≤ host_amount milli_api um (text "gpu") host (text "a")
shares-le-host_example =
    shares-le-host milli_api milli_laws resource_names requests_quota (text "a" ∷ []) host_nodes
      (text "gpu") (text "a") gpu_limited

-- The host node `x` is no virtual node, and `a` reports what it has.
capacity_of_a :
    update_node_capacity milli_api resource_names (text "a") (record {
      host_node = ok ((text "gpu", 1000) ∷ (text "disk", 7000) ∷ []);
      quotas = ok requests_quota;
      virtual_nodes = ok (text "a" ∷ []);
      host_nodes = ok host_nodes;
      virtual_node = ok tt;
    })
    ≡ some ((text "gpu", 1000) ∷ (text "disk", 7000) ∷ [])
unfolding update_node_capacity with_node with_quotas limited_by limited shares virtual_map host_map
    if_readable distribute_quotas has_key filter_quotas filter_entries merge_quotas merge_list
    merge_entry lookup insert copy contains core_resources node_resource_name trim_prefix text_eq
    text
capacity_of_a = refl
