-- ===== src/Quotas/Merge.antt =====
-- `mergeQuotas` and `filterQuotas` (k3k-kubelet/provider/configure_capacity.go).
use k3k.Prelude.{
  Text, text_eq_iff, text_eq_refl, lookup, insert, lookup-insert, lookup-insert_self, sym, contains,
  ◌≡◌, ◌≢◌, ◌⊎◌, false, Option, none, some, List, [], ◌∷◌, arith, Option-cases, inl, inr,
}
use mathlib.Core.Path.{subst}
use k3k.Quotas.{
  QuantityApi, ResourceList, ResourceNames, core_resources, is_lt, merge_entry, merge_list,
  merge_lists, merge_quotas, filter_quotas, filter_entries, node_resource_name,
}
use k3k.Quotas.Visit.{QuantityLaws}

module _ (api : QuantityApi) (laws : QuantityLaws api) where
  -- The merged list has a quantity for the name which is not above `q`.
  abbrev IsCapped : Text → api.Quantity → Option api.Quantity → Type 0
  IsCapped name q none = ⊥
  IsCapped name q (some least) = is_lt (api.cmp q least) ≡ false

  IsCapped-entry_self :
      (merged : ResourceList api) (name : Text) (q : api.Quantity)
      → IsCapped name q (lookup name (merge_entry api merged name q))
  unfolding merge_entry
  IsCapped-entry_self merged name q =
      ground (arith, lookup-insert name name q merged, text_eq_refl name, laws.cmp_irrefl q)

  IsCapped-entry :
      (merged : ResourceList api) (n n' : Text) (q q' : api.Quantity)
      → IsCapped n q (lookup n merged)
      → IsCapped n q (lookup n (merge_entry api merged n' q'))
  unfolding merge_entry
  IsCapped-entry merged n n' q q' h = elim (Option-cases (lookup n merged)) [
    | inl e ↦ ground (arith, e)
    | inr (least, e) ↦
        ground (arith, e, lookup-insert n' n q' merged, text_eq_iff n' n, laws.cmp_trans q q' least)
  ]

  IsCapped-list :
      (merged l : ResourceList api) (n : Text) (q : api.Quantity)
      → IsCapped n q (lookup n merged)
      → IsCapped n q (lookup n (merge_list api merged l))
  unfolding merge_list
  IsCapped-list merged [] n q h = h
  IsCapped-list merged ((n', q') ∷ l) n q h =
      IsCapped-list (merge_entry api merged n' q') l n q (IsCapped-entry merged n n' q q' h)

  IsCapped-lists :
      (merged : ResourceList api) (ls : List (ResourceList api)) (n : Text) (q : api.Quantity)
      → IsCapped n q (lookup n merged)
      → IsCapped n q (lookup n (merge_lists api merged ls))
  unfolding merge_lists
  IsCapped-lists merged [] n q h = h
  IsCapped-lists merged (l ∷ ls) n q h =
      IsCapped-lists (merge_list api merged l) ls n q (IsCapped-list merged l n q h)

  -- The entry stands in a list, or in one of the lists.
  abbrev pub Has : Text → api.Quantity → ResourceList api → Type 0
  Has n q [] = ⊥
  Has n q ((n', q') ∷ l) = ((n' ≡ n) × (q' ≡ q)) ⊎ Has n q l

  abbrev pub SomeHas : Text → api.Quantity → List (ResourceList api) → Type 0
  SomeHas n q [] = ⊥
  SomeHas n q (l ∷ ls) = Has n q l ⊎ SomeHas n q ls

  IsCapped-Has :
      (merged l : ResourceList api) (n : Text) (q : api.Quantity)
      → Has n q l
      → IsCapped n q (lookup n (merge_list api merged l))
  unfolding merge_list
  IsCapped-Has merged [] n q h = absurd h
  IsCapped-Has merged ((n', q') ∷ l) n q (inl e) =
      IsCapped-list (merge_entry api merged n' q') l n q
        (rw (e.0, e.1) (IsCapped-entry_self merged n q))
  IsCapped-Has merged ((n', q') ∷ l) n q (inr h) =
      IsCapped-Has (merge_entry api merged n' q') l n q h

  IsCapped-SomeHas :
      (merged : ResourceList api) (ls : List (ResourceList api)) (n : Text) (q : api.Quantity)
      → SomeHas n q ls
      → IsCapped n q (lookup n (merge_lists api merged ls))
  unfolding merge_lists
  IsCapped-SomeHas merged [] n q h = absurd h
  IsCapped-SomeHas merged (l ∷ ls) n q (inl h) =
      IsCapped-lists (merge_list api merged l) ls n q (IsCapped-Has merged l n q h)
  IsCapped-SomeHas merged (l ∷ ls) n q (inr h) = IsCapped-SomeHas (merge_list api merged l) ls n q h

  entry_source :
      (merged : ResourceList api) (n n' : Text) (q q' : api.Quantity)
      → lookup n (merge_entry api merged n' q') ≡ some q
      → ((n' ≡ n) × (q' ≡ q)) ⊎ (lookup n merged ≡ some q)
  unfolding merge_entry
  entry_source merged n n' q q' h = elim (Option-cases (lookup n' merged)) [
    | inl e ↦ ground (arith, e, lookup-insert n' n q' merged, text_eq_iff n' n)
    | inr (least, e) ↦ ground (arith, e, lookup-insert n' n q' merged, text_eq_iff n' n)
  ]

  list_source :
      (merged l : ResourceList api) (n : Text) (q : api.Quantity)
      → lookup n (merge_list api merged l) ≡ some q
      → Has n q l ⊎ (lookup n merged ≡ some q)
  unfolding merge_list
  list_source merged [] n q h = inr h
  list_source merged ((n', q') ∷ l) n q h =
      elim (list_source (merge_entry api merged n' q') l n q h) [
        | inl there ↦ inl (inr there)
        | inr e ↦ elim (entry_source merged n n' q q' e) [
          | inl here ↦ inl (inl here)
          | inr old ↦ inr old
        ]
      ]

  lists_source :
      (merged : ResourceList api) (ls : List (ResourceList api)) (n : Text) (q : api.Quantity)
      → lookup n (merge_lists api merged ls) ≡ some q
      → SomeHas n q ls ⊎ (lookup n merged ≡ some q)
  unfolding merge_lists
  lists_source merged [] n q h = inr h
  lists_source merged (l ∷ ls) n q h = elim (lists_source (merge_list api merged l) ls n q h) [
    | inl there ↦ inl (inr there)
    | inr e ↦ elim (list_source merged l n q e) [ inl here ↦ inl (inl here) | inr old ↦ inr old ]
  ]

  -- For every entry of every list, `mergeQuotas` returns under its name a quantity that stands under
  -- that name in one of the lists, and that the entry's is not below.
  pub merge_quotas-least :
      (ls : List (ResourceList api)) (n : Text) (q : api.Quantity)
      → SomeHas n q ls
      → (least : api.Quantity) × (lookup n (merge_quotas api ls) ≡ some least)
        × SomeHas n least ls
        × (is_lt (api.cmp q least) ≡ false)
  unfolding merge_quotas lookup
  merge_quotas-least ls n q h = elim (Option-cases (lookup n (merge_quotas api ls))) [
    | inl e ↦ absurd (subst (IsCapped n q) e (IsCapped-SomeHas [] ls n q h))
    | inr (least, e) ↦ (
      least,
      e,
      elim (lists_source [] ls n least e) [ inl there ↦ there | inr e' ↦ cc ],
      subst (IsCapped n q) e (IsCapped-SomeHas [] ls n q h),
    )
  ]

  filter_quotas_pair :
      (names : ResourceNames) (one two : Text) (a b : api.Quantity)
      → contains (core_resources names) one ≡ false
      → contains (core_resources names) two ≡ false
      → node_resource_name one ≡ node_resource_name two
      → lookup (node_resource_name two) (filter_quotas api names ((one, a) ∷ (two, b) ∷ []))
        ≡ some b
  unfolding filter_quotas filter_entries
  filter_quotas_pair names one two a b ca cb e =
      ground (
        arith,
        lookup-insert_self (node_resource_name two) b (insert (node_resource_name one) a []),
      )

  -- The result of `filterQuotas` depends on the order in which Go visits the map: if two names are not
  -- core ones and are stripped to one name, and their quantities differ, then visiting them in the
  -- two orders gives different results.
  pub filter_quotas_order :
      (names : ResourceNames) (one two : Text) (a b : api.Quantity)
      → contains (core_resources names) one ≡ false
      → contains (core_resources names) two ≡ false
      → node_resource_name one ≡ node_resource_name two
      → a ≢ b
      → filter_quotas api names ((one, a) ∷ (two, b) ∷ [])
        ≢ filter_quotas api names ((two, b) ∷ (one, a) ∷ [])
  filter_quotas_order names one two a b ca cb e ne same = ne (
      cc (
        filter_quotas_pair names two one b a cb ca (sym e),
        filter_quotas_pair names one two a b ca cb e,
      ))
