-- ===== src/Pods/Merge.antt =====
-- What `mergeEnvVars` of k3k-kubelet/provider/provider.go gives for each name.
use k3k.Prelude.{
  Text, text_eq, text_eq_iff, text_eq_refl, Dict, lookup, insert, delete, lookup-delete,
  lookup-insert, false, Option, none, some, List, [], ◌∷◌, ◌++◌, ◌≡◌, refl, ap, ◌∙◌, arith,
  if◌then◌else◌, Option-cases, inl, inr, has_key, NodupKeys, insert-NodupKeys, ◌⊎◌,
}
use k3k.Pods.{EnvVar}
use k3k.Pods.Env.{env_map, overwrite, values, merge_with, merge_env_vars}

-- The first variable of a name.
unfoldable pub find : Text → List EnvVar → Option EnvVar
unfolding text_eq
find k [] = none
find k (e ∷ es) = let rest = find k es in if text_eq e.name k then some e else rest

unfoldable pub or_else : Option EnvVar → Option EnvVar → Option EnvVar
or_else (some e) o = some e
or_else none o = o

-- The last variable of a name.
unfoldable pub last_of : Text → List EnvVar → Option EnvVar
unfolding text_eq or_else
last_of k [] = none
last_of k (e ∷ es) = or_else (last_of k es) (if text_eq e.name k then some e else none)

-- No name stands twice.
unfoldable pub NodupNames : List EnvVar → Type 0
unfolding find
NodupNames [] = Unit {0}
NodupNames (e ∷ es) = (find e.name es ≡ none) × NodupNames es

-- Each variable stands under its name.
unfoldable Keyed : Dict EnvVar → Type 0
Keyed [] = Unit {0}
Keyed ((k, e) ∷ m) = (e.name ≡ k) × Keyed m

insert-Keyed : (e : EnvVar) (m : Dict EnvVar) → Keyed m → Keyed (insert e.name e m)
unfolding Keyed insert
insert-Keyed e [] h = (refl, tt)
insert-Keyed e ((k, u) ∷ m) h = ground (arith, text_eq_iff k e.name, insert-Keyed e m)

delete-Keyed : (k : Text) (m : Dict EnvVar) → Keyed m → Keyed (delete k m)
unfolding Keyed delete
delete-Keyed k [] h = tt
delete-Keyed k ((j, u) ∷ m) h = ground (arith, delete-Keyed k m)

env_map-Keyed : (m : Dict EnvVar) (es : List EnvVar) → Keyed m → Keyed (env_map m es)
unfolding env_map
env_map-Keyed m [] h = h
env_map-Keyed m (e ∷ es) h = env_map-Keyed (insert e.name e m) es (insert-Keyed e m h)

lookup-Keyed :
    (k : Text) (m : Dict EnvVar) (u : EnvVar) → Keyed m → lookup k m ≡ some u → u.name ≡ k
unfolding Keyed lookup
lookup-Keyed k [] u h e = ground arith
lookup-Keyed k ((j, v) ∷ m) u h e = ground (arith, text_eq_iff j k, lookup-Keyed k m u)

find-values : (k : Text) (m : Dict EnvVar) → Keyed m → find k (values m) ≡ lookup k m
unfolding Keyed find values lookup
find-values k [] h = refl
find-values k ((j, e) ∷ m) h = ground (arith, find-values k m)

find-append : (k : Text) (xs ys : List EnvVar) → find k (xs ++ ys) ≡ or_else (find k xs) (find k ys)
unfolding find or_else
find-append k [] ys = refl
find-append k (e ∷ xs) ys = ground (arith, find-append k xs ys)

find-overwrite :
    (k : Text) (es : List EnvVar) (m : Dict EnvVar)
    → Keyed m
    → (find k (overwrite es m).0
        ≡ elim (find k es) [ none ↦ none | some e ↦ or_else (lookup k m) (some e) ])
      × (lookup k (overwrite es m).1 ≡ elim (find k es) [ none ↦ lookup k m | some e ↦ none ])
      × Keyed (overwrite es m).1
unfolding find overwrite or_else
find-overwrite k [] m h = (refl, refl, h)
find-overwrite k (e ∷ es) m h = elim (Option-cases (lookup e.name m)) [
  | inl n ↦ ground (arith, text_eq_iff e.name k, find-overwrite k es m h)
  | inr (u, n) ↦ ground (
    arith,
    text_eq_iff e.name k,
    text_eq_iff u.name k,
    lookup-Keyed e.name m u h,
    lookup-delete e.name k m,
    find-overwrite k es (delete e.name m) (delete-Keyed e.name m h),
  )
]

delete-NodupKeys : (k : Text) (m : Dict EnvVar) → NodupKeys m → NodupKeys (delete k m)
unfolding delete has_key
delete-NodupKeys k [] h = tt
delete-NodupKeys k ((j, u) ∷ m) h =
    ground (arith, text_eq_iff k j, lookup-delete k j m, delete-NodupKeys k m)

env_map-NodupKeys : (m : Dict EnvVar) (es : List EnvVar) → NodupKeys m → NodupKeys (env_map m es)
unfolding env_map
env_map-NodupKeys m [] h = h
env_map-NodupKeys m (e ∷ es) h =
    env_map-NodupKeys (insert e.name e m) es (insert-NodupKeys e.name e m h)

values-NodupNames : (m : Dict EnvVar) → Keyed m → NodupKeys m → NodupNames (values m)
unfolding Keyed NodupNames values has_key
values-NodupNames [] h g = tt
values-NodupNames ((k, e) ∷ m) h g = (
  find-values e.name m h.1 ∙ (ap (λ n. lookup n m) h.0 ∙ absent k m g.0),
  values-NodupNames m h.1 g.1,
)
  where
    absent : (k : Text) (m : Dict EnvVar) → has_key k m ≡ false → lookup k m ≡ none
    absent k m h = ground arith

overwrite-NodupNames :
    (es : List EnvVar) (m : Dict EnvVar)
    → Keyed m
    → NodupKeys m
    → NodupNames es
    → NodupNames (overwrite es m).0 × NodupKeys (overwrite es m).1
unfolding NodupNames overwrite or_else
overwrite-NodupNames [] m h g d = (tt, g)
overwrite-NodupNames (e ∷ es) m h g d = elim (Option-cases (lookup e.name m)) [
  | inl n ↦ ground (arith, find-overwrite e.name es m h, overwrite-NodupNames es m h g d.1)
  | inr (u, n) ↦ ground (
    arith,
    lookup-Keyed e.name m u h,
    find-overwrite e.name es (delete e.name m) (delete-Keyed e.name m h),
    overwrite-NodupNames es (delete e.name m) (delete-Keyed e.name m h)
        (delete-NodupKeys e.name m g) d.1,
  )
]

append-NodupNames :
    (xs ys : List EnvVar)
    → NodupNames xs
    → NodupNames ys
    → ((k : Text) → (find k xs ≡ none) ⊎ (find k ys ≡ none))
    → NodupNames (xs ++ ys)
unfolding NodupNames or_else find
append-NodupNames [] ys h g d = g
append-NodupNames (e ∷ xs) ys h g d =
    (head_lem (d e.name), append-NodupNames xs ys h.1 g (λ k. tail_lem k (d k)))
  where
    head_lem :
        (find e.name (e ∷ xs) ≡ none) ⊎ (find e.name ys ≡ none) → find e.name (xs ++ ys) ≡ none
    head_lem c = ground (arith, find-append e.name xs ys, text_eq_refl e.name)

    tail_lem :
        (k : Text)
        → (find k (e ∷ xs) ≡ none) ⊎ (find k ys ≡ none)
        → (find k xs ≡ none) ⊎ (find k ys ≡ none)
    tail_lem k c = ground arith

merge_with-find :
    (k : Text) (orig : List EnvVar) (m : Dict EnvVar)
    → Keyed m
    → find k (merge_with (overwrite orig m)) ≡ or_else (lookup k m) (find k orig)
unfolding merge_with or_else
merge_with-find k orig m h =
    let o = find-overwrite k orig m h in
    ground (
      arith,
      find-append k (overwrite orig m).0 (values (overwrite orig m).1),
      find-values k (overwrite orig m).1 o.2,
      o.0,
      o.1,
    )

merge_with-NodupNames :
    (orig : List EnvVar) (m : Dict EnvVar)
    → Keyed m
    → NodupKeys m
    → NodupNames orig
    → NodupNames (merge_with (overwrite orig m))
unfolding merge_with
merge_with-NodupNames orig m h g d =
    let o = overwrite-NodupNames orig m h g d in
    let keyed = (find-overwrite [] orig m h).2 in
    append-NodupNames (overwrite orig m).0 (values (overwrite orig m).1) o.0
      (values-NodupNames (overwrite orig m).1 keyed o.1) split_lem
  where
    split_lem :
        (k : Text)
        → (find k (overwrite orig m).0 ≡ none) ⊎ (find k (values (overwrite orig m).1) ≡ none)
    split_lem k =
        let f = find-overwrite k orig m h in
        let v = find-values k (overwrite orig m).1 f.2 in
        elim (Option-cases (find k orig)) [
          | inl e ↦ inl (f.0 ∙ rw (e) refl)
          | inr (u, e) ↦ inr (v ∙ (f.1 ∙ rw (e) refl))
        ]

or_else-none : (o : Option EnvVar) → or_else o none ≡ o
unfolding or_else
or_else-none none = refl
or_else-none (some e) = refl

lookup-env_map :
    (k : Text) (m : Dict EnvVar) (es : List EnvVar)
    → lookup k (env_map m es) ≡ or_else (last_of k es) (lookup k m)
unfolding env_map last_of or_else
lookup-env_map k m [] = refl
lookup-env_map k m (e ∷ es) =
    lookup-env_map k (insert e.name e m) es
    ∙ ground (arith, lookup-insert e.name k e m, Option-cases (last_of k es))

-- Where no name stands twice in the original: the merge has every name at most once too, and gives it
-- the last of the updates for it, or else the original's variable. A name that neither list has, it
-- does not have.
pub merge_env_vars-find :
    (k : Text) (orig updated : List EnvVar)
    → NodupNames orig
    → NodupNames (merge_env_vars orig updated)
      × (find k (merge_env_vars orig updated) ≡ or_else (last_of k updated) (find k orig))
unfolding merge_env_vars or_else Keyed last_of lookup
merge_env_vars-find k orig [] d = (d, refl)
merge_env_vars-find k orig (u ∷ us) d =
    let keyed = env_map-Keyed [] (u ∷ us) tt in
    (
      merge_with-NodupNames orig (env_map [] (u ∷ us)) keyed (env_map-NodupKeys [] (u ∷ us) tt) d,
      merge_with-find k orig (env_map [] (u ∷ us)) keyed
          ∙ ap (λ x. or_else x (find k orig))
              (lookup-env_map k [] (u ∷ us) ∙ or_else-none (last_of k (u ∷ us))),
    )
