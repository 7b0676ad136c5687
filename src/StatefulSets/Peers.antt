-- ===== src/StatefulSets/Peers.antt =====
-- The member of etcd that a pod was (removePeer of pkg/controller/cluster/statefulset.go).
use k3k.Prelude.{
  Text, text_eq, ℕ, ◌==◌, Bool, true, false, not, ◌&&◌, ◌||◌, Option, none, some, List, [], ◌∷◌,
  ◌≡◌, ◌⊎◌, inl, inr, refl, if◌then◌else◌, arith, Bool-cases,
}
use mathlib.Core.Path.{subst}
use k3k.Api.{NamespacedName, ApiResult, ok, err, not_found}
use k3k.StatefulSets.{Member, ServerPod, EtcdApi, has_address, find_member}

unfoldable pub has_id : ℕ → List Member → Bool
has_id id [] = false
has_id id (m ∷ ms) = m.id == id || has_id id ms

unfoldable pub pod_key : ServerPod → NamespacedName
pod_key pod = record { namespace = pod.meta.namespace; name = pod.meta.name }

-- The members of etcd, and the finalizers of the stored pods. Listing reads the members, and a removal
-- without an error, or of an id that is not there, leaves none with that id. No call of etcd's touches a
-- pod, and an update of a pod no member.
pub record MemberLaws (api : EtcdApi) : Type 0 where
  pub members : api.State → List Member
  pub stored_finalizers : api.State → NamespacedName → List Text
  pub connect_members :
      (cluster namespace : Text) (s : api.State)
      → members (api.connect cluster namespace s).1 ≡ members s
  pub connect_pods :
      (cluster namespace : Text) (s : api.State) (k : NamespacedName)
      → stored_finalizers (api.connect cluster namespace s).1 k ≡ stored_finalizers s k
  pub list_result :
      (s : api.State) (ms : List Member) → (api.list_members s).0 ≡ ok ms → ms ≡ members s
  pub list_pods_kept :
      (s : api.State) (k : NamespacedName)
      → stored_finalizers (api.list_members s).1 k ≡ stored_finalizers s k
  pub remove_gone :
      (id : ℕ) (s : api.State)
      → ((api.remove_member id s).0 ≡ ok tt) ⊎ ((api.remove_member id s).0 ≡ err not_found)
      → has_id id (members (api.remove_member id s).1) ≡ false
  pub remove_pods_kept :
      (id : ℕ) (s : api.State) (k : NamespacedName)
      → stored_finalizers (api.remove_member id s).1 k ≡ stored_finalizers s k
  pub update_members :
      (pod : ServerPod) (s : api.State) → members (api.update_pod pod s).1 ≡ members s
  pub update_pod_result :
      (pod : ServerPod) (s : api.State)
      → (api.update_pod pod s).0 ≡ ok tt
      → stored_finalizers (api.update_pod pod s).1 (pod_key pod) ≡ pod.meta.finalizers

abbrev pub Among : Member → List Member → Type 0
Among m [] = ⊥
Among m (x ∷ xs) = (x ≡ m) ⊎ Among m xs

module _ (api : EtcdApi) where
  -- The host of the URL is the address.
  unfoldable pub is_at : Text → Text → Bool
  is_at address u = elim (api.hostname u) [ ok host ↦ text_eq host address | err e ↦ false ]

  unfoldable pub any_at : Text → List Text → Bool
  unfolding is_at
  any_at address [] = false
  any_at address (u ∷ us) = is_at address u || any_at address us

  -- The member of a pod: the name of the member contains the pod's, and one of its URLs is on the pod's
  -- address.
  unfoldable pub is_peer : Text → Text → Member → Bool
  unfolding any_at
  is_peer name address m = api.contains_text m.name name && any_at address m.peer_urls

  unfoldable pub has_peer : Text → Text → List Member → Bool
  unfolding is_peer
  has_peer name address [] = false
  has_peer name address (m ∷ ms) = is_peer name address m || has_peer name address ms

  -- No member was the pod's, or one that was is not among the members any more.
  abbrev pub HasLeft : ServerPod → List Member → List Member → Type 0
  HasLeft pod before after =
      (has_peer pod.meta.name pod.ip before ≡ false)
      ⊎ ((m : Member) × Among m before
          × (is_peer pod.meta.name pod.ip m ≡ true)
          × (has_id m.id after ≡ false))

  -- What the search says of its members.
  abbrev pub Found : Text → Text → List Member → Option Member → Type 0
  Found name address ms none = has_peer name address ms ≡ false
  Found name address ms (some m) = Among m ms × (is_peer name address m ≡ true)

  has_address-any_at :
      (address : Text) (us : List Text) (b : Bool)
      → has_address api address us ≡ ok b
      → any_at address us ≡ b
  unfolding has_address any_at is_at
  has_address-any_at address [] b h = ground (arith, h)
  has_address-any_at address (u ∷ us) b h =
      go (api.hostname u) (has_address api address us) (any_at address us)
        (has_address-any_at address us b) h
    where
      go :
          (r : ApiResult Text) (rest : ApiResult Bool) (any : Bool)
          → (rest ≡ ok b → any ≡ b)
          → (elim r as (λ x. ApiResult Bool) [
            | ok host ↦ if text_eq host address then ok true else rest
            | err e ↦ err e
          ])
            ≡ ok b
          → ((elim r as (λ x. Bool) [ ok host ↦ text_eq host address | err e ↦ false ]) || any) ≡ b
      go (ok host) rest any k e = elim (Bool-cases (text_eq host address)) [
        | inl t ↦ ground (arith, t, e)
        | inr t ↦ rw (t) (k (ground (arith, t, e)))
      ]
      go (err x) rest any k e = absurd (cc e)

  skip-Found :
      (name address : Text) (m : Member) (ms : List Member) (found : Option Member)
      → is_peer name address m ≡ false
      → Found name address ms found
      → Found name address (m ∷ ms) found
  unfolding has_peer
  skip-Found name address m ms none e h = rw (e) h
  skip-Found name address m ms (some x) e h = (inr h.0, h.1)

  is_peer_with :
      (name address : Text) (m : Member) (c b : Bool)
      → api.contains_text m.name name ≡ c
      → any_at address m.peer_urls ≡ b
      → is_peer name address m ≡ (c && b)
  unfolding is_peer
  is_peer_with name address m c b e f = rw (e, f) refl

  some_found :
      {A : Type 0} (a : A) (found : Option A) → ApiResult.ok (some a) ≡ ok found → some a ≡ found
  some_found a found h = cc

  pub find_member-Found :
      (name address : Text) (ms : List Member) (found : Option Member)
      → find_member api name address ms ≡ ok found
      → Found name address ms found
  unfolding find_member has_peer
  find_member-Found name address [] none h = refl
  find_member-Found name address [] (some x) h = absurd (cc h)
  find_member-Found name address (m ∷ ms) found h =
      go (find_member-Found name address ms found) (api.contains_text m.name name) refl
        (has_address api address m.peer_urls) refl h
    where
      go :
          (find_member api name address ms ≡ ok found → Found name address ms found)
          → (c : Bool) → api.contains_text m.name name ≡ c
          → (r : ApiResult Bool) → has_address api address m.peer_urls ≡ r
          → (if not c
              then find_member api name address ms
              else (elim r as (λ x. ApiResult (Option Member)) [
                | ok b ↦ if b then ok (some m) else find_member api name address ms
                | err e ↦ err e
              ]))
            ≡ ok found
          → Found name address (m ∷ ms) found
      go k false e r f g =
          skip-Found name address m ms found (is_peer_with name address m false _ e refl) (k g)
      go k true e (err x) f g = absurd (cc g)
      go k true e (ok false) f g =
          skip-Found name address m ms found
            (is_peer_with name address m true false e
              (has_address-any_at address m.peer_urls false f))
            (k g)
      go k true e (ok true) f g = subst (Found name address (m ∷ ms)) (some_found m found g) (
        inl refl,
        is_peer_with name address m true true e (has_address-any_at address m.peer_urls true f),
      )
