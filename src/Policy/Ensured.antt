-- ===== src/Policy/Ensured.antt =====
-- What the objects of a policy are after a reconciliation without an error.
use k3k.Prelude.{Text, Option, none, some, ◌≡◌, refl, ap, sym, ◌∙◌, arith}
use k3k.Api.{NamespacedName, ApiResult, ok, err, not_found, already_exists, other, ignore_not_found}
use k3k.Action.{Done, of_result, ◌>>=◌}
use k3k.Policy.{Policy, OwnedObject, given_spec, Kind, PolicyApi}
use k3k.Policy.Owned.{
  reconcile_given, create_or_update_owned, delete_found, owned_key, owned_meta, or_update,
}

abbrev pub object_key : OwnedObject → NamespacedName
object_key o = record { namespace = o.meta.namespace; name = o.meta.name }

-- The documented behaviour of the calls for objects of the three kinds: `content` is what the server
-- keeps under a name, and `stored` what it keeps of an object that is written.
pub record OwnedLaws (api : PolicyApi) : Type 0 where
  pub content : Kind → api.State → NamespacedName → Option OwnedObject
  pub stored : OwnedObject → OwnedObject
  pub get_not_found :
      (kind : Kind) (n : NamespacedName) (s : api.State)
      → (api.get_owned kind n s).0 ≡ err not_found
      → content kind (api.get_owned kind n s).1 n ≡ none
  pub get_found :
      (kind : Kind) (n : NamespacedName) (s : api.State) (o : OwnedObject)
      → (api.get_owned kind n s).0 ≡ ok o
      → object_key o ≡ n
  pub create_stores :
      (kind : Kind) (o : OwnedObject) (s : api.State)
      → (api.create_owned kind o s).0 ≡ ok tt
      → content kind (api.create_owned kind o s).1 (object_key o) ≡ some (stored o)
  pub update_stores :
      (kind : Kind) (o : OwnedObject) (s : api.State)
      → (api.update_owned kind o s).0 ≡ ok tt
      → content kind (api.update_owned kind o s).1 (object_key o) ≡ some (stored o)
  pub delete_removes :
      (kind : Kind) (o : OwnedObject) (s : api.State)
      → (api.delete_owned kind o s).0 ≡ ok tt
      → content kind (api.delete_owned kind o s).1 (object_key o) ≡ none
  pub set_controller_key :
      (policy : Policy) (o o' : OwnedObject)
      → api.set_controller policy o ≡ ok o'
      → (object_key o' ≡ object_key o) × (o'.spec ≡ o.spec)

module _ (sha256 : Text → Text) (api : PolicyApi) (laws : OwnedLaws api) (kind : Kind)
    (namespace : Text) (policy : Policy) where
  -- What the server should keep: nothing, or what `stored` makes of an object with the given
  -- specification.
  unfoldable pub IsWanted : Option Text → Option OwnedObject → Type 0
  IsWanted none found = found ≡ none
  IsWanted (some spec) found =
      (o : OwnedObject) × (found ≡ some (laws.stored o))
      × (o.spec ≡ given_spec spec)
      × (object_key o ≡ owned_key sha256 policy namespace)

  create_or_update_owned-stored :
      (o : OwnedObject) (s : api.State)
      → (create_or_update_owned sha256 api kind o s).0 ≡ ok tt
      → laws.content kind (create_or_update_owned sha256 api kind o s).1 (object_key o)
        ≡ some (laws.stored o)
  unfolding create_or_update_owned or_update
  create_or_update_owned-stored o s h = go (api.create_owned kind o s) refl h
    where
      go :
          (r : ApiResult Done × api.State)
          → api.create_owned kind o s ≡ r
          → (or_update (api.update_owned kind o) r).0 ≡ ok tt
          → laws.content kind (or_update (api.update_owned kind o) r).1 (object_key o)
            ≡ some (laws.stored o)
      go (ok tt, s') e h =
          ap (λ x. laws.content kind x.1 (object_key o)) (sym e)
          ∙ laws.create_stores kind o s (ap (λ x. x.0) e)
      go (err already_exists, s') e h = laws.update_stores kind o s' h
      go (err not_found, s') e h = ground arith
      go (err (other x), s') e h = ground arith

  delete_found-removes :
      (s : api.State)
      → (delete_found sha256 api kind (api.get_owned kind (owned_key sha256 policy namespace) s)).0
        ≡ ok tt
      → laws.content kind
          (delete_found sha256 api kind
            (api.get_owned kind (owned_key sha256 policy namespace) s)).1
          (owned_key sha256 policy namespace)
        ≡ none
  unfolding delete_found ignore_not_found
  delete_found-removes s h = go (api.get_owned kind (owned_key sha256 policy namespace) s) refl h
    where
      go :
          (r : ApiResult OwnedObject × api.State)
          → api.get_owned kind (owned_key sha256 policy namespace) s ≡ r
          → (delete_found sha256 api kind r).0 ≡ ok tt
          → laws.content kind (delete_found sha256 api kind r).1 (owned_key sha256 policy namespace)
            ≡ none
      go (ok o, s') e h =
          ap (laws.content kind (api.delete_owned kind o s').1)
            (sym (laws.get_found kind _ s o (ap (λ x. x.0) e)))
          ∙ laws.delete_removes kind o s' h
      go (err not_found, s') e h =
          ap (λ x. laws.content kind x.1 (owned_key sha256 policy namespace)) (sym e)
          ∙ laws.get_not_found kind _ s (ap (λ x. x.0) e)
      go (err already_exists, s') e h = ground arith
      go (err (other x), s') e h = ground arith

  -- A reconciliation of a quota or of limits that has no error leaves on the server what the policy asks
  -- for under the policy's name: nothing, where the policy sets none, and otherwise an object of that
  -- name with the policy's specification, whether it was there before or not.
  pub reconcile_given-IsWanted :
      (spec : Option Text) (s : api.State)
      → (reconcile_given sha256 api kind spec namespace policy s).0 ≡ ok tt
      → IsWanted spec (
          laws.content kind
            (reconcile_given sha256 api kind spec namespace policy s).1
            (owned_key sha256 policy namespace))
  unfolding reconcile_given IsWanted ◌>>=◌ of_result owned_key
  reconcile_given-IsWanted none s h = delete_found-removes s h
  reconcile_given-IsWanted (some spec) s h =
      go
        (api.set_controller policy
          (record { meta = owned_meta sha256 policy namespace; spec = given_spec spec }))
        refl h
    where
      go :
          (r : ApiResult OwnedObject)
          → api.set_controller policy
              (record { meta = owned_meta sha256 policy namespace; spec = given_spec spec })
            ≡ r
          → ((of_result r >>= create_or_update_owned sha256 api kind) s).0 ≡ ok tt
          → IsWanted (some spec) (
              laws.content kind
                ((of_result r >>= create_or_update_owned sha256 api kind) s).1
                (owned_key sha256 policy namespace))
      go (ok o) e h =
          let keys = laws.set_controller_key policy _ o e in
          (
            o,
            ap (laws.content kind (create_or_update_owned sha256 api kind o s).1) (sym keys.0)
                ∙ create_or_update_owned-stored o s h,
            keys.1,
            keys.0,
          )
      go (err x) e h = ground arith
