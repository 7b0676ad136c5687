-- ===== src/Api.antt =====
-- The metadata of Kubernetes objects, as far as the program reads and writes it.
pub mod Memory
use k3k.Prelude.{
  Text, text_eq, text_eq_refl, contains, Dict, Bool, true, false, not, ◌&&◌, List, Option, none,
  some, ◌≡◌, arith, if◌then◌else◌,
}

pub record ObjectMeta : Type 0 where
  pub name : Text
  pub namespace : Text
  pub labels : Dict Text
  pub annotations : Dict Text
  pub owner_references : List Text  -- the UIDs of the owners
  pub finalizers : List Text
  pub resource_version : Text
  pub uid : Text
  pub is_deleting : Bool  -- `!DeletionTimestamp.IsZero()`

-- `types.NamespacedName`.
pub record NamespacedName : Type 0 where
  pub namespace : Text
  pub name : Text

-- An object of any kind: its metadata, and what its kind adds.
pub record Object (P : Type 0) : Type 0 where
  pub meta : ObjectMeta
  pub payload : P

-- The errors that the program tells apart.
pub data ApiError : Type 0 where
  not_found : ApiError
  already_exists : ApiError
  other : Text → ApiError

pub data ApiResult (A : Type 0) : Type 0 where
  ok : A → ApiResult A
  err : ApiError → ApiResult A

unfoldable pub same_name : NamespacedName → NamespacedName → Bool
unfolding text_eq
same_name a b = text_eq a.namespace b.namespace && text_eq a.name b.name

pub same_name_refl : (a : NamespacedName) → same_name a a ≡ true
unfolding same_name
same_name_refl a = ground (arith, text_eq_refl a.namespace, text_eq_refl a.name)

-- `client.ObjectKeyFromObject`.
unfoldable pub key_of : {P : Type 0} → Object P → NamespacedName
key_of o = record { namespace = o.meta.namespace; name = o.meta.name }

-- `client.IgnoreNotFound`.
unfoldable pub ignore_not_found : ApiError → Option ApiError
ignore_not_found not_found = none
ignore_not_found already_exists = some already_exists
ignore_not_found (other e) = some (other e)

-- `err != nil && !apierrors.IsNotFound(err)`.
unfoldable pub is_fatal : Option ApiError → Bool
is_fatal none = false
is_fatal (some not_found) = false
is_fatal (some already_exists) = true
is_fatal (some (other e)) = true

-- A client of an API server for one kind of object (sigs.k8s.io/controller-runtime). Every call may
-- fail, and takes the state of the server to its next state.
pub record Client (P : Type 0) : Type 1 where
  pub State : Type 0
  pub get : NamespacedName → State → ApiResult (Object P) × State
  pub create : Object P → State → Option ApiError × State
  pub update : Object P → State → Option ApiError × State
  pub delete : Object P → State → Option ApiError × State
  pub content : State → NamespacedName → Option (Object P)
  pub stored : Object P → Option (Object P)

-- The documented behaviour of the calls, in terms of what the server keeps under a name. `stored o` is
-- what it keeps of a written object: nothing, where the last finalizer of a deleted object is gone.
pub record ClientLaws {P : Type 0} (c : Client P) : Type 0 where
  pub get-content : (n m : NamespacedName) (s : c.State) → c.content (c.get n s).1 m ≡ c.content s m
  pub create-content :
      (o : Object P) (m : NamespacedName) (s : c.State)
      → (c.create o s).0 ≡ none
      → c.content (c.create o s).1 m
        ≡ (if same_name (key_of o) m then c.stored o else c.content s m)
  pub update-content :
      (o : Object P) (m : NamespacedName) (s : c.State)
      → (c.update o s).0 ≡ none
      → c.content (c.update o s).1 m
        ≡ (if same_name (key_of o) m then c.stored o else c.content s m)
  pub delete-content :
      (o : Object P) (m : NamespacedName) (s : c.State)
      → is_fatal (c.delete o s).0 ≡ false
      → c.content (c.delete o s).1 m ≡ (if same_name (key_of o) m then none else c.content s m)

-- The finalizer helpers of controllerutil: the new list, and whether it differs.
pub record FinalizerUtil : Type 0 where
  pub add : Text → List Text → List Text × Bool
  pub remove : Text → List Text → List Text × Bool

pub record FinalizerLaws (u : FinalizerUtil) : Type 0 where
  pub add-contains : (f : Text) (fs : List Text) → contains (u.add f fs).0 f ≡ true
  pub add_changes : (f : Text) (fs : List Text) → (u.add f fs).1 ≡ not (contains fs f)
  pub remove-contains : (f : Text) (fs : List Text) → contains (u.remove f fs).0 f ≡ false
  pub remove_changes : (f : Text) (fs : List Text) → (u.remove f fs).1 ≡ contains fs f
