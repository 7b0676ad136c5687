-- ===== src/Action.antt =====
-- Go functions that call API servers and return an error: a state and exceptions. The state comes back
-- after an error too, since a call that was made stays made. A function that returns only an error
-- has the result type Unit.
use k3k.Prelude.{Bool, true, false, List, [], ◌∷◌, ◌++◌, ◌≡◌, refl, ap, arith}
use k3k.Api.{ApiError, ApiResult, ok, err}

abbrev pub Action : Type 0 → Type 0 → Type 0
Action S A = S → ApiResult A × S

abbrev pub Done : Type 0
Done = Unit {0}

module _ {S A : Type 0} where
  unfoldable pub pure : A → Action S A
  pure a s = (ok a, s)

  unfoldable pub raise : ApiError → Action S A
  raise e s = (err e, s)

  -- A result that depends on the state.
  unfoldable pub gets : (S → A) → Action S A
  gets f s = (ok (f s), s)

  unfoldable pub of_result : ApiResult A → Action S A
  of_result r s = (r, s)

module _ {S : Type 0} where
  unfoldable pub raise_if : Bool → ApiError → Action S Done
  raise_if c e s = (elim c [ true ↦ err e | false ↦ ok tt ], s)

  -- `if c { … }`.
  unfoldable pub when_true : Bool → Action S Done → Action S Done
  when_true c m s = elim c [ true ↦ m s | false ↦ (ok tt, s) ]

infixl 5 ◌>>=◌ ◌>>◌
unfoldable pub ◌>>=◌ : {S A B : Type 0} → Action S A → (A → Action S B) → Action S B
◌>>=◌ m f s = let (r, s') = m s in elim r [ ok a ↦ f a s' | err e ↦ (err e, s') ]

abbrev pub ◌>>◌ : {S A B : Type 0} → Action S A → Action S B → Action S B
m >> k = m >>= λ _. k

-- An action next to a variable that it does not touch, and actions on the variable.
unfoldable pub beside : {S A X : Type 0} → Action S A → Action (X × S) A
beside m (x, s) = let (r, s') = m s in (r, (x, s'))

unfoldable pub modify : {S X : Type 0} → (X → X) → Action (X × S) Done
modify f (x, s) = (ok tt, (f x, s))

unfoldable pub current : {S X : Type 0} → Action (X × S) X
current (x, s) = (ok x, (x, s))

-- The error of a call as a value, for callers that go on after it.
unfoldable pub attempt : {S A : Type 0} → Action S A → Action S (ApiResult A)
attempt m s = let (r, s') = m s in (ok r, s')

abbrev pub error_of : {A : Type 0} → ApiResult A → List ApiError
error_of (ok a) = []
error_of (err e) = e ∷ []

-- Nothing is promised of the result.
abbrev pub Any : {A : Type 0} → A → Type 0
Any _ = Unit {0}

-- What an action may assume of the state it starts in and promises of the one it ends in: `Q`, and of
-- its result, where it has one, `P`.
module _ {S : Type 0} (Q : S → Type 0) where
  abbrev pub Ends : {A : Type 0} → (A → Type 0) → ApiResult A × S → Type 0
  Ends P (ok a, s) = P a × Q s
  Ends P (err e, s) = Q s

  unfoldable pub Keeps : {A : Type 0} → (A → Type 0) → Action S A → Type 0
  Keeps P m = (s : S) → Q s → Ends P (m s)

  bind-Ends :
      {A B : Type 0} (P : A → Type 0) (R : B → Type 0) (f : A → Action S B)
      → ((a : A) → P a → Keeps R (f a))
      → (x : ApiResult A × S) → Ends P x
      → Ends R (elim x.0 [ ok a ↦ f a x.1 | err e ↦ (err e, x.1) ])
  unfolding Keeps
  bind-Ends P R f k (ok a, s) h = k a h.0 s h.1
  bind-Ends P R f k (err e, s) h = h

  pub bind-Keeps :
      {A B : Type 0} (P : A → Type 0) (R : B → Type 0) (m : Action S A) (f : A → Action S B)
      → Keeps P m
      → ((a : A) → P a → Keeps R (f a))
      → Keeps R (m >>= f)
  unfolding Keeps ◌>>=◌
  bind-Keeps P R m f h k s q = bind-Ends P R f k (m s) (h s q)

  weaken-Ends :
      {A : Type 0} (P R : A → Type 0)
      → ((a : A) → P a → R a)
      → (x : ApiResult A × S) → Ends P x
      → Ends R x
  weaken-Ends P R k (ok a, s) h = (k a h.0, h.1)
  weaken-Ends P R k (err e, s) h = h

  pub weaken-Keeps :
      {A : Type 0} (P R : A → Type 0) (m : Action S A)
      → ((a : A) → P a → R a)
      → Keeps P m
      → Keeps R m
  unfolding Keeps
  weaken-Keeps P R m k h s q = weaken-Ends P R k (m s) (h s q)

  attempt-Ends :
      {A : Type 0} (P : A → Type 0) (x : ApiResult A × S) → Ends P x → Ends Any (ok x.0, x.1)
  attempt-Ends P (ok a, s) h = (tt, h.1)
  attempt-Ends P (err e, s) h = (tt, h)

  pub attempt-Keeps :
      {A : Type 0} (P : A → Type 0) (m : Action S A) → Keeps P m → Keeps Any (attempt m)
  unfolding Keeps attempt
  attempt-Keeps P m h s q = attempt-Ends P (m s) (h s q)

  pub when_true-Keeps : (c : Bool) (m : Action S Done) → Keeps Any m → Keeps Any (when_true c m)
  unfolding Keeps when_true
  when_true-Keeps true m h s q = h s q
  when_true-Keeps false m h s q = (tt, q)

  pub raise_if-Keeps : (c : Bool) (e : ApiError) → Keeps (λ _. c ≡ false) (raise_if c e)
  unfolding Keeps raise_if
  raise_if-Keeps true e s q = q
  raise_if-Keeps false e s q = (refl, q)

  pub pure-Keeps : {A : Type 0} (P : A → Type 0) (a : A) → P a → Keeps P (pure a)
  unfolding Keeps pure
  pure-Keeps P a h s q = (h, q)

  pub gets-Keeps : {A : Type 0} (f : S → A) → Keeps Any (gets f)
  unfolding Keeps gets
  gets-Keeps f s q = (tt, q)

  pub of_result-Keeps : {A : Type 0} (r : ApiResult A) → Keeps Any (of_result r)
  unfolding Keeps of_result
  of_result-Keeps (ok a) s q = (tt, q)
  of_result-Keeps (err e) s q = q

-- A chain that succeeds has a first action that succeeds, and goes on from its result.
pub bind-ok :
    {S A B : Type 0} (m : Action S A) (f : A → Action S B) (s : S) (b : B)
    → ((m >>= f) s).0 ≡ ok b
    → (a : A) × ((m s).0 ≡ ok a) × ((m >>= f) s ≡ f a (m s).1)
unfolding ◌>>=◌
bind-ok {S} {A} {B} m f s b h = go (m s) h
  where
    go :
        (x : ApiResult A × S)
        → (elim x.0 as (λ x'. ApiResult B × S) [ ok a ↦ f a x.1 | err e ↦ (err e, x.1) ]).0 ≡ ok b
        → (a : A) × (x.0 ≡ ok a)
          × ((elim x.0 as (λ x'. ApiResult B × S) [ ok a ↦ f a x.1 | err e ↦ (err e, x.1) ])
              ≡ f a x.1)
    go (ok a, s') h = (a, refl, refl)
    go (err e, s') h = ground arith

pub bind_after_ok :
    {S A B : Type 0} (m : Action S A) (f : A → Action S B) (s : S) (a : A)
    → (m s).0 ≡ ok a
    → (m >>= f) s ≡ f a (m s).1
unfolding ◌>>=◌
bind_after_ok {S} {A} {B} m f s a h =
    ap (λ r. elim r as (λ x'. ApiResult B × S) [ ok a ↦ f a (m s).1 | err e ↦ (err e, (m s).1) ]) h

pub bind_after_err :
    {S A B : Type 0} (m : Action S A) (f : A → Action S B) (s : S) (e : ApiError)
    → (m s).0 ≡ err e
    → (m >>= f) s ≡ (err e, (m s).1)
unfolding ◌>>=◌
bind_after_err {S} {A} {B} m f s e h =
    ap (λ r. elim r as (λ x'. ApiResult B × S) [ ok a ↦ f a (m s).1 | err e ↦ (err e, (m s).1) ]) h

-- A loop that collects errors and has none to show went through every call.
pub collect-ok :
    {S : Type 0} (m : Action S Done) (rest : Action S (List ApiError)) (s : S)
    → ((attempt m >>= λ r. rest >>= λ es. pure (error_of r ++ es)) s).0 ≡ ok []
    → ((m s).0 ≡ ok tt)
      × ((rest (m s).1).0 ≡ ok [])
      × (((attempt m >>= λ r. rest >>= λ es. pure (error_of r ++ es)) s).1 ≡ (rest (m s).1).1)
unfolding ◌>>=◌ attempt pure
collect-ok {S} m rest s h = go (m s).0 (rest (m s).1) h
  where
    go :
        (r : ApiResult Done) (y : ApiResult (List ApiError) × S)
        → (elim y.0 as (λ x'. ApiResult (List ApiError) × S) [
          | ok es ↦ (ok (error_of r ++ es), y.1)
          | err e ↦ (err e, y.1)
        ]).0
          ≡ ok []
        → (r ≡ ok tt)
          × (y.0 ≡ ok [])
          × ((elim y.0 as (λ x'. ApiResult (List ApiError) × S) [
            | ok es ↦ (ok (error_of r ++ es), y.1)
            | err e ↦ (err e, y.1)
          ]).1
              ≡ y.1)
    go (ok a) (ok es, s') h = (refl, h, refl)
    go (err e) (ok es, s') h = ground arith
    go r (err e, s') h = ground arith
