-- ===== src/Pods/Retry.antt =====
-- `withRetry` of k3k-kubelet/provider/provider.go. `wait.PollUntilContextTimeout` calls a function at
-- once and then after each interval of a second, until it is done or ten seconds have passed. It is the
-- parameter `poll`; how many calls fit into the time is the `n` of a hypothesis.
use k3k.Prelude.{
  text, ℕ, zero, suc, Bool, true, false, List, [], ◌∷◌, ◌++◌, ◌≡◌, refl, ap, sym, ◌∙◌, arith,
  if◌then◌else◌,
}
use k3k.Api.{ApiError, ApiResult, ok, err, other}
use mathlib.Core.Path.{subst}
use k3k.Action.{Action, Done, Keeps, Ends, Any}

-- `retryFn`: the errors so far are a variable that it shares with its caller.
unfoldable pub record_attempt : List ApiError → ApiResult Done → Bool × List ApiError
record_attempt errors (ok _) = (true, errors)
record_attempt errors (err e) = (false, errors ++ e ∷ [])

module _ {S : Type 0} where
  unfoldable pub retry_fn : Action S Done → List ApiError × S → Bool × (List ApiError × S)
  unfolding record_attempt
  retry_fn f (errors, s) =
      let (r, s') = f s in let (done, errors') = record_attempt errors r in (done, (errors', s'))

  -- The joined errors, and the timeout.
  unfoldable pub retry_result : Bool × (List ApiError × S) → List ApiError × S
  unfolding text
  retry_result (true, (errors, s)) = ([], s)
  retry_result (false, (errors, s)) = (errors ++ other (text "provider timed out") ∷ [], s)

  unfoldable pub with_retry :
      ((List ApiError × S → Bool × (List ApiError × S))
        → List ApiError × S
        → Bool × (List ApiError × S))
      → Action S Done
      → S
      → List ApiError × S
  unfolding retry_fn retry_result
  with_retry poll f s = retry_result (poll (retry_fn f) ([], s))

-- What the poll does: at most `n` calls, until one is done.
unfoldable pub attempts : {X : Type 0} → ℕ → (X → Bool × X) → X → Bool × X
attempts zero f x = (false, x)
attempts (suc n) f x =
    let (done, x') = f x in let rest = attempts n f x' in if done then (true, x') else rest

unfoldable pub succeeds : ApiResult Done → Bool
succeeds (ok _) = true
succeeds (err e) = false

unfoldable pub is_nil : List ApiError → Bool
is_nil [] = true
is_nil (_ ∷ _) = false

record_attempt-done :
    (errors : List ApiError) (r : ApiResult Done) → (record_attempt errors r).0 ≡ succeeds r
unfolding record_attempt succeeds
record_attempt-done errors (ok x) = refl
record_attempt-done errors (err e) = refl

module _ {S : Type 0} where
  -- One of the first `n` calls has no error.
  unfoldable pub some_succeeds : ℕ → Action S Done → S → Bool
  unfolding succeeds
  some_succeeds zero f s = false
  some_succeeds (suc n) f s =
      let rest = some_succeeds n f (f s).1 in if succeeds (f s).0 then true else rest

  attempts-done :
      (n : ℕ) (f : Action S Done) (errors : List ApiError) (s : S)
      → (attempts n (retry_fn f) (errors, s)).0 ≡ some_succeeds n f s
  unfolding attempts retry_fn some_succeeds
  attempts-done zero f errors s = refl
  attempts-done (suc n) f errors s = ground (
    arith,
    record_attempt-done errors (f s).0,
    attempts-done n f (record_attempt errors (f s).0).1 (f s).1,
  )

  retry_result-is_nil : (x : Bool × (List ApiError × S)) → is_nil (retry_result x).0 ≡ x.0
  unfolding retry_result is_nil
  retry_result-is_nil (true, (errors, s)) = refl
  retry_result-is_nil (false, ([], s)) = refl
  retry_result-is_nil (false, (e ∷ errors, s)) = refl

  -- Where the poll calls the function until it is done, `n` times at most: the retried function returns no error exactly when one of
  -- the first `n` calls has none, whatever errors the calls before it had.
  pub with_retry-is_nil :
      (poll : (List ApiError × S → Bool × (List ApiError × S))
        → List ApiError × S
        → Bool × (List ApiError × S))
      (n : ℕ) (f : Action S Done) (s : S)
      → poll (retry_fn f) ([], s) ≡ attempts n (retry_fn f) ([], s)
      → is_nil (with_retry poll f s).0 ≡ some_succeeds n f s
  unfolding with_retry
  with_retry-is_nil poll n f s polls =
      retry_result-is_nil (poll (retry_fn f) ([], s))
      ∙ (ap (λ x. x.0) polls ∙ attempts-done n f [] s)

  -- What every call keeps, the retried function keeps.
  attempts-kept :
      (Q : S → Type 0) (f : Action S Done)
      → Keeps Q Any f
      → (n : ℕ) (errors : List ApiError) (s : S) → Q s
      → Q (attempts n (retry_fn f) (errors, s)).1.1
  unfolding attempts retry_fn Keeps
  attempts-kept Q f h zero errors s q = q
  attempts-kept Q f h (suc n) errors s q =
      go (record_attempt errors (f s).0).0 _ _
        (attempts n (retry_fn f) ((record_attempt errors (f s).0).1, (f s).1))
        (ends-kept (f s) (h s q))
        (attempts-kept Q f h n (record_attempt errors (f s).0).1 (f s).1 (ends-kept (f s) (h s q)))
    where
      ends-kept : (x : ApiResult Done × S) → Ends Q Any x → Q x.1
      ends-kept (ok a, s) e = e.1
      ends-kept (err a, s) e = e

      go :
          {E : Type 0} (done : Bool) (errors : E) (s : S) (x : Bool × (E × S))
          → Q s
          → Q x.1.1
          → Q (if done then (true, (errors, s)) else x).1.1
      go true errors s x a b = a
      go false errors s x a b = b

  retry_result-state : (x : Bool × (List ApiError × S)) → (retry_result x).1 ≡ x.1.1
  unfolding retry_result
  retry_result-state (true, (errors, s)) = refl
  retry_result-state (false, (errors, s)) = refl

  pub with_retry-kept :
      (Q : S → Type 0)
      (poll : (List ApiError × S → Bool × (List ApiError × S))
        → List ApiError × S
        → Bool × (List ApiError × S))
      (n : ℕ) (f : Action S Done) (s : S)
      → poll (retry_fn f) ([], s) ≡ attempts n (retry_fn f) ([], s)
      → Keeps Q Any f
      → Q s
      → Q (with_retry poll f s).1
  unfolding with_retry
  with_retry-kept Q poll n f s polls h q =
      subst Q (sym (retry_result-state (poll (retry_fn f) ([], s)) ∙ ap (λ x. x.1.1) polls))
        (attempts-kept Q f h n [] s q)
