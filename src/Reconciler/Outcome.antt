-- ===== src/Reconciler/Outcome.antt =====
-- Which runs lead to the reconciliation of a Cluster
-- (pkg/controller/cluster/cluster.go).
use k3k.Prelude.{
  Text, text, contains, ℕ, zero, suc, ◌+◌, Bool, true, false, not, ◌&&◌, Option, none, some, List,
  ◌≡◌, refl, ap, sym, ◌∙◌, if◌then◌else◌, arith, Bool-cases, inl, inr,
}
use mathlib.Core.Path.{subst}
use k3k.Api.{NamespacedName, ApiResult, ok, err, FinalizerLaws}
use k3k.Action.{attempt, pure, bind-ok, ◌>>=◌}
use k3k.Status.{Phase, provisioning}
use k3k.Reconciler.{ClusterApi, ClusterParts, ClusterObject}
use k3k.Reconciler.Finalize.{cluster_finalizer_name, with_finalizers}
use k3k.Reconciler.Run.{
  Environment, Requeue, reconcile_live, reconcile_read, reconcile_request, run_reconciliation,
  set_status, initial_status,
}

module _ (env : Environment) (api : ClusterApi) (parts : ClusterParts api.State) where
  unfoldable pub lacks_phase : Option Phase → ℕ
  lacks_phase none = 1
  lacks_phase (some phase) = 0

  -- How many runs a Cluster needs before the run that reconciles it.
  unfoldable pub steps_left : ClusterObject → ℕ
  unfolding lacks_phase contains text
  steps_left c =
      lacks_phase c.status.phase
      + (if contains c.meta.finalizers cluster_finalizer_name then 0 else 1)

-- The server of the Clusters: what it keeps under a name, with the status apart, as a subresource.
pub record ServerLaws (api : ClusterApi) (req : NamespacedName) : Type 1 where
  pub IsKept : api.State → ClusterObject → Type 0
  pub get_kept :
      (s : api.State) (c : ClusterObject)
      → IsKept s c
      → ((api.get_cluster req s).0 ≡ ok c) × IsKept (api.get_cluster req s).1 c
  pub update_kept :
      (s : api.State) (old c w : ClusterObject)
      → IsKept s old
      → (api.update_cluster c s).0 ≡ ok w
      → IsKept (api.update_cluster c s).1 w
        × (w.meta.finalizers ≡ c.meta.finalizers)
        × (w.meta.is_deleting ≡ old.meta.is_deleting)
        × (w.status.phase ≡ old.status.phase)
  pub status_kept :
      (s : api.State) (old c w : ClusterObject)
      → IsKept s old
      → (api.update_status c s).0 ≡ ok w
      → IsKept (api.update_status c s).1 w
        × (w.meta.finalizers ≡ old.meta.finalizers)
        × (w.meta.is_deleting ≡ old.meta.is_deleting)
        × (w.status.phase ≡ c.status.phase)

abbrev pub is_ok : ApiResult Requeue → Bool
is_ok (ok r) = true
is_ok (err e) = false

module _ (env : Environment) (api : ClusterApi) (parts : ClusterParts api.State)
    (req : NamespacedName) (laws : ServerLaws api req) (util : FinalizerLaws env.finalizers) where
  -- The server keeps a live Cluster that needs `n` more runs.
  unfoldable pub Needs : ℕ → api.State → Type 0
  Needs n s =
      (c : ClusterObject) × laws.IsKept s c
      × (c.meta.is_deleting ≡ false)
      × (steps_left env api parts c ≡ n)

  unfoldable pub runs : ℕ → api.State → api.State
  unfolding reconcile_request
  runs zero s = s
  runs (suc n) s = runs n (reconcile_request env api parts req s).1

  -- None of the first runs has an error.
  unfoldable pub run_well : ℕ → api.State → Bool
  unfolding reconcile_request
  run_well zero s = true
  run_well (suc n) s =
      is_ok (reconcile_request env api parts req s).0
      && run_well n (reconcile_request env api parts req s).1

  missing : List Text → ℕ
  missing fs = if contains fs cluster_finalizer_name then 0 else 1

  run_eq :
      (s : api.State) (c : ClusterObject)
      → (api.get_cluster req s).0 ≡ ok c
      → c.meta.is_deleting ≡ false
      → reconcile_request env api parts req s
        ≡ reconcile_live env api parts c.status.phase c (api.get_cluster req s).1
  unfolding reconcile_request reconcile_read ◌>>=◌ attempt
  run_eq s c e d =
      ap (λ r. reconcile_read env api parts r (api.get_cluster req s).1) e ∙ rw (d) refl

  steps_lem :
      (c w : ClusterObject) (a b : Option Phase) (fs gs : List Text)
      → c.status.phase ≡ a
      → w.status.phase ≡ b
      → c.meta.finalizers ≡ fs
      → w.meta.finalizers ≡ gs
      → lacks_phase env api parts a + missing fs ≡ suc (lacks_phase env api parts b + missing gs)
      → (n : ℕ) → steps_left env api parts c ≡ suc n
      → steps_left env api parts w ≡ n
  unfolding steps_left missing
  steps_lem c w a b fs gs pa pb pf pg e n h = omega (
    arith,
    e,
    ap (λ x. lacks_phase env api parts x + missing c.meta.finalizers) pa,
    ap (λ x. lacks_phase env api parts a + missing x) pf,
    ap (λ x. lacks_phase env api parts x + missing w.meta.finalizers) pb,
    ap (λ x. lacks_phase env api parts b + missing x) pg,
  )

  finalizer_run :
      (c : ClusterObject) (s : api.State) (phase : Phase)
      → (env.finalizers.add cluster_finalizer_name c.meta.finalizers).1 ≡ true
      → reconcile_live env api parts (some phase) c s
        ≡ (api.update_cluster
                (with_finalizers (env.finalizers.add cluster_finalizer_name c.meta.finalizers).0 c)
              >>= λ w. pure none)
            s
  unfolding reconcile_live
  finalizer_run c s phase e = rw (e) refl

  -- With a phase, only the finalizer can be missing.
  steps_phase :
      (c : ClusterObject) (phase : Phase)
      → c.status.phase ≡ some phase
      → steps_left env api parts c ≡ missing c.meta.finalizers
  unfolding steps_left missing lacks_phase
  steps_phase c phase p =
      omega (arith, ap (λ x. lacks_phase env api parts x + missing c.meta.finalizers) p)

  missing_some : (fs : List Text) → contains fs cluster_finalizer_name ≡ true → missing fs ≡ 0
  unfolding missing
  missing_some fs e = rw (e) refl

  missing_none : (fs : List Text) → contains fs cluster_finalizer_name ≡ false → missing fs ≡ 1
  unfolding missing
  missing_none fs e = rw (e) refl

  live_step :
      (ph : Option Phase) (c : ClusterObject) (s : api.State) (n : ℕ) (r : Requeue)
      → c.status.phase ≡ ph
      → laws.IsKept s c
      → c.meta.is_deleting ≡ false
      → steps_left env api parts c ≡ suc n
      → (reconcile_live env api parts ph c s).0 ≡ ok r
      → Needs n (reconcile_live env api parts ph c s).1
  unfolding reconcile_live Needs lacks_phase pure set_status initial_status with_finalizers
  live_step none c s n r p k d l h =
      let sent = set_status (initial_status env api parts) c in
      let x = bind-ok (api.update_status sent) (λ w. pure none) s r h in
      let kept = laws.status_kept s c sent x.0 k x.1 in
      (
        x.0,
        subst (λ y. laws.IsKept y.1 x.0) (sym x.2) kept.0,
        kept.2 ∙ d,
        steps_lem c x.0 none (some provisioning) c.meta.finalizers c.meta.finalizers p kept.3 refl
            kept.1 (omega arith) n l,
      )
  live_step (some phase) c s n r p k d l h =
      elim (Bool-cases (contains c.meta.finalizers cluster_finalizer_name)) [
        | inl e ↦ absurd (omega (arith, l, steps_phase c phase p, missing_some c.meta.finalizers e))
        | inr e ↦
            let added = env.finalizers.add cluster_finalizer_name c.meta.finalizers in
            let sent = with_finalizers added.0 c in
            let y =
              finalizer_run c s phase
                (util.add_changes cluster_finalizer_name c.meta.finalizers ∙ ap not e) in
            let x =
              bind-ok (api.update_cluster sent) (λ w. pure none) s r (ap (λ x. x.0) (sym y) ∙ h) in
            let kept = laws.update_kept s c sent x.0 k x.1 in
            (
              x.0,
              subst (λ y. laws.IsKept y.1 x.0) (sym (y ∙ x.2)) kept.0,
              kept.2 ∙ d,
              steps_lem c x.0 (some phase) (some phase) c.meta.finalizers added.0 p (kept.3 ∙ p)
                  refl kept.1
                  (omega (
                    arith,
                    missing_none c.meta.finalizers e,
                    missing_some added.0
                        (util.add-contains cluster_finalizer_name c.meta.finalizers),
                  ))
                  n l,
            )
      ]

  step_lem :
      (n : ℕ) (s : api.State)
      → Needs (suc n) s
      → is_ok (reconcile_request env api parts req s).0 ≡ true
      → Needs n (reconcile_request env api parts req s).1
  unfolding Needs
  step_lem n s (c, k, d, l) h =
      let got = laws.get_kept s c k in
      let eq = run_eq s c got.0 d in
      subst (λ y. Needs n y.1) (sym eq)
        (go (reconcile_live env api parts c.status.phase c (api.get_cluster req s).1).0 refl
          (ap (λ y. is_ok y.0) (sym eq) ∙ h))
    where
      go :
          (x : ApiResult Requeue)
          → (reconcile_live env api parts c.status.phase c (api.get_cluster req s).1).0 ≡ x
          → is_ok (reconcile_live env api parts c.status.phase c (api.get_cluster req s).1).0 ≡ true
          → Needs n (reconcile_live env api parts c.status.phase c (api.get_cluster req s).1).1
      go (ok r) e h =
          live_step c.status.phase c (api.get_cluster req s).1 n r refl (laws.get_kept s c k).1 d l
            e
      go (err x) e h = absurd (ground (arith, sym (ap is_ok e) ∙ h))

  -- The next run reconciles a Cluster that has the finalizer.
  unfoldable pub Reconciles : api.State → Type 0
  unfolding reconcile_request run_reconciliation with_finalizers contains
  Reconciles s =
      (c : ClusterObject) × (contains c.meta.finalizers cluster_finalizer_name ≡ true)
      × (reconcile_request env api parts req s
          ≡ run_reconciliation env api parts c (api.get_cluster req s).1)

  no_steps :
      (ph : Option Phase) (c : ClusterObject) (s : api.State)
      → c.status.phase ≡ ph
      → steps_left env api parts c ≡ 0
      → (contains c.meta.finalizers cluster_finalizer_name ≡ true)
        × (reconcile_live env api parts ph c s
            ≡ run_reconciliation env api parts
                (with_finalizers (env.finalizers.add cluster_finalizer_name c.meta.finalizers).0 c)
                s)
  unfolding reconcile_live lacks_phase steps_left missing
  no_steps none c s p l =
      absurd (no_phase (ap (λ x. lacks_phase env api parts x + missing c.meta.finalizers) p ∙ refl))
    where
      no_phase :
          lacks_phase env api parts c.status.phase + missing c.meta.finalizers
            ≡ 1 + missing c.meta.finalizers
          → ⊥
      no_phase q = omega (arith, l, q)
  no_steps (some phase) c s p l =
      elim (Bool-cases (contains c.meta.finalizers cluster_finalizer_name)) [
        | inl e ↦
            (e, rw (util.add_changes cluster_finalizer_name c.meta.finalizers ∙ ap not e) refl)
        | inr e ↦ absurd (omega (arith, l, steps_phase c phase p, missing_none c.meta.finalizers e))
      ]

  last_lem : (s : api.State) → Needs zero s → Reconciles s
  unfolding Needs Reconciles with_finalizers
  last_lem s (c, k, d, l) =
      let got = laws.get_kept s c k in
      let last = no_steps c.status.phase c (api.get_cluster req s).1 refl l in
      (
        with_finalizers (env.finalizers.add cluster_finalizer_name c.meta.finalizers).0 c,
        util.add-contains cluster_finalizer_name c.meta.finalizers,
        run_eq s c got.0 d ∙ last.1,
      )

  -- Of a live Cluster that needs `n` steps, one for its first status and one for the finalizer, and that
  -- nobody else writes: when `n` runs have had no error, the next run reconciles it, and it has the
  -- finalizer then.
  pub runs-Reconciles :
      (n : ℕ) (s : api.State) → Needs n s → run_well n s ≡ true → Reconciles (runs n s)
  unfolding runs run_well
  runs-Reconciles zero s h w = last_lem s h
  runs-Reconciles (suc n) s h w =
      runs-Reconciles n (reconcile_request env api parts req s).1 (step_lem n s h (ground arith))
        (ground arith)
