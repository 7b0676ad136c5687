-- ===== src/Status/Ready.antt =====
-- The phase, the Ready condition and the events of a Cluster (pkg/controller/cluster/status.go).
use k3k.Prelude.{
  Text, text, text_eq, true, false, not, ◌&&◌, Option, none, some, List, [], ◌≡◌, refl, arith,
  Bool-cases, inl, inr,
}
use k3k.Status.{
  Phase, ReconcileError, Event, ConditionApi, ConditionLaws, ClusterStatus, not_ready, provisioned,
  status_of_error, status_of_success, status_after, update_status, is_ready_phase, is_ready,
  announces, pending, provisioning, failed, terminating,
}

module _ (api : ConditionApi) (laws : ConditionLaws api) where
  not_ready-is_ready :
      (c : ClusterStatus api) (p : Phase) (r m : Text)
      → is_ready api (not_ready api c p r m) ≡ false
  unfolding not_ready
  not_ready-is_ready c p r m = laws.set_present c.conditions _ true

  success-is_ready : (c : ClusterStatus api) → is_ready api (status_of_success api c).0 ≡ true
  unfolding status_of_success provisioned
  success-is_ready c = laws.set_present c.conditions (provisioned api) true

  -- An error leaves the Cluster in a phase other than Ready, without the event of the success.
  record IsNotReady (r : ClusterStatus api × List Event) : Type 0 where
    condition : is_ready api r.0 ≡ false
    phase : is_ready_phase api r.0.phase ≡ false
    event : announces api r.1 ≡ false

  left_not_ready :
      (c : ClusterStatus api) (p : Phase) (r m : Text) (es : List Event)
      → is_ready_phase api p ≡ false
      → announces api es ≡ false
      → IsNotReady (not_ready api c p r m, es)
  unfolding not_ready
  left_not_ready c p r m es h g = record {
    condition = not_ready-is_ready c p r m;
    phase = h;
    event = g;
  }

  status_of_error-IsNotReady :
      (c : ClusterStatus api) (e : ReconcileError) → IsNotReady (status_of_error api c e)
  unfolding status_of_error is_ready_phase announces text_eq text
  status_of_error-IsNotReady c e = elim (Bool-cases e.is_validation) [
    | inl h ↦ rw h (left_not_ready c pending _ _ _ refl refl)
    | inr h ↦ rw h (elim (Bool-cases e.is_server_not_ready) [
      | inl g ↦ rw g (left_not_ready c provisioning _ _ _ refl refl)
      | inr g ↦ rw g (left_not_ready c failed _ _ _ refl refl)
    ])
  ]

  terminating-IsNotReady :
      (c : ClusterStatus api)
      → IsNotReady (
        not_ready api c terminating (text "Terminating") (text "Cluster is being terminated"),
        [],
      )
  unfolding is_ready_phase announces
  terminating-IsNotReady c = left_not_ready c terminating _ _ [] refl refl

  -- Whatever the state of the Cluster and the outcome of the reconciliation: afterwards the Ready
  -- condition is True exactly in the phase Ready, and that is exactly where the Cluster is not being
  -- deleted and the reconciliation had no error.
  pub update_status_ready :
      (c : ClusterStatus api) (e : Option ReconcileError)
      → (is_ready api (update_status api c e).0
          ≡ is_ready_phase api (update_status api c e).0.phase)
        × (is_ready api (update_status api c e).0
            ≡ (not c.is_deleting && elim e [ none ↦ true | some _ ↦ false ]))
  unfolding update_status status_after status_of_success is_ready_phase
  update_status_ready c none = ground (
    arith,
    (terminating-IsNotReady c).condition,
    (terminating-IsNotReady c).phase,
    success-is_ready c,
  )
  update_status_ready c (some e) = ground (
    arith,
    (terminating-IsNotReady c).condition,
    (terminating-IsNotReady c).phase,
    (status_of_error-IsNotReady c e).condition,
    (status_of_error-IsNotReady c e).phase,
  )

  -- The event that the cluster was provisioned is emitted exactly where the Ready condition changes
  -- to True: where it was not True before and is afterwards.
  pub announces-update_status :
      (c : ClusterStatus api) (e : Option ReconcileError)
      → announces api (update_status api c e).1
        ≡ (not (is_ready api c) && is_ready api (update_status api c e).0)
  unfolding update_status status_after status_of_success announces text_eq text
  announces-update_status c none =
      ground (arith, (terminating-IsNotReady c).condition, success-is_ready c)
  announces-update_status c (some e) = ground (
    arith,
    (terminating-IsNotReady c).condition,
    (status_of_error-IsNotReady c e).condition,
    (status_of_error-IsNotReady c e).event,
  )
