-- ===== src/Status.antt =====
-- The phase and the Ready condition of a Cluster after a reconciliation
-- (pkg/controller/cluster/status.go). The condition helpers of apimachinery are parameters.
pub mod Ready
mod Tests
use k3k.Prelude.{
  Text, text, text_eq, text_eq_refl, contains, Bool, true, false, not, ◌&&◌, ◌||◌, Option, none,
  some, List, [], ◌∷◌, ◌≡◌, refl, if◌then◌else◌, arith, Bool-cases, inl, inr,
}

pub data Phase : Type 0 where
  pending : Phase
  provisioning : Phase
  ready : Phase
  failed : Phase
  terminating : Phase

-- `metav1.Condition`; the status is True or False.
pub record Condition : Type 0 where
  pub type : Text
  pub status : Bool
  pub reason : Text
  pub message : Text

-- The error of a reconciliation: what `errors.Is` finds in its chain, and its text.
pub record ReconcileError : Type 0 where
  pub is_validation : Bool
  pub is_server_not_ready : Bool
  pub message : Text

pub record Event : Type 0 where
  pub is_warning : Bool
  pub reason : Text
  pub message : Text

abbrev pub condition_ready : Text
condition_ready = text "Ready"

abbrev pub reason_provisioned : Text
reason_provisioned = text "Provisioned"

pub record ConditionApi : Type 0 where
  pub set_status_condition : List Condition → Condition → List Condition
  pub is_present_and_equal : List Condition → Text → Bool → Bool

pub record ConditionLaws (api : ConditionApi) : Type 0 where
  pub set_present :
      (cs : List Condition) (c : Condition) (b : Bool)
      → api.is_present_and_equal (api.set_status_condition cs c) c.type b
        ≡ (if b then c.status else not c.status)

module _ (api : ConditionApi) where
  open api use {set_status_condition, is_present_and_equal}

  -- What `updateStatus` reads and writes of a Cluster.
  pub record ClusterStatus : Type 0 where
    pub is_deleting : Bool
    pub phase : Phase
    pub conditions : List Condition

  unfoldable pub not_ready : ClusterStatus → Phase → Text → Text → ClusterStatus
  unfolding text
  not_ready c phase reason message = record c {
    phase = phase;
    conditions =
        set_status_condition c.conditions
          (record { type = condition_ready; status = false; reason = reason; message = message });
  }

  unfoldable pub provisioned : Condition
  unfolding text
  provisioned = record {
    type = condition_ready;
    status = true;
    reason = reason_provisioned;
    message = text "Cluster successfully provisioned";
  }

  -- The branches on the error, in their order.
  unfoldable pub status_of_error : ClusterStatus → ReconcileError → ClusterStatus × List Event
  unfolding not_ready text
  status_of_error c e =
      if e.is_validation
      then (
        not_ready c pending (text "ValidationFailed") e.message,
        record { is_warning = true; reason = text "ValidationFailed"; message = e.message } ∷ [],
      )
      else if e.is_server_not_ready
      then (not_ready c provisioning (text "Provisioning") e.message, [])
      else (
        not_ready c failed (text "ProvisioningFailed") e.message,
        record { is_warning = true; reason = text "ProvisioningFailed"; message = e.message } ∷ [],
      )

  -- The event is emitted only on the transition to Ready.
  unfoldable pub status_of_success : ClusterStatus → ClusterStatus × List Event
  unfolding provisioned text
  status_of_success c = (
    record c { phase = ready; conditions = set_status_condition c.conditions provisioned },
    if not (is_present_and_equal c.conditions condition_ready true)
        then record {
          is_warning = false;
          reason = reason_provisioned;
          message = provisioned.message;
        }
          ∷ []
        else [],
  )

  unfoldable pub status_after : ClusterStatus → Option ReconcileError → ClusterStatus × List Event
  unfolding status_of_error status_of_success
  status_after c none = status_of_success c
  status_after c (some e) = status_of_error c e

  -- `updateStatus`: the Cluster, and the events.
  unfoldable pub update_status : ClusterStatus → Option ReconcileError → ClusterStatus × List Event
  unfolding not_ready status_after text
  update_status c error =
      if c.is_deleting
      then (not_ready c terminating (text "Terminating") (text "Cluster is being terminated"), [])
      else status_after c error

  unfoldable pub is_ready_phase : Phase → Bool
  is_ready_phase ready = true
  is_ready_phase pending = false
  is_ready_phase provisioning = false
  is_ready_phase failed = false
  is_ready_phase terminating = false

  abbrev pub is_ready : ClusterStatus → Bool
  is_ready c = is_present_and_equal c.conditions condition_ready true

  unfoldable pub announces : List Event → Bool
  unfolding text_eq text
  announces [] = false
  announces (e ∷ es) = text_eq e.reason reason_provisioned || announces es
