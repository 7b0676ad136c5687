-- ===== src/Policy.antt =====
-- The controller of VirtualClusterPolicy objects (pkg/controller/policy): what a policy asks for, what
-- it is applied to, and the calls of the API server. Specifications that the controller only copies are
-- texts.
pub mod Labels
pub mod Owned
pub mod Clusters
pub mod Ensured
pub mod Reconcile
pub mod Enforced
mod Tests
use k3k.Prelude.{Text, Dict, Bool, Option, List}
use k3k.Api.{ObjectMeta, NamespacedName, ApiResult}
use k3k.Action.{Action, Done}
use k3k.Status.{Condition}

pub record PolicySpec : Type 0 where
  pub quota : Option Text
  pub limit : Option Text
  pub default_node_selector : Dict Text
  pub default_server_affinity : Option Text
  pub default_agent_affinity : Option Text
  pub default_priority_class : Text
  pub disable_network_policy : Bool
  pub pod_security_admission_level : Option Text
  pub sync : Option Text
  pub security_context : Option Text
  pub runtime_class_name : Option Text
  pub host_users : Option Bool
  pub allowed_host_schedulers : Option (List Text)

pub record Policy : Type 0 where
  pub meta : ObjectMeta
  pub spec : PolicySpec
  pub conditions : List Condition

-- `AppliedPolicy` of the status of a Cluster.
pub record Applied : Type 0 where
  pub name : Text
  pub priority_class : Option Text
  pub node_selector : Dict Text
  pub sync : Option Text
  pub server_affinity : Option Text
  pub agent_affinity : Option Text
  pub security_context : Option Text
  pub runtime_class_name : Option Text
  pub host_users : Option Bool
  pub allowed_host_schedulers : Option (List Text)

-- A Cluster, as far as this controller reads and writes it.
pub record BoundCluster : Type 0 where
  pub meta : ObjectMeta
  pub policy : Option Applied

-- A peer of the egress rule: an address range with exceptions, or pods of a namespace by its name,
-- with labels where they are given.
pub data Peer : Type 0 where
  ip_block : Text → List Text → Peer
  namespace_pods : Text → Dict Text → Peer

-- Pods with a label of the given key are selected, all ingress is allowed, and egress to the peers.
pub record NetworkSpec : Type 0 where
  pub selected_label : Text
  pub egress : List Peer

pub data Kind : Type 0 where
  network_policy_kind : Kind
  resource_quota_kind : Kind
  limit_range_kind : Kind

pub data OwnedSpec : Type 0 where
  network_spec : NetworkSpec → OwnedSpec
  given_spec : Text → OwnedSpec

-- A NetworkPolicy, a ResourceQuota or a LimitRange.
pub record OwnedObject : Type 0 where
  pub meta : ObjectMeta
  pub spec : OwnedSpec

-- A requirement of a selector: the label has the value, or it has not.
pub data Requirement : Type 0 where
  equals : Text → Text → Requirement
  not_equals : Text → Text → Requirement

pub record Node : Type 0 where
  pub pod_cidr : Text
  pub pod_cidrs : List Text

-- An update returns the policy as the server keeps it. `set_controller` is `SetControllerReference`, `sorted_set` is `sets.List` of a set of strings, and the
-- last fields are `reflect.DeepEqual`, `SetStatusCondition` and the finalizer helpers.
pub record PolicyApi : Type 1 where
  pub State : Type 0
  pub get_policy : Text → Action State Policy
  pub update_policy : Policy → Action State Policy
  pub update_policy_status : Policy → Action State Policy
  pub list_namespaces : List Requirement → Action State (List ObjectMeta)
  pub update_namespace : ObjectMeta → Action State Done
  pub list_clusters : Text → Action State (List BoundCluster)
  pub update_cluster_status : BoundCluster → Action State Done
  pub list_nodes : Action State (List Node)
  pub get_owned : Kind → NamespacedName → Action State OwnedObject
  pub create_owned : Kind → OwnedObject → Action State Done
  pub update_owned : Kind → OwnedObject → Action State Done
  pub delete_owned : Kind → OwnedObject → Action State Done
  pub delete_all_of : Kind → Text → List Requirement → Action State Done
  pub set_controller : Policy → OwnedObject → ApiResult OwnedObject
  pub sorted_set : List Text → List Text
  pub same_applied : Option Applied → Option Applied → Bool
  pub same_labels : Dict Text → Dict Text → Bool
  pub set_status_condition : List Condition → Condition → List Condition
  pub same_conditions : List Condition → List Condition → Bool
  pub add_finalizer : Text → List Text → List Text × Bool
  pub remove_finalizer : Text → List Text → List Text × Bool
