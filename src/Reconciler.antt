-- ===== src/Reconciler.antt =====
-- The reconciliation of Clusters (pkg/controller/cluster/cluster.go, cluster_finalize.go, filter.go): the
-- Cluster as the controller reads and writes it, and what the controller calls.
pub mod Validation
pub mod Cidr
pub mod Roles
pub mod Objects
pub mod Finalize
pub mod StorageClasses
pub mod Run
pub mod Unbound
pub mod Cleaned
pub mod Outcome
mod Tests
use k3k.Prelude.{Text, text, has_prefix, Dict, ℕ, Bool, true, false, Option, none, some, List, ◌++◌}
use k3k.Api.{ObjectMeta, NamespacedName, ApiError, ApiResult, not_found, already_exists, other}
use k3k.Action.{Action, Done}
use k3k.Expose.{ClusterMode, ExposeConfig, Service}
use k3k.Expose.Address.{ServerConfig}
use k3k.Expose.Ingress.{Ingress}
use k3k.Status.{Phase, Condition, ReconcileError, Event}
use k3k.Policy.{NetworkSpec, Node}
use k3k.Token.{TokenCluster}

-- The names of the secrets of `CredentialSources`.
pub record CredentialSources : Type 0 where
  pub server_ca : Text
  pub client_ca : Text
  pub request_header_ca : Text
  pub etcd_server_ca : Text
  pub etcd_peer_ca : Text
  pub service_account_token : Text

pub record CustomCas : Type 0 where
  pub enabled : Bool
  pub sources : CredentialSources

pub record StorageClassSync : Type 0 where
  pub enabled : Bool
  pub selector : Dict Text

pub record Spec : Type 0 where
  pub mode : ClusterMode
  pub cluster_cidr : Text
  pub service_cidr : Text
  pub cluster_dns : Text
  pub mirror_host_nodes : Bool
  pub custom_cas : Option CustomCas
  pub expose : Option ExposeConfig
  pub tls_sans : List Text
  pub storage_classes : Option StorageClassSync

-- No phase stands for the empty one and for Unknown. `policy_storage_classes` is the part of
-- `Policy.Sync` that is read here, where both are set.
pub record Status : Type 0 where
  pub phase : Option Phase
  pub conditions : List Condition
  pub policy_name : Text
  pub host_version : Text
  pub cluster_cidr : Text
  pub service_cidr : Text
  pub tls_sans : List Text
  pub kubelet_port : ℕ
  pub policy_storage_classes : Option StorageClassSync

pub record ClusterObject : Type 0 where
  pub meta : ObjectMeta
  pub spec : Spec
  pub status : Status

-- The fields of a VirtualClusterPolicy that the validation reads.
pub record PolicyMode : Type 0 where
  pub name : Text
  pub allowed_mode : ClusterMode

-- `rbacv1.Subject`, and a ClusterRoleBinding by its name.
pub record Subject : Type 0 where
  pub kind : Text
  pub api_group : Text
  pub name : Text
  pub namespace : Text

pub record RoleBinding : Type 0 where
  pub name : Text
  pub subjects : List Subject

pub record StorageClass : Type 0 where
  pub meta : ObjectMeta
  pub parameters : Text  -- what the syncing copies besides the metadata

pub record NetworkPolicy : Type 0 where
  pub name : Text
  pub namespace : Text
  pub spec : NetworkSpec

-- The calls of API servers and of controllerutil. An update returns the Cluster as the server keeps it.
-- `own_*` sets the controller reference.
pub record ClusterApi : Type 1 where
  pub State : Type 0
  pub get_cluster : NamespacedName → Action State ClusterObject
  pub update_cluster : ClusterObject → Action State ClusterObject
  pub update_status : ClusterObject → Action State ClusterObject
  pub get_namespace_labels : Text → Action State (Dict Text)
  pub get_policy : Text → Action State PolicyMode
  pub server_version : Action State Text
  pub list_nodes : Action State (List Node)
  pub delete_network_policy : NamespacedName → Action State Done
  pub write_network_policy :
      NetworkPolicy → (NetworkPolicy → ApiResult NetworkPolicy) → Action State NetworkPolicy
  pub write_service : Service → (Service → ApiResult Service) → Action State Service
  pub delete_ingress : Ingress → Action State Done
  pub write_ingress : Ingress → (Ingress → ApiResult Ingress) → Action State Ingress
  pub get_role_binding : Text → Action State RoleBinding
  pub update_role_binding : RoleBinding → Action State Done
  pub delete_lease : NamespacedName → Action State Done
  pub get_service_cidrs : Text → Action State (List Text)
  pub create_failing_service : Action State Done
  pub list_api_server_args : Action State (List (List Text))
  pub own_network_policy : ClusterObject → NetworkPolicy → ApiResult NetworkPolicy
  pub own_service : ClusterObject → Service → ApiResult Service
  pub own_ingress : ClusterObject → Ingress → ApiResult Ingress
  pub record_events : List Event → State → State

-- What other parts of the controller do for a Cluster, in the order of their calls: the token, the
-- addresses of the host's nodes, a configuration of the servers as a secret, the StatefulSet, the port of the kubelet and the agents, the bootstrap
-- and kubeconfig secrets, the end points of a hosted control plane, and the storage classes.
pub record ClusterParts (State : Type 0) : Type 0 where
  pub token : ClusterObject → Action State Text
  pub host_node_ips : ClusterObject → Action State (List Text)
  pub write_server_config : ClusterObject → Bool → ServerConfig → Action State Done
  pub server : ClusterObject → List Text → Action State Done
  pub allocate_kubelet_port : Text → Text → Action State ℕ
  pub deallocate_kubelet_port : Text → Text → ℕ → Action State Done
  pub ensure_virtual_agent : ClusterObject → Text → Text → Action State Done
  pub ensure_shared_agent : ClusterObject → Text → Text → ℕ → Action State Done
  pub ensure_bootstrap_secret : ClusterObject → Text → Text → Action State Done
  pub ensure_kubeconfig_secret : ClusterObject → Text → Action State Done
  pub ensure_hcp_endpoint_slice : ClusterObject → Action State Done
  pub ensure_hcp_endpoints : ClusterObject → Action State Done
  pub ensure_storage_classes : ClusterObject → Action State Done

-- The texts of the two errors that `errors.Is` looks for: an error wraps one of them by starting with
-- its text.
abbrev pub err_cluster_validation : Text
err_cluster_validation = text "cluster validation error"

abbrev pub err_server_not_ready : Text
err_server_not_ready = text "server not ready"

unfoldable pub error_text : ApiError → Text
unfolding text
error_text not_found = text "not found"
error_text already_exists = text "already exists"
error_text (other e) = e

unfoldable pub classify : ApiError → ReconcileError
unfolding error_text has_prefix text
classify e = record {
  is_validation = has_prefix (error_text e) err_cluster_validation;
  is_server_not_ready = has_prefix (error_text e) err_server_not_ready;
  message = error_text e;
}
