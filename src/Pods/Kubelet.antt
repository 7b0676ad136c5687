-- ===== src/Pods/Kubelet.antt =====
-- The provider's configuration (`Provider` of k3k-kubelet/provider/provider.go), and what it calls: the
-- clients of both clusters, `CreateOrUpdate` and the owner helpers of controllerutil, and the clock.
-- `State` is both clusters and the clock; every call takes it to its next state.
use k3k.Prelude.{Text, Dict, ℕ, Option, List}
use k3k.Api.{ObjectMeta, NamespacedName, Object, ApiResult}
use k3k.Action.{Action, Done}
use k3k.Syncer.Kinds.{SecretPayload}
use k3k.Translate.{ToHostTranslator}
use k3k.Pods.{Pod}
use k3k.Pods.Refresh.{Times, TextUtil}

pub record Provider : Type 0 where
  pub translator : ToHostTranslator
  pub agent_hostname : Text
  pub server_ip : Text
  pub dns_ip : Text

-- The fields of `Status.Policy` that `createPod` reads. A nil pointer or slice is `none`.
pub record AppliedPolicy : Type 0 where
  pub node_selector : Dict Text
  pub priority_class : Option Text
  pub allowed_host_schedulers : Option (List Text)

-- The fields of the Cluster that `createPod` reads.
pub record HostCluster : Type 0 where
  pub meta : ObjectMeta
  pub node_selector : Dict Text
  pub priority_class : Text
  pub allowed_host_schedulers : List Text
  pub policy : Option AppliedPolicy

abbrev pub Secret : Type 0
Secret = Object (SecretPayload (Dict Text))

-- A TokenRequest: the account and what the token is bound to.
pub record TokenRequest : Type 0 where
  pub name : Text
  pub namespace : Text
  pub audiences : List Text
  pub expiration_seconds : Option ℕ
  pub bound_name : Text
  pub bound_uid : Text

-- The `Status` of the answer.
pub record IssuedToken : Type 0 where
  pub token : Text
  pub expiration : ℕ

-- `update_ephemeral_containers` is the call of the host's client for the subresource, in a namespace and
-- with a name. `create_or_update` reads the secret, applies the function to what it read (or to the
-- given secret) and writes it. `set_owner` is `SetOwnerReference`, which adds a pod to the owners in the
-- metadata, and `set_controller` is `SetControllerReference`; `patch_secret` sends the difference of
-- two metadata.
pub record Kubelet : Type 1 where
  pub State : Type 0
  pub get_cluster : NamespacedName → Action State HostCluster
  pub get_virtual_pod : NamespacedName → Action State Pod
  pub update_virtual_pod : Pod → Action State Done
  pub get_root_ca : NamespacedName → Action State (Dict Text)
  pub create_token : TokenRequest → Action State IssuedToken
  pub now : State → ℕ
  pub get_host_pod : NamespacedName → Action State Pod
  pub create_host_pod : Pod → Action State Done
  pub update_host_pod : Pod → Action State Done
  pub delete_host_pod : NamespacedName → Action State Done
  pub list_host_pods : Text → Dict Text → Action State (List Pod)
  pub update_ephemeral_containers : Text → Text → Pod → Action State Done
  pub get_host_secret : NamespacedName → Action State Secret
  pub create_or_update : Secret → (Secret → Secret) → Action State Secret
  pub patch_secret : ObjectMeta → ObjectMeta → Action State Done
  pub set_owner : Pod → ObjectMeta → ApiResult ObjectMeta
  pub set_controller : HostCluster → ObjectMeta → ApiResult ObjectMeta
  pub times : Times
  pub text_util : TextUtil
