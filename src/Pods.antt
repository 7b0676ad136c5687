-- ===== src/Pods.antt =====
-- The pods that the virtual kubelet runs on the host cluster (k3k-kubelet/provider/provider.go and
-- token.go): the parts of a pod that the provider reads or writes. Of the sources of a variable, of a
-- volume and of a projection exactly one is set, as the API validates.
pub mod Metadata
pub mod Env
pub mod Merge
pub mod Volumes
pub mod Refresh
pub mod Kubelet
pub mod Tokens
pub mod Create
pub mod Retry
pub mod Spec
pub mod Calls
pub mod Renewal
pub mod Unprojected
pub mod Confined
mod Tests
use k3k.Prelude.{Text, Dict, ℕ, Bool, Option, List}
use k3k.Api.{Object}
use k3k.Expose.{ℤ}

pub data EnvSource : Type 0 where
  field_ref : Text → EnvSource
  config_map_key_ref : Text → Text → EnvSource  -- the name of the ConfigMap, and the key
  secret_key_ref : Text → Text → EnvSource
  other_source : Text → EnvSource

pub record EnvVar : Type 0 where
  pub name : Text
  pub value : Text
  pub value_from : Option EnvSource

pub record EnvFromSource : Type 0 where
  pub prefix : Text
  pub config_map_ref : Option Text
  pub secret_ref : Option Text

pub record SecurityContext : Type 0 where
  pub allow_privilege_escalation : Option Bool
  pub run_as_non_root : Option Bool
  pub run_as_user : Option ℕ
  pub run_as_group : Option ℕ
  pub capabilities_added : List Text
  pub capabilities_dropped : List Text
  pub seccomp_profile : Option Text

pub record VolumeMount : Type 0 where
  pub name : Text
  pub mount_path : Text

pub record Container : Type 0 where
  pub name : Text
  pub image : Text
  pub env : List EnvVar
  pub env_from : List EnvFromSource
  pub volume_mounts : List VolumeMount
  pub security_context : Option SecurityContext

-- `ServiceAccountTokenProjection`.
pub record TokenProjection : Type 0 where
  pub audience : Text
  pub expiration_seconds : Option ℕ
  pub path : Text

pub data ProjectedSource : Type 0 where
  config_map_projection : Text → ProjectedSource
  secret_projection : Text → ProjectedSource
  token_projection : TokenProjection → ProjectedSource
  other_projection : Text → ProjectedSource

-- An item of the downward API: a file and, where it is set, the path of its field.
pub record DownwardItem : Type 0 where
  pub path : Text
  pub field_path : Option Text

pub data VolumeSource : Type 0 where
  config_map_volume : Text → VolumeSource
  secret_volume : Text → VolumeSource
  claim_volume : Text → VolumeSource
  projected_volume : List ProjectedSource → VolumeSource
  downward_volume : List DownwardItem → VolumeSource
  other_volume : Text → VolumeSource

pub record Volume : Type 0 where
  pub name : Text
  pub source : VolumeSource

-- The preference that the provider sets, or what the user asked for.
pub data Affinity : Type 0 where
  prefer_host : Text → Affinity
  given : Text → Affinity

pub record HostAlias : Type 0 where
  pub ip : Text
  pub hostnames : List Text

pub record DnsConfig : Type 0 where
  pub nameservers : List Text
  pub searches : List Text
  pub options : Dict Text

pub record PodSpec : Type 0 where
  pub node_name : Text
  pub affinity : Option Affinity
  pub node_selector : Dict Text
  pub hostname : Text
  pub priority_class_name : Text
  pub priority : Option ℤ
  pub scheduler_name : Text
  pub service_account_name : Text
  pub deprecated_service_account : Text
  pub automount_service_account_token : Option Bool
  pub image_pull_secrets : List Text
  pub volumes : List Volume
  pub containers : List Container
  pub init_containers : List Container
  pub ephemeral_containers : List Container
  pub host_aliases : List HostAlias
  pub dns_policy : Text
  pub dns_config : Option DnsConfig
  pub active_deadline_seconds : Option ℕ
  pub tolerations : List Text

-- `spec` and the phase of `status`.
pub record PodBody : Type 0 where
  pub spec : PodSpec
  pub phase : Text

abbrev pub Pod : Type 0
Pod = Object PodBody
