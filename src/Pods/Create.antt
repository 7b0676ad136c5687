-- ===== src/Pods/Create.antt =====
-- The creation of a pod on the host cluster (`createPod` of k3k-kubelet/provider/provider.go, in the
-- order of its statements).
use k3k.Prelude.{
  Text, text, text_eq, is_empty, has_prefix, contains, Dict, insert, Bool, not, ◌&&◌, Option, none,
  some, List, [], ◌∷◌, ◌++◌, map, if◌then◌else◌,
}
use k3k.Api.{ObjectMeta, NamespacedName, ApiError, other}
use k3k.Action.{Action, Done, pure, raise_if, of_result, attempt, error_of, ◌>>=◌, ◌>>◌}
use k3k.Names.{safe_concat_name}
use k3k.Translate.{translate_name, translate_to, get_text}
use k3k.Pods.{Affinity, prefer_host, PodSpec, Pod}
use k3k.Pods.Env.{configure_pod_envs, configure_networking, is_core_dns_pod, harden_core_dns}
use k3k.Pods.Volumes.{transform_volumes}
use k3k.Pods.Kubelet.{Provider, AppliedPolicy, HostCluster, Kubelet}
use k3k.Pods.Tokens.{no_meta, transform_tokens}

abbrev pub agent_name_label : Text
agent_name_label = text "k3k.io/agentName"

abbrev pub host_scheduler_name_annotation : Text
host_scheduler_name_annotation = text "k3k.io/host-scheduler-name"

abbrev pub default_scheduler_name : Text
default_scheduler_name = text "default-scheduler"

unfoldable pub is_system_class : Text → Bool
unfolding has_prefix text
is_system_class name = has_prefix name (text "system-")

-- The policy of the cluster goes before its own settings.
unfoldable pub enforced_selector : HostCluster → Option AppliedPolicy → Dict Text
enforced_selector c none = c.node_selector
enforced_selector c (some policy) = elim policy.node_selector [
  | [] ↦ c.node_selector
  | x ∷ xs ↦ x ∷ xs
]

unfoldable pub enforced_priority_class : HostCluster → Option AppliedPolicy → Text
enforced_priority_class c none = c.priority_class
enforced_priority_class c (some policy) = elim policy.priority_class [
  | none ↦ c.priority_class
  | some name ↦ name
]

unfoldable pub allowed_schedulers : HostCluster → Option AppliedPolicy → List Text
allowed_schedulers c none = c.allowed_host_schedulers
allowed_schedulers c (some policy) = elim policy.allowed_host_schedulers [
  | none ↦ c.allowed_host_schedulers
  | some names ↦ names
]

unfoldable pub default_affinity : Text → Option Affinity → Option Affinity
default_affinity host none = some (prefer_host host)
default_affinity host (some a) = some a

-- A priority class takes the place of the priority.
unfoldable pub drop_priority : PodSpec → PodSpec
drop_priority spec =
    if not (is_empty spec.priority_class_name) then record spec { priority = none } else spec

unfoldable pub set_scheduler : Text → PodSpec → PodSpec
set_scheduler name spec = if is_empty name then spec else record spec { scheduler_name = name }

-- The annotation's scheduler is set and not allowed.
unfoldable pub is_forbidden : List Text → Text → Bool
unfolding contains
is_forbidden allowed name = not (is_empty name) && not (contains allowed name)

-- The spec's scheduler is set, not the default one, and not allowed.
unfoldable pub is_forbidden_spec : List Text → Text → Bool
unfolding contains text text_eq
is_forbidden_spec allowed name =
    (not (is_empty name) && not (text_eq name default_scheduler_name))
    && not (contains allowed name)

module _ (sha256 : Text → Text) (p : Provider) where
  unfoldable pub host_meta : ObjectMeta → ObjectMeta
  unfolding translate_to insert
  host_meta m =
      let to = translate_to sha256 p.translator m in
      record to { labels = insert agent_name_label p.agent_hostname to.labels }

  unfoldable pub default_hostname : Pod → Text
  unfolding safe_concat_name
  default_hostname pod =
      if is_empty pod.payload.spec.hostname
      then safe_concat_name sha256 (pod.meta.name ∷ [])
      else pod.payload.spec.hostname

  -- Where it may be scheduled, and its host name.
  unfoldable pub place : HostCluster → Pod → PodSpec
  unfolding default_affinity enforced_selector default_hostname
  place c pod =
      let spec = pod.payload.spec in
      record spec {
        node_name = [];
        affinity = default_affinity p.agent_hostname spec.affinity;
        node_selector = enforced_selector c c.policy;
        hostname = default_hostname pod;
      }

  unfoldable pub set_priority_class : HostCluster → Text → PodSpec → PodSpec
  unfolding is_system_class enforced_priority_class translate_name
  set_priority_class c name spec =
      if is_system_class name
      then record spec { priority_class_name = name }
      else if not (is_empty (enforced_priority_class c c.policy))
      then record spec { priority_class_name = enforced_priority_class c c.policy }
      else if not (is_empty name)
      then record spec {
        priority_class_name = translate_name sha256 p.translator [] name;
        priority = none;
      }
      else spec

  -- The names of the pull secrets.
  unfoldable pub translate_pull_secrets : Text → PodSpec → PodSpec
  unfolding translate_name
  translate_pull_secrets namespace spec = record spec {
    image_pull_secrets =
        map (λ name. translate_name sha256 p.translator namespace name) spec.image_pull_secrets;
  }

  -- The spec up to the scheduler's checks.
  unfoldable pub scheduled_spec : HostCluster → Pod → PodSpec
  unfolding place set_priority_class drop_priority set_scheduler get_text text
  scheduled_spec c pod =
      set_scheduler (get_text host_scheduler_name_annotation pod.meta.annotations)
        (drop_priority (set_priority_class c pod.payload.spec.priority_class_name (place c pod)))

  unfoldable pub with_references : Text → Pod → PodSpec → PodSpec
  unfolding configure_pod_envs transform_volumes
  with_references namespace pod spec =
      let configured = configure_pod_envs sha256 p.translator pod spec in
      record configured {
        volumes = transform_volumes sha256 p.translator namespace configured.volumes;
      }

  unfoldable pub hardened : Pod → PodSpec → PodSpec
  unfolding is_core_dns_pod harden_core_dns
  hardened pod spec = if is_core_dns_pod pod then harden_core_dns spec else spec

  -- The spec after the tokens.
  unfoldable pub networked_spec : Pod → PodSpec → PodSpec
  unfolding translate_pull_secrets configure_networking
  networked_spec pod spec =
      configure_networking p.server_ip p.dns_ip pod (translate_pull_secrets pod.meta.namespace spec)

  unfoldable pub host_pod : Pod → ObjectMeta → PodSpec → Pod
  unfolding hardened
  host_pod pod m spec = record {
    meta = m;
    payload = record pod.payload { spec = hardened pod spec };
  }

  module _ (k : Kubelet) where
    open k use {State}

    unfoldable pub set_token_secret_owner : Pod → Text → Action State Done
    set_token_secret_owner pod name =
        let m = record no_meta { name = name; namespace = pod.meta.namespace } in
        (of_result (k.set_owner pod m) >>= λ owned. k.patch_secret m owned)

    -- The errors of all of them, joined.
    unfoldable pub set_token_secrets_owner : Pod → List Text → Action State (List ApiError)
    unfolding set_token_secret_owner
    set_token_secrets_owner pod [] = pure []
    set_token_secrets_owner pod (name ∷ names) = do
      r ← attempt (set_token_secret_owner pod name)
      rest ← set_token_secrets_owner pod names
      pure (error_of r ++ rest)

    -- The pod is given by its name, and read again.
    unfoldable pub create_pod : NamespacedName → Action State Done
    unfolding scheduled_spec host_meta with_references transform_tokens networked_spec host_pod
        set_token_secrets_owner is_forbidden is_forbidden_spec allowed_schedulers get_text text
    create_pod req = do
      c ←
          k.get_cluster (record {
            namespace = p.translator.cluster_namespace;
            name = p.translator.cluster_name;
          })
      pod ← k.get_virtual_pod req
      let allowed = allowed_schedulers c c.policy
      raise_if (is_forbidden allowed (get_text host_scheduler_name_annotation pod.meta.annotations))
          (other (text "scheduler is not allowed for this cluster"))
      raise_if (is_forbidden_spec allowed pod.payload.spec.scheduler_name)
          (other (text "scheduler is not allowed for this cluster"))
      tokens ←
          transform_tokens sha256 p k pod (with_references req.namespace pod (scheduled_spec c pod))
      m ← of_result (k.set_controller c (host_meta pod.meta))
      let made = host_pod pod m (networked_spec pod tokens.1)
      k.create_host_pod made
      set_token_secrets_owner made tokens.0
      pure tt
