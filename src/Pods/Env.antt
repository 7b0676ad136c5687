-- ===== src/Pods/Env.antt =====
-- The environment of the containers of a pod on the host, and its networking (`mergeEnvVars`,
-- `configurePodEnvs`, `configureEnv`, `configureEnvFrom`, `configureNetworking`, `isCoreDNSPod` and
-- `hardenCoreDNS` of k3k-kubelet/provider/provider.go).
use k3k.Prelude.{
  Text, text, text_eq, Dict, lookup, insert, delete, ℕ, Bool, true, false, not, ◌&&◌, Option, none,
  some, List, [], ◌∷◌, ◌++◌, map, if◌then◌else◌,
}
use k3k.Translate.{ToHostTranslator, translate_name, get_text}
use k3k.Pods.{
  EnvSource, field_ref, config_map_key_ref, secret_key_ref, other_source, EnvVar, EnvFromSource,
  Container, HostAlias, DnsConfig, PodSpec, Pod,
}

-- The map of the updated variables, by name.
unfoldable pub env_map : Dict EnvVar → List EnvVar → Dict EnvVar
unfolding insert
env_map m [] = m
env_map m (e ∷ es) = env_map (insert e.name e m) es

-- The loop that overwrites, which takes each variable that it uses out of the map.
unfoldable pub overwrite : List EnvVar → Dict EnvVar → List EnvVar × Dict EnvVar
unfolding lookup delete
overwrite [] m = ([], m)
overwrite (e ∷ es) m = elim (lookup e.name m) [
  | none ↦ let (rest, m') = overwrite es m in (e ∷ rest, m')
  | some u ↦ let (rest, m') = overwrite es (delete e.name m) in (u ∷ rest, m')
]

-- The variables that are left, in the order of the map (Go's is arbitrary).
unfoldable pub values : Dict EnvVar → List EnvVar
values [] = []
values ((k, e) ∷ m) = e ∷ values m

unfoldable pub merge_with : List EnvVar × Dict EnvVar → List EnvVar
unfolding values
merge_with (replaced, left) = replaced ++ values left

unfoldable pub merge_env_vars : List EnvVar → List EnvVar → List EnvVar
unfolding env_map overwrite merge_with
merge_env_vars orig [] = orig
merge_env_vars orig (u ∷ us) = merge_with (overwrite orig (env_map [] (u ∷ us)))

unfoldable pub is_core_dns_pod : Pod → Bool
unfolding get_text text text_eq
is_core_dns_pod pod =
    text_eq pod.meta.namespace (text "kube-system")
    && text_eq (get_text (text "k8s-app") pod.meta.labels) (text "kube-dns")

abbrev pub nobody_uid : ℕ
nobody_uid = 65534

unfoldable pub harden_container : Container → Container
unfolding text
harden_container c = record c {
  security_context = some (record {
    allow_privilege_escalation = some false;
    run_as_non_root = some true;
    run_as_user = some nobody_uid;
    run_as_group = some nobody_uid;
    capabilities_added = text "NET_BIND_SERVICE" ∷ [];
    capabilities_dropped = text "ALL" ∷ [];
    seccomp_profile = some (text "RuntimeDefault");
  });
}

unfoldable pub harden_core_dns : PodSpec → PodSpec
unfolding harden_container
harden_core_dns spec = record spec { containers = map harden_container spec.containers }

-- The address of the API server of the virtual cluster, as pods look it up.
unfoldable pub server_env : Text → List EnvVar
unfolding text
server_env server_ip =
    record { name = text "KUBERNETES_SERVICE_HOST"; value = server_ip; value_from = none }
    ∷ record {
      name = text "KUBERNETES_PORT";
      value = (text "tcp://" ++ server_ip) ++ text ":443";
      value_from = none;
    }
    ∷ record {
      name = text "KUBERNETES_PORT_443_TCP";
      value = (text "tcp://" ++ server_ip) ++ text ":443";
      value_from = none;
    }
    ∷ record { name = text "KUBERNETES_PORT_443_TCP_ADDR"; value = server_ip; value_from = none }
    ∷ []

unfoldable pub server_alias : Text → HostAlias
unfolding text
server_alias server_ip = record {
  ip = server_ip;
  hostnames =
      text "kubernetes"
      ∷ text "kubernetes.default"
      ∷ text "kubernetes.default.svc"
      ∷ text "kubernetes.default.svc.cluster"
      ∷ text "kubernetes.default.svc.cluster.local"
      ∷ [];
}

unfoldable pub cluster_dns_config : Text → Text → DnsConfig
unfolding text
cluster_dns_config dns_ip namespace = record {
  nameservers = dns_ip ∷ [];
  searches =
      (namespace ++ text ".svc.cluster.local")
      ∷ text "svc.cluster.local"
      ∷ text "cluster.local"
      ∷ [];
  options = (text "ndots", text "5") ∷ [];
}

unfoldable pub with_env : List EnvVar → Container → Container
unfolding merge_env_vars
with_env updated c = record c { env = merge_env_vars c.env updated }

-- The DNS of the virtual cluster, unless the pod is its DNS server or has a configuration.
unfoldable pub with_dns : Bool → Option DnsConfig → Text → Text → PodSpec → PodSpec
unfolding cluster_dns_config text
with_dns is_dns (some config) dns_ip namespace spec = spec
with_dns is_dns none dns_ip namespace spec =
    if not is_dns
    then record spec {
      dns_policy = text "None";
      dns_config = some (cluster_dns_config dns_ip namespace);
    }
    else spec

unfoldable pub configure_networking : Text → Text → Pod → PodSpec → PodSpec
unfolding server_env server_alias with_env with_dns is_core_dns_pod
configure_networking server_ip dns_ip virtual_pod spec =
    let aliased = record spec { host_aliases = spec.host_aliases ++ server_alias server_ip ∷ [] } in
    let named =
      with_dns (is_core_dns_pod virtual_pod) spec.dns_config dns_ip virtual_pod.meta.namespace
        aliased in
    record named {
      containers = map (with_env (server_env server_ip)) spec.containers;
      init_containers = map (with_env (server_env server_ip)) spec.init_containers;
      ephemeral_containers = map (with_env (server_env server_ip)) spec.ephemeral_containers;
    }

module _ (sha256 : Text → Text) (t : ToHostTranslator) where
  -- The name and the namespace of the pod are those of the virtual cluster.
  unfoldable pub field_env : Pod → EnvVar → Text → EnvVar
  unfolding text text_eq
  field_env pod e path =
      if text_eq path (text "metadata.name")
      then record e { value = pod.meta.name; value_from = none }
      else if text_eq path (text "metadata.namespace")
      then record e { value = pod.meta.namespace; value_from = none }
      else e

  unfoldable pub configure_source : Pod → EnvVar → Option EnvSource → EnvVar
  unfolding field_env translate_name
  configure_source pod e none = e
  configure_source pod e (some (field_ref path)) = field_env pod e path
  configure_source pod e (some (config_map_key_ref name key)) = record e {
    value_from = some (config_map_key_ref (translate_name sha256 t pod.meta.namespace name) key);
  }
  configure_source pod e (some (secret_key_ref name key)) = record e {
    value_from = some (secret_key_ref (translate_name sha256 t pod.meta.namespace name) key);
  }
  configure_source pod e (some (other_source s)) = e

  unfoldable pub configure_env : Pod → List EnvVar → List EnvVar
  unfolding configure_source
  configure_env pod [] = []
  configure_env pod (e ∷ es) = configure_source pod e e.value_from ∷ configure_env pod es

  unfoldable pub translate_ref : Text → Option Text → Option Text
  unfolding translate_name
  translate_ref namespace none = none
  translate_ref namespace (some name) = some (translate_name sha256 t namespace name)

  unfoldable pub configure_env_from : Pod → List EnvFromSource → List EnvFromSource
  unfolding translate_ref
  configure_env_from pod [] = []
  configure_env_from pod (e ∷ es) =
      record e {
        config_map_ref = translate_ref pod.meta.namespace e.config_map_ref;
        secret_ref = translate_ref pod.meta.namespace e.secret_ref;
      }
      ∷ configure_env_from pod es

  -- The containers of the host pod are those of the virtual pod, in order.
  unfoldable pub configure_container : Pod → Container → Container
  unfolding configure_env configure_env_from
  configure_container pod c = record c {
    env = configure_env pod c.env;
    env_from = configure_env_from pod c.env_from;
  }

  unfoldable pub configure_pod_envs : Pod → PodSpec → PodSpec
  unfolding configure_container
  configure_pod_envs pod spec = record spec {
    containers = map (configure_container pod) spec.containers;
    init_containers = map (configure_container pod) spec.init_containers;
    ephemeral_containers = map (configure_container pod) spec.ephemeral_containers;
  }
