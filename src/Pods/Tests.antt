-- ===== src/Pods/Tests.antt =====
-- Two clusters in memory: the pods that the host was asked to create, and one virtual pod.
use k3k.Prelude.{
  Text, text, text_eq, Dict, lookup, ℕ, ◌+◌, ◌-◌, ◌*◌, ◌/◌, ◌%◌, ◌≤◌, min, Bool, true, false,
  Option, none, some, List, [], ◌∷◌, ◌≡◌, refl, contains, ltb, arith, if◌then◌else◌, All, ◌&&◌,
  has_key, NodupKeys,
}
use k3k.Api.{NamespacedName, ok, err, other, not_found}
use k3k.Action.{Action, Done, pure, of_result, raise_if, ◌>>=◌}
use k3k.Translate.{get_text}
use k3k.Pods.Volumes.{has_kube_access_volume}
use k3k.Pods.{Pod, PodSpec, EnvVar}
use k3k.Pods.Metadata.{merge_managed_metadata, is_managed, lookup-merge_managed_metadata}
use k3k.Pods.Env.{merge_env_vars}
use k3k.Pods.Merge.{last_of, find, or_else, NodupNames, merge_env_vars-find}
use k3k.Pods.Refresh.{
  Times, token_refresh_after, max_token_refresh_period, token_refresh_after-bounds,
}
use k3k.Pods.Kubelet.{Provider, HostCluster, Kubelet}
use k3k.Pods.Tokens.{
  no_meta, transform_tokens, transform_projected_tokens, transform_kube_access_token,
}
use k3k.Pods.Create.{
  create_pod, is_forbidden, is_forbidden_spec, allowed_schedulers, set_token_secrets_owner,
}
use k3k.Pods.Retry.{attempts, with_retry, some_succeeds, succeeds, is_nil, with_retry-is_nil}
use k3k.Pods.Confined.{Confined}

abbrev no_digest : Text → Text
no_digest t = t

abbrev provider : Provider
provider = record {
  translator = record { cluster_name = text "c"; cluster_namespace = text "host" };
  agent_hostname = text "n1";
  server_ip = text "10.43.0.1";
  dns_ip = text "10.43.0.10";
}

abbrev cluster : HostCluster
cluster = record {
  meta = record no_meta { name = text "c"; namespace = text "host" };
  node_selector = (text "pool", text "a") ∷ [];
  priority_class = text "low";
  allowed_host_schedulers = text "volcano" ∷ [];
  policy = none;
}

abbrev spec : PodSpec
spec = record {
  node_name = text "k3k-c";
  affinity = none;
  node_selector = [];
  hostname = [];
  priority_class_name = text "mine";
  priority = none;
  scheduler_name = text "volcano";
  service_account_name = text "default";
  deprecated_service_account = text "default";
  automount_service_account_token = none;
  image_pull_secrets = [];
  volumes = [];
  containers = [];
  init_containers = [];
  ephemeral_containers = [];
  host_aliases = [];
  dns_policy = text "ClusterFirst";
  dns_config = none;
  active_deadline_seconds = none;
  tolerations = [];
}

abbrev pod : Pod
pod = record {
  meta = record no_meta { name = text "web"; namespace = text "ns"; uid = text "u1" };
  payload = record { spec = spec; phase = text "Pending" };
}

abbrev clock : Times
clock = record { format = λ t. (t - (t % 1000000000)) ∷ []; parse = first }
  where
    first : Text → Option ℕ
    first [] = none
    first (t ∷ ts) = some t

abbrev memory : Kubelet
memory = record {
  State = List Pod;
  get_cluster = λ n s. (ok cluster, s);
  get_virtual_pod = λ n s. (ok pod, s);
  update_virtual_pod = λ o s. (ok tt, s);
  get_root_ca = λ n s. (err not_found, s);
  create_token = λ r s. (err not_found, s);
  now = λ s. 0;
  get_host_pod = λ n s. (err not_found, s);
  create_host_pod = λ o s. (ok tt, o ∷ s);
  update_host_pod = λ o s. (ok tt, s);
  delete_host_pod = λ n s. (ok tt, s);
  list_host_pods = λ n l s. (ok s, s);
  update_ephemeral_containers = λ n m o s. (ok tt, s);
  get_host_secret = λ n s. (err not_found, s);
  create_or_update = λ o f s. (ok (f o), s);
  patch_secret = λ a b s. (ok tt, s);
  set_owner = λ o m. ok m;
  set_controller = λ c m. ok m;
  times = clock;
  text_util = record {
    to_lower = λ t. t;
    replace_invalid = λ t. t;
    trim_marks = λ t. t;
    quote = λ t. t;
    format_int = λ n. n ∷ [];
  };
}

abbrev AllConfined : List Pod → Type 0
AllConfined pods = All (λ o. Confined cluster o.payload.spec) pods

abbrev poll_thrice : {X : Type 0} → (X → Bool × X) → X → Bool × X
poll_thrice g x = attempts 3 g x

abbrev web_request : NamespacedName
web_request = record { namespace = text "ns"; name = text "web" }

-- Fails until it has been called twice.
abbrev third_time : Action ℕ Done
third_time n = (if ltb n 2 then err (other (text "busy")) else ok tt, n + 1)

with_retry-is_nil_example :
    is_nil (with_retry poll_thrice third_time 0).0 ≡ some_succeeds 3 third_time 0
with_retry-is_nil_example = with_retry-is_nil poll_thrice 3 third_time 0 refl

third_time_succeeds : some_succeeds 3 third_time 0 ≡ true
unfolding some_succeeds succeeds
third_time_succeeds = refl

twice_is_too_few : some_succeeds 2 third_time 0 ≡ false
unfolding some_succeeds succeeds
twice_is_too_few = refl

abbrev host_labels : Dict Text
host_labels = (text "k3k.io/agentName", text "n1") ∷ (text "old", text "x") ∷ []

abbrev virtual_labels : Dict Text
virtual_labels = (text "app", text "web") ∷ []

labels_nodup : NodupKeys host_labels × NodupKeys virtual_labels
unfolding has_key lookup text text_eq
labels_nodup = ((refl, (refl, tt)), (refl, tt))

lookup-merge_managed_metadata_example :
    lookup (text "k3k.io/agentName") (merge_managed_metadata host_labels virtual_labels) ≡ (
      if is_managed (text "k3k.io/agentName") && has_key (text "k3k.io/agentName") host_labels
      then lookup (text "k3k.io/agentName") host_labels
      else lookup (text "k3k.io/agentName") virtual_labels)
lookup-merge_managed_metadata_example =
    lookup-merge_managed_metadata (text "k3k.io/agentName") host_labels virtual_labels
      labels_nodup.0 labels_nodup.1

abbrev plain : Text → Text → EnvVar
plain name value = record { name = name; value = value; value_from = none }

abbrev own_env : List EnvVar
own_env = plain (text "A") (text "1") ∷ plain (text "B") (text "2") ∷ []

own_env-NodupNames : NodupNames own_env
unfolding NodupNames find text text_eq
own_env-NodupNames = (refl, (refl, tt))

merge_env_vars-find_example :
    NodupNames (merge_env_vars own_env (plain (text "B") (text "3") ∷ []))
    × (find (text "B") (merge_env_vars own_env (plain (text "B") (text "3") ∷ []))
        ≡ or_else (last_of (text "B") (plain (text "B") (text "3") ∷ [])) (find (text "B") own_env))
merge_env_vars-find_example =
    merge_env_vars-find (text "B") own_env (plain (text "B") (text "3") ∷ []) own_env-NodupNames

token_refresh_after-bounds_example :
    (token_refresh_after 5 3600000000005
      ≡ 5 + min (((3600000000005 - 5) * 8) / 10) max_token_refresh_period)
    × (5 ≤ token_refresh_after 5 3600000000005)
    × (token_refresh_after 5 3600000000005 ≤ 3600000000005)
token_refresh_after-bounds_example =
    token_refresh_after-bounds 5 3600000000005 (omega arith) (omega arith)

-- The pod is created, in the place of the virtual one.
created_web : (create_pod no_digest provider memory web_request []).0 ≡ ok tt
unfolding create_pod ◌>>=◌ raise_if pure of_result transform_tokens transform_projected_tokens
    transform_kube_access_token has_kube_access_volume is_forbidden is_forbidden_spec
    set_token_secrets_owner text text_eq contains allowed_schedulers get_text lookup
created_web = refl
