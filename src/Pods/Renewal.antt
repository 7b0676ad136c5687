-- ===== src/Pods/Renewal.antt =====
-- The periodic refresh of the tokens of the pods of this agent (`refreshTokens`, `refreshPodTokens` and
-- `refreshToken` of k3k-kubelet/provider/token.go).
use k3k.Prelude.{
  Text, text, text_eq, contains, Bool, not, ◌||◌, none, some, List, [], ◌∷◌, ◌++◌, if◌then◌else◌,
}
use k3k.Api.{ApiError, ApiResult, ok, err, ignore_not_found}
use k3k.Action.{Action, Done, pure, error_of, ◌>>=◌, ◌>>◌}
use k3k.Pods.{
  Pod, TokenProjection, ProjectedSource, config_map_projection, secret_projection, token_projection,
  other_projection, VolumeSource, config_map_volume, secret_volume, claim_volume, projected_volume,
  downward_volume, other_volume, Volume,
}
use k3k.Pods.Volumes.{is_kube_access, has_kube_access_volume}
use k3k.Pods.Refresh.{token_refresh_due, kube_access_token_secret_name, generate_token_secret_name}
use k3k.Pods.Kubelet.{Provider, Kubelet, Secret}
use k3k.Pods.Tokens.{
  kube_access_token_secret, projected_token_secret, translate_and_create_host_token_secret,
}
use k3k.Pods.Create.{set_token_secret_owner}
use k3k.Pods.Calls.{host_key, from_host, list_host_pods}

unfoldable pub tokens_in : List ProjectedSource → List TokenProjection
tokens_in [] = []
tokens_in (token_projection token ∷ xs) = token ∷ tokens_in xs
tokens_in (config_map_projection _ ∷ xs) = tokens_in xs
tokens_in (secret_projection _ ∷ xs) = tokens_in xs
tokens_in (other_projection _ ∷ xs) = tokens_in xs

unfoldable pub source_tokens : VolumeSource → List TokenProjection
unfolding tokens_in
source_tokens (projected_volume sources) = tokens_in sources
source_tokens (config_map_volume _) = []
source_tokens (secret_volume _) = []
source_tokens (claim_volume _) = []
source_tokens (downward_volume _) = []
source_tokens (other_volume _) = []

-- The projected tokens of the pod, in the order of the two loops.
unfoldable pub projected_tokens : List Volume → List TokenProjection
unfolding is_kube_access source_tokens
projected_tokens [] = []
projected_tokens (v ∷ vs) =
    let rest = projected_tokens vs in
    if is_kube_access v.name then rest else source_tokens v.source ++ rest

-- A pod that is being deleted or has ended has no tokens to refresh.
unfoldable pub has_ended : Pod → Bool
unfolding text text_eq
has_ended pod =
    pod.meta.is_deleting
    || (text_eq pod.payload.phase (text "Succeeded") || text_eq pod.payload.phase (text "Failed"))

module _ (sha256 : Text → Text) (p : Provider) (k : Kubelet) where
  open k use {State}

  -- A new token in the place of the old one, when it is due.
  unfoldable pub renew : Action State Secret → Secret → Action State Done
  unfolding token_refresh_due translate_and_create_host_token_secret
  renew token_secret host_secret s =
      if not (token_refresh_due k.times host_secret.meta.annotations (k.now s))
      then (ok tt, s)
      else (do
        virtual_secret ← token_secret
        translate_and_create_host_token_secret sha256 p k virtual_secret
        pure tt)
          s

  -- The owner that the creation of the pod may have missed.
  unfoldable pub ensure_owner : Pod → Secret → Action State Done
  unfolding set_token_secret_owner contains
  ensure_owner host_pod host_secret =
      if contains host_secret.meta.owner_references host_pod.meta.uid
      then pure tt
      else set_token_secret_owner sha256 p k host_pod host_secret.meta.name

  -- The errors of both steps, joined.
  unfoldable pub refresh_found : Pod → Action State Secret → Secret → State → List ApiError × State
  unfolding ensure_owner renew
  refresh_found host_pod token_secret host_secret s =
      let (r, s') = ensure_owner host_pod host_secret s in
      let (r', s'') = renew token_secret host_secret s' in (error_of r ++ error_of r', s'')

  unfoldable pub refresh_read :
      Pod → Action State Secret → ApiResult Secret × State → List ApiError × State
  unfolding refresh_found ignore_not_found
  refresh_read host_pod token_secret (ok secret, s) = refresh_found host_pod token_secret secret s
  refresh_read host_pod token_secret (err e, s) = elim (ignore_not_found e) [
    | none ↦ ([], s)
    | some e' ↦ (e' ∷ [], s)
  ]

  unfoldable pub refresh_token :
      Pod → Text → Text → Action State Secret → State → List ApiError × State
  unfolding host_key refresh_read
  refresh_token host_pod namespace name token_secret s =
      refresh_read host_pod token_secret (k.get_host_secret (host_key sha256 p namespace name) s)

  unfoldable pub refresh_projected :
      Pod → Pod → List TokenProjection → State → List ApiError × State
  unfolding refresh_token generate_token_secret_name projected_token_secret
  refresh_projected pod host_pod [] s = ([], s)
  refresh_projected pod host_pod (token ∷ tokens) s =
      let (e, s') =
        refresh_token host_pod pod.meta.namespace
          (generate_token_secret_name sha256 k.text_util pod.meta.name token)
          (projected_token_secret sha256 p k token pod) s in
      let (es, s'') = refresh_projected pod host_pod tokens s' in (e ++ es, s'')

  unfoldable pub refresh_access : Pod → Pod → State → List ApiError × State
  unfolding has_kube_access_volume refresh_token kube_access_token_secret_name
      kube_access_token_secret
  refresh_access pod host_pod s =
      if has_kube_access_volume pod.payload.spec.volumes
      then refresh_token host_pod pod.meta.namespace
          (kube_access_token_secret_name sha256 pod.meta.name)
          (kube_access_token_secret sha256 p k pod) s
      else ([], s)

  unfoldable pub refresh_pod_tokens : Pod → Pod → State → List ApiError × State
  unfolding refresh_access refresh_projected projected_tokens
  refresh_pod_tokens pod host_pod s =
      let (e, s') = refresh_access pod host_pod s in
      let (es, s'') =
        refresh_projected pod host_pod (projected_tokens pod.payload.spec.volumes) s' in
      (e ++ es, s'')

  -- The virtual pod of a host pod, where it can be read and is not being deleted.
  unfoldable pub refresh_read_pod : Pod → ApiResult Pod × State → State
  unfolding refresh_pod_tokens
  refresh_read_pod host_pod (err e, s) = s
  refresh_read_pod host_pod (ok pod, s) =
      if pod.meta.is_deleting then s else (refresh_pod_tokens pod host_pod s).1

  unfoldable pub refresh_host_pod : Pod → State → State
  unfolding has_ended from_host refresh_read_pod
  refresh_host_pod host_pod s =
      let pod = from_host host_pod in
      if has_ended host_pod
      then s
      else refresh_read_pod host_pod
          (k.get_virtual_pod (record { namespace = pod.meta.namespace; name = pod.meta.name }) s)

  unfoldable pub refresh_all : List Pod → State → State
  unfolding refresh_host_pod
  refresh_all [] s = s
  refresh_all (pod ∷ pods) s = refresh_all pods (refresh_host_pod pod s)

  unfoldable pub refresh_listed : ApiResult (List Pod) × State → State
  unfolding refresh_all
  refresh_listed (err e, s) = s
  refresh_listed (ok pods, s) = refresh_all pods s

  -- One run of the periodic refresh. Errors are logged.
  unfoldable pub refresh_tokens : State → State
  unfolding list_host_pods refresh_listed
  refresh_tokens s = refresh_listed (list_host_pods sha256 p k s)
