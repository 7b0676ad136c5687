-- ===== src/Pods/Tokens.antt =====
-- The tokens of the service accounts of the virtual cluster, in secrets of the host cluster
-- (`transformTokens` and what it calls in k3k-kubelet/provider/token.go).
use k3k.Prelude.{
  Text, text, is_empty, Dict, lookup, insert, copy, ℕ, false, not, Option, none, some, List, [],
  ◌∷◌, ◌++◌, if◌then◌else◌,
}
use k3k.Api.{ObjectMeta, ApiResult, ok, err, other}
use k3k.Action.{Action, pure, gets, of_result, ◌>>=◌}
use k3k.Translate.{translate_to}
use k3k.Pods.{
  Pod, PodSpec, TokenProjection, ProjectedSource, config_map_projection, secret_projection,
  token_projection, other_projection, VolumeSource, config_map_volume, secret_volume, claim_volume,
  projected_volume, downward_volume, other_volume, Volume,
}
use k3k.Pods.Volumes.{
  is_kube_access, has_kube_access_volume, remove_kube_access_volume, add_kube_access_volume,
}
use k3k.Pods.Refresh.{
  token_secret_annotations, kube_access_token_expiration_seconds, kube_access_token_secret_name,
  generate_token_secret_name,
}
use k3k.Pods.Kubelet.{Provider, Kubelet, Secret, TokenRequest, IssuedToken}

abbrev pub no_meta : ObjectMeta
no_meta = record {
  name = [];
  namespace = [];
  labels = [];
  annotations = [];
  owner_references = [];
  finalizers = [];
  resource_version = [];
  uid = [];
  is_deleting = false;
}

abbrev pub token_secret : Text → Text → Dict Text → Dict Text → Secret
token_secret name namespace annotations fields = record {
  meta = record no_meta { name = name; namespace = namespace; annotations = annotations };
  payload = record { secret_type = []; rest = fields };
}

-- The change that `CreateOrUpdate` applies: the data is replaced, the annotations are added.
unfoldable pub refresh_secret : Dict Text → Dict Text → Secret → Secret
unfolding copy
refresh_secret fields annotations secret = record secret {
  payload = record secret.payload { rest = fields };
  meta = record secret.meta { annotations = copy secret.meta.annotations annotations };
}

unfoldable pub token_request : Pod → Text → Option ℕ → TokenRequest
token_request pod audience expiration = record {
  name = pod.payload.spec.service_account_name;
  namespace = pod.meta.namespace;
  audiences = if is_empty audience then [] else audience ∷ [];
  expiration_seconds = expiration;
  bound_name = pod.meta.name;
  bound_uid = pod.meta.uid;
}

unfoldable pub as_secret : Text → ProjectedSource
as_secret name = secret_projection name

module _ (sha256 : Text → Text) (p : Provider) (k : Kubelet) where
  open k use {State}

  unfoldable pub request_token : Pod → Text → Option ℕ → Action State IssuedToken
  unfolding token_request
  request_token pod audience expiration = k.create_token (token_request pod audience expiration)

  unfoldable pub projected_token_secret : TokenProjection → Pod → Action State Secret
  unfolding request_token generate_token_secret_name token_secret_annotations
  projected_token_secret token pod = do
    issued ← request_token pod token.audience token.expiration_seconds
    gets (λ s.
        token_secret (generate_token_secret_name sha256 k.text_util pod.meta.name token)
          pod.meta.namespace (token_secret_annotations k.times issued.expiration (k.now s))
          ((token.path, issued.token) ∷ []))

  unfoldable pub ca_cert_of : Option Text → ApiResult Text
  unfolding text
  ca_cert_of none = err (other (text "configmap has no ca.crt"))
  ca_cert_of (some ca_cert) = ok ca_cert

  unfoldable pub kube_access_token_secret : Pod → Action State Secret
  unfolding text lookup ca_cert_of request_token kube_access_token_secret_name
      token_secret_annotations insert
  kube_access_token_secret pod = do
    root_ca ←
        k.get_root_ca (record { namespace = pod.meta.namespace; name = text "kube-root-ca.crt" })
    ca_cert ← of_result (ca_cert_of (lookup (text "ca.crt") root_ca))
    issued ← request_token pod [] (some kube_access_token_expiration_seconds)
    gets (λ s.
        token_secret (kube_access_token_secret_name sha256 pod.meta.name) pod.meta.namespace
          (token_secret_annotations k.times issued.expiration (k.now s))
          ((text "token", issued.token)
            ∷ (text "ca.crt", ca_cert)
            ∷ (text "namespace", pod.meta.namespace)
            ∷ []))

  unfoldable pub host_token_secret : Secret → Secret
  unfolding translate_to
  host_token_secret secret = record secret {
    meta = translate_to sha256 p.translator secret.meta;
    payload = record secret.payload { secret_type = [] };
  }

  unfoldable pub translate_and_create_host_token_secret : Secret → Action State Secret
  unfolding host_token_secret refresh_secret
  translate_and_create_host_token_secret secret =
      let host = host_token_secret secret in
      k.create_or_update host (refresh_secret host.payload.rest host.meta.annotations)

  -- A source that is a token becomes the secret that holds it. The names of the secrets are in order.
  unfoldable pub transform_token :
      Pod → ProjectedSource → Action State (List Text × ProjectedSource)
  unfolding projected_token_secret translate_and_create_host_token_secret as_secret
  transform_token pod (token_projection token) = do
    virtual_secret ← projected_token_secret token pod
    host_secret ← translate_and_create_host_token_secret virtual_secret
    pure (host_secret.meta.name ∷ [], as_secret host_secret.meta.name)
  transform_token pod (config_map_projection name) = pure ([], config_map_projection name)
  transform_token pod (secret_projection name) = pure ([], secret_projection name)
  transform_token pod (other_projection s) = pure ([], other_projection s)

  unfoldable pub transform_sources :
      Pod → List ProjectedSource → Action State (List Text × List ProjectedSource)
  unfolding transform_token
  transform_sources pod [] = pure ([], [])
  transform_sources pod (x ∷ xs) = do
    first ← transform_token pod x
    rest ← transform_sources pod xs
    pure (first.0 ++ rest.0, first.1 ∷ rest.1)

  unfoldable pub transform_token_source :
      Pod → VolumeSource → Action State (List Text × VolumeSource)
  unfolding transform_sources
  transform_token_source pod (projected_volume sources) = do
    changed ← transform_sources pod sources
    pure (changed.0, projected_volume changed.1)
  transform_token_source pod (config_map_volume name) = pure ([], config_map_volume name)
  transform_token_source pod (secret_volume name) = pure ([], secret_volume name)
  transform_token_source pod (claim_volume name) = pure ([], claim_volume name)
  transform_token_source pod (downward_volume items) = pure ([], downward_volume items)
  transform_token_source pod (other_volume s) = pure ([], other_volume s)

  unfoldable pub transform_token_volume : Pod → Volume → Action State (List Text × Volume)
  unfolding is_kube_access transform_token_source
  transform_token_volume pod v =
      if is_kube_access v.name
      then pure ([], v)
      else (transform_token_source pod v.source >>= λ changed.
          pure (changed.0, record v { source = changed.1 }))

  unfoldable pub transform_projected_tokens :
      Pod → List Volume → Action State (List Text × List Volume)
  unfolding transform_token_volume
  transform_projected_tokens pod [] = pure ([], [])
  transform_projected_tokens pod (v ∷ vs) = do
    first ← transform_token_volume pod v
    rest ← transform_projected_tokens pod vs
    pure (first.0 ++ rest.0, first.1 ∷ rest.1)

  -- The name, if there is one.
  unfoldable pub named_secrets : Text → List Text
  named_secrets name = if is_empty name then [] else name ∷ []

  -- The volume of the access token becomes one of the secret that holds it.
  unfoldable pub mount_access_token : Text → PodSpec → PodSpec
  unfolding remove_kube_access_volume add_kube_access_volume
  mount_access_token name spec = add_kube_access_volume sha256 name (remove_kube_access_volume spec)

  unfoldable pub transform_kube_access_token : Pod → PodSpec → Action State (List Text × PodSpec)
  unfolding has_kube_access_volume kube_access_token_secret translate_and_create_host_token_secret
      mount_access_token named_secrets
  transform_kube_access_token pod spec =
      if not (has_kube_access_volume pod.payload.spec.volumes)
      then pure ([], spec)
      else (kube_access_token_secret pod >>= λ virtual_secret.
          translate_and_create_host_token_secret virtual_secret >>= λ host_secret.
          pure (named_secrets host_secret.meta.name, mount_access_token host_secret.meta.name spec))

  unfoldable pub without_account : PodSpec → PodSpec
  without_account spec = record spec {
    service_account_name = [];
    deprecated_service_account = [];
    automount_service_account_token = some false;
  }

  unfoldable pub with_volumes : List Volume → PodSpec → PodSpec
  with_volumes volumes spec = record spec { volumes = volumes }

  unfoldable pub transform_tokens : Pod → PodSpec → Action State (List Text × PodSpec)
  unfolding without_account transform_projected_tokens transform_kube_access_token with_volumes
  transform_tokens pod spec = do
    projected ← transform_projected_tokens pod spec.volumes
    access ← transform_kube_access_token pod (with_volumes projected.1 (without_account spec))
    pure (projected.0 ++ access.0, access.1)
