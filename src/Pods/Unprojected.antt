-- ===== src/Pods/Unprojected.antt =====
-- After `transformTokens` no projected volume asks for a token of the host cluster, but one whose name
-- starts as those of the access tokens do (k3k-kubelet/provider/token.go).
use k3k.Prelude.{
  Text, false, some, List, [], ◌∷◌, ◌++◌, ◌≡◌, refl, arith, Bool-cases, inl, inr, append-nil,
}
use k3k.Api.{NamespacedName}
use k3k.Action.{Keeps, Any, bind-Keeps, pure-Keeps, gets-Keeps, of_result-Keeps}
use k3k.Pods.{
  Pod, PodSpec, Volume, VolumeSource, config_map_volume, secret_volume, claim_volume,
  projected_volume, downward_volume, other_volume, ProjectedSource, config_map_projection,
  secret_projection, token_projection, other_projection, TokenProjection,
}
use k3k.Pods.Volumes.{
  is_kube_access, remove_volume, remove_kube_access_volume, add_kube_access_volume,
  has_kube_access_volume,
}
use k3k.Pods.Kubelet.{Provider, Kubelet, Secret, TokenRequest}
use k3k.Pods.Tokens.{
  request_token, projected_token_secret, kube_access_token_secret,
  translate_and_create_host_token_secret, transform_token, transform_sources,
  transform_token_source, transform_token_volume, transform_projected_tokens, mount_access_token,
  transform_kube_access_token, transform_tokens, without_account, with_volumes, as_secret,
}
use k3k.Pods.Renewal.{projected_tokens, source_tokens, tokens_in}
use k3k.Pods.Spec.{binding}

projected_tokens-remove_volume :
    (vs : List Volume) → projected_tokens (remove_volume vs) ≡ projected_tokens vs
unfolding projected_tokens remove_volume
projected_tokens-remove_volume [] = refl
projected_tokens-remove_volume (v ∷ vs) = elim (Bool-cases (is_kube_access v.name)) [
  | inl e ↦ rw (e) refl
  | inr e ↦ rw (e, e, projected_tokens-remove_volume vs) refl
]

projected_tokens-secret :
    (vs : List Volume) (name secret : Text)
    → projected_tokens (vs ++ record { name = name; source = secret_volume secret } ∷ [])
      ≡ projected_tokens vs
unfolding projected_tokens source_tokens
projected_tokens-secret [] name secret = elim (Bool-cases (is_kube_access name)) [
  | inl e ↦ rw (e) refl
  | inr e ↦ rw (e) refl
]
projected_tokens-secret (v ∷ vs) name secret = rw (projected_tokens-secret vs name secret) refl

projected_tokens-cons :
    (v : Volume) (vs : List Volume)
    → projected_tokens (v ∷ vs) ≡ projected_tokens (v ∷ []) ++ projected_tokens vs
unfolding projected_tokens
projected_tokens-cons v vs = elim (Bool-cases (is_kube_access v.name)) [
  | inl e ↦ rw (e) refl
  | inr e ↦ rw (e, append-nil (source_tokens v.source)) refl
]

-- The calls that the tokens make keep `Q`.
pub record TokenCalls (k : Kubelet) (Q : k.State → Type 0) : Type 0 where
  pub create_token-Keeps : (r : TokenRequest) → Keeps Q Any (k.create_token r)
  pub create_or_update-Keeps :
      (s : Secret) (f : Secret → Secret) → Keeps Q Any (k.create_or_update s f)
  pub get_root_ca-Keeps : (n : NamespacedName) → Keeps Q Any (k.get_root_ca n)

module _ (sha256 : Text → Text) (p : Provider) (k : Kubelet) (Q : k.State → Type 0)
    (calls : TokenCalls k Q) where
  projected_token_secret-Keeps :
      (token : TokenProjection) (pod : Pod)
      → Keeps Q Any (projected_token_secret sha256 p k token pod)
  unfolding projected_token_secret request_token
  projected_token_secret-Keeps token pod =
      bind-Keeps Q Any Any _ _ (calls.create_token-Keeps _) (λ issued h. gets-Keeps Q _)

  stored-Keeps :
      (secret : Secret) → Keeps Q Any (translate_and_create_host_token_secret sha256 p k secret)
  unfolding translate_and_create_host_token_secret
  stored-Keeps secret = calls.create_or_update-Keeps _ _

  transform_token-Keeps :
      (pod : Pod) (x : ProjectedSource)
      → Keeps Q (λ r. tokens_in (r.1 ∷ []) ≡ []) (transform_token sha256 p k pod x)
  unfolding transform_token tokens_in as_secret
  transform_token-Keeps pod (token_projection token) =
      bind-Keeps Q Any _ _ _ (projected_token_secret-Keeps token pod) (λ virtual_secret h.
        bind-Keeps Q Any _ _ _ (stored-Keeps virtual_secret)
          (λ host_secret h'. pure-Keeps Q _ _ refl))
  transform_token-Keeps pod (config_map_projection name) = pure-Keeps Q _ _ refl
  transform_token-Keeps pod (secret_projection name) = pure-Keeps Q _ _ refl
  transform_token-Keeps pod (other_projection x) = pure-Keeps Q _ _ refl

  transform_sources-Keeps :
      (pod : Pod) (xs : List ProjectedSource)
      → Keeps Q (λ r. tokens_in r.1 ≡ []) (transform_sources sha256 p k pod xs)
  unfolding transform_sources tokens_in
  transform_sources-Keeps pod [] = pure-Keeps Q _ _ refl
  transform_sources-Keeps pod (x ∷ xs) =
      bind-Keeps Q _ _ _ _ (transform_token-Keeps pod x) (λ first h.
        bind-Keeps Q _ _ _ _ (transform_sources-Keeps pod xs)
          (λ rest g. pure-Keeps Q _ _ (tokens_in-cons first.1 rest.1 h g)))
    where
      tokens_in-cons :
          (x : ProjectedSource) (xs : List ProjectedSource)
          → tokens_in (x ∷ []) ≡ []
          → tokens_in xs ≡ []
          → tokens_in (x ∷ xs) ≡ []
      tokens_in-cons (token_projection token) xs h g = ground arith
      tokens_in-cons (config_map_projection name) xs h g = g
      tokens_in-cons (secret_projection name) xs h g = g
      tokens_in-cons (other_projection name) xs h g = g

  transform_token_source-Keeps :
      (pod : Pod) (x : VolumeSource)
      → Keeps Q (λ r. source_tokens r.1 ≡ []) (transform_token_source sha256 p k pod x)
  unfolding transform_token_source source_tokens
  transform_token_source-Keeps pod (projected_volume xs) =
      bind-Keeps Q _ _ _ _ (transform_sources-Keeps pod xs) (λ r h. pure-Keeps Q _ _ h)
  transform_token_source-Keeps pod (config_map_volume name) = pure-Keeps Q _ _ refl
  transform_token_source-Keeps pod (secret_volume name) = pure-Keeps Q _ _ refl
  transform_token_source-Keeps pod (claim_volume name) = pure-Keeps Q _ _ refl
  transform_token_source-Keeps pod (downward_volume items) = pure-Keeps Q _ _ refl
  transform_token_source-Keeps pod (other_volume x) = pure-Keeps Q _ _ refl

  -- A volume that the creation passes over may hold any source.
  transform_token_volume-Keeps :
      (pod : Pod) (v : Volume)
      → Keeps Q (λ r. projected_tokens (r.1 ∷ []) ≡ []) (transform_token_volume sha256 p k pod v)
  unfolding transform_token_volume projected_tokens
  transform_token_volume-Keeps pod v = elim (Bool-cases (is_kube_access v.name)) [
    | inl e ↦ rw (e) (pure-Keeps Q _ _ (rw (e) refl))
    | inr e ↦ rw (e) (
        bind-Keeps Q _ _ _ _ (transform_token_source-Keeps pod v.source)
          (λ changed h. pure-Keeps Q _ _ (rw (e, h) refl)))
  ]

  transform_projected_tokens-Keeps :
      (pod : Pod) (vs : List Volume)
      → Keeps Q (λ r. projected_tokens r.1 ≡ []) (transform_projected_tokens sha256 p k pod vs)
  unfolding transform_projected_tokens projected_tokens
  transform_projected_tokens-Keeps pod [] = pure-Keeps Q _ _ refl
  transform_projected_tokens-Keeps pod (v ∷ vs) =
      bind-Keeps Q _ _ _ _ (transform_token_volume-Keeps pod v) (λ first h.
        bind-Keeps Q _ _ _ _ (transform_projected_tokens-Keeps pod vs)
          (λ rest g. pure-Keeps Q _ _ (rw (projected_tokens-cons first.1 rest.1, h, g) refl)))

  kube_access_token_secret-Keeps :
      (pod : Pod) → Keeps Q Any (kube_access_token_secret sha256 p k pod)
  unfolding kube_access_token_secret request_token
  kube_access_token_secret-Keeps pod =
      bind-Keeps Q Any _ _ _ (calls.get_root_ca-Keeps _) (λ root_ca h.
        bind-Keeps Q Any _ _ _ (of_result-Keeps Q _) (λ ca_cert h'.
          bind-Keeps Q Any _ _ _ (calls.create_token-Keeps _) (λ issued h''. gets-Keeps Q _)))

  transform_kube_access_token-Keeps :
      (pod : Pod) (spec : PodSpec)
      → projected_tokens spec.volumes ≡ []
      → Keeps Q
          (λ r. (binding r.1 ≡ binding spec) × (projected_tokens r.1.volumes ≡ []))
          (transform_kube_access_token sha256 p k pod spec)
  unfolding transform_kube_access_token mount_access_token remove_kube_access_volume
      add_kube_access_volume binding
  transform_kube_access_token-Keeps pod spec h =
      elim (Bool-cases (has_kube_access_volume pod.payload.spec.volumes)) [
        | inr e ↦ rw (e) (pure-Keeps Q _ _ (refl, h))
        | inl e ↦ rw (e) (
            bind-Keeps Q _ _ _ _ (kube_access_token_secret-Keeps pod) (λ virtual_secret g.
              bind-Keeps Q _ _ _ _ (stored-Keeps virtual_secret) (λ host_secret g'.
                pure-Keeps Q _ _ (
                  refl,
                  rw
                      (
                        projected_tokens-secret (remove_volume spec.volumes),
                        projected_tokens-remove_volume spec.volumes,
                        h,
                      )
                      refl,
                ))))
      ]

  -- The account is cleared, whatever the pod asks for.
  pub transform_tokens-Keeps :
      (pod : Pod) (spec : PodSpec)
      → Keeps Q
          (λ r.
            (binding r.1
              ≡ record (binding spec) { service_account_name = []; automount = some false })
            × (projected_tokens r.1.volumes ≡ []))
          (transform_tokens sha256 p k pod spec)
  unfolding transform_tokens without_account with_volumes binding
  transform_tokens-Keeps pod spec =
      bind-Keeps Q _ _ _ _ (transform_projected_tokens-Keeps pod spec.volumes) (λ projected h.
        bind-Keeps Q _ _ _ _ (transform_kube_access_token-Keeps pod _ h)
          (λ access g. pure-Keeps Q _ _ g))
