-- ===== src/Pods/Volumes.antt =====
-- The volumes of a pod on the host (`transformVolumes` of k3k-kubelet/provider/provider.go;
-- `hasKubeAccessVolume`, `removeKubeAccessVolume` and `addKubeAccessVolume` of token.go).
use k3k.Prelude.{
  Text, text, text_eq, has_prefix, Bool, true, false, none, some, List, [], ◌∷◌, ◌++◌, map,
  if◌then◌else◌,
}
use k3k.Names.{safe_concat_name_with_prefix}
use k3k.Translate.{ToHostTranslator, translate_name}
use k3k.Pods.{
  Volume, VolumeSource, config_map_volume, secret_volume, claim_volume, projected_volume,
  downward_volume, other_volume, ProjectedSource, config_map_projection, secret_projection,
  token_projection, other_projection, DownwardItem, VolumeMount, Container, PodSpec,
}

abbrev pub kube_api_access_prefix : Text
kube_api_access_prefix = text "kube-api-access"

abbrev pub service_account_token_mount_path : Text
service_account_token_mount_path = text "/var/run/secrets/kubernetes.io/serviceaccount"

unfoldable pub is_kube_access : Text → Bool
unfolding has_prefix text
is_kube_access name = has_prefix name kube_api_access_prefix

-- A field of the metadata is read from the annotation that records it.
unfoldable pub transform_field : Text → Text
unfolding text text_eq
transform_field path =
    if text_eq path (text "metadata.name")
    then text "metadata.annotations['k3k.io/name']"
    else if text_eq path (text "metadata.namespace")
    then text "metadata.annotations['k3k.io/namespace']"
    else path

unfoldable pub transform_item : DownwardItem → DownwardItem
unfolding transform_field
transform_item i = record i {
  field_path = elim i.field_path [ none ↦ none | some path ↦ some (transform_field path) ];
}

module _ (sha256 : Text → Text) (t : ToHostTranslator) where
  unfoldable pub transform_projected : Text → ProjectedSource → ProjectedSource
  unfolding translate_name
  transform_projected namespace (config_map_projection name) =
      config_map_projection (translate_name sha256 t namespace name)
  transform_projected namespace (secret_projection name) =
      secret_projection (translate_name sha256 t namespace name)
  transform_projected namespace (token_projection token) = token_projection token
  transform_projected namespace (other_projection s) = other_projection s

  unfoldable pub transform_source : Text → VolumeSource → VolumeSource
  unfolding translate_name transform_projected transform_item
  transform_source namespace (config_map_volume name) =
      config_map_volume (translate_name sha256 t namespace name)
  transform_source namespace (secret_volume name) =
      secret_volume (translate_name sha256 t namespace name)
  transform_source namespace (claim_volume name) =
      claim_volume (translate_name sha256 t namespace name)
  transform_source namespace (projected_volume sources) =
      projected_volume (map (transform_projected namespace) sources)
  transform_source namespace (downward_volume items) = downward_volume (map transform_item items)
  transform_source namespace (other_volume s) = other_volume s

  unfoldable pub transform_volume : Text → Volume → Volume
  unfolding is_kube_access transform_source
  transform_volume namespace v =
      if is_kube_access v.name then v else record v { source = transform_source namespace v.source }

  unfoldable pub transform_volumes : Text → List Volume → List Volume
  unfolding transform_volume
  transform_volumes namespace volumes = map (transform_volume namespace) volumes

unfoldable pub has_kube_access_volume : List Volume → Bool
unfolding is_kube_access
has_kube_access_volume [] = false
has_kube_access_volume (v ∷ vs) = if is_kube_access v.name then true else has_kube_access_volume vs

-- The loops stop at the first match.
unfoldable pub remove_volume : List Volume → List Volume
unfolding is_kube_access
remove_volume [] = []
remove_volume (v ∷ vs) =
    let rest = remove_volume vs in if is_kube_access v.name then vs else v ∷ rest

unfoldable pub remove_mount : List VolumeMount → List VolumeMount
unfolding is_kube_access
remove_mount [] = []
remove_mount (m ∷ ms) = let rest = remove_mount ms in if is_kube_access m.name then ms else m ∷ rest

unfoldable pub without_mount : Container → Container
unfolding remove_mount
without_mount c = record c { volume_mounts = remove_mount c.volume_mounts }

unfoldable pub remove_kube_access_volume : PodSpec → PodSpec
unfolding remove_volume without_mount
remove_kube_access_volume spec = record spec {
  volumes = remove_volume spec.volumes;
  init_containers = map without_mount spec.init_containers;
  ephemeral_containers = map without_mount spec.ephemeral_containers;
  containers = map without_mount spec.containers;
}

unfoldable pub with_mount : Text → Container → Container
with_mount name c = record c {
  volume_mounts =
      c.volume_mounts ++ record { name = name; mount_path = service_account_token_mount_path } ∷ [];
}

module _ (sha256 : Text → Text) where
  unfoldable pub token_volume_name : Text
  unfolding safe_concat_name_with_prefix
  token_volume_name = safe_concat_name_with_prefix sha256 (kube_api_access_prefix ∷ [])

  unfoldable pub add_kube_access_volume : Text → PodSpec → PodSpec
  unfolding token_volume_name with_mount
  add_kube_access_volume secret_name spec = record spec {
    volumes =
        spec.volumes
        ++ record { name = token_volume_name; source = secret_volume secret_name } ∷ [];
    init_containers = map (with_mount token_volume_name) spec.init_containers;
    containers = map (with_mount token_volume_name) spec.containers;
    ephemeral_containers = map (with_mount token_volume_name) spec.ephemeral_containers;
  }
