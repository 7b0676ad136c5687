-- ===== src/Pods/Metadata.antt =====
-- What an update of a pod carries over (`updatePod`, `updateMetadata`, `mergeManagedMetadata` and
-- `updateContainerImages` of k3k-kubelet/provider/provider.go).
use k3k.Prelude.{
  Text, has_prefix, text_eq_iff, Dict, lookup, insert, copy, NodupKeys, has_key, lookup-insert,
  Bool, ◌&&◌, List, [], ◌∷◌, ◌≡◌, refl, arith, if◌then◌else◌,
}
use k3k.Api.{ObjectMeta}
use k3k.Translate.{metadata_prefix, get_text}
use k3k.Pods.{Container, Pod}

abbrev pub is_managed : Text → Bool
is_managed key = has_prefix key metadata_prefix

-- The entries of `dst` with the prefix, in the order of the loop.
unfoldable pub carry_over : Dict Text → Dict Text → Dict Text
unfolding insert has_prefix
carry_over merged [] = merged
carry_over merged ((key, value) ∷ dst) =
    carry_over (if is_managed key then insert key value merged else merged) dst

unfoldable pub merge_managed_metadata : Dict Text → Dict Text → Dict Text
unfolding carry_over copy
merge_managed_metadata dst src = carry_over (copy [] src) dst

unfoldable pub images_of : Dict Text → List Container → Dict Text
unfolding insert
images_of images [] = images
images_of images (c ∷ cs) = images_of (insert c.name c.image images) cs

unfoldable pub with_images : Dict Text → List Container → List Container
unfolding get_text
with_images images [] = []
with_images images (c ∷ cs) = record c { image = get_text c.name images } ∷ with_images images cs

unfoldable pub update_container_images : List Container → List Container → List Container
unfolding images_of with_images
update_container_images dst src = with_images (images_of [] src) dst

unfoldable pub update_metadata : ObjectMeta → ObjectMeta → ObjectMeta
unfolding merge_managed_metadata lookup has_key
update_metadata dst src = record dst {
  labels = merge_managed_metadata dst.labels src.labels;
  annotations = merge_managed_metadata dst.annotations src.annotations;
}

-- The function `updatePod` of two pods.
unfoldable pub update_pod_fields : Pod → Pod → Pod
unfolding update_container_images update_metadata
update_pod_fields dst src = record dst {
  meta = update_metadata dst.meta src.meta;
  payload = record dst.payload {
    spec = record dst.payload.spec {
      containers = update_container_images dst.payload.spec.containers src.payload.spec.containers;
      init_containers =
          update_container_images dst.payload.spec.init_containers src.payload.spec.init_containers;
      active_deadline_seconds = src.payload.spec.active_deadline_seconds;
      tolerations = src.payload.spec.tolerations;
    };
  };
}

lookup-carry_over :
    (k : Text) (merged dst : Dict Text)
    → NodupKeys dst
    → lookup k (carry_over merged dst)
      ≡ (if is_managed k && has_key k dst then lookup k dst else lookup k merged)
unfolding carry_over lookup has_key
lookup-carry_over k merged [] h = ground arith
lookup-carry_over k merged ((j, v) ∷ dst) h = ground (
  arith,
  text_eq_iff j k,
  lookup-insert j k v merged,
  lookup-carry_over k (if is_managed j then insert j v merged else merged) dst,
)

lookup-copy :
    (k : Text) (dst src : Dict Text)
    → NodupKeys src
    → lookup k (copy dst src) ≡ (if has_key k src then lookup k src else lookup k dst)
unfolding copy lookup has_key
lookup-copy k dst [] h = refl
lookup-copy k dst ((j, v) ∷ src) h =
    ground (arith, text_eq_iff j k, lookup-insert j k v dst, lookup-copy k (insert j v dst) src)

-- Where neither map has a key twice, as Go's maps: a k3k.io key that the host object has keeps the
-- host's value, and every other key has exactly the value of the virtual object, or none.
pub lookup-merge_managed_metadata :
    (k : Text) (dst src : Dict Text)
    → NodupKeys dst
    → NodupKeys src
    → lookup k (merge_managed_metadata dst src)
      ≡ (if is_managed k && has_key k dst then lookup k dst else lookup k src)
unfolding merge_managed_metadata lookup has_key
lookup-merge_managed_metadata k dst src h g =
    ground (arith, lookup-carry_over k (copy [] src) dst h, lookup-copy k [] src g)
