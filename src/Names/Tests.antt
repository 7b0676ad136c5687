-- ===== src/Names/Tests.antt =====
-- Names and versions at concrete inputs, with a small digest in place of SHA-256.
use k3k.Prelude.{Text, text, ◌/◌, ◌%◌, ◌≤◌, ◌<◌, ◌≡◌, refl, [], ◌∷◌, arith, length, All}
use k3k.Names.{
  VersionSource, resolve_k3s_version, kubernetes_version, k3s_image, safe_concat_name,
  safe_concat_name_with_prefix,
}
use k3k.Names.Bounds.{IsNameByte, safe_concat_name-IsNameByte, length-safe_concat_name}
use k3k.Names.Versions.{resolve-kubernetes_version}

abbrev size_digest : Text → Text
size_digest s = length s % 256 ∷ 171 ∷ length s / 2 % 256 ∷ 7 ∷ []

abbrev long_name : Text
long_name = text "a-name-of-more-than-sixty-three-bytes-that-has-to-be-cut-and-marked"

-- The byte at position 56 is a dash here, so the cut stands before it.
cut_name :
    safe_concat_name size_digest (long_name ∷ [])
    ≡ text "a-name-of-more-than-sixty-three-bytes-that-has-to-be-cut-43ab21"
unfolding safe_concat_name
cut_name = refl

prefixed :
    safe_concat_name_with_prefix size_digest (text "c1" ∷ [] ∷ text "token" ∷ [])
    ≡ text "k3k-c1-token"
unfolding safe_concat_name_with_prefix
prefixed = refl

hosted : VersionSource
hosted = record { spec_version = []; status_host_version = text "v1.31.1" }

image_of_host : k3s_image hosted (text "rancher/k3s") ≡ text "rancher/k3s:v1.31.1-k3s1"
unfolding k3s_image hosted
image_of_host = refl

length-safe_concat_name_example :
    length (safe_concat_name size_digest (long_name ∷ long_name ∷ [])) ≤ 63
length-safe_concat_name_example = length-safe_concat_name size_digest (long_name ∷ long_name ∷ [])

digest_bytes : (s : Text) → All (λ c. c < 256) (size_digest s)
digest_bytes s = omega arith

long_name-IsNameByte : All (All IsNameByte) (long_name ∷ [])
unfolding text
long_name-IsNameByte = ground arith

safe_concat_name-IsNameByte_example : All IsNameByte (safe_concat_name size_digest (long_name ∷ []))
safe_concat_name-IsNameByte_example =
    safe_concat_name-IsNameByte size_digest (long_name ∷ []) digest_bytes long_name-IsNameByte

resolve-kubernetes_version_example :
    kubernetes_version (resolve_k3s_version hosted) ≡ hosted.status_host_version
unfolding hosted text
resolve-kubernetes_version_example =
    resolve-kubernetes_version hosted refl (ground arith) (ground arith) (ground arith)
