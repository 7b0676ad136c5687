-- ===== src/Names.antt =====
-- Length-safe names, versions and host names (pkg/controller/controller.go). The SHA-256 digest and
-- the IP parser belong to Go's libraries and are parameters.
pub mod Bounds
pub mod Versions
mod Tests
use k3k.Prelude.{
  Text, text, is_empty, join, keep, ℕ, ◌+◌, ◌-◌, ◌/◌, ◌%◌, Bool, true, false, not, ◌&&◌, ◌||◌, List,
  [], ◌∷◌, ◌++◌, ltb, leb, ◌==◌, if◌then◌else◌, length, take, get_or, map,
}

-- The fields of a Cluster that its version is resolved from.
pub record VersionSource : Type 0 where
  pub spec_version : Text
  pub status_host_version : Text

pub record K3sVersion : Type 0 where
  pub raw : Text

unfoldable pub resolve_k3s_version : VersionSource → K3sVersion
unfolding text
resolve_k3s_version cluster =
    if not (is_empty cluster.spec_version)
    then record { raw = cluster.spec_version }
    else if not (is_empty cluster.status_host_version)
    then record { raw = cluster.status_host_version ++ text "-k3s1" }
    else record { raw = text "latest" }

unfoldable pub image_tag : K3sVersion → Text
image_tag v = v.raw

-- `strings.Replace(s, a, b, 1)` for single bytes.
unfoldable pub replace_first : ℕ → ℕ → Text → Text
replace_first a b [] = []
replace_first a b (c ∷ s) = let rest = replace_first a b s in if c == a then b ∷ s else c ∷ rest

-- `strings.Split(s, a)[0]` for a single byte.
unfoldable pub before : ℕ → Text → Text
before a [] = []
before a (c ∷ s) = let rest = before a s in if c == a then [] else c ∷ rest

unfoldable pub release_name : K3sVersion → Text
unfolding replace_first
release_name v = replace_first b'-' b'+' v.raw

unfoldable pub kubernetes_version : K3sVersion → Text
unfolding before
kubernetes_version v = before b'+' (before b'-' v.raw)

unfoldable pub k3s_image : VersionSource → Text → Text
unfolding resolve_k3s_version image_tag text
k3s_image cluster image = image ++ (text ":" ++ image_tag (resolve_k3s_version cluster))

-- `net.ParseIP(name) != nil` is the parameter.
unfoldable pub filter_dns_names : (Text → Bool) → List Text → List Text
unfolding keep
filter_dns_names is_ip names = keep (λ name. not (is_ip name)) names

abbrev pub hex_digit : ℕ → ℕ
hex_digit n = if ltb n 10 then b'0' + n else b'a' + (n - 10)

-- `hex.EncodeToString`.
unfoldable pub hex_encode : Text → Text
hex_encode [] = []
hex_encode (c ∷ s) = hex_digit (c / 16) ∷ hex_digit (c % 16) ∷ hex_encode s

-- `'a' <= c && c <= 'z' || '0' <= c && c <= '9'`.
abbrev pub is_alphanumeric : ℕ → Bool
is_alphanumeric c = (leb b'a' c && leb c b'z') || (leb b'0' c && leb c b'9')

module _ (sha256 : Text → Text) where
  -- A path of 64 bytes or more, cut and marked with the digest.
  unfoldable pub shorten : Text → Text
  unfolding hex_encode
  shorten full_path =
      if is_alphanumeric (get_or full_path 56 0)
      then take 57 full_path ++ (b'-' ∷ take 5 (hex_encode (sha256 full_path)))
      else take 56 full_path ++ (b'-' ∷ take 6 (hex_encode (sha256 full_path)))

  unfoldable pub safe_concat_name : List Text → Text
  unfolding shorten join keep text
  safe_concat_name name =
      let full_path = join (text "-") (keep (λ s. not (is_empty s)) name) in
      if ltb (length full_path) 64 then full_path else shorten full_path

  unfoldable pub safe_concat_name_with_prefix : List Text → Text
  unfolding safe_concat_name text
  safe_concat_name_with_prefix name = safe_concat_name (text "k3k" ∷ name)
