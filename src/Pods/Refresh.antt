-- ===== src/Pods/Refresh.antt =====
-- The names of the secrets that hold the tokens of a pod, and when a token is refreshed (the functions
-- of k3k-kubelet/provider/token.go without calls to a cluster). Times are nanoseconds since the year 1;
-- the formats of times and of quoted strings, and lower case, are those of Go's libraries.
use k3k.Prelude.{
  Text, text, is_empty, join, Dict, ℕ, ◌+◌, ◌-◌, ◌*◌, ◌/◌, ◌%◌, min, Bool, true, not, Option, none,
  some, List, [], ◌∷◌, ◌++◌, ltb, leb, ◌≡◌, ◌≤◌, arith, if◌then◌else◌, take,
}
use k3k.Names.{safe_concat_name_with_prefix, hex_encode}
use k3k.Translate.{get_text}
use k3k.Pods.{TokenProjection}
use k3k.Pods.Volumes.{kube_api_access_prefix}

-- Go's functions on strings: `strings.ToLower`, replacing every run of bytes outside `a-z0-9.-` by
-- "-", `strings.Trim` of "-" and ".", the verb `%q`, and `strconv.FormatInt` in base 10.
pub record TextUtil : Type 0 where
  pub to_lower : Text → Text
  pub replace_invalid : Text → Text
  pub trim_marks : Text → Text
  pub quote : Text → Text
  pub format_int : ℕ → Text

-- `Format` and `Parse` of RFC 3339.
pub record Times : Type 0 where
  pub format : ℕ → Text
  pub parse : Text → Option ℕ

-- A count of nanoseconds in 64 bits: at or above zero, or below it.
pub data Duration : Type 0 where
  ahead : ℕ → Duration
  behind : ℕ → Duration

abbrev pub max_token_refresh_period : ℕ
max_token_refresh_period = 86400000000000

abbrev pub kube_access_token_expiration_seconds : ℕ
kube_access_token_expiration_seconds = 3607

-- `expiration.Sub(now)`, which stops at the bounds of 64 bits.
unfoldable pub duration_between : ℕ → ℕ → Duration
duration_between now expiration =
    if leb now expiration
    then ahead (min (expiration - now) 9223372036854775807)
    else behind (min (now - expiration) 9223372036854775808)

-- `d * 8 / 10`: the product wraps around in 64 bits, and the quotient is rounded towards zero.
unfoldable pub eight_tenths : Duration → Duration
eight_tenths (ahead d) =
    let m = (d * 8) % 18446744073709551616 in
    if ltb m 9223372036854775808 then ahead (m / 10) else behind ((18446744073709551616 - m) / 10)
eight_tenths (behind d) =
    let m = (d * 8) % 18446744073709551616 in
    if leb m 9223372036854775808 then behind (m / 10) else ahead ((18446744073709551616 - m) / 10)

-- `now.Add(min(d, maxTokenRefreshPeriod))`.
unfoldable pub add_period : ℕ → Duration → ℕ
add_period now (ahead d) = now + min d max_token_refresh_period
add_period now (behind d) = now - d

unfoldable pub token_refresh_after : ℕ → ℕ → ℕ
unfolding duration_between eight_tenths add_period
token_refresh_after now expiration = add_period now (eight_tenths (duration_between now expiration))

abbrev pub token_refresh_after_annotation : Text
token_refresh_after_annotation = text "k3k.io/token-refresh-after"

unfoldable pub token_secret_annotations : Times → ℕ → ℕ → Dict Text
unfolding token_refresh_after
token_secret_annotations times expiration now =
    (token_refresh_after_annotation, times.format (token_refresh_after now expiration)) ∷ []

-- An annotation that cannot be read makes the refresh due.
unfoldable pub due_at : ℕ → Option ℕ → Bool
due_at now none = true
due_at now (some refresh_after) = not (ltb now refresh_after)

unfoldable pub token_refresh_due : Times → Dict Text → ℕ → Bool
unfolding due_at get_text
token_refresh_due times annotations now =
    due_at now (times.parse (get_text token_refresh_after_annotation annotations))

unfoldable pub sanitize_name_component : TextUtil → Text → Text
sanitize_name_component u s = u.trim_marks (u.replace_invalid (u.to_lower s))

-- The component of a field that is set.
unfoldable pub component : TextUtil → Text → List Text
unfolding sanitize_name_component
component u s = if is_empty s then [] else sanitize_name_component u s ∷ []

unfoldable pub expiration_text : TextUtil → Option ℕ → Text
expiration_text u none = []
expiration_text u (some e) = u.format_int e

unfoldable pub expiration_component : TextUtil → Option ℕ → List Text
expiration_component u none = []
expiration_component u (some e) = u.format_int e ∷ []

unfoldable pub token_attributes : TextUtil → Text → TokenProjection → Text
unfolding text join expiration_text
token_attributes u pod_name token = join (text "/") (
    u.quote pod_name
    ∷ u.quote token.audience
    ∷ u.quote (expiration_text u token.expiration_seconds)
    ∷ u.quote token.path
    ∷ [])

module _ (sha256 : Text → Text) where
  unfoldable pub kube_access_token_secret_name : Text → Text
  unfolding safe_concat_name_with_prefix
  kube_access_token_secret_name pod_name =
      safe_concat_name_with_prefix sha256 (pod_name ∷ kube_api_access_prefix ∷ [])

  unfoldable pub generate_token_secret_name : TextUtil → Text → TokenProjection → Text
  unfolding safe_concat_name_with_prefix component expiration_component token_attributes hex_encode
  generate_token_secret_name u pod_name token =
      let digest = take 6 (hex_encode (sha256 (token_attributes u pod_name token))) in
      safe_concat_name_with_prefix sha256 (
        pod_name ∷ component u token.audience
        ++ (expiration_component u token.expiration_seconds
            ++ (component u token.path ++ digest ∷ [])))

-- Of a token that is issued now and expires within 36 years: it is refreshed after 80% of its life or
-- after 24 hours, whichever is first, and so not before now and not after it expires.
pub token_refresh_after-bounds :
    (now expiration : ℕ)
    → now ≤ expiration
    → expiration - now ≤ 1136073600000000000
    → (token_refresh_after now expiration
        ≡ now + min (((expiration - now) * 8) / 10) max_token_refresh_period)
      × (now ≤ token_refresh_after now expiration)
      × (token_refresh_after now expiration ≤ expiration)
unfolding token_refresh_after duration_between eight_tenths add_period
token_refresh_after-bounds now expiration h g = ground arith
