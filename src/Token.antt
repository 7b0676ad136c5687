-- ===== src/Token.antt =====
-- The server token of a virtual cluster, as the controller makes it and as others read it
-- (pkg/controller/cluster/token.go). The API server, `CreateOrUpdate` and the random source are
-- parameters.
pub mod Agree
mod Tests
use k3k.Prelude.{
  Text, text, text_eq, is_empty, Dict, lookup, ℕ, Bool, true, false, not, ◌&&◌, ◌||◌, Option, none,
  some, List, [], ◌∷◌, ◌++◌, ◌≡◌, if◌then◌else◌,
}
use k3k.Api.{NamespacedName, ApiError, ApiResult, ok, err, not_found, already_exists, other}
use k3k.Names.{safe_concat_name_with_prefix, hex_encode}
use k3k.Translate.{get_text}

-- `none` is a secret whose `Data` is nil.
abbrev pub SecretData : Type 0
SecretData = Option (Dict Text)

-- A call of `CreateOrUpdate` keeps the data of a secret that exists: the function that it is given
-- sets the owner only. `random_bytes` is `rand.Read` into a slice of 16 bytes.
pub record SecretApi : Type 1 where
  pub State : Type 0
  pub get : NamespacedName → State → ApiResult SecretData × State
  pub create_or_update : NamespacedName → SecretData → State → Option ApiError × State
  pub random_bytes : ℕ → State → ApiResult Text × State

pub record TokenCluster : Type 0 where
  pub name : Text
  pub namespace : Text
  pub token_secret_ref : Option NamespacedName

-- `string(data["token"])`, which is empty for a missing key.
unfoldable pub token_in : Dict Text → Text
unfolding get_text text
token_in fields = get_text (text "token") fields

module _ (api : SecretApi) where
  open api use {State, get, create_or_update, random_bytes}

  unfoldable pub random : ℕ → State → ApiResult Text × State
  unfolding hex_encode
  random size s =
      let (r, s') = random_bytes size s in
      (elim r [ ok bytes ↦ ok (hex_encode bytes) | err e ↦ err e ], s')

  unfoldable pub referenced_data : Dict Text → Option Text → ApiResult Text
  unfolding token_in text
  referenced_data fields none = err (other (text "no token field in secret"))
  referenced_data fields (some token) = ok token

  -- The token of a secret that the cluster refers to: it must have the field.
  unfoldable pub referenced : ApiResult SecretData → ApiResult Text
  unfolding referenced_data lookup text
  referenced (err e) = err e
  referenced (ok none) = err (other (text "no token field in secret"))
  referenced (ok (some fields)) = referenced_data fields (lookup (text "token") fields)

  unfoldable pub stored_token : Text → Option ApiError × State → ApiResult Text × State
  stored_token token (none, s) = (ok token, s)
  stored_token token (some e, s) = (err e, s)

  unfoldable pub store_random : NamespacedName → ApiResult Text × State → ApiResult Text × State
  unfolding stored_token text
  store_random key (err e, s) = (err e, s)
  store_random key (ok token, s) =
      stored_token token (create_or_update key (some ((text "token", token) ∷ [])) s)

  unfoldable pub make_token : NamespacedName → State → ApiResult Text × State
  unfolding random store_random
  make_token key s = store_random key (random 16 s)

  -- The secret that the controller keeps: its token, where it has data, and a new one otherwise.
  unfoldable pub ensured : NamespacedName → ApiResult SecretData × State → ApiResult Text × State
  unfolding make_token token_in
  ensured key (err not_found, s) = make_token key s
  ensured key (err already_exists, s) = (err already_exists, s)
  ensured key (err (other e), s) = (err (other e), s)
  ensured key (ok none, s) = make_token key s
  ensured key (ok (some fields), s) = (ok (token_in fields), s)

  module _ (sha256 : Text → Text) where
    unfoldable pub token_secret_name : Text → Text
    unfolding text safe_concat_name_with_prefix
    token_secret_name cluster = safe_concat_name_with_prefix sha256 (cluster ∷ text "token" ∷ [])

    abbrev pub token_key : TokenCluster → NamespacedName
    token_key c = record { namespace = c.namespace; name = token_secret_name c.name }

    unfoldable pub ensure_token_secret : TokenCluster → State → ApiResult Text × State
    unfolding ensured token_secret_name
    ensure_token_secret c s = ensured (token_key c) (get (token_key c) s)

    unfoldable pub token_by_ref :
        Option NamespacedName → TokenCluster → State → ApiResult Text × State
    unfolding ensure_token_secret referenced
    token_by_ref none c s = ensure_token_secret c s
    token_by_ref (some n) c s = let (r, s') = get n s in (referenced r, s')

    -- `token`, for the controller.
    unfoldable pub token : TokenCluster → State → ApiResult Text × State
    unfolding token_by_ref
    token c s = token_by_ref c.token_secret_ref c s

    -- The name of the secret, in the namespace of the cluster.
    unfoldable pub read_name : Option NamespacedName → TokenCluster → Text
    unfolding token_secret_name
    read_name none c = token_secret_name c.name
    read_name (some n) c = if not (is_empty n.name) then n.name else token_secret_name c.name

    unfoldable pub read_data : ApiResult SecretData → ApiResult Text
    unfolding token_in text
    read_data (err e) = err e
    read_data (ok none) = err (other (text "token secret is empty"))
    read_data (ok (some fields)) = ok (token_in fields)

    -- `GetClusterToken`, for the other programs.
    unfoldable pub get_cluster_token : TokenCluster → State → ApiResult Text × State
    unfolding read_name read_data
    get_cluster_token c s =
        let (r, s') =
          get (record { namespace = c.namespace; name = read_name c.token_secret_ref c }) s in
        (read_data r, s')
