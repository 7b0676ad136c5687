-- ===== src/Token/Agree.antt =====
-- The token of the controller and the one that others read (pkg/controller/cluster/token.go).
use k3k.Prelude.{
  Text, text, Dict, lookup, ℕ, Option, none, some, [], ◌∷◌, ◌≡◌, refl, sym, ◌∙◌, arith, text_eq,
}
use k3k.Api.{NamespacedName, ApiError, ApiResult, ok, err, not_found, already_exists, other}
use k3k.Names.{hex_encode}
use k3k.Translate.{get_text}
use k3k.Token.{
  SecretData, SecretApi, TokenCluster, token_in, random, stored_token, store_random, make_token,
  ensured, token_key, ensure_token_secret, token_by_ref, token, read_name, read_data,
  get_cluster_token,
}

-- The documented behaviour, in terms of the data that the server keeps under a name (`none` where it
-- has no secret).
pub record SecretLaws (api : SecretApi) : Type 0 where
  pub content : api.State → NamespacedName → Option SecretData
  pub get-content : (n m : NamespacedName) (s : api.State) → content (api.get n s).1 m ≡ content s m
  pub get_found :
      (n : NamespacedName) (s : api.State) (d : SecretData)
      → (api.get n s).0 ≡ ok d
      → content s n ≡ some d
  pub get_missing :
      (n : NamespacedName) (s : api.State) → (api.get n s).0 ≡ err not_found → content s n ≡ none
  pub random-content :
      (size : ℕ) (m : NamespacedName) (s : api.State)
      → content (api.random_bytes size s).1 m ≡ content s m
  pub create_or_update-content :
      (n : NamespacedName) (d : SecretData) (s : api.State)
      → (api.create_or_update n d s).0 ≡ none
      → content (api.create_or_update n d s).1 n
        ≡ elim (content s n) [ none ↦ some d | some old ↦ some old ]

module _ (api : SecretApi) (laws : SecretLaws api) (sha256 : Text → Text) where
  -- The server keeps no other token under this name.
  abbrev Keeps : NamespacedName → ApiResult Text × api.State → Type 0
  Keeps n r =
      (t : Text) (fields : Dict Text)
      → r.0 ≡ ok t
      → laws.content r.1 n ≡ some (some fields)
      → token_in fields ≡ t

  failed-Keeps : (n : NamespacedName) (e : ApiError) (s : api.State) → Keeps n (err e, s)
  failed-Keeps n e s v fields h g = absurd (cc h)

  -- No secret, or one without data.
  pub data IsUnset : Option SecretData → Type 0 where
    absent : IsUnset none
    nil : IsUnset (some none)

  stored_token-Keeps :
      (n : NamespacedName) (t : Text) (s : api.State) (old : Option SecretData)
      → laws.content s n ≡ old
      → IsUnset old
      → Keeps n (stored_token api t (api.create_or_update n (some ((text "token", t) ∷ [])) s))
  unfolding stored_token token_in get_text lookup text text_eq
  stored_token-Keeps n t s =
      by_error (api.create_or_update n (some ((text "token", t) ∷ [])) s).0 refl
    where
      by_error :
          (x : Option ApiError)
          → (api.create_or_update n (some ((text "token", t) ∷ [])) s).0 ≡ x
          → (old : Option SecretData) → laws.content s n ≡ old
          → IsUnset old
          → Keeps n
              (stored_token api t (x, (api.create_or_update n (some ((text "token", t) ∷ [])) s).1))
      by_error (some x) f old e u v fields h g = absurd (cc h)
      by_error none f none e absent v fields h g =
          kept (cc (g, e, laws.create_or_update-content n (some ((text "token", t) ∷ [])) s f))
            (cc h)
        where
          kept : (text "token", t) ∷ [] ≡ fields → t ≡ v → token_in fields ≡ v
          kept a b = rw⁻¹ a b
      by_error none f (some (some _)) e u v fields h g = elim u [ ]
      by_error none f (some none) e nil v fields h g =
          absurd (cc (g, e, laws.create_or_update-content n (some ((text "token", t) ∷ [])) s f))

  make_token-Keeps :
      (n : NamespacedName) (s : api.State) (old : Option SecretData)
      → laws.content s n ≡ old
      → IsUnset old
      → Keeps n (make_token api n s)
  unfolding make_token random store_random
  make_token-Keeps n s old e u = drawn (api.random_bytes 16 s).0
    where
      drawn :
          (r : ApiResult Text)
          → Keeps n (
              store_random api n (
                elim r [ ok bytes ↦ ok (hex_encode bytes) | err x ↦ err x ],
                (api.random_bytes 16 s).1,
              ))
      drawn (err x) = failed-Keeps n x _
      drawn (ok bytes) =
          stored_token-Keeps n (hex_encode bytes) (api.random_bytes 16 s).1 old
            (laws.random-content 16 n s ∙ e) u

  ensure_token_secret-Keeps :
      (c : TokenCluster) (s : api.State)
      → Keeps (token_key api sha256 c) (ensure_token_secret api sha256 c s)
  unfolding ensure_token_secret ensured
  ensure_token_secret-Keeps c s = got (api.get key s).0 refl
    where
      key : NamespacedName
      key = token_key api sha256 c

      found_Keeps :
          (found : Dict Text)
          → laws.content (api.get key s).1 key ≡ some (some found)
          → Keeps key (ok (token_in found), (api.get key s).1)
      found_Keeps found e v fields h g = ground (arith, e, g, h)

      got :
          (r : ApiResult SecretData)
          → (api.get key s).0 ≡ r
          → Keeps key (ensured api key (r, (api.get key s).1))
      got (err not_found) e =
          make_token-Keeps key (api.get key s).1 none
            (laws.get-content key key s ∙ laws.get_missing key s e) absent
      got (err already_exists) e = failed-Keeps key already_exists _
      got (err (other x)) e = failed-Keeps key (other x) _
      got (ok none) e =
          make_token-Keeps key (api.get key s).1 (some none)
            (laws.get-content key key s ∙ laws.get_found key s none e) nil
      got (ok (some found)) e =
          found_Keeps found (laws.get-content key key s ∙ laws.get_found key s _ e)

  read_data_ok :
      (r : ApiResult SecretData) (t : Text)
      → read_data api sha256 r ≡ ok t
      → (fields : Dict Text) × ((r ≡ ok (some fields)) × (token_in fields ≡ t))
  unfolding read_data
  read_data_ok (err e) t h = absurd (cc h)
  read_data_ok (ok none) t h = absurd (cc h)
  read_data_ok (ok (some fields)) t h = (fields, (refl, cc h))

  -- For a cluster that refers to no secret: where the controller's `token` returns a token, and
  -- `GetClusterToken` returns one from the API server as `token` left it, they are the same token.
  pub get_cluster_token-token :
      (c : TokenCluster) (s : api.State) (t t' : Text)
      → c.token_secret_ref ≡ none
      → (token api sha256 c s).0 ≡ ok t
      → (get_cluster_token api sha256 c (token api sha256 c s).1).0 ≡ ok t'
      → t' ≡ t
  unfolding token token_by_ref get_cluster_token read_name
  get_cluster_token-token c s t t' h e f =
      agree (ensure_token_secret api sha256 c s) (ensure_token_secret-Keeps c s) (cc (h, e))
        (cc (h, f))
    where
      key : NamespacedName
      key = token_key api sha256 c

      agree :
          (r : ApiResult Text × api.State)
          → Keeps key r
          → r.0 ≡ ok t
          → read_data api sha256 (api.get key r.1).0 ≡ ok t'
          → t' ≡ t
      agree r k a b =
          let (fields, (got, is_token)) = read_data_ok (api.get key r.1).0 t' b in
          sym is_token ∙ k t fields a (laws.get_found key r.1 (some fields) got)
