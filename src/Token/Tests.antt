-- ===== src/Token/Tests.antt =====
-- Secrets on a server that never fails, and a random source that is not random.
use k3k.Prelude.{Text, text, text_eq, lookup, Option, none, some, [], ◌∷◌, ◌≡◌, refl, if◌then◌else◌}
use k3k.Api.{NamespacedName, ApiResult, ok, err, not_found, same_name, same_name_refl}
use k3k.Names.{safe_concat_name, safe_concat_name_with_prefix, hex_encode}
use k3k.Translate.{get_text}
use k3k.Token.{
  SecretData, SecretApi, TokenCluster, token_in, random, stored_token, store_random, make_token,
  ensured, token_secret_name, ensure_token_secret, token_by_ref, token, read_name, read_data,
  get_cluster_token,
}
use k3k.Token.Agree.{SecretLaws, get_cluster_token-token}

abbrev Store : Type 0
Store = NamespacedName → Option SecretData

found : Option SecretData → ApiResult SecretData
found none = err not_found
found (some d) = ok d

abbrev kept : Option SecretData → SecretData → Option SecretData
kept none d = some d
kept (some old) d = some old

abbrev secrets : SecretApi
secrets = record {
  State = Store;
  get = λ n s. (found (s n), s);
  create_or_update = λ n d s. (none, λ m. if same_name n m then kept (s n) d else s m);
  random_bytes = λ size s. (ok (171 ∷ []), s);
}

found_ok : (x : Option SecretData) (d : SecretData) → found x ≡ ok d → x ≡ some d
unfolding found
found_ok none d e = absurd (cc e)
found_ok (some x) d e = cc e

found_missing : (x : Option SecretData) → found x ≡ err not_found → x ≡ none
unfolding found
found_missing none e = refl
found_missing (some x) e = absurd (cc e)

kept_elim :
    (x : Option SecretData) (d : SecretData)
    → kept x d ≡ elim x [ none ↦ some d | some old ↦ some old ]
kept_elim none d = refl
kept_elim (some old) d = refl

secrets_laws : SecretLaws secrets
secrets_laws = record {
  content = λ s n. s n;
  get-content = λ n m s. refl;
  get_found = λ n s d e. found_ok (s n) d e;
  get_missing = λ n s e. found_missing (s n) e;
  random-content = λ size m s. refl;
  create_or_update-content = λ n d s e. rw (same_name_refl n) (kept_elim (s n) d);
}

abbrev no_hash : Text → Text
no_hash t = t

abbrev cluster : TokenCluster
cluster = record { name = text "c"; namespace = text "n"; token_secret_ref = none }

abbrev empty : Store
empty n = none

token_made : (token secrets no_hash cluster empty).0 ≡ ok (text "ab")
unfolding token token_by_ref ensure_token_secret ensured make_token random store_random stored_token
    hex_encode text found
token_made = refl

token_read :
    (get_cluster_token secrets no_hash cluster (token secrets no_hash cluster empty).1).0
    ≡ ok (text "ab")
unfolding token token_by_ref ensure_token_secret ensured make_token random store_random stored_token
    hex_encode text found get_cluster_token read_name read_data token_in get_text lookup text_eq
    same_name token_secret_name safe_concat_name_with_prefix safe_concat_name
token_read = refl

get_cluster_token-token_example : text "ab" ≡ text "ab"
get_cluster_token-token_example =
    get_cluster_token-token secrets secrets_laws no_hash cluster empty (text "ab") (text "ab") refl
      token_made token_read
