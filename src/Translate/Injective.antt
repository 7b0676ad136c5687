-- ===== src/Translate/Injective.antt =====
-- The host names of different virtual objects (`TranslateName` of k3k-kubelet/translate/host.go).
use k3k.Prelude.{
  Text, text, is_empty, join, keep, ℕ, ◌+◌, ◌/◌, ◌%◌, ◌<◌, ◌≡◌, refl, sym, ap, ◌∙◌, true, false, [],
  ◌∷◌, ◌++◌, arith, ltb, ◌==◌, if◌then◌else◌, length, All, All-append, length-append,
}
use k3k.Names.{hex_digit, hex_encode, safe_concat_name}
use k3k.Translate.{ToHostTranslator, name_parts, translate_name}

abbrev pub IsByte : ℕ → Type 0
IsByte c = c < 256

hex_digit_injective : (a b : ℕ) → a < 16 → b < 16 → hex_digit a ≡ hex_digit b → a ≡ b
hex_digit_injective a b p q e = ground arith

hex_encode_injective :
    (s t : Text) → All IsByte s → All IsByte t → hex_encode s ≡ hex_encode t → s ≡ t
unfolding hex_encode
hex_encode_injective [] [] p q e = refl
hex_encode_injective [] (c ∷ t) p q e = cc
hex_encode_injective (c ∷ s) [] p q e = cc
hex_encode_injective (c ∷ s) (d ∷ t) p q e = ground (
  arith,
  hex_digit_injective (c / 16) (d / 16),
  hex_digit_injective (c % 16) (d % 16),
  hex_encode_injective s t,
)

length-hex_encode : (s : Text) → length (hex_encode s) ≡ length s + length s
unfolding hex_encode
length-hex_encode [] = refl
length-hex_encode (c ∷ s) = omega (arith, length-hex_encode s)

-- Two texts of one length in front of two others.
append_split : (a b c d : Text) → length a ≡ length b → a ++ c ≡ b ++ d → (a ≡ b) × (c ≡ d)
append_split [] [] c d h e = (refl, e)
append_split [] (y ∷ b) c d h e = absurd (omega arith)
append_split (x ∷ a) [] c d h e = absurd (omega arith)
append_split (x ∷ a) (y ∷ b) c d h e = ground (arith, append_split a b c d)

-- A separator that neither front part has splits a text in one way.
abbrev pub Lacks : ℕ → Text → Type 0
Lacks sep = All (λ c. (c == sep) ≡ false)

split_once :
    (sep : ℕ) (a b c d : Text)
    → Lacks sep a
    → Lacks sep b
    → a ++ sep ∷ c ≡ b ++ sep ∷ d
    → (a ≡ b) × (c ≡ d)
split_once sep [] [] c d p q e = ground arith
split_once sep [] (y ∷ b) c d p q e = ground arith
split_once sep (x ∷ a) [] c d p q e = ground arith
split_once sep (x ∷ a) (y ∷ b) c d p q e = ground (arith, split_once sep a b c d)

no_separator : (sep : ℕ) (a b c : Text) → Lacks sep c → a ++ sep ∷ b ≡ c → ⊥
no_separator sep [] b [] h e = cc
no_separator sep [] b (y ∷ c) h e = ground arith
no_separator sep (x ∷ a) b [] h e = cc
no_separator sep (x ∷ a) b (y ∷ c) h e = ground (arith, no_separator sep a b c)

-- The parts of a host name: a name that is not empty, and no `+` in any part.
pub record IsTranslatable (t : ToHostTranslator) (namespace name : Text) : Type 0 where
  pub name_given : is_empty name ≡ false
  pub name_lacks : Lacks b'+' name
  pub namespace_lacks : Lacks b'+' namespace
  pub cluster_lacks : Lacks b'+' t.cluster_name
  pub name_bytes : All IsByte name
  pub namespace_bytes : All IsByte namespace
  pub cluster_bytes : All IsByte t.cluster_name

-- The parts joined by a byte, written out.
joined : ℕ → Text → Text → Text → Text
joined sep cluster namespace name =
    if is_empty namespace then name ++ sep ∷ cluster else name ++ sep ∷ (namespace ++ sep ∷ cluster)

-- The name before `SafeConcatName` looks at its length.
unfoldable pub host_path : ToHostTranslator → Text → Text → Text
unfolding joined hex_encode
host_path t namespace name =
    joined b'-' t.cluster_name namespace name
    ++ b'-' ∷ hex_encode (joined b'+' t.cluster_name namespace name)

length-joined :
    (sep sep' : ℕ) (cluster namespace name : Text)
    → length (joined sep cluster namespace name) ≡ length (joined sep' cluster namespace name)
unfolding joined
length-joined sep sep' cluster namespace name = ground (
  arith,
  length-append name (sep ∷ cluster),
  length-append name (sep' ∷ cluster),
  length-append name (sep ∷ (namespace ++ sep ∷ cluster)),
  length-append name (sep' ∷ (namespace ++ sep' ∷ cluster)),
  length-append namespace (sep ∷ cluster),
  length-append namespace (sep' ∷ cluster),
)

joined_split :
    (cluster cluster' namespace namespace' name name' : Text)
    → Lacks b'+' name
    → Lacks b'+' name'
    → Lacks b'+' namespace
    → Lacks b'+' namespace'
    → Lacks b'+' cluster
    → Lacks b'+' cluster'
    → joined b'+' cluster namespace name ≡ joined b'+' cluster' namespace' name'
    → (name ≡ name') × (namespace ≡ namespace') × (cluster ≡ cluster')
unfolding joined
joined_split c c' [] [] n n' a b d d' f f' e = ground (arith, split_once b'+' n n' c c' a b e)
joined_split c c' [] (y ∷ ns') n n' a b d d' f f' e =
    let (same, rest) = split_once b'+' n n' c ((y ∷ ns') ++ b'+' ∷ c') a b e in
    absurd (no_separator b'+' (y ∷ ns') c' c f (sym rest))
joined_split c c' (x ∷ ns) [] n n' a b d d' f f' e =
    let (same, rest) = split_once b'+' n n' ((x ∷ ns) ++ b'+' ∷ c) c' a b e in
    absurd (no_separator b'+' (x ∷ ns) c c' f' rest)
joined_split c c' (x ∷ ns) (y ∷ ns') n n' a b d d' f f' e =
    let (same, rest) = split_once b'+' n n' ((x ∷ ns) ++ b'+' ∷ c) ((y ∷ ns') ++ b'+' ∷ c') a b e in
    let (same_ns, same_c) = split_once b'+' (x ∷ ns) (y ∷ ns') c c' d d' rest in
    (same, same_ns, same_c)

joined-IsByte :
    (cluster namespace name : Text)
    → All IsByte name
    → All IsByte namespace
    → All IsByte cluster
    → All IsByte (joined b'+' cluster namespace name)
unfolding joined
joined-IsByte c [] n p q r = All-append IsByte n (b'+' ∷ c) p (omega arith, r)
joined-IsByte c (x ∷ ns) n p q r =
    All-append IsByte n _ p (omega arith, All-append IsByte (x ∷ ns) _ q (omega arith, r))

joined_given :
    (sep : ℕ) (cluster namespace name : Text)
    → is_empty name ≡ false
    → is_empty (joined sep cluster namespace name) ≡ false
unfolding joined
joined_given sep cluster namespace [] h = cc
joined_given sep cluster namespace (x ∷ name) h = ground arith

hex_given : (s : Text) → is_empty s ≡ false → is_empty (hex_encode s) ≡ false
unfolding hex_encode
hex_given [] h = cc
hex_given (x ∷ s) h = refl

ltb_of_lt : (n : ℕ) → n < 64 → ltb n 64 ≡ true
ltb_of_lt n h = ground arith

-- The length of a host path fixes the length of its key.
host_path_key :
    (t t' : ToHostTranslator) (ns ns' n n' : Text)
    → IsTranslatable t ns n
    → IsTranslatable t' ns' n'
    → host_path t ns n ≡ host_path t' ns' n'
    → joined b'+' t.cluster_name ns n ≡ joined b'+' t'.cluster_name ns' n'
unfolding host_path
host_path_key t t' ns ns' n n' p q e =
    let dashed = joined b'-' t.cluster_name ns n in
    let dashed' = joined b'-' t'.cluster_name ns' n' in
    let key = joined b'+' t.cluster_name ns n in
    let key' = joined b'+' t'.cluster_name ns' n' in
    let total = ap (λ (s : Text). length s) e in
    let (same, rest) =
      append_split dashed dashed' (b'-' ∷ hex_encode key) (b'-' ∷ hex_encode key')
        (omega (
          arith,
          total,
          length-append dashed (b'-' ∷ hex_encode key),
          length-append dashed' (b'-' ∷ hex_encode key'),
          length-hex_encode key,
          length-hex_encode key',
          length-joined b'-' b'+' t.cluster_name ns n,
          length-joined b'-' b'+' t'.cluster_name ns' n',
        ))
        e in
    hex_encode_injective key key'
      (joined-IsByte t.cluster_name ns n p.name_bytes p.namespace_bytes p.cluster_bytes)
      (joined-IsByte t'.cluster_name ns' n' q.name_bytes q.namespace_bytes q.cluster_bytes) (cc)

module _ (sha256 : Text → Text) where
  joined_parts :
      (sep : ℕ) (t : ToHostTranslator) (namespace name : Text)
      → join (sep ∷ []) (name_parts t namespace name) ≡ joined sep t.cluster_name namespace name
  unfolding join name_parts joined
  joined_parts sep t [] name = refl
  joined_parts sep t (x ∷ namespace) name = refl

  uncut :
      (p h : Text)
      → is_empty p ≡ false
      → is_empty h ≡ false
      → length (p ++ b'-' ∷ h) < 64
      → safe_concat_name sha256 (p ∷ h ∷ []) ≡ p ++ b'-' ∷ h
  unfolding safe_concat_name keep join text
  uncut [] h e f small = cc
  uncut (x ∷ p) [] e f small = cc
  uncut (x ∷ p) (y ∷ h) e f small = rw (ltb_of_lt (length ((x ∷ p) ++ b'-' ∷ y ∷ h)) small)

  -- A host name that `SafeConcatName` does not cut.
  translate_name_uncut :
      (t : ToHostTranslator) (namespace name : Text)
      → is_empty name ≡ false
      → length (host_path t namespace name) < 64
      → translate_name sha256 t namespace name ≡ host_path t namespace name
  unfolding translate_name host_path
  translate_name_uncut t namespace name given small =
      let dashed = joined b'-' t.cluster_name namespace name in
      let key = joined b'+' t.cluster_name namespace name in
      rw (joined_parts b'-' t namespace name, joined_parts b'+' t namespace name)
        (uncut dashed (hex_encode key) (joined_given b'-' t.cluster_name namespace name given)
          (hex_given key (joined_given b'+' t.cluster_name namespace name given)) small)

  -- Two virtual objects, of one virtual cluster or of two, never share a host name that is not cut:
  -- if their parts are bytes without a `+`, their names are not empty, both host names stay below 64
  -- bytes and are equal, then the names, the namespaces and the cluster names are equal.
  pub translate_name_injective :
      (t t' : ToHostTranslator) (namespace namespace' name name' : Text)
      → IsTranslatable t namespace name
      → IsTranslatable t' namespace' name'
      → length (host_path t namespace name) < 64
      → length (host_path t' namespace' name') < 64
      → translate_name sha256 t namespace name ≡ translate_name sha256 t' namespace' name'
      → (name ≡ name') × (namespace ≡ namespace') × (t.cluster_name ≡ t'.cluster_name)
  translate_name_injective t t' ns ns' n n' p q small small' e =
      let same =
        sym (translate_name_uncut t ns n p.name_given small)
        ∙ e
        ∙ translate_name_uncut t' ns' n' q.name_given small' in
      joined_split t.cluster_name t'.cluster_name ns ns' n n' p.name_lacks q.name_lacks
        p.namespace_lacks q.namespace_lacks p.cluster_lacks q.cluster_lacks
        (host_path_key t t' ns ns' n n' p q same)
