-- ===== src/Ports/Memory.antt =====
-- A port allocator with two ports, in memory, for the tests.
use k3k.Prelude.{
  Text, text, Dict, ℕ, zero, suc, ◌≡◌, refl, Bool, false, not, ◌&&◌, ◌||◌, ◌==◌, Option, none, some,
  List, [], ◌∷◌, ◌++◌, arith, if◌then◌else◌, ◌≢◌, ◌⊎◌, inl, inr, map,
}
use k3k.Api.{ApiError, ApiResult, ok, err, not_found, already_exists, other}
use k3k.Ports.{PortsApi, ConfigMap}
use k3k.Ports.Consistent.{PortsLaws}

-- A codec: each byte one higher, then a zero and the port.
unfoldable pub encode : Dict ℕ → Text
encode [] = []
encode ((k, p) ∷ m) = map suc k ++ zero ∷ p ∷ encode m

unfoldable pub push : ℕ → Dict ℕ → Dict ℕ
push b [] = []
push b ((k, p) ∷ m) = (b ∷ k, p) ∷ m

unfoldable pub decode : Text → Dict ℕ
unfolding push
decode [] = []
decode (zero ∷ []) = []
decode (zero ∷ p ∷ t) = ([], p) ∷ decode t
decode (suc b ∷ t) = push b (decode t)

decode_entry :
    (k : Text) (p : ℕ) (t : Text) → decode (map suc k ++ zero ∷ p ∷ t) ≡ (k, p) ∷ decode t
unfolding decode push
decode_entry [] p t = refl
decode_entry (b ∷ k) p t = rw (decode_entry k p t) refl

pub decode-encode : (m : Dict ℕ) → decode (encode m) ≡ m
unfolding encode decode
decode-encode [] = refl
decode-encode ((k, p) ∷ m) = rw (decode_entry k p (encode m), decode-encode m) refl

unfoldable pub member : List ℕ → ℕ → Bool
member [] q = false
member (p ∷ ps) q = p == q || member ps q

unfoldable pub remove : ℕ → List ℕ → List ℕ
remove p [] = []
remove p (q ∷ qs) = let rest = remove p qs in if p == q then rest else q ∷ rest

pub member-remove : (p q : ℕ) (ps : List ℕ) → member (remove p ps) q ≡ (member ps q && not (p == q))
unfolding member remove
member-remove p q [] = refl
member-remove p q (x ∷ ps) = ground (arith, member-remove p q ps)

unfoldable pub next_port : List ℕ → ApiResult (ℕ × List ℕ)
unfolding member
next_port ps =
    if not (member ps 7)
    then ok (7, 7 ∷ ps)
    else (if not (member ps 8) then ok (8, 8 ∷ ps) else err (other []))

unfoldable pub found : Option ConfigMap → ApiResult ConfigMap
found none = err not_found
found (some cm) = ok cm

unfoldable pub create_in : ConfigMap → Option ConfigMap → Option ApiError × Option ConfigMap
create_in cm none = (none, some cm)
create_in cm (some old) = (some already_exists, some old)

abbrev pub two_ports : PortsApi
two_ports = record {
  parse = λ t. ok (decode t);
  serialize = λ m. ok (encode m);
  Allocator = List ℕ;
  new_from_snapshot = λ range bits. ok bits;
  allocate_next = next_port;
  release = λ p ps. ok (remove p ps);
  snapshot = λ ps. ok (text "7-8", ps);
  Server = Option ConfigMap;
  get = λ s. (found s, s);
  create = create_in;
  update = λ cm s. (none, some cm);
}

pub found_content : (s : Option ConfigMap) (cm : ConfigMap) → found s ≡ ok cm → s ≡ some cm
unfolding found
found_content none cm e = absurd (cc e)
found_content (some x) cm e = cc e

pub create_in_content :
    (cm : ConfigMap) (s : Option ConfigMap)
    → ((create_in cm s).1 ≡ some cm) ⊎ (((create_in cm s).0 ≢ none) × ((create_in cm s).1 ≡ s))
unfolding create_in
create_in_content cm none = inl refl
create_in_content cm (some x) = inr ((λ e. absurd (cc e)), refl)

unfoldable pub two_ports_laws : PortsLaws two_ports
unfolding decode next_port member found create_in
two_ports_laws = record {
  used = member;
  content = λ s. s;
  parse-serialize = λ m t e. ground (arith, decode-encode m);
  parse_empty = refl;
  allocate_free = λ pa pa' p e. ground arith;
  allocate_used = λ pa pa' p q e. ground arith;
  release_used = λ pa pa' p q e. ground (arith, member-remove p q pa);
  snapshot_used = λ pa pa' range bits q e f. cc (e, f);
  get-content = λ s. refl;
  get_found = found_content;
  create-content = create_in_content;
  update-content = λ cm s. inl refl;
}
