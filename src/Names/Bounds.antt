-- ===== src/Names/Bounds.antt =====
-- The length and the bytes of the names of `SafeConcatName` (pkg/controller/controller.go).
use k3k.Prelude.{
  Text, text, is_empty, join, keep, ℕ, ◌+◌, ◌/◌, ◌%◌, ◌≤◌, ◌<◌, ◌≡◌, refl, Bool, true, not, ◌||◌,
  List, [], ◌∷◌, ◌++◌, arith, ltb, ◌==◌, length, take, get_or, All, All-append, All-take,
  length-append, length-take, Bool-cases, inl, inr,
}
use k3k.Names.{hex_digit, hex_encode, is_alphanumeric, shorten, safe_concat_name}

-- A byte of a Kubernetes name: a lower-case letter, a digit, a dash or a dot.
abbrev pub IsNameByte : ℕ → Type 0
IsNameByte c = (is_alphanumeric c || (c == b'-' || c == b'.')) ≡ true

hex_digit-IsNameByte : (n : ℕ) → n < 16 → IsNameByte (hex_digit n)
hex_digit-IsNameByte n h = ground arith

hex_encode-IsNameByte : (s : Text) → All (λ c. c < 256) s → All IsNameByte (hex_encode s)
unfolding hex_encode
hex_encode-IsNameByte [] h = tt
hex_encode-IsNameByte (c ∷ s) h = (
  hex_digit-IsNameByte (c / 16) (omega (arith, h.0)),
  (hex_digit-IsNameByte (c % 16) (omega arith), hex_encode-IsNameByte s h.1),
)

join-IsNameByte :
    (names : List Text) → All (All IsNameByte) names → All IsNameByte (join (text "-") names)
unfolding join text
join-IsNameByte [] h = tt
join-IsNameByte (s ∷ []) h = h.0
join-IsNameByte (s ∷ t ∷ ts) h = All-append IsNameByte s _ h.0 (refl, join-IsNameByte (t ∷ ts) h.1)

keep-All :
    (p : Text → Bool) (names : List Text)
    → All (All IsNameByte) names
    → All (All IsNameByte) (keep p names)
unfolding keep
keep-All p [] h = tt
keep-All p (s ∷ names) h = elim (Bool-cases (p s)) [
  | inl e ↦ rw e (h.0, keep-All p names h.1)
  | inr e ↦ rw e (keep-All p names h.1)
]

length_cut :
    (n k : ℕ) (full digest : Text) → length (take n full ++ (b'-' ∷ take k digest)) ≤ n + (k + 1)
length_cut n k full digest = omega (
  arith,
  length-append (take n full) (b'-' ∷ take k digest),
  length-take n full,
  length-take k digest,
)

lt_of_ltb : (n : ℕ) → ltb n 64 ≡ true → n ≤ 63
lt_of_ltb n h = ground arith

module _ (sha256 : Text → Text) where
  length-shorten : (full : Text) → length (shorten sha256 full) ≤ 63
  unfolding shorten
  length-shorten full =
      let digest = hex_encode (sha256 full) in
      elim (Bool-cases (is_alphanumeric (get_or full 56 0))) [
        | inl e ↦ rw e (length_cut 57 5 full digest)
        | inr e ↦ rw e (length_cut 56 6 full digest)
      ]

  -- Whatever names it is given, `SafeConcatName` returns at most 63 bytes.
  pub length-safe_concat_name : (names : List Text) → length (safe_concat_name sha256 names) ≤ 63
  unfolding safe_concat_name
  length-safe_concat_name names =
      let full = join (text "-") (keep (λ s. not (is_empty s)) names) in
      elim (Bool-cases (ltb (length full) 64)) [
        | inl e ↦ rw e (short full e)
        | inr e ↦ rw e (length-shorten full)
      ]
    where
      short : (s : Text) → ltb (length s) 64 ≡ true → length s ≤ 63
      short s h = lt_of_ltb (length s) h

  shorten-IsNameByte :
      ((s : Text) → All (λ c. c < 256) (sha256 s))
      → (full : Text) → All IsNameByte full
      → All IsNameByte (shorten sha256 full)
  unfolding shorten
  shorten-IsNameByte bytes full h =
      let hash = hex_encode-IsNameByte (sha256 full) (bytes full) in
      elim (Bool-cases (is_alphanumeric (get_or full 56 0))) [
        | inl e ↦ rw e (
            All-append IsNameByte (take 57 full) _ (All-take IsNameByte 57 full h)
              (refl, All-take IsNameByte 5 (hex_encode (sha256 full)) hash))
        | inr e ↦ rw e (
            All-append IsNameByte (take 56 full) _ (All-take IsNameByte 56 full h)
              (refl, All-take IsNameByte 6 (hex_encode (sha256 full)) hash))
      ]

  -- If the digest is made of bytes, and every name is made of lower-case letters, digits, dashes and
  -- dots, then so is what `SafeConcatName` returns.
  pub safe_concat_name-IsNameByte :
      (names : List Text)
      → ((s : Text) → All (λ c. c < 256) (sha256 s))
      → All (All IsNameByte) names
      → All IsNameByte (safe_concat_name sha256 names)
  unfolding safe_concat_name
  safe_concat_name-IsNameByte names bytes h =
      let full = join (text "-") (keep (λ s. not (is_empty s)) names) in
      let whole =
        join-IsNameByte (keep (λ s. not (is_empty s)) names)
          (keep-All (λ s. not (is_empty s)) names h) in
      elim (Bool-cases (ltb (length full) 64)) [
        | inl e ↦ rw e whole
        | inr e ↦ rw e (shorten-IsNameByte bytes full whole)
      ]
