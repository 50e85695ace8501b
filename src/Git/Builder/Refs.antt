-- ===== src/Git/Builder/Refs.antt =====
-- internal/git/builder.go: which values of a request are refs.
use sbx_swarm_node.Prelude.{
  ℕ, ◌≤◌, ◌≡◌, ◌≢◌, refl, ap, ◌↔◌, ◌⊎◌, inl, inr, true, false, ◌&&◌, [], ◌∷◌, ◌++◌, Text, text_eq,
  nat_eq, ◌==◌, ==_iff, all, all_iff, All, arith, Bool-cases,
}
use sbx_swarm_node.Git.Builder.{validate_ref, is_ref_byte, starts_with_dash, has_dots}

-- A letter, a digit, or one of the characters ._/-
abbrev pub IsRefByte : ℕ → Type 0
IsRefByte c =
    ((b'A' ≤ c) × (c ≤ b'Z'))
    ⊎ (((b'a' ≤ c) × (c ≤ b'z'))
        ⊎ (((b'0' ≤ c) × (c ≤ b'9')) ⊎ ((c ≡ b'.') ⊎ ((c ≡ b'_') ⊎ ((c ≡ b'/') ⊎ (c ≡ b'-'))))))

-- Not an option.
abbrev pub NoDash : Text → Type 0
NoDash val = (rest : Text) → val ≢ b'-' ∷ rest

-- Without two dots in a row.
abbrev pub NoDots : Text → Type 0
NoDots val = (front rest : Text) → val ≢ front ++ b'.' ∷ b'.' ∷ rest

-- A ref; the text that is empty is one too, as a value that is not set.
pub record IsRef (val : Text) : Type 0 where
  pub no_dash : NoDash val
  pub no_dots : NoDots val
  pub bytes : All IsRefByte val

is_ref_byte_iff : (c : ℕ) → (is_ref_byte c ≡ true) ↔ IsRefByte c
is_ref_byte_iff c = (
  (λ h. ground (arith, h, ==_iff c b'.', ==_iff c b'_', ==_iff c b'/', ==_iff c b'-')),
  (λ h. ground (arith, h, ==_iff c b'.', ==_iff c b'_', ==_iff c b'/', ==_iff c b'-')),
)

bytes_iff : (val : Text) → (all is_ref_byte val ≡ true) ↔ All IsRefByte val
bytes_iff val = (
  (λ h. there val ((all_iff is_ref_byte val).0 h)),
  (λ h. (all_iff is_ref_byte val).1 (back val h)),
)
  where
    there : (s : Text) → All (λ c. is_ref_byte c ≡ true) s → All IsRefByte s
    there [] h = tt
    there (c ∷ s) h = ((is_ref_byte_iff c).0 h.0, there s h.1)

    back : (s : Text) → All IsRefByte s → All (λ c. is_ref_byte c ≡ true) s
    back [] h = tt
    back (c ∷ s) h = ((is_ref_byte_iff c).1 h.0, back s h.1)

pub dash_iff : (val : Text) → (starts_with_dash val ≡ false) ↔ NoDash val
dash_iff [] = ((λ h rest. λ e. cc), (λ h. refl))
dash_iff (c ∷ s) = (
  (λ h rest. λ e. ground (arith, h, e, ==_iff c b'-')),
  (λ h. elim (Bool-cases (c == b'-')) [
    | inl e ↦ absurd (h s (ap (λ x. x ∷ s) ((==_iff c b'-').0 e)))
    | inr e ↦ e
  ]),
)

-- Where the two dots stand.
dots_found :
    (val : Text)
    → has_dots val ≡ true
    → (front : Text) × (rest : Text) × (val ≡ front ++ b'.' ∷ b'.' ∷ rest)
dots_found [] h = cc
dots_found (c ∷ []) h = ground arith
dots_found (c ∷ d ∷ s) h = elim (Bool-cases (c == b'.' && d == b'.')) [
  | inl e ↦
      let first : c ≡ b'.' = ground (arith, e, ==_iff c b'.') in
      let second : d ≡ b'.' = ground (arith, e, ==_iff d b'.') in ([], s, rw (first, second) refl)
  | inr e ↦
      let (front, rest, found) = dots_found (d ∷ s) (ground (arith, h, e)) in
      (c ∷ front, rest, ap (λ t. c ∷ t) found)
]

dots_absent : (val : Text) → has_dots val ≡ false → NoDots val
dots_absent [] h [] rest e = cc
dots_absent [] h (x ∷ front) rest e = cc
dots_absent (c ∷ []) h [] rest e = cc
dots_absent (c ∷ []) h (x ∷ []) rest e = cc
dots_absent (c ∷ []) h (x ∷ y ∷ front) rest e = cc
dots_absent (c ∷ d ∷ s) h [] rest e = ground (arith, h, e, ==_iff c b'.', ==_iff d b'.')
dots_absent (c ∷ d ∷ s) h (x ∷ front) rest e =
    dots_absent (d ∷ s) (ground (arith, h)) front rest (ground (arith, e))

dots_iff : (val : Text) → (has_dots val ≡ false) ↔ NoDots val
dots_iff val = (
  dots_absent val,
  (λ h. elim (Bool-cases (has_dots val)) [
    | inl e ↦ let (front, rest, found) = dots_found val e in absurd (h front rest found)
    | inr e ↦ e
  ]),
)

pub validate_ref_iff : (val : Text) → (validate_ref val ≡ true) ↔ IsRef val
unfolding validate_ref
validate_ref_iff [] = (
  (λ h. record { no_dash = (dash_iff []).0 refl; no_dots = (dots_iff []).0 refl; bytes = tt }),
  (λ h. refl),
)
validate_ref_iff (c ∷ s) = (
  (λ h. record {
    no_dash = (dash_iff (c ∷ s)).0 (ground (arith, h));
    no_dots = (dots_iff (c ∷ s)).0 (ground (arith, h));
    bytes = (bytes_iff (c ∷ s)).0 (ground (arith, h));
  }),
  (λ h.
      let dash = (dash_iff (c ∷ s)).1 h.no_dash in
      let dots = (dots_iff (c ∷ s)).1 h.no_dots in
      let bytes = (bytes_iff (c ∷ s)).1 h.bytes in ground (arith, dash, dots, bytes)),
)
