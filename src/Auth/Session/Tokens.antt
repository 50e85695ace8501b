-- ===== src/Auth/Session/Tokens.antt =====
-- internal/auth/session.go: which session tokens verify.
use mathlib.Core.List.{append_assoc}
use sbx_swarm_node.Prelude.{
  ℕ, ◌<◌, ◌^◌, ◌≡◌, refl, ap, ◌∙◌, false, List, [], ◌∷◌, ◌++◌, some, arith, Text, ==_iff, ==_refl,
  text_eq, nat_eq, if◌then◌else◌, Option-cases, inl, inr, contains, contains-itoa, is_digit, itoa,
  split, split-cons, split-plain, ℤ, pos, parse_int, format_int, parse_int-format_int, ok, err,
}
use sbx_swarm_node.Auth.Session.{
  expired, mint, payload, check_expiry, verify_parts, is_after, verify,
}

module _ (mac : Text → Text) (no_bar : (s : Text) → contains b'|' (mac s) ≡ false) where
  split-mint :
      (role : Text) (exp : ℕ)
      → contains b'|' role ≡ false
      → split b'|' (mint mac role (pos exp))
        ≡ role ∷ format_int (pos exp) ∷ mac (payload mac role (pos exp)) ∷ []
  unfolding mint format_int is_digit
  split-mint role exp h =
      ap (split b'|') (append_assoc role (b'|' ∷ itoa exp) _)
      ∙ split-cons b'|' role _ h
      ∙ ap (λ t. role ∷ t)
          (split-cons b'|' (itoa exp) _ (contains-itoa b'|' exp refl)
            ∙ ap (λ t. itoa exp ∷ t) (split-plain b'|' _ (no_bar _)))

  -- A token that the signer minted, for a role without a bar and an expiry that fits in 64 bits,
  -- verifies with its role as long as the clock is not after the expiry, as Time reads it, and not
  -- after that.
  pub verify-mint :
      (role : Text) (exp now : ℕ)
      → contains b'|' role ≡ false
      → exp < 2 ^ 63
      → verify mac now (mint mac role (pos exp))
        ≡ (if is_after mac now (pos exp) then err expired else ok role)
  unfolding verify
  verify-mint role exp now h fits =
      rw
        (
          split-mint role exp h,
          ==_refl (mac (payload mac role (pos exp))),
          parse_int-format_int exp fits,
        )
        refl

module _ (mac : Text → Text) where
  parts_sound :
      (parts : List Text) (role : Text) (now : ℕ)
      → verify_parts mac now parts ≡ ok role
      → (expiry : Text) × (exp : ℤ) × (parts ≡ role ∷ expiry ∷ mac (role ++ b'|' ∷ expiry) ∷ [])
        × (parse_int expiry ≡ some exp)
        × (is_after mac now exp ≡ false)
  unfolding verify_parts check_expiry
  parts_sound [] role now h = cc
  parts_sound (a ∷ []) role now h = cc
  parts_sound (a ∷ b ∷ []) role now h = cc
  parts_sound (a ∷ b ∷ c ∷ d ∷ more) role now h = cc
  parts_sound (a ∷ b ∷ c ∷ []) role now h = elim (Option-cases (parse_int b)) [
    | inl n ↦ absurd (ground (arith, n))
    | inr (exp, n) ↦
        let sealed : c ≡ mac (a ++ b'|' ∷ b) = (==_iff c (mac (a ++ b'|' ∷ b))).0 (ground arith) in
        let same : a ≡ role = ground (arith, n) in
        (b, exp, rw (sealed, same) refl, n, ground (arith, n))
  ]

  -- An accepted token has exactly three parts: the returned role, an expiry that is not past, and
  -- the signer's own MAC of the first two.
  pub verify_sound :
      (token role : Text) (now : ℕ)
      → verify mac now token ≡ ok role
      → (expiry : Text) × (exp : ℤ) × (split b'|' token
          ≡ role ∷ expiry ∷ mac (role ++ b'|' ∷ expiry) ∷ [])
        × (parse_int expiry ≡ some exp)
        × (is_after mac now exp ≡ false)
  unfolding verify
  verify_sound token role now h = parts_sound (split b'|' token) role now h
