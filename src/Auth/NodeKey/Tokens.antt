-- ===== src/Auth/NodeKey/Tokens.antt =====
-- internal/nodekey/nodekey.go: what an accepted token carries, and signed tokens.
use sbx_swarm_node.Prelude.{
  ℕ, ◌<◌, ◌^◌, ◌≡◌, refl, sym, ap, ◌∙◌, true, false, List, [], ◌∷◌, Option, none, some, arith, Text,
  ==_iff, ==_refl, text_eq, nat_eq, Option-cases, inl, inr, contains, contains-itoa, is_digit, itoa,
  split, split-cons, split-plain, ℤ, pos, parse_int, format_int, parse_int-format_int, ok, length,
}
use sbx_swarm_node.Auth.NodeKey.{
  Crypto, Checks, public_key_size, payload, sign_token, is_fresh, check_signature, check_time,
  check_key, verify_parts, verify,
}

parse_int-itoa : (n : ℕ) → n < 2 ^ 63 → parse_int (itoa n) ≡ some (pos n)
unfolding format_int
parse_int-itoa n h = parse_int-format_int n h

module _ (C : Crypto) (k : Checks C) where
  -- What Verify has established when it returns a caller.
  pub record Proven (token caller : Text) : Type 0 where
    pub unix_text : Text
    pub sig_text : Text
    pub unix : ℤ
    pub sig : Text
    pub pub_key : Text
    pub parts : split b'.' token ≡ caller ∷ k.expected_target ∷ unix_text ∷ sig_text ∷ []
    pub not_denied : k.denied caller ≡ false
    pub pinned : k.pubkey_for caller ≡ some pub_key
    pub key_size : length pub_key ≡ public_key_size
    pub self_certified : C.derive_node_id pub_key ≡ caller
    pub timed : parse_int unix_text ≡ some unix
    pub fresh : is_fresh C k.now k.skew unix ≡ true
    pub decoded : C.decode sig_text ≡ some sig
    pub signed : C.verify_signature pub_key (payload caller k.expected_target unix) sig ≡ true

  check_time-ok :
      (caller target sig_text pub_key caller' : Text) (t : Option ℤ)
      → check_time C k caller target sig_text pub_key t ≡ ok caller'
      → (unix : ℤ) × (sig : Text) × (caller ≡ caller')
        × (t ≡ some unix)
        × (is_fresh C k.now k.skew unix ≡ true)
        × (C.decode sig_text ≡ some sig)
        × (C.verify_signature pub_key (payload caller target unix) sig ≡ true)
  unfolding check_time
  check_time-ok caller target sig_text pub_key caller' none h = cc
  check_time-ok caller target sig_text pub_key caller' (some unix) h =
      elim (Option-cases (C.decode sig_text)) [
        | inl n ↦ absurd (ground (arith, n))
        | inr (sig, n) ↦
            (unix, sig, ground (arith, n), refl, ground (arith, n), n, ground (arith, n))
      ]

  check_key-ok :
      (caller target unix sig_text caller' : Text) (p : Option Text)
      → check_key C k caller target unix sig_text p ≡ ok caller'
      → (pub_key : Text) × (p ≡ some pub_key)
        × (length pub_key ≡ public_key_size)
        × (C.derive_node_id pub_key ≡ caller)
        × (check_time C k caller target sig_text pub_key (parse_int unix) ≡ ok caller')
  unfolding check_key
  check_key-ok caller target unix sig_text caller' none h = cc
  check_key-ok caller target unix sig_text caller' (some key) h = (
    key,
    refl,
    ground arith,
    (==_iff (C.derive_node_id key) caller).0 (ground arith),
    ground arith,
  )

  parts-ok :
      (caller target unix sig_text caller' : Text)
      → verify_parts C k (caller ∷ target ∷ unix ∷ sig_text ∷ []) ≡ ok caller'
      → (target ≡ k.expected_target)
        × (k.denied caller ≡ false)
        × (check_key C k caller target unix sig_text (k.pubkey_for caller) ≡ ok caller')
  unfolding verify_parts
  parts-ok caller target unix sig_text caller' h =
      ((==_iff target k.expected_target).0 (ground arith), ground arith, ground arith)

  four_parts :
      (parts : List Text) (caller : Text)
      → verify_parts C k parts ≡ ok caller
      → (c : Text) × (t : Text) × (u : Text) × (s : Text) × (parts ≡ c ∷ t ∷ u ∷ s ∷ [])
  unfolding verify_parts
  four_parts (c ∷ t ∷ u ∷ s ∷ []) caller h = (c, t, u, s, refl)
  four_parts [] caller h = cc
  four_parts (a ∷ []) caller h = cc
  four_parts (a ∷ b ∷ []) caller h = cc
  four_parts (a ∷ b ∷ c ∷ []) caller h = cc
  four_parts (a ∷ b ∷ c ∷ d ∷ e ∷ more) caller h = cc

  -- A token that Verify accepts was made for this node and no other, names a caller that is not
  -- denied and whose pinned key has the right size and derives the caller's own id, lies within the
  -- skew of the clock, and carries a signature of caller, audience and time under that key.
  pub verify-Proven : (token caller : Text) → verify C k token ≡ ok caller → Proven token caller
  unfolding verify
  verify-Proven token caller h =
      let (c, t, u, s, e) = four_parts (split b'.' token) caller h in
      let (same_target, allowed, keyed) = parts-ok c t u s caller (rw e at h) in
      let (pub_key, pinned, size, derived, timed) =
        check_key-ok c t u s caller (k.pubkey_for c) keyed in
      let (unix, sig, same, parsed, fresh, decoded, signed) =
        check_time-ok c t s pub_key caller (parse_int u) timed in
      record {
        unix_text = u;
        sig_text = s;
        unix = unix;
        sig = sig;
        pub_key = pub_key;
        parts = e ∙ rw (same, same_target) refl;
        not_denied = rw same at allowed;
        pinned = rw same at pinned;
        key_size = size;
        self_certified = derived ∙ same;
        timed = parsed;
        fresh = fresh;
        decoded = decoded;
        signed = rw (same, same_target) at signed;
      }

module _ (C : Crypto) where
  -- A token accepted by one node as its audience is accepted by no node with another id.
  pub verify_audience :
      (k j : Checks C) (token caller other : Text)
      → verify C k token ≡ ok caller
      → verify C j token ≡ ok other
      → (k.expected_target ≡ j.expected_target) × (caller ≡ other)
  verify_audience k j token caller other h g =
      let p = verify-Proven C k token caller h in
      let q = verify-Proven C j token other g in
      let same = sym p.parts ∙ q.parts in (ground (arith, same), ground (arith, same))

  split-sign_token :
      (key : C.PrivateKey) (caller target : Text) (unix : ℕ)
      → contains b'.' caller ≡ false
      → contains b'.' target ≡ false
      → ((s : Text) → contains b'.' (C.encode s) ≡ false)
      → split b'.' (sign_token C key caller target (pos unix))
        ≡ caller
          ∷ target
          ∷ itoa unix
          ∷ C.encode (C.sign key (payload caller target (pos unix)))
          ∷ []
  unfolding sign_token format_int is_digit
  split-sign_token key caller target unix c t no_dot =
      split-cons b'.' caller _ c
      ∙ ap (λ r. caller ∷ r)
          (split-cons b'.' target _ t
            ∙ ap (λ r. target ∷ r)
                (split-cons b'.' (itoa unix) _ (contains-itoa b'.' unix refl)
                  ∙ ap (λ r. itoa unix ∷ r) (split-plain b'.' _ (no_dot _))))

  -- The token that a node signs with the key behind its id is accepted by its audience: if the
  -- caller is not denied, its key is pinned, and the clocks differ by no more than the skew.
  pub verify-sign_token :
      (k : Checks C) (key : C.PrivateKey) (pub_key caller : Text) (unix : ℕ)
      → ((s : Text) → contains b'.' (C.encode s) ≡ false)
      → ((s : Text) → C.decode (C.encode s) ≡ some s)
      → ((m : Text) → C.verify_signature pub_key m (C.sign key m) ≡ true)
      → contains b'.' caller ≡ false
      → contains b'.' k.expected_target ≡ false
      → k.denied caller ≡ false
      → k.pubkey_for caller ≡ some pub_key
      → length pub_key ≡ public_key_size
      → C.derive_node_id pub_key ≡ caller
      → unix < 2 ^ 63
      → is_fresh C k.now k.skew (pos unix) ≡ true
      → verify C k (sign_token C key caller k.expected_target (pos unix)) ≡ ok caller
  unfolding verify verify_parts check_key check_time check_signature
  verify-sign_token k key pub_key caller unix no_dot inverse signs c t d pin size derived fits
        fresh =
      rw (split-sign_token key caller k.expected_target unix c t no_dot, ==_refl k.expected_target)
        (rw (d, pin, size, derived, ==_refl caller)
          (rw (parse_int-itoa unix fits, fresh, inverse, signs) refl))
