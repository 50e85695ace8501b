-- ===== src/Auth/Middleware/Requests.antt =====
-- internal/auth/auth.go: what an HTTP request that is let through carries.
use sbx_swarm_node.Prelude.{
  ℕ, ◌≡◌, refl, ap, ◌∙◌, ◌⊎◌, inl, inr, true, false, List, [], Option, none, some, string_eq, Text,
  text_eq, codes, ◌==◌, ==_iff, arith, Bool-cases, strip_prefix, Result, ok, err,
}
use sbx_swarm_node.Auth.Session
use sbx_swarm_node.Auth.Principal.{ApiKey, role_for_key}
use sbx_swarm_node.Auth.Middleware.{
  HttpRequest, is_safe_method, csrf_matches, csrf_ok, bearer_role, session_role, cookie_role,
  by_scheme, authenticate_http,
}

module _ (mac : Text → Text) (keys : List ApiKey) (now : ℕ) where
  -- The double submit: the cookie and the header carry the same value, and it is not empty.
  abbrev pub SubmitsTwice : HttpRequest → Type 0
  SubmitsTwice r = (r.csrf_cookie ≡ some r.csrf_header) × ((r.csrf_header == []) ≡ false)

  -- A request that carries no bearer scheme and a session cookie that verifies; if its method is
  -- not a safe one, it submits the second cookie twice.
  abbrev pub HasSession : HttpRequest → Text → Type 0
  HasSession r role =
      (strip_prefix (codes "Bearer ") r.authorization ≡ none)
      × (token : Text) × (r.session_cookie ≡ some token)
      × (Session.verify mac now token ≡ ok role)
      × ((is_safe_method r.method ≡ true) ⊎ SubmitsTwice r)

  abbrev pub HasKey : HttpRequest → Text → Type 0
  HasKey r role =
      (key : Text) × (strip_prefix (codes "Bearer ") r.authorization ≡ some key)
      × (role_for_key key keys ≡ some role)

  csrf_ok-SubmitsTwice : (r : HttpRequest) → csrf_ok r ≡ true → SubmitsTwice r
  unfolding csrf_ok csrf_matches
  csrf_ok-SubmitsTwice r h = go r.csrf_cookie refl
    where
      go : (c : Option Text) → r.csrf_cookie ≡ c → SubmitsTwice r
      go none e = cc
      go (some v) e =
          let matched : csrf_matches (some v) r.csrf_header ≡ true = rw e at h in
          let same : v ≡ r.csrf_header = (==_iff v r.csrf_header).0 (ground arith) in
          (e ∙ ap (λ x. some x) same, rw (← same) (ground arith))

  session_role-ok :
      (r : HttpRequest) (s : Result Session.Error Text) (role : Text)
      → session_role mac keys now r s ≡ ok role
      → (s ≡ ok role) × ((is_safe_method r.method ≡ true) ⊎ SubmitsTwice r)
  unfolding session_role
  session_role-ok r (err _) role h = cc
  session_role-ok r (ok got) role h = elim (Bool-cases (is_safe_method r.method)) [
    | inl e ↦ (ground (arith, e), inl e)
    | inr e ↦ elim (Bool-cases (csrf_ok r)) [
      | inl c ↦ (ground (arith, e, c), inr (csrf_ok-SubmitsTwice r c))
      | inr c ↦ absurd (ground (arith, e, c))
    ]
  ]

  bearer_role-ok :
      (o : Option Text) (role : Text) → bearer_role mac keys now o ≡ ok role → o ≡ some role
  unfolding bearer_role
  bearer_role-ok none role h = cc
  bearer_role-ok (some got) role h = cc

  by_scheme-ok :
      (r : HttpRequest) (o : Option Text) (role : Text)
      → strip_prefix (codes "Bearer ") r.authorization ≡ o
      → by_scheme mac keys now r o ≡ ok role
      → HasKey r role ⊎ HasSession r role
  unfolding by_scheme cookie_role
  by_scheme-ok r (some key) role e h = inl (key, e, bearer_role-ok (role_for_key key keys) role h)
  by_scheme-ok r none role e h = go r.session_cookie refl h
    where
      go :
          (c : Option Text)
          → r.session_cookie ≡ c
          → cookie_role mac keys now r c ≡ ok role
          → HasKey r role ⊎ HasSession r role
      go none i g = cc
      go (some token) i g =
          let (verified, safe) = session_role-ok r (Session.verify mac now token) role g in
          inr (e, token, i, verified, safe)

  -- An HTTP request is let through under a role only with a configured key for the role in its
  -- bearer header, or, without such a header, with a session cookie for the role that verifies; and
  -- in the second case a method that may change state also needs the same non-empty CSRF value in
  -- the cookie and the header.
  pub authenticate_http_sound :
      (r : HttpRequest) (role : Text)
      → authenticate_http mac keys now r ≡ ok role
      → HasKey r role ⊎ HasSession r role
  unfolding authenticate_http
  authenticate_http_sound r role h =
      by_scheme-ok r (strip_prefix (codes "Bearer ") r.authorization) role refl h
