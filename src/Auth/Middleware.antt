-- ===== src/Auth/Middleware.antt =====
-- internal/auth/auth.go: the authentication and the role gate of HTTP requests.
pub mod Requests
use sbx_swarm_node.Prelude.{
  ℕ, Bool, true, false, not, ◌&&◌, ◌||◌, List, [], ◌∷◌, Option, none, some, String, string_eq, Text,
  text_eq, codes, ◌==◌, if◌then◌else◌, strip_prefix, Result, ok, err,
}
use sbx_swarm_node.Auth.Session
use sbx_swarm_node.Auth.Principal.{ApiKey, role_for_key}

-- What the middleware reads of a request; a missing header is the empty text.
pub record HttpRequest : Type 0 where
  pub method : String
  pub authorization : Text
  pub session_cookie : Option Text
  pub csrf_cookie : Option Text
  pub csrf_header : Text

-- The answers 401 and 403.
pub data Refusal : Type 0 where
  invalid_bearer invalid_session csrf_failed authentication_required forbidden : Refusal

unfoldable pub is_safe_method : String → Bool
is_safe_method m = m == "GET" || m == "HEAD" || m == "OPTIONS"

csrf_matches : Option Text → Text → Bool
csrf_matches none header = false
csrf_matches (some value) header = not (value == []) && value == header

unfoldable pub csrf_ok : HttpRequest → Bool
unfolding csrf_matches
csrf_ok r = csrf_matches r.csrf_cookie r.csrf_header

module _ (mac : Text → Text) (keys : List ApiKey) (now : ℕ) where
  bearer_role : Option Text → Result Refusal Text
  bearer_role none = err invalid_bearer
  bearer_role (some role) = ok role

  session_role : HttpRequest → Result Session.Error Text → Result Refusal Text
  unfolding is_safe_method csrf_ok
  session_role r (err _) = err invalid_session
  session_role r (ok role) =
      if not (is_safe_method r.method) && not (csrf_ok r) then err csrf_failed else ok role

  cookie_role : HttpRequest → Option Text → Result Refusal Text
  unfolding session_role
  cookie_role r none = err authentication_required
  cookie_role r (some token) = session_role r (Session.verify mac now token)

  by_scheme : HttpRequest → Option Text → Result Refusal Text
  unfolding bearer_role cookie_role
  by_scheme r (some key) = bearer_role (role_for_key key keys)
  by_scheme r none = cookie_role r r.session_cookie

  -- The role under which Authenticate hands the request on.
  unfoldable pub authenticate_http : HttpRequest → Result Refusal Text
  unfolding by_scheme
  authenticate_http r = by_scheme r (strip_prefix (codes "Bearer ") r.authorization)

-- RequireRole behind Authenticate.
unfoldable pub require_role : Text → Result Refusal Text → Result Refusal Text
require_role role (err e) = err e
require_role role (ok got) =
    if not (got == role) && not (got == codes "admin") then err forbidden else ok got
