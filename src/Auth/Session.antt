-- ===== src/Auth/Session.antt =====
-- internal/auth/session.go: signed session tokens "<role>|<expiry>|<signature>".
pub mod Tokens
use sbx_swarm_node.Prelude.{
  ℕ, ◌+◌, ◌*◌, ◌^◌, ◌≤◌, Bool, true, false, not, ◌||◌, List, [], ◌∷◌, ◌++◌, Option, none, some,
  Text, ltb, leb, if◌then◌else◌, ◌==◌, text_eq, split, ℤ, pos, negsuc, parse_int, format_int,
  Result, ok, err,
}

pub data Error : Type 0 where
  malformed bad_signature bad_expiry expired : Error

-- The HMAC-SHA-256 of a payload under the signer's key, in base64, is `mac`; its computation is the
-- standard library's. Times are seconds since 1970, and `now` is not before.
module _ (mac : Text → Text) where
  abbrev pub payload : Text → ℤ → Text
  payload role expiry = role ++ b'|' ∷ format_int expiry

  unfoldable pub mint : Text → ℤ → Text
  mint role expiry = payload role expiry ++ b'|' ∷ mac (payload role expiry)

  -- time.Now().After(time.Unix(exp, 0)), with the clock in nanoseconds. A Time counts its seconds from
  -- the year 1 in 64 bits, so that the largest expiries wrap around to times long past.
  unfoldable pub is_after : ℕ → ℤ → Bool
  is_after now (pos exp) = leb (2 ^ 63) (exp + 62135596800) || ltb (exp * 10 ^ 9) now
  is_after now (negsuc _) = true

  check_expiry : ℕ → Text → Option ℤ → Result Error Text
  check_expiry now role none = err bad_expiry
  check_expiry now role (some exp) = if is_after now exp then err expired else ok role

  verify_parts : ℕ → List Text → Result Error Text
  verify_parts now (role ∷ expiry ∷ sig ∷ []) =
      if sig == mac (role ++ b'|' ∷ expiry)
      then check_expiry now role (parse_int expiry)
      else err bad_signature
  verify_parts now _ = err malformed

  unfoldable pub verify : ℕ → Text → Result Error Text
  unfolding verify_parts check_expiry is_after
  verify now token = verify_parts now (split b'|' token)

-- DeriveSessionKey; `hkdf` is the library's derivation with the label "sbx-session-v1".
unfoldable pub derive_session_key : (Text → Text) → Text → Text → Text
derive_session_key hkdf cluster_secret node_seed =
    if cluster_secret == [] then node_seed else hkdf cluster_secret
