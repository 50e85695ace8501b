-- ===== src/Auth/NodeKey.antt =====
-- internal/nodekey/nodekey.go: tokens "<caller>.<target>.<unix>.<signature>" by which one node
-- proves itself to another.
pub mod Tokens
use sbx_swarm_node.Prelude.{
  ℕ, ◌+◌, ◌*◌, ◌^◌, ◌≤◌, Bool, true, false, not, ◌&&◌, ◌||◌, List, [], ◌∷◌, ◌++◌, Option, none,
  some, Text, ltb, leb, eqb, if◌then◌else◌, ◌==◌, text_eq, split, length, ℤ, pos, negsuc, parse_int,
  format_int, Result, ok, err,
}

pub data Error : Type 0 where
  malformed wrong_audience denied_node unknown_peer key_mismatch bad_timestamp stale : Error
  bad_encoding bad_signature : Error

-- What the standard library computes: Ed25519 signatures, unpadded base64, and the node id of a
-- public key (internal/identity/identity.go, the base32 form of a SHA-256 prefix).
pub record Crypto : Type 1 where
  pub PrivateKey : Type 0
  pub sign : PrivateKey → Text → Text
  pub verify_signature : Text → Text → Text → Bool
  pub encode : Text → Text
  pub decode : Text → Option Text
  pub derive_node_id : Text → Text

abbrev pub public_key_size : ℕ
public_key_size = 32

unfoldable pub payload : Text → Text → ℤ → Text
payload caller target unix = caller ++ b'|' ∷ (target ++ b'|' ∷ format_int unix)

module _ (C : Crypto) where
  unfoldable pub sign_token : C.PrivateKey → Text → Text → ℤ → Text
  sign_token key caller target unix =
      caller
      ++ b'.'
        ∷ (target
            ++ b'.'
              ∷ (format_int unix ++ b'.' ∷ C.encode (C.sign key (payload caller target unix))))

  -- What Verify is called with, besides the token; `now` and `skew` are in nanoseconds.
  pub record Checks : Type 0 where
    pub expected_target : Text
    pub pubkey_for : Text → Option Text
    pub denied : Text → Bool
    pub now : ℕ
    pub skew : ℕ

  -- The distance from the token's time to the clock is at most the skew, in both directions.
  unfoldable pub is_fresh : ℕ → ℕ → ℤ → Bool
  is_fresh now skew (pos unix) = leb now (unix * 10 ^ 9 + skew) && leb (unix * 10 ^ 9) (now + skew)
  is_fresh now skew (negsuc n) = leb (now + (n + 1) * 10 ^ 9) skew

  check_signature : Checks → Text → Text → ℤ → Text → Option Text → Result Error Text
  check_signature k caller target unix pub_key none = err bad_encoding
  check_signature k caller target unix pub_key (some sig) =
      if C.verify_signature pub_key (payload caller target unix) sig
      then ok caller
      else err bad_signature

  check_time : Checks → Text → Text → Text → Text → Option ℤ → Result Error Text
  unfolding check_signature is_fresh
  check_time k caller target sig pub_key none = err bad_timestamp
  check_time k caller target sig pub_key (some unix) =
      if is_fresh k.now k.skew unix
      then check_signature k caller target unix pub_key (C.decode sig)
      else err stale

  check_key : Checks → Text → Text → Text → Text → Option Text → Result Error Text
  unfolding check_time
  check_key k caller target unix sig none = err unknown_peer
  check_key k caller target unix sig (some pub_key) =
      if eqb (length pub_key) public_key_size && C.derive_node_id pub_key == caller
      then check_time k caller target sig pub_key (parse_int unix)
      else err key_mismatch

  verify_parts : Checks → List Text → Result Error Text
  unfolding check_key
  verify_parts k (caller ∷ target ∷ unix ∷ sig ∷ []) =
      if not (target == k.expected_target)
      then err wrong_audience
      else if k.denied caller
      then err denied_node
      else check_key k caller target unix sig (k.pubkey_for caller)
  verify_parts k _ = err malformed

  unfoldable pub verify : Checks → Text → Result Error Text
  unfolding verify_parts
  verify k token = verify_parts k (split b'.' token)
