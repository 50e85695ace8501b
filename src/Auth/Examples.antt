-- ===== src/Auth/Examples.antt =====
-- The theorems on tokens and calls at concrete inputs, with a toy cipher: a text is shifted out of
-- the range of the separators, and a signature is the text itself.
use sbx_swarm_node.Prelude.{
  ℕ, ◌+◌, ◌-◌, ◌<◌, ◌≡◌, ◌⊎◌, refl, ap, false, [], ◌∷◌, none, some, arith, Text, codes, text_eq,
  nat_eq, string_eq, ◌==◌, ==_refl, map, contains, pos, ok, get, strip_prefix,
}
use sbx_swarm_node.Auth.Session
use sbx_swarm_node.Auth.Session.Tokens.{verify-mint}
use sbx_swarm_node.Auth.NodeKey
use sbx_swarm_node.Auth.NodeKey.{Crypto, Checks}
use sbx_swarm_node.Auth.NodeKey.Tokens.{Proven, verify-Proven, verify-sign_token}
use sbx_swarm_node.Auth.Policy.{Principal, authenticated, authorize, internal_methods, read_methods}
use sbx_swarm_node.Auth.Principal.{
  Authenticator, Metadata, authenticate, first, first_value, trim_prefix, role_for_key, by_session,
  by_key, first_proven,
}
use sbx_swarm_node.Auth.Middleware.{HttpRequest, authenticate_http}
use sbx_swarm_node.Auth.Middleware.Requests.{HasKey, HasSession, authenticate_http_sound}
use sbx_swarm_node.Auth.Principal.Origin.{BySession, ByKey, mutating_call_origin}

abbrev shift : ℕ → Text → Text
shift k = map (λ x. x + k)

contains-shift : (c k : ℕ) (s : Text) → c < k → contains c (shift k s) ≡ false
contains-shift c k [] h = refl
contains-shift c k (x ∷ s) h = ground (arith, contains-shift c k s h)

abbrev unshift : ℕ → Text → Text
unshift k = map (λ x. x - k)

unshift-shift : (k : ℕ) (s : Text) → unshift k (shift k s) ≡ s
unshift-shift k [] = refl
unshift-shift k (x ∷ s) = ground (arith, unshift-shift k s)

abbrev mac : Text → Text
mac = shift 125

admin_token_verifies :
    Session.verify mac 5 (Session.mint mac (codes "admin") (pos 100)) ≡ ok (codes "admin")
unfolding Session.is_after
admin_token_verifies =
    verify-mint mac (λ s. contains-shift b'|' 125 s (omega arith)) (codes "admin") 100 5 refl
      (omega arith)

abbrev toy : Crypto
toy = record {
  PrivateKey = Text;
  sign = λ key m. m;
  verify_signature = λ pub_key m sig. m == sig;
  encode = shift 47;
  decode = λ s. some (unshift 47 s);
  derive_node_id = λ pub_key. codes "n1";
}

abbrev n1_key : Text
n1_key = codes "abcdefghijklmnopqrstuvwxyz012345"

abbrev at_n2 : Checks toy
at_n2 = record {
  expected_target = codes "n2";
  pubkey_for = λ node. some n1_key;
  denied = λ node. false;
  now = 7;
  skew = 30;
}

abbrev n1_token : Text
n1_token = NodeKey.sign_token toy n1_key (codes "n1") (codes "n2") (pos 0)

n1_token_verifies : NodeKey.verify toy at_n2 n1_token ≡ ok (codes "n1")
unfolding NodeKey.is_fresh
n1_token_verifies =
    verify-sign_token toy at_n2 n1_key n1_key (codes "n1") 0
      (λ s. contains-shift b'.' 47 s (omega arith)) (λ s. ap (λ t. some t) (unshift-shift 47 s))
      (λ m. ==_refl m) refl refl refl refl refl refl (omega arith) refl

verify-Proven_example : Proven toy at_n2 n1_token (codes "n1")
verify-Proven_example = verify-Proven toy at_n2 n1_token (codes "n1") n1_token_verifies

abbrev admin : Principal
admin = record { user_role = codes "admin"; node = false }

abbrev key_node : Authenticator mac toy
key_node = record {
  keys = record { key = codes "s3cret"; role = codes "admin" } ∷ [];
  now = 5;
  checks = none;
}

abbrev key_call : Metadata
key_call = ("authorization", codes "Bearer s3cret" ∷ []) ∷ []

key_call_is_admin : authenticate mac toy key_node key_call ≡ ok admin
unfolding authenticate first_proven by_session by_key first first_value get trim_prefix role_for_key
    strip_prefix
key_call_is_admin = refl

mutating_call_origin_example :
    BySession mac toy key_node key_call (codes "admin")
    ⊎ ByKey mac toy key_node key_call (codes "admin")
unfolding authorize internal_methods read_methods authenticated
mutating_call_origin_example =
    mutating_call_origin mac toy key_node key_call "/sbxswarm.v1.NodeService/Drain" admin refl
      key_call_is_admin refl

abbrev bearer_request : HttpRequest
bearer_request = record {
  method = "POST";
  authorization = codes "Bearer s3cret";
  session_cookie = none;
  csrf_cookie = none;
  csrf_header = [];
}

bearer_is_admin : authenticate_http mac key_node.keys 5 bearer_request ≡ ok (codes "admin")
unfolding authenticate_http role_for_key strip_prefix
bearer_is_admin = refl

authenticate_http_sound_example :
    HasKey mac key_node.keys 5 bearer_request (codes "admin")
    ⊎ HasSession mac key_node.keys 5 bearer_request (codes "admin")
authenticate_http_sound_example =
    authenticate_http_sound mac key_node.keys 5 bearer_request (codes "admin") bearer_is_admin
