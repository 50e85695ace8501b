-- ===== src/Auth/Principal.antt =====
-- internal/apiserver/authn.go, with RoleForKey of internal/config/config.go: which principal the
-- headers of a call prove.
pub mod Origin
use sbx_swarm_node.Prelude.{
  ℕ, Bool, true, false, not, ◌&&◌, ◌||◌, List, [], ◌∷◌, Option, none, some, String, string_eq, Text,
  text_eq, codes, ◌==◌, if◌then◌else◌, Map, get, strip_prefix, Result, ok, err,
}
use sbx_swarm_node.Auth.Session
use sbx_swarm_node.Auth.NodeKey
use sbx_swarm_node.Auth.NodeKey.{Crypto, Checks}
use sbx_swarm_node.Auth.Policy.{Principal, Error, unauthenticated}

-- A configured key.
pub record ApiKey : Type 0 where
  pub key : Text
  pub role : Text

-- RoleForKey: the first key that matches.
unfoldable pub role_for_key : Text → List ApiKey → Option Text
role_for_key key [] = none
role_for_key key (k ∷ keys) = if k.key == key then some k.role else role_for_key key keys

-- The headers of a call, with the values of each in their order.
abbrev pub Metadata : Type 0
Metadata = Map String (List Text)

unfoldable pub first_value : Option (List Text) → Text
first_value none = []
first_value (some []) = []
first_value (some (v ∷ _)) = v

unfoldable pub first : String → Metadata → Text
unfolding first_value
first key md = first_value (get key md)

unfoldable pub is_user_role : Text → Bool
is_user_role role = role == codes "admin" || role == codes "read-only"

-- strings.TrimPrefix
unfoldable pub trim_prefix : Text → Text → Text
trim_prefix p s = elim (strip_prefix p s) [ none ↦ s | some rest ↦ rest ]

module _ (mac : Text → Text) (C : Crypto) where
  -- `checks` is `none` on a node without peers; the clock of its `now` is also the session's.
  pub record Authenticator : Type 0 where
    pub keys : List ApiKey
    pub now : ℕ
    pub checks : Option (Checks C)

  user_of_role : Result Session.Error Text → Option Principal
  user_of_role (err _) = none
  user_of_role (ok role) =
      if is_user_role role then some (record { user_role = role; node = false }) else none

  unfoldable pub by_session : Authenticator → Text → Option Principal
  unfolding user_of_role
  by_session a v = if v == [] then none else user_of_role (Session.verify mac a.now v)

  user_of_key : Option Text → Option Principal
  user_of_key none = none
  user_of_key (some role) = some (record { user_role = role; node = false })

  unfoldable pub by_key : Authenticator → Text → Option Principal
  unfolding user_of_key
  by_key a v =
      if v == [] then none else user_of_key (role_for_key (trim_prefix (codes "Bearer ") v) a.keys)

  node_of_caller : Result NodeKey.Error Text → Option Principal
  node_of_caller (err _) = none
  node_of_caller (ok _) = some (record { user_role = []; node = true })

  node_of_checks : Option (Checks C) → Text → Option Principal
  unfolding node_of_caller
  node_of_checks none v = none
  node_of_checks (some k) v = node_of_caller (NodeKey.verify C k v)

  unfoldable pub by_node : Authenticator → Text → Option Principal
  unfolding node_of_checks
  by_node a v = if v == [] then none else node_of_checks a.checks v

  -- The first of the three that proves a principal.
  unfoldable pub first_proven : List (Option Principal) → Result Error Principal
  first_proven [] = err unauthenticated
  first_proven (none ∷ more) = first_proven more
  first_proven (some p ∷ _) = ok p

  unfoldable pub authenticate : Authenticator → Metadata → Result Error Principal
  unfolding first_proven by_session by_key by_node first
  authenticate a md = first_proven (
      by_session a (first "x-sbx-authz" md)
      ∷ by_key a (first "authorization" md)
      ∷ by_node a (first "x-sbx-node-auth" md)
      ∷ [])
