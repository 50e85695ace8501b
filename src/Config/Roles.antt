-- ===== src/Config/Roles.antt =====
-- internal/config/config.go: the roles of the keys in a configuration that passes.
use sbx_swarm_node.Prelude.{
  ◌≡◌, refl, sym, ◌∙◌, true, false, List, [], ◌∷◌, Option, none, some, String, Text, text_eq, ◌==◌,
  All, ℤ, arith, Bool-cases, inl, inr,
}
use sbx_swarm_node.Auth.Principal.{ApiKey, is_user_role, role_for_key}
use sbx_swarm_node.Config.{Config, validate}
use sbx_swarm_node.Config.Checks.{IsKey, user_role_iff}
use sbx_swarm_node.Config.Sound.{validate_iff}

role_for_key-IsKey :
    (key role : Text) (ks : List ApiKey)
    → All IsKey ks
    → role_for_key key ks ≡ some role
    → is_user_role role ≡ true
unfolding role_for_key
role_for_key-IsKey key role [] a f = cc
role_for_key-IsKey key role (k ∷ ks) a f = elim (Bool-cases (k.key == key)) [
  | inl e ↦ rw (taken e f) ((user_role_iff k.role).1 a.0.1)
  | inr e ↦ role_for_key-IsKey key role ks a.1 (skipped e f)
]
  where
    taken : (k.key == key) ≡ true → role_for_key key (k ∷ ks) ≡ some role → role ≡ k.role
    taken e g = ground (arith, e, g)

    skipped :
        (k.key == key) ≡ false
        → role_for_key key (k ∷ ks) ≡ some role
        → role_for_key key ks ≡ some role
    skipped e g =
        let behind_it : role_for_key key (k ∷ ks) ≡ role_for_key key ks = rw e refl in
        sym behind_it ∙ g

-- On a node whose configuration passed Validate, every key that is found proves a user's role.
pub role_for_key-valid :
    (parse_duration : String → Option ℤ) (c : Config) (key role : Text)
    → validate parse_duration c ≡ none
    → role_for_key key c.api_keys ≡ some role
    → is_user_role role ≡ true
role_for_key-valid parse_duration c key role h found =
    role_for_key-IsKey key role c.api_keys ((validate_iff parse_duration c).0 h).keys found
