-- ===== src/Auth/Principal/Origin.antt =====
-- internal/apiserver/authn.go and authz.go: what a call that is let through carries.
use sbx_swarm_node.Prelude.{
  ◌≡◌, refl, subst, ◌⊎◌, inl, inr, true, false, List, [], ◌∷◌, Option, none, some, String,
  string_eq, Text, text_eq, codes, arith, contains, Result, ok, err,
}
use sbx_swarm_node.Auth.Session
use sbx_swarm_node.Auth.NodeKey
use sbx_swarm_node.Auth.NodeKey.{Crypto, Checks}
use sbx_swarm_node.Auth.Policy.{Principal, authorize, mutating_methods}
use sbx_swarm_node.Auth.Policy.Admin.{mutating_needs_admin}
use sbx_swarm_node.Auth.Principal.{
  role_for_key, Metadata, first, is_user_role, trim_prefix, Authenticator, user_of_role, by_session,
  user_of_key, by_key, node_of_caller, node_of_checks, by_node, first_proven, authenticate,
}

-- The methods by which users change the state of the swarm or use the credentials of a node, service
-- by service.
abbrev pub changing_methods : List String
changing_methods =
    "/sbxswarm.v1.SandboxService/CreateSandbox" ∷ "/sbxswarm.v1.SandboxService/DeleteSandbox"
    ∷ "/sbxswarm.v1.SandboxService/StartSandbox" ∷ "/sbxswarm.v1.SandboxService/StopSandbox"
    ∷ "/sbxswarm.v1.SandboxService/Exec" ∷ "/sbxswarm.v1.SandboxService/WriteFiles"
    ∷ "/sbxswarm.v1.SandboxService/AgentRun" ∷ "/sbxswarm.v1.SandboxService/PublishPort"
    ∷ "/sbxswarm.v1.SandboxService/UnpublishPort" ∷ "/sbxswarm.v1.SandboxService/SaveTemplate"
    ∷ "/sbxswarm.v1.SandboxService/PublishSandbox" ∷ "/sbxswarm.v1.SandboxService/PublishWork"
    ∷ "/sbxswarm.v1.SandboxService/ReadReview" ∷ "/sbxswarm.v1.SandboxService/ResolveThreads"
    ∷ "/sbxswarm.v1.SandboxService/ListBranches" ∷ "/sbxswarm.v1.SandboxService/KeepAlive"
    ∷ "/sbxswarm.v1.PolicyService/SetPolicy" ∷ "/sbxswarm.v1.PolicyService/DeletePolicyRule"
    ∷ "/sbxswarm.v1.PolicyService/SetSecret" ∷ "/sbxswarm.v1.PolicyService/DeleteSecret"
    ∷ "/sbxswarm.v1.PolicyService/DeleteStoredSecret" ∷ "/sbxswarm.v1.NodeService/Cordon"
    ∷ "/sbxswarm.v1.NodeService/Uncordon" ∷ "/sbxswarm.v1.NodeService/Drain"
    ∷ "/sbxswarm.v1.NodeService/RevokeNode" ∷ "/sbxswarm.v1.NodeService/RemoveTemplate" ∷ []

changing_methods_are : changing_methods ≡ mutating_methods
unfolding mutating_methods
changing_methods_are = refl

module _ (mac : Text → Text) (C : Crypto) (a : Authenticator mac C) (md : Metadata) where
  -- The three ways in which a call proves who makes it.
  abbrev pub BySession : Text → Type 0
  BySession role =
      (Session.verify mac a.now (first "x-sbx-authz" md) ≡ ok role) × (is_user_role role ≡ true)

  abbrev pub ByKey : Text → Type 0
  ByKey role =
      role_for_key (trim_prefix (codes "Bearer ") (first "authorization" md)) a.keys ≡ some role

  abbrev pub ByNode : Type 0
  ByNode =
      (k : Checks C) × (caller : Text) × (a.checks ≡ some k)
      × (NodeKey.verify C k (first "x-sbx-node-auth" md) ≡ ok caller)

  user_of_role-some :
      (r : Result Session.Error Text) (p : Principal)
      → user_of_role mac C r ≡ some p
      → (r ≡ ok p.user_role) × (is_user_role p.user_role ≡ true) × (p.node ≡ false)
  unfolding user_of_role
  user_of_role-some (err _) p h = cc
  user_of_role-some (ok role) p h = ground arith

  by_session-some :
      (p : Principal)
      → by_session mac C a (first "x-sbx-authz" md) ≡ some p
      → BySession p.user_role × (p.node ≡ false)
  unfolding by_session
  by_session-some p h =
      let (v, r, n) =
        user_of_role-some (Session.verify mac a.now (first "x-sbx-authz" md)) p (ground arith) in
      ((v, r), n)

  user_of_key-some :
      (r : Option Text) (p : Principal)
      → user_of_key mac C r ≡ some p
      → (r ≡ some p.user_role) × (p.node ≡ false)
  unfolding user_of_key
  user_of_key-some none p h = cc
  user_of_key-some (some role) p h = ground arith

  by_key-some :
      (p : Principal)
      → by_key mac C a (first "authorization" md) ≡ some p
      → ByKey p.user_role × (p.node ≡ false)
  unfolding by_key
  by_key-some p h = user_of_key-some _ p (ground arith)

  node_of_caller-some :
      (r : Result NodeKey.Error Text) (p : Principal)
      → node_of_caller mac C r ≡ some p
      → (caller : Text) × (r ≡ ok caller) × (p.user_role ≡ []) × (p.node ≡ true)
  unfolding node_of_caller
  node_of_caller-some (err _) p h = cc
  node_of_caller-some (ok caller) p h = (caller, refl, ground arith, ground arith)

  node_of_checks-some :
      (c : Option (Checks C)) (v : Text) (p : Principal)
      → node_of_checks mac C c v ≡ some p
      → (k : Checks C) × (caller : Text) × (c ≡ some k)
        × (NodeKey.verify C k v ≡ ok caller)
        × (p.user_role ≡ [])
        × (p.node ≡ true)
  unfolding node_of_checks
  node_of_checks-some none v p h = cc
  node_of_checks-some (some k) v p h =
      let (caller, e, u, n) = node_of_caller-some (NodeKey.verify C k v) p h in
      (k, caller, refl, e, u, n)

  by_node-some :
      (p : Principal)
      → by_node mac C a (first "x-sbx-node-auth" md) ≡ some p
      → ByNode × (p.user_role ≡ []) × (p.node ≡ true)
  unfolding by_node
  by_node-some p h =
      let (k, caller, c, e, u, n) =
        node_of_checks-some a.checks (first "x-sbx-node-auth" md) p (ground arith) in
      ((k, caller, c, e), u, n)

  first_proven-ok :
      (x y z : Option Principal) (p : Principal)
      → first_proven mac C (x ∷ y ∷ z ∷ []) ≡ ok p
      → (x ≡ some p) ⊎ ((y ≡ some p) ⊎ (z ≡ some p))
  unfolding first_proven
  first_proven-ok (some q) y z p h = inl (ground arith)
  first_proven-ok none (some q) z p h = inr (inl (ground arith))
  first_proven-ok none none (some q) p h = inr (inr (ground arith))
  first_proven-ok none none none p h = cc

  -- An authenticated principal is a user with the role of a valid session token, one of the two
  -- roles of users; or a user with the role of a configured key; or a node without a role, by a
  -- node token that verifies. No principal is both a user and a node.
  pub authenticate_origin :
      (p : Principal)
      → authenticate mac C a md ≡ ok p
      → ((BySession p.user_role ⊎ ByKey p.user_role) × (p.node ≡ false))
        ⊎ (ByNode × (p.user_role ≡ []) × (p.node ≡ true))
  unfolding authenticate
  authenticate_origin p h = elim (first_proven-ok _ _ _ p h) [
    | inl e ↦ let (s, n) = by_session-some p e in inl (inl s, n)
    | inr (inl e) ↦ let (s, n) = by_key-some p e in inl (inr s, n)
    | inr (inr e) ↦ inr (by_node-some p e)
  ]

  absent : (role : Text) → role ≡ codes "admin" → role ≡ [] → ⊥
  absent role h e = cc

  -- A call of one of the 26 methods of `changing_methods`, by which users change state or use
  -- credentials, from CreateSandbox to RemoveTemplate, is let through only if it carries a session token
  -- for "admin" that verifies, or a configured key with the role "admin": never by a node token.
  -- InternalService/Provision, which nodes call with a node token, is not one of them.
  pub mutating_call_origin :
      (m : String) (p : Principal)
      → contains m changing_methods ≡ true
      → authenticate mac C a md ≡ ok p
      → authorize m p ≡ ok tt
      → BySession (codes "admin") ⊎ ByKey (codes "admin")
  mutating_call_origin m p listed who allowed =
      let mutating = subst (λ ms. contains m ms ≡ true) changing_methods_are listed in
      let admin = mutating_needs_admin m p mutating allowed in
      elim (authenticate_origin p who) [
        | inl (inl s, _) ↦ inl (rw admin at s)
        | inl (inr s, _) ↦ inr (rw admin at s)
        | inr (_, no_role, _) ↦ absurd (absent p.user_role admin no_role)
      ]
