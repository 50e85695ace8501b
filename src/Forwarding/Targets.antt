-- ===== src/Forwarding/Targets.antt =====
-- internal/apiserver/forward.go and forward_http.go: what a call is forwarded to, and what is never
-- handled here.
use sbx_swarm_node.Prelude.{
  ◌≡◌, ◌≢◌, refl, sym, ap, ◌∙◌, Bool, true, false, ◌||◌, ◌⊎◌, [], ◌∷◌, Option, none, some, Text,
  text_eq, nat_eq, ◌==◌, contains, arith, Bool-cases, Option-cases, inl, inr,
}
use sbx_swarm_node.Routing.{Table, owner, is_local, is_owner, addr}
use sbx_swarm_node.Forwarding.{
  Call, Route, local, node_not_found, unreachable, no_pin, forwarded, is_node_control_method,
  has_reply, routable_node, routable_id, send, to_node, to_owner_at, to_owner, by_id, by_node,
  unary_interceptor, sandbox_path_id, proxy_at, proxy_owner, proxy_id, owner_proxy,
}

-- The sandbox is owned by this other node, which the table has at the address.
pub record IsRemote (tbl : Table) (id node a : Text) : Type 0 where
  pub owned : owner id ≡ some node
  pub other : (node == tbl.self) ≡ false
  pub known : addr node tbl ≡ some a

-- If the route is a forward, it is one to such a node.
abbrev pub GoesTo : (Text → Text → Type 0) → Route → Type 0
GoesTo P (forwarded node a) = P node a
GoesTo P _ = Unit {0}

GoesTo-widen :
    (P Q : Text → Text → Type 0) (r : Route)
    → ((node a : Text) → P node a → Q node a)
    → GoesTo P r
    → GoesTo Q r
GoesTo-widen P Q (forwarded node a) f h = f node a h
GoesTo-widen P Q local f h = tt
GoesTo-widen P Q node_not_found f h = tt
GoesTo-widen P Q unreachable f h = tt
GoesTo-widen P Q no_pin f h = tt

not_owner :
    (tbl : Table) (id node : Text)
    → is_local tbl id ≡ false
    → owner id ≡ some node
    → (node == tbl.self) ≡ false
unfolding is_local is_owner
not_owner tbl id node l o = ap (is_owner tbl.self) (sym o) ∙ l

module _ (connect : Text → Text → Bool) (self : Text) (tbl : Table) where
  send-GoesTo :
      (P : Text → Text → Type 0) (m node a : Text)
      → P node a
      → GoesTo P (send connect self tbl m node a)
  unfolding send
  send-GoesTo P m node a p = elim (Bool-cases (connect a node)) [
    | inr e ↦ rw e tt
    | inl e ↦ elim (Bool-cases (has_reply m)) [ inl h ↦ rw (e, h) p | inr h ↦ rw (e, h) tt ]
  ]

  by_id-GoesTo :
      (m : Text) (o : Option Text)
      → GoesTo
          (λ node a. (id : Text) × (o ≡ some id) × IsRemote tbl id node a)
          (by_id connect self tbl m o)
  unfolding by_id to_owner to_owner_at
  by_id-GoesTo m none = tt
  by_id-GoesTo m (some id) = elim (Bool-cases (is_local tbl id)) [
    | inl l ↦ rw l tt
    | inr l ↦ elim (Option-cases (owner id)) [
      | inl n ↦ rw (l, n) tt
      | inr (node, o) ↦ elim (Option-cases (addr node tbl)) [
        | inl n ↦ rw (l, o, n) tt
        | inr (a, e) ↦
            rw (l, o, e)
              (send-GoesTo _ m node a
                (id, refl, record { owned = o; other = not_owner tbl id node l o; known = e }))
      ]
    ]
  ]

  -- The call is about this node: by name, for a node-control method, or as the owner of its sandbox.
  abbrev pub Target : Call → Text → Type 0
  Target c node =
      ((is_node_control_method c.method ≡ true) × (c.node_id ≡ some node))
      ⊎ ((id : Text) × (c.id ≡ some id) × (owner id ≡ some node))

  routable_id-same : (o : Option Text) (id : Text) → routable_id o ≡ some id → o ≡ some id
  unfolding routable_id
  routable_id-same none id h = h
  routable_id-same (some x) id h = ground (arith, h)

  routable_node-same : (o : Option Text) (id : Text) → routable_node o ≡ some id → o ≡ some id
  unfolding routable_node
  routable_node-same none id h = h
  routable_node-same (some []) id h = cc
  routable_node-same (some (c ∷ s)) id h = h

  abbrev pub Forward : Call → Text → Text → Type 0
  Forward c node a = (addr node tbl ≡ some a) × ((node == self) ≡ false) × Target c node

  by_id-Forward :
      (c : Call)
      → tbl.self ≡ self
      → GoesTo (Forward c) (by_id connect self tbl c.method (routable_id c.id))
  by_id-Forward c own =
      GoesTo-widen _ (Forward c) _
        (λ node a (id, e, r). (
          r.known,
          ap (λ s. node == s) (sym own) ∙ r.other,
          inr (id, routable_id-same c.id id e, r.owned),
        ))
        (by_id-GoesTo c.method (routable_id c.id))

  to_node-Forward :
      (c : Call) (node : Text) (o : Option Text)
      → addr node tbl ≡ o
      → (node == self) ≡ false
      → Target c node
      → GoesTo (Forward c) (to_node connect self tbl c.method node o)
  unfolding to_node
  to_node-Forward c node none e n t = tt
  to_node-Forward c node (some a) e n t = send-GoesTo (Forward c) c.method node a (e, n, t)

  by_node-Forward :
      (c : Call) (o : Option Text)
      → tbl.self ≡ self
      → is_node_control_method c.method ≡ true
      → routable_node c.node_id ≡ o
      → GoesTo (Forward c) (by_node connect self tbl c o)
  unfolding by_node
  by_node-Forward c none own m e = by_id-Forward c own
  by_node-Forward c (some node) own m e = elim (Bool-cases (node == self)) [
    | inl s ↦ rw s (by_id-Forward c own)
    | inr s ↦ rw s (
        to_node-Forward c node (addr node tbl) refl s
          (inl (m, routable_node-same c.node_id node e)))
  ]

  -- A call is only ever forwarded to another node than this one, at the address that the table has
  -- for it; and that node is the one that a node-control request names, or the owner of the sandbox.
  pub unary_interceptor-Forward :
      (c : Call) → tbl.self ≡ self → GoesTo (Forward c) (unary_interceptor connect self tbl c)
  unfolding unary_interceptor
  unary_interceptor-Forward c own = elim (Bool-cases (is_node_control_method c.method)) [
    | inl e ↦ rw e (by_node-Forward c (routable_node c.node_id) own e refl)
    | inr e ↦ rw e (by_id-Forward c own)
  ]

  or_right : (a b : Bool) → b ≡ true → (a || b) ≡ true
  or_right a b h = ground (arith, h)

  control-has_reply : (m : Text) → is_node_control_method m ≡ true → has_reply m ≡ true
  unfolding has_reply
  control-has_reply m h = or_right _ (is_node_control_method m) h

  send_control :
      (m node a : Text) → is_node_control_method m ≡ true → send connect self tbl m node a ≢ local
  unfolding send
  send_control m node a h e = elim (Bool-cases (connect a node)) [
    | inr c ↦ cc (sym (cut_off c) ∙ e)
    | inl c ↦ cc (sym (sent c) ∙ e)
  ]
    where
      cut_off : connect a node ≡ false → send connect self tbl m node a ≡ unreachable
      cut_off c = rw c refl

      sent : connect a node ≡ true → send connect self tbl m node a ≡ forwarded node a
      sent c = rw (c, control-has_reply m h) refl

  -- A node-control request that names another node is never handled by this one.
  pub node_control_elsewhere :
      (c : Call) (node : Text)
      → is_node_control_method c.method ≡ true
      → routable_node c.node_id ≡ some node
      → (node == self) ≡ false
      → unary_interceptor connect self tbl c ≢ local
  unfolding unary_interceptor by_node to_node
  node_control_elsewhere c node m n s e = elim (Option-cases (addr node tbl)) [
    | inl k ↦ cc (e, sym (routed none k))
    | inr (a, k) ↦ send_control c.method node a m (sym (routed (some a) k) ∙ e)
  ]
    where
      routed :
          (o : Option Text)
          → addr node tbl ≡ o
          → unary_interceptor connect self tbl c ≡ to_node connect self tbl c.method node o
      routed o k = rw (m, n, s, k) refl

-- A request on a sandbox is proxied only to another node, which owns the sandbox of the path and
-- whose key is known.
pub owner_proxy-GoesTo :
    (pinned : Text → Bool) (tbl : Table) (path : Text)
    → GoesTo
        (λ node a.
          (pinned node ≡ true)
          × ((id : Text) × (sandbox_path_id path ≡ some id) × IsRemote tbl id node a))
        (owner_proxy pinned tbl path)
unfolding owner_proxy proxy_id proxy_owner proxy_at routable_id
owner_proxy-GoesTo pinned tbl path = by_path (sandbox_path_id path) refl
  where
    by_path :
        (o : Option Text)
        → sandbox_path_id path ≡ o
        → GoesTo
            (λ node a.
              (pinned node ≡ true)
              × ((id : Text) × (sandbox_path_id path ≡ some id) × IsRemote tbl id node a))
            (proxy_id pinned tbl (routable_id o))
    by_path none e = tt
    by_path (some id) e = elim (Bool-cases (contains b'.' id)) [
      | inr n ↦ rw n tt
      | inl d ↦ elim (Bool-cases (is_local tbl id)) [
        | inl l ↦ rw (d, l) tt
        | inr l ↦ elim (Option-cases (owner id)) [
          | inl n ↦ rw (d, l, n) tt
          | inr (node, o) ↦ elim (Option-cases (addr node tbl)) [
            | inl n ↦ rw (d, l, o, n) tt
            | inr (a, k) ↦ elim (Bool-cases (pinned node)) [
              | inr n ↦ rw (d, l, o, k, n) tt
              | inl n ↦
                  rw (d, l, o, k, n)
                    (n, (id, e, record { owned = o; other = not_owner tbl id node l o; known = k }))
            ]
          ]
        ]
      ]
    ]
