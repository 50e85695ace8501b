-- ===== src/Forwarding.antt =====
-- internal/apiserver/forward.go and forward_http.go: which node handles a call. The peer pool and the
-- pin resolver are parameters; a forwarded call returns what the other node replies.
pub mod Targets
pub mod Paths
pub mod Examples
use sbx_swarm_node.Prelude.{
  ℕ, Bool, true, false, not, ◌&&◌, ◌||◌, List, [], ◌∷◌, ◌++◌, Option, none, some, Text, codes,
  text_eq, nat_eq, ◌==◌, if◌then◌else◌, contains, map, strip_prefix, cut,
}
use mathlib.Core.Option
use sbx_swarm_node.Routing.{Table, owner, is_local, addr}

-- A unary request: its sandbox id and its node id, if its message has such a field.
pub record Call : Type 0 where
  pub method : Text
  pub id : Option Text
  pub node_id : Option Text

-- Where a call ends. `forwarded` names the node and the address that it is sent to.
pub data Route : Type 0 where
  local node_not_found unreachable no_pin : Route
  forwarded : Text → Text → Route

abbrev pub node_control_methods : List Text
node_control_methods =
    codes "/sbxswarm.v1.NodeService/Cordon"
    ∷ codes "/sbxswarm.v1.NodeService/Uncordon"
    ∷ codes "/sbxswarm.v1.NodeService/Drain"
    ∷ codes "/sbxswarm.v1.NodeService/RemoveTemplate"
    ∷ []

unfoldable pub is_node_control_method : Text → Bool
is_node_control_method m = contains m node_control_methods

in_sandbox_service : List Text
in_sandbox_service =
    map (λ name. codes "/sbxswarm.v1.SandboxService/" ++ name)
      (codes "GetSandbox"
        ∷ codes "DeleteSandbox"
        ∷ codes "StartSandbox"
        ∷ codes "StopSandbox"
        ∷ codes "Exec"
        ∷ codes "AgentRun"
        ∷ codes "PublishPort"
        ∷ codes "UnpublishPort"
        ∷ codes "SaveTemplate"
        ∷ codes "ListPorts"
        ∷ codes "GetStats"
        ∷ codes "ListBlocked"
        ∷ codes "PublishSandbox"
        ∷ codes "ListBranches"
        ∷ codes "KeepAlive"
        ∷ [])

-- newReplyFor has a reply for the method.
unfoldable pub has_reply : Text → Bool
unfolding in_sandbox_service is_node_control_method
has_reply m = contains m in_sandbox_service || is_node_control_method m

unfoldable pub routable_node : Option Text → Option Text
routable_node none = none
routable_node (some []) = none
routable_node (some (c ∷ id)) = some (c ∷ id)

unfoldable pub routable_id : Option Text → Option Text
routable_id none = none
routable_id (some id) = if contains b'.' id then some id else none

-- `connect` is whether the pool has a pinned connection to the node at the address.
module _ (connect : Text → Text → Bool) (self : Text) (tbl : Table) where
  -- The call goes to the node, if the node can be reached and the method has a reply.
  send : Text → Text → Text → Route
  send m node a =
      if not (connect a node) then unreachable else if has_reply m then forwarded node a else local

  to_node : Text → Text → Option Text → Route
  unfolding send
  to_node m node none = node_not_found
  to_node m node (some a) = send m node a

  to_owner_at : Text → Text → Option Text → Route
  unfolding send
  to_owner_at m node none = local
  to_owner_at m node (some a) = send m node a

  to_owner : Text → Option Text → Route
  unfolding to_owner_at
  to_owner m none = local
  to_owner m (some node) = to_owner_at m node (addr node tbl)

  by_id : Text → Option Text → Route
  unfolding to_owner
  by_id m none = local
  by_id m (some id) = if is_local tbl id then local else to_owner m (owner id)

  by_node : Call → Option Text → Route
  unfolding by_id to_node
  by_node c none = by_id c.method (routable_id c.id)
  by_node c (some node) =
      if node == self
      then by_id c.method (routable_id c.id)
      else to_node c.method node (addr node tbl)

  unfoldable pub unary_interceptor : Call → Route
  unfolding by_node by_id
  unary_interceptor c =
      if is_node_control_method c.method
      then by_node c (routable_node c.node_id)
      else by_id c.method (routable_id c.id)

-- What the text is up to the first slash.
up_to_slash : Text → Text
up_to_slash rest = first_part (cut b'/' rest)
  where
    first_part : Option (Text × Text) → Text
    first_part none = rest
    first_part (some (part, _)) = part

path_id : Option Text → Option Text
unfolding up_to_slash
path_id none = none
path_id (some rest) = routable_node (some (up_to_slash rest))

-- The id segment of a path under /v1/sandboxes/; it must not be empty.
unfoldable pub sandbox_path_id : Text → Option Text
unfolding path_id
sandbox_path_id path = path_id (strip_prefix (codes "/v1/sandboxes/") path)

-- `pinned` is whether a key is known to pin the node's certificate.
module _ (pinned : Text → Bool) (tbl : Table) where
  proxy_at : Text → Option Text → Route
  proxy_at node none = local
  proxy_at node (some a) = if pinned node then forwarded node a else no_pin

  proxy_owner : Option Text → Route
  unfolding proxy_at
  proxy_owner none = local
  proxy_owner (some node) = proxy_at node (addr node tbl)

  proxy_id : Option Text → Route
  unfolding proxy_owner
  proxy_id none = local
  proxy_id (some id) = if is_local tbl id then local else proxy_owner (owner id)

  -- OwnerProxy of a node with a table.
  unfoldable pub owner_proxy : Text → Route
  unfolding proxy_id
  owner_proxy path = proxy_id (routable_id (sandbox_path_id path))
