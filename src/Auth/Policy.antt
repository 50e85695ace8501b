-- ===== src/Auth/Policy.antt =====
-- internal/apiserver/authz.go: the three kinds of methods and the decision of `authorize`.
pub mod Admin
use sbx_swarm_node.Prelude.{
  Bool, true, false, not, ◌&&◌, ◌||◌, List, [], ◌∷◌, String, Text, codes, ◌==◌, string_eq, text_eq,
  contains, if◌then◌else◌, Result, ok, err,
}

-- `user_role` is "admin", "read-only" or "" (none).
pub record Principal : Type 0 where
  pub user_role : Text
  pub node : Bool

pub data Error : Type 0 where
  unauthenticated permission_denied : Error

unfoldable pub authenticated : Principal → Bool
authenticated p = not (p.user_role == []) || p.node

unfoldable pub mutating_methods : List String
mutating_methods =
    "/sbxswarm.v1.SandboxService/CreateSandbox" ∷ "/sbxswarm.v1.SandboxService/DeleteSandbox"
    ∷ "/sbxswarm.v1.SandboxService/StartSandbox" ∷ "/sbxswarm.v1.SandboxService/StopSandbox"
    ∷ "/sbxswarm.v1.SandboxService/Exec" ∷ "/sbxswarm.v1.SandboxService/WriteFiles"
    ∷ "/sbxswarm.v1.SandboxService/AgentRun" ∷ "/sbxswarm.v1.SandboxService/PublishPort"
    ∷ "/sbxswarm.v1.SandboxService/UnpublishPort" ∷ "/sbxswarm.v1.SandboxService/SaveTemplate"
    ∷ "/sbxswarm.v1.SandboxService/PublishSandbox" ∷ "/sbxswarm.v1.SandboxService/PublishWork"
    ∷ "/sbxswarm.v1.SandboxService/ReadReview" ∷ "/sbxswarm.v1.SandboxService/ResolveThreads"
    ∷ "/sbxswarm.v1.SandboxService/ListBranches" ∷ "/sbxswarm.v1.SandboxService/KeepAlive"
    ∷ "/sbxswarm.v1.PolicyService/SetPolicy" ∷ "/sbxswarm.v1.PolicyService/DeletePolicyRule"
    ∷ "/sbxswarm.v1.PolicyService/SetSecret" ∷ "/sbxswarm.v1.PolicyService/DeleteSecret"
    ∷ "/sbxswarm.v1.PolicyService/DeleteStoredSecret" ∷ "/sbxswarm.v1.NodeService/Cordon"
    ∷ "/sbxswarm.v1.NodeService/Uncordon" ∷ "/sbxswarm.v1.NodeService/Drain"
    ∷ "/sbxswarm.v1.NodeService/RevokeNode" ∷ "/sbxswarm.v1.NodeService/RemoveTemplate" ∷ []

unfoldable pub internal_methods : List String
internal_methods = "/sbxswarm.v1.InternalService/Provision" ∷ []

unfoldable pub read_methods : List String
read_methods =
    "/sbxswarm.v1.SandboxService/GetSandbox" ∷ "/sbxswarm.v1.SandboxService/ListSandboxes"
    ∷ "/sbxswarm.v1.SandboxService/ListPorts" ∷ "/sbxswarm.v1.SandboxService/GetStats"
    ∷ "/sbxswarm.v1.SandboxService/ListBlocked" ∷ "/sbxswarm.v1.NodeService/GetNodeInfo"
    ∷ "/sbxswarm.v1.NodeService/ListRevoked" ∷ "/sbxswarm.v1.PolicyService/ListPolicy"
    ∷ "/sbxswarm.v1.PolicyService/CheckPolicy" ∷ "/sbxswarm.v1.PolicyService/ListSecrets"
    ∷ "/sbxswarm.v1.EventService/WatchEvents" ∷ "/sbxswarm.v1.SandboxService/ListOperations"
    ∷ "/sbxswarm.v1.NodeService/ListNodes" ∷ "/sbxswarm.v1.NodeService/ListTemplates" ∷ []

unfoldable pub classified : String → Bool
classified full_method =
    contains full_method mutating_methods
    || contains full_method read_methods
    || contains full_method internal_methods

unfoldable pub authorize : String → Principal → Result Error (Unit {0})
unfolding authenticated
authorize full_method p =
    if not (authenticated p)
    then err unauthenticated
    else if contains full_method internal_methods
    then (if p.node then ok tt else err permission_denied)
    else if contains full_method read_methods
    then ok tt
    else if p.user_role == codes "admin"
    then ok tt
    else err permission_denied
