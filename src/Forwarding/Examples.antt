-- ===== src/Forwarding/Examples.antt =====
-- The theorems on forwarding at a concrete table.
use sbx_swarm_node.Prelude.{◌≡◌, refl, Bool, true, [], ◌∷◌, none, some, Text, codes, text_eq}
use sbx_swarm_node.Routing.{Table}
use sbx_swarm_node.Forwarding.{Call, unary_interceptor, owner_proxy, sandbox_path_id}
use sbx_swarm_node.Forwarding.Targets.{
  GoesTo, Forward, IsRemote, unary_interceptor-Forward, owner_proxy-GoesTo,
}

abbrev table : Table
table = record {
  self = codes "n1";
  nodes = (codes "n2", record { addr = codes "10.0.0.2:8443"; pubkey = codes "k" }) ∷ [];
}

abbrev connect : Text → Text → Bool
connect address node = true

abbrev get_remote : Call
get_remote = record {
  method = codes "/sbxswarm.v1.SandboxService/GetSandbox";
  id = some (codes "n2.s");
  node_id = none;
}

unary_interceptor-Forward_example :
    GoesTo
      (Forward connect (codes "n1") table get_remote)
      (unary_interceptor connect (codes "n1") table get_remote)
unary_interceptor-Forward_example =
    unary_interceptor-Forward connect (codes "n1") table get_remote refl

abbrev drain : Call
drain = record {
  method = codes "/sbxswarm.v1.NodeService/Drain";
  id = none;
  node_id = some (codes "n3");
}

owner_proxy-GoesTo_example :
    GoesTo
      (λ node a.
        (true ≡ true)
        × ((id : Text) × (sandbox_path_id (codes "/v1/sandboxes/n2.s/logs") ≡ some id)
            × IsRemote table id node a))
      (owner_proxy (λ node. true) table (codes "/v1/sandboxes/n2.s/logs"))
owner_proxy-GoesTo_example =
    owner_proxy-GoesTo (λ node. true) table (codes "/v1/sandboxes/n2.s/logs")
