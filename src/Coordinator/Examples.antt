-- ===== src/Coordinator/Examples.antt =====
-- The theorem on the attempts at a concrete input.
use sbx_swarm_node.Prelude.{
  ℕ, ◌+◌, Bool, true, [], ◌∷◌, String, ◌==◌, string_eq, if◌then◌else◌, ok, err, Exec,
}
use sbx_swarm_node.Coordinator.{try_nodes}
use sbx_swarm_node.Coordinator.Attempts.{Outcome, try_nodes-Outcome}

-- Node "b" accepts, the others refuse; the calls are counted.
abbrev attempt : String → Exec Bool ℕ String
attempt node calls = (if node == "b" then ok "b.sb" else err true, calls + 1)

abbrev is_nack : Bool → Bool
is_nack e = e

try_nodes-Outcome_example :
    Outcome is_nack attempt
      ("a" ∷ "b" ∷ "c" ∷ [])
      0
      (try_nodes is_nack attempt ("a" ∷ "b" ∷ "c" ∷ []) 0).0
      (try_nodes is_nack attempt ("a" ∷ "b" ∷ "c" ∷ []) 0).1
try_nodes-Outcome_example = try_nodes-Outcome is_nack attempt ("a" ∷ "b" ∷ "c" ∷ []) 0
