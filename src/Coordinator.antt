-- ===== src/Coordinator.antt =====
-- internal/coordinator/coordinator.go: the nodes are tried in the scheduler's order until one
-- accepts. `W` is whatever an attempt reads and changes.
pub mod Attempts
pub mod Examples
use sbx_swarm_node.Prelude.{
  ℕ, ◌+◌, ◌≡◌, refl, Bool, true, false, List, [], ◌∷◌, ◌++◌, String, Text, arith, if◌then◌else◌,
  Float64, Result, ok, err, Exec,
}
use sbx_swarm_node.Scheduler.{Candidate, Request, schedule}

-- The errors of Provision over those of an attempt.
pub data Error (E : Type 0) : Type 0 where
  no_eligible_node : Error E
  no_capacity : Error E
  attempt_failed : E → Error E

-- What an attempt on a node does; `is_nack` is `errors.Is(_, ErrNack)`.
module _ {E W : Type 0} (is_nack : E → Bool) (attempt : String → Exec E W String) where
  unfoldable pub try_nodes : List String → Exec (Error E) W String
  try_nodes [] w = (err no_capacity, w)
  try_nodes (node ∷ nodes) w =
      let (r, w') = attempt node w in
      let next = try_nodes nodes w' in
      elim r [
        | ok id ↦ (ok id, w')
        | err e ↦ if is_nack e then next else (err (attempt_failed e), w')
      ]

  unfoldable pub provision :
      (F : Float64) (sha256 : Text → List ℕ)
      → Request F
      → List (Candidate F)
      → Exec (Error E) W String
  unfolding try_nodes
  provision F sha256 req cands w = elim (schedule F sha256 req cands) [
    | err _ ↦ (err no_eligible_node, w)
    | ok order ↦ try_nodes order w
  ]
