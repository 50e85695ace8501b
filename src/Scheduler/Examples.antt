-- ===== src/Scheduler/Examples.antt =====
-- The theorems on placement at concrete inputs, with numbers for the floats.
use mathlib.Core.List.{Perm}
use sbx_swarm_node.Prelude.{
  ℕ, ◌+◌, ◌/◌, ◌≡◌, ◌⊎◌, ◌↔◌, true, false, List, [], ◌∷◌, Text, arith, ltb, leb, eqb, keep, map,
  Float64, IsOrdered, IsSorted, ltb-IsWeakOrder, ok, err,
}
use sbx_swarm_node.Scheduler.{Candidate, Request, fits, schedule, no_eligible_node}
use sbx_swarm_node.Scheduler.Eligibility.{IsEligible, fits_iff}
use sbx_swarm_node.Scheduler.Placement.{criteria, schedule-IsSorted}

abbrev whole : Float64
whole = record {
  Carrier = ℕ;
  from_int = λ n. n;
  add = λ a b. a + b;
  div = λ a b. a / b;
  lt = ltb;
  le = leb;
  eq = eqb;
}

whole-IsOrdered : IsOrdered whole
whole-IsOrdered = record {
  weak = ltb-IsWeakOrder;
  eq_lt = λ a b. ground arith;
  le_lt = λ a b. ground arith;
}

abbrev no_hash : Text → List ℕ
no_hash t = t

abbrev idle : Candidate whole
idle = record {
  node_id = "n1";
  workspaces = "w" ∷ [];
  templates = [];
  kits = [];
  capabilities = [];
  labels = ("zone", "a") ∷ [];
  limit_cpu = 8;
  limit_mem = 0;
  limit_disk = 0;
  alloc_cpu = 0;
  alloc_mem = 0;
  alloc_disk = 0;
  sandboxes = 0;
  actual_cpu = 0;
  actual_mem = 0;
  cordoned = false;
}

abbrev busy : Candidate whole
busy = record idle { node_id = "n2"; alloc_cpu = 7; sandboxes = 3 }

abbrev wanted : Request whole
wanted = record {
  cpu = 1;
  mem = 1;
  disk = 0;
  workspaces = "w" ∷ [];
  template = [];
  kits = [];
  capabilities = [];
  affinity = ("zone", "a") ∷ [];
  anti_affinity = [];
  strategy = "spread";
  request_id = "r";
  local = "n2";
}

fits_iff_example : (fits whole no_hash wanted busy ≡ true) ↔ IsEligible whole no_hash wanted busy
fits_iff_example = fits_iff whole no_hash wanted busy

schedule-IsSorted_example :
    ((keep (fits whole no_hash wanted) (busy ∷ idle ∷ []) ≡ [])
      × (schedule whole no_hash wanted (busy ∷ idle ∷ []) ≡ err no_eligible_node))
    ⊎ ((best : List (Candidate whole)) × (schedule whole no_hash wanted (busy ∷ idle ∷ [])
          ≡ ok (map (λ c. c.node_id) best))
        × Perm best (keep (fits whole no_hash wanted) (busy ∷ idle ∷ []))
        × IsSorted (criteria whole no_hash wanted) best)
schedule-IsSorted_example =
    schedule-IsSorted whole no_hash whole-IsOrdered wanted (busy ∷ idle ∷ [])
