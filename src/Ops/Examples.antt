-- ===== src/Ops/Examples.antt =====
-- The theorems on operations at concrete inputs.
use mathlib.Core.Option
use sbx_swarm_node.Prelude.{
  ℕ, ◌≡◌, ◌≢◌, refl, true, false, [], ◌∷◌, String, get, put, length, string_eq, ok,
}
use sbx_swarm_node.Ops.Manager.{
  pending, Operation, Ops, access, start, create, existing, get_op, put_op, recover_interrupted,
}
use sbx_swarm_node.Ops.Manager.Idempotency.{start_twice}
use sbx_swarm_node.Ops.Manager.Recovery.{
  swept, timeless, stranded, is_settled, recover_interrupted-swept,
}

abbrev mint : ℕ → String
mint n = "n1.op"

abbrev clock : ℕ → ℕ
clock n = n

abbrev no_ops : Ops
no_ops = record {
  operations = [];
  idempotency = [];
  published = [];
  counted = [];
  minted = 0;
  ticks = 0;
  faults = [];
}

abbrev provisioning : Operation
provisioning = record {
  id = "n1.op";
  op_type = "provision";
  state = pending;
  sandbox_id = "";
  error = "";
  idemp_key = "k";
  created_at = 0;
  updated_at = 1;
}

abbrev one_op : Ops
one_op = record no_ops {
  operations = ("n1.op", provisioning) ∷ [];
  idempotency = ("k", "n1.op") ∷ [];
  minted = 1;
  ticks = 2;
}

some_key : ◌≢◌ {A = String} "k" ""
some_key h = cc

first_start : start mint clock "provision" "k" no_ops ≡ (ok (provisioning, false), one_op)
unfolding start create existing put_op get_op access get put
first_start = refl

start_twice_example : start mint clock "other" "k" one_op ≡ (ok (provisioning, true), one_op)
start_twice_example =
    start_twice mint clock "provision" "other" "k" no_ops one_op provisioning some_key first_start
      refl

recover_interrupted-swept_example :
    (s' : Ops) × (recover_interrupted mint clock one_op
      ≡ (ok (length (stranded one_op.operations)), s'))
    × ((j : String)
        → (is_settled (get j s'.operations) ≡ true)
          × (Option.map timeless (get j s'.operations)
              ≡ Option.map swept (get j one_op.operations)))
recover_interrupted-swept_example =
    recover_interrupted-swept mint clock one_op (record { by_id = (refl, tt); is_map = (tt, tt) })
      refl
