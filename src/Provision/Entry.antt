-- ===== src/Provision/Entry.antt =====
-- internal/apiserver/sandboxservice.go: CreateSandbox, up to the goroutine that it starts. The job of
-- that goroutine is part of the answer here.
pub mod Retries
use sbx_swarm_node.Prelude.{
  ℕ, Bool, true, false, not, ◌||◌, Option, none, some, String, string_eq, ◌==◌, if◌then◌else◌,
  Result, ok, err,
}
use sbx_swarm_node.Sandbox.Record.{Record, not_found}
use sbx_swarm_node.Sandbox.Record as Sandboxes
use sbx_swarm_node.Sandbox.Manager.{get_record}
use sbx_swarm_node.Ops.Manager as Ops
use sbx_swarm_node.Ops.Manager.{Operation, State, done}
use sbx_swarm_node.Provision.Sizing.{CreateRequest, Resources, effective_spec, resolve_strategy}
use sbx_swarm_node.Provision.Local.{Setting, Mgr}

pub data ApiError : Type 0 where
  unknown_strategy : ApiError
  internal : Ops.Error → ApiError

-- What the goroutine has to do for the operation.
pub record Job : Type 0 where
  pub op_id : String
  pub spec : CreateRequest
  pub strategy : String

abbrev pub is_done : State → Bool
is_done done = true
is_done _ = false

-- The service with its settings: the units of a gigabyte, the default strategy, the default sizes.
module _ (S : Setting) (mint : ℕ → String) (clock : ℕ → ℕ) (gb : ℕ) (default_strategy : String)
    (defaults : Resources) where
  pub record Service : Type 0 where
    pub ops : Ops.Ops
    pub mgr : Mgr S

  abbrev pub Answer : Type 0
  Answer = Result ApiError (Operation × Option Job) × Service

  -- What the lookup of the operation's sandbox says.
  gone_by : Result Sandboxes.Error Record → Bool
  gone_by (err not_found) = true
  gone_by (err _) = false
  gone_by (ok r) = r.status == "lost"

  unfoldable pub provision_sandbox_gone : Operation → Service → Bool × Service
  unfolding gone_by
  provision_sandbox_gone op s =
      if not (is_done op.state) || op.sandbox_id == ""
      then (false, s)
      else let (r, m) = get_record S.B S.mint S.clock S.node_id op.sandbox_id s.mgr in
        (gone_by r, record s { mgr = m })

  start_op : String → Service → Result Ops.Error (Operation × Bool) × Service
  start_op key s =
      let (r, o) = Ops.start mint clock "provision" key s.ops in (r, record s { ops = o })

  abbrev pub job_for : CreateRequest → String → Operation → Job
  job_for r strategy op = record {
    op_id = op.id;
    spec = effective_spec gb defaults r;
    strategy = strategy;
  }

  -- The answer to a Start behind which nothing is looked up any more.
  respond : CreateRequest → String → Result Ops.Error (Operation × Bool) × Service → Answer
  respond r strategy (err e, s) = (err (internal e), s)
  respond r strategy (ok (op, true), s) = (ok (op, none), s)
  respond r strategy (ok (op, false), s) = (ok (op, some (job_for r strategy op)), s)

  restart : CreateRequest → String → String → Result Ops.Error (Unit {0}) → Service → Answer
  unfolding respond start_op
  restart r strategy key (err e) s = (err (internal e), s)
  restart r strategy key (ok _) s = respond r strategy (start_op key s)

  -- The stale mapping is dropped and the operation started afresh if the sandbox is gone.
  unless_gone : CreateRequest → String → String → Operation → Bool × Service → Answer
  unfolding restart
  unless_gone r strategy key op (false, s) = (ok (op, none), s)
  unless_gone r strategy key op (true, s) =
      let (c, o) = Ops.clear_idempotency mint clock key s.ops in
      restart r strategy key c (record s { ops = o })

  follow : CreateRequest → String → String → Result Ops.Error (Operation × Bool) × Service → Answer
  unfolding unless_gone
  follow r strategy key (err e, s) = (err (internal e), s)
  follow r strategy key (ok (op, false), s) = (ok (op, some (job_for r strategy op)), s)
  follow r strategy key (ok (op, true), s) =
      unless_gone r strategy key op (provision_sandbox_gone op s)

  with_strategy : CreateRequest → String → Option String → Service → Answer
  unfolding follow start_op
  with_strategy r key none s = (err unknown_strategy, s)
  with_strategy r key (some strategy) s = follow r strategy key (start_op key s)

  -- CreateSandbox; the key is empty if the request has none.
  unfoldable pub create_sandbox : CreateRequest → String → Service → Answer
  unfolding with_strategy
  create_sandbox r key = with_strategy r key (resolve_strategy r.strategy default_strategy)
