-- ===== src/Provision/Examples.antt =====
-- The theorems on provisioning at a concrete node.
use sbx_swarm_node.Prelude.{
  ℕ, ◌+◌, ◌≤◌, ◌≡◌, ◌↔◌, refl, true, false, [], ◌∷◌, Option, none, some, codes, get, put, length,
  ok, pos, arith, string_eq,
}
use sbx_swarm_node.Sandbox.Amounts.{nothing}
use sbx_swarm_node.Sandbox.Capacity.{new_capacity, try_reserve, fits}
use sbx_swarm_node.Sandbox.Record.{Backend}
use sbx_swarm_node.Sandbox.Manager.{cost_of, admit_and_create}
use sbx_swarm_node.Git.Runner.{Host, exited}
use sbx_swarm_node.Git.Workspace as Git
use sbx_swarm_node.Ops.Manager as Ops
use sbx_swarm_node.Ops.Manager.{Operation, done, running}
use sbx_swarm_node.Provision.Sizing.{
  CreateRequest, Resources, no_defaults, is_positive, effective_spec, to_spec, resolve_strategy,
}
use sbx_swarm_node.Provision.Sizing.Floors.{effective_spec-charged, effective_spec_again}
use sbx_swarm_node.Provision.Dedup.{Dedup, new_dedup, lookup, remember}
use sbx_swarm_node.Provision.Dedup.Bound.{remember-bounded}
use sbx_swarm_node.Provision.Local.{Setting, State, provision_local, last_git}
use sbx_swarm_node.Provision.Local.Cloning.{Ends, Provisioned, provision_local-Provisioned}
use sbx_swarm_node.Provision.Target.{
  ProvisionRequest, accepted, InternalService, empty_request, provision,
}
use sbx_swarm_node.Provision.Target.Resend.{provision_again}
use sbx_swarm_node.Provision.Entry.{Service, create_sandbox, job_for}
use sbx_swarm_node.Provision.Entry.Retries.{Mapped, create_sandbox_gone}

abbrev daemon : Backend
daemon = record {
  Daemon = ℕ;
  create = λ spec d. (ok (record { name = spec.name; status = "running" }), d + 1);
  start = λ name d. (ok tt, d);
  stop = λ name d. (ok tt, d);
  remove = λ name d. (ok tt, d);
  list = λ d. (ok [], d);
  ports = λ name d. (ok [], d);
  secret_hosts = λ scope d. (ok [], d);
  secret_remove = λ scope host d. (ok tt, d);
}

abbrev host : Host
host = record {
  World = ℕ;
  exec = λ dir env argv w. ((exited, []), w + 1);
  exists = λ path w. true;
  mkdir_all = λ path w. (true, w);
  join = λ dir name. name;
  parent = λ path. path;
}

abbrev app : Git.Spec
app = record {
  name = codes "app";
  base = codes "/srv/app";
  remote = codes "origin";
  remote_url = [];
  provider = [];
  cred = record { token = []; ssh_key_path = []; ssh_known_hosts_path = []; ca_path = [] };
  default_branch = codes "main";
  allow_push = false;
  api_base_url = [];
  pre_steps = [];
  publish_steps = [];
  allowlist = [];
}

abbrev setting : Setting
setting = record {
  B = daemon;
  mint = λ n. "n1.s";
  clock = λ n. n;
  node_id = "n1";
  H = host;
  base64 = λ t. t;
  Refusal = ℕ;
  head = λ g id w. (ok (record { fetch_ref = []; local_branch = id }), w);
  git_ws = ("app", app) ∷ [];
}

abbrev start : State setting
start = record {
  mgr = record {
    records = [];
    capacity = new_capacity nothing;
    published = [];
    owned = [];
    daemon = 0;
    minted = 0;
    ticks = 0;
    faults = [];
  };
  held = [];
  world = 0;
}

abbrev asked : CreateRequest
asked = record empty_request {
  clone = true;
  branch = "main";
  workspaces = record { name = "app"; read_only = false } ∷ [];
}

-- Half a core, which is less than a default can give.
abbrev halves : Resources
halves = record { cpu_millis = pos 500; memory_bytes = pos 0; disk = pos 0 }

effective_spec-charged_example :
    (1 ≤ (cost_of (to_spec (effective_spec 10 halves asked))).mem)
    × (1 ≤ (cost_of (to_spec (effective_spec 10 halves asked))).disk)
    × ((1 ≤ (cost_of (to_spec (effective_spec 10 halves asked))).cpu) ↔ (false ≡ true))
unfolding is_positive
effective_spec-charged_example = effective_spec-charged 10 halves asked (omega arith)

effective_spec_again_example :
    effective_spec 10 no_defaults (effective_spec 10 no_defaults asked)
    ≡ effective_spec 10 no_defaults asked
effective_spec_again_example = effective_spec_again 10 no_defaults asked (omega arith) refl

abbrev full : Dedup
full = remember "a" "n1.s" 3 (new_dedup 100 1)

remember-bounded_example : length (remember "b" "n1.t" 5 full).m ≤ 1
unfolding remember put
remember-bounded_example = remember-bounded "b" "n1.t" 5 full (omega arith) (omega arith)

provision_local-Provisioned_example :
    Ends (Provisioned setting (to_spec asked) start) (provision_local setting (to_spec asked) start)
provision_local-Provisioned_example = provision_local-Provisioned setting (to_spec asked) start refl

abbrev unclonable : CreateRequest
unclonable = record asked { clone = false }

abbrev plain : ProvisionRequest
plain = record { spec = some empty_request; request_id = "r1" }

abbrev service : InternalService setting 10
service = record { state = start; dedup = new_dedup 100 2; cordoned = false }

abbrev left_by : {A : Type 0} → Option (A × InternalService setting 10) → InternalService setting 10
left_by none = service
left_by (some (_, s)) = s

abbrev served : InternalService setting 10
served = left_by (provision setting 10 plain 7 8 service)

serves :
    (provision setting 10 plain 7 8 service ≡ some (ok (accepted "n1.s"), served))
    × (9 ≤ 8 + served.dedup.ttl)
unfolding provision lookup get provision_local to_spec effective_spec last_git admit_and_create
    try_reserve fits new_capacity remember
serves = (refl, omega arith)

provision_again_example :
    provision setting 10 plain 9 10 served ≡ some (ok (accepted "n1.s"), served)
unfolding lookup get
provision_again_example =
    provision_again setting 10 plain plain 7 8 9 10 "n1.s" service served refl refl refl serves.0
      serves.1

abbrev op_in : Ops.State → Operation
op_in state = record {
  id = "op1";
  op_type = "provision";
  state = state;
  sandbox_id = "n1.old";
  error = "";
  idemp_key = "k";
  created_at = 0;
  updated_at = 0;
}

abbrev entry : Operation → Service setting (λ n. "op2") (λ n. n) 10 "" no_defaults
entry op = record {
  ops = record {
    operations = ("op1", op) ∷ [];
    idempotency = ("k", "op1") ∷ [];
    published = [];
    counted = [];
    minted = 1;
    ticks = 0;
    faults = [];
  };
  mgr = start.mgr;
}

mapped :
    (op : Operation)
    → op.id ≡ "op1"
    → Mapped setting (λ n. "op2") (λ n. n) 10 "" no_defaults "k" op (entry op)
unfolding get
mapped op h = record { keyed = refl; mapped = rw h refl; stored = rw h refl; no_faults = refl }

create_sandbox_gone_example :
    (op' : Operation) × ((create_sandbox setting
        (λ n. "op2")
        (λ n. n)
        10
        ""
        no_defaults
        asked
        "k"
        (entry (op_in done))).0
      ≡ ok (
        op',
        some (job_for setting (λ n. "op2") (λ n. n) 10 "" no_defaults asked "least-loaded" op'),
      ))
    × (op'.id ≡ "op2")
unfolding resolve_strategy get
create_sandbox_gone_example =
    create_sandbox_gone setting (λ n. "op2") (λ n. n) 10 "" no_defaults asked "least-loaded" "k"
      (op_in done) (entry (op_in done)) refl (mapped (op_in done) refl) refl refl refl refl
