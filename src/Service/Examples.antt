-- ===== src/Service/Examples.antt =====
-- The theorems on the services at a concrete node.
use sbx_swarm_node.Prelude.{
  ℕ, ◌+◌, ◌≡◌, ◌≢◌, refl, true, false, List, [], ◌∷◌, ◌++◌, none, some, String, text_eq, ◌==◌,
  codes, keep, contains, length, map, Result, ok, pos, Float64, ltb, leb, eqb, if◌then◌else◌,
}
use sbx_swarm_node.Sandbox.Amounts.{nothing}
use sbx_swarm_node.Sandbox.Capacity.{new_capacity}
use sbx_swarm_node.Sandbox.Record.{Backend, CreateSpec, Record}
use sbx_swarm_node.Git.Runner.{Host, exited}
use sbx_swarm_node.Git.Workspace as Git
use sbx_swarm_node.Provision.Local.{Setting}
use sbx_swarm_node.GitProvider.Provider.{Strings}
use sbx_swarm_node.GitProvider.Strategies.{PublishResult}
use sbx_swarm_node.GitProvider.Rest.{Web}
use sbx_swarm_node.Service.Node.{NodeService, drain}
use sbx_swarm_node.Service.Node.Drains.{drained, Reach, here, next, IsConsistent, run-IsConsistent}
use sbx_swarm_node.Service.State.{Tools, Service, ApiError}
use sbx_swarm_node.Service.Publishing.Quiet.{status_at}
use sbx_swarm_node.Service.Sweeps.{drain_all}
use sbx_swarm_node.Service.Sweeps.Stopping.{is_running, runs_in}
use sbx_swarm_node.Service.Sweeps.Drained.{IsReady, drain_all_empties}
use sbx_swarm_node.Service.Files.{FileWrite}
use sbx_swarm_node.Service.PublishWork.{WorkRequest, publish_work}
use sbx_swarm_node.Service.PublishWork.Guards.{publish_work_releases}

abbrev whole : Float64
whole = record {
  Carrier = ℕ;
  from_int = λ n. n;
  add = λ a b. a + b;
  div = λ a b. a;
  lt = ltb;
  le = leb;
  eq = eqb;
}

abbrev fresh : NodeService whole
fresh = record {
  node_id = codes "n1";
  node_name = [];
  version = [];
  cordoned = false;
  draining = false;
  sweeping = false;
  sweeps = [];
  cluster = none;
  stored = none;
  faults = [];
}

abbrev after_drain : NodeService whole
after_drain = (drain whole (codes "admin") fresh).1

abbrev to_drain : Reach whole fresh after_drain
to_drain = next here (drained (codes "admin") fresh)

fresh-IsConsistent : IsConsistent whole fresh
fresh-IsConsistent = record {
  drains = λ d. cc;
  mirrors = λ c e. cc;
  sweeps_one = refl;
  stores = λ f e. cc;
}

run-IsConsistent_example : IsConsistent whole after_drain
run-IsConsistent_example = run-IsConsistent whole fresh after_drain fresh-IsConsistent to_drain

-- A daemon that stops everything.
abbrev daemon : Backend
daemon = record {
  Daemon = ℕ;
  create = λ spec d. (ok (record { name = spec.name; status = "running" }), d + 1);
  start = λ name d. (ok tt, d);
  stop = λ name d. (ok tt, d);
  remove = λ name d. (ok tt, d);
  list = λ d. (ok [], d);
  ports = λ name d. (ok [], d);
  secret_hosts = λ scope d. (ok [], d);
  secret_remove = λ scope host d. (ok tt, d);
}

abbrev host : Host
host = record {
  World = ℕ;
  exec = λ dir env argv w. ((exited, []), w + 1);
  exists = λ path w. true;
  mkdir_all = λ path w. (true, w);
  join = λ dir name. dir ++ name;
  parent = λ path. path;
}

abbrev app : Git.Spec
app = record {
  name = codes "app";
  base = codes "/srv/app";
  remote = codes "origin";
  remote_url = codes "git@github.com:acme/app.git";
  provider = codes "github";
  cred = record { token = []; ssh_key_path = []; ssh_known_hosts_path = []; ca_path = [] };
  default_branch = codes "main";
  allow_push = true;
  api_base_url = [];
  pre_steps = [];
  publish_steps = [];
  allowlist = codes "git" ∷ [];
}

abbrev setting : Setting
setting = record {
  B = daemon;
  mint = λ n. "n1.s";
  clock = λ n. n;
  node_id = "n1";
  H = host;
  base64 = λ t. t;
  Refusal = ℕ;
  head = λ g id w. (ok (record { fetch_ref = []; local_branch = id }), w);
  git_ws = ("app", app) ∷ [];
}

abbrev tools : Tools setting
tools = record {
  exec = λ name cmd d.
      let out = if contains (codes "stat") cmd then codes "5" else codes "feat/x" in
      (ok (record { exit_code = pos 0; stdout = out; stderr = [] }), d + 1);
  copy_from = λ name from to p. (ok tt, p.0, p.1);
  create_temp = λ dir w. (some (codes "/tmp/b"), w);
  remove_file = λ path w. w;
  base_name = λ path. path;
  trim_space = λ t. t;
}

abbrev spec : CreateSpec
spec = record {
  name = "n1.a";
  display_name = "";
  agent = "";
  template = "";
  cpus = 1;
  memory_bytes = 1;
  disk = 1;
  clone = true;
  branch = "feat/x";
  review_ref = none;
  workspaces = record { name = "app"; read_only = false } ∷ [];
  env = [];
  labels = [];
  kits = [];
}

abbrev sandbox : String → String → Record
sandbox id status = record {
  id = id;
  backend_name = id;
  owner_node = "n1";
  spec = spec;
  status = status;
  ports = [];
  labels = [];
  idemp_key = "";
  created_at = 0;
  updated_at = 0;
  last_activity = 0;
  last_publish = 0;
}

-- A node with a sandbox that runs and one that is lost.
abbrev start : Service setting tools
start = record {
  mgr = record {
    records = ("n1.a", sandbox "n1.a" "running") ∷ ("n1.b", sandbox "n1.b" "lost") ∷ [];
    capacity = new_capacity nothing;
    published = [];
    owned = [];
    daemon = 0;
    minted = 0;
    ticks = 0;
    faults = [];
  };
  held = [];
  world = 0;
  audit = [];
  audit_faults = [];
}

start-IsReady : IsReady setting tools (codes "/tmp") (codes "admin") (λ name d. refl) start
start-IsReady = record { healthy = refl; free = refl; rows = (refl, (refl, tt)) }

drain_all_empties_example :
    let recs = map (λ e. e.1) start.mgr.records in
    (t : Service setting tools) × (drain_all setting tools (codes "/tmp") (codes "admin") [] start
      ≡ some (length (keep is_running recs), t))
    × ((id : String) → status_at setting tools id t ≢ some "running")
    × ((id : String)
        → status_at setting tools id t
          ≡ (if runs_in recs id then some "stopped" else status_at setting tools id start))
drain_all_empties_example =
    drain_all_empties setting tools (codes "/tmp") (codes "admin") (λ name d. refl) start
      start-IsReady

abbrev strings : Strings
strings = record {
  trim_space = λ s. s;
  to_lower = λ s. s;
  equal_fold = λ s t. s == t;
  parse_url = λ s. none;
}

abbrev web : Web ℕ
web = record {
  certs = λ path w. none;
  builds = λ url. true;
  send = λ method url headers body w. (ok (record { status_code = 200; body = [] }), w);
  marshal = λ fields. [];
  read_items = λ body. none;
  read_item = λ body. none;
  error_message = λ body. none;
  encode_query = λ fields. [];
  path_escape = λ s. s;
}

abbrev work : WorkRequest
work = record {
  id = "n1.a";
  strategy = codes "branch";
  target = codes "main";
  title = [];
  body = [];
}

publish_work_releases_example :
    (out : Result ApiError PublishResult) × (t : Service setting tools) × (publish_work setting
        tools strings
        (λ s. s)
        web
        (codes "/tmp")
        work
        (codes "admin")
        start
      ≡ some (out, t))
    × (t.held ≡ [])
    × (t.mgr.records ≡ start.mgr.records)
publish_work_releases_example =
    publish_work_releases setting tools strings (λ s. s) web (codes "/tmp") work (codes "admin")
      start refl refl

-- A file that can be written, and one whose path leads up.
abbrev files : List FileWrite
files =
    record { path = codes "a.txt"; content = codes "hello"; mode = 420 }
    ∷ record { path = codes "../b.txt"; content = codes "hello"; mode = 0 }
    ∷ []
