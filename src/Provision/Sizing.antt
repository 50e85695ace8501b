-- ===== src/Provision/Sizing.antt =====
-- internal/apiserver/sandboxservice.go: what a request is filled up to, and how it becomes a request
-- to the scheduler and a specification for the manager. A cpu default is in thousandths of a core and
-- below 2^31 cores; disk space is in the unit of Amounts, `gb` of which make a gigabyte.
pub mod Floors
use sbx_swarm_node.Prelude.{
  ℕ, ◌*◌, ◌/◌, ◌^◌, Bool, true, false, List, [], ◌∷◌, Option, none, some, String, Text, codes, Map,
  map, string_eq, ◌==◌, if◌then◌else◌, contains, ltb, ℤ, pos, negsuc, Float64,
}
use mathlib.Core.Option
use sbx_swarm_node.Sandbox.Record.{CreateSpec, ReviewRef, WorkspaceMount}
use sbx_swarm_node.Scheduler.{Request}

-- The message CreateSandboxRequest; cpus is an int32 and memory_bytes an int64.
pub record CreateRequest : Type 0 where
  pub agent : String
  pub template : String
  pub cpus : ℤ
  pub memory_bytes : ℤ
  pub disk : ℤ
  pub clone : Bool
  pub branch : String
  pub review_ref : Option ReviewRef
  pub workspaces : List WorkspaceMount
  pub env : Map String String
  pub labels : Map String String
  pub name : String
  pub kits : List String
  pub strategy : String
  pub node_affinity : Map String String
  pub node_anti_affinity : Map String String

pub record Resources : Type 0 where
  pub cpu_millis : ℤ
  pub memory_bytes : ℤ
  pub disk : ℤ

abbrev pub no_defaults : Resources
no_defaults = record { cpu_millis = pos 0; memory_bytes = pos 0; disk = pos 0 }

unfoldable pub is_positive : ℤ → Bool
is_positive (pos n) = ltb 0 n
is_positive (negsuc n) = false

-- The conversion of a positive float64 to an int32.
truncated : ℤ → ℤ
truncated (pos millis) = pos (millis / 1000)
truncated (negsuc n) = negsuc n

-- The value of the request, or else the default, or else the floor.
unfoldable pub filled : ℤ → ℤ → ℤ → ℤ
unfolding is_positive
filled asked default floor =
    if is_positive asked then asked else if is_positive default then default else floor

filled_cpus : ℤ → ℤ → ℤ
unfolding is_positive truncated
filled_cpus asked default =
    if is_positive asked then asked else if is_positive default then truncated default else pos 1

abbrev pub floor_memory : ℕ
floor_memory = 2 ^ 30

unfoldable pub effective_spec : ℕ → Resources → CreateRequest → CreateRequest
unfolding filled filled_cpus
effective_spec gb defaults r = record r {
  cpus = filled_cpus r.cpus defaults.cpu_millis;
  memory_bytes = filled r.memory_bytes defaults.memory_bytes (pos floor_memory);
  disk = filled r.disk defaults.disk (pos gb);
}

abbrev pub strategies : List String
strategies = "least-loaded" ∷ "bin-pack" ∷ "spread" ∷ "least-actual-load" ∷ []

or_else : String → String → String
or_else s t = if s == "" then t else s

-- `none` is the error that the strategy is unknown.
unfoldable pub resolve_strategy : String → String → Option String
unfolding or_else
resolve_strategy asked default =
    let s = or_else (or_else asked default) "least-loaded" in
    if contains s strategies then some s else none

-- A value that is not positive does not occur once the floors are applied.
pub to_nat : ℤ → ℕ
to_nat (pos n) = n
to_nat (negsuc _) = 0

unfoldable pub request_from_spec : (F : Float64) → ℕ → CreateRequest → String → String → Request F
unfolding to_nat
request_from_spec F gb spec strategy request_id = record {
  cpu = F.from_int (to_nat spec.cpus);
  mem = F.div (F.from_int (to_nat spec.memory_bytes)) (F.from_int 1024);
  disk = F.div (F.from_int (to_nat spec.disk)) (F.from_int gb);
  workspaces = map (λ w. w.name) spec.workspaces;
  template = codes spec.template;
  kits = spec.kits;
  capabilities = if spec.clone then "clone" ∷ [] else [];
  affinity = spec.node_affinity;
  anti_affinity = spec.node_anti_affinity;
  strategy = strategy;
  request_id = request_id;
  local = "";
}

unfoldable pub to_spec : CreateRequest → CreateSpec
unfolding to_nat
to_spec r = record {
  name = "";
  display_name = r.name;
  agent = r.agent;
  template = r.template;
  cpus = to_nat r.cpus;
  memory_bytes = to_nat r.memory_bytes;
  disk = to_nat r.disk;
  clone = r.clone;
  branch = r.branch;
  review_ref = r.review_ref;
  workspaces = r.workspaces;
  env = r.env;
  labels = r.labels;
  kits = r.kits;
}
