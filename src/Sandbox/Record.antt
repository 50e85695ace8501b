-- ===== src/Sandbox/Record.antt =====
-- internal/sandbox/record.go and the data of internal/sandbox/backend.go, with the calls that the
-- manager makes of a backend.
use sbx_swarm_node.Prelude.{ℕ, Bool, List, Option, String, Map, Result}

pub data Error : Type 0 where
  no_capacity not_found unknown_kit db_error : Error
  -- any other error of a backend, and the wrapping that Create gives it
  other : String → Error
  backend_create : Error → Error

pub record ReviewRef : Type 0 where
  pub workspace : String
  pub id : String

pub record WorkspaceMount : Type 0 where
  pub name : String
  pub read_only : Bool

-- The times are nanoseconds, the memory bytes; the disk is in the unit of Amounts.
pub record CreateSpec : Type 0 where
  pub name : String
  pub display_name : String
  pub agent : String
  pub template : String
  pub cpus : ℕ
  pub memory_bytes : ℕ
  pub disk : ℕ
  pub clone : Bool
  pub branch : String
  pub review_ref : Option ReviewRef
  pub workspaces : List WorkspaceMount
  pub env : Map String String
  pub labels : Map String String
  pub kits : List String

pub record PublishedPort : Type 0 where
  pub container_port : ℕ
  pub host_port : ℕ

pub record BackendSandbox : Type 0 where
  pub name : String
  pub status : String

pub record Record : Type 0 where
  pub id : String
  pub backend_name : String
  pub owner_node : String
  pub spec : CreateSpec
  pub status : String
  pub ports : List PublishedPort
  pub labels : Map String String
  pub idemp_key : String
  pub created_at : ℕ
  pub updated_at : ℕ
  pub last_activity : ℕ
  pub last_publish : ℕ

-- The calls of the Backend interface that the manager makes. Each may change the daemon, on
-- failure too. `secret_hosts` is the hosts of SecretList's custom secrets.
pub record Backend : Type 1 where
  pub Daemon : Type 0
  pub create : CreateSpec → Daemon → Result Error BackendSandbox × Daemon
  pub start : String → Daemon → Result Error (Unit {0}) × Daemon
  pub stop : String → Daemon → Result Error (Unit {0}) × Daemon
  pub remove : String → Daemon → Result Error (Unit {0}) × Daemon
  pub list : Daemon → Result Error (List BackendSandbox) × Daemon
  pub ports : String → Daemon → Result Error (List PublishedPort) × Daemon
  pub secret_hosts : String → Daemon → Result Error (List String) × Daemon
  pub secret_remove : String → String → Daemon → Result Error (Unit {0}) × Daemon
