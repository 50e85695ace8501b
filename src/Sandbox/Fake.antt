-- ===== src/Sandbox/Fake.antt =====
-- internal/sandbox/fake.go: the backend in memory, which a node without a daemon uses. The hooks that
-- a test may set on Exec, on ports and on copies are not set; a read that a test makes fail has its
-- error in the state. Sessions, logs and statistics are left out.
pub mod Egress
use Prim.Native.String.{◌++◌ as append}
use sbx_swarm_node.Prelude.{
  ℕ, ◌+◌, Bool, true, false, not, ◌&&◌, List, [], ◌∷◌, ◌++◌, Option, none, some, String, Text,
  string_eq, text_eq, nat_eq, ◌==◌, eqb, if◌then◌else◌, keep, map, contains, Map, get, put, delete,
  cut, Result, ok, err, sort_texts,
}
use mathlib.Core.Option.{get_or}
use sbx_swarm_node.Sandbox.Record.{
  Error, not_found, unknown_kit, other, CreateSpec, PublishedPort, BackendSandbox, Backend,
}

pub record PolicyRule : Type 0 where
  pub rule : Text
  pub is_deny : Bool

pub record CustomSecret : Type 0 where
  pub host : String
  pub env : String
  pub placeholder : String

pub record Fake : Type 0 where
  pub sandboxes : Map String BackendSandbox
  pub published : Map String (List PublishedPort)
  pub rules : List PolicyRule
  pub secrets : Map String (List CustomSecret)
  pub templates : List Text
  pub offered : List String
  pub kit_ports : List PublishedPort
  pub ports_error : Option Error
  pub list_error : Option Error

pub new_fake : List String → Fake
new_fake kits = record {
  sandboxes = [];
  published = [];
  rules = [];
  secrets = [];
  templates = [];
  offered = kits;
  kit_ports = [];
  ports_error = none;
  list_error = none;
}

-- A call of the fake: what it returns, and the fake afterwards.
abbrev pub FakeCall : Type 0 → Type 0
FakeCall A = Fake → Result Error A × Fake

ports_of : String → Fake → List PublishedPort
ports_of name f = get_or (get name f.published) []

not_empty : {A : Type 0} → List A → Bool
not_empty [] = false
not_empty (_ ∷ _) = true

-- The ports that a kit publishes by itself.
seed_ports : CreateSpec → Fake → Fake
unfolding ports_of not_empty
seed_ports spec f =
    if not_empty spec.kits && not_empty f.kit_ports
    then record f { published = put spec.name (ports_of spec.name f ++ f.kit_ports) f.published }
    else f

all_offered : List String → List String → Bool
all_offered offered [] = true
all_offered offered (k ∷ kits) = contains k offered && all_offered offered kits

create_free : CreateSpec → Option BackendSandbox → FakeCall BackendSandbox
unfolding seed_ports all_offered
create_free spec (some _) f = (err (other (append "exists: " spec.name)), f)
create_free spec none f =
    let sb : BackendSandbox = record { name = spec.name; status = "running" } in
    if all_offered f.offered spec.kits
    then (ok sb, seed_ports spec (record f { sandboxes = put spec.name sb f.sandboxes }))
    else (err unknown_kit, f)

unfoldable pub create : CreateSpec → FakeCall BackendSandbox
unfolding create_free
create spec f = create_free spec (get spec.name f.sandboxes) f

found_or_missing : Option BackendSandbox → Result Error BackendSandbox
found_or_missing none = err not_found
found_or_missing (some sb) = ok sb

unfoldable pub get_sandbox : String → FakeCall BackendSandbox
unfolding found_or_missing
get_sandbox name f = (found_or_missing (get name f.sandboxes), f)

failing : {A : Type 0} → Option Error → A → Result Error A
failing none a = ok a
failing (some e) a = err e

unfoldable pub list : FakeCall (List BackendSandbox)
unfolding failing
list f = (failing f.list_error (map (λ e. e.1) f.sandboxes), f)

-- A change of a sandbox that must exist.
on_found : String → (BackendSandbox → Fake) → FakeCall (Unit {0})
on_found name change f = change_found (get name f.sandboxes)
  where
    change_found : Option BackendSandbox → Result Error (Unit {0}) × Fake
    change_found none = (err not_found, f)
    change_found (some sb) = (ok tt, change sb)

unfoldable pub set_status : String → String → FakeCall (Unit {0})
unfolding on_found
set_status name status f =
    on_found name
      (λ sb. record f { sandboxes = put name (record sb { status = status }) f.sandboxes }) f

abbrev pub start : String → FakeCall (Unit {0})
start name = set_status name "running"

abbrev pub stop : String → FakeCall (Unit {0})
stop name = set_status name "stopped"

unfoldable pub remove : String → FakeCall (Unit {0})
unfolding on_found
remove name f =
    on_found name
      (λ _. record f { sandboxes = delete name f.sandboxes; published = delete name f.published }) f

unfoldable pub ports : String → FakeCall (List PublishedPort)
unfolding failing ports_of
ports name f = (failing f.ports_error (ports_of name f), f)

publish_found : String → ℕ → Option BackendSandbox → FakeCall PublishedPort
unfolding ports_of
publish_found name cp none f = (err not_found, f)
publish_found name cp (some _) f =
    let p : PublishedPort = record { container_port = cp; host_port = 30000 + cp } in
    (ok p, record f { published = put name (ports_of name f ++ p ∷ []) f.published })

unfoldable pub publish_port : String → ℕ → FakeCall PublishedPort
unfolding publish_found
publish_port name cp f = publish_found name cp (get name f.sandboxes) f

unfoldable pub unpublish_port : String → ℕ → FakeCall (Unit {0})
unfolding ports_of
unpublish_port name cp f = (
  ok tt,
  record f {
    published = put name (keep (λ p. not (eqb p.container_port cp)) (ports_of name f)) f.published;
  },
)

unfoldable pub remove_template : Text → FakeCall (Unit {0})
remove_template ref f = (ok tt, record f { templates = keep (λ t. not (t == ref)) f.templates })

unfoldable pub policy_allow : Text → FakeCall (Unit {0})
policy_allow host f =
    (ok tt, record f { rules = f.rules ++ record { rule = host; is_deny = false } ∷ [] })

unfoldable pub policy_deny : Text → FakeCall (Unit {0})
policy_deny host f =
    (ok tt, record f { rules = f.rules ++ record { rule = host; is_deny = true } ∷ [] })

unfoldable pub policy_reset : FakeCall (Unit {0})
policy_reset f = (ok tt, record f { rules = [] })

-- The target without its port.
pub host_of : Text → Text
host_of target = before (cut b':' target)
  where
    before : Option (Text × Text) → Text
    before none = target
    before (some (host, _)) = host

-- The loop of PolicyCheck, with whether a rule has allowed the host so far.
decide : Text → Bool → List PolicyRule → Bool
decide host allowed [] = allowed
decide host allowed (r ∷ rules) =
    let skipped = decide host allowed rules in
    let granted = decide host true rules in
    if not (r.rule == host) then skipped else if r.is_deny then false else granted

-- Whether the decision allows the target; its reasons are left out.
unfoldable pub policy_check : Text → Fake → Bool
unfolding decide host_of
policy_check target f = decide (host_of target) false f.rules

-- A second write for a variable replaces the first and keeps its placeholder.
set_in : CustomSecret → List CustomSecret → List CustomSecret
set_in s [] = s ∷ []
set_in s (c ∷ cs) =
    if c.env == s.env then record s { placeholder = c.placeholder } ∷ cs else c ∷ set_in s cs

unfoldable pub secret_set : String → CustomSecret → FakeCall (Unit {0})
unfolding set_in
secret_set scope s f =
    (ok tt, record f { secrets = put scope (set_in s (get_or (get scope f.secrets) [])) f.secrets })

unfoldable pub secret_remove : String → String → FakeCall (Unit {0})
secret_remove scope host f = (
  ok tt,
  record f {
    secrets =
        put scope (keep (λ s. not (s.host == host)) (get_or (get scope f.secrets) [])) f.secrets;
  },
)

unfoldable pub secret_hosts : String → FakeCall (List String)
secret_hosts scope f = (ok (map (λ s. s.host) (get_or (get scope f.secrets) [])), f)

-- The fake as the backend of a manager.
abbrev pub fake : Backend
fake = record {
  Daemon = Fake;
  create = create;
  start = start;
  stop = stop;
  remove = remove;
  list = list;
  ports = ports;
  secret_hosts = secret_hosts;
  secret_remove = secret_remove;
}
