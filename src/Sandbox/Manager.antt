-- ===== src/Sandbox/Manager.antt =====
-- internal/sandbox/manager.go. The state is the bucket "sandboxes" of the store, the capacity
-- tracker, what was published and gossiped, and the daemon behind the backend; `faults` says of the
-- accesses to the database to come which of them fail. A publisher and a notifier are wired.
pub mod Creation
pub mod Admission
pub mod Healthy
use Prim.Native.String.{◌++◌ as append}
use sbx_swarm_node.Prelude.{
  ℕ, ◌+◌, ◌≡◌, Bool, true, false, not, ◌&&◌, ◌||◌, List, [], ◌∷◌, ◌++◌, Option, none, some, String,
  ltb, leb, eqb, if◌then◌else◌, keep, any, map, Map, get, put, delete, ◌==◌, string_eq, nat_eq,
  Exec, Result, ok, err, pure, throw, ◌>>=◌, ◌>>◌, attempt, modify, gets,
}
use sbx_swarm_node.Sandbox.Amounts.{Amounts, nothing, ◌⊕◌}
use sbx_swarm_node.Sandbox.Capacity.{Capacity, try_reserve, commit, commit_base, release, set_base}
use sbx_swarm_node.Sandbox.Record.{
  Error, no_capacity, not_found, db_error, other, backend_create, CreateSpec, PublishedPort,
  BackendSandbox, Record, Backend,
}

unfoldable pub cost_of : CreateSpec → Amounts
cost_of spec = record { cpu = spec.cpus; mem = spec.memory_bytes; disk = spec.disk }

add_costs : Amounts → List Record → Amounts
unfolding cost_of
add_costs acc [] = acc
add_costs acc (r ∷ recs) =
    if r.status == "lost" then add_costs acc recs else add_costs (acc ⊕ cost_of r.spec) recs

unfoldable pub cost_sum : List Record → Amounts
unfolding add_costs
cost_sum recs = add_costs nothing recs

pub record Notice : Type 0 where
  pub event_type : String
  pub sandbox_id : String

-- The backend, the identifiers of a ULID library, the clock, and the node's own id.
module _ (B : Backend) (mint : ℕ → String) (clock : ℕ → ℕ) (node_id : String) where
  pub record Manager : Type 0 where
    pub records : Map String Record
    pub capacity : Capacity
    pub published : List Notice
    pub owned : List String
    pub daemon : B.Daemon
    pub minted : ℕ
    pub ticks : ℕ
    pub faults : List Bool

  abbrev pub M : Type 0 → Type 0
  M A = Exec Error Manager A

  -- One transaction of the database.
  unfoldable pub access : M (Unit {0})
  access s = elim s.faults [
    | [] ↦ (ok tt, s)
    | f ∷ fs ↦ (if f then err db_error else ok tt, record s { faults = fs })
  ]

  unfoldable pub read_clock : M ℕ
  read_clock s = (ok (clock s.ticks), record s { ticks = s.ticks + 1 })

  unfoldable pub new_sandbox_id : M String
  new_sandbox_id s = (ok (mint s.minted), record s { minted = s.minted + 1 })

  -- A call of the backend.
  unfoldable pub call : {A : Type 0} → (B.Daemon → Result Error A × B.Daemon) → M A
  call f s = let (r, d) = f s.daemon in (r, record s { daemon = d })

  unfoldable pub account : (Capacity → Capacity) → M (Unit {0})
  account f = modify (λ s. record s { capacity = f s.capacity })

  unfoldable pub emit : String → String → M (Unit {0})
  emit event_type sandbox_id = modify (λ s. record s {
    published = s.published ++ record { event_type = event_type; sandbox_id = sandbox_id } ∷ [];
  })

  unfoldable pub get_record : String → M Record
  unfolding access
  get_record id = do
    access
    found ← gets (λ s. get id s.records)
    elim found [ none ↦ throw not_found | some r ↦ pure r ]

  unfoldable pub list_records : M (List Record)
  unfolding access
  list_records = do access; gets (λ s. map (λ e. e.1) s.records)

  -- save stamps the record before it writes; the stamped record is returned.
  unfoldable pub save : Record → M Record
  unfolding access read_clock
  save r = do
    now ← read_clock
    access
    let stamped = record r { updated_at = now }
    modify (λ s. record s { records = put r.id stamped s.records })
    pure stamped

  unfoldable pub mutate : String → (Record → Record) → M (Unit {0})
  unfolding get_record save
  mutate id f = do r ← get_record id; save (f r); pure tt

  note_owned : Option (List Record) → M (Unit {0})
  note_owned none = pure tt
  note_owned (some recs) = modify (λ s. record s { owned = map (λ r. r.id) recs })

  unfoldable pub notify_owned_changed : M (Unit {0})
  unfolding list_records note_owned
  notify_owned_changed = do listed ← attempt list_records; note_owned listed

  or_no_ports : Option (List PublishedPort) → M (List PublishedPort)
  or_no_ports none = pure []
  or_no_ports (some ports) = pure ports

  -- The ports that a kit may have published; an error of the read is dropped.
  ports_of_kits : String → List String → M (List PublishedPort)
  unfolding call or_no_ports
  ports_of_kits name [] = pure []
  ports_of_kits name (_ ∷ _) = do read ← attempt (call (B.ports name)); or_no_ports read

  unfoldable pub kit_ports : CreateSpec → M (List PublishedPort)
  unfolding ports_of_kits
  kit_ports spec = ports_of_kits spec.name spec.kits

  wrap_create : Result Error BackendSandbox → Result Error BackendSandbox
  wrap_create (ok b) = ok b
  wrap_create (err e) = err (backend_create e)

  call_create : CreateSpec → M BackendSandbox
  unfolding wrap_create
  call_create spec s =
      let (r, d) = B.create spec s.daemon in (wrap_create r, record s { daemon = d })

  -- The record of a sandbox that the backend has created under the swarm id.
  unfoldable pub new_record : CreateSpec → String → List PublishedPort → ℕ → Record
  new_record spec status ports now = record {
    id = spec.name;
    backend_name = spec.name;
    owner_node = node_id;
    spec = spec;
    status = status;
    ports = ports;
    labels = spec.labels;
    idemp_key = "";
    created_at = now;
    updated_at = 0;
    last_activity = now;
    last_publish = 0;
  }

  -- What Create does when the record is stored.
  announce : Record → M Record
  unfolding emit notify_owned_changed
  announce r = do emit "sandbox.created" r.id; notify_owned_changed; pure r

  unfoldable pub create : CreateSpec → M Record
  unfolding new_sandbox_id call_create read_clock kit_ports save announce new_record
  create asked = do
    id ← new_sandbox_id
    let spec = record asked { name = id }
    b ← call_create spec
    now ← read_clock
    ports ← kit_ports spec
    r ← save (new_record spec b.status ports now)
    announce r

  reserve : Amounts → M (Option ℕ)
  reserve cost s = let (c, id) = try_reserve cost s.capacity in (ok id, record s { capacity = c })

  account_for : ℕ → Option (List Record) → M (Unit {0})
  unfolding account
  account_for reservation none = account (commit reservation)
  account_for reservation (some recs) = account (commit_base (cost_sum recs) reservation)

  -- The accounting behind a successful Create: from the records, or else by the reservation.
  settle : ℕ → M (Unit {0})
  unfolding list_records account_for
  settle reservation = do listed ← attempt list_records; account_for reservation listed

  -- What AdmitAndCreate does with the outcome of Create.
  conclude : ℕ → Result Error Record → M Record
  unfolding settle account
  conclude reservation (ok r) = do settle reservation; pure r
  conclude reservation (err e) = do account (release reservation); throw e

  -- The part of AdmitAndCreate behind the reservation.
  unfoldable pub create_reserved : CreateSpec → ℕ → M Record
  unfolding create conclude
  create_reserved spec reservation s =
      let (outcome, s') = create spec s in conclude reservation outcome s'

  unfoldable pub admit_and_create : CreateSpec → M Record
  unfolding reserve create_reserved
  admit_and_create spec = do
    reservation ← reserve (cost_of spec)
    elim reservation [ none ↦ throw no_capacity | some id ↦ create_reserved spec id ]

  unfoldable pub lifecycle :
      String → (String → B.Daemon → Result Error (Unit {0}) × B.Daemon) → String → M (Unit {0})
  unfolding get_record call mutate emit
  lifecycle id f status = do
    r ← get_record id
    call (f r.backend_name)
    mutate id (λ r. record r { status = status })
    emit (append "sandbox." status) r.id

  unfoldable pub bump_activity : String → M (Unit {0})
  unfolding get_record read_clock save
  bump_activity id = do
    r ← get_record id
    now ← read_clock
    save (record r { last_activity = now })
    pure tt

  unfoldable pub start : String → M (Unit {0})
  unfolding lifecycle bump_activity
  start id = do lifecycle id B.start "running"; bump_activity id

  unfoldable pub stop : String → M (Unit {0})
  unfolding lifecycle
  stop id = lifecycle id B.stop "stopped"
