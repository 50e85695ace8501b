-- ===== src/Sandbox/Cleanup.antt =====
-- internal/sandbox/manager.go: what removes or retires sandboxes, and the lookups over all records.
pub mod Deletion
use sbx_swarm_node.Prelude.{
  ℕ, ◌+◌, Bool, true, false, not, ◌&&◌, List, [], ◌∷◌, Option, none, some, String, ltb, eqb,
  if◌then◌else◌, keep, any, map, get, delete, ◌==◌, string_eq, nat_eq, Result, ok, err, pure, throw,
  ◌>>=◌, ◌>>◌, attempt, modify,
}
use sbx_swarm_node.Sandbox.Capacity.{set_base}
use sbx_swarm_node.Sandbox.Record.{Error, not_found, Record, Backend}
use sbx_swarm_node.Sandbox.Manager.{
  M, cost_sum, access, get_record, list_records, mutate, call, account, emit, notify_owned_changed,
}

is_not_found : Error → Bool
is_not_found not_found = true
is_not_found _ = false

unfoldable pub exempt : Record → Bool
exempt r = elim (get "idle-stop" r.labels) [ none ↦ false | some v ↦ v == "off" ]

-- The test of IdleRunning, with `now` and `timeout` in nanoseconds.
unfoldable pub is_idle : ℕ → ℕ → Record → Bool
unfolding exempt
is_idle now timeout r =
    r.status == "running" && not (exempt r) && ltb (r.last_activity + timeout) now

unfoldable pub find_vm : String → List Record → Option String
find_vm vm [] = none
find_vm vm (r ∷ recs) = if r.backend_name == vm then some r.id else find_vm vm recs

-- The record of Reconcile's snapshot whose sandbox the daemon no longer has.
unfoldable pub is_gone : List String → Record → Bool
is_gone alive r = not (r.status == "lost") && not (any (λ name. name == r.backend_name) alive)

module _ (B : Backend) (mint : ℕ → String) (clock : ℕ → ℕ) (node_id : String) where
  abbrev M' : Type 0 → Type 0
  M' A = M B mint clock node_id A

  -- A removal that finds nothing counts as done.
  remove_result : Result Error (Unit {0}) → Result Error (Unit {0})
  unfolding is_not_found
  remove_result (ok _) = ok tt
  remove_result (err e) = if is_not_found e then ok tt else err e

  unfoldable pub remove_sandbox : String → M' (Unit {0})
  unfolding remove_result
  remove_sandbox name s =
      let (r, d) = B.remove name s.daemon in (remove_result r, record s { daemon = d })

  remove_secrets : String → List String → M' (Unit {0})
  unfolding call
  remove_secrets scope [] = pure tt
  remove_secrets scope (host ∷ hosts) = do
    attempt (call B mint clock node_id (B.secret_remove scope host))
    remove_secrets scope hosts

  remove_listed : String → Option (List String) → M' (Unit {0})
  unfolding remove_secrets
  remove_listed scope none = pure tt
  remove_listed scope (some hosts) = remove_secrets scope hosts

  unfoldable pub remove_custom_secrets : String → M' (Unit {0})
  unfolding remove_listed
  remove_custom_secrets scope = do
    hosts ← attempt (call B mint clock node_id (B.secret_hosts scope))
    remove_listed scope hosts

  forget : String → M' (Unit {0})
  forget id = do
    modify (λ s. record s { records = delete id s.records })
    emit B mint clock node_id "sandbox.deleted" id
    notify_owned_changed B mint clock node_id

  -- The removal of a sandbox that has a record.
  unfoldable pub delete_known : String → Record → M' (Unit {0})
  unfolding forget
  delete_known id r = do
    remove_sandbox r.backend_name
    remove_custom_secrets r.backend_name
    access B mint clock node_id
    forget id

  delete_found : String → Result Error Record → M' (Unit {0})
  unfolding is_not_found
  delete_found id (ok r) = delete_known id r
  delete_found id (err e) = if is_not_found e then remove_sandbox id else throw e

  unfoldable pub delete_sandbox : String → M' (Unit {0})
  unfolding delete_found
  delete_sandbox id s = let (r, s') = get_record B mint clock node_id id s in delete_found id r s'

  unfoldable pub set_last_publish : String → ℕ → M' (Unit {0})
  set_last_publish id t = mutate B mint clock node_id id (λ r. record r { last_publish = t })

  -- A timeout that is not positive is given as 0.
  unfoldable pub idle_running : ℕ → ℕ → M' (List Record)
  idle_running now timeout =
      if eqb timeout 0
      then pure []
      else do recs ← list_records B mint clock node_id; pure (keep (is_idle now timeout) recs)

  unfoldable pub resolve : String → M' String
  resolve id = do r ← get_record B mint clock node_id id; pure r.backend_name

  unfoldable pub resolve_vm_to_id : String → M' (Option String)
  resolve_vm_to_id vm = do
    listed ← attempt (list_records B mint clock node_id)
    elim listed [ none ↦ pure none | some recs ↦ pure (find_vm vm recs) ]

  -- The body of the loop of Reconcile, with the record as the snapshot has it afterwards.
  mark_lost : Record → M' Record
  mark_lost r s =
      let lost = record r { status = "lost" } in
      let (done, s') = mutate B mint clock node_id r.id (λ q. record q { status = "lost" }) s in
      elim done [
        | ok _ ↦ (do emit B mint clock node_id "sandbox.lost" r.id; pure lost) s'
        | err e ↦ (if is_not_found e then ok r else err e, s')
      ]

  unfoldable pub mark_gone : List String → List Record → M' (List Record)
  unfolding mark_lost is_not_found
  mark_gone alive [] = pure []
  mark_gone alive (r ∷ recs) = do
    r' ← if is_gone alive r then mark_lost r else pure r
    recs' ← mark_gone alive recs
    pure (r' ∷ recs')

  unfoldable pub reconcile : M' (Unit {0})
  unfolding mark_gone
  reconcile = do
    live ← call B mint clock node_id B.list
    recs ← list_records B mint clock node_id
    recs' ← mark_gone (map (λ b. b.name) live) recs
    account B mint clock node_id (set_base (cost_sum recs'))
