-- ===== src/Service/Sweeps.antt =====
-- internal/apiserver/sandboxservice.go: StopSandbox, and the sweeps of the reaper and of a drain.
-- Other calls between the steps of a sweep are not modelled; `keep_going` is the answers that a sweep
-- gets to its question whether to go on, and goes on when they are used up.
pub mod Drained
pub mod Stopping
use sbx_swarm_node.Prelude.{
  ℕ, ◌+◌, Bool, true, false, not, ◌&&◌, List, [], ◌∷◌, Option, none, some, String, Text, string_eq,
  ◌==◌, if◌then◌else◌, Result, ok, err,
}
use sbx_swarm_node.Sandbox.Record.{Record}
use sbx_swarm_node.Sandbox.Record as Sandboxes
use sbx_swarm_node.Sandbox.Manager.{list_records, get_record, stop}
use sbx_swarm_node.Sandbox.Cleanup.{idle_running}
use sbx_swarm_node.Provision.Local.{Setting, Mgr}
use sbx_swarm_node.GitProvider.Strategies as Provider
use sbx_swarm_node.Service.State.{Tools, ApiError, caused, by_manager, Service, ask}
use sbx_swarm_node.Service.Publishing.{lookup_error, maybe_auto_publish}

internal_error : Sandboxes.Error → ApiError
internal_error e = caused Provider.internal (by_manager e)

-- `dir` is where bundles are staged.
module _ (S : Setting) (T : Tools S) (dir : Text) where
  stop_call : String → Service S T → Result ApiError (Unit {0}) × Service S T
  unfolding internal_error
  stop_call id = ask S T internal_error (stop S.B S.mint S.clock S.node_id id)

  get_call : String → Service S T → Result ApiError Record × Service S T
  get_call id = ask S T lookup_error (get_record S.B S.mint S.clock S.node_id id)

  reread : String → Result ApiError (Unit {0}) × Service S T → Result ApiError Record × Service S T
  unfolding get_call
  reread id (err e, s) = (err e, s)
  reread id (ok _, s) = get_call id s

  stop_published : String → Option (Service S T) → Option (Result ApiError Record × Service S T)
  unfolding reread stop_call
  stop_published id none = none
  stop_published id (some s) = some (reread id (stop_call id s))

  unfoldable pub stop_sandbox :
      String → Text → Service S T → Option (Result ApiError Record × Service S T)
  unfolding stop_published
  stop_sandbox id actor s = stop_published id (maybe_auto_publish S T dir id actor s)

  -- One more sandbox has been stopped, unless that failed.
  counted : ℕ → Result ApiError (Unit {0}) → ℕ
  counted n (ok _) = n + 1
  counted n (err _) = n

  -- The body of both loops, with what follows.
  unfoldable pub stop_one :
      String
      → ℕ
      → Option (Service S T)
      → (ℕ → Service S T → Option (ℕ × Service S T))
      → Option (ℕ × Service S T)
  unfolding stop_call counted
  stop_one id n none next = none
  stop_one id n (some s) next = let (r, s') = stop_call id s in next (counted n r) s'

  unfoldable pub reap_each : Text → List Record → ℕ → Service S T → Option (ℕ × Service S T)
  reap_each actor [] n s = some (n, s)
  reap_each actor (rec ∷ recs) n s =
      stop_one rec.id n (maybe_auto_publish S T dir rec.id actor s) (reap_each actor recs)

  reap_listed : Text → Result ApiError (List Record) × Service S T → Option (ℕ × Service S T)
  reap_listed actor (err _, s) = some (0, s)
  reap_listed actor (ok recs, s) = reap_each actor recs 0 s

  unfoldable pub reap_idle : Text → (now timeout : ℕ) → Service S T → Option (ℕ × Service S T)
  unfolding reap_listed internal_error
  reap_idle actor now timeout s =
      reap_listed actor
        (ask S T internal_error (idle_running S.B S.mint S.clock S.node_id now timeout) s)

  -- The answer to the question, and those to come.
  unfoldable pub asked : List Bool → Bool × List Bool
  asked [] = (true, [])
  asked (b ∷ bs) = (b, bs)

  unfoldable pub drain_each :
      Text → List Bool → List Record → ℕ → Service S T → Option (ℕ × Service S T)
  drain_each actor keep_going [] n s = some (n, s)
  drain_each actor keep_going (rec ∷ recs) n s =
      let skip = drain_each actor keep_going recs n s in
      let (go, later) = asked keep_going in
      let one =
        stop_one rec.id n (maybe_auto_publish S T dir rec.id actor s)
          (drain_each actor later recs) in
      if not (rec.status == "running") then skip else if not go then some (n, s) else one

  drain_listed :
      Text → List Bool → Result ApiError (List Record) × Service S T → Option (ℕ × Service S T)
  drain_listed actor keep_going (err _, s) = some (0, s)
  drain_listed actor keep_going (ok recs, s) = drain_each actor keep_going recs 0 s

  unfoldable pub drain_all : Text → List Bool → Service S T → Option (ℕ × Service S T)
  unfolding drain_listed internal_error
  drain_all actor keep_going s =
      drain_listed actor keep_going
        (ask S T internal_error (list_records S.B S.mint S.clock S.node_id) s)
