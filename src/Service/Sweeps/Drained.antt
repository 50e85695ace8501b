-- ===== src/Service/Sweeps/Drained.antt =====
-- internal/apiserver/sandboxservice.go: what a drain leaves behind.
use mathlib.Core.Option as Option
use mathlib.Core.Bool.{false≢true}
use sbx_swarm_node.Prelude.{
  Option, ◌≡◌, ◌≢◌, sym, ap, ◌∙◌, subst, Bool, true, false, ◌&&◌, ◌||◌, [], ◌∷◌, some, String,
  string_eq, Text, Map, get, ◌==◌, ==_iff, ==_refl, any, keep, length, map, All, All-get, ok, arith,
  Bool-cases, inl, inr, if◌then◌else◌,
}
use sbx_swarm_node.Sandbox.Record.{Record}
use sbx_swarm_node.Sandbox.Manager.Healthy.{list_records_healthy}
use sbx_swarm_node.Provision.Local.{Setting}
use sbx_swarm_node.Service.State.{Tools, ask, by_mgr}
use sbx_swarm_node.Service.Publishing.Same.{Svc}
use sbx_swarm_node.Service.Publishing.Quiet.{status_of, status_at, IsCalm}
use sbx_swarm_node.Service.Sweeps.{internal_error, drain_each, drain_listed, drain_all}
use sbx_swarm_node.Service.Sweeps.Stopping.{is_running, runs_in, IsThere, drain_each-Sweeps}

module _ (S : Setting) (T : Tools S) (dir actor : Text)
    (stops : (name : String) (d : S.B.Daemon) → (S.B.stop name d).0 ≡ ok tt) where
  abbrev has_key : String → Map String Record → Bool
  has_key k m = any (λ e. e.0 == k) m

  rows-IsThere :
      (m : Map String Record) (s : Svc S T)
      → All (λ e. e.1.id ≡ e.0) m
      → ((k : String) → has_key k m ≡ true → IsThere S T k s)
      → All (λ r. IsThere S T r.id s) (map (λ e. e.1) m)
  rows-IsThere [] s rows h = tt
  rows-IsThere ((k, r) ∷ m) s (row, rows) h = (
    subst (λ j. IsThere S T j s) (sym row) (h k (ap (λ b. b || has_key k m) (==_refl k))),
    rows-IsThere m s rows (λ j found. h j (ground (arith, found))),
  )

  key-IsThere :
      (m : Map String Record) (k : String)
      → has_key k m ≡ true
      → (status : String) × (Option.map (status_of S T) (get k m) ≡ some status)
  unfolding get
  key-IsThere [] k e = absurd (false≢true e)
  key-IsThere ((j, r) ∷ m) k e = elim (Bool-cases (j == k)) [
    | inl same ↦
        (r.status, ap (λ b. Option.map (status_of S T) (if b then some r else get k m)) same)
    | inr other ↦
        let (status, found) = key-IsThere m k (ground (arith, e, other)) in
        (status, ap (λ b. Option.map (status_of S T) (if b then some r else get k m)) other ∙ found)
  ]

  -- A record that runs is in the list of the records under its own name.
  running-runs_in :
      (m : Map String Record) (j : String)
      → All (λ e. e.1.id ≡ e.0) m
      → Option.map (status_of S T) (get j m) ≡ some "running"
      → runs_in (map (λ e. e.1) m) j ≡ true
  unfolding get
  running-runs_in [] j rows e = cc
  running-runs_in ((k, r) ∷ m) j (row, rows) e = elim (Bool-cases (k == j)) [
    | inr other ↦
        let rest =
          running-runs_in m j rows (
            ap (λ b. Option.map (status_of S T) (if b then some r else get j m)) (sym other) ∙ e) in
        ground (arith, rest)
    | inl same ↦
        let status : some r.status ≡ some "running" =
          ap (λ b. Option.map (status_of S T) (if b then some r else get j m)) (sym same) ∙ e in
        let named : (r.id == j) ≡ true = ap (λ x. x == j) row ∙ same in
        let same_status : r.status ≡ "running" = cc in
        let runs : is_running r ≡ true = (==_iff r.status "running").1 same_status in
        ap (λ b. (b && r.id == j) || runs_in (map (λ e. e.1) m) j) runs
        ∙ ap (λ b. b || runs_in (map (λ e. e.1) m) j) named
  ]

  -- The database works, no workspace is locked, and each record stands under its own name.
  pub record IsReady (s : Svc S T) : Type 0 where
    pub healthy : s.mgr.faults ≡ []
    pub free : s.held ≡ []
    pub rows : All (λ e. e.1.id ≡ e.0) s.mgr.records

  IsReady-IsCalm : (s : Svc S T) → IsReady s → IsCalm S T s
  IsReady-IsCalm s h = record {
    healthy = h.healthy;
    free = h.free;
    keyed = λ id r e. All-get (λ p. p.1.id ≡ p.0) id s.mgr.records r h.rows e;
  }

  stopped-running :
      (b : Bool) (o : Option String)
      → (o ≡ some "running" → b ≡ true)
      → (if b then some "stopped" else o) ≢ some "running"
  stopped-running true o h e =
      let same : ◌≡◌ {A = String} "stopped" "running" = cc in
      let test : ◌==◌ {K = String} "stopped" "running" ≡ true =
        (==_iff "stopped" "running").1 same in
      false≢true test
  stopped-running false o h e = false≢true (h e)

  drain_all-list :
      (s : Svc S T)
      → s.mgr.faults ≡ []
      → drain_all S T dir actor [] s
        ≡ drain_each S T dir actor [] (map (λ e. e.1) s.mgr.records) 0 s
  unfolding drain_all drain_listed ask by_mgr
  drain_all-list s h =
      ap (λ p. drain_listed S T dir actor [] (by_mgr S T internal_error s p))
        (list_records_healthy S.B S.mint S.clock S.node_id s.mgr h)

  -- A drain that is not called off, on a node whose database works, whose workspaces are not locked and
  -- whose daemon stops what it is asked to, returns with the number of the sandboxes that ran. None is
  -- left running: exactly those that ran are stopped, whatever became of their publishes, and all
  -- others have the status that they had.
  pub drain_all_empties :
      (s : Svc S T)
      → IsReady s
      → let recs = map (λ e. e.1) s.mgr.records in
        (t : Svc S T) × (drain_all S T dir actor [] s ≡ some (length (keep is_running recs), t))
        × ((id : String) → status_at S T id t ≢ some "running")
        × ((id : String)
            → status_at S T id t ≡ (if runs_in recs id then some "stopped" else status_at S T id s))
  drain_all_empties s h =
      let recs = map (λ e. e.1) s.mgr.records in
      let (t, e, calm, status) =
        drain_each-Sweeps S T dir actor stops recs 0 s (IsReady-IsCalm s h)
          (rows-IsThere s.mgr.records s h.rows (key-IsThere s.mgr.records)) in
      (
        t,
        drain_all-list s h.healthy ∙ e ∙ ap (λ k. some (k, t)) (omega arith),
        λ id running.
            stopped-running (runs_in recs id) (status_at S T id s)
              (running-runs_in s.mgr.records id h.rows) (sym (status id) ∙ running),
        status,
      )
