-- ===== src/Sandbox/Manager/Healthy.antt =====
-- internal/sandbox/manager.go: what the operations on one record do while the database works.
use sbx_swarm_node.Prelude.{
  ◌≡◌, refl, sym, ap, ◌∙◌, ℕ, ◌+◌, Bool, true, false, List, [], ◌∷◌, ◌++◌, Option, none, some,
  String, string_eq, Map, get, put, Exec, Result, ok, err, pure, throw, ◌>>=◌, ◌>>◌, modify, arith,
}
use sbx_swarm_node.Prelude as Prelude
use sbx_swarm_node.Sandbox.Record.{not_found, Record, Backend}
use sbx_swarm_node.Sandbox.Manager.{
  Manager, Notice, access, read_clock, get_record, list_records, save, mutate, call, lifecycle,
  emit, stop,
}

module _ (B : Backend) (mint : ℕ → String) (clock : ℕ → ℕ) (node_id : String) where
  abbrev Mgr : Type 0
  Mgr = Manager B mint clock node_id

  pub access_healthy : (s : Mgr) → s.faults ≡ [] → access B mint clock node_id s ≡ (ok tt, s)
  unfolding access
  access_healthy s e = ground (arith, e)

  pub get_record_found :
      (id : String) (r : Record) (s : Mgr)
      → s.faults ≡ []
      → get id s.records ≡ some r
      → get_record B mint clock node_id id s ≡ (ok r, s)
  unfolding get_record
  get_record_found id r s e h = rw (access_healthy s e, h) refl

  pub get_record_missing :
      (id : String) (s : Mgr)
      → s.faults ≡ []
      → get id s.records ≡ none
      → get_record B mint clock node_id id s ≡ (err not_found, s)
  unfolding get_record
  get_record_missing id s e h = rw (access_healthy s e, h) refl

  pub list_records_healthy :
      (s : Mgr)
      → s.faults ≡ []
      → list_records B mint clock node_id s ≡ (ok (Prelude.map (λ e. e.1) s.records), s)
  unfolding list_records
  list_records_healthy s e = rw (access_healthy s e) refl

  -- The state behind a write of the record, which is stamped with the time.
  abbrev pub stamped : Record → Mgr → Mgr
  stamped r s = record s {
    ticks = s.ticks + 1;
    records = put r.id (record r { updated_at = clock s.ticks }) s.records;
  }

  pub save_healthy :
      (r : Record) (s : Mgr)
      → s.faults ≡ []
      → save B mint clock node_id r s ≡ (ok (record r { updated_at = clock s.ticks }), stamped r s)
  unfolding save read_clock
  save_healthy r s e = rw (access_healthy (record s { ticks = s.ticks + 1 }) e) refl

  pub mutate_healthy :
      (id : String) (f : Record → Record) (r : Record) (s : Mgr)
      → s.faults ≡ []
      → get id s.records ≡ some r
      → mutate B mint clock node_id id f s ≡ (ok tt, stamped (f r) s)
  unfolding mutate
  mutate_healthy id f r s e h = rw (get_record_found id r s e h, save_healthy (f r) s e) refl

  pub mutate_missing :
      (id : String) (f : Record → Record) (s : Mgr)
      → s.faults ≡ []
      → get id s.records ≡ none
      → mutate B mint clock node_id id f s ≡ (err not_found, s)
  unfolding mutate
  mutate_missing id f s e h = rw (get_record_missing id s e h) refl

  -- A stop of a sandbox that has a record, with a daemon that can stop it.
  pub stop_healthy :
      (id : String) (r : Record) (s : Mgr)
      → s.faults ≡ []
      → get id s.records ≡ some r
      → (B.stop r.backend_name s.daemon).0 ≡ ok tt
      → (t : Mgr) × (stop B mint clock node_id id s ≡ (ok tt, t))
        × (t.faults ≡ [])
        × (t.records
            ≡ put r.id (record r { status = "stopped"; updated_at = clock s.ticks }) s.records)
  unfolding stop lifecycle call emit
  stop_healthy id r s e h stops =
      let s1 : Mgr = record s { daemon = (B.stop r.backend_name s.daemon).1 } in
      let stop_it : Record → Record = λ q. record q { status = "stopped" } in
      let s2 : Mgr = stamped (stop_it r) s1 in
      let note : Notice = record { event_type = "sandbox.stopped"; sandbox_id = r.id } in
      (
        record s2 { published = s2.published ++ note ∷ [] },
        rw (get_record_found id r s e h, stops, mutate_healthy id stop_it r s1 e h) refl,
        e,
        refl,
      )
