-- ===== src/Provision/Entry/Retries.antt =====
-- internal/apiserver/sandboxservice.go: CreateSandbox with a key that was used before.
use sbx_swarm_node.Prelude.{
  ℕ, ◌≡◌, ◌≢◌, refl, ap, ◌∙◌, Bool, true, false, [], none, some, String, string_eq, ◌==◌, ==_iff,
  Result, ok, err, get, arith,
}
use sbx_swarm_node.Sandbox.Record.{not_found}
use sbx_swarm_node.Sandbox.Manager.{get_record, access}
use sbx_swarm_node.Ops.Manager as Ops
use sbx_swarm_node.Ops.Manager.{Operation, State, done}
use sbx_swarm_node.Ops.Manager.Idempotency.{
  ne→false, start-mapped, start-clear_idempotency, created,
}
use sbx_swarm_node.Provision.Sizing.{CreateRequest, Resources, resolve_strategy}
use sbx_swarm_node.Provision.Local.{Setting, Mgr}
use sbx_swarm_node.Provision.Entry.{
  is_done, Service, gone_by, provision_sandbox_gone, start_op, job_for, respond, restart,
  unless_gone, follow, with_strategy, create_sandbox,
}

module _ (S : Setting) (mint : ℕ → String) (clock : ℕ → ℕ) (gb : ℕ) (default_strategy : String)
    (defaults : Resources) where
  abbrev pub Svc : Type 0
  Svc = Service S mint clock gb default_strategy defaults

  -- The key is mapped to the operation, and the database does not fail.
  pub record Mapped (key : String) (op : Operation) (s : Svc) : Type 0 where
    pub keyed : (key == "") ≡ false
    pub mapped : get key s.ops.idempotency ≡ some op.id
    pub stored : get op.id s.ops.operations ≡ some op
    pub no_faults : s.ops.faults ≡ []

  not_empty : (key : String) → (key == "") ≡ false → key ≢ ""
  not_empty key h e = cc (h, (==_iff key "").1 e)

  start_op-Mapped :
      (key : String) (op : Operation) (s : Svc)
      → Mapped key op s
      → start_op S mint clock gb default_strategy defaults key s ≡ (ok (op, true), s)
  unfolding start_op
  start_op-Mapped key op s m =
      ap (λ p. (p.0, record s { ops = p.1 }))
        (start-mapped mint clock "provision" key op.id s.ops op (not_empty key m.keyed) m.mapped
          m.stored m.no_faults)

  create_sandbox-Mapped :
      (r : CreateRequest) (strategy key : String) (op : Operation) (s : Svc)
      → resolve_strategy r.strategy default_strategy ≡ some strategy
      → Mapped key op s
      → create_sandbox S mint clock gb default_strategy defaults r key s
        ≡ unless_gone S mint clock gb default_strategy defaults r strategy key op
            (provision_sandbox_gone S mint clock gb default_strategy defaults op s)
  unfolding create_sandbox with_strategy follow
  create_sandbox-Mapped r strategy key op s e m =
      ap (λ o. with_strategy S mint clock gb default_strategy defaults r key o s) e
      ∙ ap (follow S mint clock gb default_strategy defaults r strategy key)
          (start_op-Mapped key op s m)

  -- A retry under the key of an operation that is not done (it waits, runs or has failed) returns
  -- that operation as it stands; it starts nothing and changes nothing.
  pub create_sandbox_in_flight :
      (r : CreateRequest) (strategy key : String) (op : Operation) (s : Svc)
      → resolve_strategy r.strategy default_strategy ≡ some strategy
      → Mapped key op s
      → is_done op.state ≡ false
      → create_sandbox S mint clock gb default_strategy defaults r key s ≡ (ok (op, none), s)
  unfolding unless_gone
  create_sandbox_in_flight r strategy key op s e m d =
      create_sandbox-Mapped r strategy key op s e m
      ∙ ap (unless_gone S mint clock gb default_strategy defaults r strategy key op) (not_gone d)
    where
      not_gone :
          is_done op.state ≡ false
          → provision_sandbox_gone S mint clock gb default_strategy defaults op s ≡ (false, s)
      not_gone h = unfold provision_sandbox_gone in rw h refl

  absent_record :
      (id : String) (m : Mgr S)
      → m.faults ≡ []
      → get id m.records ≡ none
      → get_record S.B S.mint S.clock S.node_id id m ≡ (err not_found, m)
  unfolding get_record access
  absent_record id m h k = ground (arith, h, k)

  missing :
      (op : Operation) (s : Svc)
      → is_done op.state ≡ true
      → (op.sandbox_id == "") ≡ false
      → s.mgr.faults ≡ []
      → get op.sandbox_id s.mgr.records ≡ none
      → provision_sandbox_gone S mint clock gb default_strategy defaults op s ≡ (true, s)
  unfolding provision_sandbox_gone
  missing op s d n f g =
      let looked : get_record S.B S.mint S.clock S.node_id op.sandbox_id s.mgr
          ≡ (err not_found, s.mgr) =
        absent_record (op.sandbox_id) s.mgr f g in
      rw (d, n)
        (ap (λ p. (gone_by S mint clock gb default_strategy defaults p.0, record s { mgr = p.1 }))
            looked
          ∙ (unfold gone_by in refl))

  created-some :
      (x : Result Ops.Error (Operation × Bool)) (id : String)
      → created x ≡ some id
      → (op : Operation) × (x ≡ ok (op, false)) × (op.id ≡ id)
  created-some (ok (op, false)) id h = (op, refl, ground (arith, h))
  created-some (ok (op, true)) id h = cc
  created-some (err _) id h = cc

  cleared_ok :
      (key : String) (o : Ops.Ops)
      → key ≢ ""
      → o.faults ≡ []
      → (Ops.clear_idempotency mint clock key o).0 ≡ ok tt
  unfolding Ops.clear_idempotency Ops.access
  cleared_ok key o k h = rw (ne→false key k) (ground (arith, h))

  -- A retry under the key of an operation that is done, but of whose sandbox this node has no record -
  -- it was deleted, or it was placed on another node - provisions again: the answer is a new operation
  -- and its job, if the databases do not fail.
  pub create_sandbox_gone :
      (r : CreateRequest) (strategy key : String) (op : Operation) (s : Svc)
      → resolve_strategy r.strategy default_strategy ≡ some strategy
      → Mapped key op s
      → is_done op.state ≡ true
      → (op.sandbox_id == "") ≡ false
      → s.mgr.faults ≡ []
      → get op.sandbox_id s.mgr.records ≡ none
      → (op' : Operation) × ((create_sandbox S mint clock gb default_strategy defaults r key s).0
          ≡ ok (op', some (job_for S mint clock gb default_strategy defaults r strategy op')))
        × (op'.id ≡ mint s.ops.minted)
  unfolding unless_gone restart respond start_op
  create_sandbox_gone r strategy key op s e m d n f g =
      let cleared = Ops.clear_idempotency mint clock key s.ops in
      let started = Ops.start mint clock "provision" key cleared.1 in
      let (op', x, fresh) = created-some started.0 (mint s.ops.minted) (
        start-clear_idempotency mint clock "provision" key s.ops (not_empty key m.keyed)
          m.no_faults) in
      let chain =
        create_sandbox-Mapped r strategy key op s e m
        ∙ ap (unless_gone S mint clock gb default_strategy defaults r strategy key op)
            (missing op s d n f g) in
      (
        op',
        ap (λ a. a.0) chain
            ∙ ap
                (λ c.
                  (restart S mint clock gb default_strategy defaults r strategy key c
                    (record s { ops = cleared.1 })).0)
                (cleared_ok key s.ops (not_empty key m.keyed) m.no_faults)
            ∙ ap
                (λ y.
                  (respond S mint clock gb default_strategy defaults r strategy
                    (y, record s { ops = started.1 })).0)
                x,
        fresh,
      )
