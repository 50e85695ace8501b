-- ===== src/Ops/Manager/Idempotency.antt =====
-- internal/ops/ops.go: Start and ClearIdempotency, by the key.
use sbx_swarm_node.Prelude.{
  ℕ, ◌≡◌, ◌≢◌, Bool, true, false, [], Option, none, some, String, arith, Bool-cases, inl, inr, get,
  get-put_self, get-delete_self, ◌==◌, ==_iff, string_eq, Result, ok, err,
}
use sbx_swarm_node.Ops.Manager.{
  pending, Operation, Ops, Error, create, existing, start, clear_idempotency, access,
}

-- The lookup changes nothing but the accesses left.
pub record Looked (s s' : Ops) : Type 0 where
  pub operations : s'.operations ≡ s.operations
  pub idempotency : s'.idempotency ≡ s.idempotency
  pub minted : s'.minted ≡ s.minted
  pub published : s'.published ≡ s.published

pub ne→false : (key : String) → key ≢ "" → (key == "") ≡ false
ne→false key h = elim (Bool-cases (key == "")) [
  | inl e ↦ absurd (h ((==_iff key "").0 e))
  | inr e ↦ e
]

-- The id of the operation that a start created.
abbrev pub created : Result Error (Operation × Bool) → Option String
created (ok (op, false)) = some op.id
created (ok (op, true)) = none
created (err _) = none

module _ (mint : ℕ → String) (clock : ℕ → ℕ) where
  existing-Looked : (key : String) (s : Ops) → Looked s (existing mint clock key s).1
  unfolding existing access
  existing-Looked key s = ground arith

  create-created :
      (op_type key : String) (s s' : Ops) (op : Operation) (b : Bool)
      → (key == "") ≡ false
      → create mint clock op_type key s ≡ (ok (op, b), s')
      → (op.state ≡ pending)
        × (op.id ≡ mint s.minted)
        × (get key s'.idempotency ≡ some op.id)
        × (get op.id s'.operations ≡ some op)
  unfolding create access
  create-created op_type key s s' op b h e =
      ground (arith, get-put_self key op.id s.idempotency, get-put_self op.id op s.operations)

  -- A start with a key that created an operation stored it as pending under the next new id and mapped
  -- the key to it.
  pub start-created :
      (op_type key : String) (s s' : Ops) (op : Operation)
      → key ≢ ""
      → start mint clock op_type key s ≡ (ok (op, false), s')
      → (op.state ≡ pending)
        × (op.id ≡ mint s.minted)
        × (get key s'.idempotency ≡ some op.id)
        × (get op.id s'.operations ≡ some op)
  unfolding start
  start-created op_type key s s' op h e =
      let keyed = ne→false key h in
      let looked = existing-Looked key s in
      ground (arith, keyed, create-created op_type key (existing mint clock key s).1 s' op false)

  -- A start with a key that is mapped to a stored operation returns that operation as it stands now,
  -- as existing, whatever type is asked for, and writes nothing, if the database does not fail.
  pub start-mapped :
      (op_type key op_id : String) (s : Ops) (op : Operation)
      → key ≢ ""
      → get key s.idempotency ≡ some op_id
      → get op_id s.operations ≡ some op
      → s.faults ≡ []
      → start mint clock op_type key s ≡ (ok (op, true), s)
  unfolding start access
  start-mapped op_type key op_id s op h mapped stored f =
      rw (ne→false key h) (ground (arith, f, mapped, stored))

  -- A start with a key that created an operation is idempotent: repeated with the same key, of whatever
  -- type, it returns that operation as existing and writes nothing, if the database does not fail.
  pub start_twice :
      (op_type other_type key : String) (s s' : Ops) (op : Operation)
      → key ≢ ""
      → start mint clock op_type key s ≡ (ok (op, false), s')
      → s'.faults ≡ []
      → start mint clock other_type key s' ≡ (ok (op, true), s')
  start_twice op_type other_type key s s' op h e f =
      let (_, _, mapped, stored) = start-created op_type key s s' op h e in
      start-mapped other_type key op.id s' op h mapped stored f

  -- Once its key is cleared, the next start with that key creates an operation under a new id,
  -- whatever the key was mapped to, if the database does not fail.
  pub start-clear_idempotency :
      (op_type key : String) (s : Ops)
      → key ≢ ""
      → s.faults ≡ []
      → created (start mint clock op_type key (clear_idempotency mint clock key s).1).0
        ≡ some (mint s.minted)
  unfolding start clear_idempotency access
  start-clear_idempotency op_type key s h f =
      rw (ne→false key h) (ground (arith, f, get-delete_self key s.idempotency))
