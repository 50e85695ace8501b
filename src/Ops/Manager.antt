-- ===== src/Ops/Manager.antt =====
-- internal/ops/ops.go. Start, ClearIdempotency and RecoverInterrupted hold the manager's mutex, so
-- each is one step on the state. The state is what the manager keeps in the store's two buckets,
-- with what it has published and counted; `faults` says of the accesses to the database to come
-- which of them fail.
pub mod Idempotency
pub mod Recovery
pub mod Listing
use sbx_swarm_node.Prelude.{
  ℕ, ◌+◌, ◌≡◌, Bool, true, false, not, ◌&&◌, ◌||◌, List, [], ◌∷◌, ◌++◌, Option, none, some, String,
  ltb, leb, eqb, if◌then◌else◌, length, take, keep, map, Map, get, put, delete, sort_by, ◌==◌,
  string_eq, nat_eq, Exec, Result, ok, err, pure, throw, ◌>>=◌, ◌>>◌, attempt, modify, gets,
}

pub data State : Type 0 where
  pending running done error : State

pub record Operation : Type 0 where
  pub id : String
  pub op_type : String
  pub state : State
  pub sandbox_id : String
  pub error : String
  pub idemp_key : String
  pub created_at : ℕ
  pub updated_at : ℕ

-- A published operation event and a counted final state.
pub record Notice : Type 0 where
  pub op_id : String
  pub op_type : String
  pub state : State
  pub sandbox_id : String

pub record Ops : Type 0 where
  pub operations : Map String Operation
  pub idempotency : Map String String
  pub published : List Notice
  pub counted : List (String × State)
  pub minted : ℕ
  pub ticks : ℕ
  pub faults : List Bool

pub data Error : Type 0 where
  db_error : Error

abbrev pub M : Type 0 → Type 0
M A = Exec Error Ops A

-- One transaction of the database.
unfoldable pub access : M (Unit {0})
access s = elim s.faults [
  | [] ↦ (ok tt, s)
  | f ∷ fs ↦ (if f then err db_error else ok tt, record s { faults = fs })
]

unfoldable pub get_op : String → M (Option Operation)
unfolding access
get_op op_id = do access; gets (λ s. get op_id s.operations)

pub is_terminal : State → Bool
is_terminal pending = false
is_terminal running = false
is_terminal done = true
is_terminal error = true

-- The outcome of the function that Run executes.
unfoldable pub finish : Operation → Result String String → Operation
finish op (ok sandbox_id) = record op { state = done; sandbox_id = sandbox_id }
finish op (err message) = record op { state = error; error = message }

abbrev pub interrupted : String
interrupted = "interrupted: node restarted during operation"

abbrev pub default_list_limit : ℕ
default_list_limit = 200

unfoldable pub capped : ℕ → ℕ
capped limit = if eqb limit 0 || ltb default_list_limit limit then default_list_limit else limit

-- CreatedAt.After
abbrev pub newer : Operation → Operation → Bool
newer a b = ltb b.created_at a.created_at

-- The identifiers come from a ULID library and the times from the system clock.
module _ (mint : ℕ → String) (clock : ℕ → ℕ) where
  read_clock : M ℕ
  read_clock s = (ok (clock s.ticks), record s { ticks = s.ticks + 1 })

  new_id : M String
  new_id s = (ok (mint s.minted), record s { minted = s.minted + 1 })

  -- put stamps the operation before it writes; the stamped operation is returned.
  unfoldable pub put_op : Operation → M Operation
  unfolding access read_clock
  put_op op = do
    now ← read_clock
    access
    let stamped = record op { updated_at = now }
    modify (λ s. record s { operations = put op.id stamped s.operations })
    pure stamped

  -- The part of Start behind the idempotency lookup.
  unfoldable pub create : String → String → M (Operation × Bool)
  unfolding put_op new_id
  create op_type idemp_key = do
    id ← new_id
    now ← read_clock
    op ← put_op (record {
      id = id;
      op_type = op_type;
      state = pending;
      sandbox_id = "";
      error = "";
      idemp_key = idemp_key;
      created_at = now;
      updated_at = 0;
    })
    if idemp_key == "" then pure (op, false) else do
      access
      modify (λ s. record s { idempotency = put idemp_key op.id s.idempotency })
      pure (op, false)

  -- The operation that the key is mapped to; an error of that second lookup is dropped.
  unfoldable pub existing : String → M (Option Operation)
  unfolding get_op
  existing idemp_key = do
    access
    mapped ← gets (λ s. get idemp_key s.idempotency)
    elim mapped [
      | none ↦ pure none
      | some op_id ↦ do
        found ← attempt (get_op op_id)
        elim found [ none ↦ pure none | some op ↦ pure op ]
    ]

  unfoldable pub start : String → String → M (Operation × Bool)
  unfolding create existing
  start op_type idemp_key = if idemp_key == "" then create op_type idemp_key else do
    found ← existing idemp_key
    elim found [ none ↦ create op_type idemp_key | some op ↦ pure (op, true) ]

  unfoldable pub clear_idempotency : String → M (Unit {0})
  unfolding access
  clear_idempotency key =
      if key == ""
      then pure tt
      else do access; modify (λ s. record s { idempotency = delete key s.idempotency })

  emit : Operation → M (Unit {0})
  emit op = modify (λ s. record s {
    published =
        s.published
        ++ record {
          op_id = op.id;
          op_type = op.op_type;
          state = op.state;
          sandbox_id = op.sandbox_id;
        }
          ∷ [];
  })

  -- The goroutine of Run: what it does before and after the given function.
  unfoldable pub run_begin : String → M (Option Operation)
  unfolding get_op put_op emit
  run_begin op_id = do
    found ← attempt (get_op op_id)
    elim found [
      | none ↦ pure none
      | some none ↦ pure none
      | some (some op) ↦ do
        let op' = record op { state = running }
        attempt (put_op op')
        emit op'
        pure (some op')
    ]

  unfoldable pub run_end : Operation → Result String String → M (Unit {0})
  unfolding put_op emit finish
  run_end op outcome = do
    let op' = finish op outcome
    attempt (put_op op')
    emit op'
    modify (λ s. record s { counted = s.counted ++ (op'.op_type, op'.state) ∷ [] })

  -- Run, with the outcome of the function; the caller does not wait for it.
  unfoldable pub run : String → Result String String → M (Unit {0})
  unfolding run_begin run_end
  run op_id outcome = do
    found ← run_begin op_id
    elim found [ none ↦ pure tt | some op ↦ run_end op outcome ]

  -- The loop over the stranded operations; the first failing write ends it.
  unfoldable pub mark_all : List Operation → M (Unit {0})
  unfolding put_op
  mark_all [] = pure tt
  mark_all (op ∷ ops) = do put_op (record op { state = error; error = interrupted }); mark_all ops

  unfoldable pub recover_interrupted : M ℕ
  unfolding access is_terminal
  recover_interrupted = do
    access
    stranded ← gets (λ s. keep (λ op. not (is_terminal op.state)) (map (λ e. e.1) s.operations))
    mark_all stranded
    pure (length stranded)

  -- A limit that is not positive is given as 0.
  unfoldable pub list : ℕ → M (List Operation)
  unfolding access
  list limit = do
    access
    ops ← gets (λ s. map (λ e. e.1) s.operations)
    pure (take (capped limit) (sort_by newer ops))
