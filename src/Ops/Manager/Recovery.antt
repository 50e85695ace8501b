-- ===== src/Ops/Manager/Recovery.antt =====
-- internal/ops/ops.go: how operations end, by Run or by RecoverInterrupted.
use sbx_swarm_node.Prelude.{
  ℕ, ◌+◌, ◌≡◌, refl, Bool, true, false, not, List, [], ◌∷◌, Option, none, some, String, arith,
  if◌then◌else◌, Bool-cases, inl, inr, Map, get, put, get-put, get-put_self, ◌==◌, ==_iff, All,
  IsMap, string_eq, Result, ok, err, ◌++◌, length, keep, map, subst, sym, ap, ◌∙◌,
}
use mathlib.Core.Option
use mathlib.Core.List.{append_assoc}
use sbx_swarm_node.Ops.Manager.{
  State, running, error, Operation, Ops, Notice, access, is_terminal, finish, mark_all, run,
  recover_interrupted, interrupted,
}

unfoldable pub notice : Operation → State → String → Notice
notice op state sandbox_id = record {
  op_id = op.id;
  op_type = op.op_type;
  state = state;
  sandbox_id = sandbox_id;
}

-- What a finished run leaves behind.
pub record Ended (clock : ℕ → ℕ) (op : Operation) (out : Result String String) (s s' : Ops)
    : Type 0 where
  pub stored :
      get op.id s'.operations ≡ some (record (finish op out) { updated_at = clock (s.ticks + 1) })
  pub final : is_terminal (finish op out).state ≡ true
  pub published :
      s'.published
      ≡ s.published
        ++ notice op running op.sandbox_id
          ∷ notice op (finish op out).state (finish op out).sandbox_id
          ∷ []
  pub counted : s'.counted ≡ s.counted ++ (op.op_type, (finish op out).state) ∷ []
  pub idempotency : s'.idempotency ≡ s.idempotency

module _ (mint : ℕ → String) (clock : ℕ → ℕ) where
  -- Run, on a stored operation with a database that does not fail, whatever the function returns:
  -- the operation is stored in a final state with the outcome, it was published as running and then
  -- in that state, and it is counted once, in that state.
  pub run-Ended :
      (op : Operation) (s : Ops) (out : Result String String)
      → get op.id s.operations ≡ some op
      → s.faults ≡ []
      → Ended clock op out s (run mint clock op.id out s).1
  unfolding run access is_terminal notice finish
  run-Ended op s (ok sandbox_id) g f =
      rw (f, g)
        (record {
          stored = get-put_self op.id _ _;
          final = refl;
          published = append_assoc s.published _ _;
          counted = refl;
          idempotency = refl;
        })
  run-Ended op s (err message) g f =
      rw (f, g)
        (record {
          stored = get-put_self op.id _ _;
          final = refl;
          published = append_assoc s.published _ _;
          counted = refl;
          idempotency = refl;
        })

-- What a restart makes of a stored operation, its update time left aside.
unfoldable pub swept : Operation → Operation
swept op =
    if is_terminal op.state
    then record op { updated_at = 0 }
    else record op { state = error; error = interrupted; updated_at = 0 }

unfoldable pub timeless : Operation → Operation
timeless op = record op { updated_at = 0 }

-- What the loop makes of an entry that it finds under key `j`.
marked : String → List Operation → Option Operation → Option Operation
marked j [] o = o
marked j (op ∷ ops) o = marked j ops (
    if op.id == j
    then some (record op { state = error; error = interrupted; updated_at = 0 })
    else o)

unfoldable pub stranded : Map String Operation → List Operation
stranded m = keep (λ op. not (is_terminal op.state)) (map (λ e. e.1) m)

-- Every operation is stored under its own id, once.
pub record IsStored (s : Ops) : Type 0 where
  pub by_id : All (λ e. e.1.id ≡ e.0) s.operations
  pub is_map : IsMap s.operations

marked-absent :
    (j : String) (m : Map String Operation) (o : Option Operation)
    → All (λ e. e.1.id ≡ e.0) m
    → All (λ e. (e.0 == j) ≡ false) m
    → marked j (stranded m) o ≡ o
unfolding marked stranded
marked-absent j [] o h a = refl
marked-absent j ((k, op) ∷ m) o h a = elim (Bool-cases (is_terminal op.state)) [
  | inl t ↦ rw t (marked-absent j m o h.1 a.1)
  | inr t ↦ rw (t, h.0, a.0) (marked-absent j m o h.1 a.1)
]

marked-stranded :
    (j : String) (m : Map String Operation)
    → All (λ e. e.1.id ≡ e.0) m
    → IsMap m
    → marked j (stranded m) (Option.map timeless (get j m)) ≡ Option.map swept (get j m)
unfolding marked stranded get swept timeless
marked-stranded j [] h u = refl
marked-stranded j ((k, op) ∷ m) h u = elim (Bool-cases (k == j)) [
  | inl e ↦
      let absent : All (λ x. (x.0 == j) ≡ false) m =
        subst (λ i. All (λ x. (x.0 == i) ≡ false) m) ((==_iff k j).0 e) u.0 in
      elim (Bool-cases (is_terminal op.state)) [
        | inl t ↦ rw (e, t) (marked-absent j m (some (timeless op)) h.1 absent)
        | inr t ↦ rw (e, t, h.0, e) (marked-absent j m _ h.1 absent)
      ]
  | inr e ↦ elim (Bool-cases (is_terminal op.state)) [
    | inl t ↦ rw (e, t) (marked-stranded j m h.1 u.1)
    | inr t ↦ rw (e, t, h.0, e) (marked-stranded j m h.1 u.1)
  ]
]

unfoldable pub is_settled : Option Operation → Bool
is_settled none = true
is_settled (some op) = is_terminal op.state

is_settled-swept : (o : Option Operation) → is_settled (Option.map swept o) ≡ true
unfolding is_settled swept is_terminal
is_settled-swept o = ground arith

is_settled-timeless : (o : Option Operation) → is_settled (Option.map timeless o) ≡ is_settled o
unfolding is_settled timeless
is_settled-timeless o = ground arith

module _ (mint : ℕ → String) (clock : ℕ → ℕ) where
  marked-map :
      (j : String) (op : Operation) (t : ℕ) (m : Map String Operation)
      → Option.map timeless
          (get j (put op.id (record op { state = error; error = interrupted; updated_at = t }) m))
        ≡ (if op.id == j
            then some (record op { state = error; error = interrupted; updated_at = 0 })
            else Option.map timeless (get j m))
  unfolding timeless
  marked-map j op t m = rw get-put (ground arith)

  mark_all-marked :
      (ops : List Operation) (s : Ops)
      → s.faults ≡ []
      → (s' : Ops) × (mark_all mint clock ops s ≡ (ok tt, s'))
        × (s'.faults ≡ [])
        × ((j : String)
            → Option.map timeless (get j s'.operations)
              ≡ marked j ops (Option.map timeless (get j s.operations)))
  unfolding mark_all access marked
  mark_all-marked [] s f = (s, refl, f, λ j. refl)
  mark_all-marked (op ∷ ops) s f =
      let stamped = record op { state = error; error = interrupted; updated_at = clock s.ticks } in
      let next = record s { ticks = s.ticks + 1; operations = put op.id stamped s.operations } in
      let (s', run, f', at) = mark_all-marked ops next f in
      (
        s',
        rw f run,
        f',
        λ j. at j ∙ ap (marked j ops) (marked-map j op (clock s.ticks) s.operations),
      )

  recover-lem :
      (s : Ops)
      → s.faults ≡ []
      → (s' : Ops) × (recover_interrupted mint clock s ≡ (ok (length (stranded s.operations)), s'))
        × ((j : String)
            → Option.map timeless (get j s'.operations)
              ≡ marked j (stranded s.operations) (Option.map timeless (get j s.operations)))
  unfolding recover_interrupted access stranded
  recover-lem s f =
      let (s', run, _, at) =
        mark_all-marked (stranded s.operations) (record s { faults = [] }) refl in
      (s', rw f (rw run), at)

  -- RecoverInterrupted on a well-formed store with a database that does not fail returns the number
  -- of operations that were neither done nor failed. After it none of those is left in flight: each
  -- is an error with the interruption message; and every other operation is, up to its update time,
  -- as it was.
  pub recover_interrupted-swept :
      (s : Ops)
      → IsStored s
      → s.faults ≡ []
      → (s' : Ops) × (recover_interrupted mint clock s ≡ (ok (length (stranded s.operations)), s'))
        × ((j : String)
            → (is_settled (get j s'.operations) ≡ true)
              × (Option.map timeless (get j s'.operations) ≡ Option.map swept (get j s.operations)))
  recover_interrupted-swept s v f =
      let (s', run, at) = recover-lem s f in
      let same = λ (j : String). at j ∙ marked-stranded j s.operations v.by_id v.is_map in
      (
        s',
        run,
        λ j. (
          sym (is_settled-timeless (get j s'.operations))
              ∙ ap is_settled (same j)
              ∙ is_settled-swept (get j s.operations),
          same j,
        ),
      )
