-- ===== src/Sandbox/Manager/Creation.antt =====
-- internal/sandbox/manager.go: the store after Create.
use sbx_swarm_node.Prelude.{
  ℕ, ◌≡◌, refl, sym, ap, ◌∙◌, ◌⊎◌, inl, inr, Bool, true, false, List, [], ◌∷◌, Option, none, some,
  String, map, Map, put, string_eq, nat_eq, Exec, Result, ok, err, ◌>>=◌, Exec-cases, keeps_bind,
  continue,
}
use sbx_swarm_node.Sandbox.Capacity.{Capacity}
use sbx_swarm_node.Sandbox.Record.{Error, db_error, CreateSpec, Record, Backend, PublishedPort}
use sbx_swarm_node.Sandbox.Manager

module _ (B : Backend) (mint : ℕ → String) (clock : ℕ → ℕ) (node_id : String) where
  abbrev pub S : Type 0
  S = Manager.Manager B mint clock node_id

  abbrev pub view : S → Capacity × Map String Record
  view s = (s.capacity, s.records)

  -- A call that changes neither the accounts nor the records.
  abbrev pub IsQuiet : {A : Type 0} → Exec Error S A → Type 0
  IsQuiet m = (s : S) → view (m s).1 ≡ view s

  pub access-IsQuiet : IsQuiet (Manager.access B mint clock node_id)
  unfolding Manager.access
  access-IsQuiet s = go s.faults refl
    where
      go :
          (fs : List Bool) → s.faults ≡ fs → view (Manager.access B mint clock node_id s).1 ≡ view s
      go [] h = rw h refl
      go (f ∷ fs) h = rw h refl

  pub list_records-IsQuiet : IsQuiet (Manager.list_records B mint clock node_id)
  unfolding Manager.list_records
  list_records-IsQuiet =
      keeps_bind view (Manager.access B mint clock node_id)
        (λ _ s. (ok (map (λ e. e.1) s.records), s)) access-IsQuiet (λ _ s. refl)

  -- A listing that succeeds returns the records of the store.
  pub list_records-known :
      (s : S)
      → ((Manager.list_records B mint clock node_id s).0 ≡ ok (map (λ e. e.1) s.records))
        ⊎ ((e : Error) × ((Manager.list_records B mint clock node_id s).0 ≡ err e))
  unfolding Manager.list_records Manager.access
  list_records-known s = go s.faults refl
    where
      go :
          (fs : List Bool)
          → s.faults ≡ fs
          → ((Manager.list_records B mint clock node_id s).0 ≡ ok (map (λ e. e.1) s.records))
            ⊎ ((e : Error) × ((Manager.list_records B mint clock node_id s).0 ≡ err e))
      go [] h = inl (rw h refl)
      go (true ∷ fs) h = inr (db_error, rw h refl)
      go (false ∷ fs) h = inl (rw h refl)

  -- A creation either stores the record that it returns, under its id, or it stores nothing; the
  -- accounts are left alone.
  abbrev pub Stores : S → Result Error Record × S → Type 0
  Stores s₀ (ok r, s) = view s ≡ (s₀.capacity, put r.id r s₀.records)
  Stores s₀ (err _, s) = view s ≡ view s₀

  save-Stores : (r : Record) (s : S) → Stores s (Manager.save B mint clock node_id r s)
  unfolding Manager.save Manager.read_clock Manager.access
  save-Stores r s = go s.faults refl
    where
      go : (fs : List Bool) → s.faults ≡ fs → Stores s (Manager.save B mint clock node_id r s)
      go [] h = rw h refl
      go (true ∷ fs) h = rw h refl
      go (false ∷ fs) h = rw h refl

  bind-Stores :
      {A : Type 0} (m : Exec Error S A) (k : A → Exec Error S Record)
      → IsQuiet m
      → ((a : A) (s : S) → Stores s (k a s))
      → (s : S) → Stores s ((m >>= k) s)
  bind-Stores m k q h s = elim (Exec-cases m s) [
    | inl (a, s', e) ↦ rw e (go s' (k a s') (h a s') (ap (λ p. view p.1) (sym e) ∙ q s))
    | inr (x, s', e) ↦ rw e (ap (λ p. view p.1) (sym e) ∙ q s)
  ]
    where
      go : (s' : S) (p : Result Error Record × S) → Stores s' p → view s' ≡ view s → Stores s p
      go s' (ok r, t) g e = rw (← ap (λ v. v.0) e, ← ap (λ v. v.1) e) g
      go s' (err _, t) g e = g ∙ e

  -- What follows the write changes nothing of it.
  Passes : (Record → Exec Error S Record) → Type 0
  Passes k = (r : Record) (s : S) → ((k r s).0 ≡ ok r) × (view (k r s).1 ≡ view s)

  then-Stores :
      (m : Exec Error S Record) (k : Record → Exec Error S Record)
      → Passes k
      → (s : S) → Stores s (m s)
      → Stores s ((m >>= k) s)
  unfolding Passes
  then-Stores m k h s g = go (m s) g
    where
      tail :
          (r : Record) (t : S) (p : Result Error Record × S)
          → p.0 ≡ ok r
          → view p.1 ≡ view t
          → Stores s (ok r, t)
          → Stores s p
      tail r t (ok q, u) e v g = let same : q ≡ r = cc in rw same (v ∙ g)
      tail r t (err _, u) e v g = cc

      go : (p : Result Error Record × S) → Stores s p → Stores s (continue p.0 k p.1)
      go (ok r, t) g = tail r t (k r t) (h r t).0 (h r t).1 g
      go (err x, t) g = g

  emit-IsQuiet :
      (event_type id : String) → IsQuiet (Manager.emit B mint clock node_id event_type id)
  unfolding Manager.emit
  emit-IsQuiet event_type id s = refl

  note_owned-ok :
      (o : Option (List Record)) (s : S)
      → ((Manager.note_owned B mint clock node_id o s).0 ≡ ok tt)
        × (view (Manager.note_owned B mint clock node_id o s).1 ≡ view s)
  unfolding Manager.note_owned
  note_owned-ok none s = (refl, refl)
  note_owned-ok (some recs) s = (refl, refl)

  pub notify-ok :
      (s : S)
      → ((Manager.notify_owned_changed B mint clock node_id s).0 ≡ ok tt)
        × (view (Manager.notify_owned_changed B mint clock node_id s).1 ≡ view s)
  unfolding Manager.notify_owned_changed
  notify-ok s =
      let (done, same) = note_owned-ok _ (Manager.list_records B mint clock node_id s).1 in
      (done, same ∙ list_records-IsQuiet s)

  or_no_ports-IsQuiet :
      (o : Option (List PublishedPort)) → IsQuiet (Manager.or_no_ports B mint clock node_id o)
  unfolding Manager.or_no_ports
  or_no_ports-IsQuiet none s = refl
  or_no_ports-IsQuiet (some ports) s = refl

  kit_ports-IsQuiet : (spec : CreateSpec) → IsQuiet (Manager.kit_ports B mint clock node_id spec)
  unfolding Manager.kit_ports Manager.ports_of_kits Manager.call
  kit_ports-IsQuiet spec = go spec.kits
    where
      go :
          (kits : List String) → IsQuiet (Manager.ports_of_kits B mint clock node_id spec.name kits)
      go [] s = refl
      go (_ ∷ _) s = or_no_ports-IsQuiet _ _

  announce-Passes : Passes (Manager.announce B mint clock node_id)
  unfolding Passes Manager.emit Manager.announce
  announce-Passes r s =
      let (done, same) = notify-ok (Manager.emit B mint clock node_id "sandbox.created" r.id s).1 in
      rw done (refl, same)

  -- Create leaves the capacity accounts alone. If it returns a record, the store holds that record
  -- under its id and is otherwise as before; if it fails, the store is as before.
  pub create-Stores :
      (spec : CreateSpec) (s : S) → Stores s (Manager.create B mint clock node_id spec s)
  unfolding Manager.create Manager.new_sandbox_id Manager.call_create Manager.read_clock
  create-Stores spec =
      bind-Stores (Manager.new_sandbox_id B mint clock node_id) _ (λ s. refl)
        (λ id.
          let named = record spec { name = id } in
          bind-Stores (Manager.call_create B mint clock node_id named) _ (λ s. refl)
            (λ b.
              bind-Stores (Manager.read_clock B mint clock node_id) _ (λ s. refl)
                (λ now.
                  bind-Stores (Manager.kit_ports B mint clock node_id named) _
                    (kit_ports-IsQuiet named)
                    (λ ports s.
                      let r = Manager.new_record B mint clock node_id named b.status ports now in
                      then-Stores (Manager.save B mint clock node_id r)
                        (Manager.announce B mint clock node_id) announce-Passes s
                        (save-Stores r s)))))
