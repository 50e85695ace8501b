-- ===== src/Sandbox/Manager/Admission.antt =====
-- internal/sandbox/manager.go: the accounts and the store after AdmitAndCreate.
use sbx_swarm_node.Prelude.{
  ℕ, ◌≡◌, refl, ap, ◌∙◌, ◌⊎◌, inl, inr, true, false, List, Option, none, some, String, Bool-cases,
  map, put, string_eq, nat_eq, Result, ok, err, result_option,
}
use sbx_swarm_node.Sandbox.Amounts.{Amounts, ◌⊕◌}
use sbx_swarm_node.Sandbox.Capacity.{fits, reserved, try_reserve}
use sbx_swarm_node.Sandbox.Capacity.Admission.{
  IsValid, commit-reserved, commit_base-reserved, release-reserved,
}
use sbx_swarm_node.Sandbox.Record.{Error, no_capacity, CreateSpec, Record, Backend}
use sbx_swarm_node.Sandbox.Manager
use sbx_swarm_node.Sandbox.Manager.Creation.{
  S, list_records-IsQuiet, list_records-known, Stores, create-Stores,
}

module _ (B : Backend) (mint : ℕ → String) (clock : ℕ → ℕ) (node_id : String) where
  abbrev S' : Type 0
  S' = S B mint clock node_id

  -- What a finished AdmitAndCreate has done to the records and the accounts.
  abbrev pub Accounted : S' → CreateSpec → Result Error Record × S' → Type 0
  Accounted s spec (ok r, s') =
      (fits s.capacity (Manager.cost_of spec) ≡ true)
      × (s'.records ≡ put r.id r s.records)
      × (s'.capacity.limit ≡ s.capacity.limit)
      × (s'.capacity.resv ≡ s.capacity.resv)
      × ((s'.capacity.base ≡ Manager.cost_sum (map (λ e. e.1) s'.records))
          ⊎ (s'.capacity.base ≡ s.capacity.base ⊕ Manager.cost_of spec))
  Accounted s spec (err e, s') =
      ((fits s.capacity (Manager.cost_of spec) ≡ true)
        ⊎ ((fits s.capacity (Manager.cost_of spec) ≡ false) × (e ≡ no_capacity)))
      × (s'.records ≡ s.records)
      × (s'.capacity.limit ≡ s.capacity.limit)
      × (s'.capacity.resv ≡ s.capacity.resv)
      × (s'.capacity.base ≡ s.capacity.base)

  module _ (spec : CreateSpec) (s : S') (v : IsValid s.capacity) where
    abbrev cost : Amounts
    cost = Manager.cost_of spec

    abbrev started : S'
    started = record s { capacity = reserved cost s.capacity }

    accounted :
        (r : Record) (t : S')
        → fits s.capacity cost ≡ true
        → Stores B mint clock node_id started (ok r, t)
        → (o : Option (List Record)) → (o ≡ none) ⊎ (o ≡ some (map (λ e. e.1) t.records))
        → Accounted s spec (ok r, (Manager.account_for B mint clock node_id s.capacity.next o t).1)
    unfolding Manager.account_for Manager.account
    accounted r t f h none k =
        rw (ap (λ w. w.0) h, ap (λ w. w.1) h, commit-reserved s.capacity cost v)
          (f, refl, refl, refl, inr refl)
    accounted r t f h (some recs) (inl k) = cc
    accounted r t f h (some recs) (inr k) =
        let same : recs ≡ map (λ e. e.1) t.records = cc in
        rw (ap (λ w. w.0) h, commit_base-reserved s.capacity (Manager.cost_sum recs) cost v)
          (f, ap (λ w. w.1) h, refl, refl, inl (ap Manager.cost_sum same))

    account_for-ok :
        (o : Option (List Record)) (t : S')
        → (Manager.account_for B mint clock node_id s.capacity.next o t).0 ≡ ok tt
    unfolding Manager.account_for Manager.account
    account_for-ok none t = refl
    account_for-ok (some recs) t = refl

    concluded :
        (p : Result Error Record × S')
        → fits s.capacity cost ≡ true
        → Stores B mint clock node_id started p
        → Accounted s spec (Manager.conclude B mint clock node_id s.capacity.next p.0 p.1)
    unfolding Manager.conclude Manager.settle Manager.account
    concluded (err e, t) f h =
        rw (ap (λ w. w.0) h, ap (λ w. w.1) h, release-reserved s.capacity cost v)
          (inl f, refl, refl, refl, refl)
    concluded (ok r, t) f h =
        let quiet = list_records-IsQuiet B mint clock node_id t in
        rw
          (account_for-ok (result_option (Manager.list_records B mint clock node_id t).0)
            (Manager.list_records B mint clock node_id t).1)
          (accounted r (Manager.list_records B mint clock node_id t).1 f (quiet ∙ h) _
            (elim (list_records-known B mint clock node_id t) [
              | inl e ↦ inr (rw (e, ap (λ w. w.1) quiet) refl)
              | inr (x, e) ↦ inl (rw e refl)
            ]))

  -- AdmitAndCreate, with a tracker whose reservation numbers are all below the next one: the
  -- reservations and the limit are the ones from before, whatever happened. If it returns a record,
  -- the request fitted, the record is stored under its id, and the base is the cost of all
  -- records of the store, or else the old base with the request's cost. If it fails, the records and
  -- the base are as before, and a request that did not fit fails for want of capacity.
  pub admit_and_create-Accounted :
      (spec : CreateSpec) (s : S')
      → IsValid s.capacity
      → Accounted s spec (Manager.admit_and_create B mint clock node_id spec s)
  unfolding Manager.admit_and_create Manager.create_reserved Manager.reserve try_reserve
  admit_and_create-Accounted spec s v = elim (Bool-cases (fits s.capacity (Manager.cost_of spec))) [
    | inl e ↦
        rw e (concluded spec s v _ e (create-Stores B mint clock node_id spec (started spec s v)))
    | inr e ↦ rw e (inr (e, refl), refl, refl, refl, refl)
  ]
