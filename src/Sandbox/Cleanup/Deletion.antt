-- ===== src/Sandbox/Cleanup/Deletion.antt =====
-- internal/sandbox/manager.go: the store after Delete.
use sbx_swarm_node.Prelude.{
  ℕ, ◌≡◌, refl, sym, ap, ◌∙◌, ◌⊎◌, inl, inr, Bool, true, false, List, [], ◌∷◌, Option, none, some,
  String, string_eq, arith, Bool-cases, get, delete, delete-missing, Exec, Result, ok, err, attempt,
  ◌>>=◌, Exec-cases, keeps_bind, Map,
}
use sbx_swarm_node.Sandbox.Capacity.{Capacity}
use sbx_swarm_node.Sandbox.Record.{Error, Record, Backend}
use sbx_swarm_node.Sandbox.Manager
use sbx_swarm_node.Sandbox.Manager.Creation.{S, view, IsQuiet, access-IsQuiet, notify-ok}
use sbx_swarm_node.Sandbox.Cleanup.{
  is_not_found, remove_result, remove_sandbox, remove_secrets, remove_listed, remove_custom_secrets,
  forget, delete_known, delete_found, delete_sandbox,
}

module _ (B : Backend) (mint : ℕ → String) (clock : ℕ → ℕ) (node_id : String) where
  abbrev S' : Type 0
  S' = S B mint clock node_id

  abbrev view' : S' → Capacity × Map String Record
  view' = view B mint clock node_id

  -- What a finished Delete has done: all but the one record stays, or, on an error, everything.
  abbrev pub Deletes : S' → String → Result Error (Unit {0}) × S' → Type 0
  Deletes s id (ok _, s') = (s'.capacity ≡ s.capacity) × (s'.records ≡ delete id s.records)
  Deletes s id (err _, s') = (s'.capacity ≡ s.capacity) × (s'.records ≡ s.records)

  after-Deletes :
      (id : String) (s s' : S') (p : Result Error (Unit {0}) × S')
      → Deletes s' id p
      → view' s' ≡ view' s
      → Deletes s id p
  after-Deletes id s s' (ok _, t) g e = rw (← ap (λ v. v.0) e, ← ap (λ v. v.1) e) g
  after-Deletes id s s' (err _, t) g e = (g.0 ∙ ap (λ v. v.0) e, g.1 ∙ ap (λ v. v.1) e)

  bind-Deletes :
      {A : Type 0} (id : String) (m : Exec Error S' A) (k : A → Exec Error S' (Unit {0}))
      → IsQuiet B mint clock node_id m
      → ((a : A) (s : S') → Deletes s id (k a s))
      → (s : S') → Deletes s id ((m >>= k) s)
  bind-Deletes id m k q h s = elim (Exec-cases m s) [
    | inl (a, s', e) ↦
        rw e (after-Deletes id s s' (k a s') (h a s') (ap (λ p. view' p.1) (sym e) ∙ q s))
    | inr (x, s', e) ↦
        let same = ap (λ p. view' p.1) (sym e) ∙ q s in
        rw e (ap (λ v. v.0) same, ap (λ v. v.1) same)
  ]

  remove_sandbox-IsQuiet :
      (name : String) → IsQuiet B mint clock node_id (remove_sandbox B mint clock node_id name)
  unfolding remove_sandbox
  remove_sandbox-IsQuiet name s = refl

  remove_secrets-IsQuiet :
      (scope : String) (hosts : List String)
      → IsQuiet B mint clock node_id (remove_secrets B mint clock node_id scope hosts)
  unfolding remove_secrets Manager.call
  remove_secrets-IsQuiet scope [] s = refl
  remove_secrets-IsQuiet scope (host ∷ hosts) s = remove_secrets-IsQuiet scope hosts _

  remove_listed-IsQuiet :
      (scope : String) (o : Option (List String))
      → IsQuiet B mint clock node_id (remove_listed B mint clock node_id scope o)
  unfolding remove_listed
  remove_listed-IsQuiet scope none s = refl
  remove_listed-IsQuiet scope (some hosts) s = remove_secrets-IsQuiet scope hosts s

  remove_custom_secrets-IsQuiet :
      (scope : String)
      → IsQuiet B mint clock node_id (remove_custom_secrets B mint clock node_id scope)
  unfolding remove_custom_secrets Manager.call
  remove_custom_secrets-IsQuiet scope =
      keeps_bind view' (attempt (Manager.call B mint clock node_id (B.secret_hosts scope)))
        (remove_listed B mint clock node_id scope) (λ s. refl) (remove_listed-IsQuiet scope)

  forget-Deletes : (id : String) (s : S') → Deletes s id (forget B mint clock node_id id s)
  unfolding forget Manager.emit
  forget-Deletes id s =
      let t =
        (Manager.emit B mint clock node_id "sandbox.deleted" id
          (record s { records = delete id s.records })).1 in
      let (done, same) = notify-ok B mint clock node_id t in
      rw done (ap (λ v. v.0) same, ap (λ v. v.1) same)

  delete_known-Deletes :
      (id : String) (r : Record) (s : S') → Deletes s id (delete_known B mint clock node_id id r s)
  unfolding delete_known
  delete_known-Deletes id r =
      bind-Deletes id (remove_sandbox B mint clock node_id r.backend_name) _
        (remove_sandbox-IsQuiet r.backend_name)
        (λ _.
          bind-Deletes id (remove_custom_secrets B mint clock node_id r.backend_name) _
            (remove_custom_secrets-IsQuiet r.backend_name)
            (λ _.
              bind-Deletes id (Manager.access B mint clock node_id) _
                (access-IsQuiet B mint clock node_id) (λ _. forget-Deletes id)))

  -- How a lookup in the store can end.
  abbrev Looked : S' → String → Result Error Record × S' → Type 0
  Looked s id (ok _, t) = view' t ≡ view' s
  Looked s id (err e, t) =
      (view' t ≡ view' s) × ((get id s.records ≡ none) ⊎ (is_not_found e ≡ false))

  get_record-Looked :
      (id : String) (s : S') → Looked s id (Manager.get_record B mint clock node_id id s)
  unfolding Manager.get_record Manager.access is_not_found
  get_record-Looked id s = go s.faults (get id s.records) refl refl
    where
      go :
          (fs : List Bool) (o : Option Record)
          → s.faults ≡ fs
          → get id s.records ≡ o
          → Looked s id (Manager.get_record B mint clock node_id id s)
      go [] none f g = rw (f, g) (refl, inl g)
      go [] (some r) f g = rw (f, g) refl
      go (true ∷ fs) o f g = rw f (refl, inr refl)
      go (false ∷ fs) none f g = rw (f, g) (refl, inl g)
      go (false ∷ fs) (some r) f g = rw (f, g) refl

  -- A sandbox without a record is removed from the daemon only.
  unrecorded-Deletes :
      (id : String) (s t : S')
      → view' t ≡ view' s
      → get id s.records ≡ none
      → Deletes s id (remove_sandbox B mint clock node_id id t)
  unfolding remove_sandbox
  unrecorded-Deletes id s t e n = go (remove_result B mint clock node_id (B.remove id t.daemon).0)
    where
      go :
          (r : Result Error (Unit {0}))
          → Deletes s id (r, record t { daemon = (B.remove id t.daemon).1 })
      go (ok _) = (ap (λ v. v.0) e, ap (λ v. v.1) e ∙ sym (delete-missing id s.records n))
      go (err _) = (ap (λ v. v.0) e, ap (λ v. v.1) e)

  found-Deletes :
      (id : String) (s : S') (p : Result Error Record × S')
      → Looked s id p
      → Deletes s id (delete_found B mint clock node_id id p.0 p.1)
  unfolding delete_found
  found-Deletes id s (ok r, t) l = after-Deletes id s t _ (delete_known-Deletes id r t) l
  found-Deletes id s (err x, t) (l, w) = elim (Bool-cases (is_not_found x)) [
    | inl n ↦
        rw n (
          unrecorded-Deletes id s t l
            (elim w [ inl k ↦ k | inr k ↦ absurd (ground (arith, k, n)) ]))
    | inr n ↦ rw n (ap (λ v. v.0) l, ap (λ v. v.1) l)
  ]

  -- Delete leaves the capacity accounts alone. If it succeeds, the store holds no record under the
  -- id, and the others are as before, also where there was none; if it fails, the store is as
  -- before.
  pub delete_sandbox-Deletes :
      (id : String) (s : S') → Deletes s id (delete_sandbox B mint clock node_id id s)
  unfolding delete_sandbox
  delete_sandbox-Deletes id s = found-Deletes id s _ (get_record-Looked id s)
