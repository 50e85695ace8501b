-- ===== src/Git/Workspace/Locks.antt =====
-- internal/git/workspace.go: who holds the lock of a workspace, and when a base is left alone.
use sbx_swarm_node.Prelude.{
  ◌≡◌, ◌∙◌, Bool-cases, inl, inr, refl, Bool, true, false, List, [], none, some, Text, text_eq,
  nat_eq, ◌==◌, Result, ok, err,
}
use sbx_swarm_node.Git.Builder.{BuildError, build}
use sbx_swarm_node.Git.Runner.{Host}
use sbx_swarm_node.Git.Workspace.{
  Spec, Error, Workspace, Op, unlock, locking, on_world, deferred, under_lock, pre_ran, pre_built,
  bundle_fetched, create_base, ensure_base, pre_lock, fetch_ref, publish, fetch_from_bundle, vars,
}

module _ (H : Host) where
  abbrev pub W : Type 0
  W = Workspace H

  abbrev pub succeeded : Result Error (Unit {0}) → Bool
  succeeded (ok _) = true
  succeeded (err _) = false

  -- The operation returns, with the lock free, if it finds the lock free.
  abbrev pub Frees : Op H (Unit {0}) → Type 0
  Frees f =
      (c : W)
      → c.locked ≡ false
      → (r : Result Error (Unit {0})) × (c' : W) × (f c ≡ some (r, c')) × (c'.locked ≡ false)

  -- The same, but the lock is held if and only if the operation succeeded.
  abbrev pub Hands : Op H (Unit {0}) → Type 0
  Hands f =
      (c : W)
      → c.locked ≡ false
      → (r : Result Error (Unit {0})) × (c' : W) × (f c ≡ some (r, c')) × (c'.locked ≡ succeeded r)

  -- The operation waits for the lock, and leaves it free.
  pub record IsWhole (f : Op H (Unit {0})) : Type 0 where
    pub waits : (c : W) → c.locked ≡ true → f c ≡ none
    pub frees : Frees f

  -- The operation waits for the lock, and holds it afterwards if and only if it succeeded.
  pub record IsSpanning (f : Op H (Unit {0})) : Type 0 where
    pub waits : (c : W) → c.locked ≡ true → f c ≡ none
    pub hands : Hands f

module _ (H : Host) (base64 : Text → Text) (spec : Spec) where
  locking_waits :
      (rest : W H → Result Error (Unit {0}) × W H) (c : W H)
      → c.locked ≡ true
      → locking H base64 spec rest c ≡ none
  unfolding locking
  locking_waits rest c h = rw h refl

  locking_runs :
      (rest : W H → Result Error (Unit {0}) × W H) (c : W H)
      → c.locked ≡ false
      → locking H base64 spec rest c ≡ some (rest (record c { locked = true }))
  unfolding locking
  locking_runs rest c h = rw h refl

  -- An operation spans the lock if its part behind Lock holds it exactly when it succeeds.
  locking-IsSpanning :
      (rest : W H → Result Error (Unit {0}) × W H)
      → ((c : W H) → c.locked ≡ true → (rest c).1.locked ≡ succeeded H (rest c).0)
      → IsSpanning H (locking H base64 spec rest)
  locking-IsSpanning rest k = record {
    waits = locking_waits rest;
    hands = λ c h.
        let p = rest (record c { locked = true }) in
        (p.0, p.1, locking_runs rest c h, k (record c { locked = true }) refl);
  }

  under_lock-IsWhole :
      (f : H.World → Result Error (Unit {0}) × H.World) → IsWhole H (under_lock H base64 spec f)
  unfolding under_lock deferred unlock
  under_lock-IsWhole f =
      let rest : W H → Result Error (Unit {0}) × W H =
        λ c. deferred H base64 spec (on_world H base64 spec f c) in
      record {
        waits = locking_waits rest;
        frees = λ c h.
            let p = rest (record c { locked = true }) in (p.0, p.1, locking_runs rest c h, refl);
      }

  pre_ran-holds :
      (p : Result Error (Unit {0}) × W H)
      → p.1.locked ≡ true
      → (pre_ran H base64 spec p).1.locked ≡ succeeded H (pre_ran H base64 spec p).0
  unfolding pre_ran unlock
  pre_ran-holds (ok _, c) h = h
  pre_ran-holds (err e, c) h = refl

  pre_built-holds :
      (r : Result BuildError (List (List Text))) (c : W H)
      → c.locked ≡ true
      → (pre_built H base64 spec r c).1.locked ≡ succeeded H (pre_built H base64 spec r c).0
  unfolding pre_built unlock on_world
  pre_built-holds (err e) c h = refl
  pre_built-holds (ok steps) c h = pre_ran-holds _ h

  bundle_fetched-holds :
      (p : Result Error (Unit {0}) × W H)
      → p.1.locked ≡ true
      → (bundle_fetched H base64 spec p).1.locked ≡ succeeded H (bundle_fetched H base64 spec p).0
  unfolding bundle_fetched unlock
  bundle_fetched-holds (ok _, c) h = h
  bundle_fetched-holds (err e, c) h = refl

  pre_lock-IsSpanning : (branch : Text) → IsSpanning H (pre_lock H base64 spec branch)
  unfolding pre_lock
  pre_lock-IsSpanning branch =
      let built = build spec.pre_steps (vars H base64 spec branch []) in
      locking-IsSpanning (pre_built H base64 spec built) (pre_built-holds built)

  bundle-IsSpanning :
      (f : H.World → Result Error (Unit {0}) × H.World)
      → IsSpanning H
          (locking H base64 spec (λ c. bundle_fetched H base64 spec (on_world H base64 spec f c)))
  bundle-IsSpanning f =
      locking-IsSpanning (λ c. bundle_fetched H base64 spec (on_world H base64 spec f c))
        (λ c h. bundle_fetched-holds (on_world H base64 spec f c) (unfold on_world in h))

  fetch_from_bundle-IsSpanning :
      (branch path : Text) → IsSpanning H (fetch_from_bundle H base64 spec branch path)
  unfolding fetch_from_bundle
  fetch_from_bundle-IsSpanning branch path = bundle-IsSpanning _

  ensure_base_locked :
      (c : W H)
      → (spec.remote_url == []) ≡ false
      → ensure_base H base64 spec c ≡ under_lock H base64 spec (create_base H base64 spec) c
  unfolding ensure_base
  ensure_base_locked c h = rw h refl

  pub ensure_base-Frees : Frees H (ensure_base H base64 spec)
  ensure_base-Frees c free = elim (Bool-cases (spec.remote_url == [])) [
    | inl h ↦ (ok tt, c, unfold ensure_base in rw h refl, free)
    | inr h ↦
        let (r, c', e, u) = (under_lock-IsWhole (create_base H base64 spec)).frees c free in
        (r, c', ensure_base_locked c h ∙ e, u)
  ]

  pub fetch_ref-Frees : (ref branch : Text) → Frees H (fetch_ref H base64 spec ref branch)
  unfolding fetch_ref
  fetch_ref-Frees ref branch = (under_lock-IsWhole _).frees

  pub publish-Frees : (branch path : Text) → Frees H (publish H base64 spec branch path)
  unfolding publish
  publish-Frees branch path = (under_lock-IsWhole _).frees

  pub pre_lock-Hands : (branch : Text) → Hands H (pre_lock H base64 spec branch)
  pre_lock-Hands branch = (pre_lock-IsSpanning branch).hands

  pub fetch_from_bundle-Hands :
      (branch path : Text) → Hands H (fetch_from_bundle H base64 spec branch path)
  fetch_from_bundle-Hands branch path = (fetch_from_bundle-IsSpanning branch path).hands
