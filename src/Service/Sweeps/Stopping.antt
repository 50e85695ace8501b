-- ===== src/Service/Sweeps/Stopping.antt =====
-- internal/apiserver/sandboxservice.go: what the sweep of a drain does to the sandboxes that it goes
-- through.
use mathlib.Core.Option as Option
use sbx_swarm_node.Prelude.{
  Option, ◌≡◌, refl, sym, ap, ◌∙◌, ℕ, ◌+◌, Bool, true, false, not, ◌&&◌, ◌||◌, List, [], ◌∷◌, none,
  some, String, string_eq, Text, Map, get, put, get-put, ◌==◌, any, keep, length, All, ok, arith,
  Option-cases, inl, inr, if◌then◌else◌,
}
use sbx_swarm_node.Sandbox.Record.{Record}
use sbx_swarm_node.Sandbox.Manager.Healthy.{stop_healthy}
use sbx_swarm_node.Provision.Local.{Setting}
use sbx_swarm_node.Service.State.{Tools, ask, by_mgr}
use sbx_swarm_node.Service.Publishing.{maybe_auto_publish}
use sbx_swarm_node.Service.Publishing.Same.{Svc}
use sbx_swarm_node.Service.Publishing.Quiet.{
  status_of, status_at, IsCalm, keyed-put, maybe_auto_publish-Quiet,
}
use sbx_swarm_node.Service.Sweeps.{stop_call, internal_error, counted, stop_one, drain_each, asked}

abbrev pub is_running : Record → Bool
is_running r = r.status == "running"

-- Whether the sandbox is among the running ones of a list.
abbrev pub runs_in : List Record → String → Bool
runs_in recs id = any (λ r. is_running r && r.id == id) recs

module _ (S : Setting) (T : Tools S) where
  abbrev pub IsThere : String → Svc S T → Type 0
  IsThere id s = (status : String) × (status_at S T id s ≡ some status)

  IsThere-get :
      (id : String) (s : Svc S T) → IsThere id s → (r : Record) × (get id s.mgr.records ≡ some r)
  IsThere-get id s (status, e) = elim (Option-cases (get id s.mgr.records)) [
    | inl missing ↦
        let absent : status_at S T id s ≡ none = ap (Option.map (status_of S T)) missing in cc
    | inr found ↦ found
  ]

  status_at-put :
      (id : String) (q : Record) (m : Map String Record) (j : String)
      → Option.map (status_of S T) (get j (put id q m))
        ≡ (if id == j then some q.status else Option.map (status_of S T) (get j m))
  status_at-put id q m j = ap (Option.map (status_of S T)) (get-put id j q m) ∙ by_key (id == j)
    where
      by_key :
          (b : Bool)
          → Option.map (status_of S T) (if b then some q else get j m)
            ≡ (if b then some q.status else Option.map (status_of S T) (get j m))
      by_key true = refl
      by_key false = refl

  IsThere-kept :
      (j : String) (b : Bool) (s t : Svc S T)
      → status_at S T j t ≡ (if b then some "stopped" else status_at S T j s)
      → IsThere j s
      → IsThere j t
  IsThere-kept j true s t e there = ("stopped", e)
  IsThere-kept j false s t e (status, h) = (status, e ∙ h)

  All-IsThere :
      (recs : List Record) (s t : Svc S T)
      → ((j : String) → IsThere j s → IsThere j t)
      → All (λ r. IsThere r.id s) recs
      → All (λ r. IsThere r.id t) recs
  All-IsThere [] s t h there = tt
  All-IsThere (r ∷ recs) s t h (now, later) = (h r.id now, All-IsThere recs s t h later)

  -- What a sweep that is not cancelled comes to, for the sandboxes that it goes through.
  abbrev pub Sweeps : List Record → ℕ → Svc S T → Option (ℕ × Svc S T) → Type 0
  Sweeps recs n s o =
      (t : Svc S T) × (o ≡ some (n + length (keep is_running recs), t))
      × IsCalm S T t
      × ((j : String)
          → status_at S T j t ≡ (if runs_in recs j then some "stopped" else status_at S T j s))

  joined :
      {A : Type 0} (b c : Bool) (x y : A)
      → (if c then x else (if b then x else y)) ≡ (if b || c then x else y)
  joined true true x y = refl
  joined true false x y = refl
  joined false c x y = refl

  -- The sandbox at the front is stopped if it runs, and the rest is swept.
  abbrev SweepsFront : Bool → Record → List Record → ℕ → Svc S T → Option (ℕ × Svc S T) → Type 0
  SweepsFront b r recs n s o =
      (t : Svc S T) × (o
        ≡ some (n + length (if b then r ∷ keep is_running recs else keep is_running recs), t))
      × IsCalm S T t
      × ((j : String)
          → status_at S T j t
            ≡ (if (b && r.id == j) || runs_in recs j then some "stopped" else status_at S T j s))

  at_front :
      (b : Bool) (r : Record) (recs : List Record) (n : ℕ) (s : Svc S T)
      (skip one : Option (ℕ × Svc S T))
      → Sweeps recs n s skip
      → SweepsFront true r recs n s one
      → SweepsFront b r recs n s (if not b then skip else one)
  at_front true r recs n s skip one h k = k
  at_front false r recs n s skip one h k = h

module _ (S : Setting) (T : Tools S) (dir actor : Text)
    (stops : (name : String) (d : S.B.Daemon) → (S.B.stop name d).0 ≡ ok tt) where
  -- A stop of a sandbox that has a record sets its status, and no other.
  stop_call-Calm :
      (id : String) (s : Svc S T)
      → IsCalm S T s
      → IsThere S T id s
      → (t : Svc S T) × (stop_call S T dir id s ≡ (ok tt, t))
        × IsCalm S T t
        × ((j : String)
            → status_at S T j t ≡ (if id == j then some "stopped" else status_at S T j s))
  unfolding stop_call ask
  stop_call-Calm id s h there =
      let (r, found) = IsThere-get S T id s there in
      let (m, e, healthy, records) =
        stop_healthy S.B S.mint S.clock S.node_id id r s.mgr h.healthy found
          (stops r.backend_name s.mgr.daemon) in
      (
        record s { mgr = m },
        ap (by_mgr S T internal_error s) e,
        record {
          healthy = healthy;
          free = h.free;
          keyed =
              λ j q at. keyed-put S T _ s.mgr.records h.keyed j q (ap (get j) (sym records) ∙ at);
        },
        λ j.
            ap (λ rs. Option.map (status_of S T) (get j rs)) records
            ∙ status_at-put S T r.id _ s.mgr.records j
            ∙ ap (λ k. if k == j then some "stopped" else status_at S T j s) (h.keyed id r found),
      )

  stop_front :
      (r : Record) (recs : List Record) (n : ℕ) (s : Svc S T)
      (next : ℕ → Svc S T → Option (ℕ × Svc S T))
      → IsCalm S T s
      → IsThere S T r.id s
      → All (λ q. IsThere S T q.id s) recs
      → ((t : Svc S T)
          → IsCalm S T t
          → All (λ q. IsThere S T q.id t) recs
          → Sweeps S T recs (n + 1) t (next (n + 1) t))
      → SweepsFront S T true r recs n s
          (stop_one S T dir r.id n (maybe_auto_publish S T dir r.id actor s) next)
  unfolding stop_one counted
  stop_front r recs n s next h now later ih =
      let (s1, published, (calm, same)) = maybe_auto_publish-Quiet S T dir r.id actor s h in
      let (t1, stopped, calm', status) = stop_call-Calm r.id s1 calm (now.0, same r.id ∙ now.1) in
      let kept : (j : String) → IsThere S T j s → IsThere S T j t1 =
        λ j there. IsThere-kept S T j (r.id == j) s1 t1 (status j) (there.0, same j ∙ there.1) in
      let (t, swept, calm'', final) = ih t1 calm' (All-IsThere S T recs s t1 kept later) in
      (
        t,
        ap (λ o. stop_one S T dir r.id n o next) published
            ∙ ap (λ p. next (counted S T dir n p.0) p.1) stopped
            ∙ swept
            ∙ ap (λ k. some (k, t)) (omega arith),
        calm'',
        λ j.
            final j
            ∙ ap (λ x. if runs_in recs j then some "stopped" else x)
                (status j ∙ ap (λ x. if r.id == j then some "stopped" else x) (same j))
            ∙ joined S T (r.id == j) (runs_in recs j) (some "stopped") (status_at S T j s),
      )

  pub drain_each-Sweeps :
      (recs : List Record) (n : ℕ) (s : Svc S T)
      → IsCalm S T s
      → All (λ r. IsThere S T r.id s) recs
      → Sweeps S T recs n s (drain_each S T dir actor [] recs n s)
  unfolding drain_each asked
  drain_each-Sweeps [] n s h there = (s, ap (λ k. some (k, s)) (omega arith), h, λ j. refl)
  drain_each-Sweeps (r ∷ recs) n s h (now, later) =
      at_front S T (is_running r) r recs n s _ _ (drain_each-Sweeps recs n s h later) (
        stop_front r recs n s (drain_each S T dir actor [] recs) h now later
          (λ t calm there. drain_each-Sweeps recs (n + 1) t calm there))
