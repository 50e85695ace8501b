-- ===== src/Provision/Local/Cloning.antt =====
-- internal/apiserver/provision_git.go: what every outcome of a creation leaves.
use sbx_swarm_node.Prelude.{
  ◌≡◌, refl, ap, ◌∙◌, Bool, true, false, not, List, [], ◌∷◌, Option, none, some, ◌⊎◌, String, codes,
  contains, keep, length, eqb, string_eq, text_eq, ◌==◌, ==_iff, ==_refl, if◌then◌else◌, Result, ok,
  err, Wait, waiting, arith, Bool-cases, inl, inr,
}
use sbx_swarm_node.Sandbox.Record.{CreateSpec, ReviewRef, WorkspaceMount, Record}
use sbx_swarm_node.Sandbox.Record as Sandboxes
use sbx_swarm_node.Sandbox.Manager.{admit_and_create}
use sbx_swarm_node.Git.Workspace as Git
use sbx_swarm_node.Git.Workspace.Locks.{
  Frees, Hands, succeeded, ensure_base-Frees, fetch_ref-Frees, pre_lock-Hands,
}
use sbx_swarm_node.Provision.Local.{
  ensure_base_failed, pre_failed, fetch_head_failed, from_manager, ReviewHead, Setting, State, Mgr,
  E, last_git, set_lock, git_result, git_call, resolved, fetch_head, review_branch, with_review,
  admitted, admit, unlocking, create_locked, clone_into, clone_last, plain_last, provision_local,
}

-- The call does not wait, and what it returns and leaves is as told.
abbrev pub Ends : {X : Type 0} → (X → Type 0) → Option X → Type 0
Ends P none = ⊥
Ends P (some x) = P x

Ends-then_do :
    {E S A B : Type 0} (P : Result E A × S → Type 0) (Q : Result E B × S → Type 0)
    (k : A → Wait E S B) (o : Option (Result E A × S))
    → Ends P o
    → ((a : A) (s : S) → P (ok a, s) → Ends Q (k a s))
    → ((e : E) (s : S) → P (err e, s) → Q (err e, s))
    → Ends Q (waiting k o)
Ends-then_do P Q k none h f g = h
Ends-then_do P Q k (some (ok a, s)) h f g = f a s h
Ends-then_do P Q k (some (err e, s)) h f g = g e s h

keep-absent :
    (name : String) (held : List String)
    → contains name held ≡ false
    → keep (λ n. not (n == name)) held ≡ held
keep-absent name [] h = refl
keep-absent name (n ∷ held) h =
    ground (arith, h, ==_iff n name, ==_iff name n, keep-absent name held)

module _ (S : Setting) where
  abbrev pub is_managed : E S → Bool
  is_managed (from_manager _) = true
  is_managed _ = false

  -- The locks and the manager are as they were, and an error is not the manager's.
  abbrev Kept : {A : Type 0} → State S → Result (E S) A × State S → Type 0
  Kept s (ok _, s') = (s'.held ≡ s.held) × (s'.mgr ≡ s.mgr)
  Kept s (err e, s') = (s'.held ≡ s.held) × (s'.mgr ≡ s.mgr) × (is_managed e ≡ false)

  -- The lock of the workspace is taken in addition if the call succeeded.
  abbrev Taken : String → State S → Result (E S) (Unit {0}) × State S → Type 0
  Taken name s (ok _, s') = (s'.held ≡ name ∷ s.held) × (s'.mgr ≡ s.mgr)
  Taken name s (err e, s') = (s'.held ≡ s.held) × (s'.mgr ≡ s.mgr) × (is_managed e ≡ false)

  git_call-Kept :
      (name : String) (wrap : Git.Error → E S) (op : Git.Op S.H (Unit {0})) (s : State S)
      → ((e : Git.Error) → is_managed (wrap e) ≡ false)
      → Frees S.H op
      → contains name s.held ≡ false
      → Ends (Kept s) (git_call S name wrap op s)
  unfolding git_call git_result set_lock
  git_call-Kept name wrap op s m f free =
      let (r, c, e, u) = f (record { locked = contains name s.held; world = s.world }) free in
      rw e (kept r c u)
    where
      kept :
          (r : Result Git.Error (Unit {0})) (c : Git.Workspace S.H)
          → c.locked ≡ false
          → Ends (Kept s) (git_result S name wrap s (some (r, c)))
      kept (ok _) c u = rw u (keep-absent name s.held free, refl)
      kept (err e) c u = rw u (keep-absent name s.held free, refl, m e)

  git_call-Taken :
      (name : String) (wrap : Git.Error → E S) (op : Git.Op S.H (Unit {0})) (s : State S)
      → ((e : Git.Error) → is_managed (wrap e) ≡ false)
      → Hands S.H op
      → contains name s.held ≡ false
      → Ends (Taken name s) (git_call S name wrap op s)
  unfolding git_call git_result set_lock
  git_call-Taken name wrap op s m f free =
      let (r, c, e, u) = f (record { locked = contains name s.held; world = s.world }) free in
      rw e (taken r c u)
    where
      taken :
          (r : Result Git.Error (Unit {0})) (c : Git.Workspace S.H)
          → c.locked ≡ succeeded S.H r
          → Ends (Taken name s) (git_result S name wrap s (some (r, c)))
      taken (ok _) c u = rw (u, free) (refl, refl)
      taken (err e) c u = rw u (keep-absent name s.held free, refl, m e)

  fetch_head-Kept :
      (name : String) (g : Git.Spec) (h : ReviewHead) (s : State S)
      → contains name s.held ≡ false
      → Ends (Kept s) (fetch_head S name g h s)
  unfolding fetch_head
  fetch_head-Kept name g h s free = elim (Bool-cases (h.fetch_ref == [])) [
    | inl e ↦ rw e (refl, refl)
    | inr e ↦ rw e (
        git_call-Kept name fetch_head_failed
          (Git.fetch_ref S.H S.base64 g h.fetch_ref (codes h.local_branch)) s (λ _. refl)
          (fetch_ref-Frees S.H S.base64 g h.fetch_ref (codes h.local_branch)) free)
  ]

  resolved-Kept :
      (p : Result S.Refusal ReviewHead × S.H.World) (s : State S) → Ends (Kept s) (resolved S p s)
  unfolding resolved
  resolved-Kept (ok h, w) s = (refl, refl)
  resolved-Kept (err e, w) s = (refl, refl, refl)

  Kept-trans :
      {A : Type 0} (s t : State S) (p : Result (E S) A × State S)
      → (t.held ≡ s.held) × (t.mgr ≡ s.mgr)
      → Kept t p
      → Kept s p
  Kept-trans s t (ok a, u) h k = (k.0 ∙ h.0, k.1 ∙ h.1)
  Kept-trans s t (err e, u) h k = (k.0 ∙ h.0, k.1 ∙ h.1, k.2)

  Ends-Kept :
      {A : Type 0} (s t : State S) (o : Option (Result (E S) A × State S))
      → (t.held ≡ s.held) × (t.mgr ≡ s.mgr)
      → Ends (Kept t) o
      → Ends (Kept s) o
  Ends-Kept s t (some p) h k = Kept-trans s t p h k
  Ends-Kept s t none h k = k

  review_branch-Kept :
      (name : String) (g : Git.Spec) (id : String) (s : State S)
      → contains name s.held ≡ false
      → Ends (Kept s) (review_branch S name g id s)
  unfolding review_branch
  review_branch-Kept name g id s free =
      Ends-then_do (Kept s) (Kept s) _ _ (resolved-Kept (S.head g id s.world) s)
        (λ h t k.
          Ends-then_do (Kept s) (Kept s) _ _
            (Ends-Kept s t _ k (fetch_head-Kept name g h t (rw (k.0) free))) (λ _ u k'. k')
            (λ e u k'. k'))
        (λ e t k. k)

  -- The specification that comes back differs in the branch at most.
  abbrev Reviewed : CreateSpec → State S → Result (E S) CreateSpec × State S → Type 0
  Reviewed spec s (ok a, t) =
      (t.held ≡ s.held) × (t.mgr ≡ s.mgr) × (a ≡ record spec { branch = a.branch })
  Reviewed spec s (err e, t) = (t.held ≡ s.held) × (t.mgr ≡ s.mgr) × (is_managed e ≡ false)

  with_review-Reviewed :
      (name : String) (g : Git.Spec) (spec : CreateSpec) (review : Option ReviewRef) (s : State S)
      → contains name s.held ≡ false
      → Ends (Reviewed spec s) (with_review S name g spec review s)
  unfolding with_review
  with_review-Reviewed name g spec none s free = (refl, refl, refl)
  with_review-Reviewed name g spec (some r) s free =
      Ends-then_do (Kept s) (Reviewed spec s) _ _ (review_branch-Kept name g r.id s free)
        (λ _ t k. (k.0, k.1, refl)) (λ e t k. k)

  -- The manager did what it does for the specification, up to the branch; or it was not called, and
  -- the error is not one of its own.
  abbrev pub Managed : CreateSpec → State S → Result (E S) Record × State S → Type 0
  Managed spec s (ok r, t) =
      (b : String) × (admit_and_create S.B S.mint S.clock S.node_id (record spec { branch = b })
          s.mgr
        ≡ (ok r, t.mgr))
  Managed spec s (err e, t) =
      ((is_managed e ≡ false) × (t.mgr ≡ s.mgr))
      ⊎ ((b : String) × (x : Sandboxes.Error) × (e ≡ from_manager x)
          × (admit_and_create S.B S.mint S.clock S.node_id (record spec { branch = b }) s.mgr
              ≡ (err x, t.mgr)))

  abbrev pub Provisioned : CreateSpec → State S → Result (E S) Record × State S → Type 0
  Provisioned spec s p = (p.1.held ≡ s.held) × Managed spec s p

  admitted-Managed :
      (spec : CreateSpec) (b : String) (s : State S) (p : Result Sandboxes.Error Record × Mgr S)
      → admit_and_create S.B S.mint S.clock S.node_id (record spec { branch = b }) s.mgr ≡ p
      → Managed spec s (admitted S s p)
  unfolding admitted
  admitted-Managed spec b s (ok r, m) e = (b, e)
  admitted-Managed spec b s (err x, m) e = inr (b, x, refl, e)

  admitted-held :
      (s : State S) (p : Result Sandboxes.Error Record × Mgr S) → (admitted S s p).1.held ≡ s.held
  unfolding admitted
  admitted-held s (ok r, m) = refl
  admitted-held s (err x, m) = refl

  admit-Provisioned : (spec : CreateSpec) (s : State S) → Ends (Provisioned spec s) (admit S spec s)
  unfolding admit
  admit-Provisioned spec s =
      let p = admit_and_create S.B S.mint S.clock S.node_id spec s.mgr in
      (admitted-held s p, admitted-Managed spec spec.branch s p refl)

  -- Managed reads only the manager of the states.
  Managed-mgr :
      (spec : CreateSpec) (s t u v : State S) (r : Result (E S) Record)
      → t.mgr ≡ s.mgr
      → v.mgr ≡ u.mgr
      → Managed spec t (r, u)
      → Managed spec s (r, v)
  Managed-mgr spec s t u v (ok r) e f (b, h) = (b, rw⁻¹ e (rw f h))
  Managed-mgr spec s t u v (err x) e f (inl (n, h)) = inl (n, f ∙ h ∙ e)
  Managed-mgr spec s t u v (err x) e f (inr (b, y, q, h)) = inr (b, y, q, rw⁻¹ e (rw f h))

  create_locked-Provisioned :
      (name : String) (spec : CreateSpec) (b : String) (s u : State S)
      → contains name s.held ≡ false
      → u.held ≡ name ∷ s.held
      → u.mgr ≡ s.mgr
      → Ends (Provisioned spec s) (create_locked S name (record spec { branch = b }) u)
  unfolding create_locked admit unlocking set_lock
  create_locked-Provisioned name spec b s u free h e =
      let p = admit_and_create S.B S.mint S.clock S.node_id (record spec { branch = b }) u.mgr in
      (
        rw (admitted-held u p, h, ==_refl name) (keep-absent name s.held free),
        Managed-mgr spec s u (admitted S u p).1 _ (admitted S u p).0 e refl
            (admitted-Managed spec b u p refl),
      )

  clone_into-Provisioned :
      (name : String) (g : Git.Spec) (spec : CreateSpec) (s : State S)
      → contains name s.held ≡ false
      → Ends (Provisioned spec s) (clone_into S name g spec s)
  unfolding clone_into
  clone_into-Provisioned name g spec s free =
      Ends-then_do (Kept s) (Provisioned spec s) _ _
        (git_call-Kept name ensure_base_failed (Git.ensure_base S.H S.base64 g) s (λ _. refl)
          (ensure_base-Frees S.H S.base64 g) free)
        (λ _ t k.
          let free_t : contains name t.held ≡ false = rw (k.0) free in
          Ends-then_do (Reviewed spec t) (Provisioned spec s) _ _
            (with_review-Reviewed name g spec spec.review_ref t free_t)
            (λ a u v.
              let free_u : contains name u.held ≡ false = rw (v.0) free_t in
              Ends-then_do (Taken name u) (Provisioned spec s) _ _
                (git_call-Taken name pre_failed (Git.pre_lock S.H S.base64 g (codes a.branch)) u
                  (λ _. refl) (pre_lock-Hands S.H S.base64 g (codes a.branch)) free_u)
                (λ _ w x. rw (v.2) (
                  create_locked-Provisioned name spec a.branch s w free
                    (x.0 ∙ ap (λ h. name ∷ h) (v.0 ∙ k.0)) (x.1 ∙ v.1 ∙ k.1)))
                (λ e w x. (x.0 ∙ v.0 ∙ k.0, inl (x.2, x.1 ∙ v.1 ∙ k.1))))
            (λ e u v. (v.0 ∙ k.0, inl (v.2, v.1 ∙ k.1))))
        (λ e t k. (k.0, inl (k.2, k.1)))

  clone_last-Provisioned :
      (spec : CreateSpec) (gw : Option (String × Git.Spec)) (s : State S)
      → s.held ≡ []
      → Ends (Provisioned spec s) (clone_last S spec gw s)
  unfolding clone_last
  clone_last-Provisioned spec none s free = (refl, inl (refl, refl))
  clone_last-Provisioned spec (some (name, g)) s free =
      elim (Bool-cases (eqb (length spec.workspaces) 1)) [
        | inl e ↦ rw e (clone_into-Provisioned name g spec s (rw free refl))
        | inr e ↦ rw e (refl, inl (refl, refl))
      ]

  plain_last-Provisioned :
      (spec : CreateSpec) (gw : Option (String × Git.Spec)) (s : State S)
      → Ends (Provisioned spec s) (plain_last S spec gw s)
  unfolding plain_last
  plain_last-Provisioned spec none s = admit-Provisioned spec s
  plain_last-Provisioned spec (some _) s = (refl, inl (refl, refl))

  -- A provisioning that finds no workspace locked returns, with no workspace locked, on every outcome.
  -- Either the manager has admitted and created the sandbox, or refused or failed to, as it does for
  -- the same specification up to the branch, and what is returned is its answer; or the error is
  -- none of the manager's - a refusal of the arguments, of the review provider or of a git step - and
  -- the manager was not touched.
  pub provision_local-Provisioned :
      (spec : CreateSpec) (s : State S)
      → s.held ≡ []
      → Ends (Provisioned spec s) (provision_local S spec s)
  unfolding provision_local
  provision_local-Provisioned spec s free = go spec.clone
    where
      go :
          (b : Bool)
          → Ends (Provisioned spec s) (
              (if b
                  then clone_last S spec (last_git S spec.workspaces)
                  else plain_last S spec (last_git S spec.workspaces))
                s)
      go true = clone_last-Provisioned spec (last_git S spec.workspaces) s free
      go false = plain_last-Provisioned spec (last_git S spec.workspaces) s
