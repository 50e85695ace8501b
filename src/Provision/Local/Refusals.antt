-- ===== src/Provision/Local/Refusals.antt =====
-- internal/apiserver/provision_git.go: which requests are refused.
use sbx_swarm_node.Prelude.{
  ◌≡◌, refl, sym, ◌∙◌, Bool, true, false, not, List, [], ◌∷◌, Option, none, some, String, all, get,
  length, eqb, string_eq, text_eq, if◌then◌else◌, err, arith, Option-cases, inl, inr,
}
use sbx_swarm_node.Sandbox.Record.{CreateSpec, WorkspaceMount}
use sbx_swarm_node.Git.Workspace as Git
use sbx_swarm_node.Provision.Local.{
  clone_needs_git, git_needs_clone, Setting, State, last_git, clone_last, plain_last,
  provision_local,
}

module _ (S : Setting) where
  abbrev pub is_git : WorkspaceMount → Bool
  is_git w = is_some (get w.name S.git_ws)
    where
      is_some : Option Git.Spec → Bool
      is_some none = false
      is_some (some _) = true

  -- Exactly one workspace, and git-backed, for a clone; no git-backed workspace otherwise.
  abbrev pub one_git : List WorkspaceMount → Bool
  one_git [] = false
  one_git (w ∷ []) = is_git w
  one_git (_ ∷ _ ∷ _) = false

  abbrev pub is_allowed : CreateSpec → Bool
  is_allowed spec =
      if spec.clone then one_git spec.workspaces else all (λ w. not (is_git w)) spec.workspaces

  last_git-any :
      (ws : List WorkspaceMount)
      → all (λ w. not (is_git w)) ws ≡ false
      → (g : String × Git.Spec) × (last_git S ws ≡ some g)
  unfolding last_git
  last_git-any [] h = ground (arith, h)
  last_git-any (w ∷ ws) h = elim (Option-cases (last_git S ws)) [
    | inr (g, e) ↦ (g, rw e refl)
    | inl e ↦ elim (Option-cases (get w.name S.git_ws)) [
      | inr (g, f) ↦ ((w.name, g), rw (e, f) refl)
      | inl f ↦ absurd (none_left e f (last_git-any ws))
    ]
  ]
    where
      none_left :
          last_git S ws ≡ none
          → get w.name S.git_ws ≡ none
          → (all (λ w. not (is_git w)) ws ≡ false
              → (g : String × Git.Spec) × (last_git S ws ≡ some g))
          → ⊥
      none_left e f ih =
          let skipped : all (λ w. not (is_git w)) (w ∷ ws) ≡ all (λ w. not (is_git w)) ws =
            rw f refl in
          let (g, found) = ih (sym skipped ∙ h) in cc (e, found)

  clone_last-many :
      (spec : CreateSpec) (gw : Option (String × Git.Spec)) (s : State S)
      → eqb (length spec.workspaces) 1 ≡ false
      → clone_last S spec gw s ≡ some (err clone_needs_git, s)
  unfolding clone_last
  clone_last-many spec none s h = refl
  clone_last-many spec (some g) s h = rw h refl

  clone_last-refuses :
      (spec : CreateSpec) (ws : List WorkspaceMount) (s : State S)
      → ws ≡ spec.workspaces
      → one_git ws ≡ false
      → clone_last S spec (last_git S ws) s ≡ some (err clone_needs_git, s)
  unfolding clone_last last_git
  clone_last-refuses spec [] s e h = refl
  clone_last-refuses spec (w ∷ []) s e h = elim (Option-cases (get w.name S.git_ws)) [
    | inl f ↦ rw f refl
    | inr (g, f) ↦ ground (arith, h, f)
  ]
  clone_last-refuses spec (v ∷ w ∷ ws) s e h =
      clone_last-many spec (last_git S (v ∷ w ∷ ws)) s (rw (sym e) (ground arith))

  -- A request that is not allowed (a clone of other than exactly one git-backed workspace, or a
  -- git-backed workspace without a clone) is refused for that reason, and nothing is done for it.
  pub provision_local_refuses :
      (spec : CreateSpec) (s : State S)
      → is_allowed spec ≡ false
      → provision_local S spec s
        ≡ some (err (if spec.clone then clone_needs_git else git_needs_clone), s)
  unfolding provision_local plain_last
  provision_local_refuses spec s h = go spec.clone h
    where
      go :
          (b : Bool)
          → (if b then one_git spec.workspaces else all (λ w. not (is_git w)) spec.workspaces)
            ≡ false
          → (if b
                then clone_last S spec (last_git S spec.workspaces)
                else plain_last S spec (last_git S spec.workspaces))
              s
            ≡ some (err (if b then clone_needs_git else git_needs_clone), s)
      go true e = clone_last-refuses spec spec.workspaces s refl e
      go false e = let (g, f) = last_git-any spec.workspaces e in rw f refl
