-- ===== src/Git/Runner/Runs.antt =====
-- internal/git/runner.go: what a run has executed.
use sbx_swarm_node.Prelude.{
  ◌≡◌, refl, ap, Bool, true, false, List, [], ◌∷◌, Option, none, some, Text, text_eq, contains, pos,
  map, keep, All, Bool-cases, inl, inr,
}
use sbx_swarm_node.Git.Runner.{
  Host, Exit, exited, exec_failed, exit_error, StepResult, RunError, not_allowed, step_failed, Ran,
  run, after_step, add_result,
}

module _ (H : Host) (allow : List Text) where
  -- The world after the commands have been executed in this order.
  abbrev pub execute : Text → List Text → List (List Text) → H.World → H.World
  execute dir env [] w = w
  execute dir env (argv ∷ steps) w = execute dir env steps (H.exec dir env argv w).1

  abbrev pub IsAllowed : List Text → Type 0
  IsAllowed [] = ⊥
  IsAllowed (binary ∷ _) = contains binary allow ≡ true

  abbrev pub is_step : List Text → Bool
  is_step [] = false
  is_step (_ ∷ _) = true

  -- Every step has a result, or an error ended the run.
  abbrev pub Completed : List (List Text) → List StepResult → Option RunError → Type 0
  Completed steps results none = map (λ r. r.argv) results ≡ keep is_step steps
  Completed steps results (some e) = Unit {0}

  -- The last result is that of the failed step, if one failed; all others are of steps that ended
  -- well.
  abbrev pub Stopped : List StepResult → Option RunError → Type 0
  Stopped [] none = Unit {0}
  Stopped [] (some (not_allowed _)) = Unit {0}
  Stopped [] (some (step_failed _ _ _)) = ⊥
  Stopped (r ∷ []) none = r.exit_code ≡ pos 0
  Stopped (r ∷ []) (some (not_allowed _)) = r.exit_code ≡ pos 0
  Stopped (r ∷ []) (some (step_failed argv code _)) = (r.argv ≡ argv) × (r.exit_code ≡ code)
  Stopped (r ∷ s ∷ results) e = (r.exit_code ≡ pos 0) × Stopped (s ∷ results) e

  pub record IsRun (dir : Text) (env : List Text) (steps : List (List Text)) (w : H.World)
      (ran : Ran H allow) : Type 0 where
    pub allowed : All (λ r. IsAllowed r.argv) ran.0.0
    pub world : ran.1 ≡ execute dir env (map (λ r. r.argv) ran.0.0) w
    pub complete : Completed steps ran.0.0 ran.0.1
    pub stopped : Stopped ran.0.0 ran.0.1

  Stopped-cons :
      (r : StepResult) (results : List StepResult) (e : Option RunError)
      → r.exit_code ≡ pos 0
      → Stopped results e
      → Stopped (r ∷ results) e
  Stopped-cons r [] none c h = c
  Stopped-cons r [] (some (not_allowed _)) c h = c
  Stopped-cons r [] (some (step_failed _ _ _)) c h = absurd h
  Stopped-cons r (_ ∷ _) e c h = (c, h)

  add_result-IsRun :
      (dir : Text) (env : List Text) (steps : List (List Text)) (binary : Text) (args : List Text)
      (output : Text) (w : H.World) (ran : Ran H allow)
      → contains binary allow ≡ true
      → IsRun dir env steps (H.exec dir env (binary ∷ args) w).1 ran
      → IsRun dir env ((binary ∷ args) ∷ steps) w (
          add_result H allow
            (record { argv = binary ∷ args; exit_code = pos 0; output = output })
            ran)
  unfolding add_result
  add_result-IsRun dir env steps binary args output w ((results, none), w') c h = record {
    allowed = (c, h.allowed);
    world = h.world;
    complete = ap (λ t. (binary ∷ args) ∷ t) h.complete;
    stopped =
        Stopped-cons (record { argv = binary ∷ args; exit_code = pos 0; output = output }) results
          none refl h.stopped;
  }
  add_result-IsRun dir env steps binary args output w ((results, some e), w') c h = record {
    allowed = (c, h.allowed);
    world = h.world;
    complete = tt;
    stopped =
        Stopped-cons (record { argv = binary ∷ args; exit_code = pos 0; output = output }) results
          (some e) refl h.stopped;
  }

  after_step-IsRun :
      (dir : Text) (env : List Text) (steps : List (List Text)) (binary : Text) (args : List Text)
      (output : Text) (e : Exit) (w : H.World) (ran : Ran H allow)
      → contains binary allow ≡ true
      → IsRun dir env steps (H.exec dir env (binary ∷ args) w).1 ran
      → IsRun dir env
          ((binary ∷ args) ∷ steps)
          w
          (after_step H allow (binary ∷ args) output e ran (H.exec dir env (binary ∷ args) w).1)
  unfolding after_step
  after_step-IsRun dir env steps binary args output exited w ran c h =
      add_result-IsRun dir env steps binary args output w ran c h
  after_step-IsRun dir env steps binary args output exec_failed w ran c h = record {
    allowed = (c, tt);
    world = refl;
    complete = tt;
    stopped = (refl, refl);
  }
  after_step-IsRun dir env steps binary args output (exit_error n) w ran c h = record {
    allowed = (c, tt);
    world = refl;
    complete = tt;
    stopped = (refl, refl);
  }

  -- A run has executed exactly the commands that it reports results of, in their order, and each of
  -- an allowed binary. Without an error these are all its steps but the empty ones, and all ended
  -- well; with an error of a step, that step is the last that was executed.
  pub run-IsRun :
      (dir : Text) (env : List Text) (steps : List (List Text)) (w : H.World)
      → IsRun dir env steps w (run H allow dir env steps w)
  unfolding run
  run-IsRun dir env [] w = record { allowed = tt; world = refl; complete = refl; stopped = tt }
  run-IsRun dir env ([] ∷ steps) w =
      let rest = run-IsRun dir env steps w in
      record {
        allowed = rest.allowed;
        world = rest.world;
        complete = rest.complete;
        stopped = rest.stopped;
      }
  run-IsRun dir env ((binary ∷ args) ∷ steps) w = elim (Bool-cases (contains binary allow)) [
    | inr e ↦ rw e (record { allowed = tt; world = refl; complete = tt; stopped = tt })
    | inl e ↦ rw e (
        after_step-IsRun dir env steps binary args (H.exec dir env (binary ∷ args) w).0.1
          (H.exec dir env (binary ∷ args) w).0.0 w
          (run H allow dir env steps (H.exec dir env (binary ∷ args) w).1) e
          (run-IsRun dir env steps (H.exec dir env (binary ∷ args) w).1))
  ]
