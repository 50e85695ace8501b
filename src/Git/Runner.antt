-- ===== src/Git/Runner.antt =====
-- internal/git/runner.go: steps run one after the other, only of allowed binaries.
pub mod Runs
use sbx_swarm_node.Prelude.{
  ℕ, Bool, true, false, not, List, [], ◌∷◌, Option, none, some, Text, codes, text_eq, contains, ℤ,
  pos, negsuc, if◌then◌else◌,
}

-- What os/exec, os and path/filepath do for a node: a child process ends with no error, with an exit
-- code, or fails otherwise, and has written an output.
pub data Exit : Type 0 where
  exited exec_failed : Exit
  exit_error : ℤ → Exit

pub record Host : Type 1 where
  pub World : Type 0
  pub exec : Text → List Text → List Text → World → (Exit × Text) × World
  pub exists : Text → World → Bool
  pub mkdir_all : Text → World → Bool × World
  pub join : Text → Text → Text
  pub parent : Text → Text

pub record StepResult : Type 0 where
  pub argv : List Text
  pub exit_code : ℤ
  pub output : Text

pub data RunError : Type 0 where
  not_allowed : Text → RunError
  step_failed : List Text → ℤ → Text → RunError

unfoldable pub code_of : Exit → ℤ
code_of exited = pos 0
code_of exec_failed = negsuc 0
code_of (exit_error n) = n

module _ (H : Host) (allow : List Text) where
  abbrev pub Ran : Type 0
  Ran = (List StepResult × Option RunError) × H.World

  add_result : StepResult → Ran → Ran
  add_result res ((results, error), w) = ((res ∷ results, error), w)

  -- What Run returns when a step has ended, with what the further steps return.
  after_step : List Text → Text → Exit → Ran → H.World → Ran
  unfolding add_result code_of
  after_step argv output exited rest w =
      add_result (record { argv = argv; exit_code = pos 0; output = output }) rest
  after_step argv output e rest w = (
    (
      record { argv = argv; exit_code = code_of e; output = output } ∷ [],
      some (step_failed argv (code_of e) output),
    ),
    w,
  )

  -- An empty step is left out. The steps behind a failed one are named here but not run: the result
  -- for them is not used.
  unfoldable pub run : Text → List Text → List (List Text) → H.World → Ran
  unfolding after_step
  run dir env [] w = (([], none), w)
  run dir env ([] ∷ steps) w = run dir env steps w
  run dir env ((binary ∷ args) ∷ steps) w =
      if not (contains binary allow)
      then (([], some (not_allowed binary)), w)
      else let ((e, output), w') = H.exec dir env (binary ∷ args) w in
        after_step (binary ∷ args) output e (run dir env steps w') w'
