-- ===== src/Prelude/Waiting.antt =====
-- Go functions that may have to wait for a lock: `none` is a call that waits. Otherwise as Exec.
use mathlib.Core.Option.{Option, none, some}
use sbx_swarm_node.Prelude.Effects.{Result, ok, err, Exec}

abbrev pub Wait : Type 0 → Type 0 → Type 0 → Type 0
Wait E S A = S → Option (Result E A × S)

abbrev pub waiting :
    {E S A B : Type 0} → (A → Wait E S B) → Option (Result E A × S) → Option (Result E B × S)
waiting next none = none
waiting next (some (ok a, s)) = next a s
waiting next (some (err e, s)) = some (err e, s)

-- The second call runs behind the first, unless that waits or fails.
abbrev pub then_do : {E S A B : Type 0} → Wait E S A → (A → Wait E S B) → Wait E S B
then_do m next s = waiting next (m s)

-- A call that has nothing to wait for.
abbrev pub at_once : {E S A : Type 0} → Exec E S A → Wait E S A
at_once m s = some (m s)

abbrev pub fail : {E S A : Type 0} → E → Wait E S A
fail e s = some (err e, s)
