-- ===== src/Prelude/Float.antt =====
-- float64 as the operations that the program uses of it. The program keeps clear of NaN (it divides
-- by no zero), and on the other values the comparisons are those of a total order; of sums and
-- quotients, which round, nothing is assumed.
use Prim.Native.Nat.{ℕ}
use mathlib.Core.Path.{◌≡◌}
use mathlib.Core.Bool.{Bool, not, ◌&&◌}
use sbx_swarm_node.Prelude.Sorting.{IsWeakOrder}

pub record Float64 : Type 1 where
  pub Carrier : Type 0
  pub from_int : ℕ → Carrier
  pub add : Carrier → Carrier → Carrier
  pub div : Carrier → Carrier → Carrier
  pub lt : Carrier → Carrier → Bool
  pub le : Carrier → Carrier → Bool
  pub eq : Carrier → Carrier → Bool

pub record IsOrdered (F : Float64) : Type 0 where
  pub weak : IsWeakOrder (F.lt)
  pub eq_lt : (a b : F.Carrier) → F.eq a b ≡ (not (F.lt a b) && not (F.lt b a))
  pub le_lt : (a b : F.Carrier) → F.le a b ≡ not (F.lt b a)
