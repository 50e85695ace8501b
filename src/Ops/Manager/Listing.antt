-- ===== src/Ops/Manager/Listing.antt =====
-- internal/ops/ops.go: the operation history that List returns.
use Prim.Native.Nat.{min}
use mathlib.Core.List.{Perm}
use sbx_swarm_node.Prelude.{
  ℕ, ◌≤◌, ◌≡◌, List, [], ◌++◌, arith, length, take, drop, map, length-sort_by, ap, ◌∙◌, length-take,
  take-append-drop, sort_by, IsSorted, IsWeakOrder, sort_by-IsSorted, sort_by-perm, ok, String,
}
use sbx_swarm_node.Ops.Manager.{Operation, Ops, newer, access, capped, default_list_limit, list}

newer-IsWeakOrder : IsWeakOrder newer
newer-IsWeakOrder = record { asym = λ x y h. ground arith; neg_trans = λ x y z h k. ground arith }

-- List, with a database that does not fail, changes nothing but the accesses left and returns the
-- newest operations: with the ones that it leaves out behind them they are all the stored operations,
-- newest first; it returns as many as there are, up to the limit, which is never above 200.
pub list_newest :
    (mint : ℕ → String) (clock : ℕ → ℕ) (limit : ℕ) (s : Ops)
    → s.faults ≡ []
    → (ops : List Operation) × (rest : List Operation) × (list mint clock limit s ≡ (ok ops, s))
      × Perm (ops ++ rest) (map (λ e. e.1) s.operations)
      × IsSorted newer (ops ++ rest)
      × (length ops ≡ min (capped limit) (length (map (λ e. e.1) s.operations)))
      × (capped limit ≤ default_list_limit)
unfolding list access
list_newest mint clock limit s f =
    let all = map (λ e. e.1) s.operations in
    let sorted = sort_by newer all in
    (
      take (capped limit) sorted,
      drop (capped limit) sorted,
      ground (arith, f),
      rw take-append-drop (sort_by-perm newer all),
      rw take-append-drop (sort_by-IsSorted newer newer-IsWeakOrder all),
      length-take (capped limit) sorted ∙ ap (min (capped limit)) (length-sort_by newer all),
      unfold capped in ground arith,
    )
