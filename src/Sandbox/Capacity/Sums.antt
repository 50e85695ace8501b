-- ===== src/Sandbox/Capacity/Sums.antt =====
-- internal/sandbox/capacity.go: the sum of the reservations of a tracker.
use sbx_swarm_node.Prelude.{
  ℕ, ◌<◌, ◌≡◌, sym, ◌∙◌, some, [], ◌∷◌, arith, Bool-cases, inl, inr, ◌==◌, ==_iff, All, Map, get,
  put, delete, IsMap, nat_eq, delete-absent,
}
use sbx_swarm_node.Sandbox.Amounts.{Amounts, nothing, ◌⊕◌, ⊕_assoc, ⊕_comm, ⊕_nothing}
use sbx_swarm_node.Sandbox.Capacity.{add_reservations}

-- The order in which a Go map is ranged over does not show: the sum of all entries is one value.
unfoldable pub total : Map ℕ Amounts → Amounts
total [] = nothing
total ((_, r) ∷ m) = r ⊕ total m

pub add_reservations-eq : (a : Amounts) (m : Map ℕ Amounts) → add_reservations a m ≡ a ⊕ total m
unfolding add_reservations total
add_reservations-eq a [] = sym (⊕_nothing a)
add_reservations-eq a ((_, r) ∷ m) = add_reservations-eq (a ⊕ r) m ∙ ⊕_assoc a r (total m)

-- Every key is below `n`.
abbrev pub KeysBelow : ℕ → Map ℕ Amounts → Type 0
KeysBelow n = All (λ p. p.0 < n)

pub total-put_fresh :
    (n : ℕ) (r : Amounts) (m : Map ℕ Amounts) → KeysBelow n m → total (put n r m) ≡ total m ⊕ r
unfolding total put
total-put_fresh n r [] h = ⊕_comm r nothing
total-put_fresh n r ((j, w) ∷ m) h =
    ground (arith, ==_iff j n, total-put_fresh n r m h.1, ⊕_assoc w (total m) r)

-- Deleting a present entry takes its value off the sum.
pub total-delete :
    (n : ℕ) (m : Map ℕ Amounts) (r : Amounts)
    → IsMap m
    → get n m ≡ some r
    → total (delete n m) ⊕ r ≡ total m
unfolding total delete get
total-delete n [] r h g = cc
total-delete n ((j, w) ∷ m) r h g = elim (Bool-cases (j == n)) [
  | inl same ↦
      ground (arith, same, delete-absent n m (rw (← (==_iff j n).0 same) h.0), ⊕_comm (total m) w)
  | inr other ↦ ground (arith, other, total-delete n m r h.1, ⊕_assoc w (total (delete n m)) r)
]
