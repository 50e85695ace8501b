-- ===== src/Sandbox/Capacity.antt =====
-- internal/sandbox/capacity.go: soft accounting against the node's provision limit. Each method holds
-- the mutex from its first line to its last, so a method is one step on the state.
pub mod Sums
pub mod Admission
use sbx_swarm_node.Prelude.{
  ℕ, ◌+◌, ◌||◌, ◌&&◌, Bool, Option, none, some, [], ◌∷◌, leb, eqb, if◌then◌else◌, Map, get, put,
  delete, nat_eq,
}
use sbx_swarm_node.Sandbox.Amounts.{Amounts, nothing, ◌⊕◌}

-- `next` is an int of the program; it counts reservations and is left unbounded.
pub record Capacity : Type 0 where
  pub limit : Amounts
  pub base : Amounts
  pub resv : Map ℕ Amounts
  pub next : ℕ

-- NewCapacity
unfoldable pub new_capacity : Amounts → Capacity
new_capacity limit = record { limit = limit; base = nothing; resv = []; next = 0 }

-- the loop of usedLocked, in the map's iteration order
unfoldable pub add_reservations : Amounts → Map ℕ Amounts → Amounts
add_reservations acc [] = acc
add_reservations acc ((_, r) ∷ m) = add_reservations (acc ⊕ r) m

unfoldable pub used : Capacity → Amounts
used c = add_reservations c.base c.resv

unfoldable pub fits_limit : ℕ → ℕ → Bool
fits_limit used limit = eqb limit 0 || leb used limit

-- The three tests of TryReserve.
unfoldable pub fits : Capacity → Amounts → Bool
unfolding fits_limit ◌⊕◌
fits c req =
    let u = used c ⊕ req in
    fits_limit u.cpu c.limit.cpu && fits_limit u.mem c.limit.mem && fits_limit u.disk c.limit.disk

-- The state after the tests of TryReserve have passed.
abbrev pub reserved : Amounts → Capacity → Capacity
reserved req c = record c { next = c.next + 1; resv = put c.next req c.resv }

-- `none` is the result (0, false).
unfoldable pub try_reserve : Amounts → Capacity → Capacity × Option ℕ
try_reserve req c = if fits c req then (reserved req c, some c.next) else (c, none)

commit_found : Option Amounts → ℕ → Capacity → Capacity
commit_found none id c = c
commit_found (some r) id c = record c { base = c.base ⊕ r; resv = delete id c.resv }

unfoldable pub commit : ℕ → Capacity → Capacity
unfolding commit_found
commit id c = commit_found (get id c.resv) id c

unfoldable pub commit_base : Amounts → ℕ → Capacity → Capacity
commit_base base id c = record c { base = base; resv = delete id c.resv }

unfoldable pub release : ℕ → Capacity → Capacity
release id c = record c { resv = delete id c.resv }

unfoldable pub set_base : Amounts → Capacity → Capacity
set_base base c = record c { base = base }
