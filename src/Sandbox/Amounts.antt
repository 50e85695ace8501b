-- ===== src/Sandbox/Amounts.antt =====
-- A cpu/mem/disk triple, as every accounting function of internal/sandbox carries it. The program
-- holds each part in a float64; here a part is a whole number of units small enough for every value
-- in use to be a multiple of them (a core, a byte of memory, a unit of disk space), where float64
-- sums are exact.
use sbx_swarm_node.Prelude.{ℕ, ◌+◌, ◌≡◌, arith}

pub record Amounts : Type 0 where
  pub cpu : ℕ
  pub mem : ℕ
  pub disk : ℕ

abbrev pub nothing : Amounts
nothing = record { cpu = 0; mem = 0; disk = 0 }

infixl 65 ◌⊕◌
unfoldable pub ◌⊕◌ : Amounts → Amounts → Amounts
a ⊕ b = record { cpu = a.cpu + b.cpu; mem = a.mem + b.mem; disk = a.disk + b.disk }

pub ⊕_assoc : (a b c : Amounts) → (a ⊕ b) ⊕ c ≡ a ⊕ (b ⊕ c)
unfolding ◌⊕◌
⊕_assoc a b c = ground arith

pub ⊕_comm : (a b : Amounts) → a ⊕ b ≡ b ⊕ a
unfolding ◌⊕◌
⊕_comm a b = ground arith

pub ⊕_nothing : (a : Amounts) → a ⊕ nothing ≡ a
unfolding ◌⊕◌
⊕_nothing a = ground arith

pub ⊕_right_comm : (a b c : Amounts) → (a ⊕ b) ⊕ c ≡ (a ⊕ c) ⊕ b
unfolding ◌⊕◌
⊕_right_comm a b c = ground arith

pub ⊕_cancel : (a b c : Amounts) → a ⊕ c ≡ b ⊕ c → a ≡ b
unfolding ◌⊕◌
⊕_cancel a b c h = ground arith
