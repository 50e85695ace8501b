-- ===== src/Prelude/Decimal.antt =====
-- Decimal numerals as Go prints and reads them (`%d`, strconv.FormatInt, strconv.ParseInt), for
-- values that are not negative.
use Prim.Native.Nat.{ℕ, zero, suc, ◌+◌, ◌-◌, ◌*◌, ◌/◌, ◌%◌, ◌<◌}
use mathlib.Core.Path.{◌≡◌}
use mathlib.Core.Logic.{inl, inr}
use mathlib.Core.Bool.{Bool, true, ◌&&◌}
use mathlib.Core.Option.{Option, none, some}
use mathlib.Core.List.{[], ◌∷◌}
use native.Mathlib.Omega.{arith}
use sbx_swarm_node.Prelude.Tests.{ltb, leb, if◌then◌else◌, Bool-cases}
use sbx_swarm_node.Prelude.Equality.{Text}
use sbx_swarm_node.Prelude.Lists.{All}

-- The digits of `n`, in front of `rest`. The fuel bounds the number of digits.
itoa_fuel : ℕ → ℕ → Text → Text
itoa_fuel zero n rest = rest
itoa_fuel (suc f) n rest =
    let more = itoa_fuel f (n / 10) ((48 + n % 10) ∷ rest) in
    if ltb n 10 then (48 + n) ∷ rest else more

unfoldable pub itoa : ℕ → Text
unfolding itoa_fuel
itoa n = itoa_fuel (suc n) n []

unfoldable pub is_digit : ℕ → Bool
is_digit c = leb 48 c && leb c 57

-- The value of a run of digits after digits of value `acc`; `none` at any other byte.
atoi_from : ℕ → Text → Option ℕ
unfolding is_digit
atoi_from acc [] = some acc
atoi_from acc (c ∷ s) =
    let rest = atoi_from (acc * 10 + (c - 48)) s in if is_digit c then rest else none

unfoldable pub atoi : Text → Option ℕ
unfolding atoi_from
atoi [] = none
atoi (c ∷ s) = atoi_from 0 (c ∷ s)

atoi_from-itoa_fuel :
    (f n : ℕ) (rest : Text) → n < f → atoi_from 0 (itoa_fuel f n rest) ≡ atoi_from n rest
unfolding atoi_from itoa_fuel
atoi_from-itoa_fuel zero n rest h = elim h [ ]
atoi_from-itoa_fuel (suc f) n rest h =
    ground (arith, atoi_from-itoa_fuel f (n / 10) ((48 + n % 10) ∷ rest))

itoa_fuel-cons :
    (f n : ℕ) (rest : Text) → n < f → (c : ℕ) × (s : Text) × (itoa_fuel f n rest ≡ c ∷ s)
unfolding itoa_fuel
itoa_fuel-cons zero n rest h = elim h [ ]
itoa_fuel-cons (suc f) n rest h = elim (Bool-cases (ltb n 10)) [
  | inl e ↦ (48 + n, rest, rw e)
  | inr e ↦ rw e (itoa_fuel-cons f (n / 10) ((48 + n % 10) ∷ rest) (ground arith))
]

-- Reading back what was printed gives the number.
pub atoi-itoa : (n : ℕ) → atoi (itoa n) ≡ some n
unfolding atoi itoa
atoi-itoa n =
    let (c, s, e) = itoa_fuel-cons (suc n) n [] (omega arith) in
    rw e (rw e at (atoi_from-itoa_fuel (suc n) n [] (omega arith)))

pub itoa-injective : (m n : ℕ) → itoa m ≡ itoa n → m ≡ n
itoa-injective m n h = ground (arith, atoi-itoa m, atoi-itoa n)

-- A printed numeral is all digits.
itoa_fuel-All :
    (f n : ℕ) (rest : Text)
    → n < f
    → All (λ c. is_digit c ≡ true) rest
    → All (λ c. is_digit c ≡ true) (itoa_fuel f n rest)
unfolding itoa_fuel is_digit
itoa_fuel-All zero n rest h a = elim h [ ]
itoa_fuel-All (suc f) n rest h a = elim (Bool-cases (ltb n 10)) [
  | inl e ↦ rw e (ground arith, a)
  | inr e ↦ rw e (itoa_fuel-All f (n / 10) ((48 + n % 10) ∷ rest) (ground arith) (ground arith, a))
]

pub itoa-All : (n : ℕ) → All (λ c. is_digit c ≡ true) (itoa n)
unfolding itoa
itoa-All n = itoa_fuel-All (suc n) n [] (omega arith) tt
