-- ===== src/Prelude/Int.antt =====
-- int64 values as integers, and strconv.ParseInt and FormatInt in base 10 on them.
use Prim.Native.Nat.{ℕ, zero, suc, ◌<◌, ◌^◌}
use mathlib.Core.Path.{◌≡◌, refl, subst, ap}
use mathlib.Core.Logic.{◌≢◌, inl, inr}
use mathlib.Core.Bool.{true, false}
use mathlib.Core.Option.{Option, none, some}
use mathlib.Core.Option
use mathlib.Core.List.{[], ◌∷◌}
use native.Mathlib.Omega.{arith}
use sbx_swarm_node.Prelude.Tests.{lt→ltb, ltb, eqb, if◌then◌else◌, Bool-cases}
use sbx_swarm_node.Prelude.Equality.{Text, nat_eq, eqb_iff}
use sbx_swarm_node.Prelude.Lists.{All, contains, List-cases}
use sbx_swarm_node.Prelude.Decimal.{itoa, atoi, atoi-itoa, itoa-All, is_digit}

-- `negsuc n` is -(n + 1).
pub data ℤ : Type 0 where
  pos : ℕ → ℤ
  negsuc : ℕ → ℤ

-- The value of a magnitude with a minus sign, if it fits in 64 bits.
negated : ℕ → Option ℤ
negated zero = some (pos 0)
negated (suc n) = if ltb n (2 ^ 63) then some (negsuc n) else none

positive : ℕ → Option ℤ
positive n = if ltb n (2 ^ 63) then some (pos n) else none

unfoldable pub parse_int : Text → Option ℤ
unfolding negated positive Option.bind
parse_int [] = none
parse_int (c ∷ s) =
    if eqb c b'-'
    then Option.bind (atoi s) negated
    else if eqb c b'+'
    then Option.bind (atoi s) positive
    else Option.bind (atoi (c ∷ s)) positive

unfoldable pub format_int : ℤ → Text
format_int (pos n) = itoa n
format_int (negsuc n) = b'-' ∷ itoa (suc n)

not_empty : (n : ℕ) → itoa n ≢ []
unfolding atoi
not_empty n e = cc (atoi-itoa n, ap atoi e)

no_sign : (c : ℕ) → is_digit c ≡ true → (eqb c b'-' ≡ false) × (eqb c b'+' ≡ false)
unfolding is_digit
no_sign c d = ground arith

read_digits :
    (c : ℕ) (s : Text) (n : ℕ)
    → is_digit c ≡ true
    → atoi (c ∷ s) ≡ some n
    → n < 2 ^ 63
    → parse_int (c ∷ s) ≡ some (pos n)
unfolding parse_int
read_digits c s n d v h =
    let (minus, plus) = no_sign c d in rw (minus, plus, v) (rw (lt→ltb n (2 ^ 63) h) refl)

-- What FormatInt prints, ParseInt reads back.
pub parse_int-format_int : (n : ℕ) → n < 2 ^ 63 → parse_int (format_int (pos n)) ≡ some (pos n)
unfolding parse_int format_int
parse_int-format_int n h = elim (List-cases (itoa n)) [
  | inl e ↦ absurd (not_empty n e)
  | inr (c, s, e) ↦
      let digit : is_digit c ≡ true = (subst (All (λ d. is_digit d ≡ true)) e (itoa-All n)).0 in
      let value : atoi (c ∷ s) ≡ some n = subst (λ t. atoi t ≡ some n) e (atoi-itoa n) in
      rw e (read_digits c s n digit value h)
]

-- A byte that is no digit does not occur in a run of digits.
contains-digits :
    (c : ℕ) (s : Text) → is_digit c ≡ false → All (λ d. is_digit d ≡ true) s → contains c s ≡ false
contains-digits c [] h a = refl
contains-digits c (x ∷ s) h a = elim (Bool-cases (eqb x c)) [
  | inl e ↦ cc (a.0, h, (eqb_iff x c).0 e)
  | inr e ↦ rw e (contains-digits c s h a.1)
]

pub contains-itoa : (c n : ℕ) → is_digit c ≡ false → contains c (itoa n) ≡ false
contains-itoa c n h = contains-digits c (itoa n) h (itoa-All n)
