-- ===== src/Prelude/Equality.antt =====
-- Go's `==` on comparable types: an interface with instances for numbers, strings and byte lists.
use Prim.Native.Nat.{ℕ}
use Prim.Native.Char.{code}
use Prim.Native.String.{String}
use text.Mathlib.Text.{◌==◌ as str_eq}
use text.Mathlib.TextEquality.{eq_iff}
use mathlib.Core.Path.{◌≡◌, refl}
use mathlib.Core.Logic.{◌↔◌}
use mathlib.Core.Bool.{Bool, true, false, ◌&&◌}
use mathlib.Core.List.{List, [], ◌∷◌}
use native.Mathlib.Omega.{arith}
use sbx_swarm_node.Prelude.Tests.{eqb}

-- A test that is true on equal values and on no others.
pub record Eq {ℓ} (K : Type ℓ) : Type ℓ where
  pub same : K → K → Bool
  pub same_sound : (x y : K) → same x y ≡ true → x ≡ y
  pub same_refl : (x : K) → same x x ≡ true

infix 50 ◌==◌
abbrev pub ◌==◌ {ℓ} : {K : Type ℓ} ⦃test : Eq K⦄ (x y : K) → Bool
◌==◌ ⦃test⦄ x y = test.same x y

pub ==_refl {ℓ} : {K : Type ℓ} ⦃test : Eq K⦄ (x : K) → (x == x) ≡ true
==_refl ⦃test⦄ = test.same_refl

pub ==_iff {ℓ} : {K : Type ℓ} ⦃test : Eq K⦄ (x y : K) → ((x == y) ≡ true) ↔ (x ≡ y)
==_iff ⦃test⦄ x y = (test.same_sound x y, λ e. rw e (test.same_refl y))

pub eqb_iff : (a b : ℕ) → (eqb a b ≡ true) ↔ (a ≡ b)
eqb_iff a b = ground arith

instance abbrev pub nat_eq : Eq ℕ
nat_eq = record {
  same = eqb;
  same_sound = λ x y. (eqb_iff x y).0;
  same_refl = λ x. (eqb_iff x x).1 refl;
}

instance abbrev pub string_eq : Eq String
string_eq = record {
  same = str_eq;
  same_sound = λ x y. (eq_iff x y).0;
  same_refl = λ x. (eq_iff x x).1 refl;
}

-- A Go string that the code walks is the list of its bytes.
abbrev pub Text : Type 0
Text = List ℕ

abbrev pub codes : String → Text
codes String.[] = []
codes (String.◌∷◌ c s) = code c ∷ codes s

abbrev pub text_beq : Text → Text → Bool
text_beq [] [] = true
text_beq [] (_ ∷ _) = false
text_beq (_ ∷ _) [] = false
text_beq (a ∷ s) (b ∷ t) = eqb a b && text_beq s t

pub text_beq_iff : (s t : Text) → (text_beq s t ≡ true) ↔ (s ≡ t)
text_beq_iff [] [] = ((λ _. refl), (λ _. refl))
text_beq_iff [] (_ ∷ _) = ((λ h. cc), (λ h. cc))
text_beq_iff (_ ∷ _) [] = ((λ h. cc), (λ h. cc))
text_beq_iff (a ∷ s) (b ∷ t) =
    ((λ h. ground (arith, text_beq_iff s t)), (λ h. ground (arith, text_beq_iff s t)))

instance abbrev pub text_eq : Eq Text
text_eq = record {
  same = text_beq;
  same_sound = λ x y. (text_beq_iff x y).0;
  same_refl = λ x. (text_beq_iff x x).1 refl;
}
