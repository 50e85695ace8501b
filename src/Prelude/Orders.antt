-- ===== src/Prelude/Orders.antt =====
-- How a comparison that falls back from one criterion to the next is a weak order.
use mathlib.Core.Bool.{Bool, true, false, not, ◌&&◌}
use native.Mathlib.Omega.{arith}
use sbx_swarm_node.Prelude.Tests.{if◌then◌else◌, ltb}
use sbx_swarm_node.Prelude.Sorting.{IsWeakOrder}

-- By the first criterion, and by the second where the first does not tell.
abbrev pub lexically {ℓ} : {A : Type ℓ} → (A → A → Bool) → (A → A → Bool) → A → A → Bool
lexically first rest a b = if first a b then true else if first b a then false else rest a b

-- The entries with the mark come before those without.
abbrev pub preferring {ℓ} : {A : Type ℓ} → (A → Bool) → A → A → Bool
preferring p a b = p a && not (p b)

abbrev pub reversed {ℓ} : {A : Type ℓ} → (A → A → Bool) → A → A → Bool
reversed less a b = less b a

abbrev pub by_key {ℓ κ} : {A : Type ℓ} {B : Type κ} → (B → B → Bool) → (A → B) → A → A → Bool
by_key less f a b = less (f a) (f b)

module _ {ℓ} {A : Type ℓ} where
  pub lexically-IsWeakOrder :
      (first rest : A → A → Bool)
      → IsWeakOrder first
      → IsWeakOrder rest
      → IsWeakOrder (lexically first rest)
  lexically-IsWeakOrder first rest v w = record {
    asym = λ x y h. ground (arith, v.asym x y, w.asym x y);
    neg_trans = λ x y z h k. ground (
      arith,
      w.neg_trans x y z,
      v.neg_trans x y z,
      v.neg_trans z y x,
      v.neg_trans z x y,
      v.neg_trans y x z,
      v.neg_trans x z y,
      v.neg_trans y z x,
      v.asym x y,
      v.asym y z,
      v.asym x z,
    );
  }

  pub preferring-IsWeakOrder : (p : A → Bool) → IsWeakOrder (preferring p)
  preferring-IsWeakOrder p = record {
    asym = λ x y h. ground arith;
    neg_trans = λ x y z h k. ground arith;
  }

  pub reversed-IsWeakOrder : (less : A → A → Bool) → IsWeakOrder less → IsWeakOrder (reversed less)
  reversed-IsWeakOrder less w = record {
    asym = λ x y h. w.asym y x h;
    neg_trans = λ x y z h k. w.neg_trans z y x k h;
  }

module _ {ℓ κ} {A : Type ℓ} {B : Type κ} where
  pub by_key-IsWeakOrder :
      (less : B → B → Bool) (f : A → B) → IsWeakOrder less → IsWeakOrder (by_key less f)
  by_key-IsWeakOrder less f w = record {
    asym = λ x y. w.asym (f x) (f y);
    neg_trans = λ x y z. w.neg_trans (f x) (f y) (f z);
  }

pub ltb-IsWeakOrder : IsWeakOrder ltb
ltb-IsWeakOrder = record { asym = λ x y h. ground arith; neg_trans = λ x y z h k. ground arith }
