-- ===== src/Prelude/Sorting.antt =====
-- Go's stable sort by a `less` function (sort.SliceStable), as insertion from the back. It also
-- stands for sort.Slice and sort.Strings, which leave the order of equal elements open.
use Prim.Native.Nat.{suc}
use mathlib.Core.Path.{◌≡◌, refl, ap, ◌∙◌}
use mathlib.Core.Logic.{inl, inr}
use mathlib.Core.Bool.{Bool, true, false, not, ◌&&◌}
use mathlib.Core.List.{List, [], ◌∷◌, Perm}
use mathlib.Core.List.Perm
use native.Mathlib.Omega.{arith}
use sbx_swarm_node.Prelude.Tests.{if◌then◌else◌, Bool-cases}
use sbx_swarm_node.Prelude.Lists.{All, keep, length}

module _ {ℓ} {A : Type ℓ} (less : A → A → Bool) where
  unfoldable pub insert_by : A → List A → List A
  insert_by x [] = x ∷ []
  insert_by x (y ∷ ys) = if less y x then y ∷ insert_by x ys else x ∷ y ∷ ys

  unfoldable pub sort_by : List A → List A
  unfolding insert_by
  sort_by [] = []
  sort_by (x ∷ xs) = insert_by x (sort_by xs)

  -- Nothing behind an entry is less than it.
  abbrev pub IsSorted : List A → Type ℓ
  IsSorted [] = Unit
  IsSorted (x ∷ xs) = All (λ y. less y x ≡ false) xs × IsSorted xs

  -- What a comparison has to satisfy for a sort to make sense of it.
  pub record IsWeakOrder : Type ℓ where
    pub asym : (x y : A) → less x y ≡ true → less y x ≡ false
    pub neg_trans : (x y z : A) → less x y ≡ false → less y z ≡ false → less x z ≡ false

module _ {ℓ} {A : Type ℓ} (less : A → A → Bool) where
  insert_by-All :
      (P : A → Type 0) (x : A) (ys : List A) → P x → All P ys → All P (insert_by less x ys)
  unfolding insert_by
  insert_by-All P x [] p h = (p, h)
  insert_by-All P x (y ∷ ys) p h = elim (Bool-cases (less y x)) [
    | inl e ↦ rw e (h.0, insert_by-All P x ys p h.1)
    | inr e ↦ rw e (p, h)
  ]

  All-not_less :
      (w : IsWeakOrder less) (x y : A) (zs : List A)
      → less y x ≡ false
      → All (λ z. less z y ≡ false) zs
      → All (λ z. less z x ≡ false) zs
  All-not_less w x y [] e h = tt
  All-not_less w x y (z ∷ zs) e h = (w.neg_trans z y x h.0 e, All-not_less w x y zs e h.1)

  insert_by-IsSorted :
      (w : IsWeakOrder less) (x : A) (ys : List A)
      → IsSorted less ys
      → IsSorted less (insert_by less x ys)
  unfolding insert_by
  insert_by-IsSorted w x [] h = (tt, tt)
  insert_by-IsSorted w x (y ∷ ys) h = elim (Bool-cases (less y x)) [
    | inl e ↦ rw e (
      insert_by-All (λ z. less z y ≡ false) x ys (w.asym y x e) h.0,
      insert_by-IsSorted w x ys h.1,
    )
    | inr e ↦ rw e ((e, All-not_less w x y ys e h.0), h)
  ]

  pub sort_by-IsSorted : (w : IsWeakOrder less) (xs : List A) → IsSorted less (sort_by less xs)
  unfolding sort_by
  sort_by-IsSorted w [] = tt
  sort_by-IsSorted w (x ∷ xs) = insert_by-IsSorted w x (sort_by less xs) (sort_by-IsSorted w xs)

  pub sort_by-All : (P : A → Type 0) (xs : List A) → All P xs → All P (sort_by less xs)
  unfolding sort_by
  sort_by-All P [] h = tt
  sort_by-All P (x ∷ xs) h = insert_by-All P x (sort_by less xs) h.0 (sort_by-All P xs h.1)

  insert_by-perm : (x : A) (ys : List A) → Perm (insert_by less x ys) (x ∷ ys)
  unfolding insert_by
  insert_by-perm x [] = Perm.refl (x ∷ [])
  insert_by-perm x (y ∷ ys) = elim (Bool-cases (less y x)) [
    | inl e ↦ rw e (Perm.trans (Perm.cons y (insert_by-perm x ys)) (Perm.swap x y ys))
    | inr e ↦ rw e (Perm.refl (x ∷ y ∷ ys))
  ]

  pub sort_by-perm : (xs : List A) → Perm (sort_by less xs) xs
  unfolding sort_by
  sort_by-perm [] = Perm.refl []
  sort_by-perm (x ∷ xs) =
      Perm.trans (insert_by-perm x (sort_by less xs)) (Perm.cons x (sort_by-perm xs))

  -- Neither is less than the other.
  abbrev pub ties : A → A → Bool
  ties a x = not (less a x) && not (less x a)

  insert_by-ties :
      (w : IsWeakOrder less) (a x : A) (ys : List A)
      → keep (ties a) (insert_by less x ys) ≡ keep (ties a) (x ∷ ys)
  unfolding insert_by
  insert_by-ties w a x [] = refl
  insert_by-ties w a x (y ∷ ys) = ground (arith, insert_by-ties w a x ys, w.neg_trans y a x)

  -- Entries that tie stay in their order.
  pub sort_by_stable :
      (w : IsWeakOrder less) (a : A) (xs : List A)
      → keep (ties a) (sort_by less xs) ≡ keep (ties a) xs
  unfolding sort_by
  sort_by_stable w a [] = refl
  sort_by_stable w a (x ∷ xs) =
      insert_by-ties w a x (sort_by less xs)
      ∙ ap (λ t. if ties a x then x ∷ t else t) (sort_by_stable w a xs)

  length-insert_by : (x : A) (ys : List A) → length (insert_by less x ys) ≡ suc (length ys)
  unfolding insert_by
  length-insert_by x [] = refl
  length-insert_by x (y ∷ ys) = ground (arith, length-insert_by x ys)

  pub length-sort_by : (xs : List A) → length (sort_by less xs) ≡ length xs
  unfolding sort_by
  length-sort_by [] = refl
  length-sort_by (x ∷ xs) = length-insert_by x (sort_by less xs) ∙ ap suc (length-sort_by xs)
