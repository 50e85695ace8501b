-- ===== src/Prelude/TextOrder.antt =====
-- Go's order of strings, byte by byte, and sort.Strings by it.
use mathlib.Core.Path.{◌≡◌, refl, ap, ◌∙◌}
use mathlib.Core.Bool.{Bool, true, false, ◌||◌}
use mathlib.Core.List.{List, [], ◌∷◌, Perm}
use native.Mathlib.Omega.{arith}
use sbx_swarm_node.Prelude.Tests.{if◌then◌else◌, ltb}
use sbx_swarm_node.Prelude.Equality.{Text, text_eq, ◌==◌}
use sbx_swarm_node.Prelude.Lists.{contains}
use sbx_swarm_node.Prelude.Sorting.{
  insert_by, sort_by, IsSorted, IsWeakOrder, sort_by-IsSorted, sort_by-perm,
}

unfoldable pub text_less : Text → Text → Bool
text_less [] [] = false
text_less [] (_ ∷ _) = true
text_less (_ ∷ _) [] = false
text_less (a ∷ s) (b ∷ t) = if ltb a b then true else if ltb b a then false else text_less s t

-- sort.Strings
unfoldable pub sort_texts : List Text → List Text
sort_texts ts = sort_by text_less ts

text_less_asym : (s t : Text) → text_less s t ≡ true → text_less t s ≡ false
unfolding text_less
text_less_asym [] [] h = cc
text_less_asym [] (_ ∷ _) h = refl
text_less_asym (_ ∷ _) [] h = cc
text_less_asym (a ∷ s) (b ∷ t) h = ground (arith, text_less_asym s t)

text_less_neg_trans :
    (s t u : Text) → text_less s t ≡ false → text_less t u ≡ false → text_less s u ≡ false
unfolding text_less
text_less_neg_trans [] [] u h g = g
text_less_neg_trans [] (_ ∷ _) u h g = cc
text_less_neg_trans (_ ∷ _) t [] h g = refl
text_less_neg_trans (a ∷ s) [] (c ∷ u) h g = cc
text_less_neg_trans (a ∷ s) (b ∷ t) (c ∷ u) h g = ground (arith, text_less_neg_trans s t u)

pub text_less-IsWeakOrder : IsWeakOrder text_less
text_less-IsWeakOrder = record { asym = text_less_asym; neg_trans = text_less_neg_trans }

pub sort_texts-IsSorted : (ts : List Text) → IsSorted text_less (sort_texts ts)
unfolding sort_texts
sort_texts-IsSorted ts = sort_by-IsSorted text_less text_less-IsWeakOrder ts

pub sort_texts-perm : (ts : List Text) → Perm (sort_texts ts) ts
unfolding sort_texts
sort_texts-perm ts = sort_by-perm text_less ts

contains-insert_by :
    (x y : Text) (ys : List Text)
    → contains x (insert_by text_less y ys) ≡ (y == x || contains x ys)
unfolding insert_by
contains-insert_by x y [] = refl
contains-insert_by x y (z ∷ ys) = ground (arith, contains-insert_by x y ys)

pub contains-sort_texts : (x : Text) (ts : List Text) → contains x (sort_texts ts) ≡ contains x ts
unfolding sort_texts sort_by
contains-sort_texts x [] = refl
contains-sort_texts x (t ∷ ts) =
    contains-insert_by x t (sort_texts ts) ∙ ap (λ b. t == x || b) (contains-sort_texts x ts)
