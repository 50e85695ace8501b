-- ===== src/Prelude/Texts.antt =====
-- The functions of Go's strings package that the program walks its strings with, over byte lists.
use Prim.Native.Nat.{ℕ}
use mathlib.Core.Path.{◌≡◌, refl, sym, ap, ap₂, ◌∙◌}
use mathlib.Core.Logic.{inl, inr}
use mathlib.Core.Bool.{false, ◌||◌}
use mathlib.Core.Option.{Option, none, some}
use mathlib.Core.Option
use mathlib.Core.List.{List, [], ◌∷◌, ◌++◌, reverse}
use native.Mathlib.Omega.{arith}
use sbx_swarm_node.Prelude.Tests.{if◌then◌else◌, Bool-cases, Option-cases}
use sbx_swarm_node.Prelude.Equality.{Text, ◌==◌, ==_iff, ==_refl, nat_eq}
use sbx_swarm_node.Prelude.Lists.{contains}

-- strings.Cut at a byte: what stands before its first occurrence, and behind it.
unfoldable pub cut : ℕ → Text → Option (Text × Text)
cut c [] = none
cut c (x ∷ s) = if x == c then some ([], s) else Option.map (λ p. (x ∷ p.0, p.1)) (cut c s)

-- The same at the last occurrence (strings.LastIndexByte and two slices).
unfoldable pub cut_last : ℕ → Text → Option (Text × Text)
cut_last c [] = none
cut_last c (x ∷ s) = elim (cut_last c s) [
  | some p ↦ some (x ∷ p.0, p.1)
  | none ↦ if x == c then some ([], s) else none
]

-- strings.HasPrefix and strings.TrimPrefix
unfoldable pub strip_prefix : Text → Text → Option Text
strip_prefix [] s = some s
strip_prefix (_ ∷ _) [] = none
strip_prefix (c ∷ p) (x ∷ s) = if x == c then strip_prefix p s else none

-- strings.Split at a byte, as the first part and the others.
unfoldable pub split_parts : ℕ → Text → Text × List Text
split_parts c [] = ([], [])
split_parts c (x ∷ s) =
    let (part, parts) = split_parts c s in if x == c then ([], part ∷ parts) else (x ∷ part, parts)

unfoldable pub split : ℕ → Text → List Text
unfolding split_parts
split c s = let (part, parts) = split_parts c s in part ∷ parts

pub cut-append :
    (c : ℕ) (s t : Text) {h r : Text} → cut c s ≡ some (h, r) → cut c (s ++ t) ≡ some (h, r ++ t)
unfolding cut
cut-append c [] t e = cc
cut-append c (x ∷ s) t {h} {r} e = elim (Option-cases (cut c s)) [
  | inl n ↦ ground (arith, n)
  | inr ((a, b), m) ↦ ground (arith, m, cut-append c s t m)
]

-- A cut at the first occurrence takes the text apart, and what is before it has no such byte.
pub cut_parts :
    (c : ℕ) (s : Text) {h r : Text}
    → cut c s ≡ some (h, r)
    → (s ≡ h ++ c ∷ r) × (contains c h ≡ false)
unfolding cut
cut_parts c [] e = cc
cut_parts c (x ∷ s) {h} {r} e = elim (Option-cases (cut c s)) [
  | inl n ↦ ground (arith, n, ==_iff x c)
  | inr ((a, b), m) ↦ ground (arith, m, cut_parts c s m, ==_iff x c)
]

pub cut-cons : (c : ℕ) (h r : Text) → contains c h ≡ false → cut c (h ++ c ∷ r) ≡ some (h, r)
unfolding cut
cut-cons c [] r e = rw (==_refl c)
cut-cons c (x ∷ h) r e = ground (arith, cut-cons c h r)

pub cut_last-absent : (c : ℕ) (s : Text) → contains c s ≡ false → cut_last c s ≡ none
unfolding cut_last
cut_last-absent c [] e = refl
cut_last-absent c (x ∷ s) e = ground (arith, cut_last-absent c s)

pub cut_last-append :
    (c : ℕ) (s t : Text)
    → contains c t ≡ false
    → cut_last c (s ++ t) ≡ Option.map (λ p. (p.0, p.1 ++ t)) (cut_last c s)
unfolding cut_last
cut_last-append c [] t e = cut_last-absent c t e
cut_last-append c (x ∷ s) t e = ground (arith, cut_last-append c s t e)

pub cut_last-none : (c : ℕ) (s : Text) → cut_last c s ≡ none → contains c s ≡ false
unfolding cut_last
cut_last-none c [] e = refl
cut_last-none c (x ∷ s) e = elim (Option-cases (cut_last c s)) [
  | inl n ↦ ground (arith, n, cut_last-none c s n)
  | inr (p, m) ↦ ground (arith, m)
]

-- A cut at the last occurrence takes the text apart, and what is behind it has no such byte.
pub cut_last_parts :
    (c : ℕ) (s : Text) {h r : Text}
    → cut_last c s ≡ some (h, r)
    → (s ≡ h ++ c ∷ r) × (contains c r ≡ false)
unfolding cut_last
cut_last_parts c [] e = cc
cut_last_parts c (x ∷ s) {h} {r} e = elim (Option-cases (cut_last c s)) [
  | inl n ↦ ground (arith, n, cut_last-none c s n, ==_iff x c)
  | inr ((a, b), m) ↦ ground (arith, m, cut_last_parts c s m)
]

pub cut_last-cons :
    (c : ℕ) (h r : Text) → contains c r ≡ false → cut_last c (h ++ c ∷ r) ≡ some (h, r)
unfolding cut_last
cut_last-cons c [] r e = rw (cut_last-absent c r e, ==_refl c)
cut_last-cons c (x ∷ h) r e = ground (arith, cut_last-cons c h r e)

pub contains-append : (c : ℕ) (s t : Text) → contains c (s ++ t) ≡ (contains c s || contains c t)
contains-append c [] t = refl
contains-append c (x ∷ s) t = ground (arith, contains-append c s t)

-- A separator that occurs in no part: joining the parts and splitting gives them back.
split_parts-plain : (c : ℕ) (s : Text) → contains c s ≡ false → split_parts c s ≡ (s, [])
unfolding split_parts
split_parts-plain c [] h = refl
split_parts-plain c (x ∷ s) h = ground (arith, split_parts-plain c s)

split_parts-cons :
    (c : ℕ) (s t : Text) → contains c s ≡ false → split_parts c (s ++ c ∷ t) ≡ (s, split c t)
unfolding split_parts split
split_parts-cons c [] t h = rw (==_refl c) refl
split_parts-cons c (x ∷ s) t h = ground (arith, split_parts-cons c s t)

pub split-plain : (c : ℕ) (s : Text) → contains c s ≡ false → split c s ≡ s ∷ []
unfolding split
split-plain c s h = rw (split_parts-plain c s h) refl

pub split-cons : (c : ℕ) (s t : Text) → contains c s ≡ false → split c (s ++ c ∷ t) ≡ s ∷ split c t
unfolding split
split-cons c s t h = rw (split_parts-cons c s t h) refl

-- Splitting loses nothing: the parts, joined by the separator.
unfoldable pub join : ℕ → List Text → Text
join c [] = []
join c (s ∷ []) = s
join c (s ∷ p ∷ parts) = s ++ c ∷ join c (p ∷ parts)

join-cons :
    (c x : ℕ) (p : Text) (parts : List Text) → join c ((x ∷ p) ∷ parts) ≡ x ∷ join c (p ∷ parts)
unfolding join
join-cons c x p [] = refl
join-cons c x p (q ∷ parts) = refl

pub join-split : (c : ℕ) (s : Text) → join c (split c s) ≡ s
unfolding join split split_parts
join-split c [] = refl
join-split c (x ∷ s) = elim (Bool-cases (x == c)) [
  | inl e ↦ rw e (ap₂ (λ a b. a ∷ b) (sym ((==_iff x c).0 e)) (join-split c s))
  | inr e ↦
      rw e
        (join-cons c x (split_parts c s).0 (split_parts c s).1 ∙ ap (λ t. x ∷ t) (join-split c s))
]

-- strings.Cut at a text (strings.Index and two slices).
unfoldable pub cut_text : Text → Text → Option (Text × Text)
cut_text sep [] = Option.map (λ r. ([], r)) (strip_prefix sep [])
cut_text sep (x ∷ s) = elim (strip_prefix sep (x ∷ s)) [
  | some r ↦ some ([], r)
  | none ↦ Option.map (λ p. (x ∷ p.0, p.1)) (cut_text sep s)
]

-- strings.TrimLeft and strings.TrimRight of one byte.
unfoldable pub trim_left : ℕ → Text → Text
trim_left c [] = []
trim_left c (x ∷ s) = if x == c then trim_left c s else x ∷ s

unfoldable pub trim_right : ℕ → Text → Text
trim_right c s = reverse (trim_left c (reverse s))

-- The rest of a reversed text, or the text itself.
unfoldable pub reversed_or : Text → Option Text → Text
reversed_or s none = s
reversed_or s (some r) = reverse r

-- strings.TrimSuffix
unfoldable pub trim_suffix : Text → Text → Text
trim_suffix suffix s = reversed_or s (strip_prefix (reverse suffix) (reverse s))
