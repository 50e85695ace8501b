-- ===== src/Service/Paths/Parts.antt =====
-- internal/apiserver/files.go: the parts of a path between its slashes, and a text without `..`.
use mathlib.Core.List as List
use sbx_swarm_node.Prelude.{
  ◌≡◌, refl, ap, ◌∙◌, ℕ, false, [], ◌∷◌, ◌++◌, none, some, Text, codes, nat_eq, text_eq, ◌==◌,
  ==_iff, contains, All, cut_text, strip_prefix, split, split_parts, arith, Bool-cases,
  Option-cases, inl, inr,
}

-- No part of a split has the separator.
split_parts-absent :
    (c : ℕ) (s : Text)
    → (contains c (split_parts c s).0 ≡ false) × All (λ p. contains c p ≡ false) (split_parts c s).1
unfolding split_parts
split_parts-absent c [] = (refl, tt)
split_parts-absent c (x ∷ s) = elim (Bool-cases (x == c)) [
  | inl e ↦ rw e (refl, split_parts-absent c s)
  | inr e ↦ rw e (rw e (split_parts-absent c s).0, (split_parts-absent c s).1)
]

pub split-absent : (c : ℕ) (s : Text) → All (λ p. contains c p ≡ false) (split c s)
unfolding split
split-absent c s = split_parts-absent c s

strip_prefix-append :
    (p s t : Text) {r : Text} → strip_prefix p s ≡ some r → strip_prefix p (s ++ t) ≡ some (r ++ t)
unfolding strip_prefix
strip_prefix-append [] s t e = ground (arith, e)
strip_prefix-append (c ∷ p) [] t e = cc
strip_prefix-append (c ∷ p) (x ∷ s) t {r} e = elim (Bool-cases (x == c)) [
  | inl h ↦ rw h (strip_prefix-append p s t (ground (arith, e, h)))
  | inr h ↦ ground (arith, e, h)
]

-- A text that is not found is not found behind a front either, nor before a back.
cut_text-tail :
    (sep : Text) (x : ℕ) (s : Text) → cut_text sep (x ∷ s) ≡ none → cut_text sep s ≡ none
unfolding cut_text
cut_text-tail sep x s e = elim (Option-cases (strip_prefix sep (x ∷ s))) [
  | inr (r, h) ↦ ground (arith, e, h)
  | inl h ↦ elim (Option-cases (cut_text sep s)) [
    | inl k ↦ k
    | inr (p, k) ↦ ground (arith, e, h, k)
  ]
]

cut_text-behind : (sep front s : Text) → cut_text sep (front ++ s) ≡ none → cut_text sep s ≡ none
cut_text-behind sep [] s e = e
cut_text-behind sep (x ∷ front) s e =
    cut_text-behind sep front s (cut_text-tail sep x (front ++ s) e)

-- Whether the text begins with the other one.
no_prefix :
    (sep : Text) (x : ℕ) (s : Text) → cut_text sep (x ∷ s) ≡ none → strip_prefix sep (x ∷ s) ≡ none
unfolding cut_text
no_prefix sep x s e = elim (Option-cases (strip_prefix sep (x ∷ s))) [
  | inl h ↦ h
  | inr (r, h) ↦ ground (arith, e, h)
]

cut_text-nil : (c : ℕ) (sep : Text) → cut_text (c ∷ sep) [] ≡ none
unfolding cut_text strip_prefix
cut_text-nil c sep = refl

cut_text-before :
    (c : ℕ) (sep s back : Text)
    → cut_text (c ∷ sep) (s ++ back) ≡ none
    → cut_text (c ∷ sep) s ≡ none
unfolding cut_text
cut_text-before c sep [] back e = cut_text-nil c sep
cut_text-before c sep (x ∷ s) back e = elim (Option-cases (strip_prefix (c ∷ sep) (x ∷ s))) [
  | inl h ↦
      let ih = cut_text-before c sep s back (cut_text-tail (c ∷ sep) x (s ++ back) e) in
      ground (arith, h, ih)
  | inr (r, h) ↦
      let found = strip_prefix-append (c ∷ sep) (x ∷ s) back h in
      let absent = no_prefix (c ∷ sep) x (s ++ back) e in cc
]

-- The text has no `..`: nor has a slice of it.
pub no_dots-slice :
    (front s back : Text)
    → cut_text (codes "..") (front ++ (s ++ back)) ≡ none
    → cut_text (codes "..") s ≡ none
no_dots-slice front s back e =
    cut_text-before b'.' (b'.' ∷ []) s back (cut_text-behind (codes "..") front (s ++ back) e)

-- If the first part is a dot, the text begins with one.
first_dot : (c x : ℕ) (s : Text) → (split_parts c s).0 ≡ x ∷ [] → (t : Text) × (s ≡ x ∷ t)
unfolding split_parts
first_dot c x [] e = cc
first_dot c x (y ∷ s) e = elim (Bool-cases (y == c)) [
  | inl h ↦ ground (arith, e, h)
  | inr h ↦ (s, ap (λ z. z ∷ s) (ground (arith, e, h)))
]

first-no_dots :
    (c x : ℕ) (s : Text)
    → cut_text (codes "..") (x ∷ s) ≡ none
    → ((x ∷ (split_parts c s).0) == codes "..") ≡ false
unfolding strip_prefix
first-no_dots c x s e = elim (Bool-cases ((x ∷ (split_parts c s).0) == codes "..")) [
  | inr h ↦ h
  | inl h ↦
      let same = (==_iff (x ∷ (split_parts c s).0) (codes "..")).0 h in
      let (t, begins) = first_dot c b'.' s (List.tail-eq_of_cons-eq same) in
      let found : strip_prefix (codes "..") (x ∷ s) ≡ some t =
        ap (λ y. strip_prefix (codes "..") (y ∷ s)) (List.head-eq_of_cons-eq same)
        ∙ ap (λ r. strip_prefix (codes "..") (b'.' ∷ r)) begins in
      let absent = no_prefix (codes "..") x s e in cc
]

split_parts-no_dots :
    (c : ℕ) (s : Text)
    → cut_text (codes "..") s ≡ none
    → (((split_parts c s).0 == codes "..") ≡ false)
      × All (λ p. (p == codes "..") ≡ false) (split_parts c s).1
unfolding split_parts
split_parts-no_dots c [] e = (refl, tt)
split_parts-no_dots c (x ∷ s) e =
    let ih = split_parts-no_dots c s (cut_text-tail (codes "..") x s e) in
    elim (Bool-cases (x == c)) [
      | inl h ↦ rw h (refl, ih)
      | inr h ↦ rw h (first-no_dots c x s e, ih.1)
    ]

pub split-no_dots :
    (c : ℕ) (s : Text)
    → cut_text (codes "..") s ≡ none
    → All (λ p. (p == codes "..") ≡ false) (split c s)
unfolding split
split-no_dots c s e = split_parts-no_dots c s e
