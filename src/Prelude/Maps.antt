-- ===== src/Prelude/Maps.antt =====
-- Go's `map[K]V` as an association list with one entry for each key, in some iteration order.
use mathlib.Core.Path.{◌≡◌, refl, ap, ap₂, subst}
use mathlib.Core.Logic.{inl, inr}
use mathlib.Core.Bool.{true, false}
use mathlib.Core.Option.{Option, none, some}
use mathlib.Core.List.{List, [], ◌∷◌}
use native.Mathlib.Omega.{arith}
use sbx_swarm_node.Prelude.Tests.{if◌then◌else◌, Bool-cases}
use sbx_swarm_node.Prelude.Equality.{Eq, ◌==◌, ==_iff, ==_refl}
use sbx_swarm_node.Prelude.Lists.{All}

abbrev pub Map {ℓ κ} : Type ℓ → Type κ → Type (ℓ ⊔ κ)
Map K V = List (K × V)

module _ {ℓ κ} {K : Type ℓ} {V : Type κ} ⦃e : Eq K⦄ where
  unfoldable pub get : K → Map K V → Option V
  get k [] = none
  get k ((j, v) ∷ m) = if j == k then some v else get k m

  -- m[k] = v
  unfoldable pub put : K → V → Map K V → Map K V
  put k v [] = (k, v) ∷ []
  put k v ((j, w) ∷ m) = if j == k then (j, v) ∷ m else (j, w) ∷ put k v m

  -- delete(m, k)
  unfoldable pub delete : K → Map K V → Map K V
  delete k [] = []
  delete k ((j, w) ∷ m) = if j == k then delete k m else (j, w) ∷ delete k m

  pub get-put :
      (k j : K) (v : V) (m : Map K V) → get j (put k v m) ≡ (if k == j then some v else get j m)
  unfolding get put
  get-put k j v [] = refl
  get-put k j v ((i, w) ∷ m) = ground (arith, ==_iff k j, ==_iff i k, ==_iff i j, get-put k j v m)

  pub get-delete : (k j : K) (m : Map K V) → get j (delete k m) ≡ (if k == j then none else get j m)
  unfolding get delete
  get-delete k j [] = ground arith
  get-delete k j ((i, w) ∷ m) = ground (arith, ==_iff k j, ==_iff i k, ==_iff i j, get-delete k j m)

  pub get-put_self : (k : K) (v : V) (m : Map K V) → get k (put k v m) ≡ some v
  get-put_self k v m = simp (get-put, ==_refl)

  pub get-delete_self : (k : K) (m : Map K V) → get k (delete k m) ≡ none
  get-delete_self k m = simp (get-delete, ==_refl)

  -- No key has two entries, as in a Go map.
  abbrev pub IsMap : Map K V → Type ℓ
  IsMap [] = Unit
  IsMap ((k, v) ∷ m) = All (λ p. (p.0 == k) ≡ false) m × IsMap m

  pub All-put {ρ} :
      (P : K × V → Type ρ) (k : K) (v : V) (m : Map K V)
      → ((j : K) → (j == k) ≡ true → P (j, v))
      → P (k, v)
      → All P m
      → All P (put k v m)
  unfolding put
  All-put P k v [] f p h = (p, h)
  All-put P k v ((j, w) ∷ m) f p h = elim (Bool-cases (j == k)) [
    | inl e ↦ rw e (f j e, h.1)
    | inr e ↦ rw e (h.0, All-put P k v m f p h.1)
  ]

  pub All-delete {ρ} : (P : K × V → Type ρ) (k : K) (m : Map K V) → All P m → All P (delete k m)
  unfolding delete
  All-delete P k [] h = h
  All-delete P k ((j, w) ∷ m) h = elim (Bool-cases (j == k)) [
    | inl e ↦ rw e (All-delete P k m h.1)
    | inr e ↦ rw e (h.0, All-delete P k m h.1)
  ]

  pub delete-absent : (k : K) (m : Map K V) → All (λ p. (p.0 == k) ≡ false) m → delete k m ≡ m
  unfolding delete
  delete-absent k [] h = refl
  delete-absent k ((j, w) ∷ m) h = rw h.0 (ap (λ t. (j, w) ∷ t) (delete-absent k m h.1))

  pub delete-missing : (k : K) (m : Map K V) → get k m ≡ none → delete k m ≡ m
  unfolding delete get
  delete-missing k [] g = refl
  delete-missing k ((j, w) ∷ m) g = ground (arith, delete-missing k m)

  pub IsMap-put : (k : K) (v : V) (m : Map K V) → IsMap m → IsMap (put k v m)
  unfolding put
  IsMap-put k v [] h = (tt, tt)
  IsMap-put k v ((j, w) ∷ m) h = elim (Bool-cases (j == k)) [
    | inl e ↦ rw e h
    | inr e ↦ rw e (
      All-put (λ p. (p.0 == j) ≡ false) k v m
          (λ i same. rw ((==_iff i k).0 same) (ground (arith, ==_iff k j, ==_iff j k)))
          (ground (arith, ==_iff k j, ==_iff j k)) h.0,
      IsMap-put k v m h.1,
    )
  ]

  pub IsMap-delete : (k : K) (m : Map K V) → IsMap m → IsMap (delete k m)
  unfolding delete
  IsMap-delete k [] h = h
  IsMap-delete k ((j, w) ∷ m) h = elim (Bool-cases (j == k)) [
    | inl e ↦ rw e (IsMap-delete k m h.1)
    | inr e ↦ rw e (All-delete (λ p. (p.0 == j) ≡ false) k m h.0, IsMap-delete k m h.1)
  ]

  -- A property of all entries holds of the entry that a key finds.
  pub All-get {ρ} :
      (P : K × V → Type ρ) (k : K) (m : Map K V) (v : V) → All P m → get k m ≡ some v → P (k, v)
  unfolding get
  All-get P k [] v h g = cc
  All-get P k ((j, w) ∷ m) v h g = elim (Bool-cases (j == k)) [
    | inl e ↦ subst P (ap₂ (λ a b. (a, b)) ((==_iff j k).0 e) (ground (arith, e))) h.0
    | inr e ↦ All-get P k m v h.1 (ground (arith, e))
  ]

  pub get-absent : (k : K) (m : Map K V) → All (λ p. (p.0 == k) ≡ false) m → get k m ≡ none
  unfolding get
  get-absent k [] h = refl
  get-absent k ((j, w) ∷ m) h = rw h.0 (get-absent k m h.1)
