-- ===== src/Prelude/Effects.antt =====
-- Go functions that change shared state and may return an error: the state comes back on both
-- paths, since what was written before an error stays written.
use mathlib.Core.Path.{◌≡◌, refl, sym, ap, ◌∙◌}
use mathlib.Core.Logic.{◌⊎◌, inl, inr}
use mathlib.Core.Option.{Option, none, some}

pub data Result (E A : Type 0) : Type 0 where
  ok : A → Result E A
  err : E → Result E A

abbrev pub Exec : Type 0 → Type 0 → Type 0 → Type 0
Exec E S A = S → Result E A × S

abbrev pub pure : {E S A : Type 0} → A → Exec E S A
pure a s = (ok a, s)

abbrev pub throw : {E S A : Type 0} → E → Exec E S A
throw e s = (err e, s)

abbrev pub continue : {E S A B : Type 0} → Result E A → (A → Exec E S B) → Exec E S B
continue (ok v) next st = next v st
continue (err x) _ st = (err x, st)

infixl 5 ◌>>=◌ ◌>>◌
abbrev pub ◌>>=◌ : {E S A B : Type 0} → Exec E S A → (A → Exec E S B) → Exec E S B
◌>>=◌ call next st = let (out, st') = call st in continue out next st'

abbrev pub ◌>>◌ : {E S A B : Type 0} → Exec E S A → Exec E S B → Exec E S B
call >> next = call >>= λ _. next

abbrev pub result_option : {E A : Type 0} → Result E A → Option A
result_option (ok a) = some a
result_option (err _) = none

-- A call whose error the caller drops.
abbrev pub attempt : {E S A : Type 0} → Exec E S A → Exec E S (Option A)
attempt m s = let (r, s') = m s in (ok (result_option r), s')

-- A change of the state that returns nothing.
abbrev pub modify : {E S : Type 0} → (S → S) → Exec E S (Unit {0})
modify f s = (ok tt, f s)

abbrev pub gets : {E S A : Type 0} → (S → A) → Exec E S A
gets f s = (ok (f s), s)

-- To split on a call and keep its equation.
pub Exec-cases :
    {E S A : Type 0} (m : Exec E S A) (s : S)
    → ((a : A) × (s' : S) × (m s ≡ (ok a, s'))) ⊎ ((e : E) × (s' : S) × (m s ≡ (err e, s')))
Exec-cases {E} {S} {A} m s = go (m s) refl
  where
    go :
        (p : Result E A × S)
        → m s ≡ p
        → ((a : A) × (s' : S) × (m s ≡ (ok a, s'))) ⊎ ((e : E) × (s' : S) × (m s ≡ (err e, s')))
    go (ok a, s') h = inl (a, s', h)
    go (err e, s') h = inr (e, s', h)

-- What two calls in a row keep.
pub keeps_bind :
    {E S A B X : Type 0} (f : S → X) (m : Exec E S A) (k : A → Exec E S B)
    → ((s : S) → f (m s).1 ≡ f s)
    → ((a : A) (s : S) → f (k a s).1 ≡ f s)
    → (s : S) → f ((m >>= k) s).1 ≡ f s
keeps_bind f m k h g s = elim (Exec-cases m s) [
  | inl (a, s', e) ↦ rw e (g a s' ∙ ap (λ p. f p.1) (sym e) ∙ h s)
  | inr (x, s', e) ↦ rw e (ap (λ p. f p.1) (sym e) ∙ h s)
]

-- An error that is dropped keeps what the call keeps.
pub keeps_attempt :
    {E S A X : Type 0} (f : S → X) (m : Exec E S A)
    → ((s : S) → f (m s).1 ≡ f s)
    → (s : S) → f (attempt m s).1 ≡ f s
keeps_attempt f m h s = h s
