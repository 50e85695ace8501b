-- ===== src/Git/Builder/Tokens.antt =====
-- internal/git/builder.go: what a value of a request can do to a command.
use sbx_swarm_node.Prelude.{
  ℕ, ◌≡◌, refl, ap, ◌↔◌, Bool, true, false, ◌&&◌, List, [], ◌∷◌, ◌++◌, Text, text_eq, nat_eq, ◌==◌,
  map, ok, arith,
}
use sbx_swarm_node.Git.Builder.{Vars, validate_ref, replace, build}
use sbx_swarm_node.Git.Builder.Refs.{IsRef, NoDash, validate_ref_iff}
use sbx_swarm_node.Git.Builder.Placeholders.{
  Binding, by_branch, by_base_ref, by_remote, by_sandbox_remote, Replaces, at_end, bound, literal,
  replace-Replaces,
}

-- Two lists of the same length with related members.
abbrev pub Aligned {ℓ} : {A B : Type ℓ} → (A → B → Type 0) → List A → List B → Type 0
Aligned R [] [] = Unit {0}
Aligned R [] (_ ∷ _) = ⊥
Aligned R (_ ∷ _) [] = ⊥
Aligned R (x ∷ xs) (y ∷ ys) = R x y × Aligned R xs ys

pub Aligned-map {ℓ} :
    {A B : Type ℓ} (R : A → B → Type 0) (f : A → B) (xs : List A)
    → ((x : A) → R x (f x))
    → Aligned R xs (map f xs)
Aligned-map R f [] h = tt
Aligned-map R f (x ∷ xs) h = (h x, Aligned-map R f xs h)

-- What becomes of one token: its placeholders are replaced, and it is an option only if the step
-- wrote one.
pub record IsBound (v : Vars) (t t' : Text) : Type 0 where
  pub replaced : Replaces v t t'
  pub no_option :
      NoDash t
      → ((key val rest : Text) → Binding v key val → t ≡ key ++ rest → (val == []) ≡ false)
      → NoDash t'

-- All four values are unset or refs.
pub record AreRefs (v : Vars) : Type 0 where
  pub branch_ref : IsRef v.branch
  pub base_ref_ref : IsRef v.base_ref
  pub remote_ref : IsRef v.remote
  pub sandbox_remote_ref : IsRef v.sandbox_remote

abbrev all_valid : Vars → Bool
all_valid v =
    validate_ref v.branch
    && validate_ref v.base_ref
    && validate_ref v.remote
    && validate_ref v.sandbox_remote

all_valid_iff : (v : Vars) → (all_valid v ≡ true) ↔ AreRefs v
all_valid_iff v =
    let branch = validate_ref_iff v.branch in
    let base = validate_ref_iff v.base_ref in
    let remote = validate_ref_iff v.remote in
    let sandbox = validate_ref_iff v.sandbox_remote in
    (
      (λ h. record {
        branch_ref = branch.0 (ground (arith, h));
        base_ref_ref = base.0 (ground (arith, h));
        remote_ref = remote.0 (ground (arith, h));
        sandbox_remote_ref = sandbox.0 (ground (arith, h));
      }),
      (λ r. ground (
        arith,
        branch.1 r.branch_ref,
        base.1 r.base_ref_ref,
        remote.1 r.remote_ref,
        sandbox.1 r.sandbox_remote_ref,
      )),
    )

Binding-NoDash : (v : Vars) (key val : Text) → AreRefs v → Binding v key val → NoDash val
Binding-NoDash v key val r by_branch = r.branch_ref.no_dash
Binding-NoDash v key val r by_base_ref = r.base_ref_ref.no_dash
Binding-NoDash v key val r by_remote = r.remote_ref.no_dash
Binding-NoDash v key val r by_sandbox_remote = r.sandbox_remote_ref.no_dash

append-NoDash : (a b : Text) → (a == []) ≡ false → NoDash a → NoDash (a ++ b)
append-NoDash [] b n h = ground arith
append-NoDash (c ∷ a) b n h = λ rest. λ e. h a (ap (λ x. x ∷ a) (first e))
  where
    first : {x y : ℕ} {xs ys : Text} → x ∷ xs ≡ y ∷ ys → x ≡ y
    first e = cc

Replaces-NoDash :
    (v : Vars) (t t' : Text)
    → AreRefs v
    → Replaces v t t'
    → NoDash t
    → ((key val rest : Text) → Binding v key val → t ≡ key ++ rest → (val == []) ≡ false)
    → NoDash t'
Replaces-NoDash v t t' r at_end d set = d
Replaces-NoDash v t t' r (bound {key} {val} {s} {s'} b more) d set =
    append-NoDash val s' (set key val s b refl) (Binding-NoDash v key val r b)
Replaces-NoDash v t t' r (literal c {s} {s'} other more) d set =
    λ rest. λ e. d s (ap (λ x. x ∷ s) (first e))
  where
    first : {x y : ℕ} {xs ys : Text} → x ∷ xs ≡ y ∷ ys → x ≡ y
    first e = cc

replace-IsBound : (v : Vars) (t : Text) → AreRefs v → IsBound v t (replace v t)
replace-IsBound v t r =
    let done = replace-Replaces v t in
    record { replaced = done; no_option = Replaces-NoDash v t (replace v t) r done }

build-ok :
    (steps : List (List Text)) (v : Vars) (out : List (List Text))
    → build steps v ≡ ok out
    → all_valid v ≡ true
unfolding build
build-ok steps v out e = ground (arith, e)

-- A pipeline is built if and only if all values of the request and of the configuration are unset
-- or refs: no leading dash, no two dots in a row, only letters, digits and the characters ._/-. Each
-- step then has as many arguments as it was configured with, and each argument is the configured one
-- with its placeholders replaced by their values, from the left, and all else unchanged. One that the
-- configuration did not begin with a dash does not begin with one, unless it begins with a placeholder
-- that has no value.
pub build-IsBound :
    (steps : List (List Text)) (v : Vars)
    → AreRefs v ↔ (
        (out : List (List Text)) × (build steps v ≡ ok out)
        × Aligned (Aligned (IsBound v)) steps out)
build-IsBound steps v = (
  λ r. (
    map (λ step. map (replace v) step) steps,
    built ((all_valid_iff v).1 r),
    Aligned-map (Aligned (IsBound v)) (λ step. map (replace v) step) steps
        (λ step. Aligned-map (IsBound v) (replace v) step (λ t. replace-IsBound v t r)),
  ),
  (λ (out, e, _). (all_valid_iff v).0 (build-ok steps v out e)),
)
  where
    built : all_valid v ≡ true → build steps v ≡ ok (map (λ step. map (replace v) step) steps)
    built h = unfold build in ground (arith, h)
