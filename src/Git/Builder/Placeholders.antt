-- ===== src/Git/Builder/Placeholders.antt =====
-- internal/git/builder.go: what strings.Replacer makes of one argument of a step.
use mathlib.Core.Option as Option
use sbx_swarm_node.Prelude.{
  ℕ, zero, suc, ◌≤◌, ◌≡◌, ◌≢◌, refl, sym, ◌∙◌, ap, subst, ◌⊎◌, [], ◌∷◌, ◌++◌, none, some, Text,
  codes, text_eq, nat_eq, ◌==◌, ==_iff, length, length-append, strip_prefix, arith, Bool-cases,
  Option-cases, inl, inr, ◌-◌,
}
use sbx_swarm_node.Git.Builder.{Vars, placeholder, key_at, replace_from, replace, replace}

-- The placeholders of a step, and the values that stand for them.
pub data Binding (v : Vars) : Text → Text → Type 0 where
  by_branch : Binding v (codes "{branch}") v.branch
  by_base_ref : Binding v (codes "{base_ref}") v.base_ref
  by_remote : Binding v (codes "{remote}") v.remote
  by_sandbox_remote : Binding v (codes "{sandbox_remote}") v.sandbox_remote

-- The second text is the first with each placeholder replaced, read from the left, and every other byte
-- as it was.
pub data Replaces (v : Vars) : Text → Text → Type 0 where
  at_end : Replaces v [] []
  bound :
      {key val s s' : Text}
      → Binding v key val
      → Replaces v s s'
      → Replaces v (key ++ s) (val ++ s')
  literal :
      (c : ℕ) {s s' : Text}
      → ((key val rest : Text) → Binding v key val → c ∷ s ≢ key ++ rest)
      → Replaces v s s'
      → Replaces v (c ∷ s) (c ∷ s')

strip_prefix-found : (key t rest : Text) → strip_prefix key t ≡ some rest → t ≡ key ++ rest
unfolding strip_prefix
strip_prefix-found [] t rest h = Option.some_inj.0 h
strip_prefix-found (c ∷ key) [] rest h = cc
strip_prefix-found (c ∷ key) (x ∷ t) rest h = elim (Bool-cases (x == c)) [
  | inl e ↦
      rw ((==_iff x c).0 e) (ap (λ s. c ∷ s) (strip_prefix-found key t rest (ground (arith, h, e))))
  | inr e ↦ absurd (ground (arith, h, e))
]

strip_prefix-append : (key rest : Text) → strip_prefix key (key ++ rest) ≡ some rest
unfolding strip_prefix
strip_prefix-append [] rest = refl
strip_prefix-append (c ∷ key) rest = rw ((==_iff c c).1 refl) (strip_prefix-append key rest)

key_at-cases :
    (key val t : Text)
    → ((key_at key val t ≡ none) × ((rest : Text) → t ≢ key ++ rest))
      ⊎ ((rest : Text) × (t ≡ key ++ rest) × (key_at key val t ≡ some (val, length key - 1)))
unfolding key_at
key_at-cases key val t = elim (Option-cases (strip_prefix key t)) [
  | inl n ↦ inl (
    rw n refl,
    λ rest. λ e. other rest (sym n ∙ ap (strip_prefix key) e ∙ strip_prefix-append key rest),
  )
  | inr (rest, e) ↦ inr (rest, strip_prefix-found key t rest e, rw e refl)
]
  where
    other : (rest : Text) → none ≢ some rest
    other rest e = cc

-- The placeholder at the front of a token, or that there is none.
placeholder-cases :
    (v : Vars) (t : Text)
    → ((placeholder v t ≡ none) × ((key val rest : Text) → Binding v key val → t ≢ key ++ rest))
      ⊎ ((key : Text) × (val : Text) × (rest : Text) × Binding v key val
          × (t ≡ key ++ rest)
          × (placeholder v t ≡ some (val, length key - 1)))
unfolding placeholder
placeholder-cases v t = elim (key_at-cases (codes "{branch}") v.branch t) [
  | inr (rest, e, f) ↦ inr (codes "{branch}", v.branch, rest, by_branch, e, rw f refl)
  | inl (f1, n1) ↦ elim (key_at-cases (codes "{base_ref}") v.base_ref t) [
    | inr (rest, e, f) ↦ inr (codes "{base_ref}", v.base_ref, rest, by_base_ref, e, rw (f1, f) refl)
    | inl (f2, n2) ↦ elim (key_at-cases (codes "{remote}") v.remote t) [
      | inr (rest, e, f) ↦ inr (codes "{remote}", v.remote, rest, by_remote, e, rw (f1, f2, f) refl)
      | inl (f3, n3) ↦ elim (key_at-cases (codes "{sandbox_remote}") v.sandbox_remote t) [
        | inr (rest, e, f) ↦ inr (
          codes "{sandbox_remote}",
          v.sandbox_remote,
          rest,
          by_sandbox_remote,
          e,
          rw (f1, f2, f3, f) refl,
        )
        | inl (f4, n4) ↦ inl (rw (f1, f2, f3, f4) refl, none_of n1 n2 n3 n4)
      ]
    ]
  ]
]
  where
    none_of :
        ((rest : Text) → t ≢ codes "{branch}" ++ rest)
        → ((rest : Text) → t ≢ codes "{base_ref}" ++ rest)
        → ((rest : Text) → t ≢ codes "{remote}" ++ rest)
        → ((rest : Text) → t ≢ codes "{sandbox_remote}" ++ rest)
        → (key val rest : Text) → Binding v key val
        → t ≢ key ++ rest
    none_of a b c d key val rest by_branch = a rest
    none_of a b c d key val rest by_base_ref = b rest
    none_of a b c d key val rest by_remote = c rest
    none_of a b c d key val rest by_sandbox_remote = d rest

-- The bytes of a placeholder that follow its first one are left out.
replace_from-skips :
    (v : Vars) (key rest : Text) → replace_from v (length key) (key ++ rest) ≡ replace_from v 0 rest
unfolding replace_from
replace_from-skips v [] rest = refl
replace_from-skips v (c ∷ key) rest = replace_from-skips v key rest

-- A placeholder is not empty.
Binding-cons :
    (v : Vars) (key val : Text) → Binding v key val → (c : ℕ) × (more : Text) × (key ≡ c ∷ more)
Binding-cons v key val by_branch = (_, _, refl)
Binding-cons v key val by_base_ref = (_, _, refl)
Binding-cons v key val by_remote = (_, _, refl)
Binding-cons v key val by_sandbox_remote = (_, _, refl)

replace_from-literal :
    (v : Vars) (c : ℕ) (s : Text)
    → placeholder v (c ∷ s) ≡ none
    → replace_from v 0 (c ∷ s) ≡ c ∷ replace_from v 0 s
unfolding replace_from
replace_from-literal v c s h = rw h refl

replace_from-bound :
    (v : Vars) (c : ℕ) (more rest val : Text)
    → placeholder v (c ∷ (more ++ rest)) ≡ some (val, length more)
    → replace_from v 0 (c ∷ (more ++ rest)) ≡ val ++ replace_from v 0 rest
unfolding replace_from
replace_from-bound v c more rest val h = rw h (ap (λ s. val ++ s) (replace_from-skips v more rest))

replace_from-Replaces :
    (v : Vars) (fuel : ℕ) (t : Text) → length t ≤ fuel → Replaces v t (replace_from v 0 t)
replace_from-Replaces v fuel [] h = unfold replace_from in at_end
replace_from-Replaces v zero (c ∷ s) h = absurd (omega (arith, h))
replace_from-Replaces v (suc fuel) (c ∷ s) h = elim (placeholder-cases v (c ∷ s)) [
  | inl (none_here, other) ↦
      rw (replace_from-literal v c s none_here)
        (literal c other (replace_from-Replaces v fuel s (omega (arith, h))))
  | inr (key, val, rest, b, e, f) ↦
      let (k, more, key_is) = Binding-cons v key val b in
      let whole : c ∷ s ≡ k ∷ (more ++ rest) = e ∙ ap (λ x. x ++ rest) key_is in
      let shorter : length rest ≤ fuel =
        omega (arith, h, ap length whole, length-append more rest) in
      let less : length key - 1 ≡ length more = omega (arith, ap length key_is) in
      let found : placeholder v (k ∷ (more ++ rest)) ≡ some (val, length more) =
        ap (placeholder v) (sym whole) ∙ f ∙ ap (λ n. some (val, n)) less in
      let tail = replace_from-Replaces v fuel rest shorter in
      subst (λ x. Replaces v x (replace_from v 0 x)) (sym e)
        (subst (λ y. Replaces v (key ++ rest) y)
          (sym (replace_from-bound v k more rest val found)
            ∙ ap (λ x. replace_from v 0 (x ++ rest)) (sym key_is))
          (bound b tail))
]

-- The replacer replaces the placeholders and nothing else.
pub replace-Replaces : (v : Vars) (t : Text) → Replaces v t (replace v t)
unfolding replace
replace-Replaces v t = replace_from-Replaces v (length t) t (omega arith)
