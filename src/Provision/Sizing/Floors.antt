-- ===== src/Provision/Sizing/Floors.antt =====
-- internal/apiserver/sandboxservice.go: the sizes that the accounting sees.
use sbx_swarm_node.Prelude.{
  ℕ, ◌/◌, ◌<◌, ◌≤◌, ◌≡◌, refl, Bool, true, false, not, ◌&&◌, ◌||◌, ◌↔◌, string_eq, ltb, lt→ltb, ℤ,
  pos, negsuc, arith, Bool-cases, inl, inr,
}
use sbx_swarm_node.Sandbox.Manager.{cost_of}
use sbx_swarm_node.Provision.Sizing.{
  CreateRequest, Resources, no_defaults, is_positive, truncated, filled, filled_cpus, floor_memory,
  effective_spec, to_nat, to_spec,
}

-- The default of less than one whole core, which the conversion to an integer makes 0.
abbrev pub is_fraction : ℤ → Bool
is_fraction (pos n) = ltb 0 n && ltb n 1000
is_fraction (negsuc _) = false

-- Every resource of the request is set.
pub record IsSized (r : CreateRequest) : Type 0 where
  pub cpus : is_positive r.cpus ≡ true
  pub memory : is_positive r.memory_bytes ≡ true
  pub disk : is_positive r.disk ≡ true

filled-positive :
    (asked default floor : ℤ)
    → is_positive floor ≡ true
    → is_positive (filled asked default floor) ≡ true
unfolding filled
filled-positive asked default floor h = ground arith

filled-same :
    (asked default floor : ℤ) → is_positive asked ≡ true → filled asked default floor ≡ asked
unfolding filled
filled-same asked default floor h = rw h refl

filled_cpus-same :
    (asked default : ℤ) → is_positive asked ≡ true → filled_cpus asked default ≡ asked
unfolding filled_cpus
filled_cpus-same asked default h = rw h refl

truncated-positive :
    (default : ℤ)
    → is_positive default ≡ true
    → is_fraction default ≡ false
    → is_positive (truncated default) ≡ true
unfolding truncated is_positive
truncated-positive (pos n) h f = lt→ltb 0 (n / 1000) (ground (arith, h, f))
truncated-positive (negsuc n) h f = ground (arith, h)

filled_cpus-positive :
    (asked default : ℤ)
    → is_fraction default ≡ false
    → is_positive (filled_cpus asked default) ≡ true
unfolding filled_cpus
filled_cpus-positive asked default f = ground (arith, f, truncated-positive default)

filled_cpus-fraction :
    (asked default : ℤ)
    → is_positive asked ≡ false
    → is_fraction default ≡ true
    → filled_cpus asked default ≡ pos 0
unfolding filled_cpus truncated is_positive
filled_cpus-fraction asked (pos n) a f =
    let less : n / 1000 ≡ 0 = ground (arith, f) in
    let set : ltb 0 n ≡ true = ground (arith, f) in rw (a, set, less) refl
filled_cpus-fraction asked (negsuc n) a f = ground (arith, f)

to_nat-positive : (z : ℤ) → is_positive z ≡ true → 1 ≤ to_nat z
unfolding is_positive to_nat
to_nat-positive (pos n) h = ground (arith, h)
to_nat-positive (negsuc n) h = ground (arith, h)

pub effective_spec-IsSized :
    (gb : ℕ) (d : Resources) (r : CreateRequest)
    → 0 < gb
    → is_fraction d.cpu_millis ≡ false
    → IsSized (effective_spec gb d r)
unfolding effective_spec is_positive
effective_spec-IsSized gb d r g f = record {
  cpus = filled_cpus-positive r.cpus d.cpu_millis f;
  memory = filled-positive r.memory_bytes d.memory_bytes (pos floor_memory) refl;
  disk = filled-positive r.disk d.disk (pos gb) (lt→ltb 0 gb g);
}

charged_cpus :
    (asked default : ℤ)
    → (1 ≤ to_nat (filled_cpus asked default))
      ↔ ((is_positive asked || not (is_fraction default)) ≡ true)
charged_cpus asked default = elim (Bool-cases (is_positive asked)) [
  | inl a ↦
      ((λ _. rw a refl), (λ _. rw (filled_cpus-same asked default a) (to_nat-positive asked a)))
  | inr a ↦ elim (Bool-cases (is_fraction default)) [
    | inl f ↦ (
      (λ l. absurd (none_charged (rw⁻¹ (filled_cpus-fraction asked default a f) l))),
      (λ e. ground (arith, e, a, f)),
    )
    | inr f ↦ (
      (λ _. rw (a, f) refl),
      (λ _. to_nat-positive (filled_cpus asked default) (filled_cpus-positive asked default f)),
    )
  ]
]
  where
    none_charged : 1 ≤ to_nat (pos 0) → ⊥
    none_charged l = unfold to_nat in omega arith

-- A request is charged at least one byte of memory and one unit of disk space, whatever it asks for
-- and the defaults are; and at least one core if and only if it asks for cores itself or the default
-- is not a fraction of one core.
pub effective_spec-charged :
    (gb : ℕ) (d : Resources) (r : CreateRequest)
    → 0 < gb
    → (1 ≤ (cost_of (to_spec (effective_spec gb d r))).mem)
      × (1 ≤ (cost_of (to_spec (effective_spec gb d r))).disk)
      × ((1 ≤ (cost_of (to_spec (effective_spec gb d r))).cpu)
          ↔ ((is_positive r.cpus || not (is_fraction d.cpu_millis)) ≡ true))
unfolding effective_spec cost_of to_spec
effective_spec-charged gb d r g = (
  to_nat-positive (filled r.memory_bytes d.memory_bytes (pos floor_memory)) (
      filled-positive r.memory_bytes d.memory_bytes (pos floor_memory)
        (unfold is_positive in refl)),
  to_nat-positive (filled r.disk d.disk (pos gb))
      (filled-positive r.disk d.disk (pos gb) (unfold is_positive in lt→ltb 0 gb g)),
  charged_cpus r.cpus d.cpu_millis,
)

effective_spec-sized :
    (gb : ℕ) (q : CreateRequest) → IsSized q → effective_spec gb no_defaults q ≡ q
unfolding effective_spec
effective_spec-sized gb q h =
    rw
      (
        filled_cpus-same q.cpus (pos 0) h.cpus,
        filled-same q.memory_bytes (pos 0) (pos floor_memory) h.memory,
        filled-same q.disk (pos 0) (pos gb) h.disk,
      )
      refl

-- What one node has sized, another node that applies the built-in floors again leaves as it is, if
-- the default of the first is not a fraction of one core.
pub effective_spec_again :
    (gb : ℕ) (d : Resources) (r : CreateRequest)
    → 0 < gb
    → is_fraction d.cpu_millis ≡ false
    → effective_spec gb no_defaults (effective_spec gb d r) ≡ effective_spec gb d r
effective_spec_again gb d r g f =
    effective_spec-sized gb (effective_spec gb d r) (effective_spec-IsSized gb d r g f)
