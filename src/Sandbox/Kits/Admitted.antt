-- ===== src/Sandbox/Kits/Admitted.antt =====
-- internal/sandbox/kits.go: the manifests that `admit` passes, and the kits that are offered.
use sbx_swarm_node.Prelude.{
  ◌≡◌, refl, ◌↔◌, false, [], ◌∷◌, Option, none, some, Text, text_eq, codes, ◌==◌, ==_iff,
  if◌then◌else◌, Bool-cases, inl, inr, arith, map, Map, get, get-put, All, IsMap, IsSorted,
  sort_texts-IsSorted, sort_texts-perm, text_less,
}
use mathlib.Core.List.{Perm}
use sbx_swarm_node.Sandbox.Kits.{KitInfo, admit, is_offered, admit_kits, kit_names}

-- The manifests that a node may offer: mixins that leave capacity, image and mounts alone.
pub record IsHarmless (i : KitInfo) : Type 0 where
  pub mixin : i.kind ≡ codes "mixin"
  pub no_resources : i.has_resources ≡ false
  pub no_run_options : i.has_run_options ≡ false
  pub no_template : i.has_template ≡ false
  pub no_volumes : i.has_volumes ≡ false

-- A manifest is admitted exactly if it is a mixin's that declares no resources, no run options, no
-- template and no volumes.
pub admit_iff : (i : KitInfo) → (admit i ≡ none) ↔ IsHarmless i
unfolding admit
admit_iff i = (
  (λ h. record {
    mixin = ground (arith, ==_iff i.kind (codes "mixin"));
    no_resources = ground arith;
    no_run_options = ground arith;
    no_template = ground arith;
    no_volumes = ground arith;
  }),
  (λ w.
      let k = (==_iff i.kind (codes "mixin")).1 w.mixin in
      rw (k, w.no_resources, w.no_run_options, w.no_template, w.no_volumes) refl),
)

-- What is left of a looked-up reference.
unfoldable pub offered : (Text → Option KitInfo) → Option Text → Option Text
offered inspect none = none
offered inspect (some ref) = if is_offered (inspect ref) then some ref else none

absent-admit_kits :
    (inspect : Text → Option KitInfo) (name : Text) (kits : Map Text Text)
    → All (λ p. (p.0 == name) ≡ false) kits
    → get name (admit_kits inspect kits) ≡ none
unfolding admit_kits get
absent-admit_kits inspect name [] h = refl
absent-admit_kits inspect name ((j, ref) ∷ kits) h = elim (Bool-cases (is_offered (inspect ref))) [
  | inl e ↦
      rw (e, get-put j name ref (admit_kits inspect kits), h.0)
        (absent-admit_kits inspect name kits h.1)
  | inr e ↦ rw e (absent-admit_kits inspect name kits h.1)
]

-- For kits with distinct names: a name is offered with exactly its configured reference, if the
-- inspection of that reference failed or admits it, and is not offered otherwise.
pub get-admit_kits :
    (inspect : Text → Option KitInfo) (name : Text) (kits : Map Text Text)
    → IsMap kits
    → get name (admit_kits inspect kits) ≡ offered inspect (get name kits)
unfolding admit_kits get offered
get-admit_kits inspect name [] m = refl
get-admit_kits inspect name ((j, ref) ∷ kits) m = elim (Bool-cases (j == name)) [
  | inl e ↦
      let same = (==_iff j name).0 e in
      ground (
        arith,
        get-put j name ref (admit_kits inspect kits),
        absent-admit_kits inspect j kits m.0,
        same,
        e,
      )
  | inr e ↦
      ground (
        arith,
        get-put j name ref (admit_kits inspect kits),
        get-admit_kits inspect name kits m.1,
        e,
      )
]

-- The advertised names are the names of the kits, each as often, in ascending byte order.
pub kit_names-IsSorted :
    (kits : Map Text Text)
    → IsSorted text_less (kit_names kits) × Perm (kit_names kits) (map (λ e. e.0) kits)
unfolding kit_names
kit_names-IsSorted kits =
    (sort_texts-IsSorted (map (λ e. e.0) kits), sort_texts-perm (map (λ e. e.0) kits))
