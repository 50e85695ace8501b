-- ===== src/Sandbox/Kits.antt =====
-- internal/sandbox/kits.go: which of the configured kits a node offers. The goroutines write
-- different names, so their order does not matter and they run here in the map's order.
pub mod Admitted
use sbx_swarm_node.Prelude.{
  Bool, true, false, not, ◌&&◌, List, [], ◌∷◌, Option, none, some, Text, text_eq, codes, ◌==◌,
  if◌then◌else◌, map, Map, put, sort_texts, ltb,
}

-- The kind is "mixin" or "sandbox".
pub record KitInfo : Type 0 where
  pub kind : Text
  pub has_resources : Bool
  pub has_run_options : Bool
  pub has_template : Bool
  pub has_volumes : Bool

pub data Refusal : Type 0 where
  wrong_kind resources run_options template volumes : Refusal

-- `none` is the nil error.
unfoldable pub admit : KitInfo → Option Refusal
admit i =
    if not (i.kind == codes "mixin")
    then some wrong_kind
    else if i.has_resources
    then some resources
    else if i.has_run_options
    then some run_options
    else if i.has_template
    then some template
    else if i.has_volumes
    then some volumes
    else none

-- The outcome of one goroutine; `none` stands for an inspection that failed or timed out.
unfoldable pub is_offered : Option KitInfo → Bool
unfolding admit
is_offered none = true
is_offered (some i) = elim (admit i) [ none ↦ true | some _ ↦ false ]

unfoldable pub admit_kits : (Text → Option KitInfo) → Map Text Text → Map Text Text
unfolding is_offered
admit_kits inspect [] = []
admit_kits inspect ((name, ref) ∷ kits) =
    let admitted = admit_kits inspect kits in
    if is_offered (inspect ref) then put name ref admitted else admitted

unfoldable pub kit_names : Map Text Text → List Text
kit_names kits = sort_texts (map (λ e. e.0) kits)
