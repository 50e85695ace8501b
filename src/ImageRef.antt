-- ===== src/ImageRef.antt =====
-- internal/imageref/imageref.go: how a template reference is read and normalised.
pub mod Canonical
pub mod Tags
use sbx_swarm_node.Prelude.{
  Bool, true, false, ◌||◌, Option, none, some, [], ◌∷◌, ◌++◌, Text, codes, ◌==◌, nat_eq, text_eq,
  if◌then◌else◌, contains, cut, cut_last,
}

-- strings.ContainsAny(host, ".:")
abbrev pub is_host : Text → Bool
is_host host = host == codes "localhost" || (contains b'.' host || contains b':' host)

unfoldable pub pullable : Text → Bool
unfolding cut
pullable ref = elim (cut b'/' ref) [ none ↦ false | some p ↦ is_host p.0 ]

unfoldable pub qualify : Text → Text
unfolding pullable
qualify ref =
    if pullable ref
    then ref
    else if contains b'/' ref
    then codes "docker.io/" ++ ref
    else codes "docker.io/library/" ++ ref

-- What follows the last slash, or all of it.
unfoldable pub last_segment : Text → Text
unfolding cut_last
last_segment ref = elim (cut_last b'/' ref) [ none ↦ ref | some p ↦ p.1 ]

unfoldable pub add_tag : Text → Text
unfolding last_segment
add_tag out = if contains b':' (last_segment out) then out else out ++ codes ":latest"

unfoldable pub canonical : Text → Text
unfolding qualify add_tag
canonical ref = add_tag (qualify ref)

-- The part of SplitRepoTag behind the last slash; `prefix` ends in that slash, or is empty.
unfoldable pub split_last : Text → Text → Text → Text × Text
unfolding cut_last
split_last ref prefix last =
    if contains b'@' last
    then (ref, [])
    else elim (cut_last b':' last) [ none ↦ (ref, []) | some p ↦ (prefix ++ p.0, p.1) ]

unfoldable pub split_repo_tag : Text → Text × Text
unfolding split_last
split_repo_tag ref = elim (cut_last b'/' ref) [
  | none ↦ split_last ref [] ref
  | some p ↦ split_last ref (p.0 ++ b'/' ∷ []) p.1
]
