-- ===== src/Service/Paths.antt =====
-- internal/apiserver/files.go: the path of a file in a sandbox that a request may write. The functions
-- of Go's package path are those of its documentation, on the parts between the slashes.
pub mod Parts
pub mod Names
use mathlib.Core.List.{reverse}
use sbx_swarm_node.Prelude.{
  ℕ, Bool, true, false, not, ◌||◌, List, [], ◌∷◌, ◌++◌, Option, none, some, Text, codes, nat_eq,
  text_eq, ◌==◌, if◌then◌else◌, is_some, cut_text, split, join, Result, ok, err,
}

-- path.IsAbs
unfoldable pub is_abs : Text → Bool
is_abs [] = false
is_abs (c ∷ _) = c == b'/'

-- The part before a `..` goes; at the root there is none.
unfoldable pub back_up : Bool → List Text → List Text
back_up rooted [] = if rooted then [] else codes ".." ∷ []
back_up rooted (part ∷ stack) = if part == codes ".." then codes ".." ∷ part ∷ stack else stack

-- One round of path.Clean; the stack has its last part at the head.
unfoldable pub clean_part : Bool → List Text → Text → List Text
clean_part rooted stack part =
    if part == [] || part == codes "."
    then stack
    else if part == codes ".."
    then back_up rooted stack
    else part ∷ stack

unfoldable pub clean_parts : Bool → List Text → List Text → List Text
clean_parts rooted stack [] = stack
clean_parts rooted stack (part ∷ parts) = clean_parts rooted (clean_part rooted stack part) parts

unfoldable pub render : Bool → List Text → Text
render true parts = b'/' ∷ join b'/' parts
render false [] = codes "."
render false (part ∷ parts) = join b'/' (part ∷ parts)

-- path.Clean; the empty path has no part and is not rooted.
unfoldable pub clean : Text → Text
clean p = render (is_abs p) (reverse (clean_parts (is_abs p) [] (split b'/' p)))

-- path.Join of two texts that are not empty.
unfoldable pub join_path : Text → Text → Text
join_path dir p = clean (dir ++ b'/' ∷ p)

abbrev pub default_upload_dir : Text
default_upload_dir = codes "/home/agent"

-- strings.HasSuffix with one byte.
unfoldable pub ends_with : ℕ → Text → Bool
ends_with c [] = false
ends_with c (x ∷ []) = x == c
ends_with c (_ ∷ y ∷ s) = ends_with c (y ∷ s)

pub data PathError : Type 0 where
  path_required must_be_file dot_dot : PathError

-- `trim_space` is strings.TrimSpace.
module _ (trim_space : Text → Text) where
  unfoldable pub absolute : Text → Text
  absolute p = if not (is_abs p) then join_path default_upload_dir p else p

  unfoldable pub resolve_upload_dest : Text → Result PathError Text
  resolve_upload_dest raw =
      let p = trim_space raw in
      let full = absolute p in
      let cleaned = clean full in
      if p == []
      then err path_required
      else if ends_with b'/' p
      then err must_be_file
      else if not (cleaned == full) || is_some (cut_text (codes "..") raw)
      then err dot_dot
      else ok cleaned
