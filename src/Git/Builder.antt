-- ===== src/Git/Builder.antt =====
-- internal/git/builder.go: the values of a request are bound into the steps of the configuration.
pub mod Placeholders
pub mod Refs
pub mod Tokens
use mathlib.Core.Option
use sbx_swarm_node.Prelude.{
  ℕ, zero, suc, ◌+◌, ◌-◌, Bool, true, false, not, ◌&&◌, ◌||◌, List, [], ◌∷◌, ◌++◌, Option, none,
  some, Text, codes, text_eq, nat_eq, ◌==◌, eqb, leb, all, map, contains, length, strip_prefix,
  if◌then◌else◌, Result, ok, err,
}

pub record Vars : Type 0 where
  pub branch : Text
  pub base_ref : Text
  pub remote : Text
  pub sandbox_remote : Text

-- The error names the variable whose value is refused.
pub data BuildError : Type 0 where
  invalid : Text → Text → BuildError

abbrev pub between : ℕ → ℕ → ℕ → Bool
between low high c = leb low c && leb c high

-- [A-Za-z0-9._/\-]
abbrev pub is_ref_byte : ℕ → Bool
is_ref_byte c =
    between b'A' b'Z' c
    || between b'a' b'z' c
    || between b'0' b'9' c
    || c == b'.'
    || c == b'_'
    || c == b'/'
    || c == b'-'

abbrev pub starts_with_dash : Text → Bool
starts_with_dash [] = false
starts_with_dash (c ∷ _) = c == b'-'

-- strings.Contains(_, "..")
abbrev pub has_dots : Text → Bool
has_dots [] = false
has_dots (c ∷ s) = (c == b'.' && starts_with_dot s) || has_dots s
  where
    starts_with_dot : Text → Bool
    starts_with_dot [] = false
    starts_with_dot (d ∷ _) = d == b'.'

-- `true` is the nil error; the caller makes the error of the name and the value.
unfoldable pub validate_ref : Text → Bool
validate_ref val =
    val == [] || not (starts_with_dash val || has_dots val || not (all is_ref_byte val))

-- A placeholder at the front of a text: its value, and its length less one.
key_at : Text → Text → Text → Option (Text × ℕ)
key_at key val s = Option.map (λ _. (val, length key - 1)) (strip_prefix key s)

-- The first placeholder, in the order of the replacer's arguments, that stands at the front.
unfoldable pub placeholder : Vars → Text → Option (Text × ℕ)
unfolding key_at
placeholder v s = first_of (key_at (codes "{branch}") v.branch s) (
    first_of (key_at (codes "{base_ref}") v.base_ref s) (
      first_of (key_at (codes "{remote}") v.remote s)
        (key_at (codes "{sandbox_remote}") v.sandbox_remote s)))
  where
    first_of : Option (Text × ℕ) → Option (Text × ℕ) → Option (Text × ℕ)
    first_of (some p) _ = some p
    first_of none q = q

-- strings.Replacer: the first number counts the bytes of a placeholder that is being left out.
replace_from : Vars → ℕ → Text → Text
replace_from v skip [] = []
replace_from v (suc skip) (c ∷ s) = replace_from v skip s
replace_from v zero (c ∷ s) = go_on (placeholder v (c ∷ s)) (λ skip. replace_from v skip s)
  where
    go_on : Option (Text × ℕ) → (ℕ → Text) → Text
    go_on (some p) rest = p.0 ++ rest p.1
    go_on none rest = c ∷ rest 0

unfoldable pub replace : Vars → Text → Text
unfolding replace_from
replace v = replace_from v 0

-- The values are checked in the order of the fields.
unfoldable pub build : List (List Text) → Vars → Result BuildError (List (List Text))
unfolding validate_ref replace
build steps v =
    if not (validate_ref v.branch)
    then err (invalid (codes "branch") v.branch)
    else if not (validate_ref v.base_ref)
    then err (invalid (codes "base_ref") v.base_ref)
    else if not (validate_ref v.remote)
    then err (invalid (codes "remote") v.remote)
    else if not (validate_ref v.sandbox_remote)
    then err (invalid (codes "sandbox_remote") v.sandbox_remote)
    else ok (map (λ step. map (replace v) step) steps)
