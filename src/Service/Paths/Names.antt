-- ===== src/Service/Paths/Names.antt =====
-- internal/apiserver/files.go: where the accepted paths lie.
use mathlib.Core.List.{reverse, reverse-cons, reverse-append, append_assoc}
use sbx_swarm_node.Prelude.{
  ◌≡◌, refl, sym, ap, ◌∙◌, ◌⊎◌, subst, Bool, true, false, not, ◌||◌, List, [], ◌∷◌, ◌++◌, Option,
  none, some, Text, codes, nat_eq, text_eq, ◌==◌, ==_iff, if◌then◌else◌, is_some, contains, All,
  All-append, cut_text, split, split-cons, join, ok, err, arith, Bool-cases, inl, inr,
}
use sbx_swarm_node.Service.Paths.Parts.{split-absent, split-no_dots, no_dots-slice}
use sbx_swarm_node.Service.Paths.{
  is_abs, back_up, clean_part, clean_parts, render, clean, join_path, default_upload_dir, absolute,
  ends_with, resolve_upload_dest, path_required, must_be_file, dot_dot,
}

-- A part of a path that names something: it is not empty, not a dot or two, and has no slash.
pub record IsName (part : Text) : Type 0 where
  pub filled : (part == []) ≡ false
  pub no_dot : (part == codes ".") ≡ false
  pub no_dots : (part == codes "..") ≡ false
  pub no_slash : contains b'/' part ≡ false

clean_part-IsName :
    (stack : List Text) (part : Text)
    → All IsName stack
    → contains b'/' part ≡ false
    → All IsName (clean_part true stack part)
unfolding clean_part back_up
clean_part-IsName stack part h slash = elim (Bool-cases (part == [])) [
  | inl e ↦ rw e h
  | inr e ↦ elim (Bool-cases (part == codes ".")) [
    | inl d ↦ rw (e, d) h
    | inr d ↦ elim (Bool-cases (part == codes "..")) [
      | inl dd ↦ rw (e, d, dd) (backed stack h)
      | inr dd ↦
          rw (e, d, dd) (record { filled = e; no_dot = d; no_dots = dd; no_slash = slash }, h)
    ]
  ]
]
  where
    backed : (st : List Text) → All IsName st → All IsName (back_up true st)
    backed [] k = tt
    backed (p ∷ st) (k, ks) = rw k.no_dots ks

clean_parts-IsName :
    (stack parts : List Text)
    → All IsName stack
    → All (λ p. contains b'/' p ≡ false) parts
    → All IsName (clean_parts true stack parts)
unfolding clean_parts
clean_parts-IsName stack [] h k = h
clean_parts-IsName stack (p ∷ parts) h (k, ks) =
    clean_parts-IsName (clean_part true stack p) parts (clean_part-IsName stack p h k) ks

module _ (P : Text → Type 0) where
  reverse-All : (xs : List Text) → All P xs → All P (reverse xs)
  reverse-All [] h = h
  reverse-All (x ∷ xs) h =
      subst (All P) (sym (reverse-cons x xs))
        (All-append P (reverse xs) (x ∷ []) (reverse-All xs h.1) (h.0, tt))

-- Parts that are not two dots leave what is on the stack there.
clean_parts-keep :
    (stack parts : List Text)
    → All (λ p. (p == codes "..") ≡ false) parts
    → (more : List Text) × (clean_parts true stack parts ≡ more ++ stack)
unfolding clean_parts clean_part
clean_parts-keep stack [] h = ([], refl)
clean_parts-keep stack (p ∷ parts) (h, hs) = elim (Bool-cases (p == [] || p == codes ".")) [
  | inl e ↦ rw e (clean_parts-keep stack parts hs)
  | inr e ↦ rw (e, h) (pushed (clean_parts-keep (p ∷ stack) parts hs))
]
  where
    pushed :
        ((more : List Text) × (clean_parts true (p ∷ stack) parts ≡ more ++ p ∷ stack))
        → (more : List Text) × (clean_parts true (p ∷ stack) parts ≡ more ++ stack)
    pushed (more, e) = (more ++ p ∷ [], e ∙ sym (append_assoc more (p ∷ []) stack))

-- The parts of a rooted path that Clean leaves.
abbrev parts_of : Text → List Text
parts_of p = reverse (clean_parts true [] (split b'/' p))

clean-rooted : (p : Text) → is_abs p ≡ true → clean p ≡ b'/' ∷ join b'/' (parts_of p)
unfolding clean render
clean-rooted p h = rw h refl

parts_of-IsName : (p : Text) → All IsName (parts_of p)
parts_of-IsName p =
    reverse-All IsName (clean_parts true [] (split b'/' p))
      (clean_parts-IsName [] (split b'/' p) tt (split-absent b'/' p))

-- A path below the default directory.
abbrev below_default : Text → Text
below_default p = default_upload_dir ++ b'/' ∷ p

split-below :
    (p : Text) → split b'/' (below_default p) ≡ [] ∷ codes "home" ∷ codes "agent" ∷ split b'/' p
split-below p =
    split-cons b'/' [] (codes "home/agent" ++ b'/' ∷ p) refl
    ∙ ap (λ ps. [] ∷ ps)
        (split-cons b'/' (codes "home") (codes "agent" ++ b'/' ∷ p) refl
          ∙ ap (λ ps. codes "home" ∷ ps) (split-cons b'/' (codes "agent") p refl))

parts-below :
    (p : Text)
    → cut_text (codes "..") p ≡ none
    → (below : List Text) × (parts_of (below_default p) ≡ codes "home" ∷ codes "agent" ∷ below)
unfolding clean_parts clean_part
parts-below p h =
    let stack : List Text = codes "agent" ∷ codes "home" ∷ [] in
    let (more, e) = clean_parts-keep stack (split b'/' p) (split-no_dots b'/' p h) in
    (
      reverse more,
      ap (λ ps. reverse (clean_parts true [] ps)) (split-below p)
          ∙ ap reverse e
          ∙ reverse-append more stack,
    )

passes_tests :
    (a b same : Bool) (o : Option (Text × Text)) (c : Text) {dest : Text}
    → (if a
        then err path_required
        else if b
        then err must_be_file
        else if not same || is_some o
        then err dot_dot
        else ok c)
      ≡ ok dest
    → (same ≡ true) × (o ≡ none) × (c ≡ dest)
passes_tests true b same o c e = cc
passes_tests false true same o c e = cc
passes_tests false false false o c e = cc
passes_tests false false true (some x) c e = cc
passes_tests false false true none c e = (refl, refl, ground (arith, e))

module _ (trim_space : Text → Text) where
  accepted :
      (raw dest : Text)
      → resolve_upload_dest trim_space raw ≡ ok dest
      → (clean (absolute trim_space (trim_space raw)) ≡ absolute trim_space (trim_space raw))
        × (clean (absolute trim_space (trim_space raw)) ≡ dest)
        × (cut_text (codes "..") raw ≡ none)
  unfolding resolve_upload_dest
  accepted raw dest e =
      let full = absolute trim_space (trim_space raw) in
      let (same, absent, h) =
        passes_tests (trim_space raw == []) (ends_with b'/' (trim_space raw)) (clean full == full)
          (cut_text (codes "..") raw) (clean full) e in
      ((==_iff (clean full) full).0 same, h, absent)

  -- The path is rooted, and each of its parts names something; it is the request's if that is absolute,
  -- and lies in the default directory if not.
  abbrev pub Inside : Text → Text → Type 0
  Inside raw dest =
      (parts : List Text) × (dest ≡ b'/' ∷ join b'/' parts)
      × All IsName parts
      × (((is_abs (trim_space raw) ≡ true) × (dest ≡ trim_space raw))
          ⊎ ((is_abs (trim_space raw) ≡ false)
              × (below : List Text) × (parts ≡ codes "home" ∷ codes "agent" ∷ below)))

  -- A path that is accepted is rooted, and each of its parts names something: none is empty, a dot or
  -- two, so that it cannot lead up. An absolute path is taken as it is, without the space around it,
  -- and any other lies in the default directory, or is that. The hypothesis is that strings.TrimSpace
  -- returns a slice.
  pub resolve_upload_dest-Inside :
      (slice : (s : Text) → (front back : Text) × (s ≡ front ++ (trim_space s ++ back)))
      (raw dest : Text)
      → resolve_upload_dest trim_space raw ≡ ok dest
      → Inside raw dest
  unfolding absolute join_path is_abs
  resolve_upload_dest-Inside slice raw dest e =
      let (same, h, absent) = accepted raw dest e in
      elim (Bool-cases (is_abs (trim_space raw))) [
        | inl a ↦
            let full : absolute trim_space (trim_space raw) ≡ trim_space raw = rw a refl in
            (
              parts_of (trim_space raw),
              sym h ∙ ap clean full ∙ clean-rooted (trim_space raw) a,
              parts_of-IsName (trim_space raw),
              inl (a, sym h ∙ same ∙ full),
            )
        | inr a ↦
            let p = trim_space raw in
            let full : absolute trim_space p ≡ clean (below_default p) = rw a refl in
            let (front, back, whole) = slice raw in
            let plain =
              no_dots-slice front p back (ap (cut_text (codes "..")) (sym whole) ∙ absent) in
            let (below, lies) = parts-below p plain in
            (
              parts_of (below_default p),
              sym h ∙ same ∙ full ∙ clean-rooted (below_default p) refl,
              parts_of-IsName (below_default p),
              inr (a, below, lies),
            )
      ]
