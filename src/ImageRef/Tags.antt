-- ===== src/ImageRef/Tags.antt =====
-- internal/imageref/imageref.go: SplitRepoTag against its own recombination.
use sbx_swarm_node.Prelude.{
  ℕ, ◌≡◌, refl, sym, ap, ◌∙◌, ◌⊎◌, false, [], ◌∷◌, ◌++◌, arith, Text, nat_eq, Bool-cases,
  Option-cases, inl, inr, contains, contains-append, cut_last, cut_last_parts, cut_last-cons,
  cut_last-none, cut_last-append,
}
use mathlib.Core.List.{append_assoc}
use sbx_swarm_node.ImageRef.{split_last, split_repo_tag}

-- Either there is no tag and the repository is the whole reference, or the two recombine to the
-- reference around a colon, and the tag holds no colon and no slash.
abbrev pub Split : Text → Text → Text → Type 0
Split ref repo tag =
    ((repo ≡ ref) × (tag ≡ []))
    ⊎ ((ref ≡ repo ++ b':' ∷ tag) × (contains b':' tag ≡ false) × (contains b'/' tag ≡ false))

tag_of_last :
    (c : ℕ) (last repo tag : Text)
    → last ≡ repo ++ b':' ∷ tag
    → contains c last ≡ false
    → contains c tag ≡ false
tag_of_last c last repo tag e h = ground (arith, contains-append c repo (b':' ∷ tag))

split_last-Split :
    (ref prefix last : Text)
    → ref ≡ prefix ++ last
    → contains b'/' last ≡ false
    → Split ref (split_last ref prefix last).0 (split_last ref prefix last).1
unfolding split_last
split_last-Split ref prefix last e s = elim (Bool-cases (contains b'@' last)) [
  | inl d ↦ rw d (inl (refl, refl))
  | inr d ↦ elim (Option-cases (cut_last b':' last)) [
    | inl n ↦ rw (d, n) (inl (refl, refl))
    | inr (p, m) ↦
        let (whole, no_colon) = cut_last_parts b':' last m in
        rw (d, m)
          (inr (
            e ∙ ap (λ t. prefix ++ t) whole ∙ sym (append_assoc prefix p.0 (b':' ∷ p.1)),
            no_colon,
            tag_of_last b'/' last p.0 p.1 whole s,
          ))
  ]
]

-- Whatever the reference, SplitRepoTag loses nothing of it.
pub split_repo_tag-Split : (ref : Text) → Split ref (split_repo_tag ref).0 (split_repo_tag ref).1
unfolding split_repo_tag
split_repo_tag-Split ref = elim (Option-cases (cut_last b'/' ref)) [
  | inl n ↦ rw (n, split_repo_tag) (split_last-Split ref [] ref refl (cut_last-none b'/' ref n))
  | inr (p, m) ↦
      let (whole, no_slash) = cut_last_parts b'/' ref m in
      rw (m, split_repo_tag)
        (split_last-Split ref (p.0 ++ b'/' ∷ []) p.1
          (whole ∙ sym (append_assoc p.0 (b'/' ∷ []) p.1)) no_slash)
]

split_last-join :
    (ref prefix last tag : Text)
    → contains b'@' (last ++ b':' ∷ tag) ≡ false
    → contains b':' tag ≡ false
    → split_last ref prefix (last ++ b':' ∷ tag) ≡ (prefix ++ last, tag)
unfolding split_last
split_last-join ref prefix last tag d c = rw (d, cut_last-cons b':' last tag c) refl

no_digest :
    (repo tag : Text)
    → contains b'@' repo ≡ false
    → contains b'@' tag ≡ false
    → contains b'@' (repo ++ b':' ∷ tag) ≡ false
no_digest repo tag a d = ground (arith, contains-append b'@' repo (b':' ∷ tag))

-- A repository without a digest, joined by a colon to a tag without colon, slash or `@`, is split
-- back into the two.
pub split_repo_tag-join :
    (repo tag : Text)
    → contains b':' tag ≡ false
    → contains b'/' tag ≡ false
    → contains b'@' tag ≡ false
    → contains b'@' repo ≡ false
    → split_repo_tag (repo ++ b':' ∷ tag) ≡ (repo, tag)
unfolding split_repo_tag
split_repo_tag-join repo tag c s d a =
    let after = cut_last-append b'/' repo (b':' ∷ tag) s in
    elim (Option-cases (cut_last b'/' repo)) [
      | inl n ↦
          rw (after, split_repo_tag)
            (rw n (split_last-join (repo ++ b':' ∷ tag) [] repo tag (no_digest repo tag a d) c))
      | inr (p, m) ↦
          let (whole, _) = cut_last_parts b'/' repo m in
          let last_ok : contains b'@' p.1 ≡ false =
            ground (arith, contains-append b'@' p.0 (b'/' ∷ p.1), whole) in
          rw (after, split_repo_tag)
            (rw m (
              split_last-join (repo ++ b':' ∷ tag) (p.0 ++ b'/' ∷ []) p.1 tag
                (no_digest p.1 tag last_ok d) c
              ∙ ap (λ r. (r, tag)) (append_assoc p.0 (b'/' ∷ []) p.1 ∙ sym whole)))
    ]
