-- ===== src/GitProvider/Provider/Repo.antt =====
-- internal/gitprovider/provider.go: the repository that a remote names.
use sbx_swarm_node.Prelude.{
  ◌≡◌, refl, sym, ap, ◌∙◌, ℕ, Bool, true, false, [], ◌∷◌, ◌++◌, none, some, Text, codes, nat_eq,
  text_eq, ◌==◌, ==_refl, contains, if◌then◌else◌, split, split-plain, split-cons, strip_prefix,
  trim_left, trim_right, trim_suffix, reversed_or, arith,
}
use mathlib.Core.List.{reverse, reverse-append, reverse-reverse, append_assoc}
use sbx_swarm_node.GitProvider.Provider.{
  git_hub, git_lab, Strings, parse_repo, path_of, owner_repo, identity,
}

strip_prefix-append : (p s : Text) → strip_prefix p (p ++ s) ≡ some s
unfolding strip_prefix
strip_prefix-append [] s = refl
strip_prefix-append (c ∷ p) s = rw (==_refl c) (strip_prefix-append p s)

trim_suffix-append : (s suffix : Text) → trim_suffix suffix (s ++ suffix) ≡ s
unfolding trim_suffix reversed_or
trim_suffix-append s suffix =
    ap (reversed_or (s ++ suffix)) (
      ap (strip_prefix (reverse suffix)) (reverse-append s suffix)
      ∙ strip_prefix-append (reverse suffix) (reverse s))
    ∙ reverse-reverse s

-- A text that ends in another byte is not trimmed.
trim_right-other :
    (c x : ℕ) (s : Text) → (x == c) ≡ false → trim_right c (s ++ x ∷ []) ≡ s ++ x ∷ []
unfolding trim_right
trim_right-other c x s e =
    ap (λ t. reverse (trim_left c t)) (reverse-append s (x ∷ []))
    ∙ ap reverse (kept e)
    ∙ ap reverse (sym (reverse-append s (x ∷ [])))
    ∙ reverse-reverse (s ++ x ∷ [])
  where
    kept : (x == c) ≡ false → trim_left c (x ∷ reverse s) ≡ x ∷ reverse s
    kept e = unfold trim_left in rw e refl

trim_left-other : (c x : ℕ) (s : Text) → (x == c) ≡ false → trim_left c (x ∷ s) ≡ x ∷ s
unfolding trim_left
trim_left-other c x s e = rw e refl

abbrev pub slashes : Bool → Text → Text
slashes true s = b'/' ∷ s
slashes false s = s

trim_left-slashes :
    (lead : Bool) (x : ℕ) (s : Text)
    → (x == b'/') ≡ false
    → trim_left b'/' (slashes lead (x ∷ s)) ≡ x ∷ s
unfolding trim_left
trim_left-slashes true x s e = rw e refl
trim_left-slashes false x s e = rw e refl

-- The path of a remote for an owner and a repository, with or without a slash in front.
abbrev pub repo_path : Bool → Text → Text → Text
repo_path lead owner repo = slashes lead (owner ++ b'/' ∷ repo ++ codes ".git")

abbrev trimmed : Text → Text
trimmed path = trim_suffix (codes ".git") (trim_right b'/' (trim_left b'/' path))

trimmed-repo_path :
    (lead : Bool) (o : ℕ) (os repo : Text)
    → (o == b'/') ≡ false
    → trimmed (repo_path lead (o ∷ os) repo) ≡ (o ∷ os) ++ b'/' ∷ repo
trimmed-repo_path lead o os repo e =
    let base : Text = (o ∷ os) ++ b'/' ∷ repo in
    let whole = append_assoc base (codes ".gi") (codes "t") in
    ap (λ t. trim_suffix (codes ".git") (trim_right b'/' t))
      (trim_left-slashes lead o (os ++ b'/' ∷ repo ++ codes ".git") e)
    ∙ ap (λ t. trim_suffix (codes ".git") (trim_right b'/' t)) (sym whole)
    ∙ ap (trim_suffix (codes ".git")) (trim_right-other b'/' b't' (base ++ codes ".gi") refl)
    ∙ ap (trim_suffix (codes ".git")) whole
    ∙ trim_suffix-append base (codes ".git")

-- What a remote with the path `owner/repo.git`, with or without a slash in front, is read as: its
-- owner and its repository for GitHub, and the whole project path for GitLab.
pub parse_repo-repo_path :
    (S : Strings) (remote : Text) (lead : Bool) (owner repo : Text)
    → path_of S remote ≡ repo_path lead owner repo
    → (owner == []) ≡ false
    → (repo == []) ≡ false
    → contains b'/' owner ≡ false
    → contains b'/' repo ≡ false
    → (parse_repo S git_hub remote ≡ some (owner, repo))
      × (parse_repo S git_lab remote ≡ some ([], owner ++ b'/' ∷ repo))
unfolding parse_repo identity owner_repo
parse_repo-repo_path S remote lead [] repo p full full' plain_o plain_r = cc
parse_repo-repo_path S remote lead (o ∷ os) repo p full full' plain_o plain_r =
    let parts : split b'/' ((o ∷ os) ++ b'/' ∷ repo) ≡ (o ∷ os) ∷ repo ∷ [] =
      split-cons b'/' (o ∷ os) repo plain_o
      ∙ ap (λ ps. (o ∷ os) ∷ ps) (split-plain b'/' repo plain_r) in
    let read : trimmed (path_of S remote) ≡ (o ∷ os) ++ b'/' ∷ repo =
      ap trimmed p ∙ trimmed-repo_path lead o os repo (ground (arith, plain_o)) in
    (
      ap (λ t. if t == [] then none else identity S git_hub t) read
          ∙ ap (owner_repo S) parts
          ∙ (rw full' refl),
      ap (λ t. if t == [] then none else identity S git_lab t) read,
    )
