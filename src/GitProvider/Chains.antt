-- ===== src/GitProvider/Chains.antt =====
-- internal/gitprovider/gerrit_review.go: the walk from a comment to the root of its thread.
use sbx_swarm_node.Prelude.{
  ◌≡◌, refl, sym, ap, ◌∙◌, ◌⊎◌, inl, inr, ℕ, suc, zero, ◌<◌, ◌≤◌, Bool, true, false, not, ◌&&◌,
  List, [], ◌∷◌, none, some, Text, text_eq, ◌==◌, ==_iff, ==_refl, Map, get, put, contains, keep,
  length, length-keep-le, All, All-put, All-get, Bool-cases, Option-cases, arith,
}
use mathlib.Core.Bool.{false≢true}
use sbx_swarm_node.GitProvider.Threads.{GerritComment, root_loop, gerrit_root, index_from, index}

abbrev pub ById : Type 0
ById = Map Text GerritComment

-- Each comment stands under its own identifier.
abbrev pub IsIndexed : ById → Type 0
IsIndexed m = All (λ p. p.1.id ≡ p.0) m

abbrev pub IsIn : GerritComment → ById → Type 0
IsIn c m = (d : GerritComment) × (get c.id m ≡ some d)

index_from-IsIndexed :
    (m : ById) (cs : List GerritComment) → IsIndexed m → IsIndexed (index_from m cs)
unfolding index_from
index_from-IsIndexed m [] h = h
index_from-IsIndexed m (c ∷ cs) h =
    index_from-IsIndexed (put c.id c m) cs
      (All-put (λ p. p.1.id ≡ p.0) c.id c m (λ j e. sym ((==_iff j c.id).0 e)) refl h)

pub index-IsIndexed : (cs : List GerritComment) → IsIndexed (index cs)
unfolding index
index-IsIndexed cs = index_from-IsIndexed [] cs tt

abbrev not_seen : List Text → Text × GerritComment → Bool
not_seen seen p = not (contains p.0 seen)

-- The comments that the walk has not stood at.
abbrev unseen : List Text → ById → ℕ
unseen seen m = length (keep (not_seen seen) m)

unseen-le : (k : Text) (seen : List Text) (m : ById) → unseen (k ∷ seen) m ≤ unseen seen m
unseen-le k seen [] = omega arith
unseen-le k seen ((j, v) ∷ m) = ground (arith, unseen-le k seen m)

unseen-lt :
    (k : Text) (seen : List Text) (m : ById) (v : GerritComment)
    → get k m ≡ some v
    → contains k seen ≡ false
    → unseen (k ∷ seen) m < unseen seen m
unfolding get
unseen-lt k seen [] v e h = cc
unseen-lt k seen ((j, w) ∷ m) v e h = elim (Bool-cases (j == k)) [
  | inl y ↦
      let same : j ≡ k = (==_iff j k).0 y in
      rw same (rw (==_refl k) (ground (arith, unseen-le k seen m, ==_refl k)))
  | inr n ↦ ground (arith, n, unseen-lt k seen m v, ==_iff j k, ==_iff k j)
]

parent-IsIn : (m : ById) (k : Text) (p : GerritComment) → IsIndexed m → get k m ≡ some p → IsIn p m
parent-IsIn m k p h e = (p, ap (λ j. get j m) (All-get (λ q. q.1.id ≡ q.0) k m p h e) ∙ e)

module _ (m : ById) (indexed : IsIndexed m) where
  -- The fuel is enough when it is more than the comments that are left to see.
  root_loop_total :
      (fuel : ℕ) (seen : List Text) (c : GerritComment)
      → IsIn c m
      → unseen seen m < fuel
      → (r : Text) × (root_loop m fuel seen c ≡ some r)
  unfolding root_loop
  root_loop_total zero seen c (d, e) h = elim h [ ]
  root_loop_total (suc fuel) seen c (d, e) h =
      elim (Bool-cases (not (c.in_reply_to == []) && not (contains c.id seen))) [
        | inr stop ↦ (c.id, rw stop refl)
        | inl more ↦ elim (Option-cases (get c.in_reply_to m)) [
          | inl missing ↦ (c.id, rw (more, missing) refl)
          | inr (p, found) ↦
              let fresh : contains c.id seen ≡ false = ground (arith, more) in
              let (r, done) =
                root_loop_total fuel (c.id ∷ seen) p (parent-IsIn m c.in_reply_to p indexed found)
                  (omega (arith, unseen-lt c.id seen m d e fresh)) in
              (r, rw (more, found) done)
        ]
      ]

  pub gerrit_root_total : (c : GerritComment) → IsIn c m → (r : Text) × (gerrit_root c m ≡ some r)
  unfolding gerrit_root
  gerrit_root_total c i =
      root_loop_total (suc (length m)) [] c i (omega (arith, length-keep-le (not_seen []) m))

-- The chain of replies of a comment comes to an end: `n` replies up is the comment `r`, which answers
-- none that is there.
pub data Descends (m : ById) : ℕ → GerritComment → Text → Type 0 where
  first :
      (c : GerritComment) (r : Text)
      → (c.in_reply_to ≡ []) ⊎ (get c.in_reply_to m ≡ none)
      → r ≡ c.id
      → Descends m zero c r
  reply :
      (n : ℕ) (c p : GerritComment) (r : Text)
      → (c.in_reply_to == []) ≡ false
      → get c.in_reply_to m ≡ some p
      → Descends m n p r
      → Descends m (suc n) c r

module _ (m : ById) where
  same_height :
      {a b : ℕ} {c d : GerritComment} {r s : Text}
      → c ≡ d
      → Descends m a c r
      → Descends m b d s
      → a ≡ b
  same_height e (first _ _ _ _) (first _ _ _ _) = refl
  same_height e (first c r (inl none_there) _) (reply n d p s more found rest) =
      let same : (c.in_reply_to == []) ≡ false = ap (λ x. x.in_reply_to == []) e ∙ more in
      ground (arith, ==_iff c.in_reply_to [])
  same_height e (first c r (inr missing) _) (reply n d p s more found rest) =
      let same : get c.in_reply_to m ≡ some p = ap (λ x. get x.in_reply_to m) e ∙ found in cc
  same_height e (reply n c p r more found rest) (first d s (inl none_there) _) =
      let same : (d.in_reply_to == []) ≡ false = ap (λ x. x.in_reply_to == []) (sym e) ∙ more in
      ground (arith, ==_iff d.in_reply_to [])
  same_height e (reply n c p r more found rest) (first d s (inr missing) _) =
      let same : get d.in_reply_to m ≡ some p = ap (λ x. get x.in_reply_to m) (sym e) ∙ found in cc
  same_height e (reply n c p r more found rest) (reply k d q s more' found' rest') =
      let same : get d.in_reply_to m ≡ some p = ap (λ x. get x.in_reply_to m) (sym e) ∙ found in
      ap suc (same_height (cc) rest rest')

  -- What the walk has seen stands further from its end than the `n` steps that are left.
  abbrev Behind : ℕ → List Text → Type 0
  Behind n seen =
      (k : Text)
      → contains k seen ≡ true
      → (d : GerritComment) × (h : ℕ) × (s : Text) × (get k m ≡ some d) × Descends m h d s × (n < h)

  Behind-fresh :
      (n : ℕ) (seen : List Text) (c : GerritComment) (r : Text)
      → Behind n seen
      → get c.id m ≡ some c
      → Descends m n c r
      → contains c.id seen ≡ false
  Behind-fresh n seen c r behind own chain = elim (Bool-cases (contains c.id seen)) [
    | inr fresh ↦ fresh
    | inl old ↦
        let (d, h, s, at, chain', lt) = behind c.id old in
        let same : c ≡ d = cc in absurd (omega (arith, same_height same chain chain'))
  ]

  root_loop-Descends :
      (indexed : IsIndexed m) (fuel : ℕ) (seen : List Text) {n : ℕ} (c : GerritComment) {r : Text}
      (x : Text)
      → get c.id m ≡ some c
      → Descends m n c r
      → Behind n seen
      → root_loop m fuel seen c ≡ some x
      → x ≡ r
  unfolding root_loop
  root_loop-Descends indexed zero seen c x own chain behind done = cc
  root_loop-Descends indexed (suc fuel) seen _ x own (first c r (inl ends) id) behind done =
      ground (arith, ==_iff c.in_reply_to [])
  root_loop-Descends indexed (suc fuel) seen _ x own (first c r (inr ends) id) behind done =
      ground (arith, ends)
  root_loop-Descends indexed (suc fuel) seen _ x own (reply n c p r more found rest) behind done =
      let fresh = Behind-fresh (suc n) seen c r behind own (reply n c p r more found rest) in
      let step : root_loop m fuel (c.id ∷ seen) p ≡ some x = rw (more, fresh, found) at done in
      root_loop-Descends indexed fuel (c.id ∷ seen) p x
        (ap (λ j. get j m) (All-get (λ q. q.1.id ≡ q.0) c.in_reply_to m p indexed found) ∙ found)
        rest (further n seen c r own (reply n c p r more found rest) behind) step
    where
      further :
          (n : ℕ) (seen : List Text) (c : GerritComment) (r : Text)
          → get c.id m ≡ some c
          → Descends m (suc n) c r
          → Behind (suc n) seen
          → Behind n (c.id ∷ seen)
      further n seen c r own chain behind k h = elim (Bool-cases (c.id == k)) [
        | inl e ↦
            (c, suc n, r, ap (λ j. get j m) (sym ((==_iff c.id k).0 e)) ∙ own, chain, omega arith)
        | inr e ↦
            let (d, height, s, at, chain', lt) = behind k (ground (arith, e)) in
            (d, height, s, at, chain', omega arith)
      ]

-- The walk from a comment that stands under its identifier always ends, with fuel for one step more
-- than there are comments, also when replies answer one another in a circle.
pub gerrit_root-ends :
    (cs : List GerritComment) (c : GerritComment)
    → get c.id (index cs) ≡ some c
    → (r : Text) × (gerrit_root c (index cs) ≡ some r)
gerrit_root-ends cs c own = gerrit_root_total (index cs) (index-IsIndexed cs) c (c, own)

-- If the chain of the replies of a comment has an end, that is the root which the walk finds.
pub gerrit_root-Descends :
    (cs : List GerritComment) (c : GerritComment) (n : ℕ) (s : Text)
    → get c.id (index cs) ≡ some c
    → Descends (index cs) n c s
    → gerrit_root c (index cs) ≡ some s
gerrit_root-Descends cs c n s own chain =
    let (r, done) = gerrit_root-ends cs c own in
    done
    ∙ ap some (
        root_loop-Descends (index cs) (index-IsIndexed cs) (suc (length (index cs))) [] c r own
          chain (λ k h. absurd (false≢true h)) (unfold gerrit_root in done))
