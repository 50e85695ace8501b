-- ===== src/GitProvider/Threads/Open.antt =====
-- internal/gitprovider/gerrit_review.go: what the threads of a change are.
use sbx_swarm_node.Prelude.{
  ◌≡◌, refl, sym, ap, ◌∙◌, inl, inr, Bool, true, false, List, [], ◌∷◌, ◌++◌, Option, none, some,
  Text, text_eq, ◌==◌, ==_iff, ==_refl, if◌then◌else◌, Map, IsMap, keep, keep-append, All,
  All-append, not, subst, Bool-cases, arith, sort_by, sort_by-IsSorted, sort_by-All, IsSorted,
  IsWeakOrder, text_less-IsWeakOrder,
}
use mathlib.Core.List.{append-nil, append_assoc}
use sbx_swarm_node.GitProvider.Threads.{
  GerritComment, GerritThread, root_of, index, append_to, groups_from, earlier, last_of, thread_of,
  group_thread, group_threads, path_threads, comments_at, threads_at, thread_before, gerrit_threads,
}

abbrev Groups : Type 0
Groups = Map Text (List GerritComment)

abbrev pub has_root : Map Text GerritComment → Text → GerritComment → Bool
has_root by_id root c = root_of by_id c == root

abbrev Lacks : Text → Groups → Type 0
Lacks root groups = All (λ p. (p.0 == root) ≡ false) groups

module _ (by_id : Map Text GerritComment) where
  -- Each group is the comments of its root, in their order.
  abbrev Exact : List GerritComment → Groups → Type 0
  Exact done groups = All (λ p. p.1 ≡ keep (has_root by_id p.0) done) groups

  keep-last_other :
      (r : Text) (c : GerritComment) (done : List GerritComment)
      → (root_of by_id c == r) ≡ false
      → keep (has_root by_id r) (done ++ c ∷ []) ≡ keep (has_root by_id r) done
  keep-last_other r c done e =
      keep-append (has_root by_id r) done (c ∷ [])
      ∙ rw e (append-nil (keep (has_root by_id r) done))

  keep-last_same :
      (r : Text) (c : GerritComment) (done : List GerritComment)
      → (root_of by_id c == r) ≡ true
      → keep (has_root by_id r) (done ++ c ∷ []) ≡ keep (has_root by_id r) done ++ c ∷ []
  keep-last_same r c done e = keep-append (has_root by_id r) done (c ∷ []) ∙ rw e refl

  other_root : (r root : Text) → (r == root) ≡ false → (root == r) ≡ false
  other_root r root e = ground (arith, ==_iff r root, ==_iff root r)

  Exact-other :
      (c : GerritComment) (done : List GerritComment) (groups : Groups)
      → Lacks (root_of by_id c) groups
      → Exact done groups
      → Exact (done ++ c ∷ []) groups
  Exact-other c done [] lacks h = tt
  Exact-other c done ((r, cs) ∷ groups) lacks h = (
    h.0 ∙ sym (keep-last_other r c done (other_root r (root_of by_id c) lacks.0)),
    Exact-other c done groups lacks.1 h.1,
  )

  -- No comment has been put aside for a root that has no group.
  abbrev Covers : List GerritComment → Groups → Type 0
  Covers done groups = (r : Text) → Lacks r groups → keep (has_root by_id r) done ≡ []

  append_to-Exact :
      (c : GerritComment) (done : List GerritComment) (groups : Groups)
      → IsMap groups
      → Exact done groups
      → (Lacks (root_of by_id c) groups → keep (has_root by_id (root_of by_id c)) done ≡ [])
      → Exact (done ++ c ∷ []) (append_to (root_of by_id c) c groups)
  unfolding append_to
  append_to-Exact c done [] distinct h missing = (
    sym (
        keep-last_same (root_of by_id c) c done (==_refl (root_of by_id c))
        ∙ ap (λ cs. cs ++ c ∷ []) (missing tt)),
    tt,
  )
  append_to-Exact c done ((r, cs) ∷ groups) distinct h missing =
      elim (Bool-cases (r == root_of by_id c)) [
        | inl e ↦
            let same : r ≡ root_of by_id c = (==_iff r (root_of by_id c)).0 e in
            rw e (
              ap (λ g. g ++ c ∷ []) h.0
                  ∙ sym (keep-last_same r c done ((==_iff (root_of by_id c) r).1 (sym same))),
              Exact-other c done groups (subst (λ root. Lacks root groups) same distinct.0) h.1,
            )
        | inr e ↦ rw e (
          h.0 ∙ sym (keep-last_other r c done (other_root r (root_of by_id c) e)),
          append_to-Exact c done groups distinct.1 h.1 (λ lacks. missing (e, lacks)),
        )
      ]

  append_to-Lacks :
      (root r : Text) (c : GerritComment) (groups : Groups)
      → Lacks r (append_to root c groups)
      → ((root == r) ≡ false) × Lacks r groups
  unfolding append_to
  append_to-Lacks root r c [] h = (h.0, tt)
  append_to-Lacks root r c ((s, cs) ∷ groups) h = elim (Bool-cases (s == root)) [
    | inl e ↦
        let h' : ((s == r) ≡ false) × Lacks r groups = rw e at h in
        (ap (λ t. t == r) (sym ((==_iff s root).0 e)) ∙ h'.0, (h'.0, h'.1))
    | inr e ↦
        let h' : ((s == r) ≡ false) × Lacks r (append_to root c groups) = rw e at h in
        let rest = append_to-Lacks root r c groups h'.1 in (rest.0, (h'.0, rest.1))
  ]

  append_to-Covers :
      (c : GerritComment) (done : List GerritComment) (groups : Groups)
      → Covers done groups
      → Covers (done ++ c ∷ []) (append_to (root_of by_id c) c groups)
  append_to-Covers c done groups h r lacks =
      let old = append_to-Lacks (root_of by_id c) r c groups lacks in
      keep-last_other r c done old.0 ∙ h r old.1

  Lacks-append_to :
      (root r : Text) (c : GerritComment) (groups : Groups)
      → (root == r) ≡ false
      → Lacks r groups
      → Lacks r (append_to root c groups)
  unfolding append_to
  Lacks-append_to root r c [] e h = (e, tt)
  Lacks-append_to root r c ((s, cs) ∷ groups) e h = elim (Bool-cases (s == root)) [
    | inl same ↦ rw same (h.0, h.1)
    | inr other ↦ rw other (h.0, Lacks-append_to root r c groups e h.1)
  ]

  append_to-IsMap :
      (root : Text) (c : GerritComment) (groups : Groups)
      → IsMap groups
      → IsMap (append_to root c groups)
  unfolding append_to
  append_to-IsMap root c [] h = (tt, tt)
  append_to-IsMap root c ((s, cs) ∷ groups) h = elim (Bool-cases (s == root)) [
    | inl same ↦ rw same (h.0, h.1)
    | inr other ↦ rw other (
      Lacks-append_to root s c groups (other_root s root other) h.0,
      append_to-IsMap root c groups h.1,
    )
  ]

  groups_from-Exact :
      (groups : Groups) (done cs : List GerritComment)
      → IsMap groups
      → Exact done groups
      → Covers done groups
      → Exact (done ++ cs) (groups_from by_id groups cs)
        × Covers (done ++ cs) (groups_from by_id groups cs)
  unfolding groups_from
  groups_from-Exact groups done [] distinct h covers = rw (append-nil done) (h, covers)
  groups_from-Exact groups done (c ∷ cs) distinct h covers = rw (← append_assoc done (c ∷ []) cs) (
      groups_from-Exact (append_to (root_of by_id c) c groups) (done ++ c ∷ []) cs
        (append_to-IsMap (root_of by_id c) c groups distinct)
        (append_to-Exact c done groups distinct h (covers (root_of by_id c)))
        (append_to-Covers c done groups covers))

-- A thread of the answer: it is all comments of its path and its root, in the order of their updates,
-- and the last of them is unresolved; a reply is to that one.
pub record IsOpen (by_path : Map Text (List GerritComment)) (t : GerritThread) : Type 0 where
  pub whole :
      t.comments
      ≡ sort_by earlier (
          keep
            (has_root (index (comments_at by_path t.path)) t.root_id)
            (comments_at by_path t.path))
  pub sorted : IsSorted earlier t.comments
  pub unresolved :
      (c : GerritComment) × (last_of t.comments ≡ some c)
      × (c.unresolved ≡ true)
      × (t.latest_id ≡ c.id)

earlier-IsWeakOrder : IsWeakOrder earlier
unfolding earlier
earlier-IsWeakOrder = record {
  asym = λ a b. text_less-IsWeakOrder.asym a.updated b.updated;
  neg_trans = λ a b c. text_less-IsWeakOrder.neg_trans a.updated b.updated c.updated;
}

All-unless :
    (P : GerritThread → Type 0) (b : Bool) (t : GerritThread)
    → (b ≡ true → P t)
    → All P (if not b then [] else t ∷ [])
All-unless P true t h = (h refl, tt)
All-unless P false t h = tt

module _ (by_path : Map Text (List GerritComment)) (path : Text) where
  thread_of-IsOpen :
      (by_id : Map Text GerritComment) (root : Text) (group : List GerritComment)
      (last : Option GerritComment)
      → by_id ≡ index (comments_at by_path path)
      → group ≡ sort_by earlier (keep (has_root by_id root) (comments_at by_path path))
      → last_of group ≡ last
      → All (IsOpen by_path) (thread_of path by_id root group last)
  unfolding thread_of
  thread_of-IsOpen by_id root group none i g e = tt
  thread_of-IsOpen by_id root group (some c) i g e =
      All-unless (IsOpen by_path) c.unresolved _ λ still. record {
        whole = g ∙ ap (λ m. sort_by earlier (keep (has_root m root) (comments_at by_path path))) i;
        sorted = subst (IsSorted earlier) (sym g) (sort_by-IsSorted earlier earlier-IsWeakOrder _);
        unresolved = (c, e, still, refl);
      }

  group_threads-IsOpen :
      (by_id : Map Text GerritComment) (groups : Groups)
      → by_id ≡ index (comments_at by_path path)
      → Exact by_id (comments_at by_path path) groups
      → All (IsOpen by_path) (group_threads path by_id groups)
  unfolding group_threads group_thread
  group_threads-IsOpen by_id [] i h = tt
  group_threads-IsOpen by_id ((root, group) ∷ groups) i h =
      All-append (IsOpen by_path) (group_thread path by_id root group)
        (group_threads path by_id groups)
        (thread_of-IsOpen by_id root (sort_by earlier group) _ i (ap (sort_by earlier) h.0) refl)
        (group_threads-IsOpen by_id groups i h.1)

  path_threads-IsOpen : All (IsOpen by_path) (path_threads path (comments_at by_path path))
  unfolding path_threads
  path_threads-IsOpen =
      let by_id = index (comments_at by_path path) in
      group_threads-IsOpen by_id (groups_from by_id [] (comments_at by_path path)) refl
        (groups_from-Exact by_id [] [] (comments_at by_path path) tt tt (λ r h. refl)).0

threads_at-IsOpen :
    (by_path : Map Text (List GerritComment)) (paths : List Text)
    → All (IsOpen by_path) (threads_at by_path paths)
unfolding threads_at
threads_at-IsOpen by_path [] = tt
threads_at-IsOpen by_path (path ∷ paths) =
    All-append (IsOpen by_path) (path_threads path (comments_at by_path path))
      (threads_at by_path paths) (path_threads-IsOpen by_path path)
      (threads_at-IsOpen by_path paths)

-- Every thread that a change is read to have is the comments of one path and one root, all of them
-- and sorted by their updates, and the last of them is unresolved and is the one to reply to.
pub gerrit_threads-IsOpen :
    (by_path : Map Text (List GerritComment)) → All (IsOpen by_path) (gerrit_threads by_path)
unfolding gerrit_threads
gerrit_threads-IsOpen by_path =
    sort_by-All thread_before (IsOpen by_path) _ (threads_at-IsOpen by_path _)
