-- ===== src/GitProvider/Threads.antt =====
-- internal/gitprovider/gerrit_review.go: the comments of a change are grouped into threads. Go walks
-- the groups of a path in any order; here it is the order in which they began.
pub mod Open
use sbx_swarm_node.Prelude.{
  ℕ, Bool, true, false, not, ◌&&◌, List, [], ◌∷◌, ◌++◌, Option, none, some, Text, codes, nat_eq,
  text_eq, ◌==◌, if◌then◌else◌, Map, get, put, contains, length, map, suc, zero, sort_by,
  sort_texts, text_less,
}

pub record GerritComment : Type 0 where
  pub id : Text
  pub in_reply_to : Text
  pub line : ℕ
  pub message : Text
  pub unresolved : Bool
  pub updated : Text
  pub username : Text
  pub name : Text

unfoldable pub author : GerritComment → Text
author g = if not (g.username == []) then g.username else g.name

pub record GerritThread : Type 0 where
  pub root_id : Text
  pub path : Text
  pub line : ℕ
  pub latest_id : Text
  pub comments : List GerritComment

-- The loop of gerritRoot: the comment that it stands at and the identifiers in `seen`. `none` means
-- that the fuel ran out.
unfoldable pub root_loop : Map Text GerritComment → ℕ → List Text → GerritComment → Option Text
root_loop by_id zero seen c = none
root_loop by_id (suc fuel) seen c =
    if not (c.in_reply_to == []) && not (contains c.id seen)
    then elim (get c.in_reply_to by_id) [
      | none ↦ some c.id
      | some parent ↦ root_loop by_id fuel (c.id ∷ seen) parent
    ]
    else some c.id

-- The fuel is one more than there are comments.
unfoldable pub gerrit_root : GerritComment → Map Text GerritComment → Option Text
gerrit_root c by_id = root_loop by_id (suc (length by_id)) [] c

-- The comments of a path by their identifier; the last one of an identifier stays.
unfoldable pub index_from : Map Text GerritComment → List GerritComment → Map Text GerritComment
index_from by_id [] = by_id
index_from by_id (c ∷ cs) = index_from (put c.id c by_id) cs

unfoldable pub index : List GerritComment → Map Text GerritComment
index cs = index_from [] cs

-- groups[root] = append(groups[root], c)
unfoldable pub append_to :
    Text → GerritComment → Map Text (List GerritComment) → Map Text (List GerritComment)
append_to root c [] = (root, c ∷ []) ∷ []
append_to root c ((r, cs) ∷ groups) =
    if r == root then (r, cs ++ c ∷ []) ∷ groups else (r, cs) ∷ append_to root c groups

-- The root as the grouping uses it; `gerrit_root` always has one.
unfoldable pub root_of : Map Text GerritComment → GerritComment → Text
root_of by_id c = elim (gerrit_root c by_id) [ some r ↦ r | none ↦ [] ]

unfoldable pub groups_from :
    Map Text GerritComment
    → Map Text (List GerritComment)
    → List GerritComment
    → Map Text (List GerritComment)
groups_from by_id groups [] = groups
groups_from by_id groups (c ∷ cs) = groups_from by_id (append_to (root_of by_id c) c groups) cs

unfoldable pub earlier : GerritComment → GerritComment → Bool
earlier a b = text_less a.updated b.updated

unfoldable pub last_of : List GerritComment → Option GerritComment
last_of [] = none
last_of (c ∷ []) = some c
last_of (_ ∷ c ∷ cs) = last_of (c ∷ cs)

-- The line of a comment that is not there is 0.
unfoldable pub line_of : Option GerritComment → ℕ
line_of none = 0
line_of (some c) = c.line

-- The thread of a group in its order, unless its last comment is resolved; no group is empty.
unfoldable pub thread_of :
    Text
    → Map Text GerritComment
    → Text
    → List GerritComment
    → Option GerritComment
    → List GerritThread
thread_of path by_id root group none = []
thread_of path by_id root group (some latest) =
    if not latest.unresolved
    then []
    else record {
      root_id = root;
      path = path;
      line = line_of (get root by_id);
      latest_id = latest.id;
      comments = group;
    }
      ∷ []

-- The comments of a group by their update times. sort.Slice does not promise the order of comments with
-- the same time; here they stay in the order in which they are listed.
unfoldable pub group_thread :
    Text → Map Text GerritComment → Text → List GerritComment → List GerritThread
group_thread path by_id root group =
    let sorted = sort_by earlier group in thread_of path by_id root sorted (last_of sorted)

unfoldable pub group_threads :
    Text → Map Text GerritComment → Map Text (List GerritComment) → List GerritThread
group_threads path by_id [] = []
group_threads path by_id ((root, group) ∷ groups) =
    group_thread path by_id root group ++ group_threads path by_id groups

unfoldable pub path_threads : Text → List GerritComment → List GerritThread
path_threads path comments =
    let by_id = index comments in group_threads path by_id (groups_from by_id [] comments)

pub comments_at : Map Text (List GerritComment) → Text → List GerritComment
comments_at by_path path = elim (get path by_path) [ some cs ↦ cs | none ↦ [] ]

unfoldable pub threads_at : Map Text (List GerritComment) → List Text → List GerritThread
unfolding comments_at
threads_at by_path [] = []
threads_at by_path (path ∷ paths) =
    path_threads path (comments_at by_path path) ++ threads_at by_path paths

unfoldable pub thread_before : GerritThread → GerritThread → Bool
thread_before s t = text_less s.root_id t.root_id

unfoldable pub gerrit_threads : Map Text (List GerritComment) → List GerritThread
gerrit_threads by_path =
    sort_by thread_before (threads_at by_path (sort_texts (map (λ p. p.0) by_path)))
