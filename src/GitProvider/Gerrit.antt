-- ===== src/GitProvider/Gerrit.antt =====
-- internal/gitprovider/gerrit.go: a branch is squashed into one commit and pushed as a change.
use sbx_swarm_node.Prelude.{
  ℕ, Bool, not, ◌&&◌, ◌||◌, List, [], ◌∷◌, ◌++◌, Option, none, some, Text, codes, nat_eq, text_eq,
  ◌==◌, if◌then◌else◌, leb, is_some, strip_prefix, split, cut_text, all, Result, ok, err,
}
use sbx_swarm_node.Git.Runner.{Host}
use sbx_swarm_node.GitProvider.Provider.{Strings}
use sbx_swarm_node.GitProvider.Strategies.{
  invalid_argument, Error, status, PublishResult, Env, actor_of, remote_of, Call, run_git,
  tip_subject,
}

abbrev pub between : ℕ → ℕ → ℕ → Bool
between lo hi c = leb lo c && leb c hi

abbrev pub is_hex : ℕ → Bool
is_hex c = between b'0' b'9' c || between b'a' b'f' c || between b'A' b'F' c

-- \s of regexp
abbrev pub is_blank : ℕ → Bool
is_blank c = c == b' ' || c == b'\t' || c == b'\n' || c == b'\r' || c == 12

-- The digits that a text begins with, and the rest.
unfoldable pub hex_run : Text → Text × Text
hex_run [] = ([], [])
hex_run (c ∷ s) =
    let (digits, rest) = hex_run s in if is_hex c then (c ∷ digits, rest) else ([], c ∷ s)

id_of_digits : Text × Text → Option Text
id_of_digits ([], _) = none
id_of_digits (c ∷ digits, rest) = if all is_blank rest then some (b'I' ∷ c ∷ digits) else none

-- A line that changeIDRe matches, and its group.
unfoldable pub change_id_of_line : Text → Option Text
unfolding id_of_digits
change_id_of_line line = elim (strip_prefix (codes "Change-Id: I") line) [
  | some rest ↦ id_of_digits (hex_run rest)
  | none ↦ none
]

unfoldable pub first_change_id : List Text → Text
first_change_id [] = []
first_change_id (line ∷ lines) = elim (change_id_of_line line) [
  | some id ↦ id
  | none ↦ first_change_id lines
]

until_blank : Text → Text
until_blank [] = []
until_blank (c ∷ s) = let rest = until_blank s in if is_blank c then [] else c ∷ rest

-- The match of gerritURLRe at the front of a text: `s?` first takes the s if there is one.
url_at : Text → Text
unfolding until_blank
url_at s = elim (strip_prefix (codes "https://") s) [
  | some r ↦ if until_blank r == [] then [] else codes "https://" ++ until_blank r
  | none ↦ elim (strip_prefix (codes "http://") s) [
    | some r ↦ if until_blank r == [] then [] else codes "http://" ++ until_blank r
    | none ↦ []
  ]
]

find_url : Text → Text
unfolding url_at
find_url [] = []
find_url (c ∷ s) =
    let rest = find_url s in let m = url_at (c ∷ s) in if not (m == []) then m else rest

url_in_lines : List Text → Text
unfolding find_url
url_in_lines [] = []
url_in_lines (line ∷ lines) =
    let rest = url_in_lines lines in
    if is_some (cut_text (codes "remote:") line) && not (find_url line == [])
    then find_url line
    else rest

-- TrimRight has nothing to do behind the match, which has no blanks.
unfoldable pub parse_gerrit_url : Text → Text
unfolding url_in_lines
parse_gerrit_url out = url_in_lines (split b'\n' out)

unfoldable pub gerrit_identity : Env → List Text
gerrit_identity e =
    (codes "GIT_AUTHOR_NAME=" ++ actor_of e)
    ∷ codes "GIT_AUTHOR_EMAIL=noreply@sbx-swarm.local"
    ∷ (codes "GIT_COMMITTER_NAME=" ++ actor_of e)
    ∷ codes "GIT_COMMITTER_EMAIL=noreply@sbx-swarm.local"
    ∷ []

-- `sha1_hex` is the hash of crypto/sha1 in hexadecimal.
module _ (S : Strings) (sha1_hex : Text → Text) where
  unfoldable pub gerrit_change_id : Text → Text → Text → Text
  gerrit_change_id remote_url source target =
      codes "I" ++ sha1_hex (remote_url ++ 0 ∷ source ++ 0 ∷ target)

  module _ (H : Host) where
    trailer_of : Result Error Text × H.World → Text × H.World
    trailer_of (err _, w) = ([], w)
    trailer_of (ok out, w) = (first_change_id (split b'\n' out), w)

    unfoldable pub existing_change_id : Text → Text → Text → H.World → Text × H.World
    unfolding trailer_of
    existing_change_id dir target source w = trailer_of (
        run_git H dir [] (codes "log" ∷ codes "--format=%B" ∷ (target ++ codes ".." ++ source) ∷ [])
          w)

    unfoldable pub change_id_for : Env → Text → Text → H.World → Text × H.World
    change_id_for e source target w =
        let (found, w') = existing_change_id e.dir target source w in
        (if found == [] then gerrit_change_id e.remote_url source target else found, w')

    unfoldable pub subject_for : Env → Text → H.World → Text × H.World
    subject_for e source w = if e.title == [] then tip_subject H S e.dir source w else (e.title, w)

    unfoldable pub message : Env → Text → Text → Text
    message e subject change_id =
        (if not (e.body == []) then subject ++ codes "\n\n" ++ e.body else subject)
        ++ codes "\n\nChange-Id: "
        ++ change_id

    delivered : Text → Text → Result Error Text × H.World → Result Error PublishResult × H.World
    delivered target change_id (err e, w) = (err e, w)
    delivered target change_id (ok out, w) = (
      ok (record {
        ref = codes "refs/for/" ++ target;
        delivery_url = parse_gerrit_url out;
        change_id = change_id;
        patch = [];
        no_change = is_some (cut_text (codes "no new changes") out);
      }),
      w,
    )

    push_commit :
        Env → Text → Text → Result Error Text × H.World → Result Error PublishResult × H.World
    unfolding delivered
    push_commit e target change_id (err x, w) = (err x, w)
    push_commit e target change_id (ok out, w) = delivered target change_id (
        run_git H e.dir (e.run_env ++ gerrit_identity e)
          (codes "push" ∷ remote_of e ∷ (S.trim_space out ++ codes ":refs/for/" ++ target) ∷ []) w)

    commit_tree : Env → Text → Text → Text → Text → Call H PublishResult
    unfolding push_commit
    commit_tree e source target change_id msg w = push_commit e target change_id (
        run_git H e.dir (e.run_env ++ gerrit_identity e)
          (codes "commit-tree"
            ∷ (source ++ codes "^{tree}")
            ∷ codes "-p"
            ∷ target
            ∷ codes "-m"
            ∷ msg
            ∷ [])
          w)

    unfoldable pub gerrit_change : Env → Text → Text → Call H PublishResult
    unfolding commit_tree
    gerrit_change e source target w =
        if target == []
        then (err (status invalid_argument (codes "gerrit_change requires a target branch")), w)
        else let (change_id, w1) = change_id_for e source target w in
          let (subject, w2) = subject_for e source w1 in
          commit_tree e source target change_id (message e subject change_id) w2
