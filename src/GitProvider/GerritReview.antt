-- ===== src/GitProvider/GerritReview.antt =====
-- internal/gitprovider/gerrit_review.go: reviews of Gerrit are read over its REST interface. `base64`
-- is the encoding of encoding/base64.
use sbx_swarm_node.Prelude.{
  not, ◌||◌, List, [], ◌∷◌, ◌++◌, Option, none, some, Text, codes, nat_eq, text_eq, ◌==◌,
  if◌then◌else◌, ltb, leb, take, itoa, Map, get, map, cut, cut_text, is_some, strip_prefix,
  trim_right, Result, ok, err,
}
use sbx_swarm_node.Git.Runner.{Host}
use sbx_swarm_node.GitProvider.Provider.{Strings}
use sbx_swarm_node.GitProvider.Strategies.{
  failed_precondition, unavailable, internal, Error, status, Env, Call,
}
use sbx_swarm_node.GitProvider.Rest.{
  Web, Method, get_method, Response, status_to_code, forge_message, content_type, body_limit,
}
use sbx_swarm_node.GitProvider.Threads.{GerritComment, GerritThread, author, gerrit_threads}
use sbx_swarm_node.GitProvider.Reviews.{Thread, ReviewData, ReviewHead, Change, Json}

abbrev pub gerrit_patchset_level : Text
gerrit_patchset_level = codes "/PATCHSET_LEVEL"

pub record GerritClient : Type 0 where
  pub base : Text
  pub user : Text
  pub pass : Text

behind_scheme : Text → Text
behind_scheme remote = elim (cut_text (codes "://") remote) [
  | some (_, rest) ↦ rest
  | none ↦ remote
]

before_at : Option (Text × Text) → Text
before_at none = []
before_at (some (user, _)) = user

unfoldable pub user_from_remote : Strings → Text → Text
unfolding behind_scheme before_at
user_from_remote S remote = before_at (cut b'@' (behind_scheme (S.trim_space remote)))

unfoldable pub new_gerrit_client : Strings → Env → Result Error GerritClient
new_gerrit_client S e =
    let user = user_from_remote S e.remote_url in
    if e.api_base == []
    then err (
        status failed_precondition
          (codes "gerrit review requires the workspace api_base_url (its HTTP endpoint)"))
    else if e.cred.token == []
    then err (
        status failed_precondition
          (codes "gerrit review requires an HTTP password token credential"))
    else if user == []
    then err
        (status failed_precondition (codes "gerrit review: cannot derive username from remote_url"))
    else ok (record { base = trim_right b'/' e.api_base; user = user; pass = e.cred.token })

-- )]}' and the line it stands in
unfoldable pub strip_xssi : Text → Text
strip_xssi b =
    if is_some (strip_prefix (codes ")]}'") b)
    then elim (cut b'\n' b) [ some (_, rest) ↦ rest | none ↦ b ]
    else b

thread_of_gerrit : GerritThread → Thread
thread_of_gerrit t = record {
  id = t.root_id;
  file = if t.path == gerrit_patchset_level then [] else t.path;
  line = t.line;
  comments = map (λ c. record { id = c.id; author = author c; body = c.message }) t.comments;
}

unfoldable pub gerrit_review_data : Text → Map Text (List GerritComment) → ReviewData
unfolding thread_of_gerrit
gerrit_review_data head by_path = record {
  head = head;
  threads = map thread_of_gerrit (gerrit_threads by_path);
  requested_changes = [];
}

module _ (S : Strings) (base64 : Text → Text) (H : Host) (X : Web H.World) where
  gerrit_headers : GerritClient → List (Text × Text)
  gerrit_headers c =
      (codes "Authorization", codes "Basic " ++ base64 (c.user ++ codes ":" ++ c.pass))
      ∷ (codes "Accept", codes "application/json")
      ∷ []

  gerrit_answered : Result Text Response × H.World → Result Error Text × H.World
  gerrit_answered (err cause, w) =
      (err (status unavailable (codes "gerrit request failed: " ++ cause)), w)
  gerrit_answered (ok r, w) =
      let body = take body_limit r.body in
      if ltb r.status_code 200 || leb 300 r.status_code
      then (
        err (
            status (status_to_code r.status_code) (
              codes "gerrit HTTP "
              ++ itoa r.status_code
              ++ codes ": "
              ++ forge_message S H X body)),
        w,
      )
      else (ok body, w)

  unfoldable pub gerrit_send : GerritClient → Method → Text → Option Text → Call H Text
  unfolding gerrit_answered gerrit_headers
  gerrit_send c method path body w =
      if not (X.builds (c.base ++ codes "/a" ++ path))
      then (err (status internal (codes "build gerrit request")), w)
      else gerrit_answered (
          X.send method (c.base ++ codes "/a" ++ path) (gerrit_headers c ++ content_type S H X body)
            body w)

  decode_gerrit : {A : Type 0} → A → (Text → Option A) → Text → Result Error A
  decode_gerrit empty read [] = ok empty
  decode_gerrit empty read (x ∷ body) = elim (read (x ∷ body)) [
    | some a ↦ ok a
    | none ↦ err (status internal (codes "decode gerrit response"))
  ]

  read_gerrit :
      {A : Type 0} → A → (Text → Option A) → Result Error Text × H.World → Result Error A × H.World
  unfolding decode_gerrit
  read_gerrit empty read (err e, w) = (err e, w)
  read_gerrit empty read (ok body, w) = (decode_gerrit empty read (strip_xssi body), w)

  unfoldable pub gerrit_get : {A : Type 0} → A → (Text → Option A) → GerritClient → Text → Call H A
  unfolding read_gerrit
  gerrit_get empty read c path w = read_gerrit empty read (gerrit_send c get_method path none w)

  module _ (J : Json) where
    unfoldable pub get_comments : GerritClient → Text → Call H (Map Text (List GerritComment))
    get_comments c change_id =
        gerrit_get [] J.read_comments c (codes "/changes/" ++ change_id ++ codes "/comments")

    no_change_info : Change
    no_change_info = record { current_revision = []; revisions = [] }

    unfoldable pub get_change : GerritClient → Text → Call H Change
    unfolding no_change_info
    get_change c change_id =
        gerrit_get no_change_info J.read_change c
          (codes "/changes/" ++ change_id ++ codes "?o=CURRENT_REVISION")

    -- A head that cannot be read is left empty.
    with_head :
        Map Text (List GerritComment)
        → Result Error Change × H.World
        → Result Error ReviewData × H.World
    with_head by_path (ok change, w) = (ok (gerrit_review_data change.current_revision by_path), w)
    with_head by_path (err _, w) = (ok (gerrit_review_data [] by_path), w)

    with_comments :
        GerritClient
        → Text
        → Result Error (Map Text (List GerritComment)) × H.World
        → Result Error ReviewData × H.World
    unfolding with_head
    with_comments c change_id (err e, w) = (err e, w)
    with_comments c change_id (ok by_path, w) = with_head by_path (get_change c change_id w)

    unfoldable pub gerrit_read_review : Env → Text → Call H ReviewData
    unfolding with_comments
    gerrit_read_review e change_id w = elim (new_gerrit_client S e) [
      | err x ↦ (err x, w)
      | ok c ↦ with_comments c change_id (get_comments c change_id w)
    ]

    head_at : Text → Option Text → Result Error ReviewHead
    head_at change_id none = err (
        status failed_precondition
          (codes "gerrit change " ++ change_id ++ codes " has no current patchset ref"))
    head_at change_id (some ref) =
        if ref == []
        then err (
            status failed_precondition
              (codes "gerrit change " ++ change_id ++ codes " has no current patchset ref"))
        else ok (record { local_branch = codes "review/" ++ change_id; fetch_ref = ref })

    head_of_change : Text → Result Error Change × H.World → Result Error ReviewHead × H.World
    unfolding head_at
    head_of_change change_id (err e, w) = (err e, w)
    head_of_change change_id (ok change, w) =
        (head_at change_id (get change.current_revision change.revisions), w)

    unfoldable pub gerrit_review_head : Env → Text → Call H ReviewHead
    unfolding head_of_change
    gerrit_review_head e change_id w = elim (new_gerrit_client S e) [
      | err x ↦ (err x, w)
      | ok c ↦ head_of_change change_id (get_change c change_id w)
    ]
