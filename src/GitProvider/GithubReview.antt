-- ===== src/GitProvider/GithubReview.antt =====
-- internal/gitprovider/review.go: reviews of GitHub, by its GraphQL interface. The texts of errors name
-- their values without quotes.
use sbx_swarm_node.Prelude.{
  ℤ, Bool, not, List, [], ◌∷◌, ◌++◌, Option, none, some, Text, codes, nat_eq, text_eq, ◌==◌,
  if◌then◌else◌, Map, map, keep, is_some, strip_prefix, trim_right, trim_suffix, Result, ok, err,
  put,
}
use mathlib.Core.List.{reverse}
use sbx_swarm_node.Git.Runner.{Host}
use sbx_swarm_node.GitProvider.Provider.{git_hub, parse_repo, Strings}
use sbx_swarm_node.GitProvider.Strategies.{
  invalid_argument, failed_precondition, internal, Error, status, Env, Call,
}
use sbx_swarm_node.GitProvider.Rest.{
  Web, get_method, post_method, RestClient, new_rest_client, do_request,
}
use sbx_swarm_node.GitProvider.Requests.{no_identity}
use sbx_swarm_node.GitProvider.Reviews.{
  Thread, ReviewData, Reply, ReviewHead, Envelope, NodeThread, PullReview, PullHead, Json,
}

has_suffix : Text → Text → Bool
has_suffix suffix s = is_some (strip_prefix (reverse suffix) (reverse s))

unfoldable pub github_graphql_url : Text → Text
unfolding has_suffix
github_graphql_url api_base =
    if has_suffix (codes "/api/v3") api_base
    then trim_suffix (codes "/api/v3") api_base ++ codes "/api/graphql"
    else trim_right b'/' api_base ++ codes "/graphql"

thread_of_node : NodeThread → Thread
thread_of_node t = record { id = t.id; file = t.path; line = t.line; comments = t.comments }

-- The trimmed bodies that are not empty.
requested : (Text → Text) → List Text → List Text
requested trim [] = []
requested trim (r ∷ rs) =
    let rest = requested trim rs in if not (trim r == []) then trim r ∷ rest else rest

unfoldable pub review_data : (Text → Text) → PullReview → ReviewData
unfolding thread_of_node requested
review_data trim pr = record {
  head = pr.head;
  threads = map thread_of_node (keep (λ t. not t.is_resolved) pr.threads);
  requested_changes = requested trim pr.reviews;
}

unfoldable pub github_read_query : Text
github_read_query =
    codes "query($o:String!,$n:String!,$num:Int!){repository(owner:$o,name:$n){"
    ++ codes "pullRequest(number:$num){headRefOid reviewThreads(first:100){nodes{"
    ++ codes "id isResolved path line comments(first:100){nodes{id author{login} body}}}} "
    ++ codes "reviews(first:100,states:[CHANGES_REQUESTED]){nodes{body}}}}}"

unfoldable pub github_reply_mutation : Text
github_reply_mutation =
    codes "mutation($t:ID!,$b:String!){addPullRequestReviewThreadReply("
    ++ codes "input:{pullRequestReviewThreadId:$t,body:$b}){comment{id}}}"

unfoldable pub github_resolve_mutation : Text
github_resolve_mutation =
    codes "mutation($t:ID!){resolveReviewThread(input:{threadId:$t}){thread{id}}}"

no_envelope : Envelope
no_envelope = record { content = []; errors = [] }

decoded : {A : Type 0} → Option A → Result Error A
decoded (some a) = ok a
decoded none = err (status internal (codes "decode github graphql data"))

by_errors : {A : Type 0} → A → (Text → Option A) → List Text → Text → Result Error A
unfolding decoded
by_errors empty read (m ∷ _) content = err (status internal (codes "github graphql: " ++ m))
by_errors empty read [] [] = ok empty
by_errors empty read [] (x ∷ content) = decoded (read (x ∷ content))

module _ (S : Strings) (H : Host) (X : Web H.World) (J : Json) where
  opened :
      {A : Type 0}
      → A
      → (Text → Option A)
      → Result Error Envelope × H.World
      → Result Error A × H.World
  unfolding by_errors
  opened empty read (err e, w) = (err e, w)
  opened empty read (ok v, w) = (by_errors empty read v.errors v.content, w)

  unfoldable pub graphql :
      {A : Type 0}
      → A
      → (Text → Option A)
      → RestClient
      → Text
      → Text
      → Map Text Text
      → Option ℤ
      → Call H A
  unfolding opened no_envelope
  graphql empty read c url query vars num w = opened empty read (
      do_request S H X no_envelope J.read_envelope c post_method url
        (some (J.marshal_query query vars num)) w)

  reviewed : Result Error PullReview × H.World → Result Error ReviewData × H.World
  reviewed (ok pr, w) = (ok (review_data S.trim_space pr), w)
  reviewed (err e, w) = (err e, w)

  no_review : PullReview
  no_review = record { head = []; threads = []; reviews = [] }

  read_with :
      Env → Text → Text → ℤ → Result Error RestClient × H.World → Result Error ReviewData × H.World
  unfolding reviewed no_review
  read_with e owner repo num (err x, w) = (err x, w)
  read_with e owner repo num (ok c, w) = reviewed (
      graphql no_review J.read_review c (github_graphql_url e.api_base) github_read_query
        (put (codes "o") owner (put (codes "n") repo [])) (some num) w)

  read_number : Env → Text → Text → Text → Option ℤ → Call H ReviewData
  unfolding read_with
  read_number e owner repo review_id none w = (
    err (status invalid_argument (codes "github review id must be a PR number, got " ++ review_id)),
    w,
  )
  read_number e owner repo review_id (some num) w =
      read_with e owner repo num (new_rest_client S H X git_hub e.cred w)

  unfoldable pub github_read_review : Env → Text → Call H ReviewData
  unfolding read_number
  github_read_review e review_id w = elim (parse_repo S git_hub e.remote_url) [
    | none ↦ (err no_identity, w)
    | some (owner, repo) ↦ read_number e owner repo review_id (J.atoi (S.trim_space review_id)) w
  ]

  no_head : PullHead
  no_head = record { ref = []; full_name = [] }

  -- The checks of a pull request's head, for the full name of the repository of the workspace.
  head_of : Text → Text → Result Error PullHead × H.World → Result Error ReviewHead × H.World
  head_of review_id want (err e, w) = (err e, w)
  head_of review_id want (ok pr, w) =
      if pr.ref == []
      then (
        err (status failed_precondition (codes "pr " ++ review_id ++ codes " has no head branch")),
        w,
      )
      else if not (S.equal_fold pr.full_name want)
      then (
        err (
            status failed_precondition (
              codes "pr "
              ++ review_id
              ++ codes " head is on a fork ("
              ++ pr.full_name
              ++ codes "); push-in-place needs a same-repo PR")),
        w,
      )
      else (ok (record { local_branch = pr.ref; fetch_ref = [] }), w)

  head_with :
      Env
      → Text
      → Text
      → Text
      → Result Error RestClient × H.World
      → Result Error ReviewHead × H.World
  unfolding head_of no_head
  head_with e owner repo review_id (err x, w) = (err x, w)
  head_with e owner repo review_id (ok c, w) = head_of review_id (owner ++ codes "/" ++ repo) (
      do_request S H X no_head J.read_head c get_method
        (e.api_base
          ++ codes "/repos/"
          ++ owner
          ++ codes "/"
          ++ repo
          ++ codes "/pulls/"
          ++ review_id)
        none w)

  unfoldable pub github_review_head : Env → Text → Call H ReviewHead
  unfolding head_with
  github_review_head e review_id w = elim (parse_repo S git_hub e.remote_url) [
    | none ↦ (err no_identity, w)
    | some (owner, repo) ↦ head_with e owner repo review_id (new_rest_client S H X git_hub e.cred w)
  ]

  -- The replies of a review, one after the other; the identifiers of the comments made so far come
  -- back with an error too.
  abbrev pub Replied : Type 0
  Replied = (List Text × Option Error) × H.World

  add_created : Text → List Text → List Text
  add_created id created = if not (id == []) then created ++ id ∷ [] else created

  unfoldable pub post_reply : RestClient → Text → Reply → Call H Text
  post_reply c url r w =
      if not (r.body == [])
      then graphql [] J.read_reply c url github_reply_mutation
          (put (codes "t") r.thread_id (put (codes "b") r.body [])) none w
      else (ok [], w)

  unfoldable pub post_resolve : RestClient → Text → Reply → Call H (Unit {0})
  post_resolve c url r w =
      if r.resolve
      then graphql tt (λ _. some tt) c url github_resolve_mutation (put (codes "t") r.thread_id [])
          none w
      else (ok tt, w)

  after_resolve : List Text → Result Error (Unit {0}) × H.World → (H.World → Replied) → Replied
  after_resolve created (err e, w) next = ((created, some e), w)
  after_resolve created (ok _, w) next = next w

  after_reply :
      RestClient
      → Text
      → Reply
      → List Text
      → Result Error Text × H.World
      → (List Text → H.World → Replied)
      → Replied
  unfolding after_resolve add_created
  after_reply c url r created (err e, w) next = ((created, some e), w)
  after_reply c url r created (ok id, w) next =
      after_resolve (add_created id created) (post_resolve c url r w)
        (next (add_created id created))

  unfoldable pub reply_each : RestClient → Text → List Reply → List Text → H.World → Replied
  unfolding after_reply
  reply_each c url [] created w = ((created, none), w)
  reply_each c url (r ∷ rs) created w =
      after_reply c url r created (post_reply c url r w) (reply_each c url rs)

  reply_with : Env → List Reply → Result Error RestClient × H.World → Replied
  reply_with e replies (err x, w) = (([], some x), w)
  reply_with e replies (ok c, w) = reply_each c (github_graphql_url e.api_base) replies [] w

  unfoldable pub github_resolve_threads : Env → List Reply → H.World → Replied
  unfolding reply_with
  github_resolve_threads e replies w = reply_with e replies (new_rest_client S H X git_hub e.cred w)
