-- ===== src/GitProvider/Dispatch.antt =====
-- internal/gitprovider/review.go: the operations on a review, by the provider.
use sbx_swarm_node.Prelude.{List, [], ◌++◌, Option, none, some, Text, codes, Result, ok, err}
use sbx_swarm_node.Git.Runner.{Host}
use sbx_swarm_node.GitProvider.Provider.{
  Provider, git_hub, git_lab, gerrit, plain, provider_name, Strings,
}
use sbx_swarm_node.GitProvider.Strategies.{unimplemented, Error, status, Env, Call}
use sbx_swarm_node.GitProvider.Rest.{Web}
use sbx_swarm_node.GitProvider.Reviews.{ReviewData, Reply, ReviewHead, Json}
use sbx_swarm_node.GitProvider.GithubReview.{
  github_read_review, github_review_head, github_resolve_threads,
}
use sbx_swarm_node.GitProvider.GerritReview.{gerrit_read_review, gerrit_review_head}
use sbx_swarm_node.GitProvider.GerritReplies.{gerrit_resolve_threads}

unsupported : Text → Provider → Error
unsupported what p =
    status unimplemented
      (codes "review" ++ what ++ codes " not supported for provider " ++ provider_name p)

module _ (S : Strings) (base64 : Text → Text) (H : Host) (X : Web H.World) (J : Json) where
  unfoldable pub resolve_review_head : Env → Provider → Text → Call H ReviewHead
  unfolding unsupported
  resolve_review_head e git_hub id w = github_review_head S H X J e id w
  resolve_review_head e gerrit id w = gerrit_review_head S base64 H X J e id w
  resolve_review_head e git_lab id w = (err (unsupported (codes "-head checkout") git_lab), w)
  resolve_review_head e plain id w = (err (unsupported (codes "-head checkout") plain), w)

  unfoldable pub read_review : Env → Provider → Text → Call H ReviewData
  unfolding unsupported
  read_review e git_hub id w = github_read_review S H X J e id w
  read_review e gerrit id w = gerrit_read_review S base64 H X J e id w
  read_review e git_lab id w = (err (unsupported (codes " read") git_lab), w)
  read_review e plain id w = (err (unsupported (codes " read") plain), w)

  -- Gerrit has no identifiers when it fails.
  none_created : Result Error (List Text) × H.World → (List Text × Option Error) × H.World
  none_created (ok ids, w) = ((ids, none), w)
  none_created (err e, w) = (([], some e), w)

  unfoldable pub resolve_threads :
      Env → Provider → Text → List Reply → H.World → (List Text × Option Error) × H.World
  unfolding unsupported none_created
  resolve_threads e git_hub id replies w = github_resolve_threads S H X J e replies w
  resolve_threads e gerrit id replies w =
      none_created (gerrit_resolve_threads S base64 H X J e id replies w)
  resolve_threads e git_lab id replies w = (([], some (unsupported (codes " resolve") git_lab)), w)
  resolve_threads e plain id replies w = (([], some (unsupported (codes " resolve") plain)), w)
