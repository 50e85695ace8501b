-- ===== src/GitProvider/Requests.antt =====
-- internal/gitprovider/rest.go: pull requests and merge requests, behind a push of their branch.
use sbx_swarm_node.Prelude.{
  [], ◌∷◌, ◌++◌, none, some, Text, codes, nat_eq, text_eq, ◌==◌, if◌then◌else◌, Result, ok, err,
}
use sbx_swarm_node.Git.Runner.{Host}
use sbx_swarm_node.GitProvider.Provider.{Provider, git_hub, git_lab, parse_repo, Strings}
use sbx_swarm_node.GitProvider.Strategies.{
  invalid_argument, Error, status, PublishResult, Env, Call, branch,
}
use sbx_swarm_node.GitProvider.Rest.{
  Web, patch_method, put_method, RestClient, new_rest_client, ForgeRequest, create_or_update,
}

abbrev pub no_identity : Error
no_identity = status invalid_argument (codes "cannot parse owner/repo from remote_url")

module _ (S : Strings) (H : Host) (X : Web H.World) where
  with_client :
      Env
      → Text
      → ForgeRequest
      → Result Error RestClient × H.World
      → Result Error PublishResult × H.World
  with_client e source req (err x, w) = (err x, w)
  with_client e source req (ok c, w) = create_or_update S H X c e source req w

  -- The branch is pushed; then the request is made with a client.
  behind_push :
      Provider
      → Env
      → Text
      → ForgeRequest
      → Result Error PublishResult × H.World
      → Result Error PublishResult × H.World
  unfolding with_client
  behind_push p e source req (err x, w) = (err x, w)
  behind_push p e source req (ok _, w) = with_client e source req (new_rest_client S H X p e.cred w)

  push_request : Provider → Env → Text → Text → ForgeRequest → Text → Call H PublishResult
  unfolding behind_push
  push_request p e source target req missing w =
      if target == []
      then (err (status invalid_argument missing), w)
      else behind_push p e source req (branch H e source source w)

  pull_form : Env → Text → Text → Text → Text → ForgeRequest
  pull_form e owner repo source target = record {
    resource_url = e.api_base ++ codes "/repos/" ++ owner ++ codes "/" ++ repo ++ codes "/pulls";
    list_query = X.encode_query (
        (codes "head", owner ++ codes ":" ++ source)
        ∷ (codes "base", target)
        ∷ (codes "state", codes "open")
        ∷ []);
    create = (codes "head", source) ∷ (codes "base", target) ∷ [];
    update_method = patch_method;
    body_field = codes "body";
  }

  unfoldable pub pull_request : Env → Text → Text → Call H PublishResult
  unfolding push_request pull_form
  pull_request e source target w = elim (parse_repo S git_hub e.remote_url) [
    | none ↦ (err no_identity, w)
    | some (owner, repo) ↦
        push_request git_hub e source target (pull_form e owner repo source target)
          (codes "pull_request requires a target branch") w
  ]

  merge_form : Env → Text → Text → Text → ForgeRequest
  merge_form e project source target = record {
    resource_url =
        e.api_base ++ codes "/projects/" ++ X.path_escape project ++ codes "/merge_requests";
    list_query = X.encode_query (
        (codes "source_branch", source)
        ∷ (codes "target_branch", target)
        ∷ (codes "state", codes "opened")
        ∷ []);
    create = (codes "source_branch", source) ∷ (codes "target_branch", target) ∷ [];
    update_method = put_method;
    body_field = codes "description";
  }

  unfoldable pub merge_request : Env → Text → Text → Call H PublishResult
  unfolding push_request merge_form
  merge_request e source target w = elim (parse_repo S git_lab e.remote_url) [
    | none ↦ (err no_identity, w)
    | some (_, project) ↦
        push_request git_lab e source target (merge_form e project source target)
          (codes "merge_request requires a target branch") w
  ]
