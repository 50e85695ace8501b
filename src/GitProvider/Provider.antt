-- ===== src/GitProvider/Provider.antt =====
-- internal/gitprovider/provider.go: the provider of a workspace, from its configuration or its remote.
-- `Strings` is what the Go library does by tables of Unicode, and its parser of URLs.
pub mod Repo
use sbx_swarm_node.Prelude.{
  ℕ, Bool, true, false, not, ◌||◌, List, [], ◌∷◌, ◌++◌, Option, none, some, Text, codes, nat_eq,
  text_eq, ◌==◌, if◌then◌else◌, is_some, cut, cut_text, split, trim_left, trim_right, trim_suffix,
}

-- `parse_url` is url.Parse with Hostname and Path; `to_lower`, `trim_space` and `equal_fold` are the
-- functions of the package strings.
pub record Strings : Type 0 where
  pub trim_space : Text → Text
  pub to_lower : Text → Text
  pub equal_fold : Text → Text → Bool
  pub parse_url : Text → Option (Text × Text)

pub data Provider : Type 0 where
  git_hub git_lab gerrit plain : Provider

unfoldable pub provider_name : Provider → Text
provider_name git_hub = codes "github"
provider_name git_lab = codes "gitlab"
provider_name gerrit = codes "gerrit"
provider_name plain = codes "plain"

-- A name of the switch in Derive.
unfoldable pub named : Text → Option Provider
named s =
    if s == codes "github"
    then some git_hub
    else if s == codes "gitlab"
    then some git_lab
    else if s == codes "gerrit"
    then some gerrit
    else if s == codes "plain"
    then some plain
    else none

own_strategy : Provider → Text → Bool
own_strategy plain strategy = false
own_strategy git_hub strategy = strategy == codes "pull_request"
own_strategy git_lab strategy = strategy == codes "merge_request"
own_strategy gerrit strategy = strategy == codes "gerrit_change"

-- strategySupport, and Supports on it; a strategy that is not in it is not supported.
unfoldable pub supports : Provider → Text → Bool
unfolding own_strategy
supports p strategy =
    strategy == codes "branch" || strategy == codes "patch" || own_strategy p strategy

unfoldable pub pair_of : Option (Text × Text) → Text × Text
pair_of (some p) = p
pair_of none = ([], [])

-- git@host:path
unfoldable pub scp_parts : Text → Text × Text
unfolding pair_of
scp_parts remote = elim (cut b'@' remote) [
  | some (_, after) ↦ pair_of (cut b':' after)
  | none ↦ ([], [])
]

module _ (S : Strings) where
  unfoldable pub trimmed_parts : Text → Text × Text
  unfolding scp_parts
  trimmed_parts remote =
      if is_some (cut_text (codes "://") remote)
      then elim (S.parse_url remote) [ some p ↦ p | none ↦ scp_parts remote ]
      else scp_parts remote

  unfoldable pub split_remote : Text → Text × Text
  unfolding trimmed_parts
  split_remote remote = trimmed_parts (S.trim_space remote)

  unfoldable pub host_of : Text → Text
  host_of remote = S.to_lower (split_remote remote).0

  unfoldable pub path_of : Text → Text
  path_of remote = (split_remote remote).1

  by_host : Text → Provider
  by_host host =
      if host == codes "github.com"
      then git_hub
      else if is_some (cut_text (codes "gitlab") host)
      then git_lab
      else plain

  unfoldable pub derive : Text → Text → Provider
  unfolding by_host
  derive remote_url explicit = elim (named (S.to_lower (S.trim_space explicit))) [
    | some p ↦ p
    | none ↦ by_host (host_of remote_url)
  ]

  base_of : Provider → Text → Text
  base_of git_hub host =
      if host == codes "github.com"
      then codes "https://api.github.com"
      else codes "https://" ++ (host ++ codes "/api/v3")
  base_of git_lab host = codes "https://" ++ (host ++ codes "/api/v4")
  base_of _ host = []

  unfoldable pub api_base : Provider → Text → Text → Text
  unfolding base_of
  api_base p remote_url override =
      if not (override == []) then override else base_of p (host_of remote_url)

  -- The parts of a path, if there are two and none is empty.
  owner_repo : List Text → Option (Text × Text)
  owner_repo (owner ∷ repo ∷ []) = if owner == [] || repo == [] then none else some (owner, repo)
  owner_repo _ = none

  identity : Provider → Text → Option (Text × Text)
  unfolding owner_repo
  identity git_lab path = some ([], path)
  identity _ path = owner_repo (split b'/' path)

  -- `none` is the error, which is one text for all remotes.
  unfoldable pub parse_repo : Provider → Text → Option (Text × Text)
  unfolding identity
  parse_repo p remote_url =
      let path =
        trim_suffix (codes ".git") (trim_right b'/' (trim_left b'/' (path_of remote_url))) in
      if path == [] then none else identity p path
