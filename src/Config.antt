-- ===== src/Config.antt =====
-- internal/config/config.go: the checks on a loaded configuration, and the defaults of a git-backed
-- workspace. Loading is the YAML and flag libraries'; durations are parsed by the time package. The
-- limits are whole numbers of a unit small enough for them.
pub mod Checks
pub mod Sound
pub mod Roles
pub mod Examples
use sbx_swarm_node.Prelude.{
  ℕ, Bool, true, false, not, ◌&&◌, ◌||◌, List, [], ◌∷◌, Option, none, some, String, Text, codes,
  string_eq, text_eq, ◌==◌, if◌then◌else◌, contains, ℤ, pos, negsuc,
}
use sbx_swarm_node.Auth.Principal.{ApiKey, is_user_role}

pub record GitConfig : Type 0 where
  pub remote : String
  pub default_branch : String
  pub allow_push : Bool
  pub pre_steps : List (List String)
  pub publish_steps : List (List String)
  pub exec_allowlist : List String
  pub remote_url : String

or_default : String → String → String
or_default s d = if s == "" then d else s

or_steps : {A : Type 0} → List A → List A → List A
or_steps [] d = d
or_steps (x ∷ xs) d = x ∷ xs

-- WithDefaults; the other fields of the source's record are left as they are.
unfoldable pub with_defaults : GitConfig → GitConfig
unfolding or_default or_steps
with_defaults g = record g {
  remote = or_default g.remote "origin";
  exec_allowlist = or_steps g.exec_allowlist ("git" ∷ "git-lfs" ∷ []);
  pre_steps =
      or_steps g.pre_steps
        (("git" ∷ "fetch" ∷ "{remote}" ∷ "+refs/heads/*:refs/heads/*" ∷ []) ∷ []);
  publish_steps = or_steps g.publish_steps (
      ("git" ∷ "fetch" ∷ "{sandbox_remote}" ∷ "+refs/heads/{branch}:refs/heads/{branch}" ∷ [])
      ∷ ("git" ∷ "push" ∷ "{remote}" ∷ "{branch}" ∷ [])
      ∷ []);
}

pub record WorkspaceConfig : Type 0 where
  pub name : String
  pub host_path : String
  pub git : Option GitConfig

pub record KitConfig : Type 0 where
  pub name : String
  pub ref : String

pub record ProvisionLimits : Type 0 where
  pub cpu : ℤ
  pub memory : ℤ
  pub disk : ℤ

pub record Config : Type 0 where
  pub node_name : String
  pub data_dir : String
  pub listen_addr : String
  pub log_level : String
  pub tls_cert_file : String
  pub tls_key_file : String
  pub api_keys : List ApiKey
  pub cluster_secret : String
  pub join : List String
  pub gossip_addr : String
  pub provision_limits : ProvisionLimits
  pub default_strategy : String
  pub workspaces : List WorkspaceConfig
  pub kits : List KitConfig
  pub backend : String
  pub idle_timeout : String

pub data ConfigError : Type 0 where
  empty_node_name empty_data_dir empty_listen_addr bad_log_level empty_key bad_role : ConfigError
  secret_missing tls_with_secret empty_gossip_addr negative_limit bad_strategy : ConfigError
  no_workspace_source empty_kit_name empty_kit_ref duplicate_kit bad_backend : ConfigError
  bad_duration negative_timeout : ConfigError

pub is_negative : ℤ → Bool
is_negative (pos _) = false
is_negative (negsuc _) = true

-- An early return with an error, or else the checks behind it.
pub unless : Bool → ConfigError → Option ConfigError → Option ConfigError
unless true e rest = some e
unless false e rest = rest

pub behind : Option ConfigError → Option ConfigError → Option ConfigError
behind (some e) rest = some e
behind none rest = rest

pub check_keys : List ApiKey → Option ConfigError
check_keys [] = none
check_keys (k ∷ keys) =
    let rest = check_keys keys in
    unless (k.key == []) empty_key (unless (not (is_user_role k.role)) bad_role rest)

pub lacks_source : WorkspaceConfig → Bool
lacks_source w = lacks w.git
  where
    lacks : Option GitConfig → Bool
    lacks none = false
    lacks (some g) = w.host_path == "" && g.remote_url == ""

pub check_workspaces : List WorkspaceConfig → Option ConfigError
check_workspaces [] = none
check_workspaces (w ∷ ws) =
    let rest = check_workspaces ws in unless (lacks_source w) no_workspace_source rest

-- The names seen so far come first.
pub check_kits : List String → List KitConfig → Option ConfigError
check_kits seen [] = none
check_kits seen (k ∷ kits) =
    let rest = check_kits (k.name ∷ seen) kits in
    unless (k.name == "") empty_kit_name
      (unless (k.ref == "") empty_kit_ref (unless (contains k.name seen) duplicate_kit rest))

abbrev pub log_levels : List String
log_levels = "debug" ∷ "info" ∷ "warn" ∷ "error" ∷ []

abbrev pub config_strategies : List String
config_strategies = "" ∷ "least-loaded" ∷ "bin-pack" ∷ "spread" ∷ []

abbrev pub backends : List String
backends = "" ∷ "fake" ∷ "sdk" ∷ []

-- What is wrong with a duration: it does not parse, or is negative.
pub check_duration : Option ℤ → Option ConfigError
check_duration none = some bad_duration
check_duration (some d) = unless (is_negative d) negative_timeout none

pub has_join : List String → Bool
has_join [] = false
has_join (_ ∷ _) = true

pub any_negative : ProvisionLimits → Bool
any_negative l = is_negative l.cpu || is_negative l.memory || is_negative l.disk

-- Validate; `none` is the nil error.
unfoldable pub validate : (String → Option ℤ) → Config → Option ConfigError
validate parse_duration c = unless (c.node_name == "") empty_node_name (
    unless (c.data_dir == "") empty_data_dir (
      unless (c.listen_addr == "") empty_listen_addr (
        unless (not (contains c.log_level log_levels)) bad_log_level (
          behind (check_keys c.api_keys) (
            unless (has_join c.join && c.cluster_secret == "") secret_missing (
              unless
                (not (c.cluster_secret == "")
                  && (not (c.tls_cert_file == "") || not (c.tls_key_file == "")))
                tls_with_secret
                (unless (c.gossip_addr == "") empty_gossip_addr (
                  unless (any_negative c.provision_limits) negative_limit (
                    unless (not (contains c.default_strategy config_strategies)) bad_strategy (
                      behind (check_workspaces c.workspaces) (
                        behind (check_kits [] c.kits) (
                          unless (not (contains c.backend backends)) bad_backend (
                            if c.idle_timeout == ""
                            then none
                            else check_duration (parse_duration c.idle_timeout))))))))))))))
