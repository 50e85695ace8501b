-- ===== src/Git/Credential.antt =====
-- internal/git/credential.go: the environment that carries a credential to a git child process.
-- Base64 comes from the standard library and is not computed here.
pub mod Quoting
use sbx_swarm_node.Prelude.{
  ℕ, Bool, true, false, not, List, [], ◌∷◌, ◌++◌, Text, codes, text_eq, nat_eq, ◌==◌, if◌then◌else◌,
}

pub record Credential : Type 0 where
  pub token : Text
  pub ssh_key_path : Text
  pub ssh_known_hosts_path : Text
  pub ca_path : Text

-- strings.ReplaceAll(s, "'", `'\''`)
escape_quotes : Text → Text
escape_quotes [] = []
escape_quotes (c ∷ s) =
    if c == b'\'' then b'\'' ∷ b'\\' ∷ b'\'' ∷ b'\'' ∷ escape_quotes s else c ∷ escape_quotes s

unfoldable pub sh_quote : Text → Text
unfolding escape_quotes
sh_quote s = b'\'' ∷ escape_quotes s ++ b'\'' ∷ []

pub host_policy : Text → Text
host_policy known_hosts =
    if not (known_hosts == [])
    then codes " -o StrictHostKeyChecking=yes -o UserKnownHostsFile=" ++ sh_quote known_hosts
    else codes " -o StrictHostKeyChecking=accept-new"

-- The value of GIT_SSH_COMMAND for a credential with a key.
unfoldable pub ssh_command : Credential → Text
ssh_command c =
    codes "ssh -i "
    ++ (sh_quote c.ssh_key_path
        ++ (codes " -o IdentitiesOnly=yes" ++ host_policy c.ssh_known_hosts_path))

-- Env, whose error is always nil.
unfoldable pub env : (Text → Text) → Credential → Text → List Text
env base64 c remote_url =
    codes "GIT_TERMINAL_PROMPT=0"
      ∷ (if not (c.token == [])
          then codes "GIT_CONFIG_COUNT=1"
            ∷ (codes "GIT_CONFIG_KEY_0=http." ++ remote_url ++ codes ".extraheader")
            ∷ (codes "GIT_CONFIG_VALUE_0=Authorization: Basic "
                ++ base64 (codes "x-access-token:" ++ c.token))
            ∷ []
          else [])
    ++ (if not (c.ssh_key_path == []) then (codes "GIT_SSH_COMMAND=" ++ ssh_command c) ∷ [] else [])
    ++ (if not (c.ca_path == []) then (codes "GIT_SSL_CAINFO=" ++ c.ca_path) ∷ [] else [])
