-- ===== src/Git/Examples.antt =====
-- The theorems on git at a concrete workspace and host.
use sbx_swarm_node.Prelude.{
  ℕ, ◌+◌, ◌≡◌, ◌↔◌, true, false, List, [], ◌∷◌, some, Text, codes, text_eq, contains, ok, pos,
  if◌then◌else◌,
}
use sbx_swarm_node.Git.Builder.{Vars, build}
use sbx_swarm_node.Git.Builder.Tokens.{Aligned, AreRefs, IsBound, build-IsBound}
use sbx_swarm_node.Git.Credential.{Credential, ssh_command}
use sbx_swarm_node.Git.Credential.Quoting.{plain, read_words, ssh_words, read_words-ssh_command}
use sbx_swarm_node.Git.Runner.{Host, exited, exit_error, run}
use sbx_swarm_node.Git.Runner.Runs.{IsRun, run-IsRun}
use sbx_swarm_node.Git.Workspace.{Spec}

-- A host that counts the child processes; a push ends with the code 1.
abbrev host : Host
host = record {
  World = ℕ;
  exec = λ dir env argv w. (
    if contains (codes "push") argv then (exit_error (pos 1), codes "rejected") else (exited, []),
    w + 1,
  );
  exists = λ path w. false;
  mkdir_all = λ path w. (true, w);
  join = λ dir name. name;
  parent = λ path. path;
}

abbrev steps : List (List Text)
steps =
    (codes "git" ∷ codes "fetch" ∷ codes "{remote}" ∷ [])
    ∷ (codes "git" ∷ codes "push" ∷ codes "{remote}" ∷ codes "{branch}" ∷ [])
    ∷ []

abbrev values : Vars
values = record {
  branch = codes "feat/x";
  base_ref = codes "main";
  remote = codes "origin";
  sandbox_remote = [];
}

build-IsBound_example : AreRefs values ↔ (
    (out : List (List Text)) × (build steps values ≡ ok out)
    × Aligned (Aligned (IsBound values)) steps out)
build-IsBound_example = build-IsBound steps values

-- The key path has a blank and a quote.
abbrev key : Credential
key = record {
  token = [];
  ssh_key_path = codes "/keys/it's mine";
  ssh_known_hosts_path = codes "/etc/known hosts";
  ca_path = [];
}

read_words-ssh_command_example :
    read_words plain (ssh_command key) ≡ some (codes "ssh", ssh_words key)
read_words-ssh_command_example = read_words-ssh_command key

run-IsRun_example :
    IsRun host (codes "git" ∷ []) [] [] steps 0 (run host (codes "git" ∷ []) [] [] steps 0)
run-IsRun_example = run-IsRun host (codes "git" ∷ []) [] [] steps 0

abbrev spec : Spec
spec = record {
  name = codes "app";
  base = codes "/srv/app";
  remote = codes "origin";
  remote_url = codes "https://git.example/app";
  provider = [];
  cred = key;
  default_branch = codes "main";
  allow_push = true;
  api_base_url = [];
  pre_steps = steps;
  publish_steps = steps;
  allowlist = codes "git" ∷ [];
}

abbrev base64 : Text → Text
base64 t = t
