-- ===== src/Git/Credential/Quoting.antt =====
-- internal/git/credential.go: how a shell reads what was quoted. The reader stands here as the
-- description of a POSIX shell on texts without other expansions; git calls the real one.
use sbx_swarm_node.Prelude.{
  ℕ, ◌≡◌, refl, sym, ap, ◌∙◌, ◌||◌, List, [], ◌∷◌, ◌++◌, Option, none, some, Text, codes, text_eq,
  nat_eq, ◌==◌, if◌then◌else◌, arith, Bool-cases, Option-cases, inl, inr,
}
use mathlib.Core.List.{append_assoc, append-nil}
use mathlib.Core.Option
use sbx_swarm_node.Git.Credential.{Credential, escape_quotes, sh_quote, host_policy, ssh_command}
use sbx_swarm_node.Git.Builder.{is_ref_byte}

pub data Reading : Type 0 where
  plain quoted escaped : Reading

add_byte : ℕ → Option (Text × List Text) → Option (Text × List Text)
add_byte c = Option.map (λ p. (c ∷ p.0, p.1))

-- The word that the text goes on with, and the words behind it. Outside of quotes only bytes that
-- mean nothing to a shell are read as they stand; for any other the reader gives up.
unfoldable pub read_words : Reading → Text → Option (Text × List Text)
unfolding add_byte
read_words plain [] = some ([], [])
read_words quoted [] = none
read_words escaped [] = none
read_words quoted (c ∷ s) =
    if c == b'\'' then read_words plain s else add_byte c (read_words quoted s)
read_words escaped (c ∷ s) = add_byte c (read_words plain s)
read_words plain (c ∷ s) =
    if c == b'\''
    then read_words quoted s
    else if c == b'\\'
    then read_words escaped s
    else if c == b' '
    then Option.map (λ p. ([], p.0 ∷ p.1)) (read_words plain s)
    else if is_ref_byte c || c == b'='
    then add_byte c (read_words plain s)
    else none

behind : Text → Option (Text × List Text) → Option (Text × List Text)
behind s = Option.map (λ p. (s ++ p.0, p.1))

read_words-escape_quotes :
    (s t : Text) → read_words quoted (escape_quotes s ++ b'\'' ∷ t) ≡ behind s (read_words plain t)
unfolding read_words escape_quotes behind
read_words-escape_quotes [] t = elim (Option-cases (read_words plain t)) [
  | inl n ↦ rw n refl
  | inr (p, e) ↦ rw e refl
]
read_words-escape_quotes (c ∷ s) t = elim (Bool-cases (c == b'\'')) [
  | inl e ↦ rw e (ground (arith, e, read_words-escape_quotes s t))
  | inr e ↦ rw (e, e) (ground (arith, e, read_words-escape_quotes s t))
]

read_words-sh_quote :
    (s t : Text) → read_words plain (sh_quote s ++ t) ≡ behind s (read_words plain t)
unfolding read_words sh_quote
read_words-sh_quote s t =
    ap (λ u. read_words quoted u) (append_assoc (escape_quotes s) (b'\'' ∷ []) t)
    ∙ read_words-escape_quotes s t

last_quote : (s : Text) → read_words plain (sh_quote s) ≡ some (s, [])
unfolding read_words behind
last_quote s =
    ap (read_words plain) (sym (append-nil (sh_quote s)))
    ∙ read_words-sh_quote s []
    ∙ ap (λ u. some (u, [])) (append-nil s)

abbrev pub policy_words : Text → List Text
policy_words known_hosts =
    if known_hosts == []
    then codes "StrictHostKeyChecking=accept-new" ∷ []
    else codes "StrictHostKeyChecking=yes"
      ∷ codes "-o"
      ∷ (codes "UserKnownHostsFile=" ++ known_hosts)
      ∷ []

-- The words that ssh is to be called with.
abbrev pub ssh_words : Credential → List Text
ssh_words c =
    codes "-i"
    ∷ c.ssh_key_path
    ∷ codes "-o"
    ∷ codes "IdentitiesOnly=yes"
    ∷ codes "-o"
    ∷ policy_words c.ssh_known_hosts_path

read_words-host_policy :
    (known_hosts : Text)
    → read_words plain (codes " -o IdentitiesOnly=yes" ++ host_policy known_hosts)
      ≡ some ([], codes "-o" ∷ codes "IdentitiesOnly=yes" ∷ codes "-o" ∷ policy_words known_hosts)
unfolding read_words host_policy
read_words-host_policy known_hosts = elim (Bool-cases (known_hosts == [])) [
  | inl e ↦ rw e refl
  | inr e ↦ rw (e, last_quote known_hosts) refl
]

-- Whatever bytes the two configured paths have, a shell reads GIT_SSH_COMMAND as the command ssh
-- with the key path as one word, and the path of the known hosts, if one is set, as the end of one
-- word; nothing in them is an option, a further word or a command of its own.
pub read_words-ssh_command :
    (c : Credential) → read_words plain (ssh_command c) ≡ some (codes "ssh", ssh_words c)
unfolding read_words ssh_command behind
read_words-ssh_command c =
    rw
      (
        read_words-sh_quote c.ssh_key_path
            (codes " -o IdentitiesOnly=yes" ++ host_policy c.ssh_known_hosts_path),
        read_words-host_policy c.ssh_known_hosts_path,
        append-nil c.ssh_key_path,
      )
      refl
