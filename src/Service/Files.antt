-- ===== src/Service/Files.antt =====
-- internal/apiserver/sandboxservice.go: WriteFiles, which lands a batch of files in a sandbox.
pub mod Trail
use sbx_swarm_node.Prelude.{
  ℕ, zero, suc, ◌+◌, ◌/◌, ◌%◌, Bool, true, false, List, [], ◌∷◌, ◌++◌, Option, none, some, String,
  Text, codes, text_eq, nat_eq, ◌==◌, ltb, eqb, if◌then◌else◌, length, Result, ok, err,
}
use sbx_swarm_node.Sandbox.Record as Sandboxes
use sbx_swarm_node.Sandbox.Manager.{bump_activity}
use sbx_swarm_node.Sandbox.Cleanup.{resolve}
use sbx_swarm_node.Provision.Local.{Setting, Mgr}
use sbx_swarm_node.GitProvider.Strategies as Provider
use sbx_swarm_node.Service.Templates.{AuditEntry}
use sbx_swarm_node.Service.State.{
  Tools, ExecResult, by_manager, by_text, ApiError, refused, caused, Service, Call, ask,
  record_audit,
}
use sbx_swarm_node.Service.Paths.{
  PathError, path_required, must_be_file, dot_dot, resolve_upload_dest,
}
use sbx_swarm_node.Service.Transfer.{TransferError, exec_checked, copy_reader_to_sandbox}

pub record FileWrite : Type 0 where
  pub path : Text
  pub content : Text
  pub mode : ℕ

unfoldable pub write_entry : Text → Text → Bool → AuditEntry
write_entry actor target failed = record {
  actor = if actor == [] then codes "system" else actor;
  action = codes "file.write";
  target = target;
  outcome = if failed then codes "error" else codes "ok";
}

-- The number in octal (%o), in front of `rest`.
octal_from : ℕ → ℕ → Text → Text
octal_from zero n rest = rest
octal_from (suc fuel) n rest =
    let more = octal_from fuel (n / 8) ((48 + n % 8) ∷ rest) in
    if ltb n 8 then (48 + n) ∷ rest else more

unfoldable pub octal : ℕ → Text
unfolding octal_from
octal n = octal_from (suc n) n []

unfoldable pub path_message : PathError → Text
path_message path_required = codes "path is required"
path_message must_be_file = codes "path must be a file, not a directory"
path_message dot_dot = codes "path must not contain '..'"

unfoldable pub failed_write : {E A : Type 0} → Result E A → Bool
failed_write (ok _) = false
failed_write (err _) = true

-- The error of Resolve.
unfoldable pub unknown_sandbox : Sandboxes.Error → ApiError
unknown_sandbox e = caused Provider.not_found (by_manager e)

module _ (S : Setting) (T : Tools S) where
  abbrev pub Written : Type 0
  Written = Result TransferError (Unit {0}) × S.B.Daemon

  after_mode : Result TransferError ExecResult × S.B.Daemon → Written
  after_mode (ok _, d) = (ok tt, d)
  after_mode (err e, d) = (err e, d)

  -- The mode is set behind a copy that succeeded, unless it is 0.
  set_mode : String → FileWrite → Text → Written → Written
  unfolding after_mode
  set_mode name fw dest (err e, d) = (err e, d)
  set_mode name fw dest (ok _, d) =
      if eqb fw.mode 0
      then (ok tt, d)
      else after_mode (
          exec_checked S.B.Daemon (T.exec name) S.base64 T.trim_space
            (codes "chmod" ∷ octal fw.mode ∷ dest ∷ []) d)

  unfoldable pub write_one : String → FileWrite → Text → S.B.Daemon → Written
  unfolding set_mode
  write_one name fw dest d =
      set_mode name fw dest
        (copy_reader_to_sandbox S.B.Daemon (T.exec name) S.base64 T.trim_space fw.content dest d)

  -- The first error ends the loop.
  unfoldable pub unless_failed :
      Text → Result TransferError (Unit {0}) → Call S T (Unit {0}) → Call S T (Unit {0})
  unless_failed dest (ok _) next s = next s
  unless_failed dest (err e) next s =
      (err (caused Provider.internal (by_text (codes "write " ++ dest))), s)

  unfoldable pub noted_write :
      Text
      → Text
      → Call S T (Unit {0})
      → Service S T
      → Written
      → Result ApiError (Unit {0}) × Service S T
  noted_write actor dest next s (out, d) = unless_failed dest out next (
      record_audit S T (write_entry actor dest (failed_write out))
        (record s { mgr = record s.mgr { daemon = d } }))

  unfoldable pub write_at :
      String → Text → FileWrite → Call S T (Unit {0}) → Result PathError Text → Call S T (Unit {0})
  write_at name actor fw next (err e) s =
      (err (refused Provider.invalid_argument (fw.path ++ codes ": " ++ path_message e)), s)
  write_at name actor fw next (ok dest) s =
      noted_write actor dest next s (write_one name fw dest s.mgr.daemon)

  unfoldable pub write_each : String → Text → List FileWrite → Call S T (Unit {0})
  write_each name actor [] s = (ok tt, s)
  write_each name actor (fw ∷ fws) s =
      write_at name actor fw (write_each name actor fws) (resolve_upload_dest T.trim_space fw.path)
        s

  -- The activity that is noted at the end; its error is dropped.
  unfoldable pub bumped : String → Service S T → Service S T
  bumped id s =
      let (_, m) = bump_activity S.B S.mint S.clock S.node_id id s.mgr in record s { mgr = m }

  unfoldable pub counted_files :
      String → ℕ → Result ApiError (Unit {0}) × Service S T → Result ApiError ℕ × Service S T
  counted_files id n (ok _, s) = (ok n, bumped id s)
  counted_files id n (err e, s) = (err e, s)

  unfoldable pub written_into :
      String
      → Text
      → List FileWrite
      → Result ApiError String × Service S T
      → Result ApiError ℕ × Service S T
  written_into id actor files (err e, s) = (err e, s)
  written_into id actor files (ok name, s) =
      counted_files id (length files) (write_each name actor files s)

  unfoldable pub write_files : String → List FileWrite → Text → Call S T ℕ
  write_files id files actor s =
      written_into id actor files
        (ask S T unknown_sandbox (resolve S.B S.mint S.clock S.node_id id) s)
