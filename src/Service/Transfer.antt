-- ===== src/Service/Transfer.antt =====
-- internal/apiserver/filescopy.go: a file is written into a sandbox by commands that append pieces of it
-- to a temporary file, and that rename this once it has the right size. `run` is Exec of the backend in
-- the sandbox, and the content is in memory (bytes.Reader), which never fails to be read.
pub mod Arrivals
pub mod Streaming
pub mod Whole
pub mod Examples
use sbx_swarm_node.Prelude.{
  ℕ, zero, suc, Bool, true, false, not, List, [], ◌∷◌, ◌++◌, Option, none, some, Text, codes,
  nat_eq, text_eq, ◌==◌, if◌then◌else◌, eqb, length, take, drop, cut_last, trim_right, ℤ, pos,
  negsuc, parse_int, Result, ok, err, Exec, ◌>>=◌, ◌>>◌, pure,
}
use sbx_swarm_node.Sandbox.Record as Sandboxes
use sbx_swarm_node.Service.State.{ExecResult}
use sbx_swarm_node.Service.Publishing.Bundles.{exited_well}
use sbx_swarm_node.Service.Paths.{clean, join_path}

abbrev pub transfer_tries : ℕ
transfer_tries = 8

abbrev pub exec_chunk_raw : ℕ
exec_chunk_raw = 90000

abbrev pub exec_chunk_batch : ℕ
exec_chunk_batch = 8

-- `nil_error` is the nil that the last error is before the first attempt.
pub data TransferError : Type 0 where
  not_run : Sandboxes.Error → TransferError
  exited : Text → Text → TransferError
  no_number : Text → TransferError
  wrong_size : ℤ → ℕ → TransferError
  no_directory : Text → TransferError → TransferError
  no_attempt_left : TransferError → TransferError
  nil_error : TransferError

abbrev pub append_chunks_script : Text
append_chunks_script = codes "for a in \"$@\"; do printf %s \"$a\" | base64 -d; done >> \"$0\""

-- The commands.
abbrev pub make_dir : Text → List Text
make_dir dir = codes "mkdir" ∷ codes "-p" ∷ dir ∷ []

abbrev pub truncate : Text → List Text
truncate tmp = codes "sh" ∷ codes "-c" ∷ codes ": > \"$0\"" ∷ tmp ∷ []

abbrev pub append_chunks : Text → List Text → List Text
append_chunks tmp batch = codes "sh" ∷ codes "-c" ∷ append_chunks_script ∷ tmp ∷ batch

abbrev pub stat_size : Text → List Text
stat_size p = codes "stat" ∷ codes "-c" ∷ codes "%s" ∷ p ∷ []

abbrev pub move : Text → Text → List Text
move tmp dest = codes "mv" ∷ codes "-f" ∷ tmp ∷ dest ∷ []

abbrev pub delete : Text → List Text
delete tmp = codes "rm" ∷ codes "-f" ∷ tmp ∷ []

-- path.Dir and path.Base
unfoldable pub path_dir : Text → Text
path_dir p = elim (cut_last b'/' p) [ none ↦ codes "." | some (dir, _) ↦ clean (dir ++ b'/' ∷ []) ]

unfoldable pub after_slash : Text → Text
after_slash s = elim (cut_last b'/' s) [ none ↦ s | some (_, base) ↦ base ]

unfoldable pub path_base : Text → Text
unfolding after_slash
path_base p =
    let base = after_slash (trim_right b'/' p) in
    if p == [] then codes "." else if base == [] then codes "/" else base

unfoldable pub temp_path : Text → Text
temp_path dest = join_path (path_dir dest) (codes ".sbxup-" ++ path_base dest ++ codes ".part")

-- The reads of the stream until it ends. Each takes at least one byte, so that the fuel may be the
-- length of the content.
unfoldable pub chunks_from : ℕ → ℕ → Text → List Text
chunks_from raw zero s = []
chunks_from raw (suc fuel) [] = []
chunks_from raw (suc fuel) (c ∷ s) = take raw (c ∷ s) ∷ chunks_from raw fuel (drop raw (c ∷ s))

unfoldable pub is_size : ℤ → ℕ → Bool
is_size (pos n) size = eqb n size
is_size (negsuc _) size = false

unfoldable pub first_arg : List Text → Text
first_arg [] = []
first_arg (a ∷ _) = a

unfoldable pub number_of : Text → Option ℤ → Result TransferError ℤ
number_of out none = err (no_number out)
number_of out (some n) = ok n

module _ (D : Type 0) (run : List Text → D → Result Sandboxes.Error ExecResult × D)
    (base64 trim_space : Text → Text) where
  abbrev pub Transfer : Type 0 → Type 0
  Transfer A = Exec TransferError D A

  unfoldable pub checked_exit : List Text → ExecResult → Result TransferError ExecResult
  checked_exit args r =
      if not (exited_well r.exit_code)
      then err (exited (first_arg args) (trim_space r.stderr))
      else ok r

  unfoldable pub checked_run :
      List Text → Result Sandboxes.Error ExecResult × D → Result TransferError ExecResult × D
  checked_run args (err e, d) = (err (not_run e), d)
  checked_run args (ok r, d) = (checked_exit args r, d)

  unfoldable pub exec_checked : List Text → Transfer ExecResult
  exec_checked args d = checked_run args (run args d)

  unfoldable pub as_number : Text → Transfer ℤ
  as_number out d = (number_of out (parse_int out), d)

  unfoldable pub remote_size : Text → Transfer ℤ
  remote_size p = do res ← exec_checked (stat_size p); as_number (trim_space res.stdout)

  unfoldable pub flush : Text → List Text → Transfer (Unit {0})
  flush tmp [] = pure tt
  flush tmp (a ∷ batch) = do exec_checked (append_chunks tmp (a ∷ batch)); pure tt

  -- The loop over the reads; `batch` is the arguments that are not sent yet.
  unfoldable pub send_chunks : ℕ → Text → List Text → List Text → Transfer (Unit {0})
  send_chunks max tmp batch [] = flush tmp batch
  send_chunks max tmp batch (c ∷ cs) = elim (eqb (length (batch ++ base64 c ∷ [])) max) [
    | true ↦ flush tmp (batch ++ base64 c ∷ []) >> send_chunks max tmp [] cs
    | false ↦ send_chunks max tmp (batch ++ base64 c ∷ []) cs
  ]

  unfoldable pub stream_to_sandbox : ℕ → ℕ → Text → Text → Transfer (Unit {0})
  stream_to_sandbox raw max content tmp = do
    exec_checked (truncate tmp)
    send_chunks max tmp [] (chunks_from raw (length content) content)

  unfoldable pub rename : Text → Text → Transfer (Unit {0})
  rename tmp dest = do exec_checked (move tmp dest); pure tt

  -- What an attempt does with the size of the temporary file.
  unfoldable pub by_size :
      Text
      → Text
      → ℕ
      → (TransferError → Transfer (Unit {0}))
      → Result TransferError ℤ × D
      → Result TransferError (Unit {0}) × D
  by_size tmp dest size again (err e, d) = again e d
  by_size tmp dest size again (ok got, d) =
      if is_size got size then rename tmp dest d else again (wrong_size got size) d

  unfoldable pub by_stream :
      Text
      → Text
      → ℕ
      → (TransferError → Transfer (Unit {0}))
      → Result TransferError (Unit {0}) × D
      → Result TransferError (Unit {0}) × D
  by_stream tmp dest size again (err e, d) = again e d
  by_stream tmp dest size again (ok _, d) = by_size tmp dest size again (remote_size tmp d)

  unfoldable pub attempts : ℕ → Text → Text → Text → TransferError → Transfer (Unit {0})
  attempts zero content tmp dest last d = (err (no_attempt_left last), d)
  attempts (suc tries) content tmp dest last d =
      by_stream tmp dest (length content) (attempts tries content tmp dest)
        (stream_to_sandbox exec_chunk_raw exec_chunk_batch content tmp d)

  -- The deferred removal of the temporary file.
  unfoldable pub removing :
      Text → Result TransferError (Unit {0}) × D → Result TransferError (Unit {0}) × D
  removing tmp (r, d) = (r, (run (delete tmp) d).1)

  unfoldable pub with_directory :
      Text → Text → Result TransferError ExecResult × D → Result TransferError (Unit {0}) × D
  with_directory content dest (err e, d) = (err (no_directory (path_dir dest) e), d)
  with_directory content dest (ok _, d) =
      removing (temp_path dest) (attempts transfer_tries content (temp_path dest) dest nil_error d)

  unfoldable pub copy_reader_to_sandbox : Text → Text → Transfer (Unit {0})
  copy_reader_to_sandbox content dest d =
      with_directory content dest (exec_checked (make_dir (path_dir dest)) d)
