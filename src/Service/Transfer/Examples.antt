-- ===== src/Service/Transfer/Examples.antt =====
-- internal/apiserver/filescopy.go and files.go: a file store as the sandbox, and files written to it.
use mathlib.Core.Option as Option
use mathlib.Core.Bool.{false≢true}
use mathlib.Core.List.{append-nil}
use sbx_swarm_node.Prelude.{
  ◌≡◌, ◌≢◌, refl, sym, ap, ◌∙◌, ℕ, ◌^◌, Bool, true, false, ◌⊎◌, inl, inr, List, [], ◌∷◌, ◌++◌,
  Option, none, some, Text, codes, text_eq, ◌==◌, ==_iff, ==_refl, ltb, ltb→lt, if◌then◌else◌,
  length, take, map, join, split, split_parts, trim_right, trim_left, cut_last, cut_text,
  strip_prefix, Map, get, put, delete, get-put, get-delete, ℤ, pos, parse_int, format_int,
  parse_int-format_int, Result, ok, err, arith, Bool-cases,
}
use sbx_swarm_node.Sandbox.Record as Sandboxes
use sbx_swarm_node.Service.State.{ExecResult}
use sbx_swarm_node.Service.Publishing.Bundles.{exited_well}
use sbx_swarm_node.Service.Paths.{
  resolve_upload_dest, absolute, ends_with, clean_part, clean_parts, back_up, render, clean, is_abs,
  join_path,
}
use sbx_swarm_node.Service.Paths.Names.{Inside, resolve_upload_dest-Inside}
use sbx_swarm_node.Service.Transfer.{
  append_chunks_script, temp_path, path_dir, path_base, after_slash, copy_reader_to_sandbox,
}
use sbx_swarm_node.Service.Transfer.Streaming.{IsShell}
use sbx_swarm_node.Service.Transfer.Arrivals.{joined}
use sbx_swarm_node.Service.Transfer.Whole.{Placed, copy_reader_to_sandbox-Placed}

abbrev Files : Type 0
Files = Map Text Text

abbrev result : ℤ → Text → Result Sandboxes.Error ExecResult
result code out = ok (record { exit_code = code; stdout = out; stderr = [] })

abbrev Outcome : Type 0
Outcome = Result Sandboxes.Error ExecResult × Files

-- A size of 2^63 or more is not printed.
stat_of : Option Text → Result Sandboxes.Error ExecResult
stat_of none = result (pos 1) []
stat_of (some f) =
    if ltb (length f) (2 ^ 63)
    then result (pos 0) (format_int (pos (length f)))
    else result (pos 1) []

move_to : Text → Text → Option Text → Files → Outcome
move_to tmp dest none fs = (result (pos 1) [], fs)
move_to tmp dest (some f) fs = (result (pos 0) [], put dest f (delete tmp fs))

grown_by : Text → Text → Option Text → Files → Outcome
grown_by tmp new none fs = (result (pos 1) [], fs)
grown_by tmp new (some f) fs = (result (pos 0) [], put tmp (f ++ new) fs)

shell : List Text → Files → Outcome
unfolding stat_of move_to grown_by
shell (a ∷ b ∷ c ∷ []) fs =
    if a == codes "rm" then (result (pos 0) [], delete c fs) else (result (pos 0) [], fs)
shell (a ∷ b ∷ c ∷ e ∷ more) fs =
    if a == codes "stat"
    then (stat_of (get e fs), fs)
    else if a == codes "mv"
    then move_to c e (get c fs) fs
    else if c == append_chunks_script
    then grown_by e (joined more) (get e fs) fs
    else (result (pos 0) [], put e [] fs)
shell _ fs = (result (pos 1) [], fs)

abbrev file : Files → Text → Option Text
file fs p = get p fs

abbrev plain : Text → Text
plain s = s

joined-map : (chunks : List Text) → joined (map plain chunks) ≡ joined chunks
joined-map [] = refl
joined-map (c ∷ cs) = ap (λ t. c ++ t) (joined-map cs)

other-put : (k p v : Text) (fs : Files) → (p == k) ≡ false → get p (put k v fs) ≡ get p fs
other-put k p v fs n = ground (arith, get-put k p v fs, ==_iff k p, ==_iff p k)

other-delete : (k p : Text) (fs : Files) → (p == k) ≡ false → get p (delete k fs) ≡ get p fs
other-delete k p fs n = ground (arith, get-delete k p fs, ==_iff k p, ==_iff p k)

same-put : (k v : Text) (fs : Files) → get k (put k v fs) ≡ some v
same-put k v fs = ground (arith, get-put k k v fs, ==_refl k)

move_to-cases :
    (tmp dest : Text) (o : Option Text) (fs : Files)
    → ((move_to tmp dest o fs).1 ≡ fs)
      ⊎ ((f : Text) × (o ≡ some f) × ((move_to tmp dest o fs).1 ≡ put dest f (delete tmp fs)))
unfolding move_to
move_to-cases tmp dest none fs = inl refl
move_to-cases tmp dest (some f) fs = inr (f, refl, refl)

grown_by-cases :
    (tmp new : Text) (o : Option Text) (fs : Files)
    → ((o ≡ none) × ((grown_by tmp new o fs).1 ≡ fs))
      ⊎ ((f : Text) × (o ≡ some f) × ((grown_by tmp new o fs).1 ≡ put tmp (f ++ new) fs))
unfolding grown_by
grown_by-cases tmp new none fs = inl (refl, refl)
grown_by-cases tmp new (some f) fs = inr (f, refl, refl)

abbrev ends_well : Result Sandboxes.Error ExecResult → Bool
ends_well (ok r) = exited_well r.exit_code
ends_well (err _) = false

abbrev printed : Result Sandboxes.Error ExecResult → Text
printed (ok r) = r.stdout
printed (err _) = []

move_to-moved :
    (tmp dest : Text) (o : Option Text) (fs : Files)
    → ends_well (move_to tmp dest o fs).0 ≡ true
    → get dest (move_to tmp dest o fs).1 ≡ o
unfolding move_to exited_well
move_to-moved tmp dest none fs e = cc
move_to-moved tmp dest (some f) fs e = same-put dest f (delete tmp fs)

stat_of-size :
    (o : Option Text) (n : ℕ)
    → ends_well (stat_of o) ≡ true
    → parse_int (printed (stat_of o)) ≡ some (pos n)
    → (f : Text) × (o ≡ some f) × (length f ≡ n)
unfolding stat_of exited_well
stat_of-size none n e p = cc
stat_of-size (some f) n e p = elim (Bool-cases (ltb (length f) (2 ^ 63))) [
  | inr b ↦ absurd (false≢true (ap ends_well (sized b) ∙ e))
  | inl b ↦
      let same : some (pos (length f)) ≡ some (pos n) =
        sym (parse_int-format_int (length f) (ltb→lt (length f) (2 ^ 63) b))
        ∙ ap parse_int (ap printed (sym (shown b)))
        ∙ p in
      (f, refl, pos_inj (Option.some_inj.0 same))
]
  where
    sized : ltb (length f) (2 ^ 63) ≡ false → result (pos 1) [] ≡ stat_of (some f)
    sized b = rw b refl

    shown :
        ltb (length f) (2 ^ 63) ≡ true
        → stat_of (some f) ≡ result (pos 0) (format_int (pos (length f)))
    shown b = rw b refl

    pos_inj : {m k : ℕ} → pos m ≡ pos k → m ≡ k
    pos_inj h = cc

take-all : (s : Text) → take (length s) s ≡ s
take-all [] = refl
take-all (c ∷ s) = ap (λ t. c ∷ t) (take-all s)

absent : (s : Text) → none ≢ some s
absent s e = cc

-- The store has no directories.
abbrev no_dirs : Files → Text → Bool
no_dirs fs p = false

shell-IsShell : IsShell Files shell plain plain file no_dirs
unfolding shell
shell-IsShell = record {
  make_dir-file = λ dir fs p. refl;
  truncate-file = λ tmp fs p n. (other-put tmp p [] fs n, refl);
  truncated = λ tmp fs s. same-put tmp [] fs;
  append-file = λ tmp chunks fs p n. (
    elim (grown_by-cases tmp (joined (map plain chunks)) (get tmp fs) fs) [
      | inl (_, e) ↦ ap (λ x. get p x) e
      | inr (f, _, e) ↦ ap (λ x. get p x) e ∙ other-put tmp p (f ++ joined (map plain chunks)) fs n
    ],
    refl,
  );
  appended = λ tmp chunks fs old here.
      elim (grown_by-cases tmp (joined (map plain chunks)) (get tmp fs) fs) [
        | inl (none_there, e) ↦ absurd (absent old (sym none_there ∙ here))
        | inr (f, there, e) ↦
            let new = joined (map plain chunks) in
            let same : f ≡ old = Option.some_inj.0 (sym there ∙ here) in
            (
              length (joined chunks),
              ap (λ x. get tmp x) e
                  ∙ same-put tmp (f ++ new) fs
                  ∙ ap (λ x. some (x ++ new)) same
                  ∙ ap (λ x. some (old ++ x)) (joined-map chunks ∙ sym (take-all (joined chunks))),
            )
      ];
  stat-file = λ p fs q. (refl, refl);
  stat-size = λ p fs r n out well size.
      stat_of-size (get p fs) n (ap ends_well out ∙ well) (ap parse_int (ap printed out) ∙ size);
  move-file = λ tmp dest fs p _ n m. elim (move_to-cases tmp dest (get tmp fs) fs) [
    | inl e ↦ ap (λ x. get p x) e
    | inr (f, _, e) ↦
        ap (λ x. get p x) e ∙ other-put dest p f (delete tmp fs) m ∙ other-delete tmp p fs n
  ];
  move-dest = λ tmp dest fs _. elim (move_to-cases tmp dest (get tmp fs) fs) [
    | inl e ↦ inl (ap (λ x. get dest x) e)
    | inr (f, h, e) ↦ inr (ap (λ x. get dest x) e ∙ same-put dest f (delete tmp fs) ∙ sym h)
  ];
  moved = λ tmp dest fs _ s. move_to-moved tmp dest (get tmp fs) fs (ap ends_well s.1 ∙ s.2);
  delete-file = λ tmp fs p n. other-delete tmp p fs n;
}

-- A sandbox with one file.
abbrev one_file : Files
one_file = (codes "/etc/hosts", codes "localhost") ∷ []

copy_reader_to_sandbox-Placed_example :
    let dest = codes "/home/agent/a.txt" in
    let (out, fs) = copy_reader_to_sandbox Files shell plain plain (codes "hello") dest one_file in
    Placed out (file one_file dest) (file fs dest) (codes "hello")
    × (file fs (codes "/etc/hosts") ≡ file one_file (codes "/etc/hosts"))
unfolding temp_path path_dir path_base after_slash trim_right trim_left cut_last join split
    split_parts clean_part clean_parts back_up render clean is_abs join_path
copy_reader_to_sandbox-Placed_example =
    copy_reader_to_sandbox-Placed Files shell plain plain file no_dirs shell-IsShell (codes "hello")
      (codes "/home/agent/a.txt") one_file (codes "/etc/hosts") apart refl aside refl
  where
    apart : (codes "/home/agent/a.txt" == temp_path (codes "/home/agent/a.txt")) ≡ false
    apart = refl

    aside : (codes "/etc/hosts" == temp_path (codes "/home/agent/a.txt")) ≡ false
    aside = refl

resolve_upload_dest-Inside_example : Inside plain (codes "a/b.txt") (codes "/home/agent/a/b.txt")
unfolding resolve_upload_dest absolute ends_with cut_text strip_prefix join split split_parts
    clean_part clean_parts back_up render clean is_abs join_path
resolve_upload_dest-Inside_example =
    resolve_upload_dest-Inside plain (λ s. ([], [], sym (append-nil s))) (codes "a/b.txt")
      (codes "/home/agent/a/b.txt") refl
