-- ===== src/Service/Transfer/Whole.antt =====
-- internal/apiserver/filescopy.go: a file that is written into a sandbox is whole.
use mathlib.Core.Option as Option
use sbx_swarm_node.Prelude.{
  ◌≡◌, refl, sym, ap, ◌∙◌, ℕ, zero, suc, Bool, true, false, ◌⊎◌, inl, inr, List, Option, some, Text,
  text_eq, ◌==◌, length, ℤ, pos, negsuc, parse_int, Result, ok, err, arith, Bool-cases,
  Option-cases,
}
use sbx_swarm_node.Sandbox.Record as Sandboxes
use sbx_swarm_node.Service.State.{ExecResult}
use sbx_swarm_node.Service.Transfer.{
  Transfer, TransferError, no_number, wrong_size, nil_error, transfer_tries, exec_chunk_raw,
  exec_chunk_batch, make_dir, stat_size, move, path_dir, temp_path, is_size, as_number, number_of,
  remote_size, rename, by_size, by_stream, attempts, removing, with_directory,
  copy_reader_to_sandbox,
}
use sbx_swarm_node.Service.Transfer.Arrivals.{Arrived}
use sbx_swarm_node.Service.Transfer.Streaming.{
  IsShell, Streams, exec_checked-cases, stream_to_sandbox-Streams,
}

is_size-same : (got : ℤ) (n : ℕ) → is_size got n ≡ true → got ≡ pos n
unfolding is_size
is_size-same (pos m) n h = ap pos (ground (arith, h))
is_size-same (negsuc m) n h = cc

-- What has arrived with the size of what was sent is what was sent.
Arrived-whole : (sent f : Text) → Arrived sent f → length f ≡ length sent → f ≡ sent
Arrived-whole sent f (inl e) h = e
Arrived-whole sent f (inr l) h = absurd (omega (arith, l, h))

-- What a transfer that ended so makes of the file at the destination.
abbrev pub Placed : Result TransferError (Unit {0}) → (before after : Option Text) → Text → Type 0
Placed (ok _) before after content = after ≡ some content
Placed (err _) before after content = (after ≡ before) ⊎ (after ≡ some content)

placed :
    (out : Result TransferError (Unit {0})) (before after : Option Text) (content : Text)
    → (out ≡ ok tt → after ≡ some content)
    → (after ≡ before) ⊎ (after ≡ some content)
    → Placed out before after content
placed (ok _) before after content h k = h refl
placed (err _) before after content h k = k

module _ (D : Type 0) (run : List Text → D → Result Sandboxes.Error ExecResult × D)
    (base64 trim_space : Text → Text) (file : D → Text → Option Text)
    (is_dir : D → Text → Bool) where
  -- The file at `dest` is as it was or has the whole content, which it has if there is no error; and
  -- all other files but the temporary one are as they were.
  record Lands (tmp dest content : Text) (d : D) (out : Result TransferError (Unit {0})) (d' : D)
      : Type 0 where
    pub landed : out ≡ ok tt → file d' dest ≡ some content
    pub whole : (file d' dest ≡ file d dest) ⊎ (file d' dest ≡ some content)
    pub others : (p : Text) → (p == tmp) ≡ false → (p == dest) ≡ false → file d' p ≡ file d p

  module _ (laws : IsShell D run base64 trim_space file is_dir) (tmp dest content : Text)
      (apart : (dest == tmp) ≡ false) where
    abbrev LandsAt : D → Result TransferError (Unit {0}) × D → Type 0
    LandsAt d p = Lands tmp dest content d p.0 p.1

    Lands-from :
        (d d1 : D) (p : Result TransferError (Unit {0}) × D)
        → ((q : Text) → (q == tmp) ≡ false → file d1 q ≡ file d q)
        → LandsAt d1 p
        → LandsAt d p
    Lands-from d d1 p k h = record {
      landed = h.landed;
      whole = elim h.whole [ inl e ↦ inl (e ∙ k dest apart) | inr e ↦ inr e ];
      others = λ q n m. h.others q n m ∙ k q n;
    }

    -- What the size that is read says of the temporary file.
    remote_size-cases :
        (d : D)
        → ((n : ℤ) × (remote_size D run base64 trim_space tmp d ≡ (ok n, (run (stat_size tmp) d).1))
            × ((m : ℕ) → n ≡ pos m → (f : Text) × (file d tmp ≡ some f) × (length f ≡ m)))
          ⊎ ((e : TransferError) × (remote_size D run base64 trim_space tmp d
                ≡ (err e, (run (stat_size tmp) d).1)))
    unfolding remote_size as_number number_of
    remote_size-cases d =
        elim (exec_checked-cases D run base64 trim_space file is_dir (stat_size tmp) d) [
          | inr (e, h) ↦ inr (e, rw h refl)
          | inl (r, h, out, well) ↦ elim (Option-cases (parse_int (trim_space r.stdout))) [
            | inl n ↦ inr (no_number (trim_space r.stdout), rw (h, n) refl)
            | inr (v, n) ↦
                inl (v, rw (h, n) refl, λ m e. laws.stat-size tmp d r m out well (n ∙ ap some e))
          ]
        ]

    rename-Lands :
        (d : D)
        → is_dir d dest ≡ false
        → file d tmp ≡ some content
        → LandsAt d (rename D run base64 trim_space tmp dest d)
    unfolding rename
    rename-Lands d no_dir here =
        elim (exec_checked-cases D run base64 trim_space file is_dir (move tmp dest) d) [
          | inr (e, h) ↦ rw h (record { landed = λ x. cc; whole = either; others = others })
          | inl (r, h, out, well) ↦ rw h (record {
            landed = λ _. laws.moved tmp dest d no_dir (r, out, well) ∙ here;
            whole = either;
            others = others;
          })
        ]
      where
        either :
            (file (run (move tmp dest) d).1 dest ≡ file d dest)
            ⊎ (file (run (move tmp dest) d).1 dest ≡ some content)
        either = elim (laws.move-dest tmp dest d no_dir) [ inl e ↦ inl e | inr e ↦ inr (e ∙ here) ]

        others :
            (p : Text)
            → (p == tmp) ≡ false
            → (p == dest) ≡ false
            → file (run (move tmp dest) d).1 p ≡ file d p
        others p n m = laws.move-file tmp dest d p no_dir n m

    module _ (again : TransferError → Transfer D run base64 trim_space (Unit {0}))
        (later : (e : TransferError) (d : D) → is_dir d dest ≡ false → LandsAt d (again e d)) where
      sized-Lands :
          (d : D) (f : Text)
          → is_dir d dest ≡ false
          → file d tmp ≡ some f
          → Arrived content f
          → LandsAt d (
              by_size D run base64 trim_space tmp dest
                (length content)
                again
                (remote_size D run base64 trim_space tmp d))
      unfolding by_size
      sized-Lands d f no_dir here arrived = elim (remote_size-cases d) [
        | inr (e, h) ↦ rw h (Lands-from d d1 (again e d1) kept (later e d1 free))
        | inl (n, h, size) ↦ elim (Bool-cases (is_size n (length content))) [
          | inr b ↦
              rw (h, b)
                (Lands-from d d1 (again (wrong_size n (length content)) d1) kept
                  (later (wrong_size n (length content)) d1 free))
          | inl b ↦
              let (g, there, long) = size (length content) (is_size-same n (length content) b) in
              let same : g ≡ f = Option.some_inj.0 (sym there ∙ here) in
              let full = Arrived-whole content f arrived (ap length (sym same) ∙ long) in
              rw (h, b)
                (Lands-from d d1 (rename D run base64 trim_space tmp dest d1) kept
                  (rename-Lands d1 free ((laws.stat-file tmp d tmp).0 ∙ here ∙ ap some full)))
        ]
      ]
        where
          d1 : D
          d1 = (run (stat_size tmp) d).1

          kept : (p : Text) → (p == tmp) ≡ false → file d1 p ≡ file d p
          kept p n = (laws.stat-file tmp d p).0

          free : is_dir d1 dest ≡ false
          free = (laws.stat-file tmp d dest).1 ∙ no_dir

      by_stream-Lands :
          (d : D) (p : Result TransferError (Unit {0}) × D)
          → is_dir d dest ≡ false
          → Streams D run base64 trim_space file is_dir tmp d content p
          → LandsAt d (by_stream D run base64 trim_space tmp dest (length content) again p)
      unfolding by_stream
      by_stream-Lands d (err e, d1) no_dir k =
          Lands-from d d1 (again e d1) (λ q n. (k q n).0) (later e d1 ((k dest apart).1 ∙ no_dir))
      by_stream-Lands d (ok _, d1) no_dir (k, f, here, arrived) =
          Lands-from d d1 _ (λ q n. (k q n).0)
            (sized-Lands d1 f ((k dest apart).1 ∙ no_dir) here arrived)

    removing-Lands :
        (d : D) (p : Result TransferError (Unit {0}) × D)
        → LandsAt d p
        → LandsAt d (removing D run base64 trim_space tmp p)
    unfolding removing
    removing-Lands d (r, d1) h = record {
      landed = λ e. laws.delete-file tmp d1 dest apart ∙ h.landed e;
      whole = elim h.whole [
        | inl e ↦ inl (laws.delete-file tmp d1 dest apart ∙ e)
        | inr e ↦ inr (laws.delete-file tmp d1 dest apart ∙ e)
      ];
      others = λ q n m. laws.delete-file tmp d1 q n ∙ h.others q n m;
    }

    attempts-Lands :
        (tries : ℕ) (last : TransferError) (d : D)
        → is_dir d dest ≡ false
        → LandsAt d (attempts D run base64 trim_space tries content tmp dest last d)
    unfolding attempts
    attempts-Lands zero last d no_dir = record {
      landed = λ x. cc;
      whole = inl refl;
      others = λ p n m. refl;
    }
    attempts-Lands (suc tries) last d no_dir =
        by_stream-Lands (attempts D run base64 trim_space tries content tmp dest)
          (attempts-Lands tries) d _ no_dir
          (stream_to_sandbox-Streams D run base64 trim_space file is_dir laws exec_chunk_raw
            exec_chunk_batch content tmp d (omega arith))

  module _ (laws : IsShell D run base64 trim_space file is_dir) where
    copied-Lands :
        (content dest : Text) (d : D)
        → (dest == temp_path dest) ≡ false
        → is_dir (run (make_dir (path_dir dest)) d).1 dest ≡ false
        → Lands
            (temp_path dest)
            dest
            content
            d
            (copy_reader_to_sandbox D run base64 trim_space content dest d).0
            (copy_reader_to_sandbox D run base64 trim_space content dest d).1
    unfolding copy_reader_to_sandbox with_directory
    copied-Lands content dest d apart no_dir =
        elim (exec_checked-cases D run base64 trim_space file is_dir (make_dir (path_dir dest)) d) [
          | inr (e, h) ↦ rw h (record {
            landed = λ x. cc;
            whole = inl (laws.make_dir-file (path_dir dest) d dest);
            others = λ p n m. laws.make_dir-file (path_dir dest) d p;
          })
          | inl (r, h, _, _) ↦
              let tmp = temp_path dest in
              let d1 = (run (make_dir (path_dir dest)) d).1 in
              let p =
                attempts D run base64 trim_space transfer_tries content tmp dest nil_error d1 in
              rw h (
                Lands-from laws tmp dest content apart d d1 (removing D run base64 trim_space tmp p)
                  (λ q n. laws.make_dir-file (path_dir dest) d q)
                  (removing-Lands laws tmp dest content apart d1 p (
                    attempts-Lands laws tmp dest content apart transfer_tries nil_error d1 no_dir)))
        ]

    -- A transfer into a sandbox, whose commands do what a shell does, never leaves a part of the content
    -- at the destination, if that is no directory once the directory above it has been made. Without an error the file there has the whole content, although the end of
    -- what a command appends may be lost; with an error it is as it was or has the whole content. Any
    -- other file is as it was, but for the temporary one, whose path is not the destination's.
    pub copy_reader_to_sandbox-Placed :
        (content dest : Text) (d : D) (p : Text)
        → (dest == temp_path dest) ≡ false
        → is_dir (run (make_dir (path_dir dest)) d).1 dest ≡ false
        → (p == temp_path dest) ≡ false
        → (p == dest) ≡ false
        → let (out, d') = copy_reader_to_sandbox D run base64 trim_space content dest d in
          Placed out (file d dest) (file d' dest) content × (file d' p ≡ file d p)
    copy_reader_to_sandbox-Placed content dest d p apart no_dir n m =
        let lands = copied-Lands content dest d apart no_dir in
        let (out, d') = copy_reader_to_sandbox D run base64 trim_space content dest d in
        (
          placed out (file d dest) (file d' dest) content lands.landed lands.whole,
          lands.others p n m,
        )
