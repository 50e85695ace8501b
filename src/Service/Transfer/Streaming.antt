-- ===== src/Service/Transfer/Streaming.antt =====
-- internal/apiserver/filescopy.go: what the commands of one attempt leave in the temporary file.
use mathlib.Core.List.{append_assoc, append-nil, map-append}
use sbx_swarm_node.Prelude.{
  ◌≡◌, refl, sym, ap, ◌∙◌, subst, ℕ, ◌<◌, Bool, true, false, ◌⊎◌, inl, inr, List, [], ◌∷◌, ◌++◌,
  Option, some, Text, text_eq, ◌==◌, length, take, map, eqb, pos, parse_int, Result, ok, err, arith,
  Bool-cases, ◌>>◌, continue,
}
use sbx_swarm_node.Sandbox.Record as Sandboxes
use sbx_swarm_node.Service.State.{ExecResult}
use sbx_swarm_node.Service.Publishing.Bundles.{exited_well}
use sbx_swarm_node.Service.Transfer.{
  Transfer, TransferError, not_run, exited, first_arg, make_dir, truncate, append_chunks, stat_size,
  move, delete, chunks_from, checked_exit, checked_run, exec_checked, flush, send_chunks,
  stream_to_sandbox,
}
use sbx_swarm_node.Service.Transfer.Arrivals.{
  joined, joined-step, joined-chunks_from, Arrived, Arrived-append,
}

module _ (D : Type 0) (run : List Text → D → Result Sandboxes.Error ExecResult × D)
    (base64 trim_space : Text → Text) (file : D → Text → Option Text)
    (is_dir : D → Text → Bool) where
  -- The command ended well.
  abbrev pub Succeeds : List Text → D → Type 0
  Succeeds cmd d = (r : ExecResult) × ((run cmd d).0 ≡ ok r) × (exited_well r.exit_code ≡ true)

  -- The path is in both states a directory or in neither, and the same file or none.
  abbrev pub Same : D → D → Text → Type 0
  Same d d' p = (file d' p ≡ file d p) × (is_dir d' p ≡ is_dir d p)

  -- What the commands do to the files of the sandbox, whose paths are clean and without links. An
  -- append may lose the end of what it was given, and a command that reports an error may have done its
  -- work. A file that is moved to a directory goes into it: the laws of a move leave this case open.
  pub record IsShell : Type 0 where
    pub make_dir-file : (dir : Text) (d : D) (p : Text) → file (run (make_dir dir) d).1 p ≡ file d p
    pub truncate-file :
        (tmp : Text) (d : D) (p : Text) → (p == tmp) ≡ false → Same d (run (truncate tmp) d).1 p
    pub truncated :
        (tmp : Text) (d : D)
        → Succeeds (truncate tmp) d
        → file (run (truncate tmp) d).1 tmp ≡ some []
    pub append-file :
        (tmp : Text) (chunks : List Text) (d : D) (p : Text)
        → (p == tmp) ≡ false
        → Same d (run (append_chunks tmp (map base64 chunks)) d).1 p
    pub appended :
        (tmp : Text) (chunks : List Text) (d : D) (old : Text)
        → file d tmp ≡ some old
        → (k : ℕ) × (file (run (append_chunks tmp (map base64 chunks)) d).1 tmp
            ≡ some (old ++ take k (joined chunks)))
    pub stat-file : (p : Text) (d : D) (q : Text) → Same d (run (stat_size p) d).1 q
    pub stat-size :
        (p : Text) (d : D) (r : ExecResult) (n : ℕ)
        → (run (stat_size p) d).0 ≡ ok r
        → exited_well r.exit_code ≡ true
        → parse_int (trim_space r.stdout) ≡ some (pos n)
        → (f : Text) × (file d p ≡ some f) × (length f ≡ n)
    pub move-file :
        (tmp dest : Text) (d : D) (p : Text)
        → is_dir d dest ≡ false
        → (p == tmp) ≡ false
        → (p == dest) ≡ false
        → file (run (move tmp dest) d).1 p ≡ file d p
    pub move-dest :
        (tmp dest : Text) (d : D)
        → is_dir d dest ≡ false
        → (file (run (move tmp dest) d).1 dest ≡ file d dest)
          ⊎ (file (run (move tmp dest) d).1 dest ≡ file d tmp)
    pub moved :
        (tmp dest : Text) (d : D)
        → is_dir d dest ≡ false
        → Succeeds (move tmp dest) d
        → file (run (move tmp dest) d).1 dest ≡ file d tmp
    pub delete-file :
        (tmp : Text) (d : D) (p : Text)
        → (p == tmp) ≡ false
        → file (run (delete tmp) d).1 p ≡ file d p

  -- All paths but the temporary one are as they were.
  abbrev pub Keeps : Text → D → D → Type 0
  Keeps tmp d d' = (p : Text) → (p == tmp) ≡ false → Same d d' p

  -- A stream of bytes to the temporary file.
  abbrev pub Streams : Text → D → Text → Result TransferError (Unit {0}) × D → Type 0
  Streams tmp d sent (err _, d') = Keeps tmp d d'
  Streams tmp d sent (ok _, d') =
      Keeps tmp d d' × (f : Text) × (file d' tmp ≡ some f) × Arrived sent f

  -- A checked command succeeds exactly if the command ends well, and leaves what it leaves.
  pub exec_checked-cases :
      (cmd : List Text) (d : D)
      → ((r : ExecResult) × (exec_checked D run base64 trim_space cmd d ≡ (ok r, (run cmd d).1))
          × ((run cmd d).0 ≡ ok r)
          × (exited_well r.exit_code ≡ true))
        ⊎ ((e : TransferError) × (exec_checked D run base64 trim_space cmd d
              ≡ (err e, (run cmd d).1)))
  unfolding exec_checked checked_run checked_exit
  exec_checked-cases cmd d = go (run cmd d) refl
    where
      go :
          (p : Result Sandboxes.Error ExecResult × D)
          → run cmd d ≡ p
          → ((r : ExecResult) × (checked_run D run base64 trim_space cmd (run cmd d)
                ≡ (ok r, (run cmd d).1))
              × ((run cmd d).0 ≡ ok r)
              × (exited_well r.exit_code ≡ true))
            ⊎ ((e : TransferError) × (checked_run D run base64 trim_space cmd (run cmd d)
                  ≡ (err e, (run cmd d).1)))
      go (err x, d') e = inr (not_run x, rw e refl)
      go (ok r, d') e = elim (Bool-cases (exited_well r.exit_code)) [
        | inl w ↦ inl (r, rw (e, w) refl, ap (λ q. q.0) e, w)
        | inr w ↦ inr (exited (first_arg cmd) (trim_space r.stderr), rw (e, w) refl)
      ]

  module _ (laws : IsShell) where
    Same-trans : {d d1 d2 : D} (p : Text) → Same d1 d2 p → Same d d1 p → Same d d2 p
    Same-trans p h k = (h.0 ∙ k.0, h.1 ∙ k.1)

    Streams-from :
        (tmp : Text) (d d1 : D) (sent : Text) (p : Result TransferError (Unit {0}) × D)
        → Keeps tmp d d1
        → Streams tmp d1 sent p
        → Streams tmp d sent p
    Streams-from tmp d d1 sent (err e, d2) k h = λ p n. Same-trans p (h p n) (k p n)
    Streams-from tmp d d1 sent (ok _, d2) k (h, g, there, a) =
        ((λ p n. Same-trans p (h p n) (k p n)), g, there, a)

    then-Streams :
        (tmp : Text) (d : D) (sent more : Text) (next : D → Result TransferError (Unit {0}) × D)
        (p : Result TransferError (Unit {0}) × D)
        → Streams tmp d sent p
        → ((d1 : D) (f : Text)
            → file d1 tmp ≡ some f
            → Arrived sent f
            → Streams tmp d1 more (next d1))
        → Streams tmp d more (continue p.0 (λ _. next) p.1)
    then-Streams tmp d sent more next (err e, d1) k step = k
    then-Streams tmp d sent more next (ok _, d1) (k, f, here, arrived) step =
        Streams-from tmp d d1 more (next d1) k (step d1 f here arrived)

    flush-Streams :
        (tmp : Text) (b : List Text) (d : D) (sent f : Text)
        → file d tmp ≡ some f
        → Arrived sent f
        → Streams tmp d (sent ++ joined b) (flush D run base64 trim_space tmp (map base64 b) d)
    unfolding flush
    flush-Streams tmp [] d sent f here h =
        ((λ p n. (refl, refl)), f, here, subst (λ t. Arrived t f) (sym (append-nil sent)) h)
    flush-Streams tmp (c ∷ b) d sent f here h =
        let cmd = append_chunks tmp (map base64 (c ∷ b)) in
        elim (exec_checked-cases cmd d) [
          | inl (r, e, _, _) ↦
              let (k, now) = laws.appended tmp (c ∷ b) d f here in
              rw e (
                (λ p n. laws.append-file tmp (c ∷ b) d p n),
                f ++ take k (joined (c ∷ b)),
                now,
                Arrived-append sent f (joined (c ∷ b)) k h,
              )
          | inr (x, e) ↦ rw e (λ p n. laws.append-file tmp (c ∷ b) d p n)
        ]

    send_chunks-Streams :
        (max : ℕ) (tmp : Text) (cs b : List Text) (d : D) (sent f : Text)
        → file d tmp ≡ some f
        → Arrived sent f
        → Streams tmp d
            (sent ++ (joined b ++ joined cs))
            (send_chunks D run base64 trim_space max tmp (map base64 b) cs d)
    unfolding send_chunks
    send_chunks-Streams max tmp [] b d sent f here h =
        subst (λ t. Streams tmp d (sent ++ t) (flush D run base64 trim_space tmp (map base64 b) d))
          (sym (append-nil (joined b))) (flush-Streams tmp b d sent f here h)
    send_chunks-Streams max tmp (c ∷ cs) b d sent f here h =
        go (eqb (length (map base64 b ++ base64 c ∷ [])) max)
          (subst flushed grown (flush-Streams tmp (b ++ c ∷ []) d sent f here h))
          (λ d1 f1 here1 h1.
            send_chunks-Streams max tmp cs [] d1 (sent ++ joined (b ++ c ∷ [])) f1 here1 h1)
          (subst waiting grown (send_chunks-Streams max tmp cs (b ++ c ∷ []) d sent f here h))
      where
        grown : map base64 (b ++ c ∷ []) ≡ map base64 b ++ base64 c ∷ []
        grown = map-append base64 b (c ∷ [])

        flushed : List Text → Type 0
        flushed batch =
            Streams tmp d (sent ++ joined (b ++ c ∷ [])) (flush D run base64 trim_space tmp batch d)

        waiting : List Text → Type 0
        waiting batch =
            Streams tmp d (sent ++ (joined (b ++ c ∷ []) ++ joined cs))
              (send_chunks D run base64 trim_space max tmp batch cs d)

        go :
            (t : Bool)
            → flushed (map base64 b ++ base64 c ∷ [])
            → ((d1 : D) (f1 : Text)
                → file d1 tmp ≡ some f1
                → Arrived (sent ++ joined (b ++ c ∷ [])) f1
                → Streams tmp d1
                    ((sent ++ joined (b ++ c ∷ [])) ++ joined cs)
                    (send_chunks D run base64 trim_space max tmp [] cs d1))
            → waiting (map base64 b ++ base64 c ∷ [])
            → Streams tmp d (sent ++ (joined b ++ (c ++ joined cs))) (
                (elim t as (λ _. Transfer D run base64 trim_space (Unit {0})) [
                  | true ↦
                      flush D run base64 trim_space tmp (map base64 b ++ base64 c ∷ [])
                      >> send_chunks D run base64 trim_space max tmp [] cs
                  | false ↦
                      send_chunks D run base64 trim_space max tmp (map base64 b ++ base64 c ∷ []) cs
                ])
                  d)
        go true p next w =
            let batch = map base64 b ++ base64 c ∷ [] in
            let sent' = sent ++ joined (b ++ c ∷ []) in
            let rest = send_chunks D run base64 trim_space max tmp [] cs in
            let first = flush D run base64 trim_space tmp batch in
            subst (λ t. Streams tmp d t ((first >> rest) d))
              (append_assoc sent (joined (b ++ c ∷ [])) (joined cs)
                ∙ ap (λ t. sent ++ t) (joined-step b cs c))
              (then-Streams tmp d sent' (sent' ++ joined cs) rest (first d) p next)
        go false p next w =
            subst
              (λ t.
                Streams tmp d (sent ++ t) (
                  send_chunks D run base64 trim_space max tmp (map base64 b ++ base64 c ∷ []) cs d))
              (joined-step b cs c) w

    -- An attempt that reports no error has sent the whole content, which may not all have arrived.
    pub stream_to_sandbox-Streams :
        (raw max : ℕ) (content tmp : Text) (d : D)
        → 0 < raw
        → Streams tmp d content (stream_to_sandbox D run base64 trim_space raw max content tmp d)
    unfolding stream_to_sandbox
    stream_to_sandbox-Streams raw max content tmp d h = elim (exec_checked-cases (truncate tmp) d) [
      | inr (x, e) ↦ rw e (λ p n. laws.truncate-file tmp d p n)
      | inl (r, e, out, well) ↦
          let d1 = (run (truncate tmp) d).1 in
          let chunks = chunks_from raw (length content) content in
          let sent =
            send_chunks-Streams max tmp chunks [] d1 [] [] (laws.truncated tmp d (r, out, well))
              (inl refl) in
          let p = send_chunks D run base64 trim_space max tmp [] chunks d1 in
          let whole : Streams tmp d1 content p =
            subst (λ t. Streams tmp d1 t p)
              (joined-chunks_from raw (length content) content h (omega arith)) sent in
          rw e (Streams-from tmp d d1 content p (λ q n. laws.truncate-file tmp d q n) whole)
    ]
