-- ===== src/Events/Bus/Ring.antt =====
-- internal/events/bus.go: the ring buffer and Replay, over the histories of a bus.
use sbx_swarm_node.Prelude.{
  ℕ, zero, suc, ◌+◌, ◌-◌, ◌≤◌, ◌%◌, ◌^◌, ◌≡◌, refl, sym, ap, ◌∙◌, ◌&&◌, List, [], ◌∷◌, ◌++◌, some,
  arith, ltb, eqb, if◌then◌else◌, Bool-cases, Option-cases, inl, inr, length, length-append, drop,
  length-drop, keep, nat_eq, String,
}
use mathlib.Core.Option
use native.Mathlib.Nat.{zero-add, suc-add}
use sbx_swarm_node.Events.Event.{Event, Filter, matches}
use sbx_swarm_node.Events.Bus.{
  Bus, new_bus, fan_out, Publication, next_seq, new_event, publish, trim, replay, subscribe, cancel,
}

-- The last `n` entries of a list.
unfoldable pub last_n {ℓ} : {A : Type ℓ} → ℕ → List A → List A
last_n n xs = drop (length xs - n) xs

trim-eq : (n : ℕ) (xs : List Event) → trim n xs ≡ last_n n xs
unfolding trim last_n
trim-eq n xs = elim (Bool-cases (ltb n (length xs))) [
  | inl e ↦ rw e refl
  | inr e ↦ let none_left : length xs - n ≡ 0 = ground arith in rw (e, none_left) refl
]

drop-append {ℓ} :
    {A : Type ℓ} (n : ℕ) (xs ys : List A) → n ≤ length xs → drop n (xs ++ ys) ≡ drop n xs ++ ys
drop-append zero xs ys h = refl
drop-append (suc n) [] ys h = elim h [ ]
drop-append (suc n) (x ∷ xs) ys h = drop-append n xs ys (omega arith)

drop-drop {ℓ} : {A : Type ℓ} (m n : ℕ) (xs : List A) → drop m (drop n xs) ≡ drop (n + m) xs
drop-drop m zero xs = rw zero-add
drop-drop zero (suc n) [] = rw suc-add refl
drop-drop (suc m) (suc n) [] = rw suc-add refl
drop-drop m (suc n) (x ∷ xs) = rw suc-add (drop-drop m n xs)

-- Forgetting old entries early does not change what is kept in the end.
last_n-append_last_n {ℓ} :
    {A : Type ℓ} (n : ℕ) (xs ys : List A) → last_n n (last_n n xs ++ ys) ≡ last_n n (xs ++ ys)
unfolding last_n
last_n-append_last_n n xs ys =
    let k = length xs - n in
    let sum : k + (length (drop k xs ++ ys) - n) ≡ length (xs ++ ys) - n =
      omega (arith, length-append (drop k xs) ys, length-append xs ys, length-drop k xs) in
    ap (drop (length (drop k xs ++ ys) - n)) (sym (drop-append k xs ys (omega arith)))
    ∙ drop-drop (length (drop k xs ++ ys) - n) k (xs ++ ys)
    ∙ ap (λ i. drop i (xs ++ ys)) sum

-- The histories of a bus: the events that it has returned, oldest first, while subscriptions come
-- and go in between.
pub data Run (node_id : String) (n : ℕ) : List Event → Bus → Type 0 where
  start : Run node_id n [] (new_bus node_id n)
  published :
      {hist : List Event} {b b' : Bus} {e : Event} (p : Publication)
      → Run node_id n hist b
      → publish p b ≡ some (b', e)
      → Run node_id n (hist ++ e ∷ []) b'
  subscribed :
      {hist : List Event} {b : Bus} (f : Filter)
      → Run node_id n hist b
      → Run node_id n hist (subscribe f b).0
  cancelled :
      {hist : List Event} {b b' : Bus} (id : ℕ)
      → Run node_id n hist b
      → cancel id b ≡ some b'
      → Run node_id n hist b'

-- The events carry the numbers from `n + 1` on.
pub Numbered : ℕ → List Event → Type 0
Numbered n [] = Unit
Numbered n (e ∷ es) = (e.seq ≡ (n + 1) % 2 ^ 64) × Numbered (n + 1) es

Numbered-append :
    (n : ℕ) (es : List Event) (e : Event)
    → Numbered n es
    → e.seq ≡ (n + length es + 1) % 2 ^ 64
    → Numbered n (es ++ e ∷ [])
unfolding Numbered
Numbered-append n [] e h s = (s ∙ ap (λ k. (k + 1) % 2 ^ 64) (omega arith), tt)
Numbered-append n (x ∷ es) e h s =
    (h.0, Numbered-append (n + 1) es e h.1 (s ∙ ap (λ k. (k + 1) % 2 ^ 64) (omega arith)))

pub record Recorded (node_id : String) (n : ℕ) (hist : List Event) (b : Bus) : Type 0 where
  pub kept : b.ring ≡ last_n b.size hist
  pub size : b.size ≡ (if eqb n 0 then 256 else n)
  pub counted : b.seq ≡ length hist % 2 ^ 64
  pub numbered : Numbered 0 hist

publish_parts :
    (p : Publication) (b b' : Bus) (e : Event)
    → publish p b ≡ some (b', e)
    → (e ≡ new_event b p)
      × (b'.ring ≡ trim b.size (b.ring ++ new_event b p ∷ []))
      × (b'.seq ≡ next_seq b.seq)
      × (b'.size ≡ b.size)
unfolding publish
publish_parts p b b' e h = elim (Option-cases (fan_out (new_event b p) b.subs b.chans)) [
  | inl f ↦ cc (rw f at h)
  | inr (chans, f) ↦ ground (arith, f)
]

cancel_parts :
    (id : ℕ) (b b' : Bus)
    → cancel id b ≡ some b'
    → (b'.ring ≡ b.ring) × (b'.seq ≡ b.seq) × (b'.size ≡ b.size)
unfolding cancel Option.bind
cancel_parts id b b' h = ground arith

next_seq-mod : (k : ℕ) → next_seq (k % 2 ^ 64) ≡ (k + 1) % 2 ^ 64
next_seq-mod k = omega arith

seq-new_event :
    (b : Bus) (p : Publication) (k : ℕ)
    → b.seq ≡ k % 2 ^ 64
    → (new_event b p).seq ≡ (0 + k + 1) % 2 ^ 64
unfolding new_event
seq-new_event b p k h = ap next_seq h ∙ omega arith

drop-nil {ℓ} : {A : Type ℓ} (k : ℕ) → drop {A = A} k [] ≡ []
drop-nil zero = refl
drop-nil (suc k) = refl

Run-Recorded :
    {node_id : String} {n : ℕ} {hist : List Event} {b : Bus}
    → Run node_id n hist b
    → Recorded node_id n hist b
unfolding new_bus Numbered last_n subscribe
Run-Recorded start = record { kept = sym (drop-nil _); size = refl; counted = refl; numbered = tt }
Run-Recorded (published {hist} {b} {b'} {e} p r h) =
    let before = Run-Recorded r in
    let (built, ring, seq, size) = publish_parts p b b' e h in
    record {
      kept =
          rw (ring, size, built)
            (trim-eq b.size (b.ring ++ new_event b p ∷ [])
              ∙ ap (λ t. last_n b.size (t ++ new_event b p ∷ [])) before.kept
              ∙ last_n-append_last_n b.size hist (new_event b p ∷ []));
      size = size ∙ before.size;
      counted =
          seq
          ∙ ap next_seq before.counted
          ∙ next_seq-mod (length hist)
          ∙ ap (λ k. k % 2 ^ 64) (sym (length-append hist (e ∷ []) ∙ omega arith));
      numbered =
          Numbered-append 0 hist e before.numbered
            (ap (λ (x : Event). x.seq) built ∙ seq-new_event b p (length hist) before.counted);
    }
Run-Recorded (subscribed f r) =
    let before = Run-Recorded r in
    record {
      kept = before.kept;
      size = before.size;
      counted = before.counted;
      numbered = before.numbered;
    }
Run-Recorded (cancelled {hist} {b} {b'} id r h) =
    let before = Run-Recorded r in
    let (ring, seq, size) = cancel_parts id b b' h in
    record {
      kept = rw (ring, size) before.kept;
      size = size ∙ before.size;
      counted = seq ∙ before.counted;
      numbered = before.numbered;
    }

-- After any history, Replay returns exactly those of the last `size` published events that come
-- after the given sequence number and pass the filter, in the order in which they were published,
-- and the published events are numbered 1, 2, 3, … modulo 2^64, without a gap.
pub replay-Run :
    (node_id : String) (n : ℕ) (hist : List Event) (b : Bus) (f : Filter) (since : ℕ)
    → Run node_id n hist b
    → (replay f since b
        ≡ keep (λ e. ltb since e.seq && matches f e) (last_n (if eqb n 0 then 256 else n) hist))
      × Numbered 0 hist
unfolding replay
replay-Run node_id n hist b f since r =
    let rec = Run-Recorded r in
    (
      ap (keep (λ e. ltb since e.seq && matches f e)) (rec.kept ∙ ap (λ s. last_n s hist) rec.size),
      rec.numbered,
    )
