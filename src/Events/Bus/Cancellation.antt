-- ===== src/Events/Bus/Cancellation.antt =====
-- internal/events/bus.go: the cancel functions that Subscribe returns.
use sbx_swarm_node.Prelude.{
  ℕ, ◌+◌, ◌≡◌, refl, true, false, none, some, arith, if◌then◌else◌, Option-cases, inl, inr, ◌==◌,
  ==_iff, nat_eq, get, put, delete, get-put, get-delete, IsMap-delete, get-delete_self,
}
use mathlib.Core.Option
use sbx_swarm_node.Events.Event.{Filter}
use sbx_swarm_node.Events.Bus.Delivery.{serves, waiting, IsValid}
use sbx_swarm_node.Events.Bus.{Channel, Bus, cancel}

-- The bus after a call of a cancel function.
pub record Cancelled (id : ℕ) (b b' : Bus) : Type 0 where
  pub valid : IsValid b'
  pub gone : get id b'.subs ≡ none
  pub others : (j : ℕ) → get j b'.subs ≡ (if id == j then none else get j b.subs)
  pub same_ring : b'.ring ≡ b.ring

cancelled_chan :
    (id : ℕ) (b : Bus) (f : Filter)
    → IsValid b
    → get id b.subs ≡ some f
    → (c : Channel) × (get id b.chans ≡ some c) × (c.closed ≡ false)
unfolding serves
cancelled_chan id b f v s = elim (Option-cases (get id b.chans)) [
  | inl n ↦ absurd (ground (arith, v.live id))
  | inr (c, g) ↦ (c, g, ground (arith, v.live id))
]

cancel_present :
    (id : ℕ) (b : Bus) (f : Filter) (c : Channel)
    → IsValid b
    → get id b.subs ≡ some f
    → get id b.chans ≡ some c
    → IsValid
        (record b { subs = delete id b.subs; chans = put id (record c { closed = true }) b.chans })
unfolding serves waiting
cancel_present id b f c v s g =
    let shut = record c { closed = true } in
    record {
      subs_map = IsMap-delete id b.subs v.subs_map;
      live = λ j.
          ground (arith, get-delete id j b.subs, get-put id j shut b.chans, v.live j, ==_iff id j);
      bounded = λ j. ground (arith, get-put id j shut b.chans, v.bounded j, v.bounded id, g);
      unused = λ j. ground (
        arith,
        get-put id (b.next_id + j) shut b.chans,
        v.unused j,
        g,
        ==_iff id (b.next_id + j),
      );
      unsubscribed = λ j. ground (arith, get-delete id (b.next_id + j) b.subs, v.unsubscribed j);
    }

-- On a valid bus a cancel function never panics, also when it is called again: it drops its own
-- subscription and no other, keeps the bus valid and leaves the ring as it was.
pub cancel-Cancelled :
    (id : ℕ) (b : Bus) → IsValid b → (b' : Bus) × (cancel id b ≡ some b') × Cancelled id b b'
unfolding cancel
cancel-Cancelled id b v = elim (Option-cases (get id b.subs)) [
  | inl n ↦ (
    b,
    rw n refl,
    record { valid = v; gone = n; others = λ j. ground (arith, n, ==_iff id j); same_ring = refl },
  )
  | inr (f, s) ↦
      let (c, g, opened) = cancelled_chan id b f v s in
      (
        record b { subs = delete id b.subs; chans = put id (record c { closed = true }) b.chans },
        unfold Option.bind in rw (s, g) (rw opened refl),
        record {
          valid = cancel_present id b f c v s g;
          gone = get-delete_self id b.subs;
          others = λ j. get-delete id j b.subs;
          same_ring = refl;
        },
      )
]
