-- ===== src/Events/Bus/Delivery.antt =====
-- internal/events/bus.go: what Publish and Subscribe do to the channels of the subscribers.
use sbx_swarm_node.Prelude.{
  ℕ, ◌+◌, ◌≤◌, ◌≡◌, refl, sym, ap, ◌∙◌, Bool, true, false, not, ◌&&◌, [], ◌∷◌, ◌++◌, Option, none,
  some, arith, ltb, if◌then◌else◌, Bool-cases, Option-cases, inl, inr, length, length-append, ◌==◌,
  ==_iff, nat_eq, Map, get, put, IsMap, get-put, get-absent, IsMap-put, String, get-put_self,
}
use mathlib.Core.Option
use sbx_swarm_node.Events.Event.{Event, Filter, matches}
use sbx_swarm_node.Events.Bus.{
  Channel, chan_size, Bus, new_bus, try_send, deliver, fan_out, Publication, new_event, publish,
  subscribe, trim, next_seq,
}

-- A subscription needs an open channel.
unfoldable pub serves : Option Filter → Option Channel → Bool
serves none c = true
serves (some f) none = false
serves (some f) (some c) = not c.closed

unfoldable pub waiting : Option Channel → ℕ
waiting none = 0
waiting (some c) = length c.queue

pub record IsValid (b : Bus) : Type 0 where
  pub subs_map : IsMap b.subs
  pub live : (j : ℕ) → serves (get j b.subs) (get j b.chans) ≡ true
  pub bounded : (j : ℕ) → waiting (get j b.chans) ≤ chan_size
  pub unused : (j : ℕ) → get (b.next_id + j) b.chans ≡ none
  pub unsubscribed : (j : ℕ) → get (b.next_id + j) b.subs ≡ none

-- What one event does to the channel of a subscription with this filter, or of none.
unfoldable pub offer : Event → Option Filter → Channel → Channel
offer e none c = c
offer e (some f) c =
    if matches f e && ltb (length c.queue) chan_size
    then record c { queue = c.queue ++ e ∷ [] }
    else c

-- Every channel is offered the event once, by its own subscription's filter.
pub record Delivered (e : Event) (subs : Map ℕ Filter) (chans chans' : Map ℕ Channel) : Type 0 where
  pub at : (j : ℕ) → get j chans' ≡ Option.map (offer e (get j subs)) (get j chans)

deliver_lem :
    (e : Event) (id : ℕ) (f : Filter) (chans : Map ℕ Channel)
    → serves (some f) (get id chans) ≡ true
    → (chans' : Map ℕ Channel) × (deliver e id f chans ≡ some chans')
      × ((j : ℕ)
          → get j chans' ≡ Option.map (offer e (if id == j then some f else none)) (get j chans))
unfolding deliver try_send serves offer Option.bind
deliver_lem e id f chans s = elim (Option-cases (get id chans)) [
  | inl n ↦ cc (rw n at s)
  | inr (c, g) ↦ (
    (if matches f e then put id (offer e (some f) c) chans else chans),
    ground (arith, g),
    λ j. ground (arith, g, get-put id j (offer e (some f) c) chans, ==_iff id j),
  )
]

offer-none : (e : Event) (o : Option Channel) → Option.map (offer e none) o ≡ o
unfolding offer
offer-none e o = ground arith

serves-offer :
    (e : Event) (f g : Option Filter) (o : Option Channel)
    → serves g (Option.map (offer e f) o) ≡ serves g o
unfolding serves offer
serves-offer e f g o = ground arith

module _ (id : ℕ) (f : Filter) (subs : Map ℕ Filter) (m : IsMap ((id, f) ∷ subs)) where
  get_tail : (j : ℕ) → id ≡ j → get j subs ≡ none
  get_tail j e = rw (← e) (get-absent id subs m.0)

  tail-serves :
      (chans : Map ℕ Channel)
      → ((j : ℕ) → serves (get j ((id, f) ∷ subs)) (get j chans) ≡ true)
      → (j : ℕ) → serves (get j subs) (get j chans) ≡ true
  unfolding serves get
  tail-serves chans s j = elim (Bool-cases (id == j)) [
    | inl e ↦ rw (get_tail j ((==_iff id j).0 e))
    | inr e ↦ ground (arith, s j, e)
  ]

  tail-offer :
      (e : Event) (j : ℕ) (o : Option Channel)
      → Option.map
          (offer e (get j subs))
          (Option.map (offer e (if id == j then some f else none)) o)
        ≡ Option.map (offer e (get j ((id, f) ∷ subs))) o
  unfolding offer get
  tail-offer e j o = elim (Bool-cases (id == j)) [
    | inl h ↦ rw (h, get_tail j ((==_iff id j).0 h)) (offer-none e _)
    | inr h ↦ rw h (rw (offer-none e o))
  ]

fan_out_lem :
    (e : Event) (subs : Map ℕ Filter) (chans : Map ℕ Channel)
    → IsMap subs
    → ((j : ℕ) → serves (get j subs) (get j chans) ≡ true)
    → (chans' : Map ℕ Channel) × (fan_out e subs chans ≡ some chans')
      × Delivered e subs chans chans'
unfolding fan_out get Option.bind
fan_out_lem e [] chans m s = (chans, refl, record { at = λ j. sym (offer-none e (get j chans)) })
fan_out_lem e ((id, f) ∷ subs) chans m s =
    let first : serves (some f) (get id chans) ≡ true = ground (arith, s id, ==_iff id id) in
    let (mid, sent, offered) = deliver_lem e id f chans first in
    let live = λ (j : ℕ). tail-serves id f subs m chans s j in
    let (last, rest, all_offered) =
      fan_out_lem e subs mid m.1
        (λ j. rw (offered j) (serves-offer e _ (get j subs) (get j chans) ∙ live j)) in
    (
      last,
      rw sent rest,
      record {
        at = λ j.
            all_offered.at j
            ∙ ap (Option.map (offer e (get j subs))) (offered j)
            ∙ tail-offer id f subs m e j (get j chans);
      },
    )

waiting-offer :
    (e : Event) (f : Option Filter) (o : Option Channel)
    → waiting o ≤ chan_size
    → waiting (Option.map (offer e f) o) ≤ chan_size
unfolding waiting offer
waiting-offer e none none h = h
waiting-offer e none (some c) h = h
waiting-offer e (some f) none h = h
waiting-offer e (some f) (some c) h = ground (arith, length-append c.queue (e ∷ []))

-- On a valid bus Publish never panics and leaves a valid bus; the event is offered exactly once to
-- the channel of every subscription, by that subscription's filter, and a full channel, a channel
-- with another filter and a channel whose subscription is cancelled stay as they were.
pub publish-Delivered :
    (p : Publication) (b : Bus)
    → IsValid b
    → (b' : Bus) × (publish p b ≡ some (b', new_event b p))
      × IsValid b'
      × Delivered (new_event b p) b.subs b.chans b'.chans
unfolding publish
publish-Delivered p b v =
    let e = new_event b p in
    let (chans, sent, offered) = fan_out_lem e b.subs b.chans v.subs_map v.live in
    let b' = record b {
      seq = next_seq b.seq;
      ring = trim b.size (b.ring ++ e ∷ []);
      chans = chans;
    } in
    (
      b',
      rw sent refl,
      record {
        subs_map = v.subs_map;
        live = λ j. rw (offered.at j) (serves-offer e _ _ (get j b.chans) ∙ v.live j);
        bounded = λ j. rw (offered.at j) (waiting-offer e _ (get j b.chans) (v.bounded j));
        unused = λ j. rw (offered.at (b.next_id + j), v.unused j);
        unsubscribed = v.unsubscribed;
      },
      offered,
    )

pub new_bus-IsValid : (node_id : String) (n : ℕ) → IsValid (new_bus node_id n)
unfolding new_bus get serves waiting
new_bus-IsValid node_id n = record {
  subs_map = tt;
  live = λ j. refl;
  bounded = λ j. omega arith;
  unused = λ j. refl;
  unsubscribed = λ j. refl;
}

serves-put :
    (n j : ℕ) (f : Filter) (c : Channel) (subs : Map ℕ Filter) (chans : Map ℕ Channel)
    → c.closed ≡ false
    → serves (get j subs) (get j chans) ≡ true
    → serves (get j (put n f subs)) (get j (put n c chans)) ≡ true
unfolding serves
serves-put n j f c subs chans h s = ground (arith, get-put n j f subs, get-put n j c chans)

-- A new subscription keeps the bus valid: its id was in use by no channel and no subscription, and
-- its channel starts open and empty.
pub subscribe-IsValid :
    (f : Filter) (b : Bus)
    → IsValid b
    → IsValid (subscribe f b).0
      × (get (subscribe f b).1 b.chans ≡ none)
      × (get (subscribe f b).1 (subscribe f b).0.chans
          ≡ some (record { queue = []; closed = false }))
unfolding subscribe waiting
subscribe-IsValid f b v =
    let n = b.next_id in
    let fresh : Channel = record { queue = []; closed = false } in
    (
      record {
        subs_map = IsMap-put n f b.subs v.subs_map;
        live = λ j. serves-put n j f fresh b.subs b.chans refl (v.live j);
        bounded = λ j. ground (arith, get-put n j fresh b.chans, v.bounded j);
        unused = λ j.
            ground
              (arith, get-put n (n + 1 + j) fresh b.chans, v.unused (j + 1), ==_iff n (n + 1 + j));
        unsubscribed = λ j.
            ground
              (arith, get-put n (n + 1 + j) f b.subs, v.unsubscribed (j + 1), ==_iff n (n + 1 + j));
      },
      ground (arith, v.unused 0),
      get-put_self n fresh b.chans,
    )
