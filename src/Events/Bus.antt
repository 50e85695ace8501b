-- ===== src/Events/Bus.antt =====
-- internal/events/bus.go. Each method runs under the bus's mutex, so a method is one step on the
-- state. `chans` are the channels that Subscribe has made, by the subscription's id; a subscriber
-- reads its channel at any time.
pub mod Delivery
pub mod Cancellation
pub mod Ring
use Prim.Native.Nat.{min}
use sbx_swarm_node.Prelude.{
  ℕ, ◌+◌, ◌-◌, ◌%◌, ◌^◌, ◌≡◌, Bool, true, false, ◌&&◌, List, [], ◌∷◌, ◌++◌, Option, none, some,
  String, Text, ltb, leb, eqb, if◌then◌else◌, length, drop, keep, Map, get, put, delete, nat_eq,
  codes, itoa, is_some,
}
use mathlib.Core.Option
use sbx_swarm_node.Events.Event.{Event, Filter, matches}

-- A Go channel with buffer 64: what waits in it, and whether it is closed.
pub record Channel : Type 0 where
  pub queue : List Event
  pub closed : Bool

abbrev pub chan_size : ℕ
chan_size = 64

pub record Bus : Type 0 where
  pub node_id : String
  pub seq : ℕ  -- uint64
  pub ring : List Event
  pub size : ℕ
  pub subs : Map ℕ Filter
  pub chans : Map ℕ Channel
  pub next_id : ℕ

-- NewBus; a size that is not positive is given as 0.
unfoldable pub new_bus : String → ℕ → Bus
new_bus node_id buf_size = record {
  node_id = node_id;
  seq = 0;
  ring = [];
  size = if eqb buf_size 0 then 256 else buf_size;
  subs = [];
  chans = [];
  next_id = 0;
}

-- `select { case ch <- e: default: }`; a send on a closed channel panics (`none`).
unfoldable pub try_send : Event → Channel → Option Channel
try_send e c =
    if c.closed
    then none
    else if ltb (length c.queue) chan_size
    then some (record c { queue = c.queue ++ e ∷ [] })
    else some c

-- One round of the loop over the subscriptions.
unfoldable pub deliver : Event → ℕ → Filter → Map ℕ Channel → Option (Map ℕ Channel)
deliver e id f chans =
    if matches f e
    then Option.map (λ c. put id c chans) (Option.bind (get id chans) (try_send e))
    else some chans

unfoldable pub fan_out : Event → Map ℕ Filter → Map ℕ Channel → Option (Map ℕ Channel)
fan_out e [] chans = some chans
fan_out e ((id, f) ∷ subs) chans = Option.bind (deliver e id f chans) (fan_out e subs)

-- What Publish is called with, besides the clock and the marshalled payload.
pub record Publication : Type 0 where
  pub event_type : String
  pub sandbox_id : String
  pub payload : Option Text
  pub now : ℕ

abbrev pub next_seq : ℕ → ℕ
next_seq seq = (seq + 1) % 2 ^ 64

-- The event that Publish builds: its id is "<node_id>-<seq>".
unfoldable pub new_event : Bus → Publication → Event
new_event b p = record {
  id = codes b.node_id ++ b'-' ∷ itoa (next_seq b.seq);
  seq = next_seq b.seq;
  ts = p.now;
  event_type = p.event_type;
  node_id = b.node_id;
  sandbox_id = p.sandbox_id;
  payload = p.payload;
}

-- The ring keeps its last `size` events.
unfoldable pub trim : ℕ → List Event → List Event
trim size ring = if ltb size (length ring) then drop (length ring - size) ring else ring

-- `none` is a panic.
unfoldable pub publish : Publication → Bus → Option (Bus × Event)
publish p b =
    let e = new_event b p in
    Option.map
      (λ chans. (
        record b { seq = next_seq b.seq; ring = trim b.size (b.ring ++ e ∷ []); chans = chans },
        e,
      ))
      (fan_out e b.subs b.chans)

unfoldable pub replay : Filter → ℕ → Bus → List Event
replay f since b = keep (λ e. ltb since e.seq && matches f e) b.ring

-- Subscribe returns the id under which the channel is known.
unfoldable pub subscribe : Filter → Bus → Bus × ℕ
subscribe f b = (
  record b {
    next_id = b.next_id + 1;
    subs = put b.next_id f b.subs;
    chans = put b.next_id (record { queue = []; closed = false }) b.chans;
  },
  b.next_id,
)

close_chan : Channel → Option Channel
close_chan c = if c.closed then none else some (record c { closed = true })

-- The cancel function of a subscription: closing a closed channel panics (`none`).
unfoldable pub cancel : ℕ → Bus → Option Bus
unfolding close_chan
cancel id b =
    if is_some (get id b.subs)
    then Option.map (λ c. record b { subs = delete id b.subs; chans = put id c b.chans })
        (Option.bind (get id b.chans) close_chan)
    else some b
