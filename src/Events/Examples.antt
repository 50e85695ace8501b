-- ===== src/Events/Examples.antt =====
-- The theorems on the bus at concrete inputs.
use sbx_swarm_node.Prelude.{
  ◌≡◌, refl, ◌&&◌, [], ◌∷◌, none, some, ltb, eqb, if◌then◌else◌, keep, nat_eq,
}
use sbx_swarm_node.Events.Event.{Filter, matches}
use sbx_swarm_node.Events.Bus.{
  Bus, new_bus, Publication, new_event, publish, trim, fan_out, replay, subscribe,
}
use sbx_swarm_node.Events.Bus.Delivery.{
  IsValid, Delivered, new_bus-IsValid, publish-Delivered, subscribe-IsValid,
}
use sbx_swarm_node.Events.Bus.Ring.{Run, start, published, last_n, Numbered, replay-Run}

abbrev quiet_bus : Bus
quiet_bus = new_bus "n1" 2

abbrev created_only : Filter
created_only = record { types = "sandbox.created" ∷ []; sandbox_id = "" }

abbrev watched_bus : Bus
watched_bus = (subscribe created_only quiet_bus).0

abbrev creation : Publication
creation = record { event_type = "sandbox.created"; sandbox_id = "n1.a"; payload = none; now = 7 }

watched_bus-IsValid : IsValid watched_bus
watched_bus-IsValid = (subscribe-IsValid created_only quiet_bus (new_bus-IsValid "n1" 2)).0

publish-Delivered_example :
    (b' : Bus) × (publish creation watched_bus ≡ some (b', new_event watched_bus creation))
    × IsValid b'
    × Delivered (new_event watched_bus creation) watched_bus.subs watched_bus.chans b'.chans
publish-Delivered_example = publish-Delivered creation watched_bus watched_bus-IsValid

abbrev after_creation : Bus
after_creation = record quiet_bus { seq = 1; ring = new_event quiet_bus creation ∷ [] }

one_published : Run "n1" 2 (new_event quiet_bus creation ∷ []) after_creation
unfolding publish trim fan_out new_bus
one_published = published creation start refl

replay-Run_example :
    (replay created_only 0 after_creation
      ≡ keep
          (λ e. ltb 0 e.seq && matches created_only e)
          (last_n (if eqb 2 0 then 256 else 2) (new_event quiet_bus creation ∷ [])))
    × Numbered 0 (new_event quiet_bus creation ∷ [])
replay-Run_example =
    replay-Run "n1" 2 (new_event quiet_bus creation ∷ []) after_creation created_only 0
      one_published
