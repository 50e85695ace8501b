-- ===== src/Events/Event.antt =====
-- internal/events/event.go: an event and the filter that selects events.
use sbx_swarm_node.Prelude.{
  ℕ, Bool, true, false, not, ◌&&◌, List, [], ◌∷◌, Option, String, Text, ◌==◌, string_eq, contains,
  if◌then◌else◌,
}

pub record Event : Type 0 where
  pub id : Text
  pub seq : ℕ
  pub ts : ℕ
  pub event_type : String
  pub node_id : String
  pub sandbox_id : String
  pub payload : Option Text

pub record Filter : Type 0 where
  pub types : List String
  pub sandbox_id : String

abbrev no_types : List String → Bool
no_types [] = true
no_types (_ ∷ _) = false

-- Filter.matches, with its two early returns and its loop over the types.
unfoldable pub matches : Filter → Event → Bool
matches f e =
    if not (f.sandbox_id == "") && not (e.sandbox_id == f.sandbox_id)
    then false
    else if no_types f.types
    then true
    else contains e.event_type f.types
