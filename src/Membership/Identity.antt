-- ===== src/Membership/Identity.antt =====
-- internal/membership/identity.go: the swarm that a node belongs to. The file swarm.json is read
-- and written by its users; here its content is what the JSON library makes of it.
use sbx_swarm_node.Prelude.{
  Bool, ◌||◌, List, [], ◌∷◌, Option, none, some, Text, text_eq, ◌==◌, if◌then◌else◌, Result, ok,
  err,
}

pub data Mode : Type 0 where
  standalone pending_join rejoin : Mode

pub record SwarmIdentity : Type 0 where
  pub swarm_id : Text
  pub swarm_name : Text
  pub mode : Mode

pub data Error : Type 0 where
  swarm_mismatch read_failed bad_json write_failed : Error

-- What reading the file gives: no file, another error, or a content, which may not be JSON.
pub data FileContent : Type 0 where
  missing unreadable : FileContent
  content : Option SwarmIdentity → FileContent

-- The part of LoadOrInit for a node without a file; `minted` is a fresh random id, and `saved` says
-- whether the write of the file succeeds. A node that only has to join does not write.
init_identity : List Text → Text → Bool → Result Error SwarmIdentity
init_identity (_ ∷ _) minted saved =
    ok (record { swarm_id = []; swarm_name = []; mode = pending_join })
init_identity [] minted saved =
    if saved
    then ok (record { swarm_id = minted; swarm_name = []; mode = standalone })
    else err write_failed

unfoldable pub load_or_init : FileContent → List Text → Text → Bool → Result Error SwarmIdentity
unfolding init_identity
load_or_init missing seeds minted saved = init_identity seeds minted saved
load_or_init unreadable seeds minted saved = err read_failed
load_or_init (content none) seeds minted saved = err bad_json
load_or_init (content (some si)) seeds minted saved = ok (record si { mode = rejoin })

-- GuardJoin; `true` is the nil error.
unfoldable pub guard_join : Text → Text → Bool
guard_join local_id peer_id = local_id == [] || peer_id == [] || local_id == peer_id

-- Adopt changes the identity before it writes the file.
unfoldable pub adopt : Text → Text → SwarmIdentity → SwarmIdentity
adopt swarm_id swarm_name si = record si { swarm_id = swarm_id; swarm_name = swarm_name }
