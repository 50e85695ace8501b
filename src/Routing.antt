-- ===== src/Routing.antt =====
-- internal/ids/ids.go and internal/routing/table.go: ids that name their owner, and the directory
-- of the nodes that gossip has told of.
pub mod Directory
pub mod Examples
use sbx_swarm_node.Prelude.{
  ℕ, Bool, true, false, not, ◌&&◌, List, [], ◌∷◌, ◌++◌, Option, none, some, Text, text_eq, ◌==◌,
  if◌then◌else◌, map, keep, Map, get, put, delete, cut, ltb, length,
}

-- Gen.Sandbox and Gen.Op; the ULID is a library's.
unfoldable pub new_id : Text → Text → Text
new_id node ulid = node ++ b'.' ∷ ulid

-- The owner part before the first dot, if there is a dot and it is not the first byte.
unfoldable pub prefix_of : Option (Text × Text) → Option Text
prefix_of none = none
prefix_of (some ([], _)) = none
prefix_of (some (c ∷ owner, _)) = some (c ∷ owner)

-- ids.Owner, which also refuses an id whose first dot is its last byte
unfoldable pub id_owner_of : Option (Text × Text) → Option Text
id_owner_of none = none
id_owner_of (some ([], _)) = none
id_owner_of (some (c ∷ owner, [])) = none
id_owner_of (some (c ∷ owner, _ ∷ _)) = some (c ∷ owner)

unfoldable pub id_owner : Text → Option Text
unfolding id_owner_of
id_owner id = id_owner_of (cut b'.' id)

pub record Entry : Type 0 where
  pub addr : Text
  pub pubkey : Text

pub record Table : Type 0 where
  pub self : Text
  pub nodes : Map Text Entry

unfoldable pub new_table : Text → Table
new_table self = record { self = self; nodes = [] }

unfoldable pub old_pubkey : Option Entry → Text
old_pubkey none = []
old_pubkey (some e) = e.pubkey

unfoldable pub upsert : Text → Text → Text → Table → Table
unfolding old_pubkey
upsert node_id addr pubkey t = record t {
  nodes =
      put node_id
        (record {
          addr = addr;
          pubkey = if pubkey == [] then old_pubkey (get node_id t.nodes) else pubkey;
        })
        t.nodes;
}

unfoldable pub known_pubkey : Option Entry → Option Text
known_pubkey none = none
known_pubkey (some e) = if e.pubkey == [] then none else some e.pubkey

unfoldable pub pub_key : Text → Table → Option Text
unfolding known_pubkey
pub_key node_id t = known_pubkey (get node_id t.nodes)

unfoldable pub remove : Text → Table → Table
remove node_id t = record t { nodes = delete node_id t.nodes }

unfoldable pub owner : Text → Option Text
unfolding prefix_of
owner id = prefix_of (cut b'.' id)

unfoldable pub is_owner : Text → Option Text → Bool
is_owner self none = false
is_owner self (some o) = o == self

unfoldable pub is_local : Table → Text → Bool
unfolding owner is_owner
is_local t id = is_owner t.self (owner id)

unfoldable pub entry_addr : Option Entry → Option Text
entry_addr none = none
entry_addr (some e) = some e.addr

unfoldable pub addr : Text → Table → Option Text
unfolding entry_addr
addr node_id t = entry_addr (get node_id t.nodes)

unfoldable pub peers : Table → List Text
peers t = keep (λ id. not (id == t.self)) (map (λ e. e.0) t.nodes)
