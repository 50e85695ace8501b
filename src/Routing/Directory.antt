-- ===== src/Routing/Directory.antt =====
-- internal/ids/ids.go and internal/routing/table.go: the owner of an id, and updates of the table.
use sbx_swarm_node.Prelude.{
  ℕ, ◌⊎◌, ◌≡◌, refl, false, [], ◌∷◌, ◌++◌, Option, none, some, Text, text_eq, nat_eq, ◌==◌,
  if◌then◌else◌, Bool-cases, inl, inr, arith, contains, cut, cut-cons, cut_parts, get, get-put,
}
use sbx_swarm_node.Routing.{
  new_id, prefix_of, id_owner_of, id_owner, Entry, Table, upsert, old_pubkey, known_pubkey, pub_key,
  owner, is_owner, is_local, entry_addr, addr,
}

-- An id that a node mints is local to exactly that node: for a node id without a dot and not
-- empty, and any ULID but the empty one, both readings of the owner give the node, and a directory
-- takes the id for its own just if the node is itself.
pub owner-new_id :
    (t : Table) (c : ℕ) (node ulid : Text) (u : ℕ)
    → contains b'.' (c ∷ node) ≡ false
    → (owner (new_id (c ∷ node) (u ∷ ulid)) ≡ some (c ∷ node))
      × (id_owner (new_id (c ∷ node) (u ∷ ulid)) ≡ some (c ∷ node))
      × (is_local t (new_id (c ∷ node) (u ∷ ulid)) ≡ ((c ∷ node) == t.self))
unfolding owner id_owner new_id prefix_of id_owner_of is_local is_owner
owner-new_id t c node ulid u h = rw (cut-cons b'.' (c ∷ node) (u ∷ ulid) h) (refl, refl, refl)

owners_of :
    (p : Option (Text × Text)) (n : Text)
    → prefix_of p ≡ some n
    → (id_owner_of p ≡ some n) ⊎ ((id_owner_of p ≡ none) × (p ≡ some (n, [])))
unfolding prefix_of id_owner_of
owners_of none n h = cc
owners_of (some ([], r)) n h = cc
owners_of (some (c ∷ o, [])) n h = inr (refl, ground (arith, h))
owners_of (some (c ∷ o, x ∷ r)) n h = inl h

-- Where the directory reads an owner from an id, the id generator's reading is the same one, or
-- the id is that owner followed by a dot and nothing else: there the generator's reading fails.
pub owner_readings :
    (id n : Text)
    → owner id ≡ some n
    → (id_owner id ≡ some n) ⊎ ((id_owner id ≡ none) × (id ≡ n ++ b'.' ∷ []))
unfolding owner id_owner
owner_readings id n h = elim (owners_of (cut b'.' id) n h) [
  | inl e ↦ inl e
  | inr (e, p) ↦ inr (e, (cut_parts b'.' id p).0)
]

kept_pubkey :
    (a : Text) (o : Option Entry)
    → known_pubkey (some (record { addr = a; pubkey = old_pubkey o })) ≡ known_pubkey o
unfolding known_pubkey old_pubkey
kept_pubkey a none = refl
kept_pubkey a (some e) = refl

-- After an update of one node: every other node has its address and key as before; the node itself
-- has the new address, and the new key unless that is empty, where it keeps the key it had.
pub pub_key-upsert :
    (t : Table) (node j a key : Text)
    → (addr j (upsert node a key t) ≡ (if node == j then some a else addr j t))
      × (pub_key j (upsert node a key t)
          ≡ (if node == j then (if key == [] then pub_key node t else some key) else pub_key j t))
unfolding addr upsert pub_key known_pubkey old_pubkey entry_addr
pub_key-upsert t node j a key = elim (Bool-cases (node == j)) [
  | inl e ↦ elim (Bool-cases (key == [])) [
    | inl n ↦ rw (get-put node j _ t.nodes, e, n) (refl, kept_pubkey a (get node t.nodes))
    | inr n ↦ rw (get-put node j _ t.nodes, e, n) (refl, rw n refl)
  ]
  | inr e ↦ rw (get-put node j _ t.nodes, e) (refl, refl)
]
