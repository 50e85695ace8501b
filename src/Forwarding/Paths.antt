-- ===== src/Forwarding/Paths.antt =====
-- internal/apiserver/forward_http.go: the id in a path.
use sbx_swarm_node.Prelude.{
  ℕ, ◌≡◌, refl, false, [], ◌∷◌, ◌++◌, none, some, Text, codes, text_eq, nat_eq, arith, contains,
  strip_prefix, cut, cut-cons,
}
use sbx_swarm_node.Forwarding.{sandbox_path_id, path_id, up_to_slash, routable_node}

cut-absent : (c : ℕ) (s : Text) → contains c s ≡ false → cut c s ≡ none
unfolding cut
cut-absent c [] e = refl
cut-absent c (x ∷ s) e = ground (arith, cut-absent c s)

path_id-some :
    (c : ℕ) (id rest : Text) → up_to_slash rest ≡ c ∷ id → path_id (some rest) ≡ some (c ∷ id)
unfolding path_id routable_node
path_id-some c id rest h = rw h refl

-- The id of a sandbox, which is not empty and has no slash, is read back from its path, and from a
-- path below it whatever that goes on with.
pub sandbox_path_id-path :
    (c : ℕ) (id rest : Text)
    → contains b'/' (c ∷ id) ≡ false
    → (sandbox_path_id (codes "/v1/sandboxes/" ++ c ∷ id) ≡ some (c ∷ id))
      × (sandbox_path_id (codes "/v1/sandboxes/" ++ (c ∷ id ++ b'/' ∷ rest)) ≡ some (c ∷ id))
unfolding sandbox_path_id strip_prefix
sandbox_path_id-path c id rest h =
    (path_id-some c id (c ∷ id) (alone h), path_id-some c id (c ∷ id ++ b'/' ∷ rest) (below h))
  where
    alone : contains b'/' (c ∷ id) ≡ false → up_to_slash (c ∷ id) ≡ c ∷ id
    alone n = unfold up_to_slash in rw (cut-absent b'/' (c ∷ id) n) refl

    below : contains b'/' (c ∷ id) ≡ false → up_to_slash (c ∷ id ++ b'/' ∷ rest) ≡ c ∷ id
    below n = unfold up_to_slash in rw (cut-cons b'/' (c ∷ id) rest n) refl
