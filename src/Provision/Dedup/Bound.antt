-- ===== src/Provision/Dedup/Bound.antt =====
-- internal/apiserver/provision.go: the size of the cache, and what it answers.
use sbx_swarm_node.Prelude.{
  ℕ, ◌+◌, ◌≤◌, ◌<◌, ◌≡◌, refl, ◌∙◌, Bool, true, false, not, ◌||◌, List, [], ◌∷◌, some, String, Map,
  put, delete, get-put_self, string_eq, ◌==◌, ==_iff, ltb, length, keep, arith, Bool-cases, inl,
  inr,
}
use sbx_swarm_node.Provision.Dedup.{
  DedupEntry, Dedup, is_expired, lookup, lookup_found, oldest_from, oldest, sweep, evict, remember,
}

has_key : {V : Type 0} → String → Map String V → Bool
has_key k [] = false
has_key k ((j, _) ∷ m) = j == k || has_key k m

length-delete : {V : Type 0} (k : String) (m : Map String V) → length (delete k m) ≤ length m
unfolding delete
length-delete k [] = omega arith
length-delete k ((j, v) ∷ m) = ground (arith, length-delete k m)

length-delete_key :
    {V : Type 0} (k : String) (m : Map String V)
    → has_key k m ≡ true
    → length (delete k m) < length m
unfolding delete has_key
length-delete_key k [] h = ground (arith, h)
length-delete_key k ((j, v) ∷ m) h = ground (arith, h, length-delete k m, length-delete_key k m)

length-put :
    {V : Type 0} (k : String) (v : V) (m : Map String V) → length (put k v m) ≤ length m + 1
unfolding put
length-put k v [] = omega arith
length-put k v ((j, w) ∷ m) = ground (arith, length-put k v m)

length-keep : {A : Type 0} (p : A → Bool) (xs : List A) → length (keep p xs) ≤ length xs
length-keep p [] = omega arith
length-keep p (x ∷ xs) = ground (arith, length-keep p xs)

has_key-oldest_from :
    (key : String) (at : ℕ) (m : Map String DedupEntry) (x : String)
    → x ≡ oldest_from key at m
    → (key == x || has_key x m) ≡ true
unfolding has_key oldest_from
has_key-oldest_from key at [] x h = ground (arith, h, ==_iff key x)
has_key-oldest_from key at ((k, e) ∷ m) x h = elim (Bool-cases (ltb e.at at)) [
  | inl b ↦ ground (arith, has_key-oldest_from k e.at m x (h ∙ rw b refl))
  | inr b ↦ ground (arith, has_key-oldest_from key at m x (h ∙ rw b refl))
]

length-evict :
    (max : ℕ) (m : Map String DedupEntry) → 1 ≤ max → length m ≤ max → length (evict max m) < max
unfolding evict oldest has_key
length-evict max [] h l = ground (arith, h)
length-evict max ((k, e) ∷ m) h l = ground (
  arith,
  h,
  l,
  length-delete_key (oldest_from k e.at m) ((k, e) ∷ m),
  has_key-oldest_from k e.at m (oldest_from k e.at m) refl,
)

-- The cache never outgrows its maximum, if that is not 0: each put keeps it within.
pub remember-bounded :
    (id sandbox_id : String) (now : ℕ) (d : Dedup)
    → 1 ≤ d.max
    → length d.m ≤ d.max
    → length (remember id sandbox_id now d).m ≤ d.max
unfolding remember
remember-bounded id sandbox_id now d h l = ground (
  arith,
  length-put id (record { sandbox_id = sandbox_id; at = now }) (evict d.max (sweep d.ttl now d.m)),
  length-evict d.max (sweep d.ttl now d.m) h,
  sweep_shrinks,
  l,
)
  where
    sweep_shrinks : length (sweep d.ttl now d.m) ≤ length d.m
    sweep_shrinks = unfold sweep in length-keep (λ e. not (is_expired d.ttl now e.1)) d.m

pub lookup-remember :
    (id sandbox_id : String) (at now : ℕ) (d : Dedup)
    → now ≤ at + d.ttl
    → lookup id now (remember id sandbox_id at d) ≡ (some sandbox_id, remember id sandbox_id at d)
unfolding lookup lookup_found remember is_expired
lookup-remember id sandbox_id at now d h =
    rw
      (get-put_self id (record { sandbox_id = sandbox_id; at = at })
        (evict d.max (sweep d.ttl at d.m)))
      (ground (arith, h))
