-- ===== src/Provision/Dedup.antt =====
-- internal/apiserver/provision.go: the cache from request ids to sandbox ids. Times are nanoseconds of
-- a clock that does not go back; `now` is what it shows during the call.
pub mod Bound
use sbx_swarm_node.Prelude.{
  ℕ, ◌+◌, Bool, true, false, not, List, [], ◌∷◌, Option, none, some, String, Map, get, put, delete,
  string_eq, if◌then◌else◌, ltb, leb, length, keep, ◌==◌,
}

pub record DedupEntry : Type 0 where
  pub sandbox_id : String
  pub at : ℕ

pub record Dedup : Type 0 where
  pub m : Map String DedupEntry
  pub ttl : ℕ
  pub max : ℕ

abbrev pub new_dedup : ℕ → ℕ → Dedup
new_dedup ttl max = record { m = []; ttl = ttl; max = max }

-- time.Since(at) > ttl
unfoldable pub is_expired : ℕ → ℕ → DedupEntry → Bool
is_expired ttl now e = ltb (e.at + ttl) now

lookup_found : String → ℕ → Dedup → Option DedupEntry → Option String × Dedup
unfolding is_expired
lookup_found id now d none = (none, d)
lookup_found id now d (some e) =
    if is_expired d.ttl now e
    then (none, record d { m = delete id d.m })
    else (some e.sandbox_id, d)

unfoldable pub lookup : String → ℕ → Dedup → Option String × Dedup
unfolding lookup_found
lookup id now d = lookup_found id now d (get id d.m)

-- The loop over the entries, with the oldest so far.
oldest_from : String → ℕ → Map String DedupEntry → String
oldest_from key at [] = key
oldest_from key at ((k, e) ∷ m) = if ltb e.at at then oldest_from k e.at m else oldest_from key at m

-- The key of an oldest entry; the empty key when there is none.
unfoldable pub oldest : Map String DedupEntry → String
unfolding oldest_from
oldest [] = ""
oldest ((k, e) ∷ m) = oldest_from k e.at m

sweep : ℕ → ℕ → Map String DedupEntry → Map String DedupEntry
sweep ttl now m = keep (λ e. not (is_expired ttl now e.1)) m

evict : ℕ → Map String DedupEntry → Map String DedupEntry
evict max m = if leb max (length m) then delete (oldest m) m else m

unfoldable pub remember : String → String → ℕ → Dedup → Dedup
unfolding sweep evict
remember id sandbox_id now d = record d {
  m = put id (record { sandbox_id = sandbox_id; at = now }) (evict d.max (sweep d.ttl now d.m));
}
