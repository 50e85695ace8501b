-- ===== src/Scheduler.antt =====
-- internal/scheduler/scheduler.go: which nodes may take a request, and in which order to try them.
pub mod Eligibility
pub mod Placement
pub mod Examples
use sbx_swarm_node.Prelude.{
  ℕ, ◌+◌, ◌*◌, Bool, true, false, not, ◌&&◌, ◌||◌, List, [], ◌∷◌, ◌++◌, Option, none, some, String,
  Text, codes, ltb, if◌then◌else◌, ◌==◌, string_eq, text_eq, contains, all, keep, map, take, Map,
  get, sort_by, Float64, Result, ok, err,
}
use mathlib.Core.Option.{get_or}
use sbx_swarm_node.ImageRef.{pullable, canonical}

pub data Error : Type 0 where
  no_eligible_node : Error

-- A `map[string]bool` is the list of the keys that it maps to true.
pub record Candidate (F : Float64) : Type 0 where
  pub node_id : String
  pub workspaces : List String
  pub templates : List Text
  pub kits : List String
  pub capabilities : List String
  pub labels : Map String String
  pub limit_cpu : F.Carrier
  pub limit_mem : F.Carrier
  pub limit_disk : F.Carrier
  pub alloc_cpu : F.Carrier
  pub alloc_mem : F.Carrier
  pub alloc_disk : F.Carrier
  pub sandboxes : ℕ
  pub actual_cpu : F.Carrier
  pub actual_mem : F.Carrier
  pub cordoned : Bool

pub record Request (F : Float64) : Type 0 where
  pub cpu : F.Carrier
  pub mem : F.Carrier
  pub disk : F.Carrier
  pub workspaces : List String
  pub template : Text
  pub kits : List String
  pub capabilities : List String
  pub affinity : Map String String
  pub anti_affinity : Map String String
  pub strategy : String
  pub request_id : String
  pub local : String

-- SHA-256 comes from the standard library and is not computed here.
module _ (F : Float64) (sha256 : Text → List ℕ) where
  unfoldable pub holds : Candidate F → Text → Bool
  holds c ref = contains ref c.templates || contains (canonical ref) c.templates

  -- `c.Labels[k]` is the empty string for a missing key.
  abbrev pub label : Candidate F → String → String
  label c k = get_or (get k c.labels) ""

  -- A limit of 0 does not bind.
  unfoldable pub cap_fits : F.Carrier → F.Carrier → Bool
  cap_fits used limit = F.eq limit (F.from_int 0) || F.le used limit

  unfoldable pub fits : Request F → Candidate F → Bool
  unfolding holds cap_fits
  fits req c =
      not c.cordoned
      && all (λ w. contains w c.workspaces) req.workspaces
      && not (not (req.template == []) && not (pullable req.template) && not (holds c req.template))
      && all (λ k. contains k c.kits) req.kits
      && all (λ cap. contains cap c.capabilities) req.capabilities
      && all (λ e. label c e.0 == e.1) req.affinity
      && all (λ e. not (label c e.0 == e.1)) req.anti_affinity
      && (cap_fits (F.add c.alloc_cpu req.cpu) c.limit_cpu
          && cap_fits (F.add c.alloc_mem req.mem) c.limit_mem
          && cap_fits (F.add c.alloc_disk req.disk) c.limit_disk)

  -- An unknown limit sorts as fully loaded.
  unfoldable pub ratio : F.Carrier → F.Carrier → F.Carrier
  ratio a b = if F.eq b (F.from_int 0) then F.from_int 1 else F.div a b

  unfoldable pub max3 : F.Carrier → F.Carrier → F.Carrier → F.Carrier
  max3 a b c = let m = if F.lt a b then b else a in if F.lt m c then c else m

  unfoldable pub score : Request F → Candidate F → F.Carrier
  unfolding ratio max3
  score req c =
      if req.strategy == "spread"
      then F.from_int c.sandboxes
      else if req.strategy == "least-actual-load"
      then (if F.lt c.actual_cpu c.actual_mem then c.actual_mem else c.actual_cpu)
      else max3 (ratio (F.add c.alloc_cpu req.cpu) c.limit_cpu)
          (ratio (F.add c.alloc_mem req.mem) c.limit_mem)
          (ratio (F.add c.alloc_disk req.disk) c.limit_disk)

  -- binary.BigEndian.Uint64
  big_endian : ℕ → List ℕ → ℕ
  big_endian acc [] = acc
  big_endian acc (b ∷ bs) = big_endian (acc * 256 + b) bs

  unfoldable pub tie : String → String → ℕ
  unfolding big_endian
  tie request_id node_id = big_endian 0 (take 8 (sha256 (codes request_id ++ 0 ∷ codes node_id)))

  -- The comparison that Schedule sorts by: score, held image, locality, hash.
  unfoldable pub better : Request F → Candidate F → Candidate F → Bool
  better req a b =
      let sa = score req a in
      let sb = score req b in
      let ha = holds a req.template in
      let hb = holds b req.template in
      let la = a.node_id == req.local in
      let lb = b.node_id == req.local in
      if not (F.eq sa sb)
      then (if req.strategy == "bin-pack" then F.lt sb sa else F.lt sa sb)
      else if not (req.template == []) && ((ha && not hb) || (hb && not ha))
      then ha
      else if (la && not lb) || (lb && not la)
      then la
      else ltb (tie req.request_id a.node_id) (tie req.request_id b.node_id)

  unfoldable pub ordered : Request F → List (Candidate F) → List (Candidate F)
  ordered req cands = sort_by (better req) (keep (fits req) cands)

  abbrev pub none_left : List (Candidate F) → Bool
  none_left [] = true
  none_left (_ ∷ _) = false

  unfoldable pub schedule : Request F → List (Candidate F) → Result Error (List String)
  unfolding ordered
  schedule req cands =
      if none_left (keep (fits req) cands)
      then err no_eligible_node
      else ok (map (λ c. c.node_id) (ordered req cands))
