-- ===== src/Scheduler/Placement.antt =====
-- internal/scheduler/scheduler.go: the order in which Schedule returns the nodes.
use mathlib.Core.Path.{fun_ext}
use mathlib.Core.List.{Perm}
use sbx_swarm_node.Prelude.{
  ℕ, ◌≡◌, refl, subst, Bool, not, ◌&&◌, List, [], map, arith, Bool-cases, inl, inr, Text, ltb,
  if◌then◌else◌, ◌==◌, string_eq, text_eq, keep, List-cases, sort_by, IsSorted, IsWeakOrder,
  sort_by-IsSorted, sort_by-perm, lexically, preferring, reversed, by_key, lexically-IsWeakOrder,
  preferring-IsWeakOrder, reversed-IsWeakOrder, by_key-IsWeakOrder, ltb-IsWeakOrder, Float64,
  IsOrdered, ok, err, ◌⊎◌,
}
use sbx_swarm_node.Scheduler.{
  no_eligible_node, Candidate, Request, holds, fits, score, tie, better, ordered, schedule,
}

module _ (F : Float64) (sha256 : Text → List ℕ) (req : Request F) where
  -- The criteria, each on its own: the score in the strategy's direction, then a held image, if one
  -- is asked for, then the entry node, then the hash.
  unfoldable pub by_score : Candidate F → Candidate F → Bool
  by_score =
      if req.strategy == "bin-pack"
      then reversed (by_key F.lt (score F sha256 req))
      else by_key F.lt (score F sha256 req)

  unfoldable pub by_image : Candidate F → Candidate F → Bool
  by_image = preferring (λ c. not (req.template == []) && holds F sha256 c req.template)

  unfoldable pub by_locality : Candidate F → Candidate F → Bool
  by_locality = preferring (λ c. c.node_id == req.local)

  unfoldable pub by_hash : Candidate F → Candidate F → Bool
  by_hash = by_key ltb (λ c. tie F sha256 req.request_id c.node_id)

  abbrev pub criteria : Candidate F → Candidate F → Bool
  criteria = lexically by_score (lexically by_image (lexically by_locality by_hash))

module _ (F : Float64) (sha256 : Text → List ℕ) (o : IsOrdered F) (req : Request F) where
  -- The comparison of the sort applies the four criteria one after the other.
  pub better-criteria : (a b : Candidate F) → better F sha256 req a b ≡ (criteria F sha256 req) a b
  unfolding better by_score by_image by_locality by_hash
  better-criteria a b = ground (
    arith,
    o.eq_lt (score F sha256 req a) (score F sha256 req b),
    o.weak.asym (score F sha256 req a) (score F sha256 req b),
  )

  by_score-IsWeakOrder : IsWeakOrder (by_score F sha256 req)
  unfolding by_score
  by_score-IsWeakOrder = elim (Bool-cases (req.strategy == "bin-pack")) [
    | inl e ↦ rw e (reversed-IsWeakOrder _ (by_key-IsWeakOrder F.lt (score F sha256 req) o.weak))
    | inr e ↦ rw e (by_key-IsWeakOrder F.lt (score F sha256 req) o.weak)
  ]

  by_image-IsWeakOrder : IsWeakOrder (by_image F sha256 req)
  unfolding by_image
  by_image-IsWeakOrder = preferring-IsWeakOrder _

  by_locality-IsWeakOrder : IsWeakOrder (by_locality F sha256 req)
  unfolding by_locality
  by_locality-IsWeakOrder = preferring-IsWeakOrder _

  by_hash-IsWeakOrder : IsWeakOrder (by_hash F sha256 req)
  unfolding by_hash
  by_hash-IsWeakOrder = by_key-IsWeakOrder ltb _ ltb-IsWeakOrder

  criteria-IsWeakOrder : IsWeakOrder (criteria F sha256 req)
  criteria-IsWeakOrder = lexically-IsWeakOrder _ _ by_score-IsWeakOrder (
      lexically-IsWeakOrder _ _ by_image-IsWeakOrder
        (lexically-IsWeakOrder _ _ by_locality-IsWeakOrder by_hash-IsWeakOrder))

  better_is_criteria : better F sha256 req ≡ criteria F sha256 req
  better_is_criteria = fun_ext λ a. fun_ext λ b. better-criteria a b

  pub better-IsWeakOrder : IsWeakOrder (better F sha256 req)
  better-IsWeakOrder = rw better_is_criteria criteria-IsWeakOrder

  -- For float comparisons that are those of a total order: Schedule fails if no candidate fits, and
  -- otherwise returns the ids of the fitting candidates, each as often as it was given, and none
  -- stands behind one that is worse by score, held image, locality and hash, in this order.
  pub schedule-IsSorted :
      (cands : List (Candidate F))
      → ((keep (fits F sha256 req) cands ≡ [])
          × (schedule F sha256 req cands ≡ err no_eligible_node))
        ⊎ ((best : List (Candidate F)) × (schedule F sha256 req cands
              ≡ ok (map (λ c. c.node_id) best))
            × Perm best (keep (fits F sha256 req) cands)
            × IsSorted (criteria F sha256 req) best)
  unfolding schedule ordered
  schedule-IsSorted cands = elim (List-cases (keep (fits F sha256 req) cands)) [
    | inl e ↦ inl (e, rw e refl)
    | inr (c, rest, e) ↦ inr (
      sort_by (better F sha256 req) (keep (fits F sha256 req) cands),
      rw e refl,
      sort_by-perm (better F sha256 req) (keep (fits F sha256 req) cands),
      subst (λ less. IsSorted less (sort_by (better F sha256 req) (keep (fits F sha256 req) cands)))
          better_is_criteria
          (sort_by-IsSorted (better F sha256 req) better-IsWeakOrder
            (keep (fits F sha256 req) cands)),
    )
  ]
