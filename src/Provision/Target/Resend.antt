-- ===== src/Provision/Target/Resend.antt =====
-- internal/apiserver/provision.go: a request that is sent again.
use sbx_swarm_node.Prelude.{
  ℕ, ◌+◌, ◌≤◌, ◌≡◌, ◌≢◌, refl, sym, ap, subst, ◌∙◌, Bool, true, false, Option, none, some, String,
  string_eq, ◌==◌, Result, ok, err, arith,
}
use sbx_swarm_node.Sandbox.Record.{Record}
use sbx_swarm_node.Provision.Dedup.{Dedup, lookup, remember}
use sbx_swarm_node.Provision.Dedup.Bound.{lookup-remember}
use sbx_swarm_node.Provision.Local.{Setting, State, E}
use sbx_swarm_node.Provision.Target.{
  ProvisionRequest, accepted, InternalService, remembered, answer_error, answer, create_new,
  unless_cached, unless_keyed, unless_cordoned, provision,
}

module _ (S : Setting) (gb : ℕ) where
  answer_error-refuses : (e : E S) (id : String) → answer_error S gb e ≢ ok (accepted id)
  unfolding answer_error
  answer_error-refuses e id h = ground (arith, h)

  -- An answer that is an acceptance comes from a creation, and has entered the id.
  answer-accepted :
      (request_id id : String) (now : ℕ) (s t : InternalService S gb)
      (o : Option (Result (E S) Record × State S))
      → answer S gb request_id now s o ≡ some (ok (accepted id), t)
      → (t.dedup ≡ remembered S gb request_id id now s.dedup) × (t.cordoned ≡ s.cordoned)
  unfolding answer
  answer-accepted request_id id now s t none h = cc
  answer-accepted request_id id now s t (some (ok r, u)) h = ground (arith, h)
  answer-accepted request_id id now s t (some (err e, u)) h =
      absurd (answer_error-refuses e id (cc (h)))

  -- The time does not matter for the state that a creation finds.
  abbrev pub cached : ProvisionRequest → ℕ → InternalService S gb → Option String
  cached r asked s = (lookup r.request_id asked s.dedup).0

  provision_new :
      (r : ProvisionRequest) (asked done : ℕ) (s : InternalService S gb)
      → s.cordoned ≡ false
      → (r.request_id == "") ≡ false
      → cached r asked s ≡ none
      → provision S gb r asked done s
        ≡ create_new S gb r done (record s { dedup = (lookup r.request_id asked s.dedup).1 })
  unfolding provision unless_cordoned unless_keyed unless_cached
  provision_new r asked done s f n c =
      ap (unless_cordoned S gb r asked done s) f
      ∙ ap (unless_keyed S gb r asked done s) n
      ∙ uncached (lookup r.request_id asked s.dedup) c
    where
      uncached :
          (p : Option String × Dedup)
          → p.0 ≡ none
          → unless_cached S gb r done s p ≡ create_new S gb r done (record s { dedup = p.1 })
      uncached (none, d) h = refl
      uncached (some _, d) h = cc

  uncordoned :
      (r : ProvisionRequest) (asked done : ℕ) (id : String) (s t : InternalService S gb)
      → provision S gb r asked done s ≡ some (ok (accepted id), t)
      → s.cordoned ≡ false
  unfolding provision unless_cordoned
  uncordoned r asked done id s t h = go s.cordoned h
    where
      go :
          (b : Bool)
          → unless_cordoned S gb r asked done s b ≡ some (ok (accepted id), t)
          → b ≡ false
      go true e = cc
      go false e = refl

  provision_entered :
      (r : ProvisionRequest) (asked done : ℕ) (id : String) (s t : InternalService S gb)
      → (r.request_id == "") ≡ false
      → cached r asked s ≡ none
      → provision S gb r asked done s ≡ some (ok (accepted id), t)
      → (t.dedup ≡ remember r.request_id id done (lookup r.request_id asked s.dedup).1)
        × (t.cordoned ≡ false)
  unfolding create_new remembered
  provision_entered r asked done id s t n c h =
      let free = uncordoned r asked done id s t h in
      let (d, k) =
        answer-accepted r.request_id id done
          (record s { dedup = (lookup r.request_id asked s.dedup).1 }) t _
          (sym (provision_new r asked done s free n c) ∙ h) in
      (d ∙ rw n refl, k ∙ free)

  -- A request with an id that was accepted is sent again, within the lifetime of its entry, to a node
  -- that is not cordoned meanwhile: it is accepted with the same sandbox, whatever specification it
  -- has this time, and the node is as it was: no second sandbox is made.
  pub provision_again :
      (r r' : ProvisionRequest) (asked done asked' done' : ℕ) (id : String)
      (s t : InternalService S gb)
      → r'.request_id ≡ r.request_id
      → (r.request_id == "") ≡ false
      → cached r asked s ≡ none
      → provision S gb r asked done s ≡ some (ok (accepted id), t)
      → asked' ≤ done + t.dedup.ttl
      → provision S gb r' asked' done' t ≡ some (ok (accepted id), t)
  unfolding provision unless_cordoned unless_keyed unless_cached
  provision_again r r' asked done asked' done' id s t q n c h l =
      let (d, f) = provision_entered r asked done id s t n c h in
      ap (unless_cordoned S gb r' asked' done' t) f
      ∙ ap (unless_keyed S gb r' asked' done' t) (same_id q n)
      ∙ ap (unless_cached S gb r' done' t) (found d)
    where
      found :
          t.dedup ≡ remember r.request_id id done (lookup r.request_id asked s.dedup).1
          → lookup r'.request_id asked' t.dedup ≡ (some id, t.dedup)
      found d =
          let D = (lookup r.request_id asked s.dedup).1 in
          rw (q, d)
            (lookup-remember r.request_id id done asked' D
              (unfold remember in subst (λ x. asked' ≤ done + x.ttl) d l))

      same_id :
          r'.request_id ≡ r.request_id
          → (r.request_id == "") ≡ false
          → (r'.request_id == "") ≡ false
      same_id e k = rw e k
