-- ===== src/Auth/Policy/Admin.antt =====
-- internal/apiserver/authz.go: which principals `authorize` lets through.
use sbx_swarm_node.Prelude.{
  ◌≡◌, refl, ◌↔◌, ◌⊎◌, inl, inr, Bool, true, false, not, ◌&&◌, List, [], ◌∷◌, String, codes, ◌==◌,
  ==_iff, string_eq, text_eq, contains, all, all_iff, All, arith, ok, Bool-cases,
}
use sbx_swarm_node.Auth.Policy.{
  Principal, authenticated, mutating_methods, internal_methods, read_methods, authorize,
}

-- A call is let through exactly for an authenticated principal that is a node, on a node-to-node
-- method, or, on any other method, whoever it is for a read and an admin for everything else, an
-- unlisted method included.
pub authorize_iff :
    (m : String) (p : Principal)
    → (authorize m p ≡ ok tt) ↔ (
        (authenticated p ≡ true)
        × (((contains m internal_methods ≡ true) × (p.node ≡ true))
            ⊎ ((contains m internal_methods ≡ false)
                × ((contains m read_methods ≡ true) ⊎ (p.user_role ≡ codes "admin")))))
unfolding authorize
authorize_iff m p = (
  (λ h. ground (arith, ==_iff p.user_role (codes "admin"))),
  (λ h. ground (arith, ==_iff p.user_role (codes "admin"))),
)

-- No method is listed twice: what changes state is not also a read or a node-to-node method.
mutating_apart :
    all (λ m. not (contains m read_methods) && not (contains m internal_methods)) mutating_methods
    ≡ true
unfolding mutating_methods read_methods internal_methods
mutating_apart = refl

contains-All :
    (p : String → Bool) (m : String) (ms : List String)
    → All (λ x. p x ≡ true) ms
    → contains m ms ≡ true
    → p m ≡ true
contains-All p m [] a h = cc
contains-All p m (x ∷ ms) a h = elim (Bool-cases (x == m)) [
  | inl e ↦ rw (← (==_iff x m).0 e) a.0
  | inr e ↦ contains-All p m ms a.1 (rw e at h)
]

-- A method that changes state is let through only for an admin: being a node of the swarm is not
-- enough.
pub mutating_needs_admin :
    (m : String) (p : Principal)
    → contains m mutating_methods ≡ true
    → authorize m p ≡ ok tt
    → p.user_role ≡ codes "admin"
mutating_needs_admin m p h a =
    let apart =
      contains-All (λ x. not (contains x read_methods) && not (contains x internal_methods)) m
        mutating_methods ((all_iff _ mutating_methods).0 mutating_apart) h in
    let why = (authorize_iff m p).0 a in ground (arith, apart, why)
