-- ===== src/Coordinator/Attempts.antt =====
-- internal/coordinator/coordinator.go: which nodes Provision tries, and with what result.
use sbx_swarm_node.Prelude.{
  ◌≡◌, refl, inl, inr, Bool, true, false, List, [], ◌∷◌, ◌++◌, String, arith, Bool-cases, ap,
  Exec-cases, Result, ok, err, Exec,
}
use sbx_swarm_node.Coordinator.{Error, no_capacity, attempt_failed, try_nodes}

module _ {E W : Type 0} (is_nack : E → Bool) (attempt : String → Exec E W String) where
  -- Every one of the nodes, tried in turn, refuses admission, and leaves `w'` behind.
  pub data Nacked : List String → W → W → Type 0 where
    none_tried : {w : W} → Nacked [] w w
    refused :
        {w w₁ w₂ : W} {e : E} {node : String} {nodes : List String}
        → attempt node w ≡ (err e, w₁)
        → is_nack e ≡ true
        → Nacked nodes w₁ w₂
        → Nacked (node ∷ nodes) w w₂

  -- How a pass over the nodes can end: every node refused; or a first node that did not refuse
  -- accepted, or failed, and the ones behind it were not tried.
  pub data Outcome (order : List String) (w : W) : Result (Error E) String → W → Type 0 where
    exhausted : {w' : W} → Nacked order w w' → Outcome order w (err no_capacity) w'
    accepted :
        {w₁ w' : W} {id : String} (before : List String) (node : String) (after : List String)
        → order ≡ before ++ node ∷ after
        → Nacked before w w₁
        → attempt node w₁ ≡ (ok id, w')
        → Outcome order w (ok id) w'
    failed :
        {w₁ w' : W} {e : E} (before : List String) (node : String) (after : List String)
        → order ≡ before ++ node ∷ after
        → Nacked before w w₁
        → attempt node w₁ ≡ (err e, w')
        → is_nack e ≡ false
        → Outcome order w (err (attempt_failed e)) w'

  cons-Outcome :
      (node : String) (nodes : List String) (w w₁ w' : W) (e : E) (r : Result (Error E) String)
      → attempt node w ≡ (err e, w₁)
      → is_nack e ≡ true
      → Outcome nodes w₁ r w'
      → Outcome (node ∷ nodes) w r w'
  cons-Outcome node nodes w w₁ w' e r a n (exhausted all) = exhausted (refused a n all)
  cons-Outcome node nodes w w₁ w' e r a n (accepted before m after split all hit) =
      accepted (node ∷ before) m after (ap (λ t. node ∷ t) split) (refused a n all) hit
  cons-Outcome node nodes w w₁ w' e r a n (failed before m after split all hit real) =
      failed (node ∷ before) m after (ap (λ t. node ∷ t) split) (refused a n all) hit real

  module _ (node : String) (nodes : List String) (w w' : W) where
    try_nodes-ok :
        (id : String)
        → attempt node w ≡ (ok id, w')
        → try_nodes is_nack attempt (node ∷ nodes) w ≡ (ok id, w')
    unfolding try_nodes
    try_nodes-ok id hit = ground (arith, hit)

    try_nodes-nack :
        (e : E)
        → attempt node w ≡ (err e, w')
        → is_nack e ≡ true
        → try_nodes is_nack attempt (node ∷ nodes) w ≡ try_nodes is_nack attempt nodes w'
    unfolding try_nodes
    try_nodes-nack e hit n = ground (arith, hit, n)

    try_nodes-failed :
        (e : E)
        → attempt node w ≡ (err e, w')
        → is_nack e ≡ false
        → try_nodes is_nack attempt (node ∷ nodes) w ≡ (err (attempt_failed e), w')
    unfolding try_nodes
    try_nodes-failed e hit n = ground (arith, hit, n)

  -- Provision tries the nodes strictly in order and stops at the first that does not refuse: it
  -- returns that node's sandbox, or its error, and "no capacity" only if every node refused.
  pub try_nodes-Outcome :
      (order : List String) (w : W)
      → Outcome order w (try_nodes is_nack attempt order w).0 (try_nodes is_nack attempt order w).1
  try_nodes-Outcome [] w = unfold try_nodes in exhausted none_tried
  try_nodes-Outcome (node ∷ nodes) w = elim (Exec-cases (attempt node) w) [
    | inl (id, w', hit) ↦
        rw (try_nodes-ok node nodes w w' id hit) (accepted [] node nodes refl none_tried hit)
    | inr (e, w', hit) ↦ elim (Bool-cases (is_nack e)) [
      | inl n ↦
          rw (try_nodes-nack node nodes w w' e hit n)
            (cons-Outcome node nodes w w' _ e _ hit n (try_nodes-Outcome nodes w'))
      | inr n ↦
          rw (try_nodes-failed node nodes w w' e hit n) (failed [] node nodes refl none_tried hit n)
    ]
  ]
