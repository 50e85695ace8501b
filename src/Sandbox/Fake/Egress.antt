-- ===== src/Sandbox/Fake/Egress.antt =====
-- internal/sandbox/fake.go: what the egress rules decide.
use sbx_swarm_node.Prelude.{
  ◌≡◌, Bool, true, false, not, ◌&&◌, ◌||◌, List, [], ◌∷◌, Text, text_eq, nat_eq, ◌==◌, any,
  if◌then◌else◌, arith,
}
use sbx_swarm_node.Sandbox.Fake.{PolicyRule, Fake, decide, host_of, policy_check}

-- Some rule names the host and decides so.
abbrev pub has_rule : Bool → Text → List PolicyRule → Bool
has_rule deny host = any (λ r. r.rule == host && (if deny then r.is_deny else not r.is_deny))

decide-rules :
    (host : Text) (allowed : Bool) (rules : List PolicyRule)
    → decide host allowed rules
      ≡ ((allowed || has_rule false host rules) && not (has_rule true host rules))
unfolding decide
decide-rules host allowed [] = ground arith
decide-rules host allowed (r ∷ rules) =
    ground (arith, decide-rules host allowed rules, decide-rules host true rules)

-- A target is allowed if and only if a rule allows its host, with the port left out, and none denies
-- it, whatever the order of the rules: the default is to deny, and a denial always wins.
pub policy_check-rules :
    (target : Text) (f : Fake)
    → policy_check target f
      ≡ (has_rule false (host_of target) f.rules && not (has_rule true (host_of target) f.rules))
unfolding policy_check
policy_check-rules target f = decide-rules (host_of target) false f.rules
