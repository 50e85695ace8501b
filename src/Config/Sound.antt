-- ===== src/Config/Sound.antt =====
-- internal/config/config.go: which configurations pass.
use sbx_swarm_node.Prelude.{
  ◌≡◌, refl, ℕ, pos, Bool, true, false, not, ◌&&◌, ◌||◌, ◌↔◌, List, [], ◌∷◌, Option, none, some,
  String, string_eq, text_eq, ◌==◌, if◌then◌else◌, contains, All, ℤ, arith,
}
use sbx_swarm_node.Config.{
  Config, check_keys, check_workspaces, check_kits, check_duration, has_join, any_negative,
  log_levels, config_strategies, backends, validate,
}
use sbx_swarm_node.Config.Checks.{
  unless-none, behind-none, unnegated, IsKey, IsNonneg, IsSourced, IsKit, IsDistinct,
  any_negative_iff, check_duration_iff, check_keys-none, check_workspaces-none, check_kits-none,
}

pub record IsSound (parse_duration : String → Option ℤ) (c : Config) : Type 0 where
  pub node_named : (c.node_name == "") ≡ false
  pub data_dir_set : (c.data_dir == "") ≡ false
  pub listen_addr_set : (c.listen_addr == "") ≡ false
  pub gossip_addr_set : (c.gossip_addr == "") ≡ false
  pub level : contains c.log_level ("debug" ∷ "info" ∷ "warn" ∷ "error" ∷ []) ≡ true
  pub keys : All IsKey c.api_keys
  pub seeds :
      (first : String) (more : List String)
      → c.join ≡ first ∷ more
      → (c.cluster_secret == "") ≡ false
  pub clustered :
      (c.cluster_secret == "") ≡ false
      → ((c.tls_cert_file == "") ≡ true) × ((c.tls_key_file == "") ≡ true)
  pub cpu_limit : IsNonneg c.provision_limits.cpu
  pub memory_limit : IsNonneg c.provision_limits.memory
  pub disk_limit : IsNonneg c.provision_limits.disk
  pub strategy :
      contains c.default_strategy ("" ∷ "least-loaded" ∷ "bin-pack" ∷ "spread" ∷ []) ≡ true
  pub sources : All IsSourced c.workspaces
  pub kits : All (IsKit []) c.kits
  pub distinct : IsDistinct c.kits
  pub backend : contains c.backend ("" ∷ "fake" ∷ "sdk" ∷ []) ≡ true
  pub timeout :
      (c.idle_timeout == "") ≡ false → (n : ℕ) × (parse_duration c.idle_timeout ≡ some (pos n))

-- What validate tests, in its order.
abbrev Passes : (String → Option ℤ) → Config → Type 0
Passes parse_duration c =
    ((c.node_name == "") ≡ false)
    × (((c.data_dir == "") ≡ false)
        × (((c.listen_addr == "") ≡ false)
            × ((not (contains c.log_level log_levels) ≡ false)
                × ((check_keys c.api_keys ≡ none)
                    × (((has_join c.join && c.cluster_secret == "") ≡ false)
                        × (((not (c.cluster_secret == "")
                                && (not (c.tls_cert_file == "") || not (c.tls_key_file == "")))
                              ≡ false)
                            × (((c.gossip_addr == "") ≡ false)
                                × ((any_negative c.provision_limits ≡ false)
                                    × ((not (contains c.default_strategy config_strategies) ≡ false)
                                        × ((check_workspaces c.workspaces ≡ none)
                                            × ((check_kits [] c.kits ≡ none)
                                                × ((not (contains c.backend backends) ≡ false)
                                                    × (((if c.idle_timeout == ""
                                                          then none
                                                          else check_duration
                                                            (parse_duration c.idle_timeout))
                                                        ≡ none))))))))))))))

validate-Passes :
    (parse_duration : String → Option ℤ) (c : Config)
    → (validate parse_duration c ≡ none) ↔ Passes parse_duration c
unfolding validate
validate-Passes parse_duration c = step (unless-none _ _ _) (
    step (unless-none _ _ _) (
      step (unless-none _ _ _) (
        step (unless-none _ _ _) (
          step (behind-none _ _) (
            step (unless-none _ _ _) (
              step (unless-none _ _ _) (
                step (unless-none _ _ _) (
                  step (unless-none _ _ _) (
                    step (unless-none _ _ _)
                      (step (behind-none _ _) (step (behind-none _ _) (unless-none _ _ _))))))))))))
  where
    step : {A B C D : Type 0} → A ↔ (B × C) → C ↔ D → A ↔ (B × D)
    step (f, g) (h, k) = ((λ a. let (b, c) = f a in (b, h c)), (λ (b, d). g (b, k d)))

-- A configuration passes Validate if and only if it is sound: its names and addresses are set and its
-- level, strategy and backend known; each key is set and its role admin or read-only; seeds come with a secret,
-- and a secret without a certificate of the operator's; no limit is negative; each git-backed workspace
-- has a path or a remote; the kits have distinct names, and references; and the timeout, if set, is a
-- duration that is not negative.
pub validate_iff :
    (parse_duration : String → Option ℤ) (c : Config)
    → (validate parse_duration c ≡ none) ↔ IsSound parse_duration c
unfolding has_join
validate_iff parse_duration c =
    let passes = validate-Passes parse_duration c in
    (
      (λ h.
          let (a, (b, (d, (e, (f, (g, (i, (j, (k, (l, (m, (n, (o, p))))))))))))) = passes.0 h in
          record {
            node_named = a;
            data_dir_set = b;
            listen_addr_set = d;
            gossip_addr_set = j;
            level = (unnegated _).0 e;
            keys = (check_keys-none c.api_keys).0 f;
            seeds = (seeds_iff c.join (c.cluster_secret == "")).0 g;
            clustered =
                (clustered_iff (c.cluster_secret == "") (c.tls_cert_file == "")
                    (c.tls_key_file == "")).0
                  i;
            cpu_limit = ((any_negative_iff c.provision_limits).0 k).0;
            memory_limit = ((any_negative_iff c.provision_limits).0 k).1.0;
            disk_limit = ((any_negative_iff c.provision_limits).0 k).1.1;
            strategy = (unnegated _).0 l;
            sources = (check_workspaces-none c.workspaces).0 m;
            kits = ((check_kits-none [] c.kits).0 n).0;
            distinct = ((check_kits-none [] c.kits).0 n).1;
            backend = (unnegated _).0 o;
            timeout = (timeout_iff (c.idle_timeout == "") (parse_duration c.idle_timeout)).0 p;
          }),
      (λ v. passes.1 (
        v.node_named,
        (
          v.data_dir_set,
          (
            v.listen_addr_set,
            (
              (unnegated _).1 v.level,
              (
                (check_keys-none c.api_keys).1 v.keys,
                (
                  (seeds_iff c.join (c.cluster_secret == "")).1 v.seeds,
                  (
                    (clustered_iff (c.cluster_secret == "") (c.tls_cert_file == "")
                          (c.tls_key_file == "")).1
                        v.clustered,
                    (
                      v.gossip_addr_set,
                      (
                        (any_negative_iff c.provision_limits).1
                            (v.cpu_limit, (v.memory_limit, v.disk_limit)),
                        (
                          (unnegated _).1 v.strategy,
                          (
                            (check_workspaces-none c.workspaces).1 v.sources,
                            (
                              (check_kits-none [] c.kits).1 (v.kits, v.distinct),
                              (
                                (unnegated _).1 v.backend,
                                (timeout_iff (c.idle_timeout == "")
                                      (parse_duration c.idle_timeout)).1
                                    v.timeout,
                              ),
                            ),
                          ),
                        ),
                      ),
                    ),
                  ),
                ),
              ),
            ),
          ),
        ),
      )),
    )
  where
    seeds_iff :
        (join : List String) (b : Bool)
        → ((has_join join && b) ≡ false)
          ↔ ((first : String) (more : List String) → join ≡ first ∷ more → b ≡ false)
    seeds_iff [] b = ((λ h first more e. cc), (λ f. refl))
    seeds_iff (x ∷ xs) b = ((λ h first more e. h), (λ f. f x xs refl))

    clustered_iff :
        (a b d : Bool)
        → ((not a && (not b || not d)) ≡ false) ↔ (a ≡ false → (b ≡ true) × (d ≡ true))
    clustered_iff true b d = ((λ h e. cc), (λ f. refl))
    clustered_iff false b d = ((λ h e. ground (arith, h)), (λ f. ground (arith, f refl)))

    timeout_iff :
        (b : Bool) (o : Option ℤ)
        → ((if b then none else check_duration o) ≡ none)
          ↔ (b ≡ false → (n : ℕ) × (o ≡ some (pos n)))
    timeout_iff true o = ((λ h e. cc), (λ f. refl))
    timeout_iff false o =
        ((λ h e. (check_duration_iff o).0 h), (λ f. (check_duration_iff o).1 (f refl)))
