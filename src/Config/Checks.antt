-- ===== src/Config/Checks.antt =====
-- internal/config/config.go: what each check of Validate asks for.
use mathlib.Core.Option as Option
use sbx_swarm_node.Prelude.{
  ◌≡◌, ◌≢◌, refl, sym, ◌∙◌, subst, ◌⊎◌, inl, inr, ℕ, pos, negsuc, Text, codes, Bool, true, false,
  not, ◌&&◌, ◌||◌, ◌↔◌, List, [], ◌∷◌, Option, none, some, String, string_eq, text_eq, ◌==◌, ==_iff,
  contains, All, ℤ, arith,
}
use sbx_swarm_node.Auth.Principal.{ApiKey, is_user_role}
use sbx_swarm_node.Config.{
  GitConfig, ProvisionLimits, is_negative, WorkspaceConfig, KitConfig, ConfigError, unless, behind,
  check_keys, check_workspaces, check_kits, check_duration, any_negative, lacks_source, empty_key,
  bad_role, no_workspace_source, empty_kit_name, empty_kit_ref, duplicate_kit,
}

pub unless-none :
    (b : Bool) (e : ConfigError) (rest : Option ConfigError)
    → (unless b e rest ≡ none) ↔ ((b ≡ false) × (rest ≡ none))
unfolding unless
unless-none true e rest = ((λ h. cc), (λ h. cc (h.0)))
unless-none false e rest = ((λ h. (refl, h)), (λ h. h.1))

pub behind-none :
    (o rest : Option ConfigError) → (behind o rest ≡ none) ↔ ((o ≡ none) × (rest ≡ none))
unfolding behind
behind-none (some e) rest = ((λ h. cc), (λ h. cc (h.0)))
behind-none none rest = ((λ h. (refl, h)), (λ h. h.1))

-- A key that is set, for one of the two roles of users.
abbrev pub IsKey : ApiKey → Type 0
IsKey k = ((k.key == []) ≡ false) × ((k.role ≡ codes "admin") ⊎ (k.role ≡ codes "read-only"))

abbrev pub IsNonneg : ℤ → Type 0
IsNonneg x = (n : ℕ) × (x ≡ pos n)

-- Not git-backed, or with a path or a remote.
abbrev pub IsSourced : WorkspaceConfig → Type 0
IsSourced w =
    (w.git ≡ none)
    ⊎ ((g : GitConfig) × (w.git ≡ some g)
        × (((w.host_path == "") ≡ false) ⊎ ((g.remote_url == "") ≡ false)))

is_negative_iff : (x : ℤ) → (is_negative x ≡ false) ↔ IsNonneg x
unfolding is_negative
is_negative_iff (pos n) = ((λ h. (n, refl)), (λ h. refl))
is_negative_iff (negsuc n) = ((λ h. cc), (λ h. cc (h.1)))

either_iff : (a b : Bool) → ((a || b) ≡ false) ↔ ((a ≡ false) × (b ≡ false))
either_iff true b = ((λ h. cc), (λ h. cc (h.0)))
either_iff false b = ((λ h. (refl, h)), (λ h. h.1))

pub any_negative_iff :
    (l : ProvisionLimits)
    → (any_negative l ≡ false) ↔ (IsNonneg l.cpu × (IsNonneg l.memory × IsNonneg l.disk))
unfolding any_negative
any_negative_iff l =
    let cpu = is_negative_iff l.cpu in
    let memory = is_negative_iff l.memory in
    let disk = is_negative_iff l.disk in
    let outer = either_iff (is_negative l.cpu || is_negative l.memory) (is_negative l.disk) in
    let inner = either_iff (is_negative l.cpu) (is_negative l.memory) in
    (
      (λ h. let (a, b) = outer.0 h in let (c, d) = inner.0 a in (cpu.0 c, (memory.0 d, disk.0 b))),
      (λ h. outer.1 (inner.1 (cpu.1 h.0, memory.1 h.1.0), disk.1 h.1.1)),
    )

both_empty : (a b : Bool) → ((a && b) ≡ false) ↔ ((a ≡ false) ⊎ (b ≡ false))
both_empty true b = ((λ h. inr h), (λ h. elim h [ inl e ↦ cc | inr e ↦ e ]))
both_empty false b = ((λ h. inl refl), (λ h. refl))

lacks_source_iff : (w : WorkspaceConfig) → (lacks_source w ≡ false) ↔ IsSourced w
unfolding lacks_source
lacks_source_iff w = by_git w.git refl
  where
    by_git : (o : Option GitConfig) → w.git ≡ o → (lacks_source w ≡ false) ↔ IsSourced w
    by_git none e = ((λ h. inl e), (λ h. rw e refl))
    by_git (some g) e =
        let sources = both_empty (w.host_path == "") (g.remote_url == "") in
        (
          (λ h. inr (g, e, sources.0 (rw e at h))),
          (λ h. elim h [
            | inl n ↦ absurd (differs (sym n ∙ e))
            | inr (g', e', k) ↦ rw e (
                sources.1 (
                  subst (λ x. ((w.host_path == "") ≡ false) ⊎ ((x.remote_url == "") ≡ false))
                    (Option.some_inj.0 (sym e' ∙ e)) k))
          ]),
        )
      where
        differs : none ≢ some g
        differs x = cc

pub check_duration_iff : (o : Option ℤ) → (check_duration o ≡ none) ↔ ((n : ℕ) × (o ≡ some (pos n)))
unfolding check_duration is_negative unless
check_duration_iff none = ((λ h. cc), (λ h. cc (h.1)))
check_duration_iff (some (pos n)) = ((λ h. (n, refl)), (λ h. refl))
check_duration_iff (some (negsuc n)) = ((λ h. cc), (λ h. cc (h.1)))

pub user_role_iff :
    (role : Text)
    → (is_user_role role ≡ true) ↔ ((role ≡ codes "admin") ⊎ (role ≡ codes "read-only"))
unfolding is_user_role
user_role_iff role = (
  (λ h. ground (arith, h, ==_iff role (codes "admin"), ==_iff role (codes "read-only"))),
  (λ h. elim h [ inl e ↦ rw e refl | inr e ↦ rw e refl ]),
)

pub unnegated : (b : Bool) → (not b ≡ false) ↔ (b ≡ true)
unnegated b = ground arith

pub check_keys-none : (ks : List ApiKey) → (check_keys ks ≡ none) ↔ All IsKey ks
unfolding check_keys
check_keys-none [] = ((λ _. tt), (λ _. refl))
check_keys-none (k ∷ ks) =
    let outer =
      unless-none (k.key == []) empty_key
        (unless (not (is_user_role k.role)) bad_role (check_keys ks)) in
    let inner = unless-none (not (is_user_role k.role)) bad_role (check_keys ks) in
    let rest = check_keys-none ks in
    let role = unnegated (is_user_role k.role) in
    let user = user_role_iff k.role in
    (
      (λ h. let (a, b) = outer.0 h in let (c, d) = inner.0 b in ((a, user.0 (role.0 c)), rest.0 d)),
      (λ h. outer.1 (h.0.0, inner.1 (role.1 (user.1 h.0.1), rest.1 h.1))),
    )

pub check_workspaces-none :
    (ws : List WorkspaceConfig) → (check_workspaces ws ≡ none) ↔ All IsSourced ws
unfolding check_workspaces
check_workspaces-none [] = ((λ _. tt), (λ _. refl))
check_workspaces-none (w ∷ ws) =
    let outer = unless-none (lacks_source w) no_workspace_source (check_workspaces ws) in
    let rest = check_workspaces-none ws in
    let source = lacks_source_iff w in
    (
      (λ h. let (a, b) = outer.0 h in (source.0 a, rest.0 b)),
      (λ h. outer.1 (source.1 h.0, rest.1 h.1)),
    )

-- A kit with a name and a reference, and a name that is not among the given ones.
abbrev pub IsKit : List String → KitConfig → Type 0
IsKit seen k = ((k.name == "") ≡ false) × ((k.ref == "") ≡ false) × (contains k.name seen ≡ false)

-- No two kits have the same name.
abbrev pub IsDistinct : List KitConfig → Type 0
IsDistinct [] = Unit {0}
IsDistinct (k ∷ ks) = All (λ j. (k.name == j.name) ≡ false) ks × IsDistinct ks

All-seen :
    (n : String) (seen : List String) (ks : List KitConfig)
    → All (IsKit (n ∷ seen)) ks ↔ (All (λ j. (n == j.name) ≡ false) ks × All (IsKit seen) ks)
All-seen n seen [] = ((λ _. (tt, tt)), (λ _. tt))
All-seen n seen (k ∷ ks) =
    let rest = All-seen n seen ks in
    (
      (λ h. let (a, b) = rest.0 h.1 in ((first_part h.0, a), ((h.0.0, h.0.1, second_part h.0), b))),
      (λ h. ((h.1.0.0, h.1.0.1, both h.0.0 h.1.0.2), rest.1 (h.0.1, h.1.1))),
    )
  where
    first_part : IsKit (n ∷ seen) k → (n == k.name) ≡ false
    first_part h = ground (arith, h.2, ==_iff n k.name, ==_iff k.name n)

    second_part : IsKit (n ∷ seen) k → contains k.name seen ≡ false
    second_part h = ground (arith, h.2)

    both : (n == k.name) ≡ false → contains k.name seen ≡ false → contains k.name (n ∷ seen) ≡ false
    both a b = ground (arith, a, b, ==_iff n k.name, ==_iff k.name n)

pub check_kits-none :
    (seen : List String) (ks : List KitConfig)
    → (check_kits seen ks ≡ none) ↔ (All (IsKit seen) ks × IsDistinct ks)
unfolding check_kits
check_kits-none seen [] = ((λ _. (tt, tt)), (λ _. refl))
check_kits-none seen (k ∷ ks) =
    let last = check_kits (k.name ∷ seen) ks in
    let dup = unless-none (contains k.name seen) duplicate_kit last in
    let ref =
      unless-none (k.ref == "") empty_kit_ref (unless (contains k.name seen) duplicate_kit last) in
    let name =
      unless-none (k.name == "") empty_kit_name
        (unless (k.ref == "") empty_kit_ref (unless (contains k.name seen) duplicate_kit last)) in
    let rest = check_kits-none (k.name ∷ seen) ks in
    let split = All-seen k.name seen ks in
    (
      (λ h.
          let (a, b) = name.0 h in
          let (c, d) = ref.0 b in
          let (e, f) = dup.0 d in
          let (g, i) = rest.0 f in let (x, y) = split.0 g in (((a, c, e), y), (x, i))),
      (λ h.
          name.1
            (h.0.0.0, ref.1 (h.0.0.1, dup.1 (h.0.0.2, rest.1 (split.1 (h.1.0, h.0.1), h.1.1))))),
    )
