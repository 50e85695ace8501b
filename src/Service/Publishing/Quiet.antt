-- ===== src/Service/Publishing/Quiet.antt =====
-- internal/apiserver/sandboxservice.go: a publish always returns when the locks of the workspaces are
-- free, and leaves all sandboxes in the status in which it finds them.
use mathlib.Core.Option as Option
use sbx_swarm_node.Prelude.{
  Option, ◌≡◌, refl, sym, ap, ◌∙◌, subst, ◌+◌, Bool, true, false, not, List, [], ◌∷◌, none, some,
  String, string_eq, Text, text_eq, codes, Map, get, put, get-put, ◌==◌, ==_iff, Result, ok, err,
  Option-cases, inl, inr, if◌then◌else◌, either_branch,
}
use sbx_swarm_node.Sandbox.Record.{Record}
use sbx_swarm_node.Sandbox.Manager.{get_record, read_clock}
use sbx_swarm_node.Sandbox.Manager.Healthy.{mutate_healthy, mutate_missing}
use sbx_swarm_node.Sandbox.Cleanup.{set_last_publish}
use sbx_swarm_node.Git.Workspace as Git
use sbx_swarm_node.Provision.Local.{Setting, Mgr}
use sbx_swarm_node.Service.State.{Tools, Cause, ApiError, ask}
use sbx_swarm_node.Service.Publishing.{
  Bundle, Target, Done, git_target, agent_head_branch, clean_up, bundle_branches, stamp, finished,
  with_bundle, publish_branches, publish_head, publish_chosen, publish_target, do_publish,
  auto_published, dropped, auto_publish_found, maybe_auto_publish, lookup_error,
}
use sbx_swarm_node.Service.Publishing.Same.{
  Svc, Same, clean_up-Same, bundle_branches-Same, agent_head_branch-Same, git_target-same,
  note_publish-Same, publish_each-Same, ask-get,
}

module _ (S : Setting) (T : Tools S) where
  abbrev pub status_of : Record → String
  status_of r = r.status

  -- The status of a sandbox, if it has a record.
  abbrev pub status_at : String → Svc S T → Option String
  status_at id s = Option.map status_of (get id s.mgr.records)

  -- The database works, no workspace is locked, and each record has the key that it stands under.
  pub record IsCalm (s : Svc S T) : Type 0 where
    pub healthy : s.mgr.faults ≡ []
    pub free : s.held ≡ []
    pub keyed : (id : String) (r : Record) → get id s.mgr.records ≡ some r → r.id ≡ id

  abbrev pub Quiet : Svc S T → Svc S T → Type 0
  Quiet s t = IsCalm t × ((id : String) → status_at id t ≡ status_at id s)

  Quiet-trans : (s t u : Svc S T) → Quiet s t → Quiet t u → Quiet s u
  Quiet-trans s t u h k = (k.0, λ id. k.1 id ∙ h.1 id)

  Same-Quiet : (s t : Svc S T) → IsCalm s → Same S T s t → Quiet s t
  Same-Quiet s t h e = (
    record {
      healthy = e.1 ∙ h.healthy;
      free = e.2 ∙ h.free;
      keyed = λ id r at. h.keyed id r (ap (get id) (sym e.0) ∙ at);
    },
    λ id. ap (λ m. Option.map status_of (get id m)) e.0,
  )

  status_of-put :
      (id : String) (r q : Record) (m : Map String Record) (j : String)
      → get id m ≡ some r
      → q.status ≡ r.status
      → Option.map status_of (get j (put id q m)) ≡ Option.map status_of (get j m)
  status_of-put id r q m j h e =
      ap (Option.map status_of) (get-put id j q m) ∙ by_key (id == j) refl
    where
      by_key :
          (b : Bool)
          → (id == j) ≡ b
          → Option.map status_of (if b then some q else get j m) ≡ Option.map status_of (get j m)
      by_key false k = refl
      by_key true k =
          ap some e ∙ ap (Option.map status_of) (sym h ∙ ap (λ x. get x m) ((==_iff id j).0 k))

  pub keyed-put :
      (q : Record) (m : Map String Record)
      → ((j : String) (r : Record) → get j m ≡ some r → r.id ≡ j)
      → (j : String) (r : Record) → get j (put q.id q m) ≡ some r
      → r.id ≡ j
  keyed-put q m h j r e = by_key (q.id == j) refl (sym (get-put q.id j q m) ∙ e)
    where
      by_key : (b : Bool) → (q.id == j) ≡ b → (if b then some q else get j m) ≡ some r → r.id ≡ j
      by_key false k e = h j r e
      by_key true k e = let same : q ≡ r = cc in ap (λ x. x.id) (sym same) ∙ (==_iff q.id j).0 k

  stamp-Quiet : (id : String) (s : Svc S T) → IsCalm s → Quiet s (stamp S T id s)
  unfolding stamp read_clock set_last_publish
  stamp-Quiet id s h =
      let ticked : Mgr S = record s.mgr { ticks = s.mgr.ticks + 1 } in
      let now = S.clock s.mgr.ticks in
      let set : Record → Record = λ q. record q { last_publish = now } in
      elim (Option-cases (get id s.mgr.records)) [
        | inl none_there ↦
            let done =
              mutate_missing S.B S.mint S.clock S.node_id id set ticked h.healthy none_there in
            subst (Quiet s) (ap (λ p. record s { mgr = p.1 }) (sym done))
              (Same-Quiet s (record s { mgr = ticked }) h (refl, refl, refl))
        | inr (r, found) ↦
            let done =
              mutate_healthy S.B S.mint S.clock S.node_id id set r ticked h.healthy found in
            let own = ap (λ x. get x s.mgr.records) (h.keyed id r found) ∙ found in
            subst (Quiet s) (ap (λ p. record s { mgr = p.1 }) (sym done)) (
              record {
                healthy = h.healthy;
                free = h.free;
                keyed = keyed-put _ s.mgr.records h.keyed;
              },
              λ j. status_of-put r.id r _ s.mgr.records j own refl,
            )
      ]

  -- A publish that does not wait, and is quiet.
  abbrev pub Settles : Svc S T → Done S T → Type 0
  Settles s d = (r : Result ApiError (Unit {0})) × (t : Svc S T) × (d ≡ some (r, t)) × Quiet s t

  Settles-after : (s t : Svc S T) (d : Done S T) → Quiet s t → Settles t d → Settles s d
  Settles-after s t d h (r, u, e, k) = (r, u, e, Quiet-trans s t u h k)

  finished-Settles :
      (id vm : String) (b : Bundle S T) (failed : Option Git.Error) (s : Svc S T)
      → IsCalm s
      → Settles s (finished S T id vm b (some (failed, s)))
  unfolding finished
  finished-Settles id vm b (some e) s h =
      (err _, clean_up S T vm b s, refl, Same-Quiet s _ h (clean_up-Same S T vm b s))
  finished-Settles id vm b none s h =
      let stamped_quiet = stamp-Quiet id s h in
      let t = stamp S T id s in
      (
        ok tt,
        clean_up S T vm b t,
        refl,
        Quiet-trans s t _ stamped_quiet (Same-Quiet t _ stamped_quiet.0 (clean_up-Same S T vm b t)),
      )

  with_bundle-Settles :
      (id : String) (actor : Text) (rec : Record) (name : String) (g : Git.Spec)
      (branches : List Text) (p : Result Cause (Bundle S T) × Svc S T)
      → IsCalm p.1
      → Settles p.1 (with_bundle S T id actor (rec, name, g) branches p)
  unfolding with_bundle
  with_bundle-Settles id actor rec name g branches (err e, s) h =
      (err _, _, refl, Same-Quiet s _ h (note_publish-Same S T id actor g.name _ true s))
  with_bundle-Settles id actor rec name g branches (ok b, s) h =
      let (failed, t, e, same) =
        publish_each-Same S T id actor name g b.host_path branches none s h.free in
      let quiet = Same-Quiet s t h same in
      let (r, u, e', k) = finished-Settles id rec.backend_name b failed t quiet.0 in
      (r, u, ap (finished S T id rec.backend_name b) e ∙ e', Quiet-trans s t u quiet k)

  publish_branches-Settles :
      (dir : Text) (id : String) (actor : Text) (rec : Record) (name : String) (g : Git.Spec)
      (branches : List Text) (s : Svc S T)
      → IsCalm s
      → Settles s (publish_branches S T dir id actor (rec, name, g) branches s)
  unfolding publish_branches
  publish_branches-Settles dir id actor rec name g branches s h =
      let bundle = bundle_branches S T dir rec.backend_name branches s in
      let quiet =
        Same-Quiet s bundle.1 h (bundle_branches-Same S T dir rec.backend_name branches s) in
      Settles-after s bundle.1 _ quiet
        (with_bundle-Settles id actor rec name g branches bundle quiet.0)

  publish_head-Settles :
      (dir : Text) (id : String) (actor : Text) (rec : Record) (name : String) (g : Git.Spec)
      (p : Result Cause Text × Svc S T)
      → IsCalm p.1
      → Settles p.1 (publish_head S T dir id actor (rec, name, g) p)
  unfolding publish_head
  publish_head-Settles dir id actor rec name g (err e, s) h =
      (err _, s, refl, Same-Quiet s s h (refl, refl, refl))
  publish_head-Settles dir id actor rec name g (ok b, s) h =
      publish_branches-Settles dir id actor rec name g (b ∷ []) s h

  publish_chosen-Settles :
      (dir : Text) (id : String) (actor : Text) (rec : Record) (name : String) (g : Git.Spec)
      (branches : List Text) (s : Svc S T)
      → IsCalm s
      → Settles s (publish_chosen S T dir id actor (rec, name, g) branches s)
  unfolding publish_chosen
  publish_chosen-Settles dir id actor rec name g [] s h =
      let at = agent_head_branch S T rec.backend_name s in
      let quiet = Same-Quiet s at.1 h (agent_head_branch-Same S T rec.backend_name s) in
      Settles-after s at.1 _ quiet (publish_head-Settles dir id actor rec name g at quiet.0)
  publish_chosen-Settles dir id actor rec name g (b ∷ bs) s h =
      publish_branches-Settles dir id actor rec name g (b ∷ bs) s h

  publish_target-Settles :
      (dir : Text) (id : String) (actor : Text) (branches : List Text)
      (p : Result ApiError (Target S T) × Svc S T)
      → IsCalm p.1
      → Settles p.1 (publish_target S T dir id actor branches p)
  unfolding publish_target
  publish_target-Settles dir id actor branches (err e, s) h =
      (err _, s, refl, Same-Quiet s s h (refl, refl, refl))
  publish_target-Settles dir id actor branches (ok (rec, name, g), s) h =
      either_branch (Settles s) (not g.allow_push) _ _
        (err _, s, refl, Same-Quiet s s h (refl, refl, refl))
        (publish_chosen-Settles dir id actor rec name g branches s h)

  pub do_publish-Settles :
      (dir : Text) (id : String) (branches : List Text) (actor : Text) (s : Svc S T)
      → IsCalm s
      → Settles s (do_publish S T dir id branches actor s)
  unfolding do_publish
  do_publish-Settles dir id branches actor s h =
      let same : (git_target S T id s).1 ≡ s = git_target-same S T id s h.healthy in
      let quiet : Quiet s (git_target S T id s).1 =
        subst (Quiet s) (sym same) (Same-Quiet s s h (refl, refl, refl)) in
      Settles-after s _ _ quiet (publish_target-Settles dir id actor branches _ quiet.0)

  auto_publish_found-Quiet :
      (dir : Text) (id : String) (actor : Text) (p : Result ApiError Record × Svc S T)
      → IsCalm p.1
      → (t : Svc S T) × (auto_publish_found S T dir id actor p ≡ some t) × Quiet p.1 t
  unfolding auto_publish_found
  auto_publish_found-Quiet dir id actor (err e, s) h =
      (s, refl, Same-Quiet s s h (refl, refl, refl))
  auto_publish_found-Quiet dir id actor (ok rec, s) h =
      let (r, t, e, k) =
        do_publish-Settles dir id [] (if actor == [] then codes "system" else actor) s h in
      either_branch (λ o. (u : Svc S T) × (o ≡ some u) × Quiet s u) (auto_published S T rec) _ _
        (t, ap (dropped S T) e ∙ (unfold dropped in refl), k)
        (s, refl, Same-Quiet s s h (refl, refl, refl))

  -- The publish that a stop starts on its own returns, and is quiet.
  pub maybe_auto_publish-Quiet :
      (dir : Text) (id : String) (actor : Text) (s : Svc S T)
      → IsCalm s
      → (t : Svc S T) × (maybe_auto_publish S T dir id actor s ≡ some t) × Quiet s t
  unfolding maybe_auto_publish
  maybe_auto_publish-Quiet dir id actor s h =
      let looked = ask S T lookup_error (get_record S.B S.mint S.clock S.node_id id) s in
      let same : looked.1 ≡ s = ask-get S T id s h.healthy in
      let quiet : Quiet s looked.1 =
        subst (Quiet s) (sym same) (Same-Quiet s s h (refl, refl, refl)) in
      let (t, e, k) = auto_publish_found-Quiet dir id actor looked quiet.0 in
      either_branch (λ o. (u : Svc S T) × (o ≡ some u) × Quiet s u) _ _ _
        (s, refl, Same-Quiet s s h (refl, refl, refl)) (t, e, Quiet-trans s looked.1 t quiet k)
