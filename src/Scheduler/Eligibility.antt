-- ===== src/Scheduler/Eligibility.antt =====
-- internal/scheduler/scheduler.go: the filter of Schedule, constraint by constraint.
use sbx_swarm_node.Prelude.{
  ℕ, ◌≡◌, ◌↔◌, ◌⊎◌, true, false, not, ◌&&◌, List, [], arith, Text, ◌==◌, string_eq, text_eq, ==_iff,
  contains, all_iff, All, Float64,
}
use sbx_swarm_node.ImageRef.{pullable, canonical}
use sbx_swarm_node.Scheduler.{Candidate, Request, holds, label, fits}

module _ (F : Float64) (sha256 : Text → List ℕ) (req : Request F) (c : Candidate F) where
  -- A limit that is 0 or at least the amount.
  abbrev pub Fits : F.Carrier → F.Carrier → Type 0
  Fits used limit = (F.eq limit (F.from_int 0) ≡ true) ⊎ (F.le used limit ≡ true)

  -- The template is none, or can be pulled by any node, or the node holds it under one of its two
  -- spellings.
  abbrev pub HasTemplate : Type 0
  HasTemplate =
      (req.template ≡ [])
      ⊎ ((pullable req.template ≡ true)
          ⊎ ((contains req.template c.templates ≡ true)
              ⊎ (contains (canonical req.template) c.templates ≡ true)))

  pub record IsEligible : Type 0 where
    pub open_for_work : c.cordoned ≡ false
    pub workspaces : All (λ w. contains w c.workspaces ≡ true) req.workspaces
    pub template : HasTemplate
    pub kits : All (λ k. contains k c.kits ≡ true) req.kits
    pub capabilities : All (λ k. contains k c.capabilities ≡ true) req.capabilities
    pub affinity : All (λ e. (label F sha256 c e.0 == e.1) ≡ true) req.affinity
    pub anti_affinity : All (λ e. not (label F sha256 c e.0 == e.1) ≡ true) req.anti_affinity
    pub cpu : Fits (F.add c.alloc_cpu req.cpu) c.limit_cpu
    pub mem : Fits (F.add c.alloc_mem req.mem) c.limit_mem
    pub disk : Fits (F.add c.alloc_disk req.disk) c.limit_disk

  template_iff :
      (not (
          not (req.template == [])
          && not (pullable req.template)
          && not (holds F sha256 c req.template))
        ≡ true)
      ↔ HasTemplate
  unfolding holds
  template_iff =
      ((λ h. ground (arith, ==_iff req.template [])), (λ h. ground (arith, ==_iff req.template [])))

  fits→IsEligible : fits F sha256 req c ≡ true → IsEligible
  unfolding fits
  fits→IsEligible h = record {
    open_for_work = ground arith;
    workspaces = (all_iff (λ w. contains w c.workspaces) req.workspaces).0 (ground arith);
    template = template_iff.0 (ground arith);
    kits = (all_iff (λ k. contains k c.kits) req.kits).0 (ground arith);
    capabilities = (all_iff (λ k. contains k c.capabilities) req.capabilities).0 (ground arith);
    affinity = (all_iff (λ e. label F sha256 c e.0 == e.1) req.affinity).0 (ground arith);
    anti_affinity =
        (all_iff (λ e. not (label F sha256 c e.0 == e.1)) req.anti_affinity).0 (ground arith);
    cpu = ground arith;
    mem = ground arith;
    disk = ground arith;
  }

  IsEligible→fits : IsEligible → fits F sha256 req c ≡ true
  unfolding fits
  IsEligible→fits e = ground (
    arith,
    e.open_for_work,
    (all_iff (λ w. contains w c.workspaces) req.workspaces).1 e.workspaces,
    template_iff.1 e.template,
    (all_iff (λ k. contains k c.kits) req.kits).1 e.kits,
    (all_iff (λ k. contains k c.capabilities) req.capabilities).1 e.capabilities,
    (all_iff (λ x. label F sha256 c x.0 == x.1) req.affinity).1 e.affinity,
    (all_iff (λ x. not (label F sha256 c x.0 == x.1)) req.anti_affinity).1 e.anti_affinity,
    e.cpu,
    e.mem,
    e.disk,
  )

  -- The filter of Schedule passes exactly the candidates that meet every constraint of the request.
  pub fits_iff : (fits F sha256 req c ≡ true) ↔ IsEligible
  fits_iff = (fits→IsEligible, IsEligible→fits)
