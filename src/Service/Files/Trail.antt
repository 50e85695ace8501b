-- ===== src/Service/Files/Trail.antt =====
-- internal/apiserver/sandboxservice.go: the audit log tells which files WriteFiles has landed.
use sbx_swarm_node.Prelude.{
  ◌≡◌, ℕ, true, false, ◌⊎◌, List, [], ◌∷◌, ◌++◌, Text, length, map, Result, ok, err,
}
use sbx_swarm_node.Sandbox.Record as Sandboxes
use sbx_swarm_node.Provision.Local.{Setting}
use sbx_swarm_node.Service.Templates.{AuditEntry}
use sbx_swarm_node.Service.State.{Tools, ApiError, Service}
use sbx_swarm_node.Service.Paths.{PathError, resolve_upload_dest}
use sbx_swarm_node.Service.Files.{FileWrite, write_entry}

module _ (S : Setting) (T : Tools S) (actor : Text) where
  -- The paths of the files are accepted, and stand for these destinations.
  abbrev pub Resolves : List FileWrite → List Text → Type 0
  Resolves [] [] = Unit
  Resolves [] (_ ∷ _) = ⊥
  Resolves (_ ∷ _) [] = ⊥
  Resolves (fw ∷ fws) (dest ∷ dests) =
      (resolve_upload_dest T.trim_space fw.path ≡ ok dest) × Resolves fws dests

  abbrev pub landed : List Text → List AuditEntry
  landed dests = map (λ dest. write_entry actor dest false) dests

  -- The files in front of the one that failed have landed. That one has a path that is not accepted, or
  -- is noted with an error.
  pub record Broke (files : List FileWrite) (before after : List AuditEntry) : Type 0 where
    pub front : List FileWrite
    pub failing : FileWrite
    pub rest : List FileWrite
    pub dests : List Text
    pub split : files ≡ front ++ failing ∷ rest
    pub resolved : Resolves front dests
    pub log :
        ((e : PathError) × (resolve_upload_dest T.trim_space failing.path ≡ err e)
          × (after ≡ before ++ landed dests))
        ⊎ ((dest : Text) × (resolve_upload_dest T.trim_space failing.path ≡ ok dest)
            × (after ≡ before ++ (landed dests ++ write_entry actor dest true ∷ [])))

  abbrev pub Trail :
      {A : Type 0} → List FileWrite → List AuditEntry → Result ApiError A → List AuditEntry → Type 0
  Trail files before (ok _) after =
      (dests : List Text) × Resolves files dests × (after ≡ before ++ landed dests)
  Trail files before (err _) after = Broke files before after

  abbrev TrailAt :
      {A : Type 0} → List FileWrite → List AuditEntry → Result ApiError A × Service S T → Type 0
  TrailAt files before p = Trail files before p.0 p.1.audit

  -- What WriteFiles returns, and what it has noted: nothing, if the sandbox is not found.
  abbrev pub Outcome : List FileWrite → Service S T → Result ApiError ℕ × Service S T → Type 0
  Outcome files s (ok n, t) =
      (n ≡ length files)
      × (dests : List Text) × Resolves files dests
      × (t.audit ≡ s.audit ++ landed dests)
  Outcome files s (err e, t) = (t.audit ≡ s.audit) ⊎ Broke files s.audit t.audit
