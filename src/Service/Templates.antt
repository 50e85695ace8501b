-- ===== src/Service/Templates.antt =====
-- internal/apiserver/nodeservice.go: the templates of this node, and the nodes that are known.
use sbx_swarm_node.Prelude.{
  not, ◌&&◌, List, [], ◌∷◌, ◌++◌, Option, none, some, Text, codes, text_eq, ◌==◌, if◌then◌else◌,
  Result, ok, err,
}

pub record TemplateInfo : Type 0 where
  pub repository : Text
  pub tag : Text
  pub id : Text
  pub agent : Text
  pub created_at : Text

-- An entry of internal/audit, without its time.
pub record AuditEntry : Type 0 where
  pub actor : Text
  pub action : Text
  pub target : Text
  pub outcome : Text

unfoldable pub outcome_of : {E A : Type 0} → Result E A → Text
outcome_of (ok _) = codes "ok"
outcome_of (err _) = codes "error"

pub data TemplateError (E : Type 0) : Type 0 where
  unknown_node ref_required no_backend : TemplateError E
  failed : E → TemplateError E

-- The templates of a backend with state `D` and errors `E`: their list and the removal of one, each if
-- it is wired.
module _ (D E : Type 0) (lister : Option (D → Result E (List TemplateInfo) × D))
    (remover : Option (Text → D → Result E (Unit {0}) × D)) where
  pub record TemplateService : Type 0 where
    pub daemon : D
    pub audit : List AuditEntry

  abbrev Reply : Type 0
  Reply = Result (TemplateError E) (List TemplateInfo) × TemplateService

  listed : TemplateService → Result E (List TemplateInfo) × D → Reply
  listed s (ok infos, d) = (ok infos, record s { daemon = d })
  listed s (err e, d) = (err (failed e), record s { daemon = d })

  unfoldable pub list_templates : TemplateService → Reply
  unfolding listed
  list_templates s = elim lister [ none ↦ (ok [], s) | some list ↦ listed s (list s.daemon) ]

  removal : Text → Text → Result E (Unit {0}) → AuditEntry
  removal actor ref r = record {
    actor = actor;
    action = codes "template.remove";
    target = ref;
    outcome = outcome_of r;
  }

  -- The audit, and then the list of what is left.
  removed : Text → Text → TemplateService → Result E (Unit {0}) × D → Reply
  unfolding removal
  removed actor ref s (ok _, d) =
      list_templates (record { daemon = d; audit = s.audit ++ removal actor ref (ok tt) ∷ [] })
  removed actor ref s (err e, d) =
      (err (failed e), record { daemon = d; audit = s.audit ++ removal actor ref (err e) ∷ [] })

  remove_with : Option (Text → D → Result E (Unit {0}) × D) → Text → Text → TemplateService → Reply
  unfolding removed
  remove_with none actor ref s = (err no_backend, s)
  remove_with (some remove) actor ref s = removed actor ref s (remove ref s.daemon)

  -- RemoveTemplate on the node `self`, for the node and the template of the request.
  unfoldable pub remove_template : (self actor node_id ref : Text) → TemplateService → Reply
  unfolding remove_with
  remove_template self actor node_id ref s =
      if not (node_id == []) && not (node_id == self)
      then (err unknown_node, s)
      else if ref == []
      then (err ref_required, s)
      else remove_with remover actor ref s
