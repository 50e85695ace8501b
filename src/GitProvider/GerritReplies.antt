-- ===== src/GitProvider/GerritReplies.antt =====
-- internal/gitprovider/gerrit_review.go: replies are posted all in one request, and the comments that
-- it made are found by reading the change again.
pub mod Gathered
pub mod Whole
use sbx_swarm_node.Prelude.{
  ℕ, Bool, true, false, not, List, [], ◌∷◌, ◌++◌, Option, none, some, Text, codes, text_eq, ◌==◌,
  if◌then◌else◌, eqb, length, Map, get, put, contains, keep, sort_texts, Result, ok, err,
}
use sbx_swarm_node.Git.Runner.{Host}
use sbx_swarm_node.GitProvider.Provider.{Strings}
use sbx_swarm_node.GitProvider.Strategies.{Code, not_found, Error, status, Env, Call}
use sbx_swarm_node.GitProvider.Rest.{Web, post_method}
use sbx_swarm_node.GitProvider.Threads.{GerritComment, GerritThread, gerrit_threads}
use sbx_swarm_node.GitProvider.Reviews.{Reply, GerritCommentInput, Json}
use sbx_swarm_node.GitProvider.GerritReview.{
  gerrit_patchset_level, GerritClient, new_gerrit_client, gerrit_send, get_comments,
}

-- The set of the identifiers, each once.
ids_from : List Text → List GerritComment → List Text
ids_from ids [] = ids
ids_from ids (c ∷ cs) = ids_from (if contains c.id ids then ids else c.id ∷ ids) cs

unfoldable pub comment_ids_from : List Text → Map Text (List GerritComment) → List Text
unfolding ids_from
comment_ids_from ids [] = ids
comment_ids_from ids ((_, cs) ∷ by_path) = comment_ids_from (ids_from ids cs) by_path

unfoldable pub gerrit_comment_ids : Map Text (List GerritComment) → List Text
gerrit_comment_ids by_path = comment_ids_from [] by_path

-- The threads by their root.
threads_from : Map Text GerritThread → List GerritThread → Map Text GerritThread
threads_from m [] = m
threads_from m (t ∷ ts) = threads_from (put t.root_id t m) ts

unfoldable pub threads_by_root : List GerritThread → Map Text GerritThread
unfolding threads_from
threads_by_root ts = threads_from [] ts

unfoldable pub input_for : GerritThread → Reply → GerritCommentInput
input_for t r = record {
  in_reply_to = t.latest_id;
  line = if t.path == gerrit_patchset_level then 0 else t.line;
  message = r.body;
  unresolved = not r.resolve;
}

abbrev pub Inputs : Type 0
Inputs = Map Text (List GerritCommentInput)

-- comments[path] = append(comments[path], ci)
unfoldable pub append_input : Text → GerritCommentInput → Inputs → Inputs
append_input path ci [] = (path, ci ∷ []) ∷ []
append_input path ci ((p, cis) ∷ inputs) =
    if p == path then (p, cis ++ ci ∷ []) ∷ inputs else (p, cis) ∷ append_input path ci inputs

add_input : Reply → Inputs → Option GerritThread → Result Error Inputs
add_input r inputs none = err (
    status not_found
      (codes "gerrit thread " ++ r.thread_id ++ codes " not found (already resolved?)"))
add_input r inputs (some t) = ok (append_input t.path (input_for t r) inputs)

then_inputs : Result Error Inputs → (Inputs → Result Error Inputs) → Result Error Inputs
then_inputs (err e) next = err e
then_inputs (ok inputs) next = next inputs

-- The comments to post; a reply with no body has none, also when it asks to resolve.
unfoldable pub inputs_from : Map Text GerritThread → Inputs → List Reply → Result Error Inputs
unfolding add_input then_inputs
inputs_from threads inputs [] = ok inputs
inputs_from threads inputs (r ∷ rs) =
    then_inputs (if r.body == [] then ok inputs else add_input r inputs (get r.thread_id threads))
      λ more. inputs_from threads more rs

module _ (S : Strings) (base64 : Text → Text) (H : Host) (X : Web H.World) (J : Json) where
  -- The identifiers that are new; a change that cannot be read again has none.
  found_new :
      List Text
      → Result Error (Map Text (List GerritComment)) × H.World
      → Result Error (List Text) × H.World
  found_new pre (err _, w) = (ok [], w)
  found_new pre (ok after, w) =
      (ok (sort_texts (keep (λ id. not (contains id pre)) (gerrit_comment_ids after))), w)

  after_post :
      GerritClient
      → Text
      → List Text
      → Result Error Text × H.World
      → Result Error (List Text) × H.World
  unfolding found_new
  after_post c change_id pre (err e, w) = (err e, w)
  after_post c change_id pre (ok _, w) = found_new pre (get_comments S base64 H X J c change_id w)

  pub post_inputs : GerritClient → Text → List Text → Result Error Inputs → Call H (List Text)
  unfolding after_post
  post_inputs c change_id pre (err e) w = (err e, w)
  post_inputs c change_id pre (ok []) w = (ok [], w)
  post_inputs c change_id pre (ok (i ∷ inputs)) w = after_post c change_id pre (
      gerrit_send S base64 H X c post_method
        (codes "/changes/" ++ change_id ++ codes "/revisions/current/review")
        (some (J.marshal_review (i ∷ inputs))) w)

  unfoldable pub reply_to_change :
      GerritClient
      → Text
      → List Reply
      → Result Error (Map Text (List GerritComment)) × H.World
      → Result Error (List Text) × H.World
  unfolding post_inputs
  reply_to_change c change_id replies (err e, w) = (err e, w)
  reply_to_change c change_id replies (ok by_path, w) =
      post_inputs c change_id (gerrit_comment_ids by_path)
        (inputs_from (threads_by_root (gerrit_threads by_path)) [] replies) w

  unfoldable pub gerrit_resolve_threads : Env → Text → List Reply → Call H (List Text)
  gerrit_resolve_threads e change_id replies w = elim (new_gerrit_client S e) [
    | err x ↦ (err x, w)
    | ok c ↦ reply_to_change c change_id replies (get_comments S base64 H X J c change_id w)
  ]
