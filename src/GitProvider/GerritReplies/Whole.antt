-- ===== src/GitProvider/GerritReplies/Whole.antt =====
-- internal/gitprovider/gerrit_review.go: replies are posted all or none.
use sbx_swarm_node.Prelude.{
  ◌≡◌, refl, sym, subst, ap, ◌∙◌, ◌++◌, codes, contains, sort_texts, Bool, true, false, not, List,
  [], ◌∷◌, some, Text, text_eq, Map, get, any, keep, length, Result, ok, err, arith,
}
use sbx_swarm_node.Git.Runner.{Host}
use sbx_swarm_node.GitProvider.Provider.{Strings}
use sbx_swarm_node.GitProvider.Strategies.{Error}
use sbx_swarm_node.GitProvider.Rest.{Web, post_method}
use sbx_swarm_node.GitProvider.Threads.{GerritComment, GerritThread, gerrit_threads}
use sbx_swarm_node.GitProvider.Reviews.{Reply, Json}
use sbx_swarm_node.GitProvider.GerritReview.{GerritClient, gerrit_send, get_comments}
use sbx_swarm_node.GitProvider.GerritReplies.{
  Inputs, threads_by_root, found_new, after_post, post_inputs, reply_to_change, gerrit_comment_ids,
}
use sbx_swarm_node.GitProvider.GerritReplies.Gathered.{
  has_body, is_lost, total, at_path, IsTidy, said_at, inputs_from-lost, inputs_from-total,
}

module _ (S : Strings) (base64 : Text → Text) (H : Host) (X : Web H.World) (J : Json)
    (c : GerritClient) (change_id : Text) (by_path : Map Text (List GerritComment))
    (replies : List Reply) (w : H.World) where
  abbrev pub open_threads : Map Text GerritThread
  open_threads = threads_by_root (gerrit_threads by_path)

  abbrev pub reply : Result Error (List Text) × H.World
  reply = reply_to_change S base64 H X J c change_id replies (ok by_path, w)

  abbrev Answer : Type 0
  Answer = Result Error (List Text) × H.World

  -- The answer behind the second read of the change: the identifiers that are new, sorted; none if it
  -- cannot be read.
  abbrev pub Reads : Answer → Result Error (Map Text (List GerritComment)) × H.World → Type 0
  Reads out (err _, w2) = out ≡ (ok [], w2)
  Reads out (ok after, w2) = out ≡ (
    ok (
        sort_texts
          (keep (λ id. not (contains id (gerrit_comment_ids by_path))) (gerrit_comment_ids after))),
    w2,
  )

  -- The answer behind the request that posts.
  abbrev pub Sent : Answer → Result Error Text × H.World → Type 0
  Sent out (err e, w1) = out ≡ (err e, w1)
  Sent out (ok _, w1) = Reads out (get_comments S base64 H X J c change_id w1)

  -- Nothing is sent for no comments; otherwise all of them are sent in one request.
  abbrev pub Posts : Inputs → Answer → Type 0
  Posts [] out = out ≡ (ok [], w)
  Posts (i ∷ inputs) out = Sent out (
      gerrit_send S base64 H X c post_method
        (codes "/changes/" ++ change_id ++ codes "/revisions/current/review")
        (some (J.marshal_review (i ∷ inputs))) w)

  found_new-Reads :
      (q : Result Error (Map Text (List GerritComment)) × H.World)
      → Reads (found_new S base64 H X J (gerrit_comment_ids by_path) q) q
  unfolding found_new
  found_new-Reads (err _, w2) = refl
  found_new-Reads (ok after, w2) = refl

  after_post-Sent :
      (p : Result Error Text × H.World)
      → Sent (after_post S base64 H X J c change_id (gerrit_comment_ids by_path) p) p
  unfolding after_post
  after_post-Sent (err e, w1) = refl
  after_post-Sent (ok _, w1) = found_new-Reads (get_comments S base64 H X J c change_id w1)

  post_inputs-Posts :
      (inputs : Inputs)
      → Posts inputs
          (post_inputs S base64 H X J c change_id (gerrit_comment_ids by_path) (ok inputs) w)
  unfolding post_inputs
  post_inputs-Posts [] = refl
  post_inputs-Posts (i ∷ inputs) = after_post-Sent _

  -- What is answered if a reply is lost, and if none is.
  abbrev pub Answers : Bool → Type 0
  Answers true = (e : Error) × (reply ≡ (err e, w))
  Answers false =
      (inputs : Inputs) × Posts inputs reply
      × IsTidy inputs
      × ((path : Text) → at_path path inputs ≡ said_at open_threads path replies)
      × (total inputs ≡ length (keep has_body replies))

  -- The replies to a change whose comments have been read: if one of them has a body for a thread that
  -- is not open, nothing is posted and the answer is an error. Otherwise one request posts on each file
  -- what the replies with a body say to its threads, in their order, and no other comment; no request is
  -- sent if no reply has a body.
  pub reply_to_change-whole : Answers (any (is_lost open_threads) replies)
  unfolding reply_to_change get
  reply_to_change-whole = by_test (any (is_lost open_threads) replies) refl
    where
      by_test : (b : Bool) → any (is_lost open_threads) replies ≡ b → Answers b
      by_test true h =
          let (e, lost) = inputs_from-lost open_threads [] replies h in
          (
            e,
            ap (λ m. post_inputs S base64 H X J c change_id (gerrit_comment_ids by_path) m w) lost
                ∙ (unfold post_inputs in refl),
          )
      by_test false h =
          let (inputs, e, n, tidy, at) =
            inputs_from-total open_threads [] replies h (record { apart = tt; full = tt }) in
          (
            inputs,
            subst
                (λ m.
                  Posts inputs
                    (post_inputs S base64 H X J c change_id (gerrit_comment_ids by_path) m w))
                (sym e) (post_inputs-Posts inputs),
            tidy,
            at,
            n ∙ (omega arith),
          )
