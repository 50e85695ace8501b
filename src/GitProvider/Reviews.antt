-- ===== src/GitProvider/Reviews.antt =====
-- internal/gitprovider/review.go: what is read of a review and written to it. `Json` is encoding/json
-- for the bodies of these requests, and strconv.Atoi.
use sbx_swarm_node.Prelude.{ℕ, ℤ, Bool, List, Option, Text, Map}
use sbx_swarm_node.GitProvider.Threads.{GerritComment}

pub record Comment : Type 0 where
  pub id : Text
  pub author : Text
  pub body : Text

pub record Thread : Type 0 where
  pub id : Text
  pub file : Text
  pub line : ℕ
  pub comments : List Comment

pub record ReviewData : Type 0 where
  pub head : Text
  pub threads : List Thread
  pub requested_changes : List Text

pub record Reply : Type 0 where
  pub thread_id : Text
  pub body : Text
  pub resolve : Bool

pub record ReviewHead : Type 0 where
  pub local_branch : Text
  pub fetch_ref : Text

-- The answers of the GraphQL interface of GitHub.
pub record Envelope : Type 0 where
  pub content : Text
  pub errors : List Text

pub record NodeThread : Type 0 where
  pub id : Text
  pub is_resolved : Bool
  pub path : Text
  pub line : ℕ
  pub comments : List Comment

pub record PullReview : Type 0 where
  pub head : Text
  pub threads : List NodeThread
  pub reviews : List Text

-- The head branch of a pull request and the full name of its repository.
pub record PullHead : Type 0 where
  pub ref : Text
  pub full_name : Text

-- A change of Gerrit: its revision and the references of all.
pub record Change : Type 0 where
  pub current_revision : Text
  pub revisions : Map Text Text

pub record GerritCommentInput : Type 0 where
  pub in_reply_to : Text
  pub line : ℕ
  pub message : Text
  pub unresolved : Bool

pub record Json : Type 0 where
  pub atoi : Text → Option ℤ
  pub marshal_query : Text → Map Text Text → Option ℤ → Text
  pub read_envelope : Text → Option Envelope
  pub read_review : Text → Option PullReview
  pub read_reply : Text → Option Text
  pub read_head : Text → Option PullHead
  pub read_comments : Text → Option (Map Text (List GerritComment))
  pub read_change : Text → Option Change
  pub marshal_review : Map Text (List GerritCommentInput) → Text
