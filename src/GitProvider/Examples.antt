-- ===== src/GitProvider/Examples.antt =====
-- The theorems on the review providers at concrete remotes and comments.
use sbx_swarm_node.Prelude.{
  ℕ, ◌≡◌, refl, Bool, true, List, [], ◌∷◌, none, some, Text, text_eq, nat_eq, ◌==◌, codes, Map, get,
  put, any, All, ok,
}
use sbx_swarm_node.Git.Runner.{Host, exited}
use sbx_swarm_node.GitProvider.Provider.{Strings}
use sbx_swarm_node.GitProvider.Rest.{Web}
use sbx_swarm_node.GitProvider.Threads.{
  GerritComment, gerrit_root, gerrit_threads, index, index_from,
}
use sbx_swarm_node.GitProvider.Threads.Open.{IsOpen, gerrit_threads-IsOpen}
use sbx_swarm_node.GitProvider.Chains.{gerrit_root-ends}
use sbx_swarm_node.GitProvider.Reviews.{Reply, Json}
use sbx_swarm_node.GitProvider.GerritReview.{GerritClient}
use sbx_swarm_node.GitProvider.GerritReplies.Whole.{Answers, open_threads, reply_to_change-whole}
use sbx_swarm_node.GitProvider.GerritReplies.Gathered.{is_lost}

abbrev plain_strings : Strings
plain_strings = record {
  trim_space = λ s. s;
  to_lower = λ s. s;
  equal_fold = λ s t. s == t;
  parse_url = λ s. none;
}

abbrev remote : Text
remote = codes "git@github.com:acme/app.git"

abbrev comment : Text → Text → Text → Bool → GerritComment
comment id to updated unresolved = record {
  id = id;
  in_reply_to = to;
  line = 3;
  message = codes "why";
  unresolved = unresolved;
  updated = updated;
  username = codes "ann";
  name = [];
}

-- A question, and an answer that leaves it open.
abbrev question : GerritComment
question = comment (codes "c1") [] (codes "1") true

abbrev answer : GerritComment
answer = comment (codes "c2") (codes "c1") (codes "2") true

abbrev comments : List GerritComment
comments = question ∷ answer ∷ []

gerrit_root-ends_example : (r : Text) × (gerrit_root answer (index comments) ≡ some r)
unfolding index get index_from put
gerrit_root-ends_example = gerrit_root-ends comments answer refl

abbrev by_path : Map Text (List GerritComment)
by_path = (codes "main.go", comments) ∷ []

gerrit_threads-IsOpen_example : All (IsOpen by_path) (gerrit_threads by_path)
gerrit_threads-IsOpen_example = gerrit_threads-IsOpen by_path

abbrev host : Host
host = record {
  World = ℕ;
  exec = λ dir env argv w. ((exited, []), w);
  exists = λ path w. true;
  mkdir_all = λ path w. (true, w);
  join = λ dir name. name;
  parent = λ path. path;
}

abbrev web : Web ℕ
web = record {
  certs = λ path w. none;
  builds = λ url. true;
  send = λ method url headers body w. (ok (record { status_code = 200; body = [] }), w);
  marshal = λ fields. [];
  read_items = λ body. none;
  read_item = λ body. none;
  error_message = λ body. none;
  encode_query = λ fields. [];
  path_escape = λ s. s;
}

abbrev json : Json
json = record {
  atoi = λ s. none;
  marshal_query = λ query vars num. query;
  read_envelope = λ body. none;
  read_review = λ body. none;
  read_reply = λ body. none;
  read_head = λ body. none;
  read_comments = λ body. none;
  read_change = λ body. none;
  marshal_review = λ inputs. [];
}

abbrev client : GerritClient
client = record { base = codes "http://gerrit:8080"; user = codes "bot"; pass = codes "p" }

-- One reply to the open thread, and one to a thread that is not there.
abbrev replies : List Reply
replies =
    record { thread_id = codes "c1"; body = codes "fixed"; resolve = true }
    ∷ record { thread_id = codes "c9"; body = codes "fixed"; resolve = true }
    ∷ []

abbrev base64 : Text → Text
base64 t = t

reply_to_change-whole_example :
    Answers plain_strings base64 host web json client (codes "7") by_path replies 0 (
      any
        (is_lost
          (open_threads plain_strings base64 host web json client (codes "7") by_path replies 0))
        replies)
reply_to_change-whole_example =
    reply_to_change-whole plain_strings base64 host web json client (codes "7") by_path replies 0
