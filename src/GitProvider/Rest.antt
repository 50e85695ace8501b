-- ===== src/GitProvider/Rest.antt =====
-- internal/gitprovider/rest.go: requests to the REST interface of a forge, and what is found there is
-- updated, or else created.
use sbx_swarm_node.Prelude.{
  ℕ, Bool, true, false, not, ◌||◌, List, [], ◌∷◌, ◌++◌, Option, none, some, Text, codes, nat_eq,
  text_eq, ◌==◌, if◌then◌else◌, ltb, leb, eqb, take, length, itoa, put, Map, ◌^◌, Result, ok, err,
}
use sbx_swarm_node.Git.Credential.{Credential}
use sbx_swarm_node.Git.Runner.{Host}
use sbx_swarm_node.GitProvider.Provider.{Provider, git_hub, git_lab, provider_name, Strings}
use sbx_swarm_node.GitProvider.Strategies.{
  Code, invalid_argument, failed_precondition, permission_denied, unavailable, internal, Error,
  status, PublishResult, Env, Call, tip_subject,
}

pub data Method : Type 0 where
  get_method post_method patch_method put_method : Method

-- The answer of a server: the status and the body.
pub record Response : Type 0 where
  pub status_code : ℕ
  pub body : Text

pub record ForgeItem : Type 0 where
  pub number : ℕ
  pub iid : ℕ
  pub html_url : Text
  pub web_url : Text

unfoldable pub item_id : ForgeItem → ℕ
item_id i = if not (i.iid == 0) then i.iid else i.number

unfoldable pub item_url : ForgeItem → Text
item_url i = if not (i.web_url == []) then i.web_url else i.html_url

-- net/http, encoding/json and crypto/x509 for a node whose child processes and servers share `W`.
-- `certs` reads a file of certificates: `none` if it cannot be read, `some false` if it has none.
-- `builds` is whether a request can be made of an URL, `send` the answer or the cause of a transport
-- error, which scrubURLErr keeps of it.
pub record Web (W : Type 0) : Type 0 where
  pub certs : Text → W → Option Bool
  pub builds : Text → Bool
  pub send : Method → Text → List (Text × Text) → Option Text → W → Result Text Response × W
  pub marshal : Map Text Text → Text
  pub read_items : Text → Option (List ForgeItem)
  pub read_item : Text → Option ForgeItem
  pub error_message : Text → Option Text
  pub encode_query : Map Text Text → Text
  pub path_escape : Text → Text

unfoldable pub status_to_code : ℕ → Code
status_to_code n =
    if n == 401 || n == 403
    then permission_denied
    else if n == 404
    then failed_precondition
    else if n == 422
    then invalid_argument
    else if leb 500 n
    then unavailable
    else internal

abbrev pub body_limit : ℕ
body_limit = 2 ^ 20

pub record RestClient : Type 0 where
  pub cred : Credential
  pub provider : Provider

pub record ForgeRequest : Type 0 where
  pub resource_url : Text
  pub list_query : Text
  pub create : Map Text Text
  pub update_method : Method
  pub body_field : Text

module _ (S : Strings) (H : Host) (X : Web H.World) where
  -- forgeMessage; `error_message` is the first of its two fields that is not empty.
  unfoldable pub forge_message : Text → Text
  forge_message body = elim (X.error_message body) [ some m ↦ m | none ↦ take 200 body ]

  with_certs : Provider → Credential → Option Bool → Result Error RestClient
  with_certs p cred none = err (status internal (codes "read ca_path"))
  with_certs p cred (some false) = err (status internal (codes "ca_path: no certificates found"))
  with_certs p cred (some true) = ok (record { cred = cred; provider = p })

  unfoldable pub new_rest_client : Provider → Credential → Call H RestClient
  unfolding with_certs
  new_rest_client p cred w =
      if cred.token == []
      then (
        err (status failed_precondition (codes "REST strategy requires an HTTPS token credential")),
        w,
      )
      else if cred.ca_path == []
      then (ok (record { cred = cred; provider = p }), w)
      else (with_certs p cred (X.certs cred.ca_path w), w)

  headers_of : Provider → Text → List (Text × Text)
  headers_of git_hub token =
      (codes "Authorization", codes "Bearer " ++ token)
      ∷ (codes "Accept", codes "application/vnd.github+json")
      ∷ []
  headers_of git_lab token = (codes "PRIVATE-TOKEN", token) ∷ []
  headers_of _ token = []

  -- The headers by which a request is authenticated.
  unfoldable pub auth_headers : RestClient → List (Text × Text)
  unfolding headers_of
  auth_headers c = headers_of c.provider c.cred.token

  unfoldable pub content_type : Option Text → List (Text × Text)
  content_type none = []
  content_type (some _) = (codes "Content-Type", codes "application/json") ∷ []

  answered : RestClient → Result Text Response × H.World → Result Error Text × H.World
  answered c (err cause, w) =
      (err (status unavailable (provider_name c.provider ++ codes " request failed: " ++ cause)), w)
  answered c (ok r, w) =
      let body = take body_limit r.body in
      if ltb r.status_code 200 || leb 300 r.status_code
      then (
        err (
            status (status_to_code r.status_code) (
              provider_name c.provider
              ++ codes " HTTP "
              ++ itoa r.status_code
              ++ codes ": "
              ++ forge_message body)),
        w,
      )
      else (ok body, w)

  -- do, up to the body of a good answer. The node's bodies can always be marshalled.
  unfoldable pub send_request : RestClient → Method → Text → Option Text → Call H Text
  unfolding answered
  send_request c method url body w =
      if not (X.builds url)
      then (
        err (status internal (codes "build " ++ provider_name c.provider ++ codes " request")),
        w,
      )
      else answered c (X.send method url (auth_headers c ++ content_type body) body w)

  read_body :
      {A : Type 0}
      → A
      → (Text → Option A)
      → Provider
      → Result Error Text × H.World
      → Result Error A × H.World
  read_body empty read p (err e, w) = (err e, w)
  read_body empty read p (ok [], w) = (ok empty, w)
  read_body empty read p (ok (x ∷ body), w) = elim (read (x ∷ body)) [
    | some a ↦ (ok a, w)
    | none ↦ (err (status internal (codes "decode " ++ provider_name p ++ codes " response")), w)
  ]

  -- do with a value to decode into, which is `empty` before.
  unfoldable pub do_request :
      {A : Type 0} → A → (Text → Option A) → RestClient → Method → Text → Option Text → Call H A
  unfolding read_body
  do_request empty read c method url body w =
      read_body empty read c.provider (send_request c method url body w)

  abbrev pub no_item : ForgeItem
  no_item = record { number = 0; iid = 0; html_url = []; web_url = [] }

  reported : Text → Text → PublishResult
  reported ref url = record {
    ref = ref;
    delivery_url = url;
    change_id = [];
    patch = [];
    no_change = false;
  }

  written : Text → Result Error ForgeItem × H.World → Result Error PublishResult × H.World
  unfolding reported
  written ref (ok item, w) = (ok (reported ref (item_url item)), w)
  written ref (err e, w) = (err e, w)

  -- The fields of an update: what the request gives.
  unfoldable pub update_fields : Env → ForgeRequest → Map Text Text
  update_fields e req =
      let titled = if not (e.title == []) then put (codes "title") e.title [] else [] in
      if not (e.body == []) then put req.body_field e.body titled else titled

  update_item : RestClient → Env → Text → ForgeRequest → ForgeItem → Call H PublishResult
  unfolding written reported
  update_item c e ref req found w =
      if eqb (length (update_fields e req)) 0
      then (ok (reported ref (item_url found)), w)
      else written ref (
          do_request no_item X.read_item c req.update_method
            (req.resource_url ++ codes "/" ++ itoa (item_id found))
            (some (X.marshal (update_fields e req))) w)

  unfoldable pub create_fields : Env → ForgeRequest → Text → Map Text Text
  create_fields e req title =
      let titled = put (codes "title") title req.create in
      if not (e.body == []) then put req.body_field e.body titled else titled

  create_item :
      RestClient → Env → Text → ForgeRequest → Text × H.World → Result Error PublishResult × H.World
  unfolding written
  create_item c e ref req (title, w) = written ref (
      do_request no_item X.read_item c post_method req.resource_url
        (some (X.marshal (create_fields e req title))) w)

  title_for : Env → Text → H.World → Text × H.World
  title_for e source w = if e.title == [] then tip_subject H S e.dir source w else (e.title, w)

  upsert :
      RestClient
      → Env
      → Text
      → ForgeRequest
      → Result Error (List ForgeItem) × H.World
      → Result Error PublishResult × H.World
  unfolding update_item create_item title_for
  upsert c e source req (err x, w) = (err x, w)
  upsert c e source req (ok (item ∷ _), w) =
      update_item c e (codes "refs/heads/" ++ source) req item w
  upsert c e source req (ok [], w) =
      create_item c e (codes "refs/heads/" ++ source) req (title_for e source w)

  unfoldable pub create_or_update : RestClient → Env → Text → ForgeRequest → Call H PublishResult
  unfolding upsert
  create_or_update c e source req w = upsert c e source req (
      do_request [] X.read_items c get_method (req.resource_url ++ codes "?" ++ req.list_query) none
        w)
