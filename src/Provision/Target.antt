-- ===== src/Provision/Target.antt =====
-- internal/apiserver/provision.go, and the calls of it in internal/node/node.go: a node provisions for
-- another one, and answers a request that is sent again with the sandbox that it made. The two times
-- of a call are those of its lookup in the cache and of its entry.
pub mod Resend
use sbx_swarm_node.Prelude.{
  ℕ, Bool, true, false, not, List, [], Option, none, some, String, string_eq, ◌==◌, if◌then◌else◌,
  Result, ok, err, Wait, pos,
}
use sbx_swarm_node.Sandbox.Record as Sandboxes
use sbx_swarm_node.Sandbox.Record.{Record, no_capacity, unknown_kit, backend_create}
use sbx_swarm_node.Provision.Sizing.{CreateRequest, no_defaults, effective_spec, to_spec}
use sbx_swarm_node.Provision.Dedup.{Dedup, lookup, remember}
use sbx_swarm_node.Provision.Local.{Setting, State, E, Error, from_manager, provision_local}

pub record ProvisionRequest : Type 0 where
  pub spec : Option CreateRequest
  pub request_id : String

pub data Reply : Type 0 where
  accepted : String → Reply
  refused : String → Reply

abbrev pub empty_request : CreateRequest
empty_request = record {
  agent = "";
  template = "";
  cpus = pos 0;
  memory_bytes = pos 0;
  disk = pos 0;
  clone = false;
  branch = "";
  review_ref = none;
  workspaces = [];
  env = [];
  labels = [];
  name = "";
  kits = [];
  strategy = "";
  node_affinity = [];
  node_anti_affinity = [];
}

request_of : Option CreateRequest → CreateRequest
request_of none = empty_request
request_of (some r) = r

-- errors.Is(err, ErrUnknownKit), behind the wrapping of Create.
abbrev pub wraps_unknown_kit : Sandboxes.Error → Bool
wraps_unknown_kit unknown_kit = true
wraps_unknown_kit (backend_create e) = wraps_unknown_kit e
wraps_unknown_kit _ = false

abbrev pub is_unknown_kit : {R : Type 0} → Error R → Bool
is_unknown_kit (from_manager e) = wraps_unknown_kit e
is_unknown_kit _ = false

abbrev pub is_no_capacity : {R : Type 0} → Error R → Bool
is_no_capacity (from_manager no_capacity) = true
is_no_capacity _ = false

module _ (S : Setting) (gb : ℕ) where
  -- `cordoned` is what the node's own cordon hook reports.
  pub record InternalService : Type 0 where
    pub state : State S
    pub dedup : Dedup
    pub cordoned : Bool

  remembered : String → String → ℕ → Dedup → Dedup
  remembered request_id id now d = if request_id == "" then d else remember request_id id now d

  answer_error : E S → Result (E S) Reply
  answer_error e =
      if is_no_capacity e
      then ok (refused "no capacity")
      else if is_unknown_kit e
      then ok (refused "unknown kit")
      else err e

  answer :
      String
      → ℕ
      → InternalService
      → Option (Result (E S) Record × State S)
      → Option (Result (E S) Reply × InternalService)
  unfolding remembered answer_error
  answer request_id now s none = none
  answer request_id now s (some (ok r, t)) =
      some
        (ok (accepted r.id), record s { state = t; dedup = remembered request_id r.id now s.dedup })
  answer request_id now s (some (err e, t)) = some (answer_error e, record s { state = t })

  create_new : ProvisionRequest → ℕ → Wait (E S) InternalService Reply
  unfolding request_of answer
  create_new r now s =
      answer r.request_id now s
        (provision_local S (to_spec (effective_spec gb no_defaults (request_of r.spec))) s.state)

  unless_cached :
      ProvisionRequest
      → ℕ
      → InternalService
      → Option String × Dedup
      → Option (Result (E S) Reply × InternalService)
  unfolding create_new
  unless_cached r now s (some id, d) = some (ok (accepted id), record s { dedup = d })
  unless_cached r now s (none, d) = create_new r now (record s { dedup = d })

  -- With the test for an empty request id.
  unless_keyed :
      ProvisionRequest
      → ℕ
      → ℕ
      → InternalService
      → Bool
      → Option (Result (E S) Reply × InternalService)
  unfolding unless_cached create_new
  unless_keyed r asked done s true = create_new r done s
  unless_keyed r asked done s false = unless_cached r done s (lookup r.request_id asked s.dedup)

  unless_cordoned :
      ProvisionRequest
      → ℕ
      → ℕ
      → InternalService
      → Bool
      → Option (Result (E S) Reply × InternalService)
  unfolding unless_keyed
  unless_cordoned r asked done s true = some (ok (refused "cordoned"), s)
  unless_cordoned r asked done s false = unless_keyed r asked done s (r.request_id == "")

  unfoldable pub provision : ProvisionRequest → ℕ → ℕ → Wait (E S) InternalService Reply
  unfolding unless_cordoned
  provision r asked done s = unless_cordoned r asked done s s.cordoned

  -- What becomes of a remote call: the network may lose the request or the reply.
  pub data Delivery : Type 0 where
    delivered request_lost reply_lost : Delivery

  pub data RpcError : Type 0 where
    unavailable : RpcError
    status : E S → RpcError

  received :
      Option (Result (E S) Reply × InternalService)
      → Option (Result RpcError Reply × InternalService)
  received none = none
  received (some (ok reply, s)) = some (ok reply, s)
  received (some (err e, s)) = some (err (status e), s)

  unheard :
      Option (Result (E S) Reply × InternalService)
      → Option (Result RpcError Reply × InternalService)
  unheard none = none
  unheard (some (_, s)) = some (err unavailable, s)

  unfoldable pub call_provision :
      Delivery → ProvisionRequest → ℕ → ℕ → Wait RpcError InternalService Reply
  unfolding received unheard
  call_provision delivered r asked done s = received (provision r asked done s)
  call_provision request_lost r asked done s = some (err unavailable, s)
  call_provision reply_lost r asked done s = unheard (provision r asked done s)

  -- The second call, after an error of the first, if there is a request id to recognise it by.
  retry :
      ProvisionRequest
      → Wait RpcError InternalService Reply
      → Option (Result RpcError Reply × InternalService)
      → Option (Result RpcError Reply × InternalService)
  retry r again none = none
  retry r again (some (ok reply, s)) = some (ok reply, s)
  retry r again (some (err e, s)) = if r.request_id == "" then some (err e, s) else again s

  -- callProvisionWithRetry, with the deliveries and the times of its two calls.
  unfoldable pub call_provision_with_retry :
      ProvisionRequest → Delivery × ℕ × ℕ → Delivery × ℕ × ℕ → Wait RpcError InternalService Reply
  unfolding retry
  call_provision_with_retry r (d, asked, done) (d', asked', done') s =
      retry r (call_provision d' r asked' done') (call_provision d r asked done s)
