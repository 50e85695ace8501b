-- ===== src/Lib.antt =====
-- sbx-swarm-node runs sandboxes on the nodes of a swarm. A node takes a request, finds the node
-- that is to run the sandbox, admits it within that node's limits and keeps a record of it; every
-- call between users and nodes is authenticated and authorized. This library models the core of
-- the Go program and proves what makes it correct.
--
-- A request goes through these parts. Auth: tokens and keys prove a principal (Auth/Session for
-- internal/auth/session.go, Auth/NodeKey for internal/nodekey/nodekey.go, Auth/Principal for
-- internal/apiserver/authn.go, Auth/Middleware for internal/auth/auth.go) and the policy lets the
-- call through or not (Auth/Policy for internal/apiserver/authz.go). Routing (internal/ids/ids.go,
-- internal/routing/table.go): an id names the node that owns it, and the table knows that node's
-- address and key. Forwarding (internal/apiserver/forward.go and forward_http.go): a call about
-- another node, or about a sandbox of another node, goes there. Provision: Provision/Entry
-- (CreateSandbox of internal/apiserver/sandboxservice.go) starts an operation, Provision/Sizing
-- sizes the request, Provision/Target (internal/apiserver/provision.go and the retry of
-- internal/node/node.go) provisions for another node with the cache of Provision/Dedup, and
-- Provision/Local (internal/apiserver/provision_git.go) prepares the workspace and creates. Git
-- (internal/git): Builder binds the values of a request into the steps, Credential makes the
-- environment, Runner runs the steps, Workspace holds the lock of a base. GitProvider
-- (internal/gitprovider) publishes work to the forge of a workspace, in Strategies, Gerrit and
-- Rest, and reads and answers reviews, in GithubReview, GerritReview and GerritReplies; Provider
-- tells the forges apart. Service (internal/apiserver): Node is the cordon and the drain of a node
-- (nodeservice.go, with internal/node/flags.go), Publishing the publish of branches, Sweeps the
-- stops of the reaper and of a drain (sandboxservice.go), PublishWork the publish by a strategy
-- (publish_work.go), and Files the write of files into a sandbox (sandboxservice.go), with the
-- accepted paths in Paths (files.go) and the commands in Transfer (filescopy.go). Ops
-- (internal/ops/ops.go): a create runs as an operation, found again by its idempotency key. Scheduler and Coordinator (internal/scheduler,
-- internal/coordinator): the nodes that fit, in the order in which they are tried; ImageRef
-- (internal/imageref) spells the image names that the scheduler compares. Sandbox
-- (internal/sandbox): Capacity admits on the node itself, Manager creates and keeps the records,
-- Cleanup deletes and reconciles (internal/sandbox/manager.go), Kits checks what the node offers,
-- Fake is the backend in memory (internal/sandbox/fake.go). Events (internal/events): the bus on
-- which all of it is announced. Membership (internal/membership): Identity and Cluster join a
-- node to a swarm and spread what is revoked. Config (internal/config/config.go) checks what all of
-- this is set up with.
--
-- State. A component's state is a record with the fields of the Go struct; a method is a function
-- from the state to a result and the new state, composed in do blocks over `Exec`, which keeps
-- what was written before an error (Prelude/Effects). A method that holds its mutex from the first
-- line to the last is one step, and Events/Bus/Ring runs such steps in any order. What drops its
-- mutex in between, as AdmitAndCreate and Delete do, is modelled as it runs when no other call falls
-- in between; the parts of MergeRemoteState are also steps of their own (Membership/Cluster/Runs). Maps are association lists in some iteration order
-- (Prelude/Maps), and a bucket of the database is such a map: the JSON form of its values is left
-- out, and the order in which the database lists its keys is left open. Where the database may fail, the state carries `faults`,
-- the outcomes of the accesses to come. A call that may have to wait for the lock of a workspace
-- returns an option, where none is a call that waits (Prelude/Waiting). Membership/Cluster/Runs
-- lets the operations of a node and the calls of the gossip library follow one another in any
-- order.
--
-- Numbers. Counters of Go type int and times in nanoseconds are natural numbers without a bound;
-- the sequence numbers of events wrap at 2^64, and a parsed expiry or timestamp must fit in 64
-- bits. The parts of a capacity are whole numbers of units in which float64 sums are exact
-- (Sandbox/Amounts); in the scheduler, where ratios round, float64 is a parameter whose
-- comparisons are those of a total order (Prelude/Float). The walk to the root of a thread of
-- comments (GitProvider/Threads) has fuel for one step more than there are comments, which is
-- enough since it stops at a comment that it has seen. The reads of a stream (Service/Transfer) have
-- fuel for as many as there are bytes, which is enough since each takes one or more. All other
-- loops are structural.
--
-- Parameters. HMAC, HKDF, Ed25519, base64, SHA-256, ULIDs and clocks come from libraries and are
-- arguments of the model; the inverse laws that a theorem needs are its hypotheses, and the
-- examples fill them with concrete functions. Child processes and the file system are the record
-- `Host` (Git/Runner), and a remote call is delivered, or its request or its reply is lost
-- (Provision/Target). The backend that runs containers is the record `Backend` (Sandbox/Record),
-- and its commands in a sandbox are in `Tools` (Service/State). The servers of a forge are `Web`
-- (GitProvider/Rest), the bodies in JSON `Json` (GitProvider/Reviews), and the functions on
-- Unicode and URLs `Strings` (GitProvider/Provider).
--
-- Not modelled: the handlers of the API that only translate messages, the commands, downloads
-- and agent runs of a sandbox, the observation daemon, the loading of the configuration, and the HTTP,
-- gRPC, TLS and start-up glue; the time limits of contexts; the wire formats, the generated code,
-- the gossip library and the SDK of the container runtime. In Provision/Local the head of a review
-- is an argument. What other calls do between the steps of a sweep is left out of Service/Sweeps.
pub mod Prelude
pub mod Auth
pub mod Config
pub mod Coordinator
pub mod Events
pub mod Forwarding
pub mod Git
pub mod GitProvider
pub mod ImageRef
pub mod Membership
pub mod Ops
pub mod Sandbox
pub mod Provision
pub mod Routing
pub mod Scheduler
pub mod Service
