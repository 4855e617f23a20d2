-- ===== src/Lib.antt =====
-- smith: the control plane of a small container orchestrator.
--
-- Nodes register and send heartbeats (internal/registry); the scheduler gives each replica of a
-- workload a node with room for it (internal/scheduler); the control plane keeps a subnet for each
-- node and an address and a port for each service in SQLite tables (internal/reconciler); the
-- reconciler drives the agents on the nodes toward the desired workloads (internal/reconciler); an app
-- bundle is validated and lowered to workloads, services and ingresses (internal/manifest). An agent
-- on each node runs the containers that it is assigned (internal/agent, internal/runtime), and pulls the
-- routes and the services from the control plane into the kernel and iptables; a monitor probes the
-- containers (internal/health).
--
-- Files:
--   Types            internal/types/types.go: the records that the parts exchange
--   Registry         internal/registry/registry.go: Register, Heartbeat, Get, List, Alive, Dead, Remove
--   Floats           the float64 numbers of the ranking, as a parameter with the laws of an order
--   Scheduler        internal/scheduler/scheduler.go: Assign, place, fitsOnNode, Unassign,
--                    ReassignNode; in Scheduler/Overcommit Overcommitted, and in Scheduler/Plan
--                    RebalancePlan and Rebalance
--   Manifest         internal/manifest/manifest.go and resolve.go: the bundle and Resolve
--                    RebalancePlan and Rebalance; in Scheduler/Machine the sums in 64 bits
--   Stores           internal/reconciler/subnets_sqlite.go, services_sqlite.go, ingresses_sqlite.go;
--                    in Stores/Workloads store_sqlite.go
--   Desired          internal/reconciler/store.go, and expand, requestOf, maxUnavailable, specHash of
--                    reconciler.go
--   Reconciler       internal/reconciler/reconciler.go: the calls to the agents, the eviction of dead
--                    nodes, relocation; in Reconciler/Pass the pass itself
--   Apply            internal/apply/apply.go: the manifests of a directory and their overlays; in
--                    Apply/Run Apply, Diff and the pruning, in Apply/Output what is printed, in
--                    Apply/Delta the delta, and in Apply/Moves internal/apply/rebalance.go
--   Health           internal/health/probe.go: the monitor of the containers' health
--   Containers       internal/runtime/containerd.go: the client of containerd; in Containers/Run
--                    RunContainer with its deferred calls, in Containers/Stop StopContainer,
--                    KillContainer and CleanupAll
--   Agent            internal/agent/agent.go: the assignments of a node; in Agent/Registration the
--                    registration and the heartbeat loop, in Agent/Pulling the rounds that fetch the
--                    routes and the services and apply them
--   Network          internal/runtime/firewall.go, service_proxy.go and cni.go: iptables as a record of
--                    commands with the laws of its manual; in Network/Firewall the ports that are
--                    opened, in Network/Services the chains of the services, in Network/Cni the IP of
--                    a container
--   KernelRoutes     internal/runtime/routes.go: the routes to the other nodes that an agent keeps
--   Server           internal/api/server.go: the authorization and the handlers of workloads and nodes;
--                    in Server/Tables those of services and ingresses, and the routes, the endpoints and
--                    the ingress rules that the nodes pull
--   Prelude          integers, texts, sorting, association lists, decimal numbers
--   Tests            concrete inputs, and each theorem at one of them
--
-- State: a mutex-guarded Go struct is a record, each of its methods one function on it. A Go map is
-- an association list with each key once, read in the order of a `range`; a set is the list of its
-- members. A Go `int` is an integer without bound; Scheduler/Machine has
-- the scheduler's sums in 64 bits, which are the exact ones for the requests and nodes that the results
-- on capacity name; the uint32 arithmetic on addresses wraps around at
-- 2 ^ 32. An error is a constructor of a data type, with what its message quotes. The time of a call
-- is an argument. Of the database, which is a library, the model has the rows of a table, and which
-- statements of a call fail is an argument. A loop over a range recurses on the number of its rounds,
-- which is that of the Go loop, so no fuel is chosen.
--
-- The calls of the reconciler to the agents are a trace in its state; what the agents answer, and
-- the time, are functions of the trace.
--
-- An apply keeps its writes and its output, the oldest first; the file system, the YAML parser, the
-- decryptor and the control plane it talks to are functions.
--
-- The server holds the stores, the registry and the scheduler; a handler takes the decoded request and
-- gives the new state with the reply.
--
-- On a node, the log of the calls to containerd and CNI is kept with their answers; each answer is a
-- function of the calls before it. The goroutines of the health monitor are a step relation. The loop of
-- a registration takes fuel, with the number of rounds that is enough as a theorem. A command of
-- iptables changes its state and says whether it failed; a Go function that runs several ends with the
-- first that fails.
--
-- Parameters: the SHA-256 of the canonical JSON text of a workload; the JSON text of the nested values
-- of a stored workload; iptables, by the rules that its chains have after a command; the hash in the
-- name of a service's chain and the text of a probability; what CNI answers; the texts of addresses in
-- the routes of a node, and its kernel; the float64 operations by which the candidates of a placement
-- are ranked. The whole part of the schedulable share is exact for amounts below 2 ^ 40, and written
-- out.
--
-- Not modelled: the calls of containerd, mount, DNS, ACME, SSH and sops, the HTTP server and
-- its client, the YAML parser, the opening and the migration of the databases, logging. The handler
-- that adds a workload acts on the in-memory store, so a failed statement of the table is not among its
-- answers; a health check's interval is taken to be positive, where time.NewTicker does not panic.
pub mod Prelude
pub mod Types
pub mod Network
pub mod Registry
pub mod Floats
pub mod Scheduler
pub mod Health
pub mod KernelRoutes
pub mod Manifest
pub mod Pool
pub mod Stores
pub mod Agent
pub mod Containers
pub mod Desired
pub mod Reconciler
pub mod Apply
pub mod Server
pub mod Tests
