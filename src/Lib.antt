-- ===== src/Lib.antt =====
-- Vagabond, a broker that places jobs on free-tier compute: a model of the decisions it
-- makes and of the state it keeps, with the theorems that make them correct. Paths are from the
-- repository's root.
--
-- A job's task is admitted on the providers that can run it (internal/scheduler), reserved against
-- the quota of the best of them (internal/ledger over internal/quota), submitted, and passed on to
-- the next when the provider gives no answer (internal/dispatch, with the failure classes of
-- internal/plugin). Its execution moves through a state machine (internal/execution). What is left
-- behind is reaped and released later. Jobs come from files that are validated (internal/jobspec),
-- providers from a configuration (internal/config); a pool of nodes is one of them
-- (internal/providers/pool over internal/nodes); a node's agent takes what it has room for
-- (internal/agent). The server (internal/server) loads the jobs that requests name, runs them and
-- cancels executions.
--
-- The files:
--   Execution   internal/execution/state.go and status.go. State holds the transition table,
--               State/Graph its order, State/Names the text forms; Status holds Status.To, the
--               charge and the grace period, Status/Lifecycle and Status/Capacity what follows for
--               a run of changes.
--   Quota       internal/quota/meter.go and limits.go. Meter prices an execution, Limits compiles
--               pools and tests them; Limits/Compile, Fits, Percent and Deltas hold the proofs.
--   Ledger      internal/ledger and internal/quota/budgets.go. Memory is memory.go; its children
--               say what stands on a counter, that no reservation passes a cap, and what settling
--               and reaping do. Account is ledger.go: Account/Store states the Store interface as a
--               record with one law, which memory.go fills, and the calls of it; Account/Snapshot is
--               the usage that plans read.
--   Plugin      internal/plugin/capabilities.go, attributes.go and failure.go.
--   Job         internal/job: what a task and its routing declare, and durations. Job/Std is the
--               interface to the parsers and printers of Go's standard library.
--   Scheduler   internal/scheduler. Request is request.go, Matching match.go, Admission admit.go
--               with the checkers in Admission/Checks; Admission/Eligibility says without the
--               checkers what it takes to be admitted, Admission/Pools treats a pool's nodes and
--               Admission/Results the sorted result. Ranking is rank.go and plan.go, over Floats, the
--               interface for float64.
--   Dispatch    internal/dispatch. Retry is retry.go; Attempts is the attempt loop of dispatcher.go
--               with prepare, pause and charge, over an interface to the registry, the ledger, the
--               execution store, the clock and the plugin. Runs is a run of a job, from Begin to
--               Finish, with outcome.go. Polling is poll.go, authorize.go and track.go: one attempt at
--               a provider, whose answers are functions of the calls made so far. Leftovers is
--               reap.go, release.go and the verdict of resume.go; Resuming is the loops of resume.go and
--               release.go. Leases is lease.go: the holder of a lease and the other processes, as steps
--               on the store that they share.
--   Jobspec     internal/jobspec/validate.go; Jobspec/Sound says what is sure of a job in which nothing
--               is wrong, Jobspec/Matchable what that means for admission. Jobspec/Meta is the checks
--               of internal/jobspec/meta.go.
--   Config      internal/config/config.go and credentials.go: the validation of a decoded file.
--   Registry    internal/registry/registry.go: refreshes, what a plan reads and the ledger's budgets.
--   Pool        internal/providers/pool: placement on nodes. Pool/Nodes is internal/nodes/conns.go.
--   Stores      internal/state/memory. Executions is executions.go with the records of
--               internal/execution and the move of internal/dispatch/track.go, Executions/Moves and
--               Executions/Claims its proofs; Jobs is jobs.go.
--   Agent       internal/agent/executions_endpoint.go: the room for workloads; Agent/Room and Agent/Fits
--               are the arithmetic, Agent/Steps the steps of submissions and of the executor.
--               Agent/Executor is internal/agent/executor/containerd.go over what containerd answers.
--   Server      internal/jobs/load.go with the handlers of internal/server/dispatch.go, plan.go, jobs.go
--               and http.go up to the launch; Server/Cancelling is executions.go.
--   Base        shared notation, lists, maps, the stable sort, int64, float64 and time.
--
-- How it is modelled. Go's int and int64 are bit patterns below 2^64 with wrapping sums and signed
-- comparisons (Base/Int64). A float64 quotient that is rounded up keeps its rounding to 53 bits
-- (Base/Float64). A time is the nanoseconds since the year 1, Go's zero time. A map is an
-- association list over a key test. A closed vocabulary of strings is a data type with a constructor
-- `other` for any other text. A nil pointer is none, an error a value; an operation on shared state
-- returns the new state. Every operation of an in-memory store runs under one mutex, so it is one
-- step. Sorting is insertion sort, which is stable.
--
-- Fuel: a float64 of a number below 2^64 has at most 11 bits in excess and is scaled up at most 80
-- times, and a number below 2^64 has at most 20 digits. The poll loop has no bound in the code: its
-- fuel is the number of polls, and enough of it when the provider ends the wait; a resumed dispatch
-- waits with the same fuel. The rounds of a placement are bounded by the names of the nodes that they
-- find. Every other loop is over a list, or over the number of rounds that the code itself counts.
--
-- What is not modelled: texts that only a person reads (a rejection's detail, error messages), log
-- streams and progress events, the Postgres stores, the decoding of configuration and job files by the
-- HCL library, the construction of providers, cloud clients, the agent's gRPC session and the log
-- and timeout of a workload,
-- the server's HTTP, timers and wiring, and the command line. A float64 that is parsed from an
-- attribute is of an abstract type with a comparison.
pub mod Agent
pub mod Base
pub mod Config
pub mod Dispatch
pub mod Execution
pub mod Quota
pub mod Job
pub mod Jobspec
pub mod Ledger
pub mod Plugin
pub mod Pool
pub mod Registry
pub mod Scheduler
pub mod Server
pub mod Stores
