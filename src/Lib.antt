-- ===== src/Lib.antt =====
-- PartitionCTL's engine: plans for index operations on partitioned PostgreSQL tables, and the
-- executor that runs them node by node with a durable checkpoint at every step.
--
-- The parts, and how they meet. A planner writes a plan: a graph of typed nodes with the parameters of
-- each, validated by engine/protocol. The executor of engine/executor takes the nodes in a topological
-- order. For each it records every change of state in the state store before it goes on, authorizes a
-- destructive node against the live catalog by the decision table of engine/protocol/drop.go, sends
-- the statement, writes the ownership marker and verifies the result. The state store of engine/state
-- keeps runs, nodes, leases, locks, authorizations and the audit trail in files; adapters/cli joins it
-- to the executor's ports.
--
-- Which file models which part:
--   Base            Go's strings as lists of bytes, UTF-8, Boolean tests, list predicates
--   Protocol        engine/protocol, a module per file or part of a file:
--     Errors        errors.go, with the sentinels of engine/state and engine/executor
--     NodeKind      nodekind.go          NodeState    nodestate.go, with the diagram D7
--     Quote         quote.go             ObjectName   types.go
--     Naming        naming.go, the child index names and their truncation; Leftover is its second half
--     Marker        marker.go            Drop         drop.go
--     Params        params.go            Authorization  authorization.go
--     Node          node.go              Plan         plan.go and version.go
--     Plan/Order    TopologicalOrder of plan.go, with the proof that it sorts
--   Executor        engine/executor:
--     Classify      classify.go          Port         port.go and the configuration
--     Machine       transition and audit, as actions on the trace of calls and a node's status
--     Authorize     authorize.go         Dispatch     dispatch, verify, markObject, authorizeNode
--     Attempt       runNode              Run          Run, recoverOrphans, stopRequested
--     Hoare         pre- and postconditions of actions
--     Safety        what a trace must satisfy, and that every run satisfies it
--     Fuel          actions that leave the count of attempts alone, and the rounds of runNode
--     Backoff       backoff.go
--   State           engine/state, over its file store:
--     Run           run.go, with the machine of statuses and the query
--     Node          node.go, with the counts   Lease, Lock, Authorization, Audit   the files so named
--     Disk          atomic.go and the directories of file.go, as actions on a disk that may fail
--     File          file.go, a module for each group of operations
--     Claim         claim.go             Orphan       orphan.go
--     Evolution     what a call may do to a run's records, and that every call does no more
--     Refusals      the calls that are refused with every file left as it was
--   Bridge          adapters/cli/bridge_store.go: the store behind the executor's ports
--   Tests           the theorems at concrete inputs
--
-- A Go function that returns an error is an Option or a Result; a fallible step of the executor is an
-- action that returns or halts. The ports of the executor (store, catalog, database, clock) are
-- functions of the trace of the calls before, so that a theorem about all ports covers every failure
-- at every point. The loop of runNode is on fuel, of which a node that runs out halts with `no_fuel`; a
-- round is one attempt, so that `max_attempts` rounds are enough. `topological_order` needs no fuel from
-- outside: a round pops one node, and there are as many rounds as nodes.
--
-- A call of the file store is an action on the disk under the store's mutex. Each read and each write
-- is a step at which the medium may fail, before or after the new content is in place; the theorems
-- are about every way in which they fail. That `os.Stat` fails is a part of the model, which the theorems on
-- sequences of calls exclude. A run's directory is keyed by its encoded segment and holds one record
-- per file, so a hash collision is a record with another id, as in the code. An instant is a number of
-- nanoseconds. The trail is its complete lines: a torn line is no event. The cached sequence number of
-- the trail is left out, since the code uses it only while the trail is unchanged. The processes that
-- share a directory interleave by whole calls; a guarded statement runs between two calls.
--
-- Not modelled: the JSON of plans, markers and records (a record stands for its text) and the digest;
-- SHA-256, which is a parameter of the child index names and of the segments; the text of messages,
-- reasons and audit details; the rendering of statements, which is a port; the jitter of the back-off;
-- the heartbeat goroutine, of which the fence is a port; the SQL store, the planners, the verifier and
-- the rest of the command line.
mod Base
pub mod Protocol
pub mod Executor
pub mod State
pub mod Bridge
mod Tests
