-- ===== src/Lib.antt =====
-- canal: a connector and data-movement tool. A source's records are admitted to the ledger, pass
-- through the engine to the sinks, and settle; the ledger resolves the positions behind which
-- everything has settled, the engine makes these durable in a store, and only then is the source
-- told that it may advance.
--
-- Tracker (internal/ledger/tracker.go) is the ordered list of admissions of one lane. Node, Tracker
-- and Ticket are the source's types; `list` is the linked list from head to tail, and a ticket is
-- the identity of a node. try_track, track, track_resolved, release, abandon and close are the
-- methods of those names; discharge and advance_locked are what they share. Track may block: it is
-- given the wakes that it meets as a list. Tracker/Spec has the caller's log of admissions;
-- Tracker/Walk, Tracker/Discharge and Tracker/Refinement relate the two, Tracker/Counters and
-- Tracker/Accounts have the counters and Tracker/Wakeups the blocked callers.
--
-- Ledger (internal/ledger/ledger.go and disposition.go) is the settlement graph. Its types stand in
-- Ledger; Ledger/Registration has Lane and SetEpoch, Ledger/Admission has Admit, Expand and
-- Register, Ledger/Settlement has Settle and emitDiscrete, and Ledger/Commit has Flushable,
-- Committed, FinishLane, RequestRetire, Retirable, Revoke, Stats and Close. Ledger/Trace makes
-- every locked section one step, so that a run is any interleaving of calls. Ledger/Acks is an
-- interface of invariants on what a lane has been told; Ledger/Sweep, Ledger/Quiet, Ledger/Admits
-- and Ledger/Keeps show that each step keeps such an invariant, and Ledger/Delivery,
-- Ledger/Revocation, Ledger/Reclaim and Ledger/Flush give the instances. Ledger/Groups,
-- Ledger/Opening, Ledger/Counting and Ledger/Pending relate a lane's count to its open groups, and
-- Ledger/Endings says when a lane is over.
--
-- Store (pkg/store/key.go) has the batches of a state store and the checks of Set, which its two
-- implementations share; Store/Key has the keys, the strings they are written as and Prefix. The
-- stores only compare keys, by those strings, so in them a number stands for a key. Store/Memory is
-- internal/example/memstore/store.go. Store/Wal is pkg/store/wal/wal.go: an index of three maps,
-- and a log of frames that replay applies; what the machine does to an append, and to the
-- compaction behind it, is an argument. How long the payload of an entry is depends on the strings
-- of its keys, and is a function that the store is opened with: a frame above 64 MiB is torn to the
-- next process that reads it.
-- Store/Wal/Maps, Rows, Compaction and Durable show what replay rebuilds, Store/Agreement,
-- Store/Calls and Store/Equivalence compare the two stores call by call, and Store/Rising and
-- Store/Fencing have the epochs that shut a stale writer out.
--
-- Store/Wal/Format and Store/Wal/Bytes (pkg/store/wal/format.go, and replay in wal.go) have the
-- same log as bytes, with structured keys: payload, decode, encode, readFrame and replay over a
-- file. CRC-32 and the number that stands for a key are parameters. Store/Wal/Reading and RoundTrip
-- relate payload and decode, Framing has single frames, Torn a log that is cut, and Recovery ties
-- replay over bytes to replay over the frames of Store/Wal.
--
-- Fault (pkg/fault/class.go, fault.go) has the classes of faults and the chains of errors,
-- Fault/Policy (pkg/fault/retry.go) the retry policy with Validate and Next, for which floating
-- point is a record of operations and laws and the random draw a function; Fault/Delays is about
-- Next. Retry (internal/engine/retry.go) is route; Retry/Waits has its delays, Retry/Endings and
-- Retry/Budget one record in the retry loop of internal/engine/write.go; Fault/Whole has whole
-- numbers for the tests.
--
-- Write (internal/engine/write.go and durability.go) is writeSet with everything it calls, for one
-- sink: a round has what the sink and the encoder answer as functions, and Tally is what became of
-- the records. writeSet itself is in Write/Loop; it runs over a list of rounds, and is waiting
-- where the list ends. Write/Requests and Write/Conservation are about one round, Write/Routed and
-- Write/Drops about the records that fail in it, Write/Failures where their errors come
-- from, Write/Letters about deadLetter, Write/Delivery,
-- Write/Evidence and Write/Outcome about the whole. Write/Flush is the queue of the records that a sink has yet to make durable,
-- Write/Keeping is about it.
--
-- Negotiate (internal/engine/negotiate.go) computes what a pipeline may promise:
-- Negotiate/Contracts the tiers, Negotiate/Refusals the table of refusals, Negotiate/Waivers the
-- operator's waivers, Negotiate/Outcome negotiate as a whole. Negotiate/Acceptance,
-- Negotiate/Sources and Negotiate/Negotiation are about what it accepts, Negotiate/Tiers,
-- Negotiate/Folding and Negotiate/Weakest about the tiers, Negotiate/Lifting about waivers. Its Spec holds the answer of
-- the policy's Validate (Fault/Policy) as a field.
--
-- Graph (internal/engine/graph.go) is validateGraph, over the nodes of Negotiate: the two searches,
-- checkAcyclic with its three colours (Graph/Colours, Graph/Cycles, Graph/Search, Graph/Acyclicity)
-- and checkReachable (Graph/Walks, Graph/Reachability), and the rest in Graph/Validation;
-- Graph/Silence and Graph/Soundness are about graphs that are accepted. The fuel of a search is one
-- more than the number of names in the graph, which is enough since a visit runs within visits of
-- different nodes.
--
-- Coordinator (internal/example/memstore/coordinator.go) has the leases: Claim, Renew and Release
-- of a row of the plan, with the clock as an argument. Coordinator/Holding, Coordinator/Exclusion
-- and Coordinator/Supersession show who may hold a row, and for how long.
--
-- Numbers. Counters of type uint64 and uint32 wrap, and the wrap is written out (Prelude/Words).
-- Ids and node names are only compared, so a number stands for each. Loops are recursion on lists,
-- but for the searches of Graph and for replay over bytes, whose fuel is one more than the bytes: a
-- frame takes eight at least. Maps are association lists (Prelude/Assoc); a loop over a map takes
-- the order of the list.
--
-- Not modelled: clocks, metrics, the wording of errors and diagnostics, the stuck-lane reaper,
-- Drain and Open of the ledger; the run loop of the engine, the conditions and the commit protocol,
-- the connectors, the codecs, the plan and the membership of the coordinator, the other stores.
pub mod Prelude
pub mod Tracker
pub mod Ledger
pub mod Store
pub mod Coordinator
pub mod Fault
pub mod Retry
pub mod Negotiate
pub mod Write
pub mod Graph
