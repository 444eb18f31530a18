-- ===== src/Lib.antt =====
-- boomerangz takes ZFS snapshots of datasets on a schedule, prunes them by retention grids, and
-- replicates them to other pools and hosts. This library models the parts that decide: which names
-- are valid and where a received dataset goes, what a retention grid says, which snapshots are
-- boomerangz's own and which of them may go, in what order work is served, which work may run at
-- the same time and when an activation has ended, who has authority over a root, which snapshots a
-- replication protects, and what a transfer sends. Each definition is a function that can be
-- evaluated, and each theorem is about these definitions.
--
-- The parts and how they interact. A dataset's policy holds a retention grid. The scheduler
-- submits jobs to the pool, the pool keeps them in a fair queue and its workers take locks on the
-- scopes of the datasets that a job touches. A snapshot job prunes its dataset afterwards: the
-- plan asks of each snapshot whether it is proven to be boomerangz's own, and lays the grid's
-- windows back from the newest one. Replication maps the names of the source to names below a
-- configured root: planning a transfer reads an inventory of both sides, asks for the authority
-- over the source and for the binding of the target, and chooses a snapshot, a mode and a base.
-- Before the stream is sent a reference protects its snapshots with a proof and holds; after it, a
-- checkpoint bookmarks them, which makes them bases of later streams. Work of a root runs under
-- tickets of the activation gate, which withdraws them when the root is disabled. What writes to
-- the pools asks for the root's authority first, and reads again before it writes.
--
-- - Base, with Base/Tests, Base/Lists, Base/Result, Base/Dict and Base/Sorting: what the parts
--   share. A text is the list of its code points, a Go map is an association list, a pair of a
--   value and an error is a Result.
-- - Strings: the functions of package strings that the parts call.
-- - Names: internal/zfs/name.go (validateDataset, validateComponent, validateSnapshot,
--   validateBookmark), MapReceiveDataset of internal/zfs/stream.go, inside of
--   internal/transfer/plan.go, overlaps of internal/discovery/discovery.go and
--   overlappingLockScope of internal/daemon/pool.go.
-- - Grid: internal/policy/grid.go. parse_grid is ParseGrid: parse_parts is its parsing loop,
--   sort_buckets and merge_buckets what follows, canonical the printing loop, cadence the method
--   Cadence. Grid/Merging, Grid/Parsed, Grid/Order, Grid/Decimal, Grid/Units, Grid/Printing and
--   Grid/RoundTrip hold the proofs.
-- - Policy: internal/policy/resolve.go. resolve is Resolve: resolve_values its loops over the
--   parent, the stored properties and the defaults (Policy), setting_errors and the settings
--   (Policy/Settings), receive_keys and raw_receive_errors the receive properties
--   (Policy/Receive), and for_replication_scope is ForReplicationScope (Policy/Resolve).
--   Policy/Nearest, Policy/Settled, Policy/Sound and Policy/Scope hold the proofs.
-- - Scheduler: internal/daemon/scheduler.go and ActiveRoot of internal/lifecycle/authority.go.
--   plan and install are the two parts of Update (Scheduler), complete, retry and next_round are
--   Complete, Retry and a round of Next (Scheduler/Rounds). Scheduler/Selection,
--   Scheduler/Settling and Scheduler/Cadence hold the proofs.
-- - Stamp: the layout nameTimeFormat of internal/lifecycle/ownership.go as package time parses and
--   prints it. A time is the number of nanoseconds since the first instant of the year 1, Go's
--   zero time.
-- - Ownership: internal/lifecycle/ownership.go (Ownership, Metadata.Name, Adopt) and Valid of
--   internal/identity/identity.go.
-- - Prune: internal/lifecycle/prune.go. plan_prune is PlanPrune: collect is its first loop,
--   sort_by candidate_leb the sort, decide the deciding loop, with place for the windows, win for
--   the winners and spare for what overrides them; snapshot_due is SnapshotDue.
-- - Jobs and Queue: internal/daemon/queue.go and the types it uses. offer, pop_step and pop,
--   remove_scope, discard_all, close and snapshot_locked are the methods of FairQueue.
--   Queue/Rotation is the specification: a list of groups, each with its jobs.
-- - Locks: keyLocks of internal/daemon/pool.go. enqueue, attempt and release are the steps of
--   acquireAs and of the function it returns; Locks/Exclusion has the states that callers can
--   reach.
-- - Gate: internal/lifecycle/gate.go. set_enabled, queue, start, finish, status, wait_quiescent
--   and wait_scope_quiescent are the methods of Gate and of Ticket, look_quiescent and look_scope
--   the part of a wait under the mutex, and Reach has the gates that calls and ended contexts lead
--   to. Gate/Valid, Gate/Withdrawn, Gate/Quiescent, Gate/Woken and Gate/Counts hold the proofs.
-- - Lifecycle: what internal/lifecycle/service.go, authority.go, version.go and inspection.go read
--   off an inventory, the State of internal/zfs/executor.go. root_authority is RootAuthority, with
--   root_values for its loop and check_root for what follows; state_version, current_state,
--   stored_lineage, snapshots_in, scope_ready, validate_members, adoption_lineage and find_owned
--   are the functions of these names. Lifecycle/Merge is MergeStates of internal/zfs/state.go,
--   Lifecycle/Backend the interfaces Backend and referenceBackend with runs that record their
--   writes, and Lifecycle/Backend/Runs which of a plan's writes were carried out, from world to
--   world. Lifecycle/Authority and Lifecycle/Members hold the proofs.
-- - Management: internal/lifecycle/service.go, with NewMetadata of ownership.go and New of
--   internal/identity/identity.go. Management has what CreateSnapshot, AdoptDataset and Prune
--   decide by a state that they read, Management/Operations the operations: create_snapshot,
--   adopt_dataset and prune. Management/Expendable and Management/Creation with the modules below
--   them and Management/Adoption hold the proofs; the first applies Prune/Safety.
-- - References: internal/lifecycle/reference.go and ReleaseCompletedHold of inspection.go.
--   References has the reference, its encoding and Sources; References/Service what an operation
--   decides by the state that it read; References/Operations the operations: protect_set,
--   checkpoint_set, release_reference and release_completed_hold are ProtectSet, CheckpointSet,
--   ReleaseReference and ReleaseCompletedHold. References/Read says what proofScope reads and
--   proofUnchanged finds unchanged; it, References/Sources, References/Stored, References/Decided,
--   References/Protect, References/Undone and References/Checkpoint hold the proofs.
-- - Transfer: internal/transfer/plan.go and binding.go. Transfer has the request, its streams and
--   the mapping of their names; Transfer/Binding what a binding is and how it is stored. build is
--   Build, in three parts: settle, up to the loop that chooses the endpoint (Transfer/Plan), the
--   choices of endpoint, mode and base (Transfer/Choice), and the assembly of the plan
--   (Transfer/Build). Transfer/Streams, Transfer/Binding/Kept and the modules below Transfer/Build
--   hold the proofs.
--
-- Shared state. A mutex orders the calls, so each stretch of code under one is one function on the
-- state. Pop and acquireAs wait in a loop: a round of the loop is a step, the waiting between two
-- rounds is any sequence of other steps. Observers and the closures of a job act on a world that
-- is a parameter of the model. The backend of the references and of the snapshots acts on one too:
-- each read and each write may change it or fail, so that whatever others do to the pools in
-- between is covered. The locks of one process by which these operations exclude each other only
-- order whole runs.
--
-- Parameters. The random bytes of an identity come from a function on the world that may fail.
-- SHA-256 is a function from texts to lists of bytes, and the JSON of a reference and of a binding
-- is written and read by a codec; where a theorem needs it, the hash has 32 bytes and the codec
-- decodes what it encodes.
--
-- Fuel and bounds. Pop and the waits on the gate are bounded by the wakings that they are given,
-- one for each round. The digits of a number are taken with the number itself as fuel, which is
-- enough, since every digit divides it by ten. A duration stays within int64, because the parser
-- refuses a longer horizon; a difference of times saturates at the int64 bound, as Sub does. Other
-- integers are counts of things in memory, which cannot overflow.
--
-- Not modelled, because it only moves bytes, runs processes or draws screens: the zfs executor and
-- its streams, the RPC and SSH transports, the control server and client, the pairing and key
-- files, the status interface, the command line. Also not modelled: discovery, the worker pool,
-- reseeding and resuming, cleaning and retirement, configuration and tokens.
pub mod Base
pub mod Strings
pub mod Names
pub mod Grid
pub mod Policy
pub mod Stamp
pub mod Ownership
pub mod Prune
pub mod Scheduler
pub mod Gate
pub mod Lifecycle
pub mod Management
pub mod References
pub mod Transfer
pub mod Jobs
pub mod Queue
pub mod Locks
