-- ===== src/Lib.antt =====
-- Boxwarden keeps disposable workstations (sessions, each a Tart virtual machine) apart from the
-- volumes that outlive them (workspaces). What it knows is durable: one directory of JSON records
-- for sessions, one for workspaces, one for the journals of unfinished rebuilds, all below the
-- state root of a domain. Every operation reads records strictly, checks them, asks the backend
-- what it sees, and replaces one record file atomically. This library models those records, their
-- stores and the transitions between them, and proves what the operations promise.
--
-- Parts, files and code:
--
-- Prelude, Prelude/Tests, Prelude/Strings, Prelude/Results: shared names. Go strings are lists of
-- bytes (Bytes); an error is `err`, without its text (Outcome).
--
-- Ident with Ident/Names, Ident/Hex, Ident/ObjectId: domain names (internal/domain/id.go),
-- session names, UUIDs, backend object identities, digests and mount paths
-- (internal/session/name.go, id.go, record.go, create.go; internal/workspacex/record.go repeats
-- some of the tests word for word, and one copy stands for both).
--
-- Json: documents as encoding/json hands them to the decoders, and the walk over the members of
-- an object that refuses a name twice (objectField of internal/session/record.go, decodeObject of
-- internal/workspacex/record.go). The syntax of JSON is the library's and not modelled.
--
-- World with World/Files, World/Runs: the three directories and the fates of the coming writes. A
-- write of a whole file may be refused, or may be visible and yet reported as failed, since the
-- sync behind the rename failed; a file that is created in place may also be torn. An operation
-- is a function from a world to its outcome and the world it leaves, also when it fails. Every
-- list of fates is allowed.
--
-- Session/Types, Session/Decode (with Valid, Sound, Marshal, RoundTrip): the session record and
-- its strict reader (internal/session/record.go). Session/Store (with Saved, Atomic): LoadRecord,
-- SaveRecord with the upgrade of version 1, and RemoveDeletingRecordLocked
-- (internal/session/record.go, store.go, delete_store.go).
--
-- Session/Rebuild (Journal, Marshal, Registry, Load, Advance, Create, Reserved): the journal of a
-- rebuild and its registry (internal/session/rebuild_journal.go) with the test of reserved
-- backend objects over both registries (internal/session/store.go). Lands: what loads behind an
-- advance. Retry: repeated attempts at one. Driver (with Prepare, Execute, Ordered, Retired,
-- Complete, Frozen): the driver of a rebuild (internal/session/rebuild.go), from the
-- reservation of a candidate to the retirement of the old system.
--
-- Session/Outside, Session/Stop (with Finished, Stopped), Session/Delete (with Reserved,
-- Deleted): Stop and Delete over what they take from outside (internal/session/stop.go,
-- delete.go).
--
-- Session/Supervised, Session/Start (with Accepted, Sound): startSession over the supervisor of a
-- generation (internal/session/start.go, internal/supervisor/request.go). Session/Create (with
-- Created, Fresh, Existing): create and its entry points (internal/session/create.go).
--
-- Workspace/Types, Workspace/Decode, Workspace/Valid: the volume record, its reader and its
-- validation (internal/workspacex/record.go). Workspace/Bindings (with Load, Changes, Evolve,
-- History, Step): loading, and the write that checks the whole registry and the kind of mutation
-- first (internal/workspacex/store.go). Workspace/Attached (with Selected): the volumes of one
-- session (internal/workspacex/registry.go). Workspace/Transition (with Stopped, Granted,
-- Released): Attach, Detach, ReserveUse and ReleaseUseAfterObservedStop
-- (internal/workspacex/transition.go). Bindings/Overlap: the mounts of a session.
--
-- Workspace/Batch: the operations over all volumes of one session. Release with Released
-- (internal/workspacex/release_uses.go), Gate with Gated (rebuild_gate.go, delete.go), Finalize
-- with Finalized (delete.go), Start with Ordered, Started, Verified (prepare_start.go), Promote
-- with Promoted (promotion.go); Loops and Checked carry their proofs. What happens under the
-- locks is an operation of its own, `..._locked`; the whole operation takes the locks first.
--
-- Runtime with Runtime/Deletion: how deletion gets its gate and its finalizer
-- (internal/sessionruntime/delete.go), and a whole deletion.
--
-- Backend: observations (internal/backend/observation.go) and Reconcile
-- (internal/lifecycle/reconcile.go). Services: what the transitions take from outside. Tests:
-- runs on concrete inputs, and the theorems at inputs that meet their hypotheses.
--
-- Interaction: the transitions of volumes read session records and rebuild journals, and write
-- volume records; the batches check a session and its volumes again behind their locks; the
-- creation of a rebuild journal reads both session registries, and an existing journal blocks
-- the transitions of its session through RequireNoRebuild.
--
-- Bounds and fuel: no function runs on fuel; every loop walks a list. A JSON number is read below
-- 2^63 or 2^64 as its Go type has it, and negative numbers, which no field takes, are not numbers
-- of the model.
--
-- Parameters: the observer and the deleter of the backend, the locks, the supervisor, the
-- admission of a formatted disk (internal/workspaceformat), the registry of bases
-- (internal/golden), recipe intents, the clock and the source of random bytes, for stop and
-- deletion also the release of uses, the gate and the finalizer (the last two are put in their
-- places by Runtime), the loading of export journals (internal/workspacex/export_journal.go
-- gives only the fields that the rules of a write read), and `coerce`, what encoding/json
-- makes of a text that is not UTF-8. A service may change the world, since others act
-- meanwhile; under the locks only the observer runs between the steps of a transition.
--
-- Not modelled: modes, owners and replacement of files (securefs.go), the bounds on the bytes
-- of a file, the texts of errors and diagnostics, the witness of the host-key pin, which needs
-- SHA-256, and the parts outside: exports and imports, the golden registry, the supervisor, the
-- Tart backend, the command line.
pub mod Prelude
pub mod Ident
pub mod Json
pub mod World
pub mod Session
pub mod Backend
pub mod Services
pub mod Workspace
pub mod Runtime
mod Tests
