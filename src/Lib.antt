-- ===== src/Lib.antt =====
-- Terraform State Manager backend: the edits, the analysis and the drift checks of Terraform
-- states, and the claims and sweeps that guard them.
--
-- The program is a service in Go under backend/. It keeps Terraform states in remote stores, edits
-- and analyses them, and starts drift checks in CI jobs whose plans it ingests. This library
-- models the parts with logic of their own. Each part is a folder with its definitions, its
-- theorems and its tests.
--
-- Parts and files:
--   StateOps     backend/internal/stateops/stateops.go. Address holds parseAddress and parseIndexKey,
--                Block the helpers on one resource block, Edit RemoveResource, MoveResource and
--                moveInstance. A state is a JSON value; a block is a Go map, which may be nil, and a
--                write to a nil map is an error of the model. Saved, Removal, Renaming, RoundTrip,
--                Popping, Conservation and AddressText are theorems.
--   DriftIngest  backend/internal/services/driftingest/plan.go. Canon holds canon, fmtVal and truncate,
--                Attrs changedAttrs and isSens, Summary processChanges and Summarize, Modules
--                ParseModuleLocks and ModuleRefs. Rows, Counts, Marks, Masking and Truncation are
--                theorems.
--   CredLifecycle backend/internal/credlifecycle/sweeper.go. Sweeper holds the operations, each with its
--                outcome and the writes that it asks for. Sweep and Unknown are theorems.
--   Analyzer     backend/internal/analyzer/analyzer.go, resources.go and outputs.go. Labels, Legacy,
--                Analyze and Listing hold the functions, Sums, Totals, Ranking and Redaction theorems.
--   StateSource  backend/internal/statesource/roots.go. Roots holds the checks, Containment theorems.
--   DriftRuns    ConsumeCallbackToken and ExpireDispatched of
--                backend/internal/db/repositories/drift_repository.go, and reconcileOnce of
--                backend/internal/services/driftreconcile/reconciler.go. Claims are theorems.
--   DriftRecords backend/internal/db/repositories/drift_record_repository.go. Records holds the statements
--                that change the table, Lifecycle a sequence of them. Lifecycle and Finality hold theorems.
--   Election     backend/internal/services/leaderelect/elector.go as a state machine. Bracketing holds
--                theorems.
--   Scheduler    backend/internal/services/scheduler/scheduler.go, with ClaimDue and RecordOutcome of
--                backend/internal/db/repositories/schedule_repository.go and SystemActingIn of
--                backend/internal/tenancy/systemscope.go. Runner holds fire and checkDue, Firing theorems.
--   Locks        backend/internal/db/repositories/lock_repository.go. Table holds the statements on the
--                rows, Requests a sequence of requests. Exclusion holds theorems.
--   Edits        backend/internal/api/edit.go and
--                backend/internal/db/repositories/state_edit_repository.go. Store is the interface of the
--                connectors (backend/internal/statesource/statesource.go) with its laws, World the state
--                that the handlers share, Guarded EditState, Operate StateOperation and deleteState,
--                Restore RestoreBackup, Diff diffResources, DiffBackup and EditDiff, Retention PruneBackups
--                with its theorem, Memory and Keyless backends that meet the laws. Recovery, Recovered,
--                Surgery, History, Outcome, Undo, Previews and Reflected are theorems.
--   Transfers    backend/internal/api/transfer.go. Pair holds acquireTransferLocks and the checks of the
--                end points, Transfer doTransfer. Locking, Ordering, Preserved and Moved are theorems.
--   StateSync    backend/internal/services/statesync/syncer.go, with the rows of
--                backend/internal/db/repositories/state_analysis_repository.go. Marker holds the markers,
--                Syncer syncSource, Fleet SyncAll, SyncSources, SyncKey and DropKey. Passes and
--                Freshness are theorems.
--   Pipelines    backend/internal/pipelines/retry.go. Retry holds doWithRetry, Bounded theorems.
--   Json         encoding/json on JSON values, with the decoding that the parts above share.
--   Prelude      tests, lists, byte strings, results, maps and integers.
--
-- How they interact: the handlers of Edits take a lock of Locks, check with Analyzer what they
-- read and write, change a state with StateOps and keep a backup; Transfers does so on two
-- locations with the same locks and backups. StateSync stores what Analyzer says of the states it
-- lists. A due schedule of Scheduler dispatches a drift check, whose run is claimed in DriftRuns
-- before its plan is ingested by DriftIngest; what it found is kept as a record of DriftRecords.
-- The workers that fire schedules and sweep overdue runs are those that Election starts on one
-- replica. A change of roles ends in a sweep of CredLifecycle.
--
-- Conventions: a Go string is a list of bytes. A map is an association list, in which a read finds
-- the first entry of a key; where Go ranges over a map and the order is visible, the model sorts
-- as the code does, or takes the order as given (ModuleRefs). int and int64 are integers with the
-- wrap-around of 64 bits where the code adds, and lengths and counts are natural numbers. An error
-- is a value of Result or none. All loops are structural recursion, so no fuel is used but in the
-- printing of decimals, where the number itself is enough.
--
-- Parameters: the comparison of a float64 with an int (StateOps), the text of a float64 and the
-- canonical form of a host (DriftIngest), the repositories, the carrier and the scope checker of
-- the identity module (CredLifecycle), the decoding of index_key (Analyzer), fmt.Sprint on a list
-- of keys (Edits), path/filepath (StateSource), what other processes do to the table (DriftRuns),
-- and the cron library, the dispatcher and the in-flight count (Scheduler), the connectors, the
-- decoding and the printing of a state and the source that a request resolves to (Edits,
-- Transfers), and the listing, the reads and the failing statements of a cycle (StateSync), and
-- the HTTP client (Pipelines). What fails, and the ids and times that the database gives, are
-- arguments of each request.
--
-- Not modelled: the other HTTP handlers, the SQL of the other repositories, the clients of stores
-- and CI services, the role reconciliation, the audit log, logging, metrics and the columns of
-- time stamps that nothing here reads. What a write or a delete does to a connector's objects is a
-- law of Store: several locations may name one object, and only that object changes. JSON is
-- modelled from the parsed value on, so that malformed text, duplicate spaces and the folding of
-- struct member names to lower case are outside. A number out of the range of a float64 makes a
-- sensitivity mirror mark nothing, as in the code, but the fallback of canon and fmtVal to the raw
-- text of such a value is outside. Bytes that are not UTF-8 are not replaced when text is written.
-- A handler of Edits or Transfers runs as one step: what another editor does between its reads and
-- writes, which the locks are to prevent, is the subject of Locks only. The reads of StateSync run
-- in parallel in the program and one after the other here; each writes the row of its own key.
pub mod Prelude
pub mod Json
pub mod StateOps
pub mod DriftIngest
pub mod CredLifecycle
pub mod Analyzer
pub mod StateSource
pub mod DriftRuns
pub mod Election
pub mod Scheduler
pub mod Locks
pub mod Edits
pub mod Transfers
pub mod StateSync
pub mod Pipelines
pub mod DriftRecords
