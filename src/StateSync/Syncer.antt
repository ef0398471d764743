-- ===== src/StateSync/Syncer.antt =====
-- syncer.go: syncOne and syncSource, on the rows of one source. The reads of a pass run in parallel,
-- but each writes the row of its own key only: here they are in the order of the listing.
use terraform_state_manager.Prelude.{
  ℕ, List, [], ◌∷◌, Bool, true, false, Option, none, some, Bytes, if◌then◌else◌, ◌||◌, not, str_eq,
  select, length, map, member, Map, lookup, insert, Result, ok, err,
}
use terraform_state_manager.Analyzer.Labels.{is_blank}
use terraform_state_manager.Analyzer.Legacy.{State}
use terraform_state_manager.Analyzer.Analyze.{Analysis, Err, analyze}
use terraform_state_manager.StateSync.Marker.{StateRef, analysis_marker, Row, analysis_row}

-- The two passes over the states to read.
pub data Pass : Type 0 where
  first retry : Pass

-- What the surroundings give to one cycle of a source: the listing (`none` is a failure), and what
-- meets each read. A read that reports no state is a failure too.
pub record Cycle : Type 0 where
  pub connects : Bool
  pub listing : Option (List StateRef)
  pub markers_fail : Bool
  pub expired : Pass → Bytes → Bool
  pub read : Pass → Bytes → Option Bytes
  pub upsert_fails : Pass → Bytes → Bool
  pub prune_fails : Bool
  pub state_of : Bytes → Option State

pub data Trouble : Type 0 where
  connect_failed list_failed markers_failed : Trouble
  state_failed : Bytes → Trouble

-- SourceSyncStatus, its last error by what failed.
pub record SyncStatus : Type 0 where
  pub states_listed : ℕ
  pub read_errors : ℕ
  pub last_error : Option Trouble

abbrev analyzed : StateRef → ℕ → Result Err Analysis → Option Row
analyzed ref size (err e) = none
analyzed ref size (ok a) = some (analysis_row ref a size)

abbrev read_row : Cycle → StateRef → Option Bytes → Option Row
read_row c ref none = none
read_row c ref (some d) = analyzed ref (length d) (analyze (c.state_of d))

-- The row that syncOne writes; `none` is an error.
unfoldable pub sync_one : Cycle → Pass → StateRef → Option Row
unfolding analyze analysis_row
sync_one c p ref = if c.upsert_fails p ref.key then none else read_row c ref (c.read p ref.key)

-- A state's turn in a pass: past the deadline it fails unread.
unfoldable pub attempt : Cycle → Pass → StateRef → Option Row
unfolding sync_one
attempt c p ref = if c.expired p ref.key then none else sync_one c p ref

unfoldable pub upsert : Option Row → Bytes → Map Row → Map Row
unfolding insert
upsert none key rows = rows
upsert (some row) key rows = insert key row rows

unfoldable pub is_failure : Option Row → Bool
is_failure none = true
is_failure (some row) = false

-- One pass: the rows, and the states that failed.
unfoldable pub run_pass : Cycle → Pass → List StateRef → Map Row → Map Row × List StateRef
unfolding attempt upsert is_failure
run_pass c p [] rows = (rows, [])
run_pass c p (ref ∷ refs) rows =
    let outcome = attempt c p ref in
    let (next, failed) = run_pass c p refs (upsert outcome ref.key rows) in
    (next, if is_failure outcome then ref ∷ failed else failed)

abbrev marker_of : Option Row → Bytes
marker_of none = []
marker_of (some row) = row.version_marker

-- Whether a listed state is to be read.
unfoldable pub is_changed : Map Row → StateRef → Bool
unfolding analysis_marker lookup
is_changed rows ref =
    is_blank (analysis_marker ref)
    || not (str_eq (marker_of (lookup ref.key rows)) (analysis_marker ref))

-- The first of the states that failed again for a reason other than the deadline.
unfoldable pub first_error : Cycle → List StateRef → Option Trouble
first_error c [] = none
first_error c (ref ∷ refs) =
    let rest = first_error c refs in
    if c.expired retry ref.key then rest else some (state_failed ref.key)

-- DeleteMissing
unfoldable pub delete_missing : List Bytes → Map Row → Map Row
unfolding member
delete_missing keep [] = []
delete_missing keep ((k, row) ∷ rows) =
    let rest = delete_missing keep rows in if member k keep then (k, row) ∷ rest else rest

abbrev pub ref_keys : List StateRef → List Bytes
ref_keys refs = map (λ ref. ref.key) refs

unfoldable pub sync_listed : Cycle → List StateRef → Map Row → Map Row × SyncStatus
unfolding is_changed run_pass first_error delete_missing
sync_listed c refs rows =
    let (once, failed) = run_pass c first (select (is_changed rows) refs) rows in
    let (twice, lost) = run_pass c retry failed once in
    let status : SyncStatus = record {
      states_listed = length refs;
      read_errors = length lost;
      last_error = first_error c lost;
    } in
    (if c.prune_fails then twice else delete_missing (ref_keys refs) twice, status)

abbrev stopped : ℕ → Trouble → SyncStatus
stopped listed why = record { states_listed = listed; read_errors = 0; last_error = some why }

unfoldable pub sync_found : Cycle → Option (List StateRef) → Map Row → Map Row × SyncStatus
unfolding sync_listed
sync_found c none rows = (rows, stopped 0 list_failed)
sync_found c (some refs) rows =
    let run = sync_listed c refs rows in
    if c.markers_fail then (rows, stopped (length refs) markers_failed) else run

-- syncSource
unfoldable pub sync_source : Cycle → Map Row → Map Row × SyncStatus
unfolding sync_found
sync_source c rows =
    let run = sync_found c c.listing rows in
    if c.connects then run else (rows, stopped 0 connect_failed)
