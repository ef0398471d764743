-- ===== src/DriftRecords/Records.antt =====
-- drift_record_repository.go: the statements that change drift_records, each one step on the list of
-- its rows, with the two unique indexes of the table.
use terraform_state_manager.Prelude.{
  ℕ, suc, ◌+◌, List, [], ◌∷◌, Bool, true, false, Option, none, some, Bytes, codes, if◌then◌else◌,
  ltb, ◌==◌, ◌&&◌, ◌||◌, not, str_eq, select, any, map,
}

pub data Status : Type 0 where
  opened acknowledged resolved : Status

-- Completeness
pub record Completeness : Type 0 where
  pub truncated : Bool
  pub omitted_entries : ℕ
  pub omitted_attrs : ℕ
  pub unparseable : Bool
  pub unmasked : Bool

-- InfraDrift
pub record InfraDrift : Type 0 where
  pub added : ℕ
  pub changed : ℕ
  pub destroyed : ℕ
  pub summary : Option Bytes

-- What a later detection overwrites.
pub record Observation : Type 0 where
  pub origin : Bytes
  pub severity : Bytes
  pub added : ℕ
  pub changed : ℕ
  pub destroyed : ℕ
  pub summary : Bytes
  pub completeness : Completeness
  pub infra : InfraDrift

pub record DriftRecord : Type 0 where
  pub id : Bytes
  pub source_id : Bytes
  pub state_key : Bytes
  pub organization_id : Bytes
  pub pipeline_connection_id : Option Bytes
  pub last_run_id : Option Bytes
  pub observed : Observation
  pub external_ref : Option Bytes
  pub status : Status
  pub acknowledged_by : Bytes
  pub acknowledged_at : Option ℕ
  pub ack_note : Bytes
  pub resolved_at : Option ℕ
  pub detections : ℕ
  pub first_detected_at : ℕ
  pub last_detected_at : ℕ

pub record Detection : Type 0 where
  pub source_id : Bytes
  pub state_key : Bytes
  pub pipeline_connection_id : Option Bytes
  pub run_id : Option Bytes
  pub origin : Bytes
  pub added : ℕ
  pub changed : ℕ
  pub destroyed : ℕ
  pub summary : Bytes
  pub external_ref : Option Bytes
  pub completeness : Completeness
  pub infra : InfraDrift

-- MarkTruncation
unfoldable pub mark_truncation : Completeness → Completeness
mark_truncation c =
    if ltb 0 c.omitted_entries || ltb 0 c.omitted_attrs then record c { truncated = true } else c

-- DriftSeverity
unfoldable pub drift_severity : ℕ → Bytes
drift_severity destroyed = if ltb 0 destroyed then codes "critical" else codes "warning"

abbrev is_empty : Bytes → Bool
is_empty [] = true
is_empty (b ∷ bs) = false

unfoldable pub observation_of : Detection → Observation
unfolding mark_truncation drift_severity
observation_of d = record {
  origin = d.origin;
  severity = drift_severity d.destroyed;
  added = d.added;
  changed = d.changed;
  destroyed = d.destroyed;
  summary = if is_empty d.summary then codes "[]" else d.summary;
  completeness = mark_truncation d.completeness;
  infra = d.infra;
}

-- COALESCE
unfoldable pub coalesce : Option Bytes → Option Bytes → Option Bytes
coalesce none old = old
coalesce (some new) old = some new

unfoldable pub is_resolved : Status → Bool
is_resolved resolved = true
is_resolved s = false

unfoldable pub is_open : Status → Bool
is_open opened = true
is_open s = false

-- `(source_id, state_key) WHERE status <> 'resolved'`
unfoldable pub is_live_at : Bytes → Bytes → DriftRecord → Bool
unfolding is_resolved
is_live_at s k r = not (is_resolved r.status) && (str_eq r.source_id s && str_eq r.state_key k)

abbrev pub is_ref : Bytes → Option Bytes → Bool
is_ref ref none = false
is_ref ref (some x) = str_eq x ref

-- GetByExternalRef
unfoldable pub has_ref : Bytes → Bytes → DriftRecord → Bool
has_ref s ref r = str_eq r.source_id s && is_ref ref r.external_ref

unfoldable pub find_record : (DriftRecord → Bool) → List DriftRecord → Option DriftRecord
find_record p [] = none
find_record p (r ∷ rs) = let rest = find_record p rs in if p r then some r else rest

-- `DO UPDATE SET`
unfoldable pub redetected : ℕ → Detection → DriftRecord → DriftRecord
unfolding coalesce observation_of
redetected now d r = record r {
  pipeline_connection_id = coalesce d.pipeline_connection_id r.pipeline_connection_id;
  last_run_id = coalesce d.run_id r.last_run_id;
  observed = observation_of d;
  external_ref = coalesce d.external_ref r.external_ref;
  detections = suc r.detections;
  last_detected_at = now;
}

unfoldable pub detected : ℕ → Bytes → Bytes → Detection → DriftRecord
unfolding observation_of
detected now id org d = record {
  id = id;
  source_id = d.source_id;
  state_key = d.state_key;
  organization_id = org;
  pipeline_connection_id = d.pipeline_connection_id;
  last_run_id = d.run_id;
  observed = observation_of d;
  external_ref = d.external_ref;
  status = opened;
  acknowledged_by = [];
  acknowledged_at = none;
  ack_note = [];
  resolved_at = none;
  detections = 1;
  first_detected_at = now;
  last_detected_at = now;
}

pub data Answer : Type 0 where
  stored : DriftRecord → Answer
  replayed : DriftRecord → Answer
  not_owned : Answer

-- The statement, past the index on external references.
unfoldable pub upsert :
    ℕ
    → Bytes
    → Bytes
    → Detection
    → Option DriftRecord
    → List DriftRecord
    → List DriftRecord × Answer
unfolding redetected detected is_live_at
upsert now id org d none rows = (detected now id org d ∷ rows, stored (detected now id org d))
upsert now id org d (some live) rows = (
  map (λ r. if is_live_at d.source_id d.state_key r then redetected now d r else r) rows,
  stored (redetected now d live),
)

abbrev pub taken_by : Detection → Option Bytes → List DriftRecord → Option DriftRecord
taken_by d none rows = none
taken_by d (some ref) rows =
    find_record (λ r. has_ref d.source_id ref r && not (is_live_at d.source_id d.state_key r)) rows

unfoldable pub unless_taken :
    ℕ
    → Bytes
    → Bytes
    → Detection
    → Option DriftRecord
    → List DriftRecord
    → List DriftRecord × Answer
unfolding upsert find_record is_live_at
unless_taken now id org d (some other) rows = (rows, replayed other)
unless_taken now id org d none rows =
    upsert now id org d (find_record (is_live_at d.source_id d.state_key) rows) rows

-- UpsertDetection, for the organization of the source; `id` is the one that a new row gets.
unfoldable pub upsert_detection :
    ℕ → Bytes → Option Bytes → Detection → List DriftRecord → List DriftRecord × Answer
unfolding unless_taken find_record has_ref is_live_at
upsert_detection now id none d rows = (rows, not_owned)
upsert_detection now id (some org) d rows =
    unless_taken now id org d (taken_by d d.external_ref rows) rows

abbrev pub closed : ℕ → DriftRecord → DriftRecord
closed now r = record r { status = resolved; resolved_at = some now }

-- ResolveClean
unfoldable pub resolve_clean : ℕ → Bytes → Bytes → List DriftRecord → List DriftRecord × Bool
unfolding is_live_at
resolve_clean now s k rows =
    (map (λ r. if is_live_at s k r then closed now r else r) rows, any (is_live_at s k) rows)

abbrev pub noted : ℕ → Bytes → Bytes → DriftRecord → DriftRecord
noted now actor note r = record r {
  status = acknowledged;
  acknowledged_by = actor;
  acknowledged_at = some now;
  ack_note = note;
}

-- Acknowledge
unfoldable pub acknowledge : ℕ → Bytes → Bytes → Bytes → List DriftRecord → List DriftRecord
unfolding is_open
acknowledge now id actor note rows =
    map (λ r. if str_eq r.id id && is_open r.status then noted now actor note r else r) rows

-- Resolve
unfoldable pub resolve : ℕ → Bytes → List DriftRecord → List DriftRecord
unfolding is_resolved
resolve now id rows =
    map (λ r. if str_eq r.id id && not (is_resolved r.status) then closed now r else r) rows

abbrev pub is_older : ℕ → ℕ → Option ℕ → Bool
is_older max_age now none = false
is_older max_age now (some t) = ltb (t + max_age) now

-- PruneResolved, which refuses an age of zero.
unfoldable pub prune_resolved : ℕ → ℕ → List DriftRecord → Option (List DriftRecord)
unfolding is_resolved
prune_resolved max_age now rows =
    if max_age == 0
    then none
    else some (select (λ r. not (is_resolved r.status && is_older max_age now r.resolved_at)) rows)
