-- ===== src/StateSync/Fleet.antt =====
-- syncer.go: SyncAll, SyncSources and syncMany over the sources, SyncKey and DropKey. Each source has
-- its own rows, so the order of the sources, which run in parallel, does not matter.
use terraform_state_manager.Prelude.{
  List, [], ◌∷◌, Bool, true, Option, none, some, Bytes, if◌then◌else◌, str_eq, select, member, Map,
  lookup, insert, remove,
}
use terraform_state_manager.Prelude.Int.{pos}
use terraform_state_manager.StateSync.Marker.{StateRef, Row}
use terraform_state_manager.StateSync.Syncer.{
  first, Cycle, SyncStatus, sync_one, upsert, sync_source,
}

-- The rows and the status of each source.
pub record Store : Type 0 where
  pub rows : Map (Map Row)
  pub statuses : Map SyncStatus

pub data Answer : Type 0 where
  in_progress no_sources cancelled finished : Answer

unfoldable pub rows_of : Option (Map Row) → Map Row
rows_of none = []
rows_of (some rows) = rows

-- What the surroundings give to a cycle over the sources.
pub record Round : Type 0 where
  pub busy : Bool
  pub sources : Option (List Bytes)
  pub cycle_of : Bytes → Cycle
  pub is_cancelled : Bytes → Bool
  pub ends_cancelled : Bool
  pub status_fails : Bytes → Bool

unfoldable pub sync_into : Round → Bytes → Store → Store
unfolding sync_source rows_of
sync_into r id store =
    let (next, status) = sync_source (r.cycle_of id) (rows_of (lookup id store.rows)) in
    record {
      rows = insert id next store.rows;
      statuses = if r.status_fails id then store.statuses else insert id status store.statuses;
    }

-- syncMany: a cancelled context ends it before the next source.
unfoldable pub sync_many : Round → List Bytes → Store → Store
unfolding sync_into
sync_many r [] store = store
sync_many r (id ∷ ids) store =
    let rest = sync_many r ids (sync_into r id store) in if r.is_cancelled id then store else rest

unfoldable pub answer_of : Round → Answer
answer_of r = if r.ends_cancelled then cancelled else finished

unfoldable pub sync_listing : Round → (Bytes → Bool) → Option (List Bytes) → Store → Store × Answer
unfolding sync_many answer_of
sync_listing r wanted none store = (store, no_sources)
sync_listing r wanted (some ids) store = (sync_many r (select wanted ids) store, answer_of r)

-- SyncAll
unfoldable pub sync_all : Round → Store → Store × Answer
unfolding sync_listing
sync_all r store =
    let run = sync_listing r (λ id. true) r.sources store in
    if r.busy then (store, in_progress) else run

-- SyncSources
unfoldable pub sync_sources : Round → List Bytes → Store → Store × Answer
unfolding sync_listing member
sync_sources r [] store = (store, finished)
sync_sources r (id ∷ ids) store =
    let run = sync_listing r (λ x. member x (id ∷ ids)) r.sources store in
    if r.busy then (store, in_progress) else run

-- The reference of a key in a fresh listing, or one without a marker.
unfoldable pub ref_in : Bytes → List StateRef → StateRef
ref_in key [] = record { key = key; size = pos 0; last_modified = none; version = [] }
ref_in key (ref ∷ refs) = let rest = ref_in key refs in if str_eq ref.key key then ref else rest

abbrev listed : Option (List StateRef) → List StateRef
listed none = []
listed (some refs) = refs

-- SyncKey
unfoldable pub sync_key : Cycle → Bytes → Map Row → Map Row
unfolding ref_in sync_one upsert
sync_key c key rows =
    let ref = ref_in key (listed c.listing) in
    if c.connects then upsert (sync_one c first ref) ref.key rows else rows

-- DropKey
unfoldable pub drop_key : Bool → Bytes → Map Row → Map Row
unfolding remove
drop_key fails key rows = if fails then rows else remove key rows
