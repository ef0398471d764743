-- ===== src/Edits/World.antt =====
-- state_edit_repository.go, and of edit.go acquireLock and recordEdit: the state that the handlers
-- share, and what they do to it.
use terraform_state_manager.Prelude.{
  ℕ, List, [], ◌∷◌, Bool, Option, none, some, Bytes, if◌then◌else◌, ◌&&◌, not, str_eq, select,
  Result, ok, err,
}
use terraform_state_manager.Prelude.Int.{ℤ}
use terraform_state_manager.Locks.Table.{Lock, Held, acquire, release}
use terraform_state_manager.Edits.Store.{Store}

-- A row of state_backups.
pub record Backup : Type 0 where
  pub id : Bytes
  pub source_id : Bytes
  pub state_key : Bytes
  pub bytes : Bytes
  pub serial : Option ℤ
  pub created_by : Bytes
  pub created_at : ℕ

-- A row of state_edits.
pub record Edit : Type 0 where
  pub source_id : Bytes
  pub state_key : Bytes
  pub operation : Bytes
  pub actor : Bytes
  pub backup_id : Option Bytes
  pub before_serial : Option ℤ
  pub after_serial : Option ℤ
  pub outcome : Bytes
  pub detail : Bytes

-- The backends and the three tables; the newest row stands first.
pub record World (B : Type 0) : Type 0 where
  pub backend : B
  pub backups : List Backup
  pub edits : List Edit
  pub locks : List Lock

-- What the surroundings give to one request: its time and caller, the ids that the database gives
-- to new rows, which of its statements fail (one that fails has changed nothing), and the text of
-- the error that a connector reports.
pub record Call : Type 0 where
  pub now : ℕ
  pub actor : Bytes
  pub is_admin : Bool
  pub lock_id : Bytes
  pub backup_id : Bytes
  pub load_fails : Bool
  pub lock_fails : Bool
  pub backup_fails : Bool
  pub purge_fails : Bool
  pub record_fails : Bool
  pub release_fails : Bool
  pub error_text : Bytes

-- GetBackup
unfoldable pub get_backup : Bytes → List Backup → Option Backup
get_backup id [] = none
get_backup id (b ∷ bs) = let rest = get_backup id bs in if str_eq b.id id then some b else rest

unfoldable pub is_at : Bytes → Bytes → Backup → Bool
is_at source_id key b = str_eq b.source_id source_id && str_eq b.state_key key

-- DeleteBackups
unfoldable pub delete_backups : Bytes → Bytes → List Backup → List Backup
unfolding is_at
delete_backups source_id key backups = select (λ b. not (is_at source_id key b)) backups

-- What acquireLock hands to release: a native lock, or a row.
pub data Release : Type 0 where
  native row : Bytes → Release

module _ {B : Type 0} where
  -- CreateBackup, when the insert succeeds.
  unfoldable pub create_backup : Call → Bytes → Bytes → Bytes → Option ℤ → World B → World B
  create_backup call s k bytes serial w = record w {
    backups =
        record {
          id = call.backup_id;
          source_id = s;
          state_key = k;
          bytes = bytes;
          serial = serial;
          created_by = call.actor;
          created_at = call.now;
        }
        ∷ w.backups;
  }

  -- recordEdit: a failure is only logged.
  unfoldable pub record_edit : Call → Edit → World B → World B
  record_edit call e w = if call.record_fails then w else record w { edits = e ∷ w.edits }

  unfoldable pub native_lock : Option Bytes → World B → Option Release × World B
  native_lock none w = (none, w)
  native_lock (some id) w = (some (native id), w)

  unfoldable pub row_lock : Call → Result Held (List Lock) → World B → Option Release × World B
  row_lock call (err held) w = (none, w)
  row_lock call (ok locks) w = (some (row call.lock_id), record w { locks = locks })

  -- acquireLock: `none` is the answer 409.
  unfoldable pub acquire_lock : Store B → Call → Bytes → Bytes → World B → Option Release × World B
  unfolding native_lock row_lock acquire
  acquire_lock store call s k w =
      let (id, b) = store.lock s k w.backend in
      let by_row = row_lock call (acquire call.now call.lock_id s k call.actor w.locks) w in
      if store.is_locker s
      then native_lock id (record w { backend = b })
      else if call.lock_fails
      then (none, w)
      else by_row

  -- The release function that acquireLock returns.
  unfoldable pub release_lock : Store B → Call → Bytes → Bytes → Release → World B → World B
  unfolding release
  release_lock store call s k (native id) w = record w { backend = store.unlock s k id w.backend }
  release_lock store call s k (row id) w =
      if call.release_fails then w else record w { locks = release s k id w.locks }
