-- ===== src/Edits/Restore.antt =====
-- edit.go: RestoreBackup, loadOwnedBackup and GetBackupContent.
use terraform_state_manager.Prelude.{
  ℕ, ◌++◌, Option, none, some, Bytes, codes, if◌then◌else◌, str_eq, Result, ok, err,
}
use terraform_state_manager.Prelude.Int.{ℤ}
use terraform_state_manager.Edits.Store.{Store, Reply, found, missing, broken}
use terraform_state_manager.Edits.World.{
  World, Call, Edit, Backup, get_backup, create_backup, acquire_lock,
}
use terraform_state_manager.Edits.Guarded.{
  Codec, Response, refused, done, serial_of, success, commit, under_lock, analysis,
}

-- loadOwnedBackup on the row found; the error is the status of the answer.
unfoldable pub owned_backup : Option Backup → Result ℕ Bytes → Result ℕ Backup
owned_backup none source = err 404
owned_backup (some b) (err status) = err status
owned_backup (some b) (ok s) = if str_eq b.source_id s then ok b else err 404

module _ {B : Type 0} (store : Store B) (codec : Codec) where
  abbrev restore_row : Call → Bytes → Backup → Option Bytes → Option ℤ → Edit
  restore_row call s backup pre_backup_id before = record {
    source_id = s;
    state_key = backup.state_key;
    operation = codes "restore";
    actor = call.actor;
    backup_id = pre_backup_id;
    before_serial = before;
    after_serial = backup.serial;
    outcome = success;
    detail = codes "restored backup " ++ backup.id;
  }

  unfoldable pub restore_write :
      Call → Bytes → Backup → Option Bytes → Option ℤ → World B → World B × Response
  unfolding commit
  restore_write call s backup pre_backup_id before w =
      commit store call s backup.state_key backup.bytes
        (restore_row call s backup pre_backup_id before) (done none none) w

  unfoldable pub restore_read : Call → Bytes → Backup → Reply → World B → World B × Response
  unfolding serial_of create_backup restore_write
  restore_read call s backup broken w = (w, refused 502)
  restore_read call s backup missing w = restore_write call s backup none none w
  restore_read call s backup (found cur) w =
      let before = serial_of (analysis codec cur) in
      let saved = create_backup call s backup.state_key cur before w in
      if call.backup_fails
      then (w, refused 500)
      else restore_write call s backup (some call.backup_id) before saved

  unfoldable pub restore_locked : Call → Bytes → Backup → World B → World B × Response
  unfolding restore_read
  restore_locked call s backup w =
      let (reply, b) = store.read s backup.state_key w.backend in
      restore_read call s backup reply (record w { backend = b })

  unfoldable pub restore_found :
      Call → Option Backup → Result ℕ Bytes → World B → World B × Response
  unfolding acquire_lock under_lock restore_locked
  restore_found call none source w = (w, refused 404)
  restore_found call (some backup) (err status) w = (w, refused status)
  restore_found call (some backup) (ok s) w =
      let run =
        under_lock store call s backup.state_key (restore_locked call s backup)
          (acquire_lock store call s backup.state_key w) in
      if str_eq backup.source_id s then run else (w, refused 400)

  -- RestoreBackup
  unfoldable pub restore_backup : Call → Bytes → Result ℕ Bytes → World B → World B × Response
  unfolding get_backup restore_found
  restore_backup call backup_id source w =
      let run = restore_found call (get_backup backup_id w.backups) source w in
      if call.load_fails then (w, refused 500) else run
