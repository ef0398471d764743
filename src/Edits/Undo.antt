-- ===== src/Edits/Undo.antt =====
-- edit.go: RestoreBackup of the backup that an EditState made undoes the edit.
use terraform_state_manager.Prelude.{
  Bool, Option, none, some, ◌≡◌, sym, ◌∙◌, ap, Bytes, str_eq, ok, some_inj,
}
use terraform_state_manager.Prelude.Int.{ℤ}
use terraform_state_manager.Edits.Store.{Store, Reply, found, missing, broken}
use terraform_state_manager.Edits.World.{
  World, Call, Backup, Release, get_backup, create_backup, acquire_lock,
}
use terraform_state_manager.Edits.Guarded.{Codec, done, analysis, serial_of, under_lock, edit_state}
use terraform_state_manager.Edits.Restore.{
  restore_write, restore_read, restore_locked, restore_found, restore_backup,
}
use terraform_state_manager.Edits.Recovery.{IsSame, release_lock-IsSame}
use terraform_state_manager.Edits.Outcome.{
  refused_ne_done, commit-done, IsSaved, checked-done, owned-done, replaced-IsSaved,
  edit_state-done,
}

module _ {B : Type 0} (store : Store B) (codec : Codec) where
  restore_write-done :
      (call : Call) (s : Bytes) (backup : Backup) (backup_id : Option Bytes) (before : Option ℤ)
      (w : World B) (id : Option Bytes) (serial : Option ℤ)
      → (restore_write store codec call s backup backup_id before w).1 ≡ done id serial
      → store.content s backup.state_key
          (restore_write store codec call s backup backup_id before w).0.backend
        ≡ some backup.bytes
  unfolding restore_write
  restore_write-done call s backup backup_id before w id serial h =
      (commit-done store call s backup.state_key backup.bytes _ _ w h).0

  restore_read-done :
      (call : Call) (s : Bytes) (backup : Backup) (reply : Reply) (w : World B) (id : Option Bytes)
      (serial : Option ℤ)
      → (restore_read store codec call s backup reply w).1 ≡ done id serial
      → store.content s backup.state_key (restore_read store codec call s backup reply w).0.backend
        ≡ some backup.bytes
  unfolding restore_read
  restore_read-done call s backup broken w id serial h = absurd (refused_ne_done h)
  restore_read-done call s backup missing w id serial h =
      restore_write-done call s backup none none w id serial h
  restore_read-done call s backup (found cur) w id serial h =
      let before = serial_of (analysis codec cur) in
      let saved = create_backup call s backup.state_key cur before w in
      checked-done store (λ run. store.content s backup.state_key run.0.backend ≡ some backup.bytes)
        w 500 call.backup_fails
        (restore_write store codec call s backup (some call.backup_id) before saved)
        (λ fine last.
          restore_write-done call s backup (some call.backup_id) before saved id serial last)
        h

  restore_under-done :
      (call : Call) (s : Bytes) (backup : Backup) (taken : Option Release × World B)
      (id : Option Bytes) (serial : Option ℤ)
      → (under_lock store call s backup.state_key
          (restore_locked store codec call s backup)
          taken).1
        ≡ done id serial
      → store.content s backup.state_key
          (under_lock store call s backup.state_key
            (restore_locked store codec call s backup)
            taken).0.backend
        ≡ some backup.bytes
  unfolding under_lock restore_locked IsSame
  restore_under-done call s backup (none, v) id serial h = absurd (refused_ne_done h)
  restore_under-done call s backup (some r, v) id serial h =
      let body = (restore_locked store codec call s backup v).0 in
      (release_lock-IsSame store call s backup.state_key r body).0 s backup.state_key
      ∙ restore_read-done call s backup (store.read s backup.state_key v.backend).0
          (record v { backend = (store.read s backup.state_key v.backend).1 }) id serial h

  restore_found-done :
      (call : Call) (s k d : Bytes) (found : Option Backup) (backup : Backup) (w : World B)
      (id : Option Bytes) (serial : Option ℤ)
      → found ≡ some backup
      → backup.source_id ≡ s
      → backup.state_key ≡ k
      → backup.bytes ≡ d
      → (restore_found store codec call found (ok s) w).1 ≡ done id serial
      → store.content s k (restore_found store codec call found (ok s) w).0.backend ≡ some d
  unfolding restore_found
  restore_found-done call s k d none backup w id serial e es ek ed h = absurd (refused_ne_done h)
  restore_found-done call s k d (some b) backup w id serial e es ek ed h =
      let same = some_inj e in
      let ekb : b.state_key ≡ k = ap (λ r. r.state_key) same ∙ ek in
      let edb : b.bytes ≡ d = ap (λ r. r.bytes) same ∙ ed in
      rw (sym ekb) (
        rw (sym edb) (
          owned-done store (λ run. store.content s b.state_key run.0.backend ≡ some b.bytes) w 400
            (str_eq b.source_id s)
            (under_lock store call s b.state_key (restore_locked store codec call s b)
              (acquire_lock store call s b.state_key w))
            (λ last.
              restore_under-done call s b (acquire_lock store call s b.state_key w) id serial last)
            h))

  restore_backup-done :
      (call : Call) (s k d backup_id : Bytes) (w : World B) (id : Option Bytes) (serial : Option ℤ)
      → IsSaved store backup_id s k d w.backups
      → (restore_backup store codec call backup_id (ok s) w).1 ≡ done id serial
      → store.content s k (restore_backup store codec call backup_id (ok s) w).0.backend ≡ some d
  unfolding restore_backup IsSaved
  restore_backup-done call s k d backup_id w id serial (b, e, es, ek, ed) h =
      checked-done store (λ run. store.content s k run.0.backend ≡ some d) w 500 call.load_fails
        (restore_found store codec call (get_backup backup_id w.backups) (ok s) w)
        (λ loaded last.
          restore_found-done call s k d (get_backup backup_id w.backups) b w id serial e es ek ed
            last)
        h

  -- RestoreBackup undoes EditState: if the location held a state, EditState answers 200, and after
  -- it RestoreBackup of the backup that the edit made answers 200 too, the location holds the
  -- bytes that it held before the edit.
  pub restore_backup-edit_state :
      (call call2 : Call) (force : Bool) (s k bytes d : Bytes) (w : World B) (id id2 : Option Bytes)
      (serial serial2 : Option ℤ)
      → store.content s k w.backend ≡ some d
      → (edit_state store codec call force k (some bytes) (ok s) w).1 ≡ done id serial
      → (restore_backup store codec call2 call.backup_id
          (ok s)
          (edit_state store codec call force k (some bytes) (ok s) w).0).1
        ≡ done id2 serial2
      → store.content s k
          (restore_backup store codec call2 call.backup_id
            (ok s)
            (edit_state store codec call force k (some bytes) (ok s) w).0).0.backend
        ≡ some d
  restore_backup-edit_state call call2 force s k bytes d w id id2 serial serial2 held edited =
      let (a, known, replaced) =
        edit_state-done store codec call force s k bytes w id serial edited in
      let after = (edit_state store codec call force k (some bytes) (ok s) w).0 in
      restore_backup-done call2 s k d call.backup_id after id2 serial2
        (replaced-IsSaved store codec call force s k bytes a id d w after held replaced)
