-- ===== src/Edits/Recovered.antt =====
-- edit.go: no run of the edit plane loses a state, unless an administrator purges its backups.
use terraform_state_manager.Prelude.{
  ℕ, Bool, Option, none, some, ◌≡◌, refl, ◌∙◌, Bytes, if◌then◌else◌, str_eq, Result, ok, err,
}
use terraform_state_manager.Prelude.Int.{ℤ}
use terraform_state_manager.Analyzer.Labels.{is_blank}
use terraform_state_manager.Analyzer.Analyze.{Analysis, Err}
use terraform_state_manager.Edits.Store.{Store, Reply, found, missing, broken}
use terraform_state_manager.Edits.World.{
  World, Call, Backup, get_backup, create_backup, acquire_lock,
}
use terraform_state_manager.Edits.Guarded.{
  Codec, Response, refused, analysis, serial_of, is_conflict, under_lock, edit_write, edit_found,
  edit_read, edit_locked, edit_source, edit_analyzed, edit_state,
}
use terraform_state_manager.Edits.Restore.{
  restore_write, restore_read, restore_locked, restore_found, restore_backup,
}
use terraform_state_manager.Edits.Recovery.{
  Keeps, IsCovered, Keeps-refl, Keeps-trans, Keeps-same, create_backup-Keeps,
  create_backup-IsCovered, missing-IsCovered, if_Keeps, commit-Keeps, acquire_lock-Keeps,
  under_lock-Keeps,
}

module _ {B : Type 0} (store : Store B) (codec : Codec) where
  -- A backup of the current state, and then what a covered location allows.
  pub backed_up-Keeps :
      (call : Call) (s k d : Bytes) (serial : Option ℤ) (w : World B)
      (body : World B → World B × Response)
      → store.content s k w.backend ≡ some d
      → ((v : World B) → IsCovered store s k v → Keeps store v (body v).0)
      → Keeps store w (body (create_backup call s k d serial w)).0
  backed_up-Keeps call s k d serial w body h keeps =
      Keeps-trans store w (create_backup call s k d serial w) _
        (create_backup-Keeps store call s k d serial w)
        (keeps _ (create_backup-IsCovered store call s k d serial w h))

  pub refused-Keeps :
      (w : World B) (status : ℕ) (test : Bool) (x : World B × Response)
      → Keeps store w x.0
      → Keeps store w (if test then (w, refused status) else x).0
  refused-Keeps w status test x h = if_Keeps store w test _ x (Keeps-refl store w) h

  -- A handler that reads the location first, and then may rely on the reply.
  pub read_Keeps :
      (s k : Bytes) (w : World B) (body : Reply → World B → World B × Response)
      → ((d : Bytes) (v : World B)
          → store.content s k v.backend ≡ some d
          → Keeps store v (body (found d) v).0)
      → ((v : World B) → store.content s k v.backend ≡ none → Keeps store v (body missing v).0)
      → ((v : World B) → Keeps store v (body broken v).0)
      → (reply : Reply) → (store.read s k w.backend).0 ≡ reply
      → Keeps store w (body reply (record w { backend = (store.read s k w.backend).1 })).0
  read_Keeps s k w body on_found on_missing on_broken reply e =
      let v : World B = record w { backend = (store.read s k w.backend).1 } in
      let same = store.read_same s k s k w.backend in
      Keeps-trans store w v _
        (Keeps-same store w v.backend (λ s2 k2. store.read_same s k s2 k2 w.backend))
        (elim reply as (λ r. (store.read s k w.backend).0 ≡ r → Keeps store v (body r v).0) [
          | found d ↦ λ h. on_found d v (same ∙ store.read_found s k d w.backend h)
          | missing ↦ λ h. on_missing v (same ∙ store.read_missing s k w.backend h)
          | broken ↦ λ h. on_broken v
        ]
          e)

  module _ (call : Call) where
    edit_write-Keeps :
        (force : Bool) (s k bytes : Bytes) (new : Analysis) (id : Option Bytes) (before : Option ℤ)
        (w : World B)
        → IsCovered store s k w
        → Keeps store w (edit_write store codec call force s k bytes new id before w).0
    unfolding edit_write
    edit_write-Keeps force s k bytes new id before w h = commit-Keeps store call s k bytes _ _ w h

    edit_found-Keeps :
        (force : Bool) (s k bytes : Bytes) (new : Analysis) (cur : Bytes) (w : World B)
        → store.content s k w.backend ≡ some cur
        → Keeps store w (edit_found store codec call force s k bytes new cur w).0
    unfolding edit_found
    edit_found-Keeps force s k bytes new cur w h =
        let before = serial_of (analysis codec cur) in
        let written : World B → World B × Response =
          edit_write store codec call force s k bytes new (some call.backup_id) before in
        let saved = create_backup call s k cur before w in
        refused-Keeps w 409 (is_conflict force new (analysis codec cur))
          (if call.backup_fails then (w, refused 500) else written saved)
          (refused-Keeps w 500 call.backup_fails (written saved) (
            backed_up-Keeps call s k cur before w written h
              (edit_write-Keeps force s k bytes new (some call.backup_id) before)))

    edit_locked-Keeps :
        (force : Bool) (s k bytes : Bytes) (new : Analysis) (w : World B)
        → Keeps store w (edit_locked store codec call force s k bytes new w).0
    unfolding edit_locked edit_read
    edit_locked-Keeps force s k bytes new w =
        read_Keeps s k w (edit_read store codec call force s k bytes new)
          (λ d v h. edit_found-Keeps force s k bytes new d v h)
          (λ v h.
            edit_write-Keeps force s k bytes new none none v (missing-IsCovered store s k v h))
          (λ v. Keeps-refl store v) (store.read s k w.backend).0 refl

    edit_analyzed-Keeps :
        (force : Bool) (k bytes : Bytes) (new : Result Err Analysis) (source : Result ℕ Bytes)
        (w : World B)
        → Keeps store w (edit_analyzed store codec call force k bytes new source w).0
    unfolding edit_analyzed edit_source
    edit_analyzed-Keeps force k bytes (err e) source w = Keeps-refl store w
    edit_analyzed-Keeps force k bytes (ok new) (err status) w = Keeps-refl store w
    edit_analyzed-Keeps force k bytes (ok new) (ok s) w =
        under_lock-Keeps store call s k (edit_locked store codec call force s k bytes new)
          (acquire_lock store call s k w) w (edit_locked-Keeps force s k bytes new)
          (acquire_lock-Keeps store call s k w)

    pub edit_state-Keeps :
        (force : Bool) (key : Bytes) (body : Option Bytes) (source : Result ℕ Bytes) (w : World B)
        → Keeps store w (edit_state store codec call force key body source w).0
    unfolding edit_state
    edit_state-Keeps force key none source w = Keeps-refl store w
    edit_state-Keeps force key (some bytes) source w =
        refused-Keeps w 400 (is_blank key)
          (edit_analyzed store codec call force key bytes (analysis codec bytes) source w)
          (edit_analyzed-Keeps force key bytes (analysis codec bytes) source w)

    restore_write-Keeps :
        (s : Bytes) (backup : Backup) (id : Option Bytes) (before : Option ℤ) (w : World B)
        → IsCovered store s backup.state_key w
        → Keeps store w (restore_write store codec call s backup id before w).0
    unfolding restore_write
    restore_write-Keeps s backup id before w h =
        commit-Keeps store call s backup.state_key backup.bytes _ _ w h

    restore_locked-Keeps :
        (s : Bytes) (backup : Backup) (w : World B)
        → Keeps store w (restore_locked store codec call s backup w).0
    unfolding restore_locked restore_read
    restore_locked-Keeps s backup w =
        read_Keeps s backup.state_key w (restore_read store codec call s backup)
          (λ d v h.
            let before = serial_of (analysis codec d) in
            let written : World B → World B × Response =
              restore_write store codec call s backup (some call.backup_id) before in
            refused-Keeps v 500 call.backup_fails
              (written (create_backup call s backup.state_key d before v))
              (backed_up-Keeps call s backup.state_key d before v written h
                (restore_write-Keeps s backup (some call.backup_id) before)))
          (λ v h.
            restore_write-Keeps s backup none none v
              (missing-IsCovered store s backup.state_key v h))
          (λ v. Keeps-refl store v) (store.read s backup.state_key w.backend).0 refl

    restore_found-Keeps :
        (found : Option Backup) (source : Result ℕ Bytes) (w : World B)
        → Keeps store w (restore_found store codec call found source w).0
    unfolding restore_found
    restore_found-Keeps none source w = Keeps-refl store w
    restore_found-Keeps (some backup) (err status) w = Keeps-refl store w
    restore_found-Keeps (some backup) (ok s) w =
        if_Keeps store w (str_eq backup.source_id s)
          (under_lock store call s backup.state_key (restore_locked store codec call s backup)
            (acquire_lock store call s backup.state_key w))
          (w, refused 400)
          (under_lock-Keeps store call s backup.state_key (restore_locked store codec call s backup)
            (acquire_lock store call s backup.state_key w) w (restore_locked-Keeps s backup)
            (acquire_lock-Keeps store call s backup.state_key w))
          (Keeps-refl store w)

    pub restore_backup-Keeps :
        (id : Bytes) (source : Result ℕ Bytes) (w : World B)
        → Keeps store w (restore_backup store codec call id source w).0
    unfolding restore_backup
    restore_backup-Keeps id source w =
        refused-Keeps w 500 call.load_fails
          (restore_found store codec call (get_backup id w.backups) source w)
          (restore_found-Keeps (get_backup id w.backups) source w)
