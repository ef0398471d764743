-- ===== src/Edits/Surgery.antt =====
-- edit.go: no rm, mv or delete loses a state, unless it purges the backups; and the runs of the edit
-- plane one after the other.
use terraform_state_manager.Prelude.{
  ℕ, false, Option, none, some, ◌≡◌, refl, Bytes, Result, ok, err,
}
use terraform_state_manager.Prelude.Int.{ℤ}
use terraform_state_manager.Json.{Json}
use terraform_state_manager.Analyzer.Labels.{is_blank}
use terraform_state_manager.Analyzer.Analyze.{Analysis, Err}
use terraform_state_manager.Edits.Store.{Store, Deletion, deleted, absent, stuck}
use terraform_state_manager.Edits.World.{World, Call, create_backup, acquire_lock}
use terraform_state_manager.Edits.Guarded.{Codec, Response, done, analysis, serial_of, commit}
use terraform_state_manager.Edits.Operate.{
  Operation, is_delete, change, early_refusal, operate_write, operate_changed, operate_read,
  purge_backups, delete_answered, delete_found, delete_read, operate_locked, operate_source,
  state_operation,
}
use terraform_state_manager.Edits.Recovery.{
  Keeps, IsCovered, Keeps-refl, Keeps-trans, record_edit-Keeps, covered-Keeps, if_Keeps,
  commit-Keeps, acquire_lock-Keeps, under_lock-Keeps,
}
use terraform_state_manager.Edits.Recovered.{backed_up-Keeps, refused-Keeps, read_Keeps}

module _ {B : Type 0} (store : Store B) (codec : Codec) where
  module _ (call : Call) (s k : Bytes) (r : Operation) where
    operate_write-Keeps :
        (cur bytes : Bytes) (new : Result Err Analysis) (w : World B)
        → store.content s k w.backend ≡ some cur
        → Keeps store w (operate_write codec store call s k r cur bytes new w).0
    unfolding operate_write
    operate_write-Keeps cur bytes (err e) w h = Keeps-refl store w
    operate_write-Keeps cur bytes (ok new) w h =
        let before = serial_of (analysis codec cur) in
        let written : World B → World B × Response =
          commit store call s k bytes _ (done (some call.backup_id) (some new.serial)) in
        refused-Keeps store codec w 500 call.backup_fails
          (written (create_backup call s k cur before w))
          (backed_up-Keeps store codec call s k cur before w written h
            (λ v. commit-Keeps store call s k bytes _ _ v))

    operate_changed-Keeps :
        (cur : Bytes) (next : Result ℕ Json) (w : World B)
        → store.content s k w.backend ≡ some cur
        → Keeps store w (operate_changed codec store call s k r cur next w).0
    unfolding operate_changed
    operate_changed-Keeps cur (err status) w h = Keeps-refl store w
    operate_changed-Keeps cur (ok v) w h =
        operate_write-Keeps cur (codec.bytes_of v) (analysis codec (codec.bytes_of v)) w h

    delete_answered-Keeps :
        (before : Option ℤ) (answer : Deletion) (w : World B)
        → Keeps store w (delete_answered codec store call s k false before answer w).0
    unfolding delete_answered purge_backups
    delete_answered-Keeps before deleted w = record_edit-Keeps store call _ w
    delete_answered-Keeps before absent w = Keeps-refl store w
    delete_answered-Keeps before stuck w = record_edit-Keeps store call _ w

    abbrev gone : Option ℤ → World B → World B × Response
    gone before v =
        delete_answered codec store call s k false before (store.delete s k v.backend).0
          (record v { backend = (store.delete s k v.backend).1 })

    gone-Keeps :
        (before : Option ℤ) (v : World B) → IsCovered store s k v → Keeps store v (gone before v).0
    gone-Keeps before v h =
        let next : World B = record v { backend = (store.delete s k v.backend).1 } in
        Keeps-trans store v next (gone before v).0
          (covered-Keeps store s k v next.backend h
            (λ s2 k2. store.delete_elsewhere s k s2 k2 v.backend))
          (delete_answered-Keeps before (store.delete s k v.backend).0 next)

    delete_found-Keeps :
        (cur : Bytes) (w : World B)
        → store.content s k w.backend ≡ some cur
        → Keeps store w (delete_found codec store call s k false cur w).0
    unfolding delete_found
    delete_found-Keeps cur w h =
        let before = serial_of (analysis codec cur) in
        refused-Keeps store codec w 500 call.backup_fails
          (gone before (create_backup call s k cur before w))
          (backed_up-Keeps store codec call s k cur before w (gone before) h (gone-Keeps before))

    operate_locked-Keeps :
        (w : World B) → r.purge ≡ false → Keeps store w (operate_locked codec store call s k r w).0
    unfolding operate_locked
    operate_locked-Keeps w retained =
        let reply = (store.read s k w.backend).0 in
        let next : World B = record w { backend = (store.read s k w.backend).1 } in
        if_Keeps store w (is_delete r) (delete_read codec store call s k r.purge reply next)
          (operate_read codec store call s k r reply next)
          (rw retained (
            unfold delete_read in
            read_Keeps store codec s k w (delete_read codec store call s k false)
              (λ d v h. delete_found-Keeps d v h) (λ v h. Keeps-refl store v)
              (λ v. Keeps-refl store v) reply refl))
          (unfold operate_read in
            read_Keeps store codec s k w (operate_read codec store call s k r)
              (λ d v h. operate_changed-Keeps d (change codec r d) v h) (λ v h. Keeps-refl store v)
              (λ v. Keeps-refl store v) reply refl)

  operate_source-Keeps :
      (call : Call) (k : Bytes) (r : Operation) (early : Option ℕ) (source : Result ℕ Bytes)
      (w : World B)
      → r.purge ≡ false
      → Keeps store w (operate_source codec store call k r early source w).0
  unfolding operate_source
  operate_source-Keeps call k r (some status) source w h = Keeps-refl store w
  operate_source-Keeps call k r none (err status) w h = Keeps-refl store w
  operate_source-Keeps call k r none (ok s) w h =
      under_lock-Keeps store call s k (operate_locked codec store call s k r)
        (acquire_lock store call s k w) w (λ v. operate_locked-Keeps call s k r v h)
        (acquire_lock-Keeps store call s k w)

  pub state_operation-Keeps :
      (call : Call) (key : Bytes) (r : Operation) (source : Result ℕ Bytes) (w : World B)
      → r.purge ≡ false
      → Keeps store w (state_operation codec store call key (some r) source w).0
  unfolding state_operation
  state_operation-Keeps call key r source w h =
      refused-Keeps store codec w 400 (is_blank key)
        (operate_source codec store call key r (early_refusal call key r) source w)
        (operate_source-Keeps call key r (early_refusal call key r) source w h)
