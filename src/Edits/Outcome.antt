-- ===== src/Edits/Outcome.antt =====
-- edit.go: what an EditState that answers 200 has done.
use terraform_state_manager.Prelude.{
  ℕ, List, Bool, true, false, Option, none, some, ◌≡◌, refl, sym, ◌∙◌, ap, Bytes, if◌then◌else◌,
  str_eq_refl, Result, ok, err, Bool-cases, inl, inr, ◌⊎◌, some_inj, none_ne_some,
}
use terraform_state_manager.Prelude.Int.{ℤ}
use terraform_state_manager.Analyzer.Labels.{is_blank}
use terraform_state_manager.Analyzer.Analyze.{Analysis, Err}
use terraform_state_manager.Edits.Store.{Store, Reply, found, missing, broken}
use terraform_state_manager.Edits.World.{
  World, Call, Edit, Backup, Release, get_backup, create_backup, record_edit, acquire_lock,
  release_lock,
}
use terraform_state_manager.Edits.Guarded.{
  Codec, Response, refused, done, analysis, serial_of, is_conflict, commit, under_lock, edit_write,
  edit_found, edit_read, edit_locked, edit_source, edit_analyzed, edit_state,
}
use terraform_state_manager.Edits.Recovery.{IsSame, acquire_lock-IsSame, release_lock-IsSame}

pub refused_ne_done :
    {status : ℕ} {id : Option Bytes} {serial : Option ℤ} → refused status ≡ done id serial → ⊥
refused_ne_done h = cc

done_inj :
    {id id2 : Option Bytes} {serial serial2 : Option ℤ}
    → done id serial ≡ done id2 serial2
    → id ≡ id2
done_inj h = cc

module _ {B : Type 0} (store : Store B) where
  record_edit-same :
      (call : Call) (e : Edit) (w : World B)
      → ((record_edit call e w).backend ≡ w.backend) × ((record_edit call e w).backups ≡ w.backups)
  unfolding record_edit
  record_edit-same call e w = elim (Bool-cases call.record_fails) [
    | inl h ↦ rw h (refl, refl)
    | inr h ↦ rw h (refl, refl)
  ]

  -- A commit that is answered with success has written.
  pub commit-done :
      (call : Call) (s k d : Bytes) (e : Edit) (answer : Response) (w : World B) {id : Option Bytes}
      {serial : Option ℤ}
      → (commit store call s k d e answer w).1 ≡ done id serial
      → (store.content s k (commit store call s k d e answer w).0.backend ≡ some d)
        × ((commit store call s k d e answer w).0.backups ≡ w.backups)
        × (answer ≡ done id serial)
  unfolding commit
  commit-done call s k d e answer w h = elim (Bool-cases (store.write s k d w.backend).0) [
    | inl written ↦
        let next : World B = record w { backend = (store.write s k d w.backend).1 } in
        let (eb, eu) = record_edit-same call e next in
        let there = store.write_there s k d w.backend written in
        rw written (ap (λ b. store.content s k b) eb ∙ there, eu, rw written at h)
    | inr lost ↦ absurd (refused_ne_done (rw lost at h))
  ]

  -- The backup that the id names holds the state of the location.
  unfoldable pub IsSaved : Bytes → Bytes → Bytes → Bytes → List Backup → Type 0
  unfolding get_backup
  IsSaved id s k d backups =
      (b : Backup) × (get_backup id backups ≡ some b)
      × (b.source_id ≡ s)
      × (b.state_key ≡ k)
      × (b.bytes ≡ d)

  create_backup-IsSaved :
      (call : Call) (s k d : Bytes) (serial : Option ℤ) (w : World B)
      → IsSaved call.backup_id s k d (create_backup call s k d serial w).backups
  unfolding IsSaved create_backup
  create_backup-IsSaved call s k d serial w =
      let row : Backup = record {
        id = call.backup_id;
        source_id = s;
        state_key = k;
        bytes = d;
        serial = serial;
        created_by = call.actor;
        created_at = call.now;
      } in
      (row, rw (str_eq_refl call.backup_id) refl, refl, refl, refl)

  -- An answer of success comes from behind the check.
  pub checked-done :
      (P : World B × Response → Type 0) (w : World B) (status : ℕ) (test : Bool)
      (x : World B × Response) {id : Option Bytes} {serial : Option ℤ}
      → (test ≡ false → x.1 ≡ done id serial → P x)
      → (if test then (w, refused status) else x).1 ≡ done id serial
      → P (if test then (w, refused status) else x)
  checked-done P w status true x behind h = absurd (refused_ne_done h)
  checked-done P w status false x behind h = behind refl h

  pub owned-done :
      (P : World B × Response → Type 0) (w : World B) (status : ℕ) (test : Bool)
      (x : World B × Response) {id : Option Bytes} {serial : Option ℤ}
      → (x.1 ≡ done id serial → P x)
      → (if test then x else (w, refused status)).1 ≡ done id serial
      → P (if test then x else (w, refused status))
  owned-done P w status true x behind h = behind h
  owned-done P w status false x behind h = absurd (refused_ne_done h)

  module _ (codec : Codec) (call : Call) (force : Bool) (s k bytes : Bytes) (new : Analysis) where
    -- The location has the new state; before it had none, or one that passed the checks and that the
    -- answered backup holds.
    unfoldable pub IsReplaced : Option Bytes → World B → World B → Type 0
    unfolding IsSaved is_conflict
    IsReplaced id w v =
        (store.content s k v.backend ≡ some bytes)
        × (((store.content s k w.backend ≡ none) × (id ≡ none))
            ⊎ ((cur : Bytes) × (store.content s k w.backend ≡ some cur)
                × (is_conflict force new (analysis codec cur) ≡ false)
                × (id ≡ some call.backup_id)
                × IsSaved call.backup_id s k cur v.backups))

    pub replaced-IsSaved :
        (id : Option Bytes) (d : Bytes) (w v : World B)
        → store.content s k w.backend ≡ some d
        → IsReplaced id w v
        → IsSaved call.backup_id s k d v.backups
    unfolding IsReplaced
    replaced-IsSaved id d w v held (there, inl (none_there, no_id)) =
        absurd (none_ne_some (sym none_there ∙ held))
    replaced-IsSaved id d w v held (there, inr (cur, was, good, same, saved)) =
        rw (some_inj (sym held ∙ was)) saved

    module _ (id : Option Bytes) (serial : Option ℤ) where
      edit_write-done :
          (backup_id : Option Bytes) (before : Option ℤ) (v : World B)
          → (edit_write store codec call force s k bytes new backup_id before v).1 ≡ done id serial
          → (store.content s k
                (edit_write store codec call force s k bytes new backup_id before v).0.backend
              ≡ some bytes)
            × ((edit_write store codec call force s k bytes new backup_id before v).0.backups
                ≡ v.backups)
            × (id ≡ backup_id)
      unfolding edit_write
      edit_write-done backup_id before v h =
          let (there, kept, same) = commit-done call s k bytes _ _ v h in
          (there, kept, sym (done_inj same))

      edit_found-done :
          (cur : Bytes) (w : World B)
          → store.content s k w.backend ≡ some cur
          → (edit_found store codec call force s k bytes new cur w).1 ≡ done id serial
          → IsReplaced id w (edit_found store codec call force s k bytes new cur w).0
      unfolding edit_found
      edit_found-done cur w h answered =
          let before = serial_of (analysis codec cur) in
          let saved = create_backup call s k cur before w in
          let written =
            edit_write store codec call force s k bytes new (some call.backup_id) before saved in
          let P : World B × Response → Type 0 = λ run. IsReplaced id w run.0 in
          checked-done P w 409 (is_conflict force new (analysis codec cur))
            (if call.backup_fails then (w, refused 500) else written)
            (λ good. checked-done P w 500 call.backup_fails written (λ fine last.
              let (there, kept, same) = edit_write-done (some call.backup_id) before saved last in
              unfold IsReplaced in
              (
                there,
                inr (cur, h, good, same, rw kept (create_backup-IsSaved call s k cur before w)),
              )))
            answered

      edit_read-done :
          (w : World B) (reply : Reply)
          → (store.read s k w.backend).0 ≡ reply
          → (edit_read store codec call force s k bytes new reply
              (record w { backend = (store.read s k w.backend).1 })).1
            ≡ done id serial
          → IsReplaced id
              (record w { backend = (store.read s k w.backend).1 })
              (edit_read store codec call force s k bytes new reply
                (record w { backend = (store.read s k w.backend).1 })).0
      unfolding edit_read
      edit_read-done w broken e h = absurd (refused_ne_done h)
      edit_read-done w missing e h =
          let v : World B = record w { backend = (store.read s k w.backend).1 } in
          let (there, kept, same) = edit_write-done none none v h in
          unfold IsReplaced in
          (
            there,
            inl (store.read_same s k s k w.backend ∙ store.read_missing s k w.backend e, same),
          )
      edit_read-done w (found cur) e h =
          edit_found-done cur (record w { backend = (store.read s k w.backend).1 })
            (store.read_same s k s k w.backend ∙ store.read_found s k cur w.backend e) h

      -- What is around the handler's part shows in no state and no backup.
      same-IsReplaced :
          (w v x y : World B)
          → (store.content s k v.backend ≡ store.content s k w.backend)
          → IsSame store x y
          → IsReplaced id v x
          → IsReplaced id w y
      unfolding IsReplaced IsSame
      same-IsReplaced w v x y before (after, kept) (there, inl (none_there, no_id)) =
          (after s k ∙ there, inl (sym before ∙ none_there, no_id))
      same-IsReplaced w v x y before (after, kept) (there, inr (cur, held, good, same, saved)) =
          (after s k ∙ there, inr (cur, sym before ∙ held, good, same, rw kept saved))

      edit_locked-done :
          (w : World B)
          → (edit_locked store codec call force s k bytes new w).1 ≡ done id serial
          → IsReplaced id w (edit_locked store codec call force s k bytes new w).0
      unfolding edit_locked
      edit_locked-done w h =
          let run = edit_locked store codec call force s k bytes new w in
          same-IsReplaced w (record w { backend = (store.read s k w.backend).1 }) run.0 run.0
            (store.read_same s k s k w.backend) (unfold IsSame in (λ s2 k2. refl, refl))
            (edit_read-done w (store.read s k w.backend).0 refl h)

      under_lock-done :
          (taken : Option Release × World B) (w : World B)
          → IsSame store w taken.1
          → (under_lock store call s k (edit_locked store codec call force s k bytes new) taken).1
            ≡ done id serial
          → IsReplaced id w
              (under_lock store call s k (edit_locked store codec call force s k bytes new) taken).0
      unfolding under_lock IsSame
      under_lock-done (none, v) w same h = absurd (refused_ne_done h)
      under_lock-done (some r, v) w same h =
          let body = (edit_locked store codec call force s k bytes new v).0 in
          same-IsReplaced w v body (release_lock store call s k r body) (same.0 s k)
            (release_lock-IsSame store call s k r body) (edit_locked-done v h)

  module _ (codec : Codec) where
    edit_analyzed-done :
        (call : Call) (force : Bool) (s k bytes : Bytes) (new : Result Err Analysis) (w : World B)
        (id : Option Bytes) (serial : Option ℤ)
        → (edit_analyzed store codec call force k bytes new (ok s) w).1 ≡ done id serial
        → (a : Analysis) × (new ≡ ok a)
          × IsReplaced codec call force s k bytes a id w
              (edit_analyzed store codec call force k bytes new (ok s) w).0
    unfolding edit_analyzed edit_source
    edit_analyzed-done call force s k bytes (err e) w id serial h = absurd (refused_ne_done h)
    edit_analyzed-done call force s k bytes (ok a) w id serial h = (
      a,
      refl,
      under_lock-done codec call force s k bytes a id serial (acquire_lock store call s k w) w
          (acquire_lock-IsSame store call s k w) h,
    )

    -- If EditState answers 200 with a backup id, the location holds exactly the bytes of the request,
    -- which are a state. Either it held nothing before and no backup is named, or it held a state that
    -- passed the checks (on a state that can be analyzed and without force: the new serial is not
    -- lower, and the lineages agree if both are set) and the backup that the answer names holds that
    -- state's bytes under the location.
    pub edit_state-done :
        (call : Call) (force : Bool) (s k bytes : Bytes) (w : World B) (id : Option Bytes)
        (serial : Option ℤ)
        → (edit_state store codec call force k (some bytes) (ok s) w).1 ≡ done id serial
        → (a : Analysis) × (analysis codec bytes ≡ ok a)
          × IsReplaced codec call force s k bytes a id w
              (edit_state store codec call force k (some bytes) (ok s) w).0
    unfolding edit_state
    edit_state-done call force s k bytes w id serial =
        checked-done
          (λ run.
            (a : Analysis) × (analysis codec bytes ≡ ok a)
            × IsReplaced codec call force s k bytes a id w run.0)
          w 400 (is_blank k)
          (edit_analyzed store codec call force k bytes (analysis codec bytes) (ok s) w)
          (λ named h. edit_analyzed-done call force s k bytes (analysis codec bytes) w id serial h)
