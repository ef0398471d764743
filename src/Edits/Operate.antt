-- ===== src/Edits/Operate.antt =====
-- edit.go: StateOperation, with rm, mv and delete, and deleteState.
use terraform_state_manager.Prelude.{
  ℕ, ◌++◌, Bool, true, false, Option, none, some, Bytes, codes, if◌then◌else◌, not, str_eq, Result,
  ok, err,
}
use terraform_state_manager.Prelude.Int.{ℤ}
use terraform_state_manager.Json.{Json}
use terraform_state_manager.StateOps.Address.{nil_map_write}
use terraform_state_manager.StateOps.Address
use terraform_state_manager.StateOps.Edit.{remove_resource, move_resource}
use terraform_state_manager.Analyzer.Labels.{is_blank}
use terraform_state_manager.Analyzer.Analyze.{Analysis, Err}
use terraform_state_manager.Edits.Store.{
  Store, Reply, found, missing, broken, Deletion, deleted, absent, stuck,
}
use terraform_state_manager.Edits.World.{
  World, Call, Edit, create_backup, record_edit, delete_backups, acquire_lock,
}
use terraform_state_manager.Edits.Guarded.{
  Codec, Response, refused, done, serial_of, success, failed, commit, under_lock, analysis,
}

-- The request body.
pub record Operation : Type 0 where
  pub op : Bytes
  pub address : Bytes
  pub target : Bytes
  pub key : Bytes
  pub purge : Bool

unfoldable pub is_delete : Operation → Bool
is_delete r = str_eq r.op (codes "delete")

-- The answer to a failed operation; a panic is the router's 500.
unfoldable pub refusal : Address.Err → ℕ
refusal nil_map_write = 500
refusal e = 422

unfoldable pub changed_by : Result Address.Err Json → Result ℕ Json
unfolding refusal
changed_by (ok v) = ok v
changed_by (err e) = err (refusal e)

-- The checks before the source is loaded: `none` when they pass.
unfoldable pub early_refusal : Call → Bytes → Operation → Option ℕ
unfolding is_delete
early_refusal call key r =
    if is_delete r
    then (if not call.is_admin then some 403 else if not (str_eq r.key key) then some 400 else none)
    else if is_blank r.address
    then some 400
    else none

abbrev operate_row : Call → Bytes → Bytes → Operation → Option ℤ → Analysis → Edit
operate_row call s k r before new = record {
  source_id = s;
  state_key = k;
  operation = r.op;
  actor = call.actor;
  backup_id = some call.backup_id;
  before_serial = before;
  after_serial = some new.serial;
  outcome = success;
  detail = if str_eq r.op (codes "mv") then r.address ++ codes " → " ++ r.target else r.address;
}

abbrev delete_row : Call → Bytes → Bytes → Option Bytes → Option ℤ → Bytes → Bytes → Edit
delete_row call s k backup_id before outcome detail = record {
  source_id = s;
  state_key = k;
  operation = codes "delete";
  actor = call.actor;
  backup_id = backup_id;
  before_serial = before;
  after_serial = none;
  outcome = outcome;
  detail = detail;
}

module _ (codec : Codec) where
  -- The switch on the operation.
  unfoldable pub change : Operation → Bytes → Result ℕ Json
  unfolding changed_by remove_resource move_resource
  change r cur =
      let moved =
        changed_by (move_resource codec.float_eq (codec.json_of cur) r.address r.target) in
      if str_eq r.op (codes "rm")
      then changed_by (remove_resource codec.float_eq (codec.json_of cur) r.address)
      else if str_eq r.op (codes "mv")
      then (if is_blank r.target then err 400 else moved)
      else err 400

  module _ {B : Type 0} (store : Store B) where
    unfoldable pub operate_write :
        Call
        → Bytes
        → Bytes
        → Operation
        → Bytes
        → Bytes
        → Result Err Analysis
        → World B
        → World B × Response
    unfolding serial_of create_backup commit
    operate_write call s k r cur bytes (err e) w = (w, refused 422)
    operate_write call s k r cur bytes (ok new) w =
        let before = serial_of (analysis codec cur) in
        let saved =
          commit store call s k bytes (operate_row call s k r before new)
            (done (some call.backup_id) (some new.serial)) (create_backup call s k cur before w) in
        if call.backup_fails then (w, refused 500) else saved

    unfoldable pub operate_changed :
        Call → Bytes → Bytes → Operation → Bytes → Result ℕ Json → World B → World B × Response
    unfolding operate_write
    operate_changed call s k r cur (err status) w = (w, refused status)
    operate_changed call s k r cur (ok v) w =
        operate_write call s k r cur (codec.bytes_of v) (analysis codec (codec.bytes_of v)) w

    unfoldable pub operate_read :
        Call → Bytes → Bytes → Operation → Reply → World B → World B × Response
    unfolding operate_changed change
    operate_read call s k r (found cur) w = operate_changed call s k r cur (change r cur) w
    operate_read call s k r missing w = (w, refused 502)
    operate_read call s k r broken w = (w, refused 502)

    -- deleteState, when the object is gone.
    unfoldable pub purge_backups :
        Call → Bytes → Bytes → Bool → Option ℤ → World B → World B × Response
    unfolding record_edit delete_backups
    purge_backups call s k false before w = (
      record_edit call
          (delete_row call s k (some call.backup_id) before success
            (codes "deleted state object (backup retained)"))
          w,
      done (some call.backup_id) none,
    )
    purge_backups call s k true before w =
        let lingering =
          record_edit call
            (delete_row call s k none before success
              (codes "deleted state object; purge of backups failed: " ++ call.error_text))
            w in
        let purged =
          record_edit call
            (delete_row call s k none before success
              (codes "deleted state object and purged all backups"))
            (record w { backups = delete_backups s k w.backups }) in
        if call.purge_fails then (lingering, done none none) else (purged, done none none)

    unfoldable pub delete_answered :
        Call → Bytes → Bytes → Bool → Option ℤ → Deletion → World B → World B × Response
    unfolding record_edit purge_backups
    delete_answered call s k purge before deleted w = purge_backups call s k purge before w
    delete_answered call s k purge before absent w = (w, refused 404)
    delete_answered call s k purge before stuck w = (
      record_edit call (delete_row call s k (some call.backup_id) before failed call.error_text) w,
      refused 502,
    )

    unfoldable pub delete_found : Call → Bytes → Bytes → Bool → Bytes → World B → World B × Response
    unfolding serial_of create_backup delete_answered
    delete_found call s k purge cur w =
        let before = serial_of (analysis codec cur) in
        let saved = create_backup call s k cur before w in
        let (answer, b) = store.delete s k saved.backend in
        let gone = delete_answered call s k purge before answer (record saved { backend = b }) in
        if call.backup_fails then (w, refused 500) else gone

    unfoldable pub delete_read : Call → Bytes → Bytes → Bool → Reply → World B → World B × Response
    unfolding delete_found
    delete_read call s k purge (found cur) w = delete_found call s k purge cur w
    delete_read call s k purge missing w = (w, refused 404)
    delete_read call s k purge broken w = (w, refused 502)

    unfoldable pub operate_locked : Call → Bytes → Bytes → Operation → World B → World B × Response
    unfolding is_delete delete_read operate_read
    operate_locked call s k r w =
        let (reply, b) = store.read s k w.backend in
        let next = record w { backend = b } in
        if is_delete r
        then delete_read call s k r.purge reply next
        else operate_read call s k r reply next

    unfoldable pub operate_source :
        Call → Bytes → Operation → Option ℕ → Result ℕ Bytes → World B → World B × Response
    unfolding acquire_lock under_lock operate_locked
    operate_source call k r (some status) source w = (w, refused status)
    operate_source call k r none (err status) w = (w, refused status)
    operate_source call k r none (ok s) w =
        under_lock store call s k (operate_locked call s k r) (acquire_lock store call s k w)

    -- StateOperation: `none` is a body without an operation.
    unfoldable pub state_operation :
        Call → Bytes → Option Operation → Result ℕ Bytes → World B → World B × Response
    unfolding early_refusal operate_source
    state_operation call key none source w = (w, refused 400)
    state_operation call key (some r) source w =
        if is_blank key
        then (w, refused 400)
        else operate_source call key r (early_refusal call key r) source w
