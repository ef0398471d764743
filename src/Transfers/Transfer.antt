-- ===== src/Transfers/Transfer.antt =====
-- transfer.go: doTransfer, verifyTransfer and emptyState.
use terraform_state_manager.Prelude.{
  ℕ, List, Bool, true, false, Option, none, some, Bytes, codes, if◌then◌else◌, ◌==◌, ◌&&◌, ◌||◌,
  not, str_eq, Result, ok, err,
}
use terraform_state_manager.Prelude.Int.{ℤ, succ_int64, print_int}
use terraform_state_manager.Json.{Json, str, num, arr, obj, nil, end, field}
use terraform_state_manager.Analyzer.Analyze.{Analysis, Err}
use terraform_state_manager.Edits.Store.{Store, Reply, found, missing, broken}
use terraform_state_manager.Edits.World.{World, Call, Edit, create_backup, record_edit}
use terraform_state_manager.Edits.Guarded.{Codec, analysis, success, failed}
use terraform_state_manager.Transfers.Pair.{
  LockTarget, Locked, release_all, acquire_transfer_locks, unreachable,
}

pub data Mode : Type 0 where
  backup migrate : Mode

-- What verifyTransfer says.
pub data Verification : Type 0 where
  not_analyzed unreadable target_not_analyzed parity_mismatch verified : Verification

-- Why the source was not emptied.
pub data Obstacle : Type 0 where
  source_gone source_unverifiable source_changed backup_failed write_failed : Obstacle

-- The row of the transfer, its detail by the messages that it is put together from.
pub record Transfer : Type 0 where
  pub mode : Mode
  pub source_id : Bytes
  pub source_key : Bytes
  pub target_source_id : Bytes
  pub target_key : Bytes
  pub actor : Bytes
  pub status : Bytes
  pub verification : Option Verification
  pub obstacle : Option Obstacle
  pub decommissioned : Bool

-- The answer: its status, and the row, if the transfer came to write one.
pub record Answer : Type 0 where
  pub status : ℕ
  pub row : Option Transfer

abbrev pub turned_away : ℕ → Answer
turned_away status = record { status = status; row = none }

unfoldable pub int_eq : ℤ → ℤ → Bool
int_eq a b = str_eq (print_int a) (print_int b)

unfoldable pub is_parity : Analysis → Analysis → Bool
unfolding int_eq
is_parity src tgt =
    int_eq tgt.serial src.serial
    && (str_eq tgt.lineage src.lineage
        && (tgt.total_resources == src.total_resources
            && tgt.managed_resources == src.managed_resources))

unfoldable pub is_verified : Verification → Bool
is_verified verified = true
is_verified v = false

unfoldable pub check_parity : Analysis → Result Err Analysis → Verification
unfolding is_parity
check_parity src (err e) = target_not_analyzed
check_parity src (ok tgt) = if is_parity src tgt then verified else parity_mismatch

unfoldable pub has_changed : Analysis → Result Err Analysis → Bool
unfolding int_eq
has_changed src (ok latest) =
    not (int_eq latest.serial src.serial) || not (str_eq latest.lineage src.lineage)
has_changed src (err e) = false

-- emptyState, before it is printed.
unfoldable pub empty_state : Analysis → Json
unfolding succ_int64 print_int
empty_state a = obj (
    field (codes "lineage") (str a.lineage) (
      field (codes "outputs") (obj end) (
        field (codes "resources") (arr nil) (
          field (codes "serial") (num (print_int (succ_int64 a.serial))) (
            field (codes "terraform_version") (str a.terraform_version)
              (field (codes "version") (num (codes "4")) end))))))

-- What a request and its surroundings give.
pub record Setting : Type 0 where
  pub mode : Mode
  pub force : Bool
  pub decommission : Bool
  pub source : LockTarget
  pub target : LockTarget
  pub lock_call : LockTarget → Call
  pub call : Call
  pub save_fails : Bool

abbrev pub first_row : Setting → Transfer
first_row t = record {
  mode = t.mode;
  source_id = t.source.source_id;
  source_key = t.source.key;
  target_source_id = t.target.source_id;
  target_key = t.target.key;
  actor = t.call.actor;
  status = success;
  verification = none;
  obstacle = none;
  decommissioned = false;
}

-- verifyTransfer of an analyzed source, on the reply of the target.
unfoldable pub verification_of : Codec → Analysis → Reply → Verification
unfolding check_parity
verification_of codec src (found d) = check_parity src (analysis codec d)
verification_of codec src missing = unreadable
verification_of codec src broken = unreadable

-- The last look at the source; `none` lets the decommission go on.
unfoldable pub conflict_of : Codec → Analysis → Reply → Option Obstacle
unfolding has_changed
conflict_of codec src missing = some source_gone
conflict_of codec src broken = some source_unverifiable
conflict_of codec src (found d) =
    if has_changed src (analysis codec d) then some source_changed else none

module _ {B : Type 0} (store : Store B) (codec : Codec) where
  -- The write of the empty state.
  unfoldable pub empty_source : Setting → Analysis → Transfer → World B → World B × Transfer
  unfolding record_edit empty_state succ_int64
  empty_source t src row w =
      let (written, b) =
        store.write t.source.source_id t.source.key (codec.bytes_of (empty_state src)) w.backend in
      let e : Edit = record {
        source_id = t.source.source_id;
        state_key = t.source.key;
        operation = codes "decommission";
        actor = t.call.actor;
        backup_id = none;
        before_serial = some src.serial;
        after_serial = some (succ_int64 src.serial);
        outcome = success;
        detail = codes "emptied after migrate";
      } in
      if written
      then (record_edit t.call e (record w { backend = b }), record row { decommissioned = true })
      else (record w { backend = b }, record row { obstacle = some write_failed })

  unfoldable pub decommission_with :
      Setting → Analysis → Bytes → Transfer → Option Obstacle → World B → World B × Transfer
  unfolding create_backup empty_source
  decommission_with t src raw row (some why) w = (w, record row { obstacle = some why })
  decommission_with t src raw row none w =
      let saved = create_backup t.call t.source.source_id t.source.key raw (some src.serial) w in
      let emptied = empty_source t src row saved in
      if t.call.backup_fails then (w, record row { obstacle = some backup_failed }) else emptied

  unfoldable pub decommission : Setting → Analysis → Bytes → Transfer → World B → World B × Transfer
  unfolding conflict_of decommission_with
  decommission t src raw row w =
      let (reply, b) = store.read t.source.source_id t.source.key w.backend in
      let checked =
        decommission_with t src raw row (conflict_of codec src reply) (record w { backend = b }) in
      let forced = decommission_with t src raw row none w in if t.force then forced else checked

  -- After the verification of a migration.
  unfoldable pub finish : Setting → Analysis → Bytes → Verification → World B → World B × Transfer
  unfolding is_verified decommission
  finish t src raw v w =
      let row : Transfer = record (first_row t) { verification = some v } in
      let emptied = decommission t src raw row w in
      if is_verified v
      then (if t.decommission then emptied else (w, row))
      else (w, record row { status = codes "verification_failed" })

  unfoldable pub after_write :
      Setting → Mode → Result Err Analysis → Bytes → World B → World B × Transfer
  unfolding verification_of finish
  after_write t backup src raw w = (w, first_row t)
  after_write t migrate (err e) raw w = (
    w,
    record (first_row t) { verification = some not_analyzed; status = codes "verification_failed" },
  )
  after_write t migrate (ok src) raw w =
      let (reply, b) = store.read t.target.source_id t.target.key w.backend in
      finish t src raw (verification_of codec src reply) (record w { backend = b })

  unfoldable pub saved_answer : Setting → World B × Transfer → World B × Answer
  saved_answer t (w, row) =
      (w, record { status = if t.save_fails then 500 else 200; row = some row })

  unfoldable pub copy_found : Setting → Bytes → World B → World B × Answer
  unfolding after_write saved_answer
  copy_found t raw w =
      let (written, b) = store.write t.target.source_id t.target.key raw w.backend in
      let next : World B = record w { backend = b } in
      let went_on = saved_answer t (after_write t t.mode (analysis codec raw) raw next) in
      if written
      then went_on
      else (next, record { status = 502; row = some (record (first_row t) { status = failed }) })

  unfoldable pub copy_read : Setting → Reply → World B → World B × Answer
  unfolding copy_found
  copy_read t (found raw) w = copy_found t raw w
  copy_read t missing w = (w, turned_away 502)
  copy_read t broken w = (w, turned_away 502)

  unfoldable pub copy_locked : Setting → World B → World B × Answer
  unfolding copy_read
  copy_locked t w =
      let (reply, b) = store.read t.source.source_id t.source.key w.backend in
      copy_read t reply (record w { backend = b })

  unfoldable pub transfer_under : Setting → Option Locked × World B → World B × Answer
  unfolding release_all copy_locked
  transfer_under t (none, w) = (w, turned_away 409)
  transfer_under t (some locked, w) =
      let (next, answer) = copy_locked t w in (release_all store t.lock_call locked next, answer)

  unfoldable pub transfer_reached : Setting → Option ℕ → World B → World B × Answer
  unfolding acquire_transfer_locks transfer_under
  transfer_reached t (some status) w = (w, turned_away status)
  transfer_reached t none w =
      transfer_under t (acquire_transfer_locks store t.lock_call t.source t.target w)

  -- doTransfer, from the two sources and the acting organization on; `ends` are the organizations of
  -- the sources.
  unfoldable pub do_transfer :
      Setting → Option (Bytes → Bool) → List Bytes → World B → World B × Answer
  unfolding unreachable transfer_reached
  do_transfer t scope ends w = transfer_reached t (unreachable scope ends) w
