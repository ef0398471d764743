-- ===== src/Edits/Guarded.antt =====
-- edit.go: EditState, guarded by the serial and the lineage of the current state.
use terraform_state_manager.Prelude.{
  ℕ, [], Bool, true, false, Option, none, some, Bytes, codes, if◌then◌else◌, ltb, ◌&&◌, ◌||◌, not,
  str_eq, Result, ok, err,
}
use terraform_state_manager.Prelude.Int.{ℤ, pos, negsuc}
use terraform_state_manager.Json.{Json}
use terraform_state_manager.Analyzer.Labels.{is_blank}
use terraform_state_manager.Analyzer.Legacy.{State}
use terraform_state_manager.Analyzer.Analyze.{Analysis, Err, analyze}
use terraform_state_manager.Edits.Store.{Store, Reply, found, missing, broken}
use terraform_state_manager.Edits.World.{
  World, Call, Edit, Release, create_backup, record_edit, acquire_lock, release_lock,
}

-- encoding/json on the bytes of a state, and the comparison of a float key with an index.
pub record Codec : Type 0 where
  pub state_of : Bytes → Option State
  pub json_of : Bytes → Option Json
  pub bytes_of : Json → Bytes
  pub float_eq : Bytes → ℤ → Bool

abbrev pub analysis : Codec → Bytes → Result Err Analysis
analysis codec bytes = analyze (codec.state_of bytes)

-- An answer with an error status, or 200 with the id of the backup and the new serial.
pub data Response : Type 0 where
  refused : ℕ → Response
  done : Option Bytes → Option ℤ → Response

unfoldable pub int_lt : ℤ → ℤ → Bool
int_lt (pos m) (pos n) = ltb m n
int_lt (pos m) (negsuc n) = false
int_lt (negsuc m) (pos n) = true
int_lt (negsuc m) (negsuc n) = ltb n m

unfoldable pub serial_of : Result Err Analysis → Option ℤ
serial_of (ok a) = some a.serial
serial_of (err e) = none

unfoldable pub is_regression : Analysis → Analysis → Bool
unfolding int_lt
is_regression new cur = int_lt new.serial cur.serial

unfoldable pub is_lineage_clash : Analysis → Analysis → Bool
is_lineage_clash new cur =
    not (is_blank cur.lineage)
    && (not (is_blank new.lineage) && not (str_eq cur.lineage new.lineage))

-- The checks on a current state that could be analyzed.
unfoldable pub is_conflict : Bool → Analysis → Result Err Analysis → Bool
unfolding is_regression is_lineage_clash
is_conflict force new (ok cur) = not force && (is_regression new cur || is_lineage_clash new cur)
is_conflict force new (err e) = false

abbrev pub success : Bytes
success = codes "success"

abbrev pub failed : Bytes
failed = codes "failed"

module _ {B : Type 0} (store : Store B) where
  -- The write, its row in the ledger, and the answer.
  unfoldable pub commit :
      Call → Bytes → Bytes → Bytes → Edit → Response → World B → World B × Response
  unfolding record_edit
  commit call s k bytes e answer w =
      let (written, b) = store.write s k bytes w.backend in
      if written then (record_edit call e (record w { backend = b }), answer) else (
        record_edit call (record e { outcome = failed; detail = call.error_text })
            (record w { backend = b }),
        refused 502,
      )

  -- With the lock held: the handler's part, then release. `none` is the answer 409.
  unfoldable pub under_lock :
      Call
      → Bytes
      → Bytes
      → (World B → World B × Response)
      → Option Release × World B
      → World B × Response
  unfolding release_lock
  under_lock call s k body (none, w) = (w, refused 409)
  under_lock call s k body (some r, w) =
      let (next, answer) = body w in (release_lock store call s k r next, answer)

  module _ (codec : Codec) where
    abbrev edit_row : Call → Bool → Bytes → Bytes → Option Bytes → Option ℤ → Analysis → Edit
    edit_row call force s k backup_id before new = record {
      source_id = s;
      state_key = k;
      operation = codes "raw_replace";
      actor = call.actor;
      backup_id = backup_id;
      before_serial = before;
      after_serial = some new.serial;
      outcome = success;
      detail = if force then codes "forced: serial/lineage checks overridden" else [];
    }

    unfoldable pub edit_write :
        Call
        → Bool
        → Bytes
        → Bytes
        → Bytes
        → Analysis
        → Option Bytes
        → Option ℤ
        → World B
        → World B × Response
    unfolding commit
    edit_write call force s k bytes new backup_id before w =
        commit call s k bytes (edit_row call force s k backup_id before new)
          (done backup_id (some new.serial)) w

    unfoldable pub edit_found :
        Call → Bool → Bytes → Bytes → Bytes → Analysis → Bytes → World B → World B × Response
    unfolding is_conflict serial_of create_backup edit_write
    edit_found call force s k bytes new cur w =
        let before = serial_of (analysis codec cur) in
        let saved = create_backup call s k cur before w in
        if is_conflict force new (analysis codec cur)
        then (w, refused 409)
        else if call.backup_fails
        then (w, refused 500)
        else edit_write call force s k bytes new (some call.backup_id) before saved

    unfoldable pub edit_read :
        Call → Bool → Bytes → Bytes → Bytes → Analysis → Reply → World B → World B × Response
    unfolding edit_write edit_found
    edit_read call force s k bytes new broken w = (w, refused 502)
    edit_read call force s k bytes new missing w = edit_write call force s k bytes new none none w
    edit_read call force s k bytes new (found cur) w = edit_found call force s k bytes new cur w

    unfoldable pub edit_locked :
        Call → Bool → Bytes → Bytes → Bytes → Analysis → World B → World B × Response
    unfolding edit_read
    edit_locked call force s k bytes new w =
        let (reply, b) = store.read s k w.backend in
        edit_read call force s k bytes new reply (record w { backend = b })

    unfoldable pub edit_source :
        Call → Bool → Bytes → Bytes → Analysis → Result ℕ Bytes → World B → World B × Response
    unfolding acquire_lock under_lock edit_locked
    edit_source call force k bytes new (err status) w = (w, refused status)
    edit_source call force k bytes new (ok s) w =
        under_lock call s k (edit_locked call force s k bytes new) (acquire_lock store call s k w)

    unfoldable pub edit_analyzed :
        Call
        → Bool
        → Bytes
        → Bytes
        → Result Err Analysis
        → Result ℕ Bytes
        → World B
        → World B × Response
    unfolding edit_source
    edit_analyzed call force k bytes (err e) source w = (w, refused 422)
    edit_analyzed call force k bytes (ok new) source w = edit_source call force k bytes new source w

    -- EditState: the body as io.LimitReader passes it on (`none` when it cannot be read) and the source, or the status with which
    -- sourceAndConnector refuses.
    unfoldable pub edit_state :
        Call → Bool → Bytes → Option Bytes → Result ℕ Bytes → World B → World B × Response
    unfolding edit_analyzed
    edit_state call force key none source w = (w, refused 400)
    edit_state call force key (some bytes) source w =
        if is_blank key
        then (w, refused 400)
        else edit_analyzed call force key bytes (analysis codec bytes) source w
