-- ===== src/Edits/Tests.antt =====
-- Concrete runs of the edit plane on a backend in memory: the theorems at inputs that meet their
-- hypotheses, and runs.
use terraform_state_manager.Prelude.{
  ℕ, List, [], ◌∷◌, true, false, none, some, ◌≡◌, refl, Bytes, codes, if◌then◌else◌, length, str_eq,
  ok, take, select,
}
use terraform_state_manager.Prelude.Int.{pos}
use terraform_state_manager.Json.{null}
use terraform_state_manager.Analyzer.Analyze.{Analysis, analyze}
use terraform_state_manager.Edits.World.{World, Call, Backup, is_at}
use terraform_state_manager.Edits.Guarded.{Codec, Response, done, refused, analysis, edit_state}
use terraform_state_manager.Edits.Operate.{Operation, state_operation}
use terraform_state_manager.Edits.Restore.{restore_backup}
use terraform_state_manager.Edits.History.{Request, edits, operates, restores, handle_all}
use terraform_state_manager.Edits.Outcome.{IsReplaced, edit_state-done}
use terraform_state_manager.Edits.Undo.{restore_backup-edit_state}
use terraform_state_manager.Edits.Retention.{prune_backups, prune_backups-take}
use terraform_state_manager.Edits.Memory.{Memory, memory}

-- A state is written as one letter for each unit of its serial.
abbrev codec : Codec
codec = record {
  state_of = λ d. some (record {
    version = pos 4;
    terraform_version = codes "1.9.0";
    serial = pos (length d);
    lineage = codes "l";
    resources = [];
    modules = [];
  });
  json_of = λ d. some null;
  bytes_of = λ v. codes "xxxx";
  float_eq = λ k i. false;
}

abbrev call : Call
call = record {
  now = 10;
  actor = codes "ann";
  is_admin = true;
  lock_id = codes "l1";
  backup_id = codes "b1";
  load_fails = false;
  lock_fails = false;
  backup_fails = false;
  purge_fails = false;
  record_fails = false;
  release_fails = false;
  error_text = codes "timeout";
}

abbrev call2 : Call
call2 = record call { now = 20; lock_id = codes "l2"; backup_id = codes "b2" }

abbrev start : World Memory
start = record {
  backend = λ s k. if str_eq s (codes "s") then some (codes "xx") else none;
  backups = [];
  edits = [];
  locks = [];
}

abbrev edit : World Memory → World Memory × Response
edit w = edit_state memory codec call false (codes "k") (some (codes "yyy")) (ok (codes "s")) w

edited : (edit start).1 ≡ done (some (codes "b1")) (some (pos 3))
unfolding edit_state str_eq analyze
edited = refl

edit_state-done_example :
    (a : Analysis) × (analysis codec (codes "yyy") ≡ ok a)
    × IsReplaced memory codec call false
        (codes "s")
        (codes "k")
        (codes "yyy")
        a
        (some (codes "b1"))
        start
        (edit start).0
edit_state-done_example =
    edit_state-done memory codec call false (codes "s") (codes "k") (codes "yyy") start
      (some (codes "b1")) (some (pos 3)) edited

restored :
    (restore_backup memory codec call2 (codes "b1") (ok (codes "s")) (edit start).0).1
    ≡ done none none
unfolding edit_state restore_backup str_eq analyze
restored = refl

start_content : start.backend (codes "s") (codes "k") ≡ some (codes "xx")
unfolding str_eq
start_content = refl

restore_backup-edit_state_example :
    (restore_backup memory codec call2 (codes "b1") (ok (codes "s")) (edit start).0).0.backend
      (codes "s")
      (codes "k")
    ≡ some (codes "xx")
restore_backup-edit_state_example =
    restore_backup-edit_state memory codec call call2 false (codes "s") (codes "k") (codes "yyy")
      (codes "xx") start (some (codes "b1")) none (some (pos 3)) none start_content edited restored

-- Without force a lower serial is a conflict, and nothing changes.
regression_test :
    (edit_state memory codec call false (codes "k") (some (codes "y")) (ok (codes "s")) start).1
    ≡ refused 409
unfolding edit_state str_eq analyze
regression_test = refl

-- A failed insert of the backup keeps the write from happening.
backup_test :
    (edit_state memory codec
        (record call { backup_fails = true })
        true
        (codes "k")
        (some (codes "y"))
        (ok (codes "s"))
        start).0.backend
      (codes "s")
      (codes "k")
    ≡ some (codes "xx")
unfolding edit_state str_eq analyze
backup_test = refl

abbrev removal : Operation
removal = record { op = codes "delete"; address = []; target = []; key = codes "k"; purge = false }

abbrev requests : List Request
requests =
    edits call true (codes "k") (some (codes "y")) (ok (codes "s"))
    ∷ operates call2 (codes "k") (some removal) (ok (codes "s"))
    ∷ restores call (codes "b2") (ok (codes "s"))
    ∷ []

requests_test :
    (handle_all memory codec requests start).backend (codes "s") (codes "k") ≡ some (codes "y")
unfolding handle_all str_eq analyze
requests_test = refl

-- Only an administrator deletes.
admin_test :
    (state_operation codec memory
      (record call { is_admin = false })
      (codes "k")
      (some removal)
      (ok (codes "s"))
      start).1
    ≡ refused 403
unfolding state_operation str_eq analyze
admin_test = refl

abbrev aged : Bytes → ℕ → Backup
aged id time = record {
  id = id;
  source_id = codes "s";
  state_key = codes "k";
  bytes = [];
  serial = none;
  created_by = [];
  created_at = time;
}

abbrev history : List Backup
history = aged (codes "c") 30 ∷ aged (codes "b") 20 ∷ aged (codes "a") 10 ∷ []

pruned : prune_backups 2 5 100 history ≡ ok (aged (codes "c") 30 ∷ aged (codes "b") 20 ∷ [])
unfolding prune_backups str_eq
pruned = refl

prune_backups-take_example :
    take 2 (select (is_at (codes "s") (codes "k")) (aged (codes "c") 30 ∷ aged (codes "b") 20 ∷ []))
    ≡ take 2 (select (is_at (codes "s") (codes "k")) history)
prune_backups-take_example =
    prune_backups-take 2 5 100 (codes "s") (codes "k") history
      (aged (codes "c") 30 ∷ aged (codes "b") 20 ∷ []) pruned
