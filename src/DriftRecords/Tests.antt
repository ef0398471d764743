-- ===== src/DriftRecords/Tests.antt =====
-- Concrete drift records: the theorems at inputs that meet their hypotheses, and runs.
use terraform_state_manager.Prelude.{
  List, [], ◌∷◌, true, false, none, some, ◌≡◌, refl, Bytes, codes, str_eq, arith, all, inl, not,
}
use terraform_state_manager.DriftRecords.Records.{
  resolved, Completeness, DriftRecord, Detection, is_resolved, detected, closed, mark_truncation,
  prune_resolved,
}
use terraform_state_manager.DriftRecords.Lifecycle.{
  Operation, detects, cleans, acknowledges, apply_all, live_count, HasOneLive, apply_all-HasOneLive,
}
use terraform_state_manager.DriftRecords.Finality.{IsRow, is_pruning, apply_all-IsRow}

abbrev bounded : Completeness
bounded = record {
  truncated = false;
  omitted_entries = 2;
  omitted_attrs = 0;
  unparseable = false;
  unmasked = false;
}

abbrev detection : Bytes → Detection
detection ref = record {
  source_id = codes "s";
  state_key = codes "k";
  pipeline_connection_id = none;
  run_id = none;
  origin = codes "ingest";
  added = 1;
  changed = 0;
  destroyed = 0;
  summary = [];
  external_ref = some ref;
  completeness = bounded;
  infra = record { added = 0; changed = 0; destroyed = 0; summary = none };
}

-- A pipeline reports twice, someone acknowledges, a clean result resolves, and the pipeline retries.
abbrev operations : List Operation
operations =
    detects 1 (codes "r1") (some (codes "o")) (detection (codes "run1"))
    ∷ detects 2 (codes "r2") (some (codes "o")) (detection (codes "run1"))
    ∷ acknowledges 3 (codes "r1") (codes "ann") (codes "known")
    ∷ cleans 4 (codes "s") (codes "k")
    ∷ detects 5 (codes "r3") (some (codes "o")) (detection (codes "run1"))
    ∷ []

no_rows : HasOneLive []
unfolding HasOneLive live_count
no_rows s k = omega arith

apply_all-HasOneLive_example : HasOneLive (apply_all operations [])
apply_all-HasOneLive_example = apply_all-HasOneLive operations [] no_rows

abbrev old : DriftRecord
old = closed 1 (detected 0 (codes "r0") (codes "o") (detection (codes "run0")))

old_resolved : is_resolved old.status ≡ true
unfolding is_resolved
old_resolved = refl

old_there : IsRow old (old ∷ [])
unfolding IsRow
old_there = inl refl

unpruned : all (λ o. not (is_pruning o)) operations ≡ true
unfolding is_pruning
unpruned = refl

apply_all-IsRow_example : IsRow old (apply_all operations (old ∷ []))
apply_all-IsRow_example = apply_all-IsRow old old_resolved operations (old ∷ []) unpruned old_there

abbrev first : DriftRecord
first = detected 1 (codes "r1") (codes "o") (detection (codes "run1"))

-- The replay of a resolved run makes no second record.
replay_test :
    apply_all operations []
    ≡ record first {
      status = resolved;
      acknowledged_by = codes "ann";
      acknowledged_at = some 3;
      ack_note = codes "known";
      resolved_at = some 4;
      detections = 2;
      last_detected_at = 2;
    }
      ∷ []
unfolding apply_all detected str_eq
replay_test = refl

truncation_test : (mark_truncation bounded).truncated ≡ true
unfolding mark_truncation
truncation_test = refl

prune_test : prune_resolved 5 100 (old ∷ []) ≡ some []
unfolding prune_resolved detected
prune_test = refl
