-- ===== src/Edits/Diff.antt =====
-- edit.go: diffResources, DiffBackup and EditDiff, the previews of a restore and of an edit.
use terraform_state_manager.Prelude.{
  ℕ, List, [], ◌∷◌, ◌++◌, Bool, Option, none, some, Bytes, if◌then◌else◌, ◌==◌, ◌||◌, not, str_eq,
  Map, lookup, insert, Result, ok, err,
}
use terraform_state_manager.Prelude.Int.{ℤ}
use terraform_state_manager.Json.{Json}
use terraform_state_manager.Analyzer.Labels.{is_blank}
use terraform_state_manager.Analyzer.Listing.{ResourceSummary, list_resources}
use terraform_state_manager.Analyzer.Analyze.{Err}
use terraform_state_manager.Edits.Store.{Store, Reply, found, missing, broken}
use terraform_state_manager.Edits.World.{World, Call, Backup, get_backup}
use terraform_state_manager.Edits.Guarded.{Codec, analysis, serial_of}
use terraform_state_manager.Edits.Restore.{owned_backup}

pub record Diff : Type 0 where
  pub added : List ResourceSummary
  pub changed : List ResourceSummary
  pub removed : List ResourceSummary

-- key
unfoldable pub resource_key : ResourceSummary → Bytes
resource_key r = r.mod_path ++ (0 ∷ (r.mode ++ (0 ∷ (r.typ ++ (0 ∷ r.name)))))

-- currentBy
unfoldable pub index_by : List ResourceSummary → Map ResourceSummary → Map ResourceSummary
unfolding insert resource_key
index_by [] m = m
index_by (r ∷ rs) m = index_by rs (insert (resource_key r) r m)

-- inProposed
unfoldable pub key_set : List ResourceSummary → Map {0} Unit → Map {0} Unit
unfolding insert resource_key
key_set [] m = m
key_set (r ∷ rs) m = key_set rs (insert (resource_key r) tt m)

unfoldable pub keep_absent :
    ResourceSummary → Option {0} Unit → List ResourceSummary → List ResourceSummary
keep_absent r none rest = r ∷ rest
keep_absent r (some _) rest = rest

-- The second loop.
unfoldable pub removed_loop : Map {0} Unit → List ResourceSummary → List ResourceSummary
unfolding lookup resource_key keep_absent
removed_loop in_proposed [] = []
removed_loop in_proposed (r ∷ rs) =
    keep_absent r (lookup (resource_key r) in_proposed) (removed_loop in_proposed rs)

-- fmt.Sprint on a list of decoded keys.
module _ (sprint : List Json → Bytes) where
  -- The test of the second case.
  unfoldable pub is_changed : ResourceSummary → ResourceSummary → Bool
  unfolding str_eq
  is_changed cr p =
      not (cr.instances == p.instances)
      || not (str_eq (sprint cr.instance_keys) (sprint p.instance_keys))

  -- The switch, on the buckets of the later resources.
  unfoldable pub sort_in : ResourceSummary → Option ResourceSummary → Diff → Diff
  unfolding is_changed
  sort_in p none d = record d { added = p ∷ d.added }
  sort_in p (some cr) d = if is_changed cr p then record d { changed = p ∷ d.changed } else d

  -- The first loop, from the buckets with `removed` in place.
  unfoldable pub proposed_loop :
      Map ResourceSummary → List ResourceSummary → List ResourceSummary → Diff
  unfolding lookup resource_key sort_in
  proposed_loop by [] removed = record { added = []; changed = []; removed = removed }
  proposed_loop by (p ∷ ps) removed =
      sort_in p (lookup (resource_key p) by) (proposed_loop by ps removed)

  unfoldable pub diff_resources : List ResourceSummary → List ResourceSummary → Diff
  unfolding index_by key_set removed_loop proposed_loop
  diff_resources proposed current =
      proposed_loop (index_by current []) proposed (removed_loop (key_set proposed []) current)

-- The answer 200.
pub record Preview : Type 0 where
  pub key : Bytes
  pub proposed_serial : Option ℤ
  pub current_serial : Option ℤ
  pub diff : Diff

-- Of an instance, its index_key.
module _ (sprint : List Json → Bytes) (index_key : Json → Option Json) (codec : Codec) where
  abbrev pub resources_of : Bytes → Result Err (List ResourceSummary)
  resources_of bytes = list_resources index_key (codec.state_of bytes)

  unfoldable pub preview_found :
      Bytes
      → Option ℤ
      → List ResourceSummary
      → Option ℤ
      → Result Err (List ResourceSummary)
      → Result ℕ Preview
  unfolding diff_resources
  preview_found key serial proposed current_serial (err e) = err 422
  preview_found key serial proposed current_serial (ok current) = ok (record {
    key = key;
    proposed_serial = serial;
    current_serial = current_serial;
    diff = diff_resources sprint proposed current;
  })

  -- From the read on, which DiffBackup and EditDiff have in common.
  unfoldable pub preview_read : Bytes → Option ℤ → List ResourceSummary → Reply → Result ℕ Preview
  unfolding serial_of preview_found
  preview_read key serial proposed broken = err 502
  preview_read key serial proposed missing = preview_found key serial proposed none (ok [])
  preview_read key serial proposed (found cur) =
      preview_found key serial proposed (serial_of (analysis codec cur)) (resources_of cur)

  module _ {B : Type 0} (store : Store B) where
    unfoldable pub preview :
        Bytes → Bytes → Option ℤ → List ResourceSummary → World B → World B × Result ℕ Preview
    unfolding preview_read
    preview s key serial proposed w =
        let (reply, b) = store.read s key w.backend in
        (record w { backend = b }, preview_read key serial proposed reply)

    unfoldable pub edit_diff_listed :
        Bytes
        → Bytes
        → Result Err (List ResourceSummary)
        → Result ℕ Bytes
        → World B
        → World B × Result ℕ Preview
    unfolding serial_of preview
    edit_diff_listed key bytes (err e) source w = (w, err 422)
    edit_diff_listed key bytes (ok draft) (err status) w = (w, err status)
    edit_diff_listed key bytes (ok draft) (ok s) w =
        preview s key (serial_of (analysis codec bytes)) draft w

    -- EditDiff, on the body and the source as in EditState.
    unfoldable pub edit_diff :
        Bytes → Option Bytes → Result ℕ Bytes → World B → World B × Result ℕ Preview
    unfolding edit_diff_listed
    edit_diff key none source w = (w, err 400)
    edit_diff key (some bytes) source w =
        if is_blank key
        then (w, err 400)
        else edit_diff_listed key bytes (resources_of bytes) source w

    unfoldable pub diff_backup_listed :
        Bytes → Backup → Result Err (List ResourceSummary) → World B → World B × Result ℕ Preview
    unfolding preview
    diff_backup_listed s backup (err e) w = (w, err 422)
    diff_backup_listed s backup (ok listed) w = preview s backup.state_key backup.serial listed w

    unfoldable pub diff_backup_found : Result ℕ Backup → World B → World B × Result ℕ Preview
    unfolding diff_backup_listed
    diff_backup_found (err status) w = (w, err status)
    diff_backup_found (ok backup) w =
        diff_backup_listed backup.source_id backup (resources_of backup.bytes) w

    -- DiffBackup, on the source as in RestoreBackup.
    unfoldable pub diff_backup :
        Call → Bytes → Result ℕ Bytes → World B → World B × Result ℕ Preview
    unfolding get_backup owned_backup diff_backup_found
    diff_backup call backup_id source w =
        let run = diff_backup_found (owned_backup (get_backup backup_id w.backups) source) w in
        if call.load_fails then (w, err 500) else run
