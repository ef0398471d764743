-- ===== src/DriftIngest/Summary.antt =====
-- plan.go: processChanges and Summarize.
use terraform_state_manager.Prelude.{
  ℕ, ◌+◌, List, [], ◌∷◌, ◌++◌, Bool, true, false, Option, none, some, Bytes, codes, if◌then◌else◌,
  leb, ltb, ◌&&◌, ◌||◌, str_eq, length,
}
use terraform_state_manager.DriftIngest.Canon.{canon, null_text}
use terraform_state_manager.DriftIngest.Attrs.{Floats, Change, AttrChange, changed_attrs}

pub record ResourceChange : Type 0 where
  pub address : Bytes
  pub change : Change

pub record SummaryEntry : Type 0 where
  pub address : Bytes
  pub actions : List Bytes
  pub attrs : List AttrChange

-- processedChanges, and the fields of Result that it fills.
pub record Processed : Type 0 where
  pub added : ℕ
  pub changed : ℕ
  pub destroyed : ℕ
  pub summary : List SummaryEntry
  pub unmasked : Bool
  pub omitted_entries : ℕ
  pub omitted_attrs : ℕ

abbrev pub max_entries : ℕ
max_entries = 500

abbrev pub max_attrs_per_entry : ℕ
max_attrs_per_entry = 50

unfoldable pub nothing_processed : Processed
nothing_processed = record {
  added = 0;
  changed = 0;
  destroyed = 0;
  summary = [];
  unmasked = false;
  omitted_entries = 0;
  omitted_attrs = 0;
}

unfoldable pub has_action : List Bytes → Bytes → Bool
has_action [] action = false
has_action (a ∷ as') action =
    let rest = has_action as' action in if str_eq a action then true else rest

-- `len(actions) == 1 && (actions[0] == "no-op" || actions[0] == "read")`
unfoldable pub is_skipped : List Bytes → Bool
is_skipped (a ∷ []) = str_eq a (codes "no-op") || str_eq a (codes "read")
is_skipped _ = false

abbrev bump : Bool → ℕ → ℕ
bump b n = if b then n + 1 else n

-- The three counts.
unfoldable pub count_actions : List Bytes → Processed → Processed
count_actions actions res = record res {
  added = bump (has_action actions (codes "create")) res.added;
  changed = bump (has_action actions (codes "update")) res.changed;
  destroyed = bump (has_action actions (codes "delete")) res.destroyed;
}

module _ (floats : Floats) where
  -- Neither sensitivity mirror is there.
  unfoldable pub lacks_mirrors : Change → Bool
  unfolding canon
  lacks_mirrors ch =
      str_eq (canon floats.number ch.before_sensitive) null_text
      && str_eq (canon floats.number ch.after_sensitive) null_text

  unfoldable pub mark_unmasked : Change → Bool → Processed → Processed
  mark_unmasked ch in_place res =
      if in_place && lacks_mirrors ch then record res { unmasked = true } else res

  -- The end of one round: a row, or one more omitted entry.
  unfoldable pub add_entry : ℕ → ResourceChange → List AttrChange → ℕ → Processed → Processed
  add_entry max rc attrs omitted res =
      if leb max (length res.summary)
      then record res { omitted_entries = res.omitted_entries + 1 }
      else record res {
        omitted_attrs = res.omitted_attrs + omitted;
        summary =
            res.summary
            ++ record { address = rc.address; actions = rc.change.actions; attrs = attrs } ∷ [];
      }

  unfoldable pub process_one : ℕ → ℕ → ResourceChange → Processed → Processed
  unfolding count_actions mark_unmasked add_entry
  process_one max max_attrs rc res =
      let (attrs, omitted, in_place) = changed_attrs floats rc.change max_attrs in
      if is_skipped rc.change.actions
      then res
      else add_entry max rc attrs omitted
          (mark_unmasked rc.change in_place (count_actions rc.change.actions res))

  unfoldable pub process_from : ℕ → ℕ → List ResourceChange → Processed → Processed
  process_from max max_attrs [] res = res
  process_from max max_attrs (rc ∷ rcs) res =
      process_from max max_attrs rcs (process_one max max_attrs rc res)

  unfoldable pub process_changes : List ResourceChange → ℕ → ℕ → Processed
  unfolding process_from nothing_processed
  process_changes changes max max_attrs = process_from max max_attrs changes nothing_processed

-- The arrays of a plan; `none` is a nil slice, from an absent key or an explicit null.
pub record Plan : Type 0 where
  pub resource_changes : Option (List ResourceChange)
  pub resource_drift : Option (List ResourceChange)

pub record Outcome : Type 0 where
  pub added : ℕ
  pub changed : ℕ
  pub destroyed : ℕ
  pub summary : List SummaryEntry
  pub drift_added : ℕ
  pub drift_changed : ℕ
  pub drift_destroyed : ℕ
  pub drift_summary : List SummaryEntry
  pub unparseable : Bool
  pub unmasked : Bool
  pub omitted_entries : ℕ
  pub omitted_attrs : ℕ

unfoldable pub truncated : Outcome → Bool
truncated r = ltb 0 r.omitted_entries || ltb 0 r.omitted_attrs

unfoldable pub drifted : Outcome → Bool
drifted r = ltb 0 (r.added + r.changed + r.destroyed)

abbrev pub elements {ℓ} : {A : Type ℓ} → Option (List A) → List A
elements none = []
elements (some xs) = xs

abbrev pub is_nil {ℓ} : {A : Type ℓ} → Option (List A) → Bool
is_nil none = true
is_nil (some xs) = false

-- Summarize; `none` is a nil plan.
unfoldable pub summarize : Floats → Option Plan → Outcome
summarize floats none = record {
  added = 0;
  changed = 0;
  destroyed = 0;
  summary = [];
  drift_added = 0;
  drift_changed = 0;
  drift_destroyed = 0;
  drift_summary = [];
  unparseable = true;
  unmasked = false;
  omitted_entries = 0;
  omitted_attrs = 0;
}
summarize floats (some plan) =
    let primary =
      process_changes floats (elements plan.resource_changes) max_entries max_attrs_per_entry in
    let drift =
      process_changes floats (elements plan.resource_drift) max_entries max_attrs_per_entry in
    record {
      added = primary.added;
      changed = primary.changed;
      destroyed = primary.destroyed;
      summary = primary.summary;
      drift_added = drift.added;
      drift_changed = drift.changed;
      drift_destroyed = drift.destroyed;
      drift_summary = drift.summary;
      unparseable = is_nil plan.resource_changes;
      unmasked = primary.unmasked;
      omitted_entries = primary.omitted_entries;
      omitted_attrs = primary.omitted_attrs;
    }
