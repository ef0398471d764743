-- ===== src/DriftIngest/Tests.antt =====
-- plan.go on a concrete plan: the theorems at inputs that meet their hypotheses, and runs.
use terraform_state_manager.Prelude.{
  ℕ, zero, suc, ◌<◌, not, ◌+◌, ◌-◌, ◌≤◌, List, [], ◌∷◌, ◌++◌, true, none, some, ◌≡◌, refl, Bytes,
  codes, any, length, take, All, str_eq, str_lt, lookup, sort_strings,
}
use mathlib.Core.Logic.{◌⊎◌}
use terraform_state_manager.Json.{bool, num, str, obj, Fields, end, field, entries}
use terraform_state_manager.DriftIngest.Canon.{rune_count, truncate, ellipsis}
use terraform_state_manager.DriftIngest.Attrs.{
  Floats, Change, as_object, sorted_union, changed_attrs,
}
use terraform_state_manager.DriftIngest.Summary.{
  ResourceChange, process_changes, Plan, drifted, summarize,
}
use terraform_state_manager.DriftIngest.Rows.{rows, process_changes-summary}
use terraform_state_manager.DriftIngest.Counts.{
  tally, counted, is_unmasked, plans_change, process_changes-counts, summarize-drifted,
}
use terraform_state_manager.DriftIngest.Masking.{
  all_attrs, IsMasked, changed_attrs-in_place, changed_attrs-IsMasked,
}
use terraform_state_manager.DriftIngest.Truncation.{truncate-prefix}

-- Literals kept as they are written; only "0" is zero.
abbrev floats : Floats
floats = record {
  number = λ s. s;
  is_zero = λ s. str_eq s (codes "0");
  in_range = λ s. not (str_eq s (codes "1e999"));
}

abbrev before : Fields
before =
    field (codes "size") (num (codes "1"))
      (field (codes "password") (str (codes "old")) (field (codes "name") (str (codes "n")) end))

abbrev after : Fields
after =
    field (codes "size") (num (codes "2"))
      (field (codes "password") (str (codes "new")) (field (codes "name") (str (codes "n")) end))

abbrev update : Change
update = record {
  actions = codes "update" ∷ [];
  before = some (obj before);
  after = some (obj after);
  before_sensitive = some (obj (field (codes "password") (bool true) end));
  after_sensitive = none;
}

abbrev noop : Change
noop = record {
  actions = codes "no-op" ∷ [];
  before = none;
  after = none;
  before_sensitive = none;
  after_sensitive = none;
}

abbrev changes : List ResourceChange
changes =
    record { address = codes "a.b"; change = noop }
    ∷ record { address = codes "c.d"; change = update }
    ∷ []

abbrev plan : Plan
plan = record { resource_changes = some changes; resource_drift = none }

process_changes-summary_example :
    (process_changes floats changes 500 50).summary ≡ take 500 (rows floats 500 50 changes)
process_changes-summary_example = process_changes-summary floats 500 50 changes

process_changes-counts_example :
    let res = process_changes floats changes 500 50 in
    (res.added ≡ tally (counted (codes "create")) changes)
    × (res.changed ≡ tally (counted (codes "update")) changes)
    × (res.destroyed ≡ tally (counted (codes "delete")) changes)
    × (length res.summary + res.omitted_entries ≡ length (rows floats 500 50 changes))
    × (res.unmasked ≡ any (is_unmasked floats 500 50) changes)
process_changes-counts_example = process_changes-counts floats 500 50 changes

summarize-drifted_example : drifted (summarize floats (some plan)) ≡ any plans_change changes
summarize-drifted_example = summarize-drifted floats plan

before_object : as_object update.before ≡ some (entries before)
unfolding as_object
before_object = refl

after_object : as_object update.after ≡ some (entries after)
unfolding as_object
after_object = refl

changed_attrs-in_place_test :
    let b = entries before in
    let a = entries after in
    let every = all_attrs floats update b a (sorted_union b a) in
    changed_attrs floats update 1 ≡ (take 1 every, length every - 1, true)
changed_attrs-in_place_test =
    changed_attrs-in_place floats update 1 (entries before) (entries after) before_object
      after_object

changed_attrs-IsMasked_example : All (IsMasked floats update) (changed_attrs floats update 50).0
changed_attrs-IsMasked_example = changed_attrs-IsMasked floats update 50

masked_test :
    (changed_attrs floats update 50).0
    ≡ record {
      name = codes "password";
      before = some (codes "(sensitive)");
      after = some (codes "(sensitive)");
    }
      ∷ record { name = codes "size"; before = some (codes "1"); after = some (codes "2") }
      ∷ []
unfolding changed_attrs str_eq str_lt lookup sort_strings
masked_test = refl

-- A text of so many letters.
abbrev letters : ℕ → Bytes
letters zero = []
letters (suc n) = b'a' ∷ letters n

truncate-prefix_example :
    ((rune_count (letters 301) ≤ 300) × (truncate (letters 301) ≡ letters 301))
    ⊎ ((300 < rune_count (letters 301))
        × (p : Bytes) × (rest : Bytes) × (letters 301 ≡ p ++ rest)
        × (rune_count p ≡ 300)
        × (truncate (letters 301) ≡ p ++ ellipsis)
        × (rune_count (truncate (letters 301)) ≡ 301))
truncate-prefix_example = truncate-prefix (letters 301)

-- A text of exactly 300 runes is not cut.
bound_test : truncate (letters 300) ≡ letters 300
unfolding truncate rune_count
bound_test = refl
