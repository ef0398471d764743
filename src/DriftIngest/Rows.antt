-- ===== src/DriftIngest/Rows.antt =====
-- plan.go: processChanges against a description by rows and counts, in which no cap and no order of
-- the loop occurs.
use terraform_state_manager.Prelude.{
  ℕ, ◌+◌, ◌≤◌, List, [], ◌∷◌, ◌++◌, append_assoc, Bool, true, false, ◌≡◌, refl, sym, ◌∙◌, Bytes,
  arith, if◌then◌else◌, leb, not, length, length-append, take, take_all, tests, take_full, select,
  Bool-cases, inl, inr, map,
}
use terraform_state_manager.DriftIngest.Attrs.{Floats, changed_attrs}
use terraform_state_manager.DriftIngest.Summary.{
  ResourceChange, SummaryEntry, Processed, nothing_processed, has_action, is_skipped, process_one,
  process_from, process_changes,
}

-- A change that is neither a no-op nor a read.
abbrev pub counts : ResourceChange → Bool
counts rc = not (is_skipped rc.change.actions)

abbrev pub has : Bytes → ResourceChange → Bool
has action rc = has_action rc.change.actions action

module _ (floats : Floats) (max max_attrs : ℕ) where
  -- The row that a change gives.
  unfoldable pub row : ResourceChange → SummaryEntry
  row rc = record {
    address = rc.address;
    actions = rc.change.actions;
    attrs = (changed_attrs floats rc.change max_attrs).0;
  }

  -- The rows of the changes that are not skipped.
  unfoldable pub rows : List ResourceChange → List SummaryEntry
  rows rcs = map row (select counts rcs)

  -- One round, when the change is skipped and when it is not.
  pub one_skipped :
      (rc : ResourceChange) (res : Processed)
      → is_skipped rc.change.actions ≡ true
      → process_one floats max max_attrs rc res ≡ res
  unfolding process_one
  one_skipped rc res h = rw h

  pub one_summary :
      (rc : ResourceChange) (res : Processed)
      → is_skipped rc.change.actions ≡ false
      → (process_one floats max max_attrs rc res).summary
        ≡ (if leb max (length res.summary) then res.summary else res.summary ++ row rc ∷ [])
  unfolding process_one row
  one_summary rc res h = ground arith

  pub one_omitted :
      (rc : ResourceChange) (res : Processed)
      → is_skipped rc.change.actions ≡ false
      → (process_one floats max max_attrs rc res).omitted_entries
        ≡ (if leb max (length res.summary) then res.omitted_entries + 1 else res.omitted_entries)
  unfolding process_one
  one_omitted rc res h = ground arith

  pub select_skipped :
      (rc : ResourceChange) (rcs : List ResourceChange)
      → is_skipped rc.change.actions ≡ true
      → rows (rc ∷ rcs) ≡ rows rcs
  unfolding rows
  select_skipped rc rcs h = rw h

  pub select_kept :
      (rc : ResourceChange) (rcs : List ResourceChange)
      → is_skipped rc.change.actions ≡ false
      → rows (rc ∷ rcs) ≡ row rc ∷ rows rcs
  unfolding rows
  select_kept rc rcs h = rw h

  pub process_from-cons :
      (rc : ResourceChange) (rcs : List ResourceChange) (res : Processed)
      → process_from floats max max_attrs (rc ∷ rcs) res
        ≡ process_from floats max max_attrs rcs (process_one floats max max_attrs rc res)
  unfolding process_from
  process_from-cons rc rcs res = refl

  -- The summary is a prefix of the rows, behind what the loop began with.
  process_from-summary :
      (rcs : List ResourceChange) (res : Processed)
      → length res.summary ≤ max
      → (process_from floats max max_attrs rcs res).summary ≡ take max (res.summary ++ rows rcs)
  process_from-summary [] res h = unfold rows process_from in sym (take_all max res.summary h)
  process_from-summary (rc ∷ rcs) res h =
      let next = process_one floats max max_attrs rc res in
      rw process_from-cons (elim (Bool-cases (is_skipped rc.change.actions)) [
        | inl e ↦
            rw (one_skipped rc res e, select_skipped rc rcs e) (process_from-summary rcs res h)
        | inr e ↦ elim (Bool-cases (leb max (length res.summary))) [
          | inl full ↦
              let same : next.summary ≡ res.summary = one_summary rc res e ∙ rw full in
              let ih = process_from-summary rcs next (rw same h) in
              ih
              ∙ rw same (
                  take_full max res.summary (rows rcs) (omega (tests, full))
                  ∙ sym (take_full max res.summary (rows (rc ∷ rcs)) (omega (tests, full))))
          | inr room ↦
              let longer : next.summary ≡ res.summary ++ row rc ∷ [] =
                one_summary rc res e ∙ rw room in
              let size = length-append res.summary (row rc ∷ []) in
              let ih =
                process_from-summary rcs next (rw (longer, size) (ground (arith, room, h))) in
              ih ∙ rw (longer, append_assoc) (rw (select_kept rc rcs e))
        ]
      ])

  -- The summary is exactly the first `max` rows of the changes that are not skipped, in their order,
  -- each with its address, its actions and its changed attributes under the attribute cap.
  pub process_changes-summary :
      (rcs : List ResourceChange)
      → (process_changes floats rcs max max_attrs).summary ≡ take max (rows rcs)
  unfolding process_changes nothing_processed
  process_changes-summary rcs = process_from-summary rcs nothing_processed (omega arith)
