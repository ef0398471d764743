-- ===== src/DriftIngest/Counts.antt =====
-- plan.go: the counts of processChanges, and what Drifted answers.
use terraform_state_manager.Prelude.{
  ℕ, suc, ◌+◌, List, [], ◌∷◌, Bool, some, ◌≡◌, refl, Bytes, codes, arith, if◌then◌else◌, leb, ltb,
  ◌&&◌, ◌||◌, length, length-append, any, Bool-cases, inl, inr, ◌∙◌,
}
use terraform_state_manager.DriftIngest.Attrs.{Floats, changed_attrs}
use terraform_state_manager.DriftIngest.Summary.{
  ResourceChange, Processed, nothing_processed, is_skipped, lacks_mirrors, process_one,
  process_from, process_changes, Plan, drifted, summarize, elements, max_entries,
  max_attrs_per_entry,
}
use terraform_state_manager.DriftIngest.Rows.{
  counts, has, rows, one_skipped, one_summary, one_omitted, select_skipped, select_kept,
  process_from-cons,
}

-- How many changes pass a test.
pub tally : (ResourceChange → Bool) → List ResourceChange → ℕ
tally p [] = 0
tally p (rc ∷ rcs) = let rest = tally p rcs in if p rc then suc rest else rest

tally-cons :
    (p : ResourceChange → Bool) (rc : ResourceChange) (rcs : List ResourceChange)
    → tally p (rc ∷ rcs) ≡ tally p (rc ∷ []) + tally p rcs
unfolding tally
tally-cons p rc rcs = ground arith

-- The changes that one of the three counts is about.
abbrev pub counted : Bytes → ResourceChange → Bool
counted action rc = counts rc && has action rc

module _ (floats : Floats) (max max_attrs : ℕ) where
  -- The change is in place and carries neither sensitivity mirror.
  pub is_unmasked : ResourceChange → Bool
  is_unmasked rc =
      counts rc && ((changed_attrs floats rc.change max_attrs).2 && lacks_mirrors floats rc.change)

  -- What the loop adds to each field.
  record Grown (rcs : List ResourceChange) (res res' : Processed) : Type 0 where
    added : res'.added ≡ res.added + tally (counted (codes "create")) rcs
    changed : res'.changed ≡ res.changed + tally (counted (codes "update")) rcs
    destroyed : res'.destroyed ≡ res.destroyed + tally (counted (codes "delete")) rcs
    kept :
        length res'.summary + res'.omitted_entries
        ≡ length res.summary + res.omitted_entries + length (rows floats max max_attrs rcs)
    unmasked : res'.unmasked ≡ (res.unmasked || any is_unmasked rcs)

  one_added :
      (rc : ResourceChange) (res : Processed)
      → (process_one floats max max_attrs rc res).added
        ≡ res.added + tally (counted (codes "create")) (rc ∷ [])
  unfolding process_one tally
  one_added rc res = ground arith

  one_changed :
      (rc : ResourceChange) (res : Processed)
      → (process_one floats max max_attrs rc res).changed
        ≡ res.changed + tally (counted (codes "update")) (rc ∷ [])
  unfolding process_one tally
  one_changed rc res = ground arith

  one_destroyed :
      (rc : ResourceChange) (res : Processed)
      → (process_one floats max max_attrs rc res).destroyed
        ≡ res.destroyed + tally (counted (codes "delete")) (rc ∷ [])
  unfolding process_one tally
  one_destroyed rc res = ground arith

  one_unmasked :
      (rc : ResourceChange) (res : Processed)
      → (process_one floats max max_attrs rc res).unmasked ≡ (res.unmasked || is_unmasked rc)
  unfolding process_one is_unmasked
  one_unmasked rc res = ground arith

  one_kept :
      (rc : ResourceChange) (rcs : List ResourceChange) (res : Processed)
      → let res' = process_one floats max max_attrs rc res in
        length res'.summary + res'.omitted_entries + length (rows floats max max_attrs rcs)
        ≡ length res.summary + res.omitted_entries + length (rows floats max max_attrs (rc ∷ rcs))
  one_kept rc rcs res =
      let before = length res.summary in
      elim (Bool-cases (is_skipped rc.change.actions)) [
        | inl e ↦
            rw
              (
                one_skipped floats max max_attrs rc res e,
                select_skipped floats max max_attrs rc rcs e,
              )
              refl
        | inr e ↦
            rw
              (
                one_summary floats max max_attrs rc res e,
                one_omitted floats max max_attrs rc res e,
                select_kept floats max max_attrs rc rcs e,
              )
              (elim (Bool-cases (leb max (length res.summary))) [
                | inl full ↦ rw full (omega arith)
                | inr room ↦ rw room (rw length-append (omega arith))
              ])
      ]

  or_any :
      (b c : Bool) (rcs : List ResourceChange)
      → ((c || b) || any is_unmasked rcs) ≡ (c || (b || any is_unmasked rcs))
  or_any b c rcs = ground arith

  process_from-Grown :
      (rcs : List ResourceChange) (res : Processed)
      → Grown rcs res (process_from floats max max_attrs rcs res)
  process_from-Grown [] res = record {
    added = unfold tally process_from in omega arith;
    changed = unfold tally process_from in omega arith;
    destroyed = unfold tally process_from in omega arith;
    kept = unfold process_from rows in omega arith;
    unmasked = unfold process_from in ground arith;
  }
  process_from-Grown (rc ∷ rcs) res =
      let next = process_one floats max max_attrs rc res in
      let ih = process_from-Grown rcs next in
      record {
        added =
            rw process_from-cons
              (rw (tally-cons _ rc rcs) (ih.added ∙ rw (one_added rc res) (omega arith)));
        changed =
            rw process_from-cons
              (rw (tally-cons _ rc rcs) (ih.changed ∙ rw (one_changed rc res) (omega arith)));
        destroyed =
            rw process_from-cons
              (rw (tally-cons _ rc rcs) (ih.destroyed ∙ rw (one_destroyed rc res) (omega arith)));
        kept = rw process_from-cons (ih.kept ∙ one_kept rc rcs res);
        unmasked =
            rw process_from-cons
              (ih.unmasked ∙ rw (one_unmasked rc res) (or_any (is_unmasked rc) res.unmasked rcs));
      }

module _ (floats : Floats) (max max_attrs : ℕ) where
  -- Added, changed and destroyed count the changes that are not skipped and whose actions hold
  -- create, update and delete. Each change that is not skipped is in the summary or counted as an
  -- omitted entry. The result is marked unmasked exactly when one of them is in place without a
  -- sensitivity mirror.
  pub process_changes-counts :
      (rcs : List ResourceChange)
      → let res = process_changes floats rcs max max_attrs in
        (res.added ≡ tally (counted (codes "create")) rcs)
        × (res.changed ≡ tally (counted (codes "update")) rcs)
        × (res.destroyed ≡ tally (counted (codes "delete")) rcs)
        × (length res.summary + res.omitted_entries ≡ length (rows floats max max_attrs rcs))
        × (res.unmasked ≡ any (is_unmasked floats max max_attrs) rcs)
  unfolding process_changes nothing_processed
  process_changes-counts rcs =
      let g = process_from-Grown floats max max_attrs rcs nothing_processed in
      (
        g.added ∙ omega arith,
        g.changed ∙ omega arith,
        g.destroyed ∙ omega arith,
        g.kept ∙ omega arith,
        g.unmasked,
      )

-- A change that creates, updates or deletes.
abbrev pub plans_change : ResourceChange → Bool
plans_change rc =
    counts rc && (has (codes "create") rc || (has (codes "update") rc || has (codes "delete") rc))

one_drifts :
    (rc : ResourceChange)
    → ltb 0 (
        tally (counted (codes "create")) (rc ∷ [])
        + tally (counted (codes "update")) (rc ∷ [])
        + tally (counted (codes "delete")) (rc ∷ []))
      ≡ plans_change rc
unfolding tally
one_drifts rc = ground arith

either_drifts :
    (a b c d e f : ℕ)
    → ltb 0 ((a + b) + (c + d) + (e + f)) ≡ (ltb 0 (a + c + e) || ltb 0 (b + d + f))
either_drifts a b c d e f = ground arith

tallies-any :
    (rcs : List ResourceChange)
    → ltb 0 (
        tally (counted (codes "create")) rcs
        + tally (counted (codes "update")) rcs
        + tally (counted (codes "delete")) rcs)
      ≡ any plans_change rcs
tallies-any [] = unfold tally in refl
tallies-any (rc ∷ rcs) =
    let c = counted (codes "create") in
    let u = counted (codes "update") in
    let d = counted (codes "delete") in
    rw (tally-cons c rc rcs, tally-cons u rc rcs, tally-cons d rc rcs)
      (either_drifts (tally c (rc ∷ [])) (tally c rcs) (tally u (rc ∷ [])) (tally u rcs)
          (tally d (rc ∷ [])) (tally d rcs)
        ∙ rw (one_drifts rc, tallies-any rcs) refl)

-- A plan is drifted exactly when one of its resource changes is neither a lone no-op nor a lone read
-- and creates, updates or deletes, beyond the cap on the summary too. The drift the plan only reports does not count.
pub summarize-drifted :
    (floats : Floats) (plan : Plan)
    → drifted (summarize floats (some plan)) ≡ any plans_change (elements plan.resource_changes)
unfolding drifted summarize
summarize-drifted floats plan =
    let (a, c, d, _, _) =
      process_changes-counts floats max_entries max_attrs_per_entry
        (elements plan.resource_changes) in
    rw (a, c, d) (tallies-any (elements plan.resource_changes))
