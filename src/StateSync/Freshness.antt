-- ===== src/StateSync/Freshness.antt =====
-- syncer.go: the rows that a cycle leaves, key by key.
use terraform_state_manager.Prelude.{
  List, Bool, true, false, Option, none, some, ◌≡◌, refl, ◌∙◌, ap, Bytes, if◌then◌else◌, not,
  select, Map, lookup, Bool-cases, some_inj, none_ne_some, inl, inr,
}
use terraform_state_manager.StateSync.Marker.{StateRef, Row}
use terraform_state_manager.StateSync.Syncer.{
  first, retry, Cycle, attempt, is_failure, run_pass, is_changed, ref_keys, sync_listed, sync_found,
  sync_source,
}
use terraform_state_manager.StateSync.Passes.{
  find_ref, has_distinct_keys, or_row, over, keep_if, is_absent, run_pass-lookup, run_pass-failed,
  has_distinct_keys-select, find_ref-select, member-ref_keys, delete_missing-lookup,
}

-- The row of a key after a cycle, from what is listed under it: none if nothing is; the row that was
-- there if its marker has not moved; otherwise the row of the first read that succeeds, and if
-- neither does, the row that was there.
unfoldable pub expected : Cycle → Map Row → Bytes → Option StateRef → Option Row
unfolding or_row is_changed
expected c rows j none = none
expected c rows j (some ref) =
    let renewed = or_row (attempt c first ref) (or_row (attempt c retry ref) (lookup j rows)) in
    if is_changed rows ref then renewed else lookup j rows

fails : Cycle → StateRef → Bool
fails c ref = is_failure (attempt c first ref)

settled :
    (c : Cycle) (ref : StateRef) (a base : Option Row)
    → over c retry (if is_failure a then some ref else none) (or_row a base)
      ≡ or_row a (or_row (attempt c retry ref) base)
unfolding over or_row is_failure
settled c ref none base = refl
settled c ref (some row) base = refl

-- The two passes and the pruning on one key.
two_passes :
    (c : Cycle) (rows : Map Row) (j : Bytes) (o : Option StateRef)
    → (if not (is_absent o)
        then over c retry
            (keep_if (fails c) (keep_if (is_changed rows) o))
            (over c first (keep_if (is_changed rows) o) (lookup j rows))
        else none)
      ≡ expected c rows j o
unfolding is_absent over keep_if expected fails
two_passes c rows j none = refl
two_passes c rows j (some ref) = elim (Bool-cases (is_changed rows ref)) [
  | inl e ↦ rw e (settled c ref (attempt c first ref) (lookup j rows))
  | inr e ↦ rw e refl
]

sync_listed-rows :
    (c : Cycle) (refs : List StateRef) (rows : Map Row) (j : Bytes)
    → c.prune_fails ≡ false
    → has_distinct_keys refs ≡ true
    → lookup j (sync_listed c refs rows).0 ≡ expected c rows j (find_ref j refs)
unfolding sync_listed expected
sync_listed-rows c refs rows j pruned distinct =
    let changed = select (is_changed rows) refs in
    let once = run_pass c first changed rows in
    let failed = select (fails c) changed in
    let changed_distinct = has_distinct_keys-select (is_changed rows) refs distinct in
    let failed_distinct = has_distinct_keys-select (fails c) changed changed_distinct in
    let same : once.1 ≡ failed = unfold fails in run_pass-failed c first changed rows in
    let o = find_ref j refs in
    let read_once : lookup j once.0 ≡ over c first (keep_if (is_changed rows) o) (lookup j rows) =
      run_pass-lookup c first changed rows j changed_distinct
      ∙ ap (λ x. over c first x (lookup j rows))
          (find_ref-select (is_changed rows) j refs distinct) in
    let again : find_ref j failed ≡ keep_if (fails c) (keep_if (is_changed rows) o) =
      find_ref-select (fails c) j changed changed_distinct
      ∙ ap (λ x. keep_if (fails c) x) (find_ref-select (is_changed rows) j refs distinct) in
    let twice = (run_pass c retry failed once.0).0 in
    let read_twice : lookup j twice
        ≡ over c retry (keep_if (fails c) (keep_if (is_changed rows) o))
            (over c first (keep_if (is_changed rows) o) (lookup j rows)) =
      run_pass-lookup c retry failed once.0 j failed_distinct ∙ rw again (rw read_once refl) in
    rw pruned (
      rw same (
        delete_missing-lookup (ref_keys refs) twice j
        ∙ rw (member-ref_keys j refs) (rw read_twice (two_passes c rows j o))))

sync_found-rows :
    (c : Cycle) (refs : List StateRef) (rows : Map Row) (j : Bytes) (found : Option (List StateRef))
    → found ≡ some refs
    → c.markers_fail ≡ false
    → c.prune_fails ≡ false
    → has_distinct_keys refs ≡ true
    → lookup j (sync_found c found rows).0 ≡ expected c rows j (find_ref j refs)
unfolding sync_found expected
sync_found-rows c refs rows j none e marked pruned distinct = absurd (none_ne_some e)
sync_found-rows c refs rows j (some listed) e marked pruned distinct =
    rw marked (rw (some_inj e) (sync_listed-rows c refs rows j pruned distinct))

-- A cycle whose connection, listing, markers and pruning succeed, on a listing without a key twice,
-- leaves for every key: no row if the key is not listed; the row that was there if the listing shows
-- its marker unmoved; otherwise the row of the first of two reads that succeeds and is stored, and if
-- neither does, the row that was there with its old marker.
pub sync_source-rows :
    (c : Cycle) (refs : List StateRef) (rows : Map Row) (j : Bytes)
    → c.connects ≡ true
    → c.listing ≡ some refs
    → c.markers_fail ≡ false
    → c.prune_fails ≡ false
    → has_distinct_keys refs ≡ true
    → lookup j (sync_source c rows).0 ≡ expected c rows j (find_ref j refs)
unfolding sync_source expected
sync_source-rows c refs rows j connected e marked pruned distinct =
    rw connected (sync_found-rows c refs rows j c.listing e marked pruned distinct)
