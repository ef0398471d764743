-- ===== src/DriftRecords/Finality.antt =====
-- drift_record_repository.go: a resolved record is not changed any more.
use terraform_state_manager.Prelude.{
  ℕ, List, [], ◌∷◌, Bool, true, false, Option, none, some, ◌≡◌, refl, ◌∙◌, ap, Bytes, arith,
  if◌then◌else◌, ◌&&◌, not, str_eq, all, map, inl, inr, ◌⊎◌,
}
use terraform_state_manager.DriftRecords.Records.{
  Status, opened, acknowledged, resolved, DriftRecord, Detection, is_resolved, is_open, is_live_at,
  find_record, redetected, upsert, taken_by, unless_taken, upsert_detection, closed, resolve_clean,
  noted, acknowledge, resolve,
}
use terraform_state_manager.DriftRecords.Lifecycle.{
  Operation, detects, cleans, acknowledges, resolves, prunes, apply, apply_all,
}

unfoldable pub IsRow : DriftRecord → List DriftRecord → Type 0
IsRow r [] = ⊥
IsRow r (x ∷ xs) = (x ≡ r) ⊎ IsRow r xs

unfoldable pub is_pruning : Operation → Bool
is_pruning (prunes max_age now) = true
is_pruning o = false

true_ne_false : true ≡ false → ⊥
true_ne_false h = ground (arith, h)

resolved_open : (st : Status) → is_resolved st ≡ true → is_open st ≡ false
unfolding is_open is_resolved
resolved_open opened h = ground (arith, h)
resolved_open acknowledged h = refl
resolved_open resolved h = refl

and_not : (a b : Bool) → b ≡ false → (a && b) ≡ false
and_not a b h = ground (arith, h)

none_of : (a b : Bool) → (not a && b) ≡ true → (a ≡ false) × (b ≡ true)
none_of a b h = ground (arith, h)

passed : (test : Bool) (x y : DriftRecord) → test ≡ false → (if test then x else y) ≡ y
passed test x y h = rw h refl

module _ (r : DriftRecord) (final : is_resolved r.status ≡ true) where
  map-IsRow :
      (f : DriftRecord → DriftRecord) (rows : List DriftRecord)
      → f r ≡ r
      → IsRow r rows
      → IsRow r (map f rows)
  unfolding IsRow
  map-IsRow f [] fixed h = h
  map-IsRow f (x ∷ xs) fixed (inl e) = inl (ap f e ∙ fixed)
  map-IsRow f (x ∷ xs) fixed (inr h) = inr (map-IsRow f xs fixed h)

  not_live : (s k : Bytes) → is_live_at s k r ≡ false
  unfolding is_live_at
  not_live s k = rw final refl

  not_open : is_open r.status ≡ false
  not_open = resolved_open r.status final

  upsert-IsRow :
      (now : ℕ) (id org : Bytes) (d : Detection) (live : Option DriftRecord)
      (rows : List DriftRecord)
      → IsRow r rows
      → IsRow r (upsert now id org d live rows).0
  unfolding upsert IsRow
  upsert-IsRow now id org d none rows h = inr h
  upsert-IsRow now id org d (some live) rows h =
      map-IsRow (λ x. if is_live_at d.source_id d.state_key x then redetected now d x else x) rows
        (passed (is_live_at d.source_id d.state_key r) (redetected now d r) r
          (not_live d.source_id d.state_key))
        h

  unless_taken-IsRow :
      (now : ℕ) (id org : Bytes) (d : Detection) (other : Option DriftRecord)
      (rows : List DriftRecord)
      → IsRow r rows
      → IsRow r (unless_taken now id org d other rows).0
  unfolding unless_taken
  unless_taken-IsRow now id org d (some other) rows h = h
  unless_taken-IsRow now id org d none rows h =
      upsert-IsRow now id org d (find_record (is_live_at d.source_id d.state_key) rows) rows h

  apply-IsRow :
      (o : Operation) (rows : List DriftRecord)
      → is_pruning o ≡ false
      → IsRow r rows
      → IsRow r (apply o rows)
  unfolding apply upsert_detection resolve_clean acknowledge resolve is_pruning
  apply-IsRow (detects now id none d) rows e h = h
  apply-IsRow (detects now id (some org) d) rows e h =
      unless_taken-IsRow now id org d (taken_by d d.external_ref rows) rows h
  apply-IsRow (cleans now s k) rows e h =
      map-IsRow (λ x. if is_live_at s k x then closed now x else x) rows
        (passed (is_live_at s k r) (closed now r) r (not_live s k)) h
  apply-IsRow (acknowledges now id actor note) rows e h =
      map-IsRow (λ x. if str_eq x.id id && is_open x.status then noted now actor note x else x) rows
        (passed (str_eq r.id id && is_open r.status) (noted now actor note r) r
          (and_not (str_eq r.id id) (is_open r.status) not_open))
        h
  apply-IsRow (resolves now id) rows e h =
      map-IsRow (λ x. if str_eq x.id id && not (is_resolved x.status) then closed now x else x) rows
        (passed (str_eq r.id id && not (is_resolved r.status)) (closed now r) r
          (and_not (str_eq r.id id) (not (is_resolved r.status)) (ap not final)))
        h
  apply-IsRow (prunes max_age now) rows e h = absurd (true_ne_false e)

  -- A record that is resolved stays in the table as it is, through whatever detections, replays, clean
  -- results, acknowledgements and resolutions come after, in whatever order, until it is pruned.
  pub apply_all-IsRow :
      (os : List Operation) (rows : List DriftRecord)
      → all (λ o. not (is_pruning o)) os ≡ true
      → IsRow r rows
      → IsRow r (apply_all os rows)
  unfolding apply_all
  apply_all-IsRow [] rows none_prunes h = h
  apply_all-IsRow (o ∷ os) rows none_prunes h =
      let (first, rest) = none_of (is_pruning o) (all (λ x. not (is_pruning x)) os) none_prunes in
      apply_all-IsRow os (apply o rows) rest (apply-IsRow o rows first h)
