-- ===== src/DriftRecords/Lifecycle.antt =====
-- drift_record_repository.go: one live record for each state, and resolved records are final.
use terraform_state_manager.Prelude.{
  ℕ, suc, ◌≤◌, List, [], ◌∷◌, Bool, true, false, Option, none, some, ◌≡◌, refl, sym, Bytes, arith,
  if◌then◌else◌, ◌==◌, ◌&&◌, not, str_eq, str_eq_iff, select, map, Bool-cases, inl, inr,
}
use terraform_state_manager.DriftRecords.Records.{
  Status, opened, acknowledged, resolved, DriftRecord, Detection, is_resolved, is_open, is_live_at,
  find_record, redetected, detected, upsert, taken_by, unless_taken, upsert_detection, closed,
  resolve_clean, noted, acknowledge, resolve, is_older, prune_resolved,
}

-- The operations, each at its time.
pub data Operation : Type 0 where
  detects : ℕ → Bytes → Option Bytes → Detection → Operation
  cleans : ℕ → Bytes → Bytes → Operation
  acknowledges : ℕ → Bytes → Bytes → Bytes → Operation
  resolves : ℕ → Bytes → Operation
  prunes : ℕ → ℕ → Operation

abbrev pub or_rows : Option (List DriftRecord) → List DriftRecord → List DriftRecord
or_rows none rows = rows
or_rows (some next) rows = next

unfoldable pub apply : Operation → List DriftRecord → List DriftRecord
unfolding upsert_detection resolve_clean acknowledge resolve prune_resolved
apply (detects now id org d) rows = (upsert_detection now id org d rows).0
apply (cleans now s k) rows = (resolve_clean now s k rows).0
apply (acknowledges now id actor note) rows = acknowledge now id actor note rows
apply (resolves now id) rows = resolve now id rows
apply (prunes max_age now) rows = or_rows (prune_resolved max_age now rows) rows

unfoldable pub apply_all : List Operation → List DriftRecord → List DriftRecord
unfolding apply
apply_all [] rows = rows
apply_all (o ∷ os) rows = apply_all os (apply o rows)

-- How many live records a state has.
unfoldable pub live_count : Bytes → Bytes → List DriftRecord → ℕ
unfolding is_live_at
live_count s k [] = 0
live_count s k (r ∷ rs) =
    let rest = live_count s k rs in if is_live_at s k r then suc rest else rest

unfoldable pub HasOneLive : List DriftRecord → Type 0
unfolding live_count
HasOneLive rows = (s k : Bytes) → live_count s k rows ≤ 1

-- A change of rows that makes none live, and moves none to another state.
live_count-map :
    (s k : Bytes) (f : DriftRecord → DriftRecord) (rows : List DriftRecord)
    → ((r : DriftRecord) → is_live_at s k (f r) ≡ true → is_live_at s k r ≡ true)
    → live_count s k (map f rows) ≤ live_count s k rows
unfolding live_count
live_count-map s k f [] h = omega arith
live_count-map s k f (r ∷ rs) h = ground (arith, h r, live_count-map s k f rs h)

live_count-select :
    (s k : Bytes) (p : DriftRecord → Bool) (rows : List DriftRecord)
    → live_count s k (select p rows) ≤ live_count s k rows
unfolding live_count
live_count-select s k p [] = omega arith
live_count-select s k p (r ∷ rs) = ground (arith, live_count-select s k p rs)

map-HasOneLive :
    (f : DriftRecord → DriftRecord) (rows : List DriftRecord)
    → ((s k : Bytes) (r : DriftRecord) → is_live_at s k (f r) ≡ true → is_live_at s k r ≡ true)
    → HasOneLive rows
    → HasOneLive (map f rows)
unfolding HasOneLive
map-HasOneLive f rows keeps h s k = omega (arith, h s k, live_count-map s k f rows (keeps s k))

redetected-live :
    (now : ℕ) (d : Detection) (s k : Bytes) (r : DriftRecord)
    → is_live_at s k (redetected now d r) ≡ is_live_at s k r
unfolding is_live_at redetected
redetected-live now d s k r = refl

closed-live : (now : ℕ) (s k : Bytes) (r : DriftRecord) → is_live_at s k (closed now r) ≡ false
unfolding is_live_at is_resolved
closed-live now s k r = refl

absent-live :
    (s k : Bytes) (rows : List DriftRecord)
    → find_record (is_live_at s k) rows ≡ none
    → live_count s k rows ≡ 0
unfolding find_record live_count
absent-live s k [] h = refl
absent-live s k (r ∷ rs) h = ground (arith, h, absent-live s k rs)

detected-live :
    (now : ℕ) (id org : Bytes) (d : Detection) (s k : Bytes)
    → is_live_at s k (detected now id org d) ≡ (str_eq d.source_id s && str_eq d.state_key k)
unfolding is_live_at is_resolved detected
detected-live now id org d s k = ground arith

live_count-cons :
    (s k : Bytes) (r : DriftRecord) (rows : List DriftRecord)
    → live_count s k (r ∷ rows)
      ≡ (if is_live_at s k r then suc (live_count s k rows) else live_count s k rows)
unfolding live_count
live_count-cons s k r rows = refl

both : (a b c d : Bytes) → (str_eq a b && str_eq c d) ≡ true → (a ≡ b) × (c ≡ d)
both a b c d h = ground (arith, h, str_eq_iff a b, str_eq_iff c d)

insert-HasOneLive :
    (now : ℕ) (id org : Bytes) (d : Detection) (rows : List DriftRecord)
    → live_count d.source_id d.state_key rows ≡ 0
    → HasOneLive rows
    → HasOneLive (detected now id org d ∷ rows)
unfolding HasOneLive
insert-HasOneLive now id org d rows free h s k =
    rw (live_count-cons s k (detected now id org d) rows) (
      rw (detected-live now id org d s k)
        (elim (Bool-cases (str_eq d.source_id s && str_eq d.state_key k)) [
          | inl same ↦
              let (es, ek) = both d.source_id s d.state_key k same in
              rw same (rw (sym es) (rw (sym ek) (omega (arith, free))))
          | inr other ↦ rw other (h s k)
        ]))

detect_step :
    (now : ℕ) (d : Detection) (s k : Bytes) (r : DriftRecord)
    → is_live_at s k (if is_live_at d.source_id d.state_key r then redetected now d r else r) ≡ true
    → is_live_at s k r ≡ true
detect_step now d s k r h = ground (arith, h, redetected-live now d s k r)

upsert-HasOneLive :
    (now : ℕ) (id org : Bytes) (d : Detection) (live : Option DriftRecord) (rows : List DriftRecord)
    → find_record (is_live_at d.source_id d.state_key) rows ≡ live
    → HasOneLive rows
    → HasOneLive (upsert now id org d live rows).0
unfolding upsert
upsert-HasOneLive now id org d none rows e h =
    insert-HasOneLive now id org d rows (absent-live d.source_id d.state_key rows e) h
upsert-HasOneLive now id org d (some live) rows e h =
    map-HasOneLive (λ r. if is_live_at d.source_id d.state_key r then redetected now d r else r)
      rows (detect_step now d) h

unless_taken-HasOneLive :
    (now : ℕ) (id org : Bytes) (d : Detection) (other : Option DriftRecord)
    (rows : List DriftRecord)
    → HasOneLive rows
    → HasOneLive (unless_taken now id org d other rows).0
unfolding unless_taken
unless_taken-HasOneLive now id org d (some other) rows h = h
unless_taken-HasOneLive now id org d none rows h =
    upsert-HasOneLive now id org d (find_record (is_live_at d.source_id d.state_key) rows) rows refl
      h

close_step :
    (now : ℕ) (test : Bool) (s k : Bytes) (r : DriftRecord)
    → is_live_at s k (if test then closed now r else r) ≡ true
    → is_live_at s k r ≡ true
close_step now test s k r h = ground (arith, h, closed-live now s k r)

open_resolved : (st : Status) → is_open st ≡ true → is_resolved st ≡ false
unfolding is_open is_resolved
open_resolved opened h = refl
open_resolved acknowledged h = refl
open_resolved resolved h = ground (arith, h)

noted-live :
    (now : ℕ) (actor note s k : Bytes) (r : DriftRecord)
    → is_open r.status ≡ true
    → is_live_at s k (noted now actor note r) ≡ is_live_at s k r
unfolding is_live_at is_resolved
noted-live now actor note s k r h = rw (open_resolved r.status h) refl

acknowledge_step :
    (now : ℕ) (id actor note s k : Bytes) (r : DriftRecord)
    → is_live_at s k (if str_eq r.id id && is_open r.status then noted now actor note r else r)
      ≡ true
    → is_live_at s k r ≡ true
acknowledge_step now id actor note s k r h =
    ground (arith, h, λ (e : is_open r.status ≡ true). noted-live now actor note s k r e)

select-HasOneLive :
    (p : DriftRecord → Bool) (rows : List DriftRecord)
    → HasOneLive rows
    → HasOneLive (select p rows)
unfolding HasOneLive
select-HasOneLive p rows h s k = omega (arith, h s k, live_count-select s k p rows)

apply-HasOneLive :
    (o : Operation) (rows : List DriftRecord) → HasOneLive rows → HasOneLive (apply o rows)
unfolding apply upsert_detection resolve_clean acknowledge resolve prune_resolved
apply-HasOneLive (detects now id none d) rows h = h
apply-HasOneLive (detects now id (some org) d) rows h =
    unless_taken-HasOneLive now id org d (taken_by d d.external_ref rows) rows h
apply-HasOneLive (cleans now s k) rows h =
    map-HasOneLive (λ r. if is_live_at s k r then closed now r else r) rows
      (λ s2 k2 r. close_step now (is_live_at s k r) s2 k2 r) h
apply-HasOneLive (acknowledges now id actor note) rows h =
    map-HasOneLive _ rows (acknowledge_step now id actor note) h
apply-HasOneLive (resolves now id) rows h =
    map-HasOneLive (λ r. if str_eq r.id id && not (is_resolved r.status) then closed now r else r)
      rows (λ s2 k2 r. close_step now (str_eq r.id id && not (is_resolved r.status)) s2 k2 r) h
apply-HasOneLive (prunes max_age now) rows h = elim (Bool-cases (max_age == 0)) [
  | inl e ↦ rw e h
  | inr e ↦ rw e (
      select-HasOneLive (λ r. not (is_resolved r.status && is_older max_age now r.resolved_at)) rows
        h)
]

-- Whatever detections, clean results, acknowledgements, resolutions and prunings come, in whatever
-- order, no state has two live records, if none had at the start.
pub apply_all-HasOneLive :
    (os : List Operation) (rows : List DriftRecord)
    → HasOneLive rows
    → HasOneLive (apply_all os rows)
unfolding apply_all
apply_all-HasOneLive [] rows h = h
apply_all-HasOneLive (o ∷ os) rows h =
    apply_all-HasOneLive os (apply o rows) (apply-HasOneLive o rows h)
