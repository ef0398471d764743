-- ===== src/StateSync/Passes.antt =====
-- syncer.go: what a pass and the pruning do to the row of each key.
use terraform_state_manager.Prelude.{
  List, [], ◌∷◌, Bool, true, false, Option, none, some, ◌≡◌, refl, ◌∙◌, ap, Bytes, arith,
  if◌then◌else◌, not, str_eq, str_eq_iff, select, all, member, Map, lookup, lookup-insert,
  Bool-cases, inl, inr,
}
use terraform_state_manager.StateSync.Marker.{StateRef, Row}
use terraform_state_manager.StateSync.Syncer.{
  Pass, Cycle, attempt, upsert, is_failure, run_pass, delete_missing, ref_keys,
}

-- The listed state with a key.
unfoldable pub find_ref : Bytes → List StateRef → Option StateRef
find_ref j [] = none
find_ref j (ref ∷ refs) = let rest = find_ref j refs in if str_eq ref.key j then some ref else rest

-- No key is listed twice.
unfoldable pub has_distinct_keys : List StateRef → Bool
has_distinct_keys [] = true
has_distinct_keys (ref ∷ refs) =
    let rest = has_distinct_keys refs in
    if all (λ q. not (str_eq q.key ref.key)) refs then rest else false

unfoldable pub or_row : Option Row → Option Row → Option Row
or_row none base = base
or_row (some row) base = some row

-- The row of a key after a pass over the states, from the row before it.
unfoldable pub over : Cycle → Pass → Option StateRef → Option Row → Option Row
unfolding or_row
over c p none base = base
over c p (some ref) base = or_row (attempt c p ref) base

unfoldable pub keep_if : (StateRef → Bool) → Option StateRef → Option StateRef
keep_if q none = none
keep_if q (some ref) = if q ref then some ref else none

unfoldable pub is_absent : Option StateRef → Bool
is_absent none = true
is_absent (some ref) = false

lookup-upsert :
    (o : Option Row) (k j : Bytes) (rows : Map Row)
    → lookup j (upsert o k rows) ≡ (if str_eq k j then or_row o (lookup j rows) else lookup j rows)
unfolding upsert or_row
lookup-upsert none k j rows = ground arith
lookup-upsert (some row) k j rows = lookup-insert k j row rows

absent-find_ref :
    (j k : Bytes) (refs : List StateRef)
    → str_eq k j ≡ true
    → all (λ q. not (str_eq q.key k)) refs ≡ true
    → find_ref j refs ≡ none
unfolding find_ref
absent-find_ref j k [] e h = refl
absent-find_ref j k (ref ∷ refs) e h = ground (
  arith,
  e,
  h,
  str_eq_iff k j,
  str_eq_iff ref.key j,
  str_eq_iff ref.key k,
  absent-find_ref j k refs e,
)

find_ref-nil : (j : Bytes) → find_ref j [] ≡ none
unfolding find_ref
find_ref-nil j = refl

find_ref-cons :
    (j : Bytes) (ref : StateRef) (refs : List StateRef)
    → find_ref j (ref ∷ refs) ≡ (if str_eq ref.key j then some ref else find_ref j refs)
unfolding find_ref
find_ref-cons j ref refs = refl

distinct_parts :
    (ref : StateRef) (refs : List StateRef)
    → has_distinct_keys (ref ∷ refs) ≡ true
    → (all (λ q. not (str_eq q.key ref.key)) refs ≡ true) × (has_distinct_keys refs ≡ true)
unfolding has_distinct_keys
distinct_parts ref refs h = ground (arith, h)

distinct_cons :
    (ref : StateRef) (refs : List StateRef)
    → all (λ q. not (str_eq q.key ref.key)) refs ≡ true
    → has_distinct_keys refs ≡ true
    → has_distinct_keys (ref ∷ refs) ≡ true
unfolding has_distinct_keys
distinct_cons ref refs h g = ground (arith, h, g)

pub run_pass-lookup :
    (c : Cycle) (p : Pass) (refs : List StateRef) (rows : Map Row) (j : Bytes)
    → has_distinct_keys refs ≡ true
    → lookup j (run_pass c p refs rows).0 ≡ over c p (find_ref j refs) (lookup j rows)
unfolding run_pass over
run_pass-lookup c p [] rows j h = rw (find_ref-nil j) refl
run_pass-lookup c p (ref ∷ refs) rows j h =
    let (apart, rest) = distinct_parts ref refs h in
    let next = run_pass-lookup c p refs (upsert (attempt c p ref) ref.key rows) j rest in
    let written = lookup-upsert (attempt c p ref) ref.key j rows in
    elim (Bool-cases (str_eq ref.key j)) [
      | inl here ↦
          next
          ∙ ap (λ o. over c p o (lookup j (upsert (attempt c p ref) ref.key rows)))
              (absent-find_ref j ref.key refs here apart)
          ∙ written
          ∙ rw here (rw (find_ref-cons j ref refs) (rw here refl))
      | inr other ↦
          let kept : lookup j (upsert (attempt c p ref) ref.key rows) ≡ lookup j rows =
            written ∙ rw other refl in
          next
          ∙ ap (λ o. over c p (find_ref j refs) o) kept
          ∙ rw (find_ref-cons j ref refs) (rw other refl)
    ]

-- The states that fail a pass.
pub run_pass-failed :
    (c : Cycle) (p : Pass) (refs : List StateRef) (rows : Map Row)
    → (run_pass c p refs rows).1 ≡ select (λ ref. is_failure (attempt c p ref)) refs
unfolding run_pass
run_pass-failed c p [] rows = refl
run_pass-failed c p (ref ∷ refs) rows =
    rw (run_pass-failed c p refs (upsert (attempt c p ref) ref.key rows)) refl

all-select :
    (t q : StateRef → Bool) (refs : List StateRef)
    → all t refs ≡ true
    → all t (select q refs) ≡ true
all-select t q [] h = refl
all-select t q (ref ∷ refs) h = ground (arith, h, all-select t q refs)

pub has_distinct_keys-select :
    (q : StateRef → Bool) (refs : List StateRef)
    → has_distinct_keys refs ≡ true
    → has_distinct_keys (select q refs) ≡ true
has_distinct_keys-select q [] h = h
has_distinct_keys-select q (ref ∷ refs) h =
    let (apart, rest) = distinct_parts ref refs h in
    let kept = all-select (λ x. not (str_eq x.key ref.key)) q refs apart in
    let tail = has_distinct_keys-select q refs rest in
    elim (Bool-cases (q ref)) [
      | inl e ↦ rw e (distinct_cons ref (select q refs) kept tail)
      | inr e ↦ rw e tail
    ]

keep_cons :
    (q : StateRef → Bool) (j : Bytes) (ref : StateRef) (refs kept : List StateRef)
    → all (λ x. not (str_eq x.key ref.key)) refs ≡ true
    → find_ref j kept ≡ keep_if q (find_ref j refs)
    → find_ref j (if q ref then ref ∷ kept else kept) ≡ keep_if q (find_ref j (ref ∷ refs))
unfolding keep_if
keep_cons q j ref refs kept apart tail = ground (
  arith,
  tail,
  find_ref-cons j ref refs,
  find_ref-cons j ref kept,
  λ (e : str_eq ref.key j ≡ true). absent-find_ref j ref.key refs e apart,
)

pub find_ref-select :
    (q : StateRef → Bool) (j : Bytes) (refs : List StateRef)
    → has_distinct_keys refs ≡ true
    → find_ref j (select q refs) ≡ keep_if q (find_ref j refs)
unfolding keep_if
find_ref-select q j [] h = rw (find_ref-nil j) refl
find_ref-select q j (ref ∷ refs) h =
    let (apart, rest) = distinct_parts ref refs h in
    keep_cons q j ref refs (select q refs) apart (find_ref-select q j refs rest)

pub member-ref_keys :
    (j : Bytes) (refs : List StateRef)
    → member j (ref_keys refs) ≡ not (is_absent (find_ref j refs))
unfolding member is_absent
member-ref_keys j [] = rw (find_ref-nil j) refl
member-ref_keys j (ref ∷ refs) = ground (arith, find_ref-cons j ref refs, member-ref_keys j refs)

pub delete_missing-lookup :
    (keep : List Bytes) (rows : Map Row) (j : Bytes)
    → lookup j (delete_missing keep rows) ≡ (if member j keep then lookup j rows else none)
unfolding delete_missing lookup
delete_missing-lookup keep [] j = ground arith
delete_missing-lookup keep ((k, row) ∷ rows) j =
    ground (arith, str_eq_iff k j, delete_missing-lookup keep rows j)
