-- ===== src/Scheduler/Firing.antt =====
-- scheduler.go: a due schedule fires at most once, and is not claimed while the cap is reached.
use terraform_state_manager.Prelude.{
  ℕ, ◌+◌, ◌≤◌, List, [], ◌∷◌, ◌++◌, Bool, true, false, Option, none, some, some_inj, ◌≡◌, refl, sym,
  ◌∙◌, ap, Bytes, codes, arith, ◌&&◌, str_eq_refl, Map, lookup, insert, lookup-insert, length,
  length-append, All, Bool-cases, inl, inr,
}
use mathlib.Core.Logic.{◌⊎◌}
use terraform_state_manager.Scheduler.Runner.{
  Schedule, World, Env, compute_next_run, is_at, claim_row, claim_due, record_row, record_outcome,
  is_deferred, system_acting_in, outcome_status, dispatch_claimed, after_claim, fire_at, fire,
}

-- The row does not stand at the observed time any more.
unfoldable pub IsMoved : Bytes → ℕ → Map Schedule → Type 0
IsMoved id observed table =
    (row : Schedule) → lookup id table ≡ some row → is_at row.next_run_at observed ≡ false

true_ne_false : true ≡ false → ⊥
true_ne_false h = ground (arith, h)

and_false : (b : Bool) → (b && false) ≡ false
and_false b = ground arith

written-IsMoved :
    (id : Bytes) (observed : ℕ) (row : Schedule) (table : Map Schedule)
    → is_at row.next_run_at observed ≡ false
    → IsMoved id observed (insert id row table)
unfolding IsMoved
written-IsMoved id observed row table h found e =
    let same : some row ≡ some found =
      sym (lookup-insert id id row table ∙ rw (str_eq_refl id) refl) ∙ e in
    rw (sym (some_inj same)) h

module _ (id : Bytes) (observed : ℕ) where
  moved-claim_row :
      (next : Option ℕ) (found : Option Schedule) (table : Map Schedule)
      → ((row : Schedule) → found ≡ some row → is_at row.next_run_at observed ≡ false)
      → claim_row id observed next found table ≡ (table, false)
  unfolding claim_row
  moved-claim_row next none table h = refl
  moved-claim_row next (some row) table h = rw (h row refl) (rw (and_false row.enabled) refl)

  -- A claim either leaves the table or moves the row.
  claim_row-cases :
      (next : Option ℕ) (found : Option Schedule) (table : Map Schedule)
      → is_at next observed ≡ false
      → (claim_row id observed next found table ≡ (table, false))
        ⊎ ((claim_row id observed next found table).1 ≡ true)
          × IsMoved id observed (claim_row id observed next found table).0
  unfolding claim_row
  claim_row-cases next none table h = inl refl
  claim_row-cases next (some row) table h =
      elim (Bool-cases (row.enabled && is_at row.next_run_at observed)) [
        | inl e ↦ inr (
          rw e refl,
          rw e (written-IsMoved id observed (record row { next_run_at = next }) table h),
        )
        | inr e ↦ inl (rw e refl)
      ]

  record_row-IsMoved :
      (status run_id : Bytes) (found : Option Schedule) (table : Map Schedule)
      → lookup id table ≡ found
      → IsMoved id observed table
      → IsMoved id observed (record_row id status run_id found table)
  unfolding record_row
  record_row-IsMoved status run_id none table e h = h
  record_row-IsMoved status run_id (some row) table e h =
      written-IsMoved id observed (record row { last_status = status; last_run_id = run_id }) table
        (unfold IsMoved in h row e)

record_outcome-lem :
    (env : Env) (id status run_id : Bytes) (observed : ℕ) (w : World)
    → IsMoved id observed w.table
    → IsMoved id observed (record_outcome env id status run_id w).table
      × ((record_outcome env id status run_id w).dispatches ≡ w.dispatches)
unfolding record_outcome
record_outcome-lem env id status run_id observed w h = elim (Bool-cases (env.record_fails id)) [
  | inl e ↦ (rw e h, rw e refl)
  | inr e ↦ (
    rw e (record_row-IsMoved id observed status run_id (lookup id w.table) w.table refl h),
    rw e refl,
  )
]

module _ (env : Env) (s : Schedule) where
  -- The firings of one snapshot at the given times, by whatever replicas.
  unfoldable pub fire_each : List ℕ → World → World
  fire_each [] w = w
  fire_each (now ∷ times) w = fire_each times (fire env now s w).0

module _ (env : Env) (s : Schedule) (observed : ℕ) where
  dispatch_claimed-lem :
      (w : World)
      → IsMoved s.id observed w.table
      → IsMoved s.id observed (dispatch_claimed env s w).table
        × (length (dispatch_claimed env s w).dispatches ≤ length w.dispatches + 1)
  unfolding dispatch_claimed
  dispatch_claimed-lem w h =
      let sent =
        w.dispatches ++ record { schedule_id = s.id; organization_id = s.organization_id } ∷ [] in
      let size =
        length-append w.dispatches
          (record { schedule_id = s.id; organization_id = s.organization_id } ∷ []) in
      elim (Bool-cases (system_acting_in s.organization_id s.id)) [
        | inl e ↦
            let (moved, same) =
              record_outcome-lem env s.id (outcome_status (env.dispatch s)) (env.dispatch s).run_id
                observed (record w { dispatches = sent }) h in
            (rw e moved, rw e (rw same (omega (arith, size))))
        | inr e ↦
            let (moved, same) = record_outcome-lem env s.id (codes "failed") [] observed w h in
            (rw e moved, rw e (rw same (omega arith)))
      ]

  -- What one firing does to the world: nothing, or it moves the row and dispatches at most once.
  Fired : World → World → Type 0
  Fired w w' =
      (w' ≡ w) ⊎ (IsMoved s.id observed w'.table × (length w'.dispatches ≤ length w.dispatches + 1))

  after_claim-Fired :
      (res : Map Schedule × Bool) (w : World)
      → (res ≡ (w.table, false)) ⊎ ((res.1 ≡ true) × IsMoved s.id observed res.0)
      → Fired w (after_claim env s res w).0
  unfolding after_claim Fired
  after_claim-Fired (table, true) w (inl e) = absurd (true_ne_false (ap (λ p. p.1) e))
  after_claim-Fired (table, false) w (inl e) = inl refl
  after_claim-Fired (table, true) w (inr (_, moved)) =
      inr (dispatch_claimed-lem (record w { table = table }) moved)
  after_claim-Fired (table, false) w (inr (e, moved)) = inl refl

  claimed-Fired :
      (now : ℕ) (w : World)
      → is_at (compute_next_run env s.cron_expr now) observed ≡ false
      → Fired w
          (after_claim env s
            (claim_due s.id observed (compute_next_run env s.cron_expr now) w.table)
            w).0
  unfolding claim_due
  claimed-Fired now w h =
      let next = compute_next_run env s.cron_expr now in
      after_claim-Fired (claim_row s.id observed next (lookup s.id w.table) w.table) w
        (claim_row-cases s.id observed next (lookup s.id w.table) w.table h)

  moved-refused :
      (now : ℕ) (w : World)
      → IsMoved s.id observed w.table
      → (after_claim env s
          (claim_due s.id observed (compute_next_run env s.cron_expr now) w.table)
          w).0
        ≡ w
  unfolding claim_due after_claim IsMoved
  moved-refused now w h =
      rw
        (moved-claim_row s.id observed (compute_next_run env s.cron_expr now) (lookup s.id w.table)
          w.table h)
        refl

  fire_at-Fired :
      (now : ℕ) (w : World)
      → is_at (compute_next_run env s.cron_expr now) observed ≡ false
      → Fired w (fire_at env now s (some observed) w).0
  unfolding fire_at Fired
  fire_at-Fired now w h = elim (Bool-cases (is_deferred env env.in_flight w)) [
    | inl e ↦ rw e (inl refl)
    | inr e ↦ elim (Bool-cases (env.claim_fails s.id)) [
      | inl f ↦ rw (e, f) (inl refl)
      | inr f ↦ rw (e, f) (claimed-Fired now w h)
    ]
  ]

  -- Once the row has moved, a firing from the same snapshot does nothing.
  fire_at-moved :
      (now : ℕ) (w : World)
      → IsMoved s.id observed w.table
      → (fire_at env now s (some observed) w).0 ≡ w
  unfolding fire_at
  fire_at-moved now w h = elim (Bool-cases (is_deferred env env.in_flight w)) [
    | inl e ↦ rw e refl
    | inr e ↦ elim (Bool-cases (env.claim_fails s.id)) [
      | inl f ↦ rw (e, f) refl
      | inr f ↦ rw (e, f) (moved-refused now w h)
    ]
  ]

  fire_each_step :
      (now : ℕ) (times : List ℕ) (w : World)
      → fire_each env s (now ∷ times) w
        ≡ fire_each env s times (fire_at env now s s.next_run_at w).0
  unfolding fire_each fire
  fire_each_step now times w = refl

  module _ (is_due : s.next_run_at ≡ some observed) where
    fire_each-cons :
        (now : ℕ) (times : List ℕ) (w : World)
        → fire_each env s (now ∷ times) w
          ≡ fire_each env s times (fire_at env now s (some observed) w).0
    fire_each-cons now times w =
        fire_each_step now times w
        ∙ ap (λ o. fire_each env s times (fire_at env now s o w).0) is_due

    fire_each-moved :
        (times : List ℕ) (w : World) → IsMoved s.id observed w.table → fire_each env s times w ≡ w
    fire_each-moved [] w h = unfold fire_each in refl
    fire_each-moved (now ∷ times) w h =
        rw (fire_each-cons now times w, fire_at-moved now w h) (fire_each-moved times w h)

    once : (n m k : ℕ) → m ≤ n + 1 → k ≡ m → k ≤ n + 1
    once n m k h e = omega (arith, h, e)

    later :
        (times : List ℕ) (w w' : World)
        → Fired w w'
        → (w' ≡ w → length (fire_each env s times w').dispatches ≤ length w.dispatches + 1)
        → length (fire_each env s times w').dispatches ≤ length w.dispatches + 1
    unfolding Fired
    later times w w' (inl same) ih = ih same
    later times w w' (inr (moved, one)) ih = rw (fire_each-moved times w' moved) one

    -- If the next run computed at each firing is another time than the one observed, all the firings of
    -- one snapshot of a due schedule, by however many polls and replicas, dispatch at most one work item,
    -- be the claim and the writes of the outcome successful or not.
    pub fire_each-at_most_once :
        (times : List ℕ) (w : World)
        → All (λ now. is_at (compute_next_run env s.cron_expr now) observed ≡ false) times
        → length (fire_each env s times w).dispatches ≤ length w.dispatches + 1
    fire_each-at_most_once [] w h = unfold fire_each in omega arith
    fire_each-at_most_once (now ∷ times) w (h, hs) =
        let w' = (fire_at env now s (some observed) w).0 in
        rw (fire_each-cons now times w) (
          later times w w' (fire_at-Fired now w h)
            (λ same. rw same (fire_each-at_most_once times w hs)))
