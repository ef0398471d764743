-- ===== src/Scheduler/Runner.antt =====
-- scheduler.go: ComputeNextRun, fire and checkDue, and ClaimDue and RecordOutcome of
-- schedule_repository.go. A time is a number of nanoseconds. The cron library, the durations, the
-- in-flight count, the dispatcher and the failures of the database are parameters.
use terraform_state_manager.Prelude.{
  ℕ, ◌+◌, ◌*◌, List, [], ◌∷◌, ◌++◌, Bool, true, false, not, Option, none, some, Bytes, codes,
  if◌then◌else◌, ltb, leb, ◌==◌, ◌&&◌, str_eq, has_prefix, trim_prefix, trim_space, Map, lookup,
  insert,
}
use mathlib.Core.Option

pub record Schedule : Type 0 where
  pub id : Bytes
  pub cron_expr : Bytes
  pub next_run_at : Option ℕ
  pub enabled : Bool
  pub organization_id : Bytes
  pub last_status : Bytes
  pub last_run_id : Bytes

-- A work item that Dispatch was asked for.
pub record Dispatch : Type 0 where
  pub schedule_id : Bytes
  pub organization_id : Bytes

-- The table of schedules and the dispatches so far.
pub record World : Type 0 where
  pub table : Map Schedule
  pub dispatches : List Dispatch

-- What Dispatch returns, and whether it returns an error.
pub record Dispatched : Type 0 where
  pub run_id : Bytes
  pub status : Bytes
  pub is_err : Bool

pub record Env : Type 0 where
  -- cron.ParseStandard with Next, and time.ParseDuration; `none` is an error.
  pub cron_next : Bytes → ℕ → Option ℕ
  pub parse_duration : Bytes → Option ℕ
  -- The callback InFlight, nil or not, and its answer, `none` for an error.
  pub in_flight : Option (List Dispatch → Option ℕ)
  pub max_in_flight : ℕ
  -- Whether ClaimDue and RecordOutcome of a schedule return an error.
  pub claim_fails : Bytes → Bool
  pub record_fails : Bytes → Bool
  pub dispatch : Schedule → Dispatched

abbrev pub minute : ℕ
minute = 60 * 1000000000

abbrev pub hour : ℕ
hour = 60 * minute

abbrev at_least_minute : ℕ → ℕ
at_least_minute d = if ltb d minute then minute else d

unfoldable pub keyword_next : Env → Bytes → ℕ → Option ℕ
unfolding str_eq has_prefix trim_prefix trim_space
keyword_next env expr from =
    if str_eq expr (codes "daily")
    then some (from + 24 * hour)
    else if str_eq expr (codes "weekly")
    then some (from + 7 * 24 * hour)
    else if has_prefix expr (codes "every ")
    then Option.map (λ d. from + at_least_minute d)
        (env.parse_duration (trim_space (trim_prefix expr (codes "every "))))
    else none

abbrev or_keyword : Option ℕ → Option ℕ → Option ℕ
or_keyword none k = k
or_keyword (some t) k = some t

-- ComputeNextRun
unfoldable pub compute_next_run : Env → Bytes → ℕ → Option ℕ
unfolding keyword_next trim_space
compute_next_run env text from =
    let expr = trim_space text in or_keyword (env.cron_next expr from) (keyword_next env expr from)

abbrev pub is_at : Option ℕ → ℕ → Bool
is_at none t = false
is_at (some u) t = u == t

-- The statement of ClaimDue on the row with the id.
unfoldable pub claim_row :
    Bytes → ℕ → Option ℕ → Option Schedule → Map Schedule → Map Schedule × Bool
unfolding insert
claim_row id observed next none table = (table, false)
claim_row id observed next (some row) table =
    if row.enabled && is_at row.next_run_at observed
    then (insert id (record row { next_run_at = next }) table, true)
    else (table, false)

-- ClaimDue
unfoldable pub claim_due : Bytes → ℕ → Option ℕ → Map Schedule → Map Schedule × Bool
unfolding claim_row lookup
claim_due id observed next table = claim_row id observed next (lookup id table) table

unfoldable pub record_row : Bytes → Bytes → Bytes → Option Schedule → Map Schedule → Map Schedule
unfolding insert
record_row id status run_id none table = table
record_row id status run_id (some row) table =
    insert id (record row { last_status = status; last_run_id = run_id }) table

-- RecordOutcome; an error leaves the table as it is.
unfoldable pub record_outcome : Env → Bytes → Bytes → Bytes → World → World
unfolding record_row lookup
record_outcome env id status run_id w =
    if env.record_fails id
    then w
    else record w { table = record_row id status run_id (lookup id w.table) w.table }

-- The cap, read afresh; an error of the count lets the firing through.
unfoldable pub reaches_cap : ℕ → Option ℕ → Bool
reaches_cap max none = false
reaches_cap max (some n) = ltb 0 max && leb max n

unfoldable pub is_deferred : Env → Option (List Dispatch → Option ℕ) → World → Bool
unfolding reaches_cap
is_deferred env none w = false
is_deferred env (some count) w = reaches_cap env.max_in_flight (count w.dispatches)

abbrev or_failed : Bytes → Bytes
or_failed [] = codes "failed"
or_failed (c ∷ s) = c ∷ s

-- The status that is recorded for a dispatch.
unfoldable pub outcome_status : Dispatched → Bytes
outcome_status d = if d.is_err then or_failed d.status else d.status

abbrev is_blank : Bytes → Bool
is_blank [] = true
is_blank (c ∷ s) = false

-- Whether tenancy.SystemActingIn derives a scope from a row of schedules.
unfoldable pub system_acting_in : Bytes → Bytes → Bool
unfolding trim_space
system_acting_in organization_id row_id =
    if is_blank (trim_space row_id) then false else not (is_blank (trim_space organization_id))

-- What fire does with a claimed schedule.
unfoldable pub dispatch_claimed : Env → Schedule → World → World
unfolding record_outcome outcome_status system_acting_in
dispatch_claimed env s w =
    let d = env.dispatch s in
    let sent = record w {
      dispatches =
          w.dispatches ++ record { schedule_id = s.id; organization_id = s.organization_id } ∷ [];
    } in
    if system_acting_in s.organization_id s.id
    then record_outcome env s.id (outcome_status d) d.run_id sent
    else record_outcome env s.id (codes "failed") [] w

-- fire with the result of the claim, and whether it returns true.
unfoldable pub after_claim : Env → Schedule → Map Schedule × Bool → World → World × Bool
unfolding dispatch_claimed
after_claim env s (table, true) w = (dispatch_claimed env s (record w { table = table }), true)
after_claim env s (table, false) w = (w, true)

unfoldable pub fire_at : Env → ℕ → Schedule → Option ℕ → World → World × Bool
unfolding is_deferred compute_next_run claim_due after_claim
fire_at env now s none w = (w, true)
fire_at env now s (some observed) w =
    if is_deferred env env.in_flight w
    then (w, false)
    else if env.claim_fails s.id
    then (w, false)
    else after_claim env s (claim_due s.id observed (compute_next_run env s.cron_expr now) w.table)
        w

-- fire
unfoldable pub fire : Env → ℕ → Schedule → World → World × Bool
unfolding fire_at
fire env now s w = fire_at env now s s.next_run_at w

-- checkDue over the schedules that GetDue read, `none` for an error, with the time of each firing;
-- the number is the backlog.
unfoldable pub fire_all : Env → List (ℕ × Schedule) → World → World × ℕ
unfolding fire
fire_all env [] w = (w, 0)
fire_all env ((now, s) ∷ due) w =
    let (w', claimed) = fire env now s w in
    let (final, unclaimed) = fire_all env due w' in
    (final, if claimed then unclaimed else unclaimed + 1)

unfoldable pub check_due : Env → Option (List (ℕ × Schedule)) → World → World × ℕ
unfolding fire_all
check_due env none w = (w, 0)
check_due env (some due) w = fire_all env due w
