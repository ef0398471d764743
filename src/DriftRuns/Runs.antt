-- ===== src/DriftRuns/Runs.antt =====
-- drift_repository.go: the guarded updates of drift_runs, each one statement and so one step, on a
-- table from ids to rows. reconciler.go: the sweep over the runs that are overdue.
use terraform_state_manager.Prelude.{
  ℕ, ◌+◌, List, [], ◌∷◌, Bool, true, false, Option, none, some, Bytes, codes, if◌then◌else◌, ◌&&◌,
  str_eq, Map, lookup, insert,
}

-- A row of drift_runs, as far as the claims read and write it.
pub record Run : Type 0 where
  pub status : Bytes
  pub detail : Bytes
  pub callback_token : Bytes

abbrev pub dispatched : Bytes
dispatched = codes "dispatched"

abbrev pub failed : Bytes
failed = codes "failed"

-- The statement on the row with the id, if its WHERE clause holds; the answer is `n > 0`.
unfoldable pub update_where :
    Bytes → (Run → Bool) → (Run → Run) → Option Run → Map Run → Map Run × Bool
unfolding insert
update_where id guard change none table = (table, false)
update_where id guard change (some run) table =
    if guard run then (insert id (change run) table, true) else (table, false)

unfoldable pub clear_token : Run → Run
clear_token run = record run { callback_token = [] }

unfoldable pub fail_run : Bytes → Run → Run
fail_run detail run = record run { status = failed; detail = detail; callback_token = [] }

unfoldable pub holds_token : Bytes → Run → Bool
holds_token token run = str_eq run.callback_token token

unfoldable pub is_expirable : Bytes → Run → Bool
is_expirable token run = str_eq run.status dispatched && str_eq run.callback_token token

-- ConsumeCallbackToken
unfoldable pub consume_callback_token : Bytes → Bytes → Map Run → Map Run × Bool
unfolding update_where holds_token clear_token lookup
consume_callback_token id [] table = (table, false)
consume_callback_token id (c ∷ token) table =
    update_where id (holds_token (c ∷ token)) clear_token (lookup id table) table

-- ExpireDispatched
unfoldable pub expire_dispatched : Bytes → Bytes → Bytes → Map Run → Map Run × Bool
unfolding update_where is_expirable fail_run lookup
expire_dispatched id [] detail table = (table, false)
expire_dispatched id (c ∷ token) detail table =
    update_where id (is_expirable (c ∷ token)) (fail_run detail) (lookup id table) table

-- One of the two claims on a run, of any process.
pub data Claim : Type 0 where
  consume : Bytes → Claim
  expire : Bytes → Bytes → Claim

unfoldable pub claim : Bytes → Claim → Map Run → Map Run × Bool
unfolding consume_callback_token expire_dispatched
claim id (consume token) table = consume_callback_token id token table
claim id (expire token detail) table = expire_dispatched id token detail table

-- The claims on one run in the order in which the database takes them, with the number that succeed.
unfoldable pub claim_all : Bytes → List Claim → Map Run → Map Run × ℕ
unfolding claim
claim_all id [] table = (table, 0)
claim_all id (c ∷ cs) table =
    let (next, won) = claim id c table in
    let (final, wins) = claim_all id cs next in (final, if won then wins + 1 else wins)

-- A run as ListExpiredDispatched read it.
pub record Overdue : Type 0 where
  pub id : Bytes
  pub organization_id : Bytes
  pub callback_token : Bytes

-- A call of NotifyRunFailed.
pub record Notice : Type 0 where
  pub organization_id : Bytes
  pub run_id : Bytes

-- The loop of reconcileOnce. Between the listing and the expiry of a run other processes may act:
-- `meanwhile` is what they do to the table before the expiry, and `errs` says which expiry fails.
unfoldable pub reconcile_loop :
    Bytes
    → (Bytes → Bool)
    → (Bytes → Map Run → Map Run)
    → List Overdue
    → Map Run
    → Map Run × List Notice
unfolding expire_dispatched
reconcile_loop detail errs meanwhile [] table = (table, [])
reconcile_loop detail errs meanwhile (run ∷ runs) table =
    let before = meanwhile run.id table in
    let (next, won) = expire_dispatched run.id run.callback_token detail before in
    let skipped = reconcile_loop detail errs meanwhile runs before in
    let (final, notices) = reconcile_loop detail errs meanwhile runs next in
    if errs run.id
    then skipped
    else if won
    then (final, record { organization_id = run.organization_id; run_id = run.id } ∷ notices)
    else (final, notices)

-- reconcileOnce; `none` is an error of the listing.
unfoldable pub reconcile_once :
    Bytes
    → (Bytes → Bool)
    → (Bytes → Map Run → Map Run)
    → Option (List Overdue)
    → Map Run
    → Map Run × List Notice
unfolding reconcile_loop
reconcile_once detail errs meanwhile none table = (table, [])
reconcile_once detail errs meanwhile (some runs) table =
    reconcile_loop detail errs meanwhile runs table
