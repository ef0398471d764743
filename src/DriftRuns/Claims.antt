-- ===== src/DriftRuns/Claims.antt =====
-- drift_repository.go: a dispatched run is claimed at most once.
use terraform_state_manager.Prelude.{
  ℕ, ◌≤◌, List, [], ◌∷◌, Bool, true, false, Option, none, some, ◌≡◌, refl, sym, ◌∙◌, Bytes, arith,
  if◌then◌else◌, ◌&&◌, str_eq, str_eq_refl, Map, lookup, insert, lookup-insert, Bool-cases,
  some_inj, inl, inr,
}
use terraform_state_manager.DriftRuns.Runs.{
  Run, dispatched, update_where, clear_token, fail_run, holds_token, is_expirable,
  consume_callback_token, expire_dispatched, Claim, consume, expire, claim, claim_all, Overdue,
  Notice, reconcile_loop,
}

-- The run holds no token, or is not there.
unfoldable pub IsSpent : Bytes → Map Run → Type 0
IsSpent id table = (run : Run) → lookup id table ≡ some run → run.callback_token ≡ []

false_ne_true : false ≡ true → ⊥
false_ne_true h = ground (arith, h)

clear_token-clears : (run : Run) → (clear_token run).callback_token ≡ []
unfolding clear_token
clear_token-clears run = refl

fail_run-clears : (detail : Bytes) (run : Run) → (fail_run detail run).callback_token ≡ []
unfolding fail_run
fail_run-clears detail run = refl

and_false : (b : Bool) → (b && false) ≡ false
and_false b = ground arith

spent_guards :
    (c : ℕ) (token : Bytes) (run : Run)
    → run.callback_token ≡ []
    → (holds_token (c ∷ token) run ≡ false) × (is_expirable (c ∷ token) run ≡ false)
unfolding holds_token is_expirable str_eq
spent_guards c token run h = (rw h refl, rw h (and_false (str_eq run.status dispatched)))

written_token :
    (id : Bytes) (run : Run) (table : Map Run)
    → run.callback_token ≡ []
    → IsSpent id (insert id run table)
unfolding IsSpent
written_token id run table h found e =
    let there = lookup-insert id id run table in
    let same : some run ≡ some found = sym (there ∙ rw (str_eq_refl id) refl) ∙ e in
    rw (sym (some_inj same)) h

module _ (id : Bytes) (guard : Run → Bool) (change : Run → Run) where
  update_where-IsSpent :
      ((run : Run) → (change run).callback_token ≡ [])
      → (found : Option Run) (table : Map Run) → (update_where id guard change found table).1 ≡ true
      → IsSpent id (update_where id guard change found table).0
  unfolding update_where
  update_where-IsSpent clears none table h = ground (arith, h)
  update_where-IsSpent clears (some run) table h = elim (Bool-cases (guard run)) [
    | inl e ↦ rw e (written_token id (change run) table (clears run))
    | inr e ↦ absurd (false_ne_true (rw e at h))
  ]

  update_where-refused :
      (found : Option Run) (table : Map Run)
      → ((run : Run) → found ≡ some run → guard run ≡ false)
      → update_where id guard change found table ≡ (table, false)
  unfolding update_where
  update_where-refused none table h = refl
  update_where-refused (some run) table h = rw (h run refl) refl

-- A claim that succeeds clears the token.
claim-IsSpent :
    (id : Bytes) (c : Claim) (table : Map Run)
    → (claim id c table).1 ≡ true
    → IsSpent id (claim id c table).0
unfolding claim consume_callback_token expire_dispatched
claim-IsSpent id (consume []) table h = absurd (false_ne_true h)
claim-IsSpent id (consume (c ∷ token)) table h =
    update_where-IsSpent id (holds_token (c ∷ token)) clear_token clear_token-clears
      (lookup id table) table h
claim-IsSpent id (expire [] detail) table h = absurd (false_ne_true h)
claim-IsSpent id (expire (c ∷ token) detail) table h =
    update_where-IsSpent id (is_expirable (c ∷ token)) (fail_run detail) (fail_run-clears detail)
      (lookup id table) table h

-- On a run without a token no claim succeeds.
spent-claim :
    (id : Bytes) (c : Claim) (table : Map Run)
    → IsSpent id table
    → claim id c table ≡ (table, false)
unfolding claim consume_callback_token expire_dispatched IsSpent
spent-claim id (consume []) table h = refl
spent-claim id (consume (c ∷ token)) table h =
    update_where-refused id (holds_token (c ∷ token)) clear_token (lookup id table) table
      (λ run e. (spent_guards c token run (h run e)).0)
spent-claim id (expire [] detail) table h = refl
spent-claim id (expire (c ∷ token) detail) table h =
    update_where-refused id (is_expirable (c ∷ token)) (fail_run detail) (lookup id table) table
      (λ run e. (spent_guards c token run (h run e)).1)

spent-claim_all :
    (id : Bytes) (cs : List Claim) (table : Map Run)
    → IsSpent id table
    → claim_all id cs table ≡ (table, 0)
unfolding claim_all
spent-claim_all id [] table h = refl
spent-claim_all id (c ∷ cs) table h =
    rw (spent-claim id c table h) (rw (spent-claim_all id cs table h) refl)

-- Of any sequence of callbacks and expiries of one run, by whatever processes and with whatever
-- tokens, at most one claims it.
pub claim_all-one_win :
    (id : Bytes) (cs : List Claim) (table : Map Run) → (claim_all id cs table).1 ≤ 1
unfolding claim_all
claim_all-one_win id [] table = omega arith
claim_all-one_win id (c ∷ cs) table = elim (Bool-cases (claim id c table).1) [
  | inl won ↦
      rw won (
        rw (spent-claim_all id cs (claim id c table).0 (claim-IsSpent id c table won))
          (omega arith))
  | inr lost ↦ rw lost (claim_all-one_win id cs (claim id c table).0)
]

spent-expire :
    (id token detail : Bytes) (table : Map Run)
    → IsSpent id table
    → expire_dispatched id token detail table ≡ (table, false)
unfolding claim
spent-expire id token detail table h = spent-claim id (expire token detail) table h

module _ (detail : Bytes) (errs : Bytes → Bool) (meanwhile : Bytes → Map Run → Map Run) where
  same_branches : (b : Bool) (x : Map Run × List Notice) → (if b then x else x) ≡ x
  same_branches true x = refl
  same_branches false x = refl

  -- If the token of a run is gone when the sweep comes to it, as after a callback that landed since
  -- the run was listed, the sweep changes nothing of the table for it and sends no notice for it,
  -- and goes on with the other runs.
  pub reconcile_loop-claimed :
      (run : Overdue) (runs : List Overdue) (table : Map Run)
      → IsSpent run.id (meanwhile run.id table)
      → reconcile_loop detail errs meanwhile (run ∷ runs) table
        ≡ reconcile_loop detail errs meanwhile runs (meanwhile run.id table)
  unfolding reconcile_loop
  reconcile_loop-claimed run runs table h =
      rw (spent-expire run.id run.callback_token detail (meanwhile run.id table) h) (
        same_branches (errs run.id)
          (reconcile_loop detail errs meanwhile runs (meanwhile run.id table)))
