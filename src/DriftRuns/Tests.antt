-- ===== src/DriftRuns/Tests.antt =====
-- Concrete drift runs: the theorems at inputs that meet their hypotheses, and runs.
use terraform_state_manager.Prelude.{
  ◌≤◌, List, [], ◌∷◌, false, some, ◌≡◌, refl, Bytes, codes, str_eq, Map, lookup, some_inj, sym,
}
use terraform_state_manager.DriftRuns.Runs.{
  Run, dispatched, failed, Claim, consume, expire, claim_all, Overdue, reconcile_loop,
  reconcile_once,
}
use terraform_state_manager.DriftRuns.Claims.{IsSpent, claim_all-one_win, reconcile_loop-claimed}

abbrev table : Map Run
table = (codes "r1", record { status = dispatched; detail = []; callback_token = codes "t" }) ∷ []

abbrev race : List Claim
race = consume (codes "wrong") ∷ expire (codes "t") (codes "expired") ∷ consume (codes "t") ∷ []

claim_all-one_win_example : (claim_all (codes "r1") race table).1 ≤ 1
claim_all-one_win_example = claim_all-one_win (codes "r1") race table

race_test : claim_all (codes "r1") race table ≡ (
  (codes "r1", record { status = failed; detail = codes "expired"; callback_token = [] }) ∷ [],
  1,
)
unfolding claim_all str_eq
race_test = refl

abbrev overdue : Overdue
overdue = record { id = codes "r1"; organization_id = codes "o"; callback_token = codes "t" }

-- A callback lands before the expiry.
abbrev lands : Bytes → Map Run → Map Run
lands id t =
    (codes "r1", record { status = codes "completed"; detail = []; callback_token = [] }) ∷ []

landed-IsSpent : IsSpent (codes "r1") (lands (codes "r1") table)
unfolding IsSpent lookup str_eq
landed-IsSpent run e = rw (sym (some_inj e)) refl

reconcile_loop-claimed_example :
    reconcile_loop (codes "expired") (λ id. false) lands (overdue ∷ []) table
    ≡ reconcile_loop (codes "expired") (λ id. false) lands [] (lands (codes "r1") table)
reconcile_loop-claimed_example =
    reconcile_loop-claimed (codes "expired") (λ id. false) lands overdue [] table landed-IsSpent

notice_test :
    (reconcile_once (codes "expired") (λ id. false) (λ id t. t) (some (overdue ∷ [])) table).1
    ≡ record { organization_id = codes "o"; run_id = codes "r1" } ∷ []
unfolding reconcile_once str_eq
notice_test = refl
