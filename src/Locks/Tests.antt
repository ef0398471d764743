-- ===== src/Locks/Tests.antt =====
-- Concrete locks: the theorems at inputs that meet their hypotheses, and runs.
use terraform_state_manager.Prelude.{List, [], ◌∷◌, true, false, ◌≡◌, refl, codes, str_eq, all}
use terraform_state_manager.Locks.Table.{Lock, keep_alive}
use terraform_state_manager.Locks.Requests.{Request, takes, renews, releases, forces, answer_all}
use terraform_state_manager.Locks.Exclusion.{is_foreign, winners, IsHeld, answer_all-IsHeld}

abbrev requests : List Request
requests =
    takes 10 (codes "l2") (codes "s") (codes "k") (codes "bo")
    ∷ takes 20 (codes "l3") (codes "s") (codes "other") (codes "bo")
    ∷ releases (codes "s") (codes "k") (codes "l2")
    ∷ renews 300 (codes "s") (codes "k") (codes "l1")
    ∷ forces (codes "s") (codes "other")
    ∷ takes 900 (codes "l4") (codes "s") (codes "k") (codes "cy")
    ∷ []

abbrev held : List Lock
held =
    record {
      id = codes "l1";
      source_id = codes "s";
      state_key = codes "k";
      actor = codes "ann";
      acquired_at = 0;
      renewed_at = 0;
    }
    ∷ []

held-IsHeld : IsHeld (codes "s") (codes "k") (codes "l1") 0 held
unfolding IsHeld str_eq
held-IsHeld = refl

requests-foreign : all (is_foreign (codes "s") (codes "k") (codes "l1") 0) requests ≡ true
unfolding is_foreign str_eq
requests-foreign = refl

answer_all-IsHeld_example :
    (winners (codes "s") (codes "k") requests held ≡ 0)
    × IsHeld (codes "s") (codes "k") (codes "l1") 0 (answer_all requests held)
answer_all-IsHeld_example =
    answer_all-IsHeld (codes "s") (codes "k") (codes "l1") 0 requests held requests-foreign
      held-IsHeld

-- After the limit a crashed holder's row is reaped and another editor has the key.
reaped_test :
    winners
      (codes "s")
      (codes "k")
      (takes 901 (codes "l4") (codes "s") (codes "k") (codes "cy") ∷ [])
      held
    ≡ 1
unfolding winners str_eq
reaped_test = refl

-- A tick that fails in between does no harm.
alive_test :
    keep_alive
      (codes "s")
      (codes "k")
      (codes "l1")
      ((300, false) ∷ (600, true) ∷ (900, false) ∷ [])
      held
    ≡ answer_all (renews 900 (codes "s") (codes "k") (codes "l1") ∷ []) held
unfolding keep_alive answer_all str_eq
alive_test = refl
