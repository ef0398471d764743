-- ===== src/Pipelines/Tests.antt =====
-- Concrete requests: the theorem at one, and runs.
use terraform_state_manager.Prelude.{
  ℕ, suc, ◌<◌, true, false, ◌≡◌, refl, codes, if◌then◌else◌, ◌==◌, ◌⊎◌, str_eq,
}
use terraform_state_manager.Pipelines.Retry.{
  Reply, failed, answered, replied, cancelled, retry_attempts, is_idempotent, do_with_retry,
}
use terraform_state_manager.Pipelines.Bounded.{IsLast, do_with_retry-IsLast}

-- The first two requests fail.
abbrev flaky : ℕ → Reply
flaky i = if i == 0 then failed else if i == 1 then answered 503 else answered 200

do_with_retry-IsLast_example :
    (m : ℕ) × ((do_with_retry flaky (λ i. false) (codes "GET")).1 ≡ suc m)
    × (m < retry_attempts)
    × ((is_idempotent (codes "GET") ≡ true)
        ⊎ (do_with_retry flaky (λ i. false) (codes "GET") ≡ (replied (flaky 0), 1)))
    × ((is_idempotent (codes "GET") ≡ false)
        ⊎ IsLast flaky
            (λ i. false)
            0
            retry_attempts
            m
            (do_with_retry flaky (λ i. false) (codes "GET")).0)
do_with_retry-IsLast_example = do_with_retry-IsLast flaky (λ i. false) (codes "GET")

flaky_test : do_with_retry flaky (λ i. false) (codes "GET") ≡ (replied (answered 200), 3)
unfolding do_with_retry str_eq
flaky_test = refl

post_test : do_with_retry flaky (λ i. false) (codes "POST") ≡ (replied failed, 1)
unfolding do_with_retry str_eq
post_test = refl

cancelled_test : do_with_retry flaky (λ i. true) (codes "HEAD") ≡ (cancelled, 1)
unfolding do_with_retry str_eq
cancelled_test = refl
