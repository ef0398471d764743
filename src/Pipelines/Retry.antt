-- ===== src/Pipelines/Retry.antt =====
-- retry.go: doWithRetry. The HTTP client is a function that gives the reply to each request sent, and
-- the context one that says whether it ends during the wait after it; requests count from 0.
use terraform_state_manager.Prelude.{
  ℕ, zero, suc, Bool, true, Bytes, codes, if◌then◌else◌, leb, ◌==◌, ◌||◌, not, str_eq,
}

-- A transport error, or a response with its status.
pub data Reply : Type 0 where
  failed : Reply
  answered : ℕ → Reply

pub data Outcome : Type 0 where
  replied : Reply → Outcome
  cancelled nothing : Outcome

abbrev pub retry_attempts : ℕ
retry_attempts = 3

unfoldable pub is_retryable : Reply → Bool
is_retryable failed = true
is_retryable (answered status) = leb 500 status

unfoldable pub is_idempotent : Bytes → Bool
is_idempotent method = str_eq method (codes "GET") || str_eq method (codes "HEAD")

-- What comes after a request that is to be retried.
abbrev pub one_more : Outcome × ℕ → Outcome × ℕ
one_more (outcome, sent) = (outcome, suc sent)

module _ (send : ℕ → Reply) (ends : ℕ → Bool) where
  -- The loop, from the attempts left and the number of the next request; with how many it sends.
  unfoldable pub attempts_from : ℕ → ℕ → Outcome × ℕ
  unfolding is_retryable
  attempts_from zero n = (nothing, 0)
  attempts_from (suc left) n =
      let rest = attempts_from left (suc n) in
      if not (is_retryable (send n)) || left == 0
      then (replied (send n), 1)
      else if ends n
      then (cancelled, 1)
      else one_more rest

  unfoldable pub do_with_retry : Bytes → Outcome × ℕ
  unfolding is_idempotent attempts_from
  do_with_retry method =
      if is_idempotent method then attempts_from retry_attempts 0 else (replied (send 0), 1)
