-- ===== src/Pipelines/Bounded.antt =====
-- retry.go: how many requests are sent, and which reply is returned.
use terraform_state_manager.Prelude.{
  ℕ, zero, suc, ◌+◌, ◌<◌, Bool, true, false, ◌≡◌, refl, ap, Bytes, arith, ◌==◌, ◌||◌, not,
  Bool-cases, inl, inr, ◌⊎◌,
}
use terraform_state_manager.Pipelines.Retry.{
  Reply, Outcome, replied, cancelled, retry_attempts, is_retryable, is_idempotent, one_more,
  attempts_from, do_with_retry,
}

add_zero : (n : ℕ) → n + 0 ≡ n
add_zero n = omega arith

add_suc : (n m : ℕ) → n + suc m ≡ suc n + m
add_suc n m = omega arith

or_true : (b : Bool) → (b || true) ≡ true
or_true b = ground arith

module _ (send : ℕ → Reply) (ends : ℕ → Bool) where
  -- After `m` requests whose replies all were to be retried, the request after them is the last one:
  -- its reply is returned, for it is not to be retried or no attempt is left, or the context ended
  -- in the wait behind it.
  unfoldable pub IsLast : ℕ → ℕ → ℕ → Outcome → Type 0
  unfolding is_retryable
  IsLast n left m outcome =
      ((i : ℕ) → i < m → is_retryable (send (n + i)) ≡ true)
      × (m < left)
      × (((outcome ≡ replied (send (n + m)))
            × ((is_retryable (send (n + m)) ≡ false) ⊎ (suc m ≡ left)))
          ⊎ ((outcome ≡ cancelled) × (ends (n + m) ≡ true) × (is_retryable (send (n + m)) ≡ true)))

  last_below : (n left m : ℕ) (outcome : Outcome) → IsLast n left m outcome → m < left
  unfolding IsLast
  last_below n left m outcome (hs, below, end) = below

  attempts_from-stop :
      (left n : ℕ)
      → (not (is_retryable (send n)) || left == 0) ≡ true
      → attempts_from send ends (suc left) n ≡ (replied (send n), 1)
  unfolding attempts_from
  attempts_from-stop left n h = rw h refl

  attempts_from-ended :
      (left n : ℕ)
      → (not (is_retryable (send n)) || left == 0) ≡ false
      → ends n ≡ true
      → attempts_from send ends (suc left) n ≡ (cancelled, 1)
  unfolding attempts_from
  attempts_from-ended left n h e = rw h (rw e refl)

  attempts_from-again :
      (left n : ℕ)
      → (not (is_retryable (send n)) || left == 0) ≡ false
      → ends n ≡ false
      → attempts_from send ends (suc left) n ≡ one_more (attempts_from send ends left (suc n))
  unfolding attempts_from
  attempts_from-again left n h e = rw h (rw e refl)

  -- One request, and no other.
  single-IsLast :
      (n left : ℕ)
      → (not (is_retryable (send n)) || left == 0) ≡ true
      → IsLast n (suc left) 0 (replied (send n))
  unfolding IsLast
  single-IsLast n left stop = (
    λ i below. absurd (omega (arith, below)),
    omega arith,
    inl (rw (add_zero n) (refl, ground (arith, stop))),
  )

  ended-IsLast :
      (n left : ℕ)
      → (not (is_retryable (send n)) || left == 0) ≡ false
      → ends n ≡ true
      → IsLast n (suc left) 0 cancelled
  unfolding IsLast
  ended-IsLast n left again ended = (
    λ i below. absurd (omega (arith, below)),
    omega arith,
    inr (refl, rw (add_zero n) ended, rw (add_zero n) (ground (arith, again))),
  )

  earlier :
      (n m : ℕ)
      → is_retryable (send n) ≡ true
      → ((i : ℕ) → i < m → is_retryable (send (suc n + i)) ≡ true)
      → (i : ℕ) → i < suc m
      → is_retryable (send (n + i)) ≡ true
  earlier n m h hs zero below = rw (add_zero n) h
  earlier n m h hs (suc i) below = rw (add_suc n i) (hs i (omega (arith, below)))

  later-IsLast :
      (n left m : ℕ) (outcome : Outcome)
      → is_retryable (send n) ≡ true
      → IsLast (suc n) left m outcome
      → IsLast n (suc left) (suc m) outcome
  unfolding IsLast
  later-IsLast n left m outcome h (hs, below, inl (same, inl final)) =
      (earlier n m h hs, omega (arith, below), inl (rw (add_suc n m) (same, inl final)))
  later-IsLast n left m outcome h (hs, below, inl (same, inr none_left)) = (
    earlier n m h hs,
    omega (arith, below),
    inl (rw (add_suc n m) (same, inr (omega (arith, none_left)))),
  )
  later-IsLast n left m outcome h (hs, below, inr stopped) =
      (earlier n m h hs, omega (arith, below), inr (rw (add_suc n m) stopped))

  retried :
      (n left : ℕ)
      → (not (is_retryable (send n)) || left == 0) ≡ false
      → is_retryable (send n) ≡ true
  retried n left h = ground (arith, h)

  attempts_from-IsLast :
      (left n : ℕ)
      → (m : ℕ) × ((attempts_from send ends (suc left) n).1 ≡ suc m)
        × IsLast n (suc left) m (attempts_from send ends (suc left) n).0
  attempts_from-IsLast zero n =
      let stop : (not (is_retryable (send n)) || 0 == 0) ≡ true =
        or_true (not (is_retryable (send n))) in
      rw (attempts_from-stop 0 n stop) (0, refl, single-IsLast n 0 stop)
  attempts_from-IsLast (suc left) n =
      let (m, sent, last) = attempts_from-IsLast left (suc n) in
      elim (Bool-cases (not (is_retryable (send n)) || suc left == 0)) [
        | inl stop ↦
            rw (attempts_from-stop (suc left) n stop) (0, refl, single-IsLast n (suc left) stop)
        | inr again ↦ elim (Bool-cases (ends n)) [
          | inl ended ↦
              rw (attempts_from-ended (suc left) n again ended)
                (0, refl, ended-IsLast n (suc left) again ended)
          | inr waits ↦ rw (attempts_from-again (suc left) n again waits) (
            suc m,
            ap suc sent,
            later-IsLast n (suc left) m (attempts_from send ends (suc left) (suc n)).0
                (retried n (suc left) again) last,
          )
        ]
      ]

  -- doWithRetry sends at least one request and at most three. A method other than GET and HEAD is
  -- sent once, and its reply returned. Otherwise every request before the last one failed in
  -- transport or with a status of 500 or more, and the outcome is the reply to the last one, which
  -- did not fail so or was the third, or a cancellation in the wait behind it.
  pub do_with_retry-IsLast :
      (method : Bytes)
      → (m : ℕ) × ((do_with_retry send ends method).1 ≡ suc m)
        × (m < retry_attempts)
        × ((is_idempotent method ≡ true) ⊎ (do_with_retry send ends method ≡ (replied (send 0), 1)))
        × ((is_idempotent method ≡ false)
            ⊎ IsLast 0 retry_attempts m (do_with_retry send ends method).0)
  unfolding do_with_retry
  do_with_retry-IsLast method = elim (Bool-cases (is_idempotent method)) [
    | inl e ↦
        let (m, sent, last) = attempts_from-IsLast 2 0 in
        rw e (m, sent, last_below 0 retry_attempts m _ last, inl refl, inr last)
    | inr e ↦ rw e (0, refl, omega arith, inr refl, inl refl)
  ]
