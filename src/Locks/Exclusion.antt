-- ===== src/Locks/Exclusion.antt =====
-- lock_repository.go: a lock that its holder renews keeps every other editor out.
use terraform_state_manager.Prelude.{
  ℕ, suc, ◌+◌, List, [], ◌∷◌, Bool, true, false, Option, none, some, ◌≡◌, refl, sym, Bytes, arith,
  if◌then◌else◌, leb, ◌&&◌, not, str_eq, str_eq_iff, select, any, all, map, Result, ok, err,
  Bool-cases, inl, inr,
}
use terraform_state_manager.Locks.Table.{
  Lock, stale_lock_ttl, Held, is_on, is_stale, is_lock, reap, find_lock, insert_lock, acquire,
  renewed, renew, release, force_release,
}
use terraform_state_manager.Locks.Requests.{
  Request, takes, renews, releases, forces, taken, answer, answer_all,
}

-- The row of a holder, renewed at a time or later.
unfoldable pub is_held : Bytes → Bytes → Bytes → ℕ → Lock → Bool
unfolding is_lock
is_held s k id since l = is_lock s k id l && leb since l.renewed_at

-- No request of the holder's own ends the lock, nor does an administrator's; an acquisition comes
-- before the lock has aged past the limit.
unfoldable pub is_foreign : Bytes → Bytes → Bytes → ℕ → Request → Bool
is_foreign s k id since (takes now id2 s2 k2 actor) = leb now (since + stale_lock_ttl)
is_foreign s k id since (renews now s2 k2 id2) = leb since now
is_foreign s k id since (releases s2 k2 id2) = not (str_eq id id2 && (str_eq s s2 && str_eq k k2))
is_foreign s k id since (forces s2 k2) = not (str_eq s s2 && str_eq k k2)

abbrev is_ok : Result Held (List Lock) → Bool
is_ok (ok next) = true
is_ok (err why) = false

-- A request that acquires the key.
unfoldable pub wins : Bytes → Bytes → Request → List Lock → Bool
unfolding acquire
wins s k (takes now id2 s2 k2 actor) locks =
    (str_eq s s2 && str_eq k k2) && is_ok (acquire now id2 s2 k2 actor locks)
wins s k r locks = false

unfoldable pub winners : Bytes → Bytes → List Request → List Lock → ℕ
unfolding wins answer
winners s k [] locks = 0
winners s k (r ∷ rs) locks =
    let rest = winners s k rs (answer r locks) in if wins s k r locks then suc rest else rest

both : (a b c d : Bytes) → (str_eq a b && str_eq c d) ≡ true → (a ≡ b) × (c ≡ d)
both a b c d h = ground (arith, h, str_eq_iff a b, str_eq_iff c d)

and_parts : {a b : Bool} → (a && b) ≡ true → (a ≡ true) × (b ≡ true)
and_parts {a} {b} h = ground (arith, h)

any-select :
    (t p : Lock → Bool) (locks : List Lock)
    → ((l : Lock) → t l ≡ true → p l ≡ true)
    → any t locks ≡ true
    → any t (select p locks) ≡ true
any-select t p [] keeps h = h
any-select t p (l ∷ ls) keeps h = ground (arith, keeps l, any-select t p ls keeps)

any-map :
    (t : Lock → Bool) (f : Lock → Lock) (locks : List Lock)
    → ((l : Lock) → t l ≡ true → t (f l) ≡ true)
    → any t locks ≡ true
    → any t (map f locks) ≡ true
any-map t f [] keeps h = h
any-map t f (l ∷ ls) keeps h = ground (arith, keeps l, any-map t f ls keeps)

find_lock-any :
    (t q : Lock → Bool) (locks : List Lock)
    → ((l : Lock) → t l ≡ true → q l ≡ true)
    → any t locks ≡ true
    → find_lock q locks ≡ none
    → ⊥
unfolding find_lock
find_lock-any t q [] keeps h e = ground (arith, h)
find_lock-any t q (l ∷ ls) keeps h e = ground (arith, keeps l, h, e, find_lock-any t q ls keeps)

module _ (s k id : Bytes) (since : ℕ) where
  held-on : (l : Lock) → is_held s k id since l ≡ true → is_on s k l ≡ true
  unfolding is_held is_lock
  held-on l h = ground (arith, h)

  held-reap :
      (now : ℕ) (s2 k2 : Bytes) (l : Lock)
      → leb now (since + stale_lock_ttl) ≡ true
      → is_held s k id since l ≡ true
      → not (is_on s2 k2 l && is_stale now l) ≡ true
  unfolding is_held is_stale
  held-reap now s2 k2 l soon h = ground (arith, soon, h)

  held-renew :
      (now : ℕ) (p : Lock → Bool) (l : Lock)
      → leb since now ≡ true
      → is_held s k id since l ≡ true
      → is_held s k id since (if p l then renewed now l else l) ≡ true
  unfolding is_held is_lock is_on
  held-renew now p l late h = ground (arith, late, h)

  held-release :
      (s2 k2 id2 : Bytes) (l : Lock)
      → is_foreign s k id since (releases s2 k2 id2) ≡ true
      → is_held s k id since l ≡ true
      → not (is_lock s2 k2 id2 l) ≡ true
  unfolding is_held is_lock is_on is_foreign
  held-release s2 k2 id2 l other h = ground (
    arith,
    other,
    h,
    str_eq_iff l.id id,
    str_eq_iff l.id id2,
    str_eq_iff id id2,
    str_eq_iff l.source_id s,
    str_eq_iff l.source_id s2,
    str_eq_iff s s2,
    str_eq_iff l.state_key k,
    str_eq_iff l.state_key k2,
    str_eq_iff k k2,
  )

  held-force :
      (s2 k2 : Bytes) (l : Lock)
      → is_foreign s k id since (forces s2 k2) ≡ true
      → is_held s k id since l ≡ true
      → not (is_on s2 k2 l) ≡ true
  unfolding is_held is_lock is_on is_foreign
  held-force s2 k2 l other h = ground (
    arith,
    other,
    h,
    str_eq_iff l.source_id s,
    str_eq_iff l.source_id s2,
    str_eq_iff s s2,
    str_eq_iff l.state_key k,
    str_eq_iff l.state_key k2,
    str_eq_iff k k2,
  )

  unfoldable pub IsHeld : List Lock → Type 0
  unfolding is_held
  IsHeld locks = any (is_held s k id since) locks ≡ true

  taken-IsHeld :
      (l : Lock) (found : Option Lock) (live locks : List Lock)
      → IsHeld live
      → IsHeld locks
      → IsHeld (taken (insert_lock l found live) locks)
  unfolding IsHeld taken insert_lock
  taken-IsHeld l none live locks hl h = ground (arith, hl)
  taken-IsHeld l (some held) live locks hl h = h

  answer-IsHeld :
      (r : Request) (locks : List Lock)
      → is_foreign s k id since r ≡ true
      → IsHeld locks
      → IsHeld (answer r locks)
  unfolding answer acquire reap release force_release renew is_foreign
  answer-IsHeld (takes now id2 s2 k2 actor) locks soon h =
      let live = select (λ l. not (is_on s2 k2 l && is_stale now l)) locks in
      taken-IsHeld _ (find_lock (is_on s2 k2) live) live locks
        (unfold IsHeld in
          any-select (is_held s k id since) _ locks (λ l. held-reap now s2 k2 l soon)
            (unfold IsHeld in h))
        h
  answer-IsHeld (renews now s2 k2 id2) locks late h =
      unfold IsHeld in
      any-map (is_held s k id since) _ locks (λ l. held-renew now (is_lock s2 k2 id2) l late)
        (unfold IsHeld in h)
  answer-IsHeld (releases s2 k2 id2) locks other h =
      unfold IsHeld in
      any-select (is_held s k id since) _ locks (λ l. held-release s2 k2 id2 l other)
        (unfold IsHeld in h)
  answer-IsHeld (forces s2 k2) locks other h =
      unfold IsHeld in
      any-select (is_held s k id since) _ locks (λ l. held-force s2 k2 l other) (unfold IsHeld in h)

  refused :
      (l : Lock) (found : Option Lock) (live : List Lock)
      → (found ≡ none → ⊥)
      → is_ok (insert_lock l found live) ≡ false
  unfolding insert_lock
  refused l none live h = absurd (h refl)
  refused l (some held) live h = refl

  acquire-IsHeld :
      (now : ℕ) (id2 actor : Bytes) (locks : List Lock)
      → leb now (since + stale_lock_ttl) ≡ true
      → IsHeld locks
      → is_ok (acquire now id2 s k actor locks) ≡ false
  unfolding acquire reap IsHeld
  acquire-IsHeld now id2 actor locks soon h =
      refused _ (find_lock (is_on s k) (select (λ l. not (is_on s k l && is_stale now l)) locks)) _
        (find_lock-any (is_held s k id since) (is_on s k) _ held-on
          (any-select (is_held s k id since) _ locks (λ l. held-reap now s k l soon) h))

  wins-IsHeld :
      (r : Request) (locks : List Lock)
      → is_foreign s k id since r ≡ true
      → IsHeld locks
      → wins s k r locks ≡ false
  unfolding wins is_foreign
  wins-IsHeld (takes now id2 s2 k2 actor) locks soon h =
      elim (Bool-cases (str_eq s s2 && str_eq k k2)) [
        | inl same ↦
            let (es, ek) = both s s2 k k2 same in
            rw same (rw (sym es) (rw (sym ek) (acquire-IsHeld now id2 actor locks soon h)))
        | inr other ↦ rw other refl
      ]
  wins-IsHeld (renews now s2 k2 id2) locks soon h = refl
  wins-IsHeld (releases s2 k2 id2) locks soon h = refl
  wins-IsHeld (forces s2 k2) locks soon h = refl

  -- While a lock is held and no more than 15 minutes have passed since it was last renewed, no
  -- acquisition of its key succeeds and the row stays, whatever other editors acquire, renew,
  -- release by their own ids or force-release on other keys.
  pub answer_all-IsHeld :
      (rs : List Request) (locks : List Lock)
      → all (is_foreign s k id since) rs ≡ true
      → IsHeld locks
      → (winners s k rs locks ≡ 0) × IsHeld (answer_all rs locks)
  unfolding answer_all winners
  answer_all-IsHeld [] locks all_foreign h = (refl, h)
  answer_all-IsHeld (r ∷ rs) locks all_foreign h =
      let (foreign_head, foreign_tail) = and_parts all_foreign in
      let (lost, held) =
        answer_all-IsHeld rs (answer r locks) foreign_tail (answer-IsHeld r locks foreign_head h) in
      (rw (wins-IsHeld r locks foreign_head h) lost, held)
