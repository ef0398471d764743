-- ===== src/Edits/Retention.antt =====
-- state_edit_repository.go: PruneBackups, on the rows in the order of their times, the newest first.
use terraform_state_manager.Prelude.{
  ℕ, suc, ◌+◌, ◌-◌, ◌<◌, List, [], ◌∷◌, Bool, true, false, ◌≡◌, refl, sym, ap, Bytes, arith,
  if◌then◌else◌, ltb, ◌==◌, ◌&&◌, str_eq_iff, ltb→lt, select, take, Result, ok, err, ok_inj,
  Bool-cases, inl, inr,
}
use terraform_state_manager.Edits.World.{Backup, is_at}

pub data Refusal : Type 0 where
  no_floor no_age : Refusal

-- How many of the rows are at a location.
unfoldable pub count_at : Bytes → Bytes → List Backup → ℕ
unfolding is_at
count_at s k [] = 0
count_at s k (b ∷ bs) = let rest = count_at s k bs in if is_at s k b then suc rest else rest

-- `row_number() OVER (PARTITION BY source_id, state_key ORDER BY created_at DESC)`; `newer` are the
-- rows before this one.
unfoldable pub row_number : List Backup → Backup → ℕ
unfolding count_at
row_number newer b = suc (count_at b.source_id b.state_key newer)

unfoldable pub is_pruned : ℕ → ℕ → ℕ → List Backup → Backup → Bool
unfolding row_number
is_pruned keep max_age now newer b =
    ltb keep (row_number newer b) && ltb (b.created_at + max_age) now

-- The statement, on the rows behind `newer`.
unfoldable pub prune_rows : ℕ → ℕ → ℕ → List Backup → List Backup → List Backup
unfolding is_pruned
prune_rows keep max_age now newer [] = []
prune_rows keep max_age now newer (b ∷ bs) =
    let rest = prune_rows keep max_age now (b ∷ newer) bs in
    if is_pruned keep max_age now newer b then rest else b ∷ rest

-- PruneBackups
unfoldable pub prune_backups : ℕ → ℕ → ℕ → List Backup → Result Refusal (List Backup)
unfolding prune_rows
prune_backups keep max_age now backups =
    if keep == 0
    then err no_floor
    else if max_age == 0
    then err no_age
    else ok (prune_rows keep max_age now [] backups)

err_ne_ok : {why : Refusal} {left : List Backup} → err why ≡ ok left → ⊥
err_ne_ok h = cc

sub_zero : (n : ℕ) → n - 0 ≡ n
sub_zero n = omega arith

module _ (keep max_age now : ℕ) (s k : Bytes) where
  same_place : (b : Backup) → is_at s k b ≡ true → (b.source_id ≡ s) × (b.state_key ≡ k)
  unfolding is_at
  same_place b h = ground (arith, h, str_eq_iff b.source_id s, str_eq_iff b.state_key k)

  kept_below :
      (newer : List Backup) (b : Backup)
      → is_at s k b ≡ true
      → count_at s k newer < keep
      → is_pruned keep max_age now newer b ≡ false
  unfolding is_pruned row_number
  kept_below newer b at below =
      let (es, ek) = same_place b at in rw es (rw ek (ground (arith, below)))

  count_at-cons :
      (b : Backup) (bs : List Backup)
      → count_at s k (b ∷ bs) ≡ (if is_at s k b then suc (count_at s k bs) else count_at s k bs)
  unfolding count_at
  count_at-cons b bs = refl

  select_elsewhere :
      (test : Bool) (b : Backup) (rest : List Backup)
      → is_at s k b ≡ false
      → select (is_at s k) (if test then rest else b ∷ rest) ≡ select (is_at s k) rest
  select_elsewhere true b rest h = refl
  select_elsewhere false b rest h = rw h refl

  -- One row at the location, when there is room for it: it is kept.
  step_within :
      (c : ℕ) (b : Backup) (pruned : Bool) (rest bs : List Backup)
      → is_at s k b ≡ true
      → pruned ≡ false
      → c < keep
      → take (keep - suc c) (select (is_at s k) rest) ≡ take (keep - suc c) (select (is_at s k) bs)
      → take (keep - c) (select (is_at s k) (if pruned then rest else b ∷ rest))
        ≡ take (keep - c) (select (is_at s k) (b ∷ bs))
  step_within c b pruned rest bs at kept below next =
      let room : keep - c ≡ suc (keep - suc c) = omega (arith, below) in
      rw kept (rw at (rw room (ap (λ l. b ∷ l) next)))

  -- And when the floor is full.
  step_beyond :
      (c : ℕ) (xs ys : List Backup) → ltb c keep ≡ false → take (keep - c) xs ≡ take (keep - c) ys
  step_beyond c xs ys full =
      let none_left : keep - c ≡ 0 = ground (arith, full) in rw none_left refl

  step_elsewhere :
      (c : ℕ) (b : Backup) (pruned : Bool) (rest bs : List Backup)
      → is_at s k b ≡ false
      → take (keep - c) (select (is_at s k) rest) ≡ take (keep - c) (select (is_at s k) bs)
      → take (keep - c) (select (is_at s k) (if pruned then rest else b ∷ rest))
        ≡ take (keep - c) (select (is_at s k) (b ∷ bs))
  step_elsewhere c b pruned rest bs elsewhere next =
      rw (select_elsewhere pruned b rest elsewhere) (rw elsewhere next)

  prune_rows-cons :
      (newer : List Backup) (b : Backup) (bs : List Backup)
      → prune_rows keep max_age now newer (b ∷ bs) ≡ (
          if is_pruned keep max_age now newer b
          then prune_rows keep max_age now (b ∷ newer) bs
          else b ∷ prune_rows keep max_age now (b ∷ newer) bs)
  unfolding prune_rows
  prune_rows-cons newer b bs = refl

  step_row :
      (newer : List Backup) (b : Backup) (rest bs : List Backup)
      → take (keep - count_at s k (b ∷ newer)) (select (is_at s k) rest)
        ≡ take (keep - count_at s k (b ∷ newer)) (select (is_at s k) bs)
      → take
          (keep - count_at s k newer)
          (select (is_at s k) (if is_pruned keep max_age now newer b then rest else b ∷ rest))
        ≡ take (keep - count_at s k newer) (select (is_at s k) (b ∷ bs))
  step_row newer b rest bs next =
      let counted = count_at-cons b newer in
      elim (Bool-cases (is_at s k b)) [
        | inl at ↦ elim (Bool-cases (ltb (count_at s k newer) keep)) [
          | inl below ↦
              let room = ltb→lt (count_at s k newer) keep below in
              step_within (count_at s k newer) b (is_pruned keep max_age now newer b) rest bs at
                (kept_below newer b at room) room (rw at at rw counted at next)
          | inr full ↦ step_beyond (count_at s k newer) _ _ full
        ]
        | inr elsewhere ↦
            step_elsewhere (count_at s k newer) b (is_pruned keep max_age now newer b) rest bs
              elsewhere (rw elsewhere at rw counted at next)
      ]

  prune_rows-take :
      (bs newer : List Backup)
      → take (keep - count_at s k newer) (select (is_at s k) (prune_rows keep max_age now newer bs))
        ≡ take (keep - count_at s k newer) (select (is_at s k) bs)
  prune_rows-take [] newer = unfold prune_rows in refl
  prune_rows-take (b ∷ bs) newer = rw (prune_rows-cons newer b bs) (
      step_row newer b (prune_rows keep max_age now (b ∷ newer) bs) bs
        (prune_rows-take bs (b ∷ newer)))

  count_at-nil : count_at s k [] ≡ 0
  unfolding count_at
  count_at-nil = refl

  -- Whatever the age, PruneBackups keeps the newest backups of every state, as many as the floor says
  -- or as there are, and in their order.
  pub prune_backups-take :
      (backups left : List Backup)
      → prune_backups keep max_age now backups ≡ ok left
      → take keep (select (is_at s k) left) ≡ take keep (select (is_at s k) backups)
  unfolding prune_backups
  prune_backups-take backups left h = elim (Bool-cases (keep == 0)) [
    | inl e ↦ absurd (err_ne_ok (rw e at h))
    | inr e ↦ elim (Bool-cases (max_age == 0)) [
      | inl e2 ↦ absurd (err_ne_ok (rw e2 at rw e at h))
      | inr e2 ↦
          rw (sym (ok_inj (rw e2 at rw e at h)))
            (rw (sub_zero keep) at rw count_at-nil at (prune_rows-take backups []))
    ]
  ]
