-- ===== src/Transfers/Ordering.antt =====
-- transfer.go: the order of the two locks.
use terraform_state_manager.Prelude.{
  [], ◌∷◌, ap, Bool, true, false, ◌≡◌, ◌∙◌, refl, Bytes, arith, ◌&&◌, ◌||◌, not, str_eq, str_lt,
  str_eq_iff,
}
use terraform_state_manager.Transfers.Transfer.{Setting}
use terraform_state_manager.Transfers.Pair.{LockTarget, is_same_place, comes_later, lock_order}

str_lt_flip : (a b : Bytes) → str_lt b a ≡ not (str_lt a b || str_eq a b)
unfolding str_lt str_eq
str_lt_flip [] [] = refl
str_lt_flip [] (b ∷ t) = refl
str_lt_flip (a ∷ s) [] = refl
str_lt_flip (a ∷ s) (b ∷ t) = ground (arith, str_lt_flip s t)

str_lt_strict : (a b : Bytes) → str_lt a b ≡ true → str_eq a b ≡ false
unfolding str_lt str_eq
str_lt_strict [] [] h = ground (arith, h)
str_lt_strict [] (b ∷ t) h = refl
str_lt_strict (a ∷ s) [] h = ground (arith, h)
str_lt_strict (a ∷ s) (b ∷ t) h = ground (arith, h, str_lt_strict s t)

str_eq_sym : (a b : Bytes) → str_eq a b ≡ str_eq b a
str_eq_sym a b = ground (arith, str_eq_iff a b, str_eq_iff b a)

is_same_place_sym : (a b : LockTarget) → is_same_place a b ≡ is_same_place b a
unfolding is_same_place
is_same_place_sym a b = ground (arith, str_eq_sym a.source_id b.source_id, str_eq_sym a.key b.key)

-- The two orders, by source and then by key.
flipped :
    (lt eq lt2 eq2 : Bool)
    → (lt ≡ true → eq ≡ false)
    → (lt2 ≡ true → eq2 ≡ false)
    → (eq && eq2) ≡ false
    → (not (lt || eq) || (eq && not (lt2 || eq2))) ≡ not (lt || (eq && lt2))
flipped true true lt2 eq2 h h2 e = ground (arith, h)
flipped true false lt2 eq2 h h2 e = refl
flipped false true true eq2 h h2 e = refl
flipped false true false true h h2 e = ground (arith, e)
flipped false true false false h h2 e = refl
flipped false false lt2 eq2 h h2 e = refl

comes_later_flip :
    (a b : LockTarget) → is_same_place a b ≡ false → comes_later a b ≡ not (comes_later b a)
unfolding is_same_place comes_later
comes_later_flip a b h = rw (str_eq_sym b.source_id a.source_id) (
    rw (str_lt_flip a.source_id b.source_id) (
      rw (str_lt_flip a.key b.key) (
        flipped (str_lt a.source_id b.source_id) (str_eq a.source_id b.source_id)
          (str_lt a.key b.key) (str_eq a.key b.key) (str_lt_strict a.source_id b.source_id)
          (str_lt_strict a.key b.key) h)))

swapped : (a b : LockTarget) → is_same_place a b ≡ false → lock_order a b ≡ lock_order b a
unfolding lock_order
swapped a b h = ground (arith, h, is_same_place_sym a b, comes_later_flip a b h)

-- Two transfers between the same two different places in opposite directions, by whatever callers and
-- of whatever modes, ask for the two locks in the same order.
pub lock_order-either_way :
    (t u : Setting)
    → t.source ≡ u.target
    → t.target ≡ u.source
    → is_same_place t.source t.target ≡ false
    → lock_order t.source t.target ≡ lock_order u.source u.target
lock_order-either_way t u hs ht h =
    swapped t.source t.target h
    ∙ ap (λ a. lock_order a t.source) ht
    ∙ ap (λ b. lock_order u.source b) hs
