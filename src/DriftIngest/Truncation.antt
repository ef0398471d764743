-- ===== src/DriftIngest/Truncation.antt =====
-- plan.go: truncate, and the sizes of what the summary shows of a value.
use terraform_state_manager.Prelude.{
  ℕ, zero, suc, ◌+◌, ◌-◌, ◌≤◌, ◌<◌, [], ◌∷◌, ◌++◌, true, false, ◌≡◌, refl, sym, ap, Bytes, arith,
  if◌then◌else◌, leb, ◌==◌, Bool-cases, inl, inr,
}
use mathlib.Core.Logic.{◌⊎◌}
use terraform_state_manager.DriftIngest.Canon.{
  is_continuation, rune_count, take_runes, max_runes, ellipsis, truncate,
}

rune_count-append : (s t : Bytes) → rune_count (s ++ t) ≡ rune_count s + rune_count t
unfolding rune_count
rune_count-append [] t = omega arith
rune_count-append (c ∷ s) t = elim (Bool-cases (is_continuation c)) [
  | inl e ↦ rw e (rune_count-append s t)
  | inr e ↦ rw e (omega (arith, rune_count-append s t))
]

-- What take_runes leaves off.
drop_runes : ℕ → Bytes → Bytes
drop_runes n [] = []
drop_runes n (c ∷ s) =
    let same = drop_runes n s in
    let fewer = drop_runes (n - 1) s in
    if is_continuation c then same else if n == 0 then c ∷ s else fewer

-- One byte: a continuation is kept with the code point it belongs to.
counts_byte : (c : ℕ) (s : Bytes) → is_continuation c ≡ true → rune_count (c ∷ s) ≡ rune_count s
unfolding rune_count
counts_byte c s e = rw e refl

counts_rune :
    (c : ℕ) (s : Bytes) → is_continuation c ≡ false → rune_count (c ∷ s) ≡ suc (rune_count s)
unfolding rune_count
counts_rune c s e = rw e refl

splits_byte :
    (n c : ℕ) (s : Bytes)
    → is_continuation c ≡ true
    → (take_runes n (c ∷ s) ≡ c ∷ take_runes n s) × (drop_runes n (c ∷ s) ≡ drop_runes n s)
unfolding take_runes drop_runes
splits_byte n c s e = (rw e refl, rw e refl)

splits_rune :
    (n c : ℕ) (s : Bytes)
    → is_continuation c ≡ false
    → (take_runes (suc n) (c ∷ s) ≡ c ∷ take_runes n s)
      × (drop_runes (suc n) (c ∷ s) ≡ drop_runes n s)
unfolding take_runes drop_runes
splits_rune n c s e =
    let pred : suc n - 1 ≡ n = omega arith in
    let more : (suc n == 0) ≡ false = ground arith in
    (rw (e, more, pred) refl, rw (e, more, pred) refl)

splits_end :
    (c : ℕ) (s : Bytes)
    → is_continuation c ≡ false
    → (take_runes 0 (c ∷ s) ≡ []) × (drop_runes 0 (c ∷ s) ≡ c ∷ s)
unfolding take_runes drop_runes
splits_end c s e = (rw e refl, rw e refl)

take_runes-nil : (n : ℕ) → (take_runes n [] ≡ []) × (drop_runes n [] ≡ []) × (rune_count [] ≡ 0)
unfolding take_runes drop_runes rune_count
take_runes-nil n = (refl, refl, refl)

take_runes-drop_runes : (n : ℕ) (s : Bytes) → take_runes n s ++ drop_runes n s ≡ s
take_runes-drop_runes n [] = let (t, d, _) = take_runes-nil n in rw (t, d) refl
take_runes-drop_runes zero (c ∷ s) = elim (Bool-cases (is_continuation c)) [
  | inl e ↦
      let (t, d) = splits_byte 0 c s e in rw (t, d) (ap (λ t. c ∷ t) (take_runes-drop_runes zero s))
  | inr e ↦ let (t, d) = splits_end c s e in rw (t, d) refl
]
take_runes-drop_runes (suc n) (c ∷ s) = elim (Bool-cases (is_continuation c)) [
  | inl e ↦
      let (t, d) = splits_byte (suc n) c s e in
      rw (t, d) (ap (λ t. c ∷ t) (take_runes-drop_runes (suc n) s))
  | inr e ↦
      let (t, d) = splits_rune n c s e in rw (t, d) (ap (λ t. c ∷ t) (take_runes-drop_runes n s))
]

rune_count-take_runes : (n : ℕ) (s : Bytes) → n ≤ rune_count s → rune_count (take_runes n s) ≡ n
rune_count-take_runes n [] h = let (t, _, z) = take_runes-nil n in rw (t, z) (omega (arith, h, z))
rune_count-take_runes zero (c ∷ s) h = elim (Bool-cases (is_continuation c)) [
  | inl e ↦
      let ih = rune_count-take_runes zero s (omega arith) in
      rw ((splits_byte 0 c s e).0, counts_byte c (take_runes 0 s) e) ih
  | inr e ↦ rw (splits_end c s e).0 (take_runes-nil 0).2
]
rune_count-take_runes (suc n) (c ∷ s) h = elim (Bool-cases (is_continuation c)) [
  | inl e ↦
      let ih = rune_count-take_runes (suc n) s (omega (arith, h, counts_byte c s e)) in
      rw ((splits_byte (suc n) c s e).0, counts_byte c (take_runes (suc n) s) e) ih
  | inr e ↦
      let ih = rune_count-take_runes n s (omega (arith, h, counts_rune c s e)) in
      rw ((splits_rune n c s e).0, counts_rune c (take_runes n s) e) (ap (λ k. suc k) ih)
]

-- A text of at most 300 runes is shown as it is. A longer one is shown as its first 300 runes with
-- an ellipsis behind them, so that nothing shown has more than 301 runes.
pub truncate-prefix :
    (s : Bytes)
    → ((rune_count s ≤ 300) × (truncate s ≡ s))
      ⊎ ((300 < rune_count s)
          × (p : Bytes) × (rest : Bytes) × (s ≡ p ++ rest)
          × (rune_count p ≡ 300)
          × (truncate s ≡ p ++ ellipsis)
          × (rune_count (truncate s) ≡ 301))
unfolding truncate
truncate-prefix s = elim (Bool-cases (leb (rune_count s) max_runes)) [
  | inl short ↦ let le : rune_count s ≤ 300 = ground arith in inl (le, rw short refl)
  | inr long ↦
      let size = rune_count-take_runes 300 s (ground arith) in
      let cut' : truncate s ≡ take_runes 300 s ++ ellipsis = rw long refl in
      let more : 300 < rune_count s = ground arith in
      inr (
        more,
        take_runes 300 s,
        drop_runes 300 s,
        sym (take_runes-drop_runes 300 s),
        size,
        cut',
        rw (cut', rune_count-append, size) refl,
      )
]
