-- ===== src/Prelude/Int.antt =====
-- Signed integers over the native numbers, the wrap-around of int64, and their decimal text:
-- strconv.Itoa and strconv.Atoi.
use Prim.Native.Nat.{ℕ, zero, suc, ◌+◌, ◌-◌, ◌*◌, ◌/◌, ◌%◌, ◌^◌, ◌≤◌, ◌<◌}
use mathlib.Core.Path.{◌≡◌, refl}
use mathlib.Core.Logic.{inl, inr}
use mathlib.Core.Bool.{◌&&◌}
use mathlib.Core.List.{[], ◌∷◌}
use mathlib.Core.Option
use mathlib.Core.Option.{Option, none, some}
use native.Mathlib.Omega.{arith}
use terraform_state_manager.Prelude.Tests.{if◌then◌else◌, leb, ltb, ◌==◌, Bool-cases}
use terraform_state_manager.Prelude.Text.{Bytes, codes}

-- `negsuc n` is -(n + 1).
pub data ℤ : Type 0 where
  pos : ℕ → ℤ
  negsuc : ℕ → ℤ

abbrev pub max_int64 : ℕ
max_int64 = 2 ^ 63 - 1

-- The values of an int64.
abbrev pub IsInt64 : ℤ → Type 0
IsInt64 (pos n) = n ≤ max_int64
IsInt64 (negsuc n) = n ≤ max_int64

-- `z + 1` on an int64.
unfoldable pub succ_int64 : ℤ → ℤ
succ_int64 (pos n) = if n == max_int64 then negsuc max_int64 else pos (n + 1)
succ_int64 (negsuc n) = if n == 0 then pos 0 else negsuc (n - 1)

-- The decimal digits of a number before `out`. Each round divides by ten, so fuel above the number
-- is enough.
digits : ℕ → ℕ → Bytes → Bytes
digits zero n out = out
digits (suc f) n out =
    let rest = digits f (n / 10) ((b'0' + n % 10) ∷ out) in
    if ltb n 10 then (b'0' + n) ∷ out else rest

-- The number that decimal digits spell behind `acc`.
scan : ℕ → Bytes → Option ℕ
scan acc [] = some acc
scan acc (c ∷ s) = if leb b'0' c && leb c b'9' then scan (acc * 10 + (c - b'0')) s else none

unfoldable pub print_nat : ℕ → Bytes
unfolding digits
print_nat n = digits (suc n) n []

unfoldable pub print_int : ℤ → Bytes
unfolding print_nat
print_int (pos n) = print_nat n
print_int (negsuc n) = b'-' ∷ print_nat (n + 1)

-- One digit or more.
unfoldable pub parse_nat : Bytes → Option ℕ
unfolding scan
parse_nat [] = none
parse_nat (c ∷ s) = scan 0 (c ∷ s)

abbrev in_range : ℕ → ℕ → ℤ → Option ℤ
in_range bound n z = if leb n bound then some z else none

abbrev negated : ℕ → ℤ
negated n = if n == 0 then pos 0 else negsuc (n - 1)

-- strconv.Atoi and strconv.ParseInt(s, 10, 64): an optional sign, digits, and the range of int64.
unfoldable pub parse_int : Bytes → Option ℤ
unfolding parse_nat
parse_int [] = none
parse_int (c ∷ s) =
    if c == b'-'
    then Option.bind (parse_nat s) (λ n. in_range (max_int64 + 1) n (negated n))
    else if c == b'+'
    then Option.bind (parse_nat s) (λ n. in_range max_int64 n (pos n))
    else Option.bind (parse_nat (c ∷ s)) (λ n. in_range max_int64 n (pos n))

scan-digits : (f n : ℕ) (out : Bytes) → n < f → scan 0 (digits f n out) ≡ scan n out
unfolding digits scan
scan-digits zero n out h = elim h [ ]
scan-digits (suc f) n out h = ground (arith, scan-digits f (n / 10) ((b'0' + n % 10) ∷ out))

-- The print begins with a digit.
digits_head :
    (f n : ℕ) (out : Bytes)
    → n < f
    → (c : ℕ) × (s : Bytes) × (digits f n out ≡ c ∷ s) × (b'0' ≤ c) × (c ≤ b'9')
unfolding digits
digits_head zero n out h = elim h [ ]
digits_head (suc f) n out h = elim (Bool-cases (ltb n 10)) [
  | inl small ↦ (b'0' + n, out, rw small, omega arith, ground arith)
  | inr large ↦ rw large (digits_head f (n / 10) ((b'0' + n % 10) ∷ out) (ground arith))
]

parse_nat-scan : (s : Bytes) {c : ℕ} {r : Bytes} → s ≡ c ∷ r → parse_nat s ≡ scan 0 s
unfolding parse_nat
parse_nat-scan [] h = cc
parse_nat-scan (c ∷ s) h = refl

-- Reading back the decimal print of a number gives the number.
pub parse_nat-print_nat : (n : ℕ) → parse_nat (print_nat n) ≡ some n
unfolding print_nat scan
parse_nat-print_nat n =
    let (c, s, e, lo, hi) = digits_head (suc n) n [] (omega arith) in
    rw (parse_nat-scan (digits (suc n) n []) e) (scan-digits (suc n) n [] (omega arith))

-- The same with a sign, for every int64.
pub parse_int-print_int : (z : ℤ) → IsInt64 z → parse_int (print_int z) ≡ some z
unfolding parse_int print_int Option.bind
parse_int-print_int (pos n) h =
    let (c, s, e, lo, hi) = digits_head (suc n) n [] (omega arith) in
    ground (arith, parse_nat-print_nat n, e)
parse_int-print_int (negsuc n) h = ground (arith, parse_nat-print_nat (n + 1))

-- A printed integer is not empty, and begins with a digit or a sign.
pub print_int_head :
    (z : ℤ) → (c : ℕ) × (s : Bytes) × (print_int z ≡ c ∷ s) × (b'-' ≤ c) × (c ≤ b'9')
unfolding print_int print_nat
print_int_head (pos n) =
    let (c, s, e, lo, hi) = digits_head (suc n) n [] (omega arith) in
    (c, s, e, omega (arith, lo), hi)
print_int_head (negsuc n) = (b'-', print_nat (n + 1), refl, omega arith, omega arith)

print_test : print_int (negsuc 120) ≡ codes "-121"
unfolding print_int
print_test = refl

parse_test : parse_int (codes "-121") ≡ some (negsuc 120)
unfolding parse_int Option.bind
parse_test = refl

parse_test_overflow : parse_int (codes "9223372036854775808") ≡ none
unfolding parse_int Option.bind
parse_test_overflow = refl
