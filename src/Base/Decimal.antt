-- ===== src/Base/Decimal.antt =====
-- `std::to_string` of an unsigned number, and the digits that `operator>>` reads back.
use Prim.Native.Nat.{ℕ, zero, suc, ◌+◌, ◌-◌, ◌*◌, ◌/◌, ◌%◌, ◌^◌, ◌<◌, ◌≤◌}
use mathlib.Core.Path.{◌≡◌, refl, ◌∙◌}
use mathlib.Core.List.{[], ◌∷◌, ◌++◌}
use native.Mathlib.Omega.{arith}
use mathlib.Core.Logic.{inl, inr}
use native.Mathlib.Nat.{pow-suc}
use dmproxy.Base.Tests.{ltb, if◌then◌else◌, Bool-cases, ltb→lt}
use dmproxy.Base.Lists.{All, All-append}
use dmproxy.Base.Text.{Bytes}

-- The last `fuel` digits of `n`, without leading zeros.
unfoldable pub digits : ℕ → ℕ → Bytes
digits zero n = []
digits (suc fuel) n =
    let rest = digits fuel (n / 10) in
    if ltb n 10 then (48 + n) ∷ [] else rest ++ (48 + n % 10) ∷ []

-- A 64-bit number has at most 20 digits.
unfoldable pub to_string : ℕ → Bytes
unfolding digits
to_string n = digits 20 n

-- The number that a row of digits stands for, behind the digits already read.
unfoldable pub value_from : ℕ → Bytes → ℕ
value_from acc [] = acc
value_from acc (c ∷ s) = value_from (acc * 10 + (c - 48)) s

value_from-append :
    (acc : ℕ) (s : Bytes) (c : ℕ) → value_from acc (s ++ c ∷ []) ≡ value_from acc s * 10 + (c - 48)
unfolding value_from
value_from-append acc [] c = refl
value_from-append acc (x ∷ s) c = value_from-append (acc * 10 + (x - 48)) s c

-- With a digit's worth of fuel for each digit, no digit is lost.
value_from-digits : (fuel n : ℕ) → n < 10 ^ fuel → value_from 0 (digits fuel n) ≡ n
unfolding digits value_from
value_from-digits zero n h = omega arith
value_from-digits (suc fuel) n h = elim (Bool-cases (ltb n 10)) [
  | inl small ↦ rw small (omega arith)
  | inr large ↦ rw large (
      value_from-append 0 (digits fuel (n / 10)) (48 + n % 10)
      ∙ rw (value_from-digits fuel (n / 10) (omega (arith, pow-suc 10 fuel))) (omega arith))
]

abbrev pub IsDigit : ℕ → Type 0
IsDigit c = (48 ≤ c) × (c ≤ 57)

digits-IsDigit : (fuel n : ℕ) → All IsDigit (digits fuel n)
unfolding digits
digits-IsDigit zero n = tt
digits-IsDigit (suc fuel) n = elim (Bool-cases (ltb n 10)) [
  | inl small ↦ rw small (omega (arith, ltb→lt n 10 small))
  | inr large ↦ rw large (
      All-append IsDigit (digits fuel (n / 10)) ((48 + n % 10) ∷ []) (digits-IsDigit fuel (n / 10))
        (omega arith))
]

-- A 64-bit number is written in decimal digits that stand for it.
pub to_string_lem :
    (n : ℕ) → n < 2 ^ 64 → All IsDigit (to_string n) × (value_from 0 (to_string n) ≡ n)
unfolding to_string
to_string_lem n h = (digits-IsDigit 20 n, value_from-digits 20 n (omega arith))
