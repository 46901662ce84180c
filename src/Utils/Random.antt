-- ===== src/Utils/Random.antt =====
-- utils/others.cpp: `random_string` and `random_number`, over the standard library's distribution.
use dmproxy.Base.{
  Bytes, ℕ, zero, suc, ◌-◌, ◌^◌, ◌≤◌, ◌<◌, ◌≡◌, ap, ◌⊎◌, inl, inr, refl, ◌∷◌, [], Option, none,
  some, ltb, leb, ltb→lt, ◌==◌, if◌then◌else◌, codes, All, get_or, length, Bool-cases, Bool, true,
  ◌||◌, ◌&&◌, arith,
}
use native.Mathlib.Nat.{pow-suc, one-le-pow, pow-le-pow_right}

-- `std::uniform_int_distribution`: what the k-th use of a generator draws between two bounds.
abbrev pub Draws : Type 0
Draws = ℕ → ℕ → ℕ → ℕ

-- What the program relies on: a draw is between the bounds.
abbrev pub IsBetween : Draws → Type 0
IsBetween dist = (k lo hi : ℕ) → lo ≤ hi → (lo ≤ dist k lo hi) × (dist k lo hi ≤ hi)

abbrev pub chars : Bytes
chars = codes "0123456789ABCDEFGHIJKLMNOPQRSTUVWXYZabcdefghijklmnopqrstuvwxyz"

-- The loop over the characters that are left, the first of which is number k.
unfoldable random_from : Draws → ℕ → ℕ → Bytes
random_from dist k zero = []
random_from dist k (suc left) =
    get_or chars (dist k 0 (length chars - 1)) 0 ∷ random_from dist (suc k) left

unfoldable pub random_string : Draws → ℕ → Bytes
unfolding random_from
random_string dist length = random_from dist 0 length

-- INT_MAX.
abbrev pub int_max : ℕ
int_max = 2147483647

-- A double that is a whole number made an int; `none` is outside of int, which is undefined.
unfoldable to_int : ℕ → Option ℕ
to_int n = if leb n int_max then some n else none

-- `length - 1` wraps for 0, whose power is infinite.
unfoldable pub random_number : Draws → ℕ → Option ℕ
unfolding to_int
random_number dist n = if n == 0 then none else elim (to_int (10 ^ (n - 1))) [
  | none ↦ none
  | some min ↦ some (dist 0 min (if ltb n 10 then 10 ^ n - 1 else int_max))
]

abbrev pub is_alnum : ℕ → Bool
is_alnum c = (leb 48 c && leb c 57) || (leb 65 c && leb c 90) || (leb 97 c && leb c 122)

all_alnum : Bytes → Bool
all_alnum [] = true
all_alnum (c ∷ s) = is_alnum c && all_alnum s

get_or-all_alnum :
    (s : Bytes) (i : ℕ) → all_alnum s ≡ true → i < length s → is_alnum (get_or s i 0) ≡ true
unfolding all_alnum
get_or-all_alnum [] i h lt = absurd (omega (arith, lt))
get_or-all_alnum (c ∷ s) zero h lt = ground arith
get_or-all_alnum (c ∷ s) (suc i) h lt = ground (arith, get_or-all_alnum s i)

chars-all_alnum : all_alnum chars ≡ true
unfolding all_alnum
chars-all_alnum = refl

-- A number of n digits that an int holds, or none where n digits are no int.
abbrev pub IsNumber : ℕ → Option ℕ → Type 0
IsNumber n none = (n ≡ 0) ⊎ (10 < n)
IsNumber n (some r) = (10 ^ (n - 1) ≤ r) × (r < 10 ^ n) × (r ≤ int_max)

module _ (dist : Draws) (between : IsBetween dist) where
  random_from_lem :
      (k left : ℕ)
      → (length (random_from dist k left) ≡ left)
        × All (λ c. is_alnum c ≡ true) (random_from dist k left)
  unfolding random_from
  random_from_lem k zero = (refl, tt)
  random_from_lem k (suc left) =
      let (l, a) = random_from_lem (suc k) left in
      (ap suc l, (get_or-all_alnum chars (dist k 0 61) chars-all_alnum in_chars, a))
    where
      in_chars : dist k 0 61 < length chars
      in_chars = omega (arith, (between k 0 61 (omega arith)).1)

  -- A random text has the length asked for, and consists of digits and letters.
  random_string_lem :
      (n : ℕ)
      → (length (random_string dist n) ≡ n) × All (λ c. is_alnum c ≡ true) (random_string dist n)
  unfolding random_string
  random_string_lem n = random_from_lem 0 n

  ten_pow-below : (n : ℕ) → n < 10 → 10 ^ n ≤ 1000000000
  ten_pow-below n h = pow-le-pow_right {n = 10} (omega arith) {i = n} {j = 9} (omega (arith, h))

  ten_pow-above : (n : ℕ) → 10 ≤ n → 10000000000 ≤ 10 ^ n
  ten_pow-above n h = pow-le-pow_right {n = 10} (omega arith) {i = 10} {j = n} (omega (arith, h))

  suc_less : (n : ℕ) → suc n - 1 ≡ n
  suc_less n = omega arith

  -- The upper bound of a number of n + 1 digits.
  abbrev upper : ℕ → ℕ
  upper n = if ltb (suc n) 10 then 10 ^ suc n - 1 else int_max

  drawn : (n : ℕ) → n < 10 → random_number dist (suc n) ≡ some (dist 0 (10 ^ n) (upper n))
  unfolding random_number to_int
  drawn n h = rw (suc_less n) (ground (arith, ten_pow-below n h))

  undefined : (n : ℕ) → 10 ≤ n → random_number dist (suc n) ≡ none
  unfolding random_number to_int
  undefined n h = rw (suc_less n) (ground (arith, ten_pow-above n h))

  upper_lem : (n : ℕ) → n < 10 → (10 ^ n ≤ upper n) × (upper n < 10 ^ suc n) × (upper n ≤ int_max)
  upper_lem n h = elim (Bool-cases (ltb (suc n) 10)) [
    | inl fewer ↦ rw fewer (
        omega (arith, pow-suc 10 n, one-le-pow n 10 (omega arith), below (ltb→lt (suc n) 10 fewer)))
    | inr ten ↦ rw ten (omega (arith, ten_pow-below n h, ten_pow-above (suc n) (ground arith)))
  ]
    where
      below : suc n < 10 → 10 ^ suc n ≤ 1000000000
      below = ten_pow-below (suc n)

  in_bounds : (n : ℕ) → n < 10 → IsNumber (suc n) (some (dist 0 (10 ^ n) (upper n)))
  in_bounds n h =
      let (above, below, fits) = upper_lem n h in
      let (least, most) = between 0 (10 ^ n) (upper n) above in
      (rw (suc_less n) least, omega (arith, most, below), omega (arith, most, fits))

  -- If every draw is between its bounds, a random number of `n` digits is at least 10^(n-1), below
  -- 10^n, and fits an int; there is none exactly where no digits or more than ten are asked for.
  pub random_number_lem : (n : ℕ) → IsNumber n (random_number dist n)
  unfolding random_number
  random_number_lem zero = inl refl
  random_number_lem (suc n) = elim (Bool-cases (ltb n 10)) [
    | inl short ↦ rw (drawn n (ltb→lt n 10 short)) (in_bounds n (ltb→lt n 10 short))
    | inr long ↦ rw (undefined n (ground arith)) (inr (ground arith))
  ]
