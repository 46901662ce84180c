-- ===== src/Utils/Numbers.antt =====
-- utils/others.hpp: `str_is_num`.
use dmproxy.Base.{
  Bytes, ℕ, ◌≤◌, ◌≡◌, ◌↔◌, refl, [], ◌∷◌, Bool, true, false, ◌&&◌, leb, if◌then◌else◌, arith, All,
}

-- The loop over the characters; a `char` above 127 is negative there, and no digit either way.
unfoldable pub str_is_num : Bytes → Bool
str_is_num [] = true
str_is_num (c ∷ str) = if leb 48 c && leb c 57 then str_is_num str else false

abbrev pub IsDigit : ℕ → Type 0
IsDigit c = (48 ≤ c) × (c ≤ 57)

str_is_num-IsDigit : (str : Bytes) → str_is_num str ≡ true → All IsDigit str
unfolding str_is_num
str_is_num-IsDigit [] h = tt
str_is_num-IsDigit (c ∷ str) h = ground (arith, str_is_num-IsDigit str)

IsDigit-str_is_num : (str : Bytes) → All IsDigit str → str_is_num str ≡ true
unfolding str_is_num
IsDigit-str_is_num [] h = refl
IsDigit-str_is_num (c ∷ str) h = ground (arith, IsDigit-str_is_num str)

-- A text passes exactly if all of its characters are decimal digits.
str_is_num_lem : (str : Bytes) → (str_is_num str ≡ true) ↔ All IsDigit str
str_is_num_lem str = (str_is_num-IsDigit str, IsDigit-str_is_num str)
