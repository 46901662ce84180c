-- ===== src/Platforms/Distinct.antt =====
-- platforms/platform_base.cpp: `m_listeners` is a set, in which no connection stands twice.
use dmproxy.Base.{ℕ, suc, ◌≤◌, ◌≡◌, refl, List, [], ◌∷◌, ◌==◌, if◌then◌else◌, ltb, arith}
use dmproxy.Network.{ErrorCode}
use dmproxy.Platforms.Publish.{kept, given_up, erase_all}
use dmproxy.Platforms.Listeners.{has, place, insert, erase}

-- How often a connection stands in a list.
unfoldable pub times : ℕ → List ℕ → ℕ
times h [] = 0
times h (x ∷ xs) = let rest = times h xs in if x == h then suc rest else rest

abbrev pub IsDistinct : List ℕ → Type 0
IsDistinct xs = (h : ℕ) → times h xs ≤ 1

pub has-times : (h : ℕ) (xs : List ℕ) → has h xs ≡ ltb 0 (times h xs)
unfolding has times
has-times h [] = refl
has-times h (x ∷ xs) = ground (arith, has-times h xs)

times-place :
    (h j : ℕ) (xs : List ℕ)
    → times j (place h xs) ≡ (if h == j then suc (times j xs) else times j xs)
unfolding place times
times-place h j [] = ground arith
times-place h j (x ∷ xs) = ground (arith, times-place h j xs)

pub insert-IsDistinct : (h : ℕ) (xs : List ℕ) → IsDistinct xs → IsDistinct (insert h xs)
unfolding insert times
insert-IsDistinct h xs d j = ground (arith, d j, has-times h xs, times-place h j xs)

times-erase : (h j : ℕ) (xs : List ℕ) → times j (erase h xs) ≤ times j xs
unfolding erase times
times-erase h j [] = omega arith
times-erase h j (x ∷ xs) = ground (arith, times-erase h j xs)

pub erase-IsDistinct : (h : ℕ) (xs : List ℕ) → IsDistinct xs → IsDistinct (erase h xs)
erase-IsDistinct h xs d j = omega (arith, d j, times-erase h j xs)

pub times-erase_all : (j : ℕ) (xs hs : List ℕ) → times j (erase_all xs hs) ≤ times j hs
unfolding erase_all
times-erase_all j [] hs = omega arith
times-erase_all j (x ∷ xs) hs = omega (arith, times-erase x j hs, times-erase_all j xs (erase x hs))

pub kept-IsDistinct : (ec : ℕ → ErrorCode) (xs : List ℕ) → IsDistinct xs → IsDistinct (kept ec xs)
kept-IsDistinct ec xs d j = omega (arith, d j, times-erase_all j (given_up ec xs) xs)
