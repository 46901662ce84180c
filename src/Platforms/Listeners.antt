-- ===== src/Platforms/Listeners.antt =====
-- platforms/platform_base.cpp: the set of listeners, whose lock makes each operation atomic.
use dmproxy.Base.{
  ℕ, ◌≡◌, refl, List, [], ◌∷◌, Bool, true, false, ◌||◌, ◌==◌, ltb, if◌then◌else◌, length, arith,
  Bool-cases, inl, inr,
}
use dmproxy.Platforms.{Platform}

-- `m_listeners.count(h) == 1`
unfoldable pub has : ℕ → List ℕ → Bool
has h [] = false
has h (x ∷ xs) = x == h || has h xs

-- A connection's place in the order of the set, which is that of the numbers.
unfoldable pub place : ℕ → List ℕ → List ℕ
place h [] = h ∷ []
place h (x ∷ xs) = let rest = place h xs in if ltb h x then h ∷ x ∷ xs else x ∷ rest

-- `m_listeners.insert(h)`
unfoldable pub insert : ℕ → List ℕ → List ℕ
unfolding place
insert h xs = if has h xs then xs else place h xs

-- `m_listeners.erase(h)`
unfoldable pub erase : ℕ → List ℕ → List ℕ
erase h [] = []
erase h (x ∷ xs) = let rest = erase h xs in if x == h then rest else x ∷ rest

unfoldable pub add_listener : ℕ → Platform → Platform
add_listener h p = record p { listeners = insert h p.listeners }

unfoldable pub erase_listener : ℕ → Platform → Platform
erase_listener h p = record p { listeners = erase h p.listeners }

unfoldable pub have_listener : ℕ → Platform → Bool
have_listener h p = has h p.listeners

unfoldable pub listeners_count : Platform → ℕ
listeners_count p = length p.listeners

unfoldable pub set_close_callback : Platform → Platform
set_close_callback p = record p { has_close_callback = true }

pub has-place : (h j : ℕ) (xs : List ℕ) → has j (place h xs) ≡ (h == j || has j xs)
unfolding place has
has-place h j [] = ground arith
has-place h j (x ∷ xs) = ground (arith, has-place h j xs)

pub has-insert : (h j : ℕ) (xs : List ℕ) → has j (insert h xs) ≡ (h == j || has j xs)
unfolding insert has
has-insert h j xs = elim (Bool-cases (has h xs)) [
  | inl old ↦ ground arith
  | inr new ↦ ground (arith, has-place h j xs)
]

pub has-erase : (h j : ℕ) (xs : List ℕ) → has j (erase h xs) ≡ (if h == j then false else has j xs)
unfolding erase has
has-erase h j [] = ground arith
has-erase h j (x ∷ xs) = ground (arith, has-erase h j xs)

pub has-nil : (h : ℕ) (xs : List ℕ) → length xs ≡ 0 → has h xs ≡ false
unfolding has
has-nil h [] e = refl
has-nil h (x ∷ xs) e = cc
