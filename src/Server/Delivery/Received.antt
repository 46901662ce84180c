-- ===== src/Server/Delivery/Received.antt =====
-- platforms/platform_base.cpp and main.cpp: what one connection gets of what an object calls.
use dmproxy.Base.{
  ◌⊎◌, zero, ◌<◌, Bytes, ℕ, suc, ◌≤◌, ◌≡◌, refl, ◌∙◌, ap, List, [], ◌∷◌, ◌++◌, map, take, replicate,
  true, false, none, some, inl, inr, arith, Option-cases, Bool-cases, ◌==◌, if◌then◌else◌,
  bytes_eq_iff, bytes_eq_refl,
}
use dmproxy.Base.Dict.{lookup}
use dmproxy.Network.{Messages, ErrorCode, failed, Call}
use dmproxy.Platforms.Distinct.{IsDistinct, times, has-times, times-erase_all}
use dmproxy.Platforms.Listeners.{has}
use dmproxy.Platforms.Publish.{Encoders, sent, tried, kept, given_up, erase_all, has-erase_all}
use dmproxy.Server.{Server, own_room}
use dmproxy.Server.Invariant.{IsValid}
use dmproxy.Server.View.{room_of, room_of_iff}
use dmproxy.Server.View.Simulation.{in_room}
use dmproxy.Server.Delivery.{Sends, later, perform_calls}
use dmproxy.Server.Delivery.Audience.{delivered, texts, sent-perform_calls}

-- The texts of the frames to a connection, in order.
unfoldable pub received : ℕ → List (ℕ × Bytes) → List Bytes
received i [] = []
received i ((h, x) ∷ frames) = let rest = received i frames in if h == i then x ∷ rest else rest

received-append :
    (i : ℕ) (fs gs : List (ℕ × Bytes)) → received i (fs ++ gs) ≡ received i fs ++ received i gs
unfolding received
received-append i [] gs = refl
received-append i ((h, x) ∷ fs) gs = ground (arith, received-append i fs gs)

received-map :
    (i : ℕ) (x : Bytes) (hs : List ℕ) → received i (map (λ h. (h, x)) hs) ≡ replicate (times i hs) x
unfolding received times
received-map i x [] = refl
received-map i x (h ∷ hs) = ground (arith, received-map i x hs)

times-tried :
    (ec : ℕ → ErrorCode) (i : ℕ) (hs : List ℕ)
    → (times i (tried ec hs) ≤ times i hs)
      × (has i (given_up ec hs) ≡ false → times i (tried ec hs) ≡ times i hs)
unfolding times has
times-tried ec i [] = (omega arith, λ e. refl)
times-tried ec i (h ∷ hs) =
    let (less, same) = times-tried ec i hs in
    elim (Bool-cases (failed (ec h))) [
      | inl e ↦ (ground (arith, e), λ out. ground (arith, e, out, has-times i hs))
      | inr e ↦ (ground (arith, e, less), λ out. ground (arith, e, out, same))
    ]

tried_all :
    (ec : ℕ → ErrorCode) (hs : List ℕ)
    → ((h : ℕ) → has h hs ≡ true → ec h ≡ none)
    → (tried ec hs ≡ hs) × (given_up ec hs ≡ [])
unfolding has
tried_all ec [] fine = (refl, refl)
tried_all ec (h ∷ hs) fine =
    let (all, nobody) = tried_all ec hs (λ i at. fine i (ground (arith, at))) in
    let ok : ec h ≡ none = fine h (ground arith) in rw (ok, all, nobody) (refl, refl)

piece :
    (n : ℕ) (x : Bytes) (xs rest : List Bytes)
    → n ≤ 1
    → (rest ≡ []) ⊎ ((n ≡ 1) × ((k : ℕ) × (rest ≡ take k xs)))
    → (k : ℕ) × (replicate n x ++ rest ≡ take k (x ∷ xs))
piece zero x xs rest le (inl e) = (0, e)
piece zero x xs rest le (inr (one, (k, e))) = absurd (omega (arith, one))
piece (suc zero) x xs rest le (inl e) = (1, ap (◌∷◌ x) e)
piece (suc zero) x xs rest le (inr (one, (k, e))) = (suc k, ap (◌∷◌ x) e)
piece (suc (suc n)) x xs rest le e = absurd (omega (arith, le))

Nat-cases : (n : ℕ) → (n ≡ 0) ⊎ (0 < n)
Nat-cases zero = inl refl
Nat-cases (suc n) = inr (omega arith)

module _ (i : ℕ) where
  received_none :
      (ecs : Sends) (xs : List Bytes) (hs : List ℕ)
      → times i hs ≡ 0
      → received i (delivered ecs xs hs) ≡ []
  unfolding received
  received_none ecs [] hs e = refl
  received_none ecs (x ∷ xs) hs e = ground (
    arith,
    received-append i (map (λ h. (h, x)) (tried (ecs 0) hs))
        (delivered (later ecs) xs (kept (ecs 0) hs)),
    received-map i x (tried (ecs 0) hs),
    (times-tried (ecs 0) i hs).0,
    times-erase_all i (given_up (ecs 0) hs) hs,
    received_none (later ecs) xs (kept (ecs 0) hs),
  )

  received_some :
      (ecs : Sends) (xs : List Bytes) (hs : List ℕ)
      → times i hs ≤ 1
      → (n : ℕ) × (received i (delivered ecs xs hs) ≡ take n xs)
  unfolding received
  received_some ecs [] hs d = (0, refl)
  received_some ecs (x ∷ xs) hs d =
      let rest = received i (delivered (later ecs) xs (kept (ecs 0) hs)) in
      let (fewer, same) = times-tried (ecs 0) i hs in
      let left = times-erase_all i (given_up (ecs 0) hs) hs in
      let (n, others) =
        piece (times i (tried (ecs 0) hs)) x xs rest (omega (arith, fewer, d))
          (elim (Bool-cases (has i (given_up (ecs 0) hs))) [
            | inl out ↦ inl (
                received_none (later ecs) xs (kept (ecs 0) hs) (
                  ground (
                    arith,
                    out,
                    has-erase_all i (given_up (ecs 0) hs) hs,
                    has-times i (kept (ecs 0) hs),
                  )))
            | inr stays ↦ (elim (Nat-cases (times i hs)) [
              | inl nobody ↦
                  inl (received_none (later ecs) xs (kept (ecs 0) hs) (omega (arith, left, nobody)))
              | inr some_one ↦ inr (
                omega (arith, same stays, some_one, d),
                received_some (later ecs) xs (kept (ecs 0) hs) (omega (arith, left, d)),
              )
            ])
          ]) in
      (
        n,
        received-append i (map (λ h. (h, x)) (tried (ecs 0) hs))
              (delivered (later ecs) xs (kept (ecs 0) hs))
            ∙ ap (λ t. t ++ rest) (received-map i x (tried (ecs 0) hs))
            ∙ others,
      )

  received_all :
      (ecs : Sends) (xs : List Bytes) (hs : List ℕ)
      → times i hs ≡ 1
      → ((k h : ℕ) → has h hs ≡ true → ecs k h ≡ none)
      → received i (delivered ecs xs hs) ≡ xs
  unfolding received erase_all
  received_all ecs [] hs e fine = refl
  received_all ecs (x ∷ xs) hs e fine =
      let (all, nobody) = tried_all (ecs 0) hs (fine 0) in
      rw (all, nobody)
        (received-append i (map (λ h. (h, x)) hs) (delivered (later ecs) xs hs)
          ∙ ap (λ t. t ++ received i (delivered (later ecs) xs hs))
              (received-map i x hs ∙ ap (λ n. replicate n x) e)
          ∙ ap (◌∷◌ x) (received_all (later ecs) xs hs e (λ k h at. fine (suc k) h at)))

-- The listeners of a served room are the connections that have it.
has-in_room :
    (s : Server) (id i : ℕ) (q : Bytes)
    → IsValid s
    → lookup q s.rp_map ≡ some id
    → has i (s.heap id).listeners ≡ in_room q (room_of s i)
has-in_room s id i q v at = elim (Option-cases (lookup (s.message_room i) s.rp_map)) [
  | inl e ↦ ground (arith, v.bound q id i at)
  | inr (k, e) ↦ ground (arith, v.bound q id i at, bytes_eq_iff q (s.message_room i))
]

-- What a connection is sent, as frames, of texts that the object of a room publishes in a state of
-- the server: nothing if it is in another room, and otherwise the first of them, in order and once
-- each, up to some number; all of them if no send to a connection of the room fails.
abbrev pub Hears : ℕ → Bytes → Sends → Server → List (ℕ × Bytes) → List Bytes → Type 0
Hears i q ecs s frames xs =
    (in_room q (room_of s i) ≡ false → received i frames ≡ [])
    × ((n : ℕ) × (received i frames ≡ take n xs))
    × (((k h : ℕ) → room_of s h ≡ some q → ecs k h ≡ none)
        → room_of s i ≡ some q
        → received i frames ≡ xs)

module _ ⦃m : Messages⦄ ⦃e : Encoders⦄ (ecs : Sends) (id : ℕ) {K : Type 0} where
  pub perform_calls-Hears :
      (cs : List (Call K)) (s : Server) (i : ℕ)
      → IsValid s
      → IsDistinct (s.heap id).listeners
      → lookup (own_room id s) s.rp_map ≡ some id
      → Hears i (own_room id s) ecs s (sent (perform_calls ecs id cs s).1) (texts cs)
  perform_calls-Hears cs s i v d at =
      let hs = (s.heap id).listeners in
      let here : (j : ℕ) → has j hs ≡ in_room (own_room id s) (room_of s j) =
        λ j. has-in_room s id j (own_room id s) v at in
      let frames = sent-perform_calls id ecs cs s in
      let (n, some_sent) = received_some i ecs (texts cs) hs (d i) in
      (
        λ away.
            ap (received i) frames
            ∙ received_none i ecs (texts cs) hs (ground (arith, has-times i hs, here i, away)),
        (n, ap (received i) frames ∙ some_sent),
        λ fine inside.
            ap (received i) frames
            ∙ received_all i ecs (texts cs) hs
                (ground (arith, has-times i hs, here i, inside, d i, bytes_eq_refl (own_room id s)))
                (λ k h listens. fine k h ((room_of_iff s h (own_room id s) v).1 (id, at, listens))),
      )
