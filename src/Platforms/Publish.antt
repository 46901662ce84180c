-- ===== src/Platforms/Publish.antt =====
-- platforms/platform_base.cpp: `publish` and `publish_json`.
use dmproxy.Base.{
  Bytes, codes, ℕ, ◌≡◌, refl, ap, ◌∙◌, Option-cases, inl, inr, none, some, List, [], ◌∷◌, ◌++◌, map,
  not, ◌&&◌, if◌then◌else◌, arith,
}
use dmproxy.Base.Dict.{Dict}
use dmproxy.Network.{
  Errc, eof, bad_message, bad_connection, other_errc, send_code, send_text, ErrorCode, failed,
  Messages, ServerCall, send, close_connection, server_close_and_report,
}
use dmproxy.Platforms.{Platform}
use dmproxy.Platforms.Listeners.{has, erase, has-erase}

-- base64_encode (utils/base64.cpp) and the printer of json11, which are not the program's own.
pub record Encoders : Type 0 where
  pub base64_encode : Bytes → Bytes
  pub dump : Dict Bytes → Bytes

-- The second loop.
unfoldable pub erase_all : List ℕ → List ℕ → List ℕ
erase_all [] listeners = listeners
erase_all (i ∷ rest) listeners = erase_all rest (erase i listeners)

module _ ⦃m : Messages⦄ where
  -- The loop over `m_listeners`: the calls made, and `to_be_deleted`. `ec` is declared before the
  -- loop and holds what the sends so far have left in it; `own` is what a send with a clear code
  -- gives.
  unfoldable pub publish_loop :
      ErrorCode → (ℕ → ErrorCode) → Bytes → List ℕ → List ServerCall × List ℕ
  publish_loop ec own dm_msg [] = ([], [])
  publish_loop ec own dm_msg (i ∷ rest) =
      let sent_ec = send_code ec (own i) in
      let (calls, to_be_deleted) = publish_loop sent_ec own dm_msg rest in
      (
        send_text ec i dm_msg ++ (server_close_and_report sent_ec i ++ calls),
        if failed sent_ec then i ∷ to_be_deleted else to_be_deleted,
      )

  unfoldable pub publish : (ℕ → ErrorCode) → Bytes → Platform → Platform × List ServerCall
  unfolding publish_loop
  publish ec dm_msg p =
      let (calls, to_be_deleted) = publish_loop none ec dm_msg p.listeners in
      (record p { listeners = erase_all to_be_deleted p.listeners }, calls)

  unfoldable pub publish_json :
      ⦃e : Encoders⦄
      → (ℕ → ErrorCode)
      → Bytes
      → Bytes
      → Bytes
      → Platform
      → Platform × List ServerCall
  unfolding publish
  publish_json ⦃e⦄ ec uid nickname text p =
      publish ec
        (e.dump (
          (codes "uid", uid)
          ∷ (codes "nickname", e.base64_encode nickname)
          ∷ (codes "text", e.base64_encode text)
          ∷ []))
        p

-- What a list of calls sends, and which connections it closes.
abbrev pub sent : List ServerCall → List (ℕ × Bytes)
sent [] = []
sent (send h x ∷ cs) = (h, x) ∷ sent cs
sent (_ ∷ cs) = sent cs

abbrev pub closed : List ServerCall → List ℕ
closed [] = []
closed (close_connection h x ∷ cs) = h ∷ closed cs
closed (_ ∷ cs) = closed cs

-- The listeners up to the first that a send fails for, this one included.
abbrev pub tried : (ℕ → ErrorCode) → List ℕ → List ℕ
tried ec [] = []
tried ec (h ∷ hs) = let rest = tried ec hs in if failed (ec h) then h ∷ [] else h ∷ rest

-- Those from it on.
abbrev pub given_up : (ℕ → ErrorCode) → List ℕ → List ℕ
given_up ec [] = []
given_up ec (h ∷ hs) = let rest = given_up ec hs in if failed (ec h) then h ∷ hs else rest

-- Those that are left.
abbrev pub kept : (ℕ → ErrorCode) → List ℕ → List ℕ
kept ec hs = erase_all (given_up ec hs) hs

pub has-erase_all :
    (j : ℕ) (xs hs : List ℕ) → has j (erase_all xs hs) ≡ (has j hs && not (has j xs))
unfolding erase_all has
has-erase_all j [] hs = ground arith
has-erase_all j (x ∷ xs) hs = ground (arith, has-erase x j hs, has-erase_all j xs (erase x hs))

-- A code that is set stays set.
send_code_set : (e : Errc) (own : ErrorCode) → (x : Errc) × (send_code (some e) own ≡ some x)
unfolding send_code
send_code_set e none = (e, refl)
send_code_set e (some eof) = (e, refl)
send_code_set e (some bad_message) = (e, refl)
send_code_set e (some bad_connection) = (bad_connection, refl)
send_code_set e (some (other_errc n)) = (e, refl)

module _ ⦃m : Messages⦄ where
  publish_loop_set :
      (e : Errc) (own : ℕ → ErrorCode) (dm_msg : Bytes) (xs : List ℕ)
      → (sent (publish_loop (some e) own dm_msg xs).0 ≡ [])
        × (closed (publish_loop (some e) own dm_msg xs).0 ≡ xs)
        × ((publish_loop (some e) own dm_msg xs).1 ≡ xs)
  unfolding publish_loop
  publish_loop_set e own dm_msg [] = (refl, refl, refl)
  publish_loop_set e own dm_msg (x ∷ xs) =
      let (f, stays) = send_code_set e (own x) in
      let (none_sent, all_closed, all_deleted) = publish_loop_set f own dm_msg xs in
      rw stays (none_sent, ap (◌∷◌ x) all_closed, ap (◌∷◌ x) all_deleted)

  publish_loop_lem :
      (own : ℕ → ErrorCode) (dm_msg : Bytes) (xs : List ℕ)
      → (sent (publish_loop none own dm_msg xs).0 ≡ map (λ h. (h, dm_msg)) (tried own xs))
        × (closed (publish_loop none own dm_msg xs).0 ≡ given_up own xs)
        × ((publish_loop none own dm_msg xs).1 ≡ given_up own xs)
  unfolding publish_loop send_code
  publish_loop_lem own dm_msg [] = (refl, refl, refl)
  publish_loop_lem own dm_msg (x ∷ xs) = elim (Option-cases (own x)) [
    | inl e ↦
        rw e (let (a, c, d) = publish_loop_lem own dm_msg xs in (ap (◌∷◌ (x, dm_msg)) a, c, d))
    | inr (f, e) ↦ rw e (
        let (a, c, d) = publish_loop_set f own dm_msg xs in
        (ap (◌∷◌ (x, dm_msg)) a, ap (◌∷◌ x) c, ap (◌∷◌ x) d))
  ]

  -- The listeners that are left, in their order.
  pub listeners-publish :
      (ec : ℕ → ErrorCode) (dm_msg : Bytes) (p : Platform)
      → (publish ec dm_msg p).0.listeners ≡ kept ec p.listeners
  unfolding publish
  listeners-publish ec dm_msg p =
      ap (λ xs. erase_all xs p.listeners) (publish_loop_lem ec dm_msg p.listeners).2

  pub has-publish :
      (ec : ℕ → ErrorCode) (dm_msg : Bytes) (p : Platform) (j : ℕ)
      → has j (publish ec dm_msg p).0.listeners
        ≡ (has j p.listeners && not (has j (given_up ec p.listeners)))
  has-publish ec dm_msg p j =
      ap (has j) (listeners-publish ec dm_msg p)
      ∙ has-erase_all j (given_up ec p.listeners) p.listeners

  -- The rest of the object stays as it was.
  pub publish_keeps :
      (ec : ℕ → ErrorCode) (dm_msg : Bytes) (p : Platform)
      → ((publish ec dm_msg p).0.platform_name ≡ p.platform_name)
        × ((publish ec dm_msg p).0.roomid ≡ p.roomid)
        × ((publish ec dm_msg p).0.has_close_callback ≡ p.has_close_callback)
  unfolding publish
  publish_keeps ec dm_msg p = (refl, refl, refl)

  -- The message is sent once to each listener up to the first that it cannot be sent to, in the
  -- order of the set; this one and all behind it are closed and are no listeners any more, whether
  -- or not they could be reached.
  pub publish_lem :
      (ec : ℕ → ErrorCode) (dm_msg : Bytes) (p : Platform)
      → let (q, calls) = publish ec dm_msg p in
        (sent calls ≡ map (λ h. (h, dm_msg)) (tried ec p.listeners))
        × (closed calls ≡ given_up ec p.listeners)
        × ((j : ℕ)
            → has j q.listeners ≡ (has j p.listeners && not (has j (given_up ec p.listeners))))
  unfolding publish
  publish_lem ec dm_msg p =
      let (all, bad, _) = publish_loop_lem ec dm_msg p.listeners in
      (all, bad, λ j. has-publish ec dm_msg p j)
