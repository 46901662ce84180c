-- ===== src/Bilibili/Barrage/Reading.antt =====
-- platforms/bilibili/bilibili.cpp: the chain of reads, and what the messages lead to.
use dmproxy.Base.Decimal.{to_string}
use dmproxy.Base.{
  true, false, Bytes, codes, ℕ, ◌+◌, ◌-◌, ◌≤◌, ◌<◌, ◌≡◌, ◌≢◌, refl, ap, List, [], ◌∷◌, ◌++◌, ◌⊎◌,
  inl, Bool-cases, Option-cases, leb, inr, Option, none, some, bytes_eq, get_or, get_elem?,
  c_string, arith,
}
use dmproxy.Base.Words.{load_be32}
use dmproxy.Network.{ErrorCode, Messages, Call, publish_json, async_read}
use dmproxy.Json.{JsonApi}
use dmproxy.Network.Action.{ok, fault, out_of_bounds}
use dmproxy.Bilibili.Client.{Handler, handle_header, on_skip, handle_data, Client}
use dmproxy.Bilibili.Barrage.{JsonApi, uid_of, handle_message, header_read, data_read}

-- The reads that a list of calls starts: how many bytes, and the handler.
abbrev pub reads : List (Call Handler) → List (ℕ × Handler)
reads [] = []
reads (async_read n k ∷ cs) = (n, k) ∷ reads cs
reads (_ ∷ cs) = reads cs

module _ ⦃m : Messages⦄ where
  -- A header that has been read is followed by one read: of the next header if its length promises
  -- nothing behind its 16 bytes, and otherwise of exactly what it promises, as data if its type is
  -- 5 and to be skipped if not.
  reads-header_read :
      (header : Bytes) (c : Client)
      → ((load_be32 header ≤ 16) × (reads (header_read header none c).2 ≡ (16, handle_header) ∷ []))
        ⊎ ((n : ℕ) × (0 < n)
            × (load_be32 header ≡ 16 + n)
            × (((get_or header 11 0 ≡ 5)
                  × (reads (header_read header none c).2 ≡ (n, handle_data) ∷ []))
                ⊎ ((get_or header 11 0 ≢ 5)
                    × (reads (header_read header none c).2 ≡ (n, on_skip) ∷ []))))
  unfolding header_read
  reads-header_read header c = elim (Bool-cases (leb (load_be32 header) 16)) [
    | inl small ↦ inl (ground arith, rw small)
    | inr large ↦ inr (load_be32 header - 16, ground arith, ground arith, ground arith)
  ]

module _ (j : JsonApi) where
  open j use {Json, parse, member, array_items, string_value, is_number, is_string, to_uint64}

  -- The user's number in a message: a number is written out, and a text is taken as it is.
  abbrev pub IsUid : Json → Bytes → Type 0
  IsUid v uid =
      (is_number v ≡ true × uid ≡ to_string (to_uint64 v))
      ⊎ (is_number v ≡ false × is_string v ≡ true × uid ≡ string_value v)
      ⊎ (is_number v ≡ false × is_string v ≡ false × uid ≡ [])

  pub uid_of-IsUid : (v : Json) → IsUid v (uid_of j v)
  unfolding uid_of
  uid_of-IsUid v = elim (Bool-cases (is_number v)) [
    | inl n ↦ inl (n, rw n refl)
    | inr n ↦ elim (Bool-cases (is_string v)) [
      | inl t ↦ inr (inl (n, t, rw (n, t) refl))
      | inr t ↦ inr (inr (n, t, rw (n, t) refl))
    ]
  ]

  -- The user's number, the nickname and the text of a chat message, where it has them.
  abbrev pub danmu : Json → Option (Bytes × Bytes × Bytes)
  danmu msg =
      let info = array_items (member msg (codes "info")) in
      elim (get_elem? info 1) [
        | none ↦ none
        | some text ↦ (elim (get_elem? info 2) [
          | none ↦ none
          | some user ↦ (elim (get_elem? (array_items user) 0) [
            | none ↦ none
            | some id ↦ (elim (get_elem? (array_items user) 1) [
              | none ↦ none
              | some name ↦ some (uid_of j id, string_value name, string_value text)
            ])
          ])
        ])
      ]

  pub some-danmu :
      (msg words user id name : Json)
      → get_elem? (array_items (member msg (codes "info"))) 1 ≡ some words
      → get_elem? (array_items (member msg (codes "info"))) 2 ≡ some user
      → get_elem? (array_items user) 0 ≡ some id
      → get_elem? (array_items user) 1 ≡ some name
      → danmu msg ≡ some (uid_of j id, string_value name, string_value words)
  some-danmu msg words user id name at_1 at_2 at_id at_name =
      ground (arith, at_1, at_2, at_id, at_name)

  handle_message-reads : (msg : Json) (c : Client) → reads (handle_message j msg c).2 ≡ []
  unfolding handle_message
  handle_message-reads msg c = ground arith

  handle_message-danmu :
      (msg : Json) (c : Client)
      → string_value (member msg (codes "cmd")) ≡ codes "DANMU_MSG"
      → handle_message j msg c ≡ (elim (danmu msg) [
        | none ↦ (fault out_of_bounds, c, [])
        | some (uid, nickname, text) ↦ (ok tt, c, publish_json uid nickname text ∷ [])
      ])
  unfolding handle_message bytes_eq
  handle_message-danmu msg c cmd = rw cmd (ground arith)

  module _ ⦃m : Messages⦄ where
    -- Data, whatever it holds and whether or not the read failed, is followed by exactly one read of
    -- a header.
    data_read-reads :
        (data_bytes : Bytes) (ec : ErrorCode) (c : Client)
        → reads (data_read j data_bytes ec c).2 ≡ (16, handle_header) ∷ []
    unfolding data_read
    data_read-reads data_bytes none c =
        elim (Option-cases (parse (c_string (data_bytes ++ 0 ∷ [])))) [
          | inl e ↦ rw e
          | inr (msg, e) ↦ rw e (ap (◌∷◌ (16, handle_header)) (handle_message-reads msg c))
        ]
    data_read-reads data_bytes (some e) c = refl

    -- Data that parses to a message with the command DANMU_MSG is published with its user, nickname
    -- and text if its arrays hold them, and otherwise the client reads outside of an array; the
    -- next header read has been started before.
    pub data_read-danmu :
        (data_bytes : Bytes) (msg : Json) (c : Client)
        → parse (c_string (data_bytes ++ 0 ∷ [])) ≡ some msg
        → string_value (member msg (codes "cmd")) ≡ codes "DANMU_MSG"
        → data_read j data_bytes none c ≡ (elim (danmu msg) [
          | none ↦ (fault out_of_bounds, c, async_read 16 handle_header ∷ [])
          | some (uid, nickname, text) ↦
              (ok tt, c, async_read 16 handle_header ∷ publish_json uid nickname text ∷ [])
        ])
    unfolding data_read
    data_read-danmu data_bytes msg c parsed cmd =
        rw (parsed, handle_message-danmu msg c cmd) (ground arith)
