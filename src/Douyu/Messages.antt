-- ===== src/Douyu/Messages.antt =====
-- platforms/douyu/douyu.cpp: what the client does with a message, and when it fails.
use dmproxy.Base.{
  Bytes, codes, ℕ, ◌+◌, ◌-◌, ◌%◌, ◌≤◌, ◌<◌, ◌≡◌, ◌↔◌, refl, sym, ◌∙◌, ap, [], ◌∷◌, ◌++◌, ◌⊎◌,
  Option, none, some, length, get_or, drop, All, bytes_eq, arith,
}
use dmproxy.Base.Dict.{Dict, lookup}
use dmproxy.Base.Words.{u32_mod, load_le32}
use dmproxy.Network.{ErrorCode, Messages, publish_json, async_write, async_read, async_wait}
use dmproxy.Network.Action.{out_of_range, ok, fault, prepend}
use dmproxy.Douyu.Stt.{Tokenizer, parse_stt, make_stt, join_pairs}
use dmproxy.Douyu.Stt.RoundTrip.{Splits, IsPlain, parse_stt-make_stt, data_of-make_stt}
use dmproxy.Douyu.Client.{
  Client, on_write, handle_header, handle_data, handle_heartbeat_timer, field, header_read,
  data_read, check_data, dispatch, new_joingroup_packet,
}

get_or-last : (s : Bytes) (x : ℕ) → get_or (x ∷ (s ++ 0 ∷ [])) (length (s ++ 0 ∷ [])) 0 ≡ 0
get_or-last [] x = refl
get_or-last (y ∷ s) x = get_or-last s y

-- A header whose length word is a word of 32 bits makes the client read as many bytes as the word
-- says less 8, and nothing else is called; where the word is less than 8, that is taken modulo
-- 2^32.
pub header_read_size :
    ⦃m : Messages⦄ (header : Bytes) (c : Client)
    → load_le32 header < u32_mod
    → (n : ℕ) × (header_read header none c ≡ (ok tt, c, async_read n handle_data ∷ []))
      × (((8 ≤ load_le32 header) × (n + 8 ≡ load_le32 header))
          ⊎ ((load_le32 header < 8) × (n + 8 ≡ load_le32 header + u32_mod)))
unfolding header_read
header_read_size header c h =
    ((load_le32 header + u32_mod - 8) % u32_mod, ground arith, ground arith)

module _ ⦃m : Messages⦄ ⦃k : Tokenizer⦄ where
  check_data-terminated :
      (s : Bytes) (c : Client)
      → check_data (s ++ 0 ∷ []) c
        ≡ (let stt = parse_stt (s ++ 0 ∷ []) in dispatch (field (codes "type") stt) stt c)
  unfolding check_data
  check_data-terminated [] c = refl
  check_data-terminated (x ∷ s) c = rw (get_or-last s x)

  dispatch_ok : (type : Bytes) (stt : Dict Bytes) (c : Client) → (dispatch type stt c).0 ≡ ok tt
  unfolding dispatch
  dispatch_ok type stt c = ground arith

  -- The client throws on what a read of data brings exactly where the read did not fail and brought
  -- nothing.
  pub data_read_fault :
      (data_bytes : Bytes) (ec : ErrorCode) (c : Client)
      → ((data_read data_bytes ec c).0 ≡ fault out_of_range) ↔ ((data_bytes ≡ []) × (ec ≡ none))
  unfolding data_read
  data_read_fault [] ec c = ground arith
  data_read_fault (x ∷ xs) ec c =
      ground (arith, dispatch_ok (field (codes "type") (parse_stt (x ∷ xs))) (parse_stt (x ∷ xs)) c)

  dispatch-chatmsg :
      (stt : Dict Bytes) (c : Client)
      → field (codes "type") stt ≡ codes "chatmsg"
      → dispatch (field (codes "type") stt) stt c ≡ (
        ok tt,
        c,
        publish_json (field (codes "uid") stt) (field (codes "nn") stt) (field (codes "txt") stt)
            ∷ [],
      )
  unfolding dispatch bytes_eq
  dispatch-chatmsg stt c e = rw e

  dispatch-loginres :
      (stt : Dict Bytes) (c : Client)
      → field (codes "type") stt ≡ codes "loginres"
      → dispatch (field (codes "type") stt) stt c ≡ (
        ok tt,
        c,
        async_wait 1 handle_heartbeat_timer ∷ async_write (new_joingroup_packet c) on_write ∷ [],
      )
  unfolding dispatch bytes_eq
  dispatch-loginres stt c e = rw e

  module _ (il : Dict Bytes) (c : Client) (splits : Splits k) (plain : All IsPlain il) where
    parsed : (key : Bytes) → field key (parse_stt (join_pairs il ++ 0 ∷ [])) ≡ field key il
    parsed key =
        ap (λ (o : Option Bytes). elim o [ none ↦ [] | some v ↦ v ])
          (ap (λ d. lookup key (parse_stt d)) (sym (data_of-make_stt il plain))
            ∙ parse_stt-make_stt key il splits plain)

    data_read-checked :
        data_read (drop 12 (make_stt il)) none c
        ≡ prepend (async_read 12 handle_header ∷ []) (
            let stt = parse_stt (join_pairs il ++ 0 ∷ []) in
            dispatch (field (codes "type") stt) stt c)
    unfolding data_read
    data_read-checked = rw (data_of-make_stt il plain, check_data-terminated (join_pairs il) c)

    -- With a tokenizer that splits at slashes, the data of a chat message that is written as
    -- `make_stt` does, of keys and values that the format can carry, is published with its user,
    -- nickname and text, after the next header read has been started.
    pub data_read-chatmsg :
        field (codes "type") il ≡ codes "chatmsg"
        → data_read (drop 12 (make_stt il)) none c ≡ (
          ok tt,
          c,
          async_read 12 handle_header
              ∷ publish_json
                  (field (codes "uid") il)
                  (field (codes "nn") il)
                  (field (codes "txt") il)
              ∷ [],
        )
    data_read-chatmsg type =
        data_read-checked
        ∙ ap (prepend (async_read 12 handle_header ∷ [])) (
            dispatch-chatmsg (parse_stt (join_pairs il ++ 0 ∷ [])) c (parsed (codes "type") ∙ type))
        ∙ rw (parsed (codes "uid"), parsed (codes "nn"), parsed (codes "txt"))

    -- With a tokenizer that splits at slashes, the data of a login response that is written as
    -- `make_stt` does, of keys and values that the format can carry, starts the next header read,
    -- then the heartbeat timer, and then asks to join the group of the room.
    data_read-loginres :
        field (codes "type") il ≡ codes "loginres"
        → data_read (drop 12 (make_stt il)) none c ≡ (
          ok tt,
          c,
          async_read 12 handle_header
              ∷ async_wait 1 handle_heartbeat_timer
              ∷ async_write (new_joingroup_packet c) on_write
              ∷ [],
        )
    data_read-loginres type =
        data_read-checked
        ∙ ap (prepend (async_read 12 handle_header ∷ [])) (
            dispatch-loginres (parse_stt (join_pairs il ++ 0 ∷ [])) c
              (parsed (codes "type") ∙ type))
