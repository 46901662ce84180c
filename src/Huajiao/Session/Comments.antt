-- ===== src/Huajiao/Session/Comments.antt =====
-- platforms/huajiao/huajiao.cpp: what the client publishes of the messages that arrive in a room.
use dmproxy.Base.{
  ◌*◌, Bytes, codes, ◌≡◌, ◌≤◌, ◌<◌, refl, ap, List, [], ◌∷◌, ◌++◌, map, Option, none, some, true,
  false, not, ◌&&◌, ◌==◌, ltb, if◌then◌else◌, length, drop, arith, append-nil, All, Option-cases,
  inl, inr,
}
use dmproxy.Json.{JsonApi}
use dmproxy.Network.{Call, publish_json, Messages, ErrorCode, binary}
use dmproxy.Network.Action.{ok}
use dmproxy.Utils.Gzip.{Zlib}
use dmproxy.Utils.Gzip.Complete.{Inflates, ungzip_lem}
use dmproxy.Huajiao.Client.{Client, Handler}
use dmproxy.Huajiao.Parsing.{
  parse_json_message, parse_zipped, parse_all_zipped, parse_new_message_notify,
  parse_message_packet, handle_binary_message,
}
use dmproxy.Huajiao.Protocol.{
  new_message_notify, successful, newmsg_notify, member_gzip_notify, Incoming, UserData, Protobuf,
  Crypto,
}
use dmproxy.Huajiao.Session.{on_client_message, answer}

-- Whom a comment is by; the number of a message of the type 16 stands behind `uid:`.
abbrev pub author : (j : JsonApi) → j.Json → Bytes
author j json =
    let extends = j.member json (codes "extends") in
    if j.int_value (j.member json (codes "type")) == 16
    then codes "uid:" ++ j.print_fixed (j.member extends (codes "userid"))
    else j.string_value (j.member extends (codes "userid"))

abbrev pub comment : (j : JsonApi) → Option j.Json → List (Call Handler)
comment j none = []
comment j (some json) =
    publish_json (author j json)
      (j.string_value (j.member (j.member json (codes "extends")) (codes "nickname")))
      (j.string_value (j.member json (codes "text")))
    ∷ []

-- The comments in documents, of which those that do not parse are passed over.
abbrev pub comments : JsonApi → List Bytes → List (Call Handler)
comments j [] = []
comments j (x ∷ xs) = comment j (j.parse x) ++ comments j xs

module _ (p : Protobuf) (z : Zlib) (content : z.Stream → Bytes) where
  -- The document in a packed item.
  abbrev pub unpacked : Bytes → Bytes
  unpacked data_bytes = elim (z.inflate_init data_bytes) [
    | none ↦ []
    | some s ↦ p.parse_msgcontent (content s)
  ]

  -- The item is a stream whose content is at most 1032 times as long.
  abbrev pub IsPacked : Bytes → Type 0
  IsPacked data_bytes =
      (s : z.Stream) × (z.inflate_init data_bytes ≡ some s)
      × (length (content s) ≤ 1032 * length data_bytes)

  -- The documents in a notification.
  abbrev pub documents : UserData → List Bytes
  documents u =
      if u.result == successful
      then (if u.payloadtype == newmsg_notify
          then (if u.msgtype == 0 && not (u.memcount == 0) then u.msgcontent ∷ [] else [])
          else if u.payloadtype == member_gzip_notify
          then map unpacked u.multinotify
          else [])
      else []

  map_empty : (ds : List Bytes) → length ds ≡ 0 → map unpacked ds ≡ []
  map_empty [] h = refl
  map_empty (d ∷ ds) h = cc

  module _ (j : JsonApi) where
    parse_json_message_lem :
        (x : Bytes) (c : Client) → parse_json_message j x c ≡ (ok tt, c, comment j (j.parse x))
    unfolding parse_json_message
    parse_json_message_lem x c = elim (Option-cases (j.parse x)) [
      | inl e ↦ rw (e, parse_json_message) refl
      | inr (v, e) ↦ rw (e, parse_json_message) refl
    ]

    module _ (i : Inflates z content) where
      parse_zipped_lem :
          (d : Bytes) (c : Client)
          → IsPacked d
          → parse_zipped j p z d c ≡ (ok tt, c, comment j (j.parse (unpacked d)))
      unfolding parse_zipped
      parse_zipped_lem d c (s, e, short) =
          rw (ungzip_lem z content i d s e short, e, unpacked, parse_zipped)
            (parse_json_message_lem (p.parse_msgcontent (content s)) c)

      parse_all_zipped_lem :
          (ds : List Bytes) (c : Client)
          → All IsPacked ds
          → parse_all_zipped j p z ds c ≡ (ok tt, c, comments j (map unpacked ds))
      unfolding parse_all_zipped
      parse_all_zipped_lem [] c h = refl
      parse_all_zipped_lem (d ∷ ds) c (packed, h) =
          rw (parse_zipped_lem d c packed, parse_all_zipped_lem ds c h) refl

      parse_new_message_notify_lem :
          (m : Incoming) (c : Client)
          → All IsPacked (p.parse_packet m.info_content).multinotify
          → parse_new_message_notify j p z m c
            ≡ (ok tt, c, comments j (documents (p.parse_packet m.info_content)))
      unfolding parse_new_message_notify
      parse_new_message_notify_lem m c h =
          let u = p.parse_packet m.info_content in
          ground (
            arith,
            parse_json_message_lem u.msgcontent c,
            parse_all_zipped_lem u.multinotify c h,
            map_empty u.multinotify,
            append-nil (comment j (j.parse u.msgcontent)),
          )

module _ ⦃m : Messages⦄ (p : Protobuf) (y : Crypto) (z : Zlib) (content : z.Stream → Bytes)
    (j : JsonApi) (i : Inflates z content) where
  parse_message_packet_lem :
      (payload : Bytes) (c : Client)
      → 4 < length payload
      → let message = p.parse_message (drop 4 payload) in
        let u = p.parse_packet message.info_content in
        message.msgid ≡ new_message_notify
        → All (IsPacked p z content) u.multinotify
        → parse_message_packet j p z y payload c ≡ (ok tt, c, comments j (documents p z content u))
  unfolding parse_message_packet
  parse_message_packet_lem payload c long notify packed =
      rw (other, enough, notify)
        (parse_new_message_notify_lem p z content j i
          (record (p.parse_message (drop 4 payload)) { msgid = new_message_notify }) c packed)
    where
      other : (length payload == 4) ≡ false
      other = ground (arith, long)

      enough : ltb (length payload) 4 ≡ false
      enough = ground (arith, long)

  -- In a client that has joined, a notification whose packed items are sound is published as the
  -- comments in it, and nothing else is called.
  pub on_client_message-comments :
      (sent : ErrorCode) (random payload : Bytes) (c : Client)
      → c.handshake ≡ true
      → c.b_login ≡ true
      → c.b_join ≡ true
      → 4 < length payload
      → let message = p.parse_message (drop 4 payload) in
        let u = p.parse_packet message.info_content in
        message.msgid ≡ new_message_notify
        → All (IsPacked p z content) u.multinotify
        → on_client_message p y j z sent random binary payload c
          ≡ (ok tt, c, comments j (documents p z content u))
  unfolding on_client_message handle_binary_message parse_message_packet answer
  on_client_message-comments sent random payload c shaken logged joined long notify packed =
      let d = record c { handshake = true; b_login = true; b_join = true } in
      rw (shaken, logged, joined)
        (rw (parse_message_packet_lem payload d long notify packed) (
          ap (λ cs. (ok tt, d, cs))
            (append-nil (
              comments j (
                documents p z content
                  (p.parse_packet (p.parse_message (drop 4 payload)).info_content))))))
