-- ===== src/Proxy/Comments.antt =====
-- platforms/huajiao/huajiao.cpp, platforms/YY/YY.cpp and platforms/bilibili/bilibili.cpp on the server
-- of main.cpp: what the clients of a room get to see of the comments in it.
use dmproxy.Server.Delivery.{Sends}
use dmproxy.Bilibili.Barrage.{uid_of}
use dmproxy.Base.{
  get_elem?, none, ◌++◌, ◌∷◌, [], c_string, Bytes, codes, ℕ, ◌≡◌, ◌<◌, refl, length, drop, true,
  some, All,
}
use dmproxy.Json.{JsonApi}
use dmproxy.Network.{publish_json, async_read, Messages, ErrorCode, binary, text}
use dmproxy.Platforms.Publish.{Encoders, sent}
use dmproxy.Utils.Gzip.{Zlib}
use dmproxy.Utils.Gzip.Complete.{Inflates}
use dmproxy.Server.{Server}
use dmproxy.Server.Delivery.Audience.{delivered, texts, sent-perform_calls}
use dmproxy.Douyu.Stt.{Tokenizer}
use dmproxy.Bilibili.Client as Bilibili
use dmproxy.Bilibili.Barrage.Reading.{IsUid, uid_of-IsUid, danmu, some-danmu, data_read-danmu}
use dmproxy.Bilibili.Http as Http
use dmproxy.Bilibili.Life as BilibiliLife
use dmproxy.Network.Life.{completed}
use dmproxy.Yy.Client as Yy
use dmproxy.Yy.Timer as YyTimer
use dmproxy.Yy.Comments.{comment, on_client_message-comment}
use dmproxy.Huajiao.Client as Huajiao
use dmproxy.Huajiao.Protocol as Protocol
use dmproxy.Huajiao.Events as HuajiaoEvents
use dmproxy.Huajiao.Session.Comments.{comments, documents, IsPacked, on_client_message-comments}
use dmproxy.Proxy.{
  bilibili_object, bilibili_event, huajiao_object, yy_object, huajiao_event, yy_event, react,
}

module _ ⦃m : Messages⦄ ⦃e : Encoders⦄ ⦃k : Tokenizer⦄ ⦃x : Http.Xml⦄ ⦃cx : Yy.ChatXml⦄
    (j : JsonApi) (p : Protocol.Protobuf) (y : Protocol.Crypto) (z : Zlib) (ec : Sends) (id : ℕ)
    (s : Server) where
  -- If `inflate` writes as much of the content of a stream as there is room for and finds no fault
  -- in it, let a Huajiao client that has joined its room get a notification longer than 4 bytes, in
  -- which each packed item is a stream whose content is at most 1032 times as long. The client
  -- stays as it is, and of the documents in the notification, each that parses is sent as a
  -- comment, in order, once to each listener that those before have left, up to the first that it
  -- cannot be sent to; nothing else is sent.
  pub react-comments :
      (content : z.Stream → Bytes) (answered : ErrorCode) (random payload : Bytes)
      (c : Huajiao.Client)
      → Inflates z content
      → c.handshake ≡ true
      → c.b_login ≡ true
      → c.b_join ≡ true
      → 4 < length payload
      → let message = p.parse_message (drop 4 payload) in
        let u = p.parse_packet message.info_content in
        message.msgid ≡ Protocol.new_message_notify
        → All (IsPacked p z content) u.multinotify
        → let (o, t, calls) =
            react j p y z ec id
              (huajiao_event (HuajiaoEvents.message answered random binary payload))
              (huajiao_object c)
              s in
          (o ≡ huajiao_object c)
          × (sent calls
              ≡ delivered ec (texts (comments j (documents p z content u))) (s.heap id).listeners)
  react-comments content answered random payload c i shaken logged joined long notify packed =
      rw
        (on_client_message-comments p y z content j i answered random payload c shaken logged joined
          long notify packed)
        (
          refl,
          sent-perform_calls id ec
              (comments j (
                documents p z content
                  (p.parse_packet (p.parse_message (drop 4 payload)).info_content)))
              s,
        )

  -- If a text message that a YY client gets parses to a document with the response `chat`, the
  -- client stays as it is; the comment, which is the user, the nickname and the whole XML, is sent
  -- once to each listener of the object up to the first that it cannot be sent to, if the XML has
  -- the text of a comment, and otherwise nothing is sent.
  pub react-comment :
      (answered : ErrorCode) (payload : Bytes) (json : j.Json) (c : Yy.Client)
      → j.parse payload ≡ some json
      → j.string_value (j.member json (codes "response")) ≡ codes "chat"
      → let (o, t, calls) =
          react j p y z ec id (yy_event (YyTimer.message answered text payload)) (yy_object c) s in
        (o ≡ yy_object c)
        × (sent calls ≡ delivered ec (texts (comment j json)) (s.heap id).listeners)
  unfolding YyTimer.handle
  react-comment answered payload json c parsed chat =
      rw (on_client_message-comment j answered payload json c parsed chat)
        (refl, sent-perform_calls id ec (comment j json) s)

  danmu-delivered :
      (r : BilibiliLife.Result) (msg : j.Json) (uid nickname words : Bytes) (c : Bilibili.Client)
      → r.ec ≡ none
      → j.parse (c_string (r.bytes ++ 0 ∷ [])) ≡ some msg
      → j.string_value (j.member msg (codes "cmd")) ≡ codes "DANMU_MSG"
      → danmu j msg ≡ some (uid, nickname, words)
      → let (o, t, calls) =
          react j p y z ec id
            (bilibili_event (completed Bilibili.handle_data r))
            (bilibili_object c)
            s in
        (o ≡ bilibili_object c)
        × (sent calls
            ≡ delivered ec
                (texts {K = Bilibili.Handler} (publish_json uid nickname words ∷ []))
                (s.heap id).listeners)
  danmu-delivered r msg uid nickname words c fine parsed cmd there =
      rw (fine, data_read-danmu j r.bytes msg c parsed cmd, there)
        (
          refl,
          sent-perform_calls id {K = Bilibili.Handler} ec
              (async_read 16 Bilibili.handle_header ∷ publish_json uid nickname words ∷ []) s,
        )

  -- Let a Bilibili client read, without an error, data that parses to a message with the command
  -- DANMU_MSG, whose arrays hold the user's number, the nickname and the text. The client stays as
  -- it is, and one comment with these three is sent once to each listener of the object up to the
  -- first that it cannot be sent to; nothing else is sent. The user's number is written out if it
  -- is a number, taken as it is if it is a text, and empty otherwise.
  pub react-danmu :
      (r : BilibiliLife.Result) (msg words user id_value name : j.Json) (c : Bilibili.Client)
      → r.ec ≡ none
      → j.parse (c_string (r.bytes ++ 0 ∷ [])) ≡ some msg
      → j.string_value (j.member msg (codes "cmd")) ≡ codes "DANMU_MSG"
      → get_elem? (j.array_items (j.member msg (codes "info"))) 1 ≡ some words
      → get_elem? (j.array_items (j.member msg (codes "info"))) 2 ≡ some user
      → get_elem? (j.array_items user) 0 ≡ some id_value
      → get_elem? (j.array_items user) 1 ≡ some name
      → let (o, t, calls) =
          react j p y z ec id
            (bilibili_event (completed Bilibili.handle_data r))
            (bilibili_object c)
            s in
        (uid : Bytes) × IsUid j id_value uid
        × (o ≡ bilibili_object c)
        × (sent calls
            ≡ delivered ec
                (e.dump (
                    (codes "uid", uid)
                    ∷ (codes "nickname", e.base64_encode (j.string_value name))
                    ∷ (codes "text", e.base64_encode (j.string_value words))
                    ∷ [])
                  ∷ [])
                (s.heap id).listeners)
  react-danmu r msg words user id_value name c fine parsed cmd at_1 at_2 at_id at_name =
      let (same, all) =
        danmu-delivered r msg (uid_of j id_value) (j.string_value name) (j.string_value words) c
          fine parsed cmd (some-danmu j msg words user id_value name at_1 at_2 at_id at_name) in
      (uid_of j id_value, uid_of-IsUid j id_value, same, all)
