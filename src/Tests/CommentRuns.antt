-- ===== src/Tests/CommentRuns.antt =====
-- What the clients of a room see of comments, on concrete inputs.
use dmproxy.Base.{Bytes, codes, ◌≡◌, refl, [], ◌∷◌, none, some, arith, true}
use dmproxy.Json.{JsonApi}
use dmproxy.Base.{bytes_eq, c_string}
use dmproxy.Bilibili.Client as Bilibili
use dmproxy.Bilibili.Life as BilibiliLife
use dmproxy.Network.Life.{completed}
use dmproxy.Network.{binary, text}
use dmproxy.Server.Delivery.{Sends}
use dmproxy.Platforms.Publish.{sent}
use dmproxy.Server.Delivery.Audience.{delivered, texts}
use dmproxy.Huajiao.Client.{Client, new_client}
use dmproxy.Huajiao.Protocol.{Protobuf, new_message_notify, successful, member_gzip_notify}
use dmproxy.Huajiao.Events.{message}
use dmproxy.Huajiao.Session.Comments.{comments}
use dmproxy.Yy.Client as Yy
use dmproxy.Yy.Timer as YyTimer
use dmproxy.Yy.Comments.{comment}
use dmproxy.Proxy.{
  bilibili_object, bilibili_event, huajiao_object, yy_object, huajiao_event, yy_event, react,
}
use dmproxy.Proxy.Comments.{react-comments, react-comment, react-danmu}
use dmproxy.Bilibili.Barrage.Reading.{IsUid}
use dmproxy.Tests.Fixture.{
  messages, encoders, tokenizer, xml, chat_xml, document, answers, plain, stored, served,
}
use dmproxy.Tests.Platform.{stored-Inflates}

-- Every message that arrives notifies of two packed items, the first of which is a comment.
abbrev notifies : Protobuf
notifies = record answers {
  parse_message = λ b. record (answers.parse_message b) { msgid = new_message_notify };
  parse_packet = λ b. record (answers.parse_packet b) {
    result = successful;
    payloadtype = member_gzip_notify;
    multinotify = codes "{}" ∷ codes "x" ∷ [];
  };
}

abbrev in_room : Client
in_room = record (new_client (codes "7") (codes "abcdefghij") 5) {
  handshake = true;
  b_login = true;
  b_join = true;
}

reached : Sends
reached n h = none

comments_example :
    let (o, t, calls) =
      react document notifies plain stored reached 0
        (huajiao_event (message none [] binary (codes "notify")))
        (huajiao_object in_room)
        served in
    (o ≡ huajiao_object in_room)
    × (sent calls
        ≡ delivered reached
            (texts (comments document (codes "{}" ∷ codes "x" ∷ [])))
            (served.heap 0).listeners)
comments_example =
    react-comments document notifies plain stored reached 0 served (λ b. b) none [] (codes "notify")
      in_room stored-Inflates refl refl refl (omega arith) refl
      ((codes "{}", refl, omega arith), ((codes "x", refl, omega arith), tt))

-- Every document is a chat message.
abbrev chats : JsonApi
chats = record document { parse = λ b. some 1; string_value = λ v. codes "chat" }

abbrev in_yy : Yy.Client
in_yy = Yy.new_client (codes "42")

comment_example :
    let (o, t, calls) =
      react chats notifies plain stored reached 0
        (yy_event (YyTimer.message none text (codes "hi")))
        (yy_object in_yy)
        served in
    (o ≡ yy_object in_yy)
    × (sent calls ≡ delivered reached (texts (comment chats 1)) (served.heap 0).listeners)
comment_example =
    react-comment chats notifies plain stored reached 0 served none (codes "hi") 1 in_yy refl refl

-- A read of a chat message.
abbrev chat_read : BilibiliLife.Result
chat_read = record { bytes = codes "{}"; iter = 0; ec = none; closed = none; uid = 0 }

abbrev watcher : Bilibili.Client
watcher = Bilibili.new_client (codes "7")

danmu_sent_example :
    let (o, t, calls) =
      react document notifies plain stored reached 0
        (bilibili_event (completed Bilibili.handle_data chat_read))
        (bilibili_object watcher)
        served in
    (uid : Bytes) × IsUid document 6 uid
    × (o ≡ bilibili_object watcher)
    × (sent calls
        ≡ delivered reached
            (encoders.dump (
                (codes "uid", uid)
                ∷ (codes "nickname", encoders.base64_encode (codes "nick"))
                ∷ (codes "text", encoders.base64_encode (codes "hello"))
                ∷ [])
              ∷ [])
            (served.heap 0).listeners)
unfolding bytes_eq c_string
danmu_sent_example =
    react-danmu document notifies plain stored reached 0 served chat_read 1 4 5 6 7 watcher refl
      refl refl refl refl refl refl
