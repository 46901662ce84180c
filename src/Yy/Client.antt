-- ===== src/Yy/Client.antt =====
-- platforms/YY/YY.cpp and YY.hpp.
use dmproxy.Base.{Bytes, codes, ℕ, [], ◌∷◌, none, some, Bool, true, false, if◌then◌else◌, bytes_eq}
use dmproxy.Base.Decimal.{to_string}
use dmproxy.Base.Dict.{Dict, assign}
use dmproxy.Json.{JsonApi, parse_or_null}
use dmproxy.Network.{
  Opcode, text, binary, other_opcode, ErrorCode, bad_message, failed, send_code, Messages, publish,
  publish_json, close_callback, ws_connect, ws_send, ws_close, set_timer, timer_cancel,
  client_report, client_close_and_report, room_string,
}
use dmproxy.Network.Action.{
  Action, null_dereference, pure, done, raise, emit, emits, modify, get, ◌>>=◌, ◌>>◌,
}
use dmproxy.Platforms.Publish.{Encoders}

pub data Handler : Type 0 where
  handle_heartbeat : Handler

-- The members that the code changes or reads; `has_timer` says that `m_hb_timer` is not null.
pub record Client : Type 0 where
  pub roomid : Bytes
  pub login_info : Dict Bytes
  pub init_info : Dict Bytes
  pub hb_info : Dict Bytes
  pub has_timer : Bool

-- What the constructor leaves.
abbrev pub new_client : Bytes → Client
new_client roomid = record {
  roomid = roomid;
  login_info = [];
  init_info = [];
  hb_info = [];
  has_timer = false;
}

abbrev pub Yy : Type 0 → Type 0
Yy = Action Client Handler

-- boost::property_tree on a chat message: whether reading the attribute `msg.txt.<xmlattr>.data` of
-- it throws nothing.
pub record ChatXml : Type 0 where
  pub has_data : Bytes → Bool

abbrev pub ws_url : Bytes
ws_url = codes "ws://tvgw.yy.com:26101/websocket"

abbrev pub svc_link : Bytes
svc_link = codes "66b2c67d-f7ab-4355-a6f0-b52ffccc857e"

abbrev pub room : Client → Bytes
room c = room_string (codes "YY") c.roomid

-- `m_hb_timer->cancel()`, which reads through the pointer.
unfoldable pub cancel_timer : Yy (Unit {0})
cancel_timer = do c ← get; if c.has_timer then emit timer_cancel else raise null_dereference

unfoldable pub arm_timer : Yy (Unit {0})
arm_timer = do emit (set_timer 45000 handle_heartbeat); modify (λ c. record c { has_timer = true })

module _ ⦃m : Messages⦄ where
  -- CLIENT_REPORT_WHEN_ERROR, and the two ways on.
  abbrev pub report : ErrorCode → Yy (Unit {0}) → Yy (Unit {0}) → Yy (Unit {0})
  report ec bad good = do
    c ← get
    emits (client_report (room c) ec)
    if failed ec then bad else good

  -- CLIENT_CLOSE_AND_REPORT_WHEN_ERROR_WS, and the two ways on.
  abbrev pub report_ws : ErrorCode → Yy (Unit {0}) → Yy (Unit {0}) → Yy (Unit {0})
  report_ws ec bad good = do
    c ← get
    emits (client_close_and_report (room c) ec)
    if failed ec then bad else good

  -- `ec` is what `get_connection` reports.
  unfoldable pub start : ErrorCode → Yy (Unit {0})
  start ec = report ec done (do
    emit (ws_connect ws_url)
    modify (λ c. record c {
      hb_info = assign (codes "svc_link") svc_link (assign (codes "uri") (codes "6") c.hb_info);
    }))

  -- `ec` is what `client.close` reports.
  unfoldable pub close : ErrorCode → Yy (Unit {0})
  unfolding cancel_timer
  close ec = do cancel_timer; emit ws_close; report ec done done

  unfoldable pub on_client_open : Yy (Unit {0})
  on_client_open = done

  unfoldable pub on_client_fail : ErrorCode → Yy (Unit {0})
  on_client_fail ec = report ec done done

  unfoldable pub on_client_close : Yy (Unit {0})
  unfolding cancel_timer
  on_client_close = do
    emit (publish (codes "YY danmu connection closed!"))
    cancel_timer
    c ← get
    emit (close_callback (room c))

  module _ ⦃e : Encoders⦄ where
    unfoldable pub new_login_packet : Yy Bytes
    new_login_packet = do
      modify (λ c. record c {
        login_info =
            (codes "uri", codes "0")
            ∷ (codes "type", codes "0")
            ∷ (codes "svc_link", svc_link)
            ∷ [];
      })
      c ← get
      pure (e.dump c.login_info)

    unfoldable pub new_init_packet : Yy Bytes
    new_init_packet = do
      modify (λ c. record c {
        init_info =
            (codes "uri", codes "1")
            ∷ (codes "top_sid", c.roomid)
            ∷ (codes "sub_sid", c.roomid)
            ∷ (codes "svc_link", svc_link)
            ∷ [];
      })
      c ← get
      pure (e.dump c.init_info)

    -- `now` is `time(NULL)`, `sent` what sending the packet reports.
    unfoldable pub heartbeat_due : ErrorCode → ErrorCode → ℕ → Yy (Unit {0})
    unfolding arm_timer
    heartbeat_due ec sent now = report_ws ec done (do
      modify (λ c. record c { hb_info = assign (codes "ts") (to_string now) c.hb_info })
      c ← get
      emit (ws_send text (e.dump c.hb_info))
      report_ws sent done arm_timer)

    module _ ⦃x : ChatXml⦄ (j : JsonApi) where
      open j use {Json, parse, member, string_value, to_uint64}

      -- A frame with the code as it is: nothing is sent where it is set.
      abbrev pub send_frame : ErrorCode → Bytes → Yy (Unit {0})
      send_frame none packet = emit (ws_send text packet)
      send_frame (some e) packet = done

      -- The chain of tests on `resp`; `ec` is what the code holds, and `sent` what sending the answer
      -- with a clear code gives.
      unfoldable pub handle_response : ErrorCode → ErrorCode → Json → Yy (Unit {0})
      unfolding new_login_packet new_init_packet arm_timer cancel_timer
      handle_response ec sent msg_json =
          let resp = string_value (member msg_json (codes "response")) in
          let chat_msg = string_value (member msg_json (codes "chat_msg")) in
          if bytes_eq resp (codes "login")
          then (do
            packet ← new_login_packet
            send_frame ec packet
            report_ws (send_code ec sent) done done
            arm_timer)
          else if bytes_eq resp (codes "init")
          then (do
            packet ← new_init_packet
            send_frame ec packet
            report_ws (send_code ec sent) cancel_timer done)
          else if bytes_eq resp (codes "join")
          then done
          else if bytes_eq resp (codes "chat")
          then (if x.has_data chat_msg
              then emit (
                  publish_json (to_string (to_uint64 (member msg_json (codes "uid"))))
                    (string_value (member msg_json (codes "nick"))) chat_msg)
              else done)
          else done

      -- Neither error makes the handler return.
      abbrev pub opcode_error : Opcode → ErrorCode
      opcode_error text = none
      opcode_error binary = some bad_message
      opcode_error other_opcode = some bad_message

      abbrev pub parse_error : Bytes → ErrorCode
      parse_error payload = elim (parse payload) [ none ↦ some bad_message | some v ↦ none ]

      -- The code behind both tests.
      unfoldable pub held_error : Opcode → Bytes → ErrorCode
      held_error op payload = elim (parse payload) [
        | none ↦ some bad_message
        | some v ↦ opcode_error op
      ]

      unfoldable pub on_client_message : ErrorCode → Opcode → Bytes → Yy (Unit {0})
      on_client_message sent op payload = do
        report_ws (opcode_error op) done done
        report_ws (parse_error payload) done done
        handle_response (held_error op payload) sent (parse_or_null j payload)
