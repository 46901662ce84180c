-- ===== src/Huajiao/Session.antt =====
-- platforms/huajiao/huajiao.cpp: the handlers of the web socket.
pub mod Comments
pub mod Progress
use dmproxy.Base.{Bytes, codes, ℕ, Bool, true, false, not, ◌&&◌, none, some, if◌then◌else◌}
use dmproxy.Json.{JsonApi}
use dmproxy.Network.{
  Opcode, text, binary, other_opcode, ErrorCode, Messages, publish, close_callback, ws_connect,
  ws_send, ws_close,
}
use dmproxy.Network.Action.{done, emit, modify, get, ◌>>=◌, ◌>>◌}
use dmproxy.Utils.Gzip.{Zlib}
use dmproxy.Huajiao.Client.{Client, Huajiao, room, report, report_ws}
use dmproxy.Huajiao.Packets.{new_handshake_packet, new_login_packet, new_join_chatroom_packet}
use dmproxy.Huajiao.Parsing.{handle_binary_message}
use dmproxy.Huajiao.Protocol.{ws_server, Protobuf, Crypto}

module _ ⦃m : Messages⦄ where
  -- `ec` is what `get_connection` reports.
  unfoldable pub start : ErrorCode → Huajiao (Unit {0})
  start ec = do
    modify (λ c. record c { room_id = c.roomid })
    report ec done (emit (ws_connect ws_server))

  -- `ec` is what `client.close` reports.
  unfoldable pub close : ErrorCode → Huajiao (Unit {0})
  close ec = do emit ws_close; report ec done done

  unfoldable pub on_client_fail : ErrorCode → Huajiao (Unit {0})
  on_client_fail ec = report ec done done

unfoldable pub on_client_close : Huajiao (Unit {0})
on_client_close = do
  emit (publish (codes "huajiao danmu connection closed!"))
  c ← get
  emit (close_callback (room c))

module _ ⦃m : Messages⦄ (p : Protobuf) (y : Crypto) where
  unfoldable pub on_client_open : ErrorCode → Huajiao (Unit {0})
  on_client_open ec = do c ← get; emit (ws_send binary (new_handshake_packet p y c)); report_ws ec

  -- What `on_client_message` does after the message has been handled. `sent` is what sending the
  -- packet reports, `random` the random string in it.
  unfoldable pub answer : ErrorCode → Bytes → Huajiao (Unit {0})
  answer sent random = do
    c ← get
    if c.handshake && not c.b_login
        then (do emit (ws_send binary (new_login_packet p y random c)); report_ws sent)
        else if c.handshake && c.b_login && not c.b_join
        then (do
          modify (λ d. record d { b_join = true })
          emit (ws_send binary (new_join_chatroom_packet p y random c))
          report_ws sent)
        else done

  module _ (j : JsonApi) (z : Zlib) where
    unfoldable pub on_client_message : ErrorCode → Bytes → Opcode → Bytes → Huajiao (Unit {0})
    unfolding answer
    on_client_message sent random text payload = done
    on_client_message sent random other_opcode payload = done
    on_client_message sent random binary payload = do
      handle_binary_message j p z y payload
      answer sent random
