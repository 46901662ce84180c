-- ===== src/Proxy/Clients/HuajiaoRoom.antt =====
-- platforms/huajiao/huajiao.cpp: the room of a Huajiao client.
use dmproxy.Base.{Bytes, List, [], ◌∷◌, drop, arith}
use dmproxy.Json.{JsonApi}
use dmproxy.Network.{ErrorCode, Messages, text, binary, other_opcode}
use dmproxy.Utils.Gzip.{Zlib}
use dmproxy.Huajiao.Client.{Client, room}
use dmproxy.Huajiao.Protocol.{Protobuf, Crypto, Incoming}
use dmproxy.Huajiao.Parsing.{
  parse_handshake_packet, parse_login_response_packet, parse_service_resp, parse_json_message,
  parse_zipped, parse_all_zipped, parse_new_message_notify, parse_message_packet,
  handle_binary_message,
}
use dmproxy.Huajiao.Session.{
  start, close, on_client_open, on_client_fail, on_client_message, on_client_close, answer,
}
use dmproxy.Huajiao.Events.{Event, opened, failed_to_open, message, closed, close_called, handle}
use dmproxy.Proxy.Clients.{Keeps, then-Keeps, KeepsRoom}

module _ (j : JsonApi) (p : Protobuf) (z : Zlib) where
  parse_zipped-room : (d : Bytes) (c : Client) → Keeps room c (parse_zipped j p z d c)
  unfolding parse_zipped
  parse_zipped-room d c = ground arith

  parse_all_zipped-room :
      (ds : List Bytes) (c : Client) → Keeps room c (parse_all_zipped j p z ds c)
  unfolding parse_all_zipped
  parse_all_zipped-room [] c = ground arith
  parse_all_zipped-room (d ∷ ds) c =
      then-Keeps room c (parse_zipped j p z d c) (parse_all_zipped j p z ds) (parse_zipped-room d c)
        (parse_all_zipped-room ds)

  parse_new_message_notify-room :
      (v : Incoming) (c : Client) → Keeps room c (parse_new_message_notify j p z v c)
  unfolding parse_new_message_notify parse_json_message
  parse_new_message_notify-room v c =
      ground (arith, parse_all_zipped-room (p.parse_packet v.info_content).multinotify c)

  module _ (y : Crypto) where
    parse_login_response_packet-room :
        (payload : Bytes) (c : Client) → Keeps room c (parse_login_response_packet p y payload c)
    unfolding parse_login_response_packet
    parse_login_response_packet-room payload c = ground arith

    parse_handshake_packet-room :
        (payload : Bytes) (c : Client) → Keeps room c (parse_handshake_packet p y payload c)
    unfolding parse_handshake_packet
    parse_handshake_packet-room payload c = ground arith

    parse_message_packet-room :
        (payload : Bytes) (c : Client) → Keeps room c (parse_message_packet j p z y payload c)
    unfolding parse_message_packet parse_service_resp
    parse_message_packet-room payload c = ground (
      arith,
      parse_login_response_packet-room payload c,
      parse_new_message_notify-room (p.parse_message (drop 4 payload)) c,
    )

    handle_binary_message-room :
        (payload : Bytes) (c : Client) → Keeps room c (handle_binary_message j p z y payload c)
    unfolding handle_binary_message
    handle_binary_message-room payload c = ground (
      arith,
      parse_login_response_packet-room payload c,
      parse_handshake_packet-room payload c,
      parse_message_packet-room payload c,
    )

module _ ⦃m : Messages⦄ (j : JsonApi) (p : Protobuf) (y : Crypto) (z : Zlib) where
  answer-room :
      (sent : ErrorCode) (random : Bytes) (c : Client) → Keeps room c (answer p y sent random c)
  unfolding answer
  answer-room sent random c = ground arith

  handle-room : (ev : Event) (c : Client) → Keeps room c (handle j p y z ev c)
  unfolding close on_client_open on_client_fail on_client_message on_client_close
  handle-room (opened ec) c = ground arith
  handle-room (failed_to_open ec) c = ground arith
  handle-room (message sent random text payload) c = ground arith
  handle-room (message sent random other_opcode payload) c = ground arith
  handle-room (message sent random binary payload) c =
      then-Keeps room c (handle_binary_message j p z y payload c) (answer p y sent random)
        (handle_binary_message-room j p z y payload c) (answer-room sent random)
  handle-room closed c = ground arith
  handle-room (close_called ec) c = ground arith

  pub handle-KeepsRoom : KeepsRoom room (handle j p y z)
  handle-KeepsRoom = record { keeps = handle-room }

module _ ⦃m : Messages⦄ where
  pub start-KeepsRoom : KeepsRoom room start
  unfolding start
  start-KeepsRoom = record { keeps = λ ec c. ground arith }

  pub close-room : (ec : ErrorCode) (c : Client) → Keeps room c (close ec c)
  unfolding close
  close-room ec c = ground arith
