-- ===== src/Proxy/Clients/BilibiliRoom.antt =====
-- platforms/bilibili/bilibili.cpp: the room of a Bilibili client.
use dmproxy.Base.{Bytes, ◌++◌, [], ◌∷◌, none, some, c_string, Option-cases, inl, inr, arith}
use dmproxy.Network.{ErrorCode, eof, bad_message, bad_connection, other_errc, Messages}
use dmproxy.Network.Life.{Event, completed, close_called, handle}
use dmproxy.Json.{JsonApi}
use dmproxy.Bilibili.Client.{
  Handler, on_http_resolve, on_http_connect, on_http_write, handle_http_read_status_line,
  handle_http_read_header, handle_http_read_content, on_tcp_resolve, on_tcp_connect, on_write,
  handle_header, on_skip, handle_data, handle_heartbeat_timer, Client, room, close,
}
use dmproxy.Bilibili.Http
use dmproxy.Bilibili.Http.{
  Xml, start, http_resolved, http_connected, http_written, status_line_read, parse_live_msg,
  content_read,
}
use dmproxy.Bilibili.Barrage
use dmproxy.Bilibili.Barrage.{
  tcp_resolved, tcp_connected, written, skipped, heartbeat_due, handle_message, data_read,
}
use dmproxy.Bilibili.Life.{Result, lifetime}
use dmproxy.Proxy.Clients.{Keeps, KeepsRoom}

module _ ⦃m : Messages⦄ ⦃x : Xml⦄ (j : JsonApi) where
  parse_live_msg-room : (c : Client) → Keeps room c (parse_live_msg c)
  unfolding parse_live_msg
  parse_live_msg-room c = ground arith

  handle_message-room : (v : j.Json) (c : Client) → Keeps room c (handle_message j v c)
  unfolding handle_message
  handle_message-room v c = ground arith

  content_read-room :
      (bytes : Bytes) (ec closed : ErrorCode) (c : Client)
      → Keeps room c (content_read bytes ec closed c)
  unfolding content_read
  content_read-room bytes none closed c = ground arith
  content_read-room bytes (some eof) closed c =
      ground (arith, parse_live_msg-room (record c { response = c.response ++ bytes }))
  content_read-room bytes (some bad_message) closed c = ground arith
  content_read-room bytes (some bad_connection) closed c = ground arith
  content_read-room bytes (some (other_errc n)) closed c = ground arith

  data_read-room :
      (bytes : Bytes) (ec : ErrorCode) (c : Client) → Keeps room c (data_read j bytes ec c)
  unfolding data_read
  data_read-room bytes ec c = elim (Option-cases (j.parse (c_string (bytes ++ 0 ∷ [])))) [
    | inl e ↦ ground arith
    | inr (v, e) ↦ ground (arith, handle_message-room v c)
  ]

  handle-room : (ev : Event Handler Result) (c : Client) → Keeps room c (handle (lifetime j) ev c)
  unfolding http_resolved http_connected http_written status_line_read Http.header_read tcp_resolved
      tcp_connected written Barrage.header_read skipped heartbeat_due close
  handle-room (completed on_http_resolve r) c = ground arith
  handle-room (completed on_http_connect r) c = ground arith
  handle-room (completed on_http_write r) c = ground arith
  handle-room (completed handle_http_read_status_line r) c = ground arith
  handle-room (completed handle_http_read_header r) c = ground arith
  handle-room (completed handle_http_read_content r) c = content_read-room r.bytes r.ec r.closed c
  handle-room (completed on_tcp_resolve r) c = ground arith
  handle-room (completed on_tcp_connect r) c = ground arith
  handle-room (completed on_write r) c = ground arith
  handle-room (completed handle_header r) c = ground arith
  handle-room (completed on_skip r) c = ground arith
  handle-room (completed handle_data r) c = data_read-room r.bytes r.ec c
  handle-room (completed handle_heartbeat_timer r) c = ground arith
  handle-room close_called c = ground arith

  pub handle-KeepsRoom : KeepsRoom room (handle (lifetime j))
  handle-KeepsRoom = record { keeps = handle-room }

pub start-room : (c : Client) → Keeps room c (start c)
unfolding start
start-room c = ground arith

pub close-room : (c : Client) → Keeps room c (close c)
unfolding close
close-room c = ground arith
