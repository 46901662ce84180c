-- ===== src/Bilibili/Http.antt =====
-- platforms/bilibili/bilibili.cpp: the HTTP request for the barrage server's address.
pub mod StatusLine
pub mod Content
use dmproxy.Base.{
  Bytes, codes, ℕ, [], ◌++◌, List, ◌∷◌, Option, none, some, Bool, true, false, if◌then◌else◌,
  bytes_eq,
}
use dmproxy.Network.{
  ErrorCode, Errc, eof, bad_message, bad_connection, other_errc, failed, Messages, Call,
  async_resolve, async_connect, async_write, async_read_until, async_read_some, socket_close,
}
use dmproxy.Network.Action.{done, emit, modify, get, ◌>>=◌, ◌>>◌}
use dmproxy.Bilibili.Client.{
  Handler, on_http_resolve, on_http_connect, on_http_write, handle_http_read_status_line,
  handle_http_read_header, handle_http_read_content, on_tcp_resolve, Client, Bilibili, report,
}
use StatusLine.{read_status_line, is_ok_status}

-- boost::property_tree on the document: whether it is XML, and the text at a path; `none` is an
-- exception.
pub record Xml : Type 0 where
  pub reads : Bytes → Bool
  pub get : Bytes → Bytes → Option Bytes

abbrev pub live_api_host : Bytes
live_api_host = codes "live.bilibili.com"

abbrev pub live_api_path : Bytes
live_api_path = codes "/api/player?id=cid:"

unfoldable pub request_text : Bytes → Bytes
request_text roomid =
    codes "GET "
    ++ live_api_path
    ++ roomid
    ++ codes " HTTP/1.0\r\n"
    ++ codes "Host: "
    ++ live_api_host
    ++ codes "\r\n"
    ++ codes "Accept: */*\r\n"
    ++ codes "Connection: close\r\n\r\n"

unfoldable pub start : Bilibili (Unit {0})
start = do
  modify (λ c. record c { request = c.request ++ request_text c.roomid })
  emit (async_resolve live_api_host (codes "http") on_http_resolve)

-- An asynchronous read into `m_response` has put there what arrived.
abbrev pub arrive : Bytes → Bilibili (Unit {0})
arrive arrived = modify (λ c. record c { response = c.response ++ arrived })

module _ ⦃m : Messages⦄ where
  unfoldable pub http_resolved : ErrorCode → ℕ → Bilibili (Unit {0})
  http_resolved ec iter =
      report ec done
        (do modify (λ c. record c { endpoint = iter }); emit (async_connect iter on_http_connect))

  unfoldable pub http_connected : ErrorCode → Bilibili (Unit {0})
  http_connected ec = report ec done (do c ← get; emit (async_write c.request on_http_write))

  -- The lambda of `on_http_connect`.
  unfoldable pub http_written : ErrorCode → Bilibili (Unit {0})
  http_written ec =
      report ec (emit socket_close)
        (emit (async_read_until (codes "\r\n") handle_http_read_status_line))

  -- Both tests of the status line end in `bad_message`.
  unfoldable pub status_line_read : Bytes → ErrorCode → Bilibili (Unit {0})
  status_line_read arrived ec = do
    arrive arrived
    report ec (emit socket_close) (do
      c ← get
      modify (λ d. record d { response = (read_status_line c.response).1 })
      if is_ok_status (read_status_line c.response).0
          then emit (async_read_until (codes "\r\n\r\n") handle_http_read_header)
          else report (some bad_message) done done)

  -- `m_response.consume(m_response.size())`
  unfoldable pub header_read : Bytes → ErrorCode → Bilibili (Unit {0})
  header_read arrived ec = do
    arrive arrived
    report ec (emit socket_close) (do
      modify (λ c. record c { response = [] })
      emit (async_read_some handle_http_read_content))

  -- The `catch` clause.
  abbrev pub bad_live_msg : Bilibili (Unit {0})
  bad_live_msg = report (some bad_message) (emit socket_close) (emit socket_close)

  unfoldable pub parse_live_msg : ⦃x : Xml⦄ → Bilibili (Unit {0})
  parse_live_msg ⦃x⦄ = do
    c ← get
    if x.reads c.live_msg
        then (elim (x.get c.live_msg (codes "state")) [
          | none ↦ bad_live_msg
          | some state ↦
              if bytes_eq state (codes "LIVE")
              then (elim (x.get c.live_msg (codes "server")) [
                | none ↦ bad_live_msg
                | some server ↦ (do
                  modify (λ d. record d { dm_server = server })
                  elim (x.get c.live_msg (codes "dm_port")) [
                    | none ↦ bad_live_msg
                    | some port ↦ (do
                      modify (λ d. record d { dm_tcp_port = port })
                      emit socket_close
                      emit (async_resolve server port on_tcp_resolve))
                  ])
              ])
              else bad_live_msg
        ])
        else bad_live_msg

  -- The error code of closing the socket, `closed`, takes the place of the end of file.
  unfoldable pub content_read : ⦃x : Xml⦄ → Bytes → ErrorCode → ErrorCode → Bilibili (Unit {0})
  unfolding parse_live_msg
  content_read arrived (some eof) closed = do
    arrive arrived
    emit socket_close
    report closed done parse_live_msg
  content_read arrived (some bad_message) closed = do
    arrive arrived
    report (some bad_message) (emit socket_close) done
  content_read arrived (some bad_connection) closed = do
    arrive arrived
    report (some bad_connection) (emit socket_close) done
  content_read arrived (some (other_errc n)) closed = do
    arrive arrived
    report (some (other_errc n)) (emit socket_close) done
  content_read arrived none closed = do
    arrive arrived
    modify (λ c. record c { live_msg = c.live_msg ++ c.response })
    emit (async_read_some handle_http_read_content)
