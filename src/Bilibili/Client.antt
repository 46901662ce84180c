-- ===== src/Bilibili/Client.antt =====
-- platforms/bilibili/bilibili.hpp: the members of the client and the macros as its methods use them.
use dmproxy.Base.{Bytes, codes, ℕ, if◌then◌else◌}
use dmproxy.Network.{
  ErrorCode, failed, Messages, async_write, async_read, socket_close, timer_cancel, client_report,
  room_string,
}
use dmproxy.Network.Action.{Action, emit, emits, get, ◌>>=◌, ◌>>◌}

-- The handlers that asynchronous calls are bound to; `on_skip` is the lambda of `handle_header`.
pub data Handler : Type 0 where
  on_http_resolve on_http_connect on_http_write : Handler
  handle_http_read_status_line handle_http_read_header handle_http_read_content : Handler
  on_tcp_resolve on_tcp_connect on_write : Handler
  handle_header on_skip handle_data handle_heartbeat_timer : Handler

-- The members that the code changes or reads; a streambuf is the bytes it holds.
pub record Client : Type 0 where
  pub roomid : Bytes
  pub endpoint : ℕ
  pub request : Bytes
  pub response : Bytes
  pub live_msg : Bytes
  pub dm_server : Bytes
  pub dm_tcp_port : Bytes

abbrev pub Bilibili : Type 0 → Type 0
Bilibili = Action Client Handler

-- What the constructor leaves.
abbrev pub new_client : Bytes → Client
new_client roomid = record {
  roomid = roomid;
  endpoint = 0;
  request = codes "";
  response = codes "";
  live_msg = codes "";
  dm_server = codes "";
  dm_tcp_port = codes "";
}

abbrev pub room : Client → Bytes
room c = room_string (codes "bilibili") c.roomid

-- CLIENT_REPORT_WHEN_ERROR, and the two ways on.
abbrev pub report :
    ⦃m : Messages⦄ → ErrorCode → Bilibili (Unit {0}) → Bilibili (Unit {0}) → Bilibili (Unit {0})
report ec bad good = do c ← get; emits (client_report (room c) ec); if failed ec then bad else good

unfoldable pub close : Bilibili (Unit {0})
close = do emit socket_close; emit timer_cancel

unfoldable pub do_write : Bytes → Bilibili (Unit {0})
do_write packet = emit (async_write packet on_write)

unfoldable pub do_read_header : Bilibili (Unit {0})
do_read_header = emit (async_read 16 handle_header)

unfoldable pub do_read_data : ℕ → Bilibili (Unit {0})
do_read_data data_size = emit (async_read data_size handle_data)
