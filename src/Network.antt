-- ===== src/Network.antt =====
-- network/dmp_cs.hpp: error codes, the opcodes of websocketpp, the two reporting macros, and the
-- calls that the program makes of websocketpp and boost::asio, recorded in the order it makes them.
use dmproxy.Base.{Bytes, codes, ℕ, ◌++◌, List, [], ◌∷◌, Option, none, some, Bool, true, false}
pub mod Action
pub mod Life

pub data Opcode : Type 0 where
  text binary other_opcode : Opcode

-- The error conditions that the program tells apart or makes itself, and that of a connection that is
-- gone; all others are `other_errc`.
pub data Errc : Type 0 where
  eof bad_message bad_connection : Errc
  other_errc : ℕ → Errc

-- `std::error_code` and `boost::system::error_code`; `none` is success.
abbrev pub ErrorCode : Type 0
ErrorCode = Option Errc

abbrev pub failed : ErrorCode → Bool
failed none = false
failed (some e) = true

-- `ec.message()`, whose texts are the library's.
pub record Messages : Type 0 where
  pub message : Errc → Bytes

abbrev pub closed_because : ⦃m : Messages⦄ → Errc → Bytes
closed_because ⦃m⦄ e = codes "connection closed because:" ++ m.message e

-- `endpoint::send` of websocketpp (impl/endpoint_impl.hpp): what `ec` holds after a send, by what it
-- held before and what a send with a clear code gives. The code is never cleared; a connection that
-- is gone sets it again.
unfoldable pub send_code : ErrorCode → ErrorCode → ErrorCode
send_code none own = own
send_code (some e) none = some e
send_code (some e) (some eof) = some e
send_code (some e) (some bad_message) = some e
send_code (some e) (some bad_connection) = some bad_connection
send_code (some e) (some (other_errc n)) = some e

-- What the proxy's server does to its own clients, and to the platforms it owns.
pub data ServerCall : Type 0 where
  send : ℕ → Bytes → ServerCall
  close_connection : ℕ → Bytes → ServerCall
  start_platform : ℕ → ServerCall
  close_platform : ℕ → ServerCall

-- `server.send`, where `ec` is what the code holds before: nothing is sent where it is set.
abbrev pub send_text : ErrorCode → ℕ → Bytes → List ServerCall
send_text none hdl dm_msg = send hdl dm_msg ∷ []
send_text (some e) hdl dm_msg = []

-- SERVER_CLOSE_AND_REPORT_WHEN_ERROR. The text on `std::cerr` is left out.
abbrev pub server_close_and_report : ⦃m : Messages⦄ → ErrorCode → ℕ → List ServerCall
server_close_and_report none hdl = []
server_close_and_report (some e) hdl = close_connection hdl (closed_because e) ∷ []

-- What a platform does; `K` names the handlers that its asynchronous calls are bound to.
pub data Call (K : Type 0) : Type 0 where
  publish : Bytes → Call K
  publish_json : Bytes → Bytes → Bytes → Call K
  close_callback : Bytes → Call K
  async_resolve : Bytes → Bytes → K → Call K
  async_connect : ℕ → K → Call K
  async_write : Bytes → K → Call K
  async_read : ℕ → K → Call K
  async_read_until : Bytes → K → Call K
  async_read_some : K → Call K
  async_wait : ℕ → K → Call K
  set_timer : ℕ → K → Call K
  socket_close : Call K
  timer_cancel : Call K
  ws_connect : Bytes → Call K
  ws_send : Opcode → Bytes → Call K
  ws_close : Call K

-- The room string that the macro hands to the close callback.
abbrev pub room_string : Bytes → Bytes → Bytes
room_string platform_name roomid = platform_name ++ codes "_" ++ roomid

-- CLIENT_REPORT_WHEN_ERROR.
abbrev pub client_report : ⦃m : Messages⦄ → {K : Type 0} → Bytes → ErrorCode → List (Call K)
client_report room none = []
client_report room (some e) = publish (closed_because e) ∷ close_callback room ∷ []

-- CLIENT_CLOSE_AND_REPORT_WHEN_ERROR_WS.
abbrev pub client_close_and_report :
    ⦃m : Messages⦄ → {K : Type 0} → Bytes → ErrorCode → List (Call K)
client_close_and_report room none = []
client_close_and_report room (some e) = client_report room (some e) ++ ws_close ∷ []
