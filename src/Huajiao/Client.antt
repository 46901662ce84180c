-- ===== src/Huajiao/Client.antt =====
-- platforms/huajiao/huajiao.hpp and huajiao_config.hpp: the members of the client.
use dmproxy.Base.{Bytes, codes, ℕ, Bool, false, if◌then◌else◌}
use dmproxy.Network.{
  ErrorCode, failed, Messages, client_report, client_close_and_report, room_string,
}
use dmproxy.Network.Action.{Action, emits, get, ◌>>=◌, ◌>>◌}

-- No asynchronous call binds a handler of the client's own; the socket's handlers are its events.
pub data Handler : Type 0 where

-- huajiao_conn_info_t, the members that are used; `roomid` is that of the base class.
pub record Client : Type 0 where
  pub roomid : Bytes
  pub userid : Bytes
  pub password : Bytes
  pub sender : Bytes
  pub room_id : Bytes
  pub handshake : Bool
  pub sign : Bytes
  pub client_ram : Bytes
  pub server_ram : Bytes
  pub session : Bytes
  pub b_login : Bool
  pub b_join : Bool
  pub sn : ℕ

-- The constructors; `client_ram` and `sn` are drawn at random.
abbrev pub new_client : Bytes → Bytes → ℕ → Client
new_client roomid client_ram sn = record {
  roomid = roomid;
  userid = codes "688961111731502278921563";
  password = codes "688961111731502278921563";
  sender = codes "688961111731502278921563";
  room_id = codes "";
  handshake = false;
  sign = codes "";
  client_ram = client_ram;
  server_ram = codes "";
  session = codes "";
  b_login = false;
  b_join = false;
  sn = sn;
}

abbrev pub Huajiao : Type 0 → Type 0
Huajiao = Action Client Handler

abbrev pub room : Client → Bytes
room c = room_string (codes "huajiao") c.roomid

module _ ⦃m : Messages⦄ where
  -- CLIENT_REPORT_WHEN_ERROR, and the two ways on.
  abbrev pub report : ErrorCode → Huajiao (Unit {0}) → Huajiao (Unit {0}) → Huajiao (Unit {0})
  report ec bad good = do
    c ← get
    emits (client_report (room c) ec)
    if failed ec then bad else good

  -- CLIENT_CLOSE_AND_REPORT_WHEN_ERROR_WS where the result is not looked at.
  abbrev pub report_ws : ErrorCode → Huajiao (Unit {0})
  report_ws ec = do c ← get; emits (client_close_and_report (room c) ec)
