-- ===== src/Douyu/Client.antt =====
-- platforms/douyu/douyu.cpp and douyu.hpp: the connection to the barrage server.
use dmproxy.Base.{
  Bytes, codes, ℕ, ◌+◌, ◌-◌, ◌%◌, [], ◌∷◌, none, some, ◌==◌, if◌then◌else◌, length, get_or,
  bytes_eq,
}
use dmproxy.Base.Dict.{Dict, lookup}
use dmproxy.Base.Words.{u32_mod, load_le32}
use dmproxy.Network.{
  ErrorCode, bad_message, failed, Messages, publish_json, async_resolve, async_connect, async_write,
  async_read, async_wait, socket_close, timer_cancel, client_report, room_string,
}
use dmproxy.Network.Action.{
  Action, out_of_range, done, raise, emit, emits, modify, get, ◌>>=◌, ◌>>◌,
}
use dmproxy.Douyu.Stt.{Tokenizer, parse_stt, make_stt}

-- The handlers that asynchronous calls are bound to.
pub data Handler : Type 0 where
  on_resolve on_connect on_write handle_header handle_data handle_heartbeat_timer : Handler

-- The members that the code changes or reads; `endpoint` is `m_ep`.
pub record Client : Type 0 where
  pub roomid : Bytes
  pub endpoint : ℕ

abbrev pub header_size : ℕ
header_size = 12

abbrev pub Douyu : Type 0 → Type 0
Douyu = Action Client Handler

-- The strings that the constructor sets.
abbrev pub danmu_host : Bytes
danmu_host = codes "openbarrage.douyutv.com"

abbrev pub danmu_port : Bytes
danmu_port = codes "8601"

abbrev pub room : Client → Bytes
room c = room_string (codes "douyu") c.roomid

-- `stt[key]`, where a missing key reads as the empty string.
abbrev pub field : Bytes → Dict Bytes → Bytes
field key stt = elim (lookup key stt) [ none ↦ [] | some v ↦ v ]

unfoldable pub new_login_packet : Client → Bytes
new_login_packet c = make_stt ((codes "type", codes "loginreq") ∷ (codes "roomid", c.roomid) ∷ [])

unfoldable pub new_joingroup_packet : Client → Bytes
new_joingroup_packet c = make_stt (
    (codes "type", codes "joingroup") ∷ (codes "rid", c.roomid) ∷ (codes "gid", codes "-9999") ∷ [])

unfoldable pub new_logout_packet : Bytes
new_logout_packet = make_stt ((codes "type", codes "logout") ∷ [])

unfoldable pub new_heartbeat_packet : Bytes
new_heartbeat_packet = make_stt ((codes "type", codes "mrkl") ∷ [])

unfoldable pub start : Douyu (Unit {0})
start = emit (async_resolve danmu_host danmu_port on_resolve)

-- Errors of the two calls are printed and dropped.
unfoldable pub close : Douyu (Unit {0})
close = do emit socket_close; emit timer_cancel

unfoldable pub do_write : Bytes → Douyu (Unit {0})
do_write packet = emit (async_write packet on_write)

unfoldable pub do_read_header : Douyu (Unit {0})
do_read_header = emit (async_read header_size handle_header)

unfoldable pub do_read_data : ℕ → Douyu (Unit {0})
do_read_data data_size = emit (async_read data_size handle_data)

-- What the entries of `msg_handlers` run. The `else` branches print a line.
unfoldable pub handle_loginres_msg : Dict Bytes → Douyu (Unit {0})
unfolding do_write
handle_loginres_msg stt =
    if bytes_eq (field (codes "type") stt) (codes "loginres")
    then (do emit (async_wait 1 handle_heartbeat_timer); c ← get; do_write (new_joingroup_packet c))
    else done

unfoldable pub handle_chatmsg_msg : Dict Bytes → Douyu (Unit {0})
handle_chatmsg_msg stt =
    if bytes_eq (field (codes "type") stt) (codes "chatmsg")
    then emit
        (publish_json (field (codes "uid") stt) (field (codes "nn") stt) (field (codes "txt") stt))
    else done

-- `msg_handlers`, as the constructor fills it.
unfoldable pub dispatch : Bytes → Dict Bytes → Douyu (Unit {0})
unfolding handle_loginres_msg handle_chatmsg_msg
dispatch type stt =
    if bytes_eq type (codes "loginres")
    then handle_loginres_msg stt
    else if bytes_eq type (codes "chatmsg")
    then handle_chatmsg_msg stt
    else done

module _ ⦃m : Messages⦄ where
  -- CLIENT_REPORT_WHEN_ERROR, and the two ways on.
  abbrev pub report : ErrorCode → Douyu (Unit {0}) → Douyu (Unit {0}) → Douyu (Unit {0})
  report ec bad good = do
    c ← get
    emits (client_report (room c) ec)
    if failed ec then bad else good

  unfoldable pub resolved : ErrorCode → ℕ → Douyu (Unit {0})
  resolved ec iter =
      report ec done
        (do modify (λ c. record c { endpoint = iter }); emit (async_connect iter on_connect))

  unfoldable pub connected : ErrorCode → Douyu (Unit {0})
  unfolding do_write do_read_header
  connected ec = report ec done (do c ← get; do_write (new_login_packet c); do_read_header)

  -- The lambda of `do_write`.
  unfoldable pub written : ErrorCode → Douyu (Unit {0})
  unfolding close
  written ec = report ec close done

  -- `data_len - 8` is computed in `uint32_t`.
  unfoldable pub header_read : Bytes → ErrorCode → Douyu (Unit {0})
  unfolding close do_read_data
  header_read header ec =
      report ec close (do_read_data ((load_le32 header + u32_mod - 8) % u32_mod))

  -- `data->at(data->size() - 1)` throws where the vector is empty.
  unfoldable pub check_data : ⦃k : Tokenizer⦄ → Bytes → Douyu (Unit {0})
  unfolding dispatch
  check_data [] = raise out_of_range
  check_data (x ∷ xs) =
      if get_or (x ∷ xs) (length xs) 0 == 0
      then (let stt = parse_stt (x ∷ xs) in dispatch (field (codes "type") stt) stt)
      else report (some bad_message) done done

  unfoldable pub data_read : ⦃k : Tokenizer⦄ → Bytes → ErrorCode → Douyu (Unit {0})
  unfolding close do_read_header check_data
  data_read data_bytes ec = do do_read_header; report ec close (check_data data_bytes)

  unfoldable pub heartbeat_due : ErrorCode → Douyu (Unit {0})
  unfolding do_write
  heartbeat_due ec =
      report ec (emit socket_close)
        (do do_write new_heartbeat_packet; emit (async_wait 45 handle_heartbeat_timer))
