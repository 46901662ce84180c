-- ===== src/Bilibili/Barrage.antt =====
-- platforms/bilibili/bilibili.cpp: the connection to the barrage server.
pub mod Reading
use dmproxy.Base.{
  Bytes, codes, ℕ, ◌-◌, List, [], ◌∷◌, ◌++◌, Option, none, some, Bool, true, false, not, ◌&&◌, ◌==◌,
  leb, if◌then◌else◌, bytes_eq, get_or, get_elem?, c_string,
}
use dmproxy.Base.Decimal.{to_string}
use dmproxy.Base.Words.{u32_mod, load_be32}
use dmproxy.Network.{
  ErrorCode, bad_message, Messages, publish_json, async_connect, async_read, async_wait,
  socket_close,
}
use dmproxy.Json.{JsonApi}
use dmproxy.Network.Action.{out_of_bounds, pure, done, raise, emit, modify, get, ◌>>=◌, ◌>>◌}
use dmproxy.Bilibili.Client.{
  on_tcp_connect, handle_header, on_skip, handle_data, handle_heartbeat_timer, Client, Bilibili,
  report, close, do_write, do_read_header, do_read_data,
}
use dmproxy.Bilibili.Packets.{new_request_packet, new_heartbeat_packet}

-- `operator[]` of a vector, which does not check its index.
abbrev pub at : {A : Type 0} → List A → ℕ → Bilibili A
at xs i = elim (get_elem? xs i) [ none ↦ raise out_of_bounds | some x ↦ pure x ]

module _ ⦃m : Messages⦄ where
  unfoldable pub tcp_resolved : ErrorCode → ℕ → Bilibili (Unit {0})
  tcp_resolved ec iter =
      report ec done
        (do modify (λ c. record c { endpoint = iter }); emit (async_connect iter on_tcp_connect))

  -- `uid` is the random number that the request packet carries.
  unfoldable pub tcp_connected : ℕ → ErrorCode → Bilibili (Unit {0})
  unfolding do_write do_read_header
  tcp_connected uid ec = report ec done (do
    c ← get
    do_write (new_request_packet c.roomid uid)
    do_read_header
    emit (async_wait 1 handle_heartbeat_timer))

  -- The lambda of `do_write`.
  unfoldable pub written : ErrorCode → Bilibili (Unit {0})
  unfolding close
  written ec = report ec close done

  -- The length is that of the packet, its header of 16 bytes included.
  unfoldable pub header_read : Bytes → ErrorCode → Bilibili (Unit {0})
  unfolding close do_read_header do_read_data
  header_read header ec = report ec close (
      if leb (load_be32 header) 16
      then do_read_header
      else if get_or header 11 0 == 5
      then do_read_data (load_be32 header - 16)
      else emit (async_read (load_be32 header - 16) on_skip))

  -- The lambda of `handle_header`.
  unfoldable pub skipped : ErrorCode → Bilibili (Unit {0})
  unfolding close do_read_header
  skipped ec = report ec close do_read_header

  unfoldable pub heartbeat_due : ErrorCode → Bilibili (Unit {0})
  unfolding do_write
  heartbeat_due ec =
      report ec (emit socket_close)
        (do do_write new_heartbeat_packet; emit (async_wait 30 handle_heartbeat_timer))

module _ (j : JsonApi) where
  open j use {Json, parse, member, array_items, string_value, is_number, is_string, to_uint64}

  -- The user's number, which may be given as a text.
  unfoldable pub uid_of : Json → Bytes
  uid_of v =
      if is_number v then to_string (to_uint64 v) else if is_string v then string_value v else []

  -- From `cmd` on.
  unfoldable pub handle_message : Json → Bilibili (Unit {0})
  unfolding uid_of
  handle_message msg_json =
      if bytes_eq (string_value (member msg_json (codes "cmd"))) (codes "DANMU_MSG")
      then (do
        text ← at (array_items (member msg_json (codes "info"))) 1
        user ← at (array_items (member msg_json (codes "info"))) 2
        id ← at (array_items user) 0
        name ← at (array_items user) 1
        emit (publish_json (uid_of id) (string_value name) (string_value text)))
      else done

  -- A null byte is put behind the data, and json11 is given a C string.
  unfoldable pub data_read : ⦃m : Messages⦄ → Bytes → ErrorCode → Bilibili (Unit {0})
  unfolding close do_read_header handle_message
  data_read data_bytes ec = do
    do_read_header
    report ec close (elim (parse (c_string (data_bytes ++ 0 ∷ []))) [
      | none ↦ report (some bad_message) close close
      | some msg_json ↦ handle_message msg_json
    ])
