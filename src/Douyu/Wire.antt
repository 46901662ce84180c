-- ===== src/Douyu/Wire.antt =====
-- platforms/douyu/: what the client writes to the barrage server is made of bytes.
use dmproxy.Base.{
  Bytes, codes, ℕ, zero, suc, ◌+◌, ◌-◌, ◌<◌, [], ◌∷◌, ◌++◌, All, All-append, IsBytes, replicate,
  length, c_string, arith,
}
use dmproxy.Base.Dict.{Dict}
use dmproxy.Base.Words.{store_le32, store_le32-IsBytes}
use dmproxy.Network.{ErrorCode, Messages, Call, async_write}
use dmproxy.Network.Life.{Event, completed, close_called, handle}
use dmproxy.Douyu.Stt.{Tokenizer, parse_stt, make_stt, join_pairs, strcpy_zeroed}
use dmproxy.Douyu.Client.{
  Client, Handler, on_resolve, on_connect, on_write, handle_header, handle_data,
  handle_heartbeat_timer, field, close, resolved, connected, written, header_read, data_read,
  heartbeat_due, dispatch, check_data, new_login_packet, new_joingroup_packet, new_heartbeat_packet,
}
use dmproxy.Douyu.Life.{Result, lifetime}

abbrev ArePairs : Dict Bytes → Type 0
ArePairs = All (λ (kv : Bytes × Bytes). IsBytes kv.0 × IsBytes kv.1)

append-IsBytes : (s t : Bytes) → IsBytes s → IsBytes t → IsBytes (s ++ t)
append-IsBytes s t = All-append (λ b. b < 256) s t

join_pairs-IsBytes : (il : Dict Bytes) → ArePairs il → IsBytes (join_pairs il)
unfolding join_pairs
join_pairs-IsBytes [] h = tt
join_pairs-IsBytes ((key, value) ∷ rest) ((key_b, value_b), h) =
    append-IsBytes (key ++ codes "@=" ++ value ++ codes "/") (join_pairs rest)
      (append-IsBytes (key ++ codes "@=" ++ value) (codes "/")
        (append-IsBytes (key ++ codes "@=") value
          (append-IsBytes key (codes "@=") key_b (omega arith)) value_b)
        (omega arith))
      (join_pairs-IsBytes rest h)

c_string-IsBytes : (s : Bytes) → IsBytes s → IsBytes (c_string s)
unfolding c_string
c_string-IsBytes [] h = tt
c_string-IsBytes (x ∷ s) (b, h) = ground (arith, b, c_string-IsBytes s h)

replicate-IsBytes : (n : ℕ) → IsBytes (replicate n 0)
replicate-IsBytes zero = tt
replicate-IsBytes (suc n) = (omega arith, replicate-IsBytes n)

make_stt-IsBytes : (il : Dict Bytes) → ArePairs il → IsBytes (make_stt il)
unfolding make_stt strcpy_zeroed store_le32 c_string
make_stt-IsBytes il h =
    let result = join_pairs il in
    let n = 12 + length result + 1 - 4 in
    let text = strcpy_zeroed result in
    append-IsBytes (store_le32 n) (store_le32 n ++ (177 ∷ 2 ∷ 0 ∷ 0 ∷ []) ++ text)
      (store_le32-IsBytes n)
      (append-IsBytes (store_le32 n) ((177 ∷ 2 ∷ 0 ∷ 0 ∷ []) ++ text) (store_le32-IsBytes n) (
        append-IsBytes (177 ∷ 2 ∷ 0 ∷ 0 ∷ []) text (omega arith) (
          append-IsBytes (c_string result)
            (replicate (length result + 1 - length (c_string result)) 0)
            (c_string-IsBytes result (join_pairs-IsBytes il h))
            (replicate-IsBytes (length result + 1 - length (c_string result))))))

-- A write is of bytes.
abbrev pub IsWire : Call Handler → Type 0
IsWire (async_write packet handler) = IsBytes packet
IsWire _ = Unit

module _ ⦃m : Messages⦄ ⦃t : Tokenizer⦄ where
  dispatch-IsWire :
      (type : Bytes) (stt : Dict Bytes) (c : Client)
      → IsBytes c.roomid
      → All IsWire (dispatch type stt c).2
  unfolding dispatch new_joingroup_packet
  dispatch-IsWire type stt c room = ground (
    arith,
    make_stt-IsBytes
        ((codes "type", codes "joingroup")
          ∷ (codes "rid", c.roomid)
          ∷ (codes "gid", codes "-9999")
          ∷ [])
        ((omega arith, omega arith), ((omega arith, room), ((omega arith, omega arith), tt))),
  )

  data_read-IsWire :
      (bytes : Bytes) (ec : ErrorCode) (c : Client)
      → IsBytes c.roomid
      → All IsWire (data_read bytes ec c).2
  unfolding data_read check_data
  data_read-IsWire [] ec c room = ground arith
  data_read-IsWire (x ∷ xs) ec c room = ground (
    arith,
    dispatch-IsWire (field (codes "type") (parse_stt (x ∷ xs))) (parse_stt (x ∷ xs)) c room,
  )

  -- In a client whose room number is made of bytes, whatever happens to it, whatever it reads
  -- included, each packet that it then writes is made of bytes.
  handle-IsWire :
      (ev : Event Handler Result) (c : Client)
      → IsBytes c.roomid
      → All IsWire (handle lifetime ev c).2
  unfolding resolved connected written heartbeat_due header_read close new_login_packet
      new_heartbeat_packet
  handle-IsWire (completed on_resolve r) c room = ground arith
  handle-IsWire (completed on_connect r) c room = ground (
    arith,
    make_stt-IsBytes ((codes "type", codes "loginreq") ∷ (codes "roomid", c.roomid) ∷ [])
        ((omega arith, omega arith), ((omega arith, room), tt)),
  )
  handle-IsWire (completed on_write r) c room = ground arith
  handle-IsWire (completed handle_header r) c room = ground arith
  handle-IsWire (completed handle_data r) c room = data_read-IsWire r.bytes r.ec c room
  handle-IsWire (completed handle_heartbeat_timer r) c room =
      ground (
        arith,
        make_stt-IsBytes ((codes "type", codes "mrkl") ∷ []) ((omega arith, omega arith), tt),
      )
  handle-IsWire close_called c room = ground arith
