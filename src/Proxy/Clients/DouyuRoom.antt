-- ===== src/Proxy/Clients/DouyuRoom.antt =====
-- platforms/douyu/douyu.cpp: the room of a Douyu client.
use dmproxy.Base.{Bytes, codes, [], ◌∷◌, arith}
use dmproxy.Base.Dict.{Dict}
use dmproxy.Network.{ErrorCode, Messages}
use dmproxy.Network.Life.{Event, completed, close_called, handle}
use dmproxy.Douyu.Stt.{Tokenizer, parse_stt}
use dmproxy.Douyu.Client.{
  Client, Handler, on_resolve, on_connect, on_write, handle_header, handle_data,
  handle_heartbeat_timer, room, field, start, close, resolved, connected, written, header_read,
  data_read, heartbeat_due, dispatch, check_data,
}
use dmproxy.Douyu.Life.{Result, lifetime}
use dmproxy.Proxy.Clients.{Keeps, KeepsRoom}

module _ ⦃m : Messages⦄ ⦃t : Tokenizer⦄ where
  dispatch-room :
      (type : Bytes) (stt : Dict Bytes) (c : Client) → Keeps room c (dispatch type stt c)
  unfolding dispatch
  dispatch-room type stt c = ground arith

  data_read-room :
      (bytes : Bytes) (ec : ErrorCode) (c : Client) → Keeps room c (data_read bytes ec c)
  unfolding data_read check_data
  data_read-room [] ec c = ground arith
  data_read-room (x ∷ xs) ec c =
      ground
        (arith, dispatch-room (field (codes "type") (parse_stt (x ∷ xs))) (parse_stt (x ∷ xs)) c)

  handle-room : (ev : Event Handler Result) (c : Client) → Keeps room c (handle lifetime ev c)
  unfolding resolved connected written heartbeat_due header_read close
  handle-room (completed on_resolve r) c = ground arith
  handle-room (completed on_connect r) c = ground arith
  handle-room (completed on_write r) c = ground arith
  handle-room (completed handle_header r) c = ground arith
  handle-room (completed handle_data r) c = data_read-room r.bytes r.ec c
  handle-room (completed handle_heartbeat_timer r) c = ground arith
  handle-room close_called c = ground arith

  pub handle-KeepsRoom : KeepsRoom room (handle lifetime)
  handle-KeepsRoom = record { keeps = handle-room }

pub start-room : (c : Client) → Keeps room c (start c)
unfolding start
start-room c = ground arith

pub close-room : (c : Client) → Keeps room c (close c)
unfolding close
close-room c = ground arith
