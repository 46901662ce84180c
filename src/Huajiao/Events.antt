-- ===== src/Huajiao/Events.antt =====
-- platforms/huajiao/huajiao.cpp: everything that calls the client.
use dmproxy.Base.{Bytes}
use dmproxy.Json.{JsonApi}
use dmproxy.Network.{Opcode, ErrorCode, Messages}
use dmproxy.Utils.Gzip.{Zlib}
use dmproxy.Huajiao.Client.{Huajiao}
use dmproxy.Huajiao.Protocol.{Protobuf, Crypto}
use dmproxy.Huajiao.Session.{
  close, on_client_open, on_client_fail, on_client_message, on_client_close,
}

-- An error code is what the call in the handler reports; the bytes before those of a message are
-- the random text of the packet that answers it.
pub data Event : Type 0 where
  opened : ErrorCode → Event
  failed_to_open : ErrorCode → Event
  message : ErrorCode → Bytes → Opcode → Bytes → Event
  closed : Event
  close_called : ErrorCode → Event

module _ ⦃m : Messages⦄ (j : JsonApi) (p : Protobuf) (y : Crypto) (z : Zlib) where
  abbrev pub handle : Event → Huajiao (Unit {0})
  handle (opened ec) = on_client_open p y ec
  handle (failed_to_open ec) = on_client_fail ec
  handle (message sent random op payload) = on_client_message p y j z sent random op payload
  handle closed = on_client_close
  handle (close_called ec) = close ec
