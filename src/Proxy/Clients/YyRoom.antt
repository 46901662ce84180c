-- ===== src/Proxy/Clients/YyRoom.antt =====
-- platforms/YY/YY.cpp: the room of a YY client.
use dmproxy.Base.{arith}
use dmproxy.Json.{JsonApi, parse_or_null}
use dmproxy.Network.{ErrorCode, Messages}
use dmproxy.Platforms.Publish.{Encoders}
use dmproxy.Yy.Client.{
  Client, ChatXml, room, start, close, on_client_open, on_client_fail, on_client_close,
  heartbeat_due, handle_response, held_error, on_client_message,
}
use dmproxy.Yy.Timer.{
  Event, opened, failed_to_open, message, closed, heartbeat, close_called, handle,
}
use dmproxy.Proxy.Clients.{Keeps, KeepsRoom}

module _ ⦃m : Messages⦄ ⦃e : Encoders⦄ ⦃x : ChatXml⦄ (j : JsonApi) where
  handle_response-room :
      (ec sent : ErrorCode) (v : j.Json) (c : Client) → Keeps room c (handle_response j ec sent v c)
  unfolding handle_response
  handle_response-room ec sent v c = ground arith

  handle-room : (ev : Event) (c : Client) → Keeps room c (handle j ev c)
  unfolding handle close on_client_close on_client_open on_client_fail heartbeat_due
      on_client_message
  handle-room opened c = ground arith
  handle-room (failed_to_open ec) c = ground arith
  handle-room (message sent op payload) c =
      ground
        (arith, handle_response-room (held_error j op payload) sent (parse_or_null j payload) c)
  handle-room closed c = ground arith
  handle-room (heartbeat ec sent now) c = ground arith
  handle-room (close_called ec) c = ground arith

  pub handle-KeepsRoom : KeepsRoom room (handle j)
  handle-KeepsRoom = record { keeps = handle-room }

module _ ⦃m : Messages⦄ where
  pub start-KeepsRoom : KeepsRoom room start
  unfolding start
  start-KeepsRoom = record { keeps = λ ec c. ground arith }

  pub close-room : (ec : ErrorCode) (c : Client) → Keeps room c (close ec c)
  unfolding close
  close-room ec c = ground arith
