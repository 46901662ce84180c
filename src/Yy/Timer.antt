-- ===== src/Yy/Timer.antt =====
-- platforms/YY/YY.cpp: the heartbeat timer, which is made by the login response and not before.
use dmproxy.Base.{Bytes, ℕ, ◌≡◌, ◌↔◌, true, false, arith}
use dmproxy.Json.{JsonApi, parse_or_null}
use dmproxy.Network.{Opcode, ErrorCode, Messages}
use dmproxy.Network.Action.{ok, fault, null_dereference}
use dmproxy.Platforms.Publish.{Encoders}
use dmproxy.Yy.Client.{
  Client, Yy, ChatXml, close, on_client_close, on_client_message, handle_response, held_error,
  heartbeat_due, on_client_open, on_client_fail,
}

-- Everything that calls the client.
pub data Event : Type 0 where
  opened : Event
  failed_to_open : ErrorCode → Event
  message : ErrorCode → Opcode → Bytes → Event
  closed : Event
  heartbeat : ErrorCode → ErrorCode → ℕ → Event
  close_called : ErrorCode → Event

module _ ⦃m : Messages⦄ ⦃e : Encoders⦄ ⦃x : ChatXml⦄ (j : JsonApi) where
  unfoldable pub handle : Event → Yy (Unit {0})
  handle opened = on_client_open
  handle (failed_to_open ec) = on_client_fail ec
  handle (message sent op payload) = on_client_message j sent op payload
  handle closed = on_client_close
  handle (heartbeat ec sent now) = heartbeat_due ec sent now
  handle (close_called ec) = close ec

  -- Closing a client, and the end of its connection, go through a null pointer exactly where no
  -- login response has made the timer.
  close_fault :
      (ec : ErrorCode) (c : Client)
      → (((close ec c).0 ≡ fault null_dereference) ↔ (c.has_timer ≡ false))
        × (((on_client_close c).0 ≡ fault null_dereference) ↔ (c.has_timer ≡ false))
  unfolding close on_client_close
  close_fault ec c = ground arith

  handle_response-has_timer :
      (ec sent : ErrorCode) (v : j.Json) (c : Client)
      → c.has_timer ≡ true
      → ((handle_response j ec sent v c).0 ≡ ok tt)
        × ((handle_response j ec sent v c).1.has_timer ≡ true)
  unfolding handle_response
  handle_response-has_timer ec sent v c h = ground arith

  -- In a client whose timer has been made, no event takes it away or makes the client fail.
  pub handle-has_timer :
      (ev : Event) (c : Client)
      → c.has_timer ≡ true
      → ((handle ev c).0 ≡ ok tt) × ((handle ev c).1.has_timer ≡ true)
  unfolding handle close on_client_close on_client_open on_client_fail heartbeat_due
      on_client_message
  handle-has_timer opened c h = ground arith
  handle-has_timer (failed_to_open ec) c h = ground arith
  handle-has_timer (message sent op payload) c h =
      ground (
        arith,
        handle_response-has_timer (held_error j op payload) sent (parse_or_null j payload) c,
      )
  handle-has_timer closed c h = ground arith
  handle-has_timer (heartbeat ec sent now) c h = ground arith
  handle-has_timer (close_called ec) c h = ground arith
