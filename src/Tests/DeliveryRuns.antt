-- ===== src/Tests/DeliveryRuns.antt =====
-- A platform's calls on the server that owns it, on concrete inputs.
use dmproxy.Base.{
  Bytes, codes, ℕ, ◌≡◌, refl, [], ◌∷◌, none, some, ◌==◌, ◌&&◌, arith, All, map, drop, if◌then◌else◌,
  bytes_eq, find_byte, List,
}
use dmproxy.Base.Dict.{Dict, lookup, contains, assign}
use dmproxy.Network.{ErrorCode, failed, text, eof, other_errc, client_report, closed_because, Call}
use dmproxy.Platforms.{platform_creator_table, platform_get_instance, is_room_valid}
use dmproxy.Platforms.Listeners.{add_listener, insert, set_close_callback}
use dmproxy.Server.Delivery.{Sends}
use dmproxy.Platforms.Listeners.{has}
use dmproxy.Base.{not, ◌&&◌}
use dmproxy.Platforms.{Platform, platform_base, douyu}
use dmproxy.Platforms.Publish.{publish, publish_lem, closed, tried, given_up, sent}
use dmproxy.Utils.Numbers.{str_is_num}
use dmproxy.Douyu.Stt.{make_stt}
use dmproxy.Douyu.Stt.RoundTrip.{IsPlain}
use dmproxy.Douyu.Client.{Client, Handler, data_read}
use dmproxy.Server.Room.{split_room}
use dmproxy.Server.{Server, own_room, enter, leave, on_server_message}
use dmproxy.Server.Invariant.{IsValid}
use dmproxy.Server.Invariant.Handlers.{on_server_message-IsValid}
use dmproxy.Server.Runs.{init, init-IsValid}
use dmproxy.Server.View.{room_of}
use dmproxy.Server.View.Simulation.{in_room}
use dmproxy.Server.Delivery.{perform_calls, client_report-ends}
use dmproxy.Network
use dmproxy.Server.Delivery.Audience.{delivered, sent-perform_calls}
use dmproxy.Server.Delivery.Chat.{data_read-delivers, chat_text}
use dmproxy.Tests.Fixture.{messages, trimming, encoders, tokenizer, tokenizer-Splits}

-- Connection 1 watches the room 7 of Douyu, and can no longer be reached.
abbrev watched : Server
watched = (on_server_message none (init.message_room 1) 1 text (codes "douyu_7") init).0

abbrev watcher : Client
watcher = record { roomid = codes "7"; endpoint = 0 }

abbrev lost_one : Sends
lost_one n h = if h == 1 then some (other_errc 32) else none

watched-IsValid : IsValid watched
watched-IsValid = on_server_message-IsValid none 1 text (codes "douyu_7") init init-IsValid

watched_lem :
    (lookup (own_room 0 watched) watched.rp_map ≡ some 0) × (own_room 0 watched ≡ codes "douyu_7")
unfolding enter leave on_server_message find_byte bytes_eq lookup contains platform_get_instance
    platform_creator_table is_room_valid str_is_num assign add_listener insert split_room
    set_close_callback
watched_lem = (refl, refl)

abbrev chat : Dict Bytes
chat =
    (codes "type", codes "chatmsg")
    ∷ (codes "uid", codes "3")
    ∷ (codes "nn", codes "al")
    ∷ (codes "txt", codes "hi")
    ∷ []

chat-IsPlain : All IsPlain chat
chat-IsPlain = omega arith

delivery_example :
    let (t, calls) =
      perform_calls lost_one 0 (data_read (drop 12 (make_stt chat)) none watcher).2 watched in
    (sent calls ≡ map (λ h. (h, chat_text chat)) (tried (lost_one 0) (watched.heap 0).listeners))
    × ((j : ℕ)
        → room_of t j ≡ (
            if in_room (own_room 0 watched) (room_of watched j)
              && has j (given_up (lost_one 0) (watched.heap 0).listeners)
            then none
            else room_of watched j))
unfolding lookup bytes_eq
delivery_example =
    data_read-delivers lost_one 0 watcher watched chat tokenizer-Splits chat-IsPlain refl
      watched-IsValid watched_lem.0

end_example :
    let (t, calls) =
      perform_calls lost_one 0
        (client_report {K = Handler} (own_room 0 watched) (some eof))
        watched in
    (sent calls
      ≡ map (λ h. (h, closed_because eof)) (tried (lost_one 0) (watched.heap 0).listeners))
    × ((j : ℕ)
        → room_of t j
          ≡ (if in_room (own_room 0 watched) (room_of watched j) then none else room_of watched j))
end_example = client_report-ends lost_one 0 Handler eof watched watched-IsValid watched_lem.0

abbrev two_texts : List (Call Handler)
two_texts = Network.publish (codes "a") ∷ Network.publish (codes "b") ∷ []

-- Connection 1 is sent the first text only, since that one does not reach it.
publications_example :
    sent (perform_calls lost_one 0 two_texts watched).1
    ≡ delivered lost_one (codes "a" ∷ codes "b" ∷ []) (watched.heap 0).listeners
publications_example = sent-perform_calls 0 lost_one two_texts watched

-- Connection 1 cannot be reached, and 2, which can, stands behind it.
abbrev two_listeners : Platform
two_listeners = record (platform_base douyu (codes "douyu") (codes "7")) { listeners = 1 ∷ 2 ∷ [] }

behind_example :
    let (q, calls) = publish (lost_one 0) (codes "a") two_listeners in
    (sent calls ≡ map (λ h. (h, codes "a")) (tried (lost_one 0) two_listeners.listeners))
    × (closed calls ≡ given_up (lost_one 0) two_listeners.listeners)
    × ((j : ℕ)
        → has j q.listeners ≡ (
            has j two_listeners.listeners
            && not (has j (given_up (lost_one 0) two_listeners.listeners))))
behind_example = publish_lem (lost_one 0) (codes "a") two_listeners

-- Nobody is left.
nobody_left : (publish (lost_one 0) (codes "a") two_listeners).0.listeners ≡ []
unfolding publish dmproxy.Platforms.Publish.erase_all dmproxy.Network.send_code
    dmproxy.Platforms.Listeners.erase
nobody_left = refl
