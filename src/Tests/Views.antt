-- ===== src/Tests/Views.antt =====
-- main.cpp as its clients see it, on concrete inputs.
use dmproxy.Base.{
  codes, ◌≡◌, refl, some, none, length, ◌==◌, if◌then◌else◌, [], sym, ◌∙◌, find_byte, bytes_eq,
  true,
}
use dmproxy.Base.Dict.{lookup, contains, assign}
use dmproxy.Network.{text}
use dmproxy.Platforms.{platform_creator_table, platform_get_instance, is_room_valid}
use dmproxy.Platforms.Listeners.{add_listener, insert, erase, has, set_close_callback}
use dmproxy.Utils.Numbers.{str_is_num}
use dmproxy.Server.Room.{split_room}
use dmproxy.Server.{own_room, enter, leave, on_server_message, on_server_close, on_platform_close}
use dmproxy.Server.Membership.{IsListener}
use dmproxy.Server.Runs.{init, Reach, message, here, next}
use dmproxy.Server.Successor.{on_platform_close-successor}
use dmproxy.Server.View.{room_of, request, answered, IsAdmitted, IsHeard}
use dmproxy.Server.View.Message.{room_of-on_server_message}
use dmproxy.Server.View.Simulation.{Runs, inputs, Reach-Runs}
use dmproxy.Tests.Fixture.{
  messages, trimming, room_name, served, served-IsValid, room_42, split_42, made_42, valid_42,
}

seen : Reach init served
seen = next here (message none 1 text room_name)

served-seen : Runs (inputs seen) (room_of served) × IsAdmitted served
served-seen = Reach-Runs seen

-- Connection 1 is the only listener of the room.
alone :
    (lookup room_name served.rp_map ≡ some 0)
    × (length (erase 1 (served.heap 0).listeners) ≡ 0)
    × (served.message_room 2 ≡ [])
unfolding enter leave on_server_message find_byte bytes_eq lookup contains platform_get_instance
    platform_creator_table is_room_valid str_is_num assign add_listener insert erase split_room
    set_close_callback has
alone = (refl, refl, refl)

new_here : IsHeard 2 room_name served
new_here k at same = differ (sym alone.2 ∙ same)
  where
    differ : [] ≡ room_name → has 2 (served.heap k).listeners ≡ true
    differ d = cc

-- Connection 2 asks for the room of connection 1.
view_example :
    room_of (on_server_message none (served.message_room 2) 2 text room_name served).0 2
    ≡ (if 2 == 2 then answered (request text room_name) (room_of served 2) else room_of served 2)
view_example =
    room_of-on_server_message none 2 2 text room_name served served-IsValid served-seen.1 new_here

-- Connection 1 leaves, connection 2 asks for the room, and the first object reports its end.
successor_example :
    let t = (on_server_close room_name 1 served).0 in
    let u = (on_server_message none (t.message_room 2) 2 text room_name t).0 in
    let w = on_platform_close (own_room 0 u) u in
    IsListener 2 room_name u × (lookup room_name w.rp_map ≡ none)
successor_example =
    on_platform_close-successor none 1 2 0 room_name (codes "YY") (codes "42") served room_42
      served-IsValid split_42 made_42 valid_42 alone.0 alone.1
