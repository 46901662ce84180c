-- ===== src/Tests/Rooms.antt =====
-- main.cpp: connections that ask for rooms and close.
use dmproxy.Base.{
  ◌↔◌, Bytes, codes, ℕ, ◌≡◌, ◌≢◌, refl, [], ◌∷◌, ◌++◌, ◌⊎◌, none, some, true, false, ◌<◌, length,
  ◌==◌, if◌then◌else◌, bytes_eq, find_byte, sym, ◌∙◌,
}
use dmproxy.Base.Dict.{lookup, contains, assign}
use dmproxy.Network.{text, close_platform}
use dmproxy.Platforms.{platform_creator_table, platform_get_instance, is_room_valid}
use dmproxy.Platforms.Listeners.{add_listener, insert, set_close_callback, has}
use dmproxy.Platforms.Publish.{sent}
use dmproxy.Utils.Numbers.{str_is_num}
use dmproxy.Server.Room.{split_room, split_room_iff, Lacks}
use dmproxy.Server.{enter, leave, on_server_message, on_server_close}
use dmproxy.Server.Close.{on_server_close_lem}
use dmproxy.Server.Invariant.{IsValid, IsAbsent}
use dmproxy.Server.Leaks.{joined_stays}
use dmproxy.Server.Membership.{IsListener}
use dmproxy.Server.Refusals.{refusal, on_server_message-refused}
use dmproxy.Server.Runs.{closed, here, next, Reach-IsValid}
use dmproxy.Tests.Fixture.{messages, trimming, room_name, served, served-IsValid, split_42}

-- Asking for the room has made it, with connection 1 as its listener.
served_lem :
    (lookup room_name served.rp_map ≡ some 0)
    × (has 1 (served.heap 0).listeners ≡ true)
    × (served.message_room 1 ≡ room_name)
    × (served.message_room 2 ≡ [])
    × (served.close_room 2 ≡ none)
unfolding enter leave on_server_message find_byte bytes_eq lookup contains platform_get_instance
    platform_creator_table is_room_valid str_is_num assign add_listener insert has split_room
    set_close_callback
served_lem = (refl, refl, refl, refl, refl)

handler_42 : served.close_room 1 ≡ some room_name
unfolding enter leave on_server_message find_byte bytes_eq lookup contains platform_get_instance
    platform_creator_table is_room_valid str_is_num split_room
handler_42 = refl

reach_example : IsValid (on_server_close room_name 1 served).0
reach_example = Reach-IsValid served-IsValid (next here (closed 1 room_name handler_42))

close_example :
    let (t, calls) = on_server_close room_name 1 served in
    ((j : ℕ)
      → has j (t.heap 0).listeners ≡ (if 1 == j then false else has j (served.heap 0).listeners))
    × (((length (t.heap 0).listeners ≡ 0)
          × (calls ≡ close_platform 0 ∷ [])
          × (lookup room_name t.rp_map ≡ none))
        ⊎ ((0 < length (t.heap 0).listeners) × (calls ≡ []) × (lookup room_name t.rp_map ≡ some 0)))
close_example = on_server_close_lem room_name 0 1 served served_lem.0

elsewhere : served.message_room 2 ≢ room_name
elsewhere e = absurd_codes (sym served_lem.3 ∙ e)
  where
    absurd_codes : [] ≢ room_name
    absurd_codes d = cc

-- Connection 2, whose close handler is not set, joins.
joined_example :
    let t = (on_server_message none (served.message_room 2) 2 text room_name served).0 in
    (t.close_room 2 ≡ served.close_room 2)
    × IsListener 2 room_name t
    × IsListener 2 room_name (on_server_close (codes "YY_7") 2 t).0
joined_example =
    joined_stays none 2 0 room_name (codes "YY") (codes "42") (codes "YY_7") served served-IsValid
      split_42 served_lem.0 elsewhere other
  where
    other : codes "YY_7" ≢ room_name
    other e = cc

abbrev complaint : Bytes
complaint = codes "platform tv is not valid!"

split_tv : split_room (codes "tv_42") ≡ some (codes "tv", codes "42")
unfolding split_room find_byte
split_tv = refl

no_tv : refusal (codes "tv") (codes "42") ≡ some complaint
unfolding platform_get_instance platform_creator_table bytes_eq
no_tv = refl

tv_unserved : lookup (codes "tv_42") served.rp_map ≡ none
unfolding enter leave on_server_message find_byte bytes_eq lookup contains platform_get_instance
    platform_creator_table is_room_valid str_is_num assign split_room
tv_unserved = refl

-- Connection 1 asks for a platform that there is not, and so leaves its room; no other is touched.
refused_example :
    let (t, calls) = on_server_message none (served.message_room 1) 1 text (codes "tv_42") served in
    (sent calls ≡ (1, complaint) ∷ [])
    × IsAbsent 1 t
    × (t.message_room 1 ≡ codes "tv_42")
    × (lookup (codes "YY_7") t.rp_map ≡ lookup (codes "YY_7") served.rp_map)
refused_example =
    on_server_message-refused none 1 (codes "tv_42") (codes "tv") (codes "42") complaint
      (codes "YY_7") served served-IsValid other split_tv no_tv tv_unserved
  where
    other : served.message_room 1 ≢ codes "YY_7"
    other e = differ (sym served_lem.2 ∙ e)
      where
        differ : room_name ≢ codes "YY_7"
        differ d = cc

format_example : (split_room room_name ≡ some (codes "YY", codes "42")) ↔ (
    (room_name ≡ codes "YY" ++ b'_' ∷ codes "42")
    × Lacks b'_' (codes "YY")
    × (0 < length (codes "YY"))
    × (0 < length (codes "42"))
    × (3 < length room_name))
format_example = split_room_iff room_name (codes "YY") (codes "42")
