-- ===== src/Server/Branches.antt =====
-- main.cpp: the branches of `on_server_message` as equations, for the proofs about it.
use dmproxy.Base.{
  Bytes, codes, ◌≡◌, ◌≢◌, ◌++◌, ℕ, ◌⊎◌, none, some, true, false, bytes_eq_iff, arith, [],
}
use dmproxy.Base.Dict.{lookup, contains-lookup}
use dmproxy.Network.{Messages, ErrorCode, text}
use dmproxy.Platforms.{Platform, platform_get_instance, is_room_valid}
use dmproxy.Platforms.Listeners.{add_listener, have_listener}
use dmproxy.Server.Room.{split_room}
use dmproxy.Server.{
  Server, Trimming, modify_platform, start_room, allocate, create_room, enter, switch_room,
  on_server_text, on_server_message, reply, then_calls,
}
use dmproxy.Server.Invariant.Handlers.{moved}

module _ ⦃m : Messages⦄ (ec : ErrorCode) (q tag roomid : Bytes) (hdl : ℕ) (s : Server) where
  pub create_room-unknown :
      platform_get_instance tag roomid ≡ none
      → create_room ec q tag roomid hdl s
        ≡ (s, reply ec hdl (codes "platform " ++ tag ++ codes " is not valid!"))
  unfolding create_room
  create_room-unknown e = rw (e, create_room)

  pub create_room-invalid :
      (p : Platform)
      → platform_get_instance tag roomid ≡ some p
      → is_room_valid p.kind p.roomid ≡ false
      → create_room ec q tag roomid hdl s ≡ (s, reply ec hdl (codes "roomid invalid!"))
  unfolding create_room
  create_room-invalid p e f = rw (e, create_room) (rw f)

  pub create_room-valid :
      (p : Platform)
      → platform_get_instance tag roomid ≡ some p
      → is_room_valid p.kind p.roomid ≡ true
      → create_room ec q tag roomid hdl s ≡ start_room q hdl s.next (allocate p s)
  unfolding create_room
  create_room-valid p e f = rw (e, create_room) (rw f)

  pub enter-create :
      lookup q s.rp_map ≡ none → enter ec q tag roomid hdl s ≡ create_room ec q tag roomid hdl s
  unfolding enter
  enter-create e = rw (e, enter)

  pub enter-join :
      (k : ℕ)
      → lookup q s.rp_map ≡ some k
      → have_listener hdl (s.heap k) ≡ false
      → enter ec q tag roomid hdl s ≡ (modify_platform k (add_listener hdl) s, [])
  unfolding enter
  enter-join k e f = rw (e, enter) (rw f)

  pub switch_room-same :
      (k : ℕ)
      → s.message_room hdl ≡ q
      → lookup q s.rp_map ≡ some k
      → switch_room ec (s.message_room hdl) q tag roomid hdl s ≡ (s, [])
  unfolding switch_room
  switch_room-same k e f =
      ground
        (arith, bytes_eq_iff (s.message_room hdl) q, contains-lookup (s.message_room hdl) s.rp_map)

  pub switch_room-moves :
      (s.message_room hdl ≢ q) ⊎ (lookup q s.rp_map ≡ none)
      → switch_room ec (s.message_room hdl) q tag roomid hdl s
        ≡ then_calls (moved hdl q s).1 (enter ec q tag roomid hdl (moved hdl q s).0)
  unfolding switch_room
  switch_room-moves new =
      ground
        (arith, bytes_eq_iff (s.message_room hdl) q, contains-lookup (s.message_room hdl) s.rp_map)

module _ ⦃m : Messages⦄ ⦃b : Trimming⦄ (ec : ErrorCode) (old payload : Bytes) (hdl : ℕ)
    (s : Server) where
  pub on_server_message-split :
      (tag roomid : Bytes)
      → split_room (b.trim payload) ≡ some (tag, roomid)
      → on_server_message ec old hdl text payload s
        ≡ switch_room ec old (b.trim payload) tag roomid hdl s
  unfolding on_server_message on_server_text
  on_server_message-split tag roomid e = rw (e, on_server_text)

  pub on_server_message-malformed :
      split_room (b.trim payload) ≡ none
      → on_server_message ec old hdl text payload s ≡ (s, reply ec hdl (codes "format error!"))
  unfolding on_server_message on_server_text
  on_server_message-malformed e = rw (e, on_server_text)
