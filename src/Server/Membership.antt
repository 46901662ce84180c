-- ===== src/Server/Membership.antt =====
-- main.cpp: where a connection is a listener after it has named a room.
use dmproxy.Base.{
  Bytes, ℕ, ◌≡◌, ◌≢◌, sym, ◌∙◌, subst, List, [], ◌⊎◌, inl, inr, none, some, true, bytes_eq_iff,
  arith, Bool-cases, Option-cases,
}
use dmproxy.Base.Dict.{lookup, lookup-assign}
use dmproxy.Network.{ServerCall, Messages, ErrorCode, text}
use dmproxy.Platforms.{Platform, platform_get_instance, is_room_valid}
use dmproxy.Platforms.Listeners.{has, add_listener, have_listener, has-insert, set_close_callback}
use dmproxy.Server.Room.{split_room}
use dmproxy.Server.{
  Server, Trimming, set_message_handler, start_room, allocate, enter, on_server_message,
}
use dmproxy.Server.Branches.{
  create_room-valid, enter-create, switch_room-same, switch_room-moves, on_server_message-split,
}
use dmproxy.Server.Invariant.Handlers.{moved, leave-message_room, enter-message_room}

-- `hdl` is a listener of the room `q`.
abbrev pub IsListener : ℕ → Bytes → Server → Type 0
IsListener hdl q s =
    (id : ℕ) × (lookup q s.rp_map ≡ some id) × (has hdl (s.heap id).listeners ≡ true)

start_room-IsListener :
    (q : Bytes) (hdl k : ℕ) (s : Server) → IsListener hdl q (start_room q hdl k s).0
unfolding start_room add_listener set_close_callback
start_room-IsListener q hdl k s = (
  k,
  ground (arith, lookup-assign q q k s.rp_map, bytes_eq_iff q q),
  ground (arith, has-insert hdl hdl (s.heap k).listeners),
)

module _ ⦃m : Messages⦄ where
  enter-IsListener :
      (ec : ErrorCode) (q tag roomid : Bytes) (hdl : ℕ) (s : Server) (p : Platform)
      → platform_get_instance tag roomid ≡ some p
      → is_room_valid p.kind p.roomid ≡ true
      → IsListener hdl q (enter ec q tag roomid hdl s).0
  unfolding enter add_listener
  enter-IsListener ec q tag roomid hdl s p made fit = elim (Option-cases (lookup q s.rp_map)) [
    | inl e ↦
        subst (λ r. IsListener hdl q r.0)
          (sym (
            enter-create ec q tag roomid hdl s e
            ∙ create_room-valid ec q tag roomid hdl s p made fit))
          (start_room-IsListener q hdl s.next (allocate p s))
    | inr (k, e) ↦ elim (Bool-cases (have_listener hdl (s.heap k))) [
      | inl old ↦ rw (e, enter) (rw old (start_room-IsListener q hdl k s))
      | inr new ↦
          rw (e, enter) (rw new (k, e, ground (arith, has-insert hdl hdl (s.heap k).listeners)))
    ]
  ]

  enter-moved-message_room :
      (ec : ErrorCode) (q tag roomid : Bytes) (hdl : ℕ) (s : Server)
      → (enter ec q tag roomid hdl (moved hdl q s).0).0.message_room hdl ≡ q
  enter-moved-message_room ec q tag roomid hdl s = ground (
    arith,
    enter-message_room ec q tag roomid hdl (moved hdl q s).0,
    leave-message_room (s.message_room hdl) hdl (set_message_handler hdl q s),
  )

  -- A text message whose trimmed payload splits into the tag of a platform that there is and a room
  -- id valid for it makes the connection a listener of the room and binds it to the room, if it was
  -- not bound to that room before or the room is not served.
  pub on_server_message-IsListener :
      ⦃b : Trimming⦄ (ec : ErrorCode) (hdl : ℕ) (payload tag roomid : Bytes) (s : Server)
      (p : Platform)
      → split_room (b.trim payload) ≡ some (tag, roomid)
      → platform_get_instance tag roomid ≡ some p
      → is_room_valid p.kind p.roomid ≡ true
      → (s.message_room hdl ≢ b.trim payload) ⊎ (lookup (b.trim payload) s.rp_map ≡ none)
      → let t = (on_server_message ec (s.message_room hdl) hdl text payload s).0 in
        IsListener hdl (b.trim payload) t × (t.message_room hdl ≡ b.trim payload)
  on_server_message-IsListener ⦃b⦄ ec hdl payload tag roomid s p split made fit new =
      let q = b.trim payload in
      subst (λ (r : Server × List ServerCall). IsListener hdl q r.0 × (r.0.message_room hdl ≡ q))
        (sym (
          on_server_message-split ec (s.message_room hdl) payload hdl s tag roomid split
          ∙ switch_room-moves ec q tag roomid hdl s new))
        (
          enter-IsListener ec q tag roomid hdl (moved hdl q s).0 p made fit,
          enter-moved-message_room ec q tag roomid hdl s,
        )

  -- A text message that asks for the room that the connection is bound to changes nothing and calls
  -- nothing while that room is served, whether or not the connection is among its listeners.
  pub on_server_message-ignored :
      ⦃b : Trimming⦄ (ec : ErrorCode) (hdl k : ℕ) (payload tag roomid : Bytes) (s : Server)
      → split_room (b.trim payload) ≡ some (tag, roomid)
      → s.message_room hdl ≡ b.trim payload
      → lookup (b.trim payload) s.rp_map ≡ some k
      → on_server_message ec (s.message_room hdl) hdl text payload s ≡ (s, [])
  on_server_message-ignored ⦃b⦄ ec hdl k payload tag roomid s split same served =
      on_server_message-split ec (s.message_room hdl) payload hdl s tag roomid split
      ∙ switch_room-same ec (b.trim payload) tag roomid hdl s k same served
