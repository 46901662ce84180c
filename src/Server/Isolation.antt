-- ===== src/Server/Isolation.antt =====
-- main.cpp: what a message on one connection means to the others.
use dmproxy.Base.{
  if_both, List, ◌&&◌, bytes_eq, Bytes, ℕ, ◌≢◌, inl, inr, bytes_eq_iff, arith, Option-cases,
}
use dmproxy.Base.Dict.{contains, lookup, lookup-erase, lookup-assign}
use dmproxy.Network.{ServerCall, Messages, ErrorCode, Opcode, text, binary, other_opcode}
use dmproxy.Platforms.Listeners.{
  add_listener, erase_listener, listeners_count, set_close_callback, has-insert, has-erase, has-nil,
  erase,
}
use dmproxy.Server.Room.{split_room}
use dmproxy.Server.{
  Server, Trimming, on_platform_close, leave, start_room, create_room, enter, switch_room,
  on_server_text, on_server_message,
}
use dmproxy.Server.Invariant.{Serves, IsValid}
use dmproxy.Server.Invariant.Handlers.{set_message_handler-Serves}
use dmproxy.Server.Invariant.Steps.{leave-Serves}
use dmproxy.Server.Membership.{IsListener}

leave-others :
    {bind : ℕ → Bytes} {s : Server} (r q : Bytes) (h j : ℕ)
    → Serves bind s
    → h ≢ j
    → IsListener j q s
    → IsListener j q (leave r h s).0
unfolding leave on_platform_close erase_listener listeners_count
leave-others {s = s} r q h j v ne (k, at, l) = elim (Option-cases (lookup r s.rp_map)) [
  | inl e ↦ rw (e, leave) (k, at, l)
  | inr (i, e) ↦ (
    k,
    ground (
      arith,
      lookup-erase q r s.rp_map,
      bytes_eq_iff r q,
      has-erase h j (s.heap k).listeners,
      has-nil j (erase h (s.heap i).listeners),
    ),
    ground (arith, has-erase h j (s.heap k).listeners),
  )
]

module _ ⦃m : Messages⦄ where
  enter-others :
      {bind : ℕ → Bytes} {s : Server} (ec : ErrorCode) (q tag roomid r : Bytes) (hdl j : ℕ)
      → Serves bind s
      → IsListener j r s
      → IsListener j r (enter ec q tag roomid hdl s).0
  unfolding enter create_room start_room add_listener set_close_callback
  enter-others {s = s} ec q tag roomid r hdl j v (k, at, l) =
      elim (Option-cases (lookup q s.rp_map)) [
        | inl e ↦ (
          k,
          ground (arith, lookup-assign r q s.next s.rp_map, bytes_eq_iff q r),
          ground (arith, v.used r k at),
        )
        | inr (i, e) ↦ (
          k,
          ground (arith, lookup-assign r q i s.rp_map, bytes_eq_iff q r),
          ground (arith, has-insert hdl j (s.heap k).listeners),
        )
      ]

  switch_room-others :
      (ec : ErrorCode) (q tag roomid r : Bytes) (hdl j : ℕ) (s : Server)
      → IsValid s
      → hdl ≢ j
      → IsListener j r s
      → IsListener j r (switch_room ec (s.message_room hdl) q tag roomid hdl s).0
  unfolding switch_room
  switch_room-others ec q tag roomid r hdl j s v ne l =
      let old = s.message_room hdl in
      let u = set_message_handler-Serves hdl q v in
      if_both {A = Server × List ServerCall} (λ (x : Server × List ServerCall). IsListener j r x.0)
        (bytes_eq old q && contains old s.rp_map) _ _ l
        (enter-others ec q tag roomid r hdl j (leave-Serves u old hdl)
          (leave-others old r hdl j u ne l))

  -- In a state whose served rooms are in order, a message on one connection, handled for the room
  -- that this connection is bound to, leaves any other connection a listener of the room that it
  -- listens to: whatever the frame type and text, and whether that room is joined, left, or
  -- neither.
  on_server_message-others :
      ⦃b : Trimming⦄ (ec : ErrorCode) (hdl j : ℕ) (op : Opcode) (payload r : Bytes) (s : Server)
      → IsValid s
      → hdl ≢ j
      → IsListener j r s
      → IsListener j r (on_server_message ec (s.message_room hdl) hdl op payload s).0
  unfolding on_server_message on_server_text
  on_server_message-others ⦃b⦄ ec hdl j text payload r s v ne l =
      elim (Option-cases (split_room (b.trim payload))) [
        | inl e ↦ rw (e, on_server_text) l
        | inr ((tag, roomid), e) ↦
            rw (e, on_server_text)
              (switch_room-others ec (b.trim payload) tag roomid r hdl j s v ne l)
      ]
  on_server_message-others ec hdl j binary payload r s v ne l = l
  on_server_message-others ec hdl j other_opcode payload r s v ne l = l
