-- ===== src/Server/Successor.antt =====
-- main.cpp: the close callback of an object whose room has been given to another object.
use dmproxy.Base.{
  Bytes, ℕ, ◌<◌, ◌≡◌, refl, ◌∙◌, inl, inr, none, some, true, bytes_eq_iff, arith, Option-cases,
  length, ◌≤◌,
}
use dmproxy.Base.Dict.{lookup, lookup-erase}
use dmproxy.Network.{Messages, ErrorCode, Opcode, text, binary, other_opcode}
use dmproxy.Platforms.{Platform, platform_get_instance, is_room_valid}
use dmproxy.Platforms.Listeners.{
  add_listener, erase_listener, erase, listeners_count, set_close_callback,
}
use dmproxy.Server.Room.{split_room}
use dmproxy.Server.{
  Server, Trimming, own_room, set_message_handler, leave, start_room, create_room, enter,
  switch_room, on_server_text, on_server_message, on_server_close, on_platform_close,
}
use dmproxy.Server.Invariant.{IsValid}
use dmproxy.Server.Invariant.Handlers.{moved}
use dmproxy.Server.Membership.{IsListener, on_server_message-IsListener}

pub leave-own_room :
    (r : Bytes) (h k : ℕ) (s : Server)
    → (own_room k (leave r h s).0 ≡ own_room k s) × ((leave r h s).0.next ≡ s.next)
unfolding leave on_platform_close erase_listener
leave-own_room r h k s = ground arith

closed_lem :
    (r : Bytes) (h k : ℕ) (s : Server)
    → lookup r s.rp_map ≡ some k
    → length (erase h (s.heap k).listeners) ≡ 0
    → (lookup r (on_server_close r h s).0.rp_map ≡ none)
      × (own_room k (on_server_close r h s).0 ≡ own_room k s)
      × ((on_server_close r h s).0.next ≡ s.next)
unfolding on_server_close leave on_platform_close erase_listener listeners_count
closed_lem r h k s e last = ground (arith, lookup-erase r r s.rp_map, bytes_eq_iff r r)

ended_lem : (q r : Bytes) (s : Server) → r ≡ q → lookup q (on_platform_close r s).rp_map ≡ none
unfolding on_platform_close
ended_lem q r s e = ground (arith, lookup-erase q r s.rp_map, bytes_eq_iff r q)

module _ ⦃m : Messages⦄ where
  -- Objects are made, and never renamed.
  enter-own_room :
      (ec : ErrorCode) (q tag roomid : Bytes) (h k : ℕ) (s : Server)
      → k < s.next
      → let t = (enter ec q tag roomid h s).0 in (own_room k t ≡ own_room k s) × (s.next ≤ t.next)
  unfolding enter create_room start_room add_listener set_close_callback
  enter-own_room ec q tag roomid h k s lt = ground arith

  switch_room-own_room :
      (ec : ErrorCode) (q tag roomid : Bytes) (h k : ℕ) (s : Server)
      → k < s.next
      → let t = (switch_room ec (s.message_room h) q tag roomid h s).0 in
        (own_room k t ≡ own_room k s) × (s.next ≤ t.next)
  unfolding switch_room
  switch_room-own_room ec q tag roomid h k s lt = ground (
    arith,
    leave-own_room (s.message_room h) h k (set_message_handler h q s),
    enter-own_room ec q tag roomid h k (moved h q s).0,
  )

  module _ ⦃b : Trimming⦄ where
    pub on_server_message-own_room :
        (ec : ErrorCode) (h k : ℕ) (op : Opcode) (payload : Bytes) (s : Server)
        → k < s.next
        → let t = (on_server_message ec (s.message_room h) h op payload s).0 in
          (own_room k t ≡ own_room k s) × (s.next ≤ t.next)
    unfolding on_server_message on_server_text
    on_server_message-own_room ec h k text payload s lt =
        elim (Option-cases (split_room (b.trim payload))) [
          | inl e ↦ rw (e, on_server_text) (refl, omega arith)
          | inr ((tag, roomid), e) ↦
              rw (e, on_server_text) (switch_room-own_room ec (b.trim payload) tag roomid h k s lt)
        ]
    on_server_message-own_room ec h k binary payload s lt = (refl, omega arith)
    on_server_message-own_room ec h k other_opcode payload s lt = (refl, omega arith)

    -- In a state whose served rooms are in order, let the last listener of a served room close its
    -- connection, and another connection ask for the room, whose platform and room number are
    -- valid. That connection is then a listener of the room; but if the object that was closed
    -- calls its close callback now, the room is forgotten.
    pub on_platform_close-successor :
        (ec : ErrorCode) (h j k : ℕ) (payload tag roomid : Bytes) (s : Server) (p : Platform)
        → IsValid s
        → split_room (b.trim payload) ≡ some (tag, roomid)
        → platform_get_instance tag roomid ≡ some p
        → is_room_valid p.kind p.roomid ≡ true
        → lookup (b.trim payload) s.rp_map ≡ some k
        → length (erase h (s.heap k).listeners) ≡ 0
        → let t = (on_server_close (b.trim payload) h s).0 in
          let u = (on_server_message ec (t.message_room j) j text payload t).0 in
          let w = on_platform_close (own_room k u) u in
          IsListener j (b.trim payload) u × (lookup (b.trim payload) w.rp_map ≡ none)
    on_platform_close-successor ec h j k payload tag roomid s p v split made fit served last = (
      (on_server_message-IsListener ec j payload tag roomid t p split made fit (inr closed.0)).0,
      ended_lem q _ _ (
          (on_server_message-own_room ec j k text payload t
            (omega (arith, v.used q k served, closed.2))).0
          ∙ closed.1
          ∙ v.named q k served),
    )
      where
        q : Bytes
        q = b.trim payload

        t : Server
        t = (on_server_close q h s).0

        closed : (lookup q t.rp_map ≡ none) × (own_room k t ≡ own_room k s) × (t.next ≡ s.next)
        closed = closed_lem q h k s served last
