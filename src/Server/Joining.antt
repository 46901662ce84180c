-- ===== src/Server/Joining.antt =====
-- main.cpp: what a message that names a room does, on every branch of `on_server_message`.
use dmproxy.Base.{Bytes, ℕ, ◌≡◌, refl, ap, List, [], ◌∷◌, ◌++◌, ◌⊎◌, inl, inr, arith, Option-cases}
use dmproxy.Base.Dict.{lookup}
use dmproxy.Network.{
  ServerCall, start_platform, Messages, ErrorCode, Opcode, text, binary, other_opcode,
}
use dmproxy.Platforms.Listeners.{have_listener}
use dmproxy.Server.Room.{split_room}
use dmproxy.Server.{
  Server, Trimming, set_message_handler, leave, enter, switch_room, on_server_text,
  on_server_message,
}
use dmproxy.Server.Invariant.{IsValid, IsAbsent}
use dmproxy.Server.Invariant.Handlers.{moved, moved-IsAbsent}

-- The platforms that a list of calls starts.
abbrev pub started : List ServerCall → List ℕ
started [] = []
started (start_platform id ∷ cs) = id ∷ started cs
started (_ ∷ cs) = started cs

pub started-append : (cs ds : List ServerCall) → started (cs ++ ds) ≡ started cs ++ started ds
started-append [] ds = refl
started-append (start_platform id ∷ cs) ds = ap (◌∷◌ id) (started-append cs ds)
started-append (_ ∷ cs) ds = started-append cs ds

pub leave-started : (q : Bytes) (hdl : ℕ) (s : Server) → started (leave q hdl s).1 ≡ []
unfolding leave
leave-started q hdl s = ground arith

pub leave-next : (q : Bytes) (hdl : ℕ) (s : Server) → (leave q hdl s).0.next ≡ s.next
unfolding leave
leave-next q hdl s = ground arith

module _ ⦃m : Messages⦄ where
  -- Where the connection is a listener nowhere, only a new object is started.
  enter-started :
      (ec : ErrorCode) (q tag roomid : Bytes) (hdl : ℕ) (s : Server)
      → IsAbsent hdl s
      → (started (enter ec q tag roomid hdl s).1 ≡ [])
        ⊎ (started (enter ec q tag roomid hdl s).1 ≡ s.next ∷ [])
  unfolding enter have_listener
  enter-started ec q tag roomid hdl s absent = elim (Option-cases (lookup q s.rp_map)) [
    | inl e ↦ ground arith
    | inr (k, e) ↦ ground (arith, absent q k e)
  ]

  switch_room-started :
      (ec : ErrorCode) (q tag roomid : Bytes) (hdl : ℕ) (s : Server)
      → IsValid s
      → let calls = (switch_room ec (s.message_room hdl) q tag roomid hdl s).1 in
        (started calls ≡ []) ⊎ (started calls ≡ s.next ∷ [])
  unfolding switch_room
  switch_room-started ec q tag roomid hdl s v = ground (
    arith,
    leave-started (s.message_room hdl) hdl (set_message_handler hdl q s),
    leave-next (s.message_room hdl) hdl (set_message_handler hdl q s),
    enter-started ec q tag roomid hdl (moved hdl q s).0 (moved-IsAbsent hdl q s v),
    started-append (moved hdl q s).1 (enter ec q tag roomid hdl (moved hdl q s).0).1,
  )

  -- In a state whose served rooms are in order, a message starts no platform that is running
  -- already: it starts none, or exactly one object, with the number that was next, which is not in
  -- use before.
  pub on_server_message-started :
      ⦃b : Trimming⦄ (ec : ErrorCode) (hdl : ℕ) (op : Opcode) (payload : Bytes) (s : Server)
      → IsValid s
      → let calls = (on_server_message ec (s.message_room hdl) hdl op payload s).1 in
        (started calls ≡ []) ⊎ (started calls ≡ s.next ∷ [])
  unfolding on_server_message on_server_text
  on_server_message-started ⦃b⦄ ec hdl text payload s v =
      elim (Option-cases (split_room (b.trim payload))) [
        | inl e ↦ ground arith
        | inr ((tag, roomid), e) ↦
            ground (arith, switch_room-started ec (b.trim payload) tag roomid hdl s v)
      ]
  on_server_message-started ec hdl binary payload s v = inl refl
  on_server_message-started ec hdl other_opcode payload s v = inl refl
