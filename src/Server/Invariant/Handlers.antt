-- ===== src/Server/Invariant/Handlers.antt =====
-- main.cpp: `on_server_message` as a whole keeps the invariant of the served rooms.
use dmproxy.Base.{
  Bytes, codes, ℕ, ◌≡◌, refl, sym, ◌∙◌, subst, List, append_assoc, ◌&&◌, inl, inr, bytes_eq,
  if_both, arith, Option-cases,
}
use dmproxy.Base.Dict.{lookup, contains}
use dmproxy.Network.{
  room_string, ServerCall, Messages, ErrorCode, Opcode, text, binary, other_opcode,
}
use dmproxy.Platforms.{platform_get_instance, is_room_valid}
use dmproxy.Platforms.Registry.{platform_get_instance_fields}
use dmproxy.Platforms.Listeners.{have_listener, has-nil}
use dmproxy.Server.Room.{split_room, split_room_sound}
use dmproxy.Server.{
  Server, Trimming, set_message_handler, leave, create_room, enter, switch_room, on_server_text,
  on_server_message, on_server_close,
}
use dmproxy.Server.Invariant.{Serves, IsValid, IsAbsent, lookup_injective, bind-Serves}
use dmproxy.Server.Invariant.Steps.{
  leave-Serves, leave-IsAbsent, add_listener-Serves, allocate-Serves, start_room-Serves,
}

-- `Serves` does not read the handlers of the connections.
pub set_message_handler-Serves :
    {bind : ℕ → Bytes} {s : Server} (hdl : ℕ) (q : Bytes)
    → Serves bind s
    → Serves bind (set_message_handler hdl q s)
set_message_handler-Serves hdl q v = record {
  bound = v.bound;
  named = v.named;
  called = v.called;
  used = v.used;
}

-- `on_server_message` rebinds the connection and makes it leave the room it was bound to.
abbrev pub moved : ℕ → Bytes → Server → Server × List ServerCall
moved hdl q s = leave (s.message_room hdl) hdl (set_message_handler hdl q s)

pub moved-IsAbsent : (hdl : ℕ) (q : Bytes) (s : Server) → IsValid s → IsAbsent hdl (moved hdl q s).0
moved-IsAbsent hdl q s v =
    leave-IsAbsent (set_message_handler-Serves hdl q v) (s.message_room hdl) hdl refl

module _ ⦃m : Messages⦄ {bind : ℕ → Bytes} {s : Server} (v : Serves bind s) where
  create_room-Serves :
      (ec : ErrorCode) (q tag roomid : Bytes) (hdl : ℕ)
      → bind hdl ≡ q
      → room_string tag roomid ≡ q
      → Serves bind (create_room ec q tag roomid hdl s).0
  unfolding create_room
  create_room-Serves ec q tag roomid hdl bq name =
      elim (Option-cases (platform_get_instance tag roomid)) [
        | inl e ↦ rw (e, create_room) v
        | inr (p, e) ↦
            let (ptag, proomid, nobody, _) = platform_get_instance_fields tag roomid p e in
            rw (e, create_room)
              (if_both {A = Server × List ServerCall} (λ r. Serves bind r.0)
                (is_room_valid p.kind p.roomid) _ _
                (start_room-Serves (allocate-Serves v p) q hdl s.next bq (omega arith)
                  (ground arith) (λ h l. ground (arith, has-nil h p.listeners))
                  (λ r at. absurd (omega (arith, v.used r s.next at))))
                v)
      ]

  enter-Serves :
      (ec : ErrorCode) (q tag roomid : Bytes) (hdl : ℕ)
      → bind hdl ≡ q
      → room_string tag roomid ≡ q
      → Serves bind (enter ec q tag roomid hdl s).0
  unfolding enter
  enter-Serves ec q tag roomid hdl bq name = elim (Option-cases (lookup q s.rp_map)) [
    | inl e ↦ rw (e, enter) (create_room-Serves ec q tag roomid hdl bq name)
    | inr (k, e) ↦
        rw (e, enter)
          (if_both {A = Server × List ServerCall} (λ r. Serves bind r.0)
            (have_listener hdl (s.heap k)) _ _
            (start_room-Serves v q hdl k bq (v.used q k e) (v.named q k e) (λ h. v.bound q k h e)
              (λ r at. lookup_injective v r q k at e))
            (add_listener-Serves v q k hdl e bq))
  ]

-- The handlers of the connections change only by `set_message_handler`.
pub leave-message_room :
    (q : Bytes) (hdl : ℕ) (s : Server) → (leave q hdl s).0.message_room ≡ s.message_room
unfolding leave
leave-message_room q hdl s = ground arith

module _ ⦃m : Messages⦄ where
  pub enter-message_room :
      (ec : ErrorCode) (q tag roomid : Bytes) (hdl : ℕ) (s : Server)
      → (enter ec q tag roomid hdl s).0.message_room ≡ s.message_room
  unfolding enter
  enter-message_room ec q tag roomid hdl s = ground arith

  switch_room-IsValid :
      (ec : ErrorCode) (q tag roomid : Bytes) (hdl : ℕ) (s : Server)
      → IsValid s
      → room_string tag roomid ≡ q
      → IsValid (switch_room ec (s.message_room hdl) q tag roomid hdl s).0
  unfolding switch_room
  switch_room-IsValid ec q tag roomid hdl s v name =
      if_both {A = Server × List ServerCall} (λ r. IsValid r.0)
        (bytes_eq old q && contains old s.rp_map) _ _ v
        (subst (λ f. Serves f r)
          (sym (enter-message_room ec q tag roomid hdl l ∙ leave-message_room old hdl t))
          (enter-Serves w ec q tag roomid hdl (ground arith) name))
    where
      old : Bytes
      old = s.message_room hdl

      t : Server
      t = set_message_handler hdl q s

      l : Server
      l = (leave old hdl t).0

      r : Server
      r = (enter ec q tag roomid hdl l).0

      u : Serves s.message_room t
      u = set_message_handler-Serves hdl q v

      w : Serves t.message_room l
      w = bind-Serves s.message_room hdl q (leave-Serves u old hdl) (leave-IsAbsent u old hdl refl)

  on_server_text-IsValid :
      ⦃b : Trimming⦄ (ec : ErrorCode) (hdl : ℕ) (payload : Bytes) (s : Server)
      → IsValid s
      → IsValid (on_server_text ec (s.message_room hdl) hdl payload s).0
  unfolding on_server_text
  on_server_text-IsValid ⦃b⦄ ec hdl payload s v =
      elim (Option-cases (split_room (b.trim payload))) [
        | inl e ↦ rw (e, on_server_text) v
        | inr ((tag, roomid), e) ↦
            rw (e, on_server_text)
              (switch_room-IsValid ec (b.trim payload) tag roomid hdl s v (
                append_assoc tag (codes "_") roomid
                ∙ sym (split_room_sound (b.trim payload) tag roomid e).0))
      ]

  -- In a state whose served rooms are in order, a message on a connection, handled for the room
  -- that the connection is bound to, leaves them in order: whatever its frame type and text, and
  -- whether or not the reply could be sent.
  pub on_server_message-IsValid :
      ⦃b : Trimming⦄ (ec : ErrorCode) (hdl : ℕ) (op : Opcode) (payload : Bytes) (s : Server)
      → IsValid s
      → IsValid (on_server_message ec (s.message_room hdl) hdl op payload s).0
  unfolding on_server_message
  on_server_message-IsValid ec hdl text payload s v = on_server_text-IsValid ec hdl payload s v
  on_server_message-IsValid ec hdl binary payload s v = v
  on_server_message-IsValid ec hdl other_opcode payload s v = v

-- In a state whose served rooms are in order, a connection that closes leaves them in order,
-- whatever room its close handler is bound to.
pub on_server_close-IsValid :
    (q : Bytes) (hdl : ℕ) (s : Server) → IsValid s → IsValid (on_server_close q hdl s).0
unfolding on_server_close
on_server_close-IsValid q hdl s v =
    subst (λ f. Serves f (leave q hdl s).0) (sym (leave-message_room q hdl s))
      (leave-Serves v q hdl)
