-- ===== src/Server/View/Message.antt =====
-- main.cpp: `on_server_message` does to the rooms of the connections what the message means.
use dmproxy.Base.{
  ==_iff, Bytes, ℕ, ◌≡◌, refl, sym, ◌∙◌, subst, ap, Bool, true, false, ◌&&◌, inl, inr, none, some,
  List, bytes_eq, bytes_eq_iff, if◌then◌else◌, if_both, arith, Option-cases, Bool-cases, ◌==◌,
}
use dmproxy.Base.Dict.{lookup, contains, contains-lookup}
use dmproxy.Network.{Messages, ErrorCode, Opcode, text, binary, other_opcode, ServerCall}
use dmproxy.Server.Room.{split_room}
use dmproxy.Server.{
  Server, Trimming, set_message_handler, leave, enter, switch_room, on_server_text,
  on_server_message,
}
use dmproxy.Server.Invariant.{Serves, IsValid}
use dmproxy.Server.Invariant.Handlers.{moved, set_message_handler-Serves, leave-message_room}
use dmproxy.Server.Invariant.Steps.{leave-Serves}
use dmproxy.Server.Membership.{on_server_message-ignored}
use dmproxy.Server.View.{
  room_of, admits, request, answered, IsAdmitted, IsHeard, leave-IsAdmitted, leave-room_of,
  enter-IsAdmitted, enter-room_of, enter-room_of_self,
}

if_self {ℓ} : {A : Type ℓ} (b : Bool) (x : A) → (if b then x else x) ≡ x
if_self true x = refl
if_self false x = refl

module _ ⦃m : Messages⦄ (ec : ErrorCode) (q tag roomid : Bytes) (hdl : ℕ) (s : Server)
    (split : split_room q ≡ some (tag, roomid)) where
  switch_room-IsAdmitted :
      IsAdmitted s → IsAdmitted (switch_room ec (s.message_room hdl) q tag roomid hdl s).0
  unfolding switch_room
  switch_room-IsAdmitted a =
      if_both {A = Server × List ServerCall} (λ (x : Server × List ServerCall). IsAdmitted x.0)
        (bytes_eq (s.message_room hdl) q && contains (s.message_room hdl) s.rp_map) _ _ a
        (enter-IsAdmitted ec q tag roomid hdl (moved hdl q s).0 split
          (leave-IsAdmitted (s.message_room hdl) hdl (set_message_handler hdl q s) a))

  -- Where the connection leaves its room and enters `q`.
  moves-room_of :
      (j : ℕ)
      → IsValid s
      → IsAdmitted s
      → room_of (enter ec q tag roomid hdl (moved hdl q s).0).0 j
        ≡ (if hdl == j then (if admits tag roomid then some q else none) else room_of s j)
  moves-room_of j v a = elim (Bool-cases (hdl == j)) [
    | inl same ↦
        let e = (==_iff hdl j).0 same in
        rw same (
          subst
            (λ i.
              room_of (enter ec q tag roomid hdl l).0 i
              ≡ (if admits tag roomid then some q else none))
            e (enter-room_of_self ec q tag roomid hdl l bound (leave-IsAdmitted old hdl t a) split))
    | inr other ↦
        let ne = λ (e : hdl ≡ j). ff (sym other ∙ (==_iff hdl j).1 e) in
        rw other (
          enter-room_of ec q tag roomid hdl l j (leave-Serves u old hdl) ne
          ∙ leave-room_of old hdl j t ne
          ∙ rebound other)
  ]
    where
      old : Bytes
      old = s.message_room hdl

      t : Server
      t = set_message_handler hdl q s

      l : Server
      l = (leave old hdl t).0

      u : Serves s.message_room t
      u = set_message_handler-Serves hdl q v

      ff : false ≡ true → ⊥
      ff e = cc

      bound : l.message_room hdl ≡ q
      bound = ap (λ f. f hdl) (leave-message_room old hdl t) ∙ (ground arith)

      rebound : (hdl == j) ≡ false → room_of t j ≡ room_of s j
      rebound other = ground arith

  switch_room-room_of :
      (j : ℕ)
      → IsValid s
      → IsAdmitted s
      → IsHeard hdl q s
      → room_of (switch_room ec (s.message_room hdl) q tag roomid hdl s).0 j
        ≡ (if hdl == j then (if admits tag roomid then some q else none) else room_of s j)
  unfolding switch_room
  switch_room-room_of j v a now = elim (Bool-cases (bytes_eq old q && contains old s.rp_map)) [
    | inl same ↦ rw same (stays same)
    | inr new ↦ rw new (moves-room_of j v a)
  ]
    where
      old : Bytes
      old = s.message_room hdl

      stays :
          (bytes_eq old q && contains old s.rp_map) ≡ true
          → room_of s j
            ≡ (if hdl == j then (if admits tag roomid then some q else none) else room_of s j)
      stays same = elim (Option-cases (lookup old s.rp_map)) [
        | inl e ↦ ground (arith, contains-lookup old s.rp_map)
        | inr (k, e) ↦ ground (arith, now k e, a old k e, bytes_eq_iff old q)
      ]

module _ ⦃m : Messages⦄ ⦃b : Trimming⦄ (ec : ErrorCode) (hdl : ℕ) where
  -- A request for the room that the sender is bound to, and that is served, does nothing.
  pub on_server_message-unmoved :
      (op : Opcode) (payload : Bytes) (s : Server) (k : ℕ)
      → lookup (s.message_room hdl) s.rp_map ≡ some k
      → s.message_room hdl ≡ b.trim payload
      → (on_server_message ec (s.message_room hdl) hdl op payload s).0 ≡ s
  unfolding on_server_message on_server_text
  on_server_message-unmoved text payload s k e same =
      elim (Option-cases (split_room (b.trim payload))) [
        | inl bad ↦ rw (bad, on_server_text)
        | inr ((tag, roomid), split) ↦
            ap (λ (x : Server × List ServerCall). x.0)
              (on_server_message-ignored ec hdl k payload tag roomid s split same
                (ap (λ q. lookup q s.rp_map) (sym same) ∙ e))
      ]
  on_server_message-unmoved binary payload s k e same = refl
  on_server_message-unmoved other_opcode payload s k e same = refl

  -- A message leaves only rooms served that can be made.
  pub on_server_message-IsAdmitted :
      (op : Opcode) (payload : Bytes) (s : Server)
      → IsAdmitted s
      → IsAdmitted (on_server_message ec (s.message_room hdl) hdl op payload s).0
  unfolding on_server_message on_server_text
  on_server_message-IsAdmitted text payload s a =
      elim (Option-cases (split_room (b.trim payload))) [
        | inl e ↦ rw (e, on_server_text) a
        | inr ((tag, roomid), e) ↦
            rw (e, on_server_text) (switch_room-IsAdmitted ec (b.trim payload) tag roomid hdl s e a)
      ]
  on_server_message-IsAdmitted binary payload s a = a
  on_server_message-IsAdmitted other_opcode payload s a = a

  -- In a state whose served rooms are in order and can all be made, and if the sender is a listener
  -- of the room that it asks for where it is bound to that room and the room is served, a message
  -- does to the rooms of the connections what its text says. A request for a room that can be made
  -- makes that the room of the sender, one for a room that cannot be made leaves the sender without
  -- a room, anything else changes nothing, and no other connection has another room than before.
  pub room_of-on_server_message :
      (j : ℕ) (op : Opcode) (payload : Bytes) (s : Server)
      → IsValid s
      → IsAdmitted s
      → IsHeard hdl (b.trim payload) s
      → room_of (on_server_message ec (s.message_room hdl) hdl op payload s).0 j
        ≡ (if hdl == j then answered (request op payload) (room_of s j) else room_of s j)
  unfolding on_server_message on_server_text
  room_of-on_server_message j text payload s v a now =
      elim (Option-cases (split_room (b.trim payload))) [
        | inl e ↦ ground arith
        | inr ((tag, roomid), e) ↦
            ground (arith, switch_room-room_of ec (b.trim payload) tag roomid hdl s e j v a now)
      ]
  room_of-on_server_message j binary payload s v a now = sym (if_self (hdl == j) (room_of s j))
  room_of-on_server_message j other_opcode payload s v a now =
      sym (if_self (hdl == j) (room_of s j))
