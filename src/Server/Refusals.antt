-- ===== src/Server/Refusals.antt =====
-- main.cpp: what a request that cannot be met leaves behind.
use dmproxy.Base.{
  Bytes, codes, ℕ, ◌≡◌, ◌≢◌, refl, sym, ◌∙◌, ap, subst, List, [], ◌∷◌, ◌++◌, inr, Option, none,
  some, if◌then◌else◌, arith,
}
use dmproxy.Base.Dict.{lookup, lookup-erase}
use dmproxy.Network.{
  ServerCall, send, close_connection, start_platform, close_platform, Messages, ErrorCode, text,
}
use dmproxy.Platforms.{platform_get_instance, is_room_valid}
use dmproxy.Platforms.Publish.{sent}
use dmproxy.Server.Room.{split_room}
use dmproxy.Server.{
  Server, Trimming, set_message_handler, on_platform_close, leave, then_calls, create_room,
  on_server_message, reply,
}
use dmproxy.Server.Branches.{enter-create, switch_room-moves, on_server_message-split}
use dmproxy.Server.Invariant.{IsValid, IsAbsent}
use dmproxy.Server.Invariant.Handlers.{moved, moved-IsAbsent, leave-message_room}
use dmproxy.Server.Leaks.{leave-lookup}

-- Why a room of the tag cannot be made, as the client is told.
abbrev pub refusal : Bytes → Bytes → Option Bytes
refusal tag roomid = elim (platform_get_instance tag roomid) [
  | none ↦ some (codes "platform " ++ tag ++ codes " is not valid!")
  | some p ↦ if is_room_valid p.kind p.roomid then none else some (codes "roomid invalid!")
]

sent-append : (cs ds : List ServerCall) → sent (cs ++ ds) ≡ sent cs ++ sent ds
sent-append [] ds = refl
sent-append (send h x ∷ cs) ds = ap (◌∷◌ (h, x)) (sent-append cs ds)
sent-append (close_connection _ _ ∷ cs) ds = sent-append cs ds
sent-append (start_platform _ ∷ cs) ds = sent-append cs ds
sent-append (close_platform _ ∷ cs) ds = sent-append cs ds

leave-sent : (r : Bytes) (h : ℕ) (s : Server) → sent (leave r h s).1 ≡ []
unfolding leave
leave-sent r h s = ground arith

leave-lookup-none :
    (r q : Bytes) (h : ℕ) (s : Server)
    → lookup q s.rp_map ≡ none
    → lookup q (leave r h s).0.rp_map ≡ none
unfolding leave on_platform_close
leave-lookup-none r q h s e = ground (arith, lookup-erase q r s.rp_map)

module _ ⦃m : Messages⦄ where
  reply-sent :
      (ec : ErrorCode) (hdl : ℕ) (answer : Bytes) → sent (reply ec hdl answer) ≡ (hdl, answer) ∷ []
  reply-sent none hdl answer = refl
  reply-sent (some e) hdl answer = refl

  create_room-refused :
      (ec : ErrorCode) (q tag roomid answer : Bytes) (hdl : ℕ) (s : Server)
      → refusal tag roomid ≡ some answer
      → create_room ec q tag roomid hdl s ≡ (s, reply ec hdl answer)
  unfolding create_room
  create_room-refused ec q tag roomid answer hdl s no_room = ground arith

  -- In a state whose served rooms are in order, a text message that asks for a room which is not
  -- served and cannot be made, since there is no such platform or the room id is not valid, gets
  -- one answer, which says why. The connection is then bound to the refused room and a listener of
  -- none, so that it has lost the room that it had; any room `r` other than that is served as
  -- before.
  pub on_server_message-refused :
      ⦃b : Trimming⦄ (ec : ErrorCode) (hdl : ℕ) (payload tag roomid answer r : Bytes) (s : Server)
      → IsValid s
      → s.message_room hdl ≢ r
      → split_room (b.trim payload) ≡ some (tag, roomid)
      → refusal tag roomid ≡ some answer
      → lookup (b.trim payload) s.rp_map ≡ none
      → let (t, calls) = on_server_message ec (s.message_room hdl) hdl text payload s in
        (sent calls ≡ (hdl, answer) ∷ [])
        × IsAbsent hdl t
        × (t.message_room hdl ≡ b.trim payload)
        × (lookup r t.rp_map ≡ lookup r s.rp_map)
  on_server_message-refused ⦃b⦄ ec hdl payload tag roomid answer r s v other split no_room
        unserved =
      let q = b.trim payload in
      let old = s.message_room hdl in
      let l = (moved hdl q s).0 in
      let nowhere : lookup q l.rp_map ≡ none =
        leave-lookup-none old q hdl (set_message_handler hdl q s) unserved in
      subst
        (λ (u : Server × List ServerCall).
          (sent u.1 ≡ (hdl, answer) ∷ [])
          × IsAbsent hdl u.0
          × (u.0.message_room hdl ≡ q)
          × (lookup r u.0.rp_map ≡ lookup r s.rp_map))
        (sym (
          on_server_message-split ec old payload hdl s tag roomid split
          ∙ switch_room-moves ec q tag roomid hdl s (inr unserved)
          ∙ ap (then_calls (moved hdl q s).1) (
              enter-create ec q tag roomid hdl l nowhere
              ∙ create_room-refused ec q tag roomid answer hdl l no_room)))
        (
          sent-append (moved hdl q s).1 (reply ec hdl answer)
              ∙ rw (leave-sent old hdl (set_message_handler hdl q s)) (reply-sent ec hdl answer),
          moved-IsAbsent hdl q s v,
          ap (λ f. f hdl) (leave-message_room old hdl (set_message_handler hdl q s))
              ∙ (ground arith),
          leave-lookup old r hdl (set_message_handler hdl q s) other,
        )
