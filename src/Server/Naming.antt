-- ===== src/Server/Naming.antt =====
-- main.cpp and platforms/platforms.cpp: every object bears the name of its platform.
use dmproxy.Base.{
  Bytes, ℕ, ◌<◌, ◌≤◌, ◌≡◌, refl, ◌∙◌, some, inl, inr, arith, Option-cases, [], if_both, ◌&&◌,
  bytes_eq, List,
}
use dmproxy.Base.Dict.{contains}
use dmproxy.Network.{Messages, ErrorCode, ServerCall, Opcode, text, binary, other_opcode}
use dmproxy.Platforms.{Kind, Platform, creator, platform_creator_table, platform_get_instance}
use dmproxy.Platforms.Listeners.{add_listener, erase_listener, set_close_callback}
use dmproxy.Platforms.Publish.{publish, publish_keeps}
use dmproxy.Server.Room.{split_room}
use dmproxy.Server.{
  Server, Trimming, set_message_handler, leave, start_room, create_room, enter, switch_room,
  on_server_text, on_server_message, on_server_close, on_platform_close, own_room,
}
use dmproxy.Server.Invariant.Handlers.{moved}
use dmproxy.Server.Runs.{init, Step, message, closed, gone, published, Reach, here, next}
use dmproxy.Server.Successor.{leave-own_room, on_server_message-own_room}

abbrev pub name_of : Kind → Bytes
name_of k = (creator k []).platform_name

abbrev pub IsNamed : Server → Type 0
IsNamed s = (id : ℕ) → id < s.next → (s.heap id).platform_name ≡ name_of (s.heap id).kind

platform_get_instance-name :
    (tag roomid : Bytes) (p : Platform)
    → platform_get_instance tag roomid ≡ some p
    → p.platform_name ≡ name_of p.kind
unfolding platform_get_instance platform_creator_table
platform_get_instance-name tag roomid p h = ground arith

leave-IsNamed : (r : Bytes) (h : ℕ) (s : Server) → IsNamed s → IsNamed (leave r h s).0
unfolding leave on_platform_close erase_listener
leave-IsNamed r h s v id lt = ground (arith, v id)

module _ ⦃m : Messages⦄ where
  enter-IsNamed :
      (ec : ErrorCode) (q tag roomid : Bytes) (h : ℕ) (s : Server)
      → IsNamed s
      → IsNamed (enter ec q tag roomid h s).0
  unfolding enter create_room start_room add_listener set_close_callback
  enter-IsNamed ec q tag roomid h s v id lt =
      elim (Option-cases (platform_get_instance tag roomid)) [
        | inl e ↦ ground (arith, v id)
        | inr (p, e) ↦ ground (arith, v id, platform_get_instance-name tag roomid p e)
      ]

  switch_room-IsNamed :
      (ec : ErrorCode) (q tag roomid : Bytes) (h : ℕ) (s : Server)
      → IsNamed s
      → IsNamed (switch_room ec (s.message_room h) q tag roomid h s).0
  unfolding switch_room
  switch_room-IsNamed ec q tag roomid h s v =
      if_both {A = Server × List ServerCall} (λ (x : Server × List ServerCall). IsNamed x.0)
        (bytes_eq (s.message_room h) q && contains (s.message_room h) s.rp_map) _ _ v
        (enter-IsNamed ec q tag roomid h (moved h q s).0
          (leave-IsNamed (s.message_room h) h (set_message_handler h q s) v))

  on_server_message-IsNamed :
      ⦃b : Trimming⦄ (ec : ErrorCode) (h : ℕ) (op : Opcode) (payload : Bytes) (s : Server)
      → IsNamed s
      → IsNamed (on_server_message ec (s.message_room h) h op payload s).0
  unfolding on_server_message on_server_text
  on_server_message-IsNamed ⦃b⦄ ec h text payload s v =
      elim (Option-cases (split_room (b.trim payload))) [
        | inl e ↦ rw (e, on_server_text) v
        | inr ((tag, roomid), e) ↦
            rw (e, on_server_text) (switch_room-IsNamed ec (b.trim payload) tag roomid h s v)
      ]
  on_server_message-IsNamed ec h binary payload s v = v
  on_server_message-IsNamed ec h other_opcode payload s v = v

module _ ⦃m : Messages⦄ ⦃b : Trimming⦄ where
  pub Step-IsNamed : {s t : Server} → Step s t → IsNamed s → IsNamed t
  unfolding on_platform_close on_server_close publish
  Step-IsNamed {s} (message ec hdl op payload) v = on_server_message-IsNamed ec hdl op payload s v
  Step-IsNamed {s} (closed hdl r e) v = leave-IsNamed r hdl s v
  Step-IsNamed {s} (gone k) v = v
  Step-IsNamed {s} (published ec k dm_msg) v = λ id lt. ground (arith, v id)

  -- From the start on, every object bears the name of its platform.
  pub Reach-IsNamed : {s : Server} → Reach init s → IsNamed s
  Reach-IsNamed here = λ id lt. absurd (omega (arith, lt))
  Reach-IsNamed (next r st) = Step-IsNamed st (Reach-IsNamed r)

module _ ⦃m : Messages⦄ ⦃b : Trimming⦄ where
  -- The server never renames an object that it has made.
  pub Step-own_room :
      {s t : Server} (id : ℕ)
      → Step s t
      → id < s.next
      → (own_room id t ≡ own_room id s) × (s.next ≤ t.next)
  unfolding on_platform_close on_server_close
  Step-own_room {s} id (message ec hdl op payload) lt =
      on_server_message-own_room ec hdl id op payload s lt
  Step-own_room {s} id (closed hdl r e) lt = omega_pair (leave-own_room r hdl id s)
    where
      omega_pair :
          (own_room id (on_server_close r hdl s).0 ≡ own_room id s)
            × ((on_server_close r hdl s).0.next ≡ s.next)
          → (own_room id (on_server_close r hdl s).0 ≡ own_room id s)
            × (s.next ≤ (on_server_close r hdl s).0.next)
      omega_pair (o, n) = (o, omega (arith, n))
  Step-own_room {s} id (gone k) lt = (refl, omega arith)
  Step-own_room {s} id (published ec k dm_msg) lt =
      (ground (arith, publish_keeps ec dm_msg (s.heap k)), omega arith)

  pub Reach-own_room :
      {s t : Server} (id : ℕ)
      → Reach s t
      → id < s.next
      → (own_room id t ≡ own_room id s) × (s.next ≤ t.next)
  Reach-own_room id here lt = (refl, omega arith)
  Reach-own_room id (next r st) lt =
      let (o, n) = Reach-own_room id r lt in
      let (p, q) = Step-own_room id st (omega (arith, lt, n)) in (p ∙ o, omega (arith, n, q))
