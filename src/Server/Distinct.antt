-- ===== src/Server/Distinct.antt =====
-- main.cpp and platforms/platform_base.cpp: no connection stands twice among the listeners of an
-- object.
use dmproxy.Base.{
  Bytes, ℕ, ◌≡◌, sym, subst, inl, inr, arith, Option-cases, [], if_both, ◌&&◌, bytes_eq, List,
}
use dmproxy.Base.Dict.{contains, lookup}
use dmproxy.Network.{Messages, ErrorCode, ServerCall, Opcode, text, binary, other_opcode}
use dmproxy.Platforms.{Platform, platform_get_instance, is_room_valid}
use dmproxy.Platforms.Distinct.{
  IsDistinct, times, insert-IsDistinct, erase-IsDistinct, kept-IsDistinct,
}
use dmproxy.Platforms.Listeners.{add_listener, have_listener, erase_listener, set_close_callback}
use dmproxy.Platforms.Publish.{publish, listeners-publish}
use dmproxy.Platforms.Registry.{platform_get_instance_fields}
use dmproxy.Server.Room.{split_room}
use dmproxy.Server.{
  Server, Trimming, set_message_handler, modify_platform, allocate, leave, start_room, create_room,
  enter, switch_room, on_server_text, on_server_message, on_server_close, on_platform_close,
}
use dmproxy.Server.Invariant.Handlers.{moved}
use dmproxy.Server.Runs.{init, Step, message, closed, gone, published, Reach, here, next}

abbrev pub HasSets : Server → Type 0
HasSets s = (id : ℕ) → IsDistinct (s.heap id).listeners

modify_platform-HasSets :
    (k : ℕ) (f : Platform → Platform) (s : Server)
    → (IsDistinct (s.heap k).listeners → IsDistinct (f (s.heap k)).listeners)
    → HasSets s
    → HasSets (modify_platform k f s)
modify_platform-HasSets k f s keeps v id h = ground (arith, keeps (v k) h, v id h)

leave-HasSets : (r : Bytes) (h : ℕ) (s : Server) → HasSets s → HasSets (leave r h s).0
unfolding leave on_platform_close erase_listener
leave-HasSets r h s v = elim (Option-cases (lookup r s.rp_map)) [
  | inl e ↦ rw (e, leave) v
  | inr (k, e) ↦
      let w = modify_platform-HasSets k (erase_listener h) s (erase-IsDistinct h _) v in
      λ id i. ground (arith, w id i)
]

start_room-HasSets : (r : Bytes) (h k : ℕ) (s : Server) → HasSets s → HasSets (start_room r h k s).0
unfolding start_room add_listener set_close_callback
start_room-HasSets r h k s v =
    let w = modify_platform-HasSets k (add_listener h) s (insert-IsDistinct h _) v in
    λ id i. ground (arith, w id i)

allocate-HasSets :
    (p : Platform) (s : Server) → p.listeners ≡ [] → HasSets s → HasSets (allocate p s)
unfolding times
allocate-HasSets p s e v id h = ground (arith, v id h, e)

module _ ⦃m : Messages⦄ where
  create_room-HasSets :
      (ec : ErrorCode) (q tag roomid : Bytes) (h : ℕ) (s : Server)
      → HasSets s
      → HasSets (create_room ec q tag roomid h s).0
  unfolding create_room
  create_room-HasSets ec q tag roomid h s v =
      elim (Option-cases (platform_get_instance tag roomid)) [
        | inl e ↦ rw (e, create_room) v
        | inr (p, e) ↦
            rw (e, create_room)
              (if_both {A = Server × List ServerCall}
                (λ (x : Server × List ServerCall). HasSets x.0) (is_room_valid p.kind p.roomid) _ _
                (start_room-HasSets q h s.next (allocate p s)
                  (allocate-HasSets p s (platform_get_instance_fields tag roomid p e).2 v))
                v)
      ]

  enter-HasSets :
      (ec : ErrorCode) (q tag roomid : Bytes) (h : ℕ) (s : Server)
      → HasSets s
      → HasSets (enter ec q tag roomid h s).0
  unfolding enter add_listener
  enter-HasSets ec q tag roomid h s v = elim (Option-cases (lookup q s.rp_map)) [
    | inl e ↦ rw (e, enter) (create_room-HasSets ec q tag roomid h s v)
    | inr (k, e) ↦
        rw (e, enter)
          (if_both {A = Server × List ServerCall} (λ (x : Server × List ServerCall). HasSets x.0)
            (have_listener h (s.heap k)) _ _ (start_room-HasSets q h k s v)
            (modify_platform-HasSets k (add_listener h) s (insert-IsDistinct h _) v))
  ]

  switch_room-HasSets :
      (ec : ErrorCode) (q tag roomid : Bytes) (h : ℕ) (s : Server)
      → HasSets s
      → HasSets (switch_room ec (s.message_room h) q tag roomid h s).0
  unfolding switch_room
  switch_room-HasSets ec q tag roomid h s v =
      if_both {A = Server × List ServerCall} (λ (x : Server × List ServerCall). HasSets x.0)
        (bytes_eq (s.message_room h) q && contains (s.message_room h) s.rp_map) _ _ v
        (enter-HasSets ec q tag roomid h (moved h q s).0
          (leave-HasSets (s.message_room h) h (set_message_handler h q s) v))

  on_server_message-HasSets :
      ⦃b : Trimming⦄ (ec : ErrorCode) (h : ℕ) (op : Opcode) (payload : Bytes) (s : Server)
      → HasSets s
      → HasSets (on_server_message ec (s.message_room h) h op payload s).0
  unfolding on_server_message on_server_text
  on_server_message-HasSets ⦃b⦄ ec h text payload s v =
      elim (Option-cases (split_room (b.trim payload))) [
        | inl e ↦ rw (e, on_server_text) v
        | inr ((tag, roomid), e) ↦
            rw (e, on_server_text) (switch_room-HasSets ec (b.trim payload) tag roomid h s v)
      ]
  on_server_message-HasSets ec h binary payload s v = v
  on_server_message-HasSets ec h other_opcode payload s v = v

  Step-HasSets : ⦃b : Trimming⦄ {s t : Server} → Step s t → HasSets s → HasSets t
  unfolding on_platform_close on_server_close
  Step-HasSets {s} (message ec hdl op payload) v = on_server_message-HasSets ec hdl op payload s v
  Step-HasSets {s} (closed hdl r e) v = leave-HasSets r hdl s v
  Step-HasSets {s} (gone k) v = v
  Step-HasSets {s} (published ec k dm_msg) v =
      modify_platform-HasSets k (λ p. (publish ec dm_msg p).0) s
        (λ d.
          subst IsDistinct (sym (listeners-publish ec dm_msg (s.heap k)))
            (kept-IsDistinct ec (s.heap k).listeners d))
        v

  -- From the start on, no connection stands twice among the listeners of an object.
  pub Reach-HasSets : ⦃b : Trimming⦄ {s : Server} → Reach init s → HasSets s
  unfolding times
  Reach-HasSets here = λ id h. omega arith
  Reach-HasSets (next r st) = Step-HasSets st (Reach-HasSets r)
