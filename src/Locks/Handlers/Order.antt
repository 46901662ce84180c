-- ===== src/Locks/Handlers/Order.antt =====
-- main.cpp: where a handler waits for a mutex that it holds itself.
use dmproxy.Base.{
  Bytes, ℕ, ◌<◌, ◌≡◌, refl, sym, ap, ◌∙◌, List, [], ◌∷◌, ◌++◌, Bool, true, false, not, ◌&&◌, ◌||◌,
  none, some, bytes_eq, inl, inr, arith, Option-cases, Bool-cases,
}
use dmproxy.Base.Dict.{lookup, contains}
use dmproxy.Network.{
  ErrorCode, failed, Messages, Opcode, text, binary, other_opcode, ServerCall, send,
  close_connection, start_platform, close_platform, server_close_and_report,
}
use dmproxy.Platforms.{Kind, huajiao, douyu, bilibili, yy, platform_get_instance}
use dmproxy.Platforms.Listeners.{add_listener, erase_listener, set_close_callback}
use dmproxy.Server.Room.{split_room}
use dmproxy.Server.{
  Server, Trimming, set_message_handler, leave, on_platform_close, start_room, create_room, enter,
  switch_room, on_server_text, on_server_message, on_server_close,
}
use dmproxy.Server.Invariant.{IsValid}
use dmproxy.Locks.{rooms, LockOp, unlock, Held, nothing_held, ordered}
use dmproxy.Locks.Handlers.{
  change_listeners, read_listeners, platform_locks, reports, leave_locks, on_server_close_locks,
  enter_locks, switch_room_locks, on_server_message_locks, reports_error,
}

-- What a handler holds between its first lines and its last.
abbrev inside : Held
inside = record { of_rooms = true; of_listeners = none }

ordered-change :
    (id : ℕ) (rest : List LockOp)
    → ordered inside (change_listeners id ++ rest) ≡ ordered inside rest
ordered-change id rest = ground arith

ordered-read :
    (id : ℕ) (rest : List LockOp) → ordered inside (read_listeners id ++ rest) ≡ ordered inside rest
ordered-read id rest = ground arith

ordered-platform :
    (k : Kind) (ec : ErrorCode) (id : ℕ) (rest : List LockOp)
    → ordered inside (platform_locks k ec id ++ rest)
      ≡ (not (reports k && failed ec) && ordered inside rest)
ordered-platform huajiao ec id rest = ground arith
ordered-platform douyu ec id rest = refl
ordered-platform bilibili ec id rest = refl
ordered-platform yy ec id rest = ground arith

leave-kind :
    (r : Bytes) (hdl k : ℕ) (s : Server)
    → (((leave r hdl s).0.heap k).kind ≡ (s.heap k).kind) × ((leave r hdl s).0.next ≡ s.next)
unfolding leave on_platform_close erase_listener
leave-kind r hdl k s = ground arith

both_not : (a b : Bool) → (not a && (not b && true)) ≡ not (a || b)
both_not true b = refl
both_not false true = refl
both_not false false = refl

and_true : (a : Bool) → (a && true) ≡ a
and_true true = refl
and_true false = refl

module _ (c b : ErrorCode) where
  reports_error-append :
      (kind : ℕ → Kind) (cs ds : List ServerCall)
      → reports_error c b kind (cs ++ ds) ≡ (reports_error c b kind cs || reports_error c b kind ds)
  reports_error-append kind [] ds = refl
  reports_error-append kind (send h x ∷ cs) ds = reports_error-append kind cs ds
  reports_error-append kind (close_connection h x ∷ cs) ds = reports_error-append kind cs ds
  reports_error-append kind (start_platform id ∷ cs) ds =
      ground (arith, reports_error-append kind cs ds)
  reports_error-append kind (close_platform id ∷ cs) ds =
      ground (arith, reports_error-append kind cs ds)

  leave-ordered :
      (kind : ℕ → Kind) (r : Bytes) (hdl : ℕ) (s : Server) (rest : List LockOp)
      → ((k : ℕ) → lookup r s.rp_map ≡ some k → kind k ≡ (s.heap k).kind)
      → ordered inside (leave_locks c b r hdl s ++ rest)
        ≡ (not (reports_error c b kind (leave r hdl s).1) && ordered inside rest)
  unfolding leave_locks leave erase_listener
  leave-ordered kind r hdl s rest same = elim (Option-cases (lookup r s.rp_map)) [
    | inl e ↦ ground arith
    | inr (k, e) ↦ ground (arith, same k e, ordered-platform (s.heap k).kind c k rest)
  ]

  module _ ⦃m : Messages⦄ (ec : ErrorCode) where
    reply-reports :
        (e : ErrorCode) (hdl : ℕ) (kind : ℕ → Kind)
        → reports_error c b kind (server_close_and_report e hdl) ≡ false
    reply-reports none hdl kind = refl
    reply-reports (some e) hdl kind = refl

    kinds : Bytes → Bytes → Bytes → ℕ → Server → ℕ → Kind
    kinds q tag roomid hdl s id = ((enter ec q tag roomid hdl s).0.heap id).kind

    kinds_lem :
        (q tag roomid : Bytes) (hdl : ℕ) (s : Server) (k : ℕ)
        → k < s.next
        → kinds q tag roomid hdl s k ≡ (s.heap k).kind
    unfolding kinds enter create_room start_room add_listener set_close_callback
    kinds_lem q tag roomid hdl s k lt = ground arith

    enter-ordered :
        (q tag roomid : Bytes) (hdl : ℕ) (s : Server) (rest : List LockOp)
        → ordered inside (enter_locks c b q tag roomid hdl s ++ rest) ≡ (
            not (reports_error c b (kinds q tag roomid hdl s) (enter ec q tag roomid hdl s).1)
            && ordered inside rest)
    unfolding kinds enter_locks enter create_room start_room add_listener set_close_callback
    enter-ordered q tag roomid hdl s rest = elim (Option-cases (lookup q s.rp_map)) [
      | inl e ↦ elim (Option-cases (platform_get_instance tag roomid)) [
        | inl f ↦ ground arith
        | inr (p, f) ↦ ground (arith, ordered-platform p.kind b s.next rest)
      ]
      | inr (k, e) ↦ ground (arith, ordered-platform (s.heap k).kind b k rest)
    ]

    moved-ordered :
        (q tag roomid : Bytes) (hdl : ℕ) (s : Server)
        → IsValid s
        → let old = s.message_room hdl in
          let t = set_message_handler hdl q s in
          let l = (leave old hdl t).0 in
          ordered inside
            (leave_locks c b old hdl t ++ (enter_locks c b q tag roomid hdl l ++ unlock rooms ∷ []))
          ≡ not (
              reports_error c b
                (kinds q tag roomid hdl l)
                ((leave old hdl t).1 ++ (enter ec q tag roomid hdl l).1))
    moved-ordered q tag roomid hdl s v =
        leave-ordered kind old hdl t (enter_locks c b q tag roomid hdl l ++ unlock rooms ∷ [])
          same_kind
        ∙ ap (λ x. not (reports_error c b kind (leave old hdl t).1) && x)
            (enter-ordered q tag roomid hdl l (unlock rooms ∷ []))
        ∙ both_not (reports_error c b kind (leave old hdl t).1)
            (reports_error c b kind (enter ec q tag roomid hdl l).1)
        ∙ ap not
            (sym (reports_error-append kind (leave old hdl t).1 (enter ec q tag roomid hdl l).1))
      where
        old : Bytes
        old = s.message_room hdl

        t : Server
        t = set_message_handler hdl q s

        l : Server
        l = (leave old hdl t).0

        kind : ℕ → Kind
        kind = kinds q tag roomid hdl l

        same_kind : (k : ℕ) → lookup old t.rp_map ≡ some k → kind k ≡ (t.heap k).kind
        same_kind k e =
            kinds_lem q tag roomid hdl l k
              (omega (arith, v.used old k e, (leave-kind old hdl k t).1))
            ∙ (leave-kind old hdl k t).0

    switch_room-ordered :
        (q tag roomid : Bytes) (hdl : ℕ) (s : Server)
        → IsValid s
        → let (t, calls) = switch_room ec (s.message_room hdl) q tag roomid hdl s in
          ordered nothing_held (switch_room_locks c b (s.message_room hdl) q tag roomid hdl s)
          ≡ not (reports_error c b (λ id. (t.heap id).kind) calls)
    unfolding switch_room_locks switch_room kinds
    switch_room-ordered q tag roomid hdl s v =
        elim (Bool-cases
          (bytes_eq (s.message_room hdl) q && contains (s.message_room hdl) s.rp_map)) [
            | inl same ↦ rw same refl
            | inr new ↦ rw new (moved-ordered q tag roomid hdl s v)
          ]

    -- In a state whose served rooms are in order, handling a message, for the room that its
    -- connection is bound to, takes the mutexes in order and none that the thread holds already,
    -- exactly if no platform that is started or closed by it reports an error from that call.
    pub on_server_message_locks_lem :
        ⦃tr : Trimming⦄ (hdl : ℕ) (op : Opcode) (payload : Bytes) (s : Server)
        → IsValid s
        → let (t, calls) = on_server_message ec (s.message_room hdl) hdl op payload s in
          ordered nothing_held (on_server_message_locks c b (s.message_room hdl) hdl op payload s)
          ≡ not (reports_error c b (λ id. (t.heap id).kind) calls)
    unfolding on_server_message_locks on_server_message on_server_text
    on_server_message_locks_lem ⦃tr⦄ hdl text payload s v =
        elim (Option-cases (split_room (tr.trim payload))) [
          | inl e ↦
              rw (e, on_server_text, on_server_message_locks)
                (ap not (sym (reply-reports ec hdl (λ id. (s.heap id).kind))))
          | inr ((tag, roomid), e) ↦
              rw (e, on_server_text, on_server_message_locks)
                (switch_room-ordered (tr.trim payload) tag roomid hdl s v)
        ]
    on_server_message_locks_lem hdl binary payload s v = refl
    on_server_message_locks_lem hdl other_opcode payload s v = refl

  -- The same for a connection that closes, in any state.
  pub on_server_close_locks_lem :
      (r : Bytes) (hdl : ℕ) (s : Server)
      → let (t, calls) = on_server_close r hdl s in
        ordered nothing_held (on_server_close_locks c b r hdl s)
        ≡ not (reports_error c b (λ id. (t.heap id).kind) calls)
  unfolding on_server_close_locks on_server_close
  on_server_close_locks_lem r hdl s =
      leave-ordered (λ id. ((leave r hdl s).0.heap id).kind) r hdl s (unlock rooms ∷ [])
        (λ k e. (leave-kind r hdl k s).0)
      ∙ and_true
          (not (reports_error c b (λ id. ((leave r hdl s).0.heap id).kind) (leave r hdl s).1))
