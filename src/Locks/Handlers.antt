-- ===== src/Locks/Handlers.antt =====
-- main.cpp, platforms/platform_base.cpp and the macro of network/dmp_cs.hpp: which mutexes the
-- server's handlers take, those included that the calls on platforms take within them.
pub mod Order
use dmproxy.Base.{
  Bytes, ℕ, List, [], ◌∷◌, ◌++◌, Bool, true, false, not, ◌&&◌, ◌||◌, Option, none, some, ◌==◌,
  bytes_eq, if◌then◌else◌,
}
use dmproxy.Base.Dict.{lookup, contains}
use dmproxy.Network.{
  ErrorCode, failed, Opcode, text, binary, other_opcode, ServerCall, send, close_connection,
  start_platform, close_platform,
}
use dmproxy.Platforms.{
  Kind, huajiao, douyu, bilibili, yy, Platform, platform_get_instance, is_room_valid,
}
use dmproxy.Platforms.Listeners.{erase_listener, have_listener, listeners_count}
use dmproxy.Server.Room.{split_room}
use dmproxy.Server.{Server, Trimming, modify_platform, set_message_handler, leave}
use dmproxy.Locks.{Mutex, rooms, listeners, LockOp, write_lock, read_lock, unlock}

-- `add_listener`, `erase_listener`
abbrev pub change_listeners : ℕ → List LockOp
change_listeners id = write_lock (listeners id) ∷ unlock (listeners id) ∷ []

-- `have_listener`, `listeners_count`, `publish`
abbrev pub read_listeners : ℕ → List LockOp
read_listeners id = read_lock (listeners id) ∷ unlock (listeners id) ∷ []

abbrev pub on_platform_close_locks : List LockOp
on_platform_close_locks = write_lock rooms ∷ unlock rooms ∷ []

-- CLIENT_REPORT_WHEN_ERROR publishes and calls the close callback.
abbrev pub report_locks : ErrorCode → ℕ → List LockOp
report_locks ec id = if failed ec then read_listeners id ++ on_platform_close_locks else []

-- Whether `start` and `close` report what a call of theirs returns.
abbrev pub reports : Kind → Bool
reports huajiao = true
reports douyu = false
reports bilibili = false
reports yy = true

-- `start`, where `ec` is what `get_connection` returns, or `close`, where it is what `client.close`
-- does. A YY object whose timer has not been made fails before it gets there.
abbrev pub platform_locks : Kind → ErrorCode → ℕ → List LockOp
platform_locks k ec id = if reports k then report_locks ec id else []

module _ (close_ec start_ec : ErrorCode) where
  unfoldable pub leave_locks : Bytes → ℕ → Server → List LockOp
  leave_locks roomstr hdl s = elim (lookup roomstr s.rp_map) [
    | none ↦ []
    | some id ↦
        let p = erase_listener hdl (s.heap id) in
        change_listeners id
        ++ read_listeners id
        ++ (if listeners_count p == 0 then platform_locks p.kind close_ec id else [])
  ]

  unfoldable pub on_server_close_locks : Bytes → ℕ → Server → List LockOp
  on_server_close_locks roomstr hdl s =
      write_lock rooms ∷ (leave_locks roomstr hdl s ++ unlock rooms ∷ [])

  abbrev pub start_locks : Kind → ℕ → List LockOp
  start_locks k id = change_listeners id ++ platform_locks k start_ec id

  unfoldable pub enter_locks : Bytes → Bytes → Bytes → ℕ → Server → List LockOp
  enter_locks roomstr tag roomid hdl s = elim (lookup roomstr s.rp_map) [
    | none ↦ elim (platform_get_instance tag roomid) [
      | none ↦ []
      | some p ↦ if is_room_valid p.kind p.roomid then start_locks p.kind s.next else []
    ]
    | some id ↦
        read_listeners id
        ++ (if have_listener hdl (s.heap id)
            then start_locks (s.heap id).kind id
            else change_listeners id)
  ]

  unfoldable pub switch_room_locks : Bytes → Bytes → Bytes → Bytes → ℕ → Server → List LockOp
  unfolding leave_locks enter_locks
  switch_room_locks old_roomstr roomstr tag roomid hdl s =
      if bytes_eq old_roomstr roomstr && contains old_roomstr s.rp_map
      then write_lock rooms ∷ unlock rooms ∷ []
      else (let t = set_message_handler hdl roomstr s in
          write_lock rooms
          ∷ (leave_locks old_roomstr hdl t
              ++ (enter_locks roomstr tag roomid hdl (leave old_roomstr hdl t).0
                  ++ unlock rooms ∷ [])))

  -- A message that is ignored, or badly formed, takes none.
  unfoldable pub on_server_message_locks :
      ⦃b : Trimming⦄ → Bytes → ℕ → Opcode → Bytes → Server → List LockOp
  unfolding switch_room_locks
  on_server_message_locks ⦃b⦄ old_roomstr hdl text payload s = elim (split_room (b.trim payload)) [
    | none ↦ []
    | some (tag, roomid) ↦ switch_room_locks old_roomstr (b.trim payload) tag roomid hdl s
  ]
  on_server_message_locks old_roomstr hdl binary payload s = []
  on_server_message_locks old_roomstr hdl other_opcode payload s = []

  -- Whether one of the calls is on a platform that reports an error from it.
  abbrev pub reports_error : (ℕ → Kind) → List ServerCall → Bool
  reports_error kind [] = false
  reports_error kind (send h x ∷ cs) = reports_error kind cs
  reports_error kind (close_connection h x ∷ cs) = reports_error kind cs
  reports_error kind (start_platform id ∷ cs) =
      (reports (kind id) && failed start_ec) || reports_error kind cs
  reports_error kind (close_platform id ∷ cs) =
      (reports (kind id) && failed close_ec) || reports_error kind cs
