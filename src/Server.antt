-- ===== src/Server.antt =====
-- main.cpp: the rooms that are served, the connections' handlers, and what the handlers do.
pub mod Room
pub mod Close
pub mod Delivery
pub mod Invariant
pub mod Runs
pub mod Joining
pub mod Branches
pub mod Membership
pub mod Leaks
pub mod Isolation
pub mod View
pub mod Successor
pub mod Refusals
pub mod Distinct
pub mod Naming
pub mod Announcing
use dmproxy.Base.{
  Bytes, codes, ℕ, suc, List, [], ◌∷◌, ◌++◌, Bool, true, false, ◌&&◌, Option, none, some, ◌==◌,
  bytes_eq, if◌then◌else◌,
}
use dmproxy.Base.Dict.{Dict, lookup, contains, assign, erase}
use dmproxy.Network.{
  Opcode, text, binary, other_opcode, ErrorCode, Messages, ServerCall, send, start_platform,
  close_platform, server_close_and_report, room_string,
}
use dmproxy.Platforms.{Platform, platform_get_instance, is_room_valid}
use dmproxy.Platforms.Listeners.{
  add_listener, erase_listener, have_listener, listeners_count, set_close_callback,
}
use Room.{split_room}

-- boost::trim.
pub record Trimming : Type 0 where
  pub trim : Bytes → Bytes

-- `rp_map` holds shared pointers, here the numbers of objects in `heap`; those from `next` on are
-- not in use. A connection's message handler is bound to a room string, the empty one at first, and
-- its close handler is bound to one once it has been set.
pub record Server : Type 0 where
  pub rp_map : Dict ℕ
  pub heap : ℕ → Platform
  pub next : ℕ
  pub message_room : ℕ → Bytes
  pub close_room : ℕ → Option Bytes

abbrev pub update {ℓ} : {A : Type ℓ} → (ℕ → A) → ℕ → A → ℕ → A
update f k v j = if k == j then v else f j

abbrev pub modify_platform : ℕ → (Platform → Platform) → Server → Server
modify_platform id f s = record s { heap = update s.heap id (f (s.heap id)) }

-- The room string that an object gives to its close callback.
abbrev pub own_room : ℕ → Server → Bytes
own_room id s = room_string (s.heap id).platform_name (s.heap id).roomid

-- `set_message_handler(std::bind(on_server_message, roomstr, _1, _2))`
abbrev pub set_message_handler : ℕ → Bytes → Server → Server
set_message_handler hdl roomstr s = record s { message_room = update s.message_room hdl roomstr }

-- `set_close_handler(std::bind(on_server_close, roomstr, _1))`
abbrev pub set_close_handler : ℕ → Bytes → Server → Server
set_close_handler hdl roomstr s = record s { close_room = update s.close_room hdl (some roomstr) }

unfoldable pub on_platform_close : Bytes → Server → Server
on_platform_close roomstr s = record s { rp_map = erase roomstr s.rp_map }

-- The object loses the listener, and is closed and forgotten if that was its last: the common part
-- of `on_server_close` and `on_server_message`.
unfoldable pub drop_listener : Bytes → ℕ → ℕ → Server → Server × List ServerCall
unfolding on_platform_close
drop_listener roomstr hdl id s =
    let t = modify_platform id (erase_listener hdl) s in
    if listeners_count (t.heap id) == 0
    then (on_platform_close roomstr t, close_platform id ∷ [])
    else (t, [])

-- Nothing where the room is not served.
unfoldable pub leave : Bytes → ℕ → Server → Server × List ServerCall
unfolding drop_listener
leave roomstr hdl s = elim (lookup roomstr s.rp_map) [
  | none ↦ (s, [])
  | some id ↦ drop_listener roomstr hdl id s
]

unfoldable pub on_server_close : Bytes → ℕ → Server → Server × List ServerCall
unfolding leave
on_server_close roomstr hdl s = leave roomstr hdl s

-- The end of `on_server_message`, from `set_close_handler` on.
unfoldable pub start_room : Bytes → ℕ → ℕ → Server → Server × List ServerCall
start_room roomstr hdl id s =
    let t = set_close_handler hdl roomstr s in
    let u = modify_platform id (add_listener hdl) t in
    let v = modify_platform id set_close_callback u in
    (record v { rp_map = assign roomstr id v.rp_map }, start_platform id ∷ [])

-- A new object gets the number `next`.
abbrev pub allocate : Platform → Server → Server
allocate p s = record s { heap = update s.heap s.next p; next = suc s.next }

module _ ⦃m : Messages⦄ where
  -- A reply to the client, and the macro behind it.
  abbrev pub reply : ErrorCode → ℕ → Bytes → List ServerCall
  reply ec hdl answer = send hdl answer ∷ server_close_and_report ec hdl

  -- `roomstr` is not in `rp_map`.
  unfoldable pub create_room :
      ErrorCode → Bytes → Bytes → Bytes → ℕ → Server → Server × List ServerCall
  unfolding start_room
  create_room ec roomstr tag roomid hdl s = elim (platform_get_instance tag roomid) [
    | none ↦ (s, reply ec hdl (codes "platform " ++ tag ++ codes " is not valid!"))
    | some p ↦
        if is_room_valid p.kind p.roomid
        then start_room roomstr hdl s.next (allocate p s)
        else (s, reply ec hdl (codes "roomid invalid!"))
  ]

  -- From `if (rp_map.count(roomstr) != 0)` on.
  unfoldable pub enter : ErrorCode → Bytes → Bytes → Bytes → ℕ → Server → Server × List ServerCall
  unfolding create_room start_room
  enter ec roomstr tag roomid hdl s = elim (lookup roomstr s.rp_map) [
    | none ↦ create_room ec roomstr tag roomid hdl s
    | some id ↦
        if have_listener hdl (s.heap id)
        then start_room roomstr hdl id s
        else (modify_platform id (add_listener hdl) s, [])
  ]

  abbrev pub then_calls : List ServerCall → Server × List ServerCall → Server × List ServerCall
  then_calls cs (s, ds) = (s, cs ++ ds)

  -- The part of `on_server_message` that holds the lock.
  unfoldable pub switch_room :
      ErrorCode → Bytes → Bytes → Bytes → Bytes → ℕ → Server → Server × List ServerCall
  switch_room ec old_roomstr roomstr tag roomid hdl s =
      if bytes_eq old_roomstr roomstr && contains old_roomstr s.rp_map
      then (s, [])
      else (let (t, cs) = leave old_roomstr hdl (set_message_handler hdl roomstr s) in
          then_calls cs (enter ec roomstr tag roomid hdl t))

  unfoldable pub on_server_text :
      ⦃b : Trimming⦄ → ErrorCode → Bytes → ℕ → Bytes → Server → Server × List ServerCall
  unfolding switch_room
  on_server_text ⦃b⦄ ec old_roomstr hdl payload s =
      let roomstr = b.trim payload in
      elim (split_room roomstr) [
        | none ↦ (s, reply ec hdl (codes "format error!"))
        | some (tag, roomid) ↦ switch_room ec old_roomstr roomstr tag roomid hdl s
      ]

  -- Only text frames are read. At most one reply is sent in a call, and `ec` is its result.
  unfoldable pub on_server_message :
      ⦃b : Trimming⦄ → ErrorCode → Bytes → ℕ → Opcode → Bytes → Server → Server × List ServerCall
  unfolding on_server_text
  on_server_message ec old_roomstr hdl text payload s = on_server_text ec old_roomstr hdl payload s
  on_server_message ec old_roomstr hdl binary payload s = (s, [])
  on_server_message ec old_roomstr hdl other_opcode payload s = (s, [])
