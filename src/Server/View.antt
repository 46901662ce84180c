-- ===== src/Server/View.antt =====
-- main.cpp: the server as its clients see it, a room for each connection.
pub mod Message
pub mod Simulation
use dmproxy.Base.{
  Bytes, ℕ, ◌≡◌, ◌≢◌, ◌↔◌, ◌||◌, ◌&&◌, sym, ◌∙◌, Bool, true, false, Option, none, some, inl, inr,
  bytes_eq, bytes_eq_iff, if◌then◌else◌, arith, Option-cases, ◌==◌, zero, suc, [], length,
}
use dmproxy.Base.Dict.{lookup, lookup-erase, lookup-assign}
use dmproxy.Network.{Messages, ErrorCode, Opcode, text, binary, other_opcode}
use dmproxy.Platforms.{Platform, platform_get_instance, is_room_valid}
use dmproxy.Platforms.Listeners.{
  has, add_listener, erase, erase_listener, have_listener, listeners_count, set_close_callback,
  has-insert, has-erase, has-nil,
}
use dmproxy.Platforms.Registry.{platform_get_instance_fields}
use dmproxy.Server.Room.{split_room}
use dmproxy.Server.{
  Server, Trimming, set_message_handler, on_platform_close, drop_listener, leave, start_room,
  create_room, enter, allocate,
}
use dmproxy.Server.Invariant.{Serves, IsValid}
use dmproxy.Server.Membership.{IsListener}

-- The room that a connection listens to.
abbrev pub room_of : Server → ℕ → Option Bytes
room_of s h = elim (lookup (s.message_room h) s.rp_map) [
  | none ↦ none
  | some k ↦ if has h (s.heap k).listeners then some (s.message_room h) else none
]

-- In a valid state there is no other room that it listens to.
pub room_of_iff :
    (s : Server) (h : ℕ) (r : Bytes) → IsValid s → (room_of s h ≡ some r) ↔ IsListener h r s
room_of_iff s h r v = elim (Option-cases (lookup (s.message_room h) s.rp_map)) [
  | inl e ↦ (λ o. ground arith, λ l. ground (arith, v.bound r l.0 h l.1 l.2))
  | inr (k, e) ↦
      (λ o. (k, ground arith, ground arith), λ l. ground (arith, v.bound r l.0 h l.1 l.2))
]

-- Whether a room of the platform that the tag names can be made.
abbrev pub admits : Bytes → Bytes → Bool
admits tag roomid = elim (platform_get_instance tag roomid) [
  | none ↦ false
  | some p ↦ is_room_valid p.kind p.roomid
]

-- What a message means, whatever the state of the server.
pub data Request : Type 0 where
  nothing refused : Request
  asks : Bytes → Request

abbrev pub request : ⦃b : Trimming⦄ → Opcode → Bytes → Request
request ⦃b⦄ text payload = elim (split_room (b.trim payload)) [
  | none ↦ nothing
  | some (tag, roomid) ↦ if admits tag roomid then asks (b.trim payload) else refused
]
request binary payload = nothing
request other_opcode payload = nothing

-- The room that the sender of a message has after it.
abbrev pub answered : Request → Option Bytes → Option Bytes
answered nothing old = old
answered refused old = none
answered (asks q) old = some q

-- Only rooms that can be made are served.
abbrev pub opens : Bytes → Bool
opens r = elim (split_room r) [ none ↦ false | some (tag, roomid) ↦ admits tag roomid ]

abbrev pub IsAdmitted : Server → Type 0
IsAdmitted s = (r : Bytes) (k : ℕ) → lookup r s.rp_map ≡ some k → opens r ≡ true

-- A connection that asks for the room that it is bound to, where that is served, is its listener.
abbrev pub IsHeard : ℕ → Bytes → Server → Type 0
IsHeard h q s =
    (k : ℕ)
    → lookup (s.message_room h) s.rp_map ≡ some k
    → s.message_room h ≡ q
    → has h (s.heap k).listeners ≡ true

pub leave-IsAdmitted : (r : Bytes) (h : ℕ) (s : Server) → IsAdmitted s → IsAdmitted (leave r h s).0
unfolding leave on_platform_close
leave-IsAdmitted r h s a q k e = ground (arith, a q k, lookup-erase q r s.rp_map)

-- To leave a room changes it for nobody else.
pub leave-room_of :
    (r : Bytes) (h j : ℕ) (s : Server) → h ≢ j → room_of (leave r h s).0 j ≡ room_of s j
unfolding leave on_platform_close erase_listener listeners_count
leave-room_of r h j s ne = elim (Option-cases (lookup r s.rp_map)) [
  | inl e ↦ ground arith
  | inr (i, e) ↦ ground (
    arith,
    lookup-erase (s.message_room j) r s.rp_map,
    bytes_eq_iff r (s.message_room j),
    has-erase h j (s.heap i).listeners,
    has-nil j (erase h (s.heap i).listeners),
  )
]

-- Making `q` the room of the object `k` for `hdl`, which may have other listeners.
start_room-room_of :
    (q : Bytes) (hdl j k : ℕ) (s : Server)
    → room_of (start_room q hdl k s).0 j ≡ (
        if bytes_eq q (s.message_room j)
        then (if hdl == j || has j (s.heap k).listeners then some (s.message_room j) else none)
        else (elim (lookup (s.message_room j) s.rp_map) [
          | none ↦ none
          | some i ↦
              if has j (s.heap i).listeners || (k == i && hdl == j)
              then some (s.message_room j)
              else none
        ]))
unfolding start_room add_listener set_close_callback
start_room-room_of q hdl j k s =
    ground
      (arith, lookup-assign (s.message_room j) q k s.rp_map, has-insert hdl j (s.heap k).listeners)

start_new-room_of :
    {bind : ℕ → Bytes} (q : Bytes) (hdl j : ℕ) (s : Server) (p : Platform)
    → Serves bind s
    → hdl ≢ j
    → lookup q s.rp_map ≡ none
    → p.listeners ≡ []
    → room_of (start_room q hdl s.next (allocate p s)).0 j ≡ room_of s j
unfolding has
start_new-room_of q hdl j s p v ne new nobody =
    elim (Option-cases (lookup (s.message_room j) s.rp_map)) [
      | inl e ↦ ground (
        arith,
        start_room-room_of q hdl j s.next (allocate p s),
        bytes_eq_iff q (s.message_room j),
      )
      | inr (k, e) ↦ ground (
        arith,
        start_room-room_of q hdl j s.next (allocate p s),
        bytes_eq_iff q (s.message_room j),
        v.used (s.message_room j) k e,
      )
    ]

module _ ⦃m : Messages⦄ (ec : ErrorCode) (q tag roomid : Bytes) (hdl : ℕ) (s : Server) where
  pub enter-IsAdmitted :
      split_room q ≡ some (tag, roomid) → IsAdmitted s → IsAdmitted (enter ec q tag roomid hdl s).0
  unfolding enter create_room start_room add_listener set_close_callback
  enter-IsAdmitted split a r k e = elim (Option-cases (lookup q s.rp_map)) [
    | inl new ↦ ground (arith, a r k, lookup-assign r q s.next s.rp_map, bytes_eq_iff q r)
    | inr (i, at) ↦ ground (arith, a r k, a q i, lookup-assign r q i s.rp_map, bytes_eq_iff q r)
  ]

  -- To enter a room changes it for nobody else.
  pub enter-room_of :
      {bind : ℕ → Bytes} (j : ℕ)
      → Serves bind s
      → hdl ≢ j
      → room_of (enter ec q tag roomid hdl s).0 j ≡ room_of s j
  unfolding enter create_room add_listener have_listener
  enter-room_of j v ne = elim (Option-cases (lookup q s.rp_map)) [
    | inl new ↦ elim (Option-cases (platform_get_instance tag roomid)) [
      | inl e ↦ ground arith
      | inr (p, e) ↦ ground (
        arith,
        start_new-room_of q hdl j s p v ne new (platform_get_instance_fields tag roomid p e).2,
      )
    ]
    | inr (i, e) ↦ ground (
      arith,
      start_room-room_of q hdl j i s,
      bytes_eq_iff q (s.message_room j),
      has-insert hdl j (s.heap i).listeners,
    )
  ]

  -- Whoever enters is in the room afterwards, or nowhere if there is none.
  pub enter-room_of_self :
      s.message_room hdl ≡ q
      → IsAdmitted s
      → split_room q ≡ some (tag, roomid)
      → room_of (enter ec q tag roomid hdl s).0 hdl ≡ (if admits tag roomid then some q else none)
  unfolding enter create_room add_listener have_listener
  enter-room_of_self at a split = elim (Option-cases (lookup q s.rp_map)) [
    | inl new ↦ elim (Option-cases (platform_get_instance tag roomid)) [
      | inl e ↦ ground arith
      | inr (p, e) ↦ ground (
        arith,
        start_room-room_of q hdl hdl s.next (allocate p s),
        bytes_eq_iff q (s.message_room hdl),
      )
    ]
    | inr (i, e) ↦ ground (
      arith,
      a q i e,
      start_room-room_of q hdl hdl i s,
      bytes_eq_iff q (s.message_room hdl),
      has-insert hdl hdl (s.heap i).listeners,
    )
  ]
