-- ===== src/Server/View/Simulation.antt =====
-- main.cpp: every step of the server is one that a table of rooms for connections can take.
use dmproxy.Base.{
  List, [], ◌∷◌, Bytes, ℕ, ◌≡◌, ◌≢◌, refl, ap, Bool, false, ◌&&◌, inl, inr, Option, none, some,
  bytes_eq, bytes_eq_iff, if◌then◌else◌, arith, Option-cases, Bool-cases, ◌==◌,
}
use dmproxy.Base.Dict.{lookup, lookup-erase}
use dmproxy.Network.{Messages, ErrorCode, Opcode, room_string}
use dmproxy.Platforms.Listeners.{has, erase, erase_listener, listeners_count, has-erase, has-nil}
use dmproxy.Platforms.Publish.{publish, given_up, has-publish}
use dmproxy.Server.{
  Server, Trimming, own_room, modify_platform, leave, on_platform_close, on_server_close,
  on_server_message,
}
use dmproxy.Server.Invariant.{IsValid, lookup_injective}
use dmproxy.Server.Runs.{
  init, init-IsValid, Step, message, closed, gone, published, Reach, here, next, Reach-IsValid,
}
use dmproxy.Server.View.{room_of, Request, request, answered, IsAdmitted, IsHeard, leave-IsAdmitted}
use dmproxy.Server.View.Message.{
  on_server_message-IsAdmitted, on_server_message-unmoved, room_of-on_server_message,
}

-- What the clients see: the room of each connection.
abbrev pub Rooms : Type 0
Rooms = ℕ → Option Bytes

abbrev pub in_room : Bytes → Option Bytes → Bool
in_room r none = false
in_room r (some q) = bytes_eq r q

-- What happens to it: a connection sends a request or leaves a room, a room ends, or a text is
-- published in it, for which `bad` connections are given up.
pub data Input : Type 0 where
  sends : ℕ → Request → Input
  leaves : ℕ → Bytes → Input
  ends : Bytes → Input
  tells : Bytes → (ℕ → Bool) → Input

-- What it then does. A request may be lost if its sender is in no room, and a text if the object
-- that publishes it does not serve its room.
pub data Change (f g : Rooms) : Input → Type 0 where
  asked :
      (h : ℕ) (req : Request)
      → ((j : ℕ) → g j ≡ (if h == j then answered req (f j) else f j))
      → Change f g (sends h req)
  lost : (h : ℕ) (req : Request) → f h ≡ none → ((j : ℕ) → g j ≡ f j) → Change f g (sends h req)
  left :
      (h : ℕ) (r : Bytes)
      → ((j : ℕ) → g j ≡ (if h == j && in_room r (f j) then none else f j))
      → Change f g (leaves h r)
  ended :
      (r : Bytes) → ((j : ℕ) → g j ≡ (if in_room r (f j) then none else f j)) → Change f g (ends r)
  told :
      (r : Bytes) (bad : ℕ → Bool)
      → ((j : ℕ) → g j ≡ (if in_room r (f j) && bad j then none else f j))
      → Change f g (tells r bad)
  unheard : (r : Bytes) (bad : ℕ → Bool) → ((j : ℕ) → g j ≡ f j) → Change f g (tells r bad)

-- What becomes of it, the last input first, from the start on, where nobody is in a room.
pub data Runs : List Input → Rooms → Type 0 where
  begins : {f : Rooms} → ((j : ℕ) → f j ≡ none) → Runs [] f
  continues :
      {f g : Rooms} {i : Input} {is : List Input} → Runs is f → Change f g i → Runs (i ∷ is) g

room_of-on_server_close :
    (r : Bytes) (h j : ℕ) (s : Server)
    → IsValid s
    → room_of (on_server_close r h s).0 j
      ≡ (if h == j && in_room r (room_of s j) then none else room_of s j)
unfolding on_server_close leave on_platform_close erase_listener listeners_count
room_of-on_server_close r h j s v = elim (Option-cases (lookup (s.message_room j) s.rp_map)) [
  | inl e ↦ ground (arith, lookup-erase (s.message_room j) r s.rp_map)
  | inr (k, e) ↦ ground (
    arith,
    lookup-erase (s.message_room j) r s.rp_map,
    bytes_eq_iff r (s.message_room j),
    has-erase h j (s.heap k).listeners,
    has-nil j (erase h (s.heap k).listeners),
    lookup_injective v (s.message_room j) r k e,
  )
]

pub room_of-on_platform_close :
    (r : Bytes) (j : ℕ) (s : Server)
    → room_of (on_platform_close r s) j ≡ (if in_room r (room_of s j) then none else room_of s j)
unfolding on_platform_close
room_of-on_platform_close r j s = ground (arith, lookup-erase (s.message_room j) r s.rp_map)

module _ ⦃m : Messages⦄ (ec : ℕ → ErrorCode) (id : ℕ) (dm_msg : Bytes) (s : Server)
    (v : IsValid s) where
  abbrev pub told_server : Server
  told_server = modify_platform id (λ p. (publish ec dm_msg p).0) s

  pub room_of-served :
      (j : ℕ)
      → lookup (own_room id s) s.rp_map ≡ some id
      → room_of told_server j ≡ (
          if in_room (own_room id s) (room_of s j) && has j (given_up ec (s.heap id).listeners)
          then none
          else room_of s j)
  room_of-served j at = elim (Option-cases (lookup (s.message_room j) s.rp_map)) [
    | inl e ↦ ground arith
    | inr (k, e) ↦ ground (
      arith,
      v.named (s.message_room j) k e,
      has-publish ec dm_msg (s.heap id) j,
      bytes_eq_iff (own_room id s) (s.message_room j),
    )
  ]

  room_of-unserved :
      (j : ℕ) → lookup (own_room id s) s.rp_map ≢ some id → room_of told_server j ≡ room_of s j
  room_of-unserved j off = elim (Option-cases (lookup (s.message_room j) s.rp_map)) [
    | inl e ↦ ground arith
    | inr (k, e) ↦ ground (arith, v.named (s.message_room j) k e)
  ]

  pub published-Change :
      Change
        (room_of s)
        (room_of told_server)
        (tells (own_room id s) (λ j. has j (given_up ec (s.heap id).listeners)))
  published-Change = elim (Option-cases (lookup (own_room id s) s.rp_map)) [
    | inl e ↦ unheard _ _ (λ j. room_of-unserved j (ground arith))
    | inr (k, e) ↦ elim (Bool-cases (k == id)) [
      | inl same ↦
          told (own_room id s) (λ j. has j (given_up ec (s.heap id).listeners))
            (λ j. room_of-served j (ground arith))
      | inr other ↦ unheard _ _ (λ j. room_of-unserved j (ground arith))
    ]
  ]

module _ ⦃m : Messages⦄ ⦃b : Trimming⦄ where
  -- The input that a step is for the table.
  abbrev pub input : {s t : Server} → Step s t → Input
  input (message ec hdl op payload) = sends hdl (request op payload)
  input (closed hdl r e) = leaves hdl r
  input {s} (gone id) = ends (own_room id s)
  input {s} (published ec id dm_msg) =
      tells (own_room id s) (λ j. has j (given_up ec (s.heap id).listeners))

  abbrev pub inputs : {s t : Server} → Reach s t → List Input
  inputs here = []
  inputs (next r st) = input st ∷ inputs r

module _ ⦃m : Messages⦄ ⦃b : Trimming⦄ where
  -- The sender of a message is a listener of the room it is bound to, or of none.
  message-Change :
      (ec : ErrorCode) (hdl : ℕ) (op : Opcode) (payload : Bytes) (s : Server)
      → IsValid s
      → IsAdmitted s
      → Change
          (room_of s)
          (room_of (on_server_message ec (s.message_room hdl) hdl op payload s).0)
          (sends hdl (request op payload))
  message-Change ec hdl op payload s v a =
      elim (Option-cases (lookup (s.message_room hdl) s.rp_map)) [
        | inl e ↦ heard (λ k at. cc)
        | inr (k, e) ↦ elim (Bool-cases (has hdl (s.heap k).listeners)) [
          | inl there ↦ heard (λ i at same. ground arith)
          | inr away ↦ elim (Bool-cases (bytes_eq (s.message_room hdl) (b.trim payload))) [
            | inl same ↦ lost hdl (request op payload) (ground arith) (λ j.
                ap (λ t. room_of t j)
                  (on_server_message-unmoved ec hdl op payload s k e
                    (ground (arith, bytes_eq_iff (s.message_room hdl) (b.trim payload)))))
            | inr other ↦
                heard
                  (λ i at same. ground (arith, bytes_eq_iff (s.message_room hdl) (b.trim payload)))
          ]
        ]
      ]
    where
      t : Server
      t = (on_server_message ec (s.message_room hdl) hdl op payload s).0

      heard :
          IsHeard hdl (b.trim payload) s
          → Change (room_of s) (room_of t) (sends hdl (request op payload))
      heard h =
          asked hdl (request op payload)
            (λ j. room_of-on_server_message ec hdl j op payload s v a h)

  pub Step-Change :
      {s t : Server} (st : Step s t)
      → IsValid s
      → IsAdmitted s
      → Change (room_of s) (room_of t) (input st) × IsAdmitted t
  unfolding on_platform_close on_server_close leave
  Step-Change {s} (message ec hdl op payload) v a =
      (message-Change ec hdl op payload s v a, on_server_message-IsAdmitted ec hdl op payload s a)
  Step-Change {s} (closed hdl r e) v a =
      (left hdl r (λ j. room_of-on_server_close r hdl j s v), leave-IsAdmitted r hdl s a)
  Step-Change {s} (gone id) v a = (
    ended _ (λ j. room_of-on_platform_close _ j s),
    λ q k at. ground (
      arith,
      a q k,
      lookup-erase q (room_string (s.heap id).platform_name (s.heap id).roomid) s.rp_map,
    ),
  )
  Step-Change {s} (published ec id dm_msg) v a = (published-Change ec id dm_msg s v, a)

  -- In every state that is reached from the initial one, the rooms of the connections are what a
  -- table of rooms comes to by the inputs of the steps; and every served room is one that can be
  -- made.
  pub Reach-Runs : {s : Server} (r : Reach init s) → Runs (inputs r) (room_of s) × IsAdmitted s
  unfolding lookup
  Reach-Runs here = (begins (λ j. refl), λ q k at. cc)
  Reach-Runs (next r st) =
      let (run, a) = Reach-Runs r in
      let (change, a') = Step-Change st (Reach-IsValid init-IsValid r) a in
      (continues run change, a')
