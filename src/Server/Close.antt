-- ===== src/Server/Close.antt =====
-- main.cpp: what is left when a connection or a platform closes.
use dmproxy.Base.{
  Bytes, ℕ, ◌<◌, ◌≡◌, [], ◌∷◌, ◌⊎◌, none, some, false, ◌==◌, bytes_eq, bytes_eq_iff, if◌then◌else◌,
  arith, length,
}
use dmproxy.Base.Dict.{lookup, lookup-erase}
use dmproxy.Network.{room_string, close_platform}
use dmproxy.Platforms.Listeners.{has, erase_listener, listeners_count, has-erase}
use dmproxy.Server.{Server, on_platform_close, on_server_close}
use dmproxy.Server.Invariant.{IsValid}

-- In a state whose served rooms are in order, the object of a served room `r` that calls its close
-- callback takes that room away, and no other.
on_platform_close_lem :
    (r q : Bytes) (id : ℕ) (s : Server)
    → IsValid s
    → lookup r s.rp_map ≡ some id
    → let t = on_platform_close (room_string (s.heap id).platform_name (s.heap id).roomid) s in
      lookup q t.rp_map ≡ (if bytes_eq r q then none else lookup q s.rp_map)
unfolding on_platform_close
on_platform_close_lem r q id s v e = ground (arith, v.named r id e, lookup-erase q r s.rp_map)

-- Where the room is served, a connection that closes is no listener of it any more and every other
-- stays what it was; if nobody is left the platform is closed, with no other call, and the room is
-- forgotten, and otherwise nothing is called and the room is served by the same object.
pub on_server_close_lem :
    (r : Bytes) (id hdl : ℕ) (s : Server)
    → lookup r s.rp_map ≡ some id
    → let (t, calls) = on_server_close r hdl s in
      ((j : ℕ)
        → has j (t.heap id).listeners ≡ (if hdl == j then false else has j (s.heap id).listeners))
      × (((length (t.heap id).listeners ≡ 0)
            × (calls ≡ close_platform id ∷ [])
            × (lookup r t.rp_map ≡ none))
          ⊎ ((0 < length (t.heap id).listeners) × (calls ≡ []) × (lookup r t.rp_map ≡ some id)))
unfolding on_server_close listeners_count erase_listener on_platform_close
on_server_close_lem r id hdl s e = (
  λ j. ground (arith, has-erase hdl j (s.heap id).listeners),
  ground (arith, bytes_eq_iff r r, lookup-erase r r s.rp_map),
)
