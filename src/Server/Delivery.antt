-- ===== src/Server/Delivery.antt =====
-- The calls that a platform object makes of its base, carried out on the server that owns it:
-- network/dmp_cs.hpp, platforms/platform_base.cpp and main.cpp put together.
pub mod Chat
pub mod Audience
pub mod Inputs
pub mod Received
pub mod World
use dmproxy.Base.{
  Bytes, codes, ℕ, suc, ◌≡◌, ◌≢◌, refl, sym, subst, ◌∙◌, ap, List, [], ◌∷◌, ◌++◌, append-nil, map,
  Bool, true, false, ◌&&◌, Option, none, some, All, bytes_eq, bytes_eq_iff, if◌then◌else◌, arith,
  drop,
}
use dmproxy.Base.Dict.{Dict, lookup, lookup-erase}
use dmproxy.Network.{
  Messages, ErrorCode, Errc, failed, Call, close_callback, ServerCall, room_string, client_report,
  closed_because, async_resolve, async_connect, async_write, async_read, async_read_until,
  async_read_some, async_wait, set_timer, socket_close, timer_cancel, ws_connect, ws_send, ws_close,
}
use dmproxy.Network
use dmproxy.Network.Action.{ok}
use dmproxy.Platforms.{Platform}
use dmproxy.Platforms.Publish.{
  Encoders, publish, publish_json, publish_lem, publish_keeps, sent, tried,
}
use dmproxy.Server.{Server, Trimming, own_room, modify_platform, on_platform_close}
use dmproxy.Server.Invariant.{IsValid}
use dmproxy.Server.Runs.{Step, gone, published, Reach, here, next}
use dmproxy.Server.View.{room_of}
use dmproxy.Server.View.Simulation.{in_room, told_server, room_of-served, room_of-on_platform_close}

module _ ⦃m : Messages⦄ ⦃e : Encoders⦄ (ec : ℕ → ErrorCode) (id : ℕ) where
  -- `publish` and `publish_json` of the object.
  unfoldable pub on_object :
      (Platform → Platform × List ServerCall) → Server → Server × List ServerCall
  on_object f s = (modify_platform id (λ p. (f p).0) s, (f (s.heap id)).1)

  module _ {K : Type 0} where
    -- The close callback is `on_platform_close`; it is set before the object is started. The calls
    -- of boost::asio and websocketpp do nothing to the server.
    unfoldable pub perform_call : Call K → Server → Server × List ServerCall
    unfolding on_object
    perform_call (Network.publish dm_msg) s = on_object (publish ec dm_msg) s
    perform_call (Network.publish_json uid nickname text) s =
        on_object (publish_json ec uid nickname text) s
    perform_call (close_callback roomstr) s = (on_platform_close roomstr s, [])
    perform_call _ s = (s, [])

-- What the sends of a handler's publications give, with a clear code: by the number of the
-- publication, and the connection.
abbrev pub Sends : Type 0
Sends = ℕ → ℕ → ErrorCode

abbrev pub later : Sends → Sends
later ecs n = ecs (suc n)

-- What is left of them after a call.
abbrev pub after_call : {K : Type 0} → Call K → Sends → Sends
after_call (Network.publish dm_msg) ecs = later ecs
after_call (Network.publish_json uid nickname text) ecs = later ecs
after_call _ ecs = ecs

module _ ⦃m : Messages⦄ ⦃e : Encoders⦄ {K : Type 0} where
  unfoldable pub perform_calls : Sends → ℕ → List (Call K) → Server → Server × List ServerCall
  unfolding perform_call
  perform_calls ecs id [] s = (s, [])
  perform_calls ecs id (c ∷ cs) s =
      let (t, first) = perform_call (ecs 0) id c s in
      let (u, rest) = perform_calls (after_call c ecs) id cs t in (u, first ++ rest)

module _ ⦃m : Messages⦄ ⦃b : Trimming⦄ where
  pub Reach-trans : {s t u : Server} → Reach s t → Reach t u → Reach s u
  Reach-trans r here = r
  Reach-trans r (next q st) = next (Reach-trans r q) st

-- A room that is served after all of it was served before, by the same object.
abbrev pub Shrinks : Server → Server → Type 0
Shrinks s t = (q : Bytes) (id : ℕ) → lookup q t.rp_map ≡ some id → lookup q s.rp_map ≡ some id

-- A close callback names the room of the object that calls it.
abbrev pub IsOwn : {K : Type 0} → Bytes → Call K → Type 0
IsOwn room (close_callback roomstr) = roomstr ≡ room
IsOwn room _ = Unit

module _ ⦃m : Messages⦄ ⦃e : Encoders⦄ (ec : ℕ → ErrorCode) (id : ℕ) where
  on_object-own_room :
      (x : Bytes) (s : Server) → own_room id (on_object ec id (publish ec x) s).0 ≡ own_room id s
  unfolding on_object
  on_object-own_room x s = ground (arith, publish_keeps ec x (s.heap id))

  module _ {K : Type 0} ⦃b : Trimming⦄ where
    pub perform_call-Step :
        (c : Call K) (s : Server)
        → IsOwn (own_room id s) c
        → Reach s (perform_call ec id c s).0
          × (own_room id (perform_call ec id c s).0 ≡ own_room id s)
    unfolding perform_call on_object publish_json on_platform_close
    perform_call-Step (Network.publish x) s own =
        (next here (published ec id x), on_object-own_room x s)
    perform_call-Step (Network.publish_json u n x) s own =
        (next here (published ec id _), on_object-own_room _ s)
    perform_call-Step (close_callback r) s own =
        (subst (λ q. Reach s (on_platform_close q s)) (sym own) (next here (gone id)), refl)
    perform_call-Step (async_resolve x y k) s own = (here, refl)
    perform_call-Step (async_connect x k) s own = (here, refl)
    perform_call-Step (async_write x k) s own = (here, refl)
    perform_call-Step (async_read x k) s own = (here, refl)
    perform_call-Step (async_read_until x k) s own = (here, refl)
    perform_call-Step (async_read_some k) s own = (here, refl)
    perform_call-Step (async_wait x k) s own = (here, refl)
    perform_call-Step (set_timer x k) s own = (here, refl)
    perform_call-Step socket_close s own = (here, refl)
    perform_call-Step timer_cancel s own = (here, refl)
    perform_call-Step (ws_connect x) s own = (here, refl)
    perform_call-Step (ws_send op x) s own = (here, refl)
    perform_call-Step ws_close s own = (here, refl)

  module _ {K : Type 0} where
    perform_call-Shrinks : (c : Call K) (s : Server) → Shrinks s (perform_call ec id c s).0
    unfolding perform_call on_object on_platform_close
    perform_call-Shrinks (close_callback r) s q k at = ground (arith, lookup-erase q r s.rp_map)
    perform_call-Shrinks _ s q k at = at

module _ ⦃m : Messages⦄ ⦃e : Encoders⦄ (id : ℕ) {K : Type 0} where
  -- If the close callbacks among the calls of an object name its own room, the calls are steps of
  -- the server.
  pub perform_calls-Reach :
      ⦃b : Trimming⦄ (ecs : Sends) (cs : List (Call K)) (s : Server)
      → All (IsOwn (own_room id s)) cs
      → Reach s (perform_calls ecs id cs s).0
  unfolding perform_calls
  perform_calls-Reach ecs [] s own = here
  perform_calls-Reach ecs (c ∷ cs) s (own, rest) =
      let (r, same) = perform_call-Step (ecs 0) id c s own in
      Reach-trans r (
        perform_calls-Reach (after_call c ecs) cs (perform_call (ecs 0) id c s).0
          (subst (λ room. All (IsOwn room) cs) (sym same) rest))

  -- What an object calls makes no new room.
  pub perform_calls-Shrinks :
      (ecs : Sends) (cs : List (Call K)) (s : Server) → Shrinks s (perform_calls ecs id cs s).0
  unfolding perform_calls
  perform_calls-Shrinks ecs [] s q k at = at
  perform_calls-Shrinks ecs (c ∷ cs) s q k at =
      perform_call-Shrinks (ecs 0) id c s q k
        (perform_calls-Shrinks (after_call c ecs) cs (perform_call (ecs 0) id c s).0 q k at)

module _ ⦃m : Messages⦄ ⦃e : Encoders⦄ (ecs : Sends) (id : ℕ) where
  -- In a state whose served rooms are in order, an object that serves its room and reports an error
  -- sends the reason once to each of its listeners up to the first that it cannot be sent to, and
  -- afterwards exactly those connections that had this room have none.
  pub client_report-ends :
      (K : Type 0) (x : Errc) (s : Server)
      → IsValid s
      → lookup (own_room id s) s.rp_map ≡ some id
      → let (t, calls) = perform_calls ecs id (client_report {K = K} (own_room id s) (some x)) s in
        (sent calls ≡ map (λ h. (h, closed_because x)) (tried (ecs 0) (s.heap id).listeners))
        × ((j : ℕ)
            → room_of t j ≡ (if in_room (own_room id s) (room_of s j) then none else room_of s j))
  unfolding perform_calls perform_call on_object
  client_report-ends K x s v at = (
    ap sent (append-nil (publish (ecs 0) (closed_because x) (s.heap id)).1)
        ∙ (publish_lem (ecs 0) (closed_because x) (s.heap id)).0,
    λ j.
        room_of-on_platform_close (own_room id s) j (told_server (ecs 0) id (closed_because x) s v)
        ∙ ground (arith, room_of-served (ecs 0) id (closed_because x) s v j at),
  )
