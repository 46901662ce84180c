-- ===== src/Server/Delivery/Inputs.antt =====
-- platforms/platform_base.cpp and main.cpp: what the calls of an object are to the table of rooms.
use dmproxy.Base.{ℕ, sym, subst, List, [], ◌∷◌, ◌++◌, All}
use dmproxy.Network.{Messages, ErrorCode, failed, Call, close_callback}
use dmproxy.Network
use dmproxy.Platforms.Listeners.{has}
use dmproxy.Platforms.Publish.{given_up, Encoders, publish_json}
use dmproxy.Server.{Server, Trimming, own_room}
use dmproxy.Server.Invariant.{IsValid}
use dmproxy.Server.Runs.{Reach-IsValid}
use dmproxy.Server.View.{room_of}
use dmproxy.Server.View.Simulation.{
  Rooms, Input, ends, tells, Change, ended, Runs, continues, published-Change,
  room_of-on_platform_close,
}
use dmproxy.Server.Delivery.{
  Sends, after_call, IsOwn, perform_call, perform_calls, perform_call-Step, on_object,
}

-- Changes one after another, by inputs of which the first comes first.
pub data Changes : Rooms → List Input → Rooms → Type 0 where
  unchanged : {f : Rooms} → Changes f [] f
  changed :
      {f g h : Rooms} {i : Input} {is : List Input}
      → Change f g i
      → Changes g is h
      → Changes f (i ∷ is) h

pub Changes-append :
    {f g h : Rooms} {is js : List Input} → Changes f is g → Changes g js h → Changes f (is ++ js) h
Changes-append unchanged d = d
Changes-append (changed x c) d = changed x (Changes-append c d)

-- The inputs of a run, the last of which comes first, and more behind them.
abbrev pub after : List Input → List Input → List Input
after [] past = past
after (i ∷ is) past = after is (i ∷ past)

pub Runs-Changes :
    {f g : Rooms} {is past : List Input} → Runs past f → Changes f is g → Runs (after is past) g
Runs-Changes r unchanged = r
Runs-Changes r (changed x c) = Runs-Changes (continues r x) c

module _ ⦃m : Messages⦄ ⦃e : Encoders⦄ (id : ℕ) {K : Type 0} where
  -- What an object says in a state of the server: a text gives those listeners up that stand from
  -- the first on to which it cannot be sent.
  abbrev pub said_by : (ℕ → ErrorCode) → Call K → Server → List Input
  said_by ec (Network.publish dm_msg) s =
      tells (own_room id s) (λ j. has j (given_up ec (s.heap id).listeners)) ∷ []
  said_by ec (Network.publish_json uid nickname text) s =
      tells (own_room id s) (λ j. has j (given_up ec (s.heap id).listeners)) ∷ []
  said_by ec (close_callback roomstr) s = ends roomstr ∷ []
  said_by ec _ s = []

  abbrev pub said : Sends → List (Call K) → Server → List Input
  said ecs [] s = []
  said ecs (c ∷ cs) s =
      said_by (ecs 0) c s ++ said (after_call c ecs) cs (perform_call (ecs 0) id c s).0

module _ ⦃m : Messages⦄ ⦃e : Encoders⦄ ⦃b : Trimming⦄ (id : ℕ) {K : Type 0} where
  perform_call-Changes :
      (ec : ℕ → ErrorCode) (c : Call K) (s : Server)
      → IsValid s
      → Changes (room_of s) (said_by id ec c s) (room_of (perform_call ec id c s).0)
  unfolding perform_call on_object publish_json
  perform_call-Changes ec (Network.publish x) s v = changed (published-Change ec id x s v) unchanged
  perform_call-Changes ec (Network.publish_json u n x) s v =
      changed (published-Change ec id _ s v) unchanged
  perform_call-Changes ec (close_callback r) s v =
      changed (ended r (λ j. room_of-on_platform_close r j s)) unchanged
  perform_call-Changes ec _ s v = unchanged

  -- In a state whose served rooms are in order, what an object calls, with close callbacks that
  -- name its own room, changes the table by what it says.
  pub perform_calls-Changes :
      (ecs : Sends) (cs : List (Call K)) (s : Server)
      → IsValid s
      → All (IsOwn (own_room id s)) cs
      → Changes (room_of s) (said id ecs cs s) (room_of (perform_calls ecs id cs s).0)
  unfolding perform_calls
  perform_calls-Changes ecs [] s v own = unchanged
  perform_calls-Changes ecs (c ∷ cs) s v (own, rest) =
      let (r, same) = perform_call-Step (ecs 0) id c s own in
      let t = (perform_call (ecs 0) id c s).0 in
      Changes-append (perform_call-Changes (ecs 0) c s v) (
        perform_calls-Changes (after_call c ecs) cs t (Reach-IsValid v r)
          (subst (λ q. All (IsOwn q) cs) (sym same) rest))
