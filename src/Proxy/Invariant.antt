-- ===== src/Proxy/Invariant.antt =====
-- The whole program stays in order: the server has run as it can run alone, each object has the room
-- that it was made for, and each served room has an object that has been started.
use dmproxy.Base.{
  Bytes, ℕ, ◌<◌, ◌≡◌, refl, sym, List, [], ◌∷◌, Bool-cases, true, false, some, inl, inr, arith,
  Option-cases, ◌==◌,
}
use dmproxy.Base.Dict.{lookup}
use dmproxy.Json.{JsonApi}
use dmproxy.Network.{
  room_string, Messages, ServerCall, send, close_connection, start_platform, close_platform,
}
use dmproxy.Platforms.{Kind, huajiao, douyu, bilibili, yy}
use dmproxy.Platforms.Listeners.{has}
use dmproxy.Platforms.Publish.{Encoders}
use dmproxy.Server.{Server, Trimming, own_room, on_server_message, on_server_close, leave}
use dmproxy.Server.Delivery.{Reach-trans}
use dmproxy.Server.Joining.{started}
use dmproxy.Server.Naming.{name_of, Reach-IsNamed, Step-own_room, Reach-own_room}
use dmproxy.Server.Runs.{init, init-IsValid, Reach-IsValid}
use dmproxy.Server.Announcing.{Announces, leave-Announces, on_server_message-Announces}
use dmproxy.Douyu.Stt.{Tokenizer}
use dmproxy.Bilibili.Http as Http
use dmproxy.Yy.Client as Yy
use dmproxy.Huajiao.Protocol as Protocol
use dmproxy.Utils.Gzip.{Zlib}
use dmproxy.Server.Runs as Runs
use dmproxy.Proxy.{
  Object, room, new_object, Choices, Proxy, start_object, close_object, put, made_object, run_call,
  run_calls, handled, start_up, Step, message, closed, acts, Reach, starts, goes_on, react,
}
use dmproxy.Proxy.Rooms.{Follows, start_object-Follows, close_object-Follows, react-Follows}

room-new_object :
    (k : Kind) (roomid ram : Bytes) (sn : ℕ)
    → room (new_object k roomid ram sn) ≡ room_string (name_of k) roomid
room-new_object huajiao roomid ram sn = refl
room-new_object douyu roomid ram sn = refl
room-new_object bilibili roomid ram sn = refl
room-new_object yy roomid ram sn = refl

module _ ⦃m : Messages⦄ ⦃b : Trimming⦄ where
  -- The objects `ids` are yet to be started.
  pub record IsGood (ids : List ℕ) (w : Proxy) : Type 0 where
    pub run : Runs.Reach init w.server
    pub owned :
        (id : ℕ) (o : Object)
        → w.objects id ≡ some o
        → (id < w.server.next) × (own_room id w.server ≡ room o)
    pub below : (id : ℕ) → has id ids ≡ true → id < w.server.next
    pub served :
        (r : Bytes) (id : ℕ)
        → lookup r w.server.rp_map ≡ some id
        → has id ids ≡ false
        → (o : Object) × (w.objects id ≡ some o)

module _ ⦃m : Messages⦄ ⦃b : Trimming⦄ ⦃e : Encoders⦄ where
  pub owes :
      {w : Proxy} (id : ℕ) (ids : List ℕ) → id < w.server.next → IsGood ids w → IsGood (id ∷ ids) w
  unfolding has
  owes id ids lt g = record {
    run = g.run;
    owned = g.owned;
    below = λ i h. ground (arith, g.below i);
    served = λ r i e n. g.served r i e (ground arith);
  }

  put-IsGood :
      (id : ℕ) (ids : List ℕ) (o : Object) (w : Proxy) (r : Object × Server × List ServerCall)
      → IsGood (id ∷ ids) w
      → own_room id w.server ≡ room o
      → Follows id o w.server r
      → IsGood ids (put id r w)
  unfolding has
  put-IsGood id ids o w (p, t, sends) g at f = record {
    run = Reach-trans g.run f.steps;
    owned = owned_lem;
    below = λ i h. ground (arith, g.below i, Reach-own_room i f.steps);
    served = served_lem;
  }
    where
      owned_lem :
          (i : ℕ) (q : Object)
          → (put id (p, t, sends) w).objects i ≡ some q
          → (i < t.next) × (own_room i t ≡ room q)
      owned_lem i q e =
          ground (arith, g.owned i q, g.below id, Reach-own_room i f.steps, at, f.same)

      served_lem :
          (r : Bytes) (i : ℕ)
          → lookup r t.rp_map ≡ some i
          → has i ids ≡ false
          → (q : Object) × ((put id (p, t, sends) w).objects i ≡ some q)
      served_lem r i e n = elim (Bool-cases (id == i)) [
        | inl y ↦ (p, ground arith)
        | inr y ↦ let (q, made) = g.served r i (f.shrinks r i e) (ground arith) in (q, ground arith)
      ]

  module _ (ch : Choices) where
    pub room-made_object :
        (id : ℕ) (ids : List ℕ) (w : Proxy)
        → IsGood (id ∷ ids) w
        → own_room id w.server ≡ room (made_object ch id w)
    unfolding has
    room-made_object id ids w g = elim (Option-cases (w.objects id)) [
      | inl e ↦
          rw (e, made_object, Reach-IsNamed g.run id (g.below id (ground arith)))
            (sym (room-new_object (w.server.heap id).kind (w.server.heap id).roomid ch.ram ch.sn))
      | inr (o, e) ↦ rw (e, made_object) (g.owned id o e).1
    ]

    pub run_call-IsGood :
        (c : ServerCall) (cs : List ServerCall) (w : Proxy)
        → IsGood (started (c ∷ cs)) w
        → IsGood (started cs) (run_call ch c w)
    unfolding run_call
    run_call-IsGood (send hdl x) cs w g = g
    run_call-IsGood (close_connection hdl x) cs w g = g
    run_call-IsGood (start_platform id) cs w g =
        put-IsGood id (started cs) (made_object ch id w) w
          (start_object ch.send_ec id ch.start_ec (made_object ch id w) w.server) g
          (room-made_object id (started cs) w g)
          (start_object-Follows ch.send_ec id ch.start_ec (made_object ch id w) w.server
            (room-made_object id (started cs) w g))
    run_call-IsGood (close_platform id) cs w g = elim (Option-cases (w.objects id)) [
      | inl e ↦ rw (e, run_call) g
      | inr (o, e) ↦
          rw (e, run_call)
            (put-IsGood id (started cs) o w (close_object ch.send_ec id ch.close_ec o w.server)
              (owes id (started cs) (g.owned id o e).0 g) (g.owned id o e).1
              (close_object-Follows ch.send_ec id ch.close_ec o w.server (g.owned id o e).1))
    ]

    pub run_calls-IsGood :
        (cs : List ServerCall) (w : Proxy) → IsGood (started cs) w → IsGood [] (run_calls ch cs w)
    unfolding run_calls
    run_calls-IsGood [] w g = g
    run_calls-IsGood (c ∷ cs) w g = run_calls-IsGood cs (run_call ch c w) (run_call-IsGood c cs w g)

    -- A handler that has taken a step of the server, before what it calls.
    pub begun-IsGood :
        (t : Server) (cs : List ServerCall) (w : Proxy)
        → IsGood [] w
        → Runs.Step w.server t
        → Announces w.server (t, cs)
        → IsGood (started cs) (record w { server = t })
    unfolding has
    begun-IsGood t cs w g step a = record {
      run = Runs.next g.run step;
      owned = λ id o e. ground (arith, g.owned id o e, Step-own_room id step);
      below = a.below;
      served = λ r id e n. g.served r id (a.served r id e n) refl;
    }

    handled-IsGood :
        (t : Server) (cs : List ServerCall) (w : Proxy)
        → IsGood [] w
        → Runs.Step w.server t
        → Announces w.server (t, cs)
        → IsGood [] (handled ch (t, cs) w)
    unfolding handled
    handled-IsGood t cs w g step a =
        run_calls-IsGood cs (record w { server = t }) (begun-IsGood t cs w g step a)

pub start_up-IsGood : ⦃m : Messages⦄ ⦃b : Trimming⦄ → IsGood [] start_up
unfolding has lookup
start_up-IsGood = record {
  run = Runs.here;
  owned = λ id o e. ground arith;
  below = λ id h. ground arith;
  served = λ r id e n. cc;
}

module _ ⦃m : Messages⦄ ⦃e : Encoders⦄ ⦃k : Tokenizer⦄ ⦃x : Http.Xml⦄ ⦃cx : Yy.ChatXml⦄
    ⦃b : Trimming⦄ (j : JsonApi) (p : Protocol.Protobuf) (y : Protocol.Crypto) (z : Zlib) where
  Step-IsGood : {w v : Proxy} → Step j p y z w v → IsGood [] w → IsGood [] v
  unfolding leave lookup on_server_close
  Step-IsGood {w} (message ch ec hdl op payload free) g =
      let (t, cs) = on_server_message ec (w.server.message_room hdl) hdl op payload w.server in
      handled-IsGood ch t cs w g (Runs.message ec hdl op payload)
        (on_server_message-Announces ec hdl op payload w.server (Reach-IsValid init-IsValid g.run))
  Step-IsGood {w} (closed ch hdl r e free) g =
      let (t, cs) = on_server_close r hdl w.server in
      handled-IsGood ch t cs w g (Runs.closed hdl r e) (leave-Announces r hdl w.server)
  Step-IsGood {w} (acts ec id ev o e) g =
      put-IsGood id [] o w (react j p y z ec id ev o w.server) (owes id [] (g.owned id o e).0 g)
        (g.owned id o e).1 (react-Follows ec id j p y z ev o w.server (g.owned id o e).1)

  pub Reach-IsGood : {w : Proxy} → Reach j p y z w → IsGood [] w
  Reach-IsGood starts = start_up-IsGood
  Reach-IsGood (goes_on r st) = Step-IsGood st (Reach-IsGood r)
