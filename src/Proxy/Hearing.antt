-- ===== src/Proxy/Hearing.antt =====
-- What each client of the whole program gets when something happens to an object.
use dmproxy.Base.{Bytes, ℕ, ◌≡◌, refl, sym, subst, List, [], some}
use dmproxy.Base.Dict.{lookup}
use dmproxy.Json.{JsonApi}
use dmproxy.Network.{Messages}
use dmproxy.Network.Life
use dmproxy.Platforms.Distinct.{IsDistinct}
use dmproxy.Platforms.Publish.{Encoders, sent}
use dmproxy.Utils.Gzip.{Zlib}
use dmproxy.Server.{Server, Trimming, own_room}
use dmproxy.Server.Delivery.{Sends}
use dmproxy.Server.Delivery.Audience.{texts}
use dmproxy.Server.Delivery.Received.{received, Hears, perform_calls-Hears}
use dmproxy.Server.Distinct.{Reach-HasSets}
use dmproxy.Server.Invariant.{IsValid}
use dmproxy.Server.Runs.{init-IsValid, Reach-IsValid}
use dmproxy.Douyu.Stt.{Tokenizer}
use dmproxy.Douyu.Life as DouyuLife
use dmproxy.Bilibili.Http as Http
use dmproxy.Bilibili.Life as BilibiliLife
use dmproxy.Yy.Client as Yy
use dmproxy.Yy.Timer as YyTimer
use dmproxy.Huajiao.Protocol as Protocol
use dmproxy.Huajiao.Events as HuajiaoEvents
use dmproxy.Proxy.{
  Object, huajiao_object, douyu_object, bilibili_object, yy_object, room, Event, huajiao_event,
  douyu_event, bilibili_event, yy_event, Proxy, react, Reach,
}
use dmproxy.Proxy.Invariant.{Reach-IsGood}

-- An object that publishes nothing.
silent-Hears : (i : ℕ) (q : Bytes) (ecs : Sends) (s : Server) → Hears i q ecs s [] []
unfolding received
silent-Hears i q ecs s = (λ away. refl, (0, refl), λ fine inside. refl)

module _ ⦃m : Messages⦄ ⦃e : Encoders⦄ ⦃k : Tokenizer⦄ ⦃x : Http.Xml⦄ ⦃cx : Yy.ChatXml⦄
    (j : JsonApi) (p : Protocol.Protobuf) (y : Protocol.Crypto) (z : Zlib) where
  -- The texts that an object publishes when something happens to it.
  abbrev pub announced : Event → Object → List Bytes
  announced (huajiao_event ev) (huajiao_object c) = texts (HuajiaoEvents.handle j p y z ev c).2
  announced (douyu_event ev) (douyu_object c) = texts (Life.handle DouyuLife.lifetime ev c).2
  announced (bilibili_event ev) (bilibili_object c) =
      texts (Life.handle (BilibiliLife.lifetime j) ev c).2
  announced (yy_event ev) (yy_object c) = texts (YyTimer.handle j ev c).2
  announced ev o = []

  react-Hears :
      (ecs : Sends) (id i : ℕ) (ev : Event) (o : Object) (s : Server)
      → IsValid s
      → IsDistinct (s.heap id).listeners
      → lookup (own_room id s) s.rp_map ≡ some id
      → Hears i (own_room id s) ecs s (sent (react j p y z ecs id ev o s).2) (announced ev o)
  react-Hears ecs id i (huajiao_event ev) (huajiao_object c) s v d at =
      perform_calls-Hears ecs id (HuajiaoEvents.handle j p y z ev c).2 s i v d at
  react-Hears ecs id i (douyu_event ev) (douyu_object c) s v d at =
      perform_calls-Hears ecs id (Life.handle DouyuLife.lifetime ev c).2 s i v d at
  react-Hears ecs id i (bilibili_event ev) (bilibili_object c) s v d at =
      perform_calls-Hears ecs id (Life.handle (BilibiliLife.lifetime j) ev c).2 s i v d at
  react-Hears ecs id i (yy_event ev) (yy_object c) s v d at =
      perform_calls-Hears ecs id (YyTimer.handle j ev c).2 s i v d at
  react-Hears ecs id i (huajiao_event ev) (douyu_object c) s v d at =
      silent-Hears i (own_room id s) ecs s
  react-Hears ecs id i (huajiao_event ev) (bilibili_object c) s v d at =
      silent-Hears i (own_room id s) ecs s
  react-Hears ecs id i (huajiao_event ev) (yy_object c) s v d at =
      silent-Hears i (own_room id s) ecs s
  react-Hears ecs id i (douyu_event ev) (huajiao_object c) s v d at =
      silent-Hears i (own_room id s) ecs s
  react-Hears ecs id i (douyu_event ev) (bilibili_object c) s v d at =
      silent-Hears i (own_room id s) ecs s
  react-Hears ecs id i (douyu_event ev) (yy_object c) s v d at =
      silent-Hears i (own_room id s) ecs s
  react-Hears ecs id i (bilibili_event ev) (huajiao_object c) s v d at =
      silent-Hears i (own_room id s) ecs s
  react-Hears ecs id i (bilibili_event ev) (douyu_object c) s v d at =
      silent-Hears i (own_room id s) ecs s
  react-Hears ecs id i (bilibili_event ev) (yy_object c) s v d at =
      silent-Hears i (own_room id s) ecs s
  react-Hears ecs id i (yy_event ev) (huajiao_object c) s v d at =
      silent-Hears i (own_room id s) ecs s
  react-Hears ecs id i (yy_event ev) (douyu_object c) s v d at =
      silent-Hears i (own_room id s) ecs s
  react-Hears ecs id i (yy_event ev) (bilibili_object c) s v d at =
      silent-Hears i (own_room id s) ecs s

  module _ ⦃b : Trimming⦄ where
    -- In every state that the whole program reaches, let something happen to an object that serves
    -- its room, of any of the four platforms. A connection that is in another room or in none is
    -- sent nothing. Any connection is sent the first of the texts that the object publishes, once
    -- and in order, up to some number; and one in the room is sent all of them if no send to a
    -- connection in the room fails.
    pub react-received :
        {w : Proxy} (ecs : Sends) (id i : ℕ) (ev : Event) (o : Object)
        → Reach j p y z w
        → w.objects id ≡ some o
        → lookup (room o) w.server.rp_map ≡ some id
        → Hears i
            (room o)
            ecs
            w.server
            (sent (react j p y z ecs id ev o w.server).2)
            (announced ev o)
    react-received {w} ecs id i ev o r e at =
        let g = Reach-IsGood j p y z r in
        let own = (g.owned id o e).1 in
        subst
          (λ q.
            Hears i q ecs w.server (sent (react j p y z ecs id ev o w.server).2) (announced ev o))
          own
          (react-Hears ecs id i ev o w.server (Reach-IsValid init-IsValid g.run)
            (Reach-HasSets g.run id) (subst (λ q. lookup q w.server.rp_map ≡ some id) (sym own) at))
