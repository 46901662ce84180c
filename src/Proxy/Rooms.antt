-- ===== src/Proxy/Rooms.antt =====
-- The objects of the program: whatever starts, closes or calls one, it keeps the room it was made for,
-- and what it calls takes the server along steps of its own.
use dmproxy.Base.{some, Bytes, ℕ, ◌≡◌, refl, sym, ◌∙◌, subst, List, [], All}
use dmproxy.Json.{JsonApi}
use dmproxy.Network.{Messages, ErrorCode, ServerCall}
use dmproxy.Network.Action.{Action}
use dmproxy.Platforms.Publish.{Encoders, sent}
use dmproxy.Utils.Gzip.{Zlib}
use dmproxy.Server.{Server, Trimming, own_room}
use dmproxy.Server.Delivery.{Sends, IsOwn, Shrinks, perform_calls-Reach, perform_calls-Shrinks}
use dmproxy.Server.Delivery.Audience.{IsHeardIn, perform_calls-IsHeardIn}
use dmproxy.Server.Invariant.{IsValid}
use dmproxy.Base.Dict.{lookup}
use dmproxy.Server.Runs.{Reach, here}
use dmproxy.Douyu.Stt.{Tokenizer}
use dmproxy.Douyu.Client as Douyu
use dmproxy.Bilibili.Client as Bilibili
use dmproxy.Bilibili.Http as Http
use dmproxy.Yy.Client as Yy
use dmproxy.Yy.Timer as YyTimer
use dmproxy.Huajiao.Client as Huajiao
use dmproxy.Huajiao.Protocol as Protocol
use dmproxy.Huajiao.Events as HuajiaoEvents
use dmproxy.Huajiao.Session as Session
use dmproxy.Douyu.Life as DouyuLife
use dmproxy.Bilibili.Life as BilibiliLife
use dmproxy.Network.Life
use dmproxy.Proxy.Clients.{Keeps}
use dmproxy.Proxy.Clients.DouyuRoom
use dmproxy.Proxy.Clients.BilibiliRoom
use dmproxy.Proxy.Clients.YyRoom
use dmproxy.Proxy.Clients.HuajiaoRoom
use dmproxy.Proxy.{
  Object, huajiao_object, douyu_object, bilibili_object, yy_object, room, Event, huajiao_event,
  douyu_event, bilibili_event, yy_event, carry, start_object, close_object, react,
}

module _ ⦃m : Messages⦄ ⦃b : Trimming⦄ where
  -- What the object `id`, which was `o`, became, the server that was `s`, and what has been sent.
  pub record Follows (id : ℕ) (o : Object) (s : Server) (r : Object × Server × List ServerCall)
      : Type 0 where
    pub steps : Reach s r.1
    pub same : room r.0 ≡ room o
    pub shrinks : Shrinks s r.1
    pub heard :
        IsValid s
        → lookup (own_room id s) s.rp_map ≡ some id
        → All (IsHeardIn s (own_room id s)) (sent r.2)

  stays : (id : ℕ) (o : Object) (s : Server) → Follows id o s (o, s, [])
  stays id o s = record { steps = here; same = refl; shrinks = λ q i e. e; heard = λ v at. tt }

module _ ⦃m : Messages⦄ ⦃e : Encoders⦄ ⦃b : Trimming⦄ (ec : Sends) (id : ℕ) where
  carry-Follows :
      {S K : Type 0} (wrap : S → Object) (name : S → Bytes) (act : Action S K (Unit {0})) (c : S)
      (s : Server)
      → ((d : S) → room (wrap d) ≡ name d)
      → Keeps name c (act c)
      → own_room id s ≡ room (wrap c)
      → Follows id (wrap c) s (carry ec id wrap (act c) s)
  carry-Follows wrap name act c s named (own, same) at = record {
    steps =
        perform_calls-Reach id ec (act c).2 s
          (subst (λ q. All (IsOwn q) (act c).2) (sym (named c) ∙ sym at) own);
    same = named (act c).1 ∙ same ∙ sym (named c);
    shrinks = perform_calls-Shrinks id ec (act c).2 s;
    heard = perform_calls-IsHeardIn ec id (act c).2 s;
  }

  pub start_object-Follows :
      (x : ErrorCode) (o : Object) (s : Server)
      → own_room id s ≡ room o
      → Follows id o s (start_object ec id x o s)
  start_object-Follows x (huajiao_object c) s at =
      carry-Follows huajiao_object Huajiao.room (Session.start x) c s (λ d. refl)
        (HuajiaoRoom.start-KeepsRoom.keeps x c) at
  start_object-Follows x (douyu_object c) s at =
      carry-Follows douyu_object Douyu.room Douyu.start c s (λ d. refl) (DouyuRoom.start-room c) at
  start_object-Follows x (bilibili_object c) s at =
      carry-Follows bilibili_object Bilibili.room Http.start c s (λ d. refl)
        (BilibiliRoom.start-room c) at
  start_object-Follows x (yy_object c) s at =
      carry-Follows yy_object Yy.room (Yy.start x) c s (λ d. refl)
        (YyRoom.start-KeepsRoom.keeps x c) at

  pub close_object-Follows :
      (x : ErrorCode) (o : Object) (s : Server)
      → own_room id s ≡ room o
      → Follows id o s (close_object ec id x o s)
  close_object-Follows x (huajiao_object c) s at =
      carry-Follows huajiao_object Huajiao.room (Session.close x) c s (λ d. refl)
        (HuajiaoRoom.close-room x c) at
  close_object-Follows x (douyu_object c) s at =
      carry-Follows douyu_object Douyu.room Douyu.close c s (λ d. refl) (DouyuRoom.close-room c) at
  close_object-Follows x (bilibili_object c) s at =
      carry-Follows bilibili_object Bilibili.room Bilibili.close c s (λ d. refl)
        (BilibiliRoom.close-room c) at
  close_object-Follows x (yy_object c) s at =
      carry-Follows yy_object Yy.room (Yy.close x) c s (λ d. refl) (YyRoom.close-room x c) at

  module _ ⦃k : Tokenizer⦄ ⦃x : Http.Xml⦄ ⦃cx : Yy.ChatXml⦄ (j : JsonApi) (p : Protocol.Protobuf)
      (y : Protocol.Crypto) (z : Zlib) where
    pub react-Follows :
        (ev : Event) (o : Object) (s : Server)
        → own_room id s ≡ room o
        → Follows id o s (react j p y z ec id ev o s)
    react-Follows (huajiao_event ev) (huajiao_object c) s at =
        carry-Follows huajiao_object Huajiao.room (HuajiaoEvents.handle j p y z ev) c s (λ d. refl)
          ((HuajiaoRoom.handle-KeepsRoom j p y z).keeps ev c) at
    react-Follows (douyu_event ev) (douyu_object c) s at =
        carry-Follows douyu_object Douyu.room (Life.handle DouyuLife.lifetime ev) c s (λ d. refl)
          (DouyuRoom.handle-KeepsRoom.keeps ev c) at
    react-Follows (bilibili_event ev) (bilibili_object c) s at =
        carry-Follows bilibili_object Bilibili.room (Life.handle (BilibiliLife.lifetime j) ev) c s
          (λ d. refl) ((BilibiliRoom.handle-KeepsRoom j).keeps ev c) at
    react-Follows (yy_event ev) (yy_object c) s at =
        carry-Follows yy_object Yy.room (YyTimer.handle j ev) c s (λ d. refl)
          ((YyRoom.handle-KeepsRoom j).keeps ev c) at
    react-Follows (huajiao_event ev) (douyu_object c) s at = stays id (douyu_object c) s
    react-Follows (huajiao_event ev) (bilibili_object c) s at = stays id (bilibili_object c) s
    react-Follows (huajiao_event ev) (yy_object c) s at = stays id (yy_object c) s
    react-Follows (douyu_event ev) (huajiao_object c) s at = stays id (huajiao_object c) s
    react-Follows (douyu_event ev) (bilibili_object c) s at = stays id (bilibili_object c) s
    react-Follows (douyu_event ev) (yy_object c) s at = stays id (yy_object c) s
    react-Follows (bilibili_event ev) (huajiao_object c) s at = stays id (huajiao_object c) s
    react-Follows (bilibili_event ev) (douyu_object c) s at = stays id (douyu_object c) s
    react-Follows (bilibili_event ev) (yy_object c) s at = stays id (yy_object c) s
    react-Follows (yy_event ev) (huajiao_object c) s at = stays id (huajiao_object c) s
    react-Follows (yy_event ev) (douyu_object c) s at = stays id (douyu_object c) s
    react-Follows (yy_event ev) (bilibili_object c) s at = stays id (bilibili_object c) s
