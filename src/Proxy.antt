-- ===== src/Proxy.antt =====
-- The whole program: the server of main.cpp with the platform objects that it has started.
pub mod Clients
pub mod Rooms
pub mod Invariant
pub mod Silence
pub mod Trace
pub mod Hearing
pub mod Service
pub mod Asking
pub mod Threads
pub mod Comments
use dmproxy.Base.{Bytes, ℕ, ◌≡◌, List, [], ◌∷◌, Option, none, some, true}
use dmproxy.Json.{JsonApi}
use dmproxy.Network.{
  Messages, ErrorCode, Opcode, ServerCall, send, close_connection, start_platform, close_platform,
}
use dmproxy.Network.Action.{Outcome}
use dmproxy.Network.{Call}
use dmproxy.Network.Life
use dmproxy.Platforms.{Kind, huajiao, douyu, bilibili, yy}
use dmproxy.Platforms.Publish.{Encoders}
use dmproxy.Utils.Gzip.{Zlib}
use dmproxy.Locks.{nothing_held, ordered}
use dmproxy.Locks.Handlers.{on_server_message_locks, on_server_close_locks}
use dmproxy.Server.{Server, Trimming, update, on_server_message, on_server_close}
use dmproxy.Server.Delivery.{Sends, perform_calls}
use dmproxy.Server.Runs.{init}
use dmproxy.Douyu.Stt.{Tokenizer}
use dmproxy.Douyu.Client as Douyu
use dmproxy.Douyu.Life as DouyuLife
use dmproxy.Bilibili.Client as Bilibili
use dmproxy.Bilibili.Http as Http
use dmproxy.Bilibili.Life as BilibiliLife
use dmproxy.Yy.Client as Yy
use dmproxy.Yy.Timer as YyTimer
use dmproxy.Huajiao.Client as Huajiao
use dmproxy.Huajiao.Protocol as Protocol
use dmproxy.Huajiao.Session as Session
use dmproxy.Huajiao.Events as HuajiaoEvents

-- An object of each of the four classes.
pub data Object : Type 0 where
  huajiao_object : Huajiao.Client → Object
  douyu_object : Douyu.Client → Object
  bilibili_object : Bilibili.Client → Object
  yy_object : Yy.Client → Object

abbrev pub room : Object → Bytes
room (huajiao_object c) = Huajiao.room c
room (douyu_object c) = Douyu.room c
room (bilibili_object c) = Bilibili.room c
room (yy_object c) = Yy.room c

-- The constructors; `ram` and `sn` are what the one of Huajiao draws.
abbrev pub new_object : Kind → Bytes → Bytes → ℕ → Object
new_object huajiao roomid ram sn = huajiao_object (Huajiao.new_client roomid ram sn)
new_object douyu roomid ram sn = douyu_object (record { roomid = roomid; endpoint = 0 })
new_object bilibili roomid ram sn = bilibili_object (Bilibili.new_client roomid)
new_object yy roomid ram sn = yy_object (Yy.new_client roomid)

-- What calls an object from outside of the server's handlers.
pub data Event : Type 0 where
  huajiao_event : HuajiaoEvents.Event → Event
  douyu_event : Life.Event Douyu.Handler DouyuLife.Result → Event
  bilibili_event : Life.Event Bilibili.Handler BilibiliLife.Result → Event
  yy_event : YyTimer.Event → Event

-- What the libraries return to a handler of the server: from the calls in `start` and in `close`,
-- from each send, and what a constructor draws.
pub record Choices : Type 0 where
  pub start_ec : ErrorCode
  pub close_ec : ErrorCode
  pub send_ec : Sends
  pub ram : Bytes
  pub sn : ℕ

-- The server and the objects that have been started, by number.
pub record Proxy : Type 0 where
  pub server : Server
  pub objects : ℕ → Option Object

abbrev pub start_up : Proxy
start_up = record { server = init; objects = λ id. none }

module _ ⦃m : Messages⦄ ⦃e : Encoders⦄ (send_ec : Sends) (id : ℕ) where
  -- The object after an action, and what the action's calls do to the server. An action that faults
  -- throws in the source, which ends the program: to go on after it adds runs and takes none away.
  abbrev pub carry :
      {S K : Type 0}
      → (S → Object)
      → Outcome (Unit {0}) × S × List (Call K)
      → Server
      → Object × Server × List ServerCall
  carry wrap (out, c, calls) s =
      let (t, sends) = perform_calls send_ec id calls s in (wrap c, t, sends)

  -- The virtual `start` and `close`.
  abbrev pub start_object : ErrorCode → Object → Server → Object × Server × List ServerCall
  start_object ec (huajiao_object c) = carry huajiao_object (Session.start ec c)
  start_object ec (douyu_object c) = carry douyu_object (Douyu.start c)
  start_object ec (bilibili_object c) = carry bilibili_object (Http.start c)
  start_object ec (yy_object c) = carry yy_object (Yy.start ec c)

  abbrev pub close_object : ErrorCode → Object → Server → Object × Server × List ServerCall
  close_object ec (huajiao_object c) = carry huajiao_object (Session.close ec c)
  close_object ec (douyu_object c) = carry douyu_object (Douyu.close c)
  close_object ec (bilibili_object c) = carry bilibili_object (Bilibili.close c)
  close_object ec (yy_object c) = carry yy_object (Yy.close ec c)

abbrev pub put : ℕ → Object × Server × List ServerCall → Proxy → Proxy
put id (o, t, sends) w = record { server = t; objects = update w.objects id (some o) }

-- The object with a number; the constructor has run when it was put into `heap`.
abbrev pub made_object : Choices → ℕ → Proxy → Object
made_object ch id w = elim (w.objects id) [
  | none ↦ new_object (w.server.heap id).kind (w.server.heap id).roomid ch.ram ch.sn
  | some o ↦ o
]

module _ ⦃m : Messages⦄ ⦃e : Encoders⦄ (ch : Choices) where
  -- A call of a server's handler, carried out. A handler calls `close` before it forgets the room;
  -- where `close` reports no error, it does nothing to the server.
  unfoldable pub run_call : ServerCall → Proxy → Proxy
  run_call (send hdl x) w = w
  run_call (close_connection hdl x) w = w
  run_call (start_platform id) w =
      put id (start_object ch.send_ec id ch.start_ec (made_object ch id w) w.server) w
  run_call (close_platform id) w = elim (w.objects id) [
    | none ↦ w
    | some o ↦ put id (close_object ch.send_ec id ch.close_ec o w.server) w
  ]

  unfoldable pub run_calls : List ServerCall → Proxy → Proxy
  unfolding run_call
  run_calls [] w = w
  run_calls (c ∷ cs) w = run_calls cs (run_call c w)

  -- A handler of the server, and the calls that it makes.
  unfoldable pub handled : Server × List ServerCall → Proxy → Proxy
  unfolding run_calls
  handled (t, calls) w = run_calls calls (record w { server = t })

module _ ⦃m : Messages⦄ ⦃e : Encoders⦄ ⦃k : Tokenizer⦄ ⦃x : Http.Xml⦄ ⦃cx : Yy.ChatXml⦄
    (j : JsonApi) (p : Protocol.Protobuf) (y : Protocol.Crypto) (z : Zlib) where
  -- An event of another class does not reach the object.
  abbrev pub react : Sends → ℕ → Event → Object → Server → Object × Server × List ServerCall
  react ec id (huajiao_event ev) (huajiao_object c) =
      carry ec id huajiao_object (HuajiaoEvents.handle j p y z ev c)
  react ec id (douyu_event ev) (douyu_object c) =
      carry ec id douyu_object (Life.handle DouyuLife.lifetime ev c)
  react ec id (bilibili_event ev) (bilibili_object c) =
      carry ec id bilibili_object (Life.handle (BilibiliLife.lifetime j) ev c)
  react ec id (yy_event ev) (yy_object c) = carry ec id yy_object (YyTimer.handle j ev c)
  react ec id ev o = λ s. (o, s, [])

  module _ ⦃b : Trimming⦄ where
    -- A frame arrives or a connection closes, and the handler finds every mutex that it takes
    -- sooner or later free: one that waits for a mutex that it holds itself never returns, and is no
    -- step. Or something happens to an object, in any order; so more may happen here than can.
    pub data Step (w : Proxy) : Proxy → Type 0 where
      message :
          (ch : Choices) (ec : ErrorCode) (hdl : ℕ) (op : Opcode) (payload : Bytes)
          → ordered nothing_held (
              on_server_message_locks ch.close_ec ch.start_ec
                (w.server.message_room hdl)
                hdl
                op
                payload
                w.server)
            ≡ true
          → Step w (
              handled ch
                (on_server_message ec (w.server.message_room hdl) hdl op payload w.server)
                w)
      closed :
          (ch : Choices) (hdl : ℕ) (r : Bytes)
          → w.server.close_room hdl ≡ some r
          → ordered nothing_held (on_server_close_locks ch.close_ec ch.start_ec r hdl w.server)
            ≡ true
          → Step w (handled ch (on_server_close r hdl w.server) w)
      acts :
          (ec : Sends) (id : ℕ) (ev : Event) (o : Object)
          → w.objects id ≡ some o
          → Step w (put id (react ec id ev o w.server) w)

    pub data Reach : Proxy → Type 0 where
      starts : Reach start_up
      goes_on : {w v : Proxy} → Reach w → Step w v → Reach v
