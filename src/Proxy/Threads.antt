-- ===== src/Proxy/Threads.antt =====
-- The threads of the whole program, which run its handlers and wait for its mutexes.
use dmproxy.Base.{ℕ, ◌≡◌, List, [], ◌∷◌, Bool, true}
use dmproxy.Json.{JsonApi}
use dmproxy.Network.{Messages}
use dmproxy.Network.Life
use dmproxy.Platforms.Publish.{Encoders}
use dmproxy.Utils.Gzip.{Zlib}
use dmproxy.Locks.{Mutex, LockOp}
use dmproxy.Locks.Calls.{calls_locks}
use dmproxy.Locks.Handlers.{on_server_message_locks, on_server_close_locks}
use dmproxy.Locks.System.{System, grants, idle, move}
use dmproxy.Locks.System as Locks
use dmproxy.Server.{Trimming, update}
use dmproxy.Douyu.Stt.{Tokenizer}
use dmproxy.Douyu.Life as DouyuLife
use dmproxy.Bilibili.Http as Http
use dmproxy.Bilibili.Life as BilibiliLife
use dmproxy.Yy.Client as Yy
use dmproxy.Yy.Timer as YyTimer
use dmproxy.Huajiao.Protocol as Protocol
use dmproxy.Huajiao.Events as HuajiaoEvents
use dmproxy.Proxy.{
  Object, huajiao_object, douyu_object, bilibili_object, yy_object, Event, huajiao_event,
  douyu_event, bilibili_event, yy_event, Proxy, Step, message, closed, acts,
}

module _ ⦃m : Messages⦄ ⦃e : Encoders⦄ ⦃k : Tokenizer⦄ ⦃x : Http.Xml⦄ ⦃cx : Yy.ChatXml⦄
    (j : JsonApi) (p : Protocol.Protobuf) (y : Protocol.Crypto) (z : Zlib) where
  -- What an object takes when something happens to it.
  abbrev pub react_locks : ℕ → Event → Object → List LockOp
  react_locks id (huajiao_event ev) (huajiao_object c) =
      calls_locks id (HuajiaoEvents.handle j p y z ev c).2
  react_locks id (douyu_event ev) (douyu_object c) =
      calls_locks id (Life.handle DouyuLife.lifetime ev c).2
  react_locks id (bilibili_event ev) (bilibili_object c) =
      calls_locks id (Life.handle (BilibiliLife.lifetime j) ev c).2
  react_locks id (yy_event ev) (yy_object c) = calls_locks id (YyTimer.handle j ev c).2
  react_locks id ev o = []

  module _ ⦃b : Trimming⦄ where
    -- The mutexes that a step takes and gives back, in order.
    abbrev pub step_locks : {w v : Proxy} → Step j p y z w v → List LockOp
    step_locks {w} (message ch ec hdl op payload free) =
        on_server_message_locks ch.close_ec ch.start_ec (w.server.message_room hdl) hdl op payload
          w.server
    step_locks {w} (closed ch hdl r at free) =
        on_server_close_locks ch.close_ec ch.start_ec r hdl w.server
    step_locks (acts ec id ev o at) = react_locks id ev o

    module _ (held_back : System → Mutex → Bool) where
      -- Any number of threads: one that has nothing to do takes up a step of the program, and one
      -- that has does the next of it when it is let.
      pub data Working : System → Type 0 where
        idles : Working idle
        takes_up :
            {s : System} {w v : Proxy} (t : ℕ) (st : Step j p y z w v)
            → Working s
            → s.todo t ≡ []
            → Working (record s { todo = update s.todo t (step_locks st) })
        goes_ahead :
            {s : System} (t : ℕ) (op : LockOp) (ops : List LockOp)
            → Working s
            → s.todo t ≡ op ∷ ops
            → grants held_back s op ≡ true
            → Working (move t op ops s)
