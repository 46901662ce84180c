-- ===== src/Proxy/Trace.antt =====
-- Each step of the whole program as what it means to the table of rooms that the clients see.
use dmproxy.Base.{Bytes, ℕ, ◌≡◌, sym, ◌∙◌, subst, List, [], ◌∷◌, true, not, All, some, arith}
use dmproxy.Json.{JsonApi}
use dmproxy.Network.{Messages, ErrorCode, Opcode, ServerCall}
use dmproxy.Network.Action.{Action}
use dmproxy.Network.Life
use dmproxy.Platforms.Publish.{Encoders}
use dmproxy.Utils.Gzip.{Zlib}
use dmproxy.Locks.{nothing_held, ordered}
use dmproxy.Locks.Handlers.{reports_error, on_server_message_locks, on_server_close_locks}
use dmproxy.Locks.Handlers.Order.{on_server_message_locks_lem, on_server_close_locks_lem}
use dmproxy.Server.{Server, Trimming, own_room, on_server_message, on_server_close, leave}
use dmproxy.Server.Announcing.{leave-Announces, on_server_message-Announces}
use dmproxy.Server.Delivery.{Sends, IsOwn}
use dmproxy.Server.Delivery.Inputs.{Changes, unchanged, changed, said, perform_calls-Changes, after}
use dmproxy.Server.Invariant.{IsValid}
use dmproxy.Server.Joining.{started}
use dmproxy.Server.Runs as ServerRuns
use dmproxy.Server.Runs.{init, init-IsValid, Reach-IsValid}
use dmproxy.Server.View.{room_of, request}
use dmproxy.Server.View.Simulation.{Input, sends, leaves, Step-Change, Reach-Runs, input}
use dmproxy.Douyu.Stt.{Tokenizer}
use dmproxy.Douyu.Life as DouyuLife
use dmproxy.Bilibili.Http as Http
use dmproxy.Bilibili.Life as BilibiliLife
use dmproxy.Yy.Client as Yy
use dmproxy.Yy.Timer as YyTimer
use dmproxy.Huajiao.Protocol as Protocol
use dmproxy.Huajiao.Events as HuajiaoEvents
use dmproxy.Proxy.Clients.{Keeps}
use dmproxy.Proxy.Clients.DouyuRoom
use dmproxy.Proxy.Clients.BilibiliRoom
use dmproxy.Proxy.Clients.YyRoom
use dmproxy.Proxy.Clients.HuajiaoRoom
use dmproxy.Proxy.{
  Object, huajiao_object, douyu_object, bilibili_object, yy_object, room, Event, huajiao_event,
  douyu_event, bilibili_event, yy_event, Choices, Proxy, carry, react, handled, Step, message,
  closed, acts, Reach, starts, goes_on,
}
use dmproxy.Proxy.Invariant.{IsGood, begun-IsGood}
use dmproxy.Proxy.Silence.{kinds, run_calls-silent}

module _ ⦃m : Messages⦄ ⦃e : Encoders⦄ ⦃b : Trimming⦄ (ec : Sends) (id : ℕ) where
  carry-Changes :
      {S K : Type 0} (wrap : S → Object) (act : Action S K (Unit {0})) (c : S) (s : Server)
      → Keeps (λ d. room (wrap d)) c (act c)
      → own_room id s ≡ room (wrap c)
      → IsValid s
      → Changes (room_of s) (said id ec (act c).2 s) (room_of (carry ec id wrap (act c) s).1)
  carry-Changes wrap act c s (own, same) at v =
      perform_calls-Changes id ec (act c).2 s v (subst (λ q. All (IsOwn q) (act c).2) (sym at) own)

module _ ⦃m : Messages⦄ ⦃e : Encoders⦄ ⦃k : Tokenizer⦄ ⦃x : Http.Xml⦄ ⦃cx : Yy.ChatXml⦄
    (j : JsonApi) (p : Protocol.Protobuf) (y : Protocol.Crypto) (z : Zlib) where
  -- What an object says when something happens to it, in a state of the server.
  abbrev pub says : Sends → ℕ → Event → Object → Server → List Input
  says ec id (huajiao_event ev) (huajiao_object c) s =
      said id ec (HuajiaoEvents.handle j p y z ev c).2 s
  says ec id (douyu_event ev) (douyu_object c) s =
      said id ec (Life.handle DouyuLife.lifetime ev c).2 s
  says ec id (bilibili_event ev) (bilibili_object c) s =
      said id ec (Life.handle (BilibiliLife.lifetime j) ev c).2 s
  says ec id (yy_event ev) (yy_object c) s = said id ec (YyTimer.handle j ev c).2 s
  says ec id ev o s = []

  module _ ⦃b : Trimming⦄ where
    react-Changes :
        (ec : Sends) (id : ℕ) (ev : Event) (o : Object) (s : Server)
        → own_room id s ≡ room o
        → IsValid s
        → Changes (room_of s) (says ec id ev o s) (room_of (react j p y z ec id ev o s).1)
    react-Changes ec id (huajiao_event ev) (huajiao_object c) s at v =
        carry-Changes ec id huajiao_object (HuajiaoEvents.handle j p y z ev) c s
          ((HuajiaoRoom.handle-KeepsRoom j p y z).keeps ev c) at v
    react-Changes ec id (douyu_event ev) (douyu_object c) s at v =
        carry-Changes ec id douyu_object (Life.handle DouyuLife.lifetime ev) c s
          (DouyuRoom.handle-KeepsRoom.keeps ev c) at v
    react-Changes ec id (bilibili_event ev) (bilibili_object c) s at v =
        carry-Changes ec id bilibili_object (Life.handle (BilibiliLife.lifetime j) ev) c s
          ((BilibiliRoom.handle-KeepsRoom j).keeps ev c) at v
    react-Changes ec id (yy_event ev) (yy_object c) s at v =
        carry-Changes ec id yy_object (YyTimer.handle j ev) c s
          ((YyRoom.handle-KeepsRoom j).keeps ev c) at v
    react-Changes ec id (huajiao_event ev) (douyu_object c) s at v = unchanged
    react-Changes ec id (huajiao_event ev) (bilibili_object c) s at v = unchanged
    react-Changes ec id (huajiao_event ev) (yy_object c) s at v = unchanged
    react-Changes ec id (douyu_event ev) (huajiao_object c) s at v = unchanged
    react-Changes ec id (douyu_event ev) (bilibili_object c) s at v = unchanged
    react-Changes ec id (douyu_event ev) (yy_object c) s at v = unchanged
    react-Changes ec id (bilibili_event ev) (huajiao_object c) s at v = unchanged
    react-Changes ec id (bilibili_event ev) (douyu_object c) s at v = unchanged
    react-Changes ec id (bilibili_event ev) (yy_object c) s at v = unchanged
    react-Changes ec id (yy_event ev) (huajiao_object c) s at v = unchanged
    react-Changes ec id (yy_event ev) (douyu_object c) s at v = unchanged
    react-Changes ec id (yy_event ev) (bilibili_object c) s at v = unchanged

    -- The inputs of the table that a step makes, in order, and those of a run, the last first.
    abbrev pub step_inputs : {w v : Proxy} → Step j p y z w v → List Input
    step_inputs (message ch ec hdl op payload free) = sends hdl (request op payload) ∷ []
    step_inputs (closed ch hdl r at free) = leaves hdl r ∷ []
    step_inputs {w} (acts ec id ev o at) = says ec id ev o w.server

    abbrev pub run_inputs : {w : Proxy} → Reach j p y z w → List Input
    run_inputs starts = []
    run_inputs (goes_on r st) = after (step_inputs st) (run_inputs r)

    -- A handler that finds its mutexes free leaves the server as it is when it makes its calls.
    handled-server :
        (ch : Choices) (t : Server) (cs : List ServerCall) (w : Proxy)
        → IsGood (started cs) (record w { server = t })
        → not (reports_error ch.close_ec ch.start_ec (kinds t) cs) ≡ true
        → (handled ch (t, cs) w).server ≡ t
    unfolding handled
    handled-server ch t cs w g h =
        run_calls-silent ch cs (record w { server = t }) g (ground (arith, h))

    pub message-server :
        {w : Proxy} (ch : Choices) (ec : ErrorCode) (hdl : ℕ) (op : Opcode) (payload : Bytes)
        → IsGood [] w
        → ordered nothing_held (
            on_server_message_locks ch.close_ec ch.start_ec
              (w.server.message_room hdl)
              hdl
              op
              payload
              w.server)
          ≡ true
        → let r = on_server_message ec (w.server.message_room hdl) hdl op payload w.server in
          (handled ch r w).server ≡ r.0
    message-server {w} ch ec hdl op payload g free =
        let s = w.server in
        let v = Reach-IsValid init-IsValid g.run in
        let (t, cs) = on_server_message ec (s.message_room hdl) hdl op payload s in
        handled-server ch t cs w
          (begun-IsGood ch t cs w g (ServerRuns.message ec hdl op payload)
            (on_server_message-Announces ec hdl op payload s v))
          (sym (on_server_message_locks_lem ch.close_ec ch.start_ec ec hdl op payload s v) ∙ free)

    closed-server :
        {w : Proxy} (ch : Choices) (hdl : ℕ) (r : Bytes)
        → IsGood [] w
        → w.server.close_room hdl ≡ some r
        → ordered nothing_held (on_server_close_locks ch.close_ec ch.start_ec r hdl w.server) ≡ true
        → (handled ch (on_server_close r hdl w.server) w).server
          ≡ (on_server_close r hdl w.server).0
    unfolding leave on_server_close
    closed-server {w} ch hdl r g at free =
        let s = w.server in
        let (t, cs) = on_server_close r hdl s in
        handled-server ch t cs w
          (begun-IsGood ch t cs w g (ServerRuns.closed hdl r at) (leave-Announces r hdl s))
          (sym (on_server_close_locks_lem ch.close_ec ch.start_ec r hdl s) ∙ free)

    -- A step of the server is one change of the table.
    Step-changed :
        {s t : Server} (st : ServerRuns.Step s t)
        → ServerRuns.Reach init s
        → Changes (room_of s) (input st ∷ []) (room_of t)
    Step-changed st run =
        changed (Step-Change st (Reach-IsValid init-IsValid run) (Reach-Runs run).1).0 unchanged

    pub Step-Changes :
        {w v : Proxy} (st : Step j p y z w v)
        → IsGood [] w
        → Changes (room_of w.server) (step_inputs st) (room_of v.server)
    Step-Changes {w} (message ch ec hdl op payload free) g =
        subst (λ q. Changes (room_of w.server) (sends hdl (request op payload) ∷ []) (room_of q))
          (sym (message-server ch ec hdl op payload g free))
          (Step-changed (ServerRuns.message ec hdl op payload) g.run)
    Step-Changes {w} (closed ch hdl r at free) g =
        subst (λ q. Changes (room_of w.server) (leaves hdl r ∷ []) (room_of q))
          (sym (closed-server ch hdl r g at free)) (Step-changed (ServerRuns.closed hdl r at) g.run)
    Step-Changes {w} (acts ec id ev o at) g =
        react-Changes ec id ev o w.server (g.owned id o at).1 (Reach-IsValid init-IsValid g.run)
