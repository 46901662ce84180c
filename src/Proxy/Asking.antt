-- ===== src/Proxy/Asking.antt =====
-- What a client of the whole program gets when it asks for a room.
use dmproxy.Server.Delivery.{Sends}
use dmproxy.Base.{Bytes, ℕ, ◌≡◌, ◌≢◌, sym, ◌∙◌, ap, subst, true, some, arith, ◌==◌, if◌then◌else◌}
use dmproxy.Base.Dict.{lookup}
use dmproxy.Json.{JsonApi}
use dmproxy.Network.{Messages, ErrorCode, Opcode}
use dmproxy.Platforms.Publish.{Encoders}
use dmproxy.Utils.Gzip.{Zlib}
use dmproxy.Locks.{nothing_held, ordered}
use dmproxy.Locks.Handlers.{on_server_message_locks}
use dmproxy.Server.{Trimming, on_server_message}
use dmproxy.Server.Runs.{init-IsValid, Reach-IsValid}
use dmproxy.Server.View.{room_of, room_of_iff, request, asks, answered, IsHeard}
use dmproxy.Server.View.Message.{room_of-on_server_message}
use dmproxy.Server.View.Simulation.{Reach-Runs}
use dmproxy.Douyu.Stt.{Tokenizer}
use dmproxy.Bilibili.Http as Http
use dmproxy.Yy.Client as Yy
use dmproxy.Huajiao.Protocol as Protocol
use dmproxy.Platforms.Publish.{sent}
use dmproxy.Server.Delivery.Received.{Hears}
use dmproxy.Proxy.Hearing.{announced, react-received}
use dmproxy.Proxy.{Event, react, Object, room, Choices, Proxy, handled, message, Reach, goes_on}
use dmproxy.Proxy.Invariant.{Reach-IsGood}
use dmproxy.Proxy.Service.{Reach-served}
use dmproxy.Proxy.Trace.{message-server}

module _ ⦃m : Messages⦄ ⦃e : Encoders⦄ ⦃k : Tokenizer⦄ ⦃x : Http.Xml⦄ ⦃cx : Yy.ChatXml⦄
    ⦃b : Trimming⦄ (j : JsonApi) (p : Protocol.Protobuf) (y : Protocol.Crypto) (z : Zlib) where
  -- What the handler does to the rooms, its calls included.
  handled-room_of :
      {w : Proxy} (ch : Choices) (ec : ErrorCode) (hdl : ℕ) (op : Opcode) (payload : Bytes) (i : ℕ)
      → Reach j p y z w
      → ordered nothing_held (
          on_server_message_locks ch.close_ec ch.start_ec
            (w.server.message_room hdl)
            hdl
            op
            payload
            w.server)
        ≡ true
      → IsHeard hdl (b.trim payload) w.server
      → room_of
          (handled ch
            (on_server_message ec (w.server.message_room hdl) hdl op payload w.server)
            w).server
          i
        ≡ (if hdl == i
            then answered (request op payload) (room_of w.server i)
            else room_of w.server i)
  handled-room_of {w} ch ec hdl op payload i r free heard =
      let g = Reach-IsGood j p y z r in
      ap (λ s. room_of s i) (message-server j p y z ch ec hdl op payload g free)
      ∙ room_of-on_server_message ec hdl i op payload w.server (Reach-IsValid init-IsValid g.run)
          (Reach-Runs g.run).1 heard

  -- In every state that the whole program reaches, let a message ask for a room that can be made,
  -- whose handler waits for no mutex that it holds, and whose sender is a listener of the room that
  -- it is bound to if this is the same one and is served. When the handler and what it calls have
  -- run, the sender is in the room, every other connection is in the room that it was in, and the
  -- room is served by an object that has been started and keeps it; and whatever happens next to
  -- this object, the sender is sent the first of the texts that the object publishes, once and in
  -- order, up to some number, and all of them if no send to a connection in the room fails.
  pub handled-asks :
      {w : Proxy} (ch : Choices) (ec : ErrorCode) (hdl : ℕ) (op : Opcode) (payload q : Bytes)
      → Reach j p y z w
      → ordered nothing_held (
          on_server_message_locks ch.close_ec ch.start_ec
            (w.server.message_room hdl)
            hdl
            op
            payload
            w.server)
        ≡ true
      → request op payload ≡ asks q
      → IsHeard hdl (b.trim payload) w.server
      → let v =
          handled ch (on_server_message ec (w.server.message_room hdl) hdl op payload w.server) w in
        (room_of v.server hdl ≡ some q)
        × ((i : ℕ) → hdl ≢ i → room_of v.server i ≡ room_of w.server i)
        × ((id : ℕ) × (o : Object) × (lookup q v.server.rp_map ≡ some id)
            × (v.objects id ≡ some o)
            × (room o ≡ q)
            × ((ecs : Sends) (ev : Event)
                → Hears hdl q ecs v.server
                    (sent (react j p y z ecs id ev o v.server).2)
                    (announced j p y z ev o)))
  handled-asks {w} ch ec hdl op payload q r free wants heard =
      let v =
        handled ch (on_server_message ec (w.server.message_room hdl) hdl op payload w.server) w in
      let after = goes_on r (message ch ec hdl op payload free) in
      let g = Reach-IsGood j p y z after in
      let mine : room_of v.server hdl ≡ some q =
        ground (arith, handled-room_of ch ec hdl op payload hdl r free heard, wants) in
      let (id, at, there) =
        (room_of_iff v.server hdl q (Reach-IsValid init-IsValid g.run)).0 mine in
      let (o, made, named) = Reach-served j p y z q id after at in
      (
        mine,
        λ i other. ground (arith, handled-room_of ch ec hdl op payload i r free heard, other),
        (
          id,
          o,
          at,
          made,
          named,
          λ ecs ev.
              subst
                (λ r.
                  Hears hdl r ecs v.server (sent (react j p y z ecs id ev o v.server).2)
                    (announced j p y z ev o))
                named
                (react-received j p y z ecs id hdl ev o after made
                  (subst (λ r. lookup r v.server.rp_map ≡ some id) (sym named) at)),
        ),
      )
