-- ===== src/Proxy/Service.antt =====
-- What the whole program does for those who connect to it, in every state that it can reach.
use dmproxy.Server.Delivery.{Sends}
use dmproxy.Base.{
  subst, All, Bytes, ℕ, ◌≡◌, sym, ◌∙◌, true, none, some, inl, inr, arith, Option-cases, refl,
}
use dmproxy.Base.Dict.{lookup}
use dmproxy.Json.{JsonApi}
use dmproxy.Network.{Messages, ErrorCode, Opcode}
use dmproxy.Platforms.Listeners.{has}
use dmproxy.Platforms.Publish.{Encoders, sent}
use dmproxy.Server.{Trimming, on_server_message}
use dmproxy.Server.Joining.{started, on_server_message-started}
use dmproxy.Server.Runs as ServerRuns
use dmproxy.Server.Runs.{init, init-IsValid, Reach-IsValid}
use dmproxy.Server.View.{room_of, IsAdmitted}
use dmproxy.Server.Delivery.Audience.{IsHeardIn}
use dmproxy.Proxy.Rooms.{react-Follows}
use dmproxy.Server.View.Simulation.{Runs, begins, Reach-Runs}
use dmproxy.Server.Delivery.Inputs.{Runs-Changes}
use dmproxy.Proxy.Trace.{run_inputs, Step-Changes}
use dmproxy.Douyu.Stt.{Tokenizer}
use dmproxy.Bilibili.Http as Http
use dmproxy.Yy.Client as Yy
use dmproxy.Huajiao.Protocol as Protocol
use dmproxy.Utils.Gzip.{Zlib}
use dmproxy.Proxy.{Event, react, Object, room, Proxy, Reach, starts, goes_on}
use dmproxy.Proxy.Invariant.{Reach-IsGood}

module _ ⦃m : Messages⦄ ⦃e : Encoders⦄ ⦃k : Tokenizer⦄ ⦃x : Http.Xml⦄ ⦃cx : Yy.ChatXml⦄
    ⦃b : Trimming⦄ (j : JsonApi) (p : Protocol.Protobuf) (y : Protocol.Crypto) (z : Zlib) where
  -- Every state of the server that the whole program reaches is one that the server reaches by
  -- steps of its own, with whatever its objects of the four platforms do and whatever the libraries
  -- bring them. For the rooms of the connections the run of the program is a run of the table of
  -- rooms, with the inputs that the program's own steps make: a message is the request of its text,
  -- which may be lost if its sender is in no room; a connection that closes leaves the room of its
  -- handler; when something happens to an object, each text that it publishes takes its room from
  -- those listeners that stand from the first on to which this text cannot be sent, or reaches
  -- nobody, and each close callback takes the room from everybody, in the order of the calls; and
  -- starting or closing an object is no input. Every served room is one that can be made.
  pub room_of-Runs :
      {w : Proxy} (r : Reach j p y z w)
      → ServerRuns.Reach init w.server
        × Runs (run_inputs j p y z r) (room_of w.server)
        × IsAdmitted w.server
  unfolding lookup
  room_of-Runs starts = (ServerRuns.here, begins (λ i. refl), λ q n at. cc)
  room_of-Runs (goes_on r st) =
      let v = Reach-IsGood j p y z (goes_on r st) in
      let (run, table, admitted) = room_of-Runs r in
      (
        v.run,
        Runs-Changes table (Step-Changes j p y z st (Reach-IsGood j p y z r)),
        (Reach-Runs v.run).1,
      )

  -- In every state that the whole program reaches, each served room has an object that has been
  -- started, and that keeps the room.
  pub Reach-served :
      {w : Proxy} (q : Bytes) (id : ℕ)
      → Reach j p y z w
      → lookup q w.server.rp_map ≡ some id
      → (o : Object) × (w.objects id ≡ some o) × (room o ≡ q)
  unfolding has
  Reach-served q id r at =
      let g = Reach-IsGood j p y z r in
      let (o, made) = g.served q id at refl in
      let v = Reach-IsValid init-IsValid g.run in
      (o, made, sym (g.owned id o made).1 ∙ v.named q id at)

  -- In every state that the whole program reaches, an object that a message starts has not been
  -- started before.
  pub Reach-started :
      {w : Proxy} (id : ℕ) (ec : ErrorCode) (hdl : ℕ) (op : Opcode) (payload : Bytes)
      → Reach j p y z w
      → has id
          (started (on_server_message ec (w.server.message_room hdl) hdl op payload w.server).1)
        ≡ true
      → w.objects id ≡ none
  unfolding has
  Reach-started {w} id ec hdl op payload r st =
      let g = Reach-IsGood j p y z r in
      elim (Option-cases (w.objects id)) [
        | inl e ↦ e
        | inr (o, e) ↦ absurd (
            ground (
              arith,
              g.owned id o e,
              on_server_message-started ec hdl op payload w.server
                  (Reach-IsValid init-IsValid g.run),
            ))
      ]

  -- In every state that the whole program reaches, whatever happens to an object that serves its
  -- room, of any of the four platforms, every frame that is then sent goes to a connection whose
  -- room this is.
  react-IsHeardIn :
      {w : Proxy} (ec : Sends) (id : ℕ) (ev : Event) (o : Object)
      → Reach j p y z w
      → w.objects id ≡ some o
      → lookup (room o) w.server.rp_map ≡ some id
      → All (IsHeardIn w.server (room o)) (sent (react j p y z ec id ev o w.server).2)
  react-IsHeardIn {w} ec id ev o r e at =
      let g = Reach-IsGood j p y z r in
      let own = (g.owned id o e).1 in
      subst (λ q. All (IsHeardIn w.server q) (sent (react j p y z ec id ev o w.server).2)) own
        ((react-Follows ec id j p y z ev o w.server own).heard (Reach-IsValid init-IsValid g.run)
          (subst (λ q. lookup q w.server.rp_map ≡ some id) (sym own) at))
