-- ===== src/Server/Delivery/Chat.antt =====
-- platforms/douyu/douyu.cpp on the server of main.cpp: what the clients of a room get to see of what
-- the barrage server sends.
use dmproxy.Base.{
  Bytes, codes, ℕ, ◌≡◌, ◌∙◌, ap, [], ◌∷◌, append-nil, map, ◌&&◌, none, some, All, if◌then◌else◌,
  drop, ◌<◌,
}
use dmproxy.Base.Dict.{Dict, lookup}
use dmproxy.Network.{Messages}
use dmproxy.Platforms.Publish.{Encoders, publish, publish_lem, sent, tried, given_up}
use dmproxy.Platforms.Listeners.{has}
use dmproxy.Douyu.Stt.{Tokenizer, make_stt}
use dmproxy.Douyu.Stt.RoundTrip.{Splits, IsPlain}
use dmproxy.Douyu.Client.{Client, Handler, room, field, data_read}
use dmproxy.Douyu.Messages.{data_read-chatmsg}
use dmproxy.Server.{Server, Trimming, own_room}
use dmproxy.Server.Invariant.{IsValid}
use dmproxy.Server.Runs.{Reach, Reach-IsValid}
use dmproxy.Server.View.{room_of}
use dmproxy.Server.View.Simulation.{in_room, room_of-served}
use dmproxy.Network.Life.{completed, close_called}
use dmproxy.Proxy.Clients.DouyuRoom.{handle-KeepsRoom}
use dmproxy.Server.Delivery.World
use dmproxy.Server.Delivery.World.{World, IsTrue, Reach-server}
use dmproxy.Douyu.Life.{lifetime}
use dmproxy.Server.Delivery.{Sends, perform_call, perform_calls, on_object}

module _ ⦃m : Messages⦄ ⦃k : Tokenizer⦄ where
  lifetime-IsTrue : IsTrue room lifetime
  lifetime-IsTrue = record {
    own = λ h r c. (handle-KeepsRoom.keeps (completed h r) c).0;
    same = λ h r c. (handle-KeepsRoom.keeps (completed h r) c).1;
    closing = λ c. (handle-KeepsRoom.keeps close_called c).1;
  }

module _ ⦃m : Messages⦄ ⦃b : Trimming⦄ ⦃k : Tokenizer⦄ ⦃e : Encoders⦄ where
  -- From a state whose served rooms are in order, with an object that is named for the room of its
  -- Douyu client: however the calls of the client complete, with whatever results, between the
  -- steps of the server, carrying out on the server what the client then calls, the server is in a
  -- state that it reaches by steps of its own and whose served rooms are in order, and the object
  -- is still named for the room of its client.
  douyu_world :
      (id : ℕ) (w v : World Client Handler)
      → IsValid w.server
      → id < w.server.next
      → own_room id w.server ≡ room w.life.client
      → World.Reach lifetime id w v
      → Reach w.server v.server × IsValid v.server × (own_room id v.server ≡ room v.life.client)
  douyu_world id w v valid lt own r =
      let (run, named) = Reach-server lifetime room lifetime-IsTrue id lt own r in
      (run, Reach-IsValid valid run, named)

-- What a listener is sent of a chat message.
abbrev pub chat_text : ⦃e : Encoders⦄ → Dict Bytes → Bytes
chat_text ⦃e⦄ il = e.dump (
    (codes "uid", field (codes "uid") il)
    ∷ (codes "nickname", e.base64_encode (field (codes "nn") il))
    ∷ (codes "text", e.base64_encode (field (codes "txt") il))
    ∷ [])

module _ ⦃m : Messages⦄ ⦃k : Tokenizer⦄ ⦃e : Encoders⦄ (ecs : Sends) (id : ℕ) (c : Client)
    (s : Server) where
  -- With a tokenizer that splits at slashes, and in a state whose served rooms are in order, let
  -- the object of a served room read the data of a chat message that is written as `make_stt` does,
  -- of keys and values that the format can carry. The encoded message is then sent once, in order,
  -- to each listener of the object up to the first that it cannot be sent to, and exactly those
  -- connections lose their room that had this one and stand there or behind it in the set.
  pub data_read-delivers :
      (il : Dict Bytes)
      → Splits k
      → All IsPlain il
      → field (codes "type") il ≡ codes "chatmsg"
      → IsValid s
      → lookup (own_room id s) s.rp_map ≡ some id
      → let (t, calls) = perform_calls ecs id (data_read (drop 12 (make_stt il)) none c).2 s in
        (sent calls ≡ map (λ h. (h, chat_text il)) (tried (ecs 0) (s.heap id).listeners))
        × ((j : ℕ)
            → room_of t j ≡ (
                if in_room (own_room id s) (room_of s j)
                  && has j (given_up (ecs 0) (s.heap id).listeners)
                then none
                else room_of s j))
  unfolding perform_calls perform_call on_object dmproxy.Platforms.Publish.publish_json
  data_read-delivers il splits plain type v at = rw (data_read-chatmsg il c splits plain type) (
    ap sent (append-nil (publish (ecs 0) (chat_text il) (s.heap id)).1)
        ∙ (publish_lem (ecs 0) (chat_text il) (s.heap id)).0,
    λ j. room_of-served (ecs 0) id (chat_text il) s v j at,
  )
