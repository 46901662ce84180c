-- ===== src/Tests/ProxyRuns.antt =====
-- The whole program on concrete inputs.
use dmproxy.Base.{
  ℕ, ◌≢◌, sym, ◌∙◌, drop, codes, ◌≡◌, refl, [], ◌∷◌, none, some, true, All, bytes_eq, find_byte,
}
use dmproxy.Base.Dict.{lookup, contains, assign}
use dmproxy.Network.{text}
use dmproxy.Proxy.Hearing.{announced, react-received}
use dmproxy.Server.Delivery.{Sends}
use dmproxy.Server.Delivery.Received.{Hears}
use dmproxy.Base.{if◌then◌else◌, length}
use dmproxy.Network.Life.{completed}
use dmproxy.Platforms.{platform_creator_table, platform_get_instance, is_room_valid}
use dmproxy.Platforms.Listeners.{add_listener, insert, set_close_callback, has}
use dmproxy.Platforms.Publish.{sent}
use dmproxy.Utils.Numbers.{str_is_num}
use dmproxy.Locks.{ordered, nothing_held}
use dmproxy.Server.Room.{split_room}
use dmproxy.Server.{on_server_message, enter, leave}
use dmproxy.Server.Joining.{started}
use dmproxy.Server.Runs as ServerRuns
use dmproxy.Server.Runs.{init}
use dmproxy.Server.Delivery.{perform_calls}
use dmproxy.Server.View.{room_of, IsAdmitted}
use dmproxy.Server.View.Simulation.{Runs}
use dmproxy.Proxy.Trace.{run_inputs}
use dmproxy.Proxy.Asking.{handled-asks}
use dmproxy.Server.View.{IsHeard, request, asks}
use dmproxy.Locks.Handlers.{on_server_message_locks}
use dmproxy.Douyu.Stt.{make_stt}
use dmproxy.Douyu.Client.{handle_data}
use dmproxy.Proxy.{
  Choices, Proxy, start_up, handled, run_call, run_calls, Event, douyu_event, Object, douyu_object,
  room, react, message, starts, Reach, goes_on,
}
use dmproxy.Proxy.Service.{room_of-Runs, Reach-served, Reach-started}
use dmproxy.Tests.Fixture.{
  messages, trimming, encoders, tokenizer, xml, chat_xml, document, answers, plain, stored,
}

abbrev pub calm : Choices
calm = record { start_ec = none; close_ec = none; send_ec = λ n h. none; ram = []; sn = 0 }

-- Connection 1 has asked for the room 7 of Douyu.
abbrev pub watching : Proxy
watching =
    handled calm (on_server_message none (init.message_room 1) 1 text (codes "douyu_7") init)
      start_up

pub first_free :
    ordered nothing_held (
      on_server_message_locks calm.close_ec calm.start_ec
        (init.message_room 1)
        1
        text
        (codes "douyu_7")
        init)
    ≡ true
unfolding dmproxy.Locks.Handlers.on_server_message_locks split_room find_byte bytes_eq lookup leave
    platform_get_instance platform_creator_table is_room_valid str_is_num
first_free = refl

watching-Reach : Reach document answers plain stored watching
watching-Reach = goes_on starts (message calm none 1 text (codes "douyu_7") first_free)

abbrev watcher : Object
watcher = douyu_object (record { roomid = codes "7"; endpoint = 0 })

watching_lem :
    (lookup (codes "douyu_7") watching.server.rp_map ≡ some 0) × (watching.objects 0 ≡ some watcher)
unfolding enter leave on_server_message find_byte bytes_eq lookup contains platform_get_instance
    platform_creator_table is_room_valid str_is_num assign add_listener insert split_room
    set_close_callback handled run_calls run_call perform_calls dmproxy.Douyu.Client.start
watching_lem = (refl, refl)

table_of_program_example :
    ServerRuns.Reach init watching.server
    × Runs (run_inputs document answers plain stored watching-Reach) (room_of watching.server)
    × IsAdmitted watching.server
table_of_program_example = room_of-Runs document answers plain stored watching-Reach

served_room_example : (o : Object) × (watching.objects 0 ≡ some o) × (room o ≡ codes "douyu_7")
served_room_example =
    Reach-served document answers plain stored (codes "douyu_7") 0 watching-Reach watching_lem.0

-- Connection 2 asks for another room, so that the object 1 is started.
new_start :
    has 1 (
      started
        (on_server_message none
          (watching.server.message_room 2)
          2
          text
          (codes "douyu_8")
          watching.server).1)
    ≡ true
unfolding enter leave on_server_message find_byte bytes_eq lookup contains platform_get_instance
    platform_creator_table is_room_valid str_is_num assign add_listener insert split_room has
    set_close_callback handled run_calls run_call perform_calls dmproxy.Douyu.Client.start
new_start = refl

new_object_example : watching.objects 1 ≡ none
new_object_example =
    Reach-started document answers plain stored 1 none 2 text (codes "douyu_8") watching-Reach
      new_start

-- Connection 2 asks for the room that connection 1 watches.
second_free :
    ordered nothing_held (
      on_server_message_locks calm.close_ec calm.start_ec
        (watching.server.message_room 2)
        2
        text
        (codes "douyu_7")
        watching.server)
    ≡ true
unfolding dmproxy.Locks.Handlers.on_server_message_locks enter leave on_server_message find_byte
    bytes_eq lookup contains platform_get_instance platform_creator_table is_room_valid str_is_num
    assign add_listener insert split_room set_close_callback handled run_calls run_call
    perform_calls dmproxy.Douyu.Client.start dmproxy.Platforms.Listeners.have_listener has
second_free = refl

second_asks : request text (codes "douyu_7") ≡ asks (codes "douyu_7")
unfolding find_byte bytes_eq platform_get_instance platform_creator_table is_room_valid str_is_num
    split_room
second_asks = refl

second_room : watching.server.message_room 2 ≡ []
unfolding enter leave on_server_message find_byte bytes_eq lookup contains platform_get_instance
    platform_creator_table is_room_valid str_is_num assign add_listener insert split_room
    set_close_callback handled run_calls run_call perform_calls dmproxy.Douyu.Client.start
second_room = refl

second-IsHeard : IsHeard 2 (codes "douyu_7") watching.server
second-IsHeard k at same = differ (sym second_room ∙ same)
  where
    differ : [] ≡ codes "douyu_7" → has 2 (watching.server.heap k).listeners ≡ true
    differ d = cc

asking_example :
    let v =
      handled calm
        (on_server_message none
          (watching.server.message_room 2)
          2
          text
          (codes "douyu_7")
          watching.server)
        watching in
    (room_of v.server 2 ≡ some (codes "douyu_7"))
    × ((i : ℕ) → 2 ≢ i → room_of v.server i ≡ room_of watching.server i)
    × ((id : ℕ) × (o : Object) × (lookup (codes "douyu_7") v.server.rp_map ≡ some id)
        × (v.objects id ≡ some o)
        × (room o ≡ codes "douyu_7")
        × ((ecs : Sends) (ev : Event)
            → Hears 2
                (codes "douyu_7")
                ecs
                v.server
                (sent (react document answers plain stored ecs id ev o v.server).2)
                (announced document answers plain stored ev o)))
asking_example =
    handled-asks document answers plain stored calm none 2 text (codes "douyu_7") (codes "douyu_7")
      watching-Reach second_free second_asks second-IsHeard

abbrev chat : Event
chat = douyu_event (
    completed handle_data (record {
      bytes = drop 12 (make_stt ((codes "type", codes "chatmsg") ∷ (codes "txt", codes "hi") ∷ []));
      iter = 0;
      ec = none;
    }))

abbrev fine : Sends
fine n h = none

-- The object reads a chat message, and connection 1 can be reached.
hearing_example :
    Hears 1
      (codes "douyu_7")
      fine
      watching.server
      (sent (react document answers plain stored fine 0 chat watcher watching.server).2)
      (announced document answers plain stored chat watcher)
hearing_example =
    react-received document answers plain stored fine 0 1 chat watcher watching-Reach watching_lem.1
      watching_lem.0

-- It does hear the one message.
heard_once : length (announced document answers plain stored chat watcher) ≡ 1
unfolding dmproxy.Douyu.Client.data_read make_stt dmproxy.Base.Words.store_le32
    dmproxy.Base.c_string bytes_eq lookup dmproxy.Douyu.Stt.parse_stt dmproxy.Douyu.Stt.parse_tokens
    dmproxy.Douyu.Stt.parse_token dmproxy.Douyu.Stt.find_separator dmproxy.Base.Dict.insert
heard_once = refl
