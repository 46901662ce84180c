-- ===== src/Lib.antt =====
-- DMProxy, a proxy for the live comments of four video platforms. A client connects to the proxy over
-- a web socket and names a room, `douyu_12345`; the proxy opens a connection to that platform, and
-- sends every comment in the room to the clients that asked for it. This library models the program's
-- own code and states what makes it correct.
--
-- The parts, and the files that model them:
-- - main.cpp, the rooms that are served: Server.antt and Server/. `Server` is `rp_map` with the objects
--   it points to and the handlers that are bound to connections; `on_server_message`,
--   `on_server_close` and `on_platform_close` are the functions of these names. Server/Room is the
--   format of a request, Server/Invariant what holds between handlers, Server/Runs the life of the
--   server as a step relation. Server/View is the server as its clients see it, a room for each
--   connection; Server/Delivery carries out on it what a platform object calls, Delivery/World runs
--   an object and the server side by side, Delivery/Audience is about who is sent what,
--   Delivery/Received about what one connection gets, Delivery/Inputs says what an object's calls are
--   to the table of rooms, and Server/Successor is about an object that calls late. Server/Naming,
--   Server/Distinct and Server/Announcing are what the whole program needs of the server: the names of
--   its objects, that no listener stands twice, and that it starts the new ones.
-- - main.cpp, `main`: Startup.antt is the list of the calls that it makes and the code that it returns,
--   Startup/Threads counts the threads, and Startup/Order is what has been called before one runs.
-- - the whole program: Proxy.antt and Proxy/. `Proxy` is the server with the objects that it has
--   started, of all four classes; `Step` has its handlers call them, and anything happen to them.
--   Proxy/Clients says of each client that it keeps its room, Proxy/Rooms of the objects,
--   Proxy/Invariant is what holds of the program at any time. Proxy/Silence is about starting and
--   closing an object, which says nothing where no error is reported, and Proxy/Trace reads the inputs
--   of the table of rooms off the steps. Proxy/Service is what the rooms have in every state,
--   Proxy/Hearing what each client is sent, Proxy/Asking what one gets that asks for a room, and
--   Proxy/Comments what they get of the comments on three of the platforms, the fourth being in
--   Server/Delivery/Chat. Proxy/Threads runs the steps on threads.
-- - utils/rw_lock.hpp and where it is used: Locks.antt and Locks/. Handlers are the mutexes that the
--   functions of main.cpp take, in their order and with those of the calls on platforms within them,
--   Calls those of the platforms' own handlers; System and Progress are threads that run them.
-- - platforms/platform_base.cpp and platforms/platforms.cpp, the listeners of a room and the table of
--   platforms: Platforms.antt and Platforms/.
-- - platforms/douyu/: Douyu.antt and Douyu/. Stt is the text format of stt.cpp, Client the handlers of
--   douyu.cpp, Wire what they write.
-- - platforms/bilibili/bilibili.cpp: Bilibili.antt and Bilibili/. Http is the request for the address
--   of the comment server, Barrage the connection to it, Packets what is sent on it.
-- - platforms/YY/YY.cpp: Yy.antt and Yy/.
-- - platforms/huajiao/huajiao.cpp and huajiao_config.hpp: Huajiao.antt and Huajiao/. Packets are what
--   the client sends, Parsing what it does with what arrives, Session the handlers of the socket, and
--   Events says which of them is bound to what.
-- - network/dmp_cs.hpp, the reporting macros: Network.antt. Network/Action is the monad of a platform's
--   handlers, Network/Life a step relation in which the calls that are outstanding complete in any
--   order; Douyu/Life and Bilibili/Life are the two clients that read from a socket in it.
-- - the rest of utils/: Utils.antt and Utils/, with both overloads of `ungzip`. json11 is the
--   interface of Json.antt.
-- - Base.antt and Base/ hold what the others share, Tests.antt and Tests/ runs on concrete inputs.
--
-- How they interact: a handler of a platform is a function from the state of its object to an outcome,
-- the new state and the list of the library calls that it makes, in their order. A handler that is
-- bound to an asynchronous call is a function of its own, to which the result of the call is an
-- argument; the handler that a call names says which. What the platform gives to its listeners are the
-- calls `publish`, `publish_json` and `close_callback`; `perform_calls` of Server/Delivery carries them
-- out by Platforms/Publish and `on_platform_close`. The server's handlers take the state of the server
-- and return the calls on connections and platforms. Each holds the mutex of the rooms from its first
-- access to its last, and that of the listeners within each call on an object; that a platform
-- publishes between these calls is left out, and a run is a sequence of whole handlers. Where
-- such a handler waits for a mutex that it holds is the matter of Locks/Handlers/Order.
--
-- Bounds and fuel: `to_string` writes at most 20 digits, which is enough for 64 bits. The loop of
-- `ungzip` has one round more than the input has bytes: deflate expands at most 1032 times and a round
-- takes 4096 bytes, so that this is enough. The loop of the overload with counts has 3 rounds, since a
-- third round writes behind the buffer or ends. Every other loop is over a list. Numbers of 32 bits are
-- reduced where the source converts to them; the host is little-endian. Handles of connections are
-- numbers, in the order in which a set of listeners has them; pointers to platform objects are
-- numbers too, and an object's number is never used for another.
--
-- Parameters: websocketpp and boost::asio, of which the calls are recorded and the results are
-- arguments, but for what `endpoint::send` does to a code that is set, on which `publish` depends;
-- boost::trim, boost::tokenizer and boost::property_tree; json11; zlib; RC4 and MD5 of OpenSSL;
-- boost::program_options, and which calls throw and which threads can be made at the start;
-- the generated protocol classes; base64_encode, a copy of a third party's; what a random
-- generator draws, and the clock; and when a boost::shared_mutex makes a reader wait for the writers
-- that wait. Where a theorem relies on what one of them does, that is a hypothesis.
--
-- Not modelled: an exception that leaves a thread; a publication that comes between two calls of a
-- handler of main.cpp; logging; and the vendored and generated code in include/, json11/, utils/base64.cpp and platforms/huajiao/protocol/.
pub mod Base
pub mod Network
pub mod Json
pub mod Utils
pub mod Platforms
pub mod Server
pub mod Locks
pub mod Douyu
pub mod Bilibili
pub mod Yy
pub mod Huajiao
pub mod Proxy
pub mod Startup
pub mod Tests
