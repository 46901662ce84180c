-- ===== src/Startup.antt =====
-- main.cpp: `main`, which reads the options, sets the server and the client up and starts the
-- threads.
pub mod Threads
pub mod Order
use dmproxy.Base.{
  Bytes, codes, ℕ, zero, suc, List, [], ◌∷◌, ◌++◌, Bool, true, false, Option, none, some,
  if◌then◌else◌,
}
use dmproxy.Base.Decimal.{to_string}

-- An `int`.
pub data ℤ : Type 0 where
  pos negsuc : ℕ → ℤ

-- `server` and `client`, and their io_services `server_io_service` and `platform_io_service`.
pub data End : Type 0 where
  server_end client_end : End

-- The calls that `main` makes; the message handler that is bound to a room string is
-- `on_server_message`.
pub data StartCall : Type 0 where
  print_options : StartCall
  init_platforms : StartCall
  clear_access_channels clear_error_channels init_asio : End → StartCall
  set_reuse_addr : Bool → StartCall
  set_message_handler : Bytes → StartCall
  set_socket_init_handler : StartCall
  set_listen_backlog : ℕ → StartCall
  listen : Bytes → Bytes → StartCall
  start_accept : StartCall
  set_user_agent : Bytes → StartCall
  new_work : End → StartCall
  new_thread : End → StartCall
  join_thread : End → StartCall
  print_exception : Bytes → StartCall

-- What the command line gives.
pub record Given : Type 0 where
  pub help : Bool
  pub server_host : Option Bytes
  pub server_port : Option ℕ
  pub server_threads : Option ℤ
  pub client_threads : Option ℤ

-- boost::program_options: `none` is an exception, for an option that there is not or a value of
-- another type.
pub record CommandLine : Type 0 where
  pub parse_command_line : List Bytes → Option Given

pub record Config : Type 0 where
  pub server_host : Bytes
  pub server_port : ℕ
  pub server_threads : ℤ
  pub client_threads : ℤ

abbrev value_or : {A : Type 0} → A → Option A → A
value_or d none = d
value_or d (some a) = a

-- `po::notify`, with the default values of the options.
abbrev pub notify : Given → Config
notify g = record {
  server_host = value_or (codes "localhost") g.server_host;
  server_port = value_or 9001 g.server_port;
  server_threads = value_or (pos 3) g.server_threads;
  client_threads = value_or (pos 3) g.client_threads;
}

abbrev pub user_agent : Bytes
user_agent = codes "Mozilla/5.0 (X11; Linux x86_64; rv:57.0) Gecko/20100101 Firefox/57.0"

-- The `try` block up to the threads.
unfoldable pub set_up : Config → List StartCall
set_up c =
    clear_access_channels server_end
    ∷ clear_error_channels server_end
    ∷ init_asio server_end
    ∷ set_reuse_addr true
    ∷ set_message_handler []
    ∷ set_socket_init_handler
    ∷ set_listen_backlog 8192
    ∷ listen c.server_host (to_string c.server_port)
    ∷ start_accept
    ∷ clear_access_channels client_end
    ∷ clear_error_channels client_end
    ∷ set_user_agent user_agent
    ∷ init_asio client_end
    ∷ new_work client_end
    ∷ []

-- How often a loop from 0 runs while its `int` is below another.
abbrev pub rounds : ℤ → ℕ
rounds (pos n) = n
rounds (negsuc n) = 0

-- A call that threw or not, and what came of those behind it.
abbrev pub then_rest :
    StartCall → Option Bytes → List StartCall × Option Bytes → List StartCall × Option Bytes
then_rest c none (done, what) = (c ∷ done, what)
then_rest c (some e) rest = (c ∷ [], some e)

-- The calls up to the first that throws, which is among them, and what it throws.
abbrev pub attempt : (StartCall → Option Bytes) → List StartCall → List StartCall × Option Bytes
attempt throws [] = ([], none)
attempt throws (c ∷ cs) = then_rest c (throws c) (attempt throws cs)

-- A loop that makes threads, the first of which is number `k` of them all; whether each was made.
abbrev pub spawn : (ℕ → Bool) → End → ℕ → ℕ → List StartCall × Bool
spawn made io k zero = ([], true)
spawn made io k (suc n) =
    let (calls, all) = spawn made io (suc k) n in
    if made k then (new_thread io ∷ calls, all) else (new_thread io ∷ [], false)

abbrev pub join_all : End → ℕ → List StartCall
join_all io zero = []
join_all io (suc n) = join_thread io ∷ join_all io n

-- How `main` ends: with an exit code, or by an exception that nothing catches.
pub data Exit : Type 0 where
  returned : ℕ → Exit
  terminated : Exit

-- What comes behind calls that made all their threads or not.
abbrev pub and_then : List StartCall × Bool → List StartCall × Exit → List StartCall × Exit
and_then (calls, true) (rest, exit) = (calls ++ rest, exit)
and_then (calls, false) rest = (calls, terminated)

-- The threads run until they are joined.
unfoldable pub run_threads : (ℕ → Bool) → Config → List StartCall × Exit
run_threads made c =
    let s = rounds c.server_threads in
    let k = rounds c.client_threads in
    and_then (spawn made server_end 0 s) (
      and_then (spawn made client_end s k)
        (join_all server_end s ++ join_all client_end k, returned 0))

-- What comes behind a set-up, or of what it throws, which is caught.
abbrev pub caught : List StartCall × Option Bytes → List StartCall × Exit → List StartCall × Exit
caught (done, none) (calls, exit) = (done ++ calls, exit)
caught (done, some e) rest = (done ++ print_exception e ∷ [], returned 0)

unfoldable pub serve : (StartCall → Option Bytes) → (ℕ → Bool) → Config → List StartCall × Exit
unfolding run_threads set_up
serve throws made c = caught (attempt throws (set_up c)) (run_threads made c)

-- `throws` says which of the calls of websocketpp throws, `made` which thread can be made.
unfoldable pub main :
    ⦃p : CommandLine⦄ → (StartCall → Option Bytes) → (ℕ → Bool) → List Bytes → List StartCall × Exit
unfolding serve
main ⦃p⦄ throws made argv = elim (p.parse_command_line argv) [
  | none ↦ ([], terminated)
  | some g ↦
      if g.help
      then (print_options ∷ [], returned 1)
      else (let (calls, exit) = serve throws made (notify g) in (init_platforms ∷ calls, exit))
]
