-- ===== src/Tests/StartRuns.antt =====
-- `main` on concrete inputs.
use dmproxy.Base.{
  Bytes, codes, ℕ, ◌+◌, ◌≡◌, refl, [], ◌∷◌, ◌++◌, List, true, false, none, some, if◌then◌else◌, ◌⊎◌,
  Option, arith,
}
use dmproxy.Base.Decimal.{to_string}
use dmproxy.Base.{List, none}
use dmproxy.Startup.{
  StartCall, set_message_handler, listen, start_accept, new_work, client_end, StartCall, Given,
  CommandLine, negsuc, notify, set_up, run_threads, serve, main, returned, rounds, print_options,
}
use dmproxy.Startup.Threads.{threads}
use dmproxy.Startup.Order.{threads-main, main_returns}

-- The port 7 is given, and a number of client threads below 0.
abbrev given : Given
given = record {
  help = false;
  server_host = none;
  server_port = some 7;
  server_threads = none;
  client_threads = some (negsuc 0);
}

instance abbrev options : CommandLine
options = record { parse_command_line = λ argv. some given }

abbrev nothing_thrown : StartCall → Option Bytes
nothing_thrown c = none

abbrev argv : List Bytes
argv = codes "--server-port" ∷ codes "7" ∷ codes "--client-threads" ∷ codes "-1" ∷ []

three_threads : threads (main nothing_thrown (λ k. true) argv).0 ≡ 3
unfolding main serve set_up run_threads
three_threads = refl

exits : (main nothing_thrown (λ k. true) argv).1 ≡ returned 0
unfolding main serve set_up run_threads
exits = refl

start_example :
    let calls = (main nothing_thrown (λ k. true) argv).0 in
    (g : Given) × (before bound listening accepting behind : List StartCall)
    × (options.parse_command_line argv ≡ some g)
    × (g.help ≡ false)
    × (calls
        ≡ before
          ++ set_message_handler []
            ∷ (bound
                ++ listen (notify g).server_host (to_string (notify g).server_port)
                  ∷ (listening ++ start_accept ∷ (accepting ++ new_work client_end ∷ behind))))
    × (threads (before ++ (bound ++ (listening ++ accepting))) ≡ 0)
    × (nothing_thrown (set_message_handler []) ≡ none)
    × (nothing_thrown (listen (notify g).server_host (to_string (notify g).server_port)) ≡ none)
    × (nothing_thrown start_accept ≡ none)
    × (nothing_thrown (new_work client_end) ≡ none)
start_example = threads-main nothing_thrown (λ k. true) argv (λ z. omega (arith, z, three_threads))

abbrev code : ℕ
code = 0

exit_example :
    (g : Given) × (options.parse_command_line argv ≡ some g)
    × (if g.help
        then (code ≡ 1) × ((main nothing_thrown (λ k. true) argv).0 ≡ print_options ∷ [])
        else (code ≡ 0)
          × ((threads (main nothing_thrown (λ k. true) argv).0 ≡ 0)
              ⊎ (threads (main nothing_thrown (λ k. true) argv).0
                  ≡ rounds (notify g).server_threads + rounds (notify g).client_threads)))
exit_example = main_returns nothing_thrown (λ k. true) argv code exits
