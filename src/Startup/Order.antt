-- ===== src/Startup/Order.antt =====
-- main.cpp: what `main` has done before a thread runs, and how it ends.
use dmproxy.Base.{
  Bytes, ℕ, ◌+◌, ◌≡◌, ◌≢◌, refl, sym, ◌∙◌, ap, subst, List, [], ◌∷◌, ◌++◌, Bool, false, Option,
  some, if◌then◌else◌, arith, ◌⊎◌, inl, inr, Option-cases, Bool-cases,
}
use dmproxy.Base.{none, true}
use dmproxy.Base.Decimal.{to_string}
use dmproxy.Startup.{
  server_end, client_end, user_agent, clear_access_channels, clear_error_channels, init_asio,
  set_reuse_addr, set_message_handler, set_socket_init_handler, set_listen_backlog, listen,
  start_accept, set_user_agent, new_work, StartCall, print_options, init_platforms, Given,
  CommandLine, Config, notify, set_up, rounds, attempt, returned, run_threads, serve, main,
}
use dmproxy.Startup.Threads.{
  threads, Works, threads-run_threads, caught_returns, threads-caught, attempt_lem, threads-attempt,
}

module _ (throws : StartCall → Option Bytes) (made : ℕ → Bool) (c : Config) where
  threads-serve :
      threads (serve throws made c).0 ≢ 0
      → Works throws (set_up c) × ((serve throws made c).0 ≡ set_up c ++ (run_threads made c).0)
  unfolding serve set_up
  threads-serve some_thread =
      let (e, same) =
        threads-caught (attempt throws (set_up c)) (run_threads made c)
          (threads-attempt throws (set_up c) refl) some_thread in
      let (all, works) = attempt_lem throws (set_up c) e in
      (works, same ∙ ap (λ done. done ++ (run_threads made c).0) all)

  serve_returns :
      (code : ℕ)
      → (serve throws made c).1 ≡ returned code
      → (code ≡ 0)
        × ((threads (serve throws made c).0 ≡ 0)
            ⊎ (threads (serve throws made c).0 ≡ rounds c.server_threads + rounds c.client_threads))
  unfolding serve set_up
  serve_returns code h =
      elim (caught_returns (attempt throws (set_up c)) (run_threads made c) code
        (threads-attempt throws (set_up c) refl) h) [
          | inl (e, nothing) ↦ (e, inl nothing)
          | inr (e, same) ↦
              let (z, all) = threads-run_threads made c code e in (z, inr (same ∙ all))
        ]

module _ ⦃p : CommandLine⦄ (throws : StartCall → Option Bytes) (made : ℕ → Bool)
    (argv : List Bytes) where
  main_serves :
      (g : Given)
      → p.parse_command_line argv ≡ some g
      → g.help ≡ false
      → main throws made argv
        ≡ (init_platforms ∷ (serve throws made (notify g)).0, (serve throws made (notify g)).1)
  unfolding main serve
  main_serves g e h = rw (e, main, h) refl

  -- If `main` makes a thread, it was given options without --help, and it has called in this order,
  -- before the first thread: the binding of the message handler to the empty room string, `listen`
  -- at the host and port of the options, `start_accept`, and the making of the client's work. None
  -- of these has thrown.
  pub threads-main :
      threads (main throws made argv).0 ≢ 0
      → (g : Given) × (before bound listening accepting behind : List StartCall)
        × (p.parse_command_line argv ≡ some g)
        × (g.help ≡ false)
        × ((main throws made argv).0
            ≡ before
              ++ set_message_handler []
                ∷ (bound
                    ++ listen (notify g).server_host (to_string (notify g).server_port)
                      ∷ (listening ++ start_accept ∷ (accepting ++ new_work client_end ∷ behind))))
        × (threads (before ++ (bound ++ (listening ++ accepting))) ≡ 0)
        × (throws (set_message_handler []) ≡ none)
        × (throws (listen (notify g).server_host (to_string (notify g).server_port)) ≡ none)
        × (throws start_accept ≡ none)
        × (throws (new_work client_end) ≡ none)
  unfolding main set_up
  threads-main some_thread = elim (Option-cases (p.parse_command_line argv)) [
    | inl e ↦ absurd (some_thread (rw (e, main) refl))
    | inr (g, e) ↦ elim (Bool-cases g.help) [
      | inl h ↦ absurd (some_thread (rw (e, main, h) refl))
      | inr h ↦
          let (works, same) =
            threads-serve throws made (notify g)
              (λ z. some_thread (ap (λ r. threads r.0) (main_serves g e h) ∙ z)) in
          (
            g,
            init_platforms
                ∷ clear_access_channels server_end
                ∷ clear_error_channels server_end
                ∷ init_asio server_end
                ∷ set_reuse_addr true
                ∷ [],
            set_socket_init_handler ∷ set_listen_backlog 8192 ∷ [],
            [],
            clear_access_channels client_end
                ∷ clear_error_channels client_end
                ∷ set_user_agent user_agent
                ∷ init_asio client_end
                ∷ [],
            (run_threads made (notify g)).0,
            e,
            h,
            ap (λ r. r.0) (main_serves g e h) ∙ ap (◌∷◌ init_platforms) same,
            refl,
            works.1.1.1.1.0,
            works.1.1.1.1.1.1.1.0,
            works.1.1.1.1.1.1.1.1.0,
            works.1.1.1.1.1.1.1.1.1.1.1.1.1.0,
          )
    ]
  ]

  -- If `main` returns, it was given options. With --help it has done nothing but print what they
  -- are, and returns 1; otherwise it returns 0, and has made no thread, or as many as the two
  -- options say, where a number below 0 counts as none.
  pub main_returns :
      (code : ℕ)
      → (main throws made argv).1 ≡ returned code
      → (g : Given) × (p.parse_command_line argv ≡ some g)
        × (if g.help
            then (code ≡ 1) × ((main throws made argv).0 ≡ print_options ∷ [])
            else (code ≡ 0)
              × ((threads (main throws made argv).0 ≡ 0)
                  ⊎ (threads (main throws made argv).0
                      ≡ rounds (notify g).server_threads + rounds (notify g).client_threads)))
  unfolding main
  main_returns code returns = elim (Option-cases (p.parse_command_line argv)) [
    | inl e ↦ absurd (ground (arith, e, returns))
    | inr (g, e) ↦ elim (Bool-cases g.help) [
      | inl h ↦ (g, e, rw (h) (ground (arith, e, returns), rw (e, main, h) refl))
      | inr h ↦
          let at = main_serves g e h in
          let (z, count) =
            serve_returns throws made (notify g) code (sym (ap (λ r. r.1) at) ∙ returns) in
          (
            g,
            e,
            rw (h) (
              z,
              subst
                  (λ r.
                    (threads r.0 ≡ 0)
                    ⊎ (threads r.0
                        ≡ rounds (notify g).server_threads + rounds (notify g).client_threads))
                  (sym at) count,
            ),
          )
    ]
  ]
