-- ===== src/Tests/LockRuns.antt =====
-- The mutexes on concrete inputs.
use dmproxy.Base.{codes, ◌≡◌, none, some, false, not, Bool}
use dmproxy.Network.{text, eof}
use dmproxy.Server.{on_server_message, update}
use dmproxy.Locks.{Mutex, nothing_held, ordered}
use dmproxy.Locks.Handlers.{on_platform_close_locks, on_server_message_locks, reports_error}
use dmproxy.Locks.Handlers.Order.{on_server_message_locks_lem}
use dmproxy.Locks.System.{System, idle}
use dmproxy.Proxy.{Step, message, start_up}
use dmproxy.Proxy.Threads.{step_locks}
use dmproxy.Tests.ProxyRuns.{calm, watching, first_free}
use dmproxy.Tests.Fixture.{
  document, answers, plain, stored, encoders, tokenizer, xml, chat_xml, messages, trimming, served,
  served-IsValid,
}

-- YY reports that it cannot connect while the server starts it.
start_locks_example :
    let (t, calls) = on_server_message none (served.message_room 2) 2 text (codes "YY_7") served in
    ordered nothing_held
      (on_server_message_locks none (some eof) (served.message_room 2) 2 text (codes "YY_7") served)
    ≡ not (reports_error none (some eof) (λ id. (t.heap id).kind) calls)
start_locks_example =
    on_server_message_locks_lem none (some eof) none 2 text (codes "YY_7") served served-IsValid

-- Readers do not wait for waiting writers.
abbrev never : System → Mutex → Bool
never s m = false

-- A thread has taken up the first message of the program, which asks for a room of Douyu.
abbrev first_message : Step document answers plain stored start_up watching
first_message = message calm none 1 text (codes "douyu_7") first_free

abbrev asked : System
asked = record idle {
  todo = update idle.todo 0 (step_locks document answers plain stored first_message);
}
