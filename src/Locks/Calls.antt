-- ===== src/Locks/Calls.antt =====
-- platforms/platform_base.cpp and network/dmp_cs.hpp: the mutexes that a handler of a platform's own
-- connection takes, by what it calls.
use dmproxy.Base.{ℕ, ◌≡◌, refl, List, [], ◌∷◌, ◌++◌, true, arith}
use dmproxy.Network.{Call, close_callback}
use dmproxy.Network
use dmproxy.Locks.{LockOp, nothing_held, ordered}
use dmproxy.Locks.Handlers.{read_listeners, on_platform_close_locks}

module _ (id : ℕ) {K : Type 0} where
  -- The close callback is `on_platform_close`; no other call takes a mutex of the program.
  abbrev pub call_locks : Call K → List LockOp
  call_locks (Network.publish dm_msg) = read_listeners id
  call_locks (Network.publish_json uid nickname text) = read_listeners id
  call_locks (close_callback roomstr) = on_platform_close_locks
  call_locks _ = []

  abbrev pub calls_locks : List (Call K) → List LockOp
  calls_locks [] = []
  calls_locks (c ∷ cs) = call_locks c ++ calls_locks cs

  -- A handler of a platform keeps the order of the mutexes, whatever it calls.
  pub ordered-calls_locks : (cs : List (Call K)) → ordered nothing_held (calls_locks cs) ≡ true
  ordered-calls_locks [] = refl
  ordered-calls_locks (Network.publish x ∷ cs) = ground (arith, ordered-calls_locks cs)
  ordered-calls_locks (Network.publish_json u n x ∷ cs) = ground (arith, ordered-calls_locks cs)
  ordered-calls_locks (close_callback r ∷ cs) = ordered-calls_locks cs
  ordered-calls_locks (_ ∷ cs) = ordered-calls_locks cs
