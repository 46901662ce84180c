-- ===== src/Douyu/Life.antt =====
-- platforms/douyu/douyu.cpp: the life of a connection, from the search for the server to the reads.
use dmproxy.Base.{Bytes, codes, ℕ, ◌≤◌, ◌≡◌, refl, false, arith, [], ◌∷◌}
use dmproxy.Base.Dict.{Dict}
use dmproxy.Network.{ErrorCode, Messages}
use dmproxy.Network.Life.{
  started, gives_up, Lifetime, Life, Reach, leading, IsSingle, IsChain, Reach-IsSingle,
}
use dmproxy.Douyu.Stt.{Tokenizer, parse_stt}
use dmproxy.Douyu.Client.{
  Client, Handler, on_resolve, on_connect, on_write, handle_header, handle_data,
  handle_heartbeat_timer, Douyu, field, start, close, resolved, connected, written, header_read,
  data_read, heartbeat_due, dispatch, check_data,
}

-- What the handlers are called with: the bytes that were read, the endpoint that was found, and the
-- error code.
pub record Result : Type 0 where
  pub bytes : Bytes
  pub iter : ℕ
  pub ec : ErrorCode

module _ ⦃m : Messages⦄ ⦃t : Tokenizer⦄ where
  abbrev pub complete : Handler → Result → Douyu (Unit {0})
  complete on_resolve r = resolved r.ec r.iter
  complete on_connect r = connected r.ec
  complete on_write r = written r.ec
  complete handle_header r = header_read r.bytes r.ec
  complete handle_data r = data_read r.bytes r.ec
  complete handle_heartbeat_timer r = heartbeat_due r.ec

  abbrev pub lifetime : Lifetime Client Handler Result
  lifetime = record { start = start; close = close; complete = complete }

-- The calls that lead to the next read: to find the server, to connect, and to read.
abbrev pub leads : Handler → ℕ
leads on_resolve = 1
leads on_connect = 1
leads on_write = 0
leads handle_header = 1
leads handle_data = 1
leads handle_heartbeat_timer = 0

module _ ⦃m : Messages⦄ ⦃t : Tokenizer⦄ where
  dispatch-started :
      (type : Bytes) (stt : Dict Bytes) (c : Client)
      → (leading leads (started (dispatch type stt c).2) ≡ 0)
        × (gives_up (dispatch type stt c).2 ≡ false)
  unfolding dispatch leading
  dispatch-started type stt c = ground arith

  data_read-started :
      (bytes : Bytes) (ec : ErrorCode) (c : Client)
      → let calls = (data_read bytes ec c).2 in
        (leading leads (started calls) ≤ 1)
        × (gives_up calls ≡ false → leading leads (started calls) ≡ 1)
  unfolding data_read check_data leading
  data_read-started [] ec c = ground arith
  data_read-started (x ∷ xs) ec c =
      ground
        (arith, dispatch-started (field (codes "type") (parse_stt (x ∷ xs))) (parse_stt (x ∷ xs)) c)

  complete_lem :
      (k : Handler) (r : Result) (c : Client)
      → let calls = (complete k r c).2 in
        (leading leads (started calls) ≤ leads k)
        × (gives_up calls ≡ false → leading leads (started calls) ≡ leads k)
  unfolding resolved connected written heartbeat_due header_read leading
  complete_lem on_resolve r c = ground arith
  complete_lem on_connect r c = ground arith
  complete_lem on_write r c = ground arith
  complete_lem handle_header r c = ground arith
  complete_lem handle_data r c = data_read-started r.bytes r.ec c
  complete_lem handle_heartbeat_timer r c = ground arith

  lifetime-IsChain : IsChain leads lifetime
  unfolding start close leading
  lifetime-IsChain = record {
    starts_one = λ c. (omega arith, refl);
    closes_none = λ c. refl;
    carries_on = complete_lem;
  }

  -- However the calls of a Douyu client complete, and whenever it is closed: of its calls that have
  -- not completed, one at most searches for the server, connects or reads, and exactly one until
  -- the client has called its close callback.
  pub one_read : {c : Client} (l : Life Client Handler) → Reach lifetime c l → IsSingle leads l
  one_read l r = Reach-IsSingle leads lifetime lifetime-IsChain r
