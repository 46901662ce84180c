-- ===== src/Bilibili/Life.antt =====
-- platforms/bilibili/bilibili.cpp: the life of a connection, from the HTTP request to the reads.
use dmproxy.Base.{
  Bytes, ℕ, ◌≤◌, ◌≡◌, refl, false, arith, [], ◌∷◌, ◌++◌, none, some, c_string, Option-cases, inl,
  inr,
}
use dmproxy.Network.{ErrorCode, eof, bad_message, bad_connection, other_errc, Messages}
use dmproxy.Network.Life.{
  started, gives_up, Lifetime, Life, Reach, leading, IsSingle, IsChain, Reach-IsSingle,
}
use dmproxy.Json.{JsonApi}
use dmproxy.Bilibili.Client.{
  Handler, on_http_resolve, on_http_connect, on_http_write, handle_http_read_status_line,
  handle_http_read_header, handle_http_read_content, on_tcp_resolve, on_tcp_connect, on_write,
  handle_header, on_skip, handle_data, handle_heartbeat_timer, Client, Bilibili, close,
}
use dmproxy.Bilibili.Http
use dmproxy.Bilibili.Http.{
  Xml, start, http_resolved, http_connected, http_written, status_line_read, parse_live_msg,
  content_read,
}
use dmproxy.Bilibili.Barrage
use dmproxy.Bilibili.Barrage.{
  tcp_resolved, tcp_connected, written, skipped, heartbeat_due, handle_message, data_read,
}

-- What the handlers are called with: the bytes that arrived, the endpoint that was found, the error
-- code, that of closing the socket at the end of the document, and the random user number.
pub record Result : Type 0 where
  pub bytes : Bytes
  pub iter : ℕ
  pub ec : ErrorCode
  pub closed : ErrorCode
  pub uid : ℕ

module _ ⦃m : Messages⦄ ⦃x : Xml⦄ (j : JsonApi) where
  abbrev pub complete : Handler → Result → Bilibili (Unit {0})
  complete on_http_resolve r = http_resolved r.ec r.iter
  complete on_http_connect r = http_connected r.ec
  complete on_http_write r = http_written r.ec
  complete handle_http_read_status_line r = status_line_read r.bytes r.ec
  complete handle_http_read_header r = Http.header_read r.bytes r.ec
  complete handle_http_read_content r = content_read r.bytes r.ec r.closed
  complete on_tcp_resolve r = tcp_resolved r.ec r.iter
  complete on_tcp_connect r = tcp_connected r.uid r.ec
  complete on_write r = written r.ec
  complete handle_header r = Barrage.header_read r.bytes r.ec
  complete on_skip r = skipped r.ec
  complete handle_data r = data_read j r.bytes r.ec
  complete handle_heartbeat_timer r = heartbeat_due r.ec

  abbrev pub lifetime : Lifetime Client Handler Result
  lifetime = record { start = start; close = close; complete = complete }

-- All but the writes of packets and the timer lead to the next read.
abbrev pub leads : Handler → ℕ
leads on_write = 0
leads handle_heartbeat_timer = 0
leads _ = 1

module _ ⦃m : Messages⦄ ⦃x : Xml⦄ (j : JsonApi) where
  parse_live_msg-started :
      (c : Client)
      → let calls = (parse_live_msg c).2 in
        (leading leads (started calls) ≤ 1)
        × (gives_up calls ≡ false → leading leads (started calls) ≡ 1)
  unfolding parse_live_msg leading
  parse_live_msg-started c = ground arith

  handle_message-started :
      (v : j.Json) (c : Client)
      → (leading leads (started (handle_message j v c).2) ≡ 0)
        × (gives_up (handle_message j v c).2 ≡ false)
  unfolding handle_message leading
  handle_message-started v c = ground arith

  content_read-started :
      (bytes : Bytes) (ec closed : ErrorCode) (c : Client)
      → let calls = (content_read bytes ec closed c).2 in
        (leading leads (started calls) ≤ 1)
        × (gives_up calls ≡ false → leading leads (started calls) ≡ 1)
  unfolding content_read leading
  content_read-started bytes none closed c = ground arith
  content_read-started bytes (some eof) closed c =
      ground (arith, parse_live_msg-started (record c { response = c.response ++ bytes }))
  content_read-started bytes (some bad_message) closed c = ground arith
  content_read-started bytes (some bad_connection) closed c = ground arith
  content_read-started bytes (some (other_errc n)) closed c = ground arith

  data_read-started :
      (bytes : Bytes) (ec : ErrorCode) (c : Client)
      → let calls = (data_read j bytes ec c).2 in
        (leading leads (started calls) ≤ 1)
        × (gives_up calls ≡ false → leading leads (started calls) ≡ 1)
  unfolding data_read leading
  data_read-started bytes ec c = elim (Option-cases (j.parse (c_string (bytes ++ 0 ∷ [])))) [
    | inl e ↦ ground arith
    | inr (v, e) ↦ ground (arith, handle_message-started v c)
  ]

  complete_lem :
      (k : Handler) (r : Result) (c : Client)
      → let calls = (complete j k r c).2 in
        (leading leads (started calls) ≤ leads k)
        × (gives_up calls ≡ false → leading leads (started calls) ≡ leads k)
  unfolding http_resolved http_connected http_written status_line_read Http.header_read tcp_resolved
      tcp_connected written Barrage.header_read skipped heartbeat_due leading
  complete_lem on_http_resolve r c = ground arith
  complete_lem on_http_connect r c = ground arith
  complete_lem on_http_write r c = ground arith
  complete_lem handle_http_read_status_line r c = ground arith
  complete_lem handle_http_read_header r c = ground arith
  complete_lem handle_http_read_content r c = content_read-started r.bytes r.ec r.closed c
  complete_lem on_tcp_resolve r c = ground arith
  complete_lem on_tcp_connect r c = ground arith
  complete_lem on_write r c = ground arith
  complete_lem handle_header r c = ground arith
  complete_lem on_skip r c = ground arith
  complete_lem handle_data r c = data_read-started r.bytes r.ec c
  complete_lem handle_heartbeat_timer r c = ground arith

  lifetime-IsChain : IsChain leads (lifetime j)
  unfolding start close leading
  lifetime-IsChain = record {
    starts_one = λ c. (omega arith, refl);
    closes_none = λ c. refl;
    carries_on = complete_lem;
  }

  -- However the calls of a Bilibili client complete, and whenever it is closed: of its calls that
  -- have not completed, one at most is other than the write of a packet or the timer, and exactly
  -- one until the client has called its close callback.
  pub one_call : {c : Client} (l : Life Client Handler) → Reach (lifetime j) c l → IsSingle leads l
  one_call l r = Reach-IsSingle leads (lifetime j) lifetime-IsChain r
