-- ===== src/Server/Runs.antt =====
-- main.cpp: the life of the server, as a step relation whose environment chooses what happens.
use dmproxy.Base.{Bytes, ℕ, ◌≡◌, sym, ◌∙◌, [], true, none, some, arith}
use dmproxy.Base.Dict.{lookup}
use dmproxy.Network.{room_string, Messages, ErrorCode, Opcode}
use dmproxy.Platforms.{platform_base, yy}
use dmproxy.Platforms.Listeners.{has}
use dmproxy.Platforms.Publish.{publish, has-publish, publish_keeps}
use dmproxy.Server.{
  Server, Trimming, modify_platform, on_platform_close, on_server_close, on_server_message,
}
use dmproxy.Server.Invariant.{Serves, IsValid, on_platform_close-Serves}
use dmproxy.Server.Invariant.Handlers.{on_server_message-IsValid, on_server_close-IsValid}

-- `rp_map` is empty, and every connection's message handler is bound to the empty room string.
abbrev pub init : Server
init = record {
  rp_map = [];
  heap = λ id. platform_base yy [] [];
  next = 0;
  message_room = λ hdl. [];
  close_room = λ hdl. none;
}

module _ ⦃m : Messages⦄ ⦃b : Trimming⦄ where
  -- A frame arrives, a connection closes, a platform calls its close callback, a platform publishes.
  -- Each is one step; that a platform publishes between the calls of a handler is left out.
  pub data Step (s : Server) : Server → Type 0 where
    message :
        (ec : ErrorCode) (hdl : ℕ) (op : Opcode) (payload : Bytes)
        → Step s (on_server_message ec (s.message_room hdl) hdl op payload s).0
    closed : (hdl : ℕ) (r : Bytes) → s.close_room hdl ≡ some r → Step s (on_server_close r hdl s).0
    gone :
        (id : ℕ)
        → Step s (on_platform_close (room_string (s.heap id).platform_name (s.heap id).roomid) s)
    published :
        (ec : ℕ → ErrorCode) (id : ℕ) (dm_msg : Bytes)
        → Step s (modify_platform id (λ p. (publish ec dm_msg p).0) s)

  pub data Reach (s : Server) : Server → Type 0 where
    here : Reach s s
    next : {t u : Server} → Reach s t → Step t u → Reach s u

module _ ⦃m : Messages⦄ where
  published-Serves :
      {bind : ℕ → Bytes} {s : Server} (ec : ℕ → ErrorCode) (k : ℕ) (dm_msg : Bytes)
      → Serves bind s
      → Serves bind (modify_platform k (λ p. (publish ec dm_msg p).0) s)
  published-Serves {s = s} ec k dm_msg v = record {
    bound = λ r id h e l. v.bound r id h e (ground (arith, has-publish ec dm_msg (s.heap k) h));
    named = λ r id e. ground (arith, v.named r id e, publish_keeps ec dm_msg (s.heap k));
    called = λ r id e. ground (arith, v.called r id e, publish_keeps ec dm_msg (s.heap k));
    used = v.used;
  }

pub init-IsValid : IsValid init
unfolding lookup
init-IsValid = record {
  bound = λ r id h e l. cc;
  named = λ r id e. cc;
  called = λ r id e. cc;
  used = λ r id e. cc;
}

module _ ⦃m : Messages⦄ ⦃b : Trimming⦄ where
  Step-IsValid : {s t : Server} → Step s t → IsValid s → IsValid t
  unfolding on_platform_close
  Step-IsValid {s} (message ec hdl op payload) v = on_server_message-IsValid ec hdl op payload s v
  Step-IsValid {s} (closed hdl r e) v = on_server_close-IsValid r hdl s v
  Step-IsValid {s} (gone id) v = on_platform_close-Serves _ v
  Step-IsValid {s} (published ec id dm_msg) v = published-Serves ec id dm_msg v

  -- However messages, closing connections, closing platforms and publications interleave from a
  -- state whose served rooms are in order, they stay in order.
  pub Reach-IsValid : {s t : Server} → IsValid s → Reach s t → IsValid t
  Reach-IsValid v here = v
  Reach-IsValid v (next r st) = Step-IsValid st (Reach-IsValid v r)

  -- In a state that is reached from the initial one, two served rooms that have the same connection
  -- among their listeners are the same room.
  one_room :
      {s : Server} (r q : Bytes) (i j hdl : ℕ)
      → Reach init s
      → lookup r s.rp_map ≡ some i
      → lookup q s.rp_map ≡ some j
      → has hdl (s.heap i).listeners ≡ true
      → has hdl (s.heap j).listeners ≡ true
      → r ≡ q
  one_room r q i j hdl reach at_r at_q in_r in_q =
      let v = Reach-IsValid init-IsValid reach in
      sym (v.bound r i hdl at_r in_r) ∙ v.bound q j hdl at_q in_q
