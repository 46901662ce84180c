-- ===== src/Huajiao/Session/Progress.antt =====
-- platforms/huajiao/huajiao.cpp: handshake, login and join follow one another, each once.
use dmproxy.Base.{
  ◌↔◌, ◌<◌, length, ◌⊎◌, Bytes, ◌≡◌, ◌≢◌, refl, ◌∙◌, ap, List, [], ◌∷◌, ◌++◌, true, false, ◌||◌,
  if◌then◌else◌, drop, arith, Bool-cases,
}
use dmproxy.Json.{JsonApi}
use dmproxy.Network.{binary, ErrorCode, Messages, Call, ws_send}
use dmproxy.Network.Action.{ok, fault, out_of_bounds, Outcome, continue}
use dmproxy.Utils.Gzip.{Zlib}
use dmproxy.Huajiao.Client.{Client, Handler, Huajiao}
use dmproxy.Huajiao.Packets.{
  new_login_packet, new_join_chatroom_packet, join_message, new_request_message,
}
use dmproxy.Huajiao.Parsing.{
  parse_handshake_packet, parse_login_response_packet, parse_service_resp, parse_json_message,
  parse_zipped, parse_all_zipped, parse_new_message_notify, parse_message_packet,
  handle_binary_message,
}
use dmproxy.Huajiao.Protocol.{Protobuf, Crypto, Incoming}
use dmproxy.Huajiao.Session.{answer, on_client_message}

-- The packets that a list of calls sends.
abbrev pub sent : List (Call Handler) → List Bytes
sent [] = []
sent (ws_send op packet ∷ cs) = packet ∷ sent cs
sent (_ ∷ cs) = sent cs

-- Login comes after the handshake, and joining after the login.
pub record IsOrdered (c : Client) : Type 0 where
  pub login_after : c.b_login ≡ true → c.handshake ≡ true
  pub join_after : c.b_join ≡ true → c.b_login ≡ true

sent-append : (cs ds : List (Call Handler)) → sent (cs ++ ds) ≡ sent cs ++ sent ds
sent-append [] ds = refl
sent-append (ws_send op packet ∷ cs) ds = ap (◌∷◌ packet) (sent-append cs ds)
sent-append (_ ∷ cs) ds = sent-append cs ds

module _ (j : JsonApi) (p : Protobuf) (z : Zlib) where
  -- An action that only publishes.
  abbrev Publishes : Client → Outcome (Unit {0}) × Client × List (Call Handler) → Type 0
  Publishes c r = (r.1 ≡ c) × (sent r.2 ≡ []) × (r.0 ≢ fault out_of_bounds)

  then-Publishes :
      (c : Client) (r : Outcome (Unit {0}) × Client × List (Call Handler)) (b : Huajiao (Unit {0}))
      → Publishes c r
      → Publishes c (b c)
      → Publishes c (continue (λ _. b) r)
  then-Publishes c (ok a, s, cs) b (e, q, f) (e', q', f') =
      rw e (e', sent-append cs (b c).2 ∙ rw (q, q'), f')
  then-Publishes c (fault x, s, cs) b h k = ground arith

  parse_zipped-Publishes : (d : Bytes) (c : Client) → Publishes c (parse_zipped j p z d c)
  unfolding parse_zipped
  parse_zipped-Publishes d c = ground arith

  parse_all_zipped-Publishes :
      (ds : List Bytes) (c : Client) → Publishes c (parse_all_zipped j p z ds c)
  unfolding parse_all_zipped
  parse_all_zipped-Publishes [] c = ground arith
  parse_all_zipped-Publishes (d ∷ ds) c =
      then-Publishes c (parse_zipped j p z d c) (parse_all_zipped j p z ds)
        (parse_zipped-Publishes d c) (parse_all_zipped-Publishes ds c)

  parse_new_message_notify-Publishes :
      (message : Incoming) (c : Client) → Publishes c (parse_new_message_notify j p z message c)
  unfolding parse_new_message_notify parse_json_message
  parse_new_message_notify-Publishes message c =
      ground (arith, parse_all_zipped-Publishes (p.parse_packet message.info_content).multinotify c)

  module _ (y : Crypto) where
    -- What handling a message may change: it sends nothing, does not join, and takes no step back.
    abbrev Advances : Client → Outcome (Unit {0}) × Client × List (Call Handler) → Type 0
    Advances c r =
        (sent r.2 ≡ [])
        × (r.1.b_join ≡ c.b_join)
        × (c.handshake ≡ true → r.1.handshake ≡ true)
        × (c.b_login ≡ true → r.1.b_login ≡ true)

    parse_login_response_packet-Advances :
        (payload : Bytes) (c : Client) → Advances c (parse_login_response_packet p y payload c)
    unfolding parse_login_response_packet
    parse_login_response_packet-Advances payload c = ground arith

    parse_handshake_packet-Advances :
        (payload : Bytes) (c : Client) → Advances c (parse_handshake_packet p y payload c)
    unfolding parse_handshake_packet
    parse_handshake_packet-Advances payload c = ground arith

    parse_message_packet-Advances :
        (payload : Bytes) (c : Client) → Advances c (parse_message_packet j p z y payload c)
    unfolding parse_message_packet parse_service_resp
    parse_message_packet-Advances payload c = ground (
      arith,
      parse_login_response_packet-Advances payload c,
      parse_new_message_notify-Publishes (p.parse_message (drop 4 payload)) c,
    )

    handle_binary_message-Advances :
        (payload : Bytes) (c : Client) → Advances c (handle_binary_message j p z y payload c)
    unfolding handle_binary_message
    handle_binary_message-Advances payload c = ground (
      arith,
      parse_login_response_packet-Advances payload c,
      parse_handshake_packet-Advances payload c,
      parse_message_packet-Advances payload c,
    )

    parse_handshake_packet-b_login :
        (payload : Bytes) (c : Client)
        → (parse_handshake_packet p y payload c).1.b_login ≡ c.b_login
    unfolding parse_handshake_packet
    parse_handshake_packet-b_login payload c = ground arith

    handle_binary_message-b_login :
        (payload : Bytes) (c : Client)
        → c.handshake ≡ false
        → (handle_binary_message j p z y payload c).1.b_login ≡ c.b_login
    unfolding handle_binary_message
    handle_binary_message-b_login payload c h =
        ground (arith, parse_handshake_packet-b_login payload c)

    handle_binary_message-IsOrdered :
        (payload : Bytes) (c : Client)
        → IsOrdered c
        → IsOrdered (handle_binary_message j p z y payload c).1
    handle_binary_message-IsOrdered payload c o = record {
      login_after = ground (
        arith,
        handle_binary_message-Advances payload c,
        handle_binary_message-b_login payload c,
        Bool-cases c.handshake,
      );
      join_after = ground (arith, handle_binary_message-Advances payload c);
    }

    -- Handling a message reads outside of it exactly where it is shorter than 6 bytes before the
    -- handshake, or shorter than 4 bytes after it.
    pub handle_binary_message_fault :
        (payload : Bytes) (c : Client)
        → ((handle_binary_message j p z y payload c).0 ≡ fault out_of_bounds)
          ↔ (length payload < (if c.handshake then 4 else 6))
    unfolding handle_binary_message parse_handshake_packet parse_login_response_packet
        parse_message_packet parse_service_resp
    handle_binary_message_fault payload c =
        ground (arith, parse_new_message_notify-Publishes (p.parse_message (drop 4 payload)) c)

-- What a client sends after a message that has left it in the state `c`, if it had not joined.
abbrev pub next_packets : Protobuf → Crypto → Bytes → Client → List Bytes
next_packets p y random c =
    if c.b_login
    then new_join_chatroom_packet p y random c ∷ []
    else if c.handshake
    then new_login_packet p y random c ∷ []
    else []

module _ ⦃m : Messages⦄ (p : Protobuf) (y : Crypto) where
  answer_lem :
      (ec : ErrorCode) (random : Bytes) (c : Client)
      → IsOrdered c
      → let (r, c', calls) = answer p y ec random c in
        (r ≡ ok tt)
        × IsOrdered c'
        × (c'.b_join ≡ (c.b_join || c'.b_login))
        × (sent calls ≡ (if c.b_join then [] else next_packets p y random c'))
  unfolding answer new_join_chatroom_packet join_message new_request_message new_login_packet
  answer_lem ec random c o = ground arith

  after-answer :
      (ec : ErrorCode) (random : Bytes) (c : Client)
      (r : Outcome (Unit {0}) × Client × List (Call Handler))
      → (sent r.2 ≡ []) × (r.1.b_join ≡ c.b_join)
      → IsOrdered r.1
      → let (x, c', calls) = continue (λ _. answer p y ec random) r in
        IsOrdered c'
        × (((x ≡ ok tt)
              × (c'.b_join ≡ (c.b_join || c'.b_login))
              × (sent calls ≡ (if c.b_join then [] else next_packets p y random c')))
            ⊎ ((x ≢ ok tt) × (c'.b_join ≡ c.b_join) × (sent calls ≡ [])))
  after-answer ec random c (ok a, s, cs) (q, b) o =
      ground (arith, answer_lem ec random s o, sent-append cs (answer p y ec random s).2)
  after-answer ec random c (fault x, s, cs) h o = ground arith

  module _ (j : JsonApi) (z : Zlib) where
    -- In a client whose login came after the handshake and whose joining came after the login, this
    -- holds after a binary message too. If the handler returns, the client has sent exactly the
    -- packet that its new state calls for: none if it had joined before, else the join packet once
    -- it is logged in, else the login packet once the handshake is done; and it has joined exactly
    -- if it had before or is logged in. If the handler fails, nothing has been sent and it has
    -- joined exactly if it had before.
    pub on_client_message-sent :
        (ec : ErrorCode) (random payload : Bytes) (c : Client)
        → IsOrdered c
        → let (x, c', calls) = on_client_message p y j z ec random binary payload c in
          IsOrdered c'
          × (((x ≡ ok tt)
                × (c'.b_join ≡ (c.b_join || c'.b_login))
                × (sent calls ≡ (if c.b_join then [] else next_packets p y random c')))
              ⊎ ((x ≢ ok tt) × (c'.b_join ≡ c.b_join) × (sent calls ≡ [])))
    unfolding on_client_message
    on_client_message-sent ec random payload c o =
        after-answer ec random c (handle_binary_message j p z y payload c)
          (ground (arith, handle_binary_message-Advances j p z y payload c))
          (handle_binary_message-IsOrdered j p z y payload c o)
