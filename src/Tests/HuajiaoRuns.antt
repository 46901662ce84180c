-- ===== src/Tests/HuajiaoRuns.antt =====
-- platforms/huajiao/ on concrete inputs.
use dmproxy.Base.{
  refl, ◌<◌, ◌↔◌, length, codes, ◌≡◌, ◌≢◌, [], false, ◌||◌, ◌⊎◌, none, if◌then◌else◌, arith, drop,
}
use dmproxy.Base.Words.{load_be32}
use dmproxy.Network.{binary}
use dmproxy.Network.Action.{ok, fault, out_of_bounds}
use dmproxy.Huajiao.Client.{Client, new_client}
use dmproxy.Utils.Digests.{rc4_vector}
use dmproxy.Huajiao.Parsing.{handle_binary_message}
use dmproxy.Huajiao.Packets.Framing.{IsStreamCipher, new_login_packet_lem}
use dmproxy.Huajiao.Packets.{
  login_message, new_login_packet, join_message, new_join_chatroom_packet,
}
use dmproxy.Huajiao.Protocol.{default_key}
use dmproxy.Huajiao.Session.{on_client_message}
use dmproxy.Huajiao.Session.Progress.{
  sent, IsOrdered, handle_binary_message_fault, next_packets, on_client_message-sent,
}
use dmproxy.Tests.Fixture.{messages, document, plain, answers, stored}

abbrev fresh : Client
fresh = new_client (codes "123456789") (codes "abcdefghij") 5

fresh-IsOrdered : IsOrdered fresh
fresh-IsOrdered = record { login_after = λ e. cc; join_after = λ e. cc }

handshake_example :
    let (x, c', calls) =
      on_client_message answers plain document stored none
        (codes "12345678")
        binary
        (codes "welcome")
        fresh in
    IsOrdered c'
    × (((x ≡ ok tt)
          × (c'.b_join ≡ (false || c'.b_login))
          × (sent calls ≡ (if false then [] else next_packets answers plain (codes "12345678") c')))
        ⊎ ((x ≢ ok tt) × (c'.b_join ≡ false) × (sent calls ≡ [])))
handshake_example =
    on_client_message-sent answers plain document stored none (codes "12345678") (codes "welcome")
      fresh fresh-IsOrdered

plain-IsStreamCipher : IsStreamCipher plain
plain-IsStreamCipher = record { keeps_length = λ key text. refl; undoes = λ key text. refl }

login_packet_example :
    let login = new_login_packet answers plain (codes "12345678") fresh in
    let join = new_join_chatroom_packet answers plain (codes "12345678") fresh in
    ((load_be32 login ≡ length login)
      × (rc4_vector plain.rc4 (drop 4 login) default_key
          ≡ login_message answers plain (codes "12345678") fresh))
    × ((load_be32 join ≡ length join)
        × (drop 4 join ≡ join_message answers plain (codes "12345678") fresh))
unfolding login_message join_message
login_packet_example =
    new_login_packet_lem answers plain plain-IsStreamCipher (codes "12345678") fresh (omega arith)
      (omega arith)

-- Three bytes are too few, before and after the handshake.
short_message_example :
    ((handle_binary_message document answers stored plain (codes "abc") fresh).0
      ≡ fault out_of_bounds)
    ↔ (length (codes "abc") < (if false then 4 else 6))
short_message_example =
    handle_binary_message_fault document answers stored plain (codes "abc") fresh
