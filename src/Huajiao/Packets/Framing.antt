-- ===== src/Huajiao/Packets/Framing.antt =====
-- platforms/huajiao/huajiao.cpp: what a server finds in the packets that the client sends.
use dmproxy.Base.{Bytes, ℕ, ◌+◌, ◌<◌, ◌≡◌, refl, ap, ◌∙◌, ◌++◌, length, drop, arith}
use dmproxy.Base.Words.{u32, u32_mod, store_le32, load_be32, load_be32-store_be32}
use dmproxy.Utils.Digests.{rc4_vector}
use dmproxy.Huajiao.Client.{Client}
use dmproxy.Huajiao.Packets.{
  swap_uint32, swap_uint32_lem, handshake_message, new_handshake_packet, login_message,
  new_login_packet, join_message, new_join_chatroom_packet,
}
use dmproxy.Huajiao.Protocol.{default_key, Protobuf, Crypto}

-- What is relied on of RC4: a stream cipher, so that it keeps the length and undoes itself.
pub record IsStreamCipher (y : Crypto) : Type 0 where
  pub keeps_length : (key text : Bytes) → length (y.rc4 key text) ≡ length text
  pub undoes : (key text : Bytes) → y.rc4 key (y.rc4 key text) ≡ text

-- A packet that starts with its length in network order.
length_word :
    (n : ℕ) (rest : Bytes) → n < u32_mod → load_be32 (store_le32 (swap_uint32 (u32 n)) ++ rest) ≡ n
length_word n rest h =
    ap (λ w. load_be32 (w ++ rest)) (swap_uint32_lem (u32 n) (omega arith)).0
    ∙ load_be32-store_be32 (u32 n) rest
    ∙ (omega arith)

module _ (p : Protobuf) (y : Crypto) (cipher : IsStreamCipher y) where
  -- If RC4 keeps lengths and undoes itself, and the length fits 32 bits, the handshake packet holds
  -- its own length in network order behind the 12 bytes that announce the protocol, and what
  -- follows it decrypts with the default key to the handshake message.
  new_handshake_packet_lem :
      (c : Client)
      → length (handshake_message p y c) + 16 < u32_mod
      → let packet = new_handshake_packet p y c in
        (load_be32 (drop 12 packet) ≡ length packet)
        × (rc4_vector y.rc4 (drop 16 packet) default_key ≡ handshake_message p y c)
  unfolding new_handshake_packet rc4_vector store_le32
  new_handshake_packet_lem c h =
      let msgc = handshake_message p y c in
      (
        length_word (length msgc + 12 + 4) (y.rc4 default_key msgc) (omega arith)
            ∙ omega (arith, cipher.keeps_length default_key msgc),
        cipher.undoes default_key msgc,
      )

  -- If RC4 keeps lengths and undoes itself, and the lengths fit 32 bits, the login packet and the
  -- join packet start with their own length in network order. What follows it decrypts with the
  -- default key to the login message in the one, and is the join message as it is in the other.
  pub new_login_packet_lem :
      (random : Bytes) (c : Client)
      → length (login_message p y random c) + 4 < u32_mod
      → length (join_message p y random c) + 4 < u32_mod
      → let login = new_login_packet p y random c in
        let join = new_join_chatroom_packet p y random c in
        ((load_be32 login ≡ length login)
          × (rc4_vector y.rc4 (drop 4 login) default_key ≡ login_message p y random c))
        × ((load_be32 join ≡ length join) × (drop 4 join ≡ join_message p y random c))
  unfolding new_login_packet new_join_chatroom_packet rc4_vector store_le32
  new_login_packet_lem random c hl hj =
      let msgc = login_message p y random c in
      let join = join_message p y random c in
      (
        (
          length_word (length msgc + 4) (y.rc4 default_key msgc) hl
              ∙ omega (arith, cipher.keeps_length default_key msgc),
          cipher.undoes default_key msgc,
        ),
        (length_word (length join + 4) join hj ∙ omega arith, refl),
      )
