-- ===== src/Huajiao/Packets.antt =====
-- platforms/huajiao/huajiao.cpp: the three packets that the client sends.
pub mod Framing
use dmproxy.Base.{
  Bytes, codes, ℕ, ◌+◌, ◌*◌, ◌/◌, ◌%◌, ◌<◌, ◌≡◌, [], ◌∷◌, ◌++◌, Option, none, some, true, ◌==◌,
  if◌then◌else◌, length, take, drop, arith,
}
use dmproxy.Base.Words.{u32_mod, u32, store_le32, store_be32}
use dmproxy.Utils.Digests.{md5_str, rc4_vector}
use dmproxy.Huajiao.Client.{Client}
use dmproxy.Huajiao.Protocol.{
  login_req, chat_req, get_info_req, logout_req, init_login_req, service_req,
  ex1_query_user_status_req, app_id, default_key, sender_type, LoginReq, Body, init_login, login,
  service, Field, login_field, chat_field, get_info_field, logout_field, init_login_req_field,
  service_req_field, e1_query_user_field, Message, Protobuf, Crypto,
}

-- The four masks take disjoint bytes, so `|` is a sum.
unfoldable pub swap_uint32 : ℕ → ℕ
swap_uint32 value =
    value % 256 * 16777216
    + value / 256 % 256 * 65536
    + value / 65536 % 256 * 256
    + value / 16777216 % 256

unfoldable pub make_verf_code : Crypto → Bytes → Bytes
make_verf_code y text = take 8 (drop 24 (md5_str y.md5 (text ++ codes "360tantan@1408$")))

-- The `switch` on the type of the request; the types that it lists without a call set nothing.
unfoldable pub set_body : ℕ → Body → Option (Field × Body)
set_body msgid req_object =
    if msgid == login_req
    then some (login_field, req_object)
    else if msgid == chat_req
    then some (chat_field, req_object)
    else if msgid == get_info_req
    then some (get_info_field, req_object)
    else if msgid == logout_req
    then some (logout_field, req_object)
    else if msgid == init_login_req
    then some (init_login_req_field, req_object)
    else if msgid == service_req
    then some (service_req_field, req_object)
    else if msgid == ex1_query_user_status_req
    then some (e1_query_user_field, req_object)
    else none

unfoldable pub new_request_message : ℕ → Body → Client → Message
unfolding set_body
new_request_message msgid req_object c = record {
  msgid = msgid;
  sn = c.sn;
  sender = c.sender;
  sender_type = sender_type;
  req = set_body msgid req_object;
}

module _ (p : Protobuf) (y : Crypto) where
  unfoldable pub handshake_message : Client → Bytes
  handshake_message c = p.serialize (
      new_request_message init_login_req
        (init_login (record { client_ram = c.client_ram; sig = c.sign })) c)

  unfoldable pub new_handshake_packet : Client → Bytes
  new_handshake_packet c =
      let msgc = handshake_message c in
      (113 ∷ 104 ∷ 16 ∷ 101 ∷ 8 ∷ 32 ∷ 0 ∷ 0 ∷ 0 ∷ 0 ∷ 0 ∷ 0 ∷ [])
      ++ store_le32 (swap_uint32 (u32 (length msgc + 12 + 4)))
      ++ rc4_vector y.rc4 msgc default_key

  -- `random` is the random string of eight characters.
  unfoldable pub login_body : Bytes → Client → LoginReq
  login_body random c = record {
    app_id = app_id;
    server_ram = c.server_ram;
    secret_ram = rc4_vector y.rc4 (c.server_ram ++ random) c.password;
    verf_code = make_verf_code y c.userid;
    net_type = 4;
    mobile_type = codes "pc";
    not_encrypt = true;
    platform = codes "h5";
  }

  unfoldable pub login_message : Bytes → Client → Bytes
  login_message random c =
      p.serialize (new_request_message login_req (login (login_body random c)) c)

  unfoldable pub new_login_packet : Bytes → Client → Bytes
  new_login_packet random c =
      let msgc = login_message random c in
      store_le32 (swap_uint32 (u32 (length msgc + 4))) ++ rc4_vector y.rc4 msgc default_key

  -- `random` is the random string of twenty characters.
  unfoldable pub join_message : Bytes → Client → Bytes
  join_message random c =
      let packet = p.serialize_packet (record {
        uuid = md5_str y.md5 random;
        client_sn = c.sn;
        roomid = c.room_id;
        appid = app_id;
        payloadtype = 102;
        userid_type = 0;
      }) in
      p.serialize (
        new_request_message service_req
          (service (record { service_id = 10000006; request = packet })) c)

  -- `ByteSizeLong` is the length of what `SerializeAsString` writes.
  unfoldable pub new_join_chatroom_packet : Bytes → Client → Bytes
  new_join_chatroom_packet random c =
      let msgc = join_message random c in store_le32 (swap_uint32 (u32 (length msgc + 4))) ++ msgc

-- A word of 32 bits that is swapped and stored by the host is in network order, and swapping twice
-- gives it back.
pub swap_uint32_lem :
    (value : ℕ)
    → value < u32_mod
    → (store_le32 (swap_uint32 value) ≡ store_be32 value)
      × (swap_uint32 (swap_uint32 value) ≡ value)
unfolding swap_uint32 store_le32 store_be32
swap_uint32_lem value h = (ground arith, omega arith)
