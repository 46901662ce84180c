-- ===== src/Huajiao/Protocol.antt =====
-- platforms/huajiao/huajiao_config.hpp, and what the program uses of the generated protocol classes.
use dmproxy.Base.{Bytes, codes, ℕ, List, Option, Bool}

-- PACKET_TYPE, those that are sent with a body or read.
abbrev pub login_req : ℕ
login_req = 100001

abbrev pub chat_req : ℕ
chat_req = 100002

abbrev pub get_info_req : ℕ
get_info_req = 100004

abbrev pub logout_req : ℕ
logout_req = 100005

abbrev pub init_login_req : ℕ
init_login_req = 100009

abbrev pub service_req : ℕ
service_req = 100011

abbrev pub ex1_query_user_status_req : ℕ
ex1_query_user_status_req = 100012

abbrev pub login_resp : ℕ
login_resp = 200001

abbrev pub init_login_resp : ℕ
init_login_resp = 200009

abbrev pub service_resp : ℕ
service_resp = 200011

abbrev pub new_message_notify : ℕ
new_message_notify = 300000

-- MSG_NOTIFY_TYPE.
abbrev pub successful : ℕ
successful = 0

abbrev pub apply_join_chat_room_resp : ℕ
apply_join_chat_room_resp = 102

abbrev pub quit_chat_room_resp : ℕ
quit_chat_room_resp = 103

abbrev pub newmsg_notify : ℕ
newmsg_notify = 1000

abbrev pub member_join_notify : ℕ
member_join_notify = 1001

abbrev pub member_quit_notify : ℕ
member_quit_notify = 1002

abbrev pub member_gzip_notify : ℕ
member_gzip_notify = 1003

-- huajiao_config_t, the members that are read.
abbrev pub app_id : ℕ
app_id = 2080

abbrev pub default_key : Bytes
default_key = codes "3f190210cb1cf32a2378ee57900acf78"

abbrev pub sender_type : Bytes
sender_type = codes "jid"

abbrev pub ws_server : Bytes
ws_server = codes "ws://bridge.huajiao.com"

-- The bodies that requests are made of.
pub record InitLoginReq : Type 0 where
  pub client_ram : Bytes
  pub sig : Bytes

pub record LoginReq : Type 0 where
  pub app_id : ℕ
  pub server_ram : Bytes
  pub secret_ram : Bytes
  pub verf_code : Bytes
  pub net_type : ℕ
  pub mobile_type : Bytes
  pub not_encrypt : Bool
  pub platform : Bytes

pub record ServiceReq : Type 0 where
  pub service_id : ℕ
  pub request : Bytes

-- ChatRoomPacket with the one request that is sent in it, to join a room.
pub record JoinPacket : Type 0 where
  pub uuid : Bytes
  pub client_sn : ℕ
  pub roomid : Bytes
  pub appid : ℕ
  pub payloadtype : ℕ
  pub userid_type : ℕ

-- `void *req_object`.
pub data Body : Type 0 where
  init_login : InitLoginReq → Body
  login : LoginReq → Body
  service : ServiceReq → Body

-- The field of Request that takes the body.
pub data Field : Type 0 where
  login_field chat_field get_info_field logout_field : Field
  init_login_req_field service_req_field e1_query_user_field : Field

pub record Message : Type 0 where
  pub msgid : ℕ
  pub sn : ℕ
  pub sender : Bytes
  pub sender_type : Bytes
  pub req : Option (Field × Body)

-- What is read of a Message that arrives.
pub record Incoming : Type 0 where
  pub msgid : ℕ
  pub server_ram : Bytes
  pub client_ram : Bytes
  pub session_key : Bytes
  pub response : Bytes
  pub info_content : Bytes

-- What is read of the ChatRoomDownToUser in a ChatRoomPacket.
pub record UserData : Type 0 where
  pub result : ℕ
  pub payloadtype : ℕ
  pub msgtype : ℕ
  pub memcount : ℕ
  pub msgcontent : Bytes
  pub multinotify : List Bytes

-- The generated classes write and read; a text that does not parse gives what was read of it.
pub record Protobuf : Type 0 where
  pub serialize : Message → Bytes
  pub serialize_packet : JoinPacket → Bytes
  pub parse_message : Bytes → Incoming
  pub parse_packet : Bytes → UserData
  pub parse_msgcontent : Bytes → Bytes

-- RC4 and MD5 of OpenSSL, on a key and data.
pub record Crypto : Type 0 where
  pub rc4 : Bytes → Bytes → Bytes
  pub md5 : Bytes → Bytes
