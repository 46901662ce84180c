-- ===== src/Tests/Fixture.antt =====
-- Concrete functions for the libraries that the program calls, and a server with one served room.
use dmproxy.Base.{
  take, drop, Bytes, codes, ℕ, ◌≡◌, refl, List, [], ◌∷◌, ◌++◌, true, ◌==◌, bytes_eq, none, some,
  if◌then◌else◌, arith, find_byte, ap, append-nil, append_assoc, ◌∙◌,
}
use dmproxy.Network.{Messages, text}
use dmproxy.Platforms.Publish.{Encoders}
use dmproxy.Platforms.{
  Platform, platform_base, yy, platform_creator_table, platform_get_instance, is_room_valid,
}
use dmproxy.Utils.Numbers.{str_is_num}
use dmproxy.Server.Room.{split_room}
use dmproxy.Server.{Server, Trimming, on_server_message}
use dmproxy.Server.Invariant.{IsValid}
use dmproxy.Server.Invariant.Handlers.{on_server_message-IsValid}
use dmproxy.Server.Runs.{init, init-IsValid}
use dmproxy.Douyu.Stt.{Tokenizer}
use dmproxy.Douyu.Stt.RoundTrip.{Splits, Lacks, terminated}
use dmproxy.Json.{JsonApi}
use dmproxy.Utils.Gzip.{Zlib, z_ok}
use dmproxy.Huajiao.Protocol.{Protobuf, Crypto, init_login_resp}
use dmproxy.Bilibili.Http.{Xml}
use dmproxy.Yy.Client.{ChatXml}

instance abbrev pub messages : Messages
messages = record { message = λ e. codes "error" }

-- A trim that takes one trailing line feed away.
abbrev pub chomp : Bytes → Bytes
chomp [] = []
chomp (x ∷ []) = if x == 10 then [] else x ∷ []
chomp (x ∷ y ∷ s) = x ∷ chomp (y ∷ s)

instance abbrev pub trimming : Trimming
trimming = record { trim = chomp }

instance abbrev pub encoders : Encoders
encoders = record { base64_encode = λ s. s; dump = λ d. codes "{}" }

instance abbrev pub xml : Xml
xml = record { reads = λ doc. true; get = λ doc path. some path }

instance abbrev pub chat_xml : ChatXml
chat_xml = record { has_data = λ doc. true }

-- A slash ends a token; `token` is what has been read of the one at hand.
abbrev pub split_slashes : Bytes → Bytes → List Bytes
split_slashes token [] = []
split_slashes token (x ∷ s) =
    let more = split_slashes (token ++ x ∷ []) s in
    if x == b'/' then token ∷ split_slashes [] s else more

instance abbrev pub tokenizer : Tokenizer
tokenizer = record { tokens = split_slashes [] }

abbrev pub plain : Crypto
plain = record { rc4 = λ key text. text; md5 = λ text. text }

-- Every message that arrives is the answer to the handshake.
abbrev pub answers : Protobuf
answers = record {
  serialize = λ m. codes "msg";
  serialize_packet = λ m. codes "packet";
  parse_message = λ b. record {
    msgid = init_login_resp;
    server_ram = codes "ram";
    client_ram = codes "ram";
    session_key = [];
    response = [];
    info_content = [];
  };
  parse_packet = λ b. record {
    result = 0;
    payloadtype = 0;
    msgtype = 0;
    memcount = 0;
    msgcontent = [];
    multinotify = [];
  };
  parse_msgcontent = λ b. b;
}

-- A stream that holds its content as it stands.
abbrev pub stored : Zlib
stored = record {
  Stream = Bytes;
  inflate_init = λ input. some input;
  inflate = λ s n. (z_ok, take n s, drop n s);
}

split_slashes-append :
    (token t rest : Bytes)
    → Lacks b'/' t
    → split_slashes token (t ++ codes "/" ++ rest) ≡ (token ++ t) ∷ split_slashes [] rest
split_slashes-append token [] rest h = rw (append-nil token)
split_slashes-append token (x ∷ t) rest h =
    ground (arith, split_slashes-append (token ++ x ∷ []) t rest h.1, append_assoc token (x ∷ []) t)

pub tokenizer-Splits : Splits tokenizer
tokenizer-Splits [] h = refl
tokenizer-Splits (t ∷ ts) ((_, lacks), h) =
    split_slashes-append [] t (terminated ts) lacks ∙ ap (◌∷◌ t) (tokenizer-Splits ts h)

abbrev pub room_name : Bytes
room_name = codes "YY_42"

abbrev pub room_42 : Platform
room_42 = platform_base yy (codes "YY") (codes "42")

pub split_42 : split_room room_name ≡ some (codes "YY", codes "42")
unfolding split_room find_byte
split_42 = refl

pub made_42 : platform_get_instance (codes "YY") (codes "42") ≡ some room_42
unfolding platform_get_instance platform_creator_table bytes_eq
made_42 = refl

pub valid_42 : is_room_valid yy (codes "42") ≡ true
unfolding is_room_valid str_is_num
valid_42 = refl

-- Connection 1 has asked for the room 42 of YY.
abbrev pub served : Server
served = (on_server_message none (init.message_room 1) 1 text room_name init).0

pub served-IsValid : IsValid served
served-IsValid = on_server_message-IsValid none 1 text room_name init init-IsValid

-- One chat message of Bilibili as the values of a document, by number: 1 is the message, 2 its
-- command, 3 its array, 4 the text in it, 5 the user in it, 6 and 7 the user's number and name.
abbrev pub document : JsonApi
document = record {
  Json = ℕ;
  null = 0;
  parse = λ input. if bytes_eq input (codes "{}") then some 1 else none;
  member = λ v key. if bytes_eq key (codes "cmd") then 2 else 3;
  array_items = λ v. if v == 3 then 0 ∷ 4 ∷ 5 ∷ [] else if v == 5 then 6 ∷ 7 ∷ [] else [];
  string_value =
      λ v. if v == 2 then codes "DANMU_MSG" else if v == 4 then codes "hello" else codes "nick";
  is_number = λ v. v == 6;
  is_string = λ v. true;
  int_value = λ v. 42;
  to_uint64 = λ v. 42;
  print_fixed = λ v. codes "42";
}
