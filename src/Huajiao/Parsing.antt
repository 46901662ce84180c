-- ===== src/Huajiao/Parsing.antt =====
-- platforms/huajiao/huajiao.cpp: the handlers of what arrives.
use dmproxy.Base.{
  ◌++◌, Bytes, codes, List, [], ◌∷◌, none, some, true, not, ◌&&◌, ◌==◌, ltb, if◌then◌else◌, length,
  drop,
}
use dmproxy.Base.Words.{load_le32}
use dmproxy.Json.{JsonApi}
use dmproxy.Network.{publish_json}
use dmproxy.Network.Action.{
  out_of_bounds, assertion_failed, not_followed, done, raise, emit, modify, get, ◌>>=◌, ◌>>◌,
}
use dmproxy.Utils.Digests.{rc4_vector}
use dmproxy.Utils.Gzip.{Zlib, unzipped, bad_input, aborted, out_of_fuel, ungzip}
use dmproxy.Huajiao.Client.{Huajiao}
use dmproxy.Huajiao.Protocol.{
  login_resp, init_login_resp, service_resp, new_message_notify, successful,
  apply_join_chat_room_resp, quit_chat_room_resp, newmsg_notify, member_join_notify,
  member_quit_notify, member_gzip_notify, default_key, Incoming, Protobuf, Crypto,
}

module _ (p : Protobuf) (y : Crypto) where
  -- `size - 6` wraps below 6, and the cipher then reads past the message.
  unfoldable pub parse_handshake_packet : Bytes → Huajiao (Unit {0})
  parse_handshake_packet message =
      if ltb (length message) 6
      then raise out_of_bounds
      else (let m = p.parse_message (rc4_vector y.rc4 (drop 6 message) default_key) in
          if m.msgid == init_login_resp
          then modify (λ c. record c {
            server_ram = m.server_ram;
            client_ram = m.client_ram;
            handshake = true;
          })
          else done)

  unfoldable pub parse_login_response_packet : Bytes → Huajiao (Unit {0})
  parse_login_response_packet message = if ltb (length message) 4 then raise out_of_bounds else (do
    c ← get
    let m = p.parse_message (rc4_vector y.rc4 (drop 4 message) c.password)
    if m.msgid == login_resp
        then modify (λ d. record d { session = m.session_key; b_login = true })
        else done)

-- The branches read more of the response and keep nothing of it.
unfoldable pub parse_service_resp : Protobuf → Incoming → Huajiao (Unit {0})
parse_service_resp p message =
    let user_data = p.parse_packet message.response in
    if user_data.payloadtype == apply_join_chat_room_resp
    then (if user_data.result == successful then done else done)
    else if user_data.payloadtype == quit_chat_room_resp
    then done
    else done

module _ (j : JsonApi) where
  open j use {Json, parse, member, string_value, int_value, print_fixed}

  abbrev pub user_id : Json → Bytes
  user_id json =
      let userid = member (member json (codes "extends")) (codes "userid") in
      if int_value (member json (codes "type")) == 16
      then codes "uid:" ++ print_fixed userid
      else string_value userid

  unfoldable pub parse_json_message : Bytes → Huajiao (Unit {0})
  parse_json_message message = elim (parse message) [
    | none ↦ done
    | some json ↦ emit (
        publish_json (user_id json)
          (string_value (member (member json (codes "extends")) (codes "nickname")))
          (string_value (member json (codes "text"))))
  ]

  module _ (p : Protobuf) (z : Zlib) where
    -- One round of the loop over `multinotify`.
    unfoldable pub parse_zipped : Bytes → Huajiao (Unit {0})
    unfolding parse_json_message
    parse_zipped data_bytes = elim (ungzip z data_bytes) [
      | unzipped unpack ↦ parse_json_message (p.parse_msgcontent unpack)
      | bad_input ↦ done
      | aborted ↦ raise assertion_failed
      | out_of_fuel ↦ raise not_followed
    ]

    unfoldable pub parse_all_zipped : List Bytes → Huajiao (Unit {0})
    parse_all_zipped [] = done
    parse_all_zipped (data_bytes ∷ rest) = do parse_zipped data_bytes; parse_all_zipped rest

    unfoldable pub parse_new_message_notify : Incoming → Huajiao (Unit {0})
    parse_new_message_notify message =
        let user_data = p.parse_packet message.info_content in
        let payloadtype = user_data.payloadtype in
        if user_data.result == successful
        then (if payloadtype == newmsg_notify
            then (if user_data.msgtype == 0 && not (user_data.memcount == 0)
                then parse_json_message user_data.msgcontent
                else done)
            else if payloadtype == member_join_notify
            then done
            else if payloadtype == member_quit_notify
            then done
            else if payloadtype == member_gzip_notify && ltb 0 (length user_data.multinotify)
            then parse_all_zipped user_data.multinotify
            else done)
        else done

    module _ (y : Crypto) where
      -- `size - 4` wraps below 4.
      unfoldable pub parse_message_packet : Bytes → Huajiao (Unit {0})
      parse_message_packet message =
          if length message == 4 && load_le32 message == 0
          then done
          else if ltb (length message) 4
          then raise out_of_bounds
          else (let m = p.parse_message (drop 4 message) in
              if m.msgid == login_resp
              then parse_login_response_packet p y message
              else if m.msgid == service_resp
              then parse_service_resp p m
              else if m.msgid == new_message_notify
              then parse_new_message_notify m
              else done)

      unfoldable pub handle_binary_message : Bytes → Huajiao (Unit {0})
      handle_binary_message message = do
        c ← get
        if c.handshake
            then (if c.b_login
                then parse_message_packet message
                else parse_login_response_packet p y message)
            else parse_handshake_packet p y message
