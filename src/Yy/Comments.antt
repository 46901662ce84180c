-- ===== src/Yy/Comments.antt =====
-- platforms/YY/YY.cpp: what the client publishes of the messages that arrive.
use dmproxy.Base.{
  Bytes, codes, ◌≡◌, refl, [], ◌∷◌, some, bytes_eq, if◌then◌else◌, arith, Bool-cases, inl, inr,
  List,
}
use dmproxy.Base.Decimal.{to_string}
use dmproxy.Json.{JsonApi}
use dmproxy.Network.{ErrorCode, Messages, text, publish_json, Call}
use dmproxy.Network.Action.{ok}
use dmproxy.Platforms.Publish.{Encoders}
use dmproxy.Yy.Client.{Client, Handler, ChatXml, on_client_message, handle_response, held_error}

module _ ⦃m : Messages⦄ ⦃e : Encoders⦄ ⦃x : ChatXml⦄ (j : JsonApi) where
  open j use {Json, parse, member, string_value, to_uint64}

  -- A chat message with its user, nickname and XML text.
  abbrev pub comment : Json → List (Call Handler)
  comment json =
      let chat_msg = string_value (member json (codes "chat_msg")) in
      if x.has_data chat_msg
      then publish_json (to_string (to_uint64 (member json (codes "uid"))))
          (string_value (member json (codes "nick"))) chat_msg
        ∷ []
      else []

  handle_response-comment :
      (ec sent : ErrorCode) (json : Json) (c : Client)
      → string_value (member json (codes "response")) ≡ codes "chat"
      → handle_response j ec sent json c ≡ (ok tt, c, comment json)
  unfolding handle_response bytes_eq
  handle_response-comment ec sent json c chat =
      elim (Bool-cases (x.has_data (string_value (member json (codes "chat_msg"))))) [
        | inl h ↦ rw (handle_response, chat, h, comment) refl
        | inr h ↦ rw (handle_response, chat, h, comment) refl
      ]

  pub on_client_message-comment :
      (sent : ErrorCode) (payload : Bytes) (json : Json) (c : Client)
      → parse payload ≡ some json
      → string_value (member json (codes "response")) ≡ codes "chat"
      → on_client_message j sent text payload c ≡ (ok tt, c, comment json)
  unfolding on_client_message
  on_client_message-comment sent payload json c parsed chat =
      ground (arith, parsed, handle_response-comment (held_error j text payload) sent json c chat)
