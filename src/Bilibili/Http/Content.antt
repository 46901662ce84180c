-- ===== src/Bilibili/Http/Content.antt =====
-- platforms/bilibili/bilibili.cpp: what the client takes for the document, and what it finds in it.
use dmproxy.Base.{
  Bytes, codes, ◌≡◌, ◌≢◌, refl, sym, ◌∙◌, ap, List, [], ◌∷◌, ◌++◌, append_assoc, append-nil, Option,
  none, some, if◌then◌else◌, bytes_eq, length, length-append, arith,
}
use dmproxy.Network.{eof, bad_message, Messages, async_resolve, socket_close, client_report}
use dmproxy.Bilibili.Client.{Client, on_tcp_resolve, room}
use dmproxy.Bilibili.Http.{Xml, header_read, content_read}

-- All that has arrived by each piece, joined.
abbrev pub repeated : Bytes → List Bytes → Bytes
repeated seen [] = []
repeated seen (piece ∷ pieces) = (seen ++ piece) ++ repeated (seen ++ piece) pieces

longer :
    (first second : Bytes) → first ≢ [] → [] ++ repeated [] (first ∷ second ∷ []) ≢ first ++ second
longer [] second ne e = ne refl
longer (b ∷ first) second ne e = omega (
  arith,
  ap length e,
  length-append first (((b ∷ first) ++ second) ++ []),
  length-append first second,
  length-append (first ++ second) [],
)

module _ ⦃m : Messages⦄ ⦃x : Xml⦄ where
  -- The client after pieces of the content have arrived, each in a read that did not fail.
  unfoldable pub receive : List Bytes → Client → Client
  receive [] c = c
  receive (piece ∷ pieces) c = receive pieces (content_read piece none none c).1

  receive-live_msg :
      (pieces : List Bytes) (c : Client)
      → (receive pieces c).live_msg ≡ c.live_msg ++ repeated c.response pieces
  unfolding receive content_read
  receive-live_msg [] c = sym (append-nil c.live_msg)
  receive-live_msg (piece ∷ pieces) c =
      receive-live_msg pieces (content_read piece none none c).1
      ∙ append_assoc c.live_msg (c.response ++ piece) (repeated (c.response ++ piece) pieces)

  -- What the client takes for the document after pieces have arrived without an error: what arrived
  -- with the HTTP header, `early`, is lost, and each piece brings everything that arrived since the
  -- header once more.
  pub receive_lem :
      (early : Bytes) (pieces : List Bytes) (c : Client)
      → (receive pieces (header_read early none c).1).live_msg ≡ c.live_msg ++ repeated [] pieces
  unfolding header_read
  receive_lem early pieces c = receive-live_msg pieces (header_read early none c).1

  -- So in a client that has no document yet, one that arrives in one piece that is not empty is
  -- taken as it is, and one that arrives in two pieces, of which the first is not empty, is not.
  receive_two :
      (early first second : Bytes) (c : Client)
      → c.live_msg ≡ []
      → first ≢ []
      → ((receive (first ∷ []) (header_read early none c).1).live_msg ≡ first)
        × ((receive (first ∷ second ∷ []) (header_read early none c).1).live_msg ≢ first ++ second)
  receive_two early first second c empty ne = (
    receive_lem early (first ∷ []) c ∙ rw empty (append-nil first),
    λ e. longer first second ne (rw empty at (sym (receive_lem early (first ∷ second ∷ []) c) ∙ e)),
  )

  -- Where the document says that the room is live, the barrage server's address.
  abbrev pub live_address : Bytes → Option (Bytes × Bytes)
  live_address doc =
      if x.reads doc
      then (elim (x.get doc (codes "state")) [
        | none ↦ none
        | some state ↦ (elim (x.get doc (codes "server")) [
          | none ↦ none
          | some server ↦ (elim (x.get doc (codes "dm_port")) [
            | none ↦ none
            | some port ↦ if bytes_eq state (codes "LIVE") then some (server, port) else none
          ])
        ])
      ])
      else none

  -- At the end of the content, and if closing the socket reports no error, the client goes on to
  -- the address that the document gives, and where it gives none, tells its listeners and gives up
  -- the room; the socket is closed either way.
  content_read-live_address :
      (arrived : Bytes) (c : Client)
      → (content_read arrived (some eof) none c).2
        ≡ socket_close ∷ (elim (live_address c.live_msg) [
          | none ↦ client_report (room c) (some bad_message) ++ socket_close ∷ []
          | some (server, port) ↦ socket_close ∷ async_resolve server port on_tcp_resolve ∷ []
        ])
  unfolding content_read
  content_read-live_address arrived c = ground arith
