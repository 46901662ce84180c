-- ===== src/Server/Announcing.antt =====
-- main.cpp: a room that is served anew has an object that the handler has started.
use dmproxy.Base.{
  Bytes, ℕ, ◌<◌, ◌≡◌, ◌∙◌, ap, List, [], ◌++◌, true, false, none, some, inl, inr, arith,
  Option-cases, if_both, bytes_eq, ◌&&◌, refl, subst,
}
use dmproxy.Base.Dict.{lookup, contains, lookup-assign, lookup-erase}
use dmproxy.Network.{
  Messages, ErrorCode, ServerCall, Opcode, text, binary, other_opcode, server_close_and_report,
}
use dmproxy.Platforms.Listeners.{has}
use dmproxy.Server.Room.{split_room}
use dmproxy.Server.{
  Server, Trimming, set_message_handler, leave, start_room, create_room, enter, switch_room,
  on_server_text, on_server_message, on_platform_close,
}
use dmproxy.Server.Invariant.{IsValid}
use dmproxy.Server.Invariant.Handlers.{moved, set_message_handler-Serves}
use dmproxy.Server.Invariant.Steps.{leave-Serves}
use dmproxy.Server.Joining.{started, started-append, leave-started}

-- What a handler leaves and calls, where it began with `s`: it starts objects that are in use, and
-- the rooms that were not served before belong to them.
pub record Announces (s : Server) (r : Server × List ServerCall) : Type 0 where
  pub below : (id : ℕ) → has id (started r.1) ≡ true → id < r.0.next
  pub served :
      (q : Bytes) (id : ℕ)
      → lookup q r.0.rp_map ≡ some id
      → has id (started r.1) ≡ false
      → lookup q s.rp_map ≡ some id

pub leave-Announces : (r : Bytes) (h : ℕ) (s : Server) → Announces s (leave r h s)
unfolding leave on_platform_close has
leave-Announces r h s = record {
  below = λ id st. ground (arith, leave-started r h s);
  served = λ q id at st. ground (arith, lookup-erase q r s.rp_map);
}

module _ ⦃m : Messages⦄ where
  enter-Announces :
      (ec : ErrorCode) (q tag roomid : Bytes) (h : ℕ) (s : Server)
      → ((r : Bytes) (id : ℕ) → lookup r s.rp_map ≡ some id → id < s.next)
      → Announces s (enter ec q tag roomid h s)
  unfolding enter create_room start_room has
  enter-Announces ec q tag roomid h s used = record {
    below = λ id st. ground (arith, used q id);
    served = served_lem;
  }
    where
      served_lem :
          (r : Bytes) (id : ℕ)
          → lookup r (enter ec q tag roomid h s).0.rp_map ≡ some id
          → has id (started (enter ec q tag roomid h s).1) ≡ false
          → lookup r s.rp_map ≡ some id
      served_lem r id at st = elim (Option-cases (lookup q s.rp_map)) [
        | inl e ↦ ground (arith, lookup-assign r q s.next s.rp_map)
        | inr (k, e) ↦ ground (arith, lookup-assign r q k s.rp_map)
      ]

  reply-started : (ec : ErrorCode) (h : ℕ) → started (server_close_and_report ec h) ≡ []
  reply-started none h = refl
  reply-started (some e) h = refl

  moved-Announces :
      (ec : ErrorCode) (q tag roomid : Bytes) (h : ℕ) (s : Server)
      → IsValid s
      → let (t, cs) = moved h q s in
        let (u, ds) = enter ec q tag roomid h t in Announces s (u, cs ++ ds)
  unfolding has
  moved-Announces ec q tag roomid h s v = record {
    below = λ id st. entered.below id (subst (λ ids. has id ids ≡ true) same st);
    served = λ r id at st.
        left.served r id (entered.served r id at (subst (λ ids. has id ids ≡ false) same st))
          (ap (has id) (leave-started old h t));
  }
    where
      old : Bytes
      old = s.message_room h

      t : Server
      t = set_message_handler h q s

      left : Announces t (leave old h t)
      left = leave-Announces old h t

      used :
          (r : Bytes) (id : ℕ)
          → lookup r (leave old h t).0.rp_map ≡ some id
          → id < (leave old h t).0.next
      used = (leave-Serves (set_message_handler-Serves h q v) old h).used

      entered : Announces (leave old h t).0 (enter ec q tag roomid h (leave old h t).0)
      entered = enter-Announces ec q tag roomid h (leave old h t).0 used

      same :
          started ((leave old h t).1 ++ (enter ec q tag roomid h (leave old h t).0).1)
          ≡ started (enter ec q tag roomid h (leave old h t).0).1
      same =
          started-append (leave old h t).1 (enter ec q tag roomid h (leave old h t).0).1
          ∙ ap (λ ids. ids ++ started (enter ec q tag roomid h (leave old h t).0).1)
              (leave-started old h t)

  same-Announces : (s : Server) (cs : List ServerCall) → started cs ≡ [] → Announces s (s, cs)
  unfolding has
  same-Announces s cs e = record { below = λ id st. ground arith; served = λ q id at st. at }

  pub on_server_message-Announces :
      ⦃b : Trimming⦄ (ec : ErrorCode) (h : ℕ) (op : Opcode) (payload : Bytes) (s : Server)
      → IsValid s
      → Announces s (on_server_message ec (s.message_room h) h op payload s)
  unfolding on_server_message on_server_text switch_room
  on_server_message-Announces ⦃b⦄ ec h text payload s v =
      elim (Option-cases (split_room (b.trim payload))) [
        | inl e ↦ rw (e, on_server_text) (same-Announces s _ (reply-started ec h))
        | inr ((tag, roomid), e) ↦
            rw (e, on_server_text)
              (if_both {A = Server × List ServerCall} (Announces s)
                (bytes_eq (s.message_room h) (b.trim payload)
                  && contains (s.message_room h) s.rp_map)
                _ _ (same-Announces s [] refl)
                (moved-Announces ec (b.trim payload) tag roomid h s v))
      ]
  on_server_message-Announces ec h binary payload s v = same-Announces s [] refl
  on_server_message-Announces ec h other_opcode payload s v = same-Announces s [] refl
