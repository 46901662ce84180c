-- ===== src/Server/Leaks.antt =====
-- main.cpp: connections that stay listeners of a room after they have closed.
use dmproxy.Base.{
  Bytes, ℕ, ◌≡◌, ◌≢◌, sym, ◌∙◌, ap, subst, List, inl, inr, some, bytes_eq_iff, arith, Option-cases,
}
use dmproxy.Base.Dict.{lookup, lookup-erase}
use dmproxy.Network.{ServerCall, Messages, ErrorCode, text}
use dmproxy.Platforms.Listeners.{add_listener, erase_listener, have_listener, has-insert}
use dmproxy.Server.Room.{split_room}
use dmproxy.Server.{
  Server, Trimming, set_message_handler, on_platform_close, leave, on_server_message,
  on_server_close,
}
use dmproxy.Server.Branches.{enter-join, switch_room-moves, on_server_message-split}
use dmproxy.Server.Invariant.{Serves, IsValid, lookup_injective}
use dmproxy.Server.Invariant.Handlers.{moved, moved-IsAbsent, on_server_message-IsValid}
use dmproxy.Server.Membership.{IsListener}

-- Leaving one room changes no other.
pub leave-IsListener :
    {bind : ℕ → Bytes} {s : Server} (r q : Bytes) (h j : ℕ)
    → Serves bind s
    → r ≢ q
    → IsListener j q s
    → IsListener j q (leave r h s).0
unfolding leave on_platform_close erase_listener
leave-IsListener {s = s} r q h j v ne (k, at, l) = elim (Option-cases (lookup r s.rp_map)) [
  | inl e ↦ rw (e, leave) (k, at, l)
  | inr (i, e) ↦ (
    k,
    ground (arith, lookup-erase q r s.rp_map, bytes_eq_iff r q),
    ground (arith, lookup_injective v r q i e),
  )
]

pub leave-lookup :
    (r q : Bytes) (h : ℕ) (s : Server) → r ≢ q → lookup q (leave r h s).0.rp_map ≡ lookup q s.rp_map
unfolding leave on_platform_close
leave-lookup r q h s ne = ground (arith, lookup-erase q r s.rp_map, bytes_eq_iff r q)

leave-close_room : (r : Bytes) (h : ℕ) (s : Server) → (leave r h s).0.close_room ≡ s.close_room
unfolding leave
leave-close_room r h s = ground arith

module _ ⦃m : Messages⦄ ⦃b : Trimming⦄ where
  -- Joining a room that is served leaves the close handler as it was.
  join_lem :
      (ec : ErrorCode) (hdl k : ℕ) (payload tag roomid : Bytes) (s : Server)
      → IsValid s
      → split_room (b.trim payload) ≡ some (tag, roomid)
      → lookup (b.trim payload) s.rp_map ≡ some k
      → s.message_room hdl ≢ b.trim payload
      → let t = (on_server_message ec (s.message_room hdl) hdl text payload s).0 in
        IsListener hdl (b.trim payload) t × (t.close_room hdl ≡ s.close_room hdl)
  unfolding add_listener have_listener
  join_lem ec hdl k payload tag roomid s v split served ne =
      let q = b.trim payload in
      let l = (moved hdl q s).0 in
      let old = s.message_room hdl in
      let at = leave-lookup old q hdl (set_message_handler hdl q s) ne ∙ served in
      let absent = moved-IsAbsent hdl q s v q k at in
      subst
        (λ (r : Server × List ServerCall).
          IsListener hdl q r.0 × (r.0.close_room hdl ≡ s.close_room hdl))
        (sym (
          on_server_message-split ec old payload hdl s tag roomid split
          ∙ switch_room-moves ec q tag roomid hdl s (inl ne)))
        (subst
          (λ (r : Server × List ServerCall).
            IsListener hdl q r.0 × (r.0.close_room hdl ≡ s.close_room hdl))
          (sym (enter-join ec q tag roomid hdl l k at absent))
          (
            (k, at, ground (arith, has-insert hdl hdl (l.heap k).listeners)),
            ap (λ f. f hdl) (leave-close_room old hdl (set_message_handler hdl q s)),
          ))

  -- In a state whose served rooms are in order, a connection that asks for a served room other than
  -- the one it is bound to becomes a listener of it and keeps the close handler that it had, or
  -- stays without one. Running a close handler for any room `r` other than that leaves it a
  -- listener of the room it joined.
  pub joined_stays :
      (ec : ErrorCode) (hdl k : ℕ) (payload tag roomid r : Bytes) (s : Server)
      → IsValid s
      → split_room (b.trim payload) ≡ some (tag, roomid)
      → lookup (b.trim payload) s.rp_map ≡ some k
      → s.message_room hdl ≢ b.trim payload
      → r ≢ b.trim payload
      → let t = (on_server_message ec (s.message_room hdl) hdl text payload s).0 in
        (t.close_room hdl ≡ s.close_room hdl)
        × IsListener hdl (b.trim payload) t
        × IsListener hdl (b.trim payload) (on_server_close r hdl t).0
  unfolding on_server_close
  joined_stays ec hdl k payload tag roomid r s v split served ne other =
      let (listens, same) = join_lem ec hdl k payload tag roomid s v split served ne in
      (
        same,
        listens,
        leave-IsListener r (b.trim payload) hdl hdl
            (on_server_message-IsValid ec hdl text payload s v) other listens,
      )
