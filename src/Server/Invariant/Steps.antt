-- ===== src/Server/Invariant/Steps.antt =====
-- main.cpp: every handler keeps the invariant of the served rooms.
use dmproxy.Base.{
  Bytes, ℕ, ◌<◌, ◌≡◌, List, true, inl, inr, some, ◌==◌, bytes_eq_iff, arith, if_both, Option-cases,
}
use dmproxy.Base.Dict.{lookup, lookup-assign, lookup-erase}
use dmproxy.Network.{room_string, ServerCall}
use dmproxy.Platforms.{Platform}
use dmproxy.Platforms.Listeners.{
  has, add_listener, erase_listener, listeners_count, set_close_callback, has-insert, has-erase,
}
use dmproxy.Server.{
  Server, modify_platform, on_platform_close, drop_listener, leave, start_room, allocate,
}
use dmproxy.Server.Invariant.{
  Serves, IsAbsent, lookup_injective, on_platform_close-Serves, erase_listener-Serves,
}

module _ {bind : ℕ → Bytes} {s : Server} (v : Serves bind s) where
  abbrev left : Bytes → ℕ → ℕ → Platform
  left q hdl k = (modify_platform k (erase_listener hdl) s).heap k

  pub drop_listener-Serves : (q : Bytes) (hdl k : ℕ) → Serves bind (drop_listener q hdl k s).0
  unfolding drop_listener
  drop_listener-Serves q hdl k =
      let w = erase_listener-Serves k hdl v in
      if_both {A = Server × List ServerCall} (λ r. Serves bind r.0)
        (listeners_count (left q hdl k) == 0) _ _ (on_platform_close-Serves q w) w

  pub leave-Serves : (q : Bytes) (hdl : ℕ) → Serves bind (leave q hdl s).0
  unfolding leave
  leave-Serves q hdl = elim (Option-cases (lookup q s.rp_map)) [
    | inl e ↦ rw (e, leave) v
    | inr (k, e) ↦ rw (e, leave) (drop_listener-Serves q hdl k)
  ]

  pub add_listener-Serves :
      (q : Bytes) (k hdl : ℕ)
      → lookup q s.rp_map ≡ some k
      → bind hdl ≡ q
      → Serves bind (modify_platform k (add_listener hdl) s)
  unfolding add_listener
  add_listener-Serves q k hdl at bq = record {
    bound = λ r id h e m.
        ground (
          arith,
          v.bound r id h e,
          has-insert hdl h (s.heap k).listeners,
          lookup_injective v r q k,
        );
    named = λ r id e. ground (arith, v.named r id e);
    called = λ r id e. ground (arith, v.called r id e);
    used = λ r id e. v.used r id e;
  }

  pub allocate-Serves : (p : Platform) → Serves bind (allocate p s)
  allocate-Serves p = record {
    bound = λ r id h e m. ground (arith, v.bound r id h e, v.used r id e);
    named = λ r id e. ground (arith, v.named r id e, v.used r id e);
    called = λ r id e. ground (arith, v.called r id e, v.used r id e);
    used = λ r id e. omega (arith, v.used r id e);
  }

  -- An object is put under the room `q` that it is named for, for a listener bound to `q`.
  pub start_room-Serves :
      (q : Bytes) (hdl k : ℕ)
      → bind hdl ≡ q
      → k < s.next
      → room_string (s.heap k).platform_name (s.heap k).roomid ≡ q
      → ((h : ℕ) → has h (s.heap k).listeners ≡ true → bind h ≡ q)
      → ((r : Bytes) → lookup r s.rp_map ≡ some k → r ≡ q)
      → Serves bind (start_room q hdl k s).0
  unfolding start_room add_listener set_close_callback
  start_room-Serves q hdl k bq used name served alone = record {
    bound = λ r id h e m. ground (
      arith,
      v.bound r id h,
      lookup-assign r q k s.rp_map,
      bytes_eq_iff q r,
      has-insert hdl h (s.heap k).listeners,
      served h,
      alone r,
    );
    named = λ r id e.
        ground (arith, v.named r id, lookup-assign r q k s.rp_map, bytes_eq_iff q r, alone r);
    called =
        λ r id e. ground (arith, v.called r id, lookup-assign r q k s.rp_map, bytes_eq_iff q r);
    used = λ r id e. ground (arith, v.used r id, lookup-assign r q k s.rp_map, bytes_eq_iff q r);
  }

  -- A connection that leaves the room it is bound to is a listener nowhere.
  erase_listener-IsAbsent :
      (q : Bytes) (hdl k : ℕ)
      → lookup q s.rp_map ≡ some k
      → bind hdl ≡ q
      → IsAbsent hdl (modify_platform k (erase_listener hdl) s)
  unfolding erase_listener
  erase_listener-IsAbsent q hdl k at bq r id e =
      ground (arith, v.bound r id hdl e, has-erase hdl hdl (s.heap k).listeners)

  on_platform_close-IsAbsent :
      (t : Server) (q : Bytes) (hdl : ℕ) → IsAbsent hdl t → IsAbsent hdl (on_platform_close q t)
  unfolding on_platform_close
  on_platform_close-IsAbsent t q hdl absent r id e =
      absent r id (ground (arith, lookup-erase r q t.rp_map))

  drop_listener-IsAbsent :
      (q : Bytes) (hdl k : ℕ)
      → lookup q s.rp_map ≡ some k
      → bind hdl ≡ q
      → IsAbsent hdl (drop_listener q hdl k s).0
  unfolding drop_listener
  drop_listener-IsAbsent q hdl k at bq =
      let absent = erase_listener-IsAbsent q hdl k at bq in
      if_both {A = Server × List ServerCall} (λ r. IsAbsent hdl r.0)
        (listeners_count (left q hdl k) == 0) _ _
        (on_platform_close-IsAbsent (modify_platform k (erase_listener hdl) s) q hdl absent) absent

  -- A connection that leaves the room it is bound to is a listener nowhere.
  pub leave-IsAbsent : (q : Bytes) (hdl : ℕ) → bind hdl ≡ q → IsAbsent hdl (leave q hdl s).0
  unfolding leave
  leave-IsAbsent q hdl bq = elim (Option-cases (lookup q s.rp_map)) [
    | inl e ↦ rw (e, leave) (λ r id at. ground (arith, v.bound r id hdl at))
    | inr (k, e) ↦ rw (e, leave) (drop_listener-IsAbsent q hdl k e bq)
  ]
