-- ===== src/Server/Invariant.antt =====
-- main.cpp: what holds of the served rooms between two handlers.
pub mod Steps
pub mod Handlers
use dmproxy.Base.{
  Bytes, codes, ℕ, suc, ◌+◌, ◌≤◌, ◌<◌, ◌≡◌, ◌≢◌, refl, sym, ◌∙◌, ap, subst, List, [], ◌∷◌, ◌++◌,
  Bool, true, false, ◌⊎◌, inl, inr, Option, none, some, ◌==◌, ==_iff, bytes_eq, bytes_eq_iff,
  bytes_eq→eq, bytes_eq_refl, if◌then◌else◌, arith, Bool-cases, Option-cases, length,
}
use dmproxy.Base.Dict.{Dict, lookup, assign, erase, lookup-assign, lookup-erase}
use dmproxy.Network.{room_string, ServerCall}
use dmproxy.Platforms.{Platform}
use dmproxy.Platforms.Listeners.{
  has, add_listener, erase_listener, have_listener, listeners_count, set_close_callback, has-insert,
  has-erase, has-nil,
}
use dmproxy.Server.{
  Server, update, modify_platform, set_message_handler, on_platform_close, drop_listener, leave,
  start_room, allocate,
}

-- The served rooms, for handlers bound as `bind` says: a listener of a room is bound to it, an
-- object stands under the room string that it hands to its close callback, has that callback, and
-- is in use.
pub record Serves (bind : ℕ → Bytes) (s : Server) : Type 0 where
  pub bound :
      (r : Bytes) (id h : ℕ)
      → lookup r s.rp_map ≡ some id
      → has h (s.heap id).listeners ≡ true
      → bind h ≡ r
  pub named :
      (r : Bytes) (id : ℕ)
      → lookup r s.rp_map ≡ some id
      → room_string (s.heap id).platform_name (s.heap id).roomid ≡ r
  pub called :
      (r : Bytes) (id : ℕ) → lookup r s.rp_map ≡ some id → (s.heap id).has_close_callback ≡ true
  pub used : (r : Bytes) (id : ℕ) → lookup r s.rp_map ≡ some id → id < s.next

abbrev pub IsValid : Server → Type 0
IsValid s = Serves s.message_room s

-- Nowhere in the served rooms is `h` a listener.
abbrev pub IsAbsent : ℕ → Server → Type 0
IsAbsent h s =
    (r : Bytes) (id : ℕ) → lookup r s.rp_map ≡ some id → has h (s.heap id).listeners ≡ false

-- Rooms do not share objects.
pub lookup_injective :
    {bind : ℕ → Bytes} {s : Server} (v : Serves bind s) (r q : Bytes) (id : ℕ)
    → lookup r s.rp_map ≡ some id
    → lookup q s.rp_map ≡ some id
    → r ≡ q
lookup_injective v r q id hr hq = sym (v.named r id hr) ∙ v.named q id hq

-- Forgetting rooms.
pub on_platform_close-Serves :
    {bind : ℕ → Bytes} {s : Server} (q : Bytes)
    → Serves bind s
    → Serves bind (on_platform_close q s)
unfolding on_platform_close
on_platform_close-Serves {s = s} q v = record {
  bound = λ r id h e. v.bound r id h (kept r id e);
  named = λ r id e. v.named r id (kept r id e);
  called = λ r id e. v.called r id (kept r id e);
  used = λ r id e. v.used r id (kept r id e);
}
  where
    kept :
        (r : Bytes) (id : ℕ) → lookup r (erase q s.rp_map) ≡ some id → lookup r s.rp_map ≡ some id
    kept r id e = ground (arith, lookup-erase r q s.rp_map)

pub erase_listener-Serves :
    {bind : ℕ → Bytes} {s : Server} (k hdl : ℕ)
    → Serves bind s
    → Serves bind (modify_platform k (erase_listener hdl) s)
unfolding erase_listener
erase_listener-Serves {s = s} k hdl v = record {
  bound = λ r id h e m. v.bound r id h e (ground (arith, has-erase hdl h (s.heap k).listeners));
  named = λ r id e. ground (arith, v.named r id e);
  called = λ r id e. ground (arith, v.called r id e);
  used = λ r id e. v.used r id e;
}

-- Whom an object that the handlers leave alone still serves.
pub bind-Serves :
    {s : Server} (bind : ℕ → Bytes) (hdl : ℕ) (q : Bytes)
    → Serves bind s
    → IsAbsent hdl s
    → Serves (update bind hdl q) s
bind-Serves {s = s} bind hdl q v absent = record {
  bound = λ r id h e m. ground (arith, v.bound r id h e m, absent r id e);
  named = λ r id e. v.named r id e;
  called = λ r id e. v.called r id e;
  used = λ r id e. v.used r id e;
}
