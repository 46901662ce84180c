-- ===== src/Locks.antt =====
-- utils/rw_lock.hpp: the two kinds of mutex, and the order in which a thread takes them.
pub mod Handlers
pub mod Calls
pub mod Progress
pub mod Sound
pub mod System
use dmproxy.Base.{
  ℕ, List, [], ◌∷◌, Bool, true, false, not, ◌&&◌, Option, none, some, ◌==◌, if◌then◌else◌,
}

-- `rp_rw_mtx` of main.cpp, and `m_lmtx` of each platform object.
pub data Mutex : Type 0 where
  rooms : Mutex
  listeners : ℕ → Mutex

-- The constructors and destructors of `wlock_t` and `rlock_t`.
pub data LockOp : Type 0 where
  write_lock read_lock unlock : Mutex → LockOp

-- What a thread holds.
pub record Held : Type 0 where
  pub of_rooms : Bool
  pub of_listeners : Option ℕ

abbrev pub nothing_held : Held
nothing_held = record { of_rooms = false; of_listeners = none }

abbrev pub is_free : Option ℕ → Bool
is_free none = true
is_free (some i) = false

abbrev pub is_held : ℕ → Option ℕ → Bool
is_held i none = false
is_held i (some j) = i == j

-- Neither mutex is recursive. May a thread that holds `h` do this?
abbrev pub allowed : Held → LockOp → Bool
allowed h (write_lock rooms) = not h.of_rooms && is_free h.of_listeners
allowed h (write_lock (listeners i)) = is_free h.of_listeners
allowed h (read_lock rooms) = not h.of_rooms && is_free h.of_listeners
allowed h (read_lock (listeners i)) = is_free h.of_listeners
allowed h (unlock rooms) = h.of_rooms && is_free h.of_listeners
allowed h (unlock (listeners i)) = is_held i h.of_listeners

abbrev pub after : Held → LockOp → Held
after h (write_lock rooms) = record h { of_rooms = true }
after h (write_lock (listeners i)) = record h { of_listeners = some i }
after h (read_lock rooms) = record h { of_rooms = true }
after h (read_lock (listeners i)) = record h { of_listeners = some i }
after h (unlock rooms) = record h { of_rooms = false }
after h (unlock (listeners i)) = record h { of_listeners = none }

-- A thread takes the mutex of the rooms before one of listeners, never one that it holds already,
-- and gives back what it holds.
abbrev pub ordered : Held → List LockOp → Bool
ordered h [] = not h.of_rooms && is_free h.of_listeners
ordered h (op ∷ ops) = allowed h op && ordered (after h op) ops
