-- ===== src/Locks/Progress.antt =====
-- utils/rw_lock.hpp: threads that take the mutexes in order never wait for one another in a circle.
use dmproxy.Base.{ℕ, ◌≡◌, refl, List, [], ◌∷◌, Bool, true, false, arith, inl, inr, Bool-cases}
use dmproxy.Platforms.Listeners.{has}
use dmproxy.Locks.{
  Mutex, rooms, listeners, LockOp, write_lock, read_lock, unlock, Held, is_held, ordered,
}
use dmproxy.Locks.System.{System, nobody, IsWanted, can_step, CanMove, Reach}
use dmproxy.Locks.Sound.{IsSound, Reach-IsSound}

-- Where the first thread of a list stands, if it is not empty.
first : (ts : List ℕ) → nobody ts ≡ false → (u : ℕ) × (has u ts ≡ true)
unfolding has
first [] e = cc
first (t ∷ ts) e = (t, ground arith)

module _ (held_back : System → Mutex → Bool)
    (waits : (s : System) (m : Mutex) → held_back s m ≡ true → IsWanted s m) where
  -- A thread that holds the mutex of some listeners only gives back, and so is never in the way.
  holds_listeners :
      (s : System) (i : ℕ) (h : Held) (ops : List LockOp)
      → ordered h ops ≡ true
      → is_held i h.of_listeners ≡ true
      → can_step held_back s ops ≡ true
  holds_listeners s i h [] o k = ground arith
  holds_listeners s i h (write_lock rooms ∷ ops) o k = ground arith
  holds_listeners s i h (write_lock (listeners j) ∷ ops) o k = ground arith
  holds_listeners s i h (read_lock rooms ∷ ops) o k = ground arith
  holds_listeners s i h (read_lock (listeners j) ∷ ops) o k = ground arith
  holds_listeners s i h (unlock n ∷ ops) o k = refl

  -- If the mutex of some listeners is held, somebody moves.
  listeners_held :
      (s : System) (i : ℕ)
      → IsSound s
      → nobody (s.holders (listeners i)) ≡ false
      → CanMove held_back s
  listeners_held s i v e =
      let (u, m) = first (s.holders (listeners i)) e in
      (u, holds_listeners s i (s.held u) (s.todo u) (v.keeps u) (v.noted (listeners i) u m))

  -- A thread that is about to take the mutex of some listeners moves, or somebody else does.
  wants_write :
      (s : System) (i t : ℕ) (ops : List LockOp)
      → IsSound s
      → s.todo t ≡ write_lock (listeners i) ∷ ops
      → CanMove held_back s
  wants_write s i t ops v e = elim (Bool-cases (nobody (s.holders (listeners i)))) [
    | inl free ↦ (t, rw e free)
    | inr taken ↦ listeners_held s i v taken
  ]

  wants_read :
      (s : System) (i t : ℕ) (ops : List LockOp)
      → IsSound s
      → s.todo t ≡ read_lock (listeners i) ∷ ops
      → CanMove held_back s
  wants_read s i t ops v e = elim (Bool-cases (s.writing (listeners i))) [
    | inl taken ↦ listeners_held s i v (v.written (listeners i) taken)
    | inr free ↦ elim (Bool-cases (held_back s (listeners i))) [
      | inl back ↦ let (u, us, f) = waits s (listeners i) back in wants_write s i u us v f
      | inr on ↦ (t, rw e (ground arith))
    ]
  ]

  -- If the mutex of the rooms is held, somebody moves.
  holds_rooms :
      (s : System) (t : ℕ) (ops : List LockOp)
      → IsSound s
      → s.todo t ≡ ops
      → (s.held t).of_rooms ≡ true
      → CanMove held_back s
  holds_rooms s t [] v e k = absurd (idle_lem (v.keeps t))
    where
      idle_lem : ordered (s.held t) (s.todo t) ≡ true → ⊥
      idle_lem o = ground arith
  holds_rooms s t (write_lock rooms ∷ ops) v e k = (t, ground (arith, v.keeps t))
  holds_rooms s t (read_lock rooms ∷ ops) v e k = (t, ground (arith, v.keeps t))
  holds_rooms s t (write_lock (listeners i) ∷ ops) v e k = wants_write s i t ops v e
  holds_rooms s t (read_lock (listeners i) ∷ ops) v e k = wants_read s i t ops v e
  holds_rooms s t (unlock n ∷ ops) v e k = (t, rw e refl)

  rooms_held : (s : System) → IsSound s → nobody (s.holders rooms) ≡ false → CanMove held_back s
  rooms_held s v e =
      let (u, m) = first (s.holders rooms) e in
      holds_rooms s u (s.todo u) v refl (v.noted rooms u m)

  wants_rooms :
      (s : System) (t : ℕ) (ops : List LockOp)
      → IsSound s
      → s.todo t ≡ write_lock rooms ∷ ops
      → CanMove held_back s
  wants_rooms s t ops v e = elim (Bool-cases (nobody (s.holders rooms))) [
    | inl free ↦ (t, rw e free)
    | inr taken ↦ rooms_held s v taken
  ]

  IsSound-CanMove :
      (s : System) (t : ℕ) (op : LockOp) (ops : List LockOp)
      → IsSound s
      → s.todo t ≡ op ∷ ops
      → CanMove held_back s
  IsSound-CanMove s t (write_lock rooms) ops v e = wants_rooms s t ops v e
  IsSound-CanMove s t (read_lock rooms) ops v e = elim (Bool-cases (s.writing rooms)) [
    | inl taken ↦ rooms_held s v (v.written rooms taken)
    | inr free ↦ elim (Bool-cases (held_back s rooms)) [
      | inl back ↦ let (u, us, f) = waits s rooms back in wants_rooms s u us v f
      | inr on ↦ (t, rw e (ground arith))
    ]
  ]
  IsSound-CanMove s t (write_lock (listeners i)) ops v e = wants_write s i t ops v e
  IsSound-CanMove s t (read_lock (listeners i)) ops v e = wants_read s i t ops v e
  IsSound-CanMove s t (unlock n) ops v e = (t, rw e refl)

  -- If readers are made to wait without a writer that holds the mutex only where some thread is
  -- about to write, and the threads run handlers that keep the order of the mutexes, then in every
  -- state that is reached in which some thread has something to do, some thread can do the next of
  -- it.
  pub Reach-CanMove :
      (s : System) (t : ℕ) (op : LockOp) (ops : List LockOp)
      → Reach held_back s
      → s.todo t ≡ op ∷ ops
      → CanMove held_back s
  Reach-CanMove s t op ops r e = IsSound-CanMove s t op ops (Reach-IsSound r) e
