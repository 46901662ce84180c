-- ===== src/Locks/Sound.antt =====
-- utils/rw_lock.hpp: what the threads hold agrees with what the mutexes note, in every reachable
-- state.
use dmproxy.Base.{
  ℕ, ◌≡◌, refl, List, [], ◌∷◌, Bool, true, false, ◌==◌, ==_iff, arith, inl, inr, Bool-cases,
}
use dmproxy.Platforms.Listeners.{has, has-erase}
use dmproxy.Server.{update}
use dmproxy.Locks.{
  Mutex, rooms, listeners, LockOp, write_lock, read_lock, unlock, Held, nothing_held, ordered,
}
use dmproxy.Locks.System.{
  System, nobody, move, idle, holds, grants, Step, begin, next_op, Reach, starts, goes_on,
}

-- Every thread keeps the order in what it has to do, and those that are noted as holding a mutex do.
pub record IsSound (s : System) : Type 0 where
  pub keeps : (t : ℕ) → ordered (s.held t) (s.todo t) ≡ true
  pub noted : (m : Mutex) (t : ℕ) → has t (s.holders m) ≡ true → holds m (s.held t) ≡ true
  pub written : (m : Mutex) → s.writing m ≡ true → nobody (s.holders m) ≡ false

idle-IsSound : IsSound idle
unfolding has
idle-IsSound = record { keeps = λ t. refl; noted = λ m t h. cc; written = λ m h. cc }

module _ (held_back : System → Mutex → Bool) (s : System) (t : ℕ) (ops : List LockOp)
    (v : IsSound s) where
  noted-write :
      (m n : Mutex) (u : ℕ)
      → s.todo t ≡ write_lock m ∷ ops
      → grants held_back s (write_lock m) ≡ true
      → has u ((move t (write_lock m) ops s).holders n) ≡ true
      → holds n ((move t (write_lock m) ops s).held u) ≡ true
  unfolding has
  noted-write rooms rooms u e g h = ground (arith, v.keeps t, v.noted rooms u)
  noted-write rooms (listeners j) u e g h = ground (arith, v.keeps t, v.noted (listeners j) u)
  noted-write (listeners i) rooms u e g h = ground (arith, v.keeps t, v.noted rooms u)
  noted-write (listeners i) (listeners j) u e g h =
      ground (arith, v.keeps t, v.noted (listeners j) u)

  noted-read :
      (m n : Mutex) (u : ℕ)
      → s.todo t ≡ read_lock m ∷ ops
      → grants held_back s (read_lock m) ≡ true
      → has u ((move t (read_lock m) ops s).holders n) ≡ true
      → holds n ((move t (read_lock m) ops s).held u) ≡ true
  unfolding has
  noted-read rooms rooms u e g h = ground (arith, v.keeps t, v.noted rooms u)
  noted-read rooms (listeners j) u e g h = ground (arith, v.keeps t, v.noted (listeners j) u)
  noted-read (listeners i) rooms u e g h = ground (arith, v.keeps t, v.noted rooms u)
  noted-read (listeners i) (listeners j) u e g h =
      ground (arith, v.keeps t, v.noted (listeners j) u)

  noted-unlock :
      (m n : Mutex) (u : ℕ)
      → s.todo t ≡ unlock m ∷ ops
      → has u ((move t (unlock m) ops s).holders n) ≡ true
      → holds n ((move t (unlock m) ops s).held u) ≡ true
  noted-unlock rooms rooms u e h =
      ground (arith, v.keeps t, v.noted rooms u, has-erase t u (s.holders rooms))
  noted-unlock rooms (listeners j) u e h = ground (arith, v.keeps t, v.noted (listeners j) u)
  noted-unlock (listeners i) rooms u e h = ground (arith, v.keeps t, v.noted rooms u)
  noted-unlock (listeners i) (listeners j) u e h =
      ground (arith, v.keeps t, v.noted (listeners j) u, has-erase t u (s.holders (listeners j)))

  keeps-move :
      (op : LockOp) (u : ℕ)
      → s.todo t ≡ op ∷ ops
      → ordered ((move t op ops s).held u) ((move t op ops s).todo u) ≡ true
  keeps-move (write_lock m) u e = ground (arith, v.keeps t, v.keeps u)
  keeps-move (read_lock m) u e = ground (arith, v.keeps t, v.keeps u)
  keeps-move (unlock m) u e = ground (arith, v.keeps t, v.keeps u)

  move-IsSound :
      (op : LockOp) → s.todo t ≡ op ∷ ops → grants held_back s op ≡ true → IsSound (move t op ops s)
  move-IsSound (write_lock m) e g = record {
    keeps = λ u. keeps-move (write_lock m) u e;
    noted = λ n u. noted-write m n u e g;
    written = λ n w. ground (arith, v.written n);
  }
  move-IsSound (read_lock m) e g = record {
    keeps = λ u. keeps-move (read_lock m) u e;
    noted = λ n u. noted-read m n u e g;
    written = λ n w. ground (arith, v.written n);
  }
  move-IsSound (unlock m) e g = record {
    keeps = λ u. keeps-move (unlock m) u e;
    noted = λ n u. noted-unlock m n u e;
    written = λ n w. ground (arith, v.written n);
  }

done-nothing_held : (h : Held) → ordered h [] ≡ true → h ≡ nothing_held
done-nothing_held h o = ground arith

begin-keeps :
    (s : System) (t : ℕ) (ops : List LockOp) (u : ℕ)
    → IsSound s
    → s.todo t ≡ []
    → ordered nothing_held ops ≡ true
    → ordered (s.held u) (update s.todo t ops u) ≡ true
begin-keeps s t ops u v e o = elim (Bool-cases (t == u)) [
  | inl same ↦ rw (same, done-nothing_held (s.held u) (ground (arith, v.keeps u, ==_iff t u))) o
  | inr other ↦ rw other (v.keeps u)
]

module _ {held_back : System → Mutex → Bool} where
  Step-IsSound : {s u : System} → Step held_back s u → IsSound s → IsSound u
  Step-IsSound {s} (next_op t op ops e g) v = move-IsSound held_back s t ops v op e g
  Step-IsSound {s} (begin t ops e o) v = record {
    keeps = λ u. begin-keeps s t ops u v e o;
    noted = λ n u. v.noted n u;
    written = v.written;
  }

  pub Reach-IsSound : {s : System} → Reach held_back s → IsSound s
  Reach-IsSound starts = idle-IsSound
  Reach-IsSound (goes_on r st) = Step-IsSound st (Reach-IsSound r)
