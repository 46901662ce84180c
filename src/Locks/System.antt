-- ===== src/Locks/System.antt =====
-- utils/rw_lock.hpp: threads that take the mutexes as the handlers do, and what they wait for.
use dmproxy.Base.{ℕ, ◌≡◌, List, [], ◌∷◌, Bool, true, false, not, ◌&&◌, ◌==◌, if◌then◌else◌}
use dmproxy.Platforms.Listeners.{erase}
use dmproxy.Server.{update}
use dmproxy.Locks.{
  Mutex, rooms, listeners, LockOp, write_lock, read_lock, unlock, Held, nothing_held, is_held,
  after, ordered,
}

-- What each thread holds and has to do, and for each mutex the threads that hold it and whether
-- one of them writes. `rp_rw_mtx` is the mutex of the rooms.
pub record System : Type 0 where
  pub held : ℕ → Held
  pub todo : ℕ → List LockOp
  pub holders : Mutex → List ℕ
  pub writing : Mutex → Bool

abbrev pub nobody : List ℕ → Bool
nobody [] = true
nobody (t ∷ ts) = false

abbrev pub mutex_eq : Mutex → Mutex → Bool
mutex_eq rooms rooms = true
mutex_eq rooms (listeners j) = false
mutex_eq (listeners i) rooms = false
mutex_eq (listeners i) (listeners j) = i == j

abbrev pub update_mutex {ℓ} : {A : Type ℓ} → (Mutex → A) → Mutex → A → Mutex → A
update_mutex f m v n = if mutex_eq m n then v else f n

abbrev pub perform : ℕ → LockOp → System → System
perform t (write_lock m) s = record s {
  holders = update_mutex s.holders m (t ∷ s.holders m);
  writing = update_mutex s.writing m true;
}
perform t (read_lock m) s = record s { holders = update_mutex s.holders m (t ∷ s.holders m) }
perform t (unlock m) s = record s {
  holders = update_mutex s.holders m (erase t (s.holders m));
  writing = update_mutex s.writing m false;
}

abbrev pub move : ℕ → LockOp → List LockOp → System → System
move t op ops s =
    let u = perform t op s in
    record u { held = update u.held t (after (u.held t) op); todo = update u.todo t ops }

abbrev pub idle : System
idle = record { held = λ t. nothing_held; todo = λ t. []; holders = λ m. []; writing = λ m. false }

abbrev pub holds : Mutex → Held → Bool
holds rooms h = h.of_rooms
holds (listeners i) h = is_held i h.of_listeners

-- Somebody is about to write, and may wait for it already.
abbrev pub IsWanted : System → Mutex → Type 0
IsWanted s m = (t : ℕ) × (ops : List LockOp) × (s.todo t ≡ write_lock m ∷ ops)

-- A boost::shared_mutex lets a writer in if nobody holds it, and a reader if nobody writes;
-- `held_back` says when it makes a reader wait for the writers that wait.
module _ (held_back : System → Mutex → Bool) where
  abbrev pub grants : System → LockOp → Bool
  grants s (write_lock m) = nobody (s.holders m)
  grants s (read_lock m) = not (s.writing m) && not (held_back s m)
  grants s (unlock m) = true

  abbrev pub can_step : System → List LockOp → Bool
  can_step s [] = false
  can_step s (op ∷ ops) = grants s op

  abbrev pub CanMove : System → Type 0
  CanMove s = (u : ℕ) × (can_step s (s.todo u) ≡ true)

  -- A thread that has nothing to do runs a handler; a thread that has does the next of it.
  pub data Step (s : System) : System → Type 0 where
    begin :
        (t : ℕ) (ops : List LockOp)
        → s.todo t ≡ []
        → ordered nothing_held ops ≡ true
        → Step s (record s { todo = update s.todo t ops })
    next_op :
        (t : ℕ) (op : LockOp) (ops : List LockOp)
        → s.todo t ≡ op ∷ ops
        → grants s op ≡ true
        → Step s (move t op ops s)

  pub data Reach : System → Type 0 where
    starts : Reach idle
    goes_on : {s u : System} → Reach s → Step s u → Reach u
