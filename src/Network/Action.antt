-- ===== src/Network/Action.antt =====
-- A platform's handler as an action on the object: it may stop with a fault, and it records its
-- library calls. What was done before a fault stays done.
use dmproxy.Base.{◌++◌, List, [], ◌∷◌}
use dmproxy.Network.{Call}

-- Undefined behaviour or an exception that no handler of the program catches.
pub data Fault : Type 0 where
  null_dereference out_of_range out_of_bounds assertion_failed : Fault
  not_followed : Fault  -- a loop that ran out of fuel

pub data Outcome (A : Type 0) : Type 0 where
  ok : A → Outcome A
  fault : Fault → Outcome A

abbrev pub Action : Type 0 → Type 0 → Type 0 → Type 0
Action S K A = S → Outcome A × S × List (Call K)

module _ {S K : Type 0} where
  abbrev pub pure : {A : Type 0} → A → Action S K A
  pure a s = (ok a, s, [])

  abbrev pub done : Action S K (Unit {0})
  done s = (ok tt, s, [])

  abbrev pub raise : {A : Type 0} → Fault → Action S K A
  raise f s = (fault f, s, [])

  abbrev pub emit : Call K → Action S K (Unit {0})
  emit c s = (ok tt, s, c ∷ [])

  abbrev pub emits : List (Call K) → Action S K (Unit {0})
  emits cs s = (ok tt, s, cs)

  abbrev pub modify : (S → S) → Action S K (Unit {0})
  modify f s = (ok tt, f s, [])

  abbrev pub get : Action S K S
  get s = (ok s, s, [])

  abbrev pub prepend :
      {A : Type 0} → List (Call K) → Outcome A × S × List (Call K) → Outcome A × S × List (Call K)
  prepend cs (r, s, ds) = (r, s, cs ++ ds)

  abbrev pub continue :
      {A B : Type 0}
      → (A → Action S K B)
      → Outcome A × S × List (Call K)
      → Outcome B × S × List (Call K)
  continue f (ok a, s, cs) = prepend cs (f a s)
  continue f (fault e, s, cs) = (fault e, s, cs)

  infixl 5 ◌>>=◌ ◌>>◌
  abbrev pub ◌>>=◌ : {A B : Type 0} → Action S K A → (A → Action S K B) → Action S K B
  ◌>>=◌ m f s = continue f (m s)

  abbrev pub ◌>>◌ : {B : Type 0} → Action S K (Unit {0}) → Action S K B → Action S K B
  ◌>>◌ m k s = continue (λ _. k) (m s)

  abbrev pub calls : {A : Type 0} → Outcome A × S × List (Call K) → List (Call K)
  calls r = r.2
