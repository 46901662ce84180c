-- ===== src/Proxy/Clients.antt =====
-- The four clients of platforms/ as the server sees them: each keeps the room it was made for, and
-- its close callbacks name that room.
pub mod DouyuRoom
pub mod BilibiliRoom
pub mod YyRoom
pub mod HuajiaoRoom
use dmproxy.Base.{Bytes, ◌≡◌, ◌∙◌, subst, List, All, All-append, refl}
use dmproxy.Network.{Call}
use dmproxy.Network.Action.{Action, Outcome, ok, fault, continue}
use dmproxy.Server.Delivery.{IsOwn}

module _ {S K : Type 0} (room : S → Bytes) where
  -- What an action did, started with the client `c`.
  abbrev pub Keeps : S → Outcome (Unit {0}) × S × List (Call K) → Type 0
  Keeps c r = All (IsOwn (room c)) r.2 × (room r.1 ≡ room c)

  pub then-Keeps :
      (c : S) (r : Outcome (Unit {0}) × S × List (Call K)) (act : Action S K (Unit {0}))
      → Keeps c r
      → ((d : S) → Keeps d (act d))
      → Keeps c (continue (λ _. act) r)
  then-Keeps c (ok a, d, cs) act (own, same) h = (
    All-append (IsOwn (room c)) cs (act d).2 own
        (subst (λ q. All (IsOwn q) (act d).2) same (h d).0),
    (h d).1 ∙ same,
  )
  then-Keeps c (fault x, d, cs) act k h = k

-- An action for each event.
pub record KeepsRoom {S K E : Type 0} (room : S → Bytes) (handle : E → Action S K (Unit {0}))
    : Type 0 where
  pub keeps : (ev : E) (c : S) → Keeps room c (handle ev c)
