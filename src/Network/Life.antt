-- ===== src/Network/Life.antt =====
-- network/dmp_cs.hpp and boost::asio: the life of a platform object, in which each asynchronous call
-- that has been made runs its handler once.
use dmproxy.Base.{ℕ, ◌+◌, ◌≤◌, ◌≡◌, List, [], ◌∷◌, ◌++◌, Bool, true, false, ◌||◌, arith}
use dmproxy.Network.{
  Call, close_callback, async_resolve, async_connect, async_write, async_read, async_read_until,
  async_read_some, async_wait, set_timer,
}
use dmproxy.Network.Action.{Action}

-- The handlers that a list of calls binds.
abbrev pub started : {K : Type 0} → List (Call K) → List K
started [] = []
started (async_resolve host port k ∷ cs) = k ∷ started cs
started (async_connect iter k ∷ cs) = k ∷ started cs
started (async_write packet k ∷ cs) = k ∷ started cs
started (async_read n k ∷ cs) = k ∷ started cs
started (async_read_until end k ∷ cs) = k ∷ started cs
started (async_read_some k ∷ cs) = k ∷ started cs
started (async_wait n k ∷ cs) = k ∷ started cs
started (set_timer n k ∷ cs) = k ∷ started cs
started (_ ∷ cs) = started cs

-- Whether one of them is the close callback.
abbrev pub gives_up : {K : Type 0} → List (Call K) → Bool
gives_up [] = false
gives_up (close_callback roomstr ∷ cs) = true
gives_up (_ ∷ cs) = gives_up cs

-- The object, the handlers of the calls that have not completed, and whether it has called its close
-- callback.
pub record Life (S K : Type 0) : Type 0 where
  pub client : S
  pub outstanding : List K
  pub gave_up : Bool

abbrev pub outcome : {S K A : Type 0} → Action S K A → S → List K → Bool → Life S K
outcome act s others up =
    let (r, t, calls) = act s in
    record { client = t; outstanding = others ++ started calls; gave_up = up || gives_up calls }

-- A client starts, is closed, and completes a call with a result.
pub record Lifetime (S K R : Type 0) : Type 0 where
  pub start : Action S K (Unit {0})
  pub close : Action S K (Unit {0})
  pub complete : K → R → Action S K (Unit {0})

-- What calls a client once it has been started.
pub data Event (K R : Type 0) : Type 0 where
  completed : K → R → Event K R
  close_called : Event K R

abbrev pub handle : {S K R : Type 0} → Lifetime S K R → Event K R → Action S K (Unit {0})
handle c (completed k r) = c.complete k r
handle c close_called = c.close

module _ {S K R : Type 0} (c : Lifetime S K R) where
  -- Any call may complete next, with any result; the server may close the object at any time.
  pub data Step (l : Life S K) : Life S K → Type 0 where
    completes :
        (before after : List K) (k : K) (r : R)
        → l.outstanding ≡ before ++ k ∷ after
        → Step l (outcome (c.complete k r) l.client (before ++ after) l.gave_up)
    closes : Step l (outcome c.close l.client l.outstanding l.gave_up)

  pub data Reach (s : S) : Life S K → Type 0 where
    starts : Reach s (outcome c.start s [] false)
    goes_on : {l n : Life S K} → Reach s l → Step l n → Reach s n

module _ {K : Type 0} (leads : K → ℕ) where
  -- How many of a list of handlers lead on, by the weight that is given to each.
  unfoldable pub leading : List K → ℕ
  leading [] = 0
  leading (k ∷ ks) = leads k + leading ks

  leading-append : (ks ls : List K) → leading (ks ++ ls) ≡ leading ks + leading ls
  unfolding leading
  leading-append [] ls = omega arith
  leading-append (k ∷ ks) ls = omega (arith, leading-append ks ls)

  -- One handler that leads on at most, and one until the object gives up.
  abbrev pub IsSingle : {S : Type 0} → Life S K → Type 0
  IsSingle l = (leading l.outstanding ≤ 1) × (l.gave_up ≡ false → leading l.outstanding ≡ 1)

  -- A handler starts as many calls that lead on as led to it, or fewer and gives up.
  pub record IsChain {S R : Type 0} (c : Lifetime S K R) : Type 0 where
    pub starts_one :
        (s : S) → (leading (started (c.start s).2) ≡ 1) × (gives_up (c.start s).2 ≡ false)
    pub closes_none : (s : S) → leading (started (c.close s).2) ≡ 0
    pub carries_on :
        (k : K) (r : R) (s : S)
        → (leading (started (c.complete k r s).2) ≤ leads k)
          × (gives_up (c.complete k r s).2 ≡ false
              → leading (started (c.complete k r s).2) ≡ leads k)

  module _ {S R : Type 0} (c : Lifetime S K R) (chain : IsChain c) where
    completed-IsSingle :
        (before after : List K) (k : K) (r : R) (l : Life S K)
        → l.outstanding ≡ before ++ k ∷ after
        → IsSingle l
        → IsSingle (outcome (c.complete k r) l.client (before ++ after) l.gave_up)
    unfolding leading
    completed-IsSingle before after k r l e v = ground (
      arith,
      chain.carries_on k r l.client,
      leading-append before after,
      leading-append before (k ∷ after),
      leading-append (before ++ after) (started (c.complete k r l.client).2),
    )

    closed-IsSingle :
        (l : Life S K) → IsSingle l → IsSingle (outcome c.close l.client l.outstanding l.gave_up)
    closed-IsSingle l v = ground (
      arith,
      chain.closes_none l.client,
      leading-append l.outstanding (started (c.close l.client).2),
    )

    started-IsSingle : (s : S) → IsSingle (outcome c.start s [] false)
    started-IsSingle s = ground (arith, chain.starts_one s)

    -- In a chain, every state that is reached has one call that leads on at most, and one until the
    -- object gives up.
    pub Reach-IsSingle : {s : S} {l : Life S K} → Reach c s l → IsSingle l
    Reach-IsSingle starts = started-IsSingle _
    Reach-IsSingle (goes_on r (completes before after k x e)) =
        completed-IsSingle before after k x _ e (Reach-IsSingle r)
    Reach-IsSingle (goes_on r closes) = closed-IsSingle _ (Reach-IsSingle r)
