-- ===== src/Server/Delivery/World.antt =====
-- main.cpp with a platform object: the server goes on while the calls of the object complete, and
-- what the object calls is carried out on the server.
use dmproxy.Base.{Bytes, ℕ, ◌<◌, ◌≡◌, sym, subst, ◌∙◌, List, ◌∷◌, ◌++◌, All, arith}
use dmproxy.Network.{Messages, Call}
use dmproxy.Network.Life.{Lifetime, Life, outcome}
use dmproxy.Platforms.Publish.{Encoders}
use dmproxy.Server.{Server, Trimming, own_room}
use dmproxy.Server.Runs
use dmproxy.Server.Runs.{here, next}
use dmproxy.Server.Naming.{Step-own_room, Reach-own_room}
use dmproxy.Server.Delivery.{Sends, perform_calls, IsOwn, perform_calls-Reach, Reach-trans}

-- A client that keeps its room, and whose close callbacks name it.
pub record IsTrue {S K R : Type 0} (room : S → Bytes) (c : Lifetime S K R) : Type 0 where
  pub own : (k : K) (r : R) (s : S) → All (IsOwn (room s)) (c.complete k r s).2
  pub same : (k : K) (r : R) (s : S) → room (c.complete k r s).1 ≡ room s
  pub closing : (s : S) → room (c.close s).1 ≡ room s

pub record World (S K : Type 0) : Type 0 where
  pub server : Server
  pub life : Life S K

module _ ⦃m : Messages⦄ ⦃b : Trimming⦄ ⦃e : Encoders⦄ {S K R : Type 0} (c : Lifetime S K R)
    (id : ℕ) where
  pub data Step (w : World S K) : World S K → Type 0 where
    serves : {t : Server} → Runs.Step w.server t → Step w (record w { server = t })
    acts :
        (ec : Sends) (before after : List K) (k : K) (r : R)
        → w.life.outstanding ≡ before ++ k ∷ after
        → Step w (record {
          server = (perform_calls ec id (c.complete k r w.life.client).2 w.server).0;
          life = outcome (c.complete k r) w.life.client (before ++ after) w.life.gave_up;
        })
    closes :
        Step w (record w { life = outcome c.close w.life.client w.life.outstanding w.life.gave_up })

  pub data Reach (w : World S K) : World S K → Type 0 where
    begins : Reach w w
    goes_on : {v u : World S K} → Reach w v → Step v u → Reach w u

module _ ⦃m : Messages⦄ ⦃b : Trimming⦄ ⦃e : Encoders⦄ {S K R : Type 0} (c : Lifetime S K R)
    (room : S → Bytes) (true_room : IsTrue room c) (id : ℕ) where
  abbrev Names : World S K → Type 0
  Names w = own_room id w.server ≡ room w.life.client

  Step-Reach :
      {w v : World S K}
      → Step c id w v
      → id < w.server.next
      → Names w
      → Runs.Reach w.server v.server × Names v
  Step-Reach {w} (serves st) lt own = (next here st, (Step-own_room id st lt).0 ∙ own)
  Step-Reach {w} (acts ec before after k r out) lt own =
      (run, (Reach-own_room id run lt).0 ∙ own ∙ sym (true_room.same k r w.life.client))
    where
      calls : List (Call K)
      calls = (c.complete k r w.life.client).2

      run : Runs.Reach w.server (perform_calls ec id calls w.server).0
      run =
          perform_calls-Reach id ec calls w.server
            (subst (λ q. All (IsOwn q) calls) (sym own) (true_room.own k r w.life.client))
  Step-Reach {w} closes lt own = (here, own ∙ sym (true_room.closing w.life.client))

  -- However the calls of the object complete between the steps of the server, the server has taken
  -- steps of its own, and the object is named as its client.
  pub Reach-server :
      {w v : World S K}
      → id < w.server.next
      → own_room id w.server ≡ room w.life.client
      → Reach c id w v
      → Runs.Reach w.server v.server × Names v
  Reach-server lt own begins = (here, own)
  Reach-server lt own (goes_on r st) =
      let (run, named) = Reach-server lt own r in
      let (more, still) = Step-Reach st (omega (arith, lt, (Reach-own_room id run lt).1)) named in
      (Reach-trans run more, still)
