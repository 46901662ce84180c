-- ===== src/Server/Delivery/Audience.antt =====
-- platforms/platform_base.cpp and main.cpp: what the calls of an object send, and to whom.
use dmproxy.Base.{
  Bytes, codes, ℕ, ◌≡◌, refl, sym, ap, subst, List, [], ◌∷◌, ◌++◌, map, true, some, arith, All,
  All-append,
}
use dmproxy.Base.Dict.{lookup}
use dmproxy.Network.{
  Messages, ErrorCode, failed, Call, close_callback, ServerCall, send, close_connection,
  start_platform, close_platform, async_resolve, async_connect, async_write, async_read,
  async_read_until, async_read_some, async_wait, set_timer, socket_close, timer_cancel, ws_connect,
  ws_send, ws_close,
}
use dmproxy.Network
use dmproxy.Platforms.Listeners.{has}
use dmproxy.Platforms.Publish.{
  Encoders, publish, publish_json, publish_lem, sent, tried, kept, given_up, listeners-publish,
  has-erase_all,
}
use dmproxy.Server.{Server, own_room, on_platform_close}
use dmproxy.Server.Invariant.{IsValid}
use dmproxy.Server.View.{room_of, room_of_iff}
use dmproxy.Server.Delivery.{Sends, later, perform_call, perform_calls, on_object}

-- The frames of the texts that are published one after another.
abbrev pub delivered : Sends → List Bytes → List ℕ → List (ℕ × Bytes)
delivered ecs [] hs = []
delivered ecs (x ∷ xs) hs =
    map (λ h. (h, x)) (tried (ecs 0) hs) ++ delivered (later ecs) xs (kept (ecs 0) hs)

module _ ⦃e : Encoders⦄ {K : Type 0} where
  abbrev pub text_of : Call K → List Bytes
  text_of (Network.publish dm_msg) = dm_msg ∷ []
  text_of (Network.publish_json uid nickname text) =
      e.dump (
        (codes "uid", uid)
        ∷ (codes "nickname", e.base64_encode nickname)
        ∷ (codes "text", e.base64_encode text)
        ∷ [])
      ∷ []
  text_of _ = []

  abbrev pub texts : List (Call K) → List Bytes
  texts [] = []
  texts (c ∷ cs) = text_of c ++ texts cs

sent-append : (cs ds : List ServerCall) → sent (cs ++ ds) ≡ sent cs ++ sent ds
sent-append [] ds = refl
sent-append (send h x ∷ cs) ds = ap (◌∷◌ (h, x)) (sent-append cs ds)
sent-append (close_connection h x ∷ cs) ds = sent-append cs ds
sent-append (start_platform id ∷ cs) ds = sent-append cs ds
sent-append (close_platform id ∷ cs) ds = sent-append cs ds

module _ ⦃m : Messages⦄ ⦃e : Encoders⦄ (id : ℕ) where
  sent-on_object :
      (ec : ℕ → ErrorCode) (x : Bytes) (s : Server)
      → let (t, calls) = on_object ec id (publish ec x) s in
        (sent calls ≡ map (λ h. (h, x)) (tried ec (s.heap id).listeners))
        × ((t.heap id).listeners ≡ kept ec (s.heap id).listeners)
  unfolding on_object
  sent-on_object ec x s =
      ((publish_lem ec x (s.heap id)).0, ground (arith, listeners-publish ec x (s.heap id)))

  module _ {K : Type 0} where
    sent-publish :
        (ecs : Sends) (x : Bytes) (cs : List (Call K)) (s : Server)
        → let (t, calls) = on_object (ecs 0) id (publish (ecs 0) x) s in
          (sent (perform_calls (later ecs) id cs t).1
            ≡ delivered (later ecs) (texts cs) (t.heap id).listeners)
          → sent (calls ++ (perform_calls (later ecs) id cs t).1)
            ≡ delivered ecs (x ∷ texts cs) (s.heap id).listeners
    sent-publish ecs x cs s ih =
        let (t, calls) = on_object (ecs 0) id (publish (ecs 0) x) s in
        rw
          (
            sent-append calls (perform_calls (later ecs) id cs t).1,
            (sent-on_object (ecs 0) x s).0,
            ih,
            (sent-on_object (ecs 0) x s).1,
          )
          refl

    -- Whatever a platform object calls, in whatever state the server is, what is sent is each text
    -- that it publishes, in order, once to each listener up to the first that it cannot be sent to;
    -- this one and all behind it are sent none of the texts that follow. Each text has results of
    -- its own.
    pub sent-perform_calls :
        (ecs : Sends) (cs : List (Call K)) (s : Server)
        → sent (perform_calls ecs id cs s).1 ≡ delivered ecs (texts cs) (s.heap id).listeners
    unfolding perform_calls perform_call publish_json on_platform_close on_object
    sent-perform_calls ecs [] s = refl
    sent-perform_calls ecs (Network.publish x ∷ cs) s =
        sent-publish ecs x cs s
          (sent-perform_calls (later ecs) cs (on_object (ecs 0) id (publish (ecs 0) x) s).0)
    sent-perform_calls ecs (Network.publish_json u n x ∷ cs) s =
        sent-publish ecs _ cs s (
          sent-perform_calls (later ecs) cs (on_object (ecs 0) id (publish_json (ecs 0) u n x) s).0)
    sent-perform_calls ecs (close_callback r ∷ cs) s =
        sent-perform_calls ecs cs (on_platform_close r s)
    sent-perform_calls ecs (_ ∷ cs) s = sent-perform_calls ecs cs s

module _ (known : List ℕ) where
  has-tried :
      (ec : ℕ → ErrorCode) (hs : List ℕ) (j : ℕ) → has j (tried ec hs) ≡ true → has j hs ≡ true
  unfolding has
  has-tried ec [] j i = i
  has-tried ec (h ∷ hs) j i = ground (arith, has-tried ec hs j)

  has-kept :
      (ec : ℕ → ErrorCode) (hs : List ℕ) (j : ℕ) → has j (kept ec hs) ≡ true → has j hs ≡ true
  has-kept ec hs j i = ground (arith, has-erase_all j (given_up ec hs) hs)

  map_known :
      (x : Bytes) (hs : List ℕ)
      → ((j : ℕ) → has j hs ≡ true → has j known ≡ true)
      → All (λ (q : ℕ × Bytes). has q.0 known ≡ true) (map (λ h. (h, x)) hs)
  unfolding has
  map_known x [] all = tt
  map_known x (h ∷ hs) all = (all h (ground arith), map_known x hs (λ j i. all j (ground arith)))

  delivered_known :
      (ecs : Sends) (xs : List Bytes) (hs : List ℕ)
      → ((j : ℕ) → has j hs ≡ true → has j known ≡ true)
      → All (λ (q : ℕ × Bytes). has q.0 known ≡ true) (delivered ecs xs hs)
  delivered_known ecs [] hs all = tt
  delivered_known ecs (x ∷ xs) hs all =
      All-append (λ (q : ℕ × Bytes). has q.0 known ≡ true) (map (λ h. (h, x)) (tried (ecs 0) hs))
        (delivered (later ecs) xs (kept (ecs 0) hs))
        (map_known x (tried (ecs 0) hs) (λ j i. all j (has-tried (ecs 0) hs j i)))
        (delivered_known (later ecs) xs (kept (ecs 0) hs) (λ j i. all j (has-kept (ecs 0) hs j i)))

All-implies :
    {A : Type 0} (P Q : A → Type 0) (xs : List A) → ((a : A) → P a → Q a) → All P xs → All Q xs
All-implies P Q [] f h = tt
All-implies P Q (x ∷ xs) f (px, h) = (f x px, All-implies P Q xs f h)

-- The room that a frame's receiver has.
abbrev pub IsHeardIn : Server → Bytes → ℕ × Bytes → Type 0
IsHeardIn s q (h, x) = room_of s h ≡ some q

module _ ⦃m : Messages⦄ ⦃e : Encoders⦄ (ecs : Sends) (id : ℕ) {K : Type 0} where
  -- In a state whose served rooms are in order, an object that serves its room sends frames to
  -- those only who have this room.
  pub perform_calls-IsHeardIn :
      (cs : List (Call K)) (s : Server)
      → IsValid s
      → lookup (own_room id s) s.rp_map ≡ some id
      → All (IsHeardIn s (own_room id s)) (sent (perform_calls ecs id cs s).1)
  perform_calls-IsHeardIn cs s v at =
      let hs = (s.heap id).listeners in
      All-implies (λ (q : ℕ × Bytes). has q.0 hs ≡ true) (IsHeardIn s (own_room id s)) _
        (λ (h, x) i. (room_of_iff s h (own_room id s) v).1 (id, at, i))
        (subst (All (λ (q : ℕ × Bytes). has q.0 hs ≡ true)) (sym (sent-perform_calls id ecs cs s))
          (delivered_known hs ecs (texts cs) hs (λ j i. i)))
