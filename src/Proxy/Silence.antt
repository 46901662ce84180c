-- ===== src/Proxy/Silence.antt =====
-- A handler of the server that finds its mutexes free: the objects that it starts and closes report
-- no error, and do nothing to the server.
use dmproxy.Base.{
  Bytes, ℕ, ◌<◌, ◌≡◌, refl, sym, ◌∙◌, ap, subst, List, [], ◌∷◌, false, ◌&&◌, none, some, inl, inr,
  arith, Option-cases, get_or,
}
use dmproxy.Network.{
  room_string, Messages, ErrorCode, failed, ServerCall, send, close_connection, start_platform,
  close_platform,
}
use dmproxy.Platforms.{Kind, huajiao, douyu, bilibili, yy}
use dmproxy.Platforms.Listeners.{has}
use dmproxy.Platforms.Publish.{Encoders}
use dmproxy.Server.{Server, Trimming, own_room}
use dmproxy.Server.Delivery.{Sends, perform_call, perform_calls}
use dmproxy.Server.Joining.{started}
use dmproxy.Server.Naming.{name_of, Reach-IsNamed}
use dmproxy.Locks.Handlers.{reports, reports_error}
use dmproxy.Proxy.{
  Object, huajiao_object, douyu_object, bilibili_object, yy_object, room, Choices, Proxy,
  start_object, close_object, made_object, run_call, run_calls,
}
use dmproxy.Proxy.Invariant.{IsGood, room-made_object, run_call-IsGood}

-- The class of an object.
abbrev pub class : Object → Kind
class (huajiao_object c) = huajiao
class (douyu_object c) = douyu
class (bilibili_object c) = bilibili
class (yy_object c) = yy

-- The first letters of the names tell the classes apart.
abbrev letter : Kind → ℕ
letter huajiao = b'h'
letter douyu = b'd'
letter bilibili = b'b'
letter yy = b'Y'

letter-room : (o : Object) → get_or (room o) 0 0 ≡ letter (class o)
letter-room (huajiao_object c) = refl
letter-room (douyu_object c) = refl
letter-room (bilibili_object c) = refl
letter-room (yy_object c) = refl

letter-name_of :
    (k : Kind) (roomid : Bytes) → get_or (room_string (name_of k) roomid) 0 0 ≡ letter k
letter-name_of huajiao roomid = refl
letter-name_of douyu roomid = refl
letter-name_of bilibili roomid = refl
letter-name_of yy roomid = refl

letter_injective : (k l : Kind) → letter k ≡ letter l → k ≡ l
letter_injective k l h = ground (arith, h)

module _ ⦃m : Messages⦄ ⦃e : Encoders⦄ (send_ec : Sends) (id : ℕ) where
  start_object-silent :
      (x : ErrorCode) (o : Object) (s : Server)
      → (reports (class o) && failed x) ≡ false
      → (start_object send_ec id x o s).1 ≡ s
  unfolding perform_calls perform_call dmproxy.Huajiao.Session.start dmproxy.Douyu.Client.start
      dmproxy.Bilibili.Http.start dmproxy.Yy.Client.start
  start_object-silent none (huajiao_object c) s h = refl
  start_object-silent (some x) (huajiao_object c) s h = cc
  start_object-silent x (douyu_object c) s h = refl
  start_object-silent x (bilibili_object c) s h = refl
  start_object-silent none (yy_object c) s h = refl
  start_object-silent (some x) (yy_object c) s h = cc

  close_object-silent :
      (x : ErrorCode) (o : Object) (s : Server)
      → (reports (class o) && failed x) ≡ false
      → (close_object send_ec id x o s).1 ≡ s
  unfolding perform_calls perform_call dmproxy.Huajiao.Session.close dmproxy.Douyu.Client.close
      dmproxy.Bilibili.Client.close dmproxy.Yy.Client.close dmproxy.Yy.Client.cancel_timer
  close_object-silent none (huajiao_object c) s h = refl
  close_object-silent (some x) (huajiao_object c) s h = cc
  close_object-silent x (douyu_object c) s h = refl
  close_object-silent x (bilibili_object c) s h = refl
  close_object-silent none (yy_object c) s h = ground arith
  close_object-silent (some x) (yy_object c) s h = cc

abbrev pub kinds : Server → ℕ → Kind
kinds s id = (s.heap id).kind

module _ ⦃m : Messages⦄ ⦃b : Trimming⦄ ⦃e : Encoders⦄ (ch : Choices) where
  -- An object that keeps the room of its platform object is of its class.
  class_lem :
      (id : ℕ) (ids : List ℕ) (o : Object) (w : Proxy)
      → IsGood ids w
      → id < w.server.next
      → own_room id w.server ≡ room o
      → class o ≡ kinds w.server id
  class_lem id ids o w g lt at = letter_injective (class o) (kinds w.server id) (
      sym (letter-room o)
      ∙ ap (λ s. get_or s 0 0) (sym at)
      ∙ ap (λ n. get_or (room_string n (w.server.heap id).roomid) 0 0) (Reach-IsNamed g.run id lt)
      ∙ letter-name_of (kinds w.server id) (w.server.heap id).roomid)

  run_call-silent :
      (c : ServerCall) (cs : List ServerCall) (w : Proxy)
      → IsGood (started (c ∷ cs)) w
      → reports_error ch.close_ec ch.start_ec (kinds w.server) (c ∷ cs) ≡ false
      → (run_call ch c w).server ≡ w.server
  unfolding run_call has
  run_call-silent (send hdl x) cs w g h = refl
  run_call-silent (close_connection hdl x) cs w g h = refl
  run_call-silent (start_platform id) cs w g h =
      let o = made_object ch id w in
      start_object-silent ch.send_ec id ch.start_ec o w.server (
        rw
          (class_lem id (started (start_platform id ∷ cs)) o w g (g.below id (ground arith))
            (room-made_object ch id (started cs) w g))
          (ground (arith, h)))
  run_call-silent (close_platform id) cs w g h = elim (Option-cases (w.objects id)) [
    | inl n ↦ rw (n, run_call) refl
    | inr (o, made) ↦
        rw (made, run_call)
          (close_object-silent ch.send_ec id ch.close_ec o w.server (
            rw (class_lem id (started cs) o w g (g.owned id o made).0 (g.owned id o made).1)
              (ground (arith, h))))
  ]

  reports_error-tail :
      (kind : ℕ → Kind) (c : ServerCall) (cs : List ServerCall)
      → reports_error ch.close_ec ch.start_ec kind (c ∷ cs) ≡ false
      → reports_error ch.close_ec ch.start_ec kind cs ≡ false
  reports_error-tail kind (send hdl x) cs h = h
  reports_error-tail kind (close_connection hdl x) cs h = h
  reports_error-tail kind (start_platform id) cs h = ground (arith, h)
  reports_error-tail kind (close_platform id) cs h = ground (arith, h)

  pub run_calls-silent :
      (cs : List ServerCall) (w : Proxy)
      → IsGood (started cs) w
      → reports_error ch.close_ec ch.start_ec (kinds w.server) cs ≡ false
      → (run_calls ch cs w).server ≡ w.server
  unfolding run_calls
  run_calls-silent [] w g h = refl
  run_calls-silent (c ∷ cs) w g h =
      let same = run_call-silent c cs w g h in
      run_calls-silent cs (run_call ch c w) (run_call-IsGood ch c cs w g) (
        subst (λ s. reports_error ch.close_ec ch.start_ec (kinds s) cs ≡ false) (sym same)
          (reports_error-tail (kinds w.server) c cs h))
      ∙ same
