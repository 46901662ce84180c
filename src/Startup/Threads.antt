-- ===== src/Startup/Threads.antt =====
-- main.cpp: how many threads the parts of `main` make.
use dmproxy.Base.{
  Bytes, ℕ, zero, suc, ◌+◌, ◌≡◌, ◌≢◌, refl, ◌∙◌, ap, List, [], ◌∷◌, ◌++◌, Bool, true, false, Option,
  none, some, arith, All, ◌⊎◌, inl, inr,
}
use dmproxy.Startup.{
  StartCall, new_thread, print_exception, Config, rounds, then_rest, and_then, caught, attempt,
  spawn, join_all, Exit, returned, run_threads, End, server_end, client_end,
}

abbrev pub threads : List StartCall → ℕ
threads [] = 0
threads (new_thread io ∷ cs) = suc (threads cs)
threads (_ ∷ cs) = threads cs

threads-cons :
    (c : StartCall) (cs : List StartCall) → threads (c ∷ cs) ≡ threads (c ∷ []) + threads cs
threads-cons (new_thread io) cs = omega arith
threads-cons _ cs = omega arith

threads-append : (cs ds : List StartCall) → threads (cs ++ ds) ≡ threads cs + threads ds
threads-append [] ds = omega arith
threads-append (c ∷ cs) ds =
    omega (arith, threads-append cs ds, threads-cons c cs, threads-cons c (cs ++ ds))

then_rest_lem :
    (c : StartCall) (o : Option Bytes) (r : List StartCall × Option Bytes)
    → (then_rest c o r).1 ≡ none
    → (o ≡ none) × (r.1 ≡ none) × ((then_rest c o r).0 ≡ c ∷ r.0)
then_rest_lem c none r h = (refl, h, refl)
then_rest_lem c (some e) r h = absurd cc

threads-then_rest :
    (c : StartCall) (o : Option Bytes) (r : List StartCall × Option Bytes)
    → threads (c ∷ []) ≡ 0
    → threads r.0 ≡ 0
    → threads (then_rest c o r).0 ≡ 0
threads-then_rest c none r h k = omega (arith, h, k, threads-cons c r.0)
threads-then_rest c (some e) r h k = h

module _ (throws : StartCall → Option Bytes) where
  abbrev pub Works : List StartCall → Type 0
  Works cs = All (λ c. throws c ≡ none) cs

  -- Everything has been called if nothing threw.
  pub attempt_lem :
      (cs : List StartCall) → (attempt throws cs).1 ≡ none → ((attempt throws cs).0 ≡ cs) × Works cs
  attempt_lem [] h = (refl, tt)
  attempt_lem (c ∷ cs) h =
      let (e, n, same) = then_rest_lem c (throws c) (attempt throws cs) h in
      let (rest, works) = attempt_lem cs n in (same ∙ ap (◌∷◌ c) rest, (e, works))

  pub threads-attempt : (cs : List StartCall) → threads cs ≡ 0 → threads (attempt throws cs).0 ≡ 0
  threads-attempt [] h = refl
  threads-attempt (c ∷ cs) h =
      threads-then_rest c (throws c) (attempt throws cs) (omega (arith, h, threads-cons c cs))
        (threads-attempt cs (omega (arith, h, threads-cons c cs)))

threads-spawn :
    (made : ℕ → Bool) (io : End) (k n : ℕ)
    → (spawn made io k n).1 ≡ true
    → threads (spawn made io k n).0 ≡ n
threads-spawn made io k zero h = refl
threads-spawn made io k (suc n) h = ground (arith, threads-spawn made io (suc k) n)

threads-join_all : (io : End) (n : ℕ) → threads (join_all io n) ≡ 0
threads-join_all io zero = refl
threads-join_all io (suc n) = threads-join_all io n

and_then_lem :
    (r : List StartCall × Bool) (q : List StartCall × Exit) (code : ℕ)
    → (and_then r q).1 ≡ returned code
    → (r.1 ≡ true) × (q.1 ≡ returned code) × (threads (and_then r q).0 ≡ threads r.0 + threads q.0)
and_then_lem (calls, true) q code h = (refl, h, threads-append calls q.0)
and_then_lem (calls, false) q code h = absurd cc

pub threads-run_threads :
    (made : ℕ → Bool) (c : Config) (code : ℕ)
    → (run_threads made c).1 ≡ returned code
    → (code ≡ 0)
      × (threads (run_threads made c).0 ≡ rounds c.server_threads + rounds c.client_threads)
unfolding run_threads
threads-run_threads made c code h =
    let s = rounds c.server_threads in
    let k = rounds c.client_threads in
    let joins : List StartCall = join_all server_end s ++ join_all client_end k in
    let (s_made, inner, first) =
      and_then_lem (spawn made server_end 0 s)
        (and_then (spawn made client_end s k) (joins, returned 0)) code h in
    let (c_made, last, second) =
      and_then_lem (spawn made client_end s k) (joins, returned 0) code inner in
    (
      ground (arith, last),
      omega (
        arith,
        first,
        second,
        threads-spawn made server_end 0 s s_made,
        threads-spawn made client_end s k c_made,
        threads-append (join_all server_end s) (join_all client_end k),
        threads-join_all server_end s,
        threads-join_all client_end k,
      ),
    )

pub threads-caught :
    (r : List StartCall × Option Bytes) (q : List StartCall × Exit)
    → threads r.0 ≡ 0
    → threads (caught r q).0 ≢ 0
    → (r.1 ≡ none) × ((caught r q).0 ≡ r.0 ++ q.0)
threads-caught (done, none) q no_thread h = (refl, refl)
threads-caught (done, some e) q no_thread h =
    absurd (h (omega (arith, no_thread, threads-append done (print_exception e ∷ []))))

pub caught_returns :
    (r : List StartCall × Option Bytes) (q : List StartCall × Exit) (code : ℕ)
    → threads r.0 ≡ 0
    → (caught r q).1 ≡ returned code
    → ((code ≡ 0) × (threads (caught r q).0 ≡ 0))
      ⊎ ((q.1 ≡ returned code) × (threads (caught r q).0 ≡ threads q.0))
caught_returns (done, none) q code no_thread h =
    inr (h, omega (arith, no_thread, threads-append done q.0))
caught_returns (done, some e) q code no_thread h =
    inl (ground (arith, h), omega (arith, no_thread, threads-append done (print_exception e ∷ [])))
