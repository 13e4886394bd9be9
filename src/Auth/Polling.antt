-- ===== src/Auth/Polling.antt =====
-- packages/auth/src/auth/microsoft.ts: the loop of `pollDeviceCode`.
use baltica.Base.{
  ℕ, zero, suc, ◌+◌, ◌-◌, ◌*◌, ◌≤◌, ◌<◌, ◌≡◌, ◌⊎◌, inl, inr, refl, ap, Bool, true, false, none, [],
  ◌∷◌, ◌++◌, arith,
}
use native.Mathlib.Nat.{le_trans, mul_assoc}
use baltica.Base.Tests.{ltb, ltb→lt, if◌then◌else◌, Bool-cases, Option-cases}
use baltica.Base.Lists.{length, length-append}
use baltica.Base.Texts.{Text}
use baltica.Auth.{
  MicrosoftTokens, World, Result, returned, thrown, endless, ◌>>=◌, and_then, fetch, json, Reply,
  Request, Endpoint, Failure,
}
use baltica.Auth.Services.{judge_poll, poll_round, poll_again, poll_loop, poll_device_code}
use baltica.Auth.Replies.{Internet, TokenReply}
use baltica.Auth.Again.{Ends}

-- What the rounds may be: more than `interval` later, one request more, and an interval that is no
-- shorter.
record Polled (interval : ℕ) (w : World) (p : Result (MicrosoftTokens ⊎ ℕ) × World) : Type 0 where
  pub later : w.now + interval * 1000 ≤ p.1.now
  pub one_request : length p.1.requests ≡ suc (length w.requests)
  pub slower : (i : ℕ) → p.0 ≡ returned (inr i) → interval ≤ i
  pub ends : Ends p.0

module _ (net : Internet) where
  record Judged (interval : ℕ) (w : World) (p : Result (MicrosoftTokens ⊎ ℕ) × World) : Type 0 where
    pub same_world : p.1 ≡ w
    pub slower : (i : ℕ) → p.0 ≡ returned (inr i) → interval ≤ i
    pub ends : Ends p.0

  judge_poll-Judged :
      (is_ok : Bool) (reply : TokenReply) (interval : ℕ) (w : World)
      → Judged interval w (judge_poll net is_ok reply interval w)
  unfolding judge_poll
  judge_poll-Judged is_ok reply interval w = record {
    same_world = ground arith;
    slower = λ i e. ground arith;
    ends = ground arith;
  }

  Judged-Polled :
      (interval : ℕ) (w v : World) (p : Result (MicrosoftTokens ⊎ ℕ) × World)
      → w.now + interval * 1000 ≤ v.now
      → length v.requests ≡ suc (length w.requests)
      → Judged interval v p
      → Polled interval w p
  Judged-Polled interval w v p late one j = record {
    later = rw j.same_world late;
    one_request = rw j.same_world one;
    slower = j.slower;
    ends = j.ends;
  }

  -- The rest of a round, once the answer is there.
  answered-Polled :
      (interval : ℕ) (w v : World) (reply : Reply TokenReply)
      → w.now + interval * 1000 ≤ v.now
      → length v.requests ≡ suc (length w.requests)
      → Polled interval w ((json reply >>= λ body. judge_poll net reply.is_ok body interval) v)
  unfolding json ◌>>=◌
  answered-Polled interval w v reply late one = elim (Option-cases reply.body) [
    | inl e ↦
        rw (e, json) (record { later = late; one_request = one; slower = λ i q. cc; ends = tt })
    | inr (body, e) ↦
        rw (e, json)
          (Judged-Polled interval w v _ late one (judge_poll-Judged reply.is_ok body interval v))
  ]

  poll_round-Polled :
      (id code : Text) (interval : ℕ) (w : World)
      → Polled interval w (poll_round net id code interval w)
  unfolding poll_round fetch ◌>>=◌
  poll_round-Polled id code interval w =
      sent (net.live_token (w.requests ++ request ∷ [])).arrives
        (net.live_token (w.requests ++ request ∷ []))
    where
      request : Request
      request = record {
        endpoint = Endpoint.live_token;
        authorization = none;
        body = id ∷ code ∷ [];
      }

      sent :
          (b : Bool) (reply : Reply TokenReply)
          → Polled interval w (
              and_then
                (
                  if b then returned reply else thrown Failure.unreachable,
                  record w {
                    requests = w.requests ++ request ∷ [];
                    now = w.now + interval * 1000 + reply.took;
                  },
                )
                (λ r. json r >>= λ body. judge_poll net r.is_ok body interval))
      sent false reply = record {
        later = omega arith;
        one_request = omega (arith, length-append w.requests (request ∷ []));
        slower = λ i q. cc;
        ends = tt;
      }
      sent true reply =
          answered-Polled interval w _ reply (omega arith)
            (omega (arith, length-append w.requests (request ∷ [])))

  -- What the loop still may ask: a request for each interval to the deadline, and one more.
  abbrev allowance : ℕ → ℕ → ℕ
  allowance k time = if ltb 0 time then time + k else 0

  abbrev Bounded : ℕ → ℕ → ℕ → World → Result MicrosoftTokens × World → Type 0
  Bounded k rounds deadline w p =
      (length p.1.requests * k ≤ length w.requests * k + allowance k (deadline - w.now))
      × (deadline - w.now < rounds → Ends p.0)

  -- A round takes an interval from the time left, for its request.
  round_allowed :
      (k n d d' : ℕ) → 0 < d → d' ≤ d - k → suc n * k + allowance k d' ≤ n * k + allowance k d
  round_allowed k n d d' pos h = grind arith

  finished-allowed :
      (k deadline : ℕ) (w v : World)
      → w.now < deadline
      → length v.requests ≡ suc (length w.requests)
      → length v.requests * k ≤ length w.requests * k + allowance k (deadline - w.now)
  finished-allowed k deadline w v early one = omega (
    arith,
    round_allowed k (length w.requests) (deadline - w.now) 0 (omega arith) (omega arith),
    ap (λ (n : ℕ). n * k) one,
  )

  continued-allowed :
      (k deadline interval : ℕ) (w v : World)
      → k ≤ interval * 1000
      → w.now < deadline
      → length v.requests ≡ suc (length w.requests)
      → w.now + interval * 1000 ≤ v.now
      → length v.requests * k + allowance k (deadline - v.now)
        ≤ length w.requests * k + allowance k (deadline - w.now)
  continued-allowed k deadline interval w v h early one later = omega (
    arith,
    round_allowed k (length w.requests) (deadline - w.now) (deadline - v.now) (omega arith)
        (omega arith),
    ap (λ (n : ℕ). n * k) one,
  )

  Polled-Bounded :
      (k rounds : ℕ) (id code : Text) (deadline interval : ℕ) (w : World)
      (p : Result (MicrosoftTokens ⊎ ℕ) × World)
      → 0 < k
      → k ≤ interval * 1000
      → w.now < deadline
      → Polled interval w p
      → ((i : ℕ) (v : World)
          → k ≤ i * 1000
          → Bounded k rounds deadline v (poll_loop net rounds id code deadline i v))
      → Bounded k
          (suc rounds)
          deadline
          w
          (and_then p (poll_again net (poll_loop net rounds id code deadline)))
  Polled-Bounded k rounds id code deadline interval w (returned (inl t), v) pos h early q rest =
      (finished-allowed k deadline w v early q.one_request, λ few. tt)
  Polled-Bounded k rounds id code deadline interval w (returned (inr i), v) pos h early q rest =
      let (bound, ending) = rest i v (omega (arith, q.slower i refl, q.later)) in
      (
        le_trans bound (continued-allowed k deadline interval w v h early q.one_request q.later),
        λ few. ending (omega (arith, q.later)),
      )
  Polled-Bounded k rounds id code deadline interval w (thrown x, v) pos h early q rest =
      (finished-allowed k deadline w v early q.one_request, λ few. tt)
  Polled-Bounded k rounds id code deadline interval w (endless, v) pos h early q rest =
      absurd q.ends

  loop-Bounded :
      (k rounds : ℕ) (id code : Text) (deadline interval : ℕ) (w : World)
      → 0 < k
      → k ≤ interval * 1000
      → Bounded k rounds deadline w (poll_loop net rounds id code deadline interval w)
  unfolding poll_loop
  loop-Bounded k zero id code deadline interval w pos h = (omega arith, λ few. absurd (omega arith))
  loop-Bounded k (suc rounds) id code deadline interval w pos h =
      elim (Bool-cases (ltb w.now deadline)) [
        | inr late ↦ rw (late, poll_loop) (omega arith, λ few. tt)
        | inl early ↦
            rw (early, poll_loop)
              (Polled-Bounded k rounds id code deadline interval w
                (poll_round net id code interval w) pos h (ltb→lt _ _ early)
                (poll_round-Polled id code interval w)
                (λ i v g. loop-Bounded k rounds id code deadline i v pos g))
      ]

  allowance-le : (k time : ℕ) → allowance k time ≤ time + k
  allowance-le k time = ground arith

  seconds :
      (a b i e : ℕ)
      → a * (i * 1000) ≤ b * (i * 1000) + (e * 1000 + i * 1000)
      → a * i ≤ b * i + e + i
  seconds a b i e h = omega (arith, mul_assoc a i 1000, mul_assoc b i 1000)

  -- With an interval that is not zero `pollDeviceCode` always ends, and sends at most a request for
  -- each interval of the code's lifetime, and one more.
  pub poll_device_code-Bounded :
      (id code : Text) (interval expires_in : ℕ) (w : World)
      → 0 < interval
      → Ends (poll_device_code net id code interval expires_in w).0
        × (length (poll_device_code net id code interval expires_in w).1.requests * interval
            ≤ length w.requests * interval + expires_in + interval)
  unfolding poll_device_code
  poll_device_code-Bounded id code interval expires_in w h =
      let (bound, ending) =
        loop-Bounded (interval * 1000) (expires_in * 1000 + 1) id code (w.now + expires_in * 1000)
          interval w (omega arith) (omega arith) in
      (
        ending (omega arith),
        seconds _ _ interval expires_in (
            le_trans bound
              (omega (arith, allowance-le (interval * 1000) (w.now + expires_in * 1000 - w.now)))),
      )
