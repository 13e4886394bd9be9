-- ===== src/Auth/Calmness.antt =====
-- What a method of packages/auth/src/auth leaves alone of the world: the cache, and the events that
-- tell how a login has ended; and the rules by which it does so if its parts do.
use baltica.Base.{
  ℕ, suc, ◌+◌, ◌≤◌, ◌≡◌, refl, ◌∙◌, Bool, true, false, Option, none, some, List, [], ◌∷◌, ◌++◌,
  arith,
}
use baltica.Base.Tests.{if◌then◌else◌}
use baltica.Auth.{
  Endpoint, Failure, AuthEvent, Request, World, Result, returned, thrown, endless, Method,
  try_catch, catch_with, and_then, ◌>>=◌, Reply, fetch, json, check_ok,
}
use baltica.Auth.Services.{judge_poll}
use baltica.Auth.Replies.{Internet, TokenReply}

-- The events that tell how a login has ended.
abbrev pub ends : List AuthEvent → ℕ
ends [] = 0
ends (AuthEvent.login r ∷ events) = suc (ends events)
ends (AuthEvent.error e ∷ events) = suc (ends events)
ends (e ∷ events) = ends events

pub ends-append :
    (before after : List AuthEvent) → ends (before ++ after) ≡ ends before + ends after
ends-append [] after = omega arith
ends-append (AuthEvent.login r ∷ before) after = omega (arith, ends-append before after)
ends-append (AuthEvent.error e ∷ before) after = omega (arith, ends-append before after)
ends-append (AuthEvent.device_code c ∷ before) after = omega (arith, ends-append before after)
ends-append (AuthEvent.logout ∷ before) after = omega (arith, ends-append before after)

-- The cache file is as it was, no end is reported, and the clock does not go back.
pub record Calm (w w' : World) : Type 0 where
  pub same_file : w'.file ≡ w.file
  pub no_end : ends w'.events ≡ ends w.events
  pub clock : w.now ≤ w'.now

pub Calm-refl : (w : World) → Calm w w
Calm-refl w = record { same_file = refl; no_end = refl; clock = omega arith }

pub Calm-trans : {u v w : World} → Calm u v → Calm v w → Calm u w
Calm-trans p q = record {
  same_file = q.same_file ∙ p.same_file;
  no_end = q.no_end ∙ p.no_end;
  clock = omega arith;
}

pub record IsCalm {ℓ} {A : Type ℓ} (m : Method A) : Type 0 where
  pub calm : (w : World) → Calm w (m w).1

module _ {ℓ κ} {A : Type ℓ} {B : Type κ} where
  pub and_then-Calm :
      (u : World) (p : Result A × World) (f : A → Method B)
      → Calm u p.1
      → ((a : A) → IsCalm (f a))
      → Calm u (and_then p f).1
  and_then-Calm u (returned a, w) f c d = Calm-trans c ((d a).calm w)
  and_then-Calm u (thrown e, w) f c d = c
  and_then-Calm u (endless, w) f c d = c

  pub bind-IsCalm :
      {m : Method A} {f : A → Method B} → IsCalm m → ((a : A) → IsCalm (f a)) → IsCalm (m >>= f)
  unfolding ◌>>=◌
  bind-IsCalm {m} {f} c d = record { calm = λ w. and_then-Calm w (m w) f (c.calm w) d }

module _ {ℓ} {A : Type ℓ} where
  catch_with-Calm :
      (u : World) (p : Result A × World) (handler : Failure → Method A)
      → Calm u p.1
      → ((e : Failure) → IsCalm (handler e))
      → Calm u (catch_with p handler).1
  catch_with-Calm u (returned a, w) handler c d = c
  catch_with-Calm u (thrown e, w) handler c d = Calm-trans c ((d e).calm w)
  catch_with-Calm u (endless, w) handler c d = c

  pub try_catch-IsCalm :
      {m : Method A} {handler : Failure → Method A}
      → IsCalm m
      → ((e : Failure) → IsCalm (handler e))
      → IsCalm (try_catch m handler)
  unfolding try_catch
  try_catch-IsCalm {m} {handler} c d = record {
    calm = λ w. catch_with-Calm w (m w) handler (c.calm w) d;
  }

  -- A result that does not change the world.
  pub still-IsCalm : {r : World → Result A} → IsCalm (λ w. (r w, w))
  still-IsCalm = record { calm = Calm-refl }

  pub option-IsCalm {κ} :
      {B : Type κ} (o : Option B) {n : Method A} {s : B → Method A}
      → IsCalm n
      → ((b : B) → IsCalm (s b))
      → IsCalm (elim o [ none ↦ n | some b ↦ s b ])
  option-IsCalm none c d = c
  option-IsCalm (some b) c d = d b

  pub list-IsCalm {κ} :
      {B : Type κ} (l : List B) {n : Method A} {s : B → List B → Method A}
      → IsCalm n
      → ((b : B) (bs : List B) → IsCalm (s b bs))
      → IsCalm (elim l [ [] ↦ n | b ∷ bs ↦ s b bs ])
  list-IsCalm [] c d = c
  list-IsCalm (b ∷ bs) c d = d b bs

  pub bool-IsCalm :
      (b : Bool) {m k : Method A} → IsCalm m → IsCalm k → IsCalm (elim b [ true ↦ m | false ↦ k ])
  bool-IsCalm true c d = c
  bool-IsCalm false c d = d

  pub if-IsCalm : (b : Bool) {m k : Method A} → IsCalm m → IsCalm k → IsCalm (if b then m else k)
  if-IsCalm true c d = c
  if-IsCalm false c d = d

module _ {A : Type 0} where
  pub fetch-IsCalm : (answer : List Request → Reply A) (r : Request) → IsCalm (fetch answer r)
  unfolding fetch
  fetch-IsCalm answer r = record {
    calm = λ w. record { same_file = refl; no_end = refl; clock = omega arith };
  }

  pub json-IsCalm : (r : Reply A) → IsCalm (json r)
  unfolding json
  json-IsCalm r = option-IsCalm r.body still-IsCalm (λ a. still-IsCalm)

  pub check_ok-IsCalm : (r : Reply A) (endpoint : Endpoint) → IsCalm (check_ok r endpoint)
  unfolding check_ok
  check_ok-IsCalm r endpoint = if-IsCalm r.is_ok still-IsCalm still-IsCalm

  -- A request whose answer must be a success, and what is made of its body.
  pub request-IsCalm {ℓ} :
      {B : Type ℓ} (answer : List Request → Reply A) (r : Request) (endpoint : Endpoint)
      {f : A → Method B}
      → ((a : A) → IsCalm (f a))
      → IsCalm (fetch answer r >>= λ reply. check_ok reply endpoint >>= λ _. json reply >>= f)
  request-IsCalm answer r endpoint c = bind-IsCalm (fetch-IsCalm answer r) (λ reply.
      bind-IsCalm (check_ok-IsCalm reply endpoint) (λ u. bind-IsCalm (json-IsCalm reply) c))

-- A judgement of an answer does not change the world.
pub judged :
    (net : Internet) (b : Bool) (reply : TokenReply) (i : ℕ) (w : World)
    → (judge_poll net b reply i w).1 ≡ w
unfolding judge_poll
judged net b reply i w = ground arith
