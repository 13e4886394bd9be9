-- ===== src/Auth/Outcomes.antt =====
-- How runs of packages/auth/src/auth/auth.ts end, and what they leave in the cache.
use baltica.Base.{ℕ, ◌+◌, ◌≡◌, refl, sym, ◌∙◌, ap, inl, inr, some, List, ◌++◌, arith}
use baltica.Base.Tests.{Bool-cases, Option-cases}
use baltica.Base.Lists.{All}
use baltica.Base.Texts.{with_default}
use baltica.Auth.{
  MicrosoftTokens, CachedKeyPair, TokenCache, AuthResult, AuthOptions, AuthEvent, Request, World,
  Result, returned, thrown, endless, Method, ◌>>=◌, ◌>>◌, catch_with, and_then, emit,
}
use baltica.Auth.Services.{get_bedrock_chain}
use baltica.Auth.Replies.{Internet}
use baltica.Auth.Login.{keypair_of, session_for, use_cached}
use baltica.Auth.Cache.{
  empty_cache, save, valid_tokens, tokens_in, Tokens, announce, cached_in, cache_of,
}
use baltica.Auth.Again.{StartsSession, Ends}

-- A property of the result and the world after it, where something is returned.
abbrev pub Ensures {ℓ} : {A : Type ℓ} → (A → World → Type 0) → Result A × World → Type 0
Ensures P (returned a, w) = P a w
Ensures P (thrown e, w) = Unit
Ensures P (endless, w) = Unit

module _ {ℓ κ} {A : Type ℓ} {B : Type κ} where
  pub Ensures-and_then :
      (P : B → World → Type 0) (p : Result A × World) (f : A → Method B)
      → ((a : A) (w : World) → Ensures P (f a w))
      → Ensures P (and_then p f)
  Ensures-and_then P (returned a, w) f h = h a w
  Ensures-and_then P (thrown e, w) f h = tt
  Ensures-and_then P (endless, w) f h = tt

abbrev pub tokens_of_result : AuthResult → Tokens
tokens_of_result r = (r.xbl, r.xsts, r.play_fab, r.mc_services)

-- The cache file has the tokens of a result.
abbrev pub Saved : AuthResult → World → Type 0
Saved r w = tokens_in (cached_in w) ≡ some (tokens_of_result r)

-- The tokens are those that were asked for.
abbrev pub HasTokens : Tokens → AuthResult → World → Type 0
HasTokens t r w = tokens_of_result r ≡ t

-- It ends, asks for nothing but sessions and leaves the cache file as it is; what it returns has the
-- tokens given.
abbrev pub UsesCache : Tokens → World → Result AuthResult × World → Type 0
UsesCache t w p =
    ((asked : List Request) × All StartsSession asked × (p.1.requests ≡ w.requests ++ asked))
    × (p.1.file ≡ w.file)
    × Ends p.0
    × Ensures (HasTokens t) p

module _ (net : Internet) where
  pub use_cached-tokens :
      (o : AuthOptions) (k : CachedKeyPair) (t : Tokens) (w : World)
      → Ensures (HasTokens t) (use_cached net o k t w)
  unfolding use_cached ◌>>=◌
  use_cached-tokens o k (xbl, xsts, play_fab, mc) w =
      Ensures-and_then (HasTokens (xbl, xsts, play_fab, mc)) (get_bedrock_chain net _ _ _ w) _
        (λ chain v.
          Ensures-and_then (HasTokens (xbl, xsts, play_fab, mc)) (session_for net _ _ v) _
            (λ s u. refl))

  -- A key pair is there at once, and costs nothing that counts.
  pub record Chosen (cached : TokenCache) (w : World) : Type 0 where
    pub k : CachedKeyPair
    pub after : World
    pub is_chosen : keypair_of net cached w ≡ (returned k, after)
    pub same_requests : after.requests ≡ w.requests
    pub same_file : after.file ≡ w.file
    pub same_now : after.now ≡ w.now

  pub choose : (cached : TokenCache) (w : World) → Chosen cached w
  unfolding keypair_of
  choose cached w = elim (Option-cases cached.keypair) [
    | inl e ↦ record {
      k = net.make_keypair w.keypairs;
      after = record w { keypairs = w.keypairs + 1 };
      is_chosen = rw (e, keypair_of);
      same_requests = refl;
      same_file = refl;
      same_now = refl;
    }
    | inr (k, e) ↦ record {
      k = k;
      after = w;
      is_chosen = rw (e, keypair_of);
      same_requests = refl;
      same_file = refl;
      same_now = refl;
    }
  ]

pub returned_injective : {r s : AuthResult} → returned r ≡ returned s → r ≡ s
returned_injective e = cc

-- Reporting changes neither the result nor what is sent and saved.
pub record SameOutcome (p q : Result AuthResult × World) : Type 0 where
  pub same_result : q.0 ≡ p.0
  pub same_requests : q.1.requests ≡ p.1.requests
  pub same_file : q.1.file ≡ p.1.file
  pub same_now : q.1.now ≡ p.1.now

pub reported-SameOutcome :
    (p : Result AuthResult × World)
    → SameOutcome p
        (catch_with (and_then p announce) (λ e. emit (AuthEvent.error e) >> (λ w. (thrown e, w))))
unfolding ◌>>=◌
reported-SameOutcome (returned r, w) = record {
  same_result = refl;
  same_requests = refl;
  same_file = refl;
  same_now = refl;
}
reported-SameOutcome (thrown e, w) = record {
  same_result = refl;
  same_requests = refl;
  same_file = refl;
  same_now = refl;
}
reported-SameOutcome (endless, w) = record {
  same_result = refl;
  same_requests = refl;
  same_file = refl;
  same_now = refl;
}

pub save-Saved :
    (ms : MicrosoftTokens) (r : AuthResult) (u : World)
    → Ensures Saved (and_then (save (cache_of (some ms) r) u) (λ x v. (returned r, v)))
unfolding save tokens_in
save-Saved ms r u = elim (Bool-cases u.writable) [
  | inl e ↦ rw (e, save, and_then) refl
  | inr e ↦ rw (e, save, and_then) tt
]

pub valid_tokens-tokens_in :
    (now : ℕ) (c : TokenCache) (t : Tokens) → valid_tokens now c ≡ some t → tokens_in c ≡ some t
unfolding valid_tokens
valid_tokens-tokens_in now c t e = ground arith

pub joined :
    (t : Tokens) (w : World) (p : Result AuthResult × World)
    → p.1.file ≡ w.file
    → Ensures (HasTokens t) p
    → tokens_in (cached_in w) ≡ some t
    → Ensures Saved p
joined t w (returned r, v) same h e =
    ap (λ f. tokens_in (with_default f empty_cache)) same ∙ (e ∙ ap some (sym h))
joined t w (thrown x, v) same h e = tt
joined t w (endless, v) same h e = tt

pub SameOutcome-Saved :
    (p q : Result AuthResult × World) → SameOutcome p q → Ensures Saved p → Ensures Saved q
SameOutcome-Saved (returned r, w) (returned s, v) e h =
    ap (λ f. tokens_in (with_default f empty_cache)) e.same_file
    ∙ (h ∙ ap (λ x. some (tokens_of_result x)) (sym (returned_injective e.same_result)))
SameOutcome-Saved (thrown x, w) (returned s, v) e h = absurd (ground (arith, e.same_result))
SameOutcome-Saved (endless, w) (returned s, v) e h = absurd (ground (arith, e.same_result))
SameOutcome-Saved p (thrown x, v) e h = tt
SameOutcome-Saved p (endless, v) e h = tt
