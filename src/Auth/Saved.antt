-- ===== src/Auth/Saved.antt =====
-- packages/auth/src/auth/auth.ts and cache.ts: a login with cached tokens, and what a login and a
-- logout leave for the next one.
use baltica.Base.{
  ◌≡◌, ◌≢◌, refl, sym, subst, ◌∙◌, ap, ◌⊎◌, inl, inr, true, none, some, [], ◌∷◌, ◌++◌,
}
use baltica.Base.Tests.{Bool-cases, Option-cases}
use baltica.Base.Texts.{with_default}
use baltica.Auth.{
  CachedKeyPair, TokenCache, AuthResult, AuthFlow, AuthOptions, Failure, AuthEvent, World, Result,
  returned, thrown, endless, Method, ◌>>=◌, try_catch, and_then,
}
use baltica.Auth.Replies.{Internet}
use baltica.Auth.Pages.{Pages}
use baltica.Auth.Login.{
  use_cached, authenticate_chain, microsoft_tokens, login_anew, obtain_result, body_of, login,
  logout,
}
use baltica.Auth.Cache.{
  empty_cache, save, valid_tokens, tokens_in, Tokens, all_valid, reported, refusal, flow_of,
  cached_in,
}
use baltica.Auth.Reports.{login-accepted, use_cached-IsCalm}
use baltica.Auth.Again.{Ends, use_cached-AsksSessions}
use baltica.Auth.Outcomes.{
  Ensures, Ensures-and_then, tokens_of_result, Saved, HasTokens, UsesCache, use_cached-tokens,
  Chosen, choose, returned_injective, SameOutcome, reported-SameOutcome, save-Saved,
  valid_tokens-tokens_in, joined, SameOutcome-Saved,
}

module _ (net : Internet) (pages : Pages) (o : AuthOptions) where
  body_of-obtain_result :
      (flow : AuthFlow)
      → flow ≢ AuthFlow.xbox_token
      → body_of net pages o flow ≡ obtain_result net pages o flow
  body_of-obtain_result AuthFlow.xbox_token h = absurd (h refl)
  body_of-obtain_result AuthFlow.password h = refl
  body_of-obtain_result AuthFlow.device_code h = refl

  -- A login with a cache comes out as `obtain_result` does.
  login-SameOutcome :
      (w : World)
      → refusal o ≡ none
      → flow_of o ≢ AuthFlow.xbox_token
      → SameOutcome (obtain_result net pages o (flow_of o) w) (login net pages o w)
  unfolding ◌>>=◌ try_catch
  login-SameOutcome w accepted h =
      subst (SameOutcome (obtain_result net pages o (flow_of o) w))
        (sym (login-accepted net pages o w accepted))
        (subst
          (λ (m : Method AuthResult).
            SameOutcome (m w) (reported (body_of net pages o (flow_of o)) w))
          (body_of-obtain_result (flow_of o) h)
          (reported-SameOutcome (body_of net pages o (flow_of o) w)))

  obtain_with_tokens :
      (flow : AuthFlow) (w : World) (t : Tokens) (c : Chosen net (cached_in w) w)
      → valid_tokens w.now (cached_in w) ≡ some t
      → obtain_result net pages o flow w ≡ use_cached net o c.k t c.after
  unfolding obtain_result ◌>>=◌
  obtain_with_tokens flow w t c e =
      let at_once = ap (λ n. valid_tokens n (cached_in w)) c.same_now ∙ e in
      rw (c.is_chosen, at_once, and_then)

  obtain_anew :
      (flow : AuthFlow) (w : World) (c : Chosen net (cached_in w) w)
      → valid_tokens w.now (cached_in w) ≡ none
      → obtain_result net pages o flow w ≡ login_anew net pages o flow (cached_in w) c.k c.after
  unfolding obtain_result ◌>>=◌
  obtain_anew flow w c e =
      let at_once = ap (λ n. valid_tokens n (cached_in w)) c.same_now ∙ e in
      rw (c.is_chosen, at_once, and_then)

  -- With tokens in the cache that are valid, a login without an Xbox token always ends. It asks for
  -- nothing but sessions, leaves the cache file as it is, and what it returns has those tokens.
  pub login_with_valid_tokens :
      (w : World) (t : Tokens)
      → refusal o ≡ none
      → flow_of o ≢ AuthFlow.xbox_token
      → valid_tokens w.now (cached_in w) ≡ some t
      → UsesCache t w (login net pages o w)
  login_with_valid_tokens w t accepted h e =
      let c = choose net (cached_in w) w in
      let cached = use_cached-AsksSessions net o c.k t in
      let same = login-SameOutcome w accepted h in
      let body = obtain_with_tokens (flow_of o) w t c e in
      let request_eq : (login net pages o w).1.requests ≡ w.requests ++ cached.asked c.after =
        same.same_requests
        ∙ (ap (λ (p : Result AuthResult × World). p.1.requests) body
            ∙ (cached.requests c.after ∙ ap (λ r. r ++ cached.asked c.after) c.same_requests)) in
      let file_eq : (login net pages o w).1.file ≡ w.file =
        same.same_file
        ∙ (ap (λ (p : Result AuthResult × World). p.1.file) body
            ∙ (((use_cached-IsCalm net pages o c.k t).calm c.after).same_file ∙ c.same_file)) in
      let result_eq : (login net pages o w).0 ≡ (use_cached net o c.k t c.after).0 =
        same.same_result ∙ ap (λ (p : Result AuthResult × World). p.0) body in
      (
        (cached.asked c.after, cached.are_sessions c.after, request_eq),
        file_eq,
        subst Ends (sym result_eq) (cached.ending c.after),
        ensured t (login net pages o w) (use_cached net o c.k t c.after) result_eq
            (use_cached-tokens net o c.k t c.after),
      )
    where
      ensured :
          (t : Tokens) (p q : Result AuthResult × World)
          → p.0 ≡ q.0
          → Ensures (HasTokens t) q
          → Ensures (HasTokens t) p
      ensured t (returned r, w) (returned s, v) e h = ap tokens_of_result (returned_injective e) ∙ h
      ensured t (returned r, w) (thrown x, v) e h = cc
      ensured t (returned r, w) (endless, v) e h = cc
      ensured t (thrown x, w) q e h = tt
      ensured t (endless, w) q e h = tt

  login_anew-Saved :
      (flow : AuthFlow) (cached : TokenCache) (k : CachedKeyPair) (w : World)
      → Ensures Saved (login_anew net pages o flow cached k w)
  unfolding login_anew ◌>>=◌
  login_anew-Saved flow cached k w =
      Ensures-and_then Saved (microsoft_tokens net pages o flow cached.microsoft w) _ (λ ms v.
        Ensures-and_then Saved (authenticate_chain net o ms k v) _ (λ r u. save-Saved ms r u))

  -- A login without an Xbox token that returns leaves its tokens in the cache file, whether they come
  -- from there or from the services.
  login-Saved :
      (w : World)
      → refusal o ≡ none
      → flow_of o ≢ AuthFlow.xbox_token
      → Ensures Saved (login net pages o w)
  login-Saved w accepted h =
      let c = choose net (cached_in w) w in
      let same = login-SameOutcome w accepted h in
      SameOutcome-Saved (obtain_result net pages o (flow_of o) w) (login net pages o w) same
        (elim (Option-cases (valid_tokens w.now (cached_in w))) [
          | inl e ↦
              subst (Ensures Saved) (sym (obtain_anew (flow_of o) w c e)) (login_anew-Saved _ _ _ _)
          | inr (t, e) ↦
              subst (Ensures Saved) (sym (obtain_with_tokens (flow_of o) w t c e))
                (kept t w c (valid_tokens-tokens_in w.now (cached_in w) t e))
        ])
    where
      kept :
          (t : Tokens) (w : World) (c : Chosen net (cached_in w) w)
          → tokens_in (cached_in w) ≡ some t
          → Ensures Saved (use_cached net o c.k t c.after)
      kept t w c e =
          joined t w (use_cached net o c.k t c.after)
            (((use_cached-IsCalm net pages o c.k t).calm c.after).same_file ∙ c.same_file)
            (use_cached-tokens net o c.k t c.after) e

  -- A login without an Xbox token that has returned serves the next one: as long as its tokens are
  -- valid and the cache file is as it left it, a login ends, asks for nothing but sessions, and has
  -- the same tokens.
  pub login_again :
      (w w' v : World) (r : AuthResult)
      → refusal o ≡ none
      → flow_of o ≢ AuthFlow.xbox_token
      → login net pages o w ≡ (returned r, w')
      → v.file ≡ w'.file
      → all_valid v.now (tokens_of_result r) ≡ true
      → UsesCache (tokens_of_result r) v (login net pages o v)
  unfolding valid_tokens
  login_again w w' v r accepted h returns file ok =
      let saved : tokens_in (cached_in w') ≡ some (tokens_of_result r) =
        subst (Ensures Saved) returns (login-Saved w accepted h) in
      let there : tokens_in (cached_in v) ≡ some (tokens_of_result r) =
        ap (λ f. tokens_in (with_default f empty_cache)) file ∙ saved in
      login_with_valid_tokens v (tokens_of_result r) accepted h (rw (there, valid_tokens, ok) refl)

-- A logout leaves no tokens that a login could use, at any time; the refresh token and the key pair
-- stay, and it is reported, if the file can be written. Else the file stays and nothing is reported.
pub logout_lem :
    (w : World)
    → ((logout w).0 ≡ returned tt)
        × (valid_tokens (logout w).1.now (cached_in (logout w).1) ≡ none)
        × ((cached_in (logout w).1).microsoft ≡ (cached_in w).microsoft)
        × ((cached_in (logout w).1).keypair ≡ (cached_in w).keypair)
        × ((logout w).1.events ≡ w.events ++ AuthEvent.logout ∷ [])
      ⊎ ((logout w).0 ≡ thrown Failure.not_writable) × ((logout w).1 ≡ w)
unfolding logout save ◌>>=◌ valid_tokens tokens_in
logout_lem w = elim (Bool-cases w.writable) [
  | inl e ↦ inl (rw (e, save), rw (e, save), rw (e, save), rw (e, save), rw (e, save))
  | inr e ↦ inr (rw (e, save), rw (e, save))
]
