-- ===== src/Auth/Again.antt =====
-- packages/auth/src/auth/auth.ts and cache.ts: a login with cached tokens, and what a login and a
-- logout leave for the next one.
use baltica.Base.{
  ◌≡◌, refl, sym, ◌∙◌, ap, ◌⊎◌, inl, inr, Bool, true, false, Option, none, some, List, [], ◌∷◌,
  ◌++◌, append-nil, append_assoc,
}
use baltica.Base.Tests.{if◌then◌else◌, if_cases}
use baltica.Base.Lists.{All, All-append}
use baltica.Base.Texts.{Text}
use baltica.Auth.{
  CachedKeyPair, AuthOptions, Failure, Endpoint, Request, World, Result, returned, thrown, endless,
  Method, ◌>>=◌, and_then, Reply, fetch, json, check_ok,
}
use baltica.Auth.Services.{get_bedrock_chain, get_multiplayer_session_token}
use baltica.Auth.Replies.{Internet}
use baltica.Auth.Login.{session_for, use_cached}
use baltica.Auth.Cache.{Tokens}

-- A request that only starts a session with tokens that are there.
abbrev pub StartsSession : Request → Type 0
StartsSession r =
    (r.endpoint ≡ Endpoint.bedrock_authenticate)
    ⊎ (r.endpoint ≡ Endpoint.bedrock_multiplayer_session_start)

-- A result is there.
abbrev pub Ends {ℓ} : {A : Type ℓ} → Result A → Type 0
Ends endless = ⊥
Ends r = Unit {0}

-- Nothing is asked for but sessions, and it ends.
pub record AsksSessions {ℓ} {A : Type ℓ} (m : Method A) : Type 0 where
  pub asked : World → List Request
  pub are_sessions : (w : World) → All StartsSession (asked w)
  pub requests : (w : World) → (m w).1.requests ≡ w.requests ++ asked w
  pub ending : (w : World) → Ends (m w).0

module _ {ℓ} {A : Type ℓ} where
  abbrev later : Result A × World → ((a : A) → World → List Request) → List Request
  later (returned a, w) next = next a w
  later (thrown e, w) next = []
  later (endless, w) next = []

  later-sessions :
      (p : Result A × World) (next : (a : A) → World → List Request)
      → ((a : A) (w : World) → All StartsSession (next a w))
      → All StartsSession (later p next)
  later-sessions (returned a, w) next h = h a w
  later-sessions (thrown e, w) next h = tt
  later-sessions (endless, w) next h = tt

module _ {ℓ κ} {A : Type ℓ} {B : Type κ} where
  later-requests :
      (p : Result A × World) (f : A → Method B) (before asked : List Request)
      (next : (a : A) → World → List Request)
      → p.1.requests ≡ before ++ asked
      → ((a : A) (w : World) → (f a w).1.requests ≡ w.requests ++ next a w)
      → (and_then p f).1.requests ≡ before ++ (asked ++ later p next)
  later-requests (returned a, w) f before asked next e h =
      h a w ∙ (ap (λ r. r ++ next a w) e ∙ append_assoc before asked (next a w))
  later-requests (thrown x, w) f before asked next e h =
      e ∙ ap (λ r. before ++ r) (sym (append-nil asked))
  later-requests (endless, w) f before asked next e h =
      e ∙ ap (λ r. before ++ r) (sym (append-nil asked))

  and_then-Ends :
      (p : Result A × World) (f : A → Method B)
      → Ends p.0
      → ((a : A) (w : World) → Ends (f a w).0)
      → Ends (and_then p f).0
  and_then-Ends (returned a, w) f e h = h a w
  and_then-Ends (thrown x, w) f e h = tt
  and_then-Ends (endless, w) f e h = e

  bind-AsksSessions :
      {m : Method A} {f : A → Method B}
      → AsksSessions m
      → ((a : A) → AsksSessions (f a))
      → AsksSessions (m >>= f)
  unfolding ◌>>=◌
  bind-AsksSessions {m} {f} c d = record {
    asked = λ w. c.asked w ++ later (m w) (λ a. (d a).asked);
    are_sessions = λ w.
        All-append StartsSession (c.asked w) _ (c.are_sessions w)
          (later-sessions (m w) _ (λ a. (d a).are_sessions));
    requests =
        λ w. later-requests (m w) f w.requests (c.asked w) _ (c.requests w) (λ a. (d a).requests);
    ending = λ w. and_then-Ends (m w) f (c.ending w) (λ a. (d a).ending);
  }

module _ {ℓ} {A : Type ℓ} where
  still-AsksSessions :
      {r : World → Result A} → ((w : World) → Ends (r w)) → AsksSessions (λ w. (r w, w))
  still-AsksSessions h = record {
    ending = h;
    asked = λ w. [];
    are_sessions = λ w. tt;
    requests = λ w. sym (append-nil w.requests);
  }

module _ {A : Type 0} where
  fetch-AsksSessions :
      (answer : List Request → Reply A) (r : Request)
      → StartsSession r
      → AsksSessions (fetch answer r)
  unfolding fetch
  fetch-AsksSessions answer r h = record {
    asked = λ w. r ∷ [];
    are_sessions = λ w. (h, tt);
    requests = λ w. refl;
    ending = λ w. fetched (answer (w.requests ++ r ∷ []));
  }
    where
      fetched :
          (reply : Reply A)
          → Ends (if reply.arrives then returned reply else thrown Failure.unreachable)
      fetched reply = if_cases Ends reply.arrives tt tt

  json-AsksSessions : (r : Reply A) → AsksSessions (json r)
  unfolding json
  json-AsksSessions r = cases r.body
    where
      cases :
          (o : Option A)
          → AsksSessions (
              let m : Method A = elim o [
                | none ↦ (λ w. (thrown Failure.not_json, w))
                | some a ↦ (λ w. (returned a, w))
              ] in
              m)
      cases none = still-AsksSessions (λ w. tt)
      cases (some a) = still-AsksSessions (λ w. tt)

  check_ok-AsksSessions : (r : Reply A) (endpoint : Endpoint) → AsksSessions (check_ok r endpoint)
  unfolding check_ok
  check_ok-AsksSessions r endpoint = cases r.is_ok
    where
      cases :
          (b : Bool)
          → AsksSessions (
              let m : Method (Unit {0}) =
                if b
                then (λ w. (returned tt, w))
                else (λ w. (thrown (Failure.refused endpoint r.status), w)) in
              m)
      cases true = still-AsksSessions (λ w. tt)
      cases false = still-AsksSessions (λ w. tt)

module _ (net : Internet) where
  get_bedrock_chain-AsksSessions :
      (token hash key : Text) → AsksSessions (get_bedrock_chain net token hash key)
  unfolding get_bedrock_chain
  get_bedrock_chain-AsksSessions token hash key =
      bind-AsksSessions (fetch-AsksSessions _ _ (inl refl))
        (λ reply. bind-AsksSessions (check_ok-AsksSessions reply _) (λ u. json-AsksSessions reply))

  session_for-AsksSessions : (auth key : Text) → AsksSessions (session_for net auth key)
  unfolding session_for get_multiplayer_session_token
  session_for-AsksSessions auth [] = still-AsksSessions (λ w. tt)
  session_for-AsksSessions auth (c ∷ key) =
      bind-AsksSessions (fetch-AsksSessions _ _ (inr refl)) (λ reply.
        bind-AsksSessions (check_ok-AsksSessions reply _) (λ u.
          bind-AsksSessions (json-AsksSessions reply) (λ token.
            bind-AsksSessions (still-AsksSessions (λ w. tt))
              (λ now. still-AsksSessions (λ w. tt)))))

  pub use_cached-AsksSessions :
      (o : AuthOptions) (k : CachedKeyPair) (t : Tokens) → AsksSessions (use_cached net o k t)
  unfolding use_cached
  use_cached-AsksSessions o k (xbl, xsts, play_fab, mc) =
      bind-AsksSessions (get_bedrock_chain-AsksSessions _ _ _) (λ chain.
        bind-AsksSessions (session_for-AsksSessions _ _) (λ s. still-AsksSessions (λ w. tt)))
