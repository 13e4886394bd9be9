-- ===== src/Auth/Reports.antt =====
-- packages/auth/src/auth/auth.ts: what `login` reports, on every path.
use baltica.Base.{
  ℕ, ◌+◌, ◌≡◌, refl, sym, subst, ◌∙◌, ◌⊎◌, inl, inr, Option, none, some, List, [], ◌∷◌, ◌++◌, arith,
}
use baltica.Base.Texts.{Text, is_empty}
use baltica.Auth.{
  MicrosoftTokens, CachedKeyPair, TokenCache, AuthResult, AuthFlow, AuthOptions, Failure, AuthEvent,
  World, Result, returned, thrown, endless, Method, ◌>>=◌, ◌>>◌, try_catch, catch_with, and_then,
  emit,
}
use baltica.Auth.Replies.{Internet}
use baltica.Auth.Pages.{Pages}
use baltica.Auth.Calm.{
  authenticate_xbl-IsCalm, authenticate_xsts-IsCalm, login_with_play_fab-IsCalm,
  get_bedrock_chain-IsCalm, get_minecraft_services_token-IsCalm,
  get_multiplayer_session_token-IsCalm, request_device_code-IsCalm, refresh_microsoft_token-IsCalm,
  poll_device_code-IsCalm, authenticate_with_password-IsCalm,
}
use baltica.Auth.Calmness.{
  ends, ends-append, Calm, Calm-refl, IsCalm, bind-IsCalm, still-IsCalm, if-IsCalm,
  try_catch-IsCalm,
}
use baltica.Auth.Login.{
  keypair_of, session_for, use_cached, authenticate_chain, do_device_code_flow,
  obtain_microsoft_tokens, microsoft_tokens, login_anew, obtain_result, xbox_token_result, body_of,
  login,
}
use baltica.Auth.Demands.{Lacks, IsComplete, refusal_lem}
use baltica.Auth.Cache.{
  save, valid_tokens, Tokens, parse_xbox_token, announce, reported, refusal, flow_of,
}

-- No end is reported.
pub record IsQuiet {ℓ} {A : Type ℓ} (m : Method A) : Type 0 where
  pub quiet : (w : World) → ends (m w).1.events ≡ ends w.events

IsCalm-IsQuiet {ℓ} : {A : Type ℓ} {m : Method A} → IsCalm m → IsQuiet m
IsCalm-IsQuiet c = record { quiet = λ w. (c.calm w).no_end }

module _ {ℓ κ} {A : Type ℓ} {B : Type κ} where
  and_then-quiet :
      (n : ℕ) (p : Result A × World) (f : A → Method B)
      → ends p.1.events ≡ n
      → ((a : A) → IsQuiet (f a))
      → ends (and_then p f).1.events ≡ n
  and_then-quiet n (returned a, w) f e d = (d a).quiet w ∙ e
  and_then-quiet n (thrown x, w) f e d = e
  and_then-quiet n (endless, w) f e d = e

  bind-IsQuiet :
      {m : Method A} {f : A → Method B} → IsQuiet m → ((a : A) → IsQuiet (f a)) → IsQuiet (m >>= f)
  unfolding ◌>>=◌
  bind-IsQuiet {m} {f} c d = record { quiet = λ w. and_then-quiet _ (m w) f (c.quiet w) d }

option-IsQuiet {ℓ κ} :
    {A : Type ℓ} {B : Type κ} (o : Option B) {n : Method A} {s : B → Method A}
    → IsQuiet n
    → ((b : B) → IsQuiet (s b))
    → IsQuiet (elim o [ none ↦ n | some b ↦ s b ])
option-IsQuiet none c d = c
option-IsQuiet (some b) c d = d b

save-IsQuiet : (c : TokenCache) → IsQuiet (save c)
unfolding save
save-IsQuiet c = record { quiet = λ w. ground arith }

pub keypair_of-IsCalm : (net : Internet) (cached : TokenCache) → IsCalm (keypair_of net cached)
unfolding keypair_of
keypair_of-IsCalm net cached = record { calm = λ w. kept cached.keypair w }
  where
    kept :
        (k : Option CachedKeyPair) (w : World)
        → Calm w (
            let p : Result CachedKeyPair × World = elim k [
              | some keypair ↦ (returned keypair, w)
              | none ↦
                  (returned (net.make_keypair w.keypairs), record w { keypairs = w.keypairs + 1 })
            ] in
            p.1)
    kept none w = record { same_file = refl; no_end = refl; clock = omega arith }
    kept (some k) w = Calm-refl w

module _ (net : Internet) (pages : Pages) where
  session_for-IsCalm : (auth key : Text) → IsCalm (session_for net auth key)
  unfolding session_for
  session_for-IsCalm auth [] = still-IsCalm
  session_for-IsCalm auth (c ∷ key) = get_multiplayer_session_token-IsCalm net auth (c ∷ key)

  pub use_cached-IsCalm :
      (o : AuthOptions) (k : CachedKeyPair) (t : Tokens) → IsCalm (use_cached net o k t)
  unfolding use_cached
  use_cached-IsCalm o k (xbl, xsts, play_fab, mc) =
      bind-IsCalm (get_bedrock_chain-IsCalm net _ _ _)
        (λ chain. bind-IsCalm (session_for-IsCalm _ _) (λ s. still-IsCalm))

  pub authenticate_chain-IsCalm :
      (o : AuthOptions) (ms : MicrosoftTokens) (k : CachedKeyPair)
      → IsCalm (authenticate_chain net o ms k)
  unfolding authenticate_chain
  authenticate_chain-IsCalm o ms k = bind-IsCalm (authenticate_xbl-IsCalm net _) (λ xbl.
      bind-IsCalm (authenticate_xsts-IsCalm net _ _) (λ xsts.
        bind-IsCalm (authenticate_xsts-IsCalm net _ _) (λ other.
          bind-IsCalm (login_with_play_fab-IsCalm net _) (λ play_fab.
            bind-IsCalm (get_minecraft_services_token-IsCalm net _) (λ mc.
              bind-IsCalm (get_bedrock_chain-IsCalm net _ _ _)
                (λ chain. bind-IsCalm (session_for-IsCalm _ _) (λ s. still-IsCalm)))))))

  do_device_code_flow-IsCalm : (o : AuthOptions) → IsCalm (do_device_code_flow net o)
  unfolding do_device_code_flow
  do_device_code_flow-IsCalm o = bind-IsCalm (request_device_code-IsCalm net _) (λ code.
      bind-IsCalm
        (record {
          calm = λ w. record {
            same_file = refl;
            no_end = omega (arith, ends-append w.events (AuthEvent.device_code code ∷ []));
            clock = omega arith;
          };
        })
        (λ u. poll_device_code-IsCalm net _ _ _ _))

  obtain_microsoft_tokens-IsCalm :
      (o : AuthOptions) (flow : AuthFlow) → IsCalm (obtain_microsoft_tokens net pages o flow)
  unfolding obtain_microsoft_tokens
  obtain_microsoft_tokens-IsCalm o AuthFlow.password = authenticate_with_password-IsCalm pages _ _ _
  obtain_microsoft_tokens-IsCalm o AuthFlow.device_code = do_device_code_flow-IsCalm o
  obtain_microsoft_tokens-IsCalm o AuthFlow.xbox_token = do_device_code_flow-IsCalm o

  pub microsoft_tokens-IsCalm :
      (o : AuthOptions) (flow : AuthFlow) (old : Option MicrosoftTokens)
      → IsCalm (microsoft_tokens net pages o flow old)
  unfolding microsoft_tokens
  microsoft_tokens-IsCalm o flow none = obtain_microsoft_tokens-IsCalm o flow
  microsoft_tokens-IsCalm o flow (some old) =
      if-IsCalm (is_empty old.refresh_token) (obtain_microsoft_tokens-IsCalm o flow) (
        try_catch-IsCalm (refresh_microsoft_token-IsCalm net _ _)
          (λ e. obtain_microsoft_tokens-IsCalm o flow))

  login_anew-IsQuiet :
      (o : AuthOptions) (flow : AuthFlow) (c : TokenCache) (k : CachedKeyPair)
      → IsQuiet (login_anew net pages o flow c k)
  unfolding login_anew
  login_anew-IsQuiet o flow c k =
      bind-IsQuiet (IsCalm-IsQuiet (microsoft_tokens-IsCalm o flow _)) (λ ms.
        bind-IsQuiet (IsCalm-IsQuiet (authenticate_chain-IsCalm o ms k))
          (λ r. bind-IsQuiet (save-IsQuiet _) (λ u. IsCalm-IsQuiet still-IsCalm)))

  obtain_result-IsQuiet :
      (o : AuthOptions) (flow : AuthFlow) → IsQuiet (obtain_result net pages o flow)
  unfolding obtain_result
  obtain_result-IsQuiet o flow = bind-IsQuiet (IsCalm-IsQuiet still-IsCalm) (λ cached.
      bind-IsQuiet (IsCalm-IsQuiet (keypair_of-IsCalm net cached)) (λ k.
        bind-IsQuiet (IsCalm-IsQuiet still-IsCalm)
          (λ now. chosen cached k (valid_tokens now cached))))
    where
      chosen :
          (cached : TokenCache) (k : CachedKeyPair) (t : Option Tokens)
          → IsQuiet (
              let m : Method AuthResult = elim t [
                | some tokens ↦ use_cached net o k tokens
                | none ↦ login_anew net pages o flow cached k
              ] in
              m)
      chosen cached k none = login_anew-IsQuiet o flow cached k
      chosen cached k (some t) = IsCalm-IsQuiet (use_cached-IsCalm o k t)

  xbox_token_result-IsQuiet :
      (o : AuthOptions) (text : Text) → IsQuiet (xbox_token_result net o text)
  unfolding xbox_token_result
  xbox_token_result-IsQuiet o text =
      option-IsQuiet (parse_xbox_token text) (IsCalm-IsQuiet still-IsCalm) (λ (hash, token).
        bind-IsQuiet (IsCalm-IsQuiet still-IsCalm) (λ cached.
          bind-IsQuiet (IsCalm-IsQuiet (keypair_of-IsCalm net cached)) (λ k.
            bind-IsQuiet (IsCalm-IsQuiet still-IsCalm) (λ now.
              bind-IsQuiet (IsCalm-IsQuiet (get_bedrock_chain-IsCalm net _ _ _))
                (λ chain. bind-IsQuiet (save-IsQuiet _) (λ u. IsCalm-IsQuiet still-IsCalm))))))

  body_of-IsQuiet : (o : AuthOptions) (flow : AuthFlow) → IsQuiet (body_of net pages o flow)
  body_of-IsQuiet o AuthFlow.xbox_token = xbox_token_result-IsQuiet o _
  body_of-IsQuiet o AuthFlow.password = obtain_result-IsQuiet o AuthFlow.password
  body_of-IsQuiet o AuthFlow.device_code = obtain_result-IsQuiet o AuthFlow.device_code

-- The end of a login is reported once and last, by the result or the exception that it has.
abbrev pub Reports : List AuthEvent → Result AuthResult × World → Type 0
Reports before (returned r, w) =
    (earlier : List AuthEvent) × (w.events ≡ earlier ++ AuthEvent.login r ∷ [])
    × (ends earlier ≡ ends before)
Reports before (thrown e, w) =
    (earlier : List AuthEvent) × (w.events ≡ earlier ++ AuthEvent.error e ∷ [])
    × (ends earlier ≡ ends before)
Reports before (endless, w) = ends w.events ≡ ends before

reported-Reports :
    (before : List AuthEvent) (p : Result AuthResult × World)
    → ends p.1.events ≡ ends before
    → Reports before
        (catch_with (and_then p announce) (λ e. emit (AuthEvent.error e) >> (λ w. (thrown e, w))))
unfolding ◌>>=◌
reported-Reports before (returned r, w) q = (w.events, refl, q)
reported-Reports before (thrown e, w) q = (w.events, refl, q)
reported-Reports before (endless, w) q = q

login-refused :
    (net : Internet) (pages : Pages) (o : AuthOptions) (w : World) (e : Failure)
    → refusal o ≡ some e
    → login net pages o w ≡ (thrown e, w)
unfolding login
login-refused net pages o w e q = rw (q, login)

pub login-accepted :
    (net : Internet) (pages : Pages) (o : AuthOptions) (w : World)
    → refusal o ≡ none
    → login net pages o w ≡ reported (body_of net pages o (flow_of o)) w
unfolding login
login-accepted net pages o w q = rw (q, login)

-- Options that lack what their flow needs, the client id, the email and the password or the Xbox
-- token, are refused with the exception for it, with no event and no request; with options that are
-- complete a login ends with one event, a login with the result that it returns or an error with the
-- exception that it throws.
pub login-Reports :
    (net : Internet) (pages : Pages) (o : AuthOptions) (w : World)
    → ((e : Failure) × Lacks o e × (login net pages o w ≡ (thrown e, w)))
      ⊎ (IsComplete o × Reports w.events (login net pages o w))
unfolding try_catch ◌>>=◌
login-Reports net pages o w = elim (refusal_lem o) [
  | inl (e, lacks, refused) ↦ inl (e, lacks, login-refused net pages o w e refused)
  | inr (complete, accepted) ↦ inr (
    complete,
    subst (Reports w.events) (sym (login-accepted net pages o w accepted)) (
        reported-Reports w.events (body_of net pages o (flow_of o) w)
          ((body_of-IsQuiet net pages o (flow_of o)).quiet w)),
  )
]
