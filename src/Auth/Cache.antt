-- ===== src/Auth/Cache.antt =====
-- The cache of packages/auth/src/auth/cache.ts, and what `Auth` of packages/auth/src/auth/auth.ts takes
-- from it and puts into it; the text of an Xbox token, and the refusal of options.
use baltica.Base.{ℕ, ◌+◌, Bool, true, ◌&&◌, not, Option, none, some, [], ◌∷◌}
use baltica.Base.Tests.{◌==◌, ltb, if◌then◌else◌}
use baltica.Base.Texts.{Text, codes, is_empty, with_default, present}
use baltica.Auth.{
  MicrosoftTokens, XblToken, XstsToken, PlayFabToken, McServicesToken, TokenCache,
  MultiplayerSessionToken, AuthResult, AuthFlow, AuthOptions, Failure, missing_client_id,
  missing_credentials, missing_xbox_token, not_writable, AuthEvent, World, returned, thrown, Method,
  pure, throw, try_catch, ◌>>=◌, ◌>>◌, emit,
}
use baltica.Auth.Pages.{after_prefix, is_line_end, is_space, skip_spaces}

-- `{}`
abbrev pub empty_cache : TokenCache
empty_cache = record {
  microsoft = none;
  xbl = none;
  xsts = none;
  play_fab = none;
  mc_services = none;
  keypair = none;
}

-- `AuthCache.load`: a file that is missing or cannot be read is an empty cache.
abbrev pub cached_in : World → TokenCache
cached_in w = with_default w.file empty_cache

abbrev pub load : Method TokenCache
load w = (returned (cached_in w), w)

-- `AuthCache.save`
unfoldable pub save : TokenCache → Method (Unit {0})
save cache w =
    if w.writable then (returned tt, record w { file = some cache }) else (thrown not_writable, w)

-- `isTokenValid`, a minute ahead.
abbrev pub is_token_valid : ℕ → ℕ → Bool
is_token_valid now expires_at = not (expires_at == 0) && ltb (now + 60000) expires_at

-- The four tokens of a cache, if all are there.
abbrev pub Tokens : Type 0
Tokens = XblToken × XstsToken × PlayFabToken × McServicesToken

unfoldable pub tokens_in : TokenCache → Option Tokens
tokens_in cached = elim cached.xbl [
  | none ↦ none
  | some xbl ↦ elim cached.xsts [
    | none ↦ none
    | some xsts ↦ elim cached.play_fab [
      | none ↦ none
      | some play_fab ↦ elim cached.mc_services [
        | none ↦ none
        | some mc_services ↦ some (xbl, xsts, play_fab, mc_services)
      ]
    ]
  ]
]

abbrev pub all_valid : ℕ → Tokens → Bool
all_valid now (xbl, xsts, play_fab, mc_services) =
    is_token_valid now xbl.expires_at
    && is_token_valid now xsts.expires_at
    && is_token_valid now play_fab.expires_at
    && is_token_valid now mc_services.expires_at

-- The test of `tryUseCached`.
unfoldable pub valid_tokens : ℕ → TokenCache → Option Tokens
valid_tokens now cached = elim (tokens_in cached) [
  | none ↦ none
  | some tokens ↦ if all_valid now tokens then some tokens else none
]

abbrev pub no_session : MultiplayerSessionToken
no_session = record { signed_token = []; expires_at = 0 }

-- `/^XBL3\.0\s+x=([^;]+);(.+)$/`
unfoldable pub until_semicolon : Text → Option (Text × Text)
until_semicolon [] = none
until_semicolon (c ∷ text) =
    let rest = until_semicolon text in
    if c == 59
    then some ([], text)
    else (elim rest [ none ↦ none | some (hash, token) ↦ some (c ∷ hash, token) ])

unfoldable pub one_line : Text → Bool
one_line [] = true
one_line (c ∷ text) = not (is_line_end c) && one_line text

abbrev at_least_one_space : Text → Option Text
at_least_one_space [] = none
at_least_one_space (c ∷ text) = if is_space c then some (skip_spaces text) else none

abbrev both_present : Option (Text × Text) → Option (Text × Text)
both_present none = none
both_present (some (hash, token)) =
    if not (is_empty hash) && not (is_empty token) && one_line token
    then some (hash, token)
    else none

abbrev after_spaces : Option Text → Option (Text × Text)
after_spaces none = none
after_spaces (some text) = elim (after_prefix (codes "x=") text) [
  | none ↦ none
  | some rest ↦ both_present (until_semicolon rest)
]

unfoldable pub parse_xbox_token : Text → Option (Text × Text)
parse_xbox_token text = elim (after_prefix (codes "XBL3.0") text) [
  | none ↦ none
  | some rest ↦ after_spaces (at_least_one_space rest)
]

abbrev pub flow_of : AuthOptions → AuthFlow
flow_of o = with_default o.flow AuthFlow.device_code

-- What a login saves.
abbrev pub cache_of : Option MicrosoftTokens → AuthResult → TokenCache
cache_of microsoft result = record {
  microsoft = microsoft;
  xbl = some result.xbl;
  xsts = some result.xsts;
  play_fab = some result.play_fab;
  mc_services = some result.mc_services;
  keypair = some result.keypair;
}

-- `this.emit("login", result)`, then the result.
abbrev pub announce : AuthResult → Method AuthResult
announce result = emit (AuthEvent.login result) >> pure result

-- The catch block: the exception is reported and thrown again.
abbrev pub reported : Method AuthResult → Method AuthResult
reported body = try_catch (body >>= announce) (λ e. emit (AuthEvent.error e) >> throw e)

-- What `login` tests before its try block; none lets it go on.
unfoldable pub refusal : AuthOptions → Option Failure
refusal o = if is_empty o.client_id then some missing_client_id else elim (flow_of o) [
  | AuthFlow.device_code ↦ none
  | AuthFlow.password ↦ elim (present o.email) [
    | none ↦ some missing_credentials
    | some email ↦ elim (present o.password) [
      | none ↦ some missing_credentials
      | some password ↦ none
    ]
  ]
  | AuthFlow.xbox_token ↦ elim (present o.xbox_token) [
    | none ↦ some missing_xbox_token
    | some token ↦ none
  ]
]
