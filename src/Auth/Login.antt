-- ===== src/Auth/Login.antt =====
-- packages/auth/src/auth/auth.ts: the login with its three flows, or with cached tokens, and the
-- logout. `Date.now()` does not change between two awaits.
use baltica.Base.{◌+◌, ◌||◌, Option, none, some, List, [], ◌∷◌}
use baltica.Base.Tests.{if◌then◌else◌}
use baltica.Base.Texts.{Text, is_empty, or_else, with_default, present}
use baltica.Address.{split}
use baltica.Auth.{
  MicrosoftTokens, XstsToken, CachedKeyPair, TokenCache, MultiplayerSessionToken, UserProfile,
  AuthResult, AuthFlow, AuthOptions, invalid_xbox_token, AuthEvent, returned, Method, pure, throw,
  try_catch, ◌>>=◌, ◌>>◌, emit, date_now,
}
use baltica.Auth.Services.{
  authenticate_xbl, authenticate_xsts, login_with_play_fab, get_bedrock_chain,
  get_minecraft_services_token, get_multiplayer_session_token, request_device_code,
  refresh_microsoft_token, poll_device_code,
}
use baltica.Auth.Replies.{ExtraData, Internet, play_fab_relying_party, day}
use baltica.Auth.Password.{authenticate_with_password}
use baltica.Auth.Pages.{Pages}
use baltica.Auth.Cache.{
  empty_cache, load, save, Tokens, valid_tokens, no_session, parse_xbox_token, flow_of, cache_of,
  reported, refusal,
}

module _ (net : Internet) where
  -- The second part of a token in Base64, as JSON; none is an exception.
  abbrev payload_of : Text → Option (Option ExtraData)
  payload_of token = elim (split 46 token) [
    | [] ↦ none
    | header ∷ parts ↦ elim parts [ [] ↦ none | payload ∷ more ↦ net.parse_payload payload ]
  ]

  abbrev no_profile : UserProfile
  no_profile = record { xuid = []; uuid = []; username = [] }

  -- What one chain says; none goes on to the next.
  unfoldable pub profile_in : Text → Option UserProfile
  profile_in chain = elim (payload_of chain) [
    | none ↦ none
    | some extra ↦ elim extra [
      | none ↦ none
      | some data' ↦ elim (present data'.display_name) [
        | none ↦ none
        | some name ↦ some (record {
          username = name;
          xuid = with_default data'.xuid [];
          uuid = with_default data'.identity [];
        })
      ]
    ]
  ]

  -- `extractProfileFromChains`
  unfoldable pub extract_profile_from_chains : List Text → UserProfile
  extract_profile_from_chains [] = no_profile
  extract_profile_from_chains (chain ∷ chains) =
      with_default (profile_in chain) (extract_profile_from_chains chains)

  -- `cached.keypair ?? generateKeyPair()`
  unfoldable pub keypair_of : TokenCache → Method CachedKeyPair
  keypair_of cached w = elim cached.keypair [
    | some keypair ↦ (returned keypair, w)
    | none ↦ (returned (net.make_keypair w.keypairs), record w { keypairs = w.keypairs + 1 })
  ]

  abbrev pub client_key : AuthOptions → CachedKeyPair → Text
  client_key o keypair = with_default o.client_public_key keypair.public_key

  -- `if (clientPublicKey) multiplayerSession = await getMultiplayerSessionToken(...)`
  unfoldable pub session_for : Text → Text → Method MultiplayerSessionToken
  session_for authorization [] = pure no_session
  session_for authorization (c ∷ key) = get_multiplayer_session_token net authorization (c ∷ key)

  -- `tryUseCached`, with the tokens that are valid.
  unfoldable pub use_cached : AuthOptions → CachedKeyPair → Tokens → Method AuthResult
  use_cached o keypair (xbl, xsts, play_fab, mc_services) = do
    chain ← get_bedrock_chain net xsts.token xsts.user_hash (client_key o keypair)
    session ← session_for mc_services.authorization_header (client_key o keypair)
    pure (record {
      profile = extract_profile_from_chains chain;
      xbl = xbl;
      xsts = xsts;
      play_fab = play_fab;
      mc_services = mc_services;
      multiplayer_session = session;
      bedrock_chain = chain;
      keypair = keypair;
    })

  -- The XSTS token with a gamertag and an id where they are missing.
  abbrev pub fill : Text → Text → XstsToken → XstsToken
  fill gamertag xuid xsts = record xsts {
    gamertag = or_else xsts.gamertag gamertag;
    xuid = or_else xsts.xuid xuid;
  }

  -- The payload of the token itself, read only if something is missing.
  unfoldable pub fill_from_payload : XstsToken → XstsToken
  fill_from_payload xsts =
      if is_empty xsts.gamertag || is_empty xsts.xuid
      then (elim (payload_of xsts.token) [
        | none ↦ xsts
        | some extra ↦ elim extra [
          | none ↦ xsts
          | some data' ↦ fill (with_default data'.display_name []) (with_default data'.xuid []) xsts
        ]
      ])
      else xsts

  -- `authenticateChain`
  unfoldable pub authenticate_chain :
      AuthOptions → MicrosoftTokens → CachedKeyPair → Method AuthResult
  authenticate_chain o ms_tokens keypair = do
    xbl ← authenticate_xbl net ms_tokens.access_token
    first_xsts ← authenticate_xsts net xbl.token none
    xsts_play_fab ← authenticate_xsts net xbl.token (some play_fab_relying_party)
    let filled = fill_from_payload (fill xsts_play_fab.gamertag xsts_play_fab.xuid first_xsts)
    play_fab ← login_with_play_fab net xsts_play_fab
    mc_services ← get_minecraft_services_token net play_fab.session_ticket
    chain ← get_bedrock_chain net filled.token filled.user_hash (client_key o keypair)
    let chain_profile = extract_profile_from_chains chain
    let xsts = fill chain_profile.username chain_profile.xuid filled
    session ← session_for mc_services.authorization_header (client_key o keypair)
    pure (record {
      profile = record {
        xuid = or_else xsts.xuid chain_profile.xuid;
        uuid = chain_profile.uuid;
        username = or_else xsts.gamertag chain_profile.username;
      };
      xbl = xbl;
      xsts = xsts;
      play_fab = play_fab;
      mc_services = mc_services;
      multiplayer_session = session;
      bedrock_chain = chain;
      keypair = keypair;
    })

  -- `doDeviceCodeFlow`
  unfoldable pub do_device_code_flow : AuthOptions → Method MicrosoftTokens
  do_device_code_flow o = do
    code ← request_device_code net o.client_id
    emit (AuthEvent.device_code code)
    poll_device_code net o.client_id code.device_code code.interval code.expires_in

  -- The try block of `loginWithXboxToken`.
  unfoldable pub xbox_token_result : AuthOptions → Text → Method AuthResult
  xbox_token_result o text = elim (parse_xbox_token text) [
    | none ↦ throw invalid_xbox_token
    | some (user_hash, token) ↦ do
      cached ← load
      keypair ← keypair_of cached
      now ← date_now
      chain ← get_bedrock_chain net token user_hash (client_key o keypair)
      let profile = extract_profile_from_chains chain
      let result : AuthResult = record {
        profile = profile;
        xbl = record { token = token; user_hash = user_hash; expires_at = now + day };
        xsts = record {
          token = token;
          user_hash = user_hash;
          gamertag = profile.username;
          xuid = profile.xuid;
          expires_at = now + day;
        };
        play_fab = record { session_ticket = []; entity_token = []; expires_at = 0 };
        mc_services = record { authorization_header = []; expires_at = 0 };
        multiplayer_session = no_session;
        bedrock_chain = chain;
        keypair = keypair;
      }
      save (cache_of none result)
      pure result
  ]

module _ (net : Internet) (pages : Pages) where
  -- `obtainMicrosoftTokens`
  unfoldable pub obtain_microsoft_tokens : AuthOptions → AuthFlow → Method MicrosoftTokens
  obtain_microsoft_tokens o AuthFlow.password =
      authenticate_with_password pages o.client_id (with_default o.email [])
        (with_default o.password [])
  obtain_microsoft_tokens o _ = do_device_code_flow net o

  -- A refresh token is tried first, and whatever goes wrong with it, the flow is taken.
  unfoldable pub microsoft_tokens :
      AuthOptions → AuthFlow → Option MicrosoftTokens → Method MicrosoftTokens
  microsoft_tokens o flow none = obtain_microsoft_tokens o flow
  microsoft_tokens o flow (some old) =
      if is_empty old.refresh_token
      then obtain_microsoft_tokens o flow
      else try_catch (refresh_microsoft_token net o.client_id old.refresh_token)
          (λ e. obtain_microsoft_tokens o flow)

  unfoldable pub login_anew :
      AuthOptions → AuthFlow → TokenCache → CachedKeyPair → Method AuthResult
  login_anew o flow cached keypair = do
    ms_tokens ← microsoft_tokens o flow cached.microsoft
    result ← authenticate_chain net o ms_tokens keypair
    save (cache_of (some ms_tokens) result)
    pure result

  -- The login with the cache: `tryUseCached`, else the whole chain.
  unfoldable pub obtain_result : AuthOptions → AuthFlow → Method AuthResult
  obtain_result o flow = do
    cached ← load
    keypair ← keypair_of net cached
    now ← date_now
    elim (valid_tokens now cached) [
      | some tokens ↦ use_cached net o keypair tokens
      | none ↦ login_anew o flow cached keypair
    ]

  abbrev pub body_of : AuthOptions → AuthFlow → Method AuthResult
  body_of o AuthFlow.xbox_token = xbox_token_result net o (with_default o.xbox_token [])
  body_of o flow = obtain_result o flow

  -- `login`
  unfoldable pub login : AuthOptions → Method AuthResult
  login o = elim (refusal o) [ some e ↦ throw e | none ↦ reported (body_of o (flow_of o)) ]

-- `logout`
unfoldable pub logout : Method (Unit {0})
logout = do
  cached ← load
  save (record empty_cache { microsoft = cached.microsoft; keypair = cached.keypair })
  emit AuthEvent.logout
