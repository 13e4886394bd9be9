-- ===== src/Auth/Services.antt =====
-- packages/auth/src/auth: the requests of xbox.ts, playfab.ts, session.ts, and those of microsoft.ts
-- for a device code and for a refresh.
--
-- A body has the values that vary: its constants belong to the endpoint. A text that an answer
-- leaves out is empty, where the code takes both for false; a date of an answer is the number that
-- it is parsed to.
use baltica.Base.{
  ℕ, zero, suc, ◌+◌, ◌*◌, Bool, true, false, ◌&&◌, not, ◌⊎◌, inl, inr, Option, none, some, List, [],
  ◌∷◌,
}
use baltica.Base.Tests.{ltb, if◌then◌else◌}
use baltica.Base.Sets.{has}
use baltica.Base.Texts.{Text, codes, is_empty, with_default}
use baltica.Server.{same_text}
use baltica.Auth.{
  MicrosoftTokens, XblToken, XstsToken, PlayFabToken, McServicesToken, MultiplayerSessionToken,
  DeviceCodeResponse, Endpoint, Failure, poll_failed, timed_out, xbox_error, refused, returned,
  thrown, endless, Method, pure, ◌>>=◌, ◌>>◌, and_then, date_now, fetch, json, check_ok,
}
use baltica.Auth.Replies.{
  TokenReply, Internet, xbl_header, xbox_errors, bedrock_xsts_relying_party, day,
}

module _ (net : Internet) where
  -- `authenticateXbl`
  unfoldable pub authenticate_xbl : Text → Method XblToken
  authenticate_xbl ms_access_token = do
    response ← fetch net.xbl_user_auth (record {
      endpoint = Endpoint.xbl_user_auth;
      authorization = none;
      body = ms_access_token ∷ [];
    })
    check_ok response Endpoint.xbl_user_auth
    data' ← json response
    pure (record { token = data'.token; user_hash = data'.uhs; expires_at = data'.not_after })

  -- The exception of a refusal.
  unfoldable pub xsts_failure : ℕ → ℕ → Failure
  xsts_failure x_err status =
      if has x_err xbox_errors then xbox_error x_err else refused Endpoint.xsts_authorize status

  -- `authenticateXsts`
  unfoldable pub authenticate_xsts : Text → Option Text → Method XstsToken
  authenticate_xsts xbl_token relying_party = do
    response ← fetch net.xsts_authorize (record {
      endpoint = Endpoint.xsts_authorize;
      authorization = none;
      body = with_default relying_party bedrock_xsts_relying_party ∷ xbl_token ∷ [];
    })
    (λ w. (
      if response.is_ok
          then returned tt
          else thrown (xsts_failure (net.x_err w.requests) response.status),
      w,
    ))
    xui ← json response
    pure (record {
      token = xui.token;
      user_hash = xui.uhs;
      gamertag = with_default xui.gtg [];
      xuid = with_default xui.xid [];
      expires_at = xui.not_after;
    })

  -- `loginWithPlayFab`
  unfoldable pub login_with_play_fab : XstsToken → Method PlayFabToken
  login_with_play_fab xsts = do
    response ← fetch net.play_fab (record {
      endpoint = Endpoint.play_fab_login;
      authorization = none;
      body = xbl_header xsts.user_hash xsts.token ∷ [];
    })
    check_ok response Endpoint.play_fab_login
    data' ← json response
    pure (record {
      session_ticket = data'.session_ticket;
      entity_token = data'.entity_token;
      expires_at = data'.token_expiration;
    })

  -- `getBedrockChain`
  unfoldable pub get_bedrock_chain : Text → Text → Text → Method (List Text)
  get_bedrock_chain xsts_token user_hash client_public_key = do
    response ← fetch net.bedrock_authenticate (record {
      endpoint = Endpoint.bedrock_authenticate;
      authorization = some (xbl_header user_hash xsts_token);
      body = client_public_key ∷ [];
    })
    check_ok response Endpoint.bedrock_authenticate
    json response

  -- `getMinecraftServicesToken`
  unfoldable pub get_minecraft_services_token : Text → Method McServicesToken
  get_minecraft_services_token session_ticket = do
    response ← fetch net.session_start (record {
      endpoint = Endpoint.bedrock_services_session_start;
      authorization = none;
      body = session_ticket ∷ [];
    })
    check_ok response Endpoint.bedrock_services_session_start
    authorization_header ← json response
    now ← date_now
    pure (record { authorization_header = authorization_header; expires_at = now + day })

  -- `getMultiplayerSessionToken`
  unfoldable pub get_multiplayer_session_token : Text → Text → Method MultiplayerSessionToken
  get_multiplayer_session_token mc_services_auth client_public_key = do
    response ← fetch net.multiplayer_start (record {
      endpoint = Endpoint.bedrock_multiplayer_session_start;
      authorization = some mc_services_auth;
      body = client_public_key ∷ [];
    })
    check_ok response Endpoint.bedrock_multiplayer_session_start
    signed_token ← json response
    now ← date_now
    pure (record { signed_token = signed_token; expires_at = now + day })

  -- `requestDeviceCode`
  unfoldable pub request_device_code : Text → Method DeviceCodeResponse
  request_device_code client_id = do
    response ← fetch net.device_code (record {
      endpoint = Endpoint.live_device_code;
      authorization = none;
      body = client_id ∷ [];
    })
    check_ok response Endpoint.live_device_code
    data' ← json response
    pure (record {
      device_code = data'.device_code;
      user_code = data'.user_code;
      verification_uri =
          with_default data'.verification_uri (codes "https://www.microsoft.com/link");
      expires_in = data'.expires_in;
      interval = with_default data'.interval 5;
    })

  -- `refreshMicrosoftToken`
  unfoldable pub refresh_microsoft_token : Text → Text → Method MicrosoftTokens
  refresh_microsoft_token client_id refresh_token = do
    response ← fetch net.live_token (record {
      endpoint = Endpoint.live_token;
      authorization = none;
      body = client_id ∷ refresh_token ∷ [];
    })
    check_ok response Endpoint.live_token
    data' ← json response
    now ← date_now
    pure (record {
      access_token = data'.access_token;
      refresh_token = data'.refresh_token;
      expires_at = now + data'.expires_in * 1000;
    })

  -- What a round of `pollDeviceCode` makes of the answer: tokens, the next interval, or an
  -- exception.
  unfoldable pub judge_poll : Bool → TokenReply → ℕ → Method (MicrosoftTokens ⊎ ℕ)
  judge_poll is_ok data' interval w =
      if is_ok && not (is_empty data'.access_token)
      then (
        returned (
            inl (record {
              access_token = data'.access_token;
              refresh_token = data'.refresh_token;
              expires_at = w.now + data'.expires_in * 1000;
            })),
        w,
      )
      else if same_text data'.error (codes "authorization_pending")
      then (returned (inr interval), w)
      else if same_text data'.error (codes "slow_down")
      then (returned (inr (interval + 5)), w)
      else (thrown (poll_failed data'.error), w)

  -- `await sleep(ms)`
  abbrev pub sleep : ℕ → Method (Unit {0})
  sleep ms w = (returned tt, record w { now = w.now + ms })

  -- One round of the loop of `pollDeviceCode`.
  unfoldable pub poll_round : Text → Text → ℕ → Method (MicrosoftTokens ⊎ ℕ)
  poll_round client_id device_code interval = do
    sleep (interval * 1000)
    response ← fetch net.live_token (record {
      endpoint = Endpoint.live_token;
      authorization = none;
      body = client_id ∷ device_code ∷ [];
    })
    data' ← json response
    judge_poll response.is_ok data' interval

  abbrev pub poll_again :
      (ℕ → Method MicrosoftTokens) → MicrosoftTokens ⊎ ℕ → Method MicrosoftTokens
  poll_again again (inl tokens) = pure tokens
  poll_again again (inr interval) = again interval

  -- The loop, with the rounds that it may take.
  unfoldable pub poll_loop : ℕ → Text → Text → ℕ → ℕ → Method MicrosoftTokens
  poll_loop zero client_id device_code deadline interval w = (endless, w)
  poll_loop (suc rounds) client_id device_code deadline interval w = elim (ltb w.now deadline) [
    | true ↦
        and_then (poll_round client_id device_code interval w)
          (poll_again (poll_loop rounds client_id device_code deadline))
    | false ↦ (thrown timed_out, w)
  ]

  -- `pollDeviceCode`: the loop has a round for each millisecond, and one more.
  unfoldable pub poll_device_code : Text → Text → ℕ → ℕ → Method MicrosoftTokens
  poll_device_code client_id device_code interval expires_in w =
      poll_loop (expires_in * 1000 + 1) client_id device_code (w.now + expires_in * 1000) interval w
