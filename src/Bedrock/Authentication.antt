-- ===== src/Bedrock/Authentication.antt =====
-- packages/baltica/src/client/client.ts: `authenticate` without the services, and what is made of their
-- result. The profile is returned with the login data; none is an exception.
use baltica.Base.{ℕ, true, false, Option, none, some, []}
use baltica.Base.Texts.{Text, or_else, with_default, present}
use baltica.Frame.{◌>>=◌}
use baltica.Json.{end, assign}
use baltica.Auth.{AuthResult, AuthFlow, AuthOptions}
use baltica.Bedrock.LoginData.{
  next_uuid, create_default_payload, prepare, create_offline_token, create_client_chain,
  create_client_user_chain,
}
use baltica.Bedrock.LoginOptions.{Profile, ClientOptions, KeyPair, Chance, Making, LoginData}

module _ (making : Making) where
  -- `authenticateOffline`
  unfoldable pub authenticate_offline :
      ℕ → Chance → KeyPair → ClientOptions → Option (Profile × LoginData)
  authenticate_offline now chance keys o = do
    uuid ← next_uuid making o.username
    let profile : Profile = record { name = o.username; uuid = uuid; xuid = [] }
    prepared ← prepare making o chance keys profile
    let chained = record prepared {
      client_identity_chain = create_client_chain making now chance profile none true prepared;
    }
    token ← create_offline_token making now profile chained
    let named = record chained { login_token = token }
    user_chain ← create_client_user_chain making now named.private_key profile o named
    some (profile, record named { client_user_chain = user_chain })

  abbrev uuid_for : Text → Text → Option Text
  uuid_for [] gamertag = next_uuid making gamertag
  uuid_for uuid gamertag = some uuid

  -- `applyAuthResult`; an exception leaves the login data as they are.
  unfoldable pub apply_auth_result :
      ℕ → Chance → ClientOptions → AuthResult → LoginData → Option (Profile × LoginData)
  apply_auth_result now chance o result l = do
    uuid ← uuid_for result.profile.uuid (or_else result.profile.username o.username)
    let profile : Profile = record {
      name = result.profile.username;
      uuid = uuid;
      xuid = result.profile.xuid;
    }
    payload ← create_default_payload making o chance profile
    let filled = record l {
      payload = assign payload (with_default o.skin_data end);
      login_token = result.multiplayer_session.signed_token;
      access_token = result.bedrock_chain;
    }
    let chained = record filled {
      client_identity_chain = create_client_chain making now chance profile none false filled;
    }
    user_chain ← create_client_user_chain making now chained.private_key profile o chained
    some (profile, record chained { client_user_chain = user_chain })

-- The flow that `authenticateOnline` chooses.
abbrev flow_for : Option Text → Option Text → AuthFlow
flow_for (some credentials) _ = AuthFlow.password
flow_for none (some token) = AuthFlow.xbox_token
flow_for none none = AuthFlow.device_code

abbrev both : Option Text → Option Text → Option Text
both (some a) (some b) = some a
both _ _ = none

-- The options of `Auth` that `authenticateOnline` gives, beside the name and the folder of the cache.
unfoldable pub auth_options : Text → ClientOptions → LoginData → AuthOptions
auth_options client_id o l = record {
  client_id = client_id;
  flow = some (flow_for (both (present o.email) (present o.password)) (present o.xbox_token));
  client_public_key = some l.client_x509;
  email = o.email;
  password = o.password;
  xbox_token = o.xbox_token;
}
