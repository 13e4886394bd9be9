-- ===== src/Examples/Logins.antt =====
-- Logins of packages/auth on small inputs: services that answer every request.
use baltica.Base.{◌*◌, ◌≤◌, ◌≡◌, ◌≢◌, refl, ◌⊎◌, true, false, none, some, [], ◌∷◌, ◌++◌, arith}
use baltica.Base.Lists.{length}
use baltica.Base.Texts.{codes}
use baltica.Address.{split}
use baltica.Auth.{
  AuthResult, AuthFlow, AuthOptions, Endpoint, Failure, AuthEvent, World, returned, thrown, Reply,
  try_catch, ◌>>=◌, fetch, check_ok, json,
}
use baltica.Auth.Services.{get_bedrock_chain, get_multiplayer_session_token, poll_device_code}
use baltica.Auth.Replies.{Internet, xbl_header}
use baltica.Auth.Pages.{Pages, Page, includes, after_prefix}
use baltica.Auth.Login.{
  obtain_result, keypair_of, use_cached, session_for, extract_profile_from_chains, profile_in,
  login,
}
use baltica.Auth.Cache.{cached_in, Tokens, valid_tokens, tokens_in, refusal, empty_cache}
use baltica.Auth.Demands.{Lacks, IsComplete}
use baltica.Auth.Reports.{Reports, login-Reports}
use baltica.Auth.Again.{Ends}
use baltica.Auth.Saved.{login_again}
use baltica.Auth.Outcomes.{UsesCache}
use baltica.Auth.Polling.{poll_device_code-Bounded}

abbrev answer : {A : Type 0} → A → Reply A
answer a = record { took = 20; arrives = true; is_ok = true; status = 200; body = some a }

abbrev services : Internet
services = record {
  xbl_user_auth = λ sent. answer (record { token = 1 ∷ []; uhs = 2 ∷ []; not_after = 900000 });
  xsts_authorize = λ sent. answer (record {
    token = 3 ∷ [];
    uhs = 4 ∷ [];
    gtg = some (5 ∷ []);
    xid = none;
    not_after = 900000;
  });
  x_err = λ sent. 0;
  play_fab = λ sent.
      answer (record { session_ticket = 6 ∷ []; entity_token = 7 ∷ []; token_expiration = 900000 });
  bedrock_authenticate = λ sent. answer (codes "a.b.c" ∷ []);
  session_start = λ sent. answer (8 ∷ []);
  multiplayer_start = λ sent. answer (9 ∷ []);
  device_code = λ sent. answer (record {
    device_code = 10 ∷ [];
    user_code = 11 ∷ [];
    verification_uri = none;
    expires_in = 60;
    interval = none;
  });
  live_token = λ sent.
      answer
        (record { access_token = 12 ∷ []; refresh_token = 13 ∷ []; expires_in = 3600; error = [] });
  make_keypair = λ n. record { private_key = n ∷ []; public_key = 14 ∷ [] };
  parse_payload =
      λ text. some (some (record { display_name = some text; xuid = none; identity = none }));
}

abbrev blank_page : Page
blank_page = record {
  took = 20;
  arrives = true;
  is_ok = true;
  status = 200;
  text = some [];
  cookies = [];
  location = none;
}

abbrev blank_pages : Pages
blank_pages = record {
  page = λ sent. blank_page;
  parameter = λ fragment name. none;
  decode_uri_component = λ text. some text;
  number = λ text. 0;
}

abbrev by_device : AuthOptions
by_device = record {
  client_id = 15 ∷ [];
  flow = none;
  client_public_key = none;
  email = none;
  password = none;
  xbox_token = none;
}

abbrev fresh_world : World
fresh_world = record {
  now = 1000;
  requests = [];
  file = none;
  writable = true;
  keypairs = 0;
  events = [];
}

login-Reports_example :
    ((e : Failure) × Lacks by_device e
      × (login services blank_pages by_device fresh_world ≡ (thrown e, fresh_world)))
    ⊎ (IsComplete by_device × Reports [] (login services blank_pages by_device fresh_world))
login-Reports_example = login-Reports services blank_pages by_device fresh_world

accepted : refusal by_device ≡ none
unfolding refusal
accepted = refl

other_flow : ◌≢◌ {A = AuthFlow} AuthFlow.device_code AuthFlow.xbox_token
other_flow = λ e. cc

abbrev saved_tokens : Tokens
saved_tokens = (
  record { token = 1 ∷ []; user_hash = 2 ∷ []; expires_at = 900000 },
  record { token = 3 ∷ []; user_hash = 4 ∷ []; gamertag = 5 ∷ []; xuid = []; expires_at = 900000 },
  record { session_ticket = 6 ∷ []; entity_token = 7 ∷ []; expires_at = 900000 },
  record { authorization_header = 8 ∷ []; expires_at = 900000 },
)

abbrev later_world : World
later_world = record fresh_world {
  file = some (record empty_cache {
    xbl = some saved_tokens.0;
    xsts = some saved_tokens.1;
    play_fab = some saved_tokens.2;
    mc_services = some saved_tokens.3;
  });
}

are_valid : valid_tokens later_world.now (cached_in later_world) ≡ some saved_tokens
unfolding valid_tokens tokens_in
are_valid = refl

abbrev returned_result : AuthResult
returned_result = record {
  profile = record { xuid = []; uuid = []; username = codes "b" };
  xbl = saved_tokens.0;
  xsts = saved_tokens.1;
  play_fab = saved_tokens.2;
  mc_services = saved_tokens.3;
  multiplayer_session = record { signed_token = 9 ∷ []; expires_at = 86401040 };
  bedrock_chain = codes "a.b.c" ∷ [];
  keypair = record { private_key = 0 ∷ []; public_key = 14 ∷ [] };
}

abbrev world_after : World
world_after = record later_world {
  now = 1040;
  requests =
      record {
        endpoint = Endpoint.bedrock_authenticate;
        authorization = some (codes "XBL3.0 x=" ++ 4 ∷ 59 ∷ 3 ∷ []);
        body = (14 ∷ []) ∷ [];
      }
      ∷ record {
        endpoint = Endpoint.bedrock_multiplayer_session_start;
        authorization = some (8 ∷ []);
        body = (14 ∷ []) ∷ [];
      }
      ∷ [];
  keypairs = 1;
  events = AuthEvent.login returned_result ∷ [];
}

has_returned :
    login services blank_pages by_device later_world ≡ (returned returned_result, world_after)
unfolding login refusal obtain_result try_catch ◌>>=◌ keypair_of valid_tokens tokens_in use_cached
    get_bedrock_chain fetch check_ok json session_for get_multiplayer_session_token
    extract_profile_from_chains xbl_header profile_in split
has_returned = refl

login_again_example :
    UsesCache saved_tokens
      (record world_after { now = 800000 })
      (login services blank_pages by_device (record world_after { now = 800000 }))
login_again_example =
    login_again services blank_pages by_device later_world world_after
      (record world_after { now = 800000 }) returned_result accepted other_flow has_returned refl
      refl

poll_device_code-Bounded_example :
    Ends (poll_device_code services [] [] 5 60 fresh_world).0
    × (length (poll_device_code services [] [] 5 60 fresh_world).1.requests * 5 ≤ 65)
poll_device_code-Bounded_example =
    poll_device_code-Bounded services [] [] 5 60 fresh_world (omega arith)

not_token : includes (codes "access_token") (47 ∷ []) ≡ false
unfolding includes after_prefix
not_token = refl
