-- ===== src/Auth.antt =====
-- packages/auth/src/auth: the tokens of types/auth-tokens.ts, the options, the endpoints of
-- constants.ts, and what a login works in: requests, the cache file, events, the clock.
--
-- The services that answer are not part of the repository: they are calls of `Internet`, whose
-- answer may depend on every request sent so far. An answer that is JSON has the fields that the
-- code asserts of it. A method is a function from the world to its result, a value, an exception
-- or a loop that does not end, and the new world.
pub mod Replies
pub mod Services
pub mod Pages
pub mod Password
pub mod Cache
pub mod Demands
pub mod Login
pub mod Calmness
pub mod Calm
pub mod Reports
pub mod Again
pub mod Outcomes
pub mod Saved
pub mod Polling
pub mod Redirects
pub mod XboxToken
use baltica.Base.{ℕ, ◌+◌, Bool, true, false, Option, none, some, List, [], ◌∷◌, ◌++◌}
use baltica.Base.Tests.{if◌then◌else◌}
use baltica.Base.Texts.{Text}

pub record MicrosoftTokens : Type 0 where
  pub access_token : Text
  pub refresh_token : Text
  pub expires_at : ℕ

pub record XblToken : Type 0 where
  pub token : Text
  pub user_hash : Text
  pub expires_at : ℕ

pub record XstsToken : Type 0 where
  pub token : Text
  pub user_hash : Text
  pub gamertag : Text
  pub xuid : Text
  pub expires_at : ℕ

pub record PlayFabToken : Type 0 where
  pub session_ticket : Text
  pub entity_token : Text
  pub expires_at : ℕ

pub record McServicesToken : Type 0 where
  pub authorization_header : Text
  pub expires_at : ℕ

pub record CachedKeyPair : Type 0 where
  pub private_key : Text
  pub public_key : Text

pub record TokenCache : Type 0 where
  pub microsoft : Option MicrosoftTokens
  pub xbl : Option XblToken
  pub xsts : Option XstsToken
  pub play_fab : Option PlayFabToken
  pub mc_services : Option McServicesToken
  pub keypair : Option CachedKeyPair

pub record DeviceCodeResponse : Type 0 where
  pub device_code : Text
  pub user_code : Text
  pub verification_uri : Text
  pub expires_in : ℕ
  pub interval : ℕ

pub record MultiplayerSessionToken : Type 0 where
  pub signed_token : Text
  pub expires_at : ℕ

pub record UserProfile : Type 0 where
  pub xuid : Text
  pub uuid : Text
  pub username : Text

pub record AuthResult : Type 0 where
  pub profile : UserProfile
  pub xbl : XblToken
  pub xsts : XstsToken
  pub play_fab : PlayFabToken
  pub mc_services : McServicesToken
  pub multiplayer_session : MultiplayerSessionToken
  pub bedrock_chain : List Text
  pub keypair : CachedKeyPair

pub data AuthFlow : Type 0 where
  device_code password xbox_token : AuthFlow

-- An option that is missing or undefined is none.
pub record AuthOptions : Type 0 where
  pub client_id : Text
  pub flow : Option AuthFlow
  pub client_public_key : Option Text
  pub email : Option Text
  pub password : Option Text
  pub xbox_token : Option Text

-- The endpoints that the code sends requests to.
pub data Endpoint : Type 0 where
  live_device_code live_token live_authorize live_post live_redirect : Endpoint
  xbl_user_auth xsts_authorize : Endpoint
  bedrock_authenticate play_fab_login : Endpoint
  bedrock_services_session_start bedrock_multiplayer_session_start : Endpoint

-- The messages of `inferPasswordAuthFailure`.
pub data PasswordFailure : Type 0 where
  identity_verification two_factor stay_signed_in consent : PasswordFailure
  invalid_credentials unrecognized : PasswordFailure

-- The exceptions, by the place that throws them, with what their message quotes.
pub data Failure : Type 0 where
  missing_client_id missing_credentials missing_xbox_token invalid_xbox_token : Failure
  -- `fetch` rejects, or `response.json()` does.
  unreachable not_json : Failure
  refused : Endpoint → ℕ → Failure
  xbox_error : ℕ → Failure
  poll_failed : Text → Failure
  timed_out : Failure
  not_writable : Failure
  page_not_understood : Failure
  password_failed : PasswordFailure → Failure
  no_access_token : Failure

-- A request: its endpoint, its Authorization header, and the values of its body.
pub record Request : Type 0 where
  pub endpoint : Endpoint
  pub authorization : Option Text
  pub body : List Text

pub data AuthEvent : Type 0 where
  device_code : DeviceCodeResponse → AuthEvent
  login : AuthResult → AuthEvent
  logout : AuthEvent
  error : Failure → AuthEvent

-- The clock, the requests sent, the cache file if it can be read, whether it can be written, the
-- number of key pairs made, and the events emitted.
pub record World : Type 0 where
  pub now : ℕ
  pub requests : List Request
  pub file : Option TokenCache
  pub writable : Bool
  pub keypairs : ℕ
  pub events : List AuthEvent

pub data Result {ℓ} (A : Type ℓ) : Type ℓ where
  returned : A → Result A
  thrown : Failure → Result A
  endless : Result A

abbrev pub Method {ℓ} : Type ℓ → Type ℓ
Method A = World → Result A × World

module _ {ℓ} {A : Type ℓ} where
  abbrev pub pure : A → Method A
  pure a w = (returned a, w)

  abbrev pub throw : Failure → Method A
  throw e w = (thrown e, w)

  -- `try { body } catch (e) { handler(e) }`
  abbrev pub catch_with : Result A × World → (Failure → Method A) → Result A × World
  catch_with (returned a, w) handler = (returned a, w)
  catch_with (thrown e, w) handler = handler e w
  catch_with (endless, w) handler = (endless, w)

  unfoldable pub try_catch : Method A → (Failure → Method A) → Method A
  try_catch body handler w = catch_with (body w) handler

module _ {ℓ κ} {A : Type ℓ} {B : Type κ} where
  abbrev pub and_then : Result A × World → (A → Method B) → Result B × World
  and_then (returned a, w) f = f a w
  and_then (thrown e, w) f = (thrown e, w)
  and_then (endless, w) f = (endless, w)

infixl 5 ◌>>=◌ ◌>>◌
unfoldable pub ◌>>=◌ {ℓ κ} : {A : Type ℓ} {B : Type κ} → Method A → (A → Method B) → Method B
◌>>=◌ m f w = and_then (m w) f

abbrev pub ◌>>◌ {ℓ} : {B : Type ℓ} → Method (Unit {0}) → Method B → Method B
m >> k = m >>= λ _. k

-- `this.emit(event)`; the listeners do nothing to the login.
abbrev pub emit : AuthEvent → Method (Unit {0})
emit e w = (returned tt, record w { events = w.events ++ e ∷ [] })

-- `Date.now()`
abbrev pub date_now : Method ℕ
date_now w = (returned w.now, w)

-- A service's answer after some time: none is a rejected promise, and a body is none if it is not
-- JSON.
pub record Reply (A : Type 0) : Type 0 where
  pub took : ℕ
  pub arrives : Bool
  pub is_ok : Bool
  pub status : ℕ
  pub body : Option A

-- `await fetch(request)`, where `answer` is the service behind the endpoint.
unfoldable pub fetch : {A : Type 0} → (List Request → Reply A) → Request → Method (Reply A)
fetch answer request w =
    let sent = w.requests ++ request ∷ [] in
    let reply = answer sent in
    (
      if reply.arrives then returned reply else thrown unreachable,
      record w { requests = sent; now = w.now + reply.took },
    )

-- `await response.json()`
unfoldable pub json : {A : Type 0} → Reply A → Method A
json r = elim r.body [ none ↦ throw not_json | some a ↦ pure a ]

-- `if (!response.ok) throw`
unfoldable pub check_ok : {A : Type 0} → Reply A → Endpoint → Method (Unit {0})
check_ok r endpoint = if r.is_ok then pure tt else throw (refused endpoint r.status)
