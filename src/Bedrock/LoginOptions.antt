-- ===== src/Bedrock/LoginOptions.antt =====
-- The options and values that packages/baltica/src/client/types/login/login-data.ts starts from, and
-- how it prints them. A text whose case is changed is one of hexadecimal digits.
use baltica.Base.{
  ℕ, zero, suc, ◌+◌, ◌-◌, ◌/◌, ◌%◌, Bool, ◌&&◌, Option, none, some, List, [], ◌∷◌, ◌++◌,
}
use baltica.Base.Tests.{◌==◌, ltb, leb, if◌then◌else◌}
use baltica.Base.Lists.{take, drop}
use baltica.Base.Texts.{Text, codes}
use baltica.Json.{Json, Fields}

pub record Profile : Type 0 where
  pub name : Text
  pub uuid : Text
  pub xuid : Text

pub record LoginOptions : Type 0 where
  pub current_input_mode : ℕ
  pub default_input_mode : ℕ
  pub device_model : Text
  pub device_os : Option ℕ
  pub memory_tier : ℕ
  pub platform_type : ℕ
  pub ui_profile : ℕ
  pub graphics_mode : ℕ

pub record ClientOptions : Type 0 where
  pub username : Text
  pub offline : Bool
  pub view_distance : ℕ
  pub login_options : LoginOptions
  pub skin_data : Option Fields
  pub address : Text
  pub port : ℕ
  pub tokens_folder : Text
  pub email : Option Text
  pub password : Option Text
  pub xbox_token : Option Text

-- A new pair of keys: the public one in Base64.
pub record KeyPair : Type 0 where
  pub private_key : Text
  pub client_x509 : Text

-- What `Math.random()` gives: below 9 * 10 ^ 15 twice, and below 100000.
pub record Chance : Type 0 where
  pub random_id : ℕ
  pub online_id : ℕ
  pub nonce : ℕ

pub record Making : Type 0 where
  -- The hash of `UUID_NAMESPACE` and a text, in hexadecimal digits.
  pub md5_hex : Text → Text
  -- A token of ES384 with `x5u` in its header: the private key, `x5u` and the payload.
  pub sign : Text → Text → Fields → Text
  pub default_skin_data : Fields
  -- `DeviceOS.Win10`
  pub win10 : ℕ

pub record SessionTokenData : Type 0 where
  pub ipt : Text
  pub tid : Text
  pub mid : Text
  pub xid : Text
  pub cpk : Text

pub record LoginData : Type 0 where
  pub private_key : Text
  pub client_x509 : Text
  pub client_identity_chain : Text
  pub client_user_chain : Text
  pub session_token_data : Option SessionTokenData
  pub access_token : List Text
  pub login_token : Text
  pub payload : Fields

-- `text.slice(first, last)`
abbrev pub slice : ℕ → ℕ → Text → Text
slice first last text = take (last - first) (drop first text)

-- `text.replace(/-/g, "")`
unfoldable pub without_dashes : Text → Text
without_dashes [] = []
without_dashes (c ∷ text) = if c == 45 then without_dashes text else c ∷ without_dashes text

abbrev pub upper : ℕ → ℕ
upper c = if leb 97 c && leb c 122 then c - 32 else c

abbrev pub lower : ℕ → ℕ
lower c = if leb 65 c && leb c 90 then c + 32 else c

-- A number with at most as many digits.
unfoldable pub print : ℕ → ℕ → Text
print zero n = []
print (suc digits) n =
    let front = print digits (n / 10) in
    if ltb n 10 then (48 + n) ∷ [] else front ++ (48 + n % 10) ∷ []

-- `generateRandomId`, which is below zero.
abbrev pub generate_random_id : ℕ → Json
generate_random_id random = Json.negative (random + 1000000000000000)

-- `generateOnlineId`
abbrev pub generate_online_id : ℕ → Text
generate_online_id random = print 16 (random + 1000000000000000)

-- `PUBLIC_KEY`
abbrev pub mojang_public_key : Text
mojang_public_key =
    codes
      "MHYwEAYHKoZIzj0CAQYFK4EEACIDYgAECRXueJeTDqNRRgJi/vlRufByu/2G0i2Ebt6YMar5QX/R0DIIyrJMcUpruK4QveTfJSTp3Shlq4Gk34cD/4GUWwkv0DVuzeuB+tXija7HBxii03NHDbPAD0AKnLr2wdAp"

-- `(parseInt(digit, 16) & 0x3) | 0x8`
abbrev pub variant : Option ℕ → ℕ
variant none = 8
variant (some n) = n % 4 + 8
