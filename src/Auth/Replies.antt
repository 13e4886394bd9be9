-- ===== src/Auth/Replies.antt =====
-- What the services that packages/auth/src/auth asks answer, and the constants of
-- packages/auth/src/auth/constants.ts.
use baltica.Base.{ℕ, Option, List, [], ◌∷◌, ◌++◌}
use baltica.Base.Texts.{Text, codes}
use baltica.Auth.{Request, Reply, CachedKeyPair}

pub record XblReply : Type 0 where
  pub token : Text
  pub uhs : Text
  pub not_after : ℕ

pub record XstsReply : Type 0 where
  pub token : Text
  pub uhs : Text
  pub gtg : Option Text
  pub xid : Option Text
  pub not_after : ℕ

pub record PlayFabReply : Type 0 where
  pub session_ticket : Text
  pub entity_token : Text
  pub token_expiration : ℕ

pub record DeviceCodeReply : Type 0 where
  pub device_code : Text
  pub user_code : Text
  pub verification_uri : Option Text
  pub expires_in : ℕ
  pub interval : Option ℕ

pub record TokenReply : Type 0 where
  pub access_token : Text
  pub refresh_token : Text
  pub expires_in : ℕ
  pub error : Text

-- `extraData` of the payload of a JSON web token.
pub record ExtraData : Type 0 where
  pub display_name : Option Text
  pub xuid : Option Text
  pub identity : Option Text

-- The services, and what node makes of random bytes and of texts: a key pair by its number, and the
-- payload of a token from its part in Base64, none if it is no JSON.
pub record Internet : Type 0 where
  pub xbl_user_auth : List Request → Reply XblReply
  pub xsts_authorize : List Request → Reply XstsReply
  -- `XErr` of a refusal, 0 if there is none.
  pub x_err : List Request → ℕ
  pub play_fab : List Request → Reply PlayFabReply
  pub bedrock_authenticate : List Request → Reply (List Text)
  pub session_start : List Request → Reply Text
  pub multiplayer_start : List Request → Reply Text
  pub device_code : List Request → Reply DeviceCodeReply
  pub live_token : List Request → Reply TokenReply
  pub make_keypair : ℕ → CachedKeyPair
  pub parse_payload : Text → Option (Option ExtraData)

-- `XBL3.0 x=${userHash};${token}`
unfoldable pub xbl_header : Text → Text → Text
xbl_header user_hash token = codes "XBL3.0 x=" ++ user_hash ++ 59 ∷ token

-- The keys of `XboxErrors`.
abbrev pub xbox_errors : List ℕ
xbox_errors =
    2148916227 ∷ 2148916229 ∷ 2148916230 ∷ 2148916233 ∷ 2148916234 ∷ 2148916235 ∷ 2148916236
    ∷ 2148916237 ∷ 2148916238 ∷ 2148916239 ∷ 2148916240 ∷ 2148916258 ∷ []

-- `Endpoint.BedrockXSTSRelyingParty` and `Endpoint.PlayFabRelyingParty`
abbrev pub bedrock_xsts_relying_party : Text
bedrock_xsts_relying_party = codes "https://multiplayer.minecraft.net/"

abbrev pub play_fab_relying_party : Text
play_fab_relying_party = codes "https://b980a380.minecraft.playfabapi.com/"

abbrev pub day : ℕ
day = 86400000
