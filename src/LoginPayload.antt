-- ===== src/LoginPayload.antt =====
-- packages/baltica/src/server/login-payload.ts: the payload of a token, and the fields of it that the
-- server does not know.
--
-- A payload is an object. The decoding of Base64 with `JSON.parse` is a call of `Decoding`, none if it
-- throws.
pub mod Unknown
use baltica.Base.{Bool, true, false, not, Option, none, some, List, [], ◌∷◌, ◌++◌, map}
use baltica.Base.Tests.{if◌then◌else◌}
use baltica.Base.Lists.{length}
use baltica.Base.Texts.{Text, codes, is_empty}
use baltica.Address.{split}
use baltica.Json.{Json, Fields, Items, end, field, get, keys, items, has_text, sort}

-- `KNOWN_IDENTITY_KEYS`
abbrev pub known_identity_keys : List Text
known_identity_keys =
    codes "certificateAuthority"
    ∷ codes "cpk"
    ∷ codes "exp"
    ∷ codes "extraData"
    ∷ codes "iat"
    ∷ codes "identityPublicKey"
    ∷ codes "iss"
    ∷ codes "mid"
    ∷ codes "nbf"
    ∷ codes "pfcd"
    ∷ codes "randomNonce"
    ∷ codes "tid"
    ∷ codes "xid"
    ∷ codes "xname"
    ∷ []

-- `KNOWN_IDENTITY_EXTRA_DATA_KEYS`
abbrev pub known_identity_extra_data_keys : List Text
known_identity_extra_data_keys =
    codes "XUID" ∷ codes "displayName" ∷ codes "identity" ∷ codes "sandboxId" ∷ codes "titleId" ∷ []

-- `KNOWN_CLIENT_DATA_KEYS`
abbrev pub known_client_data_keys : List Text
known_client_data_keys =
    codes "AnimatedImageData"
    ∷ codes "ArmSize"
    ∷ codes "CapeData"
    ∷ codes "CapeId"
    ∷ codes "CapeImageHeight"
    ∷ codes "CapeImageWidth"
    ∷ codes "CapeOnClassicSkin"
    ∷ codes "ClientRandomId"
    ∷ codes "CompatibleWithClientSideChunkGen"
    ∷ codes "CurrentInputMode"
    ∷ codes "DefaultInputMode"
    ∷ codes "DeviceId"
    ∷ codes "DeviceModel"
    ∷ codes "DeviceOS"
    ∷ codes "GameVersion"
    ∷ codes "GraphicsMode"
    ∷ codes "GuiScale"
    ∷ codes "IsEditorMode"
    ∷ codes "LanguageCode"
    ∷ codes "MaxViewDistance"
    ∷ codes "MemoryTier"
    ∷ codes "OverrideSkin"
    ∷ codes "PartyId"
    ∷ codes "PersonaPieces"
    ∷ codes "PersonaSkin"
    ∷ codes "PieceTintColors"
    ∷ codes "PlatformOfflineId"
    ∷ codes "PlatformOnlineId"
    ∷ codes "PlatformType"
    ∷ codes "PlayFabId"
    ∷ codes "PlayformType"
    ∷ codes "PremiumSkin"
    ∷ codes "SelfSignedId"
    ∷ codes "ServerAddress"
    ∷ codes "SkinAnimationData"
    ∷ codes "SkinColor"
    ∷ codes "SkinData"
    ∷ codes "SkinGeometryData"
    ∷ codes "SkinGeometryDataEngineVersion"
    ∷ codes "SkinId"
    ∷ codes "SkinImageHeight"
    ∷ codes "SkinImageWidth"
    ∷ codes "SkinResourcePatch"
    ∷ codes "ThirdPartyName"
    ∷ codes "ThirdPartyNameOnly"
    ∷ codes "TrustedSkin"
    ∷ codes "UIProfile"
    ∷ codes "pfcd"
    ∷ []

-- `KNOWN_TOKEN_KEYS`
abbrev pub known_token_keys : List Text
known_token_keys =
    codes "aud"
    ∷ codes "cpk"
    ∷ codes "exp"
    ∷ codes "iat"
    ∷ codes "ipt"
    ∷ codes "iss"
    ∷ codes "leguuid"
    ∷ codes "mid"
    ∷ codes "nbf"
    ∷ codes "nid"
    ∷ codes "nname"
    ∷ codes "pfcd"
    ∷ codes "pid"
    ∷ codes "pname"
    ∷ codes "sub"
    ∷ codes "tid"
    ∷ codes "xid"
    ∷ codes "xname"
    ∷ []

pub record Decoding : Type 0 where
  pub base64url_json : Text → Option Fields
  pub base64_json : Text → Option Fields

-- `decodeJwtPayload`
unfoldable pub decode_jwt_payload : Decoding → Text → Option Fields
decode_jwt_payload d jwt = elim (split 46 jwt) [
  | [] ↦ none
  | header ∷ parts ↦ elim parts [
    | [] ↦ none
    | payload ∷ more ↦ if is_empty payload then none else (elim (d.base64url_json payload) [
      | none ↦ d.base64_json payload
      | some fields ↦ some fields
    ])
  ]
]

unfoldable pub without : List Text → List Text → List Text
without known [] = []
without known (key ∷ rest) =
    if has_text key known then without known rest else key ∷ without known rest

-- `unknownKeys`
unfoldable pub unknown_keys : Fields → List Text → List Text
unknown_keys payload known = sort (without known (keys payload))

-- The unknown fields of `extraData`, if it is an object.
unfoldable pub nested_unknown : Option Json → List Text
nested_unknown (some (Json.object extra)) =
    map (λ key. codes "extraData." ++ key) (unknown_keys extra known_identity_extra_data_keys)
nested_unknown _ = []

-- `summarizeUnknownIdentityPayloadFields`
unfoldable pub summarize_unknown_identity_payload_fields : Fields → List Text
summarize_unknown_identity_payload_fields payload =
    sort
      (unknown_keys payload known_identity_keys ++ nested_unknown (get (codes "extraData") payload))

-- `summarizeUnknownClientPayloadFields`
unfoldable pub summarize_unknown_client_payload_fields : Fields → List Text
summarize_unknown_client_payload_fields payload = unknown_keys payload known_client_data_keys

-- `summarizeUnknownTokenPayloadFields`
unfoldable pub summarize_unknown_token_payload_fields : Fields → List Text
summarize_unknown_token_payload_fields payload = unknown_keys payload known_token_keys

-- `copyIfPresent`, key by key.
unfoldable pub copy_if_present : List Text → Fields → Fields → Fields
copy_if_present [] payload rest = rest
copy_if_present (key ∷ wanted) payload rest = elim (get key payload) [
  | none ↦ copy_if_present wanted payload rest
  | some value ↦ field key value (copy_if_present wanted payload rest)
]

abbrev text_length : Option Json → Fields → Fields
text_length (some (Json.text t)) rest = field (codes "SkinDataLength") (Json.number (length t)) rest
text_length _ rest = rest

abbrev pieces_count : Option Json → Fields → Fields
pieces_count (some (Json.array values)) rest =
    field (codes "PersonaPiecesCount") (Json.number (length (items values))) rest
pieces_count _ rest = rest

abbrev pub summary_keys : List Text
summary_keys =
    codes "DeviceId"
    ∷ codes "DeviceOS"
    ∷ codes "DeviceModel"
    ∷ codes "GameVersion"
    ∷ codes "SkinId"
    ∷ codes "PartyId"
    ∷ codes "PlayFabId"
    ∷ codes "PlatformOnlineId"
    ∷ codes "SelfSignedId"
    ∷ []

-- `summarizeClientPayloadForLog`
unfoldable pub summarize_client_payload_for_log : Fields → Fields
summarize_client_payload_for_log payload = copy_if_present summary_keys payload (
    text_length (get (codes "SkinData") payload)
      (pieces_count (get (codes "PersonaPieces") payload) end))
