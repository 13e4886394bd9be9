-- ===== src/Bedrock/LoginData.antt =====
-- packages/baltica/src/client/types/login/login-data.ts: what a client says of itself when it logs in.
--
-- Keys are texts; the hash of node:crypto, the tokens of jose and the data of Skin.json are calls of a
-- record. The time and the random numbers are arguments.
use baltica.Base.{ℕ, ◌+◌, ◌*◌, ◌/◌, Bool, true, false, Option, none, some, List, [], ◌∷◌, ◌++◌, map}
use baltica.Base.Tests.{if◌then◌else◌}
use baltica.Base.Texts.{Text, codes, is_empty, or_else, with_default, present}
use baltica.Address.{join, parse_int, hex_digit}
use baltica.Frame.{◌>>=◌}
use baltica.Json.{Json, Fields, end, assign, object_of, text_field}
use baltica.Bedrock.LoginOptions.{
  Profile, ClientOptions, KeyPair, Chance, Making, SessionTokenData, LoginData, slice,
  without_dashes, upper, lower, print, generate_random_id, generate_online_id, mojang_public_key,
  variant,
}

module _ (making : Making) where
  abbrev pub uuid_of : Text → Text
  uuid_of hash = join 45 (
      slice 0 8 hash
      ∷ slice 8 12 hash
      ∷ (51 ∷ slice 13 16 hash)
      ∷ (hex_digit (variant (parse_int 16 (slice 16 17 hash))) ∷ slice 17 20 hash)
      ∷ slice 20 32 hash
      ∷ [])

  -- `nextUUID`; none is an exception.
  unfoldable pub next_uuid : Text → Option Text
  next_uuid username = if is_empty username then none else some (uuid_of (making.md5_hex username))

  abbrev pub server_address : ClientOptions → Text
  server_address o = o.address ++ 58 ∷ print 5 o.port

  -- The fields of `createDefaultPayload` after those of the skin.
  abbrev default_fields : ClientOptions → Chance → Text → Text → Fields
  default_fields o chance username uuid =
      let l = o.login_options in
      object_of (
        (codes "ClientRandomId", generate_random_id chance.random_id)
        ∷ (codes "CompatibleWithClientSideChunkGen", Json.boolean false)
        ∷ (codes "CurrentInputMode", Json.number l.current_input_mode)
        ∷ (codes "DefaultInputMode", Json.number l.default_input_mode)
        ∷ (codes "DeviceId", Json.text uuid)
        ∷ (codes "DeviceModel", Json.text l.device_model)
        ∷ (codes "DeviceOS", Json.number (with_default l.device_os making.win10))
        ∷ (codes "GameVersion", Json.text (codes "1.26.10"))
        ∷ (codes "GuiScale", Json.number 0)
        ∷ (codes "IsEditorMode", Json.boolean false)
        ∷ (codes "LanguageCode", Json.text (codes "en_US"))
        ∷ (codes "MaxViewDistance", Json.number o.view_distance)
        ∷ (codes "MemoryTier", Json.number l.memory_tier)
        ∷ (codes "OverrideSkin", Json.boolean false)
        ∷ (codes "PlatformOfflineId", Json.text (if o.offline then [] else without_dashes uuid))
        ∷ (
          codes "PlatformOnlineId",
          Json.text (if o.offline then [] else generate_online_id chance.online_id),
        )
        ∷ (codes "PlatformType", Json.number l.platform_type)
        ∷ (codes "PlayFabId", Json.text (map lower (slice 0 16 (without_dashes uuid))))
        ∷ (codes "SelfSignedId", Json.text uuid)
        ∷ (codes "ServerAddress", Json.text (server_address o))
        ∷ (codes "ThirdPartyName", Json.text username)
        ∷ (codes "UIProfile", Json.number l.ui_profile)
        ∷ (codes "GraphicsMode", Json.number l.graphics_mode)
        ∷ [])

  -- `createDefaultPayload`
  unfoldable pub create_default_payload : ClientOptions → Chance → Profile → Option Fields
  create_default_payload o chance profile = do
    uuid ← next_uuid profile.name
    some (assign making.default_skin_data (default_fields o chance profile.name uuid))

  -- `prepare`, with a new pair of keys.
  unfoldable pub prepare : ClientOptions → Chance → KeyPair → Profile → Option LoginData
  prepare o chance keys profile = do
    payload ← create_default_payload o chance profile
    some (record {
      private_key = keys.private_key;
      client_x509 = keys.client_x509;
      client_identity_chain = [];
      client_user_chain = [];
      session_token_data = none;
      access_token = [];
      login_token = [];
      payload = assign payload (with_default o.skin_data end);
    })

  -- `createOfflineToken`
  unfoldable pub create_offline_token : ℕ → Profile → LoginData → Option Text
  create_offline_token now profile l = do
    uuid ← next_uuid profile.name
    some (
        making.sign l.private_key l.client_x509 (
          object_of (
            (codes "aud", Json.text (codes "api://auth-minecraft-services/multiplayer"))
            ∷ (codes "cpk", Json.text l.client_x509)
            ∷ (codes "exp", Json.number (now / 1000 + 60 * 60 * 24 * 365))
            ∷ (codes "leguuid", Json.text profile.uuid)
            ∷ (codes "mid", Json.text (map upper (slice 0 16 (without_dashes uuid))))
            ∷ (codes "nid", Json.text [])
            ∷ (codes "nname", Json.text [])
            ∷ (codes "pid", Json.text [])
            ∷ (codes "pname", Json.text [])
            ∷ (codes "xid", Json.text profile.xuid)
            ∷ (codes "xname", Json.text profile.name)
            ∷ [])))

  -- The payload of an offline chain.
  abbrev pub offline_payload : ℕ → Chance → Profile → LoginData → Fields
  offline_payload now chance profile l = object_of (
      (codes "nbf", Json.number (now / 1000))
      ∷ (codes "randomNonce", Json.number chance.nonce)
      ∷ (codes "iat", Json.number (now / 1000))
      ∷ (codes "exp", Json.number (now / 1000 + 3600))
      ∷ (
        codes "extraData",
        Json.object (
            object_of (
              (codes "displayName", Json.text profile.name)
              ∷ (codes "identity", Json.text profile.uuid)
              ∷ (codes "titleId", Json.text (codes "89692877"))
              ∷ (codes "sandboxId", Json.text [])
              ∷ (codes "XUID", Json.text [])
              ∷ [])),
      )
      ∷ (codes "certificateAuthority", Json.boolean true)
      ∷ (codes "identityPublicKey", Json.text l.client_x509)
      ∷ [])

  abbrev session_fields :
      Profile → Option SessionTokenData → List (Text × Json) → List (Text × Json)
  session_fields profile none rest = rest
  session_fields profile (some s) rest =
      (codes "ipt", Json.text s.ipt)
      ∷ (codes "tid", Json.text s.tid)
      ∷ (codes "mid", Json.text s.mid)
      ∷ (codes "xid", Json.text s.xid)
      ∷ (codes "cpk", Json.text s.cpk)
      ∷ (codes "xname", Json.text profile.name)
      ∷ rest

  abbrev pfcd_field : Option Text → List (Text × Json)
  pfcd_field none = []
  pfcd_field (some pfcd) = (codes "pfcd", Json.text pfcd) ∷ []

  -- The payload of a chain that goes with the tokens of the services.
  abbrev pub online_payload : Option Text → Profile → LoginData → Fields
  online_payload mojang_key profile l = object_of (
      (
        codes "identityPublicKey",
        Json.text (or_else (with_default mojang_key []) mojang_public_key),
      )
      ∷ (codes "certificateAuthority", Json.boolean true)
      ∷ session_fields profile l.session_token_data
          (pfcd_field (present (text_field (codes "pfcd") l.payload))))

  -- `createClientChain`
  unfoldable pub create_client_chain : ℕ → Chance → Profile → Option Text → Bool → LoginData → Text
  create_client_chain now chance profile mojang_key offline l =
      making.sign l.private_key l.client_x509 (
        if offline
        then offline_payload now chance profile l
        else online_payload mojang_key profile l)

  -- `createClientUserChain`
  unfoldable pub create_client_user_chain :
      ℕ → Text → Profile → ClientOptions → LoginData → Option Text
  create_client_user_chain now private_key profile o l = do
    uuid ← next_uuid profile.name
    some (
        making.sign private_key l.client_x509 (
          assign (assign l.payload (with_default o.skin_data end)) (
            object_of (
              (codes "ServerAddress", Json.text (server_address o))
              ∷ (codes "ClientRandomId", Json.number now)
              ∷ (codes "DeviceId", Json.text uuid)
              ∷ (codes "PlayFabId", Json.text (slice 0 16 (without_dashes uuid)))
              ∷ (codes "SelfSignedId", Json.text uuid)
              ∷ []))))
