-- ===== src/Bedrock/Identity.antt =====
-- The state of a player of packages/baltica/src/server/player.ts, and whom its login tokens name.
use baltica.Base.{ℕ, Bool, Option, none, some, List, [], ◌∷◌}
use baltica.Base.Tests.{if◌then◌else◌}
use baltica.Base.Texts.{Text, codes, is_empty, with_default}
use baltica.Serializer.{CompressionMethod, PacketCompressor}
use baltica.Json.{Json, Fields, get, text_field}
use baltica.LoginPayload.{Decoding, decode_jwt_payload}
use baltica.Bedrock.{Packet}
use baltica.Outbound.{Priority}

pub data PlayerEvent : Type 0 where
  login disconnect : PlayerEvent
  -- A packet that only listeners of the application take.
  received : Packet → PlayerEvent

pub record Player (C D : Type 0) : Type 0 where
  pub compressor : PacketCompressor C D
  -- The key of the encryptor, once it is there.
  pub key : List ℕ
  pub username : Text
  pub xuid : Text
  pub is_disconnected : Bool
  pub private_key : Text
  pub client_x509 : Text
  -- The options of its server.
  pub threshold : ℕ
  pub method : CompressionMethod
  pub sent : List (List ℕ × Priority)
  pub events : List PlayerEvent
  -- Whether its connection has been told to disconnect.
  pub connection_closed : Bool

-- `SALT_BUFFER`
abbrev pub salt : List ℕ
salt = 0xF0 ∷ 0x9F ∷ 0xA7 ∷ 0x82 ∷ []

-- What the tokens say of a player.
pub record Identity : Type 0 where
  pub display_name : Text
  pub xuid : Text
  pub public_key : Text

abbrev pub no_identity : Identity
no_identity = record { display_name = []; xuid = []; public_key = [] }

-- `asRecord(payload.extraData)`, with the name and the id that it has.
abbrev pub from_extra : Option Json → Identity → Identity
from_extra (some (Json.object extra)) i = elim (text_field (codes "displayName") extra) [
  | none ↦ i
  | some name ↦ record i {
    display_name = name;
    xuid = with_default (text_field (codes "XUID") extra) [];
  }
]
from_extra _ i = i

abbrev pub from_key : Option Text → Identity → Identity
from_key none i = i
from_key (some key) i = record i { public_key = key }

module _ (d : Decoding) where
  -- One token of the chain; one that cannot be read is passed over.
  unfoldable pub from_token : Json → Identity → Identity
  from_token (Json.text jwt) i = elim (decode_jwt_payload d jwt) [
    | none ↦ i
    | some payload ↦
        from_key (text_field (codes "identityPublicKey") payload)
          (from_extra (get (codes "extraData") payload) i)
  ]
  from_token _ i = i

  -- The loop over the chain.
  unfoldable pub from_chain : List Json → Identity → Identity
  from_chain [] i = i
  from_chain (jwt ∷ chain) i = from_chain chain (from_token jwt i)

  abbrev if_missing : Text → Option Text → Text
  if_missing [] (some text) = text
  if_missing text _ = text

  -- The payload of the newer token.
  abbrev from_payload : Fields → Identity → Identity
  from_payload payload i = record {
    display_name = if_missing i.display_name (text_field (codes "xname") payload);
    xuid = if_missing i.xuid (text_field (codes "xid") payload);
    public_key = with_default (text_field (codes "cpk") payload) i.public_key;
  }

  -- The newer token, where the chain has no key; none ends the login.
  unfoldable pub from_new_token : Option Json → Identity → Option Identity
  from_new_token (some (Json.text (c ∷ token))) i = elim (decode_jwt_payload d (c ∷ token)) [
    | none ↦ none
    | some payload ↦ some (from_payload payload i)
  ]
  from_new_token _ i = some i

  abbrev pub complete : Option Json → Identity → Option Identity
  complete token i = if is_empty i.public_key then from_new_token token i else some i
