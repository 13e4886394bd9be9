-- ===== src/Bedrock.antt =====
-- packages/baltica/src: what the server's players and the clients of the game protocol share.
--
-- The packets of @serenityjs/protocol are those that the code names, with the fields that it reads or
-- writes; their bytes, `Framer`, node:crypto and jose are calls of records.
pub mod LoginOptions
pub mod LoginData
pub mod Identity
pub mod Player
pub mod ClientState
pub mod Client
pub mod Handshake
pub mod Steps
pub mod Completion
pub mod Authentication
pub mod Offline
pub mod Uuid
pub mod Ending
pub mod Handlers
pub mod Once
use baltica.Base.{ℕ, Bool, Option, List, [], ◌∷◌}
use baltica.Base.Texts.{Text}
use baltica.Json.{Json, Fields}
use baltica.Serializer.{CompressionMethod, Calls}

pub data PlayStatus : Type 0 where
  login_success player_spawn other_status : PlayStatus

pub data LoadingScreen : Type 0 where
  start_loading_screen end_loading_screen : LoadingScreen

pub data ResourcePackResponse : Type 0 where
  have_all_packs completed : ResourcePackResponse

pub data Packet : Type 0 where
  request_network_settings : ℕ → Packet
  -- The threshold and the method.
  network_settings : ℕ → CompressionMethod → Packet
  -- The client's token and the identity.
  login : Text → Text → Packet
  server_to_client_handshake : Text → Packet
  client_to_server_handshake : Packet
  play_status : PlayStatus → Packet
  -- Packs by their id and version.
  resource_packs_info : List (Text × Text) → Packet
  resource_pack_stack : Packet
  resource_pack_client_response : List (Text × Text) → ResourcePackResponse → Packet
  client_cache_status : Bool → Packet
  -- The runtime id of the player.
  start_game : ℕ → Packet
  request_chunk_radius : ℕ → ℕ → Packet
  loading_screen : LoadingScreen → Packet
  set_local_player_as_initialized : ℕ → Packet
  disconnect : Text → Packet
  -- A packet of a class that the code does not name.
  other_packet : ℕ → Packet

-- What becomes of a buffer: no class for its id, a class whose `deserialize` throws, or a packet.
pub data Parsed : Type 0 where
  unknown malformed : Parsed
  packet : Packet → Parsed

pub record Protocol : Type 0 where
  pub serialize : Packet → List ℕ
  pub deserialize : List ℕ → Parsed

-- Keys, the hash, tokens and the ciphers of a key; none is an exception.
pub record Crypto (C D : Type 0) : Type 0 where
  -- `LoginData.createSharedSecret` of a private key and a public one in Base64.
  pub shared_secret : Text → Text → Option (List ℕ)
  pub sha256 : List ℕ → List ℕ
  -- A token of ES384 with `x5u` in its header and a salt.
  pub sign_token : Text → Text → Text → Text
  pub to_base64 : List ℕ → Text
  pub from_base64 : Text → List ℕ
  -- `createCipheriv` and `createDecipheriv` of a key and an iv.
  pub make_cipher : List ℕ → List ℕ → C
  pub make_decipher : List ℕ → List ℕ → D
  -- `JSON.parse`, and `JSON.stringify` of an object.
  pub parse : Text → Option Json
  pub stringify : Fields → Text
