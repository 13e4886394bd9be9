-- ===== src/Bedrock/Client.antt =====
-- packages/baltica/src/client/client.ts: a client of the game protocol, with `createLoginPacket` of
-- client/types/login/login-data.ts.
--
-- A handler returns the new state and whether it threw; a buffer that goes to RakNet is appended to
-- `sent`.
use baltica.Base.{ℕ, Bool, false, ◌&&◌, Option, none, some, List, [], ◌∷◌, ◌++◌}
use baltica.Base.Tests.{if◌then◌else◌}
use baltica.Base.Lists.{take}
use baltica.Base.Texts.{Text, codes, is_empty}
use baltica.Address.{split}
use baltica.Serializer.{
  CompressionMethod, Calls, PacketCompressor, set_encryptor, compress, decompress,
}
use baltica.Json.{Json, Fields, end, field, text_field}
use baltica.LoginPayload.{Decoding}
use baltica.Bedrock.{
  Packet, player_spawn, start_loading_screen, end_loading_screen, have_all_packs, completed,
  network_settings, request_network_settings, login, server_to_client_handshake,
  client_to_server_handshake, play_status, resource_packs_info, resource_pack_stack,
  resource_pack_client_response, client_cache_status, start_game, request_chunk_radius,
  loading_screen, set_local_player_as_initialized, Parsed, unknown, malformed, packet, Protocol,
  Crypto,
}
use baltica.Bedrock.Player.{is_mismatch}
use baltica.Outbound.{Priority}
use baltica.Bedrock.ClientState.{
  ClientEvent, Promise, pending, resolved, Client, current_protocol, non_empty, on_lost,
  disconnect_client,
}

module _ {C D : Type 0} (calls : List ℕ → Calls C D) (protocol : Protocol) (crypto : Crypto C D)
    (d : Decoding) where
  abbrev pub certificate_fields : Client C D → Fields
  certificate_fields c =
      let l = c.login_data in
      field (codes "chain") (Json.array (non_empty (l.client_identity_chain ∷ l.access_token))) end

  -- The identity of the login packet.
  abbrev pub identity_fields : Client C D → Fields
  identity_fields c =
      let token = c.login_data.login_token in
      field (codes "AuthenticationType") (Json.number (if c.offline then 2 else 0)) (
        field (codes "Certificate") (Json.text (crypto.stringify (certificate_fields c)))
          (if is_empty token then end else field (codes "Token") (Json.text token) end))

  -- `createLoginPacket`
  unfoldable pub create_login_packet : Client C D → Packet
  create_login_packet c =
      login c.login_data.client_user_chain (crypto.stringify (identity_fields c))

  abbrev pub sending : Priority → Client C D → Option (List ℕ × PacketCompressor C D) → Client C D
  sending priority c none = c
  sending priority c (some (bytes, z)) = record c {
    compressor = z;
    sent = c.sent ++ (bytes, priority) ∷ [];
  }

  -- `send`; what throws is reported and nothing is sent.
  unfoldable pub send : List (List ℕ) → Priority → Client C D → Client C D
  send packets priority c =
      if c.is_disconnected
      then c
      else sending priority c (compress (calls c.key) packets none c.compressor)

  -- `sendUncompressed`, and `requestNetworkSettings` by it.
  unfoldable pub send_uncompressed : List ℕ → Priority → Client C D → Client C D
  send_uncompressed bytes priority c = record c {
    sent = c.sent ++ (0xfe ∷ (calls c.key).frame (bytes ∷ []), priority) ∷ [];
  }

  unfoldable pub request_settings : Client C D → Client C D
  request_settings c =
      send_uncompressed (protocol.serialize (request_network_settings current_protocol))
        Priority.high c

  -- `onNetworkSettings`
  unfoldable pub on_network_settings : ℕ → CompressionMethod → Client C D → Client C D
  on_network_settings threshold method c =
      send (protocol.serialize (create_login_packet c) ∷ []) Priority.medium (record c {
        compressor = record c.compressor {
          compression_method = some method;
          compression_threshold = threshold;
        };
      })

  -- `enableEncryption`
  unfoldable pub enable_encryption : List ℕ → Client C D → Client C D
  enable_encryption key c =
      let iv = take 16 key in
      record c {
        key = key;
        compressor =
            set_encryptor
              (record {
                send_counter = 0;
                receive_counter = 0;
                cipher = some (crypto.make_cipher key iv);
                decipher = some (crypto.make_decipher key iv);
              })
              c.compressor;
      }

  -- `x5u` and `salt` of the server's token, which are texts; none is an exception.
  unfoldable pub read_token : Text → Option (Text × Text)
  read_token token = elim (split 46 token) [
    | [] ↦ none
    | header ∷ parts ↦ elim parts [
      | [] ↦ none
      | payload ∷ more ↦ elim (d.base64_json header) [
        | none ↦ none
        | some head ↦ elim (d.base64_json payload) [
          | none ↦ none
          | some body ↦ elim (text_field (codes "x5u") head) [
            | none ↦ none
            | some x5u ↦ elim (text_field (codes "salt") body) [
              | none ↦ none
              | some salt ↦ some (x5u, salt)
            ]
          ]
        ]
      ]
    ]
  ]

  -- The encryption is on, and the answer goes out with it.
  abbrev pub answer : List ℕ → Client C D → Client C D
  answer key c =
      send (protocol.serialize client_to_server_handshake ∷ []) Priority.medium
        (enable_encryption key c)

  abbrev pub secure_with : Client C D → Text → Option (List ℕ) → Client C D
  secure_with c salt none = c
  secure_with c salt (some secret) = answer (crypto.sha256 (crypto.from_base64 salt ++ secret)) c

  abbrev pub shake_with : Client C D → Option (Text × Text) → Client C D
  shake_with c none = c
  shake_with c (some (x5u, salt)) =
      secure_with c salt (crypto.shared_secret c.login_data.private_key x5u)

  -- `onServerHandshake`; an exception leaves the client as it is.
  unfoldable pub on_server_handshake : Text → Client C D → Client C D
  on_server_handshake token c = shake_with c (read_token token)

  -- `onResourcePacksInfo`; with packs or without, all of them are said to be there.
  unfoldable pub on_resource_packs_info : List (Text × Text) → Client C D → Client C D
  on_resource_packs_info packs c =
      send
        (protocol.serialize (resource_pack_client_response packs have_all_packs)
          ∷ protocol.serialize (client_cache_status false)
          ∷ [])
        Priority.medium c

  -- `onResourcePackStack`
  unfoldable pub on_resource_pack_stack : Client C D → Client C D
  on_resource_pack_stack =
      send (protocol.serialize (resource_pack_client_response [] completed) ∷ []) Priority.medium

  -- `onStartGame`
  unfoldable pub on_start_game : ℕ → Client C D → Client C D
  on_start_game runtime_id c =
      let asked =
        send (protocol.serialize (request_chunk_radius c.view_distance c.view_distance) ∷ [])
          Priority.medium (record c { start_game_data = some runtime_id }) in
      send (protocol.serialize (loading_screen start_loading_screen) ∷ []) Priority.medium asked

  abbrev settled : Promise → Promise
  settled pending = resolved
  settled promise = promise

  -- The listener of `connect()` for the packet that the client emits to itself.
  unfoldable pub on_initialized : Client C D → Client C D
  on_initialized c =
      if c.listening && c.waiting.initialized
      then record c {
        waiting = record c.waiting { initialized = false };
        promise = settled c.promise;
        events = c.events ++ ClientEvent.connect ∷ [];
      }
      else c

  abbrev pub spawn_with : Client C D → Option ℕ → Client C D
  spawn_with c none = c
  spawn_with c (some runtime_id) = on_initialized (
      send
        (protocol.serialize (loading_screen end_loading_screen)
          ∷ protocol.serialize (set_local_player_as_initialized runtime_id)
          ∷ [])
        Priority.medium c)

  -- `onPlayStatus` at the spawn; without the data of `StartGamePacket` it throws after the event.
  unfoldable pub on_spawn : Client C D → Client C D
  on_spawn c =
      spawn_with (record c { events = c.events ++ ClientEvent.spawn ∷ [] }) c.start_game_data

  abbrev pub once : Bool → Client C D → Client C D → Client C D
  once waits served c = if waits then served else c

  -- The listeners, each with its packet.
  unfoldable pub dispatch : Packet → Client C D → Client C D
  dispatch (network_settings threshold method) c = on_network_settings threshold method c
  dispatch (server_to_client_handshake token) c =
      once c.waiting.handshake
        (on_server_handshake token (record c { waiting = record c.waiting { handshake = false } }))
        c
  dispatch (resource_packs_info packs) c =
      once c.waiting.packs_info
        (on_resource_packs_info packs
          (record c { waiting = record c.waiting { packs_info = false } }))
        c
  dispatch resource_pack_stack c =
      once c.waiting.pack_stack
        (on_resource_pack_stack (record c { waiting = record c.waiting { pack_stack = false } })) c
  dispatch (start_game runtime_id) c =
      once c.waiting.start_game
        (on_start_game runtime_id (record c { waiting = record c.waiting { start_game = false } }))
        c
  dispatch (play_status player_spawn) c = if c.stop_past_login then c else on_spawn c
  dispatch (set_local_player_as_initialized runtime_id) c = on_initialized c
  dispatch (Packet.disconnect message) c = on_lost message c
  dispatch other c = c

  abbrev pub handle_parsed : Client C D → Parsed → Client C D
  handle_parsed c (packet content) = dispatch content c
  handle_parsed c unknown = c
  handle_parsed c malformed = c

  -- `handlePacket`: without a listener nothing is read.
  unfoldable pub handle_packet : List ℕ → Client C D → Client C D
  handle_packet [] c = c
  handle_packet (b ∷ buffer) c =
      if c.listening then handle_parsed c (protocol.deserialize (b ∷ buffer)) else c

  unfoldable pub handle_packets : List (List ℕ) → Client C D → Client C D
  handle_packets [] c = c
  handle_packets (buffer ∷ buffers) c = handle_packets buffers (handle_packet buffer c)

  -- `onEncapsulated`, once `decompress` has returned or thrown.
  abbrev pub on_opened :
      List ℕ → Client C D → Option (List (List ℕ)) × PacketCompressor C D → Client C D
  on_opened buffer c (some buffers, z) = handle_packets buffers (record c { compressor = z })
  on_opened buffer c (none, z) =
      let opened = record c { compressor = z } in
      if is_mismatch calls protocol crypto d c.key buffer c.compressor
      then disconnect_client (codes "Encryption checksum mismatch: Connection corrupted") opened
      else opened

  -- `onEncapsulated`
  unfoldable pub on_encapsulated : List ℕ → Client C D → Client C D
  on_encapsulated buffer c = on_opened buffer c (decompress (calls c.key) buffer c.compressor)
