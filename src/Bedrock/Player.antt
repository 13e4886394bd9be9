-- ===== src/Bedrock/Player.antt =====
-- packages/baltica/src/server/player.ts: a player of the server.
--
-- A handler returns the new state; a buffer that goes to the connection is appended to `sent`. The
-- listeners are those of `registerHandlers`. What `handleLogin` waits for does not let another packet
-- in between.
use baltica.Base.{ℕ, Bool, true, false, ◌&&◌, Option, none, some, List, [], ◌∷◌, ◌++◌}
use baltica.Base.Tests.{◌==◌, if◌then◌else◌}
use baltica.Base.Lists.{take}
use baltica.Base.Texts.{Text, codes, is_empty}
use baltica.Serializer.{
  Calls, PacketEncryptor, PacketCompressor, set_encryptor, compress, decompress, decrypt_packet,
}
use baltica.Json.{Json, Fields, end, get, items, or_nullish}
use baltica.LoginPayload.{Decoding}
use baltica.Bedrock.{
  Packet, login_success, network_settings, request_network_settings, server_to_client_handshake,
  client_to_server_handshake, play_status, Parsed, unknown, malformed, packet, Protocol, Crypto,
}
use baltica.Outbound.{Priority}
use baltica.Bedrock.Identity.{
  PlayerEvent, received, Player, salt, Identity, no_identity, from_chain, complete,
}

module _ {C D : Type 0} (calls : List ℕ → Calls C D) (protocol : Protocol) (crypto : Crypto C D)
    (d : Decoding) where
  -- `JSON.parse(identity.Certificate ?? identity.certificate ?? "{}").chain ?? []`; none throws.
  abbrev chain_in : Option Json → Option (List Json)
  chain_in none = some []
  chain_in (some Json.null) = some []
  chain_in (some (Json.text t)) = some []
  chain_in (some (Json.array values)) = some (items values)
  chain_in _ = none

  -- The fields of a value; only null has none to ask for.
  abbrev fields_of : Option Json → Option Fields
  fields_of none = none
  fields_of (some Json.null) = none
  fields_of (some (Json.object fields)) = some fields
  fields_of _ = some end

  -- A number and a Boolean are what they are parsed to.
  abbrev certificate_of : Option Json → Option Fields
  certificate_of none = some end
  certificate_of (some (Json.text t)) = fields_of (crypto.parse t)
  certificate_of (some (Json.number n)) = some end
  certificate_of (some (Json.negative n)) = some end
  certificate_of (some (Json.boolean b)) = some end
  certificate_of _ = none

  unfoldable pub chain_of : Fields → Option (List Json)
  chain_of identity =
      elim (certificate_of
        (or_nullish (get (codes "Certificate") identity) (get (codes "certificate") identity))) [
          | none ↦ none
          | some certificate ↦ chain_in (get (codes "chain") certificate)
        ]

  -- Who logs in: none is an exception, or the early return.
  unfoldable pub identify : Text → Option Identity
  identify identity_raw = elim (fields_of (crypto.parse identity_raw)) [
    | none ↦ none
    | some identity ↦ elim (chain_of identity) [
      | none ↦ none
      | some chain ↦
          complete d (or_nullish (get (codes "Token") identity) (get (codes "token") identity))
            (from_chain d chain no_identity)
    ]
  ]

  abbrev pub sending : Priority → Player C D → Option (List ℕ × PacketCompressor C D) → Player C D
  sending priority p none = p
  sending priority p (some (bytes, z)) = record p {
    compressor = z;
    sent = p.sent ++ (bytes, priority) ∷ [];
  }

  -- `send`; what throws is reported and nothing is sent.
  unfoldable pub send : List (List ℕ) → Priority → Player C D → Player C D
  send packets priority p =
      if p.is_disconnected
      then p
      else sending priority p (compress (calls p.key) packets none p.compressor)

  -- `sendUncompressed`
  unfoldable pub send_uncompressed : List ℕ → Priority → Player C D → Player C D
  send_uncompressed bytes priority p = record p {
    sent = p.sent ++ (0xfe ∷ (calls p.key).frame (bytes ∷ []), priority) ∷ [];
  }

  -- `enableEncryption` with the key and its first sixteen bytes.
  unfoldable pub enable_encryption : List ℕ → Player C D → Player C D
  enable_encryption key p =
      let iv = take 16 key in
      record p {
        key = key;
        compressor =
            set_encryptor
              (record {
                send_counter = 0;
                receive_counter = 0;
                cipher = some (crypto.make_cipher key iv);
                decipher = some (crypto.make_decipher key iv);
              })
              p.compressor;
      }

  -- The encryption is on, and the login is reported.
  abbrev pub secure : List ℕ → Player C D → Player C D
  secure key p =
      let q = enable_encryption key p in record q { events = q.events ++ PlayerEvent.login ∷ [] }

  -- The handshake, once the keys have met: it is sent before the encryption is on.
  unfoldable pub shake_hands : List ℕ → Player C D → Player C D
  shake_hands secret p =
      let token = crypto.sign_token p.private_key p.client_x509 (crypto.to_base64 salt) in
      secure (crypto.sha256 (salt ++ secret))
        (send (protocol.serialize (server_to_client_handshake token) ∷ []) Priority.high p)

  abbrev pub login_with : Player C D → Option (List ℕ) → Player C D
  login_with p none = p
  login_with p (some secret) = shake_hands secret p

  abbrev pub login_as : Player C D → Option Identity → Player C D
  login_as p none = p
  login_as p (some i) =
      let named = record p { username = i.display_name; xuid = i.xuid } in
      if is_empty i.public_key
      then named
      else login_with named (crypto.shared_secret p.private_key i.public_key)

  -- `handleLogin`, which ends early without a key and throws without a secret.
  unfoldable pub handle_login : Text → Player C D → Player C D
  handle_login identity_raw p = login_as p (identify identity_raw)

  -- The listener of `RequestNetworkSettingsPacket`.
  unfoldable pub on_request_network_settings : Player C D → Player C D
  on_request_network_settings p =
      let settings = protocol.serialize (network_settings p.threshold p.method) in
      let q = send_uncompressed settings Priority.high p in
      record q {
        compressor = record q.compressor {
          compression_method = some p.method;
          compression_threshold = p.threshold;
        };
      }

  -- The listeners that `registerHandlers` registers.
  unfoldable pub dispatch : Packet → Player C D → Player C D
  dispatch (request_network_settings version) p = on_request_network_settings p
  dispatch (Packet.login client identity) p = handle_login identity p
  dispatch client_to_server_handshake p =
      send (protocol.serialize (play_status login_success) ∷ []) Priority.high p
  dispatch other p = record p { events = p.events ++ received other ∷ [] }

  abbrev pub handle_parsed : Player C D → Parsed → Player C D
  handle_parsed p (packet content) = dispatch content p
  handle_parsed p unknown = p
  handle_parsed p malformed = p

  -- `handlePacket`
  unfoldable pub handle_packet : List ℕ → Player C D → Player C D
  handle_packet buffer p = handle_parsed p (protocol.deserialize buffer)

  unfoldable pub handle_packets : List (List ℕ) → Player C D → Player C D
  handle_packets [] p = p
  handle_packets ([] ∷ buffers) p = handle_packets buffers p
  handle_packets ((b ∷ buffer) ∷ buffers) p = handle_packets buffers (handle_packet (b ∷ buffer) p)

  -- `disconnect`
  unfoldable pub disconnect_player : Player C D → Player C D
  disconnect_player p = if p.is_disconnected then p else record p {
    is_disconnected = true;
    connection_closed = true;
    events = p.events ++ PlayerEvent.disconnect ∷ [];
  }

  abbrev mismatch_with : List ℕ → Option (PacketEncryptor C D) → List ℕ → Bool
  mismatch_with key none packet' = false
  mismatch_with key (some e) packet' = elim (decrypt_packet (calls key) packet' e).0 [
    | none ↦ true
    | some bytes ↦ false
  ]

  -- Whether `decompress` throws by its checksum.
  abbrev pub is_mismatch : List ℕ → List ℕ → PacketCompressor C D → Bool
  is_mismatch key [] z = false
  is_mismatch key (id ∷ packet') z = id == 0xfe && mismatch_with key z.encryptor packet'

  -- `onEncapsulated`, once `decompress` has returned or thrown.
  abbrev pub on_opened :
      List ℕ → Player C D → Option (List (List ℕ)) × PacketCompressor C D → Player C D
  on_opened buffer p (some buffers, z) = handle_packets buffers (record p { compressor = z })
  on_opened buffer p (none, z) =
      let q = record p { compressor = z } in
      if is_mismatch p.key buffer p.compressor then disconnect_player q else q

  -- `onEncapsulated`
  unfoldable pub on_encapsulated : List ℕ → Player C D → Player C D
  on_encapsulated buffer p = on_opened buffer p (decompress (calls p.key) buffer p.compressor)
