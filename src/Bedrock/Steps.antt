-- ===== src/Bedrock/Steps.antt =====
-- packages/baltica/src/client/client.ts and server/player.ts: what each packet of the handshake makes of
-- the side that receives it.
use baltica.Base.{ℕ, ◌≡◌, refl, sym, ap, ◌∙◌, true, false, none, some, List, [], ◌∷◌, ◌++◌}
use baltica.Base.Tests.{if_true, if_false}
use baltica.Base.Lists.{take}
use baltica.Base.Texts.{Text, is_empty}
use baltica.Serializer.{
  CompressionMethod, Calls, PacketEncryptor, PacketCompressor, set_encryptor, get_method,
  decompress_as, compress, decompress, inflate, open_with,
}
use baltica.Serializer.RoundTrip.{Paired}
use baltica.LoginPayload.{Decoding}
use baltica.Bedrock.Identity.{Identity}
use baltica.Bedrock.{
  Packet, login_success, network_settings, request_network_settings, server_to_client_handshake,
  client_to_server_handshake, play_status, Protocol, Crypto,
}
use baltica.Bedrock.Client
use baltica.Bedrock.Client.{request_settings}
use baltica.Bedrock.ClientState.{Client}
use baltica.Bedrock.Player
use baltica.Bedrock.Identity.{Player, PlayerEvent, salt}
use baltica.Bedrock.Handshake.{last_sent, round, Laws, read_token_signed}
use baltica.Outbound.{Priority}

module _ {C D : Type 0} (calls : List ℕ → Calls C D) (protocol : Protocol) (crypto : Crypto C D)
    (d : Decoding) (InStep : C → D → Type 0) (laws : Laws calls protocol crypto d InStep) where
  -- A plain packet is read by an end without encryption.
  plain_read :
      (key : List ℕ) (p : Packet) (z : PacketCompressor C D)
      → get_method (calls key) ((calls key).frame (protocol.serialize p ∷ []))
        ≡ CompressionMethod.not_present
      → z.encryptor ≡ none
      → decompress (calls key) (0xfe ∷ (calls key).frame (protocol.serialize p ∷ [])) z
        ≡ (some (protocol.serialize p ∷ []), z)
  unfolding decompress decompress_as inflate
  plain_read key p z plain unencrypted =
      let bytes = (calls key).frame (protocol.serialize p ∷ []) in
      ap (open_with (calls key) bytes z) unencrypted
      ∙ (ap (λ m. (decompress_as (calls key) m bytes, z)) plain
          ∙ ap (λ r. (r, z)) ((laws.calls_laws key).unframe-frame (protocol.serialize p ∷ [])))

  player_reads :
      (buffer : List ℕ) (z : PacketCompressor C D) (content : Packet) (p : Player C D)
      → decompress (calls p.key) buffer p.compressor ≡ (some (protocol.serialize content ∷ []), z)
      → Player.on_encapsulated calls protocol crypto d buffer p
        ≡ Player.dispatch calls protocol crypto d content (record p { compressor = z })
  unfolding Player.on_encapsulated Player.handle_packets Player.handle_packet
  player_reads buffer z content p e =
      let (b, bytes, sc) = laws.serialize-cons content in
      let read = ap protocol.deserialize (sym sc) ∙ laws.deserialize-serialize content in
      let q = record p { compressor = z } in
      ap (Player.on_opened calls protocol crypto d buffer p) e
      ∙ (ap (λ s. Player.handle_packets calls protocol crypto d (s ∷ []) q) sc
          ∙ ap (Player.handle_parsed calls protocol crypto d q) read)

  client_reads :
      (buffer : List ℕ) (z : PacketCompressor C D) (content : Packet) (c : Client C D)
      → c.listening ≡ true
      → decompress (calls c.key) buffer c.compressor ≡ (some (protocol.serialize content ∷ []), z)
      → Client.on_encapsulated calls protocol crypto d buffer c
        ≡ Client.dispatch calls protocol crypto d content (record c { compressor = z })
  unfolding Client.on_encapsulated Client.handle_packets Client.handle_packet
  client_reads buffer z content c listening e =
      let (b, bytes, sc) = laws.serialize-cons content in
      let read = ap protocol.deserialize (sym sc) ∙ laws.deserialize-serialize content in
      let q = record c { compressor = z } in
      ap (Client.on_opened calls protocol crypto d buffer c) e
      ∙ (ap (λ s. Client.handle_packets calls protocol crypto d (s ∷ []) q) sc
          ∙ (if_true _ _ _ listening ∙ ap (Client.handle_parsed calls protocol crypto d q) read))

  player_sends :
      (packets : List (List ℕ)) (priority : Priority) (p : Player C D) (bytes : List ℕ)
      (z : PacketCompressor C D)
      → p.is_disconnected ≡ false
      → compress (calls p.key) packets none p.compressor ≡ some (bytes, z)
      → Player.send calls protocol crypto d packets priority p
        ≡ record p { compressor = z; sent = p.sent ++ (bytes, priority) ∷ [] }
  unfolding Player.send
  player_sends packets priority p bytes z connected e =
      if_false _ _ _ connected ∙ ap (Player.sending calls protocol crypto d priority p) e

  client_sends :
      (packets : List (List ℕ)) (priority : Priority) (c : Client C D) (bytes : List ℕ)
      (z : PacketCompressor C D)
      → c.is_disconnected ≡ false
      → compress (calls c.key) packets none c.compressor ≡ some (bytes, z)
      → Client.send calls protocol crypto d packets priority c
        ≡ record c { compressor = z; sent = c.sent ++ (bytes, priority) ∷ [] }
  unfolding Client.send
  client_sends packets priority c bytes z connected e =
      if_false _ _ _ connected ∙ ap (Client.sending calls protocol crypto d priority c) e

  -- What a side has become when it has sent something.
  abbrev pub player_after : Player C D → PacketCompressor C D → List ℕ → Player C D
  player_after p z bytes = record p { compressor = z; sent = p.sent ++ (bytes, Priority.high) ∷ [] }

  abbrev pub client_after : Client C D → PacketCompressor C D → List ℕ → Client C D
  client_after c z bytes = record c {
    compressor = z;
    sent = c.sent ++ (bytes, Priority.medium) ∷ [];
  }

  abbrev pub with_settings : ℕ → CompressionMethod → PacketCompressor C D → PacketCompressor C D
  with_settings threshold m z = record z {
    compression_method = some m;
    compression_threshold = threshold;
  }

  abbrev pub framed : List ℕ → Packet → List ℕ
  framed key p = 0xfe ∷ (calls key).frame (protocol.serialize p ∷ [])

  pub settings_requested :
      (p : Player C D) (version : ℕ)
      → p.compressor.encryptor ≡ none
      → Player.on_encapsulated calls protocol crypto d
          (framed p.key (request_network_settings version))
          p
        ≡ player_after p
            (with_settings p.threshold p.method p.compressor)
            (framed p.key (network_settings p.threshold p.method))
  unfolding Player.dispatch Player.on_request_network_settings Player.send_uncompressed
  settings_requested p version unencrypted =
      player_reads _ p.compressor (request_network_settings version) p (
        plain_read p.key (request_network_settings version) p.compressor
          (laws.plain_request p.key version) unencrypted)

  pub settings_received :
      (c : Client C D) (threshold : ℕ) (m : CompressionMethod) (z : PacketCompressor C D)
      (bytes : List ℕ)
      → c.compressor.encryptor ≡ none
      → c.listening ≡ true
      → c.is_disconnected ≡ false
      → compress
          (calls c.key)
          (protocol.serialize (Client.create_login_packet calls protocol crypto d c) ∷ [])
          none
          (with_settings threshold m c.compressor)
        ≡ some (bytes, z)
      → Client.on_encapsulated calls protocol crypto d
          (framed c.key (network_settings threshold m))
          c
        ≡ client_after c z bytes
  unfolding Client.dispatch Client.on_network_settings Client.create_login_packet
  settings_received c threshold m z bytes unencrypted listening connected e =
      client_reads _ c.compressor (network_settings threshold m) c listening (
        plain_read c.key (network_settings threshold m) c.compressor
          (laws.plain_settings c.key threshold m) unencrypted)
      ∙ client_sends _ Priority.medium
          (record c { compressor = with_settings threshold m c.compressor }) bytes z connected e

  -- The encryptor that `enableEncryption` makes of a key.
  abbrev pub new_encryptor : List ℕ → PacketEncryptor C D
  new_encryptor key = record {
    send_counter = 0;
    receive_counter = 0;
    cipher = some (crypto.make_cipher key (take 16 key));
    decipher = some (crypto.make_decipher key (take 16 key));
  }

  pub new_encryptor-Paired :
      (key : List ℕ)
      → Paired (calls key) InStep (laws.calls_laws key) (new_encryptor key) (new_encryptor key)
  new_encryptor-Paired key = record {
    counters = refl;
    c = crypto.make_cipher key (take 16 key);
    d = crypto.make_decipher key (take 16 key);
    cipher_is = refl;
    decipher_is = refl;
    in_step = laws.in_step key (take 16 key);
  }

  -- The player that has read a login: its name, its handshake sent, and its encryption on.
  abbrev pub logged_in : Player C D → Identity → List ℕ → PacketCompressor C D → List ℕ → Player C D
  logged_in p i key z bytes =
      record (player_after (record p { username = i.display_name; xuid = i.xuid }) z bytes) {
        key = key;
        compressor = set_encryptor (new_encryptor key) z;
        events = p.events ++ PlayerEvent.login ∷ [];
      }

  abbrev pub handshake_packet : Player C D → Packet
  handshake_packet p =
      server_to_client_handshake
        (crypto.sign_token p.private_key p.client_x509 (crypto.to_base64 salt))

  pub login_received :
      (p : Player C D) (token raw : Text) (i : Identity) (secret buffer bytes : List ℕ)
      (w z : PacketCompressor C D)
      → decompress (calls p.key) buffer p.compressor
        ≡ (some (protocol.serialize (Packet.login token raw) ∷ []), w)
      → Player.identify calls protocol crypto d raw ≡ some i
      → is_empty i.public_key ≡ false
      → crypto.shared_secret p.private_key i.public_key ≡ some secret
      → p.is_disconnected ≡ false
      → compress (calls p.key) (protocol.serialize (handshake_packet p) ∷ []) none w
        ≡ some (bytes, z)
      → Player.on_encapsulated calls protocol crypto d buffer p
        ≡ logged_in p i (crypto.sha256 (salt ++ secret)) z bytes
  unfolding Player.dispatch Player.handle_login Player.shake_hands Player.enable_encryption
  login_received p token raw i secret buffer bytes w z read identified there shared connected e =
      let q = record p { compressor = w } in
      let named = record q { username = i.display_name; xuid = i.xuid } in
      player_reads buffer w (Packet.login token raw) p read
      ∙ (ap (Player.login_as calls protocol crypto d q) identified
          ∙ (if_false _ _ _ there
              ∙ (ap (Player.login_with calls protocol crypto d named) shared
                  ∙ ap (Player.secure calls protocol crypto d (crypto.sha256 (salt ++ secret)))
                      (player_sends _ Priority.high named bytes z connected e))))

  -- The client that has read the handshake, once its listener is gone and its encryption on.
  abbrev pub secured : Client C D → List ℕ → PacketCompressor C D → Client C D
  secured c key w = record c {
    waiting = record c.waiting { handshake = false };
    key = key;
    compressor = set_encryptor (new_encryptor key) w;
  }

  pub handshake_received :
      (c : Client C D) (p : Player C D) (secret buffer bytes : List ℕ) (w z : PacketCompressor C D)
      → c.listening ≡ true
      → c.waiting.handshake ≡ true
      → c.is_disconnected ≡ false
      → decompress (calls c.key) buffer c.compressor
        ≡ (some (protocol.serialize (handshake_packet p) ∷ []), w)
      → crypto.shared_secret c.login_data.private_key p.client_x509 ≡ some secret
      → compress
          (calls (crypto.sha256 (salt ++ secret)))
          (protocol.serialize client_to_server_handshake ∷ [])
          none
          (set_encryptor (new_encryptor (crypto.sha256 (salt ++ secret))) w)
        ≡ some (bytes, z)
      → Client.on_encapsulated calls protocol crypto d buffer c
        ≡ client_after (secured c (crypto.sha256 (salt ++ secret)) w) z bytes
  unfolding Client.dispatch Client.on_server_handshake Client.enable_encryption
  handshake_received c p secret buffer bytes w z listening waiting connected read shared e =
      let salted = crypto.to_base64 salt in
      let token = crypto.sign_token p.private_key p.client_x509 salted in
      let served = record c { compressor = w; waiting = record c.waiting { handshake = false } } in
      client_reads buffer w (handshake_packet p) c listening read
      ∙ (if_true _ _ _ waiting
          ∙ (ap (Client.shake_with calls protocol crypto d served) (
                read_token_signed calls protocol crypto d InStep laws p.private_key p.client_x509
                  salted)
              ∙ (ap (Client.secure_with calls protocol crypto d served salted) shared
                  ∙ (ap
                        (λ s.
                          Client.answer calls protocol crypto d (crypto.sha256 (s ++ secret))
                            served)
                        (laws.from-to_base64 salt)
                      ∙ client_sends _ Priority.medium
                          (secured c (crypto.sha256 (salt ++ secret)) w) bytes z connected e))))

  pub answer_received :
      (p : Player C D) (buffer bytes : List ℕ) (w z : PacketCompressor C D)
      → p.is_disconnected ≡ false
      → decompress (calls p.key) buffer p.compressor
        ≡ (some (protocol.serialize client_to_server_handshake ∷ []), w)
      → compress (calls p.key) (protocol.serialize (play_status login_success) ∷ []) none w
        ≡ some (bytes, z)
      → Player.on_encapsulated calls protocol crypto d buffer p ≡ player_after p z bytes
  unfolding Player.dispatch
  answer_received p buffer bytes w z connected read e =
      player_reads buffer w client_to_server_handshake p read
      ∙ player_sends _ Priority.high (record p { compressor = w }) bytes z connected e

  pub status_received :
      (c : Client C D) (buffer : List ℕ) (w : PacketCompressor C D)
      → c.listening ≡ true
      → decompress (calls c.key) buffer c.compressor
        ≡ (some (protocol.serialize (play_status login_success) ∷ []), w)
      → Client.on_encapsulated calls protocol crypto d buffer c ≡ record c { compressor = w }
  unfolding Client.dispatch
  status_received c buffer w listening read =
      client_reads buffer w (play_status login_success) c listening read

  pub round_lem :
      (c c' : Client C D) (p p' : Player C D)
      → Player.on_encapsulated calls protocol crypto d (last_sent c.sent) p ≡ p'
      → Client.on_encapsulated calls protocol crypto d (last_sent p'.sent) c ≡ c'
      → round calls protocol crypto d (c, p) ≡ (c', p')
  unfolding round
  round_lem c c' p p' e g =
      ap (λ q. (Client.on_encapsulated calls protocol crypto d (last_sent q.sent) c, q)) e
      ∙ ap (λ x. (x, p')) g
