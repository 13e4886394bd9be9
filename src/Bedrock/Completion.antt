-- ===== src/Bedrock/Completion.antt =====
-- packages/baltica/src/client/client.ts and server/player.ts: the handshake runs to its end.
use baltica.Base.{
  ℕ, ◌≡◌, refl, sym, ap, subst, ◌∙◌, inl, inr, false, none, some, List, [], ◌∷◌, ◌++◌,
}
use baltica.Base.Texts.{Text, is_empty}
use baltica.Serializer.{Calls, PacketCompressor, set_encryptor, decompress}
use baltica.Serializer.Duplex.{Duplex, Duplex-swap, Sent, send_duplex}
use baltica.LoginPayload.{Decoding}
use baltica.Bedrock.{
  Packet, login_success, network_settings, request_network_settings, client_to_server_handshake,
  play_status, Protocol, Crypto,
}
use baltica.Bedrock.Client
use baltica.Bedrock.Client.{request_settings, create_login_packet}
use baltica.Bedrock.ClientState.{Client, current_protocol}
use baltica.Bedrock.Player
use baltica.Bedrock.Identity.{Player, PlayerEvent, salt}
use baltica.Bedrock.Handshake.{
  last_sent, last_sent-append, round, handshake, Laws, Fresh, Login, client_login,
}
use baltica.Bedrock.Steps.{
  player_after, client_after, with_settings, framed, new_encryptor, new_encryptor-Paired, logged_in,
  handshake_packet, secured, settings_requested, settings_received, login_received,
  handshake_received, answer_received, status_received, round_lem,
}
use baltica.Outbound.{Priority}

module _ {C D : Type 0} (calls : List ℕ → Calls C D) (protocol : Protocol) (crypto : Crypto C D)
    (d : Decoding) (InStep : C → D → Type 0) (laws : Laws calls protocol crypto d InStep) where
  -- Both sides encrypt with the key, in step both ways.
  pub record Encrypted (key : List ℕ) (c : Client C D) (p : Player C D) : Type 0 where
    pub client_key : c.key ≡ key
    pub player_key : p.key ≡ key
    pub in_step : Duplex (calls key) InStep (laws.calls_laws key) c.compressor p.compressor

  abbrev pub HandshakeDone : List ℕ → Player C D → Client C D × Player C D → Type 0
  HandshakeDone key before (c, p) =
      Encrypted key c p
      × (p.events ≡ before.events ++ PlayerEvent.login ∷ [])
      × (c.is_disconnected ≡ false)
      × (p.is_disconnected ≡ false)

  module _ (c : Client C D) (p : Player C D) (secret : List ℕ) (x5u : Text)
      (f : Fresh calls protocol crypto d c p secret x5u) where
    abbrev shared_key : List ℕ
    shared_key = crypto.sha256 (salt ++ secret)

    abbrev packet_bytes : Packet → List (List ℕ)
    packet_bytes content = protocol.serialize content ∷ []

    -- The client that has asked, and the player that has answered it.
    abbrev asking : Client C D
    asking = request_settings calls protocol crypto d c

    abbrev answering : Player C D
    answering =
        player_after calls protocol crypto d InStep laws p
          (with_settings calls protocol crypto d InStep laws p.threshold p.method p.compressor)
          (framed calls protocol crypto d InStep laws p.key (network_settings p.threshold p.method))

    abbrev client_settings : PacketCompressor C D
    client_settings =
        with_settings calls protocol crypto d InStep laws p.threshold p.method c.compressor

    fits : Login calls protocol crypto d c x5u
    fits = client_login calls protocol crypto d InStep laws c p secret x5u f

    login_sent :
        Sent
          (calls c.key)
          InStep
          (laws.calls_laws c.key)
          (packet_bytes (create_login_packet calls protocol crypto d c))
          none
          client_settings
          answering.compressor
    login_sent =
        send_duplex (calls c.key) InStep (laws.calls_laws c.key) _ none p.method client_settings
          answering.compressor refl f.starting.supported
          (inl (f.starting.client_plain, f.starting.player_plain))

    abbrev logging_in : Client C D
    logging_in =
        client_after calls protocol crypto d InStep laws asking login_sent.sender login_sent.bytes

    first_round : round calls protocol crypto d (asking, p) ≡ (logging_in, answering)
    unfolding request_settings Client.send_uncompressed create_login_packet
    first_round =
        round_lem calls protocol crypto d InStep laws asking logging_in p answering
          (ap (λ b. Player.on_encapsulated calls protocol crypto d b p)
              (last_sent-append c.sent _ _
                ∙ ap
                    (λ k.
                      framed calls protocol crypto d InStep laws k
                        (request_network_settings current_protocol))
                    f.starting.no_keys)
            ∙ settings_requested calls protocol crypto d InStep laws p current_protocol
                f.starting.player_plain)
          (ap (λ b. Client.on_encapsulated calls protocol crypto d b asking)
              (last_sent-append p.sent _ _
                ∙ ap
                    (λ k.
                      framed calls protocol crypto d InStep laws k
                        (network_settings p.threshold p.method))
                    (sym f.starting.no_keys))
            ∙ settings_received calls protocol crypto d InStep laws asking p.threshold p.method
                login_sent.sender login_sent.bytes f.starting.client_plain f.starting.listening
                f.starting.client_connected login_sent.compresses)

    login_read : decompress (calls p.key) login_sent.bytes answering.compressor ≡ (
      some (packet_bytes (Packet.login fits.client_token fits.identity_raw)),
      login_sent.receiver,
    )
    login_read =
        subst
          (λ k. decompress (calls k) login_sent.bytes answering.compressor ≡ (
            some (packet_bytes (Packet.login fits.client_token fits.identity_raw)),
            login_sent.receiver,
          ))
          f.starting.no_keys
          (login_sent.decompresses
            ∙ ap (λ q. (some (packet_bytes q), login_sent.receiver)) fits.is_login)

    token_sent :
        Sent
          (calls p.key)
          InStep
          (laws.calls_laws p.key)
          (packet_bytes (handshake_packet calls protocol crypto d InStep laws p))
          none
          login_sent.receiver
          login_sent.sender
    token_sent =
        send_duplex (calls p.key) InStep (laws.calls_laws p.key) _ none p.method login_sent.receiver
          login_sent.sender login_sent.receiver_method f.starting.supported
          (subst
            (λ k. Duplex (calls k) InStep (laws.calls_laws k) login_sent.receiver login_sent.sender)
            f.starting.no_keys
            (Duplex-swap (calls c.key) InStep (laws.calls_laws c.key) login_sent.sender
              login_sent.receiver login_sent.still_duplex))

    abbrev welcoming : Player C D
    welcoming =
        logged_in calls protocol crypto d InStep laws answering fits.identity shared_key
          token_sent.sender token_sent.bytes

    welcomed :
        Player.on_encapsulated calls protocol crypto d (last_sent logging_in.sent) answering
        ≡ welcoming
    unfolding request_settings Client.send_uncompressed
    welcomed =
        ap (λ b. Player.on_encapsulated calls protocol crypto d b answering)
          (last_sent-append asking.sent login_sent.bytes Priority.medium)
        ∙ login_received calls protocol crypto d InStep laws answering fits.client_token
            fits.identity_raw fits.identity secret login_sent.bytes token_sent.bytes
            login_sent.receiver token_sent.sender login_read fits.identified
            (ap is_empty fits.same_key ∙ f.key_there)
            (ap (crypto.shared_secret p.private_key) fits.same_key ∙ f.player_secret)
            f.starting.player_connected token_sent.compresses

    -- Both have the key: from here on they are encrypted.
    answer_sent :
        Sent
          (calls shared_key)
          InStep
          (laws.calls_laws shared_key)
          (packet_bytes client_to_server_handshake)
          none
          (set_encryptor
            (new_encryptor calls protocol crypto d InStep laws shared_key)
            token_sent.receiver)
          (set_encryptor
            (new_encryptor calls protocol crypto d InStep laws shared_key)
            token_sent.sender)
    answer_sent =
        let e = new_encryptor calls protocol crypto d InStep laws shared_key in
        let fit = new_encryptor-Paired calls protocol crypto d InStep laws shared_key in
        send_duplex (calls shared_key) InStep (laws.calls_laws shared_key) _ none p.method
          (set_encryptor e token_sent.receiver) (set_encryptor e token_sent.sender)
          (token_sent.receiver_method ∙ login_sent.sender_method) f.starting.supported
          (inr (e, e, refl, refl, fit, fit))

    abbrev secure_client : Client C D
    secure_client =
        client_after calls protocol crypto d InStep laws
          (secured calls protocol crypto d InStep laws logging_in shared_key token_sent.receiver)
          answer_sent.sender answer_sent.bytes

    second_round :
        round calls protocol crypto d (logging_in, answering) ≡ (secure_client, welcoming)
    unfolding request_settings Client.send_uncompressed
    second_round =
        round_lem calls protocol crypto d InStep laws logging_in secure_client answering welcoming
          welcomed
          (ap (λ b. Client.on_encapsulated calls protocol crypto d b logging_in)
              (last_sent-append answering.sent token_sent.bytes Priority.high)
            ∙ handshake_received calls protocol crypto d InStep laws logging_in p secret
                token_sent.bytes answer_sent.bytes token_sent.receiver answer_sent.sender
                f.starting.listening f.starting.waiting f.starting.client_connected
                (subst
                  (λ k. decompress (calls k) token_sent.bytes login_sent.sender ≡ (
                    some (packet_bytes (handshake_packet calls protocol crypto d InStep laws p)),
                    token_sent.receiver,
                  ))
                  (sym f.starting.no_keys) token_sent.decompresses)
                f.client_secret answer_sent.compresses)

    status_sent :
        Sent
          (calls shared_key)
          InStep
          (laws.calls_laws shared_key)
          (packet_bytes (play_status login_success))
          none
          answer_sent.receiver
          answer_sent.sender
    status_sent =
        send_duplex (calls shared_key) InStep (laws.calls_laws shared_key) _ none p.method
          answer_sent.receiver answer_sent.sender
          (answer_sent.receiver_method ∙ (token_sent.sender_method ∙ login_sent.receiver_method))
          f.starting.supported
          (Duplex-swap (calls shared_key) InStep (laws.calls_laws shared_key) answer_sent.sender
            answer_sent.receiver answer_sent.still_duplex)

    abbrev secure_player : Player C D
    secure_player =
        player_after calls protocol crypto d InStep laws welcoming status_sent.sender
          status_sent.bytes

    abbrev logged_in_client : Client C D
    logged_in_client = record secure_client { compressor = status_sent.receiver }

    third_round :
        round calls protocol crypto d (secure_client, welcoming) ≡ (logged_in_client, secure_player)
    unfolding request_settings Client.send_uncompressed
    third_round =
        round_lem calls protocol crypto d InStep laws secure_client logged_in_client welcoming
          secure_player
          (ap (λ b. Player.on_encapsulated calls protocol crypto d b welcoming)
              (last_sent-append logging_in.sent answer_sent.bytes Priority.medium)
            ∙ answer_received calls protocol crypto d InStep laws welcoming answer_sent.bytes
                status_sent.bytes answer_sent.receiver status_sent.sender
                f.starting.player_connected answer_sent.decompresses status_sent.compresses)
          (ap (λ b. Client.on_encapsulated calls protocol crypto d b secure_client)
              (last_sent-append welcoming.sent status_sent.bytes Priority.high)
            ∙ status_received calls protocol crypto d InStep laws secure_client status_sent.bytes
                status_sent.receiver f.starting.listening status_sent.decompresses)

    reached : HandshakeDone shared_key p (logged_in_client, secure_player)
    unfolding request_settings Client.send_uncompressed
    reached = (
      record {
        client_key = refl;
        player_key = refl;
        in_step =
            Duplex-swap (calls shared_key) InStep (laws.calls_laws shared_key) status_sent.sender
              status_sent.receiver status_sent.still_duplex;
      },
      refl,
      f.starting.client_connected,
      f.starting.player_connected,
    )

  -- Between a client and a player that have just been made and whose keys fit, the handshake runs to
  -- its end: the player reports the login, nobody is disconnected, and both encrypt with the hash of
  -- the salt and their secret, in step both ways.
  pub handshake-Encrypted :
      (c : Client C D) (p : Player C D) (secret : List ℕ) (x5u : Text)
      → Fresh calls protocol crypto d c p secret x5u
      → HandshakeDone (crypto.sha256 (salt ++ secret)) p (handshake calls protocol crypto d c p)
  unfolding handshake
  handshake-Encrypted c p secret x5u f =
      let next = round calls protocol crypto d in
      subst (HandshakeDone (crypto.sha256 (salt ++ secret)) p)
        (sym (
          ap (λ x. next (next x)) (first_round c p secret x5u f)
          ∙ (ap next (second_round c p secret x5u f) ∙ third_round c p secret x5u f)))
        (reached c p secret x5u f)
