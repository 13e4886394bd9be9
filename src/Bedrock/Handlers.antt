-- ===== src/Bedrock/Handlers.antt =====
-- packages/baltica/src/client/client.ts: what each handler leaves of the end.
use baltica.Base.{
  ℕ, ◌≡◌, refl, sym, ap, ◌∙◌, subst, inl, inr, Bool, true, false, ◌&&◌, Option, none, some, List,
  [], ◌∷◌, ◌++◌, arith,
}
use baltica.Base.Tests.{Bool-cases, if_cases, if_true, if_false}
use baltica.Base.Texts.{Text}
use baltica.Serializer.{Calls, PacketCompressor, decompress}
use baltica.LoginPayload.{Decoding}
use baltica.Bedrock.{
  Packet, Protocol, Crypto, Parsed, network_settings, request_network_settings,
  server_to_client_handshake,
}
use baltica.Bedrock
use baltica.Bedrock.Client.{
  on_network_settings, enable_encryption, read_token, secure_with, shake_with, on_server_handshake,
  on_resource_packs_info, on_resource_pack_stack, on_start_game, on_initialized, on_spawn,
  spawn_with, once, dispatch, handle_parsed, handle_packet, handle_packets, on_opened,
  on_encapsulated,
}
use baltica.Bedrock.ClientState.{Client, ClientEvent}
use baltica.Bedrock.Ending.{
  ends, ends-append, Follows, Follows-same, Follows-trans, Follows-set, on_lost-Follows,
  disconnect_client-Follows, send-Follows, set_and_send,
}
use baltica.Outbound.{Priority}

module _ {C D : Type 0} (calls : List ℕ → Calls C D) (protocol : Protocol) (crypto : Crypto C D)
    (d : Decoding) where
  on_server_handshake-Follows :
      (token : Text) (c : Client C D)
      → Follows c (on_server_handshake calls protocol crypto d token c)
  unfolding on_server_handshake enable_encryption
  on_server_handshake-Follows token c = shaken (read_token calls protocol crypto d token)
    where
      secured :
          (salt : Text) (r : Option (List ℕ))
          → Follows c (secure_with calls protocol crypto d c salt r)
      secured salt none = Follows-same c
      secured salt (some secret) =
          set_and_send calls protocol crypto d _ Priority.medium c _ refl refl refl

      shaken : (r : Option (Text × Text)) → Follows c (shake_with calls protocol crypto d c r)
      shaken none = Follows-same c
      shaken (some (x5u, salt)) = secured salt (crypto.shared_secret c.login_data.private_key x5u)

  on_start_game-Follows :
      (runtime_id : ℕ) (c : Client C D)
      → Follows c (on_start_game calls protocol crypto d runtime_id c)
  unfolding on_start_game
  on_start_game-Follows runtime_id c =
      Follows-trans c _ _
        (set_and_send calls protocol crypto d _ Priority.medium c
          (record c { start_game_data = some runtime_id }) refl refl refl)
        (send-Follows calls protocol crypto d _ Priority.medium _)

  on_initialized-Follows : (c : Client C D) → Follows c (on_initialized calls protocol crypto d c)
  unfolding on_initialized ends
  on_initialized-Follows c = elim (Bool-cases (c.listening && c.waiting.initialized)) [
    | inl e ↦
        subst (Follows c) (sym (if_true _ _ _ e)) (
          Follows-set c _ refl refl (ends-append c.events (ClientEvent.connect ∷ []) ∙ omega arith))
    | inr e ↦ subst (Follows c) (sym (if_false _ _ _ e)) (Follows-same c)
  ]

  on_spawn-Follows : (c : Client C D) → Follows c (on_spawn calls protocol crypto d c)
  unfolding on_spawn ends
  on_spawn-Follows c = spawned c.start_game_data
    where
      reported : ends (c.events ++ ClientEvent.spawn ∷ []) ≡ ends c.events
      reported = ends-append c.events (ClientEvent.spawn ∷ []) ∙ omega arith

      spawned :
          (r : Option ℕ)
          → Follows c (
              spawn_with calls protocol crypto d
                (record c { events = c.events ++ ClientEvent.spawn ∷ [] })
                r)
      spawned none =
          Follows-set c (record c { events = c.events ++ ClientEvent.spawn ∷ [] }) refl refl
            reported
      spawned (some runtime_id) =
          Follows-trans c _ _
            (set_and_send calls protocol crypto d _ Priority.medium c
              (record c { events = c.events ++ ClientEvent.spawn ∷ [] }) refl refl reported)
            (on_initialized-Follows _)

  once-Follows :
      (waits : Bool) (c unlisted served : Client C D)
      → unlisted.is_disconnected ≡ c.is_disconnected
      → unlisted.sent ≡ c.sent
      → unlisted.events ≡ c.events
      → Follows unlisted served
      → Follows c (once calls protocol crypto d waits served c)
  once-Follows true c unlisted served k s e f =
      Follows-trans c unlisted served (Follows-set c unlisted k s (ap ends e)) f
  once-Follows false c unlisted served k s e f = Follows-same c

  dispatch-Follows :
      (content : Packet) (c : Client C D) → Follows c (dispatch calls protocol crypto d content c)
  unfolding dispatch on_network_settings on_resource_packs_info on_resource_pack_stack
  dispatch-Follows (Bedrock.network_settings threshold method) c =
      set_and_send calls protocol crypto d _ Priority.medium c _ refl refl refl
  dispatch-Follows (Bedrock.server_to_client_handshake token) c =
      once-Follows c.waiting.handshake c
        (record c { waiting = record c.waiting { handshake = false } }) _ refl refl refl
        (on_server_handshake-Follows token _)
  dispatch-Follows (Bedrock.resource_packs_info packs) c =
      once-Follows c.waiting.packs_info c
        (record c { waiting = record c.waiting { packs_info = false } }) _ refl refl refl
        (send-Follows calls protocol crypto d _ Priority.medium _)
  dispatch-Follows Bedrock.resource_pack_stack c =
      once-Follows c.waiting.pack_stack c
        (record c { waiting = record c.waiting { pack_stack = false } }) _ refl refl refl
        (send-Follows calls protocol crypto d _ Priority.medium _)
  dispatch-Follows (Bedrock.start_game runtime_id) c =
      once-Follows c.waiting.start_game c
        (record c { waiting = record c.waiting { start_game = false } }) _ refl refl refl
        (on_start_game-Follows runtime_id _)
  dispatch-Follows (Bedrock.play_status Bedrock.player_spawn) c =
      if_cases (Follows c) c.stop_past_login (Follows-same c) (on_spawn-Follows c)
  dispatch-Follows (Bedrock.disconnect message) c = on_lost-Follows message c
  dispatch-Follows (Bedrock.set_local_player_as_initialized runtime_id) c = on_initialized-Follows c
  dispatch-Follows (Bedrock.play_status Bedrock.login_success) c = Follows-same c
  dispatch-Follows (Bedrock.play_status Bedrock.other_status) c = Follows-same c
  dispatch-Follows (Bedrock.request_network_settings n) c = Follows-same c
  dispatch-Follows (Bedrock.login t u) c = Follows-same c
  dispatch-Follows Bedrock.client_to_server_handshake c = Follows-same c
  dispatch-Follows (Bedrock.resource_pack_client_response ps r) c = Follows-same c
  dispatch-Follows (Bedrock.client_cache_status b) c = Follows-same c
  dispatch-Follows (Bedrock.request_chunk_radius m n) c = Follows-same c
  dispatch-Follows (Bedrock.loading_screen l) c = Follows-same c
  dispatch-Follows (Bedrock.other_packet n) c = Follows-same c

  handle_packets-Follows :
      (buffers : List (List ℕ)) (c : Client C D)
      → Follows c (handle_packets calls protocol crypto d buffers c)
  unfolding handle_packets handle_packet
  handle_packets-Follows [] c = Follows-same c
  handle_packets-Follows (buffer ∷ buffers) c =
      Follows-trans c (handle_packet calls protocol crypto d buffer c) _ (handled buffer)
        (handle_packets-Follows buffers _)
    where
      parsed : (content : Parsed) → Follows c (handle_parsed calls protocol crypto d c content)
      parsed Bedrock.unknown = Follows-same c
      parsed Bedrock.malformed = Follows-same c
      parsed (Bedrock.packet content) = dispatch-Follows content c

      handled : (bytes : List ℕ) → Follows c (handle_packet calls protocol crypto d bytes c)
      handled [] = Follows-same c
      handled (b ∷ bytes) =
          if_cases (Follows c) c.listening (parsed (protocol.deserialize (b ∷ bytes)))
            (Follows-same c)

  pub on_encapsulated-Follows :
      (buffer : List ℕ) (c : Client C D)
      → Follows c (on_encapsulated calls protocol crypto d buffer c)
  unfolding on_encapsulated
  on_encapsulated-Follows buffer c = opened (decompress (calls c.key) buffer c.compressor)
    where
      with_compressor : (z : PacketCompressor C D) → Follows c (record c { compressor = z })
      with_compressor z = Follows-set c _ refl refl refl

      opened :
          (r : Option (List (List ℕ)) × PacketCompressor C D)
          → Follows c (on_opened calls protocol crypto d buffer c r)
      opened (some buffers, z) =
          Follows-trans c _ _ (with_compressor z) (handle_packets-Follows buffers _)
      opened (none, z) =
          if_cases (Follows c) _
            (Follows-trans c _ _ (with_compressor z) (disconnect_client-Follows _ _))
            (with_compressor z)
