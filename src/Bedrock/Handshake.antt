-- ===== src/Bedrock/Handshake.antt =====
-- packages/baltica/src/client/client.ts and server/player.ts: a client and a player of a server that
-- log in to each other, from the request for the settings to the first encrypted packets.
use baltica.Base.{ℕ, ◌≡◌, refl, true, false, none, some, List, [], ◌∷◌, ◌++◌}
use baltica.Base.Texts.{Text, codes, is_empty}
use baltica.Address.{split}
use baltica.Server.{same_text}
use baltica.Serializer.{CompressionMethod, Calls, get_method}
use baltica.Serializer.RoundTrip.{CallsLaws, is_supported}
use baltica.Json.{Json, Fields, get, text_field, items}
use baltica.LoginPayload.{Decoding, decode_jwt_payload}
use baltica.Bedrock.Identity.{Identity}
use baltica.Bedrock.{Packet, network_settings, request_network_settings, packet, Protocol, Crypto}
use baltica.Bedrock.Client
use baltica.Bedrock.Client.{
  request_settings, create_login_packet, read_token, identity_fields, certificate_fields,
}
use baltica.Bedrock.ClientState.{Client, non_empty}
use baltica.Bedrock.Player
use baltica.Bedrock.Player.{identify, chain_of}
use baltica.Bedrock.Identity.{Player, from_chain, from_token, from_extra, no_identity}
use baltica.Outbound.{Priority}

-- The buffer that was sent last.
abbrev pub last_sent : List (List ℕ × Priority) → List ℕ
last_sent [] = []
last_sent ((bytes, priority) ∷ []) = bytes
last_sent (one ∷ next ∷ sent) = last_sent (next ∷ sent)

pub last_sent-append :
    (sent : List (List ℕ × Priority)) (bytes : List ℕ) (priority : Priority)
    → last_sent (sent ++ (bytes, priority) ∷ []) ≡ bytes
last_sent-append [] bytes priority = refl
last_sent-append (one ∷ []) bytes priority = refl
last_sent-append (one ∷ next ∷ sent) bytes priority = last_sent-append (next ∷ sent) bytes priority

module _ {C D : Type 0} (calls : List ℕ → Calls C D) (protocol : Protocol) (crypto : Crypto C D)
    (d : Decoding) where
  -- The player handles what the client has sent last, and the client what the player has.
  unfoldable pub round : Client C D × Player C D → Client C D × Player C D
  round (c, p) =
      let p' = Player.on_encapsulated calls protocol crypto d (last_sent c.sent) p in
      (Client.on_encapsulated calls protocol crypto d (last_sent p'.sent) c, p')

  -- The client's request for the settings, and three rounds.
  unfoldable pub handshake : Client C D → Player C D → Client C D × Player C D
  handshake c p = round (round (round (request_settings calls protocol crypto d c, p)))

  -- What both sides rely on, for every key.
  pub record Laws (InStep : C → D → Type 0) : Type 0 where
    pub calls_laws : (key : List ℕ) → CallsLaws (calls key) InStep
    pub in_step :
        (key iv : List ℕ) → InStep (crypto.make_cipher key iv) (crypto.make_decipher key iv)
    pub deserialize-serialize :
        (p : Packet) → protocol.deserialize (protocol.serialize p) ≡ packet p
    -- A packet has an id, and a frame of one of the two plain ones does not begin like a method.
    pub serialize-cons :
        (p : Packet) → (b : ℕ) × (bytes : List ℕ) × (protocol.serialize p ≡ b ∷ bytes)
    pub plain_request :
        (key : List ℕ) (version : ℕ)
        → get_method
            (calls key)
            ((calls key).frame (protocol.serialize (request_network_settings version) ∷ []))
          ≡ CompressionMethod.not_present
    pub plain_settings :
        (key : List ℕ) (threshold : ℕ) (m : CompressionMethod)
        → get_method
            (calls key)
            ((calls key).frame (protocol.serialize (network_settings threshold m) ∷ []))
          ≡ CompressionMethod.not_present
    pub from-to_base64 : (bytes : List ℕ) → crypto.from_base64 (crypto.to_base64 bytes) ≡ bytes
    pub parse-stringify :
        (fields : Fields) → crypto.parse (crypto.stringify fields) ≡ some (Json.object fields)
    -- A signed token has three parts, with `x5u` in the first and the salt in the second.
    pub token_parts :
        (key x5u salted : Text)
        → (header : Text) × (payload : Text) × (signature : Text) × (head : Fields)
          × (body : Fields) × (split 46 (crypto.sign_token key x5u salted)
              ≡ header ∷ payload ∷ signature ∷ [])
          × (d.base64_json header ≡ some head)
          × (d.base64_json payload ≡ some body)
          × (text_field (codes "x5u") head ≡ some x5u)
          × (text_field (codes "salt") body ≡ some salted)

  -- A client and a player that have just been made.
  pub record Starting (c : Client C D) (p : Player C D) : Type 0 where
    pub client_connected : c.is_disconnected ≡ false
    pub player_connected : p.is_disconnected ≡ false
    pub listening : c.listening ≡ true
    pub waiting : c.waiting.handshake ≡ true
    pub no_keys : c.key ≡ p.key
    pub client_plain : c.compressor.encryptor ≡ none
    pub player_plain : p.compressor.encryptor ≡ none
    pub supported : is_supported p.method ≡ true

  -- And whose keys fit.
  pub record Fresh (c : Client C D) (p : Player C D) (secret : List ℕ) (x5u : Text) : Type 0 where
    pub starting : Starting c p
    -- The client's own token is its whole chain, and has its public key.
    pub own_chain : c.login_data.access_token ≡ []
    pub has_chain : is_empty c.login_data.client_identity_chain ≡ false
    pub payload : Fields
    pub is_payload : decode_jwt_payload d c.login_data.client_identity_chain ≡ some payload
    pub has_key : text_field (codes "identityPublicKey") payload ≡ some x5u
    pub key_there : is_empty x5u ≡ false
    -- The secret is the same from both sides.
    pub player_secret : crypto.shared_secret p.private_key x5u ≡ some secret
    pub client_secret : crypto.shared_secret c.login_data.private_key p.client_x509 ≡ some secret

  -- What the player finds in the client's login: the client's public key.
  pub record Login (c : Client C D) (x5u : Text) : Type 0 where
    pub client_token : Text
    pub identity_raw : Text
    pub is_login :
        create_login_packet calls protocol crypto d c ≡ Packet.login client_token identity_raw
    pub identity : Identity
    pub identified : identify calls protocol crypto d identity_raw ≡ some identity
    pub same_key : identity.public_key ≡ x5u

  module _ (InStep : C → D → Type 0) (laws : Laws InStep) where
    pub read_token_signed :
        (key x5u salted : Text)
        → read_token calls protocol crypto d (crypto.sign_token key x5u salted) ≡ some (x5u, salted)
    unfolding read_token
    read_token_signed key x5u salted =
        let (header, payload, signature, head, body, parts, is_head, is_body, x, s) =
          laws.token_parts key x5u salted in
        rw (read_token, parts, is_head, is_body, x, s) refl

    chain_of_login :
        (c : Client C D)
        → c.login_data.access_token ≡ []
        → is_empty c.login_data.client_identity_chain ≡ false
        → chain_of calls protocol crypto d (identity_fields calls protocol crypto d c)
          ≡ some (Json.text c.login_data.client_identity_chain ∷ [])
    unfolding chain_of get same_text non_empty items
    chain_of_login c alone there =
        rw
          (
            chain_of,
            laws.parse-stringify (certificate_fields calls protocol crypto d c),
            alone,
            there,
          )
          refl

    from_chain_login :
        (jwt : Text) (payload : Fields) (x5u : Text)
        → decode_jwt_payload d jwt ≡ some payload
        → text_field (codes "identityPublicKey") payload ≡ some x5u
        → from_chain d (Json.text jwt ∷ []) no_identity
          ≡ record (from_extra (get (codes "extraData") payload) no_identity) { public_key = x5u }
    unfolding from_chain from_token
    from_chain_login jwt payload x5u is_payload has_key =
        rw (is_payload, from_chain, from_token, has_key) refl

    identify_login :
        (c : Client C D) (payload : Fields) (x5u : Text)
        → c.login_data.access_token ≡ []
        → is_empty c.login_data.client_identity_chain ≡ false
        → decode_jwt_payload d c.login_data.client_identity_chain ≡ some payload
        → text_field (codes "identityPublicKey") payload ≡ some x5u
        → is_empty x5u ≡ false
        → (i : Identity) × (identify calls protocol crypto d
              (crypto.stringify (identity_fields calls protocol crypto d c))
            ≡ some i)
          × (i.public_key ≡ x5u)
    unfolding identify
    identify_login c payload x5u alone there is_payload has_key nonempty = (
      record (from_extra (get (codes "extraData") payload) no_identity) { public_key = x5u },
      rw
          (
            identify,
            laws.parse-stringify (identity_fields calls protocol crypto d c),
            chain_of_login c alone there,
            from_chain_login c.login_data.client_identity_chain payload x5u is_payload has_key,
            nonempty,
          )
          refl,
      refl,
    )

    pub client_login :
        (c : Client C D) (p : Player C D) (secret : List ℕ) (x5u : Text)
        → Fresh c p secret x5u
        → Login c x5u
    unfolding create_login_packet
    client_login c p secret x5u f =
        let (i, identified, same) =
          identify_login c f.payload x5u f.own_chain f.has_chain f.is_payload f.has_key
            f.key_there in
        record {
          client_token = c.login_data.client_user_chain;
          identity_raw = crypto.stringify (identity_fields calls protocol crypto d c);
          is_login = refl;
          identity = i;
          identified = identified;
          same_key = same;
        }
