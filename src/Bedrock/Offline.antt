-- ===== src/Bedrock/Offline.antt =====
-- packages/baltica/src/client/client.ts: what `authenticateOffline` makes is enough for the handshake,
-- and what `authenticateOnline` asks for is not refused.
use baltica.Base.{
  ℕ, ◌≡◌, refl, ap, ◌∙◌, true, false, Option, none, some, List, [], ◌∷◌, ◌++◌, arith,
}
use baltica.Base.Tests.{if_false}
use baltica.Base.Texts.{Text, codes, is_empty, with_default}
use baltica.Address.{split}
use baltica.Server.{same_text}
use baltica.Frame.{◌>>=◌}
use baltica.Json.{Fields, end, assign, get, text_field}
use baltica.Serializer.{Calls}
use baltica.Auth.Cache.{refusal}
use baltica.LoginPayload.{Decoding, decode_jwt_payload}
use baltica.Bedrock.{Protocol, Crypto}
use baltica.Bedrock.LoginData.{
  next_uuid, create_default_payload, prepare, create_offline_token, create_client_chain,
  create_client_user_chain, offline_payload,
}
use baltica.Bedrock.LoginOptions.{Profile, ClientOptions, KeyPair, Chance, Making, LoginData}
use baltica.Bedrock.Authentication.{authenticate_offline, auth_options}
use baltica.Bedrock.ClientState.{Client}
use baltica.Bedrock.Identity.{Player, salt}
use baltica.Bedrock.Handshake.{Laws, Starting, handshake}
use baltica.Bedrock.Completion.{HandshakeDone, handshake-Encrypted}

-- A token that can be read is not empty.
decoded_nonempty :
    (d : Decoding) (t : Text) (fs : Fields) → decode_jwt_payload d t ≡ some fs → is_empty t ≡ false
unfolding decode_jwt_payload split
decoded_nonempty d [] fs e = cc
decoded_nonempty d (c ∷ t) fs e = refl

-- The options that `authenticateOnline` gives are not refused by `login`.
pub auth_options-accepted :
    (client_id : Text) (o : ClientOptions) (l : LoginData)
    → is_empty client_id ≡ false
    → refusal (auth_options client_id o l) ≡ none
unfolding refusal auth_options
auth_options-accepted client_id o l there = if_false _ _ _ there ∙ ground arith

-- Login data with a token of the client's own, for its key.
record Own (d : Decoding) (keys : KeyPair) (l : LoginData) : Type 0 where
  private_key : l.private_key ≡ keys.private_key
  no_access : l.access_token ≡ []
  payload : Fields
  decodes : decode_jwt_payload d l.client_identity_chain ≡ some payload
  has_key : text_field (codes "identityPublicKey") payload ≡ some keys.client_x509

bind_some :
    {A B : Type 0} (k : A → B) (o : Option A)
    → (a : A) × (o ≡ some a)
    → (b : B) × ((o >>= λ a. some (k a)) ≡ some b)
bind_some k o (a, e) = (k a, ap (λ o'. o' >>= λ a. some (k a)) e)

module _ (making : Making) (d : Decoding)
    (decode-sign : (key x5u : Text) (fs : Fields)
      → decode_jwt_payload d (making.sign key x5u fs) ≡ some fs) where
  uuid_there :
      (name : Text) → is_empty name ≡ false → (uuid : Text) × (next_uuid making name ≡ some uuid)
  unfolding next_uuid
  uuid_there name named = (_, if_false _ _ _ named)

  payload_there :
      (o : ClientOptions) (chance : Chance) (profile : Profile)
      → is_empty profile.name ≡ false
      → (payload : Fields) × (create_default_payload making o chance profile ≡ some payload)
  unfolding create_default_payload
  payload_there o chance profile named =
      bind_some _ (next_uuid making profile.name) (uuid_there profile.name named)

  token_there :
      (now : ℕ) (profile : Profile) (l : LoginData)
      → is_empty profile.name ≡ false
      → (token : Text) × (create_offline_token making now profile l ≡ some token)
  unfolding create_offline_token
  token_there now profile l named =
      bind_some _ (next_uuid making profile.name) (uuid_there profile.name named)

  user_chain_there :
      (now : ℕ) (key : Text) (profile : Profile) (o : ClientOptions) (l : LoginData)
      → is_empty profile.name ≡ false
      → (chain : Text) × (create_client_user_chain making now key profile o l ≡ some chain)
  unfolding create_client_user_chain
  user_chain_there now key profile o l named =
      bind_some _ (next_uuid making profile.name) (uuid_there profile.name named)

  authenticate_offline-Own :
      (now : ℕ) (chance : Chance) (keys : KeyPair) (o : ClientOptions)
      → is_empty o.username ≡ false
      → (profile : Profile) × (l : LoginData) × (authenticate_offline making now chance keys o
          ≡ some (profile, l))
        × Own d keys l
  unfolding authenticate_offline prepare create_client_chain get same_text
  authenticate_offline-Own now chance keys o named =
      let (uuid, e) = uuid_there o.username named in
      let profile : Profile = record { name = o.username; uuid = uuid; xuid = [] } in
      let (payload, f) = payload_there o chance profile named in
      let prepared : LoginData = record {
        private_key = keys.private_key;
        client_x509 = keys.client_x509;
        client_identity_chain = [];
        client_user_chain = [];
        session_token_data = none;
        access_token = [];
        login_token = [];
        payload = assign payload (with_default o.skin_data end);
      } in
      let chained : LoginData = record prepared {
        client_identity_chain = create_client_chain making now chance profile none true prepared;
      } in
      let (token, g) = token_there now profile chained named in
      let signed : LoginData = record chained { login_token = token } in
      let (user_chain, h) = user_chain_there now keys.private_key profile o signed named in
      (
        profile,
        record signed { client_user_chain = user_chain },
        rw (authenticate_offline, e, f, g, h) refl,
        record {
          private_key = refl;
          no_access = refl;
          payload = offline_payload making now chance profile prepared;
          decodes =
              decode-sign keys.private_key keys.client_x509
                (offline_payload making now chance profile prepared);
          has_key = refl;
        },
      )

module _ {C D : Type 0} (calls : List ℕ → Calls C D) (protocol : Protocol) (crypto : Crypto C D)
    (d : Decoding) (InStep : C → D → Type 0) (laws : Laws calls protocol crypto d InStep)
    (making : Making)
    (decode-sign : (key x5u : Text) (fs : Fields)
      → decode_jwt_payload d (making.sign key x5u fs) ≡ some fs) where
  abbrev pub with_data : Client C D → LoginData → Client C D
  with_data c l = record c { login_data = l }

  -- An offline client with a name authenticates, and with what that gives it the handshake with a new
  -- player runs to its end, if the key exchange gives both sides the same secret.
  pub offline_handshake-Encrypted :
      (now : ℕ) (chance : Chance) (keys : KeyPair) (o : ClientOptions) (c : Client C D)
      (p : Player C D) (secret : List ℕ)
      → is_empty o.username ≡ false
      → Starting calls protocol crypto d c p
      → is_empty keys.client_x509 ≡ false
      → crypto.shared_secret p.private_key keys.client_x509 ≡ some secret
      → crypto.shared_secret keys.private_key p.client_x509 ≡ some secret
      → (profile : Profile) × (l : LoginData) × (authenticate_offline making now chance keys o
          ≡ some (profile, l))
        × HandshakeDone calls protocol crypto d InStep laws
            (crypto.sha256 (salt ++ secret))
            p
            (handshake calls protocol crypto d (with_data c l) p)
  offline_handshake-Encrypted now chance keys o c p secret named starting has_key theirs ours =
      let (profile, l, made, own) =
        authenticate_offline-Own making d decode-sign now chance keys o named in
      (
        profile,
        l,
        made,
        handshake-Encrypted calls protocol crypto d InStep laws (with_data c l) p secret
            keys.client_x509
            (record {
              starting = record {
                client_connected = starting.client_connected;
                player_connected = starting.player_connected;
                listening = starting.listening;
                waiting = starting.waiting;
                no_keys = starting.no_keys;
                client_plain = starting.client_plain;
                player_plain = starting.player_plain;
                supported = starting.supported;
              };
              own_chain = own.no_access;
              has_chain = decoded_nonempty d l.client_identity_chain own.payload own.decodes;
              payload = own.payload;
              is_payload = own.decodes;
              has_key = own.has_key;
              key_there = has_key;
              player_secret = theirs;
              client_secret = ap (λ k. crypto.shared_secret k p.client_x509) own.private_key ∙ ours;
            }),
      )
