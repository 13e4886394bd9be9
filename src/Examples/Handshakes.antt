-- ===== src/Examples/Handshakes.antt =====
-- A handshake of packages/baltica on small inputs: keys that add up, and ciphers that add the key.
use baltica.Base.{
  ℕ, ◌+◌, ◌≡◌, ◌≢◌, refl, ap, ◌∙◌, true, false, Option, none, some, List, [], ◌∷◌, ◌++◌, arith,
}
use baltica.Base.Lists.{All}
use baltica.Base.Texts.{Text, codes}
use baltica.Address.{split, join}
use baltica.Address.Texts.{split-join}
use baltica.Server.{same_text}
use baltica.Json.{Json, Fields, end, field, get}
use baltica.LoginPayload.{Decoding, decode_jwt_payload}
use baltica.Serializer.{CompressionMethod, Calls, PacketCompressor}
use baltica.Bedrock.ClientState
use baltica.Bedrock.{Parsed, malformed, Protocol, Crypto}
use baltica.Bedrock.LoginOptions.{Making, ClientOptions, Chance, KeyPair, Profile, LoginData}
use baltica.Bedrock.Authentication.{authenticate_offline}
use baltica.Bedrock.Offline.{with_data, offline_handshake-Encrypted}
use baltica.Outbound.{Priority}
use baltica.Bedrock.Once
use baltica.Bedrock.ClientState.{Client}
use baltica.Bedrock.Identity.{Player, salt}
use baltica.Bedrock.Handshake.{Laws, Starting, Fresh, handshake}
use baltica.Bedrock.Completion.{HandshakeDone, handshake-Encrypted}
use baltica.Examples.Codec.{
  write_json, read_packet, write, parse, stringify, parse-stringify, read_packet-write,
}
use baltica.Examples.Serializers.{
  sample_calls, sample_calls-CallsLaws, unshift, shift, unshift-shift,
}

abbrev after_id : List ℕ → Parsed
after_id [] = malformed
after_id (id ∷ bytes) = read_packet bytes

-- Every packet has the id 1.
abbrev protocol : Protocol
protocol = record { serialize = λ p. 1 ∷ write p; deserialize = after_id }

-- A part of a token: the numbers of an object, past the dot.
abbrev part : Fields → Text
part fs = 47 ∷ shift 47 (stringify fs)

abbrev object_in : Option Json → Option Fields
object_in (some (Json.object fs)) = some fs
object_in _ = none

abbrev part_back : Text → Option Fields
part_back [] = none
part_back (c ∷ t) = object_in (parse (unshift 47 t))

part_back-part : (fs : Fields) → part_back (part fs) ≡ some fs
part_back-part fs =
    ap (λ t. object_in (parse t)) (unshift-shift 47 (stringify fs))
    ∙ ap object_in (parse-stringify fs)

shift-IsPart : (t : Text) → All (λ c. c ≢ 46) (shift 47 t)
shift-IsPart [] = tt
shift-IsPart (c ∷ t) = (ground arith, shift-IsPart t)

part-IsPart : (fs : Fields) → All (λ c. c ≢ 46) (part fs)
part-IsPart fs = (ground arith, shift-IsPart (stringify fs))

abbrev token_of : Fields → Fields → Text
token_of head body = join 46 (part head ∷ part body ∷ (1 ∷ []) ∷ [])

split-token_of :
    (head body : Fields) → split 46 (token_of head body) ≡ part head ∷ part body ∷ (1 ∷ []) ∷ []
split-token_of head body =
    split-join 46 (part head) (part body ∷ (1 ∷ []) ∷ []) (part-IsPart head)
      (part-IsPart body, ((ground arith, tt), tt))

abbrev add : List ℕ → List ℕ → List ℕ
add (a ∷ s) (b ∷ t) = (a + b) ∷ add s t
add _ _ = []

abbrev first : List ℕ → ℕ
first [] = 0
first (a ∷ s) = a

abbrev head_of : Text → Fields
head_of x5u = field (codes "x5u") (Json.text x5u) end

abbrev body_of : Text → Fields
body_of salted = field (codes "salt") (Json.text salted) end

abbrev crypto : Crypto ℕ ℕ
crypto = record {
  shared_secret = λ private_key public_key. some (add private_key public_key);
  sha256 = λ bytes. bytes;
  sign_token = λ key x5u salted. token_of (head_of x5u) (body_of salted);
  to_base64 = λ bytes. bytes;
  from_base64 = λ text. text;
  make_cipher = λ key iv. first key;
  make_decipher = λ key iv. first key;
  parse = parse;
  stringify = stringify;
}

abbrev decoding : Decoding
decoding = record { base64url_json = part_back; base64_json = part_back }

-- The same calls for every key.
abbrev calls : List ℕ → Calls ℕ ℕ
calls key = sample_calls

laws : Laws calls protocol crypto decoding (λ c d. c ≡ d)
unfolding get same_text
laws = record {
  calls_laws = λ key. sample_calls-CallsLaws;
  in_step = λ key iv. refl;
  deserialize-serialize = read_packet-write;
  serialize-cons = λ p. (1, write p, refl);
  plain_request = λ key version. refl;
  plain_settings = λ key threshold m. refl;
  from-to_base64 = λ bytes. refl;
  parse-stringify = parse-stringify;
  token_parts = λ key x5u salted. (
    part (head_of x5u),
    part (body_of salted),
    1 ∷ [],
    head_of x5u,
    body_of salted,
    split-token_of (head_of x5u) (body_of salted),
    part_back-part (head_of x5u),
    part_back-part (body_of salted),
    refl,
    refl,
  );
}

-- The client's own token, with its name and its key.
abbrev own_payload : Fields
own_payload = field (codes "identityPublicKey") (Json.text (3 ∷ [])) (
    field (codes "extraData")
      (Json.object (field (codes "displayName") (Json.text (codes "Steve")) end)) end)

abbrev plain : PacketCompressor ℕ ℕ
plain = record { compression_method = none; compression_threshold = 1; encryptor = none }

abbrev client : Client ℕ ℕ
client = record {
  compressor = plain;
  key = [];
  login_data = record {
    client_x509 = 3 ∷ [];
    session_token_data = none;
    payload = end;
    client_identity_chain = token_of (head_of (3 ∷ [])) own_payload;
    access_token = [];
    login_token = [];
    client_user_chain = [];
    private_key = 3 ∷ [];
  };
  offline = true;
  view_distance = 8;
  stop_past_login = false;
  start_game_data = none;
  is_disconnected = false;
  listening = true;
  waiting = record {
    handshake = true;
    packs_info = true;
    pack_stack = true;
    start_game = true;
    initialized = true;
  };
  promise = ClientState.pending;
  sent = [];
  events = [];
  raknet_closes = 0;
  raknet_disconnects = 0;
  closing = false;
}

abbrev player : Player ℕ ℕ
player = record {
  compressor = plain;
  key = [];
  username = [];
  xuid = [];
  is_disconnected = false;
  private_key = 5 ∷ [];
  client_x509 = 5 ∷ [];
  threshold = 1;
  method = CompressionMethod.zlib;
  sent = [];
  events = [];
  connection_closed = false;
}

token_of-decoded :
    (x5u : Text) (fs : Fields) → decode_jwt_payload decoding (token_of (head_of x5u) fs) ≡ some fs
unfolding decode_jwt_payload
token_of-decoded x5u fs =
    rw (split-token_of (head_of x5u) fs, decode_jwt_payload, part_back-part fs) refl

starting : Starting calls protocol crypto decoding client player
starting = record {
  client_connected = refl;
  player_connected = refl;
  listening = refl;
  waiting = refl;
  no_keys = refl;
  client_plain = refl;
  player_plain = refl;
  supported = refl;
}

fresh : Fresh calls protocol crypto decoding client player (8 ∷ []) (3 ∷ [])
unfolding get same_text stringify write_json join
fresh = record {
  starting = starting;
  own_chain = refl;
  has_chain = refl;
  payload = own_payload;
  is_payload = token_of-decoded (3 ∷ []) own_payload;
  has_key = refl;
  key_there = refl;
  player_secret = refl;
  client_secret = refl;
}

handshake-Encrypted_example :
    HandshakeDone calls protocol crypto decoding
      (λ c d. c ≡ d)
      laws
      (crypto.sha256 (salt ++ 8 ∷ []))
      player
      (handshake calls protocol crypto decoding client player)
handshake-Encrypted_example =
    handshake-Encrypted calls protocol crypto decoding (λ c d. c ≡ d) laws client player (8 ∷ [])
      (3 ∷ []) fresh

abbrev hash : Text
hash = codes "0123456789abcdeff0e1d2c3b4a59687"

abbrev making : Making
making = record {
  md5_hex = λ name. hash;
  sign = λ key x5u fs. token_of (head_of x5u) fs;
  default_skin_data = field (codes "SkinId") (Json.text (codes "plain")) end;
  win10 = 7;
}

abbrev options : ClientOptions
options = record {
  username = codes "Steve";
  offline = true;
  view_distance = 8;
  login_options = record {
    current_input_mode = 1;
    default_input_mode = 1;
    device_model = [];
    device_os = none;
    memory_tier = 0;
    platform_type = 0;
    ui_profile = 0;
    graphics_mode = 0;
  };
  skin_data = none;
  address = codes "127.0.0.1";
  port = 19132;
  tokens_folder = codes ".tokens";
  email = none;
  password = none;
  xbox_token = none;
}

abbrev chance : Chance
chance = record { random_id = 5; online_id = 6; nonce = 7 }

abbrev keys_of_three : KeyPair
keys_of_three = record { private_key = 3 ∷ []; client_x509 = 3 ∷ [] }

offline_handshake-Encrypted_example :
    (profile : Profile) × (l : LoginData) × (authenticate_offline making 1000000 chance
        keys_of_three options
      ≡ some (profile, l))
    × HandshakeDone calls protocol crypto decoding
        (λ c d. c ≡ d)
        laws
        (crypto.sha256 (salt ++ 8 ∷ []))
        player
        (handshake calls protocol crypto decoding
          (with_data calls protocol crypto decoding
            (λ c d. c ≡ d)
            laws
            making
            (λ key. token_of-decoded)
            client
            l)
          player)
offline_handshake-Encrypted_example =
    offline_handshake-Encrypted calls protocol crypto decoding (λ c d. c ≡ d) laws making
      (λ key. token_of-decoded) 1000000 chance keys_of_three options client player (8 ∷ []) refl
      starting refl refl refl

abbrev identity : Fields
identity =
    field (codes "iss") (Json.number 1)
      (field (codes "zzz") (Json.number 2) (field (codes "new") (Json.number 3) end))

abbrev extra : Fields
extra = field (codes "XUID") (Json.number 1) (field (codes "other") (Json.number 2) end)

-- The application disconnects while RakNet connects; then RakNet ends, and something is to be sent.
abbrev goodbye : List Once.Step
goodbye = Once.disconnects (codes "bye") ∷ []

abbrev afterwards : List Once.Step
afterwards =
    Once.requests_settings
    ∷ Once.lost (codes "raknet disconnected")
    ∷ Once.sends ((1 ∷ []) ∷ []) Priority.medium
    ∷ Once.timer
    ∷ []
