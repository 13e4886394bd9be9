-- ===== src/Examples/Codec.antt =====
-- Concrete calls for packages/baltica: JSON values and packets as lists of numbers. A value is written
-- after its parts, as the number of an order and an argument, and read with a stack.
use baltica.Base.{
  ℕ, zero, suc, ◌≡◌, refl, ap, ◌∙◌, Bool, true, false, Option, none, some, List, [], ◌∷◌,
}
use baltica.Base.Texts.{Text}
use baltica.Json
use baltica.Json.{Json, Items, Fields, nil, cons, end}
use baltica.Serializer.{CompressionMethod}
use baltica.Bedrock
use baltica.Bedrock.{Packet, Parsed}

pub data Value : Type 0 where
  json : Json → Value
  items : Items → Value
  fields : Fields → Value
  text : Text → Value
  packs : List (Text × Text) → Value
  method : CompressionMethod → Value
  packet : Packet → Value

abbrev to_bool : ℕ → Bool
to_bool zero = false
to_bool (suc n) = true

abbrev of_bool : Bool → ℕ
of_bool false = 0
of_bool true = 1

abbrev Order : Type 0
Order = ℕ → List Value → List Value

-- The orders, each with the values that it takes.
abbrev do_null : Order
do_null n stack = json Json.null ∷ stack

abbrev do_boolean : Order
do_boolean n stack = json (Json.boolean (to_bool n)) ∷ stack

abbrev do_number : Order
do_number n stack = json (Json.number n) ∷ stack

abbrev do_empty : Order
do_empty n stack = text [] ∷ stack

abbrev do_letter : Order
do_letter n (text t ∷ stack) = text (n ∷ t) ∷ stack
do_letter n stack = stack

abbrev do_json_text : Order
do_json_text n (text t ∷ stack) = json (Json.text t) ∷ stack
do_json_text n stack = stack

abbrev do_no_items : Order
do_no_items n stack = items nil ∷ stack

abbrev do_item : Order
do_item n (json v ∷ items vs ∷ stack) = items (cons v vs) ∷ stack
do_item n stack = stack

abbrev do_array : Order
do_array n (items vs ∷ stack) = json (Json.array vs) ∷ stack
do_array n stack = stack

abbrev do_no_fields : Order
do_no_fields n stack = fields end ∷ stack

abbrev do_field : Order
do_field n (text t ∷ json v ∷ fields fs ∷ stack) = fields (Json.field t v fs) ∷ stack
do_field n stack = stack

abbrev do_object : Order
do_object n (fields fs ∷ stack) = json (Json.object fs) ∷ stack
do_object n stack = stack

abbrev do_no_packs : Order
do_no_packs n stack = packs [] ∷ stack

abbrev do_pack : Order
do_pack n (text t ∷ text u ∷ packs ps ∷ stack) = packs ((t, u) ∷ ps) ∷ stack
do_pack n stack = stack

abbrev do_request : Order
do_request n stack = packet (Bedrock.request_network_settings n) ∷ stack

abbrev do_settings : Order
do_settings n (method m ∷ stack) = packet (Bedrock.network_settings n m) ∷ stack
do_settings n stack = stack

abbrev do_zlib : Order
do_zlib n stack = method CompressionMethod.zlib ∷ stack

abbrev do_snappy : Order
do_snappy n stack = method CompressionMethod.snappy ∷ stack

abbrev do_not_present : Order
do_not_present n stack = method CompressionMethod.not_present ∷ stack

abbrev do_uncompressed : Order
do_uncompressed n stack = method CompressionMethod.uncompressed ∷ stack

abbrev do_login : Order
do_login n (text t ∷ text u ∷ stack) = packet (Bedrock.login t u) ∷ stack
do_login n stack = stack

abbrev do_token : Order
do_token n (text t ∷ stack) = packet (Bedrock.server_to_client_handshake t) ∷ stack
do_token n stack = stack

abbrev do_answer : Order
do_answer n stack = packet Bedrock.client_to_server_handshake ∷ stack

abbrev do_success : Order
do_success n stack = packet (Bedrock.play_status Bedrock.login_success) ∷ stack

abbrev do_spawn : Order
do_spawn n stack = packet (Bedrock.play_status Bedrock.player_spawn) ∷ stack

abbrev do_other_status : Order
do_other_status n stack = packet (Bedrock.play_status Bedrock.other_status) ∷ stack

abbrev do_packs_info : Order
do_packs_info n (packs ps ∷ stack) = packet (Bedrock.resource_packs_info ps) ∷ stack
do_packs_info n stack = stack

abbrev do_stack : Order
do_stack n stack = packet Bedrock.resource_pack_stack ∷ stack

abbrev do_have_all : Order
do_have_all n (packs ps ∷ stack) =
    packet (Bedrock.resource_pack_client_response ps Bedrock.have_all_packs) ∷ stack
do_have_all n stack = stack

abbrev do_completed : Order
do_completed n (packs ps ∷ stack) =
    packet (Bedrock.resource_pack_client_response ps Bedrock.completed) ∷ stack
do_completed n stack = stack

abbrev do_cache : Order
do_cache n stack = packet (Bedrock.client_cache_status (to_bool n)) ∷ stack

abbrev do_start : Order
do_start n stack = packet (Bedrock.start_game n) ∷ stack

abbrev do_radius : Order
do_radius n (json (Json.number m) ∷ stack) = packet (Bedrock.request_chunk_radius m n) ∷ stack
do_radius n stack = stack

abbrev do_loading : Order
do_loading n stack = packet (Bedrock.loading_screen Bedrock.start_loading_screen) ∷ stack

abbrev do_loaded : Order
do_loaded n stack = packet (Bedrock.loading_screen Bedrock.end_loading_screen) ∷ stack

abbrev do_initialized : Order
do_initialized n stack = packet (Bedrock.set_local_player_as_initialized n) ∷ stack

abbrev do_disconnect : Order
do_disconnect n (text t ∷ stack) = packet (Bedrock.disconnect t) ∷ stack
do_disconnect n stack = stack

abbrev do_other : Order
do_other n stack = packet (Bedrock.other_packet n) ∷ stack

abbrev do_negative : Order
do_negative n stack = json (Json.negative n) ∷ stack

abbrev orders : List Order
orders =
    do_null ∷ do_boolean ∷ do_number ∷ do_empty ∷ do_letter ∷ do_json_text ∷ do_no_items ∷ do_item
    ∷ do_array ∷ do_no_fields ∷ do_field ∷ do_object ∷ do_no_packs ∷ do_pack ∷ do_request
    ∷ do_settings ∷ do_zlib ∷ do_snappy ∷ do_not_present ∷ do_uncompressed ∷ do_login ∷ do_token
    ∷ do_answer ∷ do_success ∷ do_spawn ∷ do_other_status ∷ do_packs_info ∷ do_stack ∷ do_have_all
    ∷ do_completed ∷ do_cache ∷ do_start ∷ do_radius ∷ do_loading ∷ do_loaded ∷ do_initialized
    ∷ do_disconnect ∷ do_other ∷ do_negative ∷ []

abbrev obey : ℕ → List Order → Order
obey k [] n stack = stack
obey zero (order ∷ others) n stack = order n stack
obey (suc k) (order ∷ others) n stack = obey k others n stack

abbrev read : List ℕ → List Value → List Value
read (k ∷ n ∷ bytes) stack = read bytes (obey k orders n stack)
read _ stack = stack

abbrev write_text : Text → List ℕ → List ℕ
write_text [] rest = 3 ∷ 0 ∷ rest
write_text (c ∷ t) rest = write_text t (4 ∷ c ∷ rest)

unfoldable mutual
  pub write_json : Json → List ℕ → List ℕ
  write_json Json.null rest = 0 ∷ 0 ∷ rest
  write_json (Json.boolean b) rest = 1 ∷ of_bool b ∷ rest
  write_json (Json.number n) rest = 2 ∷ n ∷ rest
  write_json (Json.negative n) rest = 38 ∷ n ∷ rest
  write_json (Json.text t) rest = write_text t (5 ∷ 0 ∷ rest)
  write_json (Json.array vs) rest = write_items vs (8 ∷ 0 ∷ rest)
  write_json (Json.object fs) rest = write_fields fs (11 ∷ 0 ∷ rest)

  pub write_items : Items → List ℕ → List ℕ
  write_items nil rest = 6 ∷ 0 ∷ rest
  write_items (cons v vs) rest = write_items vs (write_json v (7 ∷ 0 ∷ rest))

  pub write_fields : Fields → List ℕ → List ℕ
  write_fields end rest = 9 ∷ 0 ∷ rest
  write_fields (Json.field t v fs) rest =
      write_fields fs (write_json v (write_text t (10 ∷ 0 ∷ rest)))

abbrev write_packs : List (Text × Text) → List ℕ → List ℕ
write_packs [] rest = 12 ∷ 0 ∷ rest
write_packs ((t, u) ∷ ps) rest = write_packs ps (write_text u (write_text t (13 ∷ 0 ∷ rest)))

abbrev write_method : CompressionMethod → List ℕ → List ℕ
write_method CompressionMethod.zlib rest = 16 ∷ 0 ∷ rest
write_method CompressionMethod.snappy rest = 17 ∷ 0 ∷ rest
write_method CompressionMethod.not_present rest = 18 ∷ 0 ∷ rest
write_method CompressionMethod.uncompressed rest = 19 ∷ 0 ∷ rest

abbrev write_packet : Packet → List ℕ
write_packet (Bedrock.request_network_settings n) = 14 ∷ n ∷ []
write_packet (Bedrock.network_settings n m) = write_method m (15 ∷ n ∷ [])
write_packet (Bedrock.login t u) = write_text u (write_text t (20 ∷ 0 ∷ []))
write_packet (Bedrock.server_to_client_handshake t) = write_text t (21 ∷ 0 ∷ [])
write_packet Bedrock.client_to_server_handshake = 22 ∷ 0 ∷ []
write_packet (Bedrock.play_status Bedrock.login_success) = 23 ∷ 0 ∷ []
write_packet (Bedrock.play_status Bedrock.player_spawn) = 24 ∷ 0 ∷ []
write_packet (Bedrock.play_status Bedrock.other_status) = 25 ∷ 0 ∷ []
write_packet (Bedrock.resource_packs_info ps) = write_packs ps (26 ∷ 0 ∷ [])
write_packet Bedrock.resource_pack_stack = 27 ∷ 0 ∷ []
write_packet (Bedrock.resource_pack_client_response ps Bedrock.have_all_packs) =
    write_packs ps (28 ∷ 0 ∷ [])
write_packet (Bedrock.resource_pack_client_response ps Bedrock.completed) =
    write_packs ps (29 ∷ 0 ∷ [])
write_packet (Bedrock.client_cache_status b) = 30 ∷ of_bool b ∷ []
write_packet (Bedrock.start_game n) = 31 ∷ n ∷ []
write_packet (Bedrock.request_chunk_radius m n) = 2 ∷ m ∷ 32 ∷ n ∷ []
write_packet (Bedrock.loading_screen Bedrock.start_loading_screen) = 33 ∷ 0 ∷ []
write_packet (Bedrock.loading_screen Bedrock.end_loading_screen) = 34 ∷ 0 ∷ []
write_packet (Bedrock.set_local_player_as_initialized n) = 35 ∷ n ∷ []
write_packet (Bedrock.disconnect t) = write_text t (36 ∷ 0 ∷ [])
write_packet (Bedrock.other_packet n) = 37 ∷ n ∷ []

read-text :
    (t : Text) (rest : List ℕ) (stack : List Value)
    → read (write_text t rest) stack ≡ read rest (text t ∷ stack)
read-text [] rest stack = refl
read-text (c ∷ t) rest stack = read-text t (4 ∷ c ∷ rest) stack

of-to_bool : (b : Bool) → to_bool (of_bool b) ≡ b
of-to_bool false = refl
of-to_bool true = refl

mutual
  unfolding write_json

  read-json :
      (v : Json) (rest : List ℕ) (stack : List Value)
      → read (write_json v rest) stack ≡ read rest (json v ∷ stack)
  read-json Json.null rest stack = refl
  read-json (Json.boolean b) rest stack =
      ap (λ x. read rest (json (Json.boolean x) ∷ stack)) (of-to_bool b)
  read-json (Json.number n) rest stack = refl
  read-json (Json.negative n) rest stack = refl
  read-json (Json.text t) rest stack = read-text t (5 ∷ 0 ∷ rest) stack
  read-json (Json.array vs) rest stack = read-items vs (8 ∷ 0 ∷ rest) stack
  read-json (Json.object fs) rest stack = read-fields fs (11 ∷ 0 ∷ rest) stack

  read-items :
      (vs : Items) (rest : List ℕ) (stack : List Value)
      → read (write_items vs rest) stack ≡ read rest (items vs ∷ stack)
  read-items nil rest stack = refl
  read-items (cons v vs) rest stack =
      read-items vs (write_json v (7 ∷ 0 ∷ rest)) stack
      ∙ read-json v (7 ∷ 0 ∷ rest) (items vs ∷ stack)

  read-fields :
      (fs : Fields) (rest : List ℕ) (stack : List Value)
      → read (write_fields fs rest) stack ≡ read rest (fields fs ∷ stack)
  read-fields end rest stack = refl
  read-fields (Json.field t v fs) rest stack =
      let named = write_text t (10 ∷ 0 ∷ rest) in
      read-fields fs (write_json v named) stack
      ∙ (read-json v named (fields fs ∷ stack)
          ∙ read-text t (10 ∷ 0 ∷ rest) (json v ∷ fields fs ∷ stack))

read-packs :
    (ps : List (Text × Text)) (rest : List ℕ) (stack : List Value)
    → read (write_packs ps rest) stack ≡ read rest (packs ps ∷ stack)
read-packs [] rest stack = refl
read-packs ((t, u) ∷ ps) rest stack =
    let named = write_text t (13 ∷ 0 ∷ rest) in
    read-packs ps (write_text u named) stack
    ∙ (read-text u named (packs ps ∷ stack)
        ∙ read-text t (13 ∷ 0 ∷ rest) (text u ∷ packs ps ∷ stack))

abbrev packet_on : List Value → Parsed
packet_on (packet p ∷ []) = Bedrock.packet p
packet_on _ = Bedrock.malformed

abbrev json_on : List Value → Option Json
json_on (json v ∷ []) = some v
json_on _ = none

unfoldable pub read_packet : List ℕ → Parsed
read_packet bytes = packet_on (read bytes [])

unfoldable pub write : Packet → List ℕ
write = write_packet

unfoldable pub parse : Text → Option Json
parse t = json_on (read t [])

unfoldable pub stringify : Fields → Text
stringify fs = write_json (Json.object fs) []

pub parse-stringify : (fs : Fields) → parse (stringify fs) ≡ some (Json.object fs)
unfolding parse stringify
parse-stringify fs = ap json_on (read-json (Json.object fs) [] [])

pub read_packet-write : (p : Packet) → read_packet (write p) ≡ Bedrock.packet p
unfolding read_packet write
read_packet-write (Bedrock.request_network_settings n) = refl
read_packet-write (Bedrock.network_settings n CompressionMethod.zlib) = refl
read_packet-write (Bedrock.network_settings n CompressionMethod.snappy) = refl
read_packet-write (Bedrock.network_settings n CompressionMethod.not_present) = refl
read_packet-write (Bedrock.network_settings n CompressionMethod.uncompressed) = refl
read_packet-write (Bedrock.login t u) =
    ap packet_on
      (read-text u (write_text t (20 ∷ 0 ∷ [])) [] ∙ read-text t (20 ∷ 0 ∷ []) (text u ∷ []))
read_packet-write (Bedrock.server_to_client_handshake t) =
    ap packet_on (read-text t (21 ∷ 0 ∷ []) [])
read_packet-write Bedrock.client_to_server_handshake = refl
read_packet-write (Bedrock.play_status Bedrock.login_success) = refl
read_packet-write (Bedrock.play_status Bedrock.player_spawn) = refl
read_packet-write (Bedrock.play_status Bedrock.other_status) = refl
read_packet-write (Bedrock.resource_packs_info ps) = ap packet_on (read-packs ps (26 ∷ 0 ∷ []) [])
read_packet-write Bedrock.resource_pack_stack = refl
read_packet-write (Bedrock.resource_pack_client_response ps Bedrock.have_all_packs) =
    ap packet_on (read-packs ps (28 ∷ 0 ∷ []) [])
read_packet-write (Bedrock.resource_pack_client_response ps Bedrock.completed) =
    ap packet_on (read-packs ps (29 ∷ 0 ∷ []) [])
read_packet-write (Bedrock.client_cache_status b) =
    ap (λ x. Bedrock.packet (Bedrock.client_cache_status x)) (of-to_bool b)
read_packet-write (Bedrock.start_game n) = refl
read_packet-write (Bedrock.request_chunk_radius m n) = refl
read_packet-write (Bedrock.loading_screen Bedrock.start_loading_screen) = refl
read_packet-write (Bedrock.loading_screen Bedrock.end_loading_screen) = refl
read_packet-write (Bedrock.set_local_player_as_initialized n) = refl
read_packet-write (Bedrock.disconnect t) = ap packet_on (read-text t (36 ∷ 0 ∷ []) [])
read_packet-write (Bedrock.other_packet n) = refl
