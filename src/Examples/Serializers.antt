-- ===== src/Examples/Serializers.antt =====
-- Both ends of packages/baltica/src/shared/serializer on small inputs.
use baltica.Base.{
  ℕ, zero, suc, ◌+◌, ◌-◌, ◌≡◌, refl, ap, sym, ◌∙◌, inr, Option, none, some, List, [], ◌∷◌, ◌++◌,
  map, arith,
}
use baltica.Base.Tests.{some_injective}
use baltica.Base.Lists.{length}
use baltica.Serializer.{
  CompressionMethod, Calls, PacketEncryptor, PacketCompressor, compress, decompress,
}
use baltica.Serializer.RoundTrip.{CallsLaws, Paired, Linked, decompress-compress}

-- A cipher that adds its state to every byte, and a frame with a byte before each byte and a last
-- one after each packet.
abbrev frame_packet : List ℕ → List ℕ
frame_packet [] = 0 ∷ []
frame_packet (b ∷ bytes) = 4 ∷ b ∷ frame_packet bytes

abbrev frame_packets : List (List ℕ) → List ℕ
frame_packets [] = []
frame_packets (p ∷ packets) = frame_packet p ++ frame_packets packets

abbrev extend : ℕ → List (List ℕ) → List (List ℕ)
extend b [] = []
extend b (p ∷ packets) = (b ∷ p) ∷ packets

abbrev unframe_packets : List ℕ → List (List ℕ)
unframe_packets [] = []
unframe_packets (zero ∷ bytes) = [] ∷ unframe_packets bytes
unframe_packets (suc n ∷ []) = []
unframe_packets (suc n ∷ b ∷ bytes) = extend b (unframe_packets bytes)

unframe_one :
    (p bytes : List ℕ) → unframe_packets (frame_packet p ++ bytes) ≡ p ∷ unframe_packets bytes
unframe_one [] bytes = refl
unframe_one (b ∷ p) bytes = ap (extend b) (unframe_one p bytes)

unframe_all : (packets : List (List ℕ)) → unframe_packets (frame_packets packets) ≡ packets
unframe_all [] = refl
unframe_all (p ∷ packets) = unframe_one p (frame_packets packets) ∙ ap (◌∷◌ p) (unframe_all packets)

abbrev code_of : CompressionMethod → ℕ
code_of CompressionMethod.zlib = 0
code_of CompressionMethod.snappy = 1
code_of CompressionMethod.not_present = 2
code_of CompressionMethod.uncompressed = 3

abbrev method_at : ℕ → Option CompressionMethod
method_at zero = some CompressionMethod.zlib
method_at (suc zero) = some CompressionMethod.snappy
method_at (suc (suc zero)) = some CompressionMethod.not_present
method_at (suc (suc (suc zero))) = some CompressionMethod.uncompressed
method_at _ = none

method_back : (m : CompressionMethod) → method_at (code_of m) ≡ some m
method_back CompressionMethod.zlib = refl
method_back CompressionMethod.snappy = refl
method_back CompressionMethod.not_present = refl
method_back CompressionMethod.uncompressed = refl

abbrev pub shift : ℕ → List ℕ → List ℕ
shift k = map (λ b. b + k)

abbrev pub unshift : ℕ → List ℕ → List ℕ
unshift k = map (λ b. b - k)

pub unshift-shift : (k : ℕ) (bytes : List ℕ) → unshift k (shift k bytes) ≡ bytes
unshift-shift k [] = refl
unshift-shift k (b ∷ bytes) = ground (arith, unshift-shift k bytes)

abbrev pub sample_calls : Calls ℕ ℕ
sample_calls = record {
  encrypt = λ c bytes. some (shift c bytes, c + 1);
  decrypt = λ d bytes. some (unshift d bytes, d + 1);
  checksum = λ counter packet. counter ∷ 0 ∷ 0 ∷ 0 ∷ 0 ∷ 0 ∷ 0 ∷ length packet ∷ [];
  deflate_raw = λ bytes. 8 ∷ bytes;
  inflate_raw = λ bytes. elim bytes [ [] ↦ none | b ∷ rest ↦ some rest ];
  frame = frame_packets;
  unframe = λ bytes. some (unframe_packets bytes);
  code = code_of;
  method_of = method_at;
}

pub sample_calls-CallsLaws : CallsLaws sample_calls (λ c d. c ≡ d)
sample_calls-CallsLaws = record {
  length-checksum = λ counter packet. refl;
  decrypt-encrypt = λ c c' d bytes out s e.
      let q : (shift c bytes, c + 1) ≡ (out, c') = some_injective e in
      (
        d + 1,
        ap (λ x. some (x, d + 1))
            (ap (unshift d) (sym (ap (λ x. x.0) q) ∙ ap (λ k. shift k bytes) s)
              ∙ unshift-shift d bytes),
        sym (ap (λ x. x.1) q) ∙ ap (λ k. k + 1) s,
      );
  encrypts = λ c bytes. (shift c bytes, c + 1, refl);
  inflate-deflate = λ bytes. refl;
  unframe-frame = λ packets. ap some (unframe_all packets);
  method_of-code = method_back;
}

abbrev sender : PacketEncryptor ℕ ℕ
sender = record { send_counter = 4; receive_counter = 0; cipher = some 7; decipher = none }

abbrev receiver : PacketEncryptor ℕ ℕ
receiver = record { send_counter = 0; receive_counter = 4; cipher = none; decipher = some 7 }

abbrev near_end : PacketCompressor ℕ ℕ
near_end = record {
  compression_method = some CompressionMethod.zlib;
  compression_threshold = 1;
  encryptor = some sender;
}

abbrev far_end : PacketCompressor ℕ ℕ
far_end = record { compression_method = none; compression_threshold = 1; encryptor = some receiver }

abbrev two_packets : List (List ℕ)
two_packets = (193 ∷ 1 ∷ []) ∷ (7 ∷ []) ∷ []

ends-Paired : Paired sample_calls (λ c d. c ≡ d) sample_calls-CallsLaws sender receiver
ends-Paired = record {
  counters = refl;
  c = 7;
  d = 7;
  cipher_is = refl;
  decipher_is = refl;
  in_step = refl;
}

decompress-compress_example :
    (bytes : List ℕ) × (z : PacketCompressor ℕ ℕ) × (w : PacketCompressor ℕ ℕ) × (compress
        sample_calls two_packets none near_end
      ≡ some (bytes, z))
    × (decompress sample_calls bytes far_end ≡ (some two_packets, w))
    × Linked sample_calls (λ c d. c ≡ d) sample_calls-CallsLaws z w
decompress-compress_example =
    decompress-compress sample_calls (λ c d. c ≡ d) sample_calls-CallsLaws two_packets none
      CompressionMethod.zlib near_end far_end refl refl
      (inr (sender, receiver, refl, refl, ends-Paired))
