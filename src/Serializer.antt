-- ===== src/Serializer.antt =====
-- packages/baltica/src/shared/serializer: packet-encryptor.ts and packet-compressor.ts.
--
-- The ciphers and the hash of node:crypto, the raw deflate of node:zlib, and `Framer` and
-- `CompressionMethod` of @serenityjs/protocol are not part of the repository: they are the calls of
-- a record, and a call that throws is none.
pub mod RoundTrip
pub mod Duplex
use baltica.Base.{
  ℕ, ◌+◌, ◌-◌, Bool, true, false, ◌&&◌, ◌||◌, Option, none, some, List, [], ◌∷◌, ◌++◌,
}
use baltica.Base.Tests.{◌==◌, ltb, if◌then◌else◌}
use baltica.Base.Lists.{length, take, drop}
use baltica.Server.{same_text}

-- The members of `CompressionMethod` that the code names.
pub data CompressionMethod : Type 0 where
  zlib snappy not_present uncompressed : CompressionMethod

-- A cipher and a decipher in their states, and the other calls.
pub record Calls (C D : Type 0) : Type 0 where
  pub encrypt : C → List ℕ → Option (List ℕ × C)
  pub decrypt : D → List ℕ → Option (List ℕ × D)
  -- The first eight bytes of the hash over a counter, a packet and the key.
  pub checksum : ℕ → List ℕ → List ℕ
  pub deflate_raw : List ℕ → List ℕ
  pub inflate_raw : List ℕ → Option (List ℕ)
  pub frame : List (List ℕ) → List ℕ
  pub unframe : List ℕ → Option (List (List ℕ))
  pub code : CompressionMethod → ℕ
  -- `header in CompressionMethod`, and the member that it is.
  pub method_of : ℕ → Option CompressionMethod

pub record PacketEncryptor (C D : Type 0) : Type 0 where
  pub send_counter : ℕ
  pub receive_counter : ℕ
  pub cipher : Option C
  pub decipher : Option D

pub record PacketCompressor (C D : Type 0) : Type 0 where
  pub compression_method : Option CompressionMethod
  pub compression_threshold : ℕ
  pub encryptor : Option (PacketEncryptor C D)

module _ {C D : Type 0} where
  -- `setEncryptor`
  abbrev pub set_encryptor : PacketEncryptor C D → PacketCompressor C D → PacketCompressor C D
  set_encryptor e z = record z { encryptor = some e }

  -- `destroy`
  abbrev pub destroy : PacketEncryptor C D → PacketEncryptor C D
  destroy e = record e { cipher = none; decipher = none }

module _ {C D : Type 0} (calls : Calls C D) where
  abbrev encrypted :
      List ℕ → PacketEncryptor C D → Option (List ℕ × C) → List ℕ × PacketEncryptor C D
  encrypted payload e none = (0xfe ∷ payload, e)
  encrypted payload e (some (bytes, c)) =
      (0xfe ∷ bytes, record e { cipher = some c; send_counter = e.send_counter + 1 })

  -- `encryptPacket`; a cipher that throws leaves the payload as it is.
  unfoldable pub encrypt_packet : List ℕ → PacketEncryptor C D → List ℕ × PacketEncryptor C D
  encrypt_packet payload e = elim e.cipher [
    | none ↦ (0xfe ∷ payload, e)
    | some c ↦
        encrypted payload e (calls.encrypt c (payload ++ calls.checksum e.send_counter payload))
  ]

  -- The test of the checksum, the last eight bytes of `bytes`.
  abbrev pub checked : List ℕ → ℕ → Option (List ℕ)
  checked bytes counter =
      let packet = take (length bytes - 8) bytes in
      if same_text (drop (length bytes - 8) bytes) (calls.checksum counter packet)
      then some packet
      else none

  abbrev decrypted :
      List ℕ → PacketEncryptor C D → Option (List ℕ × D) → Option (List ℕ) × PacketEncryptor C D
  decrypted payload e none = (some payload, e)
  decrypted payload e (some (bytes, d)) = (
    checked bytes e.receive_counter,
    record e { decipher = some d; receive_counter = e.receive_counter + 1 },
  )

  -- `decryptPacket`; none is the exception of a checksum that does not match.
  unfoldable pub decrypt_packet :
      List ℕ → PacketEncryptor C D → Option (List ℕ) × PacketEncryptor C D
  decrypt_packet payload e = elim e.decipher [
    | none ↦ (some payload, e)
    | some d ↦ decrypted payload e (calls.decrypt d payload)
  ]

  -- `deflate` and `inflate`; Snappy throws.
  unfoldable pub deflate : List ℕ → CompressionMethod → Option (List ℕ)
  deflate bytes CompressionMethod.zlib = some (calls.deflate_raw bytes)
  deflate bytes CompressionMethod.snappy = none
  deflate bytes _ = some bytes

  unfoldable pub inflate : List ℕ → CompressionMethod → Option (List ℕ)
  inflate bytes CompressionMethod.zlib = calls.inflate_raw bytes
  inflate bytes CompressionMethod.snappy = none
  inflate bytes _ = some bytes

  -- `getMethod`
  abbrev pub get_method : List ℕ → CompressionMethod
  get_method [] = CompressionMethod.not_present
  get_method (header ∷ bytes) = elim (calls.method_of header) [
    | none ↦ CompressionMethod.not_present
    | some m ↦ m
  ]

  abbrev pub should_deflate : ℕ → ℕ → Bool
  should_deflate threshold size = threshold == 1 || (ltb 1 threshold && ltb threshold size)

  -- What `compress` puts after the first byte.
  unfoldable pub compress_body : List ℕ → Option CompressionMethod → ℕ → Option (List ℕ)
  compress_body framed none threshold = some framed
  compress_body framed (some m) threshold =
      if should_deflate threshold (length framed)
      then (elim (deflate framed m) [ none ↦ none | some bytes ↦ some (calls.code m ∷ bytes) ])
      else some (calls.code CompressionMethod.uncompressed ∷ framed)

  abbrev enclose :
      List ℕ → PacketCompressor C D → Option (PacketEncryptor C D) → List ℕ × PacketCompressor C D
  enclose body z none = (0xfe ∷ body, z)
  enclose body z (some e) =
      let (bytes, e) = encrypt_packet body e in (bytes, record z { encryptor = some e })

  abbrev pub either : Option CompressionMethod → Option CompressionMethod → Option CompressionMethod
  either none other = other
  either (some m) other = some m

  -- `compress`; none is an exception.
  unfoldable pub compress :
      List (List ℕ)
      → Option CompressionMethod
      → PacketCompressor C D
      → Option (List ℕ × PacketCompressor C D)
  compress packets method z =
      elim (compress_body (calls.frame packets) (either method z.compression_method)
        z.compression_threshold) [ none ↦ none | some body ↦ some (enclose body z z.encryptor) ]

  abbrev pub strip : CompressionMethod → List ℕ → List ℕ
  strip CompressionMethod.not_present bytes = bytes
  strip _ bytes = drop 1 bytes

  -- `decompress` once the method is known.
  unfoldable pub decompress_as : CompressionMethod → List ℕ → Option (List (List ℕ))
  decompress_as m packet = elim (inflate (strip m packet) m) [
    | none ↦ none
    | some bytes ↦ calls.unframe bytes
  ]

  -- `decompress` after the decryption.
  abbrev pub decompress_body : List ℕ → Option (List (List ℕ))
  decompress_body packet = decompress_as (get_method packet) packet

  abbrev opened :
      PacketCompressor C D
      → Option (List ℕ) × PacketEncryptor C D
      → Option (List (List ℕ)) × PacketCompressor C D
  opened z (none, e) = (none, record z { encryptor = some e })
  opened z (some packet, e) = (decompress_body packet, record z { encryptor = some e })

  abbrev pub open_with :
      List ℕ
      → PacketCompressor C D
      → Option (PacketEncryptor C D)
      → Option (List (List ℕ)) × PacketCompressor C D
  open_with packet z none = (decompress_body packet, z)
  open_with packet z (some e) = opened z (decrypt_packet packet e)

  -- `decompress`; none is an exception.
  unfoldable pub decompress :
      List ℕ → PacketCompressor C D → Option (List (List ℕ)) × PacketCompressor C D
  decompress [] z = (none, z)
  decompress (id ∷ packet) z = if id == 0xfe then open_with packet z z.encryptor else (none, z)
