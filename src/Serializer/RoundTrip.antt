-- ===== src/Serializer/RoundTrip.antt =====
-- Both ends of a connection: `compress` and `decompress`, `encryptPacket` and `decryptPacket` of
-- packages/baltica/src/shared/serializer.
use baltica.Base.{
  ℕ, ◌+◌, ◌-◌, ◌≡◌, refl, ap, ◌∙◌, Bool, true, false, Option, none, some, List, [], ◌∷◌, ◌++◌, ◌⊎◌,
  inl, inr, arith,
}
use baltica.Base.Tests.{if_cases, Bool-cases, ==_refl}
use baltica.Base.Lists.{length, length-append, take-append, drop-append}
use baltica.Server.{same_text}
use baltica.Serializer.{
  CompressionMethod, Calls, PacketEncryptor, PacketCompressor, encrypt_packet, decrypt_packet,
  checked, deflate, inflate, should_deflate, compress_body, compress, decompress_as,
  decompress_body, decompress, either,
}

same_text_refl : (text : List ℕ) → same_text text text ≡ true
unfolding same_text
same_text_refl [] = refl
same_text_refl (c ∷ text) = rw (==_refl c) (same_text_refl text)

abbrev pub is_supported : CompressionMethod → Bool
is_supported CompressionMethod.zlib = true
is_supported CompressionMethod.uncompressed = true
is_supported _ = false

-- What the code relies on: a decipher in step with a cipher undoes what it does and stays in step;
-- the checksum has eight bytes; and the other calls undo each other.
pub record CallsLaws {C D : Type 0} (calls : Calls C D) (InStep : C → D → Type 0) : Type 0 where
  pub length-checksum : (counter : ℕ) (packet : List ℕ) → length (calls.checksum counter packet) ≡ 8
  pub decrypt-encrypt :
      (c c' : C) (d : D) (bytes out : List ℕ)
      → InStep c d
      → calls.encrypt c bytes ≡ some (out, c')
      → (d' : D) × (calls.decrypt d out ≡ some (bytes, d')) × InStep c' d'
  pub encrypts :
      (c : C) (bytes : List ℕ)
      → (out : List ℕ) × (c' : C) × (calls.encrypt c bytes ≡ some (out, c'))
  pub inflate-deflate : (bytes : List ℕ) → calls.inflate_raw (calls.deflate_raw bytes) ≡ some bytes
  pub unframe-frame : (packets : List (List ℕ)) → calls.unframe (calls.frame packets) ≡ some packets
  pub method_of-code : (m : CompressionMethod) → calls.method_of (calls.code m) ≡ some m

module _ {C D : Type 0} (calls : Calls C D) (InStep : C → D → Type 0)
    (laws : CallsLaws calls InStep) where
  -- A sender's encryptor and a receiver's whose counters and ciphers are in step.
  pub record Paired (e r : PacketEncryptor C D) : Type 0 where
    pub counters : e.send_counter ≡ r.receive_counter
    pub c : C
    pub d : D
    pub cipher_is : e.cipher ≡ some c
    pub decipher_is : r.decipher ≡ some d
    pub in_step : InStep c d

  pub checked-append :
      (packet : List ℕ) (counter : ℕ)
      → checked calls (packet ++ calls.checksum counter packet) counter ≡ some packet
  checked-append packet counter =
      let size : length (packet ++ calls.checksum counter packet) - 8 ≡ length packet = omega (
        arith,
        length-append packet (calls.checksum counter packet),
        laws.length-checksum counter packet,
      ) in
      rw
        (
          size,
          take-append packet (calls.checksum counter packet),
          drop-append packet (calls.checksum counter packet),
          same_text_refl (calls.checksum counter packet),
        )
        refl

  -- A packet that one end encrypts the other end decrypts, and they are in step again.
  pub decrypt_packet-encrypt_packet :
      (payload : List ℕ) (e r : PacketEncryptor C D)
      → Paired e r
      → (bytes : List ℕ) × (e' : PacketEncryptor C D) × (r' : PacketEncryptor C D) × (encrypt_packet
            calls payload e
          ≡ (0xfe ∷ bytes, e'))
        × (decrypt_packet calls bytes r ≡ (some payload, r'))
        × Paired e' r'
  unfolding encrypt_packet decrypt_packet
  decrypt_packet-encrypt_packet payload e r p =
      let (out, c', run) = laws.encrypts p.c (payload ++ calls.checksum e.send_counter payload) in
      let (d', back, step) = laws.decrypt-encrypt p.c c' p.d _ out p.in_step run in
      (
        out,
        record e { cipher = some c'; send_counter = e.send_counter + 1 },
        record r { decipher = some d'; receive_counter = r.receive_counter + 1 },
        rw (p.cipher_is, run) refl,
        rw (p.decipher_is, back, ← p.counters, checked-append payload e.send_counter) refl,
        record {
          counters = omega (arith, p.counters);
          c = c';
          d = d';
          cipher_is = refl;
          decipher_is = refl;
          in_step = step;
        },
      )

  read_as :
      (m : CompressionMethod) (bytes : List ℕ)
      → decompress_body calls (calls.code m ∷ bytes) ≡ decompress_as calls m (calls.code m ∷ bytes)
  read_as m bytes =
      ap
        (λ o.
          decompress_as calls (elim o [ none ↦ CompressionMethod.not_present | some n ↦ n ])
            (calls.code m ∷ bytes))
        (laws.method_of-code m)

  zlib_as :
      (b : ℕ) (packets : List (List ℕ))
      → decompress_as calls CompressionMethod.zlib (b ∷ calls.deflate_raw (calls.frame packets))
        ≡ some packets
  unfolding decompress_as inflate
  zlib_as b packets =
      ap (λ o. elim o [ none ↦ none | some bytes ↦ calls.unframe bytes ])
        (laws.inflate-deflate (calls.frame packets))
      ∙ laws.unframe-frame packets

  uncompressed_as :
      (b : ℕ) (packets : List (List ℕ))
      → decompress_as calls CompressionMethod.uncompressed (b ∷ calls.frame packets) ≡ some packets
  unfolding decompress_as inflate
  uncompressed_as b packets = laws.unframe-frame packets

  zlib_body :
      (packets : List (List ℕ)) (threshold : ℕ)
      → (body : List ℕ) × (compress_body calls
            (calls.frame packets)
            (some CompressionMethod.zlib)
            threshold
          ≡ some body)
        × (decompress_body calls body ≡ some packets)
  unfolding compress_body deflate inflate
  zlib_body packets threshold =
      elim (Bool-cases (should_deflate calls threshold (length (calls.frame packets)))) [
        | inr b ↦ (
          calls.code CompressionMethod.uncompressed ∷ calls.frame packets,
          rw b refl,
          read_as CompressionMethod.uncompressed (calls.frame packets) ∙ uncompressed_as _ packets,
        )
        | inl b ↦ (
          calls.code CompressionMethod.zlib ∷ calls.deflate_raw (calls.frame packets),
          rw b refl,
          read_as CompressionMethod.zlib (calls.deflate_raw (calls.frame packets))
              ∙ zlib_as _ packets,
        )
      ]

  uncompressed_body :
      (packets : List (List ℕ)) (threshold : ℕ)
      → (body : List ℕ) × (compress_body calls
            (calls.frame packets)
            (some CompressionMethod.uncompressed)
            threshold
          ≡ some body)
        × (decompress_body calls body ≡ some packets)
  unfolding compress_body deflate inflate
  uncompressed_body packets threshold =
      let body = calls.code CompressionMethod.uncompressed ∷ calls.frame packets in
      (
        body,
        if_cases {A = Option (List ℕ)} (λ x. x ≡ some body)
            (should_deflate calls threshold (length (calls.frame packets))) refl refl,
        read_as CompressionMethod.uncompressed (calls.frame packets) ∙ uncompressed_as _ packets,
      )

  pub supported_body :
      (packets : List (List ℕ)) (threshold : ℕ) (m : CompressionMethod)
      → is_supported m ≡ true
      → (body : List ℕ) × (compress_body calls (calls.frame packets) (some m) threshold ≡ some body)
        × (decompress_body calls body ≡ some packets)
  supported_body packets threshold CompressionMethod.zlib h = zlib_body packets threshold
  supported_body packets threshold CompressionMethod.uncompressed h =
      uncompressed_body packets threshold
  supported_body packets threshold CompressionMethod.snappy h = cc
  supported_body packets threshold CompressionMethod.not_present h = cc

  -- Both ends without encryption, or with encryptors that are in step.
  abbrev pub Linked : PacketCompressor C D → PacketCompressor C D → Type 0
  Linked z w =
      ((z.encryptor ≡ none) × (w.encryptor ≡ none))
      ⊎ ((e : PacketEncryptor C D) × (r : PacketEncryptor C D) × (z.encryptor ≡ some e)
          × (w.encryptor ≡ some r)
          × Paired e r)

  -- The packets that one end compresses with zlib or without compression, at any threshold,
  -- encrypted or not, come back at the other end, and both are ready for the next ones.
  pub decompress-compress :
      (packets : List (List ℕ)) (method : Option CompressionMethod) (m : CompressionMethod)
      (z w : PacketCompressor C D)
      → either calls method z.compression_method ≡ some m
      → is_supported m ≡ true
      → Linked z w
      → (bytes : List ℕ) × (z' : PacketCompressor C D) × (w' : PacketCompressor C D) × (compress
            calls packets method z
          ≡ some (bytes, z'))
        × (decompress calls bytes w ≡ (some packets, w'))
        × Linked z' w'
  unfolding compress decompress
  decompress-compress packets method m z w em hm (inl (ez, ew)) =
      let (body, made, back) = supported_body packets z.compression_threshold m hm in
      (
        0xfe ∷ body,
        z,
        w,
        rw (em, compress, made, ez) refl,
        rw (ew, decompress, back) refl,
        inl (ez, ew),
      )
  decompress-compress packets method m z w em hm (inr (e, r, ez, ew, p)) =
      let (body, made, back) = supported_body packets z.compression_threshold m hm in
      let (bytes, e', r', enc, dec, p') = decrypt_packet-encrypt_packet body e r p in
      (
        0xfe ∷ bytes,
        record z { encryptor = some e' },
        record w { encryptor = some r' },
        rw (em, compress, made, ez, enc) refl,
        rw (ew, decompress, dec, back) refl,
        inr (e', r', refl, refl, p'),
      )
