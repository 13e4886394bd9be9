-- ===== src/Serializer/Duplex.antt =====
-- packages/baltica/src/shared/serializer: two ends that talk both ways.
use baltica.Base.{
  ℕ, ◌+◌, ◌≡◌, refl, ◌⊎◌, inl, inr, true, Option, none, some, List, ◌∷◌, ◌++◌, arith,
}
use baltica.Serializer.{
  CompressionMethod, Calls, PacketEncryptor, PacketCompressor, encrypt_packet, decrypt_packet,
  compress, decompress, either,
}
use baltica.Serializer.RoundTrip.{CallsLaws, Paired, is_supported, checked-append, supported_body}

module _ {C D : Type 0} (calls : Calls C D) (InStep : C → D → Type 0)
    (laws : CallsLaws calls InStep) where
  -- Both ends without encryption, or with encryptors in step both ways.
  abbrev pub Duplex : PacketCompressor C D → PacketCompressor C D → Type 0
  Duplex z w =
      ((z.encryptor ≡ none) × (w.encryptor ≡ none))
      ⊎ ((e : PacketEncryptor C D) × (r : PacketEncryptor C D) × (z.encryptor ≡ some e)
          × (w.encryptor ≡ some r)
          × Paired calls InStep laws e r
          × Paired calls InStep laws r e)

  pub Duplex-swap : (z w : PacketCompressor C D) → Duplex z w → Duplex w z
  Duplex-swap z w (inl (ez, ew)) = inl (ew, ez)
  Duplex-swap z w (inr (e, r, ez, ew, p, q)) = inr (r, e, ew, ez, q, p)

  -- A packet in one direction leaves the other direction in step.
  exchange_packet :
      (payload : List ℕ) (e r : PacketEncryptor C D)
      → Paired calls InStep laws e r
      → Paired calls InStep laws r e
      → (bytes : List ℕ) × (e' : PacketEncryptor C D) × (r' : PacketEncryptor C D) × (encrypt_packet
            calls payload e
          ≡ (0xfe ∷ bytes, e'))
        × (decrypt_packet calls bytes r ≡ (some payload, r'))
        × Paired calls InStep laws e' r'
        × Paired calls InStep laws r' e'
  unfolding encrypt_packet decrypt_packet
  exchange_packet payload e r p q =
      let (out, c', run) = laws.encrypts p.c (payload ++ calls.checksum e.send_counter payload) in
      let (d', back, step) = laws.decrypt-encrypt p.c c' p.d _ out p.in_step run in
      (
        out,
        record e { cipher = some c'; send_counter = e.send_counter + 1 },
        record r { decipher = some d'; receive_counter = r.receive_counter + 1 },
        rw (p.cipher_is, run) refl,
        rw
            (
              p.decipher_is,
              back,
              ← p.counters,
              checked-append calls InStep laws payload e.send_counter,
            )
            refl,
        record {
          counters = omega (arith, p.counters);
          c = c';
          d = d';
          cipher_is = refl;
          decipher_is = refl;
          in_step = step;
        },
        record {
          counters = q.counters;
          c = q.c;
          d = q.d;
          cipher_is = q.cipher_is;
          decipher_is = q.decipher_is;
          in_step = q.in_step;
        },
      )

  -- What one end sends the other end reads, and both go on as they were.
  pub record Sent (packets : List (List ℕ)) (method : Option CompressionMethod)
      (z w : PacketCompressor C D) : Type 0 where
    pub bytes : List ℕ
    pub sender : PacketCompressor C D
    pub receiver : PacketCompressor C D
    pub compresses : compress calls packets method z ≡ some (bytes, sender)
    pub decompresses : decompress calls bytes w ≡ (some packets, receiver)
    pub still_duplex : Duplex sender receiver
    pub sender_method : sender.compression_method ≡ z.compression_method
    pub receiver_method : receiver.compression_method ≡ w.compression_method

  pub send_duplex :
      (packets : List (List ℕ)) (method : Option CompressionMethod) (m : CompressionMethod)
      (z w : PacketCompressor C D)
      → either calls method z.compression_method ≡ some m
      → is_supported m ≡ true
      → Duplex z w
      → Sent packets method z w
  unfolding compress decompress
  send_duplex packets method m z w em hm (inl (ez, ew)) =
      let (body, made, back) =
        supported_body calls InStep laws packets z.compression_threshold m hm in
      record {
        bytes = 0xfe ∷ body;
        sender = z;
        receiver = w;
        compresses = rw (em, compress, made, ez) refl;
        decompresses = rw (ew, decompress, back) refl;
        still_duplex = inl (ez, ew);
        sender_method = refl;
        receiver_method = refl;
      }
  send_duplex packets method m z w em hm (inr (e, r, ez, ew, p, q)) =
      let (body, made, back) =
        supported_body calls InStep laws packets z.compression_threshold m hm in
      let (bytes, e', r', enc, dec, p', q') = exchange_packet body e r p q in
      record {
        bytes = 0xfe ∷ bytes;
        sender = record z { encryptor = some e' };
        receiver = record w { encryptor = some r' };
        compresses = rw (em, compress, made, ez, enc) refl;
        decompresses = rw (ew, decompress, dec, back) refl;
        still_duplex = inr (e', r', refl, refl, p', q');
        sender_method = refl;
        receiver_method = refl;
      }
