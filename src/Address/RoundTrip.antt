-- ===== src/Address/RoundTrip.antt =====
-- Round trips of `Address.write` and `Address.read` of
-- packages/raknet/src/shared/proto/types/address.ts.
use baltica.Base.{ℕ, ◌^◌, ◌<◌, ◌≡◌, ◌≢◌, refl, some, List, [], ◌∷◌, ◌++◌, map, append_assoc, arith}
use baltica.Base.Lists.{All, length}
use baltica.Stream.{Width, BinaryStream, Laws}
use baltica.Stream.Buffers.{drop-put}
use baltica.Address.{
  Address, dot, colon, join, decimal, hex, flip, flip_bits, write_bytes, write_words, write, read,
  read_words, read_ipv4, read_ipv6,
}
use baltica.Address.Texts.{
  split-join, parse_int-decimal, decimal-IsPart, parse_int-hex, hex-IsPart, flip_bits-flip,
}

-- The address `a.b.c.d`.
abbrev pub ipv4 : ℕ → ℕ → ℕ → ℕ → ℕ → Address
ipv4 a b c d port = record {
  address = join dot (map decimal (a ∷ b ∷ c ∷ d ∷ []));
  port = port;
  version = 4;
}

-- The address of eight words, written in full.
abbrev pub ipv6 : ℕ → List ℕ → ℕ → Address
ipv6 w words port = record { address = join colon (map hex (w ∷ words)); port = port; version = 6 }

pub decimal-All : (ns : List ℕ) → All (All (λ c. c ≢ dot)) (map decimal ns)
decimal-All [] = tt
decimal-All (n ∷ ns) = (decimal-IsPart n, decimal-All ns)

hex-All : (ns : List ℕ) → All (All (λ c. c ≢ colon)) (map hex ns)
hex-All [] = tt
hex-All (n ∷ ns) = (hex-IsPart n, hex-All ns)

pub bytes_back :
    (ns : List ℕ)
    → All (λ n. n < 256) ns
    → map (λ b. decimal (flip_bits 8 b)) (map (λ n. flip 8 (some n)) ns) ≡ map decimal ns
bytes_back [] h = refl
bytes_back (n ∷ ns) (hn, h) = rw (flip_bits-flip n hn, bytes_back ns h) refl

flip-lt : (n : ℕ) → n < 256 → flip 8 (some n) < 2 ^ 8
unfolding flip
flip-lt n h = omega arith

flip_word :
    (n : ℕ) → n < 2 ^ 16 → (flip 16 (some n) < 2 ^ 16) × (flip_bits 16 (flip 16 (some n)) ≡ n)
unfolding flip
flip_word n h = omega arith

module _ (io : BinaryStream) (laws : Laws io) where
  write_bytes-decimal :
      (ns : List ℕ)
      → All (λ n. n < 256) ns
      → write_bytes io (map decimal ns) ≡ map (λ n. flip 8 (some n)) ns
  unfolding write_bytes
  write_bytes-decimal [] h = refl
  write_bytes-decimal (n ∷ ns) (hn, h) =
      rw (parse_int-decimal n hn, laws.put_uint8 _ (flip-lt n hn), write_bytes-decimal ns h) refl

  -- An IPv4 address comes back from its bytes.
  pub read-write_ipv4 :
      (a b c d port : ℕ) (rest : List ℕ)
      → All (λ n. n < 256) (a ∷ b ∷ c ∷ d ∷ [])
      → port < 2 ^ 16
      → read io (write io (ipv4 a b c d port) ++ rest) ≡ some (ipv4 a b c d port, rest)
  unfolding read write read_ipv4
  read-write_ipv4 a b c d port rest h hp = simp append_assoc (
      rw
        (
          laws.get-put Width.uint8 4 _ (omega arith),
          split-join dot (decimal a) (map decimal (b ∷ c ∷ d ∷ [])) (decimal-IsPart a)
              (decimal-All (b ∷ c ∷ d ∷ [])),
          write_bytes-decimal (a ∷ b ∷ c ∷ d ∷ []) h,
          laws.read_lem (map (λ n. flip 8 (some n)) (a ∷ b ∷ c ∷ d ∷ [])) _,
          laws.get-put Width.uint16 port rest hp,
          flip_bits-flip a h.0,
          flip_bits-flip b h.1.0,
          flip_bits-flip c h.1.1.0,
          flip_bits-flip d h.1.1.1.0,
        )
        refl)

  read_words-write_words :
      (words : List ℕ) (rest : List ℕ)
      → All (λ n. n < 2 ^ 16) words
      → read_words io (length words) (write_words io (map hex words) ++ rest)
        ≡ some (map hex words, rest)
  unfolding read_words write_words
  read_words-write_words [] rest h = refl
  read_words-write_words (n ∷ words) rest (hn, h) = simp append_assoc (
      rw
        (
          parse_int-hex n hn,
          laws.get-put Width.uint16 _ _ (flip_word n hn).0,
          read_words-write_words words rest h,
          (flip_word n hn).1,
        )
        refl)

  -- An IPv6 address comes back from its bytes, if its eight words are written in full.
  pub read-write_ipv6 :
      (w : ℕ) (words : List ℕ) (port : ℕ) (rest : List ℕ)
      → length words ≡ 7
      → All (λ n. n < 2 ^ 16) (w ∷ words)
      → port < 2 ^ 16
      → read io (write io (ipv6 w words port) ++ rest) ≡ some (ipv6 w words port, rest)
  unfolding read write read_ipv6
  read-write_ipv6 w words port rest hl h hp = simp append_assoc (
      rw
        (
          laws.get-put Width.uint8 6 _ (omega arith),
          drop-put io laws Width.uint16 23,
          laws.get-put Width.uint16 port _ hp,
          drop-put io laws Width.uint32 0,
          split-join colon (hex w) (map hex words) (hex-IsPart w) (hex-All words),
          eight (w ∷ words) _ (omega arith) h,
          drop-put io laws Width.uint32 0,
        )
        refl)
    where
      eight :
          (ws : List ℕ) (rest : List ℕ)
          → length ws ≡ 8
          → All (λ n. n < 2 ^ 16) ws
          → read_words io 8 (write_words io (map hex ws) ++ rest) ≡ some (map hex ws, rest)
      eight ws rest e h = rw e at (read_words-write_words ws rest h)

-- The addresses that `Address.read` makes.
pub data IsCanonical : Address → Type 0 where
  of_ipv4 :
      (a b c d port : ℕ)
      → All (λ n. n < 256) (a ∷ b ∷ c ∷ d ∷ [])
      → port < 2 ^ 16
      → IsCanonical (ipv4 a b c d port)
  of_ipv6 :
      (w : ℕ) (words : List ℕ) (port : ℕ)
      → length words ≡ 7
      → All (λ n. n < 2 ^ 16) (w ∷ words)
      → port < 2 ^ 16
      → IsCanonical (ipv6 w words port)

module _ (io : BinaryStream) (laws : Laws io) where
  -- An address in the form in which `Address.read` makes one comes back from its bytes.
  pub read-write :
      (a : Address) (rest : List ℕ) → IsCanonical a → read io (write io a ++ rest) ≡ some (a, rest)
  read-write _ rest (of_ipv4 a b c d port h hp) = read-write_ipv4 io laws a b c d port rest h hp
  read-write _ rest (of_ipv6 w words port hl h hp) =
      read-write_ipv6 io laws w words port rest hl h hp
