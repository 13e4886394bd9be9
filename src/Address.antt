-- ===== src/Address.antt =====
-- packages/raknet/src/shared/proto/types/address.ts
--
-- A text is the list of its code units. `parseInt` is taken without the signs, the white space and
-- the `0x` that it also reads, and below 2 ^ 31: the texts are addresses that `node:dgram` and
-- `Address.read` make.
pub mod Texts
pub mod RoundTrip
pub mod Lengths
use baltica.Base.{ℕ, zero, suc, ◌+◌, ◌-◌, ◌*◌, ◌/◌, ◌%◌, ◌^◌}
use baltica.Base.{Bool, true, false, ◌&&◌, Option, none, some, List, [], ◌∷◌, ◌++◌, map}
use baltica.Base.Tests.{◌==◌, ltb, leb, if◌then◌else◌}
use baltica.Base.Lists.{take, drop}
use baltica.Stream.{Width, BinaryStream}
use baltica.Frame.{◌>>=◌}

abbrev pub dot : ℕ
dot = 46

abbrev pub colon : ℕ
colon = 58

abbrev prepend : ℕ → List (List ℕ) → List (List ℕ)
prepend c [] = (c ∷ []) ∷ []
prepend c (part ∷ parts) = (c ∷ part) ∷ parts

-- `text.split(sep)`
unfoldable pub split : ℕ → List ℕ → List (List ℕ)
split sep [] = [] ∷ []
split sep (c ∷ text) = if c == sep then [] ∷ split sep text else prepend c (split sep text)

-- `parts.join(sep)`
unfoldable pub join : ℕ → List (List ℕ) → List ℕ
join sep [] = []
join sep (part ∷ []) = part
join sep (part ∷ next ∷ parts) = part ++ sep ∷ join sep (next ∷ parts)

abbrev within : ℕ → ℕ → ℕ → Bool
within low high c = leb low c && leb c high

abbrev pub digit_of : ℕ → ℕ → Option ℕ
digit_of base c =
    if within 48 57 c
    then some (c - 48)
    else if (leb 16 base && within 97 102 c)
    then some (c - 87)
    else if (leb 16 base && within 65 70 c)
    then some (c - 55)
    else none

-- The digits from the front, up to the first other character.
unfoldable pub parse_digits : ℕ → ℕ → List ℕ → ℕ
parse_digits base n [] = n
parse_digits base n (c ∷ text) = elim (digit_of base c) [
  | none ↦ n
  | some d ↦ parse_digits base (n * base + d) text
]

-- `Number.parseInt(text, base)`; none is NaN.
unfoldable pub parse_int : ℕ → List ℕ → Option ℕ
parse_int base [] = none
parse_int base (c ∷ text) = elim (digit_of base c) [
  | none ↦ none
  | some d ↦ some (parse_digits base d text)
]

-- `n ^ (2 ** w - 1)`: the lower `w` bits turned over.
abbrev pub flip_bits : ℕ → ℕ → ℕ
flip_bits w n = n / 2 ^ w * 2 ^ w + (2 ^ w - 1 - n % 2 ^ w)

-- NaN counts as 0.
unfoldable pub flip : ℕ → Option ℕ → ℕ
flip w none = 2 ^ w - 1
flip w (some n) = flip_bits w n

-- `byte.toString()`
unfoldable pub decimal : ℕ → List ℕ
decimal n =
    if ltb n 10
    then (48 + n) ∷ []
    else if ltb n 100
    then (48 + n / 10) ∷ (48 + n % 10) ∷ []
    else (48 + n / 100) ∷ (48 + n / 10 % 10) ∷ (48 + n % 10) ∷ []

abbrev pub hex_digit : ℕ → ℕ
hex_digit d = if ltb d 10 then 48 + d else 87 + d

-- `part.toString(16).padStart(4, "0")` for sixteen bits.
unfoldable pub hex : ℕ → List ℕ
hex n =
    hex_digit (n / 16 ^ 3)
    ∷ hex_digit (n / 16 ^ 2 % 16)
    ∷ hex_digit (n / 16 % 16)
    ∷ hex_digit (n % 16)
    ∷ []

pub record Address : Type 0 where
  pub address : List ℕ
  pub port : ℕ
  pub version : ℕ

-- `0.0.0.0`
abbrev pub any_address : List ℕ
any_address = 48 ∷ 46 ∷ 48 ∷ 46 ∷ 48 ∷ 46 ∷ 48 ∷ []

module _ (io : BinaryStream) where
  unfoldable pub write_bytes : List (List ℕ) → List ℕ
  write_bytes [] = []
  write_bytes (part ∷ parts) = io.put Width.uint8 (flip 8 (parse_int 10 part)) ++ write_bytes parts

  unfoldable pub write_words : List (List ℕ) → List ℕ
  write_words [] = []
  write_words (part ∷ parts) =
      io.put Width.uint16 (flip 16 (parse_int 16 part)) ++ write_words parts

  -- `Address.write`
  unfoldable pub write : Address → List ℕ
  write a =
      io.put Width.uint8 a.version
      ++ (if a.version == 4
          then write_bytes (take 4 (split dot a.address)) ++ io.put Width.uint16 a.port
          else io.put Width.uint16 23
            ++ (io.put Width.uint16 a.port
                ++ (io.put Width.uint32 0
                    ++ (write_words (split colon a.address) ++ io.put Width.uint32 0))))

  -- `for (let i = 0; i < 8; i++)`, with the rounds counted.
  unfoldable pub read_words : ℕ → List ℕ → Option (List (List ℕ) × List ℕ)
  read_words zero bytes = some ([], bytes)
  read_words (suc n) bytes = do
    (word, bytes) ← io.get Width.uint16 bytes
    (parts, bytes) ← read_words n bytes
    some (hex (flip_bits 16 word) ∷ parts, bytes)

  unfoldable pub read_ipv4 : List ℕ → Option (Address × List ℕ)
  read_ipv4 bytes = do
    (buffer, bytes) ← io.read 4 bytes
    (port, bytes) ← io.get Width.uint16 bytes
    some (
      record {
        address = join dot (map (λ b. decimal (flip_bits 8 b)) buffer);
        port = port;
        version = 4;
      },
      bytes,
    )

  -- `stream.offset += n` drops `n` bytes.
  unfoldable pub read_ipv6 : List ℕ → Option (Address × List ℕ)
  read_ipv6 bytes = do
    (port, bytes) ← io.get Width.uint16 (drop 2 bytes)
    (parts, bytes) ← read_words 8 (drop 4 bytes)
    some (record { address = join colon parts; port = port; version = 6 }, drop 4 bytes)

  -- `Address.read`
  unfoldable pub read : List ℕ → Option (Address × List ℕ)
  read bytes = do
    (version, bytes) ← io.get Width.uint8 bytes
    if version == 4
        then read_ipv4 bytes
        else if version == 6
        then read_ipv6 bytes
        else some (record { address = any_address; port = 0; version = 0 }, bytes)
