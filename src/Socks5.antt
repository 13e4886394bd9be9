-- ===== src/Socks5.antt =====
-- packages/raknet/src/shared/socks5.ts: the datagrams that go through a SOCKS5 relay,
-- `buildUdpHeader` and the listener of the UDP socket. Buffers are lists of bytes. The handshake with
-- the proxy is in Relay.
pub mod Datagrams
pub mod Relay
pub mod Release
use baltica.Base.{
  ℕ, zero, suc, ◌+◌, ◌*◌, ◌/◌, ◌%◌, Bool, true, false, not, ◌&&◌, ◌||◌, Option, none, some, List,
  [], ◌∷◌, ◌++◌, map,
}
use baltica.Base.Tests.{◌==◌, ltb, if◌then◌else◌}
use baltica.Base.Lists.{length, take, drop}
use baltica.Base.Sets.{has}
use baltica.Address.{split, join, parse_int, decimal, hex_digit, dot, colon}

-- `part.toString(16)` for sixteen bits.
unfoldable pub short_hex : ℕ → List ℕ
short_hex n =
    if ltb n 16
    then hex_digit n ∷ []
    else if ltb n 256
    then hex_digit (n / 16) ∷ hex_digit (n % 16) ∷ []
    else if ltb n 4096
    then hex_digit (n / 256) ∷ hex_digit (n / 16 % 16) ∷ hex_digit (n % 16) ∷ []
    else hex_digit (n / 4096)
      ∷ hex_digit (n / 256 % 16)
      ∷ hex_digit (n / 16 % 16)
      ∷ hex_digit (n % 16)
      ∷ []

-- `buffer.writeUInt16BE(n)` and `buffer.readUInt16BE(offset)`, which throws past the end.
abbrev pub uint16_be : ℕ → List ℕ
uint16_be n = n / 256 % 256 ∷ n % 256 ∷ []

abbrev first_uint16 : List ℕ → Option ℕ
first_uint16 [] = none
first_uint16 (b ∷ []) = none
first_uint16 (b ∷ c ∷ bytes) = some (b * 256 + c)

abbrev pub read_uint16_be : List ℕ → ℕ → Option ℕ
read_uint16_be bytes offset = first_uint16 (drop offset bytes)

-- A part that is missing or no number counts as 0.
abbrev or_zero : Option ℕ → ℕ
or_zero none = 0
or_zero (some n) = n

-- `for (let i = 0; i < 4; i++) header[4 + i] = parseInt(parts[i]!, 10)`, with the rounds counted.
unfoldable pub header_bytes : ℕ → List (List ℕ) → List ℕ
header_bytes zero parts = []
header_bytes (suc n) [] = 0 ∷ header_bytes n []
header_bytes (suc n) (part ∷ parts) = or_zero (parse_int 10 part) % 256 ∷ header_bytes n parts

abbrev then_words : ℕ → Option (List ℕ) → Option (List ℕ)
then_words n none = none
then_words n (some bytes) = if ltb n 65536 then some (uint16_be n ++ bytes) else none

-- The same for eight words of `writeUInt16BE`, which throws above sixteen bits.
unfoldable pub header_words : ℕ → List (List ℕ) → Option (List ℕ)
header_words zero parts = some []
header_words (suc n) [] = then_words 0 (header_words n [])
header_words (suc n) (part ∷ parts) =
    then_words (or_zero (parse_int 16 part)) (header_words n parts)

abbrev with_port : ℕ → Option (List ℕ) → Option (List ℕ)
with_port port none = none
with_port port (some bytes) =
    if ltb port 65536 then some (0 ∷ 0 ∷ 0 ∷ 0x04 ∷ (bytes ++ uint16_be port)) else none

-- `buildUdpHeader`; none is an exception.
unfoldable pub build_udp_header : List ℕ → ℕ → Option (List ℕ)
build_udp_header address port =
    if has dot address
    then (if ltb port 65536
        then some (0 ∷ 0 ∷ 0 ∷ 0x01 ∷ (header_bytes 4 (split dot address) ++ uint16_be port))
        else none)
    else with_port port (header_words 8 (split colon address))

-- What the listener does with a datagram.
pub data Received : Type 0 where
  ignored : Received
  throws : Received
  message : List ℕ → List ℕ → ℕ → Received

-- The port at `offset`, and the payload after it.
unfoldable pub payload_at : List ℕ → List ℕ → ℕ → Received
payload_at datagram address offset = elim (read_uint16_be datagram offset) [
  | none ↦ throws
  | some port ↦ message (drop (offset + 2) datagram) address port
]

-- `for (let i = 0; i < 8; i++) parts.push(...)`, with the rounds counted.
unfoldable pub read_parts : ℕ → List ℕ → Option (List (List ℕ))
read_parts zero bytes = some []
read_parts (suc n) bytes =
    let rest = read_parts n (drop 2 bytes) in
    elim (first_uint16 bytes) [
      | none ↦ none
      | some word ↦ elim rest [ none ↦ none | some parts ↦ some (short_hex word ∷ parts) ]
    ]

-- `toString("ascii")`
abbrev pub ascii : List ℕ → List ℕ
ascii = map (λ b. b % 128)

abbrev pub decimals : List ℕ → List (List ℕ)
decimals [] = []
decimals (b ∷ bytes) = decimal b ∷ decimals bytes

-- The branches on the address type; `rest` is what follows it.
unfoldable pub receive_from : ℕ → List ℕ → List ℕ → Received
receive_from atyp rest datagram =
    if atyp == 0x01
    then payload_at datagram (join dot (decimals (take 4 rest))) 8
    else if atyp == 0x03
    then (elim rest [
      | [] ↦ ignored
      | size ∷ text ↦ payload_at datagram (ascii (take size text)) (5 + size)
    ])
    else if atyp == 0x04
    then (elim (read_parts 8 rest) [
      | none ↦ throws
      | some parts ↦ payload_at datagram (join colon parts) 20
    ])
    else ignored

-- The listener: a datagram of fewer than ten bytes has no case.
unfoldable pub receive_datagram : List ℕ → Received
receive_datagram (r ∷ s ∷ fragment ∷ atyp ∷ rest) =
    let datagram = r ∷ s ∷ fragment ∷ atyp ∷ rest in
    if ltb (length datagram) 10 || not (r == 0 && s == 0 && fragment == 0)
    then ignored
    else receive_from atyp rest datagram
receive_datagram _ = ignored
