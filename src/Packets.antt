-- ===== src/Packets.antt =====
-- The packets of packages/raknet/src/shared/proto/packets with fields of their own, and what they
-- share: packages/raknet/src/shared/proto/enums/packet.ts, types/magic.ts and types/mtu.ts. Each
-- `write_` is the packet's `serialize`, and each `read_` its `deserialize`, on what follows the
-- identifier; none is an exception.
pub mod Offline
pub mod Online
pub mod OfflineRoundTrip
pub mod RequestTwo
pub mod OnlineRoundTrip
pub mod Ambiguity
use baltica.Base.{ℕ, zero, suc, Option, List, [], ◌∷◌}
use baltica.Stream.{BinaryStream}

-- The members of `Packet`.
abbrev pub unconnected_ping : ℕ
unconnected_ping = 0x01

abbrev pub unconnected_ping_open_connections : ℕ
unconnected_ping_open_connections = 0x02

abbrev pub unconnected_pong : ℕ
unconnected_pong = 0x1c

abbrev pub connected_ping : ℕ
connected_ping = 0x00

abbrev pub connected_pong : ℕ
connected_pong = 0x03

abbrev pub open_connection_request1 : ℕ
open_connection_request1 = 0x05

abbrev pub open_connection_reply1 : ℕ
open_connection_reply1 = 0x06

abbrev pub open_connection_request2 : ℕ
open_connection_request2 = 0x07

abbrev pub open_connection_reply2 : ℕ
open_connection_reply2 = 0x08

abbrev pub connection_request : ℕ
connection_request = 0x09

abbrev pub connection_request_accepted : ℕ
connection_request_accepted = 0x10

abbrev pub new_incoming_connection : ℕ
new_incoming_connection = 0x13

abbrev pub disconnection_notification : ℕ
disconnection_notification = 0x15

abbrev pub incompatible_protocol_version : ℕ
incompatible_protocol_version = 0x19

abbrev pub already_connected : ℕ
already_connected = 0x12

abbrev pub magic : List ℕ
magic =
    0x00 ∷ 0xff ∷ 0xff ∷ 0x00 ∷ 0xfe ∷ 0xfe ∷ 0xfe ∷ 0xfe ∷ 0xfd ∷ 0xfd ∷ 0xfd ∷ 0xfd ∷ 0x12 ∷ 0x34
    ∷ 0x56 ∷ 0x78 ∷ []

-- `Buffer.alloc(n)`
abbrev pub alloc : ℕ → List ℕ
alloc zero = []
alloc (suc n) = 0 ∷ alloc n

module _ (io : BinaryStream) where
  -- `Magic.read`: the bytes are not compared.
  abbrev pub read_magic : List ℕ → Option (List ℕ × List ℕ)
  read_magic = io.read 16
