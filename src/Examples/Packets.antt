-- ===== src/Examples/Packets.antt =====
-- Addresses and packets of packages/raknet/src/shared/proto on small inputs.
use baltica.Base.{◌≡◌, ◌≢◌, none, some, [], ◌∷◌, ◌++◌, arith}
use baltica.Stream.Sample.{sample, sample-Laws}
use baltica.Stream.Buffers.{payload}
use baltica.Address
use baltica.Address.{Address, split}
use baltica.Address.RoundTrip.{ipv4, IsCanonical, of_ipv4, read-write}
use baltica.Packets.Offline.{
  UnconnectedPong, OpenConnectionRequestOne, write_open_connection_request_two,
  read_open_connection_request_two,
}
use baltica.Packets.Online.{ConnectionRequestAccepted, NewIncomingConnection}
use baltica.Packets.RequestTwo.{request_two}
use baltica.Packets.Ambiguity.{read_open_connection_request_two_misreads}

-- `10.0.0.255`
abbrev near : Address
near = ipv4 10 0 0 255 19132

near-IsCanonical : IsCanonical near
near-IsCanonical =
    of_ipv4 10 0 0 255 19132 (omega arith, (omega arith, (omega arith, (omega arith, tt))))
      (omega arith)

read-write_example : Address.read sample (Address.write sample near ++ 7 ∷ []) ≡ some (near, 7 ∷ [])
read-write_example = read-write sample sample-Laws near (7 ∷ []) near-IsCanonical

-- `::1`
abbrev loopback : Address
loopback = record { address = 58 ∷ 58 ∷ 49 ∷ []; port = 19132; version = 6 }

abbrev server_pong : UnconnectedPong
server_pong = record { timestamp = 5; guid = 77; message = 77 ∷ 67 ∷ [] }

abbrev first_request : OpenConnectionRequestOne
first_request = record { protocol = 11; mtu = 20 }

read_open_connection_request_two_misreads_example :
    read_open_connection_request_two sample
      (payload (write_open_connection_request_two sample (request_two loopback 1400 77 none)))
    ≢ some (request_two loopback 1400 77 none)
read_open_connection_request_two_misreads_example =
    read_open_connection_request_two_misreads sample sample-Laws loopback 1400 77 (omega arith)

abbrev accepted : ConnectionRequestAccepted
accepted = record {
  address = near;
  system_index = 0;
  addresses = near ∷ near ∷ [];
  request_timestamp = 3;
  timestamp = 4;
}

abbrev incoming : NewIncomingConnection
incoming = record {
  address = near;
  internal_address = near;
  incoming_timestamp = 3;
  server_timestamp = 4;
}
