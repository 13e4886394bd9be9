-- ===== src/Packets/Online.antt =====
-- packages/raknet/src/shared/proto/packets/online: the packets of a session, but frame sets and
-- acknowledgements.
use baltica.Base.{ℕ, zero, suc}
use baltica.Base.{Bool, Option, none, some, List, [], ◌∷◌, ◌++◌}
use baltica.Base.Tests.{ltb, if◌then◌else◌}
use baltica.Base.Lists.{length}
use baltica.Stream.{Width, BinaryStream}
use baltica.Frame.{◌>>=◌}
use baltica.Address
use baltica.Address.{Address}
use baltica.Packets.{
  connected_ping, connected_pong, connection_request, connection_request_accepted,
  new_incoming_connection, disconnection_notification,
}

pub record ConnectedPing : Type 0 where
  pub timestamp : ℕ

pub record ConnectedPong : Type 0 where
  pub ping_timestamp : ℕ
  pub pong_timestamp : ℕ

pub record ConnectionRequest : Type 0 where
  pub guid : ℕ
  pub timestamp : ℕ
  pub use_security : Bool

pub record ConnectionRequestAccepted : Type 0 where
  pub address : Address
  pub system_index : ℕ
  pub addresses : List Address
  pub request_timestamp : ℕ
  pub timestamp : ℕ

pub record NewIncomingConnection : Type 0 where
  pub address : Address
  pub internal_address : Address
  pub incoming_timestamp : ℕ
  pub server_timestamp : ℕ

module _ (io : BinaryStream) where
  open io use {put, get, put_bool, get_bool}

  unfoldable pub write_connected_ping : ConnectedPing → List ℕ
  write_connected_ping p = put Width.uint8 connected_ping ++ put Width.int64 p.timestamp

  unfoldable pub read_connected_ping : List ℕ → Option ConnectedPing
  read_connected_ping bytes = do
    (timestamp, bytes) ← get Width.int64 bytes
    some (record { timestamp = timestamp })

  unfoldable pub write_connected_pong : ConnectedPong → List ℕ
  write_connected_pong p =
      put Width.uint8 connected_pong
      ++ (put Width.int64 p.ping_timestamp ++ put Width.int64 p.pong_timestamp)

  unfoldable pub read_connected_pong : List ℕ → Option ConnectedPong
  read_connected_pong bytes = do
    (ping_timestamp, bytes) ← get Width.int64 bytes
    (pong_timestamp, bytes) ← get Width.int64 bytes
    some (record { ping_timestamp = ping_timestamp; pong_timestamp = pong_timestamp })

  unfoldable pub write_connection_request : ConnectionRequest → List ℕ
  write_connection_request p =
      put Width.uint8 connection_request
      ++ (put Width.uint64 p.guid ++ (put Width.int64 p.timestamp ++ put_bool p.use_security))

  unfoldable pub read_connection_request : List ℕ → Option ConnectionRequest
  read_connection_request bytes = do
    (guid, bytes) ← get Width.uint64 bytes
    (timestamp, bytes) ← get Width.int64 bytes
    (use_security, bytes) ← get_bool bytes
    some (record { guid = guid; timestamp = timestamp; use_security = use_security })

  unfoldable pub write_addresses : List Address → List ℕ
  write_addresses [] = []
  write_addresses (a ∷ addresses) = Address.write io a ++ write_addresses addresses

  unfoldable pub write_connection_request_accepted : ConnectionRequestAccepted → List ℕ
  write_connection_request_accepted p =
      put Width.uint8 connection_request_accepted
      ++ (Address.write io p.address
          ++ (put Width.uint16 p.system_index
              ++ (write_addresses p.addresses
                  ++ (put Width.int64 p.request_timestamp ++ put Width.int64 p.timestamp))))

  -- `while (this.offset - startOffset < addressBytes)`, on fuel: the loop goes on while more than
  -- the sixteen bytes of the timestamps remain, and an address takes a byte at least.
  unfoldable pub read_addresses : ℕ → List ℕ → List Address → Option (List Address × List ℕ)
  read_addresses zero bytes addresses = some (addresses, bytes)
  read_addresses (suc fuel) bytes addresses =
      if ltb 16 (length bytes)
      then (elim (Address.read io bytes) [
        | none ↦ none
        | some (a, rest) ↦ read_addresses fuel rest (addresses ++ a ∷ [])
      ])
      else some (addresses, bytes)

  unfoldable pub read_connection_request_accepted : List ℕ → Option ConnectionRequestAccepted
  read_connection_request_accepted bytes = do
    (address, bytes) ← Address.read io bytes
    (system_index, bytes) ← get Width.uint16 bytes
    (addresses, bytes) ← read_addresses (length bytes) bytes []
    (request_timestamp, bytes) ← get Width.int64 bytes
    (timestamp, bytes) ← get Width.int64 bytes
    some (record {
      address = address;
      system_index = system_index;
      addresses = addresses;
      request_timestamp = request_timestamp;
      timestamp = timestamp;
    })

  -- `for (let i = 0; i < 10; i++) Address.write(this, this.internalAddress)`, with the rounds
  -- counted.
  unfoldable pub write_repeatedly : ℕ → Address → List ℕ
  write_repeatedly zero a = []
  write_repeatedly (suc n) a = Address.write io a ++ write_repeatedly n a

  unfoldable pub write_new_incoming_connection : NewIncomingConnection → List ℕ
  write_new_incoming_connection p =
      put Width.uint8 new_incoming_connection
      ++ (Address.write io p.address
          ++ (write_repeatedly 10 p.internal_address
              ++ (put Width.int64 p.incoming_timestamp ++ put Width.int64 p.server_timestamp)))

  -- The last of the addresses read is kept.
  unfoldable pub read_repeatedly : ℕ → Address → List ℕ → Option (Address × List ℕ)
  read_repeatedly zero last bytes = some (last, bytes)
  read_repeatedly (suc n) last bytes = do
    (a, bytes) ← Address.read io bytes
    read_repeatedly n a bytes

  unfoldable pub read_new_incoming_connection : List ℕ → Option NewIncomingConnection
  read_new_incoming_connection bytes = do
    (address, bytes) ← Address.read io bytes
    (internal_address, bytes) ← read_repeatedly 10 address bytes
    (incoming_timestamp, bytes) ← get Width.int64 bytes
    (server_timestamp, bytes) ← get Width.int64 bytes
    some (record {
      address = address;
      internal_address = internal_address;
      incoming_timestamp = incoming_timestamp;
      server_timestamp = server_timestamp;
    })

  -- `Disconnect`
  unfoldable pub write_disconnect : List ℕ
  write_disconnect = put Width.uint8 disconnection_notification
