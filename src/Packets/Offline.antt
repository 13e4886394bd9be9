-- ===== src/Packets/Offline.antt =====
-- packages/raknet/src/shared/proto/packets/offline: the packets before a session is connected. A
-- guid is the 64 bits that it is written as; times are not negative.
use baltica.Base.{ℕ, ◌+◌, ◌-◌}
use baltica.Base.{Bool, true, false, Option, none, some, List, [], ◌++◌}
use baltica.Base.Tests.{ltb, if◌then◌else◌}
use baltica.Base.Lists.{length}
use baltica.Stream.{Width, BinaryStream}
use baltica.Frame.{◌>>=◌}
use baltica.Address
use baltica.Address.{Address}
use baltica.Packets.{
  magic, alloc, read_magic, unconnected_ping, unconnected_pong, open_connection_request1,
  open_connection_reply1, open_connection_request2, open_connection_reply2,
}

pub record UnconnectedPing : Type 0 where
  pub timestamp : ℕ
  pub guid : ℕ

pub record UnconnectedPong : Type 0 where
  pub timestamp : ℕ
  pub guid : ℕ
  pub message : List ℕ

pub record OpenConnectionRequestOne : Type 0 where
  pub protocol : ℕ
  pub mtu : ℕ

pub record OpenConnectionReplyOne : Type 0 where
  pub guid : ℕ
  pub security : Bool
  pub has_cookie : Bool
  pub cookie : Option ℕ
  pub server_public_key : Option (List ℕ)
  pub mtu : ℕ

pub record OpenConnectionRequestTwo : Type 0 where
  pub address : Address
  pub mtu : ℕ
  pub guid : ℕ
  pub cookie : Option ℕ
  pub client_supports_security : Bool

pub record OpenConnectionReplyTwo : Type 0 where
  pub guid : ℕ
  pub address : Address
  pub mtu : ℕ
  pub encryption_enabled : Bool

module _ (io : BinaryStream) where
  open io use {put, get, put_bool, get_bool, put_string16, get_string16, write}

  unfoldable pub write_unconnected_ping : UnconnectedPing → List ℕ
  write_unconnected_ping p =
      put Width.uint8 unconnected_ping
      ++ (put Width.int64 p.timestamp ++ (write magic ++ put Width.uint64 p.guid))

  unfoldable pub read_unconnected_ping : List ℕ → Option UnconnectedPing
  read_unconnected_ping bytes = do
    (timestamp, bytes) ← get Width.int64 bytes
    (_, bytes) ← read_magic io bytes
    (guid, bytes) ← get Width.uint64 bytes
    some (record { timestamp = timestamp; guid = guid })

  unfoldable pub write_unconnected_pong : UnconnectedPong → List ℕ
  write_unconnected_pong p =
      put Width.uint8 unconnected_pong
      ++ (put Width.int64 p.timestamp
          ++ (put Width.uint64 p.guid ++ (write magic ++ put_string16 p.message)))

  unfoldable pub read_unconnected_pong : List ℕ → Option UnconnectedPong
  read_unconnected_pong bytes = do
    (timestamp, bytes) ← get Width.int64 bytes
    (guid, bytes) ← get Width.uint64 bytes
    (_, bytes) ← read_magic io bytes
    (message, bytes) ← get_string16 bytes
    some (record { timestamp = timestamp; guid = guid; message = message })

  -- The packet up to its padding, which makes it `mtu` bytes long: `MTU.write`. A negative length
  -- is an exception.
  unfoldable pub write_open_connection_request_one : OpenConnectionRequestOne → Option (List ℕ)
  write_open_connection_request_one p =
      let start =
        put Width.uint8 open_connection_request1 ++ (write magic ++ put Width.uint8 p.protocol) in
      if ltb p.mtu (length start)
      then none
      else some (start ++ write (alloc (p.mtu - length start)))

  -- `MTU.read` is the length of the buffer that is read, which has no identifier.
  unfoldable pub read_open_connection_request_one : List ℕ → Option OpenConnectionRequestOne
  read_open_connection_request_one bytes = do
    (_, rest) ← read_magic io bytes
    (protocol, rest) ← get Width.uint8 rest
    some (record { protocol = protocol; mtu = length bytes })

  abbrev put_cookie : Option ℕ → List ℕ
  put_cookie none = []
  put_cookie (some cookie) = put Width.uint32 cookie

  abbrev put_key : Option (List ℕ) → List ℕ
  put_key none = []
  put_key (some key) = write key

  unfoldable pub write_open_connection_reply_one : OpenConnectionReplyOne → List ℕ
  write_open_connection_reply_one p =
      put Width.uint8 open_connection_reply1
      ++ (write magic
          ++ (put Width.uint64 p.guid
              ++ (put_bool p.security
                  ++ ((if p.security
                        then put_cookie p.cookie ++ put_key p.server_public_key
                        else [])
                      ++ put Width.uint16 p.mtu))))

  -- `if (this.security) { this.hasCookie = true; this.cookie = this.readUint32(); }`
  abbrev get_cookie : Bool → List ℕ → Option (Option ℕ × List ℕ)
  get_cookie true bytes = do (cookie, bytes) ← get Width.uint32 bytes; some (some cookie, bytes)
  get_cookie false bytes = some (none, bytes)

  unfoldable pub read_open_connection_reply_one : List ℕ → Option OpenConnectionReplyOne
  read_open_connection_reply_one bytes = do
    (_, bytes) ← read_magic io bytes
    (guid, bytes) ← get Width.uint64 bytes
    (security, bytes) ← get_bool bytes
    (cookie, bytes) ← get_cookie security bytes
    (mtu, bytes) ← get Width.uint16 bytes
    some (record {
      guid = guid;
      security = security;
      has_cookie = security;
      cookie = cookie;
      server_public_key = none;
      mtu = mtu;
    })

  abbrev put_cookie_answer : Option ℕ → Bool → List ℕ
  put_cookie_answer none supports = []
  put_cookie_answer (some cookie) supports = put Width.uint32 cookie ++ put_bool supports

  unfoldable pub write_open_connection_request_two : OpenConnectionRequestTwo → List ℕ
  write_open_connection_request_two p =
      put Width.uint8 open_connection_request2
      ++ (write magic
          ++ (put_cookie_answer p.cookie p.client_supports_security
              ++ (Address.write io p.address
                  ++ (put Width.uint16 p.mtu ++ put Width.uint64 p.guid))))

  abbrev pub min_without_cookie : ℕ
  min_without_cookie = 7 + 2 + 8

  -- A cookie is read if more bytes remain than a packet without one has.
  abbrev get_cookie_answer : Bool → List ℕ → Option ((Option ℕ × Bool) × List ℕ)
  get_cookie_answer true bytes = do
    (cookie, bytes) ← get Width.uint32 bytes
    (supports, bytes) ← get_bool bytes
    some ((some cookie, supports), bytes)
  get_cookie_answer false bytes = some ((none, false), bytes)

  unfoldable pub read_open_connection_request_two : List ℕ → Option OpenConnectionRequestTwo
  read_open_connection_request_two bytes = do
    (_, bytes) ← read_magic io bytes
    (answer, bytes) ← get_cookie_answer (ltb min_without_cookie (length bytes)) bytes
    (address, bytes) ← Address.read io bytes
    (mtu, bytes) ← get Width.uint16 bytes
    (guid, bytes) ← get Width.uint64 bytes
    some (record {
      address = address;
      mtu = mtu;
      guid = guid;
      cookie = answer.0;
      client_supports_security = answer.1;
    })

  unfoldable pub write_open_connection_reply_two : OpenConnectionReplyTwo → List ℕ
  write_open_connection_reply_two p =
      put Width.uint8 open_connection_reply2
      ++ (write magic
          ++ (put Width.uint64 p.guid
              ++ (Address.write io p.address
                  ++ (put Width.int16 p.mtu ++ put_bool p.encryption_enabled))))

  unfoldable pub read_open_connection_reply_two : List ℕ → Option OpenConnectionReplyTwo
  read_open_connection_reply_two bytes = do
    (_, bytes) ← read_magic io bytes
    (guid, bytes) ← get Width.uint64 bytes
    (address, bytes) ← Address.read io bytes
    (mtu, bytes) ← get Width.int16 bytes
    (encryption_enabled, bytes) ← get_bool bytes
    some (record {
      guid = guid;
      address = address;
      mtu = mtu;
      encryption_enabled = encryption_enabled;
    })
