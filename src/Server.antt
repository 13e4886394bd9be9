-- ===== src/Server.antt =====
-- packages/raknet/src/server/server.ts: the connections of a RakNet server and `handleMessage`, with
-- the forwarding of packages/raknet/src/server/connection.ts.
--
-- A connection's key is the text `address:port`, which stands for the two; `sendTo` appends to
-- `sent`, and `emit` to `events`. What a session sends stays in its own `sent`. The listeners of a
-- session read and write nothing that it uses, so they are run when it has returned.
pub mod Soundness
pub mod Connections
use baltica.Base.{
  ℕ, zero, suc, Bool, true, false, not, ◌&&◌, ◌||◌, Option, none, some, List, [], ◌∷◌, ◌++◌, min,
}
use baltica.Base.Tests.{◌==◌, leb, if◌then◌else◌}
use baltica.Base.Lists.{length}
use baltica.Stream.{BinaryStream}
use baltica.Address.{Address}
use baltica.Packets.{
  unconnected_ping, unconnected_ping_open_connections, open_connection_request1,
  open_connection_request2,
}
use baltica.Packets.Offline.{
  OpenConnectionRequestOne, OpenConnectionRequestTwo, UnconnectedPing, read_unconnected_ping,
  write_unconnected_pong, read_open_connection_request_one, write_open_connection_reply_one,
  read_open_connection_request_two, write_open_connection_reply_two,
}
use baltica.Ordering.{Outcome, done, thrown, endless, new_ordering}
use baltica.Outbound.{Outbound}
use baltica.Window.{new_window}
use baltica.Session.{Session, Peer, Status, Event, disconnect}
use baltica.Session.Receive.{receive}

abbrev pub raknet_protocol : ℕ
raknet_protocol = 11

-- `RemoteInfo`
pub record Endpoint : Type 0 where
  pub address : List ℕ
  pub port : ℕ
  pub is_ipv4 : Bool

pub record ServerOptions : Type 0 where
  pub guid : ℕ
  pub message : List ℕ
  pub mtu : ℕ
  pub max_connections : ℕ

pub record Server : Type 0 where
  pub options : ServerOptions
  pub connections : List (Endpoint × Session)
  pub sent : List (Endpoint × List ℕ)
  pub events : List (Endpoint × Event)

unfoldable pub same_text : List ℕ → List ℕ → Bool
same_text [] [] = true
same_text [] (d ∷ other) = false
same_text (c ∷ text) [] = false
same_text (c ∷ text) (d ∷ other) = c == d && same_text text other

-- `Server.key(a) === Server.key(b)`
abbrev pub same_key : Endpoint → Endpoint → Bool
same_key a b = same_text a.address b.address && a.port == b.port

-- `this.connections.get(key)`
unfoldable pub find : Endpoint → List (Endpoint × Session) → Option Session
find e [] = none
find e ((other, s) ∷ connections) = if same_key other e then some s else find e connections

-- `this.connections.set(key, connection)`
unfoldable pub store : Endpoint → Session → List (Endpoint × Session) → List (Endpoint × Session)
store e s [] = (e, s) ∷ []
store e s ((other, t) ∷ connections) =
    if same_key other e then (other, s) ∷ connections else (other, t) ∷ store e s connections

-- `this.connections.delete(key)`
unfoldable pub remove : Endpoint → List (Endpoint × Session) → List (Endpoint × Session)
remove e [] = []
remove e ((other, s) ∷ connections) =
    if same_key other e then remove e connections else (other, s) ∷ remove e connections

abbrev pub is_disconnect : Event → Bool
is_disconnect Event.disconnect = true
is_disconnect _ = false

-- The listeners of a connection, for the events of its session in order.
unfoldable pub forward : Endpoint → List Event → Server → Server
forward e [] srv = srv
forward e (event ∷ events) srv = forward e events (record srv {
  connections = if is_disconnect event then remove e srv.connections else srv.connections;
  events = srv.events ++ (e, event) ∷ [];
})

-- The session after a call, its events passed on.
abbrev pub settle : Endpoint → Server → Session → Server
settle e srv s = forward e s.peer.events (record srv {
  connections = store e (record s { peer = record s.peer { events = [] } }) srv.connections;
})

abbrev pub settle_outcome : Endpoint → Server → Outcome Session → Outcome Server
settle_outcome e srv (done s) = done (settle e srv s)
settle_outcome e srv (thrown s) = thrown (settle e srv s)
settle_outcome e srv endless = endless

-- `sendTo`
abbrev pub send_to : List ℕ → Endpoint → Server → Server
send_to bytes e srv = record srv { sent = srv.sent ++ (e, bytes) ∷ [] }

-- `Address.fromIdentifier`
abbrev pub from_identifier : Endpoint → Address
from_identifier e = record {
  address = e.address;
  port = e.port;
  version = if e.is_ipv4 then 4 else 6;
}

abbrev pub new_outbound : ℕ → Outbound
new_outbound mtu = record {
  mtu = mtu;
  can_send = true;
  retransmit_interval = 1000;
  output_reliable_index = 0;
  output_split_index = 0;
  output_sequence = 0;
  output_sequence_index = [];
  output_order_index = [];
  output_frames = [];
  output_backup = [];
  output_backup_timestamps = [];
  retransmit_timer = false;
  sent = [];
}

-- `new NetworkSession(mtu, false)` with the fields that `handleMessage` sets.
abbrev pub new_session : ℕ → ℕ → ℕ → Endpoint → ServerOptions → Session
new_session now mtu remote_guid e options = record {
  peer = record {
    client = false;
    guid = options.guid;
    remote_guid = remote_guid;
    status = Status.disconnected;
    address = from_identifier e;
    server_message = some options.message;
    out = new_outbound mtu;
    events = [];
  };
  window = new_window;
  ordering = new_ordering;
  fragments = [];
  max_retransmit = 3;
  stale_timeout = 60000;
  last_received_at = now;
  offline_retry = none;
  ack_timer = false;
  last_cleanup = 0;
}

module _ (io : BinaryStream) where
  unfoldable pub answer_ping : List ℕ → Endpoint → Server → Outcome Server
  answer_ping bytes e srv = elim (read_unconnected_ping io bytes) [
    | none ↦ thrown srv
    | some ping ↦ done (
        send_to
          (write_unconnected_pong io (record {
            timestamp = ping.timestamp;
            guid = srv.options.guid;
            message = srv.options.message;
          }))
          e srv)
  ]

  unfoldable pub answer_request_one : List ℕ → Endpoint → Server → Outcome Server
  answer_request_one bytes e srv = elim (read_open_connection_request_one io bytes) [
    | none ↦ thrown srv
    | some request ↦
        if request.protocol == raknet_protocol
        then done (
            send_to
              (write_open_connection_reply_one io (record {
                guid = srv.options.guid;
                security = false;
                has_cookie = false;
                cookie = none;
                server_public_key = none;
                mtu = min srv.options.mtu request.mtu;
              }))
              e srv)
        else done srv
  ]

  -- The reply and the new connection.
  unfoldable pub accept : ℕ → OpenConnectionRequestTwo → Endpoint → Server → Server
  accept now request e srv =
      let mtu = min srv.options.mtu request.mtu in
      let replied =
        send_to
          (write_open_connection_reply_two io (record {
            guid = srv.options.guid;
            address = from_identifier e;
            mtu = mtu;
            encryption_enabled = false;
          }))
          e srv in
      record replied {
        connections = store e (new_session now mtu request.guid e srv.options) srv.connections;
      }

  unfoldable pub answer_request_two : ℕ → List ℕ → Endpoint → Server → Outcome Server
  answer_request_two now bytes e srv =
      if leb srv.options.max_connections (length srv.connections)
      then done srv
      else (elim (read_open_connection_request_two io bytes) [
        | none ↦ thrown srv
        | some request ↦ done (accept now request e srv)
      ])

  -- The switch of `handleMessage`, for an endpoint without a connection.
  unfoldable pub handle_stranger : ℕ → List ℕ → Endpoint → Server → Outcome Server
  handle_stranger now [] e srv = done srv
  handle_stranger now (id ∷ bytes) e srv =
      if id == unconnected_ping || id == unconnected_ping_open_connections
      then answer_ping bytes e srv
      else if id == open_connection_request1
      then answer_request_one bytes e srv
      else if id == open_connection_request2
      then answer_request_two now bytes e srv
      else done srv

  -- `handleMessage`
  unfoldable pub handle_message : ℕ → List ℕ → Endpoint → Server → Outcome Server
  handle_message now bytes e srv = elim (find e srv.connections) [
    | none ↦ handle_stranger now bytes e srv
    | some s ↦ settle_outcome e srv (receive io now bytes s)
  ]
