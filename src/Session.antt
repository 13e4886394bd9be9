-- ===== src/Session.antt =====
-- `NetworkSession` of packages/raknet/src/shared/network-session.ts as a whole: its state, the
-- handling of the packets inside frames, and of what comes in.
--
-- `this.send` is set; what it is called with is appended to `sent`. `emit` appends to `events`. The
-- fields that only sending, only ordering or only the receive window use are in the records of those
-- modules.
pub mod Offline
pub mod Receive
pub mod Tick
pub mod Duplicates
pub mod Repeats
pub mod Soundness
pub mod SoundOffline
pub mod SoundReceive
pub mod Ticks
pub mod Waiting
pub mod Handed
pub mod Arrivals
pub mod Quiet
pub mod Keepalive
pub mod Network
pub mod Transport
use baltica.Base.{ℕ, zero, suc, ◌+◌, Bool, true, false, Option, none, some, List, [], ◌∷◌, ◌++◌}
use baltica.Base.Tests.{◌==◌, if◌then◌else◌}
use baltica.Base.Maps.{Map}
use baltica.Stream.{BinaryStream}
use baltica.Address.{Address, any_address}
use baltica.Packets.{
  connection_request_accepted, connection_request, new_incoming_connection, connected_ping,
  connected_pong, disconnection_notification,
}
use baltica.Packets.Online.{
  read_connection_request_accepted, write_connection_request_accepted, read_connection_request,
  write_new_incoming_connection, read_connected_ping, write_connected_pong,
}
use baltica.Fragment.{Entry}
use baltica.Ordering.{Outcome, done, thrown, endless, Ordering}
use baltica.Outbound.{Outbound, Priority, frame_and_send}
use baltica.Window.{Window}

-- packages/raknet/src/shared/proto/enums/status.ts
pub data Status : Type 0 where
  connecting connected disconnecting disconnected : Status

pub data Failure : Type 0 where
  timed_out incompatible_protocol : Failure

-- `NetworkEvents`
pub data Event : Type 0 where
  encapsulated : List ℕ → Event
  pong : List ℕ → Event
  connect : Event
  disconnect : Event
  error : Failure → Event

-- The fields that the handling of a packet inside a frame reads or sets.
pub record Peer : Type 0 where
  pub client : Bool
  pub guid : ℕ
  pub remote_guid : ℕ
  pub status : Status
  pub address : Address
  pub server_message : Option (List ℕ)
  pub out : Outbound
  pub events : List Event

pub record OfflineRetry : Type 0 where
  pub data_sent : List ℕ
  pub attempts : ℕ
  pub max_attempts : ℕ
  pub last_sent : ℕ
  pub interval : ℕ

pub record Session : Type 0 where
  pub peer : Peer
  pub window : Window
  pub ordering : Ordering
  pub fragments : Map Entry
  pub max_retransmit : ℕ
  pub stale_timeout : ℕ
  pub last_received_at : ℕ
  pub offline_retry : Option OfflineRetry
  pub ack_timer : Bool
  pub last_cleanup : ℕ

abbrev pub emit : Event → Peer → Peer
emit event p = record p { events = p.events ++ event ∷ [] }

abbrev pub become : Status → Peer → Peer
become status p = record p { status = status }

-- `new Address("0.0.0.0", 0, 4)`
abbrev pub no_address : Address
no_address = record { address = any_address; port = 0; version = 4 }

abbrev pub repeat {ℓ} : {A : Type ℓ} → ℕ → A → List A
repeat zero a = []
repeat (suc n) a = a ∷ repeat n a

abbrev pub game_packet_id : ℕ
game_packet_id = 0xfe

module _ (io : BinaryStream) where
  -- `frameAndSend(bytes, Priority.High)`, and what follows it.
  unfoldable pub answer : ℕ → List ℕ → Peer → (Peer → Peer) → Outcome Peer
  answer now bytes p next = elim (frame_and_send io now bytes Priority.high p.out) [
    | none ↦ endless
    | some out ↦ done (next (record p { out = out }))
  ]

  unfoldable pub on_connection_request_accepted : ℕ → List ℕ → Peer → Outcome Peer
  on_connection_request_accepted now bytes p = elim (read_connection_request_accepted io bytes) [
    | none ↦ thrown p
    | some accepted ↦
        answer now
          (write_new_incoming_connection io (record {
            address = p.address;
            internal_address = no_address;
            incoming_timestamp = accepted.request_timestamp;
            server_timestamp = now;
          }))
          p (λ p. emit connect (become Status.connected p))
  ]

  unfoldable pub on_connection_request : ℕ → List ℕ → Peer → Outcome Peer
  on_connection_request now bytes p = elim (read_connection_request io bytes) [
    | none ↦ thrown p
    | some request ↦
        answer now
          (write_connection_request_accepted io (record {
            address = p.address;
            system_index = 0;
            addresses = repeat 20 no_address;
            request_timestamp = request.timestamp;
            timestamp = now;
          }))
          p (λ p. p)
  ]

  unfoldable pub on_connected_ping : ℕ → List ℕ → Peer → Outcome Peer
  on_connected_ping now bytes p = elim (read_connected_ping io bytes) [
    | none ↦ thrown p
    | some ping ↦
        answer now
          (write_connected_pong io
            (record { ping_timestamp = ping.timestamp; pong_timestamp = now }))
          p (λ p. p)
  ]

  -- `handleOnlinePacket`; an empty payload has no identifier and no case.
  unfoldable pub handle_online_packet : ℕ → List ℕ → Peer → Outcome Peer
  handle_online_packet now [] p = done p
  handle_online_packet now (id ∷ bytes) p =
      if id == connection_request_accepted
      then (if p.client then on_connection_request_accepted now bytes p else done p)
      else if id == connection_request
      then (if p.client then done p else on_connection_request now bytes p)
      else if id == new_incoming_connection
      then done (if p.client then p else emit connect (become Status.connected p))
      else if id == connected_ping
      then on_connected_ping now bytes p
      else if id == connected_pong
      then done p
      else if id == disconnection_notification
      then done (emit disconnect (become Status.disconnected p))
      else if id == game_packet_id
      then done (emit (encapsulated (id ∷ bytes)) p)
      else done p
