-- ===== src/Session/Offline.antt =====
-- The packets outside frames of `NetworkSession` of packages/raknet/src/shared/network-session.ts:
-- `handleClientOffline`, `handleServerOffline` and the offline retry.
use baltica.Base.{ℕ, Bool, true, false, ◌||◌, Option, none, some, List, [], ◌∷◌, ◌++◌, min}
use baltica.Base.Tests.{◌==◌, if◌then◌else◌}
use baltica.Stream.{BinaryStream}
use baltica.Packets.{
  unconnected_ping, unconnected_ping_open_connections, unconnected_pong, open_connection_request1,
  open_connection_reply1, open_connection_request2, open_connection_reply2, already_connected,
  incompatible_protocol_version,
}
use baltica.Packets.Offline.{
  read_unconnected_ping, write_unconnected_pong, read_unconnected_pong,
  read_open_connection_request_one, write_open_connection_reply_one, read_open_connection_reply_one,
  read_open_connection_request_two, write_open_connection_request_two,
  read_open_connection_reply_two, write_open_connection_reply_two,
}
use baltica.Packets.Online.{write_connection_request}
use baltica.Ordering.{Outcome, done, thrown, endless}
use baltica.Outbound.{Priority, frame_and_send}
use baltica.Session.{
  Session, Peer, Status, Event, emit, become, incompatible_protocol, pong, disconnect, error,
}

-- `this.send(bytes)`
abbrev pub send : List ℕ → Peer → Peer
send bytes p = record p { out = record p.out { sent = p.out.sent ++ bytes ∷ [] } }

abbrev pub set_mtu : ℕ → Peer → Peer
set_mtu mtu p = record p { out = record p.out { mtu = mtu } }

abbrev pub set_timer : Bool → Peer → Peer
set_timer set p = record p { out = record p.out { retransmit_timer = set } }

-- `sendOfflineWithRetry`
abbrev pub send_offline_with_retry : ℕ → List ℕ → Session → Session
send_offline_with_retry now bytes s = record s {
  offline_retry = some (record {
    data_sent = bytes;
    attempts = 1;
    max_attempts = s.max_retransmit;
    last_sent = now;
    interval = s.peer.out.retransmit_interval;
  });
  peer = set_timer true (send bytes s.peer);
}

-- `clearOfflineRetry`
abbrev pub clear_offline_retry : Session → Session
clear_offline_retry s = record s { offline_retry = none; peer = set_timer false s.peer }

-- `this.status = Status.Disconnected; this.emit(event)`
abbrev pub give_up : Event → Session → Session
give_up event s = record s { peer = emit event (become Status.disconnected s.peer) }

module _ (io : BinaryStream) where
  unfoldable pub on_unconnected_pong : List ℕ → Session → Outcome Session
  on_unconnected_pong bytes s = elim (read_unconnected_pong io bytes) [
    | none ↦ thrown s
    | some reply ↦ done (record s {
      peer =
          emit (pong reply.message)
            (record s.peer { server_message = some reply.message; remote_guid = reply.guid });
    })
  ]

  unfoldable pub on_open_connection_reply_one : ℕ → List ℕ → Session → Outcome Session
  on_open_connection_reply_one now bytes s = elim (read_open_connection_reply_one io bytes) [
    | none ↦ thrown s
    | some reply ↦
        let mtu = min s.peer.out.mtu reply.mtu in
        done (
          send_offline_with_retry now
            (write_open_connection_request_two io (record {
              address = s.peer.address;
              mtu = mtu;
              guid = s.peer.guid;
              cookie = reply.cookie;
              client_supports_security = false;
            }))
            (record s { peer = set_mtu mtu (record s.peer { remote_guid = reply.guid }) }))
  ]

  -- `frameAndSend` of a `ConnectionRequest`, once the peer's fields are set.
  unfoldable pub request_connection : ℕ → Peer → Session → Outcome Session
  request_connection now p s =
      elim (frame_and_send io now
        (write_connection_request io
          (record { guid = p.guid; timestamp = now; use_security = false }))
        Priority.high p.out) [
          | none ↦ endless
          | some out ↦ done (record s { peer = record p { out = out } })
        ]

  unfoldable pub on_open_connection_reply_two : ℕ → List ℕ → Session → Outcome Session
  on_open_connection_reply_two now bytes s = elim (read_open_connection_reply_two io bytes) [
    | none ↦ thrown s
    | some reply ↦
        request_connection now
          (become Status.connecting (set_mtu (min s.peer.out.mtu reply.mtu) s.peer)) s
  ]

  -- `handleClientOffline`
  unfoldable pub handle_client_offline : ℕ → ℕ → List ℕ → Session → Outcome Session
  handle_client_offline now id bytes s =
      if id == unconnected_pong
      then on_unconnected_pong bytes (clear_offline_retry s)
      else if id == open_connection_reply1
      then on_open_connection_reply_one now bytes (clear_offline_retry s)
      else if id == open_connection_reply2
      then on_open_connection_reply_two now bytes (clear_offline_retry s)
      else if id == already_connected
      then done (give_up disconnect (clear_offline_retry s))
      else if id == incompatible_protocol_version
      then done (give_up (error incompatible_protocol) (clear_offline_retry s))
      else done s

  abbrev message_of : Option (List ℕ) → List ℕ
  message_of none = []
  message_of (some message) = message

  unfoldable pub on_unconnected_ping : List ℕ → Session → Outcome Session
  on_unconnected_ping bytes s = elim (read_unconnected_ping io bytes) [
    | none ↦ thrown s
    | some ping ↦ done (record s {
      peer =
          send
            (write_unconnected_pong io (record {
              timestamp = ping.timestamp;
              guid = s.peer.guid;
              message = message_of s.peer.server_message;
            }))
            s.peer;
    })
  ]

  unfoldable pub on_open_connection_request_one : List ℕ → Session → Outcome Session
  on_open_connection_request_one bytes s = elim (read_open_connection_request_one io bytes) [
    | none ↦ thrown s
    | some request ↦ done (record s {
      peer =
          send
            (write_open_connection_reply_one io (record {
              guid = s.peer.guid;
              security = false;
              has_cookie = false;
              cookie = none;
              server_public_key = none;
              mtu = min s.peer.out.mtu request.mtu;
            }))
            s.peer;
    })
  ]

  unfoldable pub on_open_connection_request_two : List ℕ → Session → Outcome Session
  on_open_connection_request_two bytes s = elim (read_open_connection_request_two io bytes) [
    | none ↦ thrown s
    | some request ↦
        let mtu = min s.peer.out.mtu request.mtu in
        let p =
          set_mtu mtu (record s.peer { remote_guid = request.guid; address = request.address }) in
        done (record s {
          peer = become Status.connecting (
              send
                (write_open_connection_reply_two io (record {
                  guid = p.guid;
                  address = request.address;
                  mtu = mtu;
                  encryption_enabled = false;
                }))
                p);
        })
  ]

  -- `handleServerOffline`
  unfoldable pub handle_server_offline : ℕ → List ℕ → Session → Outcome Session
  handle_server_offline id bytes s =
      if (id == unconnected_ping) || (id == unconnected_ping_open_connections)
      then on_unconnected_ping bytes s
      else if id == open_connection_request1
      then on_open_connection_request_one bytes s
      else if id == open_connection_request2
      then on_open_connection_request_two bytes s
      else done s
