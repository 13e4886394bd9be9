-- ===== src/Session/Receive.antt =====
-- `receive`, `onFrameSet` and `handleFrame` of `NetworkSession` of
-- packages/raknet/src/shared/network-session.ts. What an exception leaves behind is kept.
use baltica.Base.{ℕ, true, ◌&&◌, none, some, List, [], ◌∷◌}
use baltica.Base.Tests.{◌==◌, leb, if◌then◌else◌}
use baltica.Stream.{BinaryStream}
use baltica.Frame.{Frame, is_reliable, is_sequenced, is_ordered, is_split}
use baltica.FrameSet
use baltica.FrameSet.{FrameSet, frame_set_min, frame_set_max}
use baltica.Acknowledgement
use baltica.Acknowledgement.{Kind, packet_id}
use baltica.Ordering.{Outcome, done, thrown, endless, Ordering, handle_sequenced, handle_ordered}
use baltica.Fragment.{handle_split}
use baltica.Outbound.{on_ack, on_nack}
use baltica.Window.{note_sequence, note_reliable}
use baltica.Session.{Session, Peer, handle_online_packet}
use baltica.Session.Offline.{handle_client_offline, handle_server_offline}

abbrev pub with_peer : Session → Outcome Peer → Outcome Session
with_peer s (done p) = done (record s { peer = p })
with_peer s (thrown p) = thrown (record s { peer = p })
with_peer s endless = endless

abbrev pub with_ordering : Session → Outcome (Ordering × Peer) → Outcome Session
with_ordering s (done (o, p)) = done (record s { ordering = o; peer = p })
with_ordering s (thrown (o, p)) = thrown (record s { ordering = o; peer = p })
with_ordering s endless = endless

module _ (io : BinaryStream) where
  -- The last three branches of `handleFrame`, which are those of `handleSplit` too.
  unfoldable pub route : ℕ → Frame → Session → Outcome Session
  route now f s =
      if is_sequenced f
      then with_ordering s (handle_sequenced (handle_online_packet io now) f s.ordering s.peer)
      else if is_ordered f
      then with_ordering s (handle_ordered (handle_online_packet io now) f s.ordering s.peer)
      else with_peer s (handle_online_packet io now f.payload s.peer)

  -- `handleSplit`
  unfoldable pub split : ℕ → Frame → Session → Outcome Session
  split now f s =
      let (queue, whole) = handle_split f now s.fragments in
      let s : Session = record s { fragments = queue } in
      elim whole [ none ↦ done s | some g ↦ route now g s ]

  unfoldable pub dispatch : ℕ → Frame → Session → Outcome Session
  dispatch now f s = if is_split f then split now f s else route now f s

  -- `handleFrame`
  unfoldable pub handle_frame : ℕ → Frame → Session → Outcome Session
  handle_frame now f s =
      elim (if is_reliable f
        then note_reliable f.reliable_frame_index s.window
        else some s.window) [ none ↦ done s | some w ↦ dispatch now f (record s { window = w }) ]

  unfoldable pub handle_frames : ℕ → List Frame → Session → Outcome Session
  handle_frames now [] s = done s
  handle_frames now (f ∷ fs) s = elim (handle_frame now f s) [
    | done s ↦ handle_frames now fs s
    | thrown s ↦ thrown s
    | endless ↦ endless
  ]

  -- The timer that calls `tick` soon.
  abbrev pub schedule_ack : Outcome Session → Outcome Session
  schedule_ack (done s) = done (record s { ack_timer = true })
  schedule_ack (thrown s) = thrown s
  schedule_ack endless = endless

  -- `onFrameSet`
  unfoldable pub on_frame_set : ℕ → FrameSet → Session → Outcome Session
  on_frame_set now fs s = elim (note_sequence fs.sequence s.window) [
    | none ↦ done s
    | some w ↦ schedule_ack (handle_frames now fs.frames (record s { window = w }))
  ]

  unfoldable pub on_ack_packet : List ℕ → Session → Outcome Session
  on_ack_packet bytes s = elim (Acknowledgement.deserialize io bytes) [
    | none ↦ thrown s
    | some seqs ↦ done (record s { peer = record s.peer { out = on_ack seqs s.peer.out } })
  ]

  unfoldable pub on_nack_packet : List ℕ → Session → Outcome Session
  on_nack_packet bytes s = elim (Acknowledgement.deserialize io bytes) [
    | none ↦ thrown s
    | some seqs ↦ done (record s { peer = record s.peer { out = on_nack io seqs s.peer.out } })
  ]

  unfoldable pub on_frame_set_packet : ℕ → List ℕ → Session → Outcome Session
  on_frame_set_packet now bytes s = elim (FrameSet.deserialize io bytes) [
    | none ↦ thrown s
    | some fs ↦ on_frame_set now fs s
  ]

  -- The branches of `receive` on a datagram with an identifier.
  unfoldable pub receive_packet : ℕ → ℕ → List ℕ → Session → Outcome Session
  receive_packet now id bytes s =
      if id == packet_id Kind.ack
      then on_ack_packet bytes s
      else if id == packet_id Kind.nack
      then on_nack_packet bytes s
      else if leb frame_set_min id && leb id frame_set_max
      then on_frame_set_packet now bytes s
      else if s.peer.client
      then handle_client_offline io now id bytes s
      else handle_server_offline io id bytes s

  -- `receive`; an empty datagram has no identifier and no case.
  unfoldable pub receive : ℕ → List ℕ → Session → Outcome Session
  receive now [] s = done (record s { last_received_at = now })
  receive now (id ∷ bytes) s = receive_packet now id bytes (record s { last_received_at = now })
