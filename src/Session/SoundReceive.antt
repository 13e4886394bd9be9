-- ===== src/Session/SoundReceive.antt =====
-- The invariant of a `NetworkSession`, for `receive` of
-- packages/raknet/src/shared/network-session.ts.
use baltica.Base.{ℕ, refl, ◌&&◌, List, [], ◌∷◌, arith}
use baltica.Base.Tests.{◌==◌, leb, if_cases, option_cases}
use baltica.Stream.{BinaryStream}
use baltica.FrameSet
use baltica.FrameSet.{frame_set_min, frame_set_max}
use baltica.Acknowledgement
use baltica.Acknowledgement.{Kind, packet_id}
use baltica.Ordering.Preservation.{Ends}
use baltica.Outbound.{Outbound}
use baltica.Outbound.Stable.{Kept, on_ack-Kept, on_nack-Kept}
use baltica.Session.{Session}
use baltica.Session.Receive.{
  on_ack_packet, on_nack_packet, on_frame_set_packet, receive_packet, receive,
}
use baltica.Session.Soundness.{IsSound, on_frame_set-Ends}
use baltica.Session.SoundOffline.{handle_client_offline-Ends, handle_server_offline-Ends}

module _ (io : BinaryStream) (mtu : ℕ) where
  Kept-IsSound :
      (s : Session) (o : Outbound)
      → IsSound mtu s
      → Kept s.peer.out.mtu o
      → IsSound mtu (record s { peer = record s.peer { out = o } })
  Kept-IsSound s o v k = record {
    peer_sound = record {
      tracks = k.tracks;
      mtu_below = omega (arith, k.mtu_is, v.peer_sound.mtu_below);
    };
    window_consistent = v.window_consistent;
  }

  self-Kept : (s : Session) → IsSound mtu s → Kept s.peer.out.mtu s.peer.out
  self-Kept s v = record { tracks = v.peer_sound.tracks; mtu_is = refl }

  on_ack_packet-Ends :
      (bytes : List ℕ) (s : Session) → IsSound mtu s → Ends (IsSound mtu) (on_ack_packet io bytes s)
  unfolding on_ack_packet
  on_ack_packet-Ends bytes s v =
      option_cases (Ends (IsSound mtu)) (Acknowledgement.deserialize io bytes) _ _ v
        λ seqs e. Kept-IsSound s _ v (on_ack-Kept _ seqs _ (self-Kept s v))

  on_nack_packet-Ends :
      (bytes : List ℕ) (s : Session)
      → IsSound mtu s
      → Ends (IsSound mtu) (on_nack_packet io bytes s)
  unfolding on_nack_packet
  on_nack_packet-Ends bytes s v =
      option_cases (Ends (IsSound mtu)) (Acknowledgement.deserialize io bytes) _ _ v
        λ seqs e. Kept-IsSound s _ v (on_nack-Kept io _ seqs _ (self-Kept s v))

  on_frame_set_packet-Ends :
      (now : ℕ) (bytes : List ℕ) (s : Session)
      → IsSound mtu s
      → Ends (IsSound mtu) (on_frame_set_packet io now bytes s)
  unfolding on_frame_set_packet
  on_frame_set_packet-Ends now bytes s v =
      option_cases (Ends (IsSound mtu)) (FrameSet.deserialize io bytes) _ _ v
        λ fs e. on_frame_set-Ends io mtu now fs s v

  receive_packet-Ends :
      (now id : ℕ) (bytes : List ℕ) (s : Session)
      → IsSound mtu s
      → Ends (IsSound mtu) (receive_packet io now id bytes s)
  unfolding receive_packet
  receive_packet-Ends now id bytes s v =
      if_cases (Ends (IsSound mtu)) (id == packet_id Kind.ack) (on_ack_packet-Ends bytes s v) (
        if_cases (Ends (IsSound mtu)) (id == packet_id Kind.nack) (on_nack_packet-Ends bytes s v) (
          if_cases (Ends (IsSound mtu)) (leb frame_set_min id && leb id frame_set_max)
            (on_frame_set_packet-Ends now bytes s v)
            (if_cases (Ends (IsSound mtu)) s.peer.client
              (handle_client_offline-Ends io mtu now id bytes s v)
              (handle_server_offline-Ends io mtu id bytes s v))))

  -- Whatever comes in, however `receive` ends, the session stays sound, and its MTU never grows.
  pub receive-IsSound :
      (now : ℕ) (bytes : List ℕ) (s : Session)
      → IsSound mtu s
      → Ends (IsSound mtu) (receive io now bytes s)
  unfolding receive
  receive-IsSound now [] s v = record {
    peer_sound = v.peer_sound;
    window_consistent = v.window_consistent;
  }
  receive-IsSound now (id ∷ bytes) s v =
      receive_packet-Ends now id bytes _
        (record { peer_sound = v.peer_sound; window_consistent = v.window_consistent })
