-- ===== src/Session/SoundOffline.antt =====
-- The invariant of a `NetworkSession`, for `handleClientOffline` and `handleServerOffline` of
-- packages/raknet/src/shared/network-session.ts.
use baltica.Base.{ℕ, ◌≤◌, ◌≡◌, refl, sym, subst, ◌∙◌, ◌||◌, List, min, arith}
use baltica.Base.Tests.{◌==◌, if_cases, option_cases}
use baltica.Stream.{BinaryStream}
use baltica.Packets.{
  unconnected_ping, unconnected_ping_open_connections, unconnected_pong, open_connection_request1,
  open_connection_reply1, open_connection_request2, open_connection_reply2, already_connected,
  incompatible_protocol_version,
}
use baltica.Packets.Offline.{
  read_unconnected_pong, read_open_connection_reply_one, read_open_connection_reply_two,
  read_unconnected_ping, read_open_connection_request_one, read_open_connection_request_two,
}
use baltica.Ordering.Preservation.{Ends}
use baltica.Outbound.{Outbound, Priority, frame_and_send}
use baltica.Outbound.Backup.{Tracks}
use baltica.Outbound.Stable.{Kept, IfSome, frame_and_send-Kept}
use baltica.Window.Gaps.{IsConsistent}
use baltica.Session.{Session, Peer, Status, Event, become, disconnect, error, incompatible_protocol}
use baltica.Session.Offline.{
  give_up, request_connection, set_mtu, clear_offline_retry, handle_client_offline,
  handle_server_offline, on_unconnected_pong, on_open_connection_reply_one,
  on_open_connection_reply_two, on_unconnected_ping, on_open_connection_request_one,
  on_open_connection_request_two,
}
use baltica.Session.Soundness.{PeerIsSound, IsSound}

module _ (io : BinaryStream) (mtu : ℕ) where
  -- A session whose peer is another sound one.
  with-IsSound :
      (s t : Session)
      → IsConsistent s.window
      → t.window ≡ s.window
      → Tracks t.peer.out
      → t.peer.out.mtu ≤ mtu
      → IsSound mtu t
  with-IsSound s t w e tr h = record {
    peer_sound = record { tracks = tr; mtu_below = h };
    window_consistent = subst IsConsistent (sym e) w;
  }

  same-Tracks :
      (o q : Outbound)
      → Tracks o
      → q.can_send ≡ o.can_send
      → q.output_backup ≡ o.output_backup
      → q.output_backup_timestamps ≡ o.output_backup_timestamps
      → q.output_sequence ≡ o.output_sequence
      → Tracks q
  same-Tracks o q t a b c d = record {
    can = a ∙ t.can;
    same_keys = λ k. rw (b, c) (t.same_keys k);
    used = λ k h. rw b (t.used k (rw d at h));
  }

  -- As above for an outbound half that differs only in its MTU, its timer and what is sent.
  pub step-IsSound :
      (s t : Session)
      → IsSound mtu s
      → t.window ≡ s.window
      → t.peer.out.can_send ≡ s.peer.out.can_send
      → t.peer.out.output_backup ≡ s.peer.out.output_backup
      → t.peer.out.output_backup_timestamps ≡ s.peer.out.output_backup_timestamps
      → t.peer.out.output_sequence ≡ s.peer.out.output_sequence
      → t.peer.out.mtu ≤ s.peer.out.mtu
      → IsSound mtu t
  step-IsSound s t v w a b c d h =
      with-IsSound s t v.window_consistent w
        (same-Tracks s.peer.out t.peer.out v.peer_sound.tracks a b c d)
        (omega (arith, v.peer_sound.mtu_below))

  cleared-IsSound : (s : Session) → IsSound mtu s → IsSound mtu (clear_offline_retry s)
  cleared-IsSound s v = step-IsSound s _ v refl refl refl refl refl (omega arith)

  pub given_up-IsSound :
      (event : Event) (s : Session) → IsSound mtu s → IsSound mtu (give_up event s)
  given_up-IsSound event s v = step-IsSound s _ v refl refl refl refl refl (omega arith)

  on_unconnected_pong-Ends :
      (bytes : List ℕ) (s : Session)
      → IsSound mtu s
      → Ends (IsSound mtu) (on_unconnected_pong io bytes s)
  unfolding on_unconnected_pong
  on_unconnected_pong-Ends bytes s v =
      option_cases (Ends (IsSound mtu)) (read_unconnected_pong io bytes) _ _ v
        λ x e. step-IsSound s _ v refl refl refl refl refl (omega arith)

  on_open_connection_reply_one-Ends :
      (now : ℕ) (bytes : List ℕ) (s : Session)
      → IsSound mtu s
      → Ends (IsSound mtu) (on_open_connection_reply_one io now bytes s)
  unfolding on_open_connection_reply_one
  on_open_connection_reply_one-Ends now bytes s v =
      option_cases (Ends (IsSound mtu)) (read_open_connection_reply_one io bytes) _ _ v
        λ x e. step-IsSound s _ v refl refl refl refl refl (omega arith)

  request_connection-Ends :
      (now : ℕ) (p : Peer) (s : Session)
      → IsConsistent s.window
      → PeerIsSound mtu p
      → Ends (IsSound mtu) (request_connection io now p s)
  unfolding request_connection
  request_connection-Ends now p s w v =
      option_cases (Ends (IsSound mtu)) (frame_and_send io now _ Priority.high p.out) _ _ tt
        λ out e. sent out (
          subst (IfSome io p.out.mtu) e (
            frame_and_send-Kept io p.out.mtu now _ Priority.high p.out
              (record { tracks = v.tracks; mtu_is = refl })))
    where
      sent :
          (out : Outbound)
          → Kept p.out.mtu out
          → IsSound mtu (record s { peer = record p { out = out } })
      sent out k = record {
        peer_sound = record { tracks = k.tracks; mtu_below = omega (arith, k.mtu_is, v.mtu_below) };
        window_consistent = w;
      }

  on_open_connection_reply_two-Ends :
      (now : ℕ) (bytes : List ℕ) (s : Session)
      → IsSound mtu s
      → Ends (IsSound mtu) (on_open_connection_reply_two io now bytes s)
  unfolding on_open_connection_reply_two
  on_open_connection_reply_two-Ends now bytes s v =
      option_cases (Ends (IsSound mtu)) (read_open_connection_reply_two io bytes) _ _ v λ x e.
        request_connection-Ends now _ s v.window_consistent
          (step-IsSound s
            (record s {
              peer = become Status.connecting (set_mtu (min s.peer.out.mtu x.mtu) s.peer);
            })
            v refl refl refl refl refl (omega arith)).peer_sound

  on_unconnected_ping-Ends :
      (bytes : List ℕ) (s : Session)
      → IsSound mtu s
      → Ends (IsSound mtu) (on_unconnected_ping io bytes s)
  unfolding on_unconnected_ping
  on_unconnected_ping-Ends bytes s v =
      option_cases (Ends (IsSound mtu)) (read_unconnected_ping io bytes) _ _ v
        λ x e. step-IsSound s _ v refl refl refl refl refl (omega arith)

  on_open_connection_request_one-Ends :
      (bytes : List ℕ) (s : Session)
      → IsSound mtu s
      → Ends (IsSound mtu) (on_open_connection_request_one io bytes s)
  unfolding on_open_connection_request_one
  on_open_connection_request_one-Ends bytes s v =
      option_cases (Ends (IsSound mtu)) (read_open_connection_request_one io bytes) _ _ v
        λ x e. step-IsSound s _ v refl refl refl refl refl (omega arith)

  on_open_connection_request_two-Ends :
      (bytes : List ℕ) (s : Session)
      → IsSound mtu s
      → Ends (IsSound mtu) (on_open_connection_request_two io bytes s)
  unfolding on_open_connection_request_two
  on_open_connection_request_two-Ends bytes s v =
      option_cases (Ends (IsSound mtu)) (read_open_connection_request_two io bytes) _ _ v
        λ x e. step-IsSound s _ v refl refl refl refl refl (omega arith)

  pub handle_client_offline-Ends :
      (now id : ℕ) (bytes : List ℕ) (s : Session)
      → IsSound mtu s
      → Ends (IsSound mtu) (handle_client_offline io now id bytes s)
  unfolding handle_client_offline
  handle_client_offline-Ends now id bytes s v =
      let c = cleared-IsSound s v in
      if_cases (Ends (IsSound mtu)) (id == unconnected_pong) (on_unconnected_pong-Ends bytes _ c) (
        if_cases (Ends (IsSound mtu)) (id == open_connection_reply1)
          (on_open_connection_reply_one-Ends now bytes _ c)
          (if_cases (Ends (IsSound mtu)) (id == open_connection_reply2)
            (on_open_connection_reply_two-Ends now bytes _ c)
            (if_cases (Ends (IsSound mtu)) (id == already_connected)
              (given_up-IsSound disconnect _ c)
              (if_cases (Ends (IsSound mtu)) (id == incompatible_protocol_version)
                (given_up-IsSound (error incompatible_protocol) _ c) v))))

  pub handle_server_offline-Ends :
      (id : ℕ) (bytes : List ℕ) (s : Session)
      → IsSound mtu s
      → Ends (IsSound mtu) (handle_server_offline io id bytes s)
  unfolding handle_server_offline
  handle_server_offline-Ends id bytes s v =
      if_cases (Ends (IsSound mtu))
        (id == unconnected_ping || id == unconnected_ping_open_connections)
        (on_unconnected_ping-Ends bytes s v)
        (if_cases (Ends (IsSound mtu)) (id == open_connection_request1)
          (on_open_connection_request_one-Ends bytes s v)
          (if_cases (Ends (IsSound mtu)) (id == open_connection_request2)
            (on_open_connection_request_two-Ends bytes s v) v))
