-- ===== src/Session/Soundness.antt =====
-- The invariant of a `NetworkSession` of packages/raknet/src/shared/network-session.ts, for
-- `handleOnlinePacket` and `onFrameSet`.
use baltica.Base.{ℕ, ◌≤◌, ◌≡◌, refl, subst, Bool, true, false, some, List, [], ◌∷◌, arith}
use baltica.Base.Tests.{◌==◌, if◌then◌else◌, some_injective, if_cases, option_cases}
use baltica.Stream.{BinaryStream}
use baltica.Packets.{
  connection_request_accepted, connection_request, new_incoming_connection, connected_ping,
  connected_pong, disconnection_notification,
}
use baltica.Frame.{Frame, is_reliable, is_sequenced, is_ordered, is_split}
use baltica.FrameSet.{FrameSet}
use baltica.Packets.Online.{
  read_connection_request_accepted, read_connection_request, read_connected_ping,
}
use baltica.Ordering.{Outcome, done, thrown, endless, Ordering}
use baltica.Ordering.Preservation.{Ends, Ends-bind, handle_sequenced-Ends, handle_ordered-Ends}
use baltica.Fragment.{handle_split}
use baltica.Outbound.{Outbound, Priority, frame_and_send}
use baltica.Outbound.Backup.{Tracks}
use baltica.Outbound.Stable.{Kept, IfSome, frame_and_send-Kept}
use baltica.Window.{Window, note_sequence, note_reliable}
use baltica.Window.Gaps.{IsConsistent, note_sequence-IsConsistent, note_reliable-IsConsistent}
use baltica.Session.{
  Session, Peer, Status, Event, emit, become, game_packet_id, encapsulated, answer,
  handle_online_packet, on_connection_request_accepted, on_connection_request, on_connected_ping,
  connect, disconnect,
}
use baltica.Session.Receive.{
  with_peer, with_ordering, route, split, dispatch, handle_frame, handle_frames, schedule_ack,
  on_frame_set,
}

-- The sending half is sound, and its MTU is not above `mtu`.
pub record PeerIsSound (mtu : ℕ) (p : Peer) : Type 0 where
  pub tracks : Tracks p.out
  pub mtu_below : p.out.mtu ≤ mtu

pub record IsSound (mtu : ℕ) (s : Session) : Type 0 where
  pub peer_sound : PeerIsSound mtu s.peer
  pub window_consistent : IsConsistent s.window

admitted :
    (reliable : Bool) (index : ℕ) (w w' : Window)
    → IsConsistent w
    → (if reliable then note_reliable index w else some w) ≡ some w'
    → IsConsistent w'
admitted true index w w' v e = note_reliable-IsConsistent index w w' v e
admitted false index w w' v e = subst IsConsistent (some_injective e) v

module _ (io : BinaryStream) (mtu : ℕ) where
  answer-Ends :
      (now : ℕ) (bytes : List ℕ) (p : Peer) (next : Peer → Peer)
      → ((q : Peer) → PeerIsSound mtu q → PeerIsSound mtu (next q))
      → PeerIsSound mtu p
      → Ends (PeerIsSound mtu) (answer io now bytes p next)
  unfolding answer
  answer-Ends now bytes p next keeps v =
      option_cases (Ends (PeerIsSound mtu)) (frame_and_send io now bytes Priority.high p.out) _ _ tt
        λ out e. keeps _ (
          sent out (
            subst (IfSome io p.out.mtu) e (
              frame_and_send-Kept io p.out.mtu now bytes Priority.high p.out
                (record { tracks = v.tracks; mtu_is = refl }))))
    where
      sent : (out : Outbound) → Kept p.out.mtu out → PeerIsSound mtu (record p { out = out })
      sent out k = record { tracks = k.tracks; mtu_below = omega (arith, k.mtu_is, v.mtu_below) }

  emit-PeerIsSound :
      (event : Event) (status : Status) (p : Peer)
      → PeerIsSound mtu p
      → PeerIsSound mtu (emit event (become status p))
  emit-PeerIsSound event status p v = record { tracks = v.tracks; mtu_below = v.mtu_below }

  emitted-PeerIsSound :
      (event : Event) (p : Peer) → PeerIsSound mtu p → PeerIsSound mtu (emit event p)
  emitted-PeerIsSound event p v = record { tracks = v.tracks; mtu_below = v.mtu_below }

  on_connection_request_accepted-Ends :
      (now : ℕ) (bytes : List ℕ) (p : Peer)
      → PeerIsSound mtu p
      → Ends (PeerIsSound mtu) (on_connection_request_accepted io now bytes p)
  unfolding on_connection_request_accepted
  on_connection_request_accepted-Ends now bytes p v =
      option_cases (Ends (PeerIsSound mtu)) (read_connection_request_accepted io bytes) _ _ v
        λ x e. answer-Ends now _ p _ (emit-PeerIsSound connect Status.connected) v

  on_connection_request-Ends :
      (now : ℕ) (bytes : List ℕ) (p : Peer)
      → PeerIsSound mtu p
      → Ends (PeerIsSound mtu) (on_connection_request io now bytes p)
  unfolding on_connection_request
  on_connection_request-Ends now bytes p v =
      option_cases (Ends (PeerIsSound mtu)) (read_connection_request io bytes) _ _ v
        λ x e. answer-Ends now _ p _ (λ q h. h) v

  on_connected_ping-Ends :
      (now : ℕ) (bytes : List ℕ) (p : Peer)
      → PeerIsSound mtu p
      → Ends (PeerIsSound mtu) (on_connected_ping io now bytes p)
  unfolding on_connected_ping
  on_connected_ping-Ends now bytes p v =
      option_cases (Ends (PeerIsSound mtu)) (read_connected_ping io bytes) _ _ v
        λ x e. answer-Ends now _ p _ (λ q h. h) v

  pub handle_online_packet-Ends :
      (now : ℕ) (bytes : List ℕ) (p : Peer)
      → PeerIsSound mtu p
      → Ends (PeerIsSound mtu) (handle_online_packet io now bytes p)
  unfolding handle_online_packet
  handle_online_packet-Ends now [] p v = v
  handle_online_packet-Ends now (id ∷ bytes) p v =
      if_cases (Ends (PeerIsSound mtu)) (id == connection_request_accepted)
        (if_cases (Ends (PeerIsSound mtu)) p.client
          (on_connection_request_accepted-Ends now bytes p v) v)
        (if_cases (Ends (PeerIsSound mtu)) (id == connection_request)
          (if_cases (Ends (PeerIsSound mtu)) p.client v (on_connection_request-Ends now bytes p v))
          (if_cases (Ends (PeerIsSound mtu)) (id == new_incoming_connection)
            (if_cases (PeerIsSound mtu) p.client v (emit-PeerIsSound connect Status.connected p v))
            (if_cases (Ends (PeerIsSound mtu)) (id == connected_ping)
              (on_connected_ping-Ends now bytes p v)
              (if_cases (Ends (PeerIsSound mtu)) (id == connected_pong) v (
                if_cases (Ends (PeerIsSound mtu)) (id == disconnection_notification)
                  (emit-PeerIsSound disconnect Status.disconnected p v)
                  (if_cases (Ends (PeerIsSound mtu)) (id == game_packet_id)
                    (emitted-PeerIsSound (encapsulated (id ∷ bytes)) p v) v))))))

  with_peer-Ends :
      (s : Session) (x : Outcome Peer)
      → IsConsistent s.window
      → Ends (PeerIsSound mtu) x
      → Ends (IsSound mtu) (with_peer s x)
  with_peer-Ends s (done p) w h = record { peer_sound = h; window_consistent = w }
  with_peer-Ends s (thrown p) w h = record { peer_sound = h; window_consistent = w }
  with_peer-Ends s endless w h = tt

  with_ordering-Ends :
      (s : Session) (x : Outcome (Ordering × Peer))
      → IsConsistent s.window
      → Ends (λ y. PeerIsSound mtu y.1) x
      → Ends (IsSound mtu) (with_ordering s x)
  with_ordering-Ends s (done p) w h = record { peer_sound = h; window_consistent = w }
  with_ordering-Ends s (thrown p) w h = record { peer_sound = h; window_consistent = w }
  with_ordering-Ends s endless w h = tt

  route-Ends :
      (now : ℕ) (f : Frame) (s : Session) → IsSound mtu s → Ends (IsSound mtu) (route io now f s)
  unfolding route
  route-Ends now f s v =
      let keeps = handle_online_packet-Ends now in
      if_cases (Ends (IsSound mtu)) (is_sequenced f)
        (with_ordering-Ends s _ v.window_consistent
          (handle_sequenced-Ends _ (PeerIsSound mtu) keeps f s.ordering s.peer v.peer_sound))
        (if_cases (Ends (IsSound mtu)) (is_ordered f)
          (with_ordering-Ends s _ v.window_consistent
            (handle_ordered-Ends _ (PeerIsSound mtu) keeps f s.ordering s.peer v.peer_sound))
          (with_peer-Ends s _ v.window_consistent (keeps f.payload s.peer v.peer_sound)))

  dispatch-Ends :
      (now : ℕ) (f : Frame) (s : Session) → IsSound mtu s → Ends (IsSound mtu) (dispatch io now f s)
  unfolding dispatch split
  dispatch-Ends now f s v =
      if_cases (Ends (IsSound mtu)) (is_split f)
        (option_cases (Ends (IsSound mtu)) (handle_split f now s.fragments).1 _ _
          (record { peer_sound = v.peer_sound; window_consistent = v.window_consistent })
          λ g e.
            route-Ends now g _
              (record { peer_sound = v.peer_sound; window_consistent = v.window_consistent }))
        (route-Ends now f s v)

  handle_frame-Ends :
      (now : ℕ) (f : Frame) (s : Session)
      → IsSound mtu s
      → Ends (IsSound mtu) (handle_frame io now f s)
  unfolding handle_frame
  handle_frame-Ends now f s v =
      option_cases (Ends (IsSound mtu))
        (if is_reliable f then note_reliable f.reliable_frame_index s.window else some s.window) _ _
        v
        λ w e. dispatch-Ends now f _ (record {
          peer_sound = v.peer_sound;
          window_consistent =
              admitted (is_reliable f) f.reliable_frame_index s.window w v.window_consistent e;
        })

  handle_frames-Ends :
      (now : ℕ) (fs : List Frame) (s : Session)
      → IsSound mtu s
      → Ends (IsSound mtu) (handle_frames io now fs s)
  unfolding handle_frames
  handle_frames-Ends now [] s v = v
  handle_frames-Ends now (f ∷ fs) s v =
      Ends-bind (IsSound mtu) (IsSound mtu) (handle_frame io now f s) _ _
        (handle_frame-Ends now f s v) (λ t h. handle_frames-Ends now fs t h) (λ t h. h)

  pub on_frame_set-Ends :
      (now : ℕ) (fs : FrameSet) (s : Session)
      → IsSound mtu s
      → Ends (IsSound mtu) (on_frame_set io now fs s)
  unfolding on_frame_set
  on_frame_set-Ends now fs s v =
      option_cases (Ends (IsSound mtu)) (note_sequence fs.sequence s.window) _ _ v λ w e.
        scheduled _ (
          handle_frames-Ends now fs.frames _ (record {
            peer_sound = v.peer_sound;
            window_consistent =
                note_sequence-IsConsistent fs.sequence s.window w v.window_consistent e;
          }))
    where
      scheduled :
          (x : Outcome Session) → Ends (IsSound mtu) x → Ends (IsSound mtu) (schedule_ack io x)
      scheduled (done t) h = record {
        peer_sound = h.peer_sound;
        window_consistent = h.window_consistent;
      }
      scheduled (thrown t) h = h
      scheduled endless h = h
