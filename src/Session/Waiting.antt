-- ===== src/Session/Waiting.antt =====
-- `sendOfflineWithRetry` of packages/raknet/src/shared/network-session.ts, and the client between its
-- first request and the second reply.
use baltica.Base.{
  ℕ, ◌≡◌, refl, sym, subst, ap, ◌∙◌, Bool, true, false, not, ◌&&◌, List, [], ◌∷◌, arith,
}
use baltica.Base.Tests.{◌==◌, leb, if_true, if_false, if_cases, option_cases}
use baltica.Base.Lists.{All}
use baltica.Stream.{BinaryStream}
use baltica.FrameSet.{frame_set_min, frame_set_max}
use baltica.Acknowledgement
use baltica.Acknowledgement.{Kind, packet_id}
use baltica.Ordering.{Outcome, done, thrown, endless}
use baltica.Ordering.Preservation.{Ends}
use baltica.Packets.{
  unconnected_pong, open_connection_reply1, open_connection_reply2, already_connected,
  incompatible_protocol_version,
}
use baltica.Packets.Offline.{read_unconnected_pong, read_open_connection_reply_one}
use baltica.Session.{Session, Status}
use baltica.Session.Offline.{
  on_unconnected_pong, on_open_connection_reply_one, handle_client_offline, send_offline_with_retry,
}
use baltica.Session.Receive.{on_ack_packet, on_nack_packet, receive_packet, receive}
use baltica.Session.Tick.{tick}
use baltica.Session.Ticks.{tick_disconnected}

-- A datagram comes in, or a timer calls `tick`.
pub data Step : Type 0 where
  comes : ℕ → List ℕ → Step
  ticks : ℕ → Step

-- A datagram that is neither the second reply nor a frame set.
abbrev pub is_early : List ℕ → Bool
is_early [] = true
is_early (id ∷ bytes) =
    not (id == open_connection_reply2) && not (leb frame_set_min id && leb id frame_set_max)

abbrev pub IsEarly : Step → Type 0
IsEarly (comes now bytes) = is_early bytes ≡ true
IsEarly (ticks now) = Unit {0}

unfoldable pub without_ticks : List Step → List Step
without_ticks [] = []
without_ticks (comes now bytes ∷ steps) = comes now bytes ∷ without_ticks steps
without_ticks (ticks now ∷ steps) = without_ticks steps

-- The session that a call leaves, however it ends.
abbrev pub left_by : Session → Outcome Session → Session
left_by s (done t) = t
left_by s (thrown t) = t
left_by s endless = s

-- The session of a client that is not connecting yet.
abbrev IsWaiting : Session → Type 0
IsWaiting s = (s.peer.client ≡ true) × (s.peer.status ≡ Status.disconnected)

left_by-IsWaiting :
    (s : Session) (x : Outcome Session) → IsWaiting s → Ends IsWaiting x → IsWaiting (left_by s x)
left_by-IsWaiting s (done t) w h = h
left_by-IsWaiting s (thrown t) w h = h
left_by-IsWaiting s endless w h = w

module _ (io : BinaryStream) where
  unfoldable pub run : List Step → Session → Session
  run [] s = s
  run (comes now bytes ∷ steps) s = run steps (left_by s (receive io now bytes s))
  run (ticks now ∷ steps) s = run steps (tick io now s)

  client_offline-IsWaiting :
      (now id : ℕ) (bytes : List ℕ) (s : Session)
      → IsWaiting s
      → (id == open_connection_reply2) ≡ false
      → Ends IsWaiting (handle_client_offline io now id bytes s)
  unfolding handle_client_offline on_unconnected_pong on_open_connection_reply_one
  client_offline-IsWaiting now id bytes s w n =
      if_cases (Ends IsWaiting) (id == unconnected_pong)
        (option_cases (Ends IsWaiting) (read_unconnected_pong io bytes) _ _ w λ x e. w)
        (if_cases (Ends IsWaiting) (id == open_connection_reply1)
          (option_cases (Ends IsWaiting) (read_open_connection_reply_one io bytes) _ _ w λ x e. w)
          (subst (Ends IsWaiting) (sym (if_false _ _ _ n)) (
            if_cases (Ends IsWaiting) (id == already_connected) (w.0, refl)
              (if_cases (Ends IsWaiting) (id == incompatible_protocol_version) (w.0, refl) w))))

  receive_packet-IsWaiting :
      (now id : ℕ) (bytes : List ℕ) (s : Session)
      → IsWaiting s
      → is_early (id ∷ bytes) ≡ true
      → Ends IsWaiting (receive_packet io now id bytes s)
  unfolding receive_packet on_ack_packet on_nack_packet
  receive_packet-IsWaiting now id bytes s w early =
      let no_reply : (id == open_connection_reply2) ≡ false = ground arith in
      let no_frames : (leb frame_set_min id && leb id frame_set_max) ≡ false = ground arith in
      if_cases (Ends IsWaiting) (id == packet_id Kind.ack)
        (option_cases (Ends IsWaiting) (Acknowledgement.deserialize io bytes) _ _ w λ x e. w)
        (if_cases (Ends IsWaiting) (id == packet_id Kind.nack)
          (option_cases (Ends IsWaiting) (Acknowledgement.deserialize io bytes) _ _ w λ x e. w)
          (subst (Ends IsWaiting) (sym (if_false _ _ _ no_frames)) (
            subst (Ends IsWaiting) (sym (if_true _ _ _ w.0))
              (client_offline-IsWaiting now id bytes s w no_reply))))

  receive-IsWaiting :
      (now : ℕ) (bytes : List ℕ) (s : Session)
      → IsWaiting s
      → is_early bytes ≡ true
      → Ends IsWaiting (receive io now bytes s)
  unfolding receive
  receive-IsWaiting now [] s w early = w
  receive-IsWaiting now (id ∷ bytes) s w early = receive_packet-IsWaiting now id bytes _ w early

  run-IsWaiting :
      (steps : List Step) (s : Session)
      → All IsEarly steps
      → IsWaiting s
      → (run steps s ≡ run (without_ticks steps) s)
        × ((run steps s).peer.status ≡ Status.disconnected)
  unfolding run without_ticks
  run-IsWaiting [] s early w = (refl, w.1)
  run-IsWaiting (comes now bytes ∷ steps) s (early, more) w =
      run-IsWaiting steps (left_by s (receive io now bytes s)) more
        (left_by-IsWaiting s (receive io now bytes s) w (receive-IsWaiting now bytes s w early))
  run-IsWaiting (ticks now ∷ steps) s (early, more) w =
      let same = tick_disconnected io now s w.1 in
      let rest = run-IsWaiting steps s more w in
      (ap (run steps) same ∙ rest.0, ap (λ t. (run steps t).peer.status) same ∙ rest.1)

  -- A client that is not connected sends a request. As long as neither a second reply nor a frame set
  -- comes in, its status stays disconnected and its timers do nothing: whatever other datagrams come
  -- in and however often `tick` runs between them, the session is the one that the datagrams alone
  -- make, so that no request is sent again and no timeout is reported.
  pub send_offline_with_retry_never_retries :
      (now : ℕ) (request : List ℕ) (steps : List Step) (s : Session)
      → s.peer.client ≡ true
      → s.peer.status ≡ Status.disconnected
      → All IsEarly steps
      → let t = send_offline_with_retry now request s in
        (run steps t ≡ run (without_ticks steps) t)
        × ((run steps t).peer.status ≡ Status.disconnected)
  send_offline_with_retry_never_retries now request steps s c d early =
      run-IsWaiting steps (send_offline_with_retry now request s) early (c, d)
