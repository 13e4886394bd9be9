-- ===== src/Session/Repeats.antt =====
-- Frame sets that come again while the session goes on: `onFrameSet`, `receive`, `tick` and
-- `frameAndSend` of packages/raknet/src/shared/network-session.ts.
use baltica.Base.{
  ℕ, ◌+◌, ◌-◌, ◌≤◌, ◌≡◌, ◌&&◌, ◌||◌, not, subst, ◌⊎◌, true, some, List, [], ◌∷◌, inl, inr, arith,
}
use baltica.Base.Tests.{◌==◌, leb, ltb, if_cases, option_cases}
use baltica.Base.Sets.{has, has-delete_below}
use baltica.Stream.{BinaryStream}
use baltica.FrameSet
use baltica.FrameSet.{FrameSet, frame_set_min, frame_set_max}
use baltica.Acknowledgement
use baltica.Acknowledgement.{Kind, packet_id}
use baltica.Ordering.{Outcome, done, thrown}
use baltica.Ordering.Preservation.{Ends}
use baltica.Outbound.{Outbound, Priority, frame_and_send}
use baltica.Packets.{
  unconnected_pong, unconnected_ping, unconnected_ping_open_connections, open_connection_request1,
  open_connection_request2, open_connection_reply1, open_connection_reply2, already_connected,
  incompatible_protocol_version,
}
use baltica.Packets.Offline.{
  read_unconnected_ping, read_unconnected_pong, read_open_connection_request_one,
  read_open_connection_reply_one, read_open_connection_request_two, read_open_connection_reply_two,
}
use baltica.Window.{Window, receive_window, cleanup_sequences, cleanup_indices, cleanup}
use baltica.Session.{Session, Peer}
use baltica.Session.Offline.{
  clear_offline_retry, on_unconnected_pong, on_open_connection_reply_one, request_connection,
  on_open_connection_reply_two, handle_client_offline, on_unconnected_ping,
  on_open_connection_request_one, on_open_connection_request_two, handle_server_offline,
}
use baltica.Session.Receive.{
  on_ack_packet, on_nack_packet, on_frame_set_packet, receive_packet, receive, on_frame_set,
}
use baltica.Session.Tick.{
  is_disconnected, is_stale, clean, send_acks, send_nacks, maintain, retry, tick_live, tick,
  cleanup_interval,
}
use baltica.Session.Ticks.{list_cases}
use baltica.Session.Duplicates.{Knows, on_frame_set-Noted, on_frame_set-Knows, on_frame_set_ignores}

-- The cleanup forgets only what the window has moved past.
cleanup-Knows : (seq : ℕ) (w : Window) → Knows seq w → Knows seq (cleanup w)
unfolding cleanup_sequences cleanup_indices
cleanup-Knows seq w h = ground (
  arith,
  has-delete_below (w.next_input_sequence - (receive_window + 1)) seq w.received_frame_sequences,
)

module _ (io : BinaryStream) (seq : ℕ) where
  abbrev Known : Session → Type 0
  Known s = Knows seq s.window

  clean-Known : (now : ℕ) (s : Session) → Known s → Known (clean now s)
  unfolding clean
  clean-Known now s h =
      if_cases Known (ltb (s.last_cleanup + cleanup_interval) now) (cleanup-Knows seq s.window h) h

  send_acks-Known : (s : Session) → Known s → Known (send_acks io s)
  unfolding send_acks
  send_acks-Known s h = list_cases Known s.window.pending_acks _ _ h λ x ys. h

  send_nacks-Known : (s : Session) → Known s → Known (send_nacks io s)
  unfolding send_nacks
  send_nacks-Known s h = list_cases Known s.window.lost_frame_sequences _ _ h λ x ys. h

  maintain-Known : (now : ℕ) (s : Session) → Known s → Known (maintain io now s)
  maintain-Known now s h = send_nacks-Known _ (send_acks-Known _ (clean-Known now s h))

  tick_live-Known : (now : ℕ) (s : Session) → Known s → Known (tick_live io now s)
  unfolding tick_live retry
  tick_live-Known now s h = option_cases Known s.offline_retry _ _ (maintain-Known now s h) λ r e.
      if_cases Known (leb (r.last_sent + r.interval) now)
        (if_cases Known (leb r.max_attempts r.attempts) h h) (maintain-Known now s h)

  tick-Known : (now : ℕ) (s : Session) → Known s → Known (tick io now s)
  unfolding tick
  tick-Known now s h =
      if_cases Known (is_disconnected s.peer.status || not s.peer.out.can_send) h
        (if_cases Known (is_stale now s) h (tick_live-Known now s h))

  request_connection-Known :
      (now : ℕ) (p : Peer) (s : Session) → Known s → Ends Known (request_connection io now p s)
  unfolding request_connection
  request_connection-Known now p s h =
      option_cases (Ends Known) (frame_and_send io now _ Priority.high p.out) _ _ tt λ x e. h

  client_offline-Known :
      (now id : ℕ) (bytes : List ℕ) (s : Session)
      → Known s
      → Ends Known (handle_client_offline io now id bytes s)
  unfolding handle_client_offline on_unconnected_pong on_open_connection_reply_one
      on_open_connection_reply_two
  client_offline-Known now id bytes s h =
      if_cases (Ends Known) (id == unconnected_pong)
        (option_cases (Ends Known) (read_unconnected_pong io bytes) _ _ h λ x e. h)
        (if_cases (Ends Known) (id == open_connection_reply1)
          (option_cases (Ends Known) (read_open_connection_reply_one io bytes) _ _ h λ x e. h)
          (if_cases (Ends Known) (id == open_connection_reply2)
            (option_cases (Ends Known) (read_open_connection_reply_two io bytes) _ _ h
              λ x e. request_connection-Known now _ (clear_offline_retry s) h)
            (if_cases (Ends Known) (id == already_connected) h
              (if_cases (Ends Known) (id == incompatible_protocol_version) h h))))

  server_offline-Known :
      (id : ℕ) (bytes : List ℕ) (s : Session)
      → Known s
      → Ends Known (handle_server_offline io id bytes s)
  unfolding handle_server_offline on_unconnected_ping on_open_connection_request_one
      on_open_connection_request_two
  server_offline-Known id bytes s h =
      if_cases (Ends Known) (id == unconnected_ping || id == unconnected_ping_open_connections)
        (option_cases (Ends Known) (read_unconnected_ping io bytes) _ _ h λ x e. h)
        (if_cases (Ends Known) (id == open_connection_request1)
          (option_cases (Ends Known) (read_open_connection_request_one io bytes) _ _ h λ x e. h)
          (if_cases (Ends Known) (id == open_connection_request2)
            (option_cases (Ends Known) (read_open_connection_request_two io bytes) _ _ h λ x e. h)
            h))

  receive_packet-Known :
      (now id : ℕ) (bytes : List ℕ) (s : Session)
      → Known s
      → Ends Known (receive_packet io now id bytes s)
  unfolding receive_packet on_ack_packet on_nack_packet on_frame_set_packet
  receive_packet-Known now id bytes s h =
      if_cases (Ends Known) (id == packet_id Kind.ack)
        (option_cases (Ends Known) (Acknowledgement.deserialize io bytes) _ _ h λ x e. h)
        (if_cases (Ends Known) (id == packet_id Kind.nack)
          (option_cases (Ends Known) (Acknowledgement.deserialize io bytes) _ _ h λ x e. h)
          (if_cases (Ends Known) (leb frame_set_min id && leb id frame_set_max)
            (option_cases (Ends Known) (FrameSet.deserialize io bytes) _ _ h
              λ fs e. on_frame_set-Knows io seq now fs s h)
            (if_cases (Ends Known) s.peer.client (client_offline-Known now id bytes s h)
              (server_offline-Known id bytes s h))))

  receive-Known :
      (now : ℕ) (bytes : List ℕ) (s : Session) → Known s → Ends Known (receive io now bytes s)
  unfolding receive
  receive-Known now [] s h = h
  receive-Known now (id ∷ bytes) s h = receive_packet-Known now id bytes _ h

module _ (io : BinaryStream) where
  -- How a call has ended, with an exception or without.
  abbrev pub LeavesOff : Outcome Session → Session → Type 0
  LeavesOff x s = (x ≡ done s) ⊎ (x ≡ thrown s)

  -- A session goes on: any datagrams come in, its timer fires, and payloads are sent.
  pub data GoesOn : Session → Session → Type 0 where
    stays : {s : Session} → GoesOn s s
    receives :
        {s t u : Session} (now : ℕ) (bytes : List ℕ)
        → LeavesOff (receive io now bytes s) t
        → GoesOn t u
        → GoesOn s u
    ticks : {s u : Session} (now : ℕ) → GoesOn (tick io now s) u → GoesOn s u
    sends :
        {s u : Session} (now : ℕ) (payload : List ℕ) (priority : Priority) (out : Outbound)
        → frame_and_send io now payload priority s.peer.out ≡ some out
        → GoesOn (record s { peer = record s.peer { out = out } }) u
        → GoesOn s u

  left_off :
      (P : Session → Type 0) (x : Outcome Session) (s : Session) → LeavesOff x s → Ends P x → P s
  left_off P x s (inl e) h = subst (Ends P) e h
  left_off P x s (inr e) h = subst (Ends P) e h

  goes_on-Known : (seq : ℕ) (s t : Session) → GoesOn s t → Knows seq s.window → Knows seq t.window
  goes_on-Known seq s _ stays h = h
  goes_on-Known seq s u (receives {t = t} now bytes x more) h =
      goes_on-Known seq t u more
        (left_off (λ s. Knows seq s.window) _ t x (receive-Known io seq now bytes s h))
  goes_on-Known seq s u (ticks now more) h =
      goes_on-Known seq (tick io now s) u more (tick-Known io seq now s h)
  goes_on-Known seq s u (sends now payload priority out e more) h =
      goes_on-Known seq (record s { peer = record s.peer { out = out } }) u more h

  received_of :
      (seq : ℕ) (w : Window)
      → Knows seq w
      → w.next_input_sequence ≤ seq + (receive_window + 1)
      → has seq w.received_frame_sequences ≡ true
  received_of seq w h b = ground arith

  Noted-Knows : (seq : ℕ) (w : Window) → has seq w.received_frame_sequences ≡ true → Knows seq w
  Noted-Knows seq w h = ground arith

  -- A frame set that has been handled, whether or not a handler threw, is ignored when it comes
  -- again, after any datagrams, ticks and sends between: while at most 2048 sequence numbers separate
  -- it from the newest, which is when the cleanup of `tick` may not have forgotten it.
  pub on_frame_set_once :
      (now later : ℕ) (fs : FrameSet) (s s' t : Session)
      → LeavesOff (on_frame_set io now fs s) s'
      → GoesOn s' t
      → t.window.next_input_sequence ≤ fs.sequence + (receive_window + 1)
      → on_frame_set io later fs t ≡ done t
  on_frame_set_once now later fs s s' t x more near =
      let noted =
        left_off (λ s. has fs.sequence s.window.received_frame_sequences ≡ true) _ s' x
          (on_frame_set-Noted io now fs s) in
      on_frame_set_ignores io later fs t (
        received_of fs.sequence t.window
          (goes_on-Known fs.sequence s' t more (Noted-Knows fs.sequence s'.window noted)) near)
