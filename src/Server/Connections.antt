-- ===== src/Server/Connections.antt =====
-- The connections under `handleMessage` of packages/raknet/src/server/server.ts: how many there are,
-- and their sessions.
use baltica.Base.{ℕ, ◌<◌, ◌≡◌, ◌||◌, some, List, [], ◌∷◌, min, inl, inr, arith}
use baltica.Base.Tests.{◌==◌, leb, if_cases, option_cases, if_true_case, if_false_case, Bool-cases}
use baltica.Base.Lists.{length}
use baltica.Stream.{BinaryStream}
use baltica.Packets.{
  unconnected_ping, unconnected_ping_open_connections, open_connection_request1,
  open_connection_request2,
}
use baltica.Packets.Offline.{
  OpenConnectionRequestTwo, read_unconnected_ping, read_open_connection_request_one,
  read_open_connection_request_two,
}
use baltica.Ordering.{Outcome, done, thrown, endless}
use baltica.Ordering.Preservation.{Ends}
use baltica.Session.{Session}
use baltica.Session.Soundness.{IsSound}
use baltica.Session.SoundReceive.{receive-IsSound}
use baltica.Server.{
  Endpoint, Server, find, settle, settle_outcome, send_to, new_session, answer_ping,
  answer_request_one, accept, answer_request_two, handle_stranger, handle_message, raknet_protocol,
}
use baltica.Server.Soundness.{
  ServerIsSound, find-IsSound, store-AllSound, length-store_new, length-store_found,
  forward-ServerIsSound, new_session-IsSound,
}

module _ (io : BinaryStream) where
  sent-ServerIsSound :
      (bytes : List ℕ) (e : Endpoint) (srv : Server)
      → ServerIsSound srv
      → ServerIsSound (send_to bytes e srv)
  sent-ServerIsSound bytes e srv v = record { bounded = v.bounded; all_sound = v.all_sound }

  accept-ServerIsSound :
      (now : ℕ) (request : OpenConnectionRequestTwo) (e : Endpoint) (srv : Server)
      → length srv.connections < srv.options.max_connections
      → ServerIsSound srv
      → ServerIsSound (accept io now request e srv)
  unfolding accept
  accept-ServerIsSound now request e srv h v =
      let s = new_session now (min srv.options.mtu request.mtu) request.guid e srv.options in
      record {
        bounded = omega (arith, length-store_new e s srv.connections);
        all_sound =
            store-AllSound srv.options.mtu e s srv.connections
              (new_session-IsSound now _ srv.options.mtu request.guid e srv.options (omega arith))
              v.all_sound;
      }

  answer_ping-Ends :
      (bytes : List ℕ) (e : Endpoint) (srv : Server)
      → ServerIsSound srv
      → Ends ServerIsSound (answer_ping io bytes e srv)
  unfolding answer_ping
  answer_ping-Ends bytes e srv v =
      option_cases (Ends ServerIsSound) (read_unconnected_ping io bytes) _ _ v
        λ x q. sent-ServerIsSound _ e srv v

  answer_request_one-Ends :
      (bytes : List ℕ) (e : Endpoint) (srv : Server)
      → ServerIsSound srv
      → Ends ServerIsSound (answer_request_one io bytes e srv)
  unfolding answer_request_one
  answer_request_one-Ends bytes e srv v =
      option_cases (Ends ServerIsSound) (read_open_connection_request_one io bytes) _ _ v λ x q.
        if_cases (Ends ServerIsSound) (x.protocol == raknet_protocol) (sent-ServerIsSound _ e srv v)
          v

  answer_request_two-Ends :
      (now : ℕ) (bytes : List ℕ) (e : Endpoint) (srv : Server)
      → ServerIsSound srv
      → Ends ServerIsSound (answer_request_two io now bytes e srv)
  unfolding answer_request_two
  answer_request_two-Ends now bytes e srv v =
      elim (Bool-cases (leb srv.options.max_connections (length srv.connections))) [
        | inl b ↦
            if_true_case (Ends ServerIsSound)
              (leb srv.options.max_connections (length srv.connections)) _ _ b v
        | inr b ↦
            if_false_case (Ends ServerIsSound)
              (leb srv.options.max_connections (length srv.connections)) _ _ b
              (option_cases (Ends ServerIsSound) (read_open_connection_request_two io bytes) _ _ v
                λ x q. accept-ServerIsSound now x e srv (ground arith) v)
      ]

  handle_stranger-Ends :
      (now : ℕ) (bytes : List ℕ) (e : Endpoint) (srv : Server)
      → ServerIsSound srv
      → Ends ServerIsSound (handle_stranger io now bytes e srv)
  unfolding handle_stranger
  handle_stranger-Ends now [] e srv v = v
  handle_stranger-Ends now (id ∷ bytes) e srv v =
      if_cases (Ends ServerIsSound)
        (id == unconnected_ping || id == unconnected_ping_open_connections)
        (answer_ping-Ends bytes e srv v)
        (if_cases (Ends ServerIsSound) (id == open_connection_request1)
          (answer_request_one-Ends bytes e srv v)
          (if_cases (Ends ServerIsSound) (id == open_connection_request2)
            (answer_request_two-Ends now bytes e srv v) v))

  settle-ServerIsSound :
      (e : Endpoint) (srv : Server) (old s : Session)
      → find e srv.connections ≡ some old
      → ServerIsSound srv
      → IsSound srv.options.mtu s
      → ServerIsSound (settle e srv s)
  settle-ServerIsSound e srv old s q v h = forward-ServerIsSound e s.peer.events _ (record {
    bounded = omega (arith, length-store_found e _ old srv.connections q, v.bounded);
    all_sound = store-AllSound srv.options.mtu e _ srv.connections quiet v.all_sound;
  })
    where
      quiet : IsSound srv.options.mtu (record s { peer = record s.peer { events = [] } })
      quiet = record {
        peer_sound = record { tracks = h.peer_sound.tracks; mtu_below = h.peer_sound.mtu_below };
        window_consistent = h.window_consistent;
      }

  settle_outcome-Ends :
      (e : Endpoint) (srv : Server) (old : Session) (x : Outcome Session)
      → find e srv.connections ≡ some old
      → ServerIsSound srv
      → Ends (IsSound srv.options.mtu) x
      → Ends ServerIsSound (settle_outcome e srv x)
  settle_outcome-Ends e srv old (done s) q v h = settle-ServerIsSound e srv old s q v h
  settle_outcome-Ends e srv old (thrown s) q v h = settle-ServerIsSound e srv old s q v h
  settle_outcome-Ends e srv old endless q v h = tt

  -- Whatever message comes from wherever, there are never more connections than the options allow,
  -- and every session stays sound.
  pub handle_message-ServerIsSound :
      (now : ℕ) (bytes : List ℕ) (e : Endpoint) (srv : Server)
      → ServerIsSound srv
      → Ends ServerIsSound (handle_message io now bytes e srv)
  unfolding handle_message
  handle_message-ServerIsSound now bytes e srv v =
      option_cases (Ends ServerIsSound) (find e srv.connections) _ _
        (handle_stranger-Ends now bytes e srv v)
        λ s q. settle_outcome-Ends e srv s _ q v (
          receive-IsSound io srv.options.mtu now bytes s
            (find-IsSound srv.options.mtu e srv.connections s v.all_sound q))
