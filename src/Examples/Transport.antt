-- ===== src/Examples/Transport.antt =====
-- Two sessions of packages/raknet/src/shared/network-session.ts and the network between them, on
-- small inputs.
use baltica.Base.{ℕ, ◌≤◌, ◌<◌, ◌≡◌, refl, true, false, none, some, List, [], ◌∷◌, ◌++◌, arith}
use baltica.Base.Lists.{length, All}
use baltica.Base.Sets.{has}
use baltica.Base.Maps.{lookup}
use baltica.Stream.Sample.{sample, sample-Laws}
use baltica.Ordering.{done}
use baltica.Ordering.Delivery.{deliver}
use baltica.Outbound.{Outbound}
use baltica.Outbound.Messages.{Start, IsReady}
use baltica.Outbound.Datagrams.{IsOneOf, send_messages}
use baltica.Outbound.Copies.{Feedback, acked, nacked, timer, react_all, send_messages-react_all}
use baltica.Window.{new_window}
use baltica.Session.{Session, Status, no_address}
use baltica.Session.Handed.{handed}
use baltica.Session.Arrivals.{snoc}
use baltica.Session.Network.{Step, arrives, ticks, arrivals, run, Awaits, Fits}
use baltica.Session.Transport.{transport_in_order, transport_complete}

-- Both ends have had one frame before.
abbrev start : Start
start = record { sequence = 1; reliable = 1; order = 1 }

abbrev packets : ℕ → List ℕ
packets j = 254 ∷ j ∷ []

abbrev sending : Outbound
sending = record {
  mtu = 1400;
  can_send = true;
  retransmit_interval = 1000;
  output_reliable_index = 1;
  output_split_index = 0;
  output_sequence = 1;
  output_sequence_index = [];
  output_order_index = (0, 1) ∷ [];
  output_frames = [];
  output_backup = [];
  output_backup_timestamps = [];
  retransmit_timer = false;
  sent = [];
}

abbrev receiving : Session
receiving = record {
  peer = record {
    client = false;
    guid = 5;
    remote_guid = 6;
    status = Status.connected;
    address = no_address;
    server_message = none;
    out = sending;
    events = [];
  };
  window = record new_window {
    received_frame_sequences = 0 ∷ [];
    next_input_sequence = 1;
    received_reliable_frame_indices = 0 ∷ [];
    next_reliable_index = 1;
  };
  ordering = record {
    input_highest_sequence_index = (0, 0) ∷ [];
    input_order_index = (0, 1) ∷ [];
    input_ordering_queue = (0, []) ∷ [];
  };
  fragments = [];
  max_retransmit = 3;
  stale_timeout = 60000;
  last_received_at = 0;
  offline_retry = none;
  ack_timer = false;
  last_cleanup = 0;
}

sending-IsReady : IsReady start sending
sending-IsReady = record {
  can = refl;
  empty = refl;
  next_sequence = refl;
  next_reliable = refl;
  next_order = unfold lookup in refl;
}

receiving-Awaits : Awaits start receiving
receiving-Awaits = record {
  next_order = unfold lookup in refl;
  empty_queue = unfold lookup in refl;
  nothing = unfold handed in refl;
  new_sequences = λ i. unfold has in ground arith;
  new_reliables = λ i. unfold has in ground arith;
}

packets-Fits : (n : ℕ) → n < 100 → Fits start packets n
packets-Fits n h = record {
  sequence_fits = omega arith;
  reliable_fits = omega arith;
  order_fits = omega arith;
  payload_fits = λ j. omega arith;
}

-- The second packet comes first, and again; the third one is lost.
abbrev steps : List Step
steps = arrives 5 1 ∷ ticks 6 ∷ arrives 7 0 ∷ arrives 8 1 ∷ ticks 6000 ∷ []

transport_in_order_example :
    (q : Outbound) × (sent : List (List ℕ)) × (m : ℕ) × (t : Session) × (send_messages sample
        (λ j. j)
        packets
        3
        sending
      ≡ some q)
    × (q.sent ≡ [] ++ sent)
    × (length sent ≡ 3)
    × (run sample sent steps receiving ≡ done t)
    × (handed t.peer.events ≡ deliver snoc packets m [])
    × ((j : ℕ) → j < m → has j (arrivals steps) ≡ true)
    × (has m (arrivals steps) ≡ false)
    × (m ≤ 3)
transport_in_order_example =
    transport_in_order sample sample-Laws start packets 3 (λ j. j) sending receiving steps
      (λ j. (j ∷ [], refl)) (λ j. omega arith) (packets-Fits 3 (omega arith)) sending-IsReady
      receiving-Awaits (unfold arrivals in (omega arith, (omega arith, (omega arith, tt))))

transport_complete_example :
    (q : Outbound) × (sent : List (List ℕ)) × (t : Session) × (send_messages sample
        (λ j. j)
        packets
        2
        sending
      ≡ some q)
    × (q.sent ≡ [] ++ sent)
    × (run sample sent steps receiving ≡ done t)
    × (handed t.peer.events ≡ deliver snoc packets 2 [])
transport_complete_example =
    transport_complete sample sample-Laws start packets 2 (λ j. j) sending receiving steps
      (λ j. (j ∷ [], refl)) (λ j. omega arith) (packets-Fits 2 (omega arith)) sending-IsReady
      receiving-Awaits (unfold arrivals in (omega arith, (omega arith, (omega arith, tt))))
      (λ j h. unfold has arrivals in ground arith)

abbrev feedback : List Feedback
feedback = nacked (2 ∷ 9 ∷ []) ∷ acked (1 ∷ []) ∷ timer 5000 ∷ []

send_messages-react_all_example :
    (q : Outbound) × (sent : List (List ℕ)) × (more : List (List ℕ)) × (send_messages sample
        (λ j. j)
        packets
        3
        sending
      ≡ some q)
    × (q.sent ≡ [] ++ sent)
    × (length sent ≡ 3)
    × ((react_all sample feedback q).sent ≡ q.sent ++ more)
    × All (IsOneOf sent) more
send_messages-react_all_example =
    send_messages-react_all sample (λ j. j) packets 3 start sending feedback sending-IsReady
      (λ k. unfold lookup in refl) (λ j. omega arith)
