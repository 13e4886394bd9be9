-- ===== src/Examples/Sessions.antt =====
-- Whole sessions of packages/raknet/src/shared/network-session.ts on small inputs.
use baltica.Base.{◌≡◌, inl, refl, true, false, none, List, [], ◌∷◌, map, arith}
use baltica.Base.Sets.{has, add, delete}
use baltica.Base.Maps.{lookup}
use baltica.Stream.Sample.{sample}
use baltica.FrameSet.{FrameSet}
use baltica.Ordering.{done, new_ordering}
use baltica.Ordering.Preservation.{Ends}
use baltica.Outbound.{Outbound}
use baltica.Window.{new_window, note_sequence, mark_lost}
use baltica.Window.Gaps.{new_window-IsConsistent}
use baltica.Session.{Session, Status, no_address}
use baltica.Session.Receive.{on_frame_set, handle_frames, receive}
use baltica.Session.Offline.{send_offline_with_retry}
use baltica.Session.Tick.{tick}
use baltica.Session.Soundness.{IsSound}
use baltica.Session.SoundReceive.{receive-IsSound}
use baltica.Session.Ticks.{tick-IsSound}
use baltica.Session.Waiting
use baltica.Packets.{open_connection_reply1}
use baltica.Session.Keepalive.{
  TimerStep, fires, becomes, destroys, without_fires, perform_all, new_live, destroy,
  keepalive_until_destroyed, stale_keepalive_survives,
}
use baltica.Session.Repeats.{GoesOn, stays, receives, on_frame_set_once}

abbrev fresh_out : Outbound
fresh_out = record {
  mtu = 1400;
  can_send = true;
  retransmit_interval = 1000;
  output_reliable_index = 0;
  output_split_index = 0;
  output_sequence = 0;
  output_sequence_index = [];
  output_order_index = [];
  output_frames = [];
  output_backup = [];
  output_backup_timestamps = [];
  retransmit_timer = false;
  sent = [];
}

abbrev fresh : Session
fresh = record {
  peer = record {
    client = true;
    guid = 5;
    remote_guid = 0;
    status = Status.disconnected;
    address = no_address;
    server_message = none;
    out = fresh_out;
    events = [];
  };
  window = new_window;
  ordering = new_ordering;
  fragments = [];
  max_retransmit = 3;
  stale_timeout = 60000;
  last_received_at = 0;
  offline_retry = none;
  ack_timer = false;
  last_cleanup = 0;
}

fresh-IsSound : IsSound 1400 fresh
fresh-IsSound = record {
  peer_sound = record {
    tracks = record {
      can = refl;
      same_keys = λ k. unfold lookup in refl;
      used = λ k h. unfold lookup in refl;
    };
    mtu_below = omega arith;
  };
  window_consistent = new_window-IsConsistent;
}

-- A first reply that is cut short.
receive-IsSound_example : Ends (IsSound 1400) (receive sample 9 (6 ∷ 0 ∷ []) fresh)
receive-IsSound_example = receive-IsSound sample 1400 9 (6 ∷ 0 ∷ []) fresh fresh-IsSound

-- A connected session that has to acknowledge one frame set and to send one again.
abbrev active : Session
active = record fresh {
  peer = record fresh.peer {
    status = Status.connected;
    out = record fresh_out {
      output_sequence = 1;
      output_backup = (0, []) ∷ [];
      output_backup_timestamps = (0, 0) ∷ [];
    };
  };
  window = record new_window {
    received_frame_sequences = 0 ∷ [];
    pending_acks = 0 ∷ [];
    next_input_sequence = 1;
  };
}

active-IsSound : IsSound 1400 active
active-IsSound = record {
  peer_sound = record {
    tracks = record {
      can = refl;
      same_keys = λ k. unfold lookup in ground arith;
      used = λ k h. unfold lookup in ground arith;
    };
    mtu_below = omega arith;
  };
  window_consistent = record {
    apart = λ k e. unfold has in cc;
    lost_below = λ k e. unfold has in cc;
    received_below = λ k e. unfold has in ground arith;
    reliable_below = λ k e. unfold has in cc;
  };
}

tick-IsSound_example : IsSound 1400 (tick sample 1500 active)
tick-IsSound_example = tick-IsSound sample 1400 1500 active active-IsSound

-- A first reply that is cut short comes between two firings of the timer.
abbrev waiting_steps : List Waiting.Step
waiting_steps =
    Waiting.ticks 2000 ∷ Waiting.comes 3000 (open_connection_reply1 ∷ []) ∷ Waiting.ticks 4000 ∷ []

send_offline_with_retry_never_retries_example :
    let t = send_offline_with_retry 0 (5 ∷ []) fresh in
    (Waiting.run sample waiting_steps t
      ≡ Waiting.run sample (Waiting.comes 3000 (open_connection_reply1 ∷ []) ∷ []) t)
    × ((Waiting.run sample waiting_steps t).peer.status ≡ Status.disconnected)
unfolding Waiting.without_ticks
send_offline_with_retry_never_retries_example =
    Waiting.send_offline_with_retry_never_retries sample 0 (5 ∷ []) waiting_steps fresh refl refl
      (tt, (refl, (tt, tt)))

abbrev empty_set : FrameSet
empty_set = record { sequence = 0; frames = [] }

abbrev received : Session
received = record fresh {
  window = record new_window {
    received_frame_sequences = 0 ∷ [];
    pending_acks = 0 ∷ [];
    next_input_sequence = 1;
  };
  ack_timer = true;
}

-- Its timer fires, and an empty datagram comes in.
gone_on : GoesOn sample received (record received { last_received_at = 15 })
unfolding receive tick
gone_on =
    GoesOn.ticks 12
      (receives {t = record received { last_received_at = 15 }} 15 [] (inl refl) stays)

on_frame_set_once_example :
    on_frame_set sample 20 empty_set (record received { last_received_at = 15 })
    ≡ done (record received { last_received_at = 15 })
on_frame_set_once_example =
    on_frame_set_once sample 10 20 empty_set fresh received
      (record received { last_received_at = 15 })
      (inl (unfold on_frame_set note_sequence handle_frames has add delete mark_lost in refl))
      gone_on (omega arith)

-- A connected session, ten seconds after its last datagram.
abbrev quiet : Session
quiet = record fresh {
  peer = record fresh.peer { status = Status.connected };
  stale_timeout = 10000;
}

abbrev steps : List (TimerStep sample)
steps = fires 10 ∷ becomes quiet ∷ fires 20 ∷ []

-- A datagram comes in after the end.
abbrev afterwards : List (TimerStep sample)
afterwards = fires 30 ∷ becomes quiet ∷ fires 40 ∷ destroys ∷ []

keepalive_until_destroyed_example :
    let l = perform_all sample steps (new_live fresh) in
    (l.destroyed ≡ false → l.keepalive ≡ true)
    × ((destroy l).session.peer.status ≡ Status.disconnected)
    × ((perform_all sample afterwards (destroy l)).keepalive ≡ false)
    × (perform_all sample afterwards (destroy l)
        ≡ perform_all sample (becomes quiet ∷ destroys ∷ []) (destroy l))
unfolding without_fires
keepalive_until_destroyed_example = keepalive_until_destroyed sample steps afterwards fresh

stale_keepalive_survives_example :
    let l = perform_all sample (fires 10001 ∷ map fires (10101 ∷ 10201 ∷ [])) (new_live quiet) in
    (l.destroyed ≡ true) × (l.session.peer.status ≡ Status.disconnected) × (l.keepalive ≡ true)
stale_keepalive_survives_example =
    stale_keepalive_survives sample 10001 (10101 ∷ 10201 ∷ []) quiet refl refl (omega arith)
