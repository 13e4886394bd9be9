-- ===== src/Examples/Sending.antt =====
-- The sending half of packages/raknet/src/shared/network-session.ts on small inputs.
use baltica.Outbound.{retransmit_loop}
use baltica.Outbound.Retransmission.{restamp, resent, due, retransmit_loop-due}
use baltica.Base.{ℕ, ◌≡◌, refl, true, false, none, Option, some, List, [], ◌∷◌, ◌++◌, arith}
use baltica.Base.Maps.{lookup}
use baltica.Stream.Sample.{sample, sample-Laws}
use baltica.Frame.{Frame, Reliability, new_frame, total_byte_length}
use baltica.Outbound.{Outbound, Priority, send_frame}
use baltica.Outbound.Backup.{Tracks, outstanding}
use baltica.Outbound.Sending.{payloads, send_frame-Adds}
use baltica.Outbound.Bounds.{Packed, send_frame-Packed}

abbrev session : ℕ → Outbound
session mtu = record {
  mtu = mtu;
  can_send = true;
  retransmit_interval = 500;
  output_reliable_index = 0;
  output_split_index = 0;
  output_sequence = 0;
  output_sequence_index = [];
  output_order_index = [];
  output_frames = [];
  output_backup = [];
  output_backup_timestamps = [];
  retransmit_timer = false;
  sent = [];
}

session-Tracks : (mtu : ℕ) → Tracks (session mtu)
session-Tracks mtu = record {
  can = refl;
  same_keys = λ k. unfold lookup in refl;
  used = λ k h. unfold lookup in refl;
}

-- Four bytes, of which at an MTU of 38 a frame takes two.
abbrev message : Frame
message = record new_frame {
  reliability = Reliability.reliable_ordered;
  payload = 1 ∷ 2 ∷ 3 ∷ 4 ∷ [];
}

send_frame-Adds_example :
    (q : Outbound) × (send_frame sample 10 message Priority.high (session 38) ≡ some q)
    × Tracks q
    × ((frames : List Frame) × (outstanding q ≡ outstanding (session 38) ++ frames)
        × (payloads frames ≡ 1 ∷ 2 ∷ 3 ∷ 4 ∷ []))
send_frame-Adds_example =
    send_frame-Adds sample 10 message Priority.high (session 38) (omega arith) (session-Tracks 38)

session-Packed : Packed 38 (session 38)
session-Packed = record {
  can = refl;
  mtu_is = refl;
  queue_fits = unfold total_byte_length in omega arith;
  backup_fits = λ k fs e. unfold lookup in cc;
  sent_fits = tt;
}

send_frame-Packed_example :
    (q : Outbound) × (send_frame sample 10 message Priority.low (session 38) ≡ some q) × Packed 38 q
send_frame-Packed_example =
    send_frame-Packed sample sample-Laws 38 10 message Priority.low (session 38) (omega arith)
      session-Packed

-- Two frame sets wait for their acknowledgement, of the times 0 and 400.
abbrev busy : Outbound
busy = record (session 1400) {
  output_sequence = 2;
  output_backup = (0, message ∷ []) ∷ (1, []) ∷ [];
  output_backup_timestamps = (0, 0) ∷ (1, 400) ∷ [];
}

busy-Tracks : Tracks busy
busy-Tracks = record {
  can = refl;
  same_keys = λ k. unfold lookup in ground arith;
  used = λ k h. unfold lookup in ground arith;
}

retransmit_loop-due_example :
    (next : Option ℕ) × (retransmit_loop sample 1200 1000 busy.output_backup
        busy.output_backup_timestamps none []
      ≡ (
        restamp sample 1200 1000 busy.output_backup_timestamps,
        next,
        [] ++ resent sample busy.output_backup (due sample 1200 1000 busy.output_backup_timestamps),
      ))
retransmit_loop-due_example =
    retransmit_loop-due sample 1200 1000 busy.output_backup busy.output_backup_timestamps none []
      (unfold lookup in (refl, (refl, tt)))
