-- ===== src/Outbound.antt =====
-- The sending half of `NetworkSession` of packages/raknet/src/shared/network-session.ts: `sendFrame`,
-- `sendSplit`, `queueFrame`, `flush`, `frameAndSend`, `onAck`, `onNack` and the retransmission of
-- `tick`, with the fields that they use. `Date.now()` is the argument `now`; what `this.send` is
-- called with is appended to `sent`, and a timer is whether it is set.
--
-- `outputFrames` holds the frame objects in the order of insertion; no object is added twice, since
-- every call makes its own. The arrays of 32 channels are maps; the callers use channel 0.
pub mod Backup
pub mod Retransmission
pub mod Bounds
pub mod Sending
pub mod Stable
pub mod Messages
pub mod Datagrams
pub mod Copies
use baltica.Base.{ℕ, zero, suc, ◌+◌, ◌-◌, ◌*◌, ◌%◌, ◌^◌, min}
use baltica.Base.{Bool, true, false, ◌&&◌, ◌||◌, not, Option, none, some, List, [], ◌∷◌, ◌++◌}
use baltica.Base.Tests.{◌==◌, ltb, leb, if◌then◌else◌}
use baltica.Base.Lists.{length}
use baltica.Base.Maps.{Map, lookup, insert, erase}
use baltica.Stream.{BinaryStream}
use baltica.Frame.{
  Frame, Reliability, new_frame, is_reliable, is_sequenced, is_ordered, get_byte_length,
  total_byte_length,
}
use baltica.Fragment.{chunk, ceil_div}
use baltica.FrameSet
use baltica.FrameSet.{FrameSet}

-- packages/raknet/src/shared/proto/enums/priority.ts
pub data Priority : Type 0 where
  low medium high : Priority

abbrev pub is_high : Priority → Bool
is_high Priority.high = true
is_high _ = false

abbrev pub mtu_header_size : ℕ
mtu_header_size = 36

pub record Outbound : Type 0 where
  pub mtu : ℕ
  -- Whether `this.send` is set.
  pub can_send : Bool
  pub retransmit_interval : ℕ
  pub output_reliable_index : ℕ
  pub output_split_index : ℕ
  pub output_sequence : ℕ
  pub output_sequence_index : Map ℕ
  pub output_order_index : Map ℕ
  pub output_frames : List Frame
  pub output_backup : Map (List Frame)
  pub output_backup_timestamps : Map ℕ
  pub retransmit_timer : Bool
  pub sent : List (List ℕ)

abbrev pub index_at : ℕ → Map ℕ → ℕ
index_at ch indices = elim (lookup ch indices) [ none ↦ 0 | some i ↦ i ]

-- The indices that `sendFrame` gives to a frame, and the counters after it.
unfoldable pub number_frame : Frame → Outbound → Frame × Outbound
number_frame f o =
    let ch = f.order_channel in
    let order = index_at ch o.output_order_index in
    let sequence = index_at ch o.output_sequence_index in
    if is_sequenced f
    then (
      record f { ordered_frame_index = order; sequence_frame_index = sequence },
      record o { output_sequence_index = insert ch (sequence + 1) o.output_sequence_index },
    )
    else if is_ordered f
    then (
      record f { ordered_frame_index = order },
      record o {
        output_order_index = insert ch (order + 1) o.output_order_index;
        output_sequence_index = insert ch 0 o.output_sequence_index;
      },
    )
    else (f, o)

-- `frame.payload.byteLength > maxSize`, where `maxSize` is `mtu - 36` and may be negative.
abbrev pub exceeds : ℕ → ℕ → Bool
exceeds mtu size = ltb mtu (size + mtu_header_size)

-- `Math.ceil(payload.byteLength / maxSize)` for a payload that exceeds `maxSize`: at 0 it is
-- Infinity, which is none here, and at a negative size it is not positive. Infinity bounds no loop:
-- the rounds go on until `flush` writes it as a frame's split size, and what the stream does there, a
-- library's, is left out, so that `send_split` has no result then.
abbrev pub split_size_of : ℕ → ℕ → Option ℕ
split_size_of mtu size =
    if mtu == mtu_header_size
    then none
    else if ltb mtu mtu_header_size
    then some 0
    else some (ceil_div size (mtu - mtu_header_size))

-- `length + frame.getByteLength() > this.mtu - MTU_HEADER_SIZE`
abbrev pub overflows : Frame → Outbound → Bool
overflows f o =
    ltb o.mtu (4 + total_byte_length o.output_frames + get_byte_length f + mtu_header_size)

unfoldable pub add_frame : Frame → Outbound → Outbound
add_frame f o = record o { output_frames = o.output_frames ++ f ∷ [] }

-- `if (frame.isReliable()) frame.reliableFrameIndex = this.outputReliableIndex++`
unfoldable pub number_reliable : Frame → Outbound → Frame × Outbound
number_reliable f o =
    if is_reliable f
    then (
      record f { reliable_frame_index = o.output_reliable_index },
      record o { output_reliable_index = o.output_reliable_index + 1 },
    )
    else (f, o)

-- The fragment of `f` that one round of `sendSplit` makes, without its reliable index.
unfoldable pub fragment_of : Frame → ℕ → ℕ → ℕ → ℕ → Frame
fragment_of f max_size split_id split_size i = record new_frame {
  reliability = f.reliability;
  sequence_frame_index = f.sequence_frame_index;
  ordered_frame_index = f.ordered_frame_index;
  order_channel = f.order_channel;
  payload = chunk max_size f.payload i;
  split_frame_index = i;
  split_id = split_id;
  split_size = split_size;
}

unfoldable pub forget_all : List ℕ → Outbound → Outbound
forget_all [] o = o
forget_all (seq ∷ seqs) o = forget_all seqs (record o {
  output_backup = erase seq o.output_backup;
  output_backup_timestamps = erase seq o.output_backup_timestamps;
})

-- `onAck`
unfoldable pub on_ack : List ℕ → Outbound → Outbound
on_ack seqs o =
    let o' = forget_all seqs o in
    if length o'.output_backup_timestamps == 0 then record o' { retransmit_timer = false } else o'

-- `Math.min(next, value)`, where Infinity is none.
abbrev pub sooner : Option ℕ → ℕ → Option ℕ
sooner none value = some value
sooner (some next) value = some (min next value)

module _ (io : BinaryStream) where
  -- The fields after a frame set of `frames` has been sent.
  abbrev pub flushed : ℕ → List Frame → Outbound → Outbound
  flushed now frames o = record o {
    output_sequence = o.output_sequence + 1;
    output_backup = insert o.output_sequence frames o.output_backup;
    output_backup_timestamps = insert o.output_sequence now o.output_backup_timestamps;
    output_frames = [];
    sent =
        o.sent
        ++ FrameSet.serialize io (record { sequence = o.output_sequence; frames = frames }) ∷ [];
    retransmit_timer = true;
  }

  unfoldable pub flush_frames : ℕ → List Frame → Outbound → Outbound
  flush_frames now [] o = o
  flush_frames now (f ∷ fs) o = if o.can_send then flushed now (f ∷ fs) o else o

  -- `flush`
  unfoldable pub flush : ℕ → Outbound → Outbound
  unfolding flush_frames
  flush now o = flush_frames now o.output_frames o

  -- `if (length + frame.getByteLength() > …) this.flush()`
  unfoldable pub make_room : ℕ → Frame → Outbound → Outbound
  make_room now f o = if overflows f o then flush now o else o

  -- `if (priority === Priority.High) this.flush()`
  unfoldable pub flush_if_high : ℕ → Priority → Outbound → Outbound
  flush_if_high now priority o = if is_high priority then flush now o else o

  -- `queueFrame`
  unfoldable pub queue_frame : ℕ → Frame → Priority → Outbound → Outbound
  unfolding make_room flush_if_high
  queue_frame now f priority o = flush_if_high now priority (add_frame f (make_room now f o))

  -- `for (let i = 0; i < splitSize; i++)`, with the rounds counted.
  unfoldable pub split_loop : ℕ → ℕ → Frame → ℕ → ℕ → ℕ → Priority → ℕ → Outbound → Outbound
  split_loop now zero f max_size split_id split_size priority i o = o
  split_loop now (suc n) f max_size split_id split_size priority i o =
      let (nf, numbered) = number_reliable (fragment_of f max_size split_id split_size i) o in
      split_loop now n f max_size split_id split_size priority (i + 1)
        (queue_frame now nf priority numbered)

  -- `sendSplit`; none is a loop without a bound.
  unfoldable pub send_split : ℕ → Frame → Priority → Outbound → Option Outbound
  send_split now f priority o = elim (split_size_of o.mtu (length f.payload)) [
    | none ↦ none
    | some split_size ↦ some (
        split_loop now split_size f (o.mtu - mtu_header_size) (o.output_split_index % 2 ^ 16)
          split_size priority 0 (record o { output_split_index = o.output_split_index + 1 }))
  ]

  -- `sendFrame`
  unfoldable pub send_frame : ℕ → Frame → Priority → Outbound → Option Outbound
  send_frame now f priority o =
      let (numbered, o) = number_frame f o in
      let whole =
        (let (reliable, o) = number_reliable numbered o in
          some (queue_frame now reliable priority o)) in
      if exceeds o.mtu (length f.payload) then send_split now numbered priority o else whole

  -- `frameAndSend`
  unfoldable pub frame_and_send : ℕ → List ℕ → Priority → Outbound → Option Outbound
  frame_and_send now bytes priority o =
      send_frame now
        (record new_frame {
          reliability = Reliability.reliable_ordered;
          order_channel = 0;
          payload = bytes;
        })
        priority o

  abbrev pub resend : ℕ → List Frame → Outbound → Outbound
  resend seq frames o = record o {
    sent = o.sent ++ FrameSet.serialize io (record { sequence = seq; frames = frames }) ∷ [];
  }

  -- `onNack`
  unfoldable pub on_nack : List ℕ → Outbound → Outbound
  on_nack [] o = o
  on_nack (seq ∷ seqs) o =
      on_nack seqs
        (elim (lookup seq o.output_backup) [ none ↦ o | some frames ↦ resend seq frames o ])

  -- The loop of `tick` over `outputBackupTimestamps`: the new timestamps, what is sent, and
  -- `nextRetransmit`.
  unfoldable pub retransmit_loop :
      ℕ → ℕ → Map (List Frame) → Map ℕ → Option ℕ → List (List ℕ) → Map ℕ × Option ℕ × List (List ℕ)
  retransmit_loop now interval backup [] next sent = ([], next, sent)
  retransmit_loop now interval backup ((seq, sent_at) ∷ rest) next sent =
      if leb (sent_at + interval) now
      then (elim (lookup seq backup) [
        | none ↦ retransmit_loop now interval backup rest next sent
        | some frames ↦
            let (times, next', sent') =
              retransmit_loop now interval backup rest (sooner next interval)
                (sent ++ FrameSet.serialize io (record { sequence = seq; frames = frames }) ∷ []) in
            ((seq, now) ∷ times, next', sent')
      ])
      else (let (times, next', sent') =
            retransmit_loop now interval backup rest (sooner next (sent_at + interval - now))
              sent in
          ((seq, sent_at) ∷ times, next', sent'))

  -- What follows the loop: a flush, and the timer.
  abbrev pub after_retransmit : ℕ → Outbound → Map ℕ × Option ℕ × List (List ℕ) → Outbound
  after_retransmit now o (times, next, sent) =
      let flushed = flush now (record o { output_backup_timestamps = times; sent = sent }) in
      elim next [ none ↦ flushed | some delay ↦ record flushed { retransmit_timer = true } ]

  -- The last part of `tick`.
  unfoldable pub retransmit : ℕ → Outbound → Outbound
  retransmit now o = after_retransmit now o (
      retransmit_loop now o.retransmit_interval o.output_backup o.output_backup_timestamps none
        o.sent)
