-- ===== src/Ordering.antt =====
-- `handleSequenced` and `handleOrdered` of packages/raknet/src/shared/network-session.ts, and the
-- fields that they use. The arrays of 32 channels are maps from the channel: an index that no
-- element has is undefined there, and every comparison with undefined is false.
--
-- `handle` is `handleOnlinePacket` on the rest of the session, which neither reads nor writes these
-- fields. It may throw, and what was changed before stays changed.
pub mod Delivery
pub mod Channel
pub mod Agreement
pub mod Sequenced
pub mod Preservation
use baltica.Base.{ℕ, zero, suc, ◌+◌}
use baltica.Base.{Bool, true, false, Option, none, some, List, [], ◌∷◌}
use baltica.Base.Tests.{◌==◌, ltb, if◌then◌else◌}
use baltica.Base.Lists.{length}
use baltica.Base.Maps.{Map, lookup, insert, erase}
use baltica.Frame.{Frame}

-- How a handler ends: by itself, by an exception, or never.
pub data Outcome {ℓ} (A : Type ℓ) : Type ℓ where
  done : A → Outcome A
  thrown : A → Outcome A
  endless : Outcome A

pub record Ordering : Type 0 where
  pub input_highest_sequence_index : Map ℕ
  pub input_order_index : Map ℕ
  pub input_ordering_queue : Map (Map Frame)

-- The fields of a new session: a zero, a zero and an empty queue for each of `n` channels.
unfoldable pub each_channel {ℓ} : {V : Type ℓ} → ℕ → V → Map V
each_channel zero v = []
each_channel (suc n) v = (n, v) ∷ each_channel n v

unfoldable pub new_ordering : Ordering
new_ordering = record {
  input_highest_sequence_index = each_channel 32 0;
  input_order_index = each_channel 32 0;
  input_ordering_queue = each_channel 32 [];
}

-- `this.inputOrderingQueue.get(ch)!`: every channel that has an order index has a queue.
abbrev pub queue_of : ℕ → Ordering → Map Frame
queue_of ch o = elim (lookup ch o.input_ordering_queue) [ none ↦ [] | some queue ↦ queue ]

-- `frame.sequenceFrameIndex < this.inputHighestSequenceIndex[ch]`
abbrev pub is_stale : Frame → Ordering → Bool
is_stale f o = elim (lookup f.order_channel o.input_highest_sequence_index) [
  | none ↦ false
  | some highest ↦ ltb f.sequence_frame_index highest
]

module _ {ℓ} {R : Type ℓ} (handle : List ℕ → R → Outcome R) where
  abbrev pub with_ordering : Ordering → Outcome R → Outcome (Ordering × R)
  with_ordering o (done r) = done (o, r)
  with_ordering o (thrown r) = thrown (o, r)
  with_ordering o endless = endless

  unfoldable pub handle_sequenced : Frame → Ordering → R → Outcome (Ordering × R)
  handle_sequenced f o r =
      if is_stale f o
      then done (o, r)
      else with_ordering
          (record o {
            input_highest_sequence_index =
                insert f.order_channel (f.sequence_frame_index + 1) o.input_highest_sequence_index;
          })
          (handle f.payload r)

  -- `while (queue.has(next))`, on fuel: each round deletes an entry of the queue.
  unfoldable pub drain : ℕ → ℕ → Map Frame → R → Outcome (ℕ × Map Frame × R)
  drain zero next queue r = done (next, queue, r)
  drain (suc fuel) next queue r = elim (lookup next queue) [
    | none ↦ done (next, queue, r)
    | some f ↦ elim (handle f.payload r) [
      | endless ↦ endless
      | thrown r ↦ thrown (next, queue, r)
      | done r ↦ drain fuel (next + 1) (erase next queue) r
    ]
  ]

  -- The branch of `handleOrdered` for the frame that the channel waits for.
  unfoldable pub deliver_expected : Frame → ℕ → Ordering → R → Outcome (Ordering × R)
  deliver_expected f expected o r =
      let ch = f.order_channel in
      let queue = queue_of ch o in
      let stepped : Ordering = record o {
        input_highest_sequence_index = insert ch 0 o.input_highest_sequence_index;
        input_order_index = insert ch (expected + 1) o.input_order_index;
      } in
      elim (handle f.payload r) [
        | endless ↦ endless
        | thrown r ↦ thrown (stepped, r)
        | done r ↦ elim (drain (length queue) (expected + 1) queue r) [
          | endless ↦ endless
          | thrown (next, queue, r) ↦
              thrown (
                record stepped { input_ordering_queue = insert ch queue o.input_ordering_queue },
                r,
              )
          | done (next, queue, r) ↦ done (
            record stepped {
              input_order_index = insert ch next stepped.input_order_index;
              input_ordering_queue = insert ch queue o.input_ordering_queue;
            },
            r,
          )
        ]
      ]

  unfoldable pub handle_ordered : Frame → Ordering → R → Outcome (Ordering × R)
  handle_ordered f o r = elim (lookup f.order_channel o.input_order_index) [
    | none ↦ done (o, r)
    | some expected ↦
        if f.ordered_frame_index == expected
        then deliver_expected f expected o r
        else if ltb expected f.ordered_frame_index
        then done (
          record o {
            input_ordering_queue =
                insert f.order_channel (insert f.ordered_frame_index f (queue_of f.order_channel o))
                  o.input_ordering_queue;
          },
          r,
        )
        else done (o, r)
  ]

  -- Frames in the order of their arrival; an exception ends the run.
  unfoldable pub handle_all_ordered : List Frame → Ordering → R → Outcome (Ordering × R)
  handle_all_ordered [] o r = done (o, r)
  handle_all_ordered (f ∷ fs) o r = elim (handle_ordered f o r) [
    | endless ↦ endless
    | thrown x ↦ thrown x
    | done (o, r) ↦ handle_all_ordered fs o r
  ]
