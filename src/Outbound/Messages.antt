-- ===== src/Outbound/Messages.antt =====
-- `frameAndSend` of packages/raknet/src/shared/network-session.ts, called at high priority for one
-- message after the other, each of which fits a datagram.
use baltica.Base.{ℕ, ◌+◌, ◌≤◌, ◌≡◌, refl, ap, ◌∙◌, true, false, some, List, [], ◌∷◌, ◌++◌, arith}
use baltica.Base.Lists.{length}
use baltica.Base.Maps.{insert, lookup-insert}
use baltica.Base.Tests.{if_cases}
use baltica.Stream.{BinaryStream}
use baltica.Frame.{Frame, Reliability, new_frame}
use baltica.FrameSet
use baltica.FrameSet.{FrameSet}
use baltica.Outbound.{
  Outbound, Priority, frame_and_send, send_frame, number_frame, number_reliable, queue_frame,
  make_room, flush_if_high, flush, flush_frames, flushed, add_frame, exceeds, index_at,
  mtu_header_size, overflows,
}

-- The numbers of the first frame set and the first frame to come.
pub record Start : Type 0 where
  pub sequence : ℕ
  pub reliable : ℕ
  pub order : ℕ

abbrev pub after : ℕ → Start → Start
after n b = record { sequence = b.sequence + n; reliable = b.reliable + n; order = b.order + n }

abbrev pub message_frame : Start → List ℕ → Frame
message_frame b bytes = record new_frame {
  reliability = Reliability.reliable_ordered;
  reliable_frame_index = b.reliable;
  ordered_frame_index = b.order;
  payload = bytes;
}

abbrev pub message_set : Start → List ℕ → FrameSet
message_set b bytes = record { sequence = b.sequence; frames = message_frame b bytes ∷ [] }

-- A session that has sent all it was given, with these numbers next.
pub record IsReady (b : Start) (o : Outbound) : Type 0 where
  pub can : o.can_send ≡ true
  pub empty : o.output_frames ≡ []
  pub next_sequence : o.output_sequence ≡ b.sequence
  pub next_reliable : o.output_reliable_index ≡ b.reliable
  pub next_order : index_at 0 o.output_order_index ≡ b.order

pub IsReady-resp :
    (b c : Start) (o : Outbound)
    → IsReady b o
    → b.sequence ≡ c.sequence
    → b.reliable ≡ c.reliable
    → b.order ≡ c.order
    → IsReady c o
IsReady-resp b c o v s r d = record {
  can = v.can;
  empty = v.empty;
  next_sequence = v.next_sequence ∙ s;
  next_reliable = v.next_reliable ∙ r;
  next_order = v.next_order ∙ d;
}

module _ (io : BinaryStream) where
  -- The frame set of one message, as it is sent.
  abbrev pub datagram : Start → List ℕ → List ℕ
  datagram b bytes = FrameSet.serialize io (message_set b bytes)

  -- What sending a message does.
  pub record Sends (b : Start) (bytes : List ℕ) (o q : Outbound) : Type 0 where
    pub ready : IsReady (after 1 b) q
    pub same_mtu : q.mtu ≡ o.mtu
    pub appended : q.sent ≡ o.sent ++ datagram b bytes ∷ []
    pub kept : q.output_backup ≡ insert b.sequence (message_frame b bytes ∷ []) o.output_backup

  -- The counters after the numbering of an ordered frame of channel 0.
  abbrev numbered : Outbound → Outbound
  numbered o = record o {
    output_reliable_index = o.output_reliable_index + 1;
    output_order_index = insert 0 (index_at 0 o.output_order_index + 1) o.output_order_index;
    output_sequence_index = insert 0 0 o.output_sequence_index;
  }

  pub flush_empty : (now : ℕ) (o : Outbound) → o.output_frames ≡ [] → flush io now o ≡ o
  unfolding flush flush_frames
  flush_empty now o e = rw (e, flush, flush_frames) refl

  make_room_empty :
      (now : ℕ) (f : Frame) (o : Outbound) → o.output_frames ≡ [] → make_room io now f o ≡ o
  unfolding make_room
  make_room_empty now f o e = if_cases (λ q. q ≡ o) (overflows f o) (flush_empty now o e) refl

  -- A frame that is queued alone at high priority goes out at once, in a frame set of its own.
  queue_frame_alone :
      (now : ℕ) (f : Frame) (o : Outbound)
      → o.output_frames ≡ []
      → o.can_send ≡ true
      → queue_frame io now f Priority.high o ≡ flushed io now (f ∷ []) o
  unfolding queue_frame flush_if_high flush add_frame
  queue_frame_alone now f o e c =
      rw (make_room_empty now f o e, queue_frame, flush_if_high, flush, add_frame, e)
        (unfold flush_frames in rw c refl)

  frame_and_send-flushed :
      (now : ℕ) (bytes : List ℕ) (b : Start) (o : Outbound)
      → IsReady b o
      → length bytes + mtu_header_size ≤ o.mtu
      → frame_and_send io now bytes Priority.high o
        ≡ some (flushed io now (message_frame b bytes ∷ []) (numbered o))
  unfolding frame_and_send send_frame number_frame number_reliable
  frame_and_send-flushed now bytes b o v h =
      let fits : exceeds o.mtu (length bytes) ≡ false = ground arith in
      let f : Frame = record (message_frame b bytes) {
        reliable_frame_index = o.output_reliable_index;
        ordered_frame_index = index_at 0 o.output_order_index;
      } in
      let queued : queue_frame io now f Priority.high (numbered o)
          ≡ flushed io now (f ∷ []) (numbered o) =
        queue_frame_alone now f (numbered o) v.empty v.can in
      let same : f ≡ message_frame b bytes = rw (v.next_reliable, v.next_order) refl in
      rw fits (ap some (queued ∙ ap (λ g. flushed io now (g ∷ []) (numbered o)) same))

  pub frame_and_send-Sends :
      (now : ℕ) (bytes : List ℕ) (b : Start) (o : Outbound)
      → IsReady b o
      → length bytes + mtu_header_size ≤ o.mtu
      → (q : Outbound) × (frame_and_send io now bytes Priority.high o ≡ some q) × Sends b bytes o q
  frame_and_send-Sends now bytes b o v h = (
    flushed io now (message_frame b bytes ∷ []) (numbered o),
    frame_and_send-flushed now bytes b o v h,
    record {
      ready = record {
        can = v.can;
        empty = refl;
        next_sequence = ap (λ k. k + 1) v.next_sequence;
        next_reliable = ap (λ k. k + 1) v.next_reliable;
        next_order =
            rw
              (
                lookup-insert 0 0 (index_at 0 o.output_order_index + 1) o.output_order_index,
                index_at,
              )
              (ap (λ k. k + 1) v.next_order);
      };
      same_mtu = refl;
      appended = rw v.next_sequence refl;
      kept = rw v.next_sequence refl;
    },
  )
