-- ===== src/Frame/RoundTrip.antt =====
-- `Frame.write` and `Frame.read` of packages/raknet/src/shared/proto/types/frame.ts against each
-- other.
use Prim.Native.Nat.{bit_or}
use baltica.Base.{ℕ, zero, suc, ◌*◌, ◌%◌, ◌^◌, ◌≤◌, ◌<◌, ◌≡◌, refl}
use baltica.Base.{Bool, true, false, some, List, [], ◌∷◌, ◌++◌, append-nil, append_assoc, arith}
use baltica.Base.Tests.{if◌then◌else◌}
use baltica.Base.Lists.{length, All}
use baltica.Stream.{Width, BinaryStream, Laws, limit}
use baltica.Frame.{
  Reliability, Frame, reliability_of, reliability_code, is_reliable, is_sequenced, is_ordered,
  is_split, split_flag, header, header_reliability, header_split, bytes_of_bits, put_if, get_if,
  write_frame, write_frames, read_frame, read_frames_loop, read_frames, parsed,
}
use baltica.Frame.Length.{feof-write_frame, length-le-write_frames}

-- A field that is on the wire is in its range, and one that is not is unset.
abbrev pub Slot : Bool → Width → ℕ → Type 0
Slot true w n = n < limit w
Slot false w n = n ≡ 0

pub record IsWire (f : Frame) : Type 0 where
  pub reliable_slot : Slot (is_reliable f) Width.uint24_le f.reliable_frame_index
  pub sequence_slot : Slot (is_sequenced f) Width.uint24_le f.sequence_frame_index
  pub ordered_slot : Slot (is_ordered f) Width.uint24_le f.ordered_frame_index
  pub channel_slot : Slot (is_ordered f) Width.uint8 f.order_channel
  pub size_slot : Slot (is_split f) Width.uint32 f.split_size
  pub id_slot : Slot (is_split f) Width.uint16 f.split_id
  pub index_slot : Slot (is_split f) Width.uint32 f.split_frame_index
  pub payload_fits : length f.payload < 2 ^ 13

abbrev header_of : Reliability → Bool → ℕ
header_of r split = bit_or (reliability_code r * 2 ^ 5) (if split then split_flag else 0)

-- Each reliability and the split flag come back from the header byte.
header_of_lem :
    (r : Reliability) (split : Bool)
    → (header_of r split < 2 ^ 8)
      × (reliability_of (header_reliability (header_of r split)) ≡ r)
      × (header_split (header_of r split) ≡ split)
unfolding header_reliability header_split
header_of_lem Reliability.unreliable true = (omega arith, refl, refl)
header_of_lem Reliability.unreliable false = (omega arith, refl, refl)
header_of_lem Reliability.unreliable_sequenced true = (omega arith, refl, refl)
header_of_lem Reliability.unreliable_sequenced false = (omega arith, refl, refl)
header_of_lem Reliability.reliable true = (omega arith, refl, refl)
header_of_lem Reliability.reliable false = (omega arith, refl, refl)
header_of_lem Reliability.reliable_ordered true = (omega arith, refl, refl)
header_of_lem Reliability.reliable_ordered false = (omega arith, refl, refl)
header_of_lem Reliability.reliable_sequenced true = (omega arith, refl, refl)
header_of_lem Reliability.reliable_sequenced false = (omega arith, refl, refl)
header_of_lem Reliability.unreliable_with_ack_receipt true = (omega arith, refl, refl)
header_of_lem Reliability.unreliable_with_ack_receipt false = (omega arith, refl, refl)
header_of_lem Reliability.reliable_with_ack_receipt true = (omega arith, refl, refl)
header_of_lem Reliability.reliable_with_ack_receipt false = (omega arith, refl, refl)
header_of_lem Reliability.reliable_ordered_with_ack_receipt true = (omega arith, refl, refl)
header_of_lem Reliability.reliable_ordered_with_ack_receipt false = (omega arith, refl, refl)

pub header_lem :
    (f : Frame)
    → (header f < 2 ^ 8)
      × (reliability_of (header_reliability (header f)) ≡ f.reliability)
      × (header_split (header f) ≡ is_split f)
unfolding header
header_lem f = header_of_lem f.reliability (is_split f)

bits_back :
    (n : ℕ) → n < 2 ^ 13 → (n * 2 ^ 3 % 2 ^ 32 < 2 ^ 16) × (bytes_of_bits (n * 2 ^ 3 % 2 ^ 32) ≡ n)
unfolding bytes_of_bits
bits_back n h = omega arith

module _ (io : BinaryStream) (laws : Laws io) where
  get_if-put_if :
      (b : Bool) (w : Width) (n : ℕ) (rest : List ℕ)
      → Slot b w n
      → get_if io b w (put_if io b w n ++ rest) ≡ some (n, rest)
  unfolding get_if put_if
  get_if-put_if true w n rest h = laws.get-put w n rest h
  get_if-put_if false w n rest h = rw h refl

  pub read_frame-write_frame :
      (f : Frame) (rest : List ℕ)
      → IsWire f
      → read_frame io (write_frame io f ++ rest) ≡ some (f, rest)
  unfolding read_frame write_frame
  read_frame-write_frame f rest v = simp append_assoc (
      rw
        (
          laws.get-put _ _ _ (header_lem f).0,
          (header_lem f).1,
          (header_lem f).2,
          laws.get-put _ _ _ (bits_back (length f.payload) v.payload_fits).0,
          get_if-put_if _ _ _ _ v.reliable_slot,
          get_if-put_if _ _ _ _ v.sequence_slot,
          get_if-put_if _ _ _ _ v.ordered_slot,
          get_if-put_if _ _ _ _ v.channel_slot,
          get_if-put_if _ _ _ _ v.size_slot,
          get_if-put_if _ _ _ _ v.id_slot,
          get_if-put_if _ _ _ _ v.index_slot,
          (bits_back (length f.payload) v.payload_fits).1,
          laws.write_lem f.payload,
          laws.read_lem f.payload rest,
        )
        refl)

  read_frames_loop-write_frames :
      (fuel : ℕ) (fs done : List Frame)
      → length fs ≤ fuel
      → All IsWire fs
      → read_frames_loop io fuel (write_frames io fs) done ≡ parsed (done ++ fs)
  unfolding write_frames read_frames_loop
  read_frames_loop-write_frames zero [] done h v =
      rw (laws.feof_nil, read_frames_loop, append-nil) refl
  read_frames_loop-write_frames (suc fuel) [] done h v =
      rw (laws.feof_nil, read_frames_loop, append-nil) refl
  read_frames_loop-write_frames zero (f ∷ fs) done h v = absurd (omega arith)
  read_frames_loop-write_frames (suc fuel) (f ∷ fs) done h v =
      rw (feof-write_frame io laws f (write_frames io fs), read_frames_loop)
        (rw (read_frame-write_frame f (write_frames io fs) v.0) (
          rw (append_assoc done (f ∷ []) fs) at
            (read_frames_loop-write_frames fuel fs (done ++ (f ∷ [])) (omega arith) v.1)))

  -- `Frame.read` returns the frames that `Frame.write` was given.
  pub read_frames-write_frames :
      (fs : List Frame) → All IsWire fs → read_frames io (write_frames io fs) ≡ parsed fs
  unfolding read_frames
  read_frames-write_frames fs v =
      read_frames_loop-write_frames _ fs [] (length-le-write_frames io laws fs) v
