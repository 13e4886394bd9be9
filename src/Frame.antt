-- ===== src/Frame.antt =====
-- packages/raknet/src/shared/proto/types/frame.ts and the `Reliability` enumeration of
-- packages/raknet/src/shared/proto/enums/reliability.ts.
--
-- A number field that the program leaves unset is 0: no code reads one, since each use is guarded
-- by the same test of the reliability or of the split size under which the field is set.
pub mod RoundTrip
pub mod Length
pub mod Ends
use Prim.Native.Nat.{bit_and, bit_or}
use baltica.Base.{ℕ, zero, suc, ◌+◌, ◌-◌, ◌*◌, ◌/◌, ◌%◌, ◌^◌, ◌≤◌, ◌<◌}
use baltica.Base.{Bool, true, false, not, ◌||◌, Option, none, some, List, [], ◌∷◌, ◌++◌}
use baltica.Base.Tests.{◌==◌, ltb, if◌then◌else◌}
use baltica.Base.Lists.{length}
use baltica.Stream.{Width, BinaryStream}

pub data Reliability : Type 0 where
  unreliable : Reliability
  unreliable_sequenced : Reliability
  reliable : Reliability
  reliable_ordered : Reliability
  reliable_sequenced : Reliability
  unreliable_with_ack_receipt : Reliability
  reliable_with_ack_receipt : Reliability
  reliable_ordered_with_ack_receipt : Reliability

abbrev pub reliability_code : Reliability → ℕ
reliability_code Reliability.unreliable = 0
reliability_code Reliability.unreliable_sequenced = 1
reliability_code Reliability.reliable = 2
reliability_code Reliability.reliable_ordered = 3
reliability_code Reliability.reliable_sequenced = 4
reliability_code Reliability.unreliable_with_ack_receipt = 5
reliability_code Reliability.reliable_with_ack_receipt = 6
reliability_code Reliability.reliable_ordered_with_ack_receipt = 7

-- `reliability as Reliability`: the three bits of a header name every case.
abbrev pub reliability_of : ℕ → Reliability
reliability_of zero = Reliability.unreliable
reliability_of (suc zero) = Reliability.unreliable_sequenced
reliability_of (suc (suc zero)) = Reliability.reliable
reliability_of (suc (suc (suc zero))) = Reliability.reliable_ordered
reliability_of (suc (suc (suc (suc zero)))) = Reliability.reliable_sequenced
reliability_of (suc (suc (suc (suc (suc zero))))) = Reliability.unreliable_with_ack_receipt
reliability_of (suc (suc (suc (suc (suc (suc zero)))))) = Reliability.reliable_with_ack_receipt
reliability_of _ = Reliability.reliable_ordered_with_ack_receipt

pub record Frame : Type 0 where
  pub reliability : Reliability
  pub reliable_frame_index : ℕ
  pub sequence_frame_index : ℕ
  pub ordered_frame_index : ℕ
  pub order_channel : ℕ
  pub split_frame_index : ℕ
  pub split_size : ℕ
  pub split_id : ℕ
  pub payload : List ℕ

-- `new Frame()`
abbrev pub new_frame : Frame
new_frame = record {
  reliability = Reliability.unreliable;
  reliable_frame_index = 0;
  sequence_frame_index = 0;
  ordered_frame_index = 0;
  order_channel = 0;
  split_frame_index = 0;
  split_size = 0;
  split_id = 0;
  payload = [];
}

abbrev pub reliable? : Reliability → Bool
reliable? Reliability.unreliable = false
reliable? Reliability.unreliable_sequenced = false
reliable? Reliability.reliable = true
reliable? Reliability.reliable_ordered = true
reliable? Reliability.reliable_sequenced = true
reliable? Reliability.unreliable_with_ack_receipt = false
reliable? Reliability.reliable_with_ack_receipt = true
reliable? Reliability.reliable_ordered_with_ack_receipt = true

abbrev pub sequenced? : Reliability → Bool
sequenced? Reliability.unreliable_sequenced = true
sequenced? Reliability.reliable_sequenced = true
sequenced? _ = false

abbrev pub ordered? : Reliability → Bool
ordered? Reliability.unreliable_sequenced = true
ordered? Reliability.reliable_ordered = true
ordered? Reliability.reliable_sequenced = true
ordered? Reliability.reliable_ordered_with_ack_receipt = true
ordered? _ = false

abbrev pub order_exclusive? : Reliability → Bool
order_exclusive? Reliability.reliable_ordered = true
order_exclusive? Reliability.reliable_ordered_with_ack_receipt = true
order_exclusive? _ = false

abbrev pub is_split : Frame → Bool
is_split f = ltb 0 f.split_size

abbrev pub is_reliable : Frame → Bool
is_reliable f = reliable? f.reliability

abbrev pub is_sequenced : Frame → Bool
is_sequenced f = sequenced? f.reliability

abbrev pub is_ordered : Frame → Bool
is_ordered f = ordered? f.reliability

abbrev pub is_order_exclusive : Frame → Bool
is_order_exclusive f = order_exclusive? f.reliability

unfoldable pub get_byte_length : Frame → ℕ
get_byte_length f =
    3
    + length f.payload
    + (if is_reliable f then 3 else 0)
    + (if is_sequenced f then 3 else 0)
    + (if is_ordered f then 4 else 0)
    + (if is_split f then 10 else 0)

-- `for (const f of frames) length += f.getByteLength()`
unfoldable pub total_byte_length : List Frame → ℕ
total_byte_length [] = 0
total_byte_length (f ∷ fs) = get_byte_length f + total_byte_length fs

abbrev pub split_flag : ℕ
split_flag = 0x10

-- `(reliability << 5) | (isSplit ? SplitFlag : 0)`
unfoldable pub header : Frame → ℕ
header f = bit_or (reliability_code f.reliability * 2 ^ 5) (if is_split f then split_flag else 0)

-- `(header & 0xe0) >> 5` and `(header & SplitFlag) !== 0`
unfoldable pub header_reliability : ℕ → ℕ
header_reliability h = bit_and h 0xe0 / 2 ^ 5

unfoldable pub header_split : ℕ → Bool
header_split h = not (bit_and h split_flag == 0)

-- `Math.ceil(bits / 8)`
unfoldable pub bytes_of_bits : ℕ → ℕ
bytes_of_bits bits = (bits + 7) / 8

-- A chain of reads stops at the first one that throws.
infixl 5 ◌>>=◌
abbrev pub ◌>>=◌ {ℓ κ} : {A : Type ℓ} {B : Type κ} → Option A → (A → Option B) → Option B
none >>= k = none
some a >>= k = k a

-- How a loop over a stream ends.
pub data Parsed {ℓ} (A : Type ℓ) : Type ℓ where
  parsed : A → Parsed A
  throws : Parsed A
  out_of_fuel : Parsed A

module _ (io : BinaryStream) where
  open io use {put, get, write, read, feof}

  unfoldable pub put_if : Bool → Width → ℕ → List ℕ
  put_if b w n = if b then put w n else []

  -- A field that is not on the wire stays unset.
  unfoldable pub get_if : Bool → Width → List ℕ → Option (ℕ × List ℕ)
  get_if b w bytes = if b then get w bytes else some (0, bytes)

  -- What one round of the loop of `Frame.write` appends.
  unfoldable pub write_frame : Frame → List ℕ
  write_frame f =
      put Width.uint8 (header f)
      ++ (put Width.uint16 (length f.payload * 2 ^ 3 % 2 ^ 32)
          ++ (put_if (is_reliable f) Width.uint24_le f.reliable_frame_index
              ++ (put_if (is_sequenced f) Width.uint24_le f.sequence_frame_index
                  ++ (put_if (is_ordered f) Width.uint24_le f.ordered_frame_index
                      ++ (put_if (is_ordered f) Width.uint8 f.order_channel
                          ++ (put_if (is_split f) Width.uint32 f.split_size
                              ++ (put_if (is_split f) Width.uint16 f.split_id
                                  ++ (put_if (is_split f) Width.uint32 f.split_frame_index
                                      ++ write f.payload))))))))

  unfoldable pub write_frames : List Frame → List ℕ
  write_frames [] = []
  write_frames (f ∷ fs) = write_frame f ++ write_frames fs

  -- One round of the loop of `Frame.read`.
  unfoldable pub read_frame : List ℕ → Option (Frame × List ℕ)
  read_frame bytes = do
    (h, bytes) ← get Width.uint8 bytes
    let r = reliability_of (header_reliability h)
    let split = header_split h
    (bits, bytes) ← get Width.uint16 bytes
    (reliable_index, bytes) ← get_if (reliable? r) Width.uint24_le bytes
    (sequence_index, bytes) ← get_if (sequenced? r) Width.uint24_le bytes
    (ordered_index, bytes) ← get_if (ordered? r) Width.uint24_le bytes
    (channel, bytes) ← get_if (ordered? r) Width.uint8 bytes
    (split_size, bytes) ← get_if split Width.uint32 bytes
    (split_id, bytes) ← get_if split Width.uint16 bytes
    (split_index, bytes) ← get_if split Width.uint32 bytes
    (payload, bytes) ← read (bytes_of_bits bits) bytes
    some (
      record {
        reliability = r;
        reliable_frame_index = reliable_index;
        sequence_frame_index = sequence_index;
        ordered_frame_index = ordered_index;
        order_channel = channel;
        split_frame_index = split_index;
        split_size = split_size;
        split_id = split_id;
        payload = payload;
      },
      bytes,
    )

  -- `while (!stream.feof())`, on fuel: a round takes three bytes at least.
  unfoldable pub read_frames_loop : ℕ → List ℕ → List Frame → Parsed (List Frame)
  read_frames_loop zero bytes frames = elim (feof bytes) [
    | true ↦ parsed frames
    | false ↦ out_of_fuel
  ]
  read_frames_loop (suc fuel) bytes frames = elim (feof bytes) [
    | true ↦ parsed frames
    | false ↦ elim (read_frame bytes) [
      | none ↦ throws
      | some (f, rest) ↦ read_frames_loop fuel rest (frames ++ (f ∷ []))
    ]
  ]

  unfoldable pub read_frames : List ℕ → Parsed (List Frame)
  read_frames bytes = read_frames_loop (length bytes) bytes []
