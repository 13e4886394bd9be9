-- ===== src/FrameSet.antt =====
-- packages/raknet/src/shared/proto/packets/online/frame-set.ts
use baltica.Base.{ℕ, ◌+◌, ◌^◌, ◌<◌, ◌≡◌, refl, List, ◌++◌, Option, none, some, arith}
use baltica.Base.Lists.{length, length-append, All}
use baltica.Stream.{Width, BinaryStream, Laws}
use baltica.Stream.Buffers.{payload, payload-put}
use baltica.Frame.{
  Frame, ◌>>=◌, Parsed, parsed, throws, out_of_fuel, write_frames, read_frames, total_byte_length,
}
use baltica.Frame.RoundTrip.{IsWire, read_frames-write_frames}
use baltica.Frame.Length.{length-write_frames}

pub record FrameSet : Type 0 where
  pub sequence : ℕ
  pub frames : List Frame

abbrev pub frame_set_min : ℕ
frame_set_min = 0x80

abbrev pub frame_set_max : ℕ
frame_set_max = 0x8d

-- The reads of `deserialize` as a chain: a loop that runs out of fuel gives no frame set, and none
-- does.
abbrev pub of_parsed {ℓ} : {A : Type ℓ} → Parsed A → Option A
of_parsed (parsed a) = some a
of_parsed throws = none
of_parsed out_of_fuel = none

module _ (io : BinaryStream) where
  unfoldable pub serialize : FrameSet → List ℕ
  serialize fs =
      io.put Width.uint8 frame_set_min
      ++ (io.put Width.uint24_le fs.sequence ++ write_frames io fs.frames)

  unfoldable pub deserialize : List ℕ → Option FrameSet
  deserialize bytes = do
    (sequence, bytes) ← io.get Width.uint24_le bytes
    frames ← of_parsed (read_frames io bytes)
    some (record { sequence = sequence; frames = frames })

module _ (io : BinaryStream) (laws : Laws io) where
  -- A frame set comes back from its bytes, sequence number, frames and all.
  pub deserialize-serialize :
      (fs : FrameSet)
      → fs.sequence < 2 ^ 24
      → All IsWire fs.frames
      → deserialize io (payload (serialize io fs)) ≡ some fs
  unfolding deserialize serialize
  deserialize-serialize fs h v =
      rw (payload-put io laws, laws.get-put _ _ _ h, read_frames-write_frames io laws fs.frames v)
        refl

  -- The datagram is four bytes longer than its frames.
  pub length-serialize :
      (fs : FrameSet) → length (serialize io fs) ≡ 4 + total_byte_length fs.frames
  unfolding serialize
  length-serialize fs =
      simp (length-append, laws.length-put, length-write_frames io laws) (omega arith)
