-- ===== src/Examples/Wire.antt =====
-- Frames, frame sets and acknowledgements of packages/raknet/src/shared/proto on the wire, on small
-- inputs.
use mathlib.Core.Logic.{◌↔◌}
use baltica.Base.{ℕ, ◌≡◌, ◌≢◌, refl, some, List, [], ◌∷◌, arith}
use baltica.Base.Lists.{length, All}
use baltica.Base.Sets.{has}
use baltica.Stream.Sample.{sample, sample-Laws}
use baltica.Stream.Buffers.{payload}
use baltica.Frame.{
  Frame, Reliability, new_frame, write_frame, read_frames, out_of_fuel, get_byte_length,
}
use baltica.Frame.RoundTrip.{IsWire}
use baltica.Frame.Length.{length-write_frame}
use baltica.Frame.Ends.{read_frames-ends}
use baltica.FrameSet
use baltica.FrameSet.{FrameSet, deserialize-serialize, length-serialize}
use baltica.Acknowledgement
use baltica.Acknowledgement.Sets.{of_list, serialize-SequenceSet}
use baltica.Acknowledgement.Runs.{Ascends}
use baltica.Acknowledgement.{Kind}
use baltica.Acknowledgement.RoundTrip.{deserialize-serialize-Ascends}

abbrev two_frames : List Frame
two_frames =
    record new_frame {
      reliability = Reliability.reliable_ordered;
      reliable_frame_index = 2;
      ordered_frame_index = 1;
      payload = 254 ∷ 1 ∷ [];
    }
    ∷ record new_frame { reliability = Reliability.unreliable; payload = 0 ∷ [] }
    ∷ []

two_frames-IsWire : All IsWire two_frames
two_frames-IsWire = (
  record {
    reliable_slot = omega arith;
    sequence_slot = refl;
    ordered_slot = omega arith;
    channel_slot = omega arith;
    size_slot = refl;
    id_slot = refl;
    index_slot = refl;
    payload_fits = omega arith;
  },
  (
    record {
      reliable_slot = refl;
      sequence_slot = refl;
      ordered_slot = refl;
      channel_slot = refl;
      size_slot = refl;
      id_slot = refl;
      index_slot = refl;
      payload_fits = omega arith;
    },
    tt,
  ),
)

-- A header alone: the read throws, and the loop ends.
read_frames-ends_example : read_frames sample (96 ∷ []) ≢ out_of_fuel
read_frames-ends_example = read_frames-ends sample sample-Laws (96 ∷ [])

abbrev one_frame : Frame
one_frame = record new_frame {
  reliability = Reliability.reliable_ordered;
  reliable_frame_index = 2;
  payload = 9 ∷ [];
}

length-write_frame_example : length (write_frame sample one_frame) ≡ get_byte_length one_frame
length-write_frame_example = length-write_frame sample sample-Laws one_frame

abbrev some_set : FrameSet
some_set = record { sequence = 300; frames = two_frames }

deserialize-serialize_example :
    FrameSet.deserialize sample (payload (FrameSet.serialize sample some_set)) ≡ some some_set
deserialize-serialize_example =
    deserialize-serialize sample sample-Laws some_set (omega arith) two_frames-IsWire

abbrev sequences : List ℕ
sequences = 5 ∷ 3 ∷ 4 ∷ 9 ∷ 3 ∷ []

deserialize-serialize-Ascends_example :
    (out : List ℕ) × (Acknowledgement.deserialize sample
        (payload (Acknowledgement.serialize sample Kind.nack sequences))
      ≡ some out)
    × Ascends 0 out
    × ((y : ℕ) → has y out ≡ has y sequences)
deserialize-serialize-Ascends_example =
    deserialize-serialize-Ascends sample sample-Laws Kind.nack sequences
      (omega arith, (omega arith, (omega arith, (omega arith, (omega arith, tt))))) (omega arith)

-- The same numbers in another order, once each.
abbrev reordered : List ℕ
reordered = 9 ∷ 4 ∷ 3 ∷ 5 ∷ []

serialize-SequenceSet_example :
    (Acknowledgement.serialize sample Kind.nack sequences
      ≡ Acknowledgement.serialize sample Kind.nack reordered)
    ↔ (of_list sequences ≡ of_list reordered)
serialize-SequenceSet_example =
    serialize-SequenceSet sample sample-Laws Kind.nack sequences reordered
      (omega arith, (omega arith, (omega arith, (omega arith, (omega arith, tt)))))
      (omega arith, (omega arith, (omega arith, (omega arith, tt)))) (omega arith) (omega arith)
