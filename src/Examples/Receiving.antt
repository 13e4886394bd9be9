-- ===== src/Examples/Receiving.antt =====
-- The receiving half of packages/raknet/src/shared/network-session.ts on small inputs.
use baltica.Base.{
  ℕ, ◌<◌, ◌≡◌, ◌⊎◌, refl, true, false, not, ◌&&◌, ◌||◌, none, some, List, [], ◌∷◌, ◌++◌, arith,
}
use baltica.Base.Tests.{◌==◌, leb, ltb}
use baltica.Base.Lists.{All}
use baltica.Base.Sets.{has}
use baltica.Base.Maps.{Map, lookup}
use baltica.Frame.{Frame, Reliability, new_frame}
use baltica.Ordering.{done, Ordering, new_ordering, each_channel, handle_all_ordered}
use baltica.Ordering.Delivery.{always, deliver}
use baltica.Ordering.Channel.{indices, handle_all_ordered-deliver}
use baltica.Ordering.Sequenced.{Newest, Descends, sequenced_run, sequenced_run-Newest}
use baltica.Fragment.{Entry, chunk, reassemble}
use baltica.Fragment.Arrivals.{split_run, split_run-payload}
use baltica.Fragment.Reassembly.{IsFragment}
use baltica.Window.{Window, new_window, note_sequence}
use baltica.Window.Gaps.{IsConsistent, note_sequence_lem}

abbrev ordered : ℕ → Frame
ordered i = record new_frame {
  reliability = Reliability.reliable_ordered;
  ordered_frame_index = i;
  payload = i ∷ 7 ∷ [];
}

abbrev content : ℕ → List ℕ
content i = i ∷ 7 ∷ []

abbrev late_frames : List Frame
late_frames = ordered 1 ∷ ordered 0 ∷ ordered 3 ∷ ordered 1 ∷ []

abbrev log_payload : List ℕ → List (List ℕ) → List (List ℕ)
log_payload bytes log = bytes ∷ log

handle_all_ordered-deliver_example :
    (next : ℕ) × (o : Ordering) × (handle_all_ordered
        (always log_payload)
        late_frames
        new_ordering
        []
      ≡ done (o, deliver log_payload content next []))
    × ((j : ℕ) → j < next → has j (indices late_frames) ≡ true)
    × (has next (indices late_frames) ≡ false)
handle_all_ordered-deliver_example =
    handle_all_ordered-deliver log_payload content [] 0 late_frames (omega arith)
      ((refl, refl), ((refl, refl), ((refl, refl), ((refl, refl), tt))))

abbrev sequenced : ℕ → Frame
sequenced i = record new_frame {
  reliability = Reliability.unreliable_sequenced;
  sequence_frame_index = i;
  payload = i ∷ [];
}

abbrev first_byte : List ℕ → ℕ
first_byte [] = 0
first_byte (b ∷ bytes) = b

abbrev mixed_frames : List Frame
mixed_frames = sequenced 0 ∷ sequenced 2 ∷ sequenced 1 ∷ []

sequenced_run-Newest_example :
    (last : ℕ) × (o : Ordering) × (log : List (List ℕ)) × (sequenced_run mixed_frames new_ordering
        []
      ≡ done (o, log))
    × Newest first_byte last log
    × Descends first_byte last log
    × All (λ f. f.sequence_frame_index < last) mixed_frames
sequenced_run-Newest_example =
    sequenced_run-Newest first_byte 0 mixed_frames new_ordering
      (unfold new_ordering each_channel lookup in refl)
      ((refl, refl), ((refl, refl), ((refl, refl), tt)))

abbrev three_bytes : List ℕ
three_bytes = 10 ∷ 11 ∷ 12 ∷ []

-- Fragments of two bytes at most, under the identifier 5.
abbrev fragment : ℕ → Frame
fragment i = record new_frame {
  reliability = Reliability.reliable;
  split_frame_index = i;
  split_id = 5;
  split_size = 2;
  payload = chunk 2 three_bytes i;
}

split_run-payload_example :
    (queue : Map Entry) × (split_run
        (((0, fragment 1) ∷ (1, fragment 1) ∷ []) ++ (2, fragment 0) ∷ [])
        []
      ≡ (queue, reassemble (fragment 0) three_bytes ∷ []))
    × (lookup 5 queue ≡ none)
split_run-payload_example =
    split_run-payload 2 5 three_bytes ((0, fragment 1) ∷ (1, fragment 1) ∷ []) (fragment 0) 2 0 []
      (omega arith) (unfold lookup in refl) (of_fragment, (of_fragment, tt))
      (record { of_id = refl; of_size = refl; in_range = omega arith; carries = refl })
      (omega arith) (unfold has in refl) λ i h. unfold has in ground arith
  where
    of_fragment : IsFragment (chunk 2 three_bytes) 5 2 (fragment 1)
    of_fragment = record { of_id = refl; of_size = refl; in_range = omega arith; carries = refl }

abbrev gap_window : Window
gap_window = record new_window {
  received_frame_sequences = 0 ∷ [];
  pending_acks = 0 ∷ [];
  next_input_sequence = 1;
}

gap_window-IsConsistent : IsConsistent gap_window
gap_window-IsConsistent = record {
  apart = λ k e. unfold has in ground arith;
  lost_below = λ k e. unfold has in ground arith;
  received_below = λ k e. unfold has in ground arith;
  reliable_below = λ k e. unfold has in ground arith;
}

note_sequence_lem_example :
    ((has 3 gap_window.received_frame_sequences ≡ true) × (note_sequence 3 gap_window ≡ none))
    ⊎ ((w : Window) × (has 3 gap_window.received_frame_sequences ≡ false)
        × (note_sequence 3 gap_window ≡ some w)
        × ((k : ℕ)
            → has k w.received_frame_sequences
              ≡ 3 == k || has k gap_window.received_frame_sequences)
        × ((k : ℕ) → has k w.pending_acks ≡ 3 == k || has k gap_window.pending_acks)
        × ((k : ℕ)
            → has k w.lost_frame_sequences
              ≡ (not (3 == k) && has k gap_window.lost_frame_sequences)
                || (leb 1 k && ltb k 3 && not (has k gap_window.received_frame_sequences))))
note_sequence_lem_example = note_sequence_lem 3 gap_window

abbrev behind_window : Window
behind_window = record gap_window {
  received_frame_sequences = 0 ∷ 3 ∷ [];
  lost_frame_sequences = 1 ∷ 2 ∷ [];
  pending_acks = 0 ∷ 3 ∷ [];
  next_input_sequence = 4;
}
