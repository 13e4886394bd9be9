-- ===== src/Window/Noting.antt =====
-- The first half of `onFrameSet` and the first test of `handleFrame` of
-- packages/raknet/src/shared/network-session.ts, for what is new and for what has come before.
use baltica.Base.{ℕ, ◌+◌, ◌≡◌, refl, true, false, none, some, inl, inr}
use baltica.Base.Tests.{leb, if◌then◌else◌, Bool-cases}
use baltica.Base.Sets.{has, add}
use baltica.Window.{Window, note_sequence, note_reliable, noted, advanced}

pub note_sequence_new :
    (seq : ℕ) (w : Window)
    → has seq w.received_frame_sequences ≡ false
    → (w' : Window) × (note_sequence seq w ≡ some w')
      × (w'.received_frame_sequences ≡ add seq w.received_frame_sequences)
      × (w'.received_reliable_frame_indices ≡ w.received_reliable_frame_indices)
unfolding note_sequence
note_sequence_new seq w h = elim (Bool-cases (leb w.next_input_sequence seq)) [
  | inl b ↦ (advanced seq w, rw (h, b, note_sequence) refl, refl, refl)
  | inr b ↦ (noted seq w, rw (h, b, note_sequence) refl, refl, refl)
]

abbrev pub counted : ℕ → Window → Window
counted index w = record w {
  received_reliable_frame_indices = add index w.received_reliable_frame_indices;
  next_reliable_index =
      if leb w.next_reliable_index index then index + 1 else w.next_reliable_index;
}

pub note_reliable_new :
    (index : ℕ) (w : Window)
    → has index w.received_reliable_frame_indices ≡ false
    → note_reliable index w ≡ some (counted index w)
unfolding note_reliable
note_reliable_new index w h = rw h refl

pub note_reliable_old :
    (index : ℕ) (w : Window)
    → has index w.received_reliable_frame_indices ≡ true
    → note_reliable index w ≡ none
unfolding note_reliable
note_reliable_old index w h = rw h refl
