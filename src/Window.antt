-- ===== src/Window.antt =====
-- The receive window of `NetworkSession` of packages/raknet/src/shared/network-session.ts: which
-- frame sets and reliable frames have come, what is missing, what is to be acknowledged; the
-- first half of `onFrameSet`, the first test of `handleFrame` and the cleanup of `tick`.
--
-- `lastInputSequence` and `highestReliableIndex` start at -1 and are kept here plus one.
pub mod Gaps
pub mod Noting
use baltica.Base.{ℕ, zero, suc, ◌+◌, ◌-◌}
use baltica.Base.{Bool, true, false, Option, none, some, List, [], ◌∷◌}
use baltica.Base.Tests.{leb, ltb, if◌then◌else◌}
use baltica.Base.Sets.{has, add, delete, delete_below}

abbrev pub receive_window : ℕ
receive_window = 2048

abbrev pub reliable_window : ℕ
reliable_window = 4096

pub record Window : Type 0 where
  pub received_frame_sequences : List ℕ
  pub lost_frame_sequences : List ℕ
  pub pending_acks : List ℕ
  pub next_input_sequence : ℕ
  pub received_reliable_frame_indices : List ℕ
  pub next_reliable_index : ℕ

abbrev pub new_window : Window
new_window = record {
  received_frame_sequences = [];
  lost_frame_sequences = [];
  pending_acks = [];
  next_input_sequence = 0;
  received_reliable_frame_indices = [];
  next_reliable_index = 0;
}

-- `for (let i = lastInputSequence + 1; i < fs.sequence; i++)`, with the rounds counted.
unfoldable pub mark_lost : ℕ → ℕ → List ℕ → List ℕ → List ℕ
mark_lost zero i received lost = lost
mark_lost (suc n) i received lost =
    mark_lost n (i + 1) received (if has i received then lost else add i lost)

-- The frame set is received, to be acknowledged, and no longer lost.
abbrev pub noted : ℕ → Window → Window
noted seq w = record w {
  received_frame_sequences = add seq w.received_frame_sequences;
  lost_frame_sequences = delete seq w.lost_frame_sequences;
  pending_acks = add seq w.pending_acks;
}

-- It is also the newest: what it skips is lost.
abbrev pub advanced : ℕ → Window → Window
advanced seq w = record (noted seq w) {
  lost_frame_sequences =
      mark_lost (seq - w.next_input_sequence) w.next_input_sequence
        (add seq w.received_frame_sequences) (delete seq w.lost_frame_sequences);
  next_input_sequence = seq + 1;
}

-- `onFrameSet` up to the loop over its frames; none is the return at a repeated frame set.
unfoldable pub note_sequence : ℕ → Window → Option Window
note_sequence seq w =
    if has seq w.received_frame_sequences
    then none
    else if leb w.next_input_sequence seq
    then some (advanced seq w)
    else some (noted seq w)

-- The first test of `handleFrame` for a reliable frame; none is the return at a repeated one.
unfoldable pub note_reliable : ℕ → Window → Option Window
note_reliable index w =
    if has index w.received_reliable_frame_indices
    then none
    else some (record w {
      received_reliable_frame_indices = add index w.received_reliable_frame_indices;
      next_reliable_index =
          if leb w.next_reliable_index index then index + 1 else w.next_reliable_index;
    })

-- What lies below the window's start is forgotten.
abbrev pub forget_sequences : ℕ → Window → Window
forget_sequences start w = record w {
  received_frame_sequences = delete_below start w.received_frame_sequences;
  lost_frame_sequences = delete_below start w.lost_frame_sequences;
}

abbrev pub forget_indices : ℕ → Window → Window
forget_indices start w = record w {
  received_reliable_frame_indices = delete_below start w.received_reliable_frame_indices;
}

-- `windowStart = lastInputSequence - RECEIVE_WINDOW` when it is above 0.
unfoldable pub cleanup_sequences : Window → Window
cleanup_sequences w =
    if ltb (receive_window + 1) w.next_input_sequence
    then forget_sequences (w.next_input_sequence - (receive_window + 1)) w
    else w

-- `relStart = highestReliableIndex - RELIABLE_WINDOW` when it is above 0.
unfoldable pub cleanup_indices : Window → Window
cleanup_indices w =
    if ltb (reliable_window + 1) w.next_reliable_index
    then forget_indices (w.next_reliable_index - (reliable_window + 1)) w
    else w

-- The cleanup of `tick`.
abbrev pub cleanup : Window → Window
cleanup w = cleanup_indices (cleanup_sequences w)
