-- ===== src/Window/Gaps.antt =====
-- Gap detection in `onFrameSet` of packages/raknet/src/shared/network-session.ts: what becomes lost,
-- and the well-formedness of a window.
use baltica.Base.{
  ℕ, zero, suc, ◌+◌, ◌-◌, ◌≤◌, ◌<◌, ◌≡◌, refl, subst, true, false, not, ◌&&◌, ◌||◌, none, some,
  List, ◌⊎◌, inl, inr, arith,
}
use baltica.Base.Tests.{some_injective, if_cases, ◌==◌, leb, ltb, if◌then◌else◌, Bool-cases}
use baltica.Base.Sets.{has, add, delete, has-add, has-delete, has-delete_below}
use baltica.Window.{
  Window, new_window, mark_lost, noted, advanced, note_sequence, note_reliable, forget_sequences,
  forget_indices, cleanup_sequences, cleanup_indices, cleanup, receive_window, reliable_window,
}

-- What is lost was skipped: it has not been received, and it lies below what is expected next.
pub record IsConsistent (w : Window) : Type 0 where
  pub apart :
      (k : ℕ) → has k w.lost_frame_sequences ≡ true → has k w.received_frame_sequences ≡ false
  pub lost_below : (k : ℕ) → has k w.lost_frame_sequences ≡ true → k < w.next_input_sequence
  pub received_below : (k : ℕ) → has k w.received_frame_sequences ≡ true → k < w.next_input_sequence
  pub reliable_below :
      (k : ℕ) → has k w.received_reliable_frame_indices ≡ true → k < w.next_reliable_index

has-mark_lost :
    (n i k : ℕ) (received lost : List ℕ)
    → has k (mark_lost n i received lost)
      ≡ has k lost || (leb i k && ltb k (i + n) && not (has k received))
unfolding mark_lost
has-mark_lost zero i k received lost = ground arith
has-mark_lost (suc n) i k received lost = ground (
  arith,
  has-mark_lost n (i + 1) k received (if has i received then lost else add i lost),
  has-add i k lost,
)

pub new_window-IsConsistent : IsConsistent new_window
unfolding has
new_window-IsConsistent = record {
  apart = λ k e. cc;
  lost_below = λ k e. cc;
  received_below = λ k e. cc;
  reliable_below = λ k e. cc;
}

-- A sequence number that has been received is repeated, and such a frame set is ignored. One that has
-- not been is received and to be acknowledged; it is no longer lost, and what it skips is: the
-- sequence numbers from the expected one up to it that have not been received.
pub note_sequence_lem :
    (seq : ℕ) (w : Window)
    → ((has seq w.received_frame_sequences ≡ true) × (note_sequence seq w ≡ none))
      ⊎ ((w' : Window) × (has seq w.received_frame_sequences ≡ false)
          × (note_sequence seq w ≡ some w')
          × ((k : ℕ)
              → has k w'.received_frame_sequences ≡ seq == k || has k w.received_frame_sequences)
          × ((k : ℕ) → has k w'.pending_acks ≡ seq == k || has k w.pending_acks)
          × ((k : ℕ)
              → has k w'.lost_frame_sequences
                ≡ (not (seq == k) && has k w.lost_frame_sequences)
                  || (leb w.next_input_sequence k
                      && ltb k seq
                      && not (has k w.received_frame_sequences))))
unfolding note_sequence
note_sequence_lem seq w =
    let received = add seq w.received_frame_sequences in
    let lost = delete seq w.lost_frame_sequences in
    let n = w.next_input_sequence in
    elim (Bool-cases (has seq w.received_frame_sequences)) [
      | inl e ↦ inl (e, rw e refl)
      | inr e ↦ elim (Bool-cases (leb w.next_input_sequence seq)) [
        | inl b ↦ inr (
          advanced seq w,
          e,
          rw (e, b) refl,
          λ k. has-add seq k w.received_frame_sequences,
          λ k. has-add seq k w.pending_acks,
          λ k. ground (
            arith,
            has-mark_lost (seq - n) n k received lost,
            has-delete seq k w.lost_frame_sequences,
            has-add seq k w.received_frame_sequences,
          ),
        )
        | inr b ↦ inr (
          noted seq w,
          e,
          rw (e, b) refl,
          λ k. has-add seq k w.received_frame_sequences,
          λ k. has-add seq k w.pending_acks,
          λ k. ground (arith, has-delete seq k w.lost_frame_sequences),
        )
      ]
    ]

advanced-IsConsistent :
    (seq : ℕ) (w : Window)
    → w.next_input_sequence ≤ seq
    → IsConsistent w
    → IsConsistent (advanced seq w)
advanced-IsConsistent seq w h v =
    let n = w.next_input_sequence in
    let received = add seq w.received_frame_sequences in
    let marked =
      λ (k : ℕ). has-mark_lost (seq - n) n k received (delete seq w.lost_frame_sequences) in
    record {
      apart = λ k e. ground (
        arith,
        marked k,
        has-delete seq k w.lost_frame_sequences,
        has-add seq k w.received_frame_sequences,
        v.apart k,
      );
      lost_below =
          λ k e. ground (arith, marked k, has-delete seq k w.lost_frame_sequences, v.lost_below k);
      received_below =
          λ k e. ground (arith, has-add seq k w.received_frame_sequences, v.received_below k);
      reliable_below = v.reliable_below;
    }

noted-IsConsistent :
    (seq : ℕ) (w : Window)
    → seq < w.next_input_sequence
    → IsConsistent w
    → IsConsistent (noted seq w)
noted-IsConsistent seq w h v = record {
  apart = λ k e. ground (
    arith,
    has-delete seq k w.lost_frame_sequences,
    has-add seq k w.received_frame_sequences,
    v.apart k,
  );
  lost_below = λ k e. ground (arith, has-delete seq k w.lost_frame_sequences, v.lost_below k);
  received_below =
      λ k e. ground (arith, has-add seq k w.received_frame_sequences, v.received_below k);
  reliable_below = v.reliable_below;
}

-- Receiving a frame set keeps the window consistent.
pub note_sequence-IsConsistent :
    (seq : ℕ) (w w' : Window) → IsConsistent w → note_sequence seq w ≡ some w' → IsConsistent w'
unfolding note_sequence
note_sequence-IsConsistent seq w w' v e = elim (Bool-cases (has seq w.received_frame_sequences)) [
  | inl b ↦ absurd (never (rw b at e))
  | inr b ↦ elim (Bool-cases (leb w.next_input_sequence seq)) [
    | inl c ↦
        subst IsConsistent (some_injective (rw (b, c) at e))
          (advanced-IsConsistent seq w (ground arith) v)
    | inr c ↦
        subst IsConsistent (some_injective (rw (b, c) at e))
          (noted-IsConsistent seq w (ground arith) v)
  ]
]
  where
    never : none ≡ some w' → ⊥
    never q = cc

-- Noting a reliable frame keeps the window consistent.
pub note_reliable-IsConsistent :
    (index : ℕ) (w w' : Window) → IsConsistent w → note_reliable index w ≡ some w' → IsConsistent w'
unfolding note_reliable
note_reliable-IsConsistent index w w' v e =
    elim (Bool-cases (has index w.received_reliable_frame_indices)) [
      | inl b ↦ absurd (never (rw b at e))
      | inr b ↦ subst IsConsistent (some_injective (rw b at e)) (record {
        apart = v.apart;
        lost_below = v.lost_below;
        received_below = v.received_below;
        reliable_below = λ k q.
            ground (arith, has-add index k w.received_reliable_frame_indices, v.reliable_below k);
      })
    ]
  where
    never : none ≡ some w' → ⊥
    never q = cc

forget_sequences-IsConsistent :
    (start : ℕ) (w : Window) → IsConsistent w → IsConsistent (forget_sequences start w)
forget_sequences-IsConsistent start w v = record {
  apart = λ k e. ground (
    arith,
    has-delete_below start k w.lost_frame_sequences,
    has-delete_below start k w.received_frame_sequences,
    v.apart k,
  );
  lost_below =
      λ k e. ground (arith, has-delete_below start k w.lost_frame_sequences, v.lost_below k);
  received_below = λ k e.
      ground (arith, has-delete_below start k w.received_frame_sequences, v.received_below k);
  reliable_below = v.reliable_below;
}

forget_indices-IsConsistent :
    (start : ℕ) (w : Window) → IsConsistent w → IsConsistent (forget_indices start w)
forget_indices-IsConsistent start w v = record {
  apart = v.apart;
  lost_below = v.lost_below;
  received_below = v.received_below;
  reliable_below = λ k e.
      ground
        (arith, has-delete_below start k w.received_reliable_frame_indices, v.reliable_below k);
}

cleanup_sequences-IsConsistent : (w : Window) → IsConsistent w → IsConsistent (cleanup_sequences w)
unfolding cleanup_sequences
cleanup_sequences-IsConsistent w v =
    if_cases IsConsistent (ltb (receive_window + 1) w.next_input_sequence)
      (forget_sequences-IsConsistent _ w v) v

cleanup_indices-IsConsistent : (w : Window) → IsConsistent w → IsConsistent (cleanup_indices w)
unfolding cleanup_indices
cleanup_indices-IsConsistent w v =
    if_cases IsConsistent (ltb (reliable_window + 1) w.next_reliable_index)
      (forget_indices-IsConsistent _ w v) v

-- The cleanup of `tick` keeps the window consistent.
pub cleanup-IsConsistent : (w : Window) → IsConsistent w → IsConsistent (cleanup w)
cleanup-IsConsistent w v =
    cleanup_indices-IsConsistent (cleanup_sequences w) (cleanup_sequences-IsConsistent w v)
