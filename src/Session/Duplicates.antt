-- ===== src/Session/Duplicates.antt =====
-- Repeated frame sets in `onFrameSet` of `NetworkSession` of
-- packages/raknet/src/shared/network-session.ts.
use baltica.Base.{ℕ, ◌+◌, ◌||◌, ◌≡◌, refl, ap, ◌∙◌, Bool, true, none, some, List, [], ◌∷◌, arith}
use baltica.Base.Tests.{ltb, if◌then◌else◌, if_cases, option_cases, option_cases_eq}
use baltica.Base.Sets.{has, has-add}
use baltica.Stream.{BinaryStream}
use baltica.Frame.{Frame, is_reliable, is_sequenced, is_ordered, is_split}
use baltica.FrameSet.{FrameSet}
use baltica.Ordering.{Outcome, done, thrown, endless, Ordering}
use baltica.Ordering.Preservation.{Ends, Ends-bind, Ends-map}
use baltica.Fragment.{handle_split}
use baltica.Window.{Window, receive_window, note_sequence, note_reliable}
use baltica.Session.{Session, Peer}
use baltica.Session.Receive.{
  with_peer, with_ordering, route, split, dispatch, handle_frame, handle_frames, schedule_ack,
  on_frame_set,
}

-- What was received, and the newest of it.
abbrev Same : Window → Window → Type 0
Same u w =
    (w.received_frame_sequences ≡ u.received_frame_sequences)
    × (w.next_input_sequence ≡ u.next_input_sequence)

abbrev Remembers : Window → Session → Type 0
Remembers u s = Same u s.window

note_sequence-has :
    (seq : ℕ) (w w' : Window)
    → note_sequence seq w ≡ some w'
    → has seq w'.received_frame_sequences ≡ true
unfolding note_sequence
note_sequence-has seq w w' e = ground (arith, has-add seq seq w.received_frame_sequences)

note_sequence-none :
    (seq : ℕ) (w : Window) → note_sequence seq w ≡ none → has seq w.received_frame_sequences ≡ true
unfolding note_sequence
note_sequence-none seq w e = ground arith

pub has-note_sequence :
    (seq : ℕ) (w : Window) → has seq w.received_frame_sequences ≡ true → note_sequence seq w ≡ none
unfolding note_sequence
has-note_sequence seq w h = rw h refl

note_reliable-Same :
    (reliable : Bool) (index : ℕ) (w w' : Window)
    → (if reliable then note_reliable index w else some w) ≡ some w'
    → Same w w'
unfolding note_reliable
note_reliable-Same reliable index w w' e = ground arith

module _ (io : BinaryStream) (u : Window) where
  with_peer-Ends :
      (s : Session) (x : Outcome Peer) → Remembers u s → Ends (Remembers u) (with_peer s x)
  with_peer-Ends s (done p) h = h
  with_peer-Ends s (thrown p) h = h
  with_peer-Ends s endless h = tt

  with_ordering-Ends :
      (s : Session) (x : Outcome (Ordering × Peer))
      → Remembers u s
      → Ends (Remembers u) (with_ordering s x)
  with_ordering-Ends s (done x) h = h
  with_ordering-Ends s (thrown x) h = h
  with_ordering-Ends s endless h = tt

  route-Ends :
      (now : ℕ) (f : Frame) (s : Session) → Remembers u s → Ends (Remembers u) (route io now f s)
  unfolding route
  route-Ends now f s h = if_cases (Ends (Remembers u)) (is_sequenced f) (with_ordering-Ends s _ h) (
      if_cases (Ends (Remembers u)) (is_ordered f) (with_ordering-Ends s _ h)
        (with_peer-Ends s _ h))

  dispatch-Ends :
      (now : ℕ) (f : Frame) (s : Session) → Remembers u s → Ends (Remembers u) (dispatch io now f s)
  unfolding dispatch split
  dispatch-Ends now f s h =
      if_cases (Ends (Remembers u)) (is_split f)
        (option_cases (Ends (Remembers u)) (handle_split f now s.fragments).1 _ _ h
          λ g e. route-Ends now g _ h)
        (route-Ends now f s h)

  handle_frame-Ends :
      (now : ℕ) (f : Frame) (s : Session)
      → Remembers u s
      → Ends (Remembers u) (handle_frame io now f s)
  unfolding handle_frame
  handle_frame-Ends now f s h =
      option_cases (Ends (Remembers u))
        (if is_reliable f then note_reliable f.reliable_frame_index s.window else some s.window) _ _
        h
        λ w e.
          let k = note_reliable-Same (is_reliable f) f.reliable_frame_index s.window w e in
          dispatch-Ends now f _ (k.0 ∙ h.0, k.1 ∙ h.1)

  handle_frames-Ends :
      (now : ℕ) (fs : List Frame) (s : Session)
      → Remembers u s
      → Ends (Remembers u) (handle_frames io now fs s)
  unfolding handle_frames
  handle_frames-Ends now [] s h = h
  handle_frames-Ends now (f ∷ fs) s h =
      Ends-bind (Remembers u) (Remembers u) (handle_frame io now f s) _ _
        (handle_frame-Ends now f s h) (λ t k. handle_frames-Ends now fs t k) (λ t k. k)

-- A frame set whose sequence number is known: it has been received, or the window has moved past it.
abbrev pub passed : ℕ → Window → Bool
passed seq w = ltb (seq + (receive_window + 1)) w.next_input_sequence

abbrev pub Knows : ℕ → Window → Type 0
Knows seq w = passed seq w || has seq w.received_frame_sequences ≡ true

note_sequence-Knows :
    (seq other : ℕ) (w w' : Window) → Knows seq w → note_sequence other w ≡ some w' → Knows seq w'
unfolding note_sequence
note_sequence-Knows seq other w w' h e =
    ground (arith, has-add other seq w.received_frame_sequences)

Same-Knows : (seq : ℕ) (u w : Window) → Knows seq u → Same u w → Knows seq w
Same-Knows seq u w h (r, n) = rw (r, n) h

module _ (io : BinaryStream) where
  scheduled-Ends :
      (P : Window → Type 0) (x : Outcome Session)
      → Ends (λ s. P s.window) x
      → Ends (λ s. P s.window) (schedule_ack io x)
  scheduled-Ends P (done t) h = h
  scheduled-Ends P (thrown t) h = h
  scheduled-Ends P endless h = h

  on_frame_set-Ends :
      (P : Window → Type 0) (now : ℕ) (fs : FrameSet) (s : Session)
      → (note_sequence fs.sequence s.window ≡ none → P s.window)
      → ((w : Window) → note_sequence fs.sequence s.window ≡ some w → P w)
      → ((w v : Window) → P w → Same w v → P v)
      → Ends (λ t. P t.window) (on_frame_set io now fs s)
  unfolding on_frame_set
  on_frame_set-Ends P now fs s old new same =
      option_cases_eq (Ends (λ t. P t.window)) (note_sequence fs.sequence s.window) _ _ old λ w e.
        scheduled-Ends P _ (
          Ends-map (Remembers w) (λ t. P t.window) _ (λ t h. same w t.window (new w e) h)
            (handle_frames-Ends io w now fs.frames _ (refl, refl)))

  -- It is received once it has been handled.
  pub on_frame_set-Noted :
      (now : ℕ) (fs : FrameSet) (s : Session)
      → Ends
          (λ t. has fs.sequence t.window.received_frame_sequences ≡ true)
          (on_frame_set io now fs s)
  on_frame_set-Noted now fs s =
      on_frame_set-Ends (λ w. has fs.sequence w.received_frame_sequences ≡ true) now fs s
        (note_sequence-none fs.sequence s.window)
        (λ w e. note_sequence-has fs.sequence s.window w e)
        (λ w v h k. ap (has fs.sequence) k.0 ∙ h)

  -- Another frame set leaves it known.
  pub on_frame_set-Knows :
      (seq now : ℕ) (fs : FrameSet) (s : Session)
      → Knows seq s.window
      → Ends (λ t. Knows seq t.window) (on_frame_set io now fs s)
  on_frame_set-Knows seq now fs s h =
      on_frame_set-Ends (Knows seq) now fs s (λ e. h)
        (λ w e. note_sequence-Knows seq fs.sequence s.window w h e) (λ w v. Same-Knows seq w v)

  pub on_frame_set_ignores :
      (now : ℕ) (fs : FrameSet) (s : Session)
      → has fs.sequence s.window.received_frame_sequences ≡ true
      → on_frame_set io now fs s ≡ done s
  unfolding on_frame_set
  on_frame_set_ignores now fs s h = rw (has-note_sequence fs.sequence s.window h, on_frame_set) refl
