-- ===== src/Session/Network.antt =====
-- Two sessions of packages/raknet/src/shared/network-session.ts and the network between them: one
-- sends game packets by `frameAndSend`, and of the datagrams that it sends the other one is given
-- by `receive` whichever come, in whatever order and however often, its `tick` running between them.
use baltica.Base.{
  ℕ, ◌+◌, ◌^◌, ◌≤◌, ◌<◌, ◌≡◌, refl, ◌∙◌, false, none, some, List, [], ◌∷◌, ◌++◌, map, arith,
}
use baltica.Base.Lists.{length, All, get_elem?}
use baltica.Base.Sets.{has, onto}
use baltica.Base.Maps.{lookup}
use baltica.Stream.{Width, BinaryStream, Laws}
use baltica.Frame.{write_frames}
use baltica.FrameSet
use baltica.FrameSet.{FrameSet, deserialize-serialize, frame_set_min}
use baltica.Ordering.{Outcome, done, thrown, endless, queue_of}
use baltica.Outbound.Messages.{Start, after, message_frame, message_set, datagram}
use baltica.Outbound.Datagrams.{datagrams, get_elem?-datagrams}
use baltica.Session.{Session}
use baltica.Session.Handed.{handed}
use baltica.Session.Receive.{receive, receive_packet, on_frame_set_packet, on_frame_set}
use baltica.Session.Arrivals.{IsGame, Link, on_frame_set-Link}
use baltica.Session.Quiet.{tick-IsQuiet}
use baltica.Session.Tick.{tick}

-- What happens to the receiver: a datagram comes, at a time, of those that were sent, or its timer
-- fires.
pub data Step : Type 0 where
  arrives : ℕ → ℕ → Step
  ticks : ℕ → Step

-- The datagrams that come, by their positions.
unfoldable pub arrivals : List Step → List ℕ
arrivals [] = []
arrivals (arrives now i ∷ steps) = i ∷ arrivals steps
arrivals (ticks now ∷ steps) = arrivals steps

-- A session that waits for the stream with these numbers and has handed on nothing.
pub record Awaits (b : Start) (s : Session) : Type 0 where
  pub next_order : lookup 0 s.ordering.input_order_index ≡ some b.order
  pub empty_queue : queue_of 0 s.ordering ≡ []
  pub nothing : handed s.peer.events ≡ []
  pub new_sequences : (i : ℕ) → has (b.sequence + i) s.window.received_frame_sequences ≡ false
  pub new_reliables :
      (i : ℕ) → has (b.reliable + i) s.window.received_reliable_frame_indices ≡ false

module _ (io : BinaryStream) where
  unfoldable pub run : List (List ℕ) → List Step → Session → Outcome Session
  run sent [] s = done s
  run sent (ticks now ∷ steps) s = run sent steps (tick io now s)
  run sent (arrives now i ∷ steps) s = elim (get_elem? sent i) [
    | none ↦ run sent steps s
    | some bytes ↦ elim (receive io now bytes s) [
      | endless ↦ endless
      | thrown s ↦ thrown s
      | done s ↦ run sent steps s
    ]
  ]

receive_packet-frame_set :
    (io : BinaryStream) (now : ℕ) (bytes : List ℕ) (fs : FrameSet) (s : Session)
    → FrameSet.deserialize io bytes ≡ some fs
    → receive_packet io now frame_set_min bytes s ≡ on_frame_set io now fs s
unfolding receive_packet on_frame_set_packet
receive_packet-frame_set io now bytes fs s e = rw (e, on_frame_set_packet) refl

module _ (io : BinaryStream) (laws : Laws io) where
  receive-datagram :
      (now : ℕ) (c : Start) (bytes : List ℕ) (s : Session)
      → c.sequence < 2 ^ 24
      → c.reliable < 2 ^ 24
      → c.order < 2 ^ 24
      → length bytes < 2 ^ 13
      → receive io now (datagram io c bytes) s
        ≡ on_frame_set io now (message_set c bytes) (record s { last_received_at = now })
  unfolding receive FrameSet.serialize
  receive-datagram now c bytes s hs hr ho hl =
      let back = deserialize-serialize io laws (message_set c bytes) hs (
        record {
          reliable_slot = hr;
          sequence_slot = refl;
          ordered_slot = ho;
          channel_slot = omega arith;
          size_slot = refl;
          id_slot = refl;
          index_slot = refl;
          payload_fits = hl;
        },
        tt,
      ) in
      let rest =
        io.put Width.uint24_le c.sequence ++ write_frames io (message_frame c bytes ∷ []) in
      let read : FrameSet.deserialize io rest ≡ some (message_set c bytes) =
        rw (laws.put_uint8 frame_set_min (omega arith)) at back in
      rw (laws.put_uint8 frame_set_min (omega arith), receive)
        (receive_packet-frame_set io now rest (message_set c bytes) _ read)

-- The bounds under which every number and payload fits its field.
pub record Fits (b : Start) (messages : ℕ → List ℕ) (n : ℕ) : Type 0 where
  pub sequence_fits : b.sequence + n ≤ 2 ^ 24
  pub reliable_fits : b.reliable + n ≤ 2 ^ 24
  pub order_fits : b.order + n ≤ 2 ^ 24
  pub payload_fits : (j : ℕ) → length (messages j) < 2 ^ 13

-- Frames by their order indices.
abbrev pub order_indices : Start → List Step → List ℕ
order_indices b steps = map (◌+◌ b.order) (arrivals steps)

module _ (io : BinaryStream) (laws : Laws io) (b : Start) (messages : ℕ → List ℕ) (n : ℕ)
    (fits : Fits b messages n) (games : (j : ℕ) → IsGame (messages j)) (prior : List (List ℕ)) where
  receive-Link :
      (now i next : ℕ) (arrived : List ℕ) (s : Session)
      → i < n
      → Link io b messages prior games arrived next s
      → (next' : ℕ) × (t : Session) × (receive io now (datagram io (after i b) (messages i)) s
          ≡ done t)
        × Link io b messages prior games ((b.order + i) ∷ arrived) next' t
  receive-Link now i next arrived s h l =
      let (n', t, run, l') =
        on_frame_set-Link io b messages prior games now i next arrived
          (record s { last_received_at = now })
          (record { waits = l.waits; sequences = l.sequences; reliables = l.reliables }) in
      (
        n',
        t,
        receive-datagram io laws now (after i b) (messages i) s (omega (arith, fits.sequence_fits))
              (omega (arith, fits.reliable_fits)) (omega (arith, fits.order_fits))
              (fits.payload_fits i)
            ∙ run,
        l',
      )

  tick-Link :
      (now next : ℕ) (arrived : List ℕ) (s : Session)
      → Link io b messages prior games arrived next s
      → Link io b messages prior games arrived next (tick io now s)
  tick-Link now next arrived s l =
      let q = tick-IsQuiet io now s in
      record {
        waits = rw (q.same_ordering, q.same_handed) l.waits;
        sequences = λ i h. l.sequences i (q.sequences _ h);
        reliables = λ i h. l.reliables i (q.indices _ h);
      }

  -- Whatever comes, nothing is thrown, and the session has had what came.
  pub run-Link :
      (next : ℕ) (arrived : List ℕ) (steps : List Step) (s : Session)
      → All (λ i. i < n) (arrivals steps)
      → Link io b messages prior games arrived next s
      → (next' : ℕ) × (t : Session) × (run io (datagrams io b messages n) steps s ≡ done t)
        × Link io b messages prior games (onto (order_indices b steps) arrived) next' t
  unfolding run arrivals onto
  run-Link next arrived [] s h l = (next, s, refl, l)
  run-Link next arrived (ticks now ∷ steps) s h l =
      run-Link next arrived steps (tick io now s) h (tick-Link now next arrived s l)
  run-Link next arrived (arrives now i ∷ steps) s (hi, h) l =
      let (n1, t1, run1, l1) = receive-Link now i next arrived s hi l in
      let (n2, t2, run2, l2) = run-Link n1 ((b.order + i) ∷ arrived) steps t1 h l1 in
      (n2, t2, rw (get_elem?-datagrams io b messages n i hi, run1, run) run2, l2)
