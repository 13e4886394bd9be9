-- ===== src/Ordering/Agreement.antt =====
-- `handleOrdered` of packages/raknet/src/shared/network-session.ts under a handler that, on the
-- payloads of one stream, neither throws nor fails to end, seen through what is observed of it.
use baltica.Base.{ℕ, zero, suc, ◌+◌, ◌≡◌, refl, subst, List, inl, inr}
use baltica.Base.Tests.{◌==◌, ltb, Bool-cases, Option-cases, ==→eq}
use baltica.Base.Lists.{length}
use baltica.Base.Maps.{Map, lookup, insert, erase}
use baltica.Frame.{Frame}
use baltica.Ordering.{Outcome, done, Ordering, queue_of, drain, deliver_expected, handle_ordered}
use baltica.Ordering.Delivery.{always, Holds, Holds-erase}

module _ {ℓ κ} {R : Type ℓ} {S : Type κ} (handle : List ℕ → S → Outcome S) (g : List ℕ → R → R)
    (view : S → R) (p : ℕ → List ℕ)
    (agrees : (j : ℕ) (s : S)
      → (s' : S) × (handle (p j) s ≡ done s') × (view s' ≡ g (p j) (view s))) where
  payload_agrees :
      (bytes : List ℕ) (j : ℕ) (s : S)
      → bytes ≡ p j
      → (s' : S) × (handle bytes s ≡ done s') × (view s' ≡ g bytes (view s))
  payload_agrees bytes j s e = rw e (agrees j s)

  drain-agrees :
      (fuel next : ℕ) (queue : Map Frame) (s : S)
      → Holds p queue
      → (next' : ℕ) × (queue' : Map Frame) × (s' : S) × (drain handle fuel next queue s
          ≡ done (next', queue', s'))
        × (drain (always g) fuel next queue (view s) ≡ done (next', queue', view s'))
  unfolding drain
  drain-agrees zero next queue s v = (next, queue, s, refl, refl)
  drain-agrees (suc fuel) next queue s v = elim (Option-cases (lookup next queue)) [
    | inl q ↦ (next, queue, s, rw (q, drain) refl, rw (q, drain) refl)
    | inr (f, q) ↦
        let (s1, run, same) = payload_agrees f.payload next s (v next f q) in
        let (n', q', s', runs, views) =
          drain-agrees fuel (next + 1) (erase next queue) s1 (Holds-erase p queue next v) in
        (n', q', s', rw (q, run, drain) runs, rw (q, drain) (rw same at views))
  ]

  deliver_expected-agrees :
      (f : Frame) (expected : ℕ) (o : Ordering) (s : S)
      → f.payload ≡ p expected
      → Holds p (queue_of f.order_channel o)
      → (o' : Ordering) × (s' : S) × (deliver_expected handle f expected o s ≡ done (o', s'))
        × (deliver_expected (always g) f expected o (view s) ≡ done (o', view s'))
  unfolding deliver_expected
  deliver_expected-agrees f expected o s e v =
      let queue = queue_of f.order_channel o in
      let (s1, run, same) = payload_agrees f.payload expected s e in
      let (n', q', s', runs, views) = drain-agrees (length queue) (expected + 1) queue s1 v in
      let ch = f.order_channel in
      (
        record {
          input_highest_sequence_index = insert ch 0 o.input_highest_sequence_index;
          input_order_index = insert ch n' (insert ch (expected + 1) o.input_order_index);
          input_ordering_queue = insert ch q' o.input_ordering_queue;
        },
        s',
        rw (run, runs, deliver_expected) refl,
        rw (rw same at views, deliver_expected) refl,
      )

  -- The two handlers end alike, with the same ordering and the same view.
  pub handle_ordered-agrees :
      (f : Frame) (o : Ordering) (s : S)
      → f.payload ≡ p f.ordered_frame_index
      → Holds p (queue_of f.order_channel o)
      → (o' : Ordering) × (s' : S) × (handle_ordered handle f o s ≡ done (o', s'))
        × (handle_ordered (always g) f o (view s) ≡ done (o', view s'))
  unfolding handle_ordered
  handle_ordered-agrees f o s e v =
      elim (Option-cases (lookup f.order_channel o.input_order_index)) [
        | inl q ↦ (o, s, rw (q, handle_ordered) refl, rw (q, handle_ordered) refl)
        | inr (expected, q) ↦ elim (Bool-cases (f.ordered_frame_index == expected)) [
          | inl b ↦
              let same = ==→eq f.ordered_frame_index expected b in
              let (o', s', run, runs) =
                deliver_expected-agrees f expected o s (subst (λ i. f.payload ≡ p i) same e) v in
              (o', s', rw (q, b, handle_ordered) run, rw (q, b, handle_ordered) runs)
          | inr b ↦ elim (Bool-cases (ltb expected f.ordered_frame_index)) [
            | inl c ↦
                let queue = insert f.ordered_frame_index f (queue_of f.order_channel o) in
                let queued : Ordering = record o {
                  input_ordering_queue = insert f.order_channel queue o.input_ordering_queue;
                } in
                (queued, s, rw (q, b, c, handle_ordered) refl, rw (q, b, c, handle_ordered) refl)
            | inr c ↦ (o, s, rw (q, b, c, handle_ordered) refl, rw (q, b, c, handle_ordered) refl)
          ]
        ]
      ]
