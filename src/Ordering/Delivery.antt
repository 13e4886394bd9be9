-- ===== src/Ordering/Delivery.antt =====
-- `handleOrdered` of packages/raknet/src/shared/network-session.ts on one channel, and its
-- specification: which payloads are handed on, and in what order.
use baltica.Base.{ℕ, zero, suc, ◌+◌, ◌≤◌, ◌<◌, ◌≡◌, refl, subst}
use baltica.Base.{true, false, none, some, List, ◌∷◌, inl, inr, arith}
use native.Mathlib.Numerals.{add-one}
use baltica.Base.Tests.{◌==◌, ltb, Bool-cases, Option-cases, ==→eq, ltb→lt, ==_refl}
use baltica.Base.Lists.{length}
use baltica.Base.Sets.{has}
use baltica.Base.Maps.{
  Map, lookup, insert, erase, has_key, lookup-insert, lookup-erase, length-erase,
  lookup-none_of_empty,
}
use baltica.Frame.{Frame}
use baltica.Ordering.{Outcome, done, Ordering, queue_of, drain, deliver_expected, handle_ordered}

-- A handler that never throws.
abbrev pub always {ℓ} : {R : Type ℓ} → (List ℕ → R → R) → List ℕ → R → Outcome R
always g bytes r = done (g bytes r)

-- The specification: the first `n` payloads handled in order.
unfoldable pub deliver {ℓ} : {R : Type ℓ} → (List ℕ → R → R) → (ℕ → List ℕ) → ℕ → R → R
deliver g p zero r = r
deliver g p (suc n) r = g (p n) (deliver g p n r)

-- Each queued frame carries the payload of its key.
abbrev pub Holds : (ℕ → List ℕ) → Map Frame → Type 0
Holds p queue = (j : ℕ) (f : Frame) → lookup j queue ≡ some f → f.payload ≡ p j

pub Holds-erase :
    (p : ℕ → List ℕ) (queue : Map Frame) (k : ℕ) → Holds p queue → Holds p (erase k queue)
Holds-erase p queue k h j f e = ground (arith, lookup-erase k j queue, h j f)

Holds-insert :
    (p : ℕ → List ℕ) (queue : Map Frame) (k : ℕ) (v : Frame)
    → v.payload ≡ p k
    → Holds p queue
    → Holds p (insert k v queue)
Holds-insert p queue k v e h j f q = ground (arith, lookup-insert k j v queue, h j f)

module _ {ℓ} {R : Type ℓ} (g : List ℕ → R → R) (p : ℕ → List ℕ) (start : R) where
  -- How a drain from `next` ends: everything up to `next'` is handled, in order, and what lies
  -- beyond is untouched.
  record Drained (next : ℕ) (queue : Map Frame) (next' : ℕ) (queue' : Map Frame) (r' : R)
      : Type ℓ where
    from : next ≤ next'
    handled : r' ≡ deliver g p next' start
    stopped : lookup next' queue' ≡ none
    were_there : (j : ℕ) → next ≤ j → j < next' → has_key j queue ≡ true
    beyond : (j : ℕ) → next' ≤ j → lookup j queue' ≡ lookup j queue
    kept : Holds p queue'

  deliver_next :
      {bytes : List ℕ} {n : ℕ} {r : R}
      → bytes ≡ p n
      → r ≡ deliver g p n start
      → g bytes r ≡ deliver g p (n + 1) start
  unfolding deliver
  deliver_next {n = n} q e = rw (add-one n, q, e) refl

  drain-Drained :
      (fuel next : ℕ) (queue : Map Frame) (r : R)
      → length queue ≤ fuel
      → Holds p queue
      → r ≡ deliver g p next start
      → (next' : ℕ) × (queue' : Map Frame) × (r' : R) × (drain (always g) fuel next queue r
          ≡ done (next', queue', r'))
        × Drained next queue next' queue' r'
  unfolding drain
  drain-Drained zero next queue r h v e = (
    next,
    queue,
    r,
    refl,
    record {
      from = omega arith;
      handled = e;
      stopped = lookup-none_of_empty next queue h;
      were_there = λ j a b. absurd (omega arith);
      beyond = λ j a. refl;
      kept = v;
    },
  )
  drain-Drained (suc fuel) next queue r h v e = elim (Option-cases (lookup next queue)) [
    | inl q ↦ (
      next,
      queue,
      r,
      rw (q, drain) refl,
      record {
        from = omega arith;
        handled = e;
        stopped = q;
        were_there = λ j a b. absurd (omega arith);
        beyond = λ j a. refl;
        kept = v;
      },
    )
    | inr (f, q) ↦
        let (n', q', r', run, d) =
          drain-Drained fuel (next + 1) (erase next queue) (g f.payload r)
            (omega (arith, length-erase next queue f q)) (Holds-erase p queue next v)
            (deliver_next (v next f q) e) in
        (
          n',
          q',
          r',
          rw (q, drain) run,
          record {
            from = omega (arith, d.from);
            handled = d.handled;
            stopped = d.stopped;
            kept = d.kept;
            were_there = λ j a b. ground (arith, d.were_there j, lookup-erase next j queue, q);
            beyond = λ j a. ground (arith, d.beyond j a, d.from, lookup-erase next j queue);
          },
        )
  ]

  -- The channel `ch` after the arrivals `arrived`, when it waits for `next`.
  pub record Waits (ch : ℕ) (arrived : List ℕ) (next : ℕ) (o : Ordering) (r : R) : Type ℓ where
    pub index : lookup ch o.input_order_index ≡ some next
    pub handled : r ≡ deliver g p next start
    pub below : (j : ℕ) → j < next → has j arrived ≡ true
    pub missing : has next arrived ≡ false
    pub holds : Holds p (queue_of ch o)
    pub queued : (j : ℕ) → next ≤ j → has_key j (queue_of ch o) ≡ has j arrived

  -- The fields after the loop of `handleOrdered`.
  abbrev settled : ℕ → ℕ → ℕ → Map Frame → Ordering → Ordering
  settled ch next next' queue o = record {
    input_highest_sequence_index = insert ch 0 o.input_highest_sequence_index;
    input_order_index = insert ch next' (insert ch (next + 1) o.input_order_index);
    input_ordering_queue = insert ch queue o.input_ordering_queue;
  }

  queue_of-settled :
      (ch next next' : ℕ) (queue : Map Frame) (o : Ordering)
      → queue_of ch (settled ch next next' queue o) ≡ queue
  queue_of-settled ch next next' queue o =
      rw (lookup-insert ch ch queue o.input_ordering_queue, ==_refl ch, queue_of) refl

  settled-Waits :
      (ch next next' idx : ℕ) (arrived : List ℕ) (queue' : Map Frame) (o : Ordering) (r r' : R)
      → Waits ch arrived next o r
      → Drained (next + 1) (queue_of ch o) next' queue' r'
      → idx ≡ next
      → Waits ch (idx ∷ arrived) next' (settled ch next next' queue' o) r'
  unfolding has
  settled-Waits ch next next' idx arrived queue' o r r' w d e =
      let same = queue_of-settled ch next next' queue' o in
      record {
        index =
            rw (lookup-insert ch ch next' (insert ch (next + 1) o.input_order_index), ==_refl ch)
              refl;
        handled = d.handled;
        below = λ j h. ground (arith, d.were_there j, w.queued j, w.below j);
        missing = ground (arith, d.stopped, d.beyond next', w.queued next', d.from);
        holds = rw same d.kept;
        queued = λ j h. rw same (ground (arith, d.beyond j, w.queued j, d.from));
      }

  deliver_expected-Waits :
      (next : ℕ) (arrived : List ℕ) (f : Frame) (o : Ordering) (r : R)
      → Waits f.order_channel arrived next o r
      → f.ordered_frame_index ≡ next
      → f.payload ≡ p next
      → (next' : ℕ) × (o' : Ordering) × (r' : R) × (deliver_expected (always g) f next o r
          ≡ done (o', r'))
        × Waits f.order_channel (f.ordered_frame_index ∷ arrived) next' o' r'
  unfolding deliver_expected
  deliver_expected-Waits next arrived f o r w ei ep =
      let ch = f.order_channel in
      let queue = queue_of ch o in
      let (n', q', r', run, d) =
        drain-Drained (length queue) (next + 1) queue (g f.payload r) (omega arith) w.holds
          (deliver_next ep w.handled) in
      (
        n',
        settled ch next n' q' o,
        r',
        rw (run, deliver_expected) refl,
        settled-Waits ch next n' _ arrived q' o r r' w d ei,
      )

  -- A frame beyond the expected one is queued.
  enqueue-Waits :
      (next : ℕ) (arrived : List ℕ) (f : Frame) (o : Ordering) (r : R)
      → Waits f.order_channel arrived next o r
      → next < f.ordered_frame_index
      → f.payload ≡ p f.ordered_frame_index
      → Waits f.order_channel
          (f.ordered_frame_index ∷ arrived)
          next
          (record o {
            input_ordering_queue =
                insert f.order_channel
                  (insert f.ordered_frame_index f (queue_of f.order_channel o))
                  o.input_ordering_queue;
          })
          r
  unfolding has
  enqueue-Waits next arrived f o r w h ep =
      let ch = f.order_channel in
      let queue = insert f.ordered_frame_index f (queue_of ch o) in
      let same : lookup ch (insert ch queue o.input_ordering_queue) ≡ some queue =
        rw (lookup-insert ch ch queue o.input_ordering_queue, ==_refl ch) refl in
      record {
        index = w.index;
        handled = w.handled;
        below = λ j b. ground (arith, w.below j);
        missing = ground (arith, w.missing);
        holds =
            rw (same, queue_of) (Holds-insert p (queue_of ch o) f.ordered_frame_index f ep w.holds);
        queued = λ j b.
            rw (same, queue_of)
              (ground (arith, w.queued j, lookup-insert f.ordered_frame_index j f (queue_of ch o)));
      }

  -- A frame below the expected one is dropped.
  drop-Waits :
      (next ch idx : ℕ) (arrived : List ℕ) (o : Ordering) (r : R)
      → Waits ch arrived next o r
      → idx < next
      → Waits ch (idx ∷ arrived) next o r
  unfolding has
  drop-Waits next ch idx arrived o r w h = record {
    index = w.index;
    handled = w.handled;
    below = λ j b. ground (arith, w.below j);
    missing = ground (arith, w.missing);
    holds = w.holds;
    queued = λ j b. ground (arith, w.queued j);
  }

  pub handle_ordered-Waits :
      (next : ℕ) (arrived : List ℕ) (f : Frame) (o : Ordering) (r : R)
      → Waits f.order_channel arrived next o r
      → f.payload ≡ p f.ordered_frame_index
      → (next' : ℕ) × (o' : Ordering) × (r' : R) × (handle_ordered (always g) f o r ≡ done (o', r'))
        × Waits f.order_channel (f.ordered_frame_index ∷ arrived) next' o' r'
  unfolding handle_ordered
  handle_ordered-Waits next arrived f o r w ep = elim (Bool-cases (f.ordered_frame_index == next)) [
    | inl e ↦
        let same = ==→eq f.ordered_frame_index next e in
        let (n', o', r', run, v) =
          deliver_expected-Waits next arrived f o r w same (subst (λ i. f.payload ≡ p i) same ep) in
        (n', o', r', rw (w.index, e, handle_ordered) run, v)
    | inr e ↦ elim (Bool-cases (ltb next f.ordered_frame_index)) [
      | inl b ↦ (
        next,
        _,
        r,
        rw (w.index, e, b, handle_ordered) refl,
        enqueue-Waits next arrived f o r w (ltb→lt next _ b) ep,
      )
      | inr b ↦ (
        next,
        o,
        r,
        rw (w.index, e, b, handle_ordered) refl,
        drop-Waits next _ _ arrived o r w (ground arith),
      )
    ]
  ]
