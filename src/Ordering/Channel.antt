-- ===== src/Ordering/Channel.antt =====
-- Whole runs of `handleOrdered` of packages/raknet/src/shared/network-session.ts on one channel of a
-- new session.
use baltica.Base.{ℕ, zero, suc, ◌<◌, ◌≡◌, refl, ap, ◌∙◌}
use baltica.Base.{true, false, some, List, [], ◌∷◌, map, arith}
use baltica.Base.Lists.{All}
use baltica.Base.Sets.{has, onto, has-onto}
use baltica.Base.Maps.{Map, lookup}
use baltica.Frame.{Frame}
use baltica.Ordering.{done, Ordering, queue_of, each_channel, new_ordering, handle_all_ordered}
use baltica.Ordering.Delivery.{always, deliver, Waits, handle_ordered-Waits}

abbrev pub indices : List Frame → List ℕ
indices = map (λ f. f.ordered_frame_index)

-- The frames are of the channel `ch`, and the index of each determines its payload.
abbrev pub IsStream : ℕ → (ℕ → List ℕ) → List Frame → Type 0
IsStream ch p = All (λ f. (f.order_channel ≡ ch) × (f.payload ≡ p f.ordered_frame_index))

lookup-each_channel {ℓ} :
    {V : Type ℓ} (n ch : ℕ) (v : V) → ch < n → lookup ch (each_channel n v) ≡ some v
unfolding lookup each_channel
lookup-each_channel zero ch v h = absurd (omega arith)
lookup-each_channel (suc n) ch v h = ground (arith, lookup-each_channel n ch v)

pub no_entry : (j : ℕ) (f : Frame) → lookup j [] ≡ some f → ⊥
unfolding lookup
no_entry j f e = cc

module _ {ℓ} {R : Type ℓ} (g : List ℕ → R → R) (p : ℕ → List ℕ) (start : R) where
  pub new_ordering-Waits : (ch : ℕ) → ch < 32 → Waits g p start ch [] 0 new_ordering start
  unfolding new_ordering deliver has lookup
  new_ordering-Waits ch h =
      let empty : queue_of ch new_ordering ≡ [] =
        rw (lookup-each_channel {V = Map Frame} 32 ch [] h, queue_of) refl in
      record {
        index = lookup-each_channel 32 ch 0 h;
        handled = refl;
        below = λ j b. absurd (omega arith);
        missing = refl;
        holds = λ j f e. absurd (no_entry j f (rw empty at e));
        queued = λ j b. rw empty (unfold has lookup in refl);
      }

  handle_all_ordered-Waits :
      (ch next : ℕ) (arrived : List ℕ) (fs : List Frame) (o : Ordering) (r : R)
      → Waits g p start ch arrived next o r
      → IsStream ch p fs
      → (next' : ℕ) × (o' : Ordering) × (r' : R) × (handle_all_ordered (always g) fs o r
          ≡ done (o', r'))
        × Waits g p start ch (onto (indices fs) arrived) next' o' r'
  unfolding handle_all_ordered onto
  handle_all_ordered-Waits ch next arrived [] o r w s = (next, o, r, refl, w)
  handle_all_ordered-Waits ch next arrived (f ∷ fs) o r w ((ec, ep), s) =
      let (n1, o1, r1, run, w1) = handle_ordered-Waits g p start next arrived f o r (rw ec w) ep in
      let (n2, o2, r2, runs, w2) =
        handle_all_ordered-Waits ch n1 (f.ordered_frame_index ∷ arrived) fs o1 r1 (rw ec at w1) s in
      (n2, o2, r2, rw (run, handle_all_ordered) runs, w2)

  -- However the frames of a channel arrive, reordered, repeated or with gaps, exactly the payloads
  -- below the first index that is missing are handled, in the order of their indices, each once.
  pub handle_all_ordered-deliver :
      (ch : ℕ) (fs : List Frame)
      → ch < 32
      → IsStream ch p fs
      → (next : ℕ) × (o : Ordering) × (handle_all_ordered (always g) fs new_ordering start
          ≡ done (o, deliver g p next start))
        × ((j : ℕ) → j < next → has j (indices fs) ≡ true)
        × (has next (indices fs) ≡ false)
  handle_all_ordered-deliver ch fs h s =
      let (n, o, r, run, w) =
        handle_all_ordered-Waits ch 0 [] fs new_ordering start (new_ordering-Waits ch h) s in
      (
        n,
        o,
        run ∙ ap (λ x. done (o, x)) w.handled,
        λ j b. unfold has in ground (arith, has-onto j (indices fs) [], w.below j b),
        unfold has in ground (arith, has-onto n (indices fs) [], w.missing),
      )

-- A frame that has come before changes nothing of what a channel waits for.
pub Waits-again {ℓ} :
    {R : Type ℓ} (g : List ℕ → R → R) (p : ℕ → List ℕ) (start : R) (ch idx next : ℕ)
    (arrived : List ℕ) (o : Ordering) (r : R)
    → has idx arrived ≡ true
    → Waits g p start ch arrived next o r
    → Waits g p start ch (idx ∷ arrived) next o r
unfolding has
Waits-again g p start ch idx next arrived o r h w = record {
  index = w.index;
  handled = w.handled;
  below = λ j b. ground (arith, w.below j);
  missing = ground (arith, w.missing);
  holds = w.holds;
  queued = λ j b. ground (arith, w.queued j);
}
