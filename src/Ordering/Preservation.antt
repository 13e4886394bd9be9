-- ===== src/Ordering/Preservation.antt =====
-- Properties of the handler under `handleSequenced` and `handleOrdered` of
-- packages/raknet/src/shared/network-session.ts.
use baltica.Base.{◌+◌, ℕ, zero, suc, List}
use baltica.Base.Tests.{◌==◌, ltb, if_cases, option_cases}
use baltica.Base.Lists.{length}
use baltica.Base.Maps.{Map, lookup, erase}
use baltica.Frame.{Frame}
use baltica.Ordering.{
  Outcome, done, thrown, endless, Ordering, handle_sequenced, handle_ordered, deliver_expected,
  with_ordering, drain, is_stale, queue_of,
}

-- How a handler ends, if it does: with this or that.
abbrev pub Ends {ℓ κ} : {A : Type ℓ} → (A → Type κ) → Outcome A → Type κ
Ends P (done a) = P a
Ends P (thrown a) = P a
Ends P endless = Unit {κ}

pub Ends-map {ℓ κ} :
    {A : Type ℓ} (P Q : A → Type κ) (o : Outcome A) → ((a : A) → P a → Q a) → Ends P o → Ends Q o
Ends-map P Q (done a) f h = f a h
Ends-map P Q (thrown a) f h = f a h
Ends-map P Q endless f h = h

-- What comes after a handler, unless it throws.
pub Ends-bind {ℓ κ μ} :
    {A : Type ℓ} {B : Type μ} (P : A → Type κ) (Q : B → Type κ) (o : Outcome A) (k : A → Outcome B)
    (g : A → B)
    → Ends P o
    → ((a : A) → P a → Ends Q (k a))
    → ((a : A) → P a → Q (g a))
    → Ends Q (elim o [ done a ↦ k a | thrown a ↦ thrown (g a) | endless ↦ endless ])
Ends-bind P Q (done a) k g h fk fg = fk a h
Ends-bind P Q (thrown a) k g h fk fg = fg a h
Ends-bind P Q endless k g h fk fg = h

module _ {ℓ κ} {R : Type ℓ} (handle : List ℕ → R → Outcome R) (P : R → Type κ)
    (keeps : (bytes : List ℕ) (r : R) → P r → Ends P (handle bytes r)) where
  pub handle_sequenced-Ends :
      (f : Frame) (o : Ordering) (r : R) → P r → Ends (λ x. P x.1) (handle_sequenced handle f o r)
  unfolding handle_sequenced
  handle_sequenced-Ends f o r p =
      if_cases (Ends (λ x. P x.1)) (is_stale f o) p
        (with_ordering-Ends _ (handle f.payload r) (keeps f.payload r p))
    where
      with_ordering-Ends :
          (o : Ordering) (x : Outcome R) → Ends P x → Ends (λ y. P y.1) (with_ordering handle o x)
      with_ordering-Ends o (done r) h = h
      with_ordering-Ends o (thrown r) h = h
      with_ordering-Ends o endless h = h

  drain-Ends :
      (fuel next : ℕ) (queue : Map Frame) (r : R)
      → P r
      → Ends (λ x. P x.2) (drain handle fuel next queue r)
  unfolding drain
  drain-Ends zero next queue r p = p
  drain-Ends (suc fuel) next queue r p =
      option_cases (Ends (λ x. P x.2)) (lookup next queue) _ _ p λ f e.
        Ends-bind P (λ x. P x.2) (handle f.payload r) _ _ (keeps f.payload r p)
          (λ q h. drain-Ends fuel (next + 1) (erase next queue) q h) (λ q h. h)

  deliver_expected-Ends :
      (f : Frame) (expected : ℕ) (o : Ordering) (r : R)
      → P r
      → Ends (λ x. P x.1) (deliver_expected handle f expected o r)
  unfolding deliver_expected
  deliver_expected-Ends f expected o r p =
      Ends-bind P (λ x. P x.1) (handle f.payload r) _ _ (keeps f.payload r p)
        (λ q h.
          Ends-bind (λ x. P x.2) (λ x. P x.1)
            (drain handle (length (queue_of f.order_channel o)) (expected + 1)
              (queue_of f.order_channel o) q)
            _ _ (drain-Ends _ _ _ q h) (λ x h. h) (λ x h. h))
        (λ q h. h)

  pub handle_ordered-Ends :
      (f : Frame) (o : Ordering) (r : R) → P r → Ends (λ x. P x.1) (handle_ordered handle f o r)
  unfolding handle_ordered
  handle_ordered-Ends f o r p =
      option_cases (Ends (λ x. P x.1)) (lookup f.order_channel o.input_order_index) _ _ p
        λ expected e.
          if_cases (Ends (λ x. P x.1)) (f.ordered_frame_index == expected)
            (deliver_expected-Ends f expected o r p)
            (if_cases (Ends (λ x. P x.1)) (ltb expected f.ordered_frame_index) p p)
