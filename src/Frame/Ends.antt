-- ===== src/Frame/Ends.antt =====
-- The loop of `Frame.read` of packages/raknet/src/shared/proto/types/frame.ts on any input.
use baltica.Base.{ℕ, zero, suc, ◌+◌, ◌≤◌, ◌≢◌}
use baltica.Base.{Bool, true, false, Option, none, some, List, [], ◌∷◌, ◌++◌, inl, inr, arith}
use baltica.Base.Tests.{Bool-cases, Option-cases}
use baltica.Base.Lists.{length}
use baltica.Stream.{Width, BinaryStream, Laws, byte_count}
use baltica.Frame.{Frame, get_if, ◌>>=◌, read_frame, read_frames_loop, read_frames, out_of_fuel}

-- What a successful read leaves is at most `n` bytes.
Leaves {ℓ} : {A : Type ℓ} → ℕ → Option (A × List ℕ) → Type 0
Leaves n none = Unit
Leaves n (some (a, rest)) = length rest ≤ n

Leaves-bind {ℓ κ} :
    {A : Type ℓ} {B : Type κ} (n : ℕ) (m : Option (A × List ℕ))
    (k : A × List ℕ → Option (B × List ℕ))
    → Leaves n m
    → ((a : A) (rest : List ℕ) → length rest ≤ n → Leaves n (k (a, rest)))
    → Leaves n (m >>= k)
unfolding Leaves
Leaves-bind n none k h f = tt
Leaves-bind n (some (a, rest)) k h f = f a rest h

Leaves-some {ℓ} :
    {A : Type ℓ} (n : ℕ) (a : A) (rest : List ℕ) → Leaves n (some (a, rest)) → length rest ≤ n
unfolding Leaves
Leaves-some n a rest h = h

some-Leaves {ℓ} :
    {A : Type ℓ} (n : ℕ) (a : A) (rest : List ℕ) → length rest ≤ n → Leaves n (some (a, rest))
unfolding Leaves
some-Leaves n a rest h = h

module _ (io : BinaryStream) (laws : Laws io) where
  get-Leaves :
      (w : Width) (n : ℕ) (bytes : List ℕ)
      → length bytes ≤ n + byte_count w
      → Leaves n (io.get w bytes)
  unfolding Leaves
  get-Leaves w n bytes h = elim (Option-cases (io.get w bytes)) [
    | inl e ↦ rw e tt
    | inr ((m, rest), e) ↦ rw e (omega (arith, laws.get_takes w bytes m rest e))
  ]

  get_if-Leaves :
      (b : Bool) (w : Width) (n : ℕ) (bytes : List ℕ)
      → length bytes ≤ n
      → Leaves n (get_if io b w bytes)
  unfolding Leaves get_if
  get_if-Leaves true w n bytes h = get-Leaves w n bytes (omega arith)
  get_if-Leaves false w n bytes h = h

  read-Leaves : (k n : ℕ) (bytes : List ℕ) → length bytes ≤ n → Leaves n (io.read k bytes)
  unfolding Leaves
  read-Leaves k n bytes h = elim (Option-cases (io.read k bytes)) [
    | inl e ↦ rw e tt
    | inr ((m, rest), e) ↦ rw e (omega (arith, laws.read_takes k bytes m rest e))
  ]

  -- A frame takes its header at least.
  read_frame-Leaves :
      (n : ℕ) (bytes : List ℕ) → length bytes ≤ suc n → Leaves n (read_frame io bytes)
  unfolding read_frame
  read_frame-Leaves n bytes h =
      Leaves-bind n _ _ (get-Leaves Width.uint8 n bytes (omega arith)) λ hd b1 h1.
        Leaves-bind n _ _ (get-Leaves Width.uint16 n b1 (omega arith)) λ bits b2 h2.
          Leaves-bind n _ _ (get_if-Leaves _ _ n b2 h2) λ _ b3 h3.
            Leaves-bind n _ _ (get_if-Leaves _ _ n b3 h3) λ _ b4 h4.
              Leaves-bind n _ _ (get_if-Leaves _ _ n b4 h4) λ _ b5 h5.
                Leaves-bind n _ _ (get_if-Leaves _ _ n b5 h5) λ _ b6 h6.
                  Leaves-bind n _ _ (get_if-Leaves _ _ n b6 h6) λ _ b7 h7.
                    Leaves-bind n _ _ (get_if-Leaves _ _ n b7 h7) λ _ b8 h8.
                      Leaves-bind n _ _ (get_if-Leaves _ _ n b8 h8) λ _ b9 h9.
                        Leaves-bind n _ _ (read-Leaves _ n b9 h9)
                          λ p b10 h10. some-Leaves n _ b10 h10

  read_frames_loop-ends :
      (fuel : ℕ) (bytes : List ℕ) (fs : List Frame)
      → length bytes ≤ fuel
      → read_frames_loop io fuel bytes fs ≢ out_of_fuel
  unfolding read_frames_loop
  read_frames_loop-ends zero [] fs h = rw (laws.feof_nil, read_frames_loop) (λ e. cc)
  read_frames_loop-ends zero (b ∷ bytes) fs h = absurd (omega arith)
  read_frames_loop-ends (suc fuel) bytes fs h = elim (Bool-cases (io.feof bytes)) [
    | inl e ↦ rw (e, read_frames_loop) (λ q. cc)
    | inr e ↦
        rw (e, read_frames_loop)
          (elim (Option-cases (read_frame io bytes)) [
            | inl q ↦ rw q (λ r. cc)
            | inr ((f, rest), q) ↦ rw q (
                read_frames_loop-ends fuel rest (fs ++ (f ∷ []))
                  (Leaves-some fuel f rest (rw q at (read_frame-Leaves fuel bytes h))))
          ])
  ]

  -- The loop of `Frame.read` ends on every input, well formed or not.
  pub read_frames-ends : (bytes : List ℕ) → read_frames io bytes ≢ out_of_fuel
  unfolding read_frames
  read_frames-ends bytes = read_frames_loop-ends (length bytes) bytes [] (omega arith)
