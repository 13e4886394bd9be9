-- ===== src/Ordering/Sequenced.antt =====
-- Runs of `handleSequenced` of packages/raknet/src/shared/network-session.ts on one channel.
use baltica.Base.{ℕ, ◌+◌, ◌≤◌, ◌<◌, ◌≡◌, refl}
use baltica.Base.{some, List, [], ◌∷◌, inl, inr, arith}
use baltica.Base.Tests.{ltb, Bool-cases, ==_refl}
use baltica.Base.Lists.{All}
use baltica.Base.Maps.{lookup, insert, lookup-insert}
use baltica.Frame.{Frame}
use baltica.Ordering.{Outcome, done, thrown, endless, Ordering, handle_sequenced}

-- The handler that records what it is given, newest first.
abbrev pub record_payload : List ℕ → List (List ℕ) → Outcome (List (List ℕ))
record_payload bytes log = done (bytes ∷ log)

-- Frames in the order of their arrival.
unfoldable pub sequenced_run :
    List Frame → Ordering → List (List ℕ) → Outcome (Ordering × List (List ℕ))
sequenced_run [] o log = done (o, log)
sequenced_run (f ∷ fs) o log = elim (handle_sequenced record_payload f o log) [
  | endless ↦ endless
  | thrown x ↦ thrown x
  | done (o, log) ↦ sequenced_run fs o log
]

-- Strictly descending from below `bound`.
abbrev pub Descends : (List ℕ → ℕ) → ℕ → List (List ℕ) → Type 0
Descends number bound [] = Unit {0}
Descends number bound (bytes ∷ log) = (number bytes < bound) × Descends number (number bytes) log

-- The frames are of the channel `ch`, and their payloads tell their sequence indices.
abbrev pub IsNumbered : ℕ → (List ℕ → ℕ) → List Frame → Type 0
IsNumbered ch number =
    All (λ f. (f.order_channel ≡ ch) × (number f.payload ≡ f.sequence_frame_index))

-- The first entry has the number below `bound`, if there is any.
abbrev pub Newest : (List ℕ → ℕ) → ℕ → List (List ℕ) → Type 0
Newest number bound [] = bound ≡ 0
Newest number bound (bytes ∷ log) = bound ≡ number bytes + 1

module _ (number : List ℕ → ℕ) (ch : ℕ) where
  record Follows (highest : ℕ) (o : Ordering) (log : List (List ℕ)) : Type 0 where
    index : lookup ch o.input_highest_sequence_index ≡ some highest
    newest : Newest number highest log
    descends : Descends number highest log

  accepted-Follows :
      (bytes : List ℕ) (i highest : ℕ) (o : Ordering) (log : List (List ℕ))
      → Follows highest o log
      → number bytes ≡ i
      → highest ≤ i
      → Follows
          (i + 1)
          (record o {
            input_highest_sequence_index = insert ch (i + 1) o.input_highest_sequence_index;
          })
          (bytes ∷ log)
  accepted-Follows bytes i highest o log w e b = record {
    index = rw (lookup-insert ch ch (i + 1) o.input_highest_sequence_index, ==_refl ch) refl;
    newest = omega arith;
    descends = (omega arith, older log w.newest w.descends);
  }
    where
      older :
          (log : List (List ℕ))
          → Newest number highest log
          → Descends number highest log
          → Descends number (number bytes) log
      older [] n d = tt
      older (x ∷ log) n d = (omega arith, d.1)

  run-Follows :
      (fs : List Frame) (highest : ℕ) (o : Ordering) (log : List (List ℕ))
      → Follows highest o log
      → IsNumbered ch number fs
      → (last : ℕ) × (o' : Ordering) × (log' : List (List ℕ)) × (sequenced_run fs o log
          ≡ done (o', log'))
        × Follows last o' log'
        × (highest ≤ last)
        × All (λ f. f.sequence_frame_index < last) fs
  unfolding sequenced_run handle_sequenced
  run-Follows [] highest o log w n = (highest, o, log, refl, w, omega arith, tt)
  run-Follows (f ∷ fs) highest o log w ((ec, en), n) =
      elim (Bool-cases (ltb f.sequence_frame_index highest)) [
        | inl stale ↦
            let (l, o', log', run, v, up, all) = run-Follows fs highest o log w n in
            (
              l,
              o',
              log',
              rw (ec, w.index, stale, sequenced_run, handle_sequenced) run,
              v,
              up,
              (ground arith, all),
            )
        | inr fresh ↦
            let (l, o', log', run, v, up, all) =
              run-Follows fs (f.sequence_frame_index + 1) _ (f.payload ∷ log)
                (accepted-Follows f.payload f.sequence_frame_index highest o log w en
                  (ground arith))
                n in
            (
              l,
              o',
              log',
              rw (ec, w.index, fresh, sequenced_run, handle_sequenced) run,
              v,
              ground arith,
              (omega arith, all),
            )
      ]

  -- In order of their arrival the frames of a channel are handled with ever greater sequence
  -- indices, and when all have arrived the newest of them has been handled last.
  pub sequenced_run-Newest :
      (fs : List Frame) (o : Ordering)
      → lookup ch o.input_highest_sequence_index ≡ some 0
      → IsNumbered ch number fs
      → (last : ℕ) × (o' : Ordering) × (log : List (List ℕ)) × (sequenced_run fs o []
          ≡ done (o', log))
        × Newest number last log
        × Descends number last log
        × All (λ f. f.sequence_frame_index < last) fs
  sequenced_run-Newest fs o e n =
      let (l, o', log, run, v, up, all) =
        run-Follows fs 0 o [] (record { index = e; newest = refl; descends = tt }) n in
      (l, o', log, run, v.newest, v.descends, all)
