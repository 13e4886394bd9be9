-- ===== src/Fragment/Arrivals.antt =====
-- Whole runs of `handleSplit` of packages/raknet/src/shared/network-session.ts on the fragments of one
-- payload.
use baltica.Base.{ℕ, ◌<◌, ◌≡◌, refl, subst}
use baltica.Base.{true, false, none, some, List, [], ◌∷◌, ◌++◌, map, arith}
use baltica.Base.Lists.{length, All}
use baltica.Base.Sets.{has, onto, has-onto}
use baltica.Base.Maps.{Map, lookup}
use baltica.Frame.{Frame}
use baltica.Fragment.{Entry, entry_of, reassemble, handle_split, chunk, ceil_div}
use baltica.Fragment.Chunks.{concat, concat-chunk}
use baltica.Fragment.Reassembly.{IsFragment, Gathers, complete, incomplete}

-- Fragments with the times of their arrival, and the frames that they complete.
unfoldable pub split_run : List (ℕ × Frame) → Map Entry → Map Entry × List Frame
split_run [] queue = (queue, [])
split_run ((now, f) ∷ fs) queue =
    let (queue, whole) = handle_split f now queue in
    let (queue, frames) = split_run fs queue in
    (queue, elim whole [ none ↦ frames | some g ↦ g ∷ frames ])

abbrev pub arrivals : List (ℕ × Frame) → List ℕ
arrivals = map (λ x. x.1.split_frame_index)

abbrev pub AreFragments : (ℕ → List ℕ) → ℕ → ℕ → List (ℕ × Frame) → Type 0
AreFragments c id n = All (λ x. IsFragment c id n x.1)

split_run_gap :
    (f : Frame) (now : ℕ) (fs : List (ℕ × Frame)) (queue queue1 queue2 : Map Entry)
    (out : List Frame)
    → handle_split f now queue ≡ (queue1, none)
    → split_run fs queue1 ≡ (queue2, out)
    → split_run ((now, f) ∷ fs) queue ≡ (queue2, out)
unfolding split_run
split_run_gap f now fs queue queue1 queue2 out e q = ground arith

-- What is missing at the end was missing before.
earlier_gap :
    (j : ℕ) (is arrived : List ℕ) → has j (onto is arrived) ≡ false → has j arrived ≡ false
earlier_gap j is arrived e = ground (arith, has-onto j is arrived)

no_entry : (j : ℕ) (f : Frame) → lookup j [] ≡ some f → ⊥
unfolding lookup
no_entry j f e = cc

module _ (c : ℕ → List ℕ) (id n : ℕ) where
  -- The entry of `id`, at whatever time the next fragment comes.
  abbrev Open : List ℕ → Map Entry → Type 0
  Open arrived queue = (later : ℕ) → Gathers c n arrived (entry_of id queue later).frames

  one_gap :
      (f : Frame) (now j : ℕ) (arrived : List ℕ) (queue : Map Entry)
      → IsFragment c id n f
      → Open arrived queue
      → j < n
      → has j (f.split_frame_index ∷ arrived) ≡ false
      → (queue' : Map Entry) × (handle_split f now queue ≡ (queue', none))
        × Open (f.split_frame_index ∷ arrived) queue'
  one_gap f now j arrived queue v w h gap =
      rw (← v.of_id, ← v.of_size)
        (incomplete c f now j arrived queue (rw v.of_size v.in_range) v.carries
          (rw (v.of_id, v.of_size) (w now)) (rw v.of_size h) gap)

  last_one :
      (f : Frame) (now : ℕ) (arrived : List ℕ) (queue : Map Entry)
      → IsFragment c id n f
      → Open arrived queue
      → ((i : ℕ) → i < n → has i (f.split_frame_index ∷ arrived) ≡ true)
      → (queue' : Map Entry) × (handle_split f now queue
          ≡ (queue', some (reassemble f (concat c n 0))))
        × (lookup id queue' ≡ none)
  last_one f now arrived queue v w all =
      let (q, run, gone) =
        complete c f now arrived queue (rw v.of_size v.in_range) v.carries
          (rw (v.of_id, v.of_size) (w now)) (λ i h. all i (rw v.of_size at h)) in
      (
        q,
        subst (λ m. handle_split f now queue ≡ (q, some (reassemble f (concat c m 0)))) v.of_size
            run,
        subst (λ m. lookup m q ≡ none) v.of_id gone,
      )

  run_whole :
      (fs : List (ℕ × Frame)) (f : Frame) (now j : ℕ) (arrived : List ℕ) (queue : Map Entry)
      → AreFragments c id n fs
      → IsFragment c id n f
      → Open arrived queue
      → j < n
      → has j (onto (arrivals fs) arrived) ≡ false
      → ((i : ℕ) → i < n → has i (f.split_frame_index ∷ onto (arrivals fs) arrived) ≡ true)
      → (queue' : Map Entry) × (split_run (fs ++ (now, f) ∷ []) queue
          ≡ (queue', reassemble f (concat c n 0) ∷ []))
        × (lookup id queue' ≡ none)
  unfolding split_run onto has
  run_whole [] f now j arrived queue v vf w h gap all =
      let (q, run, gone) = last_one f now arrived queue vf w all in (q, rw run refl, gone)
  run_whole ((then, g) ∷ fs) f now j arrived queue v vf w h gap all =
      let (q1, run1, w1) =
        one_gap g then j arrived queue v.0 w h
          (earlier_gap j (arrivals fs) (g.split_frame_index ∷ arrived) gap) in
      let (q2, run2, gone) =
        run_whole fs f now j (g.split_frame_index ∷ arrived) q1 v.1 vf w1 h gap all in
      (q2, split_run_gap g then (fs ++ (now, f) ∷ []) queue q1 q2 _ run1 run2, gone)

-- The fragments that `sendSplit` makes of a payload, the last of them in `f`, in any order and
-- with repetitions: nothing is handed on before `f` comes, then one frame with the payload, and
-- the entry is gone.
pub split_run-payload :
    (k id : ℕ) (payload : List ℕ) (fs : List (ℕ × Frame)) (f : Frame) (now j : ℕ)
    (queue : Map Entry)
    → 0 < k
    → lookup id queue ≡ none
    → AreFragments (chunk k payload) id (ceil_div (length payload) k) fs
    → IsFragment (chunk k payload) id (ceil_div (length payload) k) f
    → j < ceil_div (length payload) k
    → has j (arrivals fs) ≡ false
    → ((i : ℕ) → i < ceil_div (length payload) k → has i (f.split_frame_index ∷ arrivals fs) ≡ true)
    → (queue' : Map Entry) × (split_run (fs ++ (now, f) ∷ []) queue
        ≡ (queue', reassemble f payload ∷ []))
      × (lookup id queue' ≡ none)
unfolding has
split_run-payload k id payload fs f now j queue pos new v vf h gap all =
    let n = ceil_div (length payload) k in
    let (q, run, gone) =
      run_whole (chunk k payload) id n fs f now j [] queue v vf
        (λ later.
          rw (new, entry_of)
            (record {
              distinct = tt;
              bounded = λ i b. unfold lookup in refl;
              keys = λ i. unfold lookup in refl;
              holds = λ i g e. absurd (no_entry i g e);
            }))
        h (ground (arith, has-onto j (arrivals fs) []))
        (λ i b. ground (arith, has-onto i (arrivals fs) [], all i b)) in
    (
      q,
      subst (λ bytes. split_run (fs ++ (now, f) ∷ []) queue ≡ (q, reassemble f bytes ∷ []))
          (concat-chunk k payload pos) run,
      gone,
    )
