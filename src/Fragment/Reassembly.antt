-- ===== src/Fragment/Reassembly.antt =====
-- `handleSplit` of packages/raknet/src/shared/network-session.ts on one fragment, with some of the
-- others there.
use baltica.Base.{ℕ, zero, suc, ◌+◌, ◌≤◌, ◌<◌, ◌≡◌, refl, ap, ◌∙◌}
use baltica.Base.{
  true, false, none, some, List, [], ◌∷◌, ◌++◌, map, append-nil, append_assoc, inl, inr, arith,
}
use baltica.Base.Tests.{◌==◌, Option-cases, ==_refl, eq→==, ne→==}
use baltica.Base.Lists.{length}
use baltica.Base.Sets.{has}
use baltica.Base.Maps.{Map, lookup, insert, erase, has_key, lookup-insert, lookup-erase}
use baltica.Base.Counting.{
  Distinct, Below, insert-Distinct, length-le_of_Below, length-lt_of_missing, length-ge_of_all,
}
use baltica.Frame.{Frame}
use baltica.Fragment.{Entry, entry_of, collect, reassemble, settle, handle_split}
use baltica.Fragment.Chunks.{concat}

abbrev pub split_indices : List Frame → List ℕ
split_indices = map (λ f. f.split_frame_index)

-- A fragment of the payload that was cut into `n` chunks under `id`.
pub record IsFragment (c : ℕ → List ℕ) (id n : ℕ) (f : Frame) : Type 0 where
  pub of_id : f.split_id ≡ id
  pub of_size : f.split_size ≡ n
  pub in_range : f.split_frame_index < n
  pub carries : f.payload ≡ c f.split_frame_index

module _ (c : ℕ → List ℕ) where
  -- The fragments that have arrived, of `n`.
  pub record Gathers (n : ℕ) (arrived : List ℕ) (frames : Map Frame) : Type 0 where
    pub distinct : Distinct frames
    pub bounded : Below n frames
    pub keys : (j : ℕ) → has_key j frames ≡ has j arrived
    pub holds : (j : ℕ) (f : Frame) → lookup j frames ≡ some f → f.payload ≡ c j

  insert-Gathers :
      (n : ℕ) (f : Frame) (arrived : List ℕ) (frames : Map Frame)
      → f.split_frame_index < n
      → f.payload ≡ c f.split_frame_index
      → Gathers n arrived frames
      → Gathers n (f.split_frame_index ∷ arrived) (insert f.split_frame_index f frames)
  unfolding has
  insert-Gathers n f arrived frames b v w =
      let i = f.split_frame_index in
      record {
        distinct = insert-Distinct i f frames w.distinct;
        bounded = λ j h. ground (arith, lookup-insert i j f frames, w.bounded j h);
        keys = λ j. ground (arith, lookup-insert i j f frames, w.keys j);
        holds = λ j g e. ground (arith, lookup-insert i j f frames, w.holds j g);
      }

  collect-concat :
      (k i : ℕ) (frames : Map Frame) (stream : List ℕ)
      → ((j : ℕ) → i ≤ j → j < i + k → has_key j frames ≡ true)
      → ((j : ℕ) (f : Frame) → lookup j frames ≡ some f → f.payload ≡ c j)
      → collect k i frames stream ≡ some (stream ++ concat c k i)
  unfolding collect concat
  collect-concat zero i frames stream all v = rw append-nil refl
  collect-concat (suc k) i frames stream all v = elim (Option-cases (lookup i frames)) [
    | inl e ↦ ground (arith, all i)
    | inr (f, e) ↦
        rw (e, collect, v i f e)
          (collect-concat k (i + 1) frames (stream ++ c i)
              (λ j h b. all j (omega arith) (omega arith)) v
            ∙ ap some (append_assoc stream (c i) (concat c k (i + 1))))
  ]

  full-settle :
      (f : Frame) (queue : Map Entry) (entry : Entry) (arrived : List ℕ)
      → Gathers f.split_size arrived entry.frames
      → ((j : ℕ) → j < f.split_size → has j arrived ≡ true)
      → settle f queue entry ≡ (
        erase f.split_id (insert f.split_id entry queue),
        some (reassemble f (concat c f.split_size 0)),
      )
  unfolding settle
  full-settle f queue entry arrived w all =
      let full : length entry.frames == f.split_size ≡ true = eq→== _ _ (
        omega (
          arith,
          length-le_of_Below f.split_size entry.frames w.distinct w.bounded,
          length-ge_of_all f.split_size entry.frames (λ j h. w.keys j ∙ all j h),
        )) in
      rw
        (
          full,
          collect-concat f.split_size 0 entry.frames [] (λ j a b. w.keys j ∙ all j (omega arith))
              w.holds,
        )
        refl

  gap-settle :
      (f : Frame) (queue : Map Entry) (entry : Entry) (arrived : List ℕ) (j : ℕ)
      → Gathers f.split_size arrived entry.frames
      → j < f.split_size
      → has j arrived ≡ false
      → settle f queue entry ≡ (insert f.split_id entry queue, none)
  unfolding settle
  gap-settle f queue entry arrived j w h gap =
      let short : length entry.frames == f.split_size ≡ false = ne→== _ _ (λ e. omega (
        arith,
        length-lt_of_missing f.split_size entry.frames j w.distinct w.bounded h (w.keys j ∙ gap),
      )) in
      rw short refl

  -- The fragment that completes the payload.
  pub complete :
      (f : Frame) (now : ℕ) (arrived : List ℕ) (queue : Map Entry)
      → f.split_frame_index < f.split_size
      → f.payload ≡ c f.split_frame_index
      → Gathers f.split_size arrived (entry_of f.split_id queue now).frames
      → ((j : ℕ) → j < f.split_size → has j (f.split_frame_index ∷ arrived) ≡ true)
      → (queue' : Map Entry) × (handle_split f now queue
          ≡ (queue', some (reassemble f (concat c f.split_size 0))))
        × (lookup f.split_id queue' ≡ none)
  unfolding handle_split
  complete f now arrived queue b v w all = (
    _,
    full-settle f queue _ (f.split_frame_index ∷ arrived)
        (insert-Gathers f.split_size f arrived _ b v w) all,
    rw (lookup-erase f.split_id f.split_id, ==_refl f.split_id) refl,
  )

  -- A fragment that leaves a gap.
  pub incomplete :
      (f : Frame) (now j : ℕ) (arrived : List ℕ) (queue : Map Entry)
      → f.split_frame_index < f.split_size
      → f.payload ≡ c f.split_frame_index
      → Gathers f.split_size arrived (entry_of f.split_id queue now).frames
      → j < f.split_size
      → has j (f.split_frame_index ∷ arrived) ≡ false
      → (queue' : Map Entry) × (handle_split f now queue ≡ (queue', none))
        × ((later : ℕ)
            → Gathers f.split_size
                (f.split_frame_index ∷ arrived)
                (entry_of f.split_id queue' later).frames)
  unfolding handle_split
  incomplete f now j arrived queue b v w h gap =
      let w' = insert-Gathers f.split_size f arrived _ b v w in
      (
        _,
        gap-settle f queue _ (f.split_frame_index ∷ arrived) j w' h gap,
        λ later. rw (lookup-insert f.split_id f.split_id, ==_refl f.split_id, entry_of) w',
      )
