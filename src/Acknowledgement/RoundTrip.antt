-- ===== src/Acknowledgement/RoundTrip.antt =====
-- Acknowledgements on the wire: packages/raknet/src/shared/proto/packets/online/acknowledgement.ts.
use baltica.Base.{ℕ, ◌+◌, ◌-◌, ◌^◌, ◌≤◌, ◌<◌, ◌≡◌, refl, sym, ap, ◌∙◌}
use baltica.Base.{some, List, [], ◌∷◌, ◌++◌, append-nil, append_assoc, inl, inr, arith}
use native.Mathlib.Nat.{zero-add}
use baltica.Base.Tests.{◌==◌, Bool-cases, ==→eq}
use baltica.Base.Lists.{length, All}
use baltica.Base.Sets.{has}
use baltica.Stream.{BinaryStream, Laws}
use baltica.Stream.Buffers.{payload, payload-put}
use baltica.Acknowledgement.{
  Kind, sort, count_up, interval, write_record, write_loop, write_records, serialize, read_record,
  read_records, deserialize,
}
use baltica.Acknowledgement.Runs.{
  Ascends, IsSorted, runs, expand, sort-IsSorted, has-sort, All-sort, length-sort, Ascends-expand,
  has-expand, length-runs, Ascends-mono,
}

-- A run that fits the wire's 24 bits.
abbrev IsRun : ℕ × ℕ → Type 0
IsRun (start, last) = (start ≤ last) × (last < 2 ^ 24)

module _ (io : BinaryStream) where
  write_runs : List (ℕ × ℕ) → List ℕ
  write_runs [] = []
  write_runs ((start, last) ∷ rs) = write_record io start last ++ write_runs rs

  write_loop-runs :
      (start last : ℕ) (rest stream : List ℕ) (records : ℕ)
      → write_loop io start last rest stream records
        ≡ (stream ++ write_runs (runs start last rest), records + length (runs start last rest))
  unfolding write_loop runs write_runs
  write_loop-runs start last [] stream records = rw append-nil refl
  write_loop-runs start last (current ∷ rest) stream records = ground (
    arith,
    write_loop-runs start current rest stream records,
    write_loop-runs current current rest (stream ++ write_record io start last) (records + 1),
    write_loop-runs start last rest stream records,
    append_assoc stream (write_record io start last) (write_runs (runs current current rest)),
  )

runs-All :
    (start last : ℕ) (rest : List ℕ)
    → start ≤ last
    → last < 2 ^ 24
    → IsSorted last rest
    → All (λ x. x < 2 ^ 24) rest
    → All IsRun (runs start last rest)
unfolding runs
runs-All start last [] h b s a = ((h, b), tt)
runs-All start last (current ∷ rest) h b s a =
    ground
      (arith, runs-All start current rest, runs-All current current rest, runs-All start last rest)

interval_one : (start last : ℕ) → start ≡ last → interval start last ≡ start ∷ []
unfolding count_up
interval_one start last e = let one : last + 1 - start ≡ 1 = omega arith in rw one refl

module _ (io : BinaryStream) (laws : Laws io) where
  read_record-write_record :
      (start last : ℕ) (rest : List ℕ)
      → start ≤ last
      → last < 2 ^ 24
      → read_record io (write_record io start last ++ rest) ≡ some (interval start last, rest)
  unfolding read_record write_record
  read_record-write_record start last rest h b =
      let fits : start < 2 ^ 24 = omega arith in
      elim (Bool-cases (start == last)) [
        | inl e ↦
            rw (e, append_assoc, laws.get-put_bool, laws.get-put _ start _ fits)
              (ap (λ xs. some (xs, rest)) (sym (interval_one start last (==→eq start last e))))
        | inr e ↦ rw e (
            simp append_assoc
              (rw (laws.get-put_bool, laws.get-put _ start _ fits, laws.get-put _ last _ b) refl))
      ]

  read_records-write_runs :
      (rs : List (ℕ × ℕ)) (rest sequences : List ℕ)
      → All IsRun rs
      → read_records io (length rs) (write_runs io rs ++ rest) sequences
        ≡ some (sequences ++ expand rs)
  unfolding read_records write_runs expand
  read_records-write_runs [] rest sequences v = rw append-nil refl
  read_records-write_runs ((start, last) ∷ rs) rest sequences v = rw append_assoc (
      rw (read_record-write_record start last (write_runs io rs ++ rest) v.0.0 v.0.1, read_records)
        (read_records-write_runs rs rest (sequences ++ interval start last) v.1
          ∙ rw append_assoc refl))

  write_records-runs :
      (first : ℕ) (rest : List ℕ)
      → write_records io (first ∷ rest)
        ≡ (write_runs io (runs first first rest), length (runs first first rest))
  unfolding write_records
  write_records-runs first rest = rw (write_loop-runs io first first rest [] 0) (rw zero-add refl)

  -- What `deserialize` makes of the list that `serialize` has sorted.
  read_back :
      (xs : List ℕ)
      → IsSorted 0 xs
      → All (λ x. x < 2 ^ 24) xs
      → length xs < 2 ^ 16
      → (out : List ℕ) × (read_records io
            (write_records io xs).1
            (io.write (write_records io xs).0)
            []
          ≡ some out)
        × ((write_records io xs).1 < 2 ^ 16)
        × Ascends 0 out
        × ((y : ℕ) → has y out ≡ has y xs)
  unfolding has
  read_back [] s a h = (
    [],
    unfold write_records read_records in refl,
    unfold write_records in omega arith,
    tt,
    λ y. refl,
  )
  read_back (x ∷ xs) s a h = (
    expand (runs x x xs),
    rw (write_records-runs x xs, laws.write_lem, ← append-nil (write_runs io (runs x x xs)))
        (read_records-write_runs (runs x x xs) [] [] (runs-All x x xs (omega arith) a.0 s.1 a.1)),
    rw (write_records-runs x xs) (omega (arith, length-runs x x xs)),
    Ascends-mono 0 x _ (omega arith) (Ascends-expand x x xs (omega arith) s.1),
    λ y. has-expand x x y xs (omega arith) s.1 ∙ ground arith,
  )

  -- The sequences of an acknowledgement come back strictly ascending, each exactly once.
  pub deserialize-serialize-Ascends :
      (kind : Kind) (xs : List ℕ)
      → All (λ x. x < 2 ^ 24) xs
      → length xs < 2 ^ 16
      → (out : List ℕ) × (deserialize io (payload (serialize io kind xs)) ≡ some out)
        × Ascends 0 out
        × ((y : ℕ) → has y out ≡ has y xs)
  unfolding deserialize serialize
  deserialize-serialize-Ascends kind xs a h =
      let (out, e, fits, asc, mem) =
        read_back (sort xs) (sort-IsSorted xs) (All-sort _ xs a) (omega (arith, length-sort xs)) in
      (
        out,
        rw (payload-put io laws) (rw (laws.get-put _ _ _ fits) e),
        asc,
        λ y. mem y ∙ has-sort y xs,
      )
