-- ===== src/Outbound/Retransmission.antt =====
-- `onAck`, `onNack` and the retransmission loop of `tick` of
-- packages/raknet/src/shared/network-session.ts.
use baltica.Base.{
  ℕ, ◌+◌, ◌-◌, ◌≡◌, refl, sym, ap, ◌∙◌, true, false, Option, none, some, List, [], ◌∷◌, ◌++◌,
  append-nil, append_assoc, inl, inr, arith,
}
use baltica.Base.Tests.{◌==◌, leb, if◌then◌else◌, Bool-cases, Option-cases, if_cases}
use baltica.Base.Lists.{length}
use baltica.Base.Sets.{has}
use baltica.Base.Maps.{Map, lookup, erase, has_key, lookup-erase}
use baltica.Stream.{BinaryStream}
use baltica.Frame.{Frame}
use baltica.FrameSet
use baltica.FrameSet.{FrameSet}
use baltica.Outbound.{Outbound, forget_all, on_ack, on_nack, retransmit_loop, resend, sooner}
use baltica.Outbound.Backup.{Tracks}

lookup-forget_all :
    (k : ℕ) (seqs : List ℕ) (o : Outbound)
    → (lookup k (forget_all seqs o).output_backup
        ≡ (if has k seqs then none else lookup k o.output_backup))
      × (lookup k (forget_all seqs o).output_backup_timestamps
          ≡ (if has k seqs then none else lookup k o.output_backup_timestamps))
unfolding forget_all has
lookup-forget_all k [] o = (refl, refl)
lookup-forget_all k (s ∷ seqs) o =
    let o' : Outbound = record o {
      output_backup = erase s o.output_backup;
      output_backup_timestamps = erase s o.output_backup_timestamps;
    } in
    ground (
      arith,
      lookup-forget_all k seqs o',
      lookup-erase s k o.output_backup,
      lookup-erase s k o.output_backup_timestamps,
    )

forget_all-same :
    (seqs : List ℕ) (o : Outbound)
    → ((forget_all seqs o).output_frames ≡ o.output_frames)
      × ((forget_all seqs o).sent ≡ o.sent)
      × ((forget_all seqs o).output_sequence ≡ o.output_sequence)
      × ((forget_all seqs o).can_send ≡ o.can_send)
      × ((forget_all seqs o).retransmit_timer ≡ o.retransmit_timer)
unfolding forget_all
forget_all-same [] o = (refl, refl, refl, refl, refl)
forget_all-same (s ∷ seqs) o = forget_all-same seqs _

-- `onAck` forgets exactly the frame sets that it names, with their timestamps; it sends nothing,
-- leaves the queue alone, and stops the timer exactly when nothing is left to resend.
pub on_ack-forgets :
    (k : ℕ) (seqs : List ℕ) (o : Outbound)
    → let q = on_ack seqs o in
      (lookup k q.output_backup ≡ (if has k seqs then none else lookup k o.output_backup))
      × (lookup k q.output_backup_timestamps
          ≡ (if has k seqs then none else lookup k o.output_backup_timestamps))
      × (q.output_frames ≡ o.output_frames)
      × (q.sent ≡ o.sent)
      × (q.retransmit_timer
          ≡ (if length q.output_backup_timestamps == 0 then false else o.retransmit_timer))
unfolding on_ack
on_ack-forgets k seqs o = ground (arith, lookup-forget_all k seqs o, forget_all-same seqs o)

-- After `onAck` the backup and its timestamps still have the same sequence numbers, all of them
-- used before.
pub on_ack-Tracks : (seqs : List ℕ) (o : Outbound) → Tracks o → Tracks (on_ack seqs o)
unfolding on_ack
on_ack-Tracks seqs o t =
    if_cases Tracks (length (forget_all seqs o).output_backup_timestamps == 0)
      (record { can = forgotten.can; same_keys = forgotten.same_keys; used = forgotten.used })
      forgotten
  where
    forgotten : Tracks (forget_all seqs o)
    forgotten = record {
      can = (forget_all-same seqs o).3 ∙ t.can;
      same_keys = λ k. ground (arith, lookup-forget_all k seqs o, t.same_keys k);
      used = λ k h. ground (arith, lookup-forget_all k seqs o, t.used k, forget_all-same seqs o);
    }

module _ (io : BinaryStream) where
  -- The datagrams of those of `seqs` that the backup has.
  unfoldable pub resent : Map (List Frame) → List ℕ → List (List ℕ)
  resent backup [] = []
  resent backup (seq ∷ seqs) =
      let rest = resent backup seqs in
      elim (lookup seq backup) [
        | none ↦ rest
        | some frames ↦ FrameSet.serialize io (record { sequence = seq; frames = frames }) ∷ rest
      ]

  -- `onNack` sends again what the backup has of the sequences named, and changes nothing else.
  pub on_nack_sent :
      (seqs : List ℕ) (o : Outbound)
      → on_nack io seqs o ≡ record o { sent = o.sent ++ resent o.output_backup seqs }
  unfolding on_nack resent
  on_nack_sent [] o = ap (λ xs. record o { sent = xs }) (sym (append-nil o.sent))
  on_nack_sent (s ∷ seqs) o = elim (Option-cases (lookup s o.output_backup)) [
    | inl q ↦ rw (q, on_nack, resent) (on_nack_sent seqs o)
    | inr (frames, q) ↦
        rw (q, on_nack, resent)
          (on_nack_sent seqs (resend io s frames o)
            ∙ ap (λ xs. record o { sent = xs })
                (append_assoc o.sent _ (resent o.output_backup seqs)))
  ]

  -- The timestamps after `tick`: those that are due start anew.
  unfoldable pub restamp : ℕ → ℕ → Map ℕ → Map ℕ
  restamp now interval [] = []
  restamp now interval ((seq, at) ∷ m) =
      (seq, if leb (at + interval) now then now else at) ∷ restamp now interval m

  unfoldable pub due : ℕ → ℕ → Map ℕ → List ℕ
  due now interval [] = []
  due now interval ((seq, at) ∷ m) =
      if leb (at + interval) now then seq ∷ due now interval m else due now interval m

  -- Every timestamp has its frames.
  abbrev pub Backed : Map (List Frame) → Map ℕ → Type 0
  Backed backup [] = Unit {0}
  Backed backup ((seq, at) ∷ m) = (has_key seq backup ≡ true) × Backed backup m

  abbrev datagram : ℕ → List Frame → List ℕ
  datagram seq frames = FrameSet.serialize io (record { sequence = seq; frames = frames })

  module _ (now interval : ℕ) (backup : Map (List Frame)) (seq at : ℕ) (m : Map ℕ) (next : Option ℕ)
      (sent : List (List ℕ)) where
    due_step :
        (frames : List Frame) (times : Map ℕ) (n : Option ℕ) (out : List (List ℕ))
        → leb (at + interval) now ≡ true
        → lookup seq backup ≡ some frames
        → retransmit_loop io now interval backup m
            (sooner next interval)
            (sent ++ datagram seq frames ∷ [])
          ≡ (times, n, out)
        → retransmit_loop io now interval backup ((seq, at) ∷ m) next sent
          ≡ ((seq, now) ∷ times, n, out)
    unfolding retransmit_loop
    due_step frames times n out e q run =
        rw (e, q, retransmit_loop) (ap (λ x. ((seq, now) ∷ x.0, x.1, x.2)) run)

    waiting_step :
        (times : Map ℕ) (n : Option ℕ) (out : List (List ℕ))
        → leb (at + interval) now ≡ false
        → retransmit_loop io now interval backup m (sooner next (at + interval - now)) sent
          ≡ (times, n, out)
        → retransmit_loop io now interval backup ((seq, at) ∷ m) next sent
          ≡ ((seq, at) ∷ times, n, out)
    unfolding retransmit_loop
    waiting_step times n out e run =
        rw (e, retransmit_loop) (ap (λ x. ((seq, at) ∷ x.0, x.1, x.2)) run)

  resent_cons :
      (backup : Map (List Frame)) (seq : ℕ) (frames : List Frame) (seqs : List ℕ)
      → lookup seq backup ≡ some frames
      → resent backup (seq ∷ seqs) ≡ datagram seq frames ∷ resent backup seqs
  unfolding resent
  resent_cons backup seq frames seqs q = rw (q, resent) refl

  due_cons :
      (now interval seq at : ℕ) (m : Map ℕ)
      → due now interval ((seq, at) ∷ m)
        ≡ (if leb (at + interval) now then seq ∷ due now interval m else due now interval m)
  unfolding due
  due_cons now interval seq at m = refl

  -- If every timestamp has its frames, the loop of `tick` sends again exactly the frame sets whose time
  -- has come, each with its own sequence number and frames; it restarts their timestamps and drops
  -- none.
  pub retransmit_loop-due :
      (now interval : ℕ) (backup : Map (List Frame)) (m : Map ℕ) (next : Option ℕ)
      (sent : List (List ℕ))
      → Backed backup m
      → (next' : Option ℕ) × (retransmit_loop io now interval backup m next sent
          ≡ (restamp now interval m, next', sent ++ resent backup (due now interval m)))
  unfolding restamp
  retransmit_loop-due now interval backup [] next sent b =
      (next, unfold retransmit_loop due resent in rw append-nil refl)
  retransmit_loop-due now interval backup ((seq, at) ∷ m) next sent b =
      elim (Bool-cases (leb (at + interval) now)) [
        | inl e ↦ elim (Option-cases (lookup seq backup)) [
          | inl q ↦ ground arith
          | inr (frames, q) ↦
              let (n, run) =
                retransmit_loop-due now interval backup m (sooner next interval)
                  (sent ++ datagram seq frames ∷ []) b.1 in
              (
                n,
                rw
                    (
                      due_cons,
                      e,
                      resent_cons backup seq frames _ q,
                      ← append_assoc sent (datagram seq frames ∷ [])
                          (resent backup (due now interval m)),
                    )
                    (due_step now interval backup seq at m next sent frames _ n _ e q run),
              )
        ]
        | inr e ↦
            let (n, run) =
              retransmit_loop-due now interval backup m (sooner next (at + interval - now)) sent
                b.1 in
            (n, rw (due_cons, e) (waiting_step now interval backup seq at m next sent _ n _ e run))
      ]
