-- ===== src/Outbound/Backup.antt =====
-- The backup of sent frame sets in packages/raknet/src/shared/network-session.ts: its sequence
-- numbers, and the frames that are not acknowledged yet.
use baltica.Base.{
  ℕ, ◌≤◌, ◌≡◌, refl, sym, ap, ◌∙◌, true, false, List, [], ◌∷◌, ◌++◌, append-nil, append_assoc,
  arith,
}
use baltica.Base.Tests.{if_cases, if_true_case}
use baltica.Base.Maps.{Map, lookup, insert, has_key, lookup-insert}
use baltica.Stream.{BinaryStream}
use baltica.Frame.{Frame}
use baltica.Outbound.{
  Outbound, Priority, flush, flush_frames, flushed, make_room, queue_frame, add_frame, overflows,
  is_high,
}

-- The backup and its timestamps have the same sequence numbers, all of them used before.
pub record Tracks (o : Outbound) : Type 0 where
  pub can : o.can_send ≡ true
  pub same_keys : (k : ℕ) → has_key k o.output_backup_timestamps ≡ has_key k o.output_backup
  pub used : (k : ℕ) → o.output_sequence ≤ k → has_key k o.output_backup ≡ false

unfoldable pub entries {ℓ} : {A : Type ℓ} → Map (List A) → List A
entries [] = []
entries ((k, xs) ∷ m) = xs ++ entries m

-- The frames that are not acknowledged, in the order in which they were queued.
abbrev pub outstanding : Outbound → List Frame
outstanding o = entries o.output_backup ++ o.output_frames

pub entries-insert_fresh {ℓ} :
    {A : Type ℓ} (k : ℕ) (xs : List A) (m : Map (List A))
    → has_key k m ≡ false
    → entries (insert k xs m) ≡ entries m ++ xs
unfolding entries insert lookup
entries-insert_fresh k xs [] h = append-nil xs
entries-insert_fresh k xs ((j, ys) ∷ m) h =
    ground (arith, entries-insert_fresh k xs m, append_assoc ys (entries m) xs)

module _ (io : BinaryStream) where
  flush_frames_cases {ℓ} :
      (P : Outbound → Type ℓ) (now : ℕ) (fs : List Frame) (o : Outbound)
      → o.can_send ≡ true
      → (fs ≡ [] → P o)
      → P (flushed io now fs o)
      → P (flush_frames io now fs o)
  unfolding flush_frames
  flush_frames_cases P now [] o can none_queued sends = none_queued refl
  flush_frames_cases P now (f ∷ fs) o can none_queued sends =
      if_true_case P o.can_send _ _ can sends

  -- `flush` either finds nothing to send or sends everything.
  pub flush_cases {ℓ} :
      (P : Outbound → Type ℓ) (now : ℕ) (o : Outbound)
      → o.can_send ≡ true
      → (o.output_frames ≡ [] → P o)
      → P (flushed io now o.output_frames o)
      → P (flush io now o)
  unfolding flush
  flush_cases P now o = flush_frames_cases P now o.output_frames o

  flushed-Tracks : (now : ℕ) (o : Outbound) → Tracks o → Tracks (flushed io now o.output_frames o)
  flushed-Tracks now o t = record {
    can = t.can;
    same_keys = λ k. ground (
      arith,
      lookup-insert o.output_sequence k now o.output_backup_timestamps,
      lookup-insert o.output_sequence k o.output_frames o.output_backup,
      t.same_keys k,
    );
    used = λ k h.
        ground (arith, lookup-insert o.output_sequence k o.output_frames o.output_backup, t.used k);
  }

  pub flush-Tracks : (now : ℕ) (o : Outbound) → Tracks o → Tracks (flush io now o)
  flush-Tracks now o t = flush_cases Tracks now o t.can (λ e. t) (flushed-Tracks now o t)

  add_frame-Tracks : (f : Frame) (o : Outbound) → Tracks o → Tracks (add_frame f o)
  unfolding add_frame
  add_frame-Tracks f o t = record { can = t.can; same_keys = t.same_keys; used = t.used }

  make_room-Tracks : (now : ℕ) (f : Frame) (o : Outbound) → Tracks o → Tracks (make_room io now f o)
  unfolding make_room
  make_room-Tracks now f o t = if_cases Tracks (overflows f o) (flush-Tracks now o t) t

  pub queue_frame-Tracks :
      (now : ℕ) (f : Frame) (priority : Priority) (o : Outbound)
      → Tracks o
      → Tracks (queue_frame io now f priority o)
  unfolding queue_frame
  queue_frame-Tracks now f priority o t =
      let added = add_frame-Tracks f (make_room io now f o) (make_room-Tracks now f o t) in
      if_cases Tracks (is_high priority) (flush-Tracks now _ added) added

  flushed-outstanding :
      (now : ℕ) (o : Outbound)
      → Tracks o
      → outstanding (flushed io now o.output_frames o) ≡ outstanding o
  flushed-outstanding now o t =
      rw
        (
          append-nil,
          entries-insert_fresh o.output_sequence o.output_frames o.output_backup
              (t.used o.output_sequence (omega arith)),
        )
        refl

  pub flush-outstanding :
      (now : ℕ) (o : Outbound) → Tracks o → outstanding (flush io now o) ≡ outstanding o
  flush-outstanding now o t =
      flush_cases (λ q. outstanding q ≡ outstanding o) now o t.can (λ e. refl)
        (flushed-outstanding now o t)

  add_frame-outstanding :
      (f : Frame) (o : Outbound) → outstanding (add_frame f o) ≡ outstanding o ++ f ∷ []
  unfolding add_frame
  add_frame-outstanding f o = sym (append_assoc (entries o.output_backup) o.output_frames (f ∷ []))

  make_room-outstanding :
      (now : ℕ) (f : Frame) (o : Outbound)
      → Tracks o
      → outstanding (make_room io now f o) ≡ outstanding o
  unfolding make_room
  make_room-outstanding now f o t =
      if_cases (λ q. outstanding q ≡ outstanding o) (overflows f o) (flush-outstanding now o t) refl

  -- Queueing a frame adds that frame to the outstanding ones, flush or not.
  pub queue_frame-outstanding :
      (now : ℕ) (f : Frame) (priority : Priority) (o : Outbound)
      → Tracks o
      → outstanding (queue_frame io now f priority o) ≡ outstanding o ++ f ∷ []
  unfolding queue_frame
  queue_frame-outstanding now f priority o t =
      let room = make_room io now f o in
      let added = add_frame-Tracks f room (make_room-Tracks now f o t) in
      let kept : outstanding (add_frame f room) ≡ outstanding o ++ f ∷ [] =
        add_frame-outstanding f room ∙ ap (λ xs. xs ++ f ∷ []) (make_room-outstanding now f o t) in
      if_cases (λ q. outstanding q ≡ outstanding o ++ f ∷ []) (is_high priority)
        (flush-outstanding now (add_frame f room) added ∙ kept) kept
