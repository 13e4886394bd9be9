-- ===== src/Outbound/Bounds.antt =====
-- The length of the datagrams of `sendFrame` of packages/raknet/src/shared/network-session.ts
-- against the MTU.
use baltica.Base.{
  ℕ, zero, suc, ◌+◌, ◌-◌, ◌%◌, ◌^◌, ◌≤◌, ◌<◌, ◌≡◌, refl, true, Option, some, List, [], ◌∷◌, ◌++◌,
  inl, inr, arith,
}
use baltica.Base.Tests.{Bool-cases, if_cases, if_true_case, if_false_case}
use baltica.Base.Lists.{length, All, All-append}
use baltica.Base.Maps.{lookup, lookup-insert}
use baltica.Stream.{BinaryStream, Laws}
use baltica.Frame.{Frame, is_reliable, is_sequenced, is_ordered, get_byte_length, total_byte_length}
use baltica.Fragment.{ceil_div}
use baltica.Fragment.Chunks.{length-chunk}
use baltica.FrameSet.{length-serialize}
use baltica.Outbound.{
  Outbound, Priority, flush, flushed, add_frame, make_room, overflows, is_high, queue_frame,
  number_frame, number_reliable, fragment_of, split_loop, send_split, send_frame, split_size_of,
  exceeds, mtu_header_size,
}
use baltica.Outbound.Backup.{flush_cases}

-- A frame set whose frames leave thirteen bytes of the MTU.
abbrev pub Fits : ℕ → List Frame → Type 0
Fits mtu fs = total_byte_length fs + 13 ≤ mtu

-- Every datagram that was sent leaves nine bytes of the MTU at least, and so will every one that
-- is queued or sent again.
pub record Packed (mtu : ℕ) (o : Outbound) : Type 0 where
  pub can : o.can_send ≡ true
  pub mtu_is : o.mtu ≡ mtu
  pub queue_fits : Fits mtu o.output_frames
  pub backup_fits : (k : ℕ) (fs : List Frame) → lookup k o.output_backup ≡ some fs → Fits mtu fs
  pub sent_fits : All (λ bytes. length bytes + 9 ≤ mtu) o.sent

total_byte_length-append :
    (fs gs : List Frame)
    → total_byte_length (fs ++ gs) ≡ total_byte_length fs + total_byte_length gs
unfolding total_byte_length
total_byte_length-append [] gs = omega arith
total_byte_length-append (f ∷ fs) gs = omega (arith, total_byte_length-append fs gs)

get_byte_length-le : (f : Frame) → get_byte_length f ≤ length f.payload + 23
unfolding get_byte_length
get_byte_length-le f = ground arith

module _ (io : BinaryStream) (laws : Laws io) (mtu : ℕ) where
  flushed-Packed :
      (now : ℕ) (o : Outbound) → Packed mtu o → Packed mtu (flushed io now o.output_frames o)
  unfolding total_byte_length
  flushed-Packed now o p = record {
    can = p.can;
    mtu_is = p.mtu_is;
    queue_fits = omega (arith, p.queue_fits);
    backup_fits = λ k fs e. ground (
      arith,
      lookup-insert o.output_sequence k o.output_frames o.output_backup,
      p.backup_fits k fs,
      p.queue_fits,
    );
    sent_fits = All-append _ o.sent _ p.sent_fits (
      omega (
        arith,
        length-serialize io laws
            (record { sequence = o.output_sequence; frames = o.output_frames }),
        p.queue_fits,
      ),
      tt,
    );
  }

  flush-Packed : (now : ℕ) (o : Outbound) → Packed mtu o → Packed mtu (flush io now o)
  flush-Packed now o p = flush_cases io (Packed mtu) now o p.can (λ e. p) (flushed-Packed now o p)

  add_frame-Packed :
      (f : Frame) (o : Outbound)
      → total_byte_length o.output_frames + get_byte_length f + 13 ≤ mtu
      → Packed mtu o
      → Packed mtu (add_frame f o)
  unfolding add_frame total_byte_length
  add_frame-Packed f o h p = record {
    can = p.can;
    mtu_is = p.mtu_is;
    queue_fits = omega (arith, total_byte_length-append o.output_frames (f ∷ []));
    backup_fits = p.backup_fits;
    sent_fits = p.sent_fits;
  }

  abbrev Roomy : Frame → Outbound → Type 0
  Roomy f q = Packed mtu q × (total_byte_length q.output_frames + get_byte_length f + 13 ≤ mtu)

  flush-Roomy :
      (now : ℕ) (f : Frame) (o : Outbound)
      → length f.payload + mtu_header_size ≤ mtu
      → Packed mtu o
      → Roomy f (flush io now o)
  unfolding total_byte_length
  flush-Roomy now f o h p =
      let alone : 0 + get_byte_length f + 13 ≤ mtu = omega (arith, get_byte_length-le f) in
      flush_cases io (Roomy f) now o p.can (λ e. (p, rw e alone)) (flushed-Packed now o p, alone)

  -- Where there is no room, `queueFrame` flushes first: then the frame fits.
  make_room-Roomy :
      (now : ℕ) (f : Frame) (o : Outbound)
      → length f.payload + mtu_header_size ≤ mtu
      → Packed mtu o
      → Roomy f (make_room io now f o)
  unfolding make_room
  make_room-Roomy now f o h p = elim (Bool-cases (overflows f o)) [
    | inl e ↦ if_true_case (Roomy f) (overflows f o) _ _ e (flush-Roomy now f o h p)
    | inr e ↦ if_false_case (Roomy f) (overflows f o) _ _ e (p, ground (arith, p.mtu_is))
  ]

  pub queue_frame-Packed :
      (now : ℕ) (f : Frame) (priority : Priority) (o : Outbound)
      → length f.payload + mtu_header_size ≤ mtu
      → Packed mtu o
      → Packed mtu (queue_frame io now f priority o)
  unfolding queue_frame
  queue_frame-Packed now f priority o h p =
      let (room, fits) = make_room-Roomy now f o h p in
      let added = add_frame-Packed f (make_room io now f o) fits room in
      if_cases (Packed mtu) (is_high priority) (flush-Packed now _ added) added

  -- Numbering changes neither the payload nor what is packed.
  abbrev Keeps : Frame → Frame × Outbound → Type 0
  Keeps f x = (x.0.payload ≡ f.payload) × Packed mtu x.1

  number_reliable-Keeps : (f : Frame) (o : Outbound) → Packed mtu o → Keeps f (number_reliable f o)
  unfolding number_reliable
  number_reliable-Keeps f o p = if_cases (Keeps f) (is_reliable f) (refl, again p) (refl, p)
    where
      again :
          Packed mtu o
          → Packed mtu (record o { output_reliable_index = o.output_reliable_index + 1 })
      again p = record {
        can = p.can;
        mtu_is = p.mtu_is;
        queue_fits = p.queue_fits;
        backup_fits = p.backup_fits;
        sent_fits = p.sent_fits;
      }

  number_frame-Keeps : (f : Frame) (o : Outbound) → Packed mtu o → Keeps f (number_frame f o)
  unfolding number_frame
  number_frame-Keeps f o p =
      if_cases (Keeps f) (is_sequenced f)
        (
          refl,
          record {
            can = p.can;
            mtu_is = p.mtu_is;
            queue_fits = p.queue_fits;
            backup_fits = p.backup_fits;
            sent_fits = p.sent_fits;
          },
        )
        (if_cases (Keeps f) (is_ordered f)
          (
            refl,
            record {
              can = p.can;
              mtu_is = p.mtu_is;
              queue_fits = p.queue_fits;
              backup_fits = p.backup_fits;
              sent_fits = p.sent_fits;
            },
          )
          (refl, p))

  split_loop-Packed :
      (now n : ℕ) (f : Frame) (k id size : ℕ) (priority : Priority) (i : ℕ) (o : Outbound)
      → k + mtu_header_size ≤ mtu
      → Packed mtu o
      → Packed mtu (split_loop io now n f k id size priority i o)
  unfolding split_loop fragment_of
  split_loop-Packed now zero f k id size priority i o h p = p
  split_loop-Packed now (suc n) f k id size priority i o h p =
      let (same, kept) = number_reliable-Keeps (fragment_of f k id size i) o p in
      split_loop-Packed now n f k id size priority (i + 1) _ h (
        queue_frame-Packed now _ priority _ (rw same (omega (arith, length-chunk k f.payload i)))
          kept)

  abbrev Result : Option Outbound → Type 0
  Result r = (q : Outbound) × (r ≡ some q) × Packed mtu q

  send_split-Packed :
      (now : ℕ) (f : Frame) (priority : Priority) (o : Outbound)
      → mtu_header_size < mtu
      → Packed mtu o
      → Result (send_split io now f priority o)
  unfolding send_split
  send_split-Packed now f priority o h p =
      let k = o.mtu - mtu_header_size in
      let size = ceil_div (length f.payload) k in
      let known : split_size_of o.mtu (length f.payload) ≡ some size = ground (arith, p.mtu_is) in
      let o' : Outbound = record o { output_split_index = o.output_split_index + 1 } in
      let counted : Packed mtu o' = record {
        can = p.can;
        mtu_is = p.mtu_is;
        queue_fits = p.queue_fits;
        backup_fits = p.backup_fits;
        sent_fits = p.sent_fits;
      } in
      let looped =
        split_loop-Packed now size f k (o.output_split_index % 2 ^ 16) size priority 0 o'
          (omega (arith, p.mtu_is)) counted in
      (
        split_loop io now size f k (o.output_split_index % 2 ^ 16) size priority 0 o',
        rw (known, send_split) refl,
        looped,
      )

  -- Whatever is sent, whole or in fragments, every datagram stays within the MTU.
  pub send_frame-Packed :
      (now : ℕ) (f : Frame) (priority : Priority) (o : Outbound)
      → mtu_header_size < mtu
      → Packed mtu o
      → (q : Outbound) × (send_frame io now f priority o ≡ some q) × Packed mtu q
  unfolding send_frame
  send_frame-Packed now f priority o h p =
      let g = (number_frame f o).0 in
      let o' = (number_frame f o).1 in
      let (same, kept) = number_frame-Keeps f o p in
      let (again, numbered) = number_reliable-Keeps g o' kept in
      elim (Bool-cases (exceeds o'.mtu (length f.payload))) [
        | inl e ↦
            if_true_case Result (exceeds o'.mtu (length f.payload)) _ _ e
              (send_split-Packed now g priority o' h kept)
        | inr e ↦
            let small : length f.payload + mtu_header_size ≤ mtu = ground (arith, kept.mtu_is) in
            if_false_case Result (exceeds o'.mtu (length f.payload)) _ _ e
              (_, refl, queue_frame-Packed now _ priority _ (rw (again, same) small) numbered)
      ]
