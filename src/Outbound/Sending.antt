-- ===== src/Outbound/Sending.antt =====
-- `frameAndSend` and `sendFrame` of packages/raknet/src/shared/network-session.ts: how they end, and
-- what the frames that they queue carry.
use baltica.Base.{
  ℕ, zero, suc, ◌+◌, ◌-◌, ◌%◌, ◌^◌, ◌<◌, ◌≡◌, refl, sym, ap, ◌∙◌, some, List, [], ◌∷◌, ◌++◌,
  append-nil, append_assoc, arith,
}
use baltica.Base.Tests.{if_cases}
use baltica.Base.Lists.{length}
use baltica.Base.Maps.{insert}
use baltica.Stream.{BinaryStream}
use baltica.Frame.{Frame, is_reliable, is_sequenced, is_ordered}
use baltica.Fragment.{chunk, ceil_div}
use baltica.Fragment.Chunks.{concat, concat-chunk}
use baltica.Outbound.{
  Outbound, Priority, queue_frame, number_frame, number_reliable, fragment_of, split_loop,
  send_split, send_frame, frame_and_send, split_size_of, exceeds, mtu_header_size, index_at,
}
use baltica.Outbound.Backup.{Tracks, outstanding, queue_frame-Tracks, queue_frame-outstanding}

abbrev pub payloads : List Frame → List ℕ
payloads [] = []
payloads (f ∷ fs) = f.payload ++ payloads fs

payloads-append : (fs gs : List Frame) → payloads (fs ++ gs) ≡ payloads fs ++ payloads gs
payloads-append [] gs = refl
payloads-append (f ∷ fs) gs =
    rw (payloads-append fs gs) (sym (append_assoc f.payload (payloads fs) (payloads gs)))

module _ (io : BinaryStream) where
  -- The frames that an operation adds to the outstanding ones.
  record Adds (o q : Outbound) (bytes : List ℕ) : Type 0 where
    tracks : Tracks q
    frames : List Frame
    added : outstanding q ≡ outstanding o ++ frames
    carry : payloads frames ≡ bytes

  number_reliable-Tracks : (f : Frame) (o : Outbound) → Tracks o → Tracks (number_reliable f o).1
  unfolding number_reliable
  number_reliable-Tracks f o t =
      if_cases {A = Frame × Outbound} (λ x. Tracks x.1) (is_reliable f)
        (record { can = t.can; same_keys = t.same_keys; used = t.used }) t

  number_reliable-same :
      (f : Frame) (o : Outbound)
      → (outstanding (number_reliable f o).1 ≡ outstanding o)
        × ((number_reliable f o).0.payload ≡ f.payload)
  unfolding number_reliable
  number_reliable-same f o =
      if_cases {A = Frame × Outbound}
        (λ x. (outstanding x.1 ≡ outstanding o) × (x.0.payload ≡ f.payload)) (is_reliable f)
        (refl, refl) (refl, refl)

  -- Numbering a frame and queueing it.
  queue_numbered-Adds :
      (now : ℕ) (f : Frame) (priority : Priority) (o : Outbound)
      → Tracks o
      → Adds o
          (let (nf, numbered) = number_reliable f o in queue_frame io now nf priority numbered)
          f.payload
  queue_numbered-Adds now f priority o t =
      let nf = (number_reliable f o).0 in
      let numbered = (number_reliable f o).1 in
      let t' = number_reliable-Tracks f o t in
      record {
        tracks = queue_frame-Tracks io now nf priority numbered t';
        frames = nf ∷ [];
        added =
            queue_frame-outstanding io now nf priority numbered t'
            ∙ ap (λ xs. xs ++ nf ∷ []) (number_reliable-same f o).0;
        carry = append-nil nf.payload ∙ (number_reliable-same f o).1;
      }

  split_loop-Adds :
      (now n : ℕ) (f : Frame) (max_size id size : ℕ) (priority : Priority) (i : ℕ) (o : Outbound)
      → Tracks o
      → Adds o
          (split_loop io now n f max_size id size priority i o)
          (concat (chunk max_size f.payload) n i)
  unfolding split_loop concat fragment_of
  split_loop-Adds now zero f max_size id size priority i o t = record {
    tracks = t;
    frames = [];
    added = sym (append-nil (outstanding o));
    carry = refl;
  }
  split_loop-Adds now (suc n) f max_size id size priority i o t =
      let first = queue_numbered-Adds now (fragment_of f max_size id size i) priority o t in
      let rest = split_loop-Adds now n f max_size id size priority (i + 1) _ first.tracks in
      record {
        tracks = rest.tracks;
        frames = first.frames ++ rest.frames;
        added =
            rest.added
            ∙ ap (λ xs. xs ++ rest.frames) first.added
            ∙ append_assoc (outstanding o) first.frames rest.frames;
        carry =
            payloads-append first.frames rest.frames
            ∙ ap (λ xs. xs ++ payloads rest.frames) first.carry
            ∙ ap (λ xs. chunk max_size f.payload i ++ xs) rest.carry;
      }

  -- What numbering leaves alone.
  record Numbered (f g : Frame) (o q : Outbound) : Type 0 where
    tracks : Tracks q
    same : outstanding q ≡ outstanding o
    carries : g.payload ≡ f.payload
    mtu_kept : q.mtu ≡ o.mtu

  number_frame-Numbered :
      (f : Frame) (o : Outbound) → Tracks o → Numbered f (number_frame f o).0 o (number_frame f o).1
  unfolding number_frame
  number_frame-Numbered f o t =
      if_cases {A = Frame × Outbound} (λ x. Numbered f x.0 o x.1) (is_sequenced f)
        (plain refl refl refl refl refl refl refl)
        (if_cases {A = Frame × Outbound} (λ x. Numbered f x.0 o x.1) (is_ordered f)
          (plain refl refl refl refl refl refl refl) (plain refl refl refl refl refl refl refl))
    where
      plain :
          {g : Frame} {q : Outbound}
          → q.can_send ≡ o.can_send
          → q.output_backup ≡ o.output_backup
          → q.output_backup_timestamps ≡ o.output_backup_timestamps
          → q.output_sequence ≡ o.output_sequence
          → q.output_frames ≡ o.output_frames
          → g.payload ≡ f.payload
          → q.mtu ≡ o.mtu
          → Numbered f g o q
      plain {g} {q} a b c d e p m = record {
        tracks = record {
          can = a ∙ t.can;
          same_keys = λ k. rw (b, c) (t.same_keys k);
          used = λ k h. rw b (t.used k (rw d at h));
        };
        same = rw (b, e) refl;
        carries = p;
        mtu_kept = m;
      }

  Adds-resp :
      (o o' q : Outbound) (xs ys : List ℕ)
      → outstanding o' ≡ outstanding o
      → xs ≡ ys
      → Adds o' q xs
      → Adds o q ys
  Adds-resp o o' q xs ys e p a = record {
    tracks = a.tracks;
    frames = a.frames;
    added = a.added ∙ ap (λ zs. zs ++ a.frames) e;
    carry = a.carry ∙ p;
  }

  send_split-Adds :
      (now : ℕ) (f : Frame) (priority : Priority) (o : Outbound)
      → mtu_header_size < o.mtu
      → Tracks o
      → (q : Outbound) × (send_split io now f priority o ≡ some q) × Adds o q f.payload
  unfolding send_split
  send_split-Adds now f priority o h t =
      let k = o.mtu - mtu_header_size in
      let size = ceil_div (length f.payload) k in
      let known : split_size_of o.mtu (length f.payload) ≡ some size = ground arith in
      let o' : Outbound = record o { output_split_index = o.output_split_index + 1 } in
      let looped =
        split_loop-Adds now size f k (o.output_split_index % 2 ^ 16) size priority 0 o'
          (record { can = t.can; same_keys = t.same_keys; used = t.used }) in
      (
        _,
        rw (known, send_split) refl,
        Adds-resp o o' _ _ _ refl (concat-chunk k f.payload (omega arith)) looped,
      )

  -- Above the header size `sendFrame` always ends, and the frames that it adds to the outstanding
  -- ones carry the payload between them, in order.
  pub send_frame-Adds :
      (now : ℕ) (f : Frame) (priority : Priority) (o : Outbound)
      → mtu_header_size < o.mtu
      → Tracks o
      → (q : Outbound) × (send_frame io now f priority o ≡ some q)
        × Tracks q
        × ((frames : List Frame) × (outstanding q ≡ outstanding o ++ frames)
            × (payloads frames ≡ f.payload))
  unfolding send_frame
  send_frame-Adds now f priority o h t =
      let g = (number_frame f o).0 in
      let o' = (number_frame f o).1 in
      let v = number_frame-Numbered f o t in
      let whole = queue_numbered-Adds now g priority o' v.tracks in
      let (q, run, a) =
        if_cases (λ r. (q : Outbound) × (r ≡ some q) × Adds o' q g.payload)
          (exceeds o'.mtu (length f.payload))
          (send_split-Adds now g priority o' (omega (arith, v.mtu_kept)) v.tracks)
          (_, refl, whole) in
      let back = Adds-resp o o' q _ _ v.same v.carries a in
      (q, run, back.tracks, (back.frames, back.added, back.carry))

  -- Below the header size nothing is sent and nothing is queued.
  pub frame_and_send_drops :
      (now : ℕ) (bytes : List ℕ) (priority : Priority) (o : Outbound)
      → o.mtu < mtu_header_size
      → (q : Outbound) × (frame_and_send io now bytes priority o ≡ some q)
        × (q.sent ≡ o.sent)
        × (outstanding q ≡ outstanding o)
  unfolding frame_and_send send_frame number_frame send_split split_loop
  frame_and_send_drops now bytes priority o h = (
    record o {
      output_order_index = insert 0 (index_at 0 o.output_order_index + 1) o.output_order_index;
      output_sequence_index = insert 0 0 o.output_sequence_index;
      output_split_index = o.output_split_index + 1;
    },
    ground arith,
    refl,
    refl,
  )
