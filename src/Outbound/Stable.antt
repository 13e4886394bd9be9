-- ===== src/Outbound/Stable.antt =====
-- The backup and the MTU under all the operations of the sending half of
-- packages/raknet/src/shared/network-session.ts, at every MTU.
use baltica.Base.{
  ℕ, zero, suc, ◌+◌, ◌-◌, ◌≡◌, refl, subst, sym, ◌∙◌, true, Option, none, some, List, [], ◌∷◌, ◌++◌,
  arith,
}
use baltica.Base.Tests.{◌==◌, if_cases, option_cases}
use baltica.Base.Lists.{length}
use baltica.Base.Maps.{Map, lookup, has_key}
use baltica.Stream.{BinaryStream}
use baltica.Frame.{Frame, is_reliable, is_sequenced, is_ordered}
use baltica.Outbound.{
  Outbound, Priority, flush, make_room, queue_frame, add_frame, overflows, is_high, number_frame,
  number_reliable, fragment_of, split_loop, send_split, send_frame, frame_and_send, split_size_of,
  exceeds, mtu_header_size, on_ack, on_nack, after_retransmit, retransmit, forget_all,
}
use baltica.Outbound.Retransmission.{
  on_ack-Tracks, on_nack_sent, restamp, resent, due, Backed, retransmit_loop-due,
}
use baltica.Outbound.Backup.{Tracks, flush_cases, flush-Tracks}

-- The backup is sound, and the MTU is `mtu`.
pub record Kept (mtu : ℕ) (o : Outbound) : Type 0 where
  pub tracks : Tracks o
  pub mtu_is : o.mtu ≡ mtu

module _ (io : BinaryStream) (mtu : ℕ) where
  flush-Kept : (now : ℕ) (o : Outbound) → Kept mtu o → Kept mtu (flush io now o)
  flush-Kept now o v = record {
    tracks = flush-Tracks io now o v.tracks;
    mtu_is = flush_cases io (λ q. q.mtu ≡ mtu) now o v.tracks.can (λ e. v.mtu_is) v.mtu_is;
  }

  add_frame-Kept : (f : Frame) (o : Outbound) → Kept mtu o → Kept mtu (add_frame f o)
  unfolding add_frame
  add_frame-Kept f o v = record {
    tracks = record { can = v.tracks.can; same_keys = v.tracks.same_keys; used = v.tracks.used };
    mtu_is = v.mtu_is;
  }

  queue_frame-Kept :
      (now : ℕ) (f : Frame) (priority : Priority) (o : Outbound)
      → Kept mtu o
      → Kept mtu (queue_frame io now f priority o)
  unfolding queue_frame make_room
  queue_frame-Kept now f priority o v =
      let room = if_cases (Kept mtu) (overflows f o) (flush-Kept now o v) v in
      let added = add_frame-Kept f _ room in
      if_cases (Kept mtu) (is_high priority) (flush-Kept now _ added) added

  number_reliable-Kept : (f : Frame) (o : Outbound) → Kept mtu o → Kept mtu (number_reliable f o).1
  unfolding number_reliable
  number_reliable-Kept f o v =
      if_cases {A = Frame × Outbound} (λ x. Kept mtu x.1) (is_reliable f)
        (record {
          tracks = record {
            can = v.tracks.can;
            same_keys = v.tracks.same_keys;
            used = v.tracks.used;
          };
          mtu_is = v.mtu_is;
        })
        v

  number_frame-Kept : (f : Frame) (o : Outbound) → Kept mtu o → Kept mtu (number_frame f o).1
  unfolding number_frame
  number_frame-Kept f o v =
      if_cases {A = Frame × Outbound} (λ x. Kept mtu x.1) (is_sequenced f)
        (record {
          tracks = record {
            can = v.tracks.can;
            same_keys = v.tracks.same_keys;
            used = v.tracks.used;
          };
          mtu_is = v.mtu_is;
        })
        (if_cases {A = Frame × Outbound} (λ x. Kept mtu x.1) (is_ordered f)
          (record {
            tracks = record {
              can = v.tracks.can;
              same_keys = v.tracks.same_keys;
              used = v.tracks.used;
            };
            mtu_is = v.mtu_is;
          })
          v)

  split_loop-Kept :
      (now n : ℕ) (f : Frame) (k id size : ℕ) (priority : Priority) (i : ℕ) (o : Outbound)
      → Kept mtu o
      → Kept mtu (split_loop io now n f k id size priority i o)
  unfolding split_loop
  split_loop-Kept now zero f k id size priority i o v = v
  split_loop-Kept now (suc n) f k id size priority i o v =
      split_loop-Kept now n f k id size priority (i + 1) _
        (queue_frame-Kept now _ priority _ (number_reliable-Kept (fragment_of f k id size i) o v))

  -- What holds if there is a result.
  abbrev pub IfSome : Option Outbound → Type 0
  IfSome none = Unit {0}
  IfSome (some q) = Kept mtu q

  send_split-Kept :
      (now : ℕ) (f : Frame) (priority : Priority) (o : Outbound)
      → Kept mtu o
      → IfSome (send_split io now f priority o)
  unfolding send_split
  send_split-Kept now f priority o v =
      option_cases IfSome (split_size_of o.mtu (length f.payload)) _ _ tt λ size e.
        split_loop-Kept now size f (o.mtu - mtu_header_size) _ size priority 0 _ (record {
          tracks = record {
            can = v.tracks.can;
            same_keys = v.tracks.same_keys;
            used = v.tracks.used;
          };
          mtu_is = v.mtu_is;
        })

  send_frame-Kept :
      (now : ℕ) (f : Frame) (priority : Priority) (o : Outbound)
      → Kept mtu o
      → IfSome (send_frame io now f priority o)
  unfolding send_frame
  send_frame-Kept now f priority o v =
      let g = (number_frame f o).0 in
      let o' = (number_frame f o).1 in
      let numbered = number_frame-Kept f o v in
      if_cases IfSome (exceeds o'.mtu (length f.payload))
        (send_split-Kept now g priority o' numbered)
        (queue_frame-Kept now _ priority _ (number_reliable-Kept g o' numbered))

  pub frame_and_send-Kept :
      (now : ℕ) (bytes : List ℕ) (priority : Priority) (o : Outbound)
      → Kept mtu o
      → IfSome (frame_and_send io now bytes priority o)
  unfolding frame_and_send
  frame_and_send-Kept now bytes priority o v = send_frame-Kept now _ priority o v

forget_all-mtu : (seqs : List ℕ) (o : Outbound) → (forget_all seqs o).mtu ≡ o.mtu
unfolding forget_all
forget_all-mtu [] o = refl
forget_all-mtu (s ∷ seqs) o = forget_all-mtu seqs _

pub on_ack-Kept : (mtu : ℕ) (seqs : List ℕ) (o : Outbound) → Kept mtu o → Kept mtu (on_ack seqs o)
unfolding on_ack
on_ack-Kept mtu seqs o v = record {
  tracks = on_ack-Tracks seqs o v.tracks;
  mtu_is = on_ack-mtu ∙ v.mtu_is;
}
  where
    on_ack-mtu : (on_ack seqs o).mtu ≡ o.mtu
    on_ack-mtu =
        if_cases {A = Outbound} (λ q. q.mtu ≡ o.mtu)
          (length (forget_all seqs o).output_backup_timestamps == 0) (forget_all-mtu seqs o)
          (forget_all-mtu seqs o)

module _ (io : BinaryStream) (mtu : ℕ) where
  sent-Kept :
      (o : Outbound) (sent : List (List ℕ)) → Kept mtu o → Kept mtu (record o { sent = sent })
  sent-Kept o sent v = record {
    tracks = record { can = v.tracks.can; same_keys = v.tracks.same_keys; used = v.tracks.used };
    mtu_is = v.mtu_is;
  }

  pub on_nack-Kept : (seqs : List ℕ) (o : Outbound) → Kept mtu o → Kept mtu (on_nack io seqs o)
  on_nack-Kept seqs o v = rw (on_nack_sent io seqs o) (sent-Kept o _ v)

  has_key-restamp :
      (now interval k : ℕ) (m : Map ℕ) → has_key k (restamp io now interval m) ≡ has_key k m
  unfolding restamp lookup
  has_key-restamp now interval k [] = refl
  has_key-restamp now interval k ((seq, at) ∷ m) = ground (arith, has_key-restamp now interval k m)

  backed :
      (backup : Map (List Frame)) (m : Map ℕ)
      → ((k : ℕ) → has_key k m ≡ true → has_key k backup ≡ true)
      → Backed io backup m
  unfolding lookup
  backed backup [] h = tt
  backed backup ((seq, at) ∷ m) h =
      (h seq (ground arith), backed backup m (λ k e. h k (ground arith)))

  pub retransmit-Kept : (now : ℕ) (o : Outbound) → Kept mtu o → Kept mtu (retransmit io now o)
  unfolding retransmit
  retransmit-Kept now o v =
      let (next, run) =
        retransmit_loop-due io now o.retransmit_interval o.output_backup o.output_backup_timestamps
          none o.sent
          (backed o.output_backup o.output_backup_timestamps
            (λ k e. sym (v.tracks.same_keys k) ∙ e)) in
      subst (λ x. Kept mtu (after_retransmit io now o x)) (sym run) (ended next)
    where
      stamped : Outbound
      stamped = record o {
        output_backup_timestamps = restamp io now o.retransmit_interval o.output_backup_timestamps;
        sent =
            o.sent
            ++ resent io o.output_backup
                (due io now o.retransmit_interval o.output_backup_timestamps);
      }

      flushed-Kept : Kept mtu (flush io now stamped)
      flushed-Kept = flush-Kept io mtu now stamped (record {
        tracks = record {
          can = v.tracks.can;
          same_keys = λ k.
              has_key-restamp now o.retransmit_interval k o.output_backup_timestamps
              ∙ v.tracks.same_keys k;
          used = v.tracks.used;
        };
        mtu_is = v.mtu_is;
      })

      ended :
          (next : Option ℕ)
          → Kept mtu
              (after_retransmit io now o (stamped.output_backup_timestamps, next, stamped.sent))
      ended none = flushed-Kept
      ended (some delay) = record {
        tracks = record {
          can = flushed-Kept.tracks.can;
          same_keys = flushed-Kept.tracks.same_keys;
          used = flushed-Kept.tracks.used;
        };
        mtu_is = flushed-Kept.mtu_is;
      }
