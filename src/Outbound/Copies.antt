-- ===== src/Outbound/Copies.antt =====
-- What a sender of packages/raknet/src/shared/network-session.ts sends in answer to
-- acknowledgements and to its timer: `onAck`, `onNack` and the retransmission of `tick`.
use baltica.Base.{
  ℕ, true, ◌+◌, ◌-◌, ◌≤◌, ◌≡◌, refl, sym, ap, ◌∙◌, Option, none, some, List, [], ◌∷◌, ◌++◌,
  append-nil, append_assoc, inl, inr, arith,
}
use baltica.Base.Tests.{leb, if_cases, option_cases}
use baltica.Base.Lists.{length, All, All-append}
use baltica.Base.Maps.{Map, lookup}
use baltica.Stream.{BinaryStream}
use baltica.Frame.{Frame}
use baltica.FrameSet
use baltica.Outbound.{
  Outbound, on_ack, on_nack, retransmit, retransmit_loop, flush, sooner, mtu_header_size,
}
use baltica.Outbound.Retransmission.{on_ack-forgets, on_nack_sent, resent}
use baltica.Outbound.Messages.{Start, IsReady, flush_empty}
use baltica.Outbound.Datagrams.{
  IsOneOf, send_messages, datagrams, send_messages-datagrams, length-datagrams,
}

-- What the sender reacts to: the sequences of an acknowledgement or of a negative one, and its
-- timer.
pub data Feedback : Type 0 where
  acked : List ℕ → Feedback
  nacked : List ℕ → Feedback
  timer : ℕ → Feedback

module _ (io : BinaryStream) where
  abbrev react : Feedback → Outbound → Outbound
  react (acked seqs) o = on_ack seqs o
  react (nacked seqs) o = on_nack io seqs o
  react (timer now) o = retransmit io now o

  unfoldable pub react_all : List Feedback → Outbound → Outbound
  react_all [] o = o
  react_all (f ∷ fs) o = react_all fs (react f o)

  -- Nothing is queued, what has been sent after `base` is of `P`, and so is all that is kept.
  record Copies {κ} (P : List ℕ → Type κ) (base : List (List ℕ)) (o : Outbound) : Type κ where
    empty : o.output_frames ≡ []
    backed :
        (k : ℕ) (fs : List Frame)
        → lookup k o.output_backup ≡ some fs
        → P (FrameSet.serialize io (record { sequence = k; frames = fs }))
    more : List (List ℕ)
    appended : o.sent ≡ base ++ more
    copied : All P more

  module _ {κ} (P : List ℕ → Type κ) (base : List (List ℕ)) where
    on_ack-Copies : (seqs : List ℕ) (o : Outbound) → Copies P base o → Copies P base (on_ack seqs o)
    on_ack-Copies seqs o c = record {
      empty = (on_ack-forgets 0 seqs o).2 ∙ c.empty;
      backed = λ k fs e. c.backed k fs (ground (arith, on_ack-forgets k seqs o));
      more = c.more;
      appended = (on_ack-forgets 0 seqs o).3 ∙ c.appended;
      copied = c.copied;
    }

    resent-All :
        (backup : Map (List Frame)) (seqs : List ℕ)
        → ((k : ℕ) (fs : List Frame)
            → lookup k backup ≡ some fs
            → P (FrameSet.serialize io (record { sequence = k; frames = fs })))
        → All P (resent io backup seqs)
    unfolding resent
    resent-All backup [] h = tt
    resent-All backup (s ∷ seqs) h =
        option_cases (All P) (lookup s backup) _ _ (resent-All backup seqs h)
          λ fs e. (h s fs e, resent-All backup seqs h)

    -- A sender that differs only in what it has sent.
    append-Copies :
        (o q : Outbound) (new : List (List ℕ))
        → Copies P base o
        → All P new
        → q.output_frames ≡ o.output_frames
        → q.output_backup ≡ o.output_backup
        → q.sent ≡ o.sent ++ new
        → Copies P base q
    append-Copies o q new c h f b s = record {
      empty = f ∙ c.empty;
      backed = λ k fs e. c.backed k fs (ap (lookup k) (sym b) ∙ e);
      more = c.more ++ new;
      appended = s ∙ ap (λ xs. xs ++ new) c.appended ∙ append_assoc base c.more new;
      copied = All-append P c.more new c.copied h;
    }

    on_nack-Copies :
        (seqs : List ℕ) (o : Outbound) → Copies P base o → Copies P base (on_nack io seqs o)
    on_nack-Copies seqs o c =
        append-Copies o _ (resent io o.output_backup seqs) c
          (resent-All o.output_backup seqs c.backed)
          (ap (λ q. q.output_frames) (on_nack_sent io seqs o))
          (ap (λ q. q.output_backup) (on_nack_sent io seqs o))
          (ap (λ q. q.sent) (on_nack_sent io seqs o))

    -- The loop appends to what is sent, and appends copies.
    retransmit_loop-All :
        (now interval : ℕ) (backup : Map (List Frame)) (m : Map ℕ) (next : Option ℕ)
        (sent : List (List ℕ))
        → ((k : ℕ) (fs : List Frame)
            → lookup k backup ≡ some fs
            → P (FrameSet.serialize io (record { sequence = k; frames = fs })))
        → (new : List (List ℕ)) × ((retransmit_loop io now interval backup m next sent).2
            ≡ sent ++ new)
          × All P new
    unfolding retransmit_loop
    retransmit_loop-All now interval backup [] next sent h = ([], sym (append-nil sent), tt)
    retransmit_loop-All now interval backup ((seq, at) ∷ m) next sent h =
        if_cases {A = Map ℕ × Option ℕ × List (List ℕ)}
          (λ x. (new : List (List ℕ)) × (x.2 ≡ sent ++ new) × All P new) (leb (at + interval) now)
          (option_cases {B = Map ℕ × Option ℕ × List (List ℕ)}
            (λ x. (new : List (List ℕ)) × (x.2 ≡ sent ++ new) × All P new) (lookup seq backup) _ _
            (retransmit_loop-All now interval backup m next sent h)
            λ fs e.
              let one = FrameSet.serialize io (record { sequence = seq; frames = fs }) in
              let (new, eq, all) =
                retransmit_loop-All now interval backup m (sooner next interval) (sent ++ one ∷ [])
                  h in
              (one ∷ new, eq ∙ append_assoc sent (one ∷ []) new, (h seq fs e, all)))
          (retransmit_loop-All now interval backup m (sooner next (at + interval - now)) sent h)

    retransmit-Copies :
        (now : ℕ) (o : Outbound) → Copies P base o → Copies P base (retransmit io now o)
    unfolding retransmit
    retransmit-Copies now o c =
        let looped =
          retransmit_loop io now o.retransmit_interval o.output_backup o.output_backup_timestamps
            none o.sent in
        let (new, eq, all) =
          retransmit_loop-All now o.retransmit_interval o.output_backup o.output_backup_timestamps
            none o.sent c.backed in
        let before : Outbound = record o { output_backup_timestamps = looped.0; sent = looped.2 } in
        let same = flush_empty io now before c.empty in
        let d = append-Copies o before new c all refl refl eq in
        option_cases (Copies P base) looped.1 _ _ (rw same d)
          λ delay e. timed (flush io now before) (rw same d)
      where
        timed :
            (q : Outbound) → Copies P base q → Copies P base (record q { retransmit_timer = true })
        timed q c = record {
          empty = c.empty;
          backed = c.backed;
          more = c.more;
          appended = c.appended;
          copied = c.copied;
        }

    react_all-Copies :
        (feedback : List Feedback) (o : Outbound)
        → Copies P base o
        → Copies P base (react_all feedback o)
    unfolding react_all
    react_all-Copies [] o c = c
    react_all-Copies (acked seqs ∷ fs) o c = react_all-Copies fs _ (on_ack-Copies seqs o c)
    react_all-Copies (nacked seqs ∷ fs) o c = react_all-Copies fs _ (on_nack-Copies seqs o c)
    react_all-Copies (timer now ∷ fs) o c = react_all-Copies fs _ (retransmit-Copies now o c)

  -- A sender with nothing outstanding sends `n` messages, each small enough for a datagram, which makes
  -- `n` datagrams. Whatever acknowledgements, negative ones and timeouts follow, each datagram that it
  -- sends from then on is a copy of one of these.
  pub send_messages-react_all :
      (times : ℕ → ℕ) (messages : ℕ → List ℕ) (n : ℕ) (b : Start) (o : Outbound)
      (feedback : List Feedback)
      → IsReady b o
      → ((k : ℕ) → lookup k o.output_backup ≡ none)
      → ((j : ℕ) → length (messages j) + mtu_header_size ≤ o.mtu)
      → (q : Outbound) × (sent : List (List ℕ)) × (more : List (List ℕ)) × (send_messages io times
            messages n o
          ≡ some q)
        × (q.sent ≡ o.sent ++ sent)
        × (length sent ≡ n)
        × ((react_all feedback q).sent ≡ q.sent ++ more)
        × All (IsOneOf sent) more
  send_messages-react_all times messages n b o feedback v none_kept small =
      let sent = datagrams io b messages n in
      let (q, run, ready, mtu, appended, keeps) =
        send_messages-datagrams io times messages n b o v small in
      let start : Copies (IsOneOf sent) q.sent q = record {
        empty = ready.empty;
        backed = λ k fs e. elim (keeps k fs e) [
          | inl old ↦ no_value (none_kept k) old
          | inr copy ↦ copy
        ];
        more = [];
        appended = sym (append-nil q.sent);
        copied = tt;
      } in
      let c = react_all-Copies (IsOneOf sent) q.sent feedback q start in
      (q, sent, c.more, run, appended, length-datagrams io b messages n, c.appended, c.copied)
    where
      no_value : {A : Type 0} {C : Type 0} {m : Option A} {a : A} → m ≡ none → m ≡ some a → C
      no_value e f = cc
