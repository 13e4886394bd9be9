-- ===== src/Outbound/Datagrams.antt =====
-- The datagrams of one message after the other that `frameAndSend` of
-- packages/raknet/src/shared/network-session.ts sends, and what is kept of them for a resend.
use baltica.Base.{
  subst, ℕ, zero, suc, ◌+◌, ◌≤◌, ◌<◌, ◌≡◌, ◌⊎◌, refl, sym, ap, ◌∙◌, Option, none, some, List, [],
  ◌∷◌, ◌++◌, append-nil, append_assoc, arith, inl, inr,
}
use baltica.Base.Lists.{
  length, length-append, get_elem?, get_elem?-append_left, get_elem?-append_last,
  get_elem?-append_some,
}
use baltica.Base.Maps.{lookup, lookup-insert}
use baltica.Base.Tests.{◌==◌, Bool-cases, ==→eq}
use baltica.Stream.{BinaryStream}
use baltica.Frame.{Frame}
use baltica.FrameSet
use baltica.FrameSet.{FrameSet}
use baltica.Outbound.{Outbound, Priority, frame_and_send, mtu_header_size}
use baltica.Outbound.Messages.{
  Start, after, message_frame, IsReady, IsReady-resp, datagram, Sends, frame_and_send-Sends,
}

abbrev pub IsOneOf : List (List ℕ) → List ℕ → Type 0
IsOneOf sent bytes = (i : ℕ) × (get_elem? sent i ≡ some bytes)

module _ (io : BinaryStream) where
  -- `frameAndSend(messages[j], Priority.High)` for the first `n` messages, each at its time; none is
  -- a call that never ends.
  unfoldable pub send_messages : (ℕ → ℕ) → (ℕ → List ℕ) → ℕ → Outbound → Option Outbound
  send_messages times messages zero o = some o
  send_messages times messages (suc n) o = elim (send_messages times messages n o) [
    | none ↦ none
    | some o ↦ frame_and_send io (times n) (messages n) Priority.high o
  ]

  -- The datagrams of the first `n` messages.
  unfoldable pub datagrams : Start → (ℕ → List ℕ) → ℕ → List (List ℕ)
  datagrams b messages zero = []
  datagrams b messages (suc n) = datagrams b messages n ++ datagram io (after n b) (messages n) ∷ []

  -- The frame sets that `q` keeps for a resend are those of `o` and some of `sent`.
  abbrev pub Keeps : Outbound → List (List ℕ) → Outbound → Type 0
  Keeps o sent q =
      (k : ℕ) (fs : List Frame)
      → lookup k q.output_backup ≡ some fs
      → (lookup k o.output_backup ≡ some fs)
        ⊎ IsOneOf sent (FrameSet.serialize io (record { sequence = k; frames = fs }))

  Keeps-Sends :
      (b : Start) (bytes : List ℕ) (sent : List (List ℕ)) (o q q' : Outbound)
      → Keeps o sent q
      → Sends io b bytes q q'
      → Keeps o (sent ++ datagram io b bytes ∷ []) q'
  Keeps-Sends b bytes sent o q q' v s k fs e =
      let frames = message_frame b bytes ∷ [] in
      let found = ap (lookup k) (sym s.kept) ∙ e in
      elim (Bool-cases (b.sequence == k)) [
        | inl same ↦
            let these : frames ≡ fs =
              ground (arith, lookup-insert b.sequence k frames q.output_backup) in
            inr (
              length sent,
              rw (sym these, sym (==→eq b.sequence k same)) (get_elem?-append_last sent _),
            )
        | inr other ↦
            let there : lookup k q.output_backup ≡ some fs =
              ground (arith, lookup-insert b.sequence k frames q.output_backup) in
            elim (v k fs there) [
              | inl old ↦ inl old
              | inr (i, at) ↦ inr (i, get_elem?-append_some sent _ i _ at)
            ]
      ]

  -- Each message goes out at once, in a datagram of its own, under the next numbers.
  pub send_messages-datagrams :
      (times : ℕ → ℕ) (messages : ℕ → List ℕ) (n : ℕ) (b : Start) (o : Outbound)
      → IsReady b o
      → ((j : ℕ) → length (messages j) + mtu_header_size ≤ o.mtu)
      → (q : Outbound) × (send_messages times messages n o ≡ some q)
        × IsReady (after n b) q
        × (q.mtu ≡ o.mtu)
        × (q.sent ≡ o.sent ++ datagrams b messages n)
        × Keeps o (datagrams b messages n) q
  unfolding send_messages datagrams
  send_messages-datagrams times messages zero b o v h = (
    o,
    refl,
    IsReady-resp b (after 0 b) o v (omega arith) (omega arith) (omega arith),
    refl,
    sym (append-nil o.sent),
    λ k fs e. inl e,
  )
  send_messages-datagrams times messages (suc n) b o v h =
      let (q, run, ready, mtu, sent, keeps) = send_messages-datagrams times messages n b o v h in
      let (q', run', s) =
        frame_and_send-Sends io (times n) (messages n) (after n b) q ready
          (omega (arith, h n, mtu)) in
      (
        q',
        rw (run, send_messages) run',
        IsReady-resp (after 1 (after n b)) (after (suc n) b) q' s.ready (omega arith) (omega arith)
            (omega arith),
        s.same_mtu ∙ mtu,
        s.appended ∙ rw sent (append_assoc o.sent (datagrams b messages n) _),
        Keeps-Sends (after n b) (messages n) (datagrams b messages n) o q q' keeps s,
      )

  pub length-datagrams :
      (b : Start) (messages : ℕ → List ℕ) (n : ℕ) → length (datagrams b messages n) ≡ n
  unfolding datagrams
  length-datagrams b messages zero = refl
  length-datagrams b messages (suc n) =
      length-append (datagrams b messages n) _ ∙ omega (arith, length-datagrams b messages n)

  pub get_elem?-datagrams :
      (b : Start) (messages : ℕ → List ℕ) (n i : ℕ)
      → i < n
      → get_elem? (datagrams b messages n) i ≡ some (datagram io (after i b) (messages i))
  unfolding datagrams
  get_elem?-datagrams b messages zero i h = absurd (omega arith)
  get_elem?-datagrams b messages (suc n) i h =
      let sent = datagrams b messages n in
      let known = length-datagrams b messages n in
      elim (Bool-cases (i == n)) [
        | inl e ↦
            let last =
              subst
                (λ k.
                  get_elem? (datagrams b messages (suc n)) k
                  ≡ some (datagram io (after n b) (messages n)))
                known (get_elem?-append_last sent _) in
            subst
              (λ k.
                get_elem? (datagrams b messages (suc n)) k
                ≡ some (datagram io (after k b) (messages k)))
              (sym (==→eq i n e)) last
        | inr e ↦
            get_elem?-append_left sent _ i (ground (arith, known))
            ∙ get_elem?-datagrams b messages n i (ground arith)
      ]
