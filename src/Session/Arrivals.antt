-- ===== src/Session/Arrivals.antt =====
-- `receive` of packages/raknet/src/shared/network-session.ts on the datagrams of a stream of game
-- packets, one to a datagram, whichever of them come and in whatever order.
use baltica.Base.{
  ℕ, ◌+◌, ◌-◌, ◌≡◌, refl, sym, ap, ◌∙◌, subst, true, List, [], ◌∷◌, ◌++◌, append_assoc, inl, inr,
  arith,
}
use baltica.Base.Tests.{Bool-cases}
use baltica.Base.Sets.{has, has-add}
use baltica.Stream.{BinaryStream}
use baltica.Frame.{Frame}
use baltica.Ordering.{done, Ordering, handle_ordered}
use baltica.Ordering.Delivery.{Waits, handle_ordered-Waits}
use baltica.Ordering.Channel.{Waits-again}
use baltica.Ordering.Agreement.{handle_ordered-agrees}
use baltica.Outbound.Messages.{Start, after, message_frame, message_set}
use baltica.Window.Noting.{note_sequence_new, counted, note_reliable_new, note_reliable_old}
use baltica.Window.{noted}
use baltica.Session.{Session, Peer, encapsulated, game_packet_id, emit, handle_online_packet}
use baltica.Session.Duplicates.{has-note_sequence}
use baltica.Session.Handed.{handed, handed-append}
use baltica.Session.Receive.{on_frame_set, handle_frames, handle_frame, dispatch, route}

abbrev pub snoc : List ℕ → List (List ℕ) → List (List ℕ)
snoc bytes log = log ++ bytes ∷ []

abbrev pub IsGame : List ℕ → Type 0
IsGame bytes = (rest : List ℕ) × (bytes ≡ game_packet_id ∷ rest)

-- The packets by their order index, when `first` is the index of the first one.
abbrev pub stream : ℕ → (ℕ → List ℕ) → ℕ → List ℕ
stream first messages i = messages (i - first)

handle_online_packet-game :
    (io : BinaryStream) (now : ℕ) (bytes : List ℕ) (p : Peer)
    → IsGame bytes
    → handle_online_packet io now bytes p ≡ done (emit (encapsulated bytes) p)
unfolding handle_online_packet
handle_online_packet-game io now bytes p (rest, e) = rw (e, handle_online_packet) refl

done_injective {ℓ} : {A : Type ℓ} {a c : A} → done a ≡ done c → a ≡ c
done_injective e = cc

module _ (io : BinaryStream) (b : Start) (messages : ℕ → List ℕ) (prior : List (List ℕ))
    (games : (j : ℕ) → IsGame (messages j)) where
  -- The packets before the first one of the stream, and those of the stream that are handed on.
  abbrev pub log : Peer → List (List ℕ)
  log p = prior ++ handed p.events

  -- A session that has had the frames with the order indices `arrived`. What it remembers of
  -- frame sets and of reliable frames are some of those.
  pub record Link (arrived : List ℕ) (next : ℕ) (s : Session) : Type 0 where
    pub waits : Waits snoc (stream b.order messages) [] 0 arrived next s.ordering (log s.peer)
    pub sequences :
        (i : ℕ)
        → has (b.sequence + i) s.window.received_frame_sequences ≡ true
        → has (b.order + i) arrived ≡ true
    pub reliables :
        (i : ℕ)
        → has (b.reliable + i) s.window.received_reliable_frame_indices ≡ true
        → has (b.order + i) arrived ≡ true

  handle_stream :
      (now j : ℕ) (p : Peer)
      → let bytes = stream b.order messages j in
        (q : Peer) × (handle_online_packet io now bytes p ≡ done q) × (log q ≡ snoc bytes (log p))
  handle_stream now j p =
      let bytes = stream b.order messages j in
      let one : handed (encapsulated bytes ∷ []) ≡ bytes ∷ [] = unfold handed in refl in
      (
        emit (encapsulated bytes) p,
        handle_online_packet-game io now bytes p (games (j - b.order)),
        ap (◌++◌ prior) (handed-append p.events (encapsulated bytes ∷ []))
            ∙ ap (λ xs. prior ++ (handed p.events ++ xs)) one
            ∙ sym (append_assoc prior (handed p.events) (bytes ∷ [])),
      )

  abbrev nth_frame : ℕ → Frame
  nth_frame i = message_frame (after i b) (messages i)

  nth_payload : (i : ℕ) → (nth_frame i).payload ≡ stream b.order messages (b.order + i)
  nth_payload i = ap messages (omega arith)

  handle_ordered-Link :
      (now i next : ℕ) (arrived : List ℕ) (o : Ordering) (p : Peer)
      → Waits snoc (stream b.order messages) [] 0 arrived next o (log p)
      → (next' : ℕ) × (o' : Ordering) × (p' : Peer) × (handle_ordered
            (handle_online_packet io now)
            (nth_frame i)
            o
            p
          ≡ done (o', p'))
        × Waits snoc (stream b.order messages) [] 0 ((b.order + i) ∷ arrived) next' o' (log p')
  handle_ordered-Link now i next arrived o p w =
      let f = nth_frame i in
      let p' = stream b.order messages in
      let (o1, q1, run, seen) =
        handle_ordered-agrees (handle_online_packet io now) snoc log p' (handle_stream now) f o p
          (nth_payload i) w.holds in
      let (n2, o2, r2, run2, w2) =
        handle_ordered-Waits snoc p' [] next arrived f o (log p) w (nth_payload i) in
      let same : done (o2, r2) ≡ done (o1, log q1) = sym run2 ∙ seen in
      (
        n2,
        o1,
        q1,
        run,
        subst (λ x. Waits snoc p' [] 0 ((b.order + i) ∷ arrived) n2 x.0 x.1) (done_injective same)
            w2,
      )

  -- After the frame `i`; its frame set is noted already.
  record Framed (i : ℕ) (arrived : List ℕ) (next : ℕ) (s t : Session) : Type 0 where
    waits :
        Waits snoc
          (stream b.order messages)
          []
          0
          ((b.order + i) ∷ arrived)
          next
          t.ordering
          (log t.peer)
    same_sequences : t.window.received_frame_sequences ≡ s.window.received_frame_sequences
    reliables :
        (k : ℕ)
        → has (b.reliable + k) t.window.received_reliable_frame_indices ≡ true
        → has (b.order + k) ((b.order + i) ∷ arrived) ≡ true

  handle_frame-Framed :
      (now i next : ℕ) (arrived : List ℕ) (s : Session)
      → Waits snoc (stream b.order messages) [] 0 arrived next s.ordering (log s.peer)
      → ((k : ℕ)
          → has (b.reliable + k) s.window.received_reliable_frame_indices ≡ true
          → has (b.order + k) arrived ≡ true)
      → (next' : ℕ) × (t : Session) × (handle_frame io now (nth_frame i) s ≡ done t)
        × Framed i arrived next' s t
  unfolding handle_frame dispatch route has
  handle_frame-Framed now i next arrived s w h =
      elim (Bool-cases (has (b.reliable + i) s.window.received_reliable_frame_indices)) [
        | inl e ↦ (
          next,
          s,
          rw (note_reliable_old (b.reliable + i) s.window e, handle_frame) refl,
          record {
            waits = Waits-again _ _ _ 0 (b.order + i) next arrived s.ordering _ (h i e) w;
            same_sequences = refl;
            reliables = λ k x. ground (arith, h k x);
          },
        )
        | inr e ↦
            let (n', o', p', run, w') =
              handle_ordered-Link now i next arrived s.ordering s.peer w in
            (
              n',
              record s { window = counted (b.reliable + i) s.window; ordering = o'; peer = p' },
              rw (note_reliable_new (b.reliable + i) s.window e, handle_frame, dispatch, route, run)
                  refl,
              record {
                waits = w';
                same_sequences = refl;
                reliables = λ k x. ground (
                  arith,
                  h k,
                  has-add (b.reliable + i) (b.reliable + k)
                      s.window.received_reliable_frame_indices,
                );
              },
            )
      ]

  -- The frame set of message `i`, whether or not it has come before.
  pub on_frame_set-Link :
      (now i next : ℕ) (arrived : List ℕ) (s : Session)
      → Link arrived next s
      → (next' : ℕ) × (t : Session) × (on_frame_set io now (message_set (after i b) (messages i)) s
          ≡ done t)
        × Link ((b.order + i) ∷ arrived) next' t
  unfolding on_frame_set handle_frames has
  on_frame_set-Link now i next arrived s l =
      let seq = b.sequence + i in
      elim (Bool-cases (has seq s.window.received_frame_sequences)) [
        | inl e ↦ (
          next,
          s,
          rw (has-note_sequence seq s.window e, on_frame_set) refl,
          record {
            waits =
                Waits-again _ _ _ 0 (b.order + i) next arrived s.ordering _ (l.sequences i e)
                  l.waits;
            sequences = λ k x. ground (arith, l.sequences k x);
            reliables = λ k x. ground (arith, l.reliables k x);
          },
        )
        | inr e ↦
            let (w, noted, seqs, rels) = note_sequence_new seq s.window e in
            let (n', t, run, fr) =
              handle_frame-Framed now i next arrived (record s { window = w }) l.waits
                (λ k x. l.reliables k (subst (λ xs. has (b.reliable + k) xs ≡ true) rels x)) in
            (
              n',
              record t { ack_timer = true },
              rw (noted, on_frame_set, handle_frames, run) refl,
              record {
                waits = fr.waits;
                sequences = λ k x.
                    let known =
                      subst (λ xs. has (b.sequence + k) xs ≡ true) (fr.same_sequences ∙ seqs) x in
                    ground (
                      arith,
                      l.sequences k,
                      has-add seq (b.sequence + k) s.window.received_frame_sequences,
                    );
                reliables = fr.reliables;
              },
            )
      ]
