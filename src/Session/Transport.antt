-- ===== src/Session/Transport.antt =====
-- `frameAndSend` at one end and `receive` at the other, of
-- packages/raknet/src/shared/network-session.ts, over a network that loses, repeats and reorders.
use baltica.Base.{
  ℕ, zero, suc, ◌+◌, ◌-◌, ◌≤◌, ◌<◌, ◌≡◌, refl, sym, ap, ◌∙◌, true, false, some, List, [], ◌∷◌, ◌++◌,
  append-nil, append_assoc, subst, arith,
}
use baltica.Base.Lists.{length, All, drop, drop-append}
use baltica.Base.Ranges.{below, has-below, has-shift, in_range}
use baltica.Base.Sets.{has, onto, has-onto}
use baltica.Base.Maps.{lookup, has_key}
use baltica.Ordering.Channel.{no_entry}
use baltica.Stream.{BinaryStream, Laws}
use baltica.Frame.{Frame}
use baltica.Ordering.{done}
use baltica.Ordering.Delivery.{deliver}
use baltica.Outbound.{Outbound, mtu_header_size}
use baltica.Outbound.Messages.{Start, IsReady}
use baltica.Outbound.Datagrams.{send_messages, datagrams, send_messages-datagrams, length-datagrams}
use baltica.Session.{Session}
use baltica.Session.Handed.{handed}
use baltica.Session.Arrivals.{snoc, IsGame, stream, Link}
use baltica.Session.Network.{Step, arrivals, run, Awaits, Fits, order_indices, run-Link}

-- The packets from the index `first` on, after those before it.
deliver-stream :
    (first m : ℕ) (messages : ℕ → List ℕ)
    → deliver snoc (stream first messages) (first + m) []
      ≡ deliver snoc (stream first messages) first [] ++ deliver snoc messages m []
unfolding deliver
deliver-stream first zero messages =
    let same : first + 0 ≡ first = omega arith in
    ap (λ k. deliver snoc (stream first messages) k []) same ∙ sym (append-nil _)
deliver-stream first (suc m) messages =
    let all = deliver snoc (stream first messages) in
    let next : first + suc m ≡ suc (first + m) = omega arith in
    let back : first + m - first ≡ m = omega arith in
    ap (λ k. all k []) next
    ∙ ap (λ xs. xs ++ messages (first + m - first) ∷ []) (deliver-stream first m messages)
    ∙ ap (λ k. (all first [] ++ deliver snoc messages m []) ++ messages k ∷ []) back
    ∙ append_assoc (all first []) (deliver snoc messages m []) (messages m ∷ [])

no_key : (j n : ℕ) → n ≤ j → has_key {V = Frame} j [] ≡ has j (below n)
unfolding lookup
no_key j n h = ground (arith, has-below j n)

module _ (io : BinaryStream) (b : Start) (messages : ℕ → List ℕ)
    (games : (j : ℕ) → IsGame (messages j)) where
  abbrev prior : List (List ℕ)
  prior = deliver snoc (stream b.order messages) b.order []

  Awaits-Link :
      (s : Session) → Awaits b s → Link io b messages prior games (below b.order) b.order s
  unfolding has
  Awaits-Link s v = record {
    waits = record {
      index = v.next_order;
      handled = rw (v.nothing, append-nil) refl;
      below = λ j h. has-below j b.order ∙ ground arith;
      missing = has-below b.order b.order ∙ ground arith;
      holds = λ j f e. absurd (no_entry j f (rw v.empty_queue at e));
      queued = λ j h. rw v.empty_queue (no_key j b.order h);
    };
    sequences = λ i h. ground (arith, v.new_sequences i);
    reliables = λ i h. ground (arith, v.new_reliables i);
  }

  -- The packets of a session that waits for the one at `b.order + m`.
  handed-deliver :
      (m : ℕ) (arrived : List ℕ) (s : Session)
      → Link io b messages prior games arrived (b.order + m) s
      → handed s.peer.events ≡ deliver snoc messages m []
  handed-deliver m arrived s l =
      sym (drop-append prior (handed s.peer.events))
      ∙ ap (drop (length prior)) (l.waits.handled ∙ deliver-stream b.order m messages)
      ∙ drop-append prior (deliver snoc messages m [])

  -- How a receiver that has had what came stands to the stream.
  record Delivered (n : ℕ) (steps : List Step) (m : ℕ) (s : Session) : Type 0 where
    in_order : handed s.peer.events ≡ deliver snoc messages m []
    came : (j : ℕ) → j < m → has j (arrivals steps) ≡ true
    missing : has m (arrivals steps) ≡ false
    at_most : m ≤ n

  has-arrived :
      (j : ℕ) (steps : List Step)
      → has (b.order + j) (onto (order_indices b steps) (below b.order)) ≡ has j (arrivals steps)
  has-arrived j steps = ground (
    arith,
    has-onto (b.order + j) (order_indices b steps) (below b.order),
    has-shift b.order j (arrivals steps),
    has-below (b.order + j) b.order,
  )

  beyond_order :
      (next : ℕ) (steps : List Step)
      → has next (onto (order_indices b steps) (below b.order)) ≡ false
      → b.order ≤ next
  beyond_order next steps h =
      ground (arith, has-onto next (order_indices b steps) (below b.order), has-below next b.order)

  Link-Delivered :
      (n next : ℕ) (steps : List Step) (s : Session)
      → All (λ i. i < n) (arrivals steps)
      → Link io b messages prior games (onto (order_indices b steps) (below b.order)) next s
      → (m : ℕ) × Delivered n steps m s
  Link-Delivered n next steps s h l =
      let m = next - b.order in
      let far = beyond_order next steps l.waits.missing in
      let same : next ≡ b.order + m = omega arith in
      let l' =
        subst
          (λ k. Link io b messages prior games (onto (order_indices b steps) (below b.order)) k s)
          same l in
      let came : (j : ℕ) → j < m → has j (arrivals steps) ≡ true =
        λ j k. sym (has-arrived j steps) ∙ l'.waits.below (b.order + j) (omega (arith, k)) in
      (
        m,
        record {
          in_order = handed-deliver m _ s l';
          came = came;
          missing = sym (has-arrived m steps) ∙ l'.waits.missing;
          at_most = in_range n m (arrivals steps) h came;
        },
      )

module _ (io : BinaryStream) (laws : Laws io) (b : Start) (messages : ℕ → List ℕ) (n : ℕ)
    (times : ℕ → ℕ) (sender : Outbound) (receiver : Session) (steps : List Step)
    (games : (j : ℕ) → IsGame (messages j))
    (small : (j : ℕ) → length (messages j) + mtu_header_size ≤ sender.mtu)
    (fits : Fits b messages n) (ready : IsReady b sender) (awaits : Awaits b receiver)
    (sent_ones : All (λ i. i < n) (arrivals steps)) where
  -- One session sends `n` game packets, each small enough for a datagram, and the other one waits
  -- for the same numbers. Then `n` datagrams are sent. Of these whichever come, in whatever order and
  -- however often, with the receiver's timer firing between them: nothing is thrown, and what the
  -- receiver has handed on are the first `m` packets, in the order in which they were sent, each
  -- once, where `m` is the number of the first datagram that has not come.
  pub transport_in_order :
      (q : Outbound) × (sent : List (List ℕ)) × (m : ℕ) × (t : Session) × (send_messages io times
          messages n sender
        ≡ some q)
      × (q.sent ≡ sender.sent ++ sent)
      × (length sent ≡ n)
      × (run io sent steps receiver ≡ done t)
      × (handed t.peer.events ≡ deliver snoc messages m [])
      × ((j : ℕ) → j < m → has j (arrivals steps) ≡ true)
      × (has m (arrivals steps) ≡ false)
      × (m ≤ n)
  transport_in_order =
      let (q, sends, after_sending, mtu, sent, keeps) =
        send_messages-datagrams io times messages n b sender ready small in
      let (next, t, runs, l) =
        run-Link io laws b messages n fits games (prior io b messages games) b.order (below b.order)
          steps receiver sent_ones (Awaits-Link io b messages games receiver awaits) in
      let (m, d) = Link-Delivered io b messages games n next steps t sent_ones l in
      (
        q,
        datagrams io b messages n,
        m,
        t,
        sends,
        sent,
        length-datagrams io b messages n,
        runs,
        d.in_order,
        d.came,
        d.missing,
        d.at_most,
      )

  -- One session sends `n` game packets, each small enough for a datagram, and the other one waits
  -- for the same numbers. If every datagram comes at least once, in whatever order and however often,
  -- with the receiver's timer firing between them, all `n` packets are handed on, in the order in
  -- which they were sent, each once, and nothing is thrown.
  pub transport_complete :
      ((j : ℕ) → j < n → has j (arrivals steps) ≡ true)
      → (q : Outbound) × (sent : List (List ℕ)) × (t : Session) × (send_messages io times messages n
            sender
          ≡ some q)
        × (q.sent ≡ sender.sent ++ sent)
        × (run io sent steps receiver ≡ done t)
        × (handed t.peer.events ≡ deliver snoc messages n [])
  transport_complete all =
      let (q, sent, m, t, sends, appended, count, runs, in_order, came, missing, at_most) =
        transport_in_order in
      let whole : m ≡ n = ground (arith, all m) in
      (
        q,
        sent,
        t,
        sends,
        appended,
        runs,
        subst (λ k. handed t.peer.events ≡ deliver snoc messages k []) whole in_order,
      )
