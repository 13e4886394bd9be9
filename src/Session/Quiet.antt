-- ===== src/Session/Quiet.antt =====
-- What `tick` of `NetworkSession` of packages/raknet/src/shared/network-session.ts leaves alone: the
-- packets that are handed on and their order. What has come is only ever forgotten.
use baltica.Base.{
  ℕ, ◌+◌, ◌≡◌, refl, ap, ◌∙◌, true, not, ◌||◌, ◌++◌, [], ◌∷◌, append-nil, List, arith,
}
use baltica.Base.Tests.{leb, ltb, if_cases, option_cases}
use baltica.Base.Sets.{has, has-delete_below, delete_below}
use baltica.Stream.{BinaryStream}
use baltica.Window.{
  Window, cleanup, cleanup_sequences, cleanup_indices, receive_window, reliable_window,
}
use baltica.Session.{Session, Event, disconnect, error, timed_out, OfflineRetry}
use baltica.Session.Handed.{handed, handed-append}
use baltica.Session.Tick.{
  is_disconnected, is_stale, clean, send_acks, send_nacks, maintain, retry, tick_live, tick,
  cleanup_interval,
}
use baltica.Session.Ticks.{list_cases}

abbrev Within : List ℕ → List ℕ → Type 0
Within xs ys = (k : ℕ) → has k xs ≡ true → has k ys ≡ true

-- The members of the window are among those of another.
record Shrinks (w v : Window) : Type 0 where
  sequences_within : Within v.received_frame_sequences w.received_frame_sequences
  indices_within : Within v.received_reliable_frame_indices w.received_reliable_frame_indices

pub record IsQuiet (s t : Session) : Type 0 where
  pub same_ordering : t.ordering ≡ s.ordering
  pub same_handed : handed t.peer.events ≡ handed s.peer.events
  pub sequences :
      (k : ℕ)
      → has k t.window.received_frame_sequences ≡ true
      → has k s.window.received_frame_sequences ≡ true
  pub indices :
      (k : ℕ)
      → has k t.window.received_reliable_frame_indices ≡ true
      → has k s.window.received_reliable_frame_indices ≡ true

delete_below-Within : (b : ℕ) (xs : List ℕ) → Within (delete_below b xs) xs
delete_below-Within b xs k h = ground (arith, has-delete_below b k xs)

Shrinks-refl : (w : Window) → Shrinks w w
Shrinks-refl w = record { sequences_within = λ k h. h; indices_within = λ k h. h }

cleanup_sequences-Shrinks : (w : Window) → Shrinks w (cleanup_sequences w)
unfolding cleanup_sequences
cleanup_sequences-Shrinks w =
    if_cases (Shrinks w) (ltb (receive_window + 1) w.next_input_sequence)
      (record { sequences_within = delete_below-Within _ _; indices_within = λ k h. h })
      (Shrinks-refl w)

cleanup_indices-Shrinks : (w : Window) → Shrinks w (cleanup_indices w)
unfolding cleanup_indices
cleanup_indices-Shrinks w =
    if_cases (Shrinks w) (ltb (reliable_window + 1) w.next_reliable_index)
      (record { sequences_within = λ k h. h; indices_within = delete_below-Within _ _ })
      (Shrinks-refl w)

Shrinks-trans : (u v w : Window) → Shrinks u v → Shrinks v w → Shrinks u w
Shrinks-trans u v w a b = record {
  sequences_within = λ k h. a.sequences_within k (b.sequences_within k h);
  indices_within = λ k h. a.indices_within k (b.indices_within k h);
}

quiet :
    (s t : Session)
    → t.ordering ≡ s.ordering
    → handed t.peer.events ≡ handed s.peer.events
    → Shrinks s.window t.window
    → IsQuiet s t
quiet s t o e w = record {
  same_ordering = o;
  same_handed = e;
  sequences = w.sequences_within;
  indices = w.indices_within;
}

IsQuiet-trans : (s t u : Session) → IsQuiet s t → IsQuiet t u → IsQuiet s u
IsQuiet-trans s t u a b = record {
  same_ordering = b.same_ordering ∙ a.same_ordering;
  same_handed = b.same_handed ∙ a.same_handed;
  sequences = λ k h. a.sequences k (b.sequences k h);
  indices = λ k h. a.indices k (b.indices k h);
}

-- An event that is not a game packet hands nothing on.
handed_silent :
    (es : List Event) (event : Event)
    → handed (event ∷ []) ≡ []
    → handed (es ++ event ∷ []) ≡ handed es
handed_silent es event e =
    handed-append es (event ∷ []) ∙ ap (λ xs. handed es ++ xs) e ∙ append-nil (handed es)

module _ (io : BinaryStream) where
  clean-IsQuiet : (now : ℕ) (s : Session) → IsQuiet s (clean now s)
  unfolding clean
  clean-IsQuiet now s =
      if_cases (IsQuiet s) (ltb (s.last_cleanup + cleanup_interval) now)
        (quiet s _ refl refl (
          Shrinks-trans s.window (cleanup_sequences s.window) (cleanup s.window)
            (cleanup_sequences-Shrinks s.window) (cleanup_indices-Shrinks _)))
        (quiet s s refl refl (Shrinks-refl s.window))

  send_acks-IsQuiet : (s : Session) → IsQuiet s (send_acks io s)
  unfolding send_acks
  send_acks-IsQuiet s =
      list_cases (IsQuiet s) s.window.pending_acks _ _ (quiet s s refl refl (Shrinks-refl _))
        λ x ys.
          quiet s _ refl refl (record { sequences_within = λ k h. h; indices_within = λ k h. h })

  send_nacks-IsQuiet : (s : Session) → IsQuiet s (send_nacks io s)
  unfolding send_nacks
  send_nacks-IsQuiet s =
      list_cases (IsQuiet s) s.window.lost_frame_sequences _ _
        (quiet s s refl refl (Shrinks-refl _))
        λ x ys.
          quiet s _ refl refl (record { sequences_within = λ k h. h; indices_within = λ k h. h })

  maintain-IsQuiet : (now : ℕ) (s : Session) → IsQuiet s (maintain io now s)
  maintain-IsQuiet now s =
      let a = clean now s in
      let b = send_acks io a in
      let c = send_nacks io b in
      IsQuiet-trans s a _ (clean-IsQuiet now s) (
        IsQuiet-trans a b _ (send_acks-IsQuiet a) (
          IsQuiet-trans b c _ (send_nacks-IsQuiet b) (quiet c _ refl refl (Shrinks-refl c.window))))

  retry-IsQuiet : (now : ℕ) (r : OfflineRetry) (s : Session) → IsQuiet s (retry io now r s)
  unfolding retry
  retry-IsQuiet now r s =
      if_cases (IsQuiet s) (leb r.max_attempts r.attempts)
        (quiet s _ refl (handed_silent s.peer.events (error timed_out) (unfold handed in refl))
          (Shrinks-refl s.window))
        (quiet s _ refl refl (Shrinks-refl s.window))

  tick_live-IsQuiet : (now : ℕ) (s : Session) → IsQuiet s (tick_live io now s)
  unfolding tick_live
  tick_live-IsQuiet now s =
      option_cases (IsQuiet s) s.offline_retry _ _ (maintain-IsQuiet now s) λ r e.
        if_cases (IsQuiet s) (leb (r.last_sent + r.interval) now) (retry-IsQuiet now r s)
          (maintain-IsQuiet now s)

  pub tick-IsQuiet : (now : ℕ) (s : Session) → IsQuiet s (tick io now s)
  unfolding tick
  tick-IsQuiet now s =
      if_cases (IsQuiet s) (is_disconnected s.peer.status || not s.peer.out.can_send)
        (quiet s s refl refl (Shrinks-refl s.window))
        (if_cases (IsQuiet s) (is_stale now s)
          (quiet s _ refl (handed_silent s.peer.events disconnect (unfold handed in refl))
            (Shrinks-refl s.window))
          (tick_live-IsQuiet now s))
