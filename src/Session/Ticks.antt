-- ===== src/Session/Ticks.antt =====
-- Runs of `tick` of `NetworkSession` of packages/raknet/src/shared/network-session.ts.
use baltica.Base.{ℕ, ◌+◌, ◌≡◌, refl, not, ◌||◌, List, [], ◌∷◌, arith}
use baltica.Base.Tests.{leb, ltb, if_cases, option_cases}
use baltica.Base.Sets.{has}
use baltica.Stream.{BinaryStream}
use baltica.Outbound.Stable.{retransmit-Kept}
use baltica.Window.{Window}
use baltica.Window.Gaps.{IsConsistent, cleanup-IsConsistent}
use baltica.Session.{Session, Peer, Status, OfflineRetry, disconnect}
use baltica.Session.Offline.{send}
use baltica.Session.Soundness.{PeerIsSound, IsSound}
use baltica.Session.SoundOffline.{step-IsSound, given_up-IsSound}
use baltica.Session.Tick.{
  is_disconnected, is_stale, clean, send_acks, send_nacks, retransmit_all, maintain, retry,
  tick_live, tick, cleanup_interval,
}

pub list_cases {ℓ κ μ} :
    {A : Type ℓ} {B : Type μ} (P : B → Type κ) (xs : List A) (n : B) (k : A → List A → B)
    → P n
    → ((x : A) (ys : List A) → P (k x ys))
    → P (elim xs [ [] ↦ n | x ∷ ys ↦ k x ys ])
list_cases P [] n k hn hk = hn
list_cases P (x ∷ ys) n k hn hk = hk x ys

module _ (io : BinaryStream) (mtu : ℕ) where
  clean-IsSound : (now : ℕ) (s : Session) → IsSound mtu s → IsSound mtu (clean now s)
  unfolding clean
  clean-IsSound now s v =
      if_cases (IsSound mtu) (ltb (s.last_cleanup + cleanup_interval) now)
        (record {
          peer_sound = v.peer_sound;
          window_consistent = cleanup-IsConsistent s.window v.window_consistent;
        })
        v

  sent-PeerIsSound :
      (bytes : List ℕ) (p : Peer) → PeerIsSound mtu p → PeerIsSound mtu (send bytes p)
  sent-PeerIsSound bytes p v = record {
    tracks = record { can = v.tracks.can; same_keys = v.tracks.same_keys; used = v.tracks.used };
    mtu_below = v.mtu_below;
  }

  acked-IsConsistent : (w : Window) → IsConsistent w → IsConsistent (record w { pending_acks = [] })
  acked-IsConsistent w c = record {
    apart = c.apart;
    lost_below = c.lost_below;
    received_below = c.received_below;
    reliable_below = c.reliable_below;
  }

  nacked-IsConsistent :
      (w : Window) → IsConsistent w → IsConsistent (record w { lost_frame_sequences = [] })
  unfolding has
  nacked-IsConsistent w c = record {
    apart = λ k e. cc;
    lost_below = λ k e. cc;
    received_below = c.received_below;
    reliable_below = c.reliable_below;
  }

  send_acks-IsSound : (s : Session) → IsSound mtu s → IsSound mtu (send_acks io s)
  unfolding send_acks
  send_acks-IsSound s v = list_cases (IsSound mtu) s.window.pending_acks _ _ v λ x ys. record {
    peer_sound = sent-PeerIsSound _ s.peer v.peer_sound;
    window_consistent = acked-IsConsistent s.window v.window_consistent;
  }

  send_nacks-IsSound : (s : Session) → IsSound mtu s → IsSound mtu (send_nacks io s)
  unfolding send_nacks
  send_nacks-IsSound s v = list_cases (IsSound mtu) s.window.lost_frame_sequences _ _ v λ x ys.
      record {
        peer_sound = sent-PeerIsSound _ s.peer v.peer_sound;
        window_consistent = nacked-IsConsistent s.window v.window_consistent;
      }

  retransmit_all-IsSound :
      (now : ℕ) (s : Session) → IsSound mtu s → IsSound mtu (retransmit_all io now s)
  retransmit_all-IsSound now s v =
      let k =
        retransmit-Kept io s.peer.out.mtu now s.peer.out
          (record { tracks = v.peer_sound.tracks; mtu_is = refl }) in
      record {
        peer_sound = record {
          tracks = k.tracks;
          mtu_below = omega (arith, k.mtu_is, v.peer_sound.mtu_below);
        };
        window_consistent = v.window_consistent;
      }

  maintain-IsSound : (now : ℕ) (s : Session) → IsSound mtu s → IsSound mtu (maintain io now s)
  maintain-IsSound now s v =
      retransmit_all-IsSound now _
        (send_nacks-IsSound _ (send_acks-IsSound _ (clean-IsSound now s v)))

  retry-IsSound :
      (now : ℕ) (r : OfflineRetry) (s : Session) → IsSound mtu s → IsSound mtu (retry io now r s)
  unfolding retry
  retry-IsSound now r s v =
      if_cases (IsSound mtu) (leb r.max_attempts r.attempts)
        (step-IsSound io mtu s _ v refl refl refl refl refl (omega arith))
        (step-IsSound io mtu s _ v refl refl refl refl refl (omega arith))

  tick_live-IsSound : (now : ℕ) (s : Session) → IsSound mtu s → IsSound mtu (tick_live io now s)
  unfolding tick_live
  tick_live-IsSound now s v =
      option_cases (IsSound mtu) s.offline_retry _ _ (maintain-IsSound now s v) λ r e.
        if_cases (IsSound mtu) (leb (r.last_sent + r.interval) now) (retry-IsSound now r s v)
          (maintain-IsSound now s v)

  -- `tick` keeps the session sound, whichever way it takes.
  pub tick-IsSound : (now : ℕ) (s : Session) → IsSound mtu s → IsSound mtu (tick io now s)
  unfolding tick
  tick-IsSound now s v =
      if_cases (IsSound mtu) (is_disconnected s.peer.status || not s.peer.out.can_send) v (
        if_cases (IsSound mtu) (is_stale now s) (given_up-IsSound io mtu disconnect s v)
          (tick_live-IsSound now s v))

module _ (io : BinaryStream) where
  -- `tick` at each of the times.
  unfoldable pub ticks : List ℕ → Session → Session
  ticks [] s = s
  ticks (now ∷ times) s = ticks times (tick io now s)

  pub tick_disconnected :
      (now : ℕ) (s : Session) → s.peer.status ≡ Status.disconnected → tick io now s ≡ s
  unfolding tick
  tick_disconnected now s e = rw e refl
