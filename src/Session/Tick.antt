-- ===== src/Session/Tick.antt =====
-- `tick` of `NetworkSession` of packages/raknet/src/shared/network-session.ts.
use baltica.Base.{ℕ, ◌+◌, Bool, true, false, not, ◌&&◌, ◌||◌, none, some, [], ◌∷◌}
use baltica.Base.Tests.{leb, ltb, if◌then◌else◌}
use baltica.Base.Maps.{Map}
use baltica.Stream.{BinaryStream}
use baltica.Acknowledgement
use baltica.Acknowledgement.{Kind}
use baltica.Fragment.{Entry}
use baltica.Outbound.{retransmit}
use baltica.Window.{cleanup}
use baltica.Session.{Session, Status, OfflineRetry, disconnect, error, timed_out}
use baltica.Session.Offline.{send, set_timer, give_up}

abbrev pub fragment_timeout : ℕ
fragment_timeout = 30000

abbrev pub cleanup_interval : ℕ
cleanup_interval = 5000

abbrev pub is_connected : Status → Bool
is_connected Status.connected = true
is_connected _ = false

abbrev pub is_disconnected : Status → Bool
is_disconnected Status.disconnected = true
is_disconnected _ = false

-- `now - this.lastReceivedAt > this.staleTimeout` while connected.
abbrev pub is_stale : ℕ → Session → Bool
is_stale now s = is_connected s.peer.status && ltb (s.last_received_at + s.stale_timeout) now

-- `for (const [id, entry] of this.fragmentsQueue) if (now - entry.timestamp > …) delete`
unfoldable pub forget_old : ℕ → Map Entry → Map Entry
forget_old now [] = []
forget_old now ((id, entry) ∷ queue) =
    if ltb (entry.timestamp + fragment_timeout) now
    then forget_old now queue
    else (id, entry) ∷ forget_old now queue

-- `if (now - this.lastCleanup > 5000)`
unfoldable pub clean : ℕ → Session → Session
clean now s =
    if ltb (s.last_cleanup + cleanup_interval) now
    then record s {
      last_cleanup = now;
      window = cleanup s.window;
      fragments = forget_old now s.fragments;
    }
    else s

module _ (io : BinaryStream) where
  unfoldable pub send_acks : Session → Session
  send_acks s = elim s.window.pending_acks [
    | [] ↦ s
    | seq ∷ seqs ↦ record s {
      window = record s.window { pending_acks = [] };
      peer = send (Acknowledgement.serialize io Kind.ack (seq ∷ seqs)) s.peer;
    }
  ]

  unfoldable pub send_nacks : Session → Session
  send_nacks s = elim s.window.lost_frame_sequences [
    | [] ↦ s
    | seq ∷ seqs ↦ record s {
      window = record s.window { lost_frame_sequences = [] };
      peer = send (Acknowledgement.serialize io Kind.nack (seq ∷ seqs)) s.peer;
    }
  ]

  abbrev pub retransmit_all : ℕ → Session → Session
  retransmit_all now s = record s { peer = record s.peer { out = retransmit io now s.peer.out } }

  -- From the cleanup on.
  abbrev pub maintain : ℕ → Session → Session
  maintain now s = retransmit_all now (send_nacks (send_acks (clean now s)))

  -- `if (r.attempts >= r.maxAttempts)`, or the next attempt.
  unfoldable pub retry : ℕ → OfflineRetry → Session → Session
  retry now r s =
      if leb r.max_attempts r.attempts
      then give_up (error timed_out) (record s { offline_retry = none })
      else record s {
        offline_retry = some (record r { attempts = r.attempts + 1; last_sent = now });
        peer = set_timer true (send r.data_sent s.peer);
      }

  -- The offline retry if it is due, or the rest.
  unfoldable pub tick_live : ℕ → Session → Session
  tick_live now s = elim s.offline_retry [
    | none ↦ maintain now s
    | some r ↦ if leb (r.last_sent + r.interval) now then retry now r s else maintain now s
  ]

  -- `tick`
  unfoldable pub tick : ℕ → Session → Session
  tick now s =
      if is_disconnected s.peer.status || not s.peer.out.can_send
      then s
      else if is_stale now s
      then give_up disconnect s
      else tick_live now s
