-- ===== src/Session/Keepalive.antt =====
-- `startKeepalive` and `destroy` of packages/raknet/src/shared/network-session.ts, and the listeners
-- by which packages/raknet/src/client/client.ts closes its session when it ends.
--
-- `tick` returns right after it has emitted an event, so its listeners are run when it has returned.
use baltica.Base.{
  ℕ, ◌+◌, ◌≡◌, refl, sym, subst, ap, ◌∙◌, Bool, true, false, not, ◌&&◌, ◌||◌, map, List, [], ◌∷◌,
  arith,
}
use baltica.Base.Tests.{ltb, if◌then◌else◌, if_cases}
use baltica.Base.Lists.{length, drop, drop-append}
use baltica.Stream.{BinaryStream}
use baltica.Base.{◌<◌}
use baltica.Session.{Session, Status, Event, become, disconnect}
use baltica.Session.Offline.{give_up, set_timer}
use baltica.Session.Tick.{tick}
use baltica.Session.Ticks.{tick_disconnected}

-- A session with what only its timers and its owner know of it.
pub record Live : Type 0 where
  pub session : Session
  -- Whether the keepalive timer is pending.
  pub keepalive : Bool
  pub destroyed : Bool

-- The interval of `startKeepalive`.
abbrev pub keepalive_interval : Status → ℕ
keepalive_interval Status.connected = 10
keepalive_interval Status.connecting = 10
keepalive_interval _ = 100

-- `startKeepalive`: a timer that is pending is replaced.
abbrev pub start_keepalive : Live → Live
start_keepalive l = record l { keepalive = true }

-- `new NetworkSession(mtu, client)`
abbrev pub new_live : Session → Live
new_live s = record { session = s; keepalive = true; destroyed = false }

-- `destroy`
unfoldable pub destroy : Live → Live
destroy l = record {
  session = record l.session {
    peer = set_timer false (become Status.disconnected l.session.peer);
    ack_timer = false;
  };
  keepalive = false;
  destroyed = true;
}

abbrev pub is_end : Event → Bool
is_end Event.disconnect = true
is_end (Event.error why) = true
is_end _ = false

unfoldable pub any_end : List Event → Bool
any_end [] = false
any_end (event ∷ events) = is_end event || any_end events

-- The events that a call has added.
abbrev pub added : Session → Session → List Event
added s t = drop (length s.peer.events) t.peer.events

-- The client's listeners for "disconnect" and "error", which `destroy` removes: both close the
-- client, which destroys the session.
unfoldable pub hear : List Event → Live → Live
hear events l = if any_end events && not l.destroyed then destroy l else l

module _ (io : BinaryStream) where
  -- `this.tick()`
  unfoldable pub tick_heard : ℕ → Live → Live
  tick_heard now l =
      let t = tick io now l.session in hear (added l.session t) (record l { session = t })

  -- The callback of the keepalive timer.
  unfoldable pub on_keepalive : ℕ → Live → Live
  on_keepalive now l =
      if l.keepalive then start_keepalive (tick_heard now (record l { keepalive = false })) else l

  -- The timer fires, the owner destroys the session, or another call, which may be any of `receive`,
  -- `sendFrame` and the others, before or after the end, leaves it as whatever session it likes.
  pub data TimerStep : Type 0 where
    fires : ℕ → TimerStep
    destroys : TimerStep
    becomes : Session → TimerStep

  abbrev pub perform : TimerStep → Live → Live
  perform (fires now) l = on_keepalive now l
  perform destroys l = destroy l
  perform (becomes s) l = record l { session = s }

  unfoldable pub perform_all : List TimerStep → Live → Live
  perform_all [] l = l
  perform_all (op ∷ ops) l = perform_all ops (perform op l)

drop_all : (es : List Event) → drop (length es) es ≡ []
drop_all [] = refl
drop_all (e ∷ es) = drop_all es

module _ (io : BinaryStream) where
  abbrev IsPending : Live → Type 0
  IsPending l = l.destroyed ≡ false → l.keepalive ≡ true

  perform-IsPending : (op : TimerStep io) (l : Live) → IsPending l → IsPending (perform io op l)
  unfolding on_keepalive destroy
  perform-IsPending (fires now) l h = if_cases IsPending l.keepalive (λ e. refl) h
  perform-IsPending destroys l h = λ e. cc
  perform-IsPending (becomes s) l h = h

  perform_all-IsPending :
      (ops : List (TimerStep io)) (l : Live) → IsPending l → IsPending (perform_all io ops l)
  unfolding perform_all
  perform_all-IsPending [] l h = h
  perform_all-IsPending (op ∷ ops) l h =
      perform_all-IsPending ops (perform io op l) (perform-IsPending op l h)

  -- The steps without the firings of the timer.
  unfoldable pub without_fires : List (TimerStep io) → List (TimerStep io)
  without_fires [] = []
  without_fires (fires now ∷ ops) = without_fires ops
  without_fires (destroys ∷ ops) = destroys ∷ without_fires ops
  without_fires (becomes s ∷ ops) = becomes s ∷ without_fires ops

  abbrev IsOver : Live → Type 0
  IsOver l = (l.destroyed ≡ true) × (l.keepalive ≡ false)

  fires_idle : (now : ℕ) (l : Live) → l.keepalive ≡ false → perform io (fires now) l ≡ l
  unfolding on_keepalive
  fires_idle now l k = rw k refl

  perform-IsOver : (op : TimerStep io) (l : Live) → IsOver l → IsOver (perform io op l)
  unfolding destroy
  perform-IsOver (fires now) l h = subst IsOver (sym (fires_idle now l h.1)) h
  perform-IsOver destroys l h = (refl, refl)
  perform-IsOver (becomes s) l h = h

  perform_all-IsOver :
      (ops : List (TimerStep io)) (l : Live) → IsOver l → IsOver (perform_all io ops l)
  unfolding perform_all
  perform_all-IsOver [] l h = h
  perform_all-IsOver (op ∷ ops) l h =
      perform_all-IsOver ops (perform io op l) (perform-IsOver op l h)

  perform_all_over :
      (ops : List (TimerStep io)) (l : Live)
      → IsOver l
      → perform_all io ops l ≡ perform_all io (without_fires ops) l
  unfolding perform_all without_fires
  perform_all_over [] l h = refl
  perform_all_over (fires now ∷ ops) l h =
      ap (perform_all io ops) (fires_idle now l h.1) ∙ perform_all_over ops l h
  perform_all_over (destroys ∷ ops) l h =
      perform_all_over ops (destroy l) (perform-IsOver destroys l h)
  perform_all_over (becomes s ∷ ops) l h =
      perform_all_over ops (record l { session = s }) (perform-IsOver (becomes s) l h)

  -- As long as a new session has not been destroyed, its keepalive timer is pending. When it is
  -- destroyed between two callbacks, it is disconnected then; and whatever other calls make of it
  -- afterwards, the timer is never pending again, and leaving out its firings changes nothing.
  pub keepalive_until_destroyed :
      (before after : List (TimerStep io)) (s : Session)
      → let l = perform_all io before (new_live s) in
        (l.destroyed ≡ false → l.keepalive ≡ true)
        × ((destroy l).session.peer.status ≡ Status.disconnected)
        × ((perform_all io after (destroy l)).keepalive ≡ false)
        × (perform_all io after (destroy l) ≡ perform_all io (without_fires after) (destroy l))
  unfolding destroy
  keepalive_until_destroyed before after s =
      let l = perform_all io before (new_live s) in
      (
        perform_all-IsPending before (new_live s) (λ e. refl),
        refl,
        (perform_all-IsOver after (destroy l) (refl, refl)).1,
        perform_all_over after (destroy l) (refl, refl),
      )

  tick_stale :
      (now : ℕ) (s : Session)
      → s.peer.status ≡ Status.connected
      → s.peer.out.can_send ≡ true
      → s.last_received_at + s.stale_timeout < now
      → tick io now s ≡ give_up disconnect s
  unfolding tick
  tick_stale now s c o h =
      let late : ltb (s.last_received_at + s.stale_timeout) now ≡ true = ground arith in
      rw (c, o, late) refl

  -- The callback in which the session goes stale.
  on_keepalive_stale :
      (now : ℕ) (s : Session)
      → s.peer.status ≡ Status.connected
      → s.peer.out.can_send ≡ true
      → s.last_received_at + s.stale_timeout < now
      → on_keepalive io now (new_live s)
        ≡ start_keepalive
            (destroy (record (new_live s) { session = give_up disconnect s; keepalive = false }))
  unfolding on_keepalive tick_heard hear any_end
  on_keepalive_stale now s c o h =
      rw (tick_stale now s c o h, drop-append s.peer.events (disconnect ∷ [])) refl

  -- After that the timer goes on firing.
  on_keepalive_idle :
      (now : ℕ) (l : Live)
      → l.session.peer.status ≡ Status.disconnected
      → l.keepalive ≡ true
      → on_keepalive io now l ≡ l
  unfolding on_keepalive tick_heard hear any_end
  on_keepalive_idle now l d k =
      rw (k, tick_disconnected io now l.session d, drop_all l.session.peer.events) refl

  idle_forever :
      (times : List ℕ) (l : Live)
      → l.session.peer.status ≡ Status.disconnected
      → l.keepalive ≡ true
      → perform_all io (map fires times) l ≡ l
  unfolding perform_all
  idle_forever [] l d k = refl
  idle_forever (now ∷ times) l d k =
      ap (perform_all io (map fires times)) (on_keepalive_idle now l d k) ∙ idle_forever times l d k

  -- When a connected session goes stale, its client destroys it within the callback of the keepalive
  -- timer, which then starts the timer again: however often it fires, it is pending still.
  pub stale_keepalive_survives :
      (now : ℕ) (times : List ℕ) (s : Session)
      → s.peer.status ≡ Status.connected
      → s.peer.out.can_send ≡ true
      → s.last_received_at + s.stale_timeout < now
      → let l = perform_all io (fires now ∷ map fires times) (new_live s) in
        (l.destroyed ≡ true) × (l.session.peer.status ≡ Status.disconnected) × (l.keepalive ≡ true)
  unfolding perform_all destroy
  stale_keepalive_survives now times s c o h =
      let l =
        start_keepalive
          (destroy (record (new_live s) { session = give_up disconnect s; keepalive = false })) in
      let same =
        ap (perform_all io (map fires times)) (on_keepalive_stale now s c o h)
        ∙ idle_forever times l refl refl in
      (ap (λ x. x.destroyed) same, ap (λ x. x.session.peer.status) same, ap (λ x. x.keepalive) same)
